-- ===== src/Controller/Receiving/Shutdown.antt =====
-- What becomes of the pending calls when the stream ends.
use totem.Base.{
  ℕ, ◌≡◌, ◌∙◌, ◌<◌, ◌≤◌, ◌+◌, refl, sym, ap, subst, true, false, Option, none, some, List, [], ◌∷◌,
  Any, Bool-cases, ◌⊎◌, inl, inr, nat_eq, arith, length, length-append, length-set, ==_iff, ◌==◌,
  if◌then◌else◌,
}
use totem.Base.Table.{Table, load, keys, load-store, load-delete}
use totem.Status.{Err, StatusApi, is_eof}
use totem.Context.{Tracing}
use totem.Controller.{new_chan, Controller, running, draining, stopped, next, uint64_mod}
use totem.Controller.Receiving.{
  Event, fails, step, run, all_cancelled, is_none, on_failure, stream_ended,
}
use totem.Controller.Receiving.Invariant.{tag_of}
use totem.Controller.Receiving.Channels.{pushed, take-closed}
use totem.Controller.Receiving.Moves.{
  News, Move, idle, issued, streamed, answered, taken, Turn, stays, ends, gives_up, finishes, Calls,
  calls, next_inj,
}
use totem.Controller.Receiving.Taken.{step-Moves}
use totem.Controller.Receiving.Answered.{Closed, Closed-concat, Closed-set}
use totem.Controller.Receiving.Runs.{
  Good, IsFresh, IsFresh-Good, step-Good, run-Good, run_induction,
}

all_cancelled-none :
    (tags : List ℕ) (pending : Table ℕ ℕ) (t : ℕ)
    → all_cancelled tags pending ≡ true
    → Any (λ x. x ≡ t) tags
    → load t pending ≡ none
unfolding all_cancelled is_none
all_cancelled-none (x ∷ tags) pending t h (inl e) = ground (arith, e)
all_cancelled-none (x ∷ tags) pending t h (inr k) =
    all_cancelled-none tags pending t (ground arith) k
all_cancelled-none [] pending t h k = absurd k

load-keys :
    (pending : Table ℕ ℕ) (t a : ℕ) → load t pending ≡ some a → Any (λ x. x ≡ t) (keys pending)
load-keys [] t a h = cc
load-keys ((k, v) ∷ m) t a h = elim (Bool-cases (k == t)) [
  | inl e ↦ inl ((==_iff k t).0 e)
  | inr e ↦ inr (load-keys m t a (ground arith))
]

Move-Closed : {said : News} {s t : Calls} → Move said s t → (a : ℕ) → Closed s.0 a → Closed t.0 a
Move-Closed (idle n e) a k = rw e k
Move-Closed {s = s} (issued n e) a k = rw e (Closed-concat s.0 a k)
Move-Closed {s = s} (streamed b m ch n there here unclosed e) a k =
    rw e (Closed-set s.0 b a ch (pushed false m ch) here (λ closed. cc) k)
Move-Closed {s = s} (answered b m ch n there here unclosed e) a k =
    rw e (Closed-set s.0 b a ch (pushed true m ch) here (λ closed. refl) k)
Move-Closed {s = s} (taken b ch out n here t e) a k =
    rw e (Closed-set s.0 b a ch out here (λ closed. take-closed ch out t ∙ closed) k)

pub Move-length : {said : News} {s t : Calls} → Move said s t → length s.0 ≤ length t.0
Move-length (idle n e) = rw e (omega arith)
Move-length {s = s} (issued n e) = rw e (omega (arith, length-append s.0 (new_chan ∷ [])))
Move-length {s = s} (streamed b m ch n there here unclosed e) =
    rw e (omega (arith, length-set s.0 b (pushed false m ch)))
Move-length {s = s} (answered b m ch n there here unclosed e) =
    rw e (omega (arith, length-set s.0 b (pushed true m ch)))
Move-length {s = s} (taken b ch out n here t e) = rw e (omega (arith, length-set s.0 b out))

-- An entry of an old call was there before.
Move-old :
    {said : News} {s t : Calls}
    → Move said s t
    → (tag a : ℕ) → a < length s.0
    → load tag t.1 ≡ some a
    → load tag s.1 ≡ some a
Move-old (idle n e) tag a lt h = ground (arith, e)
Move-old {s = s} (issued n e) tag a lt h =
    ground (arith, rw e at h, load-store (tag_of (length s.0)) tag (length s.0) s.1)
Move-old (streamed b m ch n there here unclosed e) tag a lt h = ground (arith, e)
Move-old {s = s} (answered b m ch n there here unclosed e) tag a lt h =
    ground (arith, rw e at h, load-delete m.tag tag s.1)
Move-old (taken b ch out n here t e) tag a lt h = ground (arith, e)

-- The calls made by the time the stream ended, `n` of them: their channels are closed.
abbrev pub AllClosed : ℕ → Controller → Type 0
AllClosed n c = (a : ℕ) → a < n → Closed c.channels a

-- `Run` is cancelling the noted calls, or has returned and left none of them.
abbrev Wound : ℕ → Option Err → List ℕ → Controller → Type 0
Wound n e tags c =
    (c.phase ≡ draining e tags)
    ⊎ ((c.phase ≡ stopped e) × (length c.channels < uint64_mod → AllClosed n c))

record Ending (n : ℕ) (e : Option Err) (tags : List ℕ) (c : Controller) : Type 0 where
  good : Good c
  enough : n ≤ length c.channels
  noted : (tag a : ℕ) → a < n → load tag c.pending ≡ some a → Any (λ x. x ≡ tag) tags
  wound : Wound n e tags c

-- when all noted calls are cancelled, all old channels are closed
finished-AllClosed :
    (n : ℕ) (e : Option Err) (tags : List ℕ) (c : Controller)
    → Ending n e tags c
    → all_cancelled tags c.pending ≡ true
    → length c.channels < uint64_mod
    → AllClosed n c
finished-AllClosed n e tags c d done fits a lt =
    elim (d.good.kept.kept fits a (omega (arith, d.enough))) [
      | inl pending ↦
          cc (all_cancelled-none tags c.pending (a + 1) done (d.noted (a + 1) a lt pending))
      | inr closed ↦ closed
    ]

carried :
    {said : News} (n : ℕ) (c out : Controller)
    → Move said (calls c) (calls out)
    → (length c.channels < uint64_mod → AllClosed n c)
    → length out.channels < uint64_mod
    → AllClosed n out
carried n c out m old fits a lt = Move-Closed m a (old (omega (arith, Move-length m)) a lt)

Turn-Wound :
    {said : News} (n : ℕ) (e : Option Err) (tags : List ℕ) (c out : Controller)
    → Ending n e tags c
    → Move said (calls c) (calls out)
    → Turn c out
    → Wound n e tags c
    → Wound n e tags out
Turn-Wound n e tags c out d m (stays p) (inl q) = inl (p ∙ q)
Turn-Wound n e tags c out d m (stays p) (inr (q, k)) = inr (p ∙ q, carried n c out m k)
Turn-Wound n e tags c out d m (ends x r p) (inl q) = cc
Turn-Wound n e tags c out d m (ends x r p) (inr (q, k)) = cc
Turn-Wound n e tags c out d m (gives_up x r p) (inl q) = cc
Turn-Wound n e tags c out d m (gives_up x r p) (inr (q, k)) = cc
Turn-Wound n e tags c out d m (finishes x xs r done p) (inl q) =
    let same_tags : xs ≡ tags = cc in
    let same_err : x ≡ e = cc in
    inr (
      p ∙ ap stopped same_err,
      carried n c out m (finished-AllClosed n e tags c d (rw (← same_tags) done)),
    )
Turn-Wound n e tags c out d m (finishes x xs r done p) (inr (q, k)) = cc

module _ (api : StatusApi) (tracing : Tracing) where
  step-Ending :
      (n : ℕ) (e : Option Err) (tags : List ℕ) (ev : Event) (c out : Controller)
      → Ending n e tags c
      → step api tracing ev c ≡ next out
      → Ending n e tags out
  step-Ending n e tags ev c out d h =
      let (m, t) = step-Moves api tracing ev c out d.good.sound h in
      record {
        good = step-Good api tracing ev c out d.good h;
        enough = omega (arith, d.enough, Move-length m);
        noted =
            λ tag a lt there. d.noted tag a lt (Move-old m tag a (omega (arith, d.enough)) there);
        wound = Turn-Wound n e tags c out d m t d.wound;
      }

  step-failure :
      (e : Err) (c : Controller)
      → c.phase ≡ running
      → step api tracing (fails e) c ≡ next (stream_ended e c)
  unfolding step on_failure
  step-failure e c live = rw (live, on_failure)

  ended-Ending :
      (e : Err) (c : Controller)
      → Good c
      → Ending
          (length c.channels)
          (if is_eof e then none else some e)
          (keys c.pending)
          (stream_ended e c)
  unfolding stream_ended
  ended-Ending e c g = record {
    good = record { sound = g.sound; kept = g.kept };
    enough = omega arith;
    noted = λ tag a lt there. load-keys c.pending tag a there;
    wound = inl refl;
  }

  start-Ending :
      (e : Err) (c d : Controller)
      → Good c
      → c.phase ≡ running
      → step api tracing (fails e) c ≡ next d
      → Ending (length c.channels) (if is_eof e then none else some e) (keys c.pending) d
  start-Ending e c d g live h =
      subst (Ending (length c.channels) (if is_eof e then none else some e) (keys c.pending))
        (next_inj (sym (step-failure e c live) ∙ h)) (ended-Ending e c g)

  -- Let a controller with no calls run until its stream fails, and then until `Run` has returned
  -- by way of its cancellations, with fewer than 2^64 calls made. Then every call made before the
  -- failure has a closed channel, so that each has had its response or its cancellation; and `Run`
  -- returns the error of the stream, or nil if it was io.EOF.
  pub shutdown_answers :
      (before after : List Event) (e : Err) (start c d out : Controller) (r : Option Err)
      → IsFresh start
      → run api tracing before start ≡ next c
      → c.phase ≡ running
      → step api tracing (fails e) c ≡ next d
      → run api tracing after d ≡ next out
      → out.phase ≡ stopped r
      → length out.channels < uint64_mod
      → AllClosed (length c.channels) out × (r ≡ (if is_eof e then none else some e))
  shutdown_answers before after e start c d out r f h live fail rest done fits =
      let end =
        run_induction api tracing
          (Ending (length c.channels) (if is_eof e then none else some e) (keys c.pending))
          (step-Ending _ _ _) after d out
          (start-Ending e c d (run-Good api tracing before start c (IsFresh-Good start f) h) live
            fail)
          rest in
      elim end.wound [ inl q ↦ cc | inr (q, closed) ↦ (closed fits, cc) ]
