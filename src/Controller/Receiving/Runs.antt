-- ===== src/Controller/Receiving/Runs.antt =====
-- Whole runs of a controller: what holds after any list of events.
use totem.Base.{
  ℕ, ◌≡◌, ◌∙◌, ◌<◌, ◌+◌, refl, sym, subst, some, List, [], ◌∷◌, ◌⊎◌, inl, inr, nat_eq, length,
  get_elem?,
}
use totem.Base.Table.{load}
use totem.Wire.{Rpc}
use totem.Status.{StatusApi}
use totem.Context.{Tracing}
use totem.Controller.{
  Chan, Controller, Verdict, next, blocks, crashes, Panic, unexpected_tag, uint64_mod,
}
use totem.Controller.Receiving.{Event, arrives, issues, step, run}
use totem.Controller.Receiving.Channels.{IsChan}
use totem.Controller.Receiving.Invariant.{IsSound, empty-Sound, tag_of}
use totem.Controller.Receiving.Safety.{Safe, step-Safe}
use totem.Controller.Receiving.Moves.{calls, next_inj}
use totem.Controller.Receiving.Taken.{step-Moves}
use totem.Controller.Receiving.Answered.{Closed, Kept, Move-Kept}

pub data IsUnexpected : Panic → Type 0 where
  unexpected : (t : ℕ) → IsUnexpected (unexpected_tag t)

-- no call was made yet
pub record IsFresh (c : Controller) : Type 0 where
  pub count : c.count ≡ 0
  pub channels : c.channels ≡ []
  pub pending : c.pending ≡ []

pub record Good (c : Controller) : Type 0 where
  pub sound : IsSound c
  pub kept : Kept (calls c)

pub IsFresh-Good : (c : Controller) → IsFresh c → Good c
IsFresh-Good c f = record {
  sound = rw (f.count, f.channels, f.pending) empty-Sound;
  kept = rw (f.channels, f.pending) (record { kept = λ fits a lt. elim lt [ ] });
}

pub Verdict-cases :
    (v : Verdict)
    → ((c : Controller) × (v ≡ next c)) ⊎ (v ≡ blocks) ⊎ ((p : Panic) × (v ≡ crashes p))
Verdict-cases (next c) = inl (c, refl)
Verdict-cases blocks = inr (inl refl)
Verdict-cases (crashes p) = inr (inr (p, refl))

module _ (api : StatusApi) (tracing : Tracing) where
  pub step-Good :
      (e : Event) (c out : Controller) → Good c → step api tracing e c ≡ next out → Good out
  step-Good e c out g h = record {
    sound = subst (Safe e c) h (step-Safe api tracing e c g.sound);
    kept =
        Move-Kept (step-Moves api tracing e c out g.sound h).0
          (λ t a there. (g.sound.owned t a there).0) g.kept;
  }

  -- The first step of a run decides how it goes on.
  pub run-next :
      (e : Event) (es : List Event) (c d : Controller)
      → step api tracing e c ≡ next d
      → run api tracing (e ∷ es) c ≡ run api tracing es d
  unfolding run
  run-next e es c d h = rw (h, run)

  pub run-blocks :
      (e : Event) (es : List Event) (c : Controller)
      → step api tracing e c ≡ blocks
      → run api tracing (e ∷ es) c ≡ blocks
  unfolding run
  run-blocks e es c h = rw (h, run)

  pub run-crashes :
      (e : Event) (es : List Event) (c : Controller) (p : Panic)
      → step api tracing e c ≡ crashes p
      → run api tracing (e ∷ es) c ≡ crashes p
  unfolding run
  run-crashes e es c p h = rw (h, run)

  pub run-nil : (c : Controller) → run api tracing [] c ≡ next c
  unfolding run
  run-nil c = refl

  -- Induction over a run that was taken.
  pub run_induction :
      (P : Controller → Type 0)
      → ((e : Event) (c out : Controller) → P c → step api tracing e c ≡ next out → P out)
      → (es : List Event) (c out : Controller) → P c
      → run api tracing es c ≡ next out
      → P out
  run_induction P keeps [] c out p h = subst P (next_inj (sym (run-nil c) ∙ h)) p
  run_induction P keeps (e ∷ es) c out p h = elim (Verdict-cases (step api tracing e c)) [
    | inl (d, q) ↦ run_induction P keeps es d out (keeps e c d p q) (sym (run-next e es c d q) ∙ h)
    | inr (inl q) ↦ cc (run-blocks e es c q)
    | inr (inr (x, q)) ↦ cc (run-crashes e es c x q)
  ]

  pub crash-Safe :
      (e : Event) (c : Controller) (p : Panic)
      → Safe e c (crashes p)
      → (m : Rpc) × (e ≡ arrives m) × (p ≡ unexpected_tag m.tag)
  crash-Safe (arrives m) c p h = (m, refl, h.0)
  crash-Safe (issues ctx m) c p h = absurd h
  crash-Safe _ c p h = absurd h

  Good-run_panics :
      (es : List Event) (c : Controller) (p : Panic)
      → Good c
      → run api tracing es c ≡ crashes p
      → IsUnexpected p
  Good-run_panics [] c p g h = unfold run in cc
  Good-run_panics (e ∷ es) c p g h = elim (Verdict-cases (step api tracing e c)) [
    | inl (d, q) ↦ Good-run_panics es d p (step-Good e c d g q) (sym (run-next e es c d q) ∙ h)
    | inr (inl q) ↦ cc (run-blocks e es c q)
    | inr (inr (x, q)) ↦
        let (m, _, same) =
          crash-Safe e c x (subst (Safe e c) q (step-Safe api tracing e c g.sound)) in
        let e : x ≡ p = cc (run-crashes e es c x q) in rw (← e, same) (unexpected m.tag)
  ]

  -- Whatever the callers, the readers, the workers and the peer do, in whatever order, a run from a
  -- controller with no calls panics only by the message "unexpected tag": it never sends on a
  -- closed channel, never closes a channel twice and never misses a channel.
  pub run_panics :
      (es : List Event) (c : Controller) (p : Panic)
      → IsFresh c
      → run api tracing es c ≡ crashes p
      → IsUnexpected p
  run_panics es c p f h = Good-run_panics es c p (IsFresh-Good c f) h

  pub run-Good :
      (es : List Event) (c out : Controller) → Good c → run api tracing es c ≡ next out → Good out
  run-Good es c out g h = run_induction Good step-Good es c out g h

  -- After any run from a controller with no calls, what was ever sent on the channel of a call is a
  -- conversation under the call's own tag: stream messages, and once the channel is closed exactly
  -- one response behind them. At most one message waits in the channel.
  pub run_conversation :
      (es : List Event) (c out : Controller) (a : ℕ) (ch : Chan)
      → IsFresh c
      → run api tracing es c ≡ next out
      → get_elem? out.channels a ≡ some ch
      → IsChan (tag_of a) ch
  run_conversation es c out a ch f h there =
      (run-Good es c out (IsFresh-Good c f) h).sound.shaped a ch there

  -- After any run from a controller with no calls, in which fewer than 2^64 calls were made, every
  -- call is pending under its own tag or its channel has been closed: none is lost or overwritten.
  pub run_keeps_calls :
      (es : List Event) (c out : Controller) (a : ℕ)
      → IsFresh c
      → run api tracing es c ≡ next out
      → length out.channels < uint64_mod
      → a < length out.channels
      → (load (a + 1) out.pending ≡ some a) ⊎ Closed out.channels a
  run_keeps_calls es c out a f h fits lt =
      (run-Good es c out (IsFresh-Good c f) h).kept.kept fits a lt
