-- ===== src/Controller/Receiving/Demux.antt =====
-- Which messages reach which call: the receive loop and the cancellations as a demultiplexer.
use totem.Base.{
  ℕ, ◌≡◌, ◌∙◌, ◌<◌, ◌≤◌, refl, sym, ap, ◌&&◌, Option, none, List, [], ◌∷◌, ◌++◌, append_assoc,
  append-nil, Bool-cases, ◌⊎◌, inl, inr, nat_eq, arith, length, ◌==◌, if◌then◌else◌,
}
use totem.Wire.{Rpc}
use totem.Status.{Err, StatusApi}
use totem.Context.{Tracing}
use totem.Controller.{Controller, Phase, running, draining, stopped, next, uint64_mod}
use totem.Controller.Receiving.{
  Event, arrives, cancels, step, run, cancellation, on_cancel, issues, transmits, replies, kicks,
  fails, finds_kick, drained, reads,
}
use totem.Controller.Receiving.Invariant.{tag_of}
use totem.Controller.Receiving.Safety.{is_answer}
use totem.Controller.Receiving.Moves.{
  word, answer_news, Turn, stays, ends, gives_up, finishes, news, next_inj,
}
use totem.Controller.Receiving.Taken.{step-Moves}
use totem.Controller.Receiving.Runs.{
  Good, IsFresh, IsFresh-Good, step-Good, run_induction, run-next, run-blocks, run-crashes, run-nil,
  Verdict-cases,
}
use totem.Controller.Receiving.Shutdown.{Move-length}
use totem.Controller.Receiving.Histories.{history_at, said_to, Move-history}

-- The messages of the peer, and the cancellations, that bear a tag, in the order of the events.
abbrev pub answers_to : StatusApi → Option Err → ℕ → List Event → List Rpc
answers_to api e tag [] = []
answers_to api e tag (arrives m ∷ es) =
    let rest = answers_to api e tag es in
    if is_answer m.content && (m.tag == tag) then m ∷ rest else rest
answers_to api e tag (cancels t ∷ es) =
    let rest = answers_to api e tag es in if t == tag then cancellation api e t ∷ rest else rest
answers_to api e tag (_ ∷ es) = answers_to api e tag es

-- The error with which the loop ended, nil while it has not.
abbrev pub error_of : Phase → Option Err
error_of running = none
error_of (draining e tags) = e
error_of (stopped e) = e

-- A loop that is winding up stays so, with the same error.
Ended : Option Err → Controller → Type 0
Ended e c = ((tags : List ℕ) × (c.phase ≡ draining e tags)) ⊎ (c.phase ≡ stopped e)

Turn-Ended : (e : Option Err) (c out : Controller) → Turn c out → Ended e c → Ended e out
unfolding Ended
Turn-Ended e c out (stays p) (inl (tags, q)) = inl (tags, p ∙ q)
Turn-Ended e c out (stays p) (inr q) = inr (p ∙ q)
Turn-Ended e c out (ends x r p) (inl (tags, q)) = cc
Turn-Ended e c out (ends x r p) (inr q) = cc
Turn-Ended e c out (gives_up x r p) (inl (tags, q)) = cc
Turn-Ended e c out (gives_up x r p) (inr q) = cc
Turn-Ended e c out (finishes x xs r done p) (inl (tags, q)) =
    let same : x ≡ e = cc in inr (p ∙ ap stopped same)
Turn-Ended e c out (finishes x xs r done p) (inr q) = cc

Ended-error : (e : Option Err) (c : Controller) → Ended e c → error_of c.phase ≡ e
unfolding Ended
Ended-error e c (inl (tags, q)) = rw q refl
Ended-error e c (inr q) = rw q refl

module _ (api : StatusApi) (tracing : Tracing) where
  run-length :
      (es : List Event) (c out : Controller)
      → Good c
      → run api tracing es c ≡ next out
      → length c.channels ≤ length out.channels
  run-length es c out g h =
      (run_induction api tracing (λ d. Good d × (length c.channels ≤ length d.channels))
        (λ e d d' (good, le) q. (
          step-Good api tracing e d d' good q,
          omega (arith, le, Move-length (step-Moves api tracing e d d' good.sound q).0),
        ))
        es c out (g, omega arith) h).1

  run-error :
      (es : List Event) (c out : Controller) (e : Option Err) (tags : List ℕ)
      → Good c
      → c.phase ≡ draining e tags
      → run api tracing es c ≡ next out
      → error_of out.phase ≡ e
  unfolding Ended
  run-error es c out e tags g p h =
      Ended-error e out
        (run_induction api tracing (λ d. Good d × Ended e d)
          (λ ev d d' (good, end) q. (
            step-Good api tracing ev d d' good q,
            Turn-Ended e d d' (step-Moves api tracing ev d d' good.sound q).1 end,
          ))
          es c out (g, inl (tags, p)) h).1

  -- A cancellation that was done was done while the loop wound up.
  cancel-draining :
      (p : Phase) (tag : ℕ) (c d : Controller)
      → on_cancel api p tag c ≡ next d
      → (e : Option Err) × (tags : List ℕ) × (p ≡ draining e tags)
  unfolding on_cancel
  cancel-draining running tag c d h = cc
  cancel-draining (draining e tags) tag c d h = (e, tags, refl)
  cancel-draining (stopped e) tag c d h = cc

  cancelled :
      (ev : Event) (t : ℕ) (c d : Controller)
      → ev ≡ cancels t
      → step api tracing ev c ≡ next d
      → (e : Option Err) × (tags : List ℕ) × (c.phase ≡ draining e tags)
  unfolding step
  cancelled ev t c d p h = cancel-draining c.phase t c d (rw p at h)

  said_to-arrives :
      (tag : ℕ) (m : Rpc) (rest : List Rpc)
      → said_to tag (answer_news m) ++ rest
        ≡ (if is_answer m.content && (m.tag == tag) then m ∷ rest else rest)
  unfolding said_to
  said_to-arrives tag m rest = elim (Bool-cases (is_answer m.content)) [
    | inl y ↦ rw y (elim (Bool-cases (m.tag == tag)) [ inl e ↦ rw e refl | inr e ↦ rw e refl ])
    | inr n ↦ rw n refl
  ]

  said_to-cancels :
      (tag t : ℕ) (e : Option Err) (rest : List Rpc)
      → said_to tag (word (cancellation api e t)) ++ rest
        ≡ (if t == tag then cancellation api e t ∷ rest else rest)
  unfolding said_to cancellation
  said_to-cancels tag t e rest = elim (Bool-cases (t == tag)) [
    | inl y ↦ rw y refl
    | inr n ↦ rw n refl
  ]

  -- What a step says to the calls is its share of the answers.
  news-answers :
      (ev : Event) (es : List Event) (c d out : Controller) (tag : ℕ)
      → Good c
      → Good d
      → step api tracing ev c ≡ next d
      → run api tracing es d ≡ next out
      → said_to tag (news api c.phase ev) ++ answers_to api (error_of out.phase) tag es
        ≡ answers_to api (error_of out.phase) tag (ev ∷ es)
  news-answers (arrives m) es c d out tag g k h rest = said_to-arrives tag m _
  news-answers (cancels t) es c d out tag g k h ran =
      let (x, tags, p) = cancelled (cancels t) t c d refl h in
      let e =
        run-error (cancels t ∷ es) c out x tags g p
          (run-next api tracing (cancels t) es c d h ∙ ran) in
      let rest = answers_to api (error_of out.phase) tag es in
      ap (λ q. said_to tag (news api q (cancels t)) ++ rest) p
      ∙ (said_to-cancels tag t x rest
          ∙ ap (λ z. if t == tag then cancellation api z t ∷ rest else rest) (sym e))
  news-answers (issues ctx m) es c d out tag g k h rest = unfold said_to in refl
  news-answers (transmits i failure) es c d out tag g k h rest = unfold said_to in refl
  news-answers (replies m failure) es c d out tag g k h rest = unfold said_to in refl
  news-answers (kicks e) es c d out tag g k h rest = unfold said_to in refl
  news-answers (fails e) es c d out tag g k h rest = unfold said_to in refl
  news-answers finds_kick es c d out tag g k h rest = unfold said_to in refl
  news-answers drained es c d out tag g k h rest = unfold said_to in refl
  news-answers (reads a) es c d out tag g k h rest = unfold said_to in refl

  Good-demux :
      (es : List Event) (c out : Controller) (a : ℕ)
      → Good c
      → run api tracing es c ≡ next out
      → a < uint64_mod
      → length out.channels ≤ uint64_mod
      → history_at out.channels a
        ≡ history_at c.channels a ++ answers_to api (error_of out.phase) (tag_of a) es
  Good-demux [] c out a g h lt fits =
      rw (← next_inj (sym (run-nil api tracing c) ∙ h)) (sym (append-nil (history_at c.channels a)))
  Good-demux (e ∷ es) c out a g h lt fits = elim (Verdict-cases (step api tracing e c)) [
    | inl (d, q) ↦
        let rest = sym (run-next api tracing e es c d q) ∙ h in
        let good = step-Good api tracing e c d g q in
        let m = (step-Moves api tracing e c d g.sound q).0 in
        Good-demux es d out a good rest lt fits
        ∙ (ap (λ x. x ++ answers_to api (error_of out.phase) (tag_of a) es)
              (Move-history m (λ t b there. (g.sound.owned t b there).0) a lt
                (omega (arith, fits, Move-length m, run-length es d out good rest)))
            ∙ (append_assoc (history_at c.channels a) (said_to (tag_of a) (news api c.phase e)) _
                ∙ ap (λ x. history_at c.channels a ++ x)
                    (news-answers e es c d out (tag_of a) g good q rest)))
    | inr (inl q) ↦ cc (run-blocks api tracing e es c q)
    | inr (inr (x, q)) ↦ cc (run-crashes api tracing e es c x q)
  ]

  -- After any run from a controller with no calls, in which at most 2^64 calls were made, what was
  -- ever sent on the channel of a call is exactly what bears the call's tag, in the order of the
  -- events: the responses and stream messages that arrived, whatever calls the others were for, and
  -- the cancellation of the call if there was one, made of the error with which the loop ended.
  pub run_demultiplexes :
      (es : List Event) (c out : Controller) (a : ℕ)
      → IsFresh c
      → run api tracing es c ≡ next out
      → a < length out.channels
      → length out.channels ≤ uint64_mod
      → history_at out.channels a ≡ answers_to api (error_of out.phase) (tag_of a) es
  run_demultiplexes es c out a f h lt fits =
      Good-demux es c out a (IsFresh-Good c f) h (omega (arith, lt, fits)) fits ∙ rw f.channels refl
