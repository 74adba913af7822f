-- ===== src/EndToEnd/Delivery.antt =====
-- What the peer says to a call is what its caller gets.
use totem.Base.{
  ℕ, ◌≡◌, ◌≢◌, ◌∙◌, ◌<◌, ◌≤◌, ◌+◌, refl, sym, ap, subst, Bool, true, false, ◌&&◌, Option, List, [],
  ◌∷◌, ◌++◌, length, arith, Bool-cases, inl, inr, ◌==◌, ==_iff, nat_eq,
}
use totem.Base.Table.{beq_ne}
use totem.Wire.{Rpc}
use totem.Status.{Err, StatusApi}
use totem.Context.{Tracing}
use totem.Controller.{Controller, next, uint64_mod}
use totem.Controller.Receiving.{
  Event, issues, arrives, transmits, replies, kicks, fails, finds_kick, cancels, drained, reads,
  run,
}
use totem.Controller.Receiving.Invariant.{tag_of}
use totem.Controller.Receiving.Histories.{history_at, tag_of_inj}
use totem.Controller.Receiving.Demux.{answers_to, error_of, run_demultiplexes}
use totem.Controller.Receiving.Safety.{is_answer}
use totem.Controller.Receiving.Runs.{IsFresh}
use totem.Controller.Receiving.Peer.{made, calls_made}
use totem.EndToEnd.{Work, answers, is_local, without, Talk, over, meanwhile, says}
use totem.EndToEnd.Shape.{Shaped, Shaped-head, without-Shaped, answers-Shaped}
use totem.EndToEnd.Safety.{made_add}

-- No call is cancelled.
abbrev pub no_cancel : Event → Bool
no_cancel (cancels t) = false
no_cancel _ = true

abbrev pub none_cancelled : List Event → Bool
none_cancelled [] = true
none_cancelled (e ∷ es) = no_cancel e && none_cancelled es

-- An event that is no answer and no cancellation says nothing to a call.
local-answers :
    (api : StatusApi) (x : Option Err) (tag : ℕ) (e : Event) (es : List Event)
    → is_local e ≡ true
    → no_cancel e ≡ true
    → answers_to api x tag (e ∷ es) ≡ answers_to api x tag es
local-answers api x tag (arrives m) es h k =
    let quiet : is_answer m.content ≡ false = ground arith in rw quiet refl
local-answers api x tag (cancels t) es h k = cc
local-answers api x tag (issues ctx m) es h k = refl
local-answers api x tag (transmits i failure) es h k = refl
local-answers api x tag (replies m failure) es h k = refl
local-answers api x tag (kicks y) es h k = refl
local-answers api x tag (fails y) es h k = refl
local-answers api x tag finds_kick es h k = refl
local-answers api x tag drained es h k = refl
local-answers api x tag (reads a) es h k = refl

-- the answers that arrived, and those that are left
Delivered : StatusApi → Option Err → (ℕ → List Rpc) → ℕ → List Event → Type 0
Delivered api x left b es = (rest : List Rpc) × (answers_to api x (tag_of b) es ++ rest ≡ left b)

talk-Delivered :
    (api : StatusApi) (x : Option Err) (n : ℕ) (left : ℕ → List Rpc) (es : List Event) (b : ℕ)
    → Talk n left es
    → ((a : ℕ) → Shaped (tag_of a) (left a))
    → n + calls_made es < uint64_mod
    → b < uint64_mod
    → none_cancelled es ≡ true
    → Delivered api x left b es
unfolding calls_made Delivered
talk-Delivered api x n left [] b over s fits lt k = (left b, refl)
talk-Delivered api x n left (_ ∷ es) b (meanwhile e here t) s fits lt k =
    let calm : no_cancel e ≡ true = ground arith in
    let (rest, d) =
      talk-Delivered api x (made e n) left es b t s (omega (arith, fits, made_add e n)) lt
        (ground arith) in
    (rest, ap (λ y. y ++ rest) (local-answers api x (tag_of b) e es here calm) ∙ d)
talk-Delivered api x n left (_ ∷ es) b (says a m ms called e t) s fits lt k =
    let (tag, answer) = Shaped-head (tag_of a) m ms (subst (Shaped (tag_of a)) e (s a)) in
    let (rest, d) =
      talk-Delivered api x n (without left a ms) es b t (without-Shaped tag_of left a m ms e s)
        (omega (arith, fits)) lt k in
    elim (Bool-cases (a == b)) [
      | inl hit ↦
          let p : a ≡ b = ground arith in
          let same : (m.tag == tag_of b) ≡ true = (==_iff m.tag (tag_of b)).1 (tag ∙ ap tag_of p) in
          (rest, rw (answer, same) (ap (λ y. m ∷ y) (rw hit at d) ∙ (sym e ∙ ap left p)))
      | inr miss ↦
          let ne : m.tag ≢ tag_of b = λ q. cc (
            miss,
            (==_iff a b).1 (tag_of_inj a b (omega (arith, fits, called)) lt (sym tag ∙ q)),
          ) in
          (rest, rw (answer, beq_ne m.tag (tag_of b) ne) (rw miss at d))
    ]

module _ (api : StatusApi) (tracing : Tracing) where
  -- Let the peer's workers handle the request that each call puts on its way, and let their replies
  -- arrive, those of one call in their order, mixed in any way with those of other calls and with all
  -- else that happens at the caller's end but a cancellation. Then, whatever was run from a controller
  -- with no calls that made fewer than 2^64 of them, what was sent on the channel of a call is the
  -- beginning of what `handleRequest` replied to its request: nothing of it is lost, doubled,
  -- overtaken or taken for another call's.
  pub talk_delivers :
      (works : ℕ → Work) (es : List Event) (c out : Controller) (a : ℕ)
      → Talk 0 (answers api tracing works es c) es
      → none_cancelled es ≡ true
      → IsFresh c
      → run api tracing es c ≡ next out
      → a < length out.channels
      → length out.channels ≤ uint64_mod
      → calls_made es < uint64_mod
      → (rest : List Rpc) × (history_at out.channels a ++ rest ≡ answers api tracing works es c a)
  unfolding Delivered
  talk_delivers works es c out a t calm f h lt fits few =
      let (rest, d) =
        talk-Delivered api (error_of out.phase) 0 (answers api tracing works es c) es a t
          (answers-Shaped api tracing works es c f) (omega (arith, few)) (omega (arith, lt, fits))
          calm in
      (rest, ap (λ y. y ++ rest) (run_demultiplexes api tracing es c out a f h lt fits) ∙ d)
