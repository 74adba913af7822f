-- ===== src/EndToEnd/Safety.antt =====
-- Two controllers that talk to each other do not panic on each other's answers.
use totem.Base.{
  ℕ, ◌≡◌, ◌≢◌, ◌∙◌, ◌<◌, ◌+◌, refl, sym, ap, subst, Bool, true, false, ◌&&◌, Option, List, [], ◌∷◌,
  any, arith, Bool-cases, inl, inr, ◌==◌, leb, ltb, leb_iff, ltb_iff, ==_iff, nat_eq,
}
use totem.Base.Table.{beq_ne}
use totem.Wire.{Rpc, Content}
use totem.Status.{StatusApi}
use totem.Context.{Tracing}
use totem.Controller.{Controller, Panic, crashes, uint64_mod}
use totem.Controller.Receiving.{
  Event, issues, arrives, transmits, replies, kicks, fails, finds_kick, cancels, drained, reads,
  run,
}
use totem.Controller.Receiving.Channels.{is_response, is_stream_msg}
use totem.Controller.Receiving.Invariant.{tag_of}
use totem.Controller.Receiving.Histories.{tag_of_inj}
use totem.Controller.Receiving.Safety.{is_answer}
use totem.Controller.Receiving.Runs.{IsFresh}
use totem.Controller.Receiving.Peer.{made, given, is_polite, polite, calls_made, polite_peer}
use totem.EndToEnd.{Work, answers, is_local, without, Talk, over, meanwhile, says}
use totem.EndToEnd.Shape.{Shaped, Shaped-head, without-Shaped, answers-Shaped}

-- What is left has its shape, and where something is left no response was given.
record Awaits (left : ℕ → List Rpc) (tags : List ℕ) : Type 0 where
  shaped : (b : ℕ) → Shaped (tag_of b) (left b)
  unanswered :
      (b : ℕ) (m : Rpc) (ms : List Rpc)
      → b < uint64_mod
      → left b ≡ m ∷ ms
      → any (λ t. t == tag_of b) tags ≡ false

not_response : (o : Option Content) → is_answer o ≡ false → is_response o ≡ false
not_response o h = ground arith

part-not_response : (o : Option Content) → is_stream_msg o ≡ true → is_response o ≡ false
part-not_response o h = ground arith

local-arrival :
    (n : ℕ) (tags : List ℕ) (m : Rpc)
    → is_local (arrives m) ≡ true
    → (is_polite n tags (arrives m) ≡ true) × (given (arrives m) tags ≡ tags)
local-arrival n tags m h =
    let quiet : is_answer m.content ≡ false = ground arith in
    (rw quiet refl, rw (not_response m.content quiet) refl)

local-polite :
    (e : Event) (n : ℕ) (tags : List ℕ)
    → is_local e ≡ true
    → (is_polite n tags e ≡ true) × (given e tags ≡ tags)
local-polite (arrives m) n tags h = local-arrival n tags m h
local-polite (cancels t) n tags h = (refl, refl)
local-polite (issues ctx m) n tags h = (refl, refl)
local-polite (transmits i failure) n tags h = (refl, refl)
local-polite (replies m failure) n tags h = (refl, refl)
local-polite (kicks x) n tags h = (refl, refl)
local-polite (fails x) n tags h = (refl, refl)
local-polite finds_kick n tags h = (refl, refl)
local-polite drained n tags h = (refl, refl)
local-polite (reads a) n tags h = (refl, refl)

-- What is given leaves the tags of the other calls alone.
given-other :
    (m : Rpc) (tags : List ℕ) (t : ℕ)
    → m.tag ≢ t
    → any (λ x. x == t) tags ≡ false
    → any (λ x. x == t) (given (arrives m) tags) ≡ false
given-other m tags t ne h = elim (Bool-cases (is_response m.content)) [
  | inl y ↦ rw (y, beq_ne m.tag t ne) h
  | inr n ↦ rw n h
]

-- An answer that is due is polite, and what is left is awaited still.
module _ (left : ℕ → List Rpc) (tags : List ℕ) (w : Awaits left tags) (a : ℕ) (m : Rpc)
    (ms : List Rpc) (e : left a ≡ m ∷ ms) (lt : a < uint64_mod) where
  due : (m.tag ≡ tag_of a) × (is_answer m.content ≡ true)
  due = Shaped-head (tag_of a) m ms (subst (Shaped (tag_of a)) e (w.shaped a))

  due-polite : (n : ℕ) → a < n → n < uint64_mod → is_polite n tags (arrives m) ≡ true
  due-polite n called fits =
      let (tag, answer) = due in
      let t : m.tag ≡ a + 1 = omega (arith, tag) in
      let low : ltb 0 m.tag ≡ true = (ltb_iff 0 m.tag).1 (omega arith) in
      let high : leb m.tag n ≡ true = (leb_iff m.tag n).1 (omega arith) in
      let fresh : any (λ x. x == m.tag) tags ≡ false =
        ap (λ x. any (λ y. y == x) tags) tag ∙ w.unanswered a m ms lt e in
      rw (answer, low, high, fresh) refl

  -- what is still to come for this call comes after a stream message
  left_over :
      (x : Rpc) (xs : List Rpc)
      → ms ≡ x ∷ xs
      → any (λ t. t == tag_of a) (given (arrives m) tags) ≡ false
  left_over x xs more = elim (subst (Shaped (tag_of a)) e (w.shaped a)) [
    | inl (part, _) ↦ rw (part-not_response m.content part.1) (w.unanswered a m ms lt e)
    | inr (_, none_left) ↦ cc
  ]

  then-Awaits : Awaits (without left a ms) (given (arrives m) tags)
  then-Awaits = record {
    shaped = without-Shaped tag_of left a m ms e w.shaped;
    unanswered = λ b x xs lt_b h. elim (Bool-cases (a == b)) [
      | inl hit ↦ let p : a ≡ b = ground arith in rw (← p) (left_over x xs (rw hit at h))
      | inr miss ↦
          let ne : m.tag ≢ tag_of b =
            λ same. cc (miss, (==_iff a b).1 (tag_of_inj a b lt lt_b (sym (due.0) ∙ same))) in
          given-other m tags (tag_of b) ne (w.unanswered b x xs lt_b (rw miss at h))
    ];
  }

both_true : (a b : Bool) → a ≡ true → b ≡ true → a && b ≡ true
both_true a b p q = ground arith

pub made_add : (e : Event) (n : ℕ) → made e n ≡ n + made e 0
made_add (issues ctx m) n = omega arith
made_add (transmits i failure) n = omega arith
made_add (replies m failure) n = omega arith
made_add (kicks x) n = omega arith
made_add (arrives m) n = omega arith
made_add (fails x) n = omega arith
made_add finds_kick n = omega arith
made_add (cancels t) n = omega arith
made_add drained n = omega arith
made_add (reads a) n = omega arith

talk-polite :
    (n : ℕ) (left : ℕ → List Rpc) (es : List Event) (tags : List ℕ)
    → Talk n left es
    → Awaits left tags
    → n + calls_made es < uint64_mod
    → polite n tags es ≡ true
unfolding polite calls_made
talk-polite n left [] tags over w fits = refl
talk-polite n left (_ ∷ es) tags (meanwhile e here t) w fits =
    let (fine, same) = local-polite e n tags here in
    both_true _ _ fine (
      subst (λ ts. polite (made e n) ts es ≡ true) (sym same)
        (talk-polite (made e n) left es tags t w (omega (arith, fits, made_add e n))))
talk-polite n left (_ ∷ es) tags (says a m ms called e t) w fits =
    let lt : a < uint64_mod = omega (arith, fits, called) in
    both_true _ _ (due-polite left tags w a m ms e lt n called (omega (arith, fits))) (
      talk-polite n (without left a ms) es (given (arrives m) tags) t
        (then-Awaits left tags w a m ms e lt) (omega (arith, fits)))

module _ (api : StatusApi) (tracing : Tracing) where
  -- Let the peer's workers handle the request that each call puts on its way, however they dispatch it
  -- and whatever the invokers do, and let their replies arrive, those of one call in their order,
  -- mixed in any way with those of other calls and with all else that happens at the caller's end.
  -- Then no run of a controller that starts with no calls and makes fewer than 2^64 of them panics.
  pub talk_safe :
      (works : ℕ → Work) (es : List Event) (c : Controller) (x : Panic)
      → Talk 0 (answers api tracing works es c) es
      → IsFresh c
      → calls_made es < uint64_mod
      → ¬ (run api tracing es c ≡ crashes x)
  talk_safe works es c x t f fits = polite_peer api tracing es c x f fits (
      talk-polite 0 (answers api tracing works es c) es [] t
        (record {
          shaped = answers-Shaped api tracing works es c f;
          unanswered = λ b m ms lt e. refl;
        })
        (omega (arith, fits)))
