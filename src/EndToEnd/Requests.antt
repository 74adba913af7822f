-- ===== src/EndToEnd/Requests.antt =====
-- The requests of a run go out under the tags of their calls.
use totem.Base.{
  ℕ, suc, ◌≡◌, ◌≢◌, ◌⊎◌, ◌∙◌, ◌+◌, refl, sym, ap, some, List, [], ◌∷◌, ◌++◌, length, get_elem?, inl,
  inr, arith,
}
use totem.Wire.{Rpc}
use totem.Status.{StatusApi}
use totem.Context.{Tracing}
use totem.Controller.{Controller, next}
use totem.Controller.Sending.{issue, stamped}
use totem.Controller.Receiving.{
  Event, issues, arrives, transmits, replies, kicks, fails, finds_kick, cancels, drained, reads,
  step,
}
use totem.Controller.Receiving.Invariant.{tag_of, issue-tag}
use totem.Controller.Receiving.Taken.{step-Moves}
use totem.Controller.Receiving.Moves.{next_inj}
use totem.Controller.Receiving.Runs.{Good, step-Good, Verdict-cases}
use totem.Controller.Receiving.Closing.{Move-counted}
use totem.Controller.Receiving.Peer.{made, made-news}
use totem.EndToEnd.{behind, put, requests}

behind-append : (old ms : List Rpc) → behind old (old ++ ms) ≡ ms
behind-append [] ms = refl
behind-append (_ ∷ old) ms = behind-append old ms

module _ (api : StatusApi) (tracing : Tracing) where
  requests-next :
      (e : Event) (es : List Event) (c d : Controller)
      → step api tracing e c ≡ next d
      → requests api tracing (e ∷ es) c ≡ put e c d ++ requests api tracing es d
  unfolding requests
  requests-next e es c d h = rw (h, requests) refl

  -- Every message that a step puts on its way is under the tag of the call that it makes.
  put-tag :
      (e : Event) (c d : Controller)
      → Good c
      → step api tracing e c ≡ next d
      → ((made e 0 ≡ 0) × (put e c d ≡ []))
        ⊎ ((made e 0 ≡ 1) × (m : Rpc) × (put e c d ≡ m ∷ []) × (m.tag ≡ tag_of (length c.channels)))
  unfolding step issue
  put-tag (issues ctx m) c d g h =
      let sent = stamped tracing ctx m c in
      let grown : d.waiting ≡ c.waiting ++ sent ∷ [] =
        ap (λ (x : Controller). x.waiting) (sym (next_inj h)) in
      inr (
        refl,
        sent,
        ap (behind c.waiting) grown ∙ behind-append c.waiting (sent ∷ []),
        issue-tag g.sound,
      )
  put-tag (transmits i failure) c d g h = inl (refl, refl)
  put-tag (replies m failure) c d g h = inl (refl, refl)
  put-tag (kicks x) c d g h = inl (refl, refl)
  put-tag (arrives m) c d g h = inl (refl, refl)
  put-tag (fails x) c d g h = inl (refl, refl)
  put-tag finds_kick c d g h = inl (refl, refl)
  put-tag (cancels t) c d g h = inl (refl, refl)
  put-tag drained c d g h = inl (refl, refl)
  put-tag (reads a) c d g h = inl (refl, refl)

  step-counted :
      (e : Event) (c d : Controller)
      → Good c
      → step api tracing e c ≡ next d
      → length d.channels ≡ length c.channels + made e 0
  step-counted e c d g h =
      omega
        (arith, Move-counted (step-Moves api tracing e c d g.sound h).0, made-news api c.phase e 0)

  requests-stop :
      (e : Event) (es : List Event) (c : Controller)
      → ((d : Controller) → step api tracing e c ≢ next d)
      → requests api tracing (e ∷ es) c ≡ []
  unfolding requests
  requests-stop e es c h = elim (Verdict-cases (step api tracing e c)) [
    | inl (d, q) ↦ absurd (h d q)
    | inr (inl q) ↦ rw (q, requests) refl
    | inr (inr (x, q)) ↦ rw (q, requests) refl
  ]

  -- the places behind what the first step put on its way
  later-tag :
      (rest : List Rpc) (n k a : ℕ) (m sent : Rpc)
      → ((b : ℕ) → get_elem? rest b ≡ some m → m.tag ≡ tag_of (k + b))
      → k ≡ n + 1
      → sent.tag ≡ tag_of n
      → get_elem? (sent ∷ rest) a ≡ some m
      → m.tag ≡ tag_of (n + a)
  later-tag rest n k ℕ.zero m sent ih e t h =
      let same : sent ≡ m = cc in rw (← same) (t ∙ ap tag_of (omega arith))
  later-tag rest n k (suc a) m sent ih e t h = ih a h ∙ ap tag_of (omega (arith, e))

  -- The request of each call of a run goes out under the call's tag.
  pub requests-tag :
      (es : List Event) (c : Controller) (a : ℕ) (m : Rpc)
      → Good c
      → get_elem? (requests api tracing es c) a ≡ some m
      → m.tag ≡ tag_of (length c.channels + a)
  requests-tag [] c a m g h = unfold requests in cc
  requests-tag (e ∷ es) c a m g h = elim (Verdict-cases (step api tracing e c)) [
    | inr (inl q) ↦
        let k = ap (λ l. get_elem? l a) (sym (requests-stop e es c (λ d p. cc (q, p)))) ∙ h in
        absurd (let z = k in cc)
    | inr (inr (x, q)) ↦
        let k = ap (λ l. get_elem? l a) (sym (requests-stop e es c (λ d p. cc (q, p)))) ∙ h in
        absurd (let z = k in cc)
    | inl (d, q) ↦
        let good = step-Good api tracing e c d g q in
        let n = step-counted e c d g q in
        let there = ap (λ l. get_elem? l a) (sym (requests-next e es c d q)) ∙ h in
        elim (put-tag e c d g q) [
          | inl (none_made, nothing) ↦
              requests-tag es d a m good
                (ap (λ l. get_elem? (l ++ requests api tracing es d) a) (sym nothing) ∙ there)
              ∙ ap (λ k. tag_of (k + a)) (omega (arith, n, none_made))
          | inr (one, sent, put_it, tag) ↦
              later-tag (requests api tracing es d) (length c.channels) (length d.channels) a m sent
                (λ b k. requests-tag es d b m good k) (omega (arith, n, one)) tag
                (ap (λ l. get_elem? (l ++ requests api tracing es d) a) (sym put_it) ∙ there)
        ]
  ]
