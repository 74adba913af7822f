-- ===== src/Controller/Receiving/Peer.antt =====
-- What the program relies on in its peer, so that the receive loop does not panic.
use totem.Base.{
  ℕ, ◌≡◌, ◌∙◌, ◌<◌, ◌≤◌, ◌+◌, ◌-◌, refl, sym, ap, subst, Bool, true, false, not, ◌&&◌, List, [],
  ◌∷◌, any, arith, length, Bool-cases, inl, inr, ◌==◌, leb, ltb, leb_iff, ltb_iff, ==_iff, nat_eq,
  if◌then◌else◌,
}
use totem.Wire.{Rpc}
use totem.Status.{StatusApi}
use totem.Context.{Tracing}
use totem.Controller.{
  Controller, Phase, running, draining, stopped, Panic, next, crashes, uint64_mod,
}
use totem.Controller.Receiving.{
  Event, issues, arrives, transmits, replies, kicks, fails, finds_kick, cancels, drained, reads,
  step, run, on_arrival,
}
use totem.Controller.Receiving.Channels.{is_response}
use totem.Controller.Receiving.Invariant.{tag_of}
use totem.Controller.Receiving.Safety.{is_answer, Safe, step-Safe}
use totem.Controller.Receiving.Answered.{Closed}
use totem.Controller.Receiving.Moves.{
  News, no_news, word, news, Turn, stays, ends, gives_up, finishes,
}
use totem.Controller.Receiving.Taken.{step-Moves}
use totem.Controller.Receiving.Runs.{
  Good, IsFresh, IsFresh-Good, step-Good, run-next, run-blocks, run-nil, Verdict-cases, crash-Safe,
}
use totem.Controller.Receiving.Closing.{new_in, Answered, Move-new-Closed, Move-counted}

-- the calls made, and the tags of the responses given, after an event
abbrev pub made : Event → ℕ → ℕ
made (issues ctx m) n = n + 1
made _ n = n

abbrev pub given : Event → List ℕ → List ℕ
given (arrives m) tags = if is_response m.content then m.tag ∷ tags else tags
given _ tags = tags

-- An answer is for one of the `n` calls made so far, and that call has had no response.
abbrev pub is_polite : ℕ → List ℕ → Event → Bool
is_polite n tags (arrives m) =
    if is_answer m.content
    then ltb 0 m.tag && (leb m.tag n && not (any (λ t. t == m.tag) tags))
    else true
is_polite n tags _ = true

-- All answers in a list of events are such.
unfoldable pub polite : ℕ → List ℕ → List Event → Bool
polite n tags [] = true
polite n tags (e ∷ es) = is_polite n tags e && polite (made e n) (given e tags) es

unfoldable pub calls_made : List Event → ℕ
calls_made [] = 0
calls_made (e ∷ es) = made e 0 + calls_made es

Turn-running : (c out : Controller) → Turn c out → out.phase ≡ running → c.phase ≡ running
Turn-running c out (stays p) r = sym p ∙ r
Turn-running c out (ends e q p) r = q
Turn-running c out (gives_up e q p) r = q
Turn-running c out (finishes e tags q done p) r = cc

-- What the controller knows of its peer: it has made the calls, and what is closed was answered.
record Expecting (n : ℕ) (tags : List ℕ) (c : Controller) : Type 0 where
  good : Good c
  counted : n ≡ length c.channels
  known : c.phase ≡ running → (a : ℕ) → Closed c.channels a → any (λ t. t == tag_of a) tags ≡ true

pub made-news :
    (api : StatusApi) (p : Phase) (e : Event) (n : ℕ) → made e n ≡ n + new_in (news api p e)
made-news api p (issues ctx m) n = refl
made-news api p (transmits i failure) n = omega arith
made-news api p (replies m failure) n = omega arith
made-news api p (kicks e) n = omega arith
made-news api p (arrives m) n = elim (Bool-cases (is_answer m.content)) [
  | inl y ↦ rw y (omega arith)
  | inr y ↦ rw y (omega arith)
]
made-news api p (fails e) n = omega arith
made-news api p finds_kick n = omega arith
made-news api running (cancels t) n = omega arith
made-news api (draining e tags) (cancels t) n = omega arith
made-news api (stopped e) (cancels t) n = omega arith
made-news api p drained n = omega arith
made-news api p (reads a) n = omega arith

-- While the loop runs, what is said to a call is what arrives, and the peer has then given it.
given-old :
    (e : Event) (tags : List ℕ) (t : ℕ)
    → any (λ x. x == t) tags ≡ true
    → any (λ x. x == t) (given e tags) ≡ true
given-old (arrives m) tags t h = elim (Bool-cases (is_response m.content)) [
  | inl y ↦ rw y (ground arith)
  | inr n ↦ rw n h
]
given-old (issues ctx m) tags t h = h
given-old (transmits i failure) tags t h = h
given-old (replies m failure) tags t h = h
given-old (kicks x) tags t h = h
given-old (fails x) tags t h = h
given-old finds_kick tags t h = h
given-old (cancels x) tags t h = h
given-old drained tags t h = h
given-old (reads x) tags t h = h

word_inj : {m w : Rpc} → ◌≡◌ {A = News} (word m) (word w) → m ≡ w
word_inj h = cc

no_word : {w : Rpc} → ◌≡◌ {A = News} no_news (word w) → ⊥
no_word h = cc

given-new :
    (api : StatusApi) (p : Phase) (e : Event) (tags : List ℕ) (a : ℕ)
    → p ≡ running
    → Answered (news api p e) a
    → any (λ x. x == tag_of a) (given e tags) ≡ true
given-new api p (arrives m) tags a r (w, said, tag, final) =
    elim (Bool-cases (is_answer m.content)) [
      | inl y ↦
          let same : m ≡ w = word_inj (rw y at said) in
          let f : is_response m.content ≡ true = rw same final in
          rw (f, (==_iff m.tag (tag_of a)).1 (rw same tag)) refl
      | inr n ↦ absurd (no_word (rw n at said))
    ]
given-new api p (cancels x) tags a r (w, said, tag, final) =
    absurd (no_word (subst (λ q. news api q (cancels x) ≡ word w) r said))
given-new api p (issues ctx m) tags a r (w, said, tag, final) = cc
given-new api p (transmits i failure) tags a r (w, said, tag, final) = cc
given-new api p (replies m failure) tags a r (w, said, tag, final) = cc
given-new api p (kicks x) tags a r (w, said, tag, final) = cc
given-new api p (fails x) tags a r (w, said, tag, final) = cc
given-new api p finds_kick tags a r (w, said, tag, final) = cc
given-new api p drained tags a r (w, said, tag, final) = cc
given-new api p (reads x) tags a r (w, said, tag, final) = cc

true_ne_false : true ≡ false → ⊥
true_ne_false h = cc

module _ (api : StatusApi) (tracing : Tracing) where
  step-Expecting :
      (e : Event) (n : ℕ) (tags : List ℕ) (c d : Controller)
      → Expecting n tags c
      → step api tracing e c ≡ next d
      → Expecting (made e n) (given e tags) d
  step-Expecting e n tags c d x h =
      let (m, t) = step-Moves api tracing e c d x.good.sound h in
      let good = step-Good api tracing e c d x.good h in
      record {
        good = good;
        counted = omega (arith, x.counted, Move-counted m, made-news api c.phase e n);
        known = λ r a z. elim (Move-new-Closed m good.sound a z) [
          | inl old ↦ given-old e tags (tag_of a) (x.known (Turn-running c d t r) a old)
          | inr new ↦ given-new api c.phase e tags a (Turn-running c d t r) new
        ];
      }

  -- An answer panics in the loop only.
  crash-running :
      (p : Phase) (m : Rpc) (c : Controller) (x : Panic)
      → on_arrival p m c ≡ crashes x
      → p ≡ running
  unfolding on_arrival
  crash-running running m c x h = refl
  crash-running (draining e tags) m c x h = cc
  crash-running (stopped e) m c x h = cc

  arrival-running :
      (m : Rpc) (c : Controller) (x : Panic)
      → step api tracing (arrives m) c ≡ crashes x
      → c.phase ≡ running
  unfolding step
  arrival-running m c x h = crash-running c.phase m c x h

  -- A polite answer finds its call.
  polite-found :
      (m : Rpc) (n : ℕ) (tags : List ℕ) (c : Controller) (x : Panic)
      → Expecting n tags c
      → n < uint64_mod
      → is_polite n tags (arrives m) ≡ true
      → step api tracing (arrives m) c ≡ crashes x
      → ⊥
  polite-found m n tags c x ex fits p h =
      let (_, gone, answer) =
        subst (Safe (arrives m) c) h (step-Safe api tracing (arrives m) c ex.good.sound) in
      let q : ltb 0 m.tag && (leb m.tag n && not (any (λ t. t == m.tag) tags)) ≡ true =
        rw answer at p in
      let low : 0 < m.tag = ground (arith, ltb_iff 0 m.tag) in
      let high : m.tag ≤ n = ground (arith, leb_iff m.tag n) in
      let fresh : any (λ t. t == m.tag) tags ≡ false = ground arith in
      let a : ℕ = m.tag - 1 in
      let tag : a + 1 ≡ m.tag = omega (arith, low) in
      elim (ex.good.kept.kept (omega (arith, ex.counted)) a (omega (arith, ex.counted))) [
        | inl pending ↦ cc (rw tag at pending)
        | inr closed ↦
            let same : tag_of a ≡ m.tag = omega (arith, tag, high, fits) in
            let k = ex.known (arrival-running m c x h) a closed in
            absurd (true_ne_false (sym k ∙ (ap (λ t'. any (λ t. t == t') tags) same ∙ fresh)))
      ]

  polite-run :
      (es : List Event) (n : ℕ) (tags : List ℕ) (c : Controller) (x : Panic)
      → Expecting n tags c
      → n + calls_made es < uint64_mod
      → polite n tags es ≡ true
      → run api tracing es c ≡ crashes x
      → ⊥
  unfolding polite calls_made
  polite-run [] n tags c x ex fits p h = cc (run-nil api tracing c)
  polite-run (e ∷ es) n tags c x ex fits p h =
      let now : is_polite n tags e ≡ true = ground arith in
      let rest : polite (made e n) (given e tags) es ≡ true = ground arith in
      elim (Verdict-cases (step api tracing e c)) [
        | inl (d, q) ↦
            polite-run es (made e n) (given e tags) d x (step-Expecting e n tags c d ex q)
              (omega (arith, made-news api c.phase e n, made-news api c.phase e 0)) rest
              (sym (run-next api tracing e es c d q) ∙ h)
        | inr (inl q) ↦ cc (run-blocks api tracing e es c q)
        | inr (inr (y, q)) ↦
            let (m, arrival, _) =
              crash-Safe api tracing e c y
                (subst (Safe e c) q (step-Safe api tracing e c ex.good.sound)) in
            polite-found m n tags c y ex (omega arith) (rw arrival at now)
              (ap (λ v. step api tracing v c) (sym arrival) ∙ q)
      ]

  fresh-Expecting : (c : Controller) → IsFresh c → Expecting 0 [] c
  fresh-Expecting c f = record {
    good = IsFresh-Good c f;
    counted = rw f.channels refl;
    known = λ r a (ch, here, closed). cc (rw f.channels at here);
  }

  -- If each response and stream message that arrives is for one of the calls made before it, by the
  -- tag, and no response to that call arrived before, then no run of a controller that starts with
  -- no calls and makes fewer than 2^64 of them panics, whatever callers, readers and workers do.
  pub polite_peer :
      (es : List Event) (c : Controller) (x : Panic)
      → IsFresh c
      → calls_made es < uint64_mod
      → polite 0 [] es ≡ true
      → ¬ (run api tracing es c ≡ crashes x)
  polite_peer es c x f fits p h =
      polite-run es 0 [] c x (fresh-Expecting c f) (omega (arith, fits)) p h
