-- ===== src/Receiver/Known.antt =====
-- No stream has two wrappers at a time.
use totem.Base.{
  ℕ, ◌≡◌, ◌≢◌, refl, sym, ap, false, List, [], ◌∷◌, ◌++◌, any, All, Bool-cases, inl, inr, ◌==◌,
  ==_iff, arith, nat_eq,
}
use totem.Base.Go.{returns, returns_inj}
use totem.Base.Table.{beq_ne, beq_refl}
use totem.Receiver.{Receiver, new_recv_wrapper, forget}

-- The known streams, and the streams of the wrappers whose goroutine still waits for the kick or the
-- end of the context, after any steps: a wrapper is made, or one of the wrappers is done.
pub data KnownRun : List ℕ → List ℕ → Type 0 where
  none_known : KnownRun [] []
  wrapped :
      {known known' live : List ℕ} (stream : ℕ) (w : Receiver)
      → KnownRun known live
      → new_recv_wrapper stream known ≡ returns (known', w)
      → KnownRun known' (w.stream ∷ live)
  released :
      {known : List ℕ} (before : List ℕ) (stream : ℕ) (later : List ℕ)
      → KnownRun known (before ++ stream ∷ later)
      → KnownRun (forget stream known) (before ++ later)

abbrev pub IsDistinct : List ℕ → Type 0
IsDistinct [] = Unit
IsDistinct (s ∷ ss) = All (λ x. x ≢ s) ss × IsDistinct ss

any-All : (s : ℕ) (ss : List ℕ) → any (λ x. x == s) ss ≡ false → All (λ x. x ≢ s) ss
any-All s [] h = tt
any-All s (x ∷ ss) h =
    let here : (x == s) ≡ false = ground (arith, h) in
    let rest : any (λ y. y == s) ss ≡ false = ground (arith, h) in
    (λ e. cc (here, (==_iff x s).1 e), any-All s ss rest)

-- A stream that does not occur is forgotten without effect, and one that does is taken out.
forget-absent : (s : ℕ) (ss : List ℕ) → All (λ x. x ≢ s) ss → forget s ss ≡ ss
unfolding forget
forget-absent s [] h = refl
forget-absent s (x ∷ ss) (ne, h) = rw (beq_ne x s ne) (ap (λ y. x ∷ y) (forget-absent s ss h))

forget-once :
    (s : ℕ) (before later : List ℕ)
    → IsDistinct (before ++ s ∷ later)
    → forget s (before ++ s ∷ later) ≡ before ++ later
unfolding forget
forget-once s [] later (none_later, d) = rw (beq_refl s) (forget-absent s later none_later)
forget-once s (x ∷ before) later (ne, d) =
    rw (beq_ne x s (λ e. differs x s before later ne (sym e)))
      (ap (λ y. x ∷ y) (forget-once s before later d))
  where
    differs : (x s : ℕ) (before later : List ℕ) → All (λ y. y ≢ x) (before ++ s ∷ later) → s ≢ x
    differs x s [] later h = h.0
    differs x s (y ∷ before) later h = differs x s before later h.1

All-without :
    (P : ℕ → Type 0) (s : ℕ) (before later : List ℕ)
    → All P (before ++ s ∷ later)
    → All P (before ++ later)
All-without P s [] later h = h.1
All-without P s (x ∷ before) later h = (h.0, All-without P s before later h.1)

IsDistinct-without :
    (s : ℕ) (before later : List ℕ)
    → IsDistinct (before ++ s ∷ later)
    → IsDistinct (before ++ later)
IsDistinct-without s [] later d = d.1
IsDistinct-without s (x ∷ before) later d =
    (All-without (λ y. y ≢ x) s before later d.0, IsDistinct-without s before later d.1)

wrapped_cases :
    (stream : ℕ) (known known' : List ℕ) (w : Receiver)
    → new_recv_wrapper stream known ≡ returns (known', w)
    → (any (λ s. s == stream) known ≡ false) × (known' ≡ stream ∷ known) × (w.stream ≡ stream)
unfolding new_recv_wrapper
wrapped_cases stream known known' w h = elim (Bool-cases (any (λ s. s == stream) known)) [
  | inl y ↦ let k = rw y at h in cc
  | inr n ↦
      let e = returns_inj (rw n at h) in
      (
        n,
        sym (ap (λ (p : List ℕ × Receiver). p.0) e),
        sym (ap (λ (p : List ℕ × Receiver). p.1.stream) e),
      )
]

-- The registry has exactly the streams of the wrappers whose goroutine still waits for the kick or
-- the end of the context, and no two of those are for one stream.
pub known_once : (known live : List ℕ) → KnownRun known live → (known ≡ live) × IsDistinct live
known_once _ _ none_known = (refl, tt)
known_once _ _ (wrapped {known = known} {known' = known'} {live = live} stream w r h) =
    let (same, distinct) = known_once known live r in
    let (absent, e, of) = wrapped_cases stream known known' w h in
    (rw (e, of, same) refl, (rw (of, ← same) (any-All stream known absent), distinct))
known_once _ _ (released {known = known} before stream later r) =
    let (same, distinct) = known_once known (before ++ stream ∷ later) r in
    (
      rw same (forget-once stream before later distinct),
      IsDistinct-without stream before later distinct,
    )
