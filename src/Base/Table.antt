-- ===== src/Base/Table.antt =====
-- Go maps and `gsync.Map` as association lists with one entry for each key.
use mathlib.Core.Path.{◌≡◌, refl}
use mathlib.Core.Logic.{inl, inr, ◌≢◌}
use mathlib.Core.Bool.{true, false}
use mathlib.Core.List.{List, [], ◌∷◌, map}
use mathlib.Core.Option.{Option, none, some}
use native.Mathlib.Omega.{arith}
use totem.Base.Tests.{Eq, if◌then◌else◌, Bool-cases}

abbrev pub Table {ℓ κ} : Type ℓ → Type κ → Type (ℓ ⊔ κ)
Table K V = List (K × V)

module _ {ℓ} {K : Type ℓ} ⦃e : Eq K⦄ where
  pub beq_refl : (k : K) → e.beq k k ≡ true
  beq_refl k = (e.beq_iff k k).1 refl

  pub beq_ne : (j k : K) → j ≢ k → e.beq j k ≡ false
  beq_ne j k h = elim (Bool-cases (e.beq j k)) [
    | inl t ↦ absurd (h ((e.beq_iff j k).0 t))
    | inr f ↦ f
  ]

module _ {ℓ κ} {K : Type ℓ} {V : Type κ} ⦃e : Eq K⦄ where
  abbrev pub load : K → Table K V → Option V
  load k [] = none
  load k ((j, v) ∷ m) = if e.beq j k then some v else load k m

  -- `delete(m, k)`; deleting a key that is not there does nothing.
  abbrev pub delete : K → Table K V → Table K V
  delete k [] = []
  delete k ((j, v) ∷ m) = let rest = delete k m in if e.beq j k then rest else (j, v) ∷ rest

  -- `m[k] = v`
  abbrev pub store : K → V → Table K V → Table K V
  store k v [] = (k, v) ∷ []
  store k v ((j, w) ∷ m) = if e.beq j k then (k, v) ∷ m else (j, w) ∷ store k v m

  abbrev pub keys : Table K V → List K
  keys = map λ p. p.0

  pub load-delete :
      (k j : K) (m : Table K V) → load j (delete k m) ≡ (if e.beq k j then none else load j m)
  load-delete k j [] = elim (Bool-cases (e.beq k j)) [ inl t ↦ rw t | inr f ↦ rw f ]
  load-delete k j ((i, v) ∷ m) =
      ground (arith, load-delete k j m, e.beq_iff i k, e.beq_iff i j, e.beq_iff k j)

  pub load-store :
      (k j : K) (v : V) (m : Table K V)
      → load j (store k v m) ≡ (if e.beq k j then some v else load j m)
  load-store k j v [] = refl
  load-store k j v ((i, w) ∷ m) =
      ground (arith, load-store k j v m, e.beq_iff i k, e.beq_iff i j, e.beq_iff k j)

  -- No key stands twice: what a Go map gives for nothing.
  abbrev pub IsMap : Table K V → Type (ℓ ⊔ κ)
  IsMap [] = Unit
  IsMap ((k, v) ∷ m) = (load k m ≡ none) × IsMap m

module _ {ℓ κ} {K : Type ℓ} {V : Type κ} ⦃e : Eq K⦄ where
  pub store-IsMap : (k : K) (v : V) (m : Table K V) → IsMap m → IsMap (store k v m)
  store-IsMap k v [] h = (refl, tt)
  store-IsMap k v ((j, w) ∷ m) (fresh, h) =
      ground (arith, load-store k j v m, e.beq_iff j k, e.beq_iff k j, store-IsMap k v m h)

  pub delete-IsMap : (k : K) (m : Table K V) → IsMap m → IsMap (delete k m)
  delete-IsMap k [] h = tt
  delete-IsMap k ((j, w) ∷ m) (fresh, h) = ground (arith, load-delete k j m, delete-IsMap k m h)

-- The image of the one, or else the other.
abbrev pub over {κ μ} : {V : Type κ} {W : Type μ} → (V → W) → Option V → Option W → Option W
over f none w = w
over f (some v) w = some (f v)

module _ {ℓ κ μ} {K : Type ℓ} {V : Type κ} {W : Type μ} ⦃e : Eq K⦄ (f : V → W) where
  -- The loop `for k, v := range m { out[k] = f(v) }`.
  abbrev pub fill : Table K V → Table K W → Table K W
  fill [] out = out
  fill ((k, v) ∷ m) out = fill m (store k (f v) out)

  -- It adds the image of the map to what `out` held.
  pub load-fill :
      (k : K) (m : Table K V) (out : Table K W)
      → IsMap m
      → load k (fill m out) ≡ over f (load k m) (load k out)
  load-fill k [] out h = refl
  load-fill k ((j, v) ∷ m) out (fresh, h) = elim (Bool-cases (e.beq j k)) [
    | inl hit ↦
        rw (load-fill k m (store j (f v) out) h, load-store, hit, ← (e.beq_iff j k).0 hit, fresh)
    | inr miss ↦ rw (load-fill k m (store j (f v) out) h, load-store, miss)
  ]

  pub fill-IsMap : (m : Table K V) (out : Table K W) → IsMap out → IsMap (fill m out)
  fill-IsMap [] out h = h
  fill-IsMap ((k, v) ∷ m) out h = fill-IsMap m (store k (f v) out) (store-IsMap k (f v) out h)
