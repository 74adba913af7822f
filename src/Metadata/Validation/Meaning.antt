-- ===== src/Metadata/Validation/Meaning.antt =====
-- Which metadata passes the validation, stated without the tests of the code.
use totem.Base.{
  ℕ, ◌≤◌, ◌≡◌, ◌≢◌, ◌↔◌, ◌⊎◌, inl, inr, refl, ap, Bool, true, false, Option, none, some, List, [],
  ◌∷◌, ◌++◌, Text, same, same_iff, same_refl, any, All, Bool-cases, arith, ==_iff, ◌==◌,
  if◌then◌else◌,
}
use totem.Status.{Err}
use totem.Metadata.{Pairs}
use totem.Metadata.Validation.{
  has_not_printable, illegal, has_suffix, bin_suffix, illegal_key, check_values, validate_pair,
  validate_metadata,
}

abbrev pub LegalByte : ℕ → Type 0
LegalByte r =
    ((b'a' ≤ r) × (r ≤ b'z')) ⊎ ((b'0' ≤ r) × (r ≤ b'9')) ⊎ (r ≡ b'.') ⊎ (r ≡ b'-') ⊎ (r ≡ b'_')

abbrev pub Printable : ℕ → Type 0
Printable c = (0x20 ≤ c) × (c ≤ 0x7E)

abbrev pub HasSuffix : Text → Text → Type 0
HasSuffix s t = (p : Text) × (s ≡ p ++ t)

-- A pseudo-header is free; any other key is made of legal bytes, and its values are printable
-- unless the key ends in "-bin".
abbrev pub ValidPair : Text → List Text → Type 0
ValidPair key vals =
    ((rest : Text) × (key ≡ b':' ∷ rest))
    ⊎ ((key ≢ []) × All LegalByte key × (HasSuffix key bin_suffix ⊎ All (All Printable) vals))

illegal_iff : (r : ℕ) → (illegal r ≡ false) ↔ LegalByte r
illegal_iff r = (λ h. ground arith, λ h. ground arith)

any-illegal_iff : (key : Text) → (any illegal key ≡ false) ↔ All LegalByte key
any-illegal_iff [] = (λ _. tt, λ _. refl)
any-illegal_iff (c ∷ key) = (
  λ h. ground (arith, (illegal_iff c).0, (any-illegal_iff key).0),
  λ h. ground (arith, (illegal_iff c).1 h.0, (any-illegal_iff key).1 h.1),
)

has_not_printable_iff : (s : Text) → (has_not_printable s ≡ false) ↔ All Printable s
unfolding has_not_printable
has_not_printable_iff [] = (λ _. tt, λ _. refl)
has_not_printable_iff (c ∷ s) = (
  λ h. ground (arith, (has_not_printable_iff s).0),
  λ h. ground (arith, (has_not_printable_iff s).1 h.1),
)

check_values_iff :
    (quote : Text → Text) (key : Text) (vals : List Text)
    → (check_values quote key vals ≡ none) ↔ All (All Printable) vals
unfolding check_values
check_values_iff quote key [] = (λ _. tt, λ _. refl)
check_values_iff quote key (v ∷ vals) = (
  λ h. ground (arith, (has_not_printable_iff v).0, (check_values_iff quote key vals).0),
  λ h. ground (arith, (has_not_printable_iff v).1 h.0, (check_values_iff quote key vals).1 h.1),
)

has_suffix_sound : (s t : Text) → has_suffix s t ≡ true → HasSuffix s t
has_suffix_sound [] t h = ([], (same_iff [] t).0 h)
has_suffix_sound (c ∷ s) t h = elim (Bool-cases (same (c ∷ s) t)) [
  | inl hit ↦ ([], (same_iff (c ∷ s) t).0 hit)
  | inr miss ↦ let (p, e) = has_suffix_sound s t (ground arith) in (c ∷ p, ap (◌∷◌ c) e)
]

has_suffix_self : (t : Text) → has_suffix t t ≡ true
has_suffix_self [] = refl
has_suffix_self (c ∷ t) = rw (same_refl (c ∷ t))

has_suffix_append : (p t : Text) → has_suffix (p ++ t) t ≡ true
has_suffix_append [] t = has_suffix_self t
has_suffix_append (c ∷ p) t = ground (arith, has_suffix_append p t)

has_suffix_complete : (s t : Text) → HasSuffix s t → has_suffix s t ≡ true
has_suffix_complete s t (p, e) = rw e (has_suffix_append p t)

chain_iff :
    (pseudo bad bin : Bool) (e : Err) (rest : Option Err)
    → ((if pseudo then none else if bad then some e else if bin then none else rest) ≡ none)
      ↔ ((pseudo ≡ true) ⊎ ((bad ≡ false) × ((bin ≡ true) ⊎ (rest ≡ none))))
chain_iff pseudo bad bin e rest = (λ h. ground arith, λ h. ground arith)

module _ (quote : Text → Text) (c : ℕ) (key : Text) (vals : List Text) where
  -- the tests of the code, passed
  abbrev Passed : Type 0
  Passed =
      ((c == b':') ≡ true)
      ⊎ ((any illegal (c ∷ key) ≡ false)
          × ((has_suffix (c ∷ key) bin_suffix ≡ true) ⊎ (check_values quote (c ∷ key) vals ≡ none)))

  Passed-ValidPair : Passed → ValidPair (c ∷ key) vals
  Passed-ValidPair (inl pseudo) = inl (key, ap (λ x. x ∷ key) ((==_iff c b':').0 pseudo))
  Passed-ValidPair (inr (legal, inl bin)) =
      inr (λ e. cc, (any-illegal_iff (c ∷ key)).0 legal, inl (has_suffix_sound _ _ bin))
  Passed-ValidPair (inr (legal, inr clean)) = inr (
    λ e. cc,
    (any-illegal_iff (c ∷ key)).0 legal,
    inr ((check_values_iff quote (c ∷ key) vals).0 clean),
  )

  ValidPair-Passed : ValidPair (c ∷ key) vals → Passed
  ValidPair-Passed (inl (rest, e)) = inl (ground arith)
  ValidPair-Passed (inr (_, legal, inl bin)) =
      inr ((any-illegal_iff (c ∷ key)).1 legal, inl (has_suffix_complete _ _ bin))
  ValidPair-Passed (inr (_, legal, inr printable)) = inr (
    (any-illegal_iff (c ∷ key)).1 legal,
    inr ((check_values_iff quote (c ∷ key) vals).1 printable),
  )

pub validate_pair_iff :
    (quote : Text → Text) (key : Text) (vals : List Text)
    → (validate_pair quote key vals ≡ none) ↔ ValidPair key vals
unfolding validate_pair
validate_pair_iff quote [] vals = (λ h. cc, λ h. ground arith)
validate_pair_iff quote (c ∷ key) vals = (
  λ h. Passed-ValidPair quote c key vals (
      (chain_iff (c == b':') (any illegal (c ∷ key)) (has_suffix (c ∷ key) bin_suffix)
          (illegal_key quote (c ∷ key)) (check_values quote (c ∷ key) vals)).0
        h),
  λ v.
      (chain_iff (c == b':') (any illegal (c ∷ key)) (has_suffix (c ∷ key) bin_suffix)
          (illegal_key quote (c ∷ key)) (check_values quote (c ∷ key) vals)).1
        (ValidPair-Passed quote c key vals v),
)

-- Metadata passes the validation exactly when each of its headers is valid: pseudo-headers are;
-- any other key must be non-empty and of legal bytes, and its values printable unless the key ends
-- in "-bin". So the order in which the map is walked does not matter to the verdict.
pub validate_metadata_iff :
    (quote : Text → Text) (md : Pairs)
    → (validate_metadata quote md ≡ none) ↔ All (λ p. ValidPair p.0 p.1) md
unfolding validate_metadata
validate_metadata_iff quote [] = (λ _. tt, λ _. refl)
validate_metadata_iff quote ((k, vals) ∷ md) = (
  λ h. ground (arith, (validate_pair_iff quote k vals).0, (validate_metadata_iff quote md).0),
  λ h.
      ground
        (arith, (validate_pair_iff quote k vals).1 h.0, (validate_metadata_iff quote md).1 h.1),
)
