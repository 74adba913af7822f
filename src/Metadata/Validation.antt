-- ===== src/Metadata/Validation.antt =====
-- grpc_metadata.go: which headers may be sent. `quote` is `%q` of fmt.
pub mod Meaning
use totem.Base.{
  ℕ, Bool, not, true, false, ◌&&◌, ◌||◌, Option, none, some, List, [], ◌∷◌, ◌++◌, Text, codes, same,
  any, ltb, leb, ◌==◌, if◌then◌else◌,
}
use totem.Status.{Err, plain}
use totem.Metadata.{Pairs}

unfoldable pub has_not_printable : Text → Bool
has_not_printable = any λ c. ltb c 0x20 || ltb 0x7E c

abbrev pub illegal : ℕ → Bool
illegal r =
    not (leb b'a' r && leb r b'z')
    && not (leb b'0' r && leb r b'9')
    && not (r == b'.')
    && not (r == b'-')
    && not (r == b'_')

-- strings.HasSuffix(s, t)
abbrev pub has_suffix : Text → Text → Bool
has_suffix [] t = same [] t
has_suffix (c ∷ s) t = same (c ∷ s) t || has_suffix s t

abbrev pub bin_suffix : Text
bin_suffix = codes "-bin"

empty_key : Err
empty_key = plain (codes "there is an empty key in the header")

illegal_key : (Text → Text) → Text → Err
illegal_key quote key =
    plain
      (codes "header key " ++ quote key ++ codes " contains illegal characters not in [0-9a-z-_.]")

unprintable_value : (Text → Text) → Text → Err
unprintable_value quote key = plain (
    codes "header key " ++ quote key ++ codes " contains value with non-printable ASCII characters")

module _ (quote : Text → Text) where
  check_values : Text → List Text → Option Err
  check_values key [] = none
  check_values key (val ∷ vals) =
      if has_not_printable val then some (unprintable_value quote key) else check_values key vals

  unfoldable pub validate_pair : Text → List Text → Option Err
  unfolding check_values has_not_printable empty_key illegal_key unprintable_value
  validate_pair [] vals = some empty_key
  validate_pair (c ∷ key) vals =
      if c == b':'
      then none
      else if any illegal (c ∷ key)
      then some (illegal_key quote (c ∷ key))
      else if has_suffix (c ∷ key) bin_suffix
      then none
      else check_values (c ∷ key) vals

  unfoldable pub validate_metadata : Pairs → Option Err
  validate_metadata [] = none
  validate_metadata ((k, vals) ∷ md) = elim (validate_pair k vals) [
    | some e ↦ some e
    | none ↦ validate_metadata md
  ]
