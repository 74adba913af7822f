-- ===== src/Examples/Texts.antt =====
-- Names and metadata.
use totem.Base.{
  ◌≡◌, ◌↔◌, refl, none, Option, some, List, [], ◌∷◌, map, arith, Text, codes, text_eq, All,
}
use mathlib.Core.List.{Perm}
use totem.Base.Table.{load}
use totem.Wire.{ServiceInfo, get_services}
use totem.Status.{ok}
use totem.Metadata.{to_md, from_md}
use totem.Metadata.RoundTrip.{to_md-from_md}
use totem.Metadata.Validation.{validate_metadata}
use totem.Metadata.Validation.Meaning.{ValidPair, validate_metadata_iff}
use totem.Method.{parse_qualified_method}
use totem.Method.Parsing.{Qualified, parse-Qualified_iff}
use totem.Method.Names.{declared, method_names}
use totem.Method.Listing.{IsSorted, IsPlain, method_names-parse}
use totem.Method.Spans.{rpc_service, rpc_method, parse_full_method}
use totem.Method.Agreement.{parse_full_method-agrees}
use totem.Examples.Requests.{service_s}

abbrev some_headers : List (Text × List Text)
some_headers = (codes "a", codes "1" ∷ codes "2" ∷ []) ∷ (codes "b-bin", [] ∷ []) ∷ []

to_md-from_md_example :
    load (codes "a") (to_md (from_md (some some_headers))) ≡ some (codes "1" ∷ codes "2" ∷ [])
to_md-from_md_example = to_md-from_md some_headers (codes "a") (refl, (refl, tt))

validate_metadata_iff_example :
    (validate_metadata (λ t. t) some_headers ≡ none) ↔ All (λ p. ValidPair p.0 p.1) some_headers
validate_metadata_iff_example = validate_metadata_iff (λ t. t) some_headers

parse-Qualified_iff_example :
    (parse_qualified_method (codes "/s/m") ≡ ok (codes "s", codes "m"))
    ↔ Qualified (codes "/s/m") (codes "s") (codes "m")
parse-Qualified_iff_example = parse-Qualified_iff (codes "/s/m") (codes "s") (codes "m")

abbrev listed : Option ServiceInfo
listed = some (record { services = service_s ∷ [] })

listed-IsPlain : All IsPlain (declared (get_services listed))
unfolding declared
listed-IsPlain = (
  ((omega arith, tt), (omega arith, tt)),
  (((omega arith, tt), (omega arith, tt)), (((omega arith, tt), (omega arith, tt)), tt)),
)

method_names-parse_example :
    IsSorted (method_names listed)
    × Perm
        (map parse_qualified_method (method_names listed))
        (map ok (declared (get_services listed)))
method_names-parse_example = method_names-parse listed listed-IsPlain

parse_full_method-agrees_example :
    parse_full_method (codes "/s/m")
    ≡ (codes "s/m", rpc_service (codes "s") ∷ rpc_method (codes "m") ∷ [])
unfolding parse_qualified_method totem.Method.split
parse_full_method-agrees_example =
    parse_full_method-agrees (codes "s/m") (codes "s") (codes "m") refl (λ e. cc)
