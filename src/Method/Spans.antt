-- ===== src/Method/Spans.antt =====
-- tracing.go: the name of a span and its attributes, from the full name of a method.
use totem.Base.{ℕ, List, [], ◌∷◌, ◌++◌, Text, ◌==◌, if◌then◌else◌}
use totem.Method.{slash}

-- the attributes made of the names of a service and a method
pub data Attribute : Type 0 where
  rpc_service rpc_method : Text → Attribute

-- strings.TrimLeft(s, sep) for one byte
unfoldable pub trim_left : Text → ℕ → Text
trim_left [] sep = []
trim_left (c ∷ s) sep = let rest = trim_left s sep in if c == sep then rest else c ∷ s

abbrev longer_head : ℕ → List Text → List Text
longer_head c [] = (c ∷ []) ∷ []
longer_head c (p ∷ parts) = (c ∷ p) ∷ parts

-- strings.SplitN(s, sep, 2) for one byte
unfoldable pub split_two : Text → ℕ → List Text
split_two [] sep = [] ∷ []
split_two (c ∷ s) sep =
    let rest = split_two s sep in if c == sep then [] ∷ s ∷ [] else longer_head c rest

-- the tests `service != ""` and `method != ""`
abbrev pub unless_empty : (Text → Attribute) → Text → List Attribute
unless_empty key [] = []
unless_empty key (c ∷ s) = key (c ∷ s) ∷ []

-- the test `len(parts) != 2`
attributes_of : List Text → List Attribute
attributes_of (service ∷ method ∷ []) =
    unless_empty rpc_service service ++ unless_empty rpc_method method
attributes_of _ = []

unfoldable pub parse_full_method : Text → Text × List Attribute
unfolding attributes_of
parse_full_method full_method =
    let name = trim_left full_method slash in (name, attributes_of (split_two name slash))
