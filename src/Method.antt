-- ===== src/Method.antt =====
-- util.go: names of the form "/service/method".
pub mod Parsing
pub mod Names
pub mod Listing
pub mod Spans
pub mod Agreement
use totem.Base.{ℕ, Option, none, some, List, [], ◌∷◌, ◌++◌, Text, codes, ◌==◌, if◌then◌else◌}
use totem.Wire.{Rpc, Content, request, response, server_stream_msg}
use totem.Status.{Result, ok, err, plain}

abbrev pub slash : ℕ
slash = b'/'

-- the first part of a split text, one byte longer
longer : ℕ → List Text → List Text
longer c [] = (c ∷ []) ∷ []
longer c (p ∷ parts) = (c ∷ p) ∷ parts

-- strings.Split(s, sep) at a separator of one byte
unfoldable pub split : Text → ℕ → List Text
unfolding longer
split [] sep = [] ∷ []
split (c ∷ s) sep = let rest = split s sep in if c == sep then [] ∷ rest else longer c rest

-- the test `len(parts) != 3`
from_parts : Text → List Text → Result (Text × Text)
from_parts method (_ ∷ service ∷ name ∷ []) = ok (service, name)
from_parts method _ = err (plain (codes "invalid method name: " ++ method))

unfoldable pub parse_qualified_method : Text → Result (Text × Text)
unfolding from_parts
parse_qualified_method method = from_parts method (split method slash)

unfoldable pub qualified_method_name : Rpc → Text
qualified_method_name r = elim r.content [
  | none ↦ codes "(unknown)"
  | some (request _) ↦ slash ∷ r.service_name ++ slash ∷ r.method_name
  | some (response _) ↦ codes "(response)"
  | some (server_stream_msg _) ↦ codes "(unknown)"
]
