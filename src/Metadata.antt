-- ===== src/Metadata.antt =====
-- metadata.go: between `metadata.MD` of grpc, a Go map that may be nil, and the message `MD`.
-- A loop over a map is a loop over its entries in the order of the list.
pub mod Validation
pub mod RoundTrip
use totem.Base.{Option, none, some, List, [], Text, text_eq}
use totem.Base.Table.{Table, fill, keys}
use totem.Wire.{Md, MdValues, get_data}

-- metadata.MD
abbrev pub Pairs : Type 0
Pairs = Table Text (List Text)

unfoldable pub to_md : Option Md → Pairs
to_md md = fill (λ v. v.items) (get_data md) []

unfoldable pub from_md : Option Pairs → Option Md
from_md none = none
from_md (some md) = some (record { entries = fill (λ v. record { items = v }) md [] })

unfoldable pub md_keys : Option Md → List Text
md_keys md = keys (get_data md)
