-- ===== src/Metadata/RoundTrip.antt =====
-- `FromMD` and `ToMD` undo each other, as maps.
use totem.Base.{Option, none, some, List, [], ◌≡◌, refl, Text, text_eq}
use totem.Base.Table.{load, IsMap, over, fill-IsMap, load-fill}
use totem.Wire.{Md, MdValues, get_data}
use totem.Metadata.{Pairs, to_md, from_md}

unboxed :
    (o : Option (List Text))
    → over (λ (v : MdValues). v.items) (over (λ v. record { items = v }) o none) none ≡ o
unboxed none = refl
unboxed (some v) = refl

boxed :
    (o : Option MdValues)
    → over {W = MdValues} (λ v. record { items = v }) (over (λ v. v.items) o none) none ≡ o
boxed none = refl
boxed (some v) = refl

-- A map of metadata comes back from the message with the same values under every key.
pub to_md-from_md :
    (md : Pairs) (k : Text) → IsMap md → load k (to_md (from_md (some md))) ≡ load k md
unfolding to_md from_md
to_md-from_md md k h =
    rw (load-fill _ k _ [] (fill-IsMap _ md [] tt), load-fill _ k md [] h, unboxed)

-- A message of metadata comes back from the map with the same values under every key; a message
-- that is missing comes back empty.
pub from_md-to_md :
    (md : Option Md) (k : Text)
    → IsMap (get_data md)
    → load k (get_data (from_md (some (to_md md)))) ≡ load k (get_data md)
unfolding to_md from_md
from_md-to_md md k h =
    rw (
      load-fill _ k _ [] (fill-IsMap _ (get_data md) [] tt),
      load-fill _ k (get_data md) [] h,
      boxed,
    )
