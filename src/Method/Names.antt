-- ===== src/Method/Names.antt =====
-- util.go: the names in a `ServiceInfo`, sorted.
use totem.Base.{
  Bool, true, false, ◌&&◌, ◌||◌, Option, List, [], ◌∷◌, ◌++◌, map, Text, ltb, ◌==◌, if◌then◌else◌,
}
use totem.Wire.{ServiceInfo, ServiceDescriptor, get_services}
use totem.Method.{slash}

-- s <= t for Go strings, which are compared byte by byte
unfoldable pub text_leb : Text → Text → Bool
text_leb [] t = true
text_leb (a ∷ s) [] = false
text_leb (a ∷ s) (b ∷ t) = ltb a b || ((a == b) && text_leb s t)

unfoldable pub insert : Text → List Text → List Text
insert s [] = s ∷ []
insert s (t ∷ ts) = let rest = insert s ts in if text_leb s t then s ∷ t ∷ ts else t ∷ rest

-- sort.Strings: equal strings cannot be told apart, so any sorting gives the same list
unfoldable pub sort_strings : List Text → List Text
sort_strings [] = []
sort_strings (s ∷ ss) = insert s (sort_strings ss)

unfoldable pub service_names : Option ServiceInfo → List Text
service_names info = sort_strings (map (λ svc. svc.name) (get_services info))

-- fmt.Sprintf("/%s/%s", service, method)
abbrev pub full_name : Text × Text → Text
full_name (service, method) = slash ∷ service ++ slash ∷ method

-- the methods in the order of the two loops
unfoldable pub declared : List ServiceDescriptor → List (Text × Text)
declared [] = []
declared (svc ∷ svcs) = map (λ m. (svc.name, m.name)) svc.methods ++ declared svcs

unfoldable pub method_names : Option ServiceInfo → List Text
method_names info = sort_strings (map full_name (declared (get_services info)))
