-- ===== src/Method/Listing.antt =====
-- What the lists of names in a `ServiceInfo` are.
use totem.Base.{
  ◌≡◌, refl, subst, inl, inr, true, false, Option, List, [], ◌∷◌, map, Text, All, arith, Bool-cases,
}
use mathlib.Core.List.{Perm}
use mathlib.Core.List.Perm
use totem.Wire.{ServiceInfo, get_services}
use totem.Status.{ok}
use totem.Method.{slash, parse_qualified_method}
use totem.Method.Parsing.{Lacks, parse-Qualified_iff}
use totem.Method.Names.{
  text_leb, insert, sort_strings, service_names, full_name, declared, method_names,
}

-- each text is at most every later one
abbrev pub IsSorted : List Text → Type 0
IsSorted [] = Unit
IsSorted (s ∷ ss) = All (λ t. text_leb s t ≡ true) ss × IsSorted ss

text_leb_total : (s t : Text) → text_leb s t ≡ false → text_leb t s ≡ true
unfolding text_leb
text_leb_total [] t h = ground arith
text_leb_total (a ∷ s) [] h = refl
text_leb_total (a ∷ s) (b ∷ t) h = ground (arith, text_leb_total s t)

text_leb_trans : (s t u : Text) → text_leb s t ≡ true → text_leb t u ≡ true → text_leb s u ≡ true
unfolding text_leb
text_leb_trans [] t u h k = refl
text_leb_trans (a ∷ s) [] u h k = ground arith
text_leb_trans (a ∷ s) (b ∷ t) [] h k = ground arith
text_leb_trans (a ∷ s) (b ∷ t) (c ∷ u) h k = ground (arith, text_leb_trans s t u)

insert-perm : (s : Text) (ts : List Text) → Perm (insert s ts) (s ∷ ts)
unfolding insert
insert-perm s [] = Perm.rfl
insert-perm s (t ∷ ts) = elim (Bool-cases (text_leb s t)) [
  | inl e ↦ rw e Perm.rfl
  | inr e ↦ rw e (Perm.trans (Perm.cons t (insert-perm s ts)) (Perm.swap s t ts))
]

sort_strings-perm : (ss : List Text) → Perm (sort_strings ss) ss
unfolding sort_strings
sort_strings-perm [] = Perm.rfl
sort_strings-perm (s ∷ ss) =
    Perm.trans (insert-perm s (sort_strings ss)) (Perm.cons s (sort_strings-perm ss))

insert-All : (P : Text → Type 0) (s : Text) (ts : List Text) → P s → All P ts → All P (insert s ts)
unfolding insert
insert-All P s [] h hs = (h, tt)
insert-All P s (t ∷ ts) h (k, ks) = elim (Bool-cases (text_leb s t)) [
  | inl e ↦ rw e (h, (k, ks))
  | inr e ↦ rw e (k, insert-All P s ts h ks)
]

All-trans :
    (s t : Text) (ts : List Text)
    → text_leb s t ≡ true
    → All (λ u. text_leb t u ≡ true) ts
    → All (λ u. text_leb s u ≡ true) ts
All-trans s t [] h hs = tt
All-trans s t (u ∷ ts) h (k, ks) = (text_leb_trans s t u h k, All-trans s t ts h ks)

insert-IsSorted : (s : Text) (ts : List Text) → IsSorted ts → IsSorted (insert s ts)
unfolding insert
insert-IsSorted s [] h = (tt, tt)
insert-IsSorted s (t ∷ ts) (h, hs) = elim (Bool-cases (text_leb s t)) [
  | inl e ↦ rw e ((e, All-trans s t ts e h), (h, hs))
  | inr e ↦
      rw e (
        insert-All (λ u. text_leb t u ≡ true) s ts (text_leb_total s t e) h,
        insert-IsSorted s ts hs,
      )
]

sort_strings-IsSorted : (ss : List Text) → IsSorted (sort_strings ss)
unfolding sort_strings
sort_strings-IsSorted [] = tt
sort_strings-IsSorted (s ∷ ss) = insert-IsSorted s (sort_strings ss) (sort_strings-IsSorted ss)

-- The names of the services come in order, each as often as a service has it.
pub service_names-lists :
    (info : Option ServiceInfo)
    → IsSorted (service_names info)
      × Perm (service_names info) (map (λ svc. svc.name) (get_services info))
unfolding service_names
service_names-lists info =
    let names = map (λ svc. svc.name) (get_services info) in
    (sort_strings-IsSorted names, sort_strings-perm names)

-- a service and a method of names with no slash
abbrev pub IsPlain : Text × Text → Type 0
IsPlain (service, method) = Lacks slash service × Lacks slash method

parse-full_name :
    (ps : List (Text × Text))
    → All IsPlain ps
    → map parse_qualified_method (map full_name ps) ≡ map ok ps
parse-full_name [] h = refl
parse-full_name ((service, method) ∷ ps) ((hs, hm), h) =
    rw
      (
        parse-full_name ps h,
        (parse-Qualified_iff (full_name (service, method)) service method).1 ([], tt, hs, hm, refl),
      )
      refl

-- The names of the methods come in order, and parsed each by `parseQualifiedMethod` they are, up to
-- order and as often, the pairs of a service and one of its methods, if no name has a slash.
pub method_names-parse :
    (info : Option ServiceInfo)
    → All IsPlain (declared (get_services info))
    → IsSorted (method_names info)
      × Perm
          (map parse_qualified_method (method_names info))
          (map ok (declared (get_services info)))
unfolding method_names
method_names-parse info h =
    let pairs = declared (get_services info) in
    (
      sort_strings-IsSorted (map full_name pairs),
      subst (Perm (map parse_qualified_method (sort_strings (map full_name pairs))))
          (parse-full_name pairs h)
          (Perm.map parse_qualified_method (sort_strings-perm (map full_name pairs))),
    )
