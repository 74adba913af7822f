-- ===== src/Method/Agreement.antt =====
-- The two readers of full names of methods, `parseQualifiedMethod` and `parseFullMethod`.
use totem.Base.{ℕ, ◌≡◌, ◌≢◌, refl, sym, [], ◌∷◌, ◌++◌, Text, arith}
use totem.Status.{ok}
use totem.Method.{slash, parse_qualified_method}
use totem.Method.Parsing.{Lacks, parse-Qualified_iff}
use totem.Method.Spans.{
  rpc_service, rpc_method, trim_left, split_two, unless_empty, parse_full_method,
}

trim_left-Lacks : (sep : ℕ) (s t : Text) → s ≢ [] → Lacks sep s → trim_left (s ++ t) sep ≡ s ++ t
unfolding trim_left
trim_left-Lacks sep [] t ne h = absurd (ne refl)
trim_left-Lacks sep (c ∷ s) t ne (h, hs) = ground arith

split_two-Lacks : (sep : ℕ) (s t : Text) → Lacks sep s → split_two (s ++ sep ∷ t) sep ≡ s ∷ t ∷ []
unfolding split_two
split_two-Lacks sep [] t h = ground arith
split_two-Lacks sep (c ∷ s) t (h, hs) = ground (arith, split_two-Lacks sep s t hs)

after_slash : (p m r : Text) → Lacks slash p → slash ∷ m ≡ p ++ slash ∷ r → m ≡ r
after_slash [] m r h e = cc
after_slash (c ∷ p) m r (h, hs) e = let q : slash ≡ c = cc in absurd (h (sym q))

span_of :
    (service name : Text)
    → service ≢ []
    → Lacks slash service
    → parse_full_method (slash ∷ service ++ slash ∷ name)
      ≡ (service ++ slash ∷ name, rpc_service service ∷ unless_empty rpc_method name)
unfolding parse_full_method trim_left
span_of [] name ne h = absurd (ne refl)
span_of (c ∷ s) name ne h =
    rw (trim_left-Lacks slash (c ∷ s) (slash ∷ name) ne h, split_two-Lacks slash (c ∷ s) name h)
      refl

-- Where `parseQualifiedMethod` reads a service that is not empty and a method from a text that begins
-- with a slash, `parseFullMethod` names the span by both, with a slash between, and gives it the
-- service as one attribute and the method as another, the latter only if it is not empty.
pub parse_full_method-agrees :
    (m service name : Text)
    → parse_qualified_method (slash ∷ m) ≡ ok (service, name)
    → service ≢ []
    → parse_full_method (slash ∷ m)
      ≡ (service ++ slash ∷ name, rpc_service service ∷ unless_empty rpc_method name)
parse_full_method-agrees m service name e ne =
    let (p, hp, hs, hn, eq) = (parse-Qualified_iff (slash ∷ m) service name).0 e in
    rw (after_slash p m (service ++ slash ∷ name) hp eq) (span_of service name ne hs)
