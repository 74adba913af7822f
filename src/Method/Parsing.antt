-- ===== src/Method/Parsing.antt =====
-- What `parseQualifiedMethod` accepts, and that it reads back what `QualifiedMethodName` prints.
use totem.Base.{
  ℕ, ◌≡◌, ◌≢◌, ◌↔◌, refl, ap, subst, some, List, [], ◌∷◌, ◌++◌, Text, arith, All, Bool-cases, inl,
  inr, ◌==◌, ==_iff,
}
use totem.Wire.{Rpc, request}
use totem.Status.{ok}
use totem.Method.{slash, longer, split, from_parts, parse_qualified_method, qualified_method_name}

abbrev pub Lacks : ℕ → Text → Type 0
Lacks sep = All (λ c. c ≢ sep)

split-Lacks : (sep : ℕ) (s : Text) → Lacks sep s → split s sep ≡ s ∷ []
unfolding split
split-Lacks sep [] h = refl
split-Lacks sep (c ∷ s) (h, hs) = ground (arith, split-Lacks sep s hs)

split-append : (sep : ℕ) (s t : Text) → Lacks sep s → split (s ++ sep ∷ t) sep ≡ s ∷ split t sep
unfolding split
split-append sep [] t h = ground arith
split-append sep (c ∷ s) t (h, hs) = ground (arith, split-append sep s t hs)

-- The first part has no separator; it is the whole text, or a separator and the other parts follow.
abbrev Cut : ℕ → Text → List Text → Type 0
Cut sep s [] = ⊥
Cut sep s (p ∷ []) = Lacks sep p × (s ≡ p)
Cut sep s (p ∷ q ∷ rest) = Lacks sep p × (t : Text) × (s ≡ p ++ sep ∷ t) × (split t sep ≡ q ∷ rest)

longer-Cut :
    (sep c : ℕ) (s : Text) (parts : List Text)
    → c ≢ sep
    → Cut sep s parts
    → Cut sep (c ∷ s) (longer c parts)
unfolding longer
longer-Cut sep c s [] h k = absurd k
longer-Cut sep c s (p ∷ []) h (hp, e) = ((h, hp), ap (◌∷◌ c) e)
longer-Cut sep c s (p ∷ q ∷ rest) h (hp, t, e, r) = ((h, hp), t, ap (◌∷◌ c) e, r)

sep-Cut :
    (sep : ℕ) (s : Text) (parts : List Text)
    → split s sep ≡ parts
    → Cut sep s parts
    → Cut sep (sep ∷ s) ([] ∷ parts)
sep-Cut sep s [] e k = absurd k
sep-Cut sep s (p ∷ rest) e k = (tt, s, refl, e)

split-Cut : (sep : ℕ) (s : Text) → Cut sep s (split s sep)
unfolding split
split-Cut sep [] = (tt, refl)
split-Cut sep (c ∷ s) = elim (Bool-cases (c == sep)) [
  | inl hit ↦
      rw ((==_iff c sep).0 hit, (==_iff sep sep).1 refl)
        (sep-Cut sep s (split s sep) refl (split-Cut sep s))
  | inr miss ↦ rw miss (longer-Cut sep c s (split s sep) (ground arith) (split-Cut sep s))
]

-- What a text is that splits in three.
three_parts :
    (m p s n : Text)
    → split m slash ≡ p ∷ s ∷ n ∷ []
    → Lacks slash p × Lacks slash s × Lacks slash n × (m ≡ p ++ slash ∷ (s ++ slash ∷ n))
three_parts m p s n e =
    let first = subst (Cut slash m) e (split-Cut slash m) in
    let second = subst (Cut slash first.1) first.3 (split-Cut slash first.1) in
    let third = subst (Cut slash second.1) second.3 (split-Cut slash second.1) in
    (first.0, second.0, third.0, rw (first.2, second.2, third.1))

abbrev pub Qualified : Text → Text → Text → Type 0
Qualified m service name =
    (p : Text) × Lacks slash p
    × Lacks slash service
    × Lacks slash name
    × (m ≡ p ++ slash ∷ (service ++ slash ∷ name))

accepted :
    (m service name : Text) (parts : List Text)
    → split m slash ≡ parts
    → from_parts m parts ≡ ok (service, name)
    → Qualified m service name
unfolding from_parts
accepted m service name [] e h = cc
accepted m service name (_ ∷ []) e h = cc
accepted m service name (_ ∷ _ ∷ []) e h = cc
accepted m service name (p ∷ s ∷ n ∷ []) e h =
    let (hp, hs, hn, t) = three_parts m p s n e in
    let es : s ≡ service = cc in
    let en : n ≡ name = cc in
    subst (λ x. Qualified m x name) es (subst (Qualified m s) en (p, hp, hs, hn, t))
accepted m service name (_ ∷ _ ∷ _ ∷ _ ∷ _) e h = cc

split-Qualified :
    (p s n : Text)
    → Lacks slash p
    → Lacks slash s
    → Lacks slash n
    → split (p ++ slash ∷ (s ++ slash ∷ n)) slash ≡ p ∷ s ∷ n ∷ []
split-Qualified p s n hp hs hn =
    rw (split-append slash p (s ++ slash ∷ n) hp, split-append slash s n hs, split-Lacks slash n hn)

-- `parseQualifiedMethod` returns a service and a method exactly for a text that is these two, free
-- of slashes, each behind a slash, after any further text free of slashes.
pub parse-Qualified_iff :
    (m service name : Text)
    → (parse_qualified_method m ≡ ok (service, name)) ↔ Qualified m service name
unfolding parse_qualified_method
parse-Qualified_iff m service name = (
  accepted m service name (split m slash) refl,
  λ q. rw (q.4, split-Qualified q.0 service name q.1 q.2 q.3),
)

-- Parsing what `QualifiedMethodName` prints of a request gives back the service and the method, if
-- neither name has a slash.
pub parse-qualified_method_name :
    (r : Rpc) (body : List ℕ)
    → r.content ≡ some (request body)
    → Lacks slash r.service_name
    → Lacks slash r.method_name
    → parse_qualified_method (qualified_method_name r) ≡ ok (r.service_name, r.method_name)
unfolding qualified_method_name
parse-qualified_method_name r body e hs hn =
    rw e ((parse-Qualified_iff _ r.service_name r.method_name).1 ([], tt, hs, hn, refl))
