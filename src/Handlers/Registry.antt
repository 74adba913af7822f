-- ===== src/Handlers/Registry.antt =====
-- The lists of handlers that the controller keeps: what `Append` and the ends of contexts keep true.
use totem.Base.{
  ℕ, Bool, true, false, ◌≡◌, ◌∙◌, ap, refl, inl, inr, List, [], ◌∷◌, ◌++◌, All, All-append,
  Bool-cases, some, Text, same, same_iff, same_refl, text_eq, arith,
}
use totem.Base.Go.{◌>>=◌, returns, >>=-eq-returns}
use totem.Wire.{ServiceDescriptor}
use totem.Handlers.{ServiceHandler, check_all, append, register, handlers_of, drop_ended, range}
use totem.Base.Table.{Table, load, store, load-store}

-- Every handler of the list serves the one descriptor.
abbrev pub IsUniform : ServiceDescriptor → List ServiceHandler → Type 0
IsUniform d = All (λ h. h.descriptor ≡ d)

-- The handlers of the name are of one descriptor, which has the name.
abbrev pub IsServed : Text → List ServiceHandler → Type 0
IsServed name hs = (d : ServiceDescriptor) × (d.name ≡ name) × IsUniform d hs

-- A list that `Append` returns is the old one with the new handler last.
pub append-grows :
    (equal : ServiceDescriptor → ServiceDescriptor → Bool) (hs : List ServiceHandler)
    (sh : ServiceHandler) (out : List ServiceHandler)
    → append equal hs sh ≡ returns out
    → out ≡ hs ++ sh ∷ []
unfolding append
append-grows equal hs sh out h =
    let (u, checked, built) = >>=-eq-returns (check_all equal hs sh) _ h in cc

-- A handler of a descriptor that proto.Equal finds equal to itself is taken into a list of that
-- descriptor.
check_all-total :
    (equal : ServiceDescriptor → ServiceDescriptor → Bool) (d : ServiceDescriptor)
    (hs : List ServiceHandler) (sh : ServiceHandler)
    → equal d d ≡ true
    → sh.descriptor ≡ d
    → IsUniform d hs
    → check_all equal hs sh ≡ returns tt
unfolding check_all
check_all-total equal d [] sh ok e u = refl
check_all-total equal d (h ∷ hs) sh ok e (p, u) =
    let t : equal h.descriptor sh.descriptor ≡ true =
      ap (equal h.descriptor) e ∙ (ap (λ x. equal x d) p ∙ ok) in
    rw t (check_all-total equal d hs sh ok e u)

pub register-total :
    (equal : ServiceDescriptor → ServiceDescriptor → Bool) (d : ServiceDescriptor)
    (sh : ServiceHandler) (services : Table Text (List ServiceHandler))
    → equal d d ≡ true
    → sh.descriptor ≡ d
    → IsUniform d (handlers_of (load sh.descriptor.name services))
    → (out : Table Text (List ServiceHandler)) × (register equal sh services ≡ returns out)
unfolding register append
register-total equal d sh services ok e u = (
  store sh.descriptor.name (handlers_of (load sh.descriptor.name services) ++ sh ∷ []) services,
  rw (check_all-total equal d (handlers_of (load sh.descriptor.name services)) sh ok e u, ◌>>=◌)
      refl,
)

module _ (equal : ServiceDescriptor → ServiceDescriptor → Bool)
    (equal_sound : (a b : ServiceDescriptor) → equal a b ≡ true → a ≡ b) where
  check_all-IsUniform :
      (hs : List ServiceHandler) (sh : ServiceHandler)
      → check_all equal hs sh ≡ returns tt
      → IsUniform sh.descriptor hs
  unfolding check_all
  check_all-IsUniform [] sh h = tt
  check_all-IsUniform (e ∷ hs) sh h = elim (Bool-cases (equal e.descriptor sh.descriptor)) [
    | inl same ↦
        (equal_sound e.descriptor sh.descriptor same, check_all-IsUniform hs sh (ground arith))
    | inr other ↦ absurd (ground arith)
  ]

  -- A list that `Append` returns ends in the new handler and serves the new handler's descriptor
  -- throughout.
  pub append-IsUniform :
      (hs : List ServiceHandler) (sh : ServiceHandler) (out : List ServiceHandler)
      → append equal hs sh ≡ returns out
      → (out ≡ hs ++ sh ∷ []) × IsUniform sh.descriptor out
  unfolding append
  append-IsUniform hs sh out h =
      let (u, checked, built) = >>=-eq-returns (check_all equal hs sh) _ h in
      let e : out ≡ hs ++ sh ∷ [] = cc in
      (e, rw e (All-append _ hs (sh ∷ []) (check_all-IsUniform hs sh checked) (refl, tt)))

  -- If every service has handlers of one descriptor of the service's name, that is so after a
  -- handler is registered, for every service; and the handler's own service has it last.
  pub register-IsServed :
      (services out : Table Text (List ServiceHandler)) (sh : ServiceHandler) (name : Text)
      → ((n : Text) → IsServed n (handlers_of (load n services)))
      → register equal sh services ≡ returns out
      → IsServed name (handlers_of (load name out))
        × (load sh.descriptor.name out
            ≡ some (handlers_of (load sh.descriptor.name services) ++ sh ∷ []))
  unfolding register
  register-IsServed services out sh name served h =
      let (list, appended, built) =
        >>=-eq-returns (append equal (handlers_of (load sh.descriptor.name services)) sh) _ h in
      let (grown, uniform) =
        append-IsUniform (handlers_of (load sh.descriptor.name services)) sh list appended in
      let e : store sh.descriptor.name list services ≡ out = cc in
      (
        rw (← e, load-store sh.descriptor.name name list services)
            (elim (Bool-cases (same sh.descriptor.name name)) [
              | inl hit ↦ rw hit (sh.descriptor, (same_iff sh.descriptor.name name).0 hit, uniform)
              | inr miss ↦ rw miss (served name)
            ]),
        rw
            (
              ← e,
              load-store sh.descriptor.name sh.descriptor.name list services,
              same_refl sh.descriptor.name,
            )
            (ap some grown),
      )

-- The end of a context removes handlers only.
pub drop_ended-IsUniform :
    (d : ServiceDescriptor) (self : ℕ) (hs : List ServiceHandler)
    → IsUniform d hs
    → IsUniform d (drop_ended self hs)
unfolding drop_ended
drop_ended-IsUniform d self [] u = tt
drop_ended-IsUniform d self (h ∷ hs) u = ground (arith, drop_ended-IsUniform d self hs u.1)

module _ {ℓ} {S : Type ℓ} (fn : ServiceHandler → S → Bool × S) (h : ServiceHandler)
    (hs : List ServiceHandler) (s s' : S) where
  pub range-next : fn h s ≡ (true, s') → range fn (h ∷ hs) s ≡ range fn hs s'
  unfolding range
  range-next e =
      ap (λ r. elim r.0 as (λ x. Bool × S) [ true ↦ range fn hs r.1 | false ↦ (false, r.1) ]) e

  pub range-stop : fn h s ≡ (false, s') → range fn (h ∷ hs) s ≡ (false, s')
  unfolding range
  range-stop e =
      ap (λ r. elim r.0 as (λ x. Bool × S) [ true ↦ range fn hs r.1 | false ↦ (false, r.1) ]) e

module _ (equal : ServiceDescriptor → ServiceDescriptor → Bool) where
  pub register_alone :
      (h : ServiceHandler) → register equal h [] ≡ returns ((h.descriptor.name, h ∷ []) ∷ [])
  unfolding register append check_all
  register_alone h = refl

  pub register_second :
      (a b : ServiceHandler) (d : ServiceDescriptor)
      → a.descriptor ≡ d
      → b.descriptor ≡ d
      → equal d d ≡ true
      → register equal b ((a.descriptor.name, a ∷ []) ∷ []) ≡ returns ((d.name, a ∷ b ∷ []) ∷ [])
  unfolding register append check_all
  register_second a b d ea eb ok = rw (eb, ea, same_refl d.name, ok) refl
