-- ===== src/Server/Splicing/Total.antt =====
-- No registration of `Splice` panics where the lists of the server are of one descriptor each.
use totem.Base.{
  ◌≡◌, ◌∙◌, refl, ap, Bool, true, List, [], ◌∷◌, All, All-append, Bool-cases, inl, inr, Text, same,
  same_iff, text_eq,
}
use totem.Base.Go.{returns}
use totem.Base.Table.{Table, load}
use totem.Wire.{ServiceDescriptor}
use totem.Handlers.{ServiceHandler, register, handlers_of}
use totem.Handlers.Registry.{IsUniform, register-total}
use totem.Server.Descriptors.Routed.{register-handlers}
use totem.Server.Splicing.{is_exposed, expose_all}
use totem.Server.Splicing.Exposed.{offered, expose_list, range-expose_one}

-- one descriptor for each name, in a map and in a list
abbrev pub Agrees : (Text → ServiceDescriptor) → Table Text (List ServiceHandler) → Type 0
Agrees of t = (n : Text) → IsUniform (of n) (handlers_of (load n t))

abbrev pub Fitting : (Text → ServiceDescriptor) → List ServiceHandler → Type 0
Fitting of = All (λ h. h.descriptor ≡ of h.descriptor.name)

abbrev pub AllFitting : (Text → ServiceDescriptor) → Table Text (List ServiceHandler) → Type 0
AllFitting of = All (λ e. Fitting of e.1)

module _ (equal : ServiceDescriptor → ServiceDescriptor → Bool)
    (equal_refl : (d : ServiceDescriptor) → equal d d ≡ true) (of : Text → ServiceDescriptor) where
  register-Agrees :
      (h : ServiceHandler) (t u : Table Text (List ServiceHandler))
      → h.descriptor ≡ of h.descriptor.name
      → Agrees of t
      → register equal h t ≡ returns u
      → Agrees of u
  register-Agrees h t u fits a e n =
      rw (register-handlers equal t u h n e) (elim (Bool-cases (same h.descriptor.name n)) [
        | inl hit ↦ rw hit (
            All-append (λ x. x.descriptor ≡ of n) (handlers_of (load n t)) (h ∷ []) (a n)
              (fits ∙ ap of ((same_iff h.descriptor.name n).0 hit), tt))
        | inr miss ↦ rw miss (a n)
      ])

  offered-total :
      (h : ServiceHandler) (t : Table Text (List ServiceHandler))
      → h.descriptor ≡ of h.descriptor.name
      → Agrees of t
      → (u : Table Text (List ServiceHandler)) × (offered equal h t ≡ returns u) × Agrees of u
  unfolding offered
  offered-total h t fits a = elim (Bool-cases (is_exposed h)) [
    | inl shown ↦
        let (u, e) =
          register-total equal (of h.descriptor.name) h t (equal_refl (of h.descriptor.name)) fits
            (a h.descriptor.name) in
        (u, rw shown e, register-Agrees h t u fits a e)
    | inr hidden ↦ (t, rw hidden refl, a)
  ]

  expose_list-total :
      (hs : List ServiceHandler) (t : Table Text (List ServiceHandler))
      → Fitting of hs
      → Agrees of t
      → (u : Table Text (List ServiceHandler)) × (expose_list equal hs (returns t) ≡ returns u)
        × Agrees of u
  unfolding expose_list
  expose_list-total [] t fit a = (t, refl, a)
  expose_list-total (h ∷ hs) t (fits, fit) a =
      let (m, e, b) = offered-total h t fits a in
      let (u, rest, c) = expose_list-total hs m fit b in (u, ap (expose_list equal hs) e ∙ rest, c)

  pub expose_all-total :
      (main t : Table Text (List ServiceHandler))
      → AllFitting of main
      → Agrees of t
      → (u : Table Text (List ServiceHandler)) × (expose_all equal main (returns t) ≡ returns u)
  unfolding expose_all
  expose_all-total [] t fit a = (t, refl)
  expose_all-total ((n, hs) ∷ main) t (fits, fit) a =
      let (m, e, b) = expose_list-total hs t fits a in
      let (u, rest) = expose_all-total main m fit b in
      (
        u,
        ap (λ r. expose_all equal main (r.1)) (range-expose_one equal hs (returns t))
            ∙ (ap (expose_all equal main) e ∙ rest),
      )
