-- ===== src/Server/Splicing/Exposed.antt =====
-- Which of the server's handlers a spliced controller starts with.
use totem.Base.{
  ◌≡◌, ◌∙◌, refl, sym, ap, Bool, true, ◌&&◌, List, [], ◌∷◌, ◌++◌, append_assoc, append-nil,
  Bool-cases, inl, inr, Text, same, text_eq, if◌then◌else◌,
}
use totem.Base.Go.{Go, returns, panics, ◌>>=◌}
use totem.Base.Table.{Table, load}
use totem.Wire.{ServiceDescriptor}
use totem.Handlers.{ServiceHandler, register, handlers_of, range}
use totem.Server.Descriptors.Routed.{register-handlers}
use totem.Topology.{has_flag, topology_local}
use totem.Server.Splicing.{shows, is_exposed, expose_one, expose_all}

-- the handlers that are local and visible to spliced clients, in order
abbrev pub exposed : List ServiceHandler → List ServiceHandler
exposed [] = []
exposed (h ∷ hs) =
    let rest = exposed hs in
    if has_flag h.topology_flags topology_local && shows h.descriptor.visibility
    then h ∷ rest
    else rest

-- those of a name
abbrev pub shown : Text → List ServiceHandler → List ServiceHandler
shown k [] = []
shown k (h ∷ hs) =
    let rest = shown k hs in if is_exposed h && same h.descriptor.name k then h ∷ rest else rest

abbrev pub shown_all : Text → Table Text (List ServiceHandler) → List ServiceHandler
shown_all k [] = []
shown_all k ((n, hs) ∷ rest) = shown k hs ++ shown_all k rest

module _ (equal : ServiceDescriptor → ServiceDescriptor → Bool) where
  -- the inner loop as a fold
  unfoldable pub offered :
      ServiceHandler → Table Text (List ServiceHandler) → Go (Table Text (List ServiceHandler))
  offered h t = if is_exposed h then register equal h t else returns t

  unfoldable pub expose_list :
      List ServiceHandler
      → Go (Table Text (List ServiceHandler))
      → Go (Table Text (List ServiceHandler))
  expose_list [] table = table
  expose_list (h ∷ hs) table = expose_list hs (table >>= (λ t. offered h t))

  pub range-expose_one :
      (hs : List ServiceHandler) (table : Go (Table Text (List ServiceHandler)))
      → range (expose_one equal) hs table ≡ (true, expose_list hs table)
  unfolding expose_list range expose_one offered
  range-expose_one [] table = refl
  range-expose_one (h ∷ hs) table = range-expose_one hs (table >>= (λ t. offered h t))

  expose_list-panics : (hs : List ServiceHandler) (p : Text) → expose_list hs (panics p) ≡ panics p
  unfolding expose_list
  expose_list-panics [] p = refl
  expose_list-panics (h ∷ hs) p = expose_list-panics hs p

  expose_list-returns :
      (hs : List ServiceHandler) (table : Go (Table Text (List ServiceHandler)))
      (out : Table Text (List ServiceHandler))
      → expose_list hs table ≡ returns out
      → (t : Table Text (List ServiceHandler)) × (table ≡ returns t)
  expose_list-returns hs (returns t) out h = (t, refl)
  expose_list-returns hs (panics p) out h = cc (expose_list-panics hs p)

  expose_list-handlers :
      (hs : List ServiceHandler) (t out : Table Text (List ServiceHandler)) (k : Text)
      → expose_list hs (returns t) ≡ returns out
      → handlers_of (load k out) ≡ handlers_of (load k t) ++ shown k hs
  unfolding expose_list offered
  expose_list-handlers [] t out k h =
      let e : t ≡ out = cc in rw (← e) (sym (append-nil (handlers_of (load k t))))
  expose_list-handlers (sh ∷ hs) t out k h = elim (Bool-cases (is_exposed sh)) [
    | inl yes_exposed ↦
        let (u, e) = expose_list-returns hs (register equal sh t) out (rw yes_exposed at h) in
        let rest = expose_list-handlers hs u out k (rw (yes_exposed, e) at h) in
        let step = register-handlers equal t u sh k e in
        elim (Bool-cases (same sh.descriptor.name k)) [
          | inl hit ↦
              rw (yes_exposed, hit)
                (rest
                  ∙ (ap (λ x. x ++ shown k hs) (rw hit at step)
                      ∙ append_assoc (handlers_of (load k t)) (sh ∷ []) (shown k hs)))
          | inr miss ↦ rw (yes_exposed, miss) (rest ∙ ap (λ x. x ++ shown k hs) (rw miss at step))
        ]
    | inr hidden ↦ rw hidden (expose_list-handlers hs t out k (rw hidden at h))
  ]

  expose_all-returns :
      (main : Table Text (List ServiceHandler)) (table : Go (Table Text (List ServiceHandler)))
      (out : Table Text (List ServiceHandler))
      → expose_all equal main table ≡ returns out
      → (t : Table Text (List ServiceHandler)) × (table ≡ returns t)
  unfolding expose_all
  expose_all-returns [] table out h = (out, h)
  expose_all-returns ((n, hs) ∷ main) table out h =
      let (u, e) = expose_all-returns main _ out h in
      expose_list-returns hs table u (sym (ap (λ r. r.1) (range-expose_one hs table)) ∙ e)

  pub expose_all-shown :
      (main t out : Table Text (List ServiceHandler)) (k : Text)
      → expose_all equal main (returns t) ≡ returns out
      → handlers_of (load k out) ≡ handlers_of (load k t) ++ shown_all k main
  unfolding expose_all
  expose_all-shown [] t out k h =
      let e : t ≡ out = cc in rw (← e) (sym (append-nil (handlers_of (load k t))))
  expose_all-shown ((n, hs) ∷ main) t out k h =
      let (u, e) = expose_all-returns main _ out h in
      let rest = expose_all-shown main u out k (ap (expose_all equal main) (sym e) ∙ h) in
      let inner =
        expose_list-handlers hs t u k (sym (ap (λ r. r.1) (range-expose_one hs (returns t))) ∙ e) in
      rest
      ∙ (ap (λ x. x ++ shown_all k main) inner
          ∙ append_assoc (handlers_of (load k t)) (shown k hs) (shown_all k main))
