-- ===== src/Server/Descriptors/Routed.antt =====
-- What the registration of discovered services leaves in the lists of handlers.
use totem.Base.{
  ℕ, ◌≡◌, ◌∙◌, refl, sym, ap, Bool, true, none, some, List, [], ◌∷◌, ◌++◌, ◌+◌, All, map,
  append_assoc, append-nil, Bool-cases, inl, inr, Text, same, same_iff, text_eq, if◌then◌else◌,
}
use totem.Base.Go.{returns, >>=-eq-returns}
use totem.Base.Table.{Table, load, store, load-store}
use totem.Wire.{ServiceDescriptor}
use totem.Handlers.{
  ServiceHandler, Invoker, new_default_service_handler, register, append, handlers_of,
}
use totem.Handlers.Building.{declares, new_handler_returns}
use totem.Handlers.Registry.{IsServed, register-IsServed, append-grows}
use totem.Server.Descriptors.{register_all}

-- the descriptors with a name, in order
abbrev pub under : Text → List ServiceDescriptor → List ServiceDescriptor
under name [] = []
under name (d ∷ ds) = let rest = under name ds in if same d.name name then d ∷ rest else rest

-- A handler of a stream's context whose declared methods, and no others, go to the one invoker.
pub record IsRouted (ctx : ℕ) (invoker : Invoker) (sh : ServiceHandler) : Type 0 where
  pub context : sh.controller_context ≡ ctx
  pub flags : sh.topology_flags ≡ invoker.flags
  pub invokers :
      (m : Text)
      → load m sh.method_invokers
        ≡ (if declares m sh.descriptor.methods then some invoker else none)

module _ (equal : ServiceDescriptor → ServiceDescriptor → Bool) where
  -- A registration changes the list of one name.
  pub register-handlers :
      (services out : Table Text (List ServiceHandler)) (sh : ServiceHandler) (k : Text)
      → register equal sh services ≡ returns out
      → handlers_of (load k out) ≡ (
          if same sh.descriptor.name k
          then handlers_of (load k services) ++ sh ∷ []
          else handlers_of (load k services))
  unfolding register
  register-handlers services out sh k h =
      let (list, appended, built) =
        >>=-eq-returns (append equal (handlers_of (load sh.descriptor.name services)) sh) _ h in
      let grown : handlers_of (load sh.descriptor.name services) ++ sh ∷ [] ≡ list =
        sym
          (append-grows equal (handlers_of (load sh.descriptor.name services)) sh list appended) in
      let e : store sh.descriptor.name list services ≡ out = cc in
      rw (← e, load-store sh.descriptor.name k list services)
        (elim (Bool-cases (same sh.descriptor.name k)) [
          | inl hit ↦
              rw (hit, ← grown)
                (ap (λ n. handlers_of (load n services) ++ sh ∷ [])
                  ((same_iff sh.descriptor.name k).0 hit))
          | inr miss ↦ rw miss refl
        ])

  module _ (ctx : ℕ) (invoker : Invoker) where
    abbrev pub Routed :
        Text → List ServiceDescriptor → List ServiceHandler → List ServiceHandler → Type 0
    Routed k descs before after =
        (hs : List ServiceHandler) × (after ≡ before ++ hs)
        × (map (λ h. h.descriptor) hs ≡ under k descs)
        × All (IsRouted ctx invoker) hs

    -- Each name has the handlers that it had and then, in order, one for each discovered service of
    -- that name, in the context and by the invoker of the stream.
    pub register_all-Routed :
        (next : ℕ) (descs : List ServiceDescriptor)
        (services out : Table Text (List ServiceHandler)) (k : Text)
        → register_all equal ctx invoker next descs services ≡ returns out
        → Routed k descs (handlers_of (load k services)) (handlers_of (load k out))
    unfolding register_all
    register_all-Routed next [] services out k h =
        let e : services ≡ out = cc in
        rw (← e) ([], sym (append-nil (handlers_of (load k services))), refl, tt)
    register_all-Routed next (d ∷ descs) services out k h =
        let (sh, made, rest) =
          >>=-eq-returns (new_default_service_handler next ctx d invoker) _ h in
        let (more, registered, tail) = >>=-eq-returns (register equal sh services) _ rest in
        let (_, _, at, of, flags, _) = new_handler_returns next ctx d invoker sh [] made in
        let (hs, grown, named, routed) = register_all-Routed (next + 1) descs more out k tail in
        let step = register-handlers services more sh k registered in
        let good : IsRouted ctx invoker sh = record {
          context = at;
          flags = flags;
          invokers = λ m.
              let (_, _, _, _, _, by) = new_handler_returns next ctx d invoker sh m made in
              by
              ∙ ap (λ (x : ServiceDescriptor). if declares m x.methods then some invoker else none)
                  (sym of);
        } in
        elim (Bool-cases (same d.name k)) [
          | inl hit ↦ (
            sh ∷ hs,
            grown
                ∙ (ap (λ x. x ++ hs) (rw (of, hit) at step)
                    ∙ append_assoc (handlers_of (load k services)) (sh ∷ []) hs),
            rw (hit, of, named) refl,
            (good, routed),
          )
          | inr miss ↦
              (hs, grown ∙ ap (λ x. x ++ hs) (rw (of, miss) at step), rw (miss, named) refl, routed)
        ]

  -- The lists stay as a registry has them.
  pub register_all-IsServed :
      ((a b : ServiceDescriptor) → equal a b ≡ true → a ≡ b)
      → (ctx : ℕ) (invoker : Invoker) (next : ℕ) (descs : List ServiceDescriptor)
        (services out : Table Text (List ServiceHandler))
      → ((n : Text) → IsServed n (handlers_of (load n services)))
      → register_all equal ctx invoker next descs services ≡ returns out
      → (n : Text) → IsServed n (handlers_of (load n out))
  unfolding register_all
  register_all-IsServed sound ctx invoker next [] services out served h n =
      let e : services ≡ out = cc in rw (← e) (served n)
  register_all-IsServed sound ctx invoker next (d ∷ descs) services out served h n =
      let (sh, made, rest) = >>=-eq-returns (new_default_service_handler next ctx d invoker) _ h in
      let (more, registered, tail) = >>=-eq-returns (register equal sh services) _ rest in
      register_all-IsServed sound ctx invoker (next + 1) descs more out
        (λ m. (register-IsServed equal sound services more sh m served registered).0) tail n
