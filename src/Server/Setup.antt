-- ===== src/Server/Setup.antt =====
-- server.go: the life of a server up to `Serve`, while no stream's context ends.
use totem.Base.{
  ℕ, ◌≡◌, ◌⊎◌, ◌∙◌, refl, any, ◌==◌, nat_eq, false, sym, ap, subst, Bool, true, Option, none, some,
  List, [], ◌∷◌, ◌++◌, ◌+◌, All, Bool-cases, inl, inr, Text, same, same_iff, same_refl, text_eq,
  bit_or,
}
use totem.Base.Go.{returns_inj, returns, panics, ◌>>=◌, >>=-eq-returns}
use totem.Base.Table.{Table, load, IsMap, store-IsMap}
use totem.Wire.{ServiceDescriptor, ServiceInfo}
use totem.Status.{Err, Result, ok, err}
use totem.Handlers.{
  ServiceHandler, Invoker, local_service, register, append, handlers_of,
  new_default_service_handler,
}
use totem.Handlers.Building.{BroadcastOk}
use totem.Handlers.Registry.{IsUniform, register-IsServed}
use totem.Controller.{Controller}
use totem.Controller.Starting.{
  new_stream_controller, new_stream_controller_known, new_stream_controller-IsFresh,
}
use totem.Receiver.{forget, two_wrappers}
use totem.Topology.{topology_local}
use totem.Server.{
  with_services, Server, ServerOption, Link, Implementation, new_server, register_local,
  register_service, apply, default_options,
}
use totem.Server.Descriptors.{register_all}
use totem.Server.Descriptors.Routed.{register-handlers}
use totem.Server.Splicing.{splice_start, splice_finish}
use totem.Server.Splicing.Outcome.{IsRegistry, nameless, splice_start_known, splice_start_exposes}
use totem.Server.Splicing.Forwarded.{finished}

module _ (equal : ServiceDescriptor → ServiceDescriptor → Bool)
    (reflection : ServiceDescriptor) where
  -- The servers that `NewServer`, `RegisterService` and `Splice` make, in any order, with the streams
  -- that have a receiver. What the discovery of a splice returns, and what its controller has come to
  -- by then, is for the other side to say; a receiver that was kicked lets its stream go.
  pub data SetUp : List ℕ → Server → Type 0 where
    made :
        {known : List ℕ} {srv : Server} (uuid : Text) (stream : ℕ) (before : List ℕ)
        (stream_context start : ℕ) (opts : List ServerOption)
        → new_server equal reflection uuid stream before stream_context start opts
          ≡ returns (known, srv)
        → SetUp known srv
    registered :
        {known : List ℕ} {srv out : Server} (impl : Option Implementation)
        → SetUp known srv
        → register_service equal impl srv ≡ returns out
        → SetUp known out
    spliced :
        {known known' : List ℕ} {srv out : Server} (uuid : Text) (stream stream_context : ℕ)
        (opts : List ServerOption) (start link : Link) (info : Result ServiceInfo)
        (failure : Option Err)
        → SetUp known srv
        → splice_start equal reflection uuid stream known stream_context opts srv
          ≡ returns (known', start)
        → link.id ≡ start.id
        → splice_finish equal link info srv ≡ returns (out, failure)
        → SetUp known' out
    let_go :
        {known : List ℕ} {srv : Server} (stream : ℕ)
        → SetUp known srv
        → SetUp (forget stream known) srv

  -- a registry whose first handler of the reflection service is of the reflection descriptor
  record IsReflecting (services : Table Text (List ServiceHandler)) : Type 0 where
    registry : IsRegistry services
    reflects :
        (h : ServiceHandler) × (rest : List ServiceHandler) × (handlers_of
            (load reflection.name services)
          ≡ h ∷ rest)
        × (h.descriptor ≡ reflection)

  reflects-IsUniform :
      (services : Table Text (List ServiceHandler))
      → IsReflecting services
      → IsUniform reflection (handlers_of (load reflection.name services))
  reflects-IsUniform services r =
      let (first, rest, there, of) = r.reflects in
      let (d, named, all) = r.registry.served reflection.name in
      let e : d ≡ reflection = sym (rw there at all).0 ∙ of in
      subst (λ x. IsUniform x (handlers_of (load reflection.name services))) e all

  local_registers :
      (desc : Option ServiceDescriptor) (srv out : Server)
      → register_local equal desc srv ≡ returns out
      → (sh : ServiceHandler) × (register equal sh srv.controller.state.services
          ≡ returns out.controller.state.services)
  unfolding register_local
  local_registers none srv out h = cc
  local_registers (some d) srv out h =
      let (sh, _, rest) =
        >>=-eq-returns
          (new_default_service_handler (srv.next + 1) srv.stream_context d
            (record { target = local_service srv.next; flags = bit_or 0 topology_local }))
          (λ x.
            register equal x srv.controller.state.services
            >>= (λ t. returns (record (with_services t srv) { next = srv.next + 2 })))
          h in
      let (services, e, built) =
        >>=-eq-returns (register equal sh srv.controller.state.services)
          (λ t. returns (record (with_services t srv) { next = srv.next + 2 })) rest in
      (sh, e ∙ ap (λ (x : Server). returns x.controller.state.services) (returns_inj built))

  -- A service that is registered has one more handler.
  service_registers :
      (impl : Option Implementation) (srv out : Server)
      → register_service equal impl srv ≡ returns out
      → (sh : ServiceHandler) × (register equal sh srv.controller.state.services
          ≡ returns out.controller.state.services)
  unfolding register_service
  service_registers none srv out h = cc
  service_registers (some impl) srv out h = elim (Bool-cases impl.implements) [
    | inl y ↦ local_registers impl.descriptor srv out (rw y at h)
    | inr n ↦ let k = rw n at h in cc
  ]

  module _ (equal_sound : (a b : ServiceDescriptor) → equal a b ≡ true → a ≡ b) where
    register-IsMap :
        (sh : ServiceHandler) (services out : Table Text (List ServiceHandler))
        → IsMap services
        → register equal sh services ≡ returns out
        → IsMap out
    unfolding register
    register-IsMap sh services out m h =
        let (list, appended, built) =
          >>=-eq-returns (append equal (handlers_of (load sh.descriptor.name services)) sh) _ h in
        subst IsMap (returns_inj built) (store-IsMap sh.descriptor.name list services m)

    register-IsReflecting :
        (sh : ServiceHandler) (services out : Table Text (List ServiceHandler))
        → IsReflecting services
        → register equal sh services ≡ returns out
        → IsReflecting out
    register-IsReflecting sh services out r h =
        let (first, rest, there, of) = r.reflects in
        record {
          registry = record {
            keys_once = register-IsMap sh services out r.registry.keys_once h;
            served =
                λ n. (register-IsServed equal equal_sound services out sh n r.registry.served h).0;
          };
          reflects = elim (Bool-cases (same sh.descriptor.name reflection.name)) [
            | inl hit ↦ (
              first,
              rest ++ sh ∷ [],
              register-handlers equal services out sh reflection.name h ∙ rw (hit, there) refl,
              of,
            )
            | inr miss ↦ (
              first,
              rest,
              register-handlers equal services out sh reflection.name h ∙ rw (miss, there) refl,
              of,
            )
          ];
        }

    register_all-IsReflecting :
        (ctx : ℕ) (invoker : Invoker) (next : ℕ) (descs : List ServiceDescriptor)
        (services out : Table Text (List ServiceHandler))
        → IsReflecting services
        → register_all equal ctx invoker next descs services ≡ returns out
        → IsReflecting out
    unfolding register_all
    register_all-IsReflecting ctx invoker next [] services out r h =
        subst IsReflecting (returns_inj h) r
    register_all-IsReflecting ctx invoker next (d ∷ descs) services out r h =
        let (sh, made', rest) =
          >>=-eq-returns (new_default_service_handler next ctx d invoker) _ h in
        let (more, grown, tail) = >>=-eq-returns (register equal sh services) _ rest in
        register_all-IsReflecting ctx invoker (next + 1) descs more out
          (register-IsReflecting sh services more r grown) tail

    module _ (equal_refl : (d : ServiceDescriptor) → equal d d ≡ true)
        (fine : All BroadcastOk reflection.methods) where
      start-IsReflecting :
          (a b : ServiceHandler) (services : Table Text (List ServiceHandler))
          → services ≡ (reflection.name, a ∷ b ∷ []) ∷ []
          → a.descriptor ≡ reflection
          → b.descriptor ≡ reflection
          → IsReflecting services
      start-IsReflecting a b services e da db = rw e (record {
        registry = record {
          keys_once = (refl, tt);
          served = λ n. elim (Bool-cases (same reflection.name n)) [
            | inl hit ↦ rw hit (reflection, (same_iff reflection.name n).0 hit, (da, (db, tt)))
            | inr miss ↦ rw miss (nameless n)
          ];
        };
        reflects = (a, b ∷ [], rw (same_refl reflection.name) refl, da);
      })

      made-IsReflecting :
          (known : List ℕ) (srv : Server) (uuid : Text) (stream : ℕ) (before : List ℕ)
          (stream_context start : ℕ) (opts : List ServerOption)
          → new_server equal reflection uuid stream before stream_context start opts
            ≡ returns (known, srv)
          → IsReflecting srv.controller.state.services
      unfolding new_server
      made-IsReflecting known srv uuid stream before stream_context start opts h =
          let name = (apply opts default_options).name in
          let (p, made_it, built) =
            >>=-eq-returns
              (new_stream_controller equal uuid name 0 stream before stream_context start
                (start + 1) (start + 2) reflection)
              _ h in
          elim (Bool-cases (any (λ s. s == stream) before)) [
            | inl old ↦
                let k =
                  new_stream_controller_known equal uuid name 0 stream before stream_context start
                    (start + 1) (start + 2) reflection old in
                cc (k, made_it)
            | inr new ↦
                let (c, e, _, a, b, only, _, _, da, db) =
                  new_stream_controller-IsFresh equal uuid name 0 stream before stream_context start
                    (start + 1) (start + 2) reflection new (equal_refl reflection) fine in
                let same_c : (stream ∷ before, c) ≡ p = returns_inj (sym e ∙ made_it) in
                subst (λ (x : List ℕ × Server). IsReflecting x.1.controller.state.services)
                  (returns_inj built)
                  (start-IsReflecting a b p.1.services
                    (ap (λ (x : List ℕ × Controller). x.1.services) (sym same_c) ∙ only) da db)
          ]

      SetUp-IsReflecting :
          (known : List ℕ) (srv : Server)
          → SetUp known srv
          → IsReflecting srv.controller.state.services
      unfolding splice_finish
      SetUp-IsReflecting known srv (made uuid stream before stream_context start opts h) =
          made-IsReflecting known srv uuid stream before stream_context start opts h
      SetUp-IsReflecting _ srv (let_go {known = known} stream before) =
          SetUp-IsReflecting known srv before
      SetUp-IsReflecting known srv (registered {srv = old} impl before h) =
          let (sh, e) = service_registers impl old srv h in
          register-IsReflecting sh old.controller.state.services srv.controller.state.services
            (SetUp-IsReflecting known old before) e
      SetUp-IsReflecting _ srv
            (spliced {known = known} {srv = old} uuid stream ctx opts start link
              (ok info)
              failure
              before
              begun
              same
              h) =
          register_all-IsReflecting _ _ _ info.services old.controller.state.services
            srv.controller.state.services (SetUp-IsReflecting known old before)
            (finished equal link info old srv failure h).0
      SetUp-IsReflecting _ srv
            (spliced {known = known} {srv = old} uuid stream ctx opts start link
              (err e)
              failure
              before
              begun
              same
              h) =
          subst (λ (x : Server × Option Err). IsReflecting x.0.controller.state.services)
            (returns_inj h) (SetUp-IsReflecting known old before)

  -- Let proto.Equal decide equality, and let the Broadcast methods of the reflection service pass the
  -- checks. Whatever services were registered on a server and whatever streams were spliced to it, in
  -- whatever order and with whatever outcome, while no stream's context has ended: its registry is a
  -- map whose lists are of one descriptor each, under its name, and the next splice makes its
  -- controller and adds its stream to those that have a receiver, or panics if the stream has one.
  pub set_up_splices :
      (known : List ℕ) (srv : Server) (uuid : Text) (stream stream_context : ℕ)
      (opts : List ServerOption)
      → ((a b : ServiceDescriptor) → equal a b ≡ true → a ≡ b)
      → ((d : ServiceDescriptor) → equal d d ≡ true)
      → All BroadcastOk reflection.methods
      → SetUp known srv
      → IsRegistry srv.controller.state.services
        × (((any (λ s. s == stream) known ≡ false)
              × (link : Link) × (splice_start equal reflection uuid stream known stream_context opts
                    srv
                  ≡ returns (stream ∷ known, link)))
            ⊎ ((any (λ s. s == stream) known ≡ true)
                × (splice_start equal reflection uuid stream known stream_context opts srv
                    ≡ panics two_wrappers)))
  set_up_splices known srv uuid stream stream_context opts equal_sound equal_refl fine s =
      let r = SetUp-IsReflecting equal_sound equal_refl fine known srv s in
      (
        r.registry,
        elim (Bool-cases (any (λ s. s == stream) known)) [
          | inl old ↦ inr (
            old,
            splice_start_known equal reflection uuid stream known stream_context opts srv old,
          )
          | inr new ↦
              let (link, e, _, _, _, _, _, _) =
                splice_start_exposes equal reflection uuid stream known stream_context opts srv new
                  equal_refl fine r.registry (reflects-IsUniform srv.controller.state.services r) in
              inl (new, link, e)
        ],
      )
