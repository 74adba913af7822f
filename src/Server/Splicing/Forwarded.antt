-- ===== src/Server/Splicing/Forwarded.antt =====
-- What `Splice` leaves when the discovery was answered: the calls that the server passes on, and the
-- discoveries that it passes on.
use totem.Base.{
  ℕ, ◌≡◌, ◌≢◌, ◌∙◌, refl, sym, ap, subst, Bool, false, Option, none, some, List, [], ◌∷◌, ◌++◌, ◌+◌,
  All, map, Bool-cases, Option-cases, inl, inr, Text, text_eq, nat_eq, if◌then◌else◌,
}
use totem.Base.Go.{returns_inj, returns, >>=-eq-returns}
use totem.Base.Table.{Table, load, beq_ne}
use totem.Wire.{ServiceDescriptor, ServiceInfo}
use totem.Status.{Err, ok}
use totem.Topology.{topology_spliced}
use totem.Handlers.{ServiceHandler, Invoker, stream_controller, handlers_of}
use totem.Handlers.Building.{declares}
use totem.Discovery.{reflection_name, list_services_name, reflection_handlers, is_skipped}
use totem.Discovery.Stops.{peers}
use totem.Server.{Server, Link}
use totem.Server.Descriptors.{register_all}
use totem.Server.Descriptors.Routed.{under, IsRouted, Routed, register_all-Routed}
use totem.Server.Splicing.{splice_finish, invoker_of}

module _ (equal : ServiceDescriptor → ServiceDescriptor → Bool) (link : Link) (info : ServiceInfo)
    (srv out : Server) (failure : Option Err) where
  pub finished :
      splice_finish equal link (ok info) srv ≡ returns (out, failure)
      → (register_all equal link.state.stream_context
            (invoker_of link.id link.state)
            (srv.next + 3)
            info.services
            srv.controller.state.services
          ≡ returns out.controller.state.services)
        × (out.spliced ≡ srv.spliced ++ link ∷ [])
        × (failure ≡ none)
  unfolding splice_finish
  finished h =
      let (services, e, built) =
        >>=-eq-returns
          (register_all equal link.state.stream_context (invoker_of link.id link.state)
            (srv.next + 3) info.services srv.controller.state.services)
          _ h in
      let both = returns_inj built in
      (
        e ∙ ap (λ (p : Server × Option Err). returns p.0.controller.state.services) both,
        sym (ap (λ (p : Server × Option Err). p.0.spliced) both),
        sym (ap (λ (p : Server × Option Err). p.1) both),
      )

  -- After a discovery that was answered, `Splice` fails no more; the spliced controller is the last of
  -- the server's; and every name of the server's registry has the handlers that it had and then, in
  -- order, one for each discovered service of that name, by which its calls go to the spliced stream.
  pub splice_finish-Routed :
      (k : Text)
      → splice_finish equal link (ok info) srv ≡ returns (out, failure)
      → (failure ≡ none)
        × (out.spliced ≡ srv.spliced ++ link ∷ [])
        × Routed equal link.state.stream_context
            (invoker_of link.id link.state)
            k
            info.services
            (handlers_of (load k srv.controller.state.services))
            (handlers_of (load k out.controller.state.services))
  splice_finish-Routed k h =
      let (e, spliced, fine) = finished h in
      (
        fine,
        spliced,
        register_all-Routed equal link.state.stream_context (invoker_of link.id link.state)
            (srv.next + 3) info.services srv.controller.state.services out.controller.state.services
            k e,
      )

-- The invoker, once for each descriptor that declares `ListServices`.
abbrev pub for_discovery : Invoker → List ServiceDescriptor → List Invoker
for_discovery invoker [] = []
for_discovery invoker (d ∷ ds) =
    let rest = for_discovery invoker ds in
    if declares list_services_name d.methods then invoker ∷ rest else rest

peers-append :
    (ctx : ℕ) (xs ys : List ServiceHandler) → peers ctx (xs ++ ys) ≡ peers ctx xs ++ peers ctx ys
peers-append ctx [] ys = refl
peers-append ctx (h ∷ xs) ys = elim (Option-cases (load list_services_name h.method_invokers)) [
  | inl e ↦ rw (e, peers) (peers-append ctx xs ys)
  | inr (i, e) ↦ elim (Bool-cases (is_skipped ctx h i)) [
    | inl s ↦ rw (e, peers, s) (peers-append ctx xs ys)
    | inr s ↦ rw (e, peers, s) (ap (λ x. i ∷ x) (peers-append ctx xs ys))
  ]
]

-- the invoker of a spliced controller
across : ℕ → Invoker
across target = record { target = stream_controller target; flags = topology_spliced }

module _ (ctx far : ℕ) (apart : far ≢ ctx) (target : ℕ) where
  not_skipped :
      (h : ServiceHandler) → h.controller_context ≡ far → is_skipped ctx h (across target) ≡ false
  unfolding is_skipped across
  not_skipped h e = rw (e, beq_ne far ctx apart) refl

  routed-peers :
      (hs : List ServiceHandler)
      → All (IsRouted far (across target)) hs
      → peers ctx hs ≡ for_discovery (across target) (map (λ h. h.descriptor) hs)
  routed-peers [] all = refl
  routed-peers (h ∷ hs) (r, rest) =
      elim (Bool-cases (declares list_services_name h.descriptor.methods)) [
        | inl y ↦
            let there : load list_services_name h.method_invokers ≡ some (across target) =
              r.invokers list_services_name ∙ rw y refl in
            rw (there, peers, y, not_skipped h r.context)
              (ap (λ x. across target ∷ x) (routed-peers hs rest))
        | inr n ↦
            let gone : load list_services_name h.method_invokers ≡ none =
              r.invokers list_services_name ∙ rw n refl in
            rw (gone, peers, n) (routed-peers hs rest)
      ]

reflection_handlers-load :
    (services : Table Text (List ServiceHandler))
    → reflection_handlers services ≡ handlers_of (load reflection_name services)
reflection_handlers-load services = elim (Option-cases (load reflection_name services)) [
  | inl e ↦ rw (e, reflection_handlers) refl
  | inr (hs, e) ↦ rw (e, reflection_handlers) refl
]

module _ (equal : ServiceDescriptor → ServiceDescriptor → Bool) (link : Link) (info : ServiceInfo)
    (srv out : Server) (failure : Option Err) where
  -- When the spliced controller was made for spliced streams and its context is not the server's
  -- own, every discovery that reaches the server after the splice asks those whom it asked before
  -- and then, once for each reflection service found there, the spliced stream.
  pub splice_finish-peers :
      link.state.base_topology_flags ≡ topology_spliced
      → link.state.stream_context ≢ srv.stream_context
      → splice_finish equal link (ok info) srv ≡ returns (out, failure)
      → peers srv.stream_context (reflection_handlers out.controller.state.services)
        ≡ peers srv.stream_context (reflection_handlers srv.controller.state.services)
          ++ for_discovery (invoker_of link.id link.state) (under reflection_name info.services)
  unfolding across
  splice_finish-peers flags apart h =
      let (_, _, more) = splice_finish-Routed equal link info srv out failure reflection_name h in
      let (hs, grown, named, routed) = more in
      let same_invoker : invoker_of link.id link.state ≡ across link.id =
        ap (λ f. record { target = stream_controller link.id; flags = f }) flags in
      let crossing : All (IsRouted link.state.stream_context (across link.id)) hs =
        subst (λ i. All (IsRouted link.state.stream_context i) hs) same_invoker routed in
      let old = handlers_of (load reflection_name srv.controller.state.services) in
      ap (peers srv.stream_context) (reflection_handlers-load out.controller.state.services ∙ grown)
      ∙ (peers-append srv.stream_context old hs
          ∙ (ap (λ x. peers srv.stream_context x ++ peers srv.stream_context hs)
                (sym (reflection_handlers-load srv.controller.state.services))
              ∙ ap
                  (λ x.
                    peers srv.stream_context (reflection_handlers srv.controller.state.services)
                    ++ x)
                  (routed-peers srv.stream_context link.state.stream_context apart link.id hs
                      crossing
                    ∙ (ap (for_discovery (across link.id)) named
                        ∙ ap (λ i. for_discovery i (under reflection_name info.services))
                            (sym same_invoker)))))
