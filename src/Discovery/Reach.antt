-- ===== src/Discovery/Reach.antt =====
-- Whom `ListServices` asks, said without its own tests.
use totem.Base.{
  ℕ, ◌≡◌, ◌≢◌, ◌⊎◌, ◌+◌, ◌<◌, refl, subst, true, false, none, some, List, [], ◌∷◌, ◌++◌, map, Text,
  Bytes, Option, same, same_iff, text_eq, nat_eq, ==_iff, ◌==◌, any, Any, bit_and, Bool-cases,
  Option-cases, inl, inr, arith,
}
use totem.Base.Table.{Table, load}
use totem.Wire.{Rpc, ServiceInfo, DiscoveryRequest, int32_mod}
use totem.Status.{Result}
use totem.Handlers.{ServiceHandler, Invoker, handlers_of}
use totem.Controller.{Controller}
use totem.Discovery.{
  stops_here, pass_on, is_skipped, reflection_handlers, reflection_name, list_services_name,
  list_services,
}
use totem.Discovery.Stops.{peers, list_services_asks}

-- A node that the request goes no further from.
abbrev pub Stops : Text → DiscoveryRequest → Type 0
Stops uuid req = (req.remaining_hops ≡ 0) ⊎ (req.initiator ≡ uuid) ⊎ Any (λ v. v ≡ uuid) req.visited

-- Of the handlers of the reflection service, those that are asked are the ones of spliced streams whose
-- methods do not run here and which are not of the stream with this context.
pub data Reached (ctx : ℕ) : List ServiceHandler → List Invoker → Type 0 where
  nobody : Reached ctx [] []
  asked :
      {h : ServiceHandler} {hs : List ServiceHandler} {is : List Invoker} (i : Invoker)
      → load list_services_name h.method_invokers ≡ some i
      → bit_and i.flags 1 ≡ 0
      → bit_and i.flags 4 ≢ 0
      → h.controller_context ≢ ctx
      → Reached ctx hs is
      → Reached ctx (h ∷ hs) (i ∷ is)
  cannot_list :
      {h : ServiceHandler} {hs : List ServiceHandler} {is : List Invoker}
      → load list_services_name h.method_invokers ≡ none
      → Reached ctx hs is
      → Reached ctx (h ∷ hs) is
  passed_over :
      {h : ServiceHandler} {hs : List ServiceHandler} {is : List Invoker} (i : Invoker)
      → load list_services_name h.method_invokers ≡ some i
      → (bit_and i.flags 1 ≢ 0) ⊎ (bit_and i.flags 4 ≡ 0) ⊎ (h.controller_context ≡ ctx)
      → Reached ctx hs is
      → Reached ctx (h ∷ hs) is

-- the request as it goes on
pub record IsNext (uuid : Text) (req next : DiscoveryRequest) : Type 0 where
  pub same_initiator : next.initiator ≡ req.initiator
  pub one_visited : next.visited ≡ req.visited ++ uuid ∷ []
  pub one_hop_less : (next.remaining_hops + 1) ≡ req.remaining_hops

any-Any : (uuid : Text) (vs : List Text) → any (λ v. same v uuid) vs ≡ true → Any (λ v. v ≡ uuid) vs
any-Any uuid [] h = cc
any-Any uuid (v ∷ vs) h = elim (Bool-cases (same v uuid)) [
  | inl y ↦ inl ((same_iff v uuid).0 y)
  | inr n ↦ inr (any-Any uuid vs (rw n at h))
]

Any-any : (uuid : Text) (vs : List Text) → Any (λ v. v ≡ uuid) vs → any (λ v. same v uuid) vs ≡ true
Any-any uuid [] h = absurd h
Any-any uuid (v ∷ vs) (inl e) = rw ((same_iff v uuid).1 e) refl
Any-any uuid (v ∷ vs) (inr h) = elim (Bool-cases (same v uuid)) [
  | inl y ↦ rw y refl
  | inr n ↦ rw n (Any-any uuid vs h)
]

halts-Stops : (uuid : Text) (req : DiscoveryRequest) → stops_here uuid req ≡ true → Stops uuid req
unfolding stops_here
halts-Stops uuid req h = elim (Bool-cases (req.remaining_hops == 0)) [
  | inl y ↦ inl ((==_iff req.remaining_hops 0).0 y)
  | inr n ↦ elim (Bool-cases (same req.initiator uuid)) [
    | inl y ↦ inr (inl ((same_iff req.initiator uuid).0 y))
    | inr m ↦ inr (inr (any-Any uuid req.visited (rw (n, m) at h)))
  ]
]

goes-Stops : (uuid : Text) (req : DiscoveryRequest) → stops_here uuid req ≡ false → ¬ Stops uuid req
unfolding stops_here
goes-Stops uuid req h (inl e) = let y = (==_iff req.remaining_hops 0).1 e in ground (arith, h, y)
goes-Stops uuid req h (inr (inl e)) =
    let y = (same_iff req.initiator uuid).1 e in ground (arith, h, y)
goes-Stops uuid req h (inr (inr a)) = let y = Any-any uuid req.visited a in ground (arith, h, y)

pass_on-IsNext :
    (uuid : Text) (req : DiscoveryRequest)
    → stops_here uuid req ≡ false
    → req.remaining_hops < int32_mod
    → IsNext uuid req (pass_on uuid req)
unfolding pass_on stops_here
pass_on-IsNext uuid req h small = record {
  same_initiator = refl;
  one_visited = refl;
  one_hop_less = ground (arith, h, small);
}

skipped_why :
    (ctx : ℕ) (h : ServiceHandler) (i : Invoker)
    → is_skipped ctx h i ≡ true
    → (bit_and i.flags 1 ≢ 0) ⊎ (bit_and i.flags 4 ≡ 0) ⊎ (h.controller_context ≡ ctx)
unfolding is_skipped
skipped_why ctx h i s = elim (Bool-cases (bit_and i.flags 1 == 0)) [
  | inr n ↦ inl (λ e. cc (n, (==_iff (bit_and i.flags 1) 0).1 e))
  | inl y ↦ elim (Bool-cases (bit_and i.flags 4 == 0)) [
    | inl z ↦ inr (inl ((==_iff (bit_and i.flags 4) 0).0 z))
    | inr m ↦ inr (inr ((==_iff h.controller_context ctx).0 (rw (y, m) at s)))
  ]
]

asked_why :
    (ctx : ℕ) (h : ServiceHandler) (i : Invoker)
    → is_skipped ctx h i ≡ false
    → (bit_and i.flags 1 ≡ 0) × (bit_and i.flags 4 ≢ 0) × (h.controller_context ≢ ctx)
unfolding is_skipped
asked_why ctx h i s = (ground (arith, s), ground (arith, s), ground (arith, s))

peers-Reached : (ctx : ℕ) (hs : List ServiceHandler) → Reached ctx hs (peers ctx hs)
peers-Reached ctx [] = nobody
peers-Reached ctx (h ∷ hs) = elim (Option-cases (load list_services_name h.method_invokers)) [
  | inl e ↦ rw (e, peers) (cannot_list e (peers-Reached ctx hs))
  | inr (i, e) ↦ elim (Bool-cases (is_skipped ctx h i)) [
    | inl s ↦ rw (e, peers, s) (passed_over i e (skipped_why ctx h i s) (peers-Reached ctx hs))
    | inr s ↦
        let (remote, spliced, other) = asked_why ctx h i s in
        rw (e, peers, s) (asked i e remote spliced other (peers-Reached ctx hs))
  ]
]

same_handlers :
    (services : Table Text (List ServiceHandler))
    → reflection_handlers services ≡ handlers_of (load reflection_name services)
same_handlers services = elim (Option-cases (load reflection_name services)) [
  | inl e ↦ rw (e, reflection_handlers) refl
  | inr (hs, e) ↦ rw (e, reflection_handlers) refl
]

module _ (marshal : DiscoveryRequest → Bytes) (unmarshal : Bytes → Option ServiceInfo)
    (invoke : Invoker → Rpc → Result Bytes) where
  -- A node that the request has no hop left for, whose own discovery it is, or that it has visited
  -- asks nobody. Any other node asks, each once and in order, exactly those handlers of the reflection
  -- service that are of spliced streams, do not run here and are not of the node's own stream, with the
  -- request that has the node added to the visited ones and one hop less (as a bit pattern).
  pub list_services-Reached :
      (c : Controller) (req : DiscoveryRequest)
      → req.remaining_hops < int32_mod
      → (Stops c.uuid req × ((list_services marshal unmarshal invoke c req).asked ≡ []))
        ⊎ ((¬ Stops c.uuid req)
            × (is : List Invoker) × (next : DiscoveryRequest) × Reached c.stream_context
                (handlers_of (load reflection_name c.services))
                is
            × IsNext c.uuid req next
            × ((list_services marshal unmarshal invoke c req).asked ≡ map (λ i. (i, next)) is))
  list_services-Reached c req small =
      let all = list_services_asks marshal unmarshal invoke c req in
      elim (Bool-cases (stops_here c.uuid req)) [
        | inl y ↦ inl (halts-Stops c.uuid req y, rw y at all)
        | inr n ↦ inr (
          goes-Stops c.uuid req n,
          peers c.stream_context (reflection_handlers c.services),
          pass_on c.uuid req,
          subst
              (λ hs.
                Reached c.stream_context hs
                  (peers c.stream_context (reflection_handlers c.services)))
              (same_handlers c.services)
              (peers-Reached c.stream_context (reflection_handlers c.services)),
          pass_on-IsNext c.uuid req n small,
          rw n at all,
        )
      ]
