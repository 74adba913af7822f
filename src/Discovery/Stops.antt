-- ===== src/Discovery/Stops.antt =====
-- Which nodes a call of `ListServices` asks, and with what request.
use totem.Base.{
  ℕ, ◌≡◌, ◌∙◌, refl, sym, ap, true, false, Option, none, some, List, [], ◌∷◌, ◌++◌, map, append-nil,
  append_assoc, Bytes, text_eq, Bool-cases, Option-cases, inl, inr, if◌then◌else◌,
}
use totem.Base.Table.{load}
use totem.Wire.{Rpc, ServiceDescriptor, ServiceInfo, DiscoveryRequest}
use totem.Status.{Result}
use totem.Handlers.{ServiceHandler, Invoker, range}
use totem.Handlers.Registry.{range-next}
use totem.Controller.{Controller}
use totem.Discovery.{
  Listing, stops_here, pass_on, is_skipped, reflection_handlers, list_services_name, list_message,
  local_services, remote_services, ask, gather, merge, list_services,
}

-- The invokers, among those of some handlers, that reach a spliced node by another stream.
abbrev pub peers : ℕ → List ServiceHandler → List Invoker
peers ctx [] = []
peers ctx (h ∷ hs) = elim (load list_services_name h.method_invokers) [
  | none ↦ peers ctx hs
  | some i ↦ if is_skipped ctx h i then peers ctx hs else i ∷ peers ctx hs
]

module _ (marshal : DiscoveryRequest → Bytes) (unmarshal : Bytes → Option ServiceInfo)
    (invoke : Invoker → Rpc → Result Bytes) where
  -- what some nodes are found to have, in order
  abbrev pub found_by : DiscoveryRequest → List Invoker → List ServiceDescriptor
  found_by req [] = []
  found_by req (i ∷ is) =
      remote_services unmarshal (invoke i (list_message (marshal req))) ++ found_by req is

  ask-none :
      (ctx : ℕ) (req : DiscoveryRequest) (h : ServiceHandler) (l : Listing)
      → load list_services_name h.method_invokers ≡ none
      → ask marshal unmarshal invoke ctx req h l ≡ (true, l)
  unfolding ask
  ask-none ctx req h l e = rw (e, ask) refl

  ask_skipped :
      (ctx : ℕ) (req : DiscoveryRequest) (h : ServiceHandler) (i : Invoker) (l : Listing)
      → load list_services_name h.method_invokers ≡ some i
      → is_skipped ctx h i ≡ true
      → ask marshal unmarshal invoke ctx req h l ≡ (true, l)
  unfolding ask
  ask_skipped ctx req h i l e s = rw (e, ask, s) refl

  asked_with : DiscoveryRequest → Invoker → Listing → Listing
  asked_with req i l = record {
    services = l.services ++ remote_services unmarshal (invoke i (list_message (marshal req)));
    asked = l.asked ++ (i, req) ∷ [];
  }

  ask_peer :
      (ctx : ℕ) (req : DiscoveryRequest) (h : ServiceHandler) (i : Invoker) (l : Listing)
      → load list_services_name h.method_invokers ≡ some i
      → is_skipped ctx h i ≡ false
      → ask marshal unmarshal invoke ctx req h l ≡ (true, asked_with req i l)
  unfolding ask asked_with
  ask_peer ctx req h i l e s = rw (e, ask, s) refl

  -- what the listing is after some invokers were asked
  after : DiscoveryRequest → List Invoker → Listing → Listing
  after req is l = record {
    services = l.services ++ found_by req is;
    asked = l.asked ++ map (λ i. (i, req)) is;
  }

  after-nil : (req : DiscoveryRequest) (l : Listing) → after req [] l ≡ l
  unfolding after
  after-nil req l = rw (append-nil l.services, append-nil l.asked) refl

  after-cons :
      (req : DiscoveryRequest) (i : Invoker) (is : List Invoker) (l : Listing)
      → after req is (asked_with req i l) ≡ after req (i ∷ is) l
  unfolding after asked_with
  after-cons req i is l =
      rw
        (
          append_assoc l.services
              (remote_services unmarshal (invoke i (list_message (marshal req)))) (found_by req is),
          append_assoc l.asked ((i, req) ∷ []) (map (λ j. (j, req)) is),
        )
        refl

  ask_all :
      (ctx : ℕ) (req : DiscoveryRequest) (hs : List ServiceHandler) (l : Listing)
      → range (ask marshal unmarshal invoke ctx req) hs l ≡ (true, after req (peers ctx hs) l)
  unfolding range
  ask_all ctx req [] l = ap (λ x. (true, x)) (sym (after-nil req l))
  ask_all ctx req (h ∷ hs) l = elim (Option-cases (load list_services_name h.method_invokers)) [
    | inl e ↦
        range-next (ask marshal unmarshal invoke ctx req) h hs l l (ask-none ctx req h l e)
        ∙ (ask_all ctx req hs l ∙ rw (e, peers) refl)
    | inr (i, e) ↦ elim (Bool-cases (is_skipped ctx h i)) [
      | inl s ↦
          range-next (ask marshal unmarshal invoke ctx req) h hs l l (ask_skipped ctx req h i l e s)
          ∙ (ask_all ctx req hs l ∙ rw (e, peers, s) refl)
      | inr s ↦
          range-next (ask marshal unmarshal invoke ctx req) h hs l (asked_with req i l)
            (ask_peer ctx req h i l e s)
          ∙ (ask_all ctx req hs (asked_with req i l)
              ∙ (ap (λ x. (true, x)) (after-cons req i (peers ctx hs) l) ∙ rw (e, peers, s) refl))
    ]
  ]

  -- A node that a request has reached before, whose own discovery it is, or that the request has no
  -- hop left for asks nobody; any other node asks exactly the handlers of the reflection service that
  -- lead to a spliced node by another stream, each once and in order, with a request that has
  -- the node added to the visited ones and one hop less.
  pub list_services_asks :
      (c : Controller) (req : DiscoveryRequest)
      → (list_services marshal unmarshal invoke c req).asked ≡ (
          if stops_here c.uuid req
          then []
          else map
              (λ i. (i, pass_on c.uuid req))
              (peers c.stream_context (reflection_handlers c.services)))
  unfolding list_services gather after
  list_services_asks c req = elim (Bool-cases (stops_here c.uuid req)) [
    | inl e ↦ rw (e, list_services) refl
    | inr e ↦
        rw
          (
            e,
            list_services,
            gather,
            ask_all c.stream_context (pass_on c.uuid req) (reflection_handlers c.services)
                (record { services = local_services c.services []; asked = [] }),
          )
          refl
  ]

  -- The services of the result are the merged ones of the node and of those that it asks.
  pub list_services-services :
      (c : Controller) (req : DiscoveryRequest)
      → stops_here c.uuid req ≡ false
      → (list_services marshal unmarshal invoke c req).services
        ≡ merge (
            local_services c.services []
            ++ found_by
                (pass_on c.uuid req)
                (peers c.stream_context (reflection_handlers c.services)))
  unfolding list_services gather after
  list_services-services c req e =
      rw
        (
          e,
          list_services,
          gather,
          ask_all c.stream_context (pass_on c.uuid req) (reflection_handlers c.services)
              (record { services = local_services c.services []; asked = [] }),
        )
        refl
