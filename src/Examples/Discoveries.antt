-- ===== src/Examples/Discoveries.antt =====
-- A discovery on a network of three nodes.
use totem.Base.{
  ◌⊎◌, map, List, ◌<◌, ◌≡◌, ◌+◌, ◌≤◌, refl, false, Option, none, some, [], ◌∷◌, ◌++◌, inl, arith,
  All, Text, Bytes, codes, text_eq,
}
use totem.Wire.{Rpc, ServiceInfo, ServiceDescriptor, DiscoveryRequest}
use totem.Status.{Result, ok}
use totem.Handlers.{ServiceHandler, Invoker, stream_controller}
use totem.Controller.{Controller}
use totem.Discovery.{
  stops_here, is_skipped, pass_on, reflection_name, list_services_name, local_services,
  list_services, first_request,
}
use totem.Discovery.Stops.{found_by}
use totem.Discovery.Reach.{Stops, Reached, IsNext, list_services-Reached}
use totem.Discovery.Merging.{find, IsDistinct, list_services_merges}
use totem.Discovery.Chains.{
  Chain, arrived, asks, AreDifferent, is_among, int32_negative, Chain-hops, Chain-visits_once,
  discovery_ends,
}
use totem.Examples.{fresh}

abbrev reflection : ServiceDescriptor
reflection = record { name = reflection_name; methods = []; visibility = none }

abbrev service_t : ServiceDescriptor
service_t = record { name = codes "t"; methods = []; visibility = none }

-- a spliced stream
abbrev far : Invoker
far = record { target = stream_controller 1; flags = 4 }

abbrev far_handler : ServiceHandler
far_handler = record {
  self = 1;
  controller_context = 8;
  descriptor = reflection;
  method_invokers = (list_services_name, far) ∷ [];
  method_info = [];
  method_qos = [];
  topology_flags = 4;
}

abbrev node : Text → Controller
node uuid = record fresh { uuid = uuid; services = (reflection_name, far_handler ∷ []) ∷ [] }

abbrev no_bytes : DiscoveryRequest → Bytes
no_bytes r = []

abbrev always_t : Bytes → Option ServiceInfo
always_t b = some (record { services = service_t ∷ reflection ∷ [] })

abbrev replies_ok : Invoker → Rpc → Result Bytes
replies_ok i m = ok []

abbrev start : DiscoveryRequest
start = first_request (codes "a") 3

abbrev after_b : DiscoveryRequest
after_b = record { initiator = codes "a"; visited = codes "a" ∷ codes "b" ∷ []; remaining_hops = 2 }

abbrev after_c : DiscoveryRequest
after_c = record {
  initiator = codes "a";
  visited = codes "a" ∷ codes "b" ∷ codes "c" ∷ [];
  remaining_hops = 1;
}

walk : Chain no_bytes always_t replies_ok start (codes "b" ∷ codes "c" ∷ []) after_c
unfolding list_services first_request
walk =
    asks start after_b after_c (codes "c" ∷ []) (node (codes "b")) far (inl refl)
      (asks after_b after_c after_c [] (node (codes "c")) far (inl refl) (arrived after_c))

list_services-Reached_example :
    (Stops (codes "b") start
      × ((list_services no_bytes always_t replies_ok (node (codes "b")) start).asked ≡ []))
    ⊎ ((¬ Stops (codes "b") start)
        × (is : List Invoker) × (next : DiscoveryRequest) × Reached 7 (far_handler ∷ []) is
        × IsNext (codes "b") start next
        × ((list_services no_bytes always_t replies_ok (node (codes "b")) start).asked
            ≡ map (λ i. (i, next)) is))
unfolding first_request
list_services-Reached_example =
    list_services-Reached no_bytes always_t replies_ok (node (codes "b")) start (omega arith)

list_services_merges_example :
    IsDistinct (list_services no_bytes always_t replies_ok (node (codes "b")) start).services
    × (find
          (codes "t")
          (list_services no_bytes always_t replies_ok (node (codes "b")) start).services
        ≡ find (codes "t") (
            local_services (node (codes "b")).services []
            ++ found_by no_bytes always_t replies_ok (pass_on (codes "b") start) (far ∷ [])))
unfolding stops_here first_request is_skipped
list_services_merges_example =
    list_services_merges no_bytes always_t replies_ok (node (codes "b")) start (codes "t") refl

Chain-hops_example : (2 + after_c.remaining_hops ≡ 3) × (after_c.remaining_hops < int32_negative)
unfolding first_request
Chain-hops_example =
    Chain-hops no_bytes always_t replies_ok start after_c (codes "b" ∷ codes "c" ∷ []) (omega arith)
      walk

Chain-visits_once_example :
    AreDifferent (codes "b" ∷ codes "c" ∷ [])
    × All (λ u. is_among (codes "a" ∷ []) u ≡ false) (codes "b" ∷ codes "c" ∷ [])
    × All (λ u. is_among (codes "a" ∷ []) u ≡ false) (codes "b" ∷ codes "c" ∷ [])
    × (after_c.visited ≡ codes "a" ∷ codes "b" ∷ codes "c" ∷ [])
unfolding first_request
Chain-visits_once_example =
    Chain-visits_once no_bytes always_t replies_ok start after_c (codes "b" ∷ codes "c" ∷ []) walk

discovery_ends_example : 2 + 1 ≤ 3
discovery_ends_example =
    discovery_ends no_bytes always_t replies_ok (codes "a" ∷ codes "b" ∷ codes "c" ∷ []) (codes "a")
      3 after_c (codes "b" ∷ codes "c" ∷ []) refl (refl, (refl, tt)) walk
