-- ===== src/Discovery.antt =====
-- stream.go: `ListServices`, and discovery.go: the request by which a discovery begins. The
-- contexts of the program are told apart by number, as in the handlers. The wire format of the
-- messages is protobuf's, and what an invoker returns is its own affair: both are parameters. The
-- loops over Go maps take the entries in the order of the list.
pub mod Stops
pub mod Merging
pub mod Chains
pub mod Reach
use totem.Base.{
  ℕ, Bool, true, false, not, ◌||◌, Option, none, some, List, [], ◌∷◌, ◌++◌, ◌+◌, ◌-◌, ◌%◌, Text,
  Bytes, codes, same, any, text_eq, nat_eq, ◌==◌, if◌then◌else◌,
}
use totem.Base.Table.{Table, load, store}
use totem.Wire.{
  get_response, get_bytes, Rpc, Content, request, ServiceDescriptor, ServiceInfo, DiscoveryRequest,
  int32_mod,
}
use totem.Status.{Result, ok, err, StatusApi, get_status}
use totem.Topology.{has_flag, topology_local, topology_spliced}
use totem.Handlers.{ServiceHandler, Invoker, range}
use totem.Controller.{Controller}

abbrev pub reflection_name : Text
reflection_name = codes "totem.ServerReflection"

abbrev pub list_services_name : Text
list_services_name = codes "ListServices"

-- What a call of `ListServices` returns, and the invocations that it makes, in order.
pub record Listing : Type 0 where
  pub services : List ServiceDescriptor
  pub asked : List (Invoker × DiscoveryRequest)

-- Why a node does not look further: the hop limit is reached, the initiator is the node itself, or
-- the node was visited already.
unfoldable pub stops_here : Text → DiscoveryRequest → Bool
stops_here uuid req =
    (req.remaining_hops == 0) || (same req.initiator uuid || any (λ v. same v uuid) req.visited)

-- the request as it is passed on: `req.Visited = append(req.Visited, sh.uuid)`, `req.RemainingHops--`
unfoldable pub pass_on : Text → DiscoveryRequest → DiscoveryRequest
pass_on uuid req = record req {
  visited = req.visited ++ uuid ∷ [];
  remaining_hops = (req.remaining_hops + int32_mod - 1) % int32_mod;
}

-- the function that the inner `Range` calls: it stops at the first handler
abbrev pub first_descriptor :
    ServiceHandler → List ServiceDescriptor → Bool × List ServiceDescriptor
first_descriptor sh services = (false, services ++ sh.descriptor ∷ [])

-- one descriptor for each service that has a handler
pub local_services :
    Table Text (List ServiceHandler) → List ServiceDescriptor → List ServiceDescriptor
unfolding range
local_services [] services = services
local_services ((name, handlers) ∷ rest) services =
    local_services rest ((range first_descriptor handlers services).1)

-- the loop that removes duplicates, over the map `deduped`
pub dedup : List ServiceDescriptor → Table Text ServiceDescriptor → Table Text ServiceDescriptor
dedup [] deduped = deduped
dedup (svc ∷ rest) deduped = elim (load svc.name deduped) [
  | none ↦ dedup rest (store svc.name svc deduped)
  | some _ ↦ dedup rest deduped
]

pub values : Table Text ServiceDescriptor → List ServiceDescriptor
values [] = []
values ((name, svc) ∷ rest) = svc ∷ values rest

unfoldable pub merge : List ServiceDescriptor → List ServiceDescriptor
unfolding dedup values
merge services = values (dedup services [])

-- whether a handler is passed over: its methods run here, or it is the peer of this stream
unfoldable pub is_skipped : ℕ → ServiceHandler → Invoker → Bool
is_skipped stream_context handler invoker =
    has_flag invoker.flags topology_local
    || (not (has_flag invoker.flags topology_spliced)
        || (handler.controller_context == stream_context))

abbrev pub list_message : Bytes → Rpc
list_message body = record {
  tag = 0;
  service_name = reflection_name;
  method_name = list_services_name;
  content = some (request body);
  metadata = none;
}

abbrev pub reflection_handlers : Table Text (List ServiceHandler) → List ServiceHandler
reflection_handlers services = elim (load reflection_name services) [ none ↦ [] | some hs ↦ hs ]

-- what a remote node is found to have; a failure of it is nothing at all
pub remote_services : (Bytes → Option ServiceInfo) → Result Bytes → List ServiceDescriptor
remote_services unmarshal (err e) = []
remote_services unmarshal (ok body) = elim (unmarshal body) [
  | none ↦ []
  | some info ↦ info.services
]

module _ (marshal : DiscoveryRequest → Bytes) (unmarshal : Bytes → Option ServiceInfo)
    (invoke : Invoker → Rpc → Result Bytes) where
  -- the function that the `Range` over the handlers of the reflection service calls
  ask : ℕ → DiscoveryRequest → ServiceHandler → Listing → Bool × Listing
  unfolding remote_services is_skipped
  ask stream_context req handler found = elim (load list_services_name handler.method_invokers) [
    | none ↦ (true, found)
    | some invoker ↦ if is_skipped stream_context handler invoker then (true, found) else (
      true,
      record {
        services =
            found.services
            ++ remote_services unmarshal (invoke invoker (list_message (marshal req)));
        asked = found.asked ++ (invoker, req) ∷ [];
      },
    )
  ]

  gather : Controller → DiscoveryRequest → Listing
  unfolding ask local_services range
  gather c req =
      (range (ask c.stream_context req) (reflection_handlers c.services)
        (record { services = local_services c.services []; asked = [] })).1

  unfoldable pub list_services : Controller → DiscoveryRequest → Listing
  unfolding gather merge stops_here pass_on
  list_services c req =
      if stops_here c.uuid req
      then record { services = []; asked = [] }
      else let found = gather c (pass_on c.uuid req) in
        record { services = merge found.services; asked = found.asked }

-- the request of `discoverServices`
unfoldable pub first_request : Text → ℕ → DiscoveryRequest
first_request uuid max_hops = record {
  initiator = uuid;
  visited = uuid ∷ [];
  remaining_hops = max_hops;
}

-- the rest of `discoverServices`, from the message that the channel gives
unfoldable pub discovery_result :
    StatusApi → (Bytes → Result ServiceInfo) → Option Rpc → Result ServiceInfo
discovery_result api unmarshal m = elim (api.err_of (get_status (get_response m))) [
  | some e ↦ err e
  | none ↦ unmarshal (get_bytes (get_response m))
]
