-- ===== src/Examples/Servers.antt =====
-- A server with one service of its own, spliced to a stream with another, and its life.
use totem.Base.{
  ℕ, ◌≡◌, refl, Bool, true, false, Option, none, some, List, [], ◌∷◌, ◌++◌, ◌+◌, Text, codes, same,
  text_eq, any, ◌==◌, nat_eq, ◌⊎◌, length, ◌≤◌, arith, if◌then◌else◌,
}
use totem.Base.Go.{Go, returns, panics}
use totem.Base.Table.{load}
use totem.Wire.{ServiceDescriptor, MethodDescriptor, ServiceInfo}
use totem.Status.{Err, ok, err, eof, plain}
use totem.Topology.{topology_spliced}
use totem.Handlers.{ServiceHandler, handlers_of, stream_controller}
use totem.Controller.Receiving.Runs.{IsFresh}
use totem.Discovery.{reflection_name, list_services_name, reflection_handlers}
use totem.Discovery
use totem.Discovery.Stops.{peers}
use totem.Server.{Server, Link, Implementation, new_server, register_service}
use totem.Server.Descriptors.Routed.{Routed}
use totem.Server.Splicing.{splice_start, splice_finish, invoker_of}
use totem.Server.Splicing.Exposed.{exposed}
use totem.Server.Splicing.Outcome.{IsRegistry, splice_start_exposes}
use totem.Server.Splicing.Forwarded.{splice_finish-Routed, splice_finish-peers}
use totem.Server.Serving.{
  Serving, serve, ServeEvent, discovered, run_returned, discovery_closed, loop_closed, run_closed,
  error_read, serve_step, ServeRun, served_none, served_more, errors_capacity,
}
use totem.Server.Serving.Reports.{serve-reports}
use totem.Server.Serving.Ended.{Progress}
use totem.Server.Serving.Kicks.{serve_kicks}
use totem.Server.Serving.Syncing.{AllSynced, serve_syncs}
use totem.Server.Setup.{SetUp, made, registered, set_up_splices}
use totem.Receiver.{
  two_wrappers, Receiver, Payload, new_receiver, RecvEvent, starts, stream_gives, queues,
  calls_recv, takes_payload, recv_step, RecvRun, fresh, after, read_ahead,
}
use totem.Receiver.{forget, new_recv_wrapper}
use totem.Receiver.Known.{KnownRun, none_known, wrapped, released, IsDistinct, known_once}
use totem.Receiver.Order.{recv_keeps_order}
use totem.Examples.{answer}
use totem.Examples.Descriptors.{same_descriptor, same_descriptor_sound, same_descriptor_refl}

abbrev call_method : Text → MethodDescriptor
call_method name = record {
  name = name;
  client_streaming = false;
  server_streaming = false;
  output_type = codes "o";
  qos = none;
}

abbrev reflection : ServiceDescriptor
reflection = record {
  name = reflection_name;
  methods = call_method list_services_name ∷ [];
  visibility = some (record { spliced_clients = true });
}

-- visible to spliced clients or not
abbrev service : Text → Bool → ServiceDescriptor
service name visible = record {
  name = name;
  methods = call_method (codes "m") ∷ [];
  visibility = some (record { spliced_clients = visible });
}

abbrev shown_service : Implementation
shown_service = record { implements = true; descriptor = some (service (codes "s") true) }

abbrev nobody : Server
nobody = record {
  options = record {
    logger = none;
    name = [];
    discovery_hop_limit = 0;
    interceptors = record { incoming = none; outgoing = none };
    metrics = none;
    tracer_options = [];
  };
  stream_context = 0;
  controller = record { id = 0; state = totem.Examples.fresh; closed = false };
  spliced = [];
  next = 0;
}

abbrev or_else : {A : Type 0} → A → Go A → A
or_else d (returns a) = a
or_else d (panics t) = d

abbrev new_one : Server
unfolding new_server
new_one = (or_else ([], nobody) (new_server same_descriptor reflection (codes "a") 3 [] 7 0 [])).1

new_one-made :
    new_server same_descriptor reflection (codes "a") 3 [] 7 0 [] ≡ returns (3 ∷ [], new_one)
unfolding new_server
new_one-made = refl

abbrev with_service : Server
unfolding register_service
with_service = or_else nobody (register_service same_descriptor (some shown_service) new_one)

with_service-registered :
    register_service same_descriptor (some shown_service) new_one ≡ returns with_service
unfolding register_service new_one
with_service-registered = refl

with_service-SetUp : SetUp same_descriptor reflection (3 ∷ []) with_service
with_service-SetUp =
    registered (some shown_service) (made (codes "a") 3 [] 7 0 [] new_one-made)
      with_service-registered

set_up_splices_example :
    IsRegistry with_service.controller.state.services
    × (((any (λ s. s == 4) (3 ∷ []) ≡ false)
          × (link : Link) × (splice_start same_descriptor reflection
                (codes "b")
                4
                (3 ∷ [])
                8
                []
                with_service
              ≡ returns (4 ∷ 3 ∷ [], link)))
        ⊎ ((any (λ s. s == 4) (3 ∷ []) ≡ true)
            × (splice_start same_descriptor reflection (codes "b") 4 (3 ∷ []) 8 [] with_service
                ≡ panics two_wrappers)))
set_up_splices_example =
    set_up_splices same_descriptor reflection (3 ∷ []) with_service (codes "b") 4 8 []
      same_descriptor_sound same_descriptor_refl (tt, tt) with_service-SetUp

with_service-IsRegistry : IsRegistry with_service.controller.state.services
with_service-IsRegistry =
    (set_up_splices same_descriptor reflection (3 ∷ []) with_service (codes "b") 4 8 []
      same_descriptor_sound same_descriptor_refl (tt, tt) with_service-SetUp).0

splice_start_exposes_example :
    (link : Link) × (splice_start same_descriptor reflection
        (codes "b")
        4
        (3 ∷ [])
        8
        []
        with_service
      ≡ returns (4 ∷ 3 ∷ [], link))
    × IsFresh link.state
    × (a : ServiceHandler) × (b : ServiceHandler) × (a.self ≡ with_service.next + 1)
    × (b.self ≡ with_service.next + 2)
    × ((k : Text)
        → handlers_of (load k link.state.services)
          ≡ (if same reflection.name k then a ∷ b ∷ [] else [])
            ++ exposed (handlers_of (load k with_service.controller.state.services)))
unfolding with_service new_one
splice_start_exposes_example =
    splice_start_exposes same_descriptor reflection (codes "b") 4 (3 ∷ []) 8 [] with_service refl
      same_descriptor_refl (tt, tt) with_service-IsRegistry (refl, (refl, tt))

abbrev far_link : Link
unfolding splice_start with_service
far_link =
    (or_else ([], nobody.controller)
      (splice_start same_descriptor reflection (codes "b") 4 (3 ∷ []) 8 [] with_service)).1

abbrev found : ServiceInfo
found = record { services = reflection ∷ service (codes "far") false ∷ [] }

abbrev after_splice : Server × Option Err
unfolding splice_finish with_service far_link
after_splice =
    or_else (nobody, none) (splice_finish same_descriptor far_link (ok found) with_service)

after_splice-done :
    splice_finish same_descriptor far_link (ok found) with_service ≡ returns (after_splice.0, none)
unfolding splice_finish with_service far_link after_splice new_one
after_splice-done = refl

splice_finish-Routed_example :
    (◌≡◌ {A = Option Err} none none)
    × (after_splice.0.spliced ≡ with_service.spliced ++ far_link ∷ [])
    × Routed same_descriptor far_link.state.stream_context
        (invoker_of far_link.id far_link.state)
        (codes "far")
        found.services
        (handlers_of (load (codes "far") with_service.controller.state.services))
        (handlers_of (load (codes "far") after_splice.0.controller.state.services))
splice_finish-Routed_example =
    splice_finish-Routed same_descriptor far_link found with_service after_splice.0 none
      (codes "far") after_splice-done

splice_finish-peers_example :
    peers with_service.stream_context (reflection_handlers after_splice.0.controller.state.services)
    ≡ record { target = stream_controller 5; flags = topology_spliced } ∷ []
unfolding with_service far_link after_splice new_one totem.Discovery.is_skipped
splice_finish-peers_example =
    splice_finish-peers same_descriptor far_link found with_service after_splice.0 none refl
      (omega arith) after_splice-done

-- a server with one spliced controller, which comes to its end
abbrev two_streams : Server
two_streams = record nobody { spliced = record (nobody.controller) { id = 1 } ∷ []; next = 2 }

abbrev reached : Go (Option Serving) → Serving
reached (returns (some s)) = s
reached _ = serve two_streams

abbrev broken : Err
broken = plain (codes "x")

-- the latest step first
abbrev served : List ServeEvent → Serving
unfolding serve_step serve
served [] = serve two_streams
served (e ∷ es) = reached (serve_step same_descriptor e (served es))

abbrev last_steps : List ServeEvent
last_steps =
    error_read
    ∷ run_closed
    ∷ discovery_closed
    ∷ loop_closed
    ∷ discovered (err eof)
    ∷ run_returned (some broken)
    ∷ []

abbrev all_steps : List ServeEvent
all_steps =
    run_returned (some broken)
    ∷ discovered (err eof)
    ∷ loop_closed
    ∷ discovery_closed
    ∷ run_closed
    ∷ error_read
    ∷ []

last_steps-run : ServeRun same_descriptor (serve two_streams) all_steps (served last_steps)
unfolding serve_step serve served
last_steps-run =
    served_more error_read
      (served_more run_closed
        (served_more discovery_closed
          (served_more loop_closed
            (served_more (discovered (err eof))
              (served_more (run_returned (some broken)) served_none refl) refl)
            refl)
          refl)
        refl)
      refl

serve-reports_example :
    ((served last_steps).reported ++ (served last_steps).errors ≡ some eof ∷ some broken ∷ [])
    × (length (served last_steps).errors ≤ errors_capacity)
serve-reports_example =
    serve-reports same_descriptor all_steps two_streams (served last_steps) last_steps-run

serve_kicks_example : Progress (served last_steps).ending (served last_steps).server.spliced
serve_kicks_example =
    serve_kicks same_descriptor two_streams all_steps (served last_steps) broken last_steps-run refl

abbrev synced_streams : Serving
unfolding serve_step serve
synced_streams = reached (
    serve_step same_descriptor
      (discovered (ok (record { services = service (codes "s") true ∷ [] }))) (serve two_streams))

serve_syncs_example :
    AllSynced same_descriptor 0
      (invoker_of 0 totem.Examples.fresh)
      (service (codes "s") true ∷ [])
      two_streams.spliced
      synced_streams.server.spliced
    × (synced_streams.connection
        ≡ some (record { controller = 0; interceptor = none; metrics = none }))
    × (synced_streams.errors ≡ [])
unfolding serve synced_streams serve_step
serve_syncs_example =
    serve_syncs same_descriptor (record { services = service (codes "s") true ∷ [] })
      (serve two_streams) synced_streams refl refl

-- a receiver that has read two messages, of which one was taken
abbrev payload : ℕ → Payload
payload tag = record { rpc = some (answer tag); failure = none }

abbrev went : Go (Option Receiver) → Receiver
went (returns (some w)) = w
went _ = new_receiver 3

abbrev reader : List RecvEvent → Receiver
unfolding recv_step
reader [] = new_receiver 3
reader (e ∷ es) = went (recv_step e (reader es))

-- the latest step first
abbrev read_two : List RecvEvent
read_two =
    stream_gives (payload 2)
    ∷ takes_payload
    ∷ calls_recv
    ∷ queues
    ∷ stream_gives (payload 1)
    ∷ starts
    ∷ []

read_two-run : RecvRun 3 (reader read_two)
unfolding recv_step reader
read_two-run =
    after (stream_gives (payload 2))
      (after takes_payload
        (after calls_recv
          (after queues (after (stream_gives (payload 1)) (after starts fresh refl) refl) refl)
          refl)
        refl)
      refl

recv_keeps_order_example :
    (payload 1 ∷ payload 2 ∷ [] ≡ payload 1 ∷ payload 2 ∷ [])
    × (length (reader read_two).queue ≤ read_ahead)
unfolding recv_step reader
recv_keeps_order_example = recv_keeps_order 3 (reader read_two) read_two-run

-- two streams get receivers, and the first is let go
two_known : KnownRun (forget 3 (4 ∷ 3 ∷ [])) (4 ∷ [])
unfolding new_recv_wrapper
two_known =
    released (4 ∷ []) 3 []
      (wrapped 4 (new_receiver 4) (wrapped 3 (new_receiver 3) none_known refl) refl)

known_once_example : (forget 3 (4 ∷ 3 ∷ []) ≡ 4 ∷ []) × IsDistinct (4 ∷ [])
known_once_example = known_once (forget 3 (4 ∷ 3 ∷ [])) (4 ∷ []) two_known
