-- ===== src/Examples/Requests.antt =====
-- Requests for a service with two handlers, one of whose methods is broadcast.
use totem.Base.{
  ℕ, ◌≡◌, refl, Bool, true, false, none, some, List, [], ◌∷◌, ◌++◌, inr, arith, All, Text, Bytes,
  codes, text_eq,
}
use totem.Base.Go.{returns}
use totem.Base.Table.{Table}
use totem.Wire.{Rpc, ServiceDescriptor, MethodDescriptor, broadcast}
use totem.Status.{Result, ok}
use totem.Context.{Ctx}
use totem.Handlers.{
  ServiceHandler, Invoker, MethodInfo, local_service, empty_type, new_default_service_handler,
}
use totem.Handlers.Building.{BroadcastOk, IsComplete, new_handler-IsComplete}
use totem.Controller.Dispatch.{
  Streaming, streams, closes, reply, broadcasts, exit_reply, handle_request,
}
use totem.Controller.Dispatch.Broadcast.{Matched, broadcast_reaches_each}
use totem.Controller.Dispatch.Relay.{AnsweredOnce, streamed, last_response}
use totem.Controller.Dispatch.Replies.{request-AnsweredOnce, streaming_replies}
use totem.Examples.{grpc_status, background, ping, part, answer}

abbrev method_m : MethodDescriptor
method_m = record {
  name = codes "m";
  client_streaming = false;
  server_streaming = false;
  output_type = empty_type;
  qos = some (record { replication_strategy = broadcast });
}

abbrev method_w : MethodDescriptor
method_w = record {
  name = codes "w";
  client_streaming = false;
  server_streaming = true;
  output_type = codes ".T";
  qos = none;
}

abbrev method_u : MethodDescriptor
method_u = record {
  name = codes "u";
  client_streaming = true;
  server_streaming = false;
  output_type = codes ".T";
  qos = none;
}

abbrev pub service_s : ServiceDescriptor
service_s = record {
  name = codes "s";
  methods = method_m ∷ method_w ∷ method_u ∷ [];
  visibility = none;
}

abbrev invoker_at : ℕ → Invoker
invoker_at k = record { target = local_service k; flags = 1 }

abbrev info_of : MethodDescriptor → MethodInfo
info_of m = record {
  name = m.name;
  is_client_stream = m.client_streaming;
  is_server_stream = m.server_streaming;
}

abbrev handler_at : ℕ → ServiceHandler
handler_at k = record {
  self = k;
  controller_context = k;
  descriptor = service_s;
  method_invokers =
      (codes "m", invoker_at k) ∷ (codes "w", invoker_at k) ∷ (codes "u", invoker_at k) ∷ [];
  method_info =
      (codes "m", info_of method_m)
      ∷ (codes "w", info_of method_w)
      ∷ (codes "u", info_of method_u)
      ∷ [];
  method_qos = (codes "m", record { replication_strategy = broadcast }) ∷ [];
  topology_flags = 1;
}

abbrev pub two_handlers : Table Text (List ServiceHandler)
two_handlers = (codes "s", handler_at 1 ∷ handler_at 2 ∷ []) ∷ []

-- every unary call succeeds; every stream has a part, an answer and an end
abbrev pub succeed : Invoker → Ctx → Rpc → Result Bytes
succeed i ctx m = ok (9 ∷ [])

abbrev pub one_part : Invoker → Ctx → Rpc → Streaming
one_part i ctx m = streams (part 0 ∷ answer 0 ∷ []) closes

made : (k : ℕ) → new_default_service_handler k k service_s (invoker_at k) ≡ returns (handler_at k)
unfolding new_default_service_handler
made k = refl

fine : All BroadcastOk service_s.methods
fine = (inr (refl, refl, refl), (tt, (tt, tt)))

complete : (k : ℕ) → IsComplete (handler_at k)
complete k = new_handler-IsComplete k k service_s (invoker_at k) (handler_at k) (made k)

broadcast_reaches_each_example :
    (is : List Invoker) × Matched (codes "m") (handler_at 1 ∷ handler_at 2 ∷ []) is
    × (handle_request grpc_status [] succeed one_part two_handlers background ping
        ≡ record { calls = is; replies = reply background [] ∷ [] })
broadcast_reaches_each_example =
    broadcast_reaches_each grpc_status [] succeed one_part two_handlers background ping
      (handler_at 1) (handler_at 2 ∷ []) (record { replication_strategy = broadcast }) refl
      (omega arith) refl refl (refl, tt) (complete 1, (complete 2, tt))

abbrev pub watch : Rpc
watch = record ping { method_name = codes "w" }

request-AnsweredOnce_example :
    AnsweredOnce
      (handle_request grpc_status [] succeed one_part two_handlers background watch).replies
request-AnsweredOnce_example =
    request-AnsweredOnce grpc_status [] succeed one_part two_handlers background watch
      (refl, (refl, tt)) (λ i. (answer 0, refl))

streaming_replies_example :
    handle_request grpc_status [] succeed one_part two_handlers background watch ≡ record {
      calls = invoker_at 1 ∷ [];
      replies =
          streamed (part 0 ∷ answer 0 ∷ [])
          ++ exit_reply grpc_status background (last_response none (part 0 ∷ answer 0 ∷ []));
    }
unfolding broadcasts
streaming_replies_example =
    streaming_replies grpc_status [] succeed one_part two_handlers background watch (handler_at 1)
      (handler_at 2 ∷ []) (invoker_at 1) (info_of method_w) (part 0 ∷ answer 0 ∷ []) closes refl
      refl refl refl refl refl refl

-- A comparison that finds only the empty descriptor equal to itself.
abbrev is_empty : ServiceDescriptor → Bool
is_empty d = elim d.name [
  | [] ↦ elim d.methods [ [] ↦ elim d.visibility [ none ↦ true | some _ ↦ false ] | _ ∷ _ ↦ false ]
  | _ ∷ _ ↦ false
]
