-- ===== src/Invokers.antt =====
-- invokers.go: the invoker of a local service and the one that sends the call over a stream. The
-- service's own handlers are data of the invoker: a unary one takes the context and the bytes that
-- its decoder reads, and returns a marshalled message or an error; a streaming one has actions on
-- its stream, and a result.
pub mod Answers
use totem.Base.{
  ℕ, Bool, true, false, Option, none, some, List, [], ◌∷◌, ◌++◌, Text, Bytes, codes, text_eq,
  bit_or,
}
use totem.Base.Table.{Table, load, store}
use totem.Wire.{
  Rpc, Content, request, response, server_stream_msg, Status, get_request, get_response, get_bytes,
}
use totem.Status.{
  Err, status, Result, ok, err, StatusApi, get_status, ok_status, code_unimplemented,
}
use totem.Context.{Ctx}
use totem.Metadata.{Pairs, from_md}
use totem.Topology.{topology_local}
use totem.LocalStream.{Action, ServerStream, new_server_stream, act_all}
use totem.Controller.Dispatch.{Streaming, refuses, streams, closes}

pub record StreamRun : Type 0 where
  pub actions : List Action
  pub failure : Option Err

abbrev pub UnaryHandler : Type 0
UnaryHandler = Ctx → Bytes → Result Bytes

abbrev pub StreamHandler : Type 0
StreamHandler = Ctx → Rpc → StreamRun

pub record LocalInvoker : Type 0 where
  pub methods : Table Text UnaryHandler
  pub streams : Table Text StreamHandler
  pub flags : ℕ

-- the loops over `service.Methods` and `service.Streams`
abbrev pub by_name : {A : Type 0} → List (Text × A) → Table Text A → Table Text A
by_name [] table = table
by_name ((name, a) ∷ rest) table = by_name rest (store name a table)

unfoldable pub new_local_service_invoker :
    List (Text × UnaryHandler) → List (Text × StreamHandler) → ℕ → LocalInvoker
new_local_service_invoker unary streaming base_topology_flags = record {
  methods = by_name unary [];
  streams = by_name streaming [];
  flags = bit_or base_topology_flags topology_local;
}

abbrev pub unknown_method : Text → Err
unknown_method name =
    status (record { code = code_unimplemented; message = codes "unknown method " ++ name })

unfoldable pub local_invoke : LocalInvoker → Ctx → Rpc → Result Bytes
local_invoke l ctx req = elim (load req.method_name l.methods) [
  | some handler ↦ handler ctx (get_request (some req))
  | none ↦ err (unknown_method req.method_name)
]

abbrev pub exit_status : StatusApi → Option Err → Option Status
exit_status api none = some ok_status
exit_status api (some e) = api.convert (some e)

-- the last message that the goroutine of `InvokeStream` writes
abbrev pub exit_message : StatusApi → Option Err → Option Pairs → Rpc
exit_message api failure trailers = record {
  tag = 0;
  service_name = [];
  method_name = [];
  content =
      some (response (some (record { response = []; status_proto = exit_status api failure })));
  metadata = from_md trailers;
}

module _ (join : Pairs → Pairs → Pairs) (quote : Text → Text) (error_text : Err → Text)
    (api : StatusApi) where
  unfoldable pub local_invoke_stream : LocalInvoker → Ctx → Rpc → Streaming
  unfolding act_all
  local_invoke_stream l ctx req = elim (load req.method_name l.streams) [
    | none ↦ refuses (unknown_method req.method_name)
    | some handler ↦
        let run = handler ctx req in
        let s = act_all join quote error_text run.actions new_server_stream in
        streams (s.written ++ exit_message api run.failure s.trailers ∷ []) closes
  ]

-- convert the incoming context to an outgoing context
abbrev pub forwarded : Ctx → Ctx
forwarded ctx = elim ctx.incoming [ none ↦ ctx | some md ↦ record ctx { outgoing = some md } ]

-- How the wait for an answer ends: with what the channel gives, nil if it is closed, or with the
-- error of the context.
pub data Wait : Type 0 where
  gets : Option Rpc → Wait
  gives_up : Err → Wait

module _ (api : StatusApi) where
  unfoldable pub remote_result : Wait → Result Bytes
  remote_result (gets rpc) = elim (api.err_of (get_status (get_response rpc))) [
    | some e ↦ err e
    | none ↦ ok (get_bytes (get_response rpc))
  ]
  remote_result (gives_up e) = err e

-- The loop of the goroutine of `InvokeStream`, on the messages that the channel of the call gives
-- before the context ends: what it writes before it closes the writer.
unfoldable pub forward : List Rpc → List Rpc
forward [] = []
forward (m ∷ ms) = elim m.content [
  | none ↦ forward ms
  | some (request _) ↦ forward ms
  | some (response _) ↦ m ∷ []
  | some (server_stream_msg _) ↦ m ∷ forward ms
]

abbrev pub remote_stream : List Rpc → Streaming
remote_stream received = streams (forward received) closes
