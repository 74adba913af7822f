-- ===== src/Controller/Dispatch.antt =====
-- stream.go: `handleRequest`. Its replies and the invokers that it calls come back as lists, in
-- order. What an invoker does is a parameter: `invoke` its result, and `invoke_stream` what it puts
-- on the response channel until it closes the channel or the context of the call ends.
pub mod Broadcast
pub mod Relay
pub mod Replies
pub mod AtMostOnce
use totem.Base.{
  length, ℕ, Bool, true, false, not, ◌&&◌, Option, none, some, List, [], ◌∷◌, ◌++◌, Text, Bytes,
  codes, text_eq, ltb, ◌==◌, if◌then◌else◌,
}
use totem.Base.Table.{Table, load}
use totem.Wire.{
  Rpc, Content, request, response, server_stream_msg, Response, ServerStreamMessage, Qos,
  ReplicationStrategy, first, broadcast, unknown, get_bytes, response_of, Status,
}
use totem.Status.{
  Err, Result, ok, err, StatusApi, status, get_status, code_ok, code_not_found, code_unimplemented,
}
use totem.Metadata.{to_md}
use totem.Context.{Ctx}
use totem.Handlers.{ServiceHandler, Invoker, MethodInfo, range, first_handler, handlers_of}

pub data StreamEnd : Type 0 where
  closes cancelled : StreamEnd

-- `InvokeStream` fails, or messages come on the response channel.
pub data Streaming : Type 0 where
  refuses : Err → Streaming
  streams : List Rpc → StreamEnd → Streaming

-- calls of `Reply`, `ReplyErr` and `StreamReply`
pub data Reply : Type 0 where
  reply : Ctx → Bytes → Reply
  reply_err : Ctx → Option Err → Reply
  stream_reply : Option ServerStreamMessage → Reply

pub record Handled : Type 0 where
  pub calls : List Invoker
  pub replies : List Reply

-- metadata.NewOutgoingContext(ctx, exitResponse.GetMetadata().ToMD())
abbrev pub with_trailers : Ctx → Rpc → Ctx
with_trailers ctx m = record ctx { outgoing = some (to_md m.metadata) }

-- the zero value for a method that the map does not have
abbrev pub info_or_zero : Option MethodInfo → MethodInfo
info_or_zero none = record { name = []; is_client_stream = false; is_server_stream = false }
info_or_zero (some i) = i

-- The function that `Range` calls in a broadcast: it ignores the result of the invoker.
abbrev pub broadcast_one : Text → ServiceHandler → List Invoker → Bool × List Invoker
broadcast_one method sh calls = elim (load method sh.method_invokers) [
  | some invoker ↦ (true, calls ++ invoker ∷ [])
  | none ↦ (false, calls)
]

-- `err` of the broadcast is never assigned: the error of a missing method is bound to another
-- variable of that name, inside the function.
broadcast_reply : Ctx → Bytes → Bool × List Invoker → Handled
broadcast_reply ctx empty_response (true, calls) = record {
  calls = calls;
  replies = reply ctx empty_response ∷ [];
}
broadcast_reply ctx empty_response (false, calls) = record {
  calls = calls;
  replies = reply_err ctx none ∷ [];
}

unary_reply : Ctx → Result Bytes → List Reply
unary_reply ctx (ok body) = reply ctx body ∷ []
unary_reply ctx (err e) = reply_err ctx (some e) ∷ []

-- whether the request goes to every handler
unfoldable pub broadcasts : Text → ServiceHandler → List ServiceHandler → Bool
broadcasts method sh handlers =
    if ltb 1 (length handlers)
    then elim (load method sh.method_qos) [
      | none ↦ false
      | some qos ↦ elim qos.replication_strategy [
        | first ↦ false
        | broadcast ↦ true
        | unknown _ ↦ false
      ]
    ]
    else false

module _ (api : StatusApi) where
  abbrev pub method_not_found : Text → Err
  method_not_found method = status (record {
    code = code_not_found;
    message = codes "method " ++ api.quote method ++ codes " not found";
  })

  abbrev pub unknown_service : Text → Err
  unknown_service service = status (record {
    code = code_unimplemented;
    message = codes "unknown service: " ++ api.quote service;
  })

  -- The response channel was closed.
  unfoldable pub exit_reply : Ctx → Option Rpc → List Reply
  exit_reply ctx none = []
  exit_reply ctx (some m) =
      let stat = get_status (response_of m.content) in
      if not (stat.code == code_ok)
      then reply_err (with_trailers ctx m) (api.err_of stat) ∷ []
      else reply (with_trailers ctx m) (get_bytes (response_of m.content)) ∷ []

  -- The loop over the response channel; `exit` is `exitResponse`.
  pub relay : Ctx → Option Rpc → List Rpc → StreamEnd → List Reply
  unfolding exit_reply
  relay ctx exit [] closes = exit_reply ctx exit
  relay ctx exit [] cancelled = []
  relay ctx exit (m ∷ ms) end = elim m.content [
    | none ↦ relay ctx exit ms end
    | some (request _) ↦ relay ctx exit ms end
    | some (response _) ↦ relay ctx (some m) ms end
    | some (server_stream_msg msg) ↦ stream_reply msg ∷ relay ctx exit ms end
  ]

  unfoldable pub stream_replies : Ctx → Streaming → List Reply
  unfolding relay
  stream_replies ctx (refuses e) = reply_err ctx (some e) ∷ []
  stream_replies ctx (streams ms end) = relay ctx none ms end

  module _ (empty_response : Bytes) (invoke : Invoker → Ctx → Rpc → Result Bytes)
      (invoke_stream : Invoker → Ctx → Rpc → Streaming) where
    -- the `switch` on the kind of the method
    call_method : Ctx → Rpc → Invoker → MethodInfo → Handled
    unfolding unary_reply stream_replies
    call_method ctx msg invoker info =
        if not info.is_server_stream && not info.is_client_stream
        then record { calls = invoker ∷ []; replies = unary_reply ctx (invoke invoker ctx msg) }
        else if info.is_server_stream && not info.is_client_stream
        then record {
          calls = invoker ∷ [];
          replies = stream_replies ctx (invoke_stream invoker ctx msg);
        }
        else record { calls = []; replies = [] }

    call_first : Ctx → Rpc → ServiceHandler → Handled
    unfolding call_method
    call_first ctx msg sh = elim (load msg.method_name sh.method_invokers) [
      | some invoker ↦
          call_method ctx msg invoker (info_or_zero (load msg.method_name sh.method_info))
      | none ↦ record {
        calls = [];
        replies = reply_err ctx (some (method_not_found msg.method_name)) ∷ [];
      }
    ]

    dispatch : Ctx → Rpc → List ServiceHandler → Handled
    unfolding broadcasts call_first broadcast_reply range
    dispatch ctx msg [] = record {
      calls = [];
      replies = reply_err ctx (some (unknown_service msg.service_name)) ∷ [];
    }
    dispatch ctx msg (sh ∷ rest) =
        if broadcasts msg.method_name sh (sh ∷ rest)
        then broadcast_reply ctx empty_response
            (range (broadcast_one msg.method_name) (sh ∷ rest) [])
        else call_first ctx msg sh

    unfoldable pub handle_request : Table Text (List ServiceHandler) → Ctx → Rpc → Handled
    unfolding dispatch
    handle_request services ctx msg =
        dispatch ctx msg (handlers_of (load msg.service_name services))
