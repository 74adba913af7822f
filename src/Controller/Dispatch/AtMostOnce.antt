-- ===== src/Controller/Dispatch/AtMostOnce.antt =====
-- However a request is handled, nothing follows a reply or an error.
use totem.Base.{
  ◌≡◌, refl, Bool, true, false, Option, none, some, List, [], ◌∷◌, ◌++◌, Bytes, Bool-cases,
  Option-cases, inl, inr, Text, text_eq, append-nil, ◌==◌,
}
use totem.Base.Table.{Table, load}
use totem.Wire.{Rpc, response_of}
use totem.Status.{Result, ok, err, StatusApi, get_status, code_ok}
use totem.Context.{Ctx}
use totem.Handlers.{ServiceHandler, Invoker, MethodInfo, handlers_of}
use totem.Controller.Dispatch.{
  Reply, reply, reply_err, stream_reply, Streaming, refuses, streams, closes, cancelled, exit_reply,
  stream_replies, unary_reply, broadcast_reply, broadcasts, call_method, call_first, dispatch,
  handle_request, info_or_zero,
}
use totem.Controller.Dispatch.Relay.{
  Content-cases, streamed, last_response, relay-closes, relay-cancelled,
}

-- Stream messages, and behind them at most one reply or error.
abbrev pub AtMostOnce : List Reply → Type 0
AtMostOnce [] = Unit
AtMostOnce (stream_reply m ∷ rs) = AtMostOnce rs
AtMostOnce (reply ctx b ∷ rs) = rs ≡ []
AtMostOnce (reply_err ctx e ∷ rs) = rs ≡ []

streamed-AtMostOnce :
    (ms : List Rpc) (rs : List Reply) → AtMostOnce rs → AtMostOnce (streamed ms ++ rs)
streamed-AtMostOnce [] rs a = a
streamed-AtMostOnce (m ∷ ms) rs a =
    let rest = streamed-AtMostOnce ms rs a in
    elim (Content-cases m.content) [
      | inl e ↦ rw (e, streamed) rest
      | inr (inl (b, e)) ↦ rw (e, streamed) rest
      | inr (inr (inl (r, e))) ↦ rw (e, streamed) rest
      | inr (inr (inr (msg, e))) ↦ rw (e, streamed) rest
    ]

module _ (api : StatusApi) where
  exit_reply-AtMostOnce : (ctx : Ctx) (o : Option Rpc) → AtMostOnce (exit_reply api ctx o)
  unfolding exit_reply
  exit_reply-AtMostOnce ctx none = tt
  exit_reply-AtMostOnce ctx (some m) =
      elim (Bool-cases ((get_status (response_of m.content)).code == code_ok)) [
        | inl e ↦ rw (e, exit_reply) refl
        | inr e ↦ rw (e, exit_reply) refl
      ]

  stream_replies-AtMostOnce : (ctx : Ctx) (s : Streaming) → AtMostOnce (stream_replies api ctx s)
  unfolding stream_replies
  stream_replies-AtMostOnce ctx (refuses e) = refl
  stream_replies-AtMostOnce ctx (streams ms closes) = rw (relay-closes api ctx none ms) (
      streamed-AtMostOnce ms (exit_reply api ctx (last_response none ms))
        (exit_reply-AtMostOnce ctx (last_response none ms)))
  stream_replies-AtMostOnce ctx (streams ms cancelled) =
      rw (relay-cancelled api ctx none ms, ← append-nil (streamed ms))
        (streamed-AtMostOnce ms [] tt)

  module _ (empty_response : Bytes) (invoke : Invoker → Ctx → Rpc → Result Bytes)
      (invoke_stream : Invoker → Ctx → Rpc → Streaming) where
    call_method-AtMostOnce :
        (ctx : Ctx) (msg : Rpc) (i : Invoker) (info : MethodInfo)
        → AtMostOnce (call_method api empty_response invoke invoke_stream ctx msg i info).replies
    unfolding call_method unary_reply
    call_method-AtMostOnce ctx msg i info = elim (Bool-cases info.is_client_stream) [
      | inl c ↦ elim (Bool-cases info.is_server_stream) [
        | inl v ↦ rw (c, v, call_method) tt
        | inr v ↦ rw (c, v, call_method) tt
      ]
      | inr c ↦ elim (Bool-cases info.is_server_stream) [
        | inl v ↦ rw (c, v, call_method) (stream_replies-AtMostOnce ctx (invoke_stream i ctx msg))
        | inr v ↦ rw (c, v, call_method) (unary_reply-AtMostOnce (invoke i ctx msg))
      ]
    ]
      where
        unary_reply-AtMostOnce : (r : Result Bytes) → AtMostOnce (unary_reply ctx r)
        unary_reply-AtMostOnce (ok b) = refl
        unary_reply-AtMostOnce (err e) = refl

    call_first-AtMostOnce :
        (ctx : Ctx) (msg : Rpc) (sh : ServiceHandler)
        → AtMostOnce (call_first api empty_response invoke invoke_stream ctx msg sh).replies
    unfolding call_first
    call_first-AtMostOnce ctx msg sh =
        elim (Option-cases (load msg.method_name sh.method_invokers)) [
          | inl e ↦ rw (e, call_first) refl
          | inr (i, e) ↦
              rw (e, call_first)
                (call_method-AtMostOnce ctx msg i
                  (info_or_zero (load msg.method_name sh.method_info)))
        ]

    broadcast_reply-AtMostOnce :
        (ctx : Ctx) (r : Bool × List Invoker)
        → AtMostOnce (broadcast_reply ctx empty_response r).replies
    unfolding broadcast_reply
    broadcast_reply-AtMostOnce ctx (true, is) = refl
    broadcast_reply-AtMostOnce ctx (false, is) = refl

    dispatch-AtMostOnce :
        (ctx : Ctx) (msg : Rpc) (hs : List ServiceHandler)
        → AtMostOnce (dispatch api empty_response invoke invoke_stream ctx msg hs).replies
    unfolding dispatch
    dispatch-AtMostOnce ctx msg [] = refl
    dispatch-AtMostOnce ctx msg (sh ∷ hs) =
        elim (Bool-cases (broadcasts msg.method_name sh (sh ∷ hs))) [
          | inl e ↦ rw (e, dispatch) (broadcast_reply-AtMostOnce ctx _)
          | inr e ↦ rw (e, dispatch) (call_first-AtMostOnce ctx msg sh)
        ]

    pub request-AtMostOnce :
        (services : Table Text (List ServiceHandler)) (ctx : Ctx) (msg : Rpc)
        → AtMostOnce
            (handle_request api empty_response invoke invoke_stream services ctx msg).replies
    unfolding handle_request
    request-AtMostOnce services ctx msg =
        dispatch-AtMostOnce ctx msg (handlers_of (load msg.service_name services))
