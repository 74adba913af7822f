-- ===== src/Controller/Dispatch/Replies.antt =====
-- How the handler of a request answers it.
use totem.Base.{
  ℕ, ◌≡◌, ◌∙◌, refl, Bool, true, false, none, some, List, [], ◌∷◌, ◌++◌, Text, Bytes, text_eq,
  Bool-cases, Option-cases, inl, inr, All,
}
use totem.Base.Table.{Table, load}
use totem.Wire.{Rpc, get_response, Status}
use totem.Status.{
  Err, status, Result, ok, err, StatusApi, get_status, code_not_found, code_unimplemented,
}
use totem.Context.{Ctx, Tracing}
use totem.Controller.Sending.{reply_err_message}
use totem.Handlers.{ServiceHandler, Invoker, MethodInfo, handlers_of}
use totem.Controller.Dispatch.{
  Streaming, streams, StreamEnd, closes, cancelled, reply_err, broadcast_reply, broadcasts,
  unary_reply, exit_reply, stream_replies, call_method, call_first, dispatch, info_or_zero,
  method_not_found, unknown_service, handle_request,
}
use totem.Controller.Dispatch.Relay.{
  AnsweredOnce, streamed, last_response, Finishes, relay-closes, relay-cancelled,
  stream_replies-AnsweredOnce,
}

-- whether the method is client-streaming, as the handler has it
abbrev pub takes_stream : Text → ServiceHandler → Bool
takes_stream method sh = (info_or_zero (load method sh.method_info)).is_client_stream

-- A status goes through the reply to the caller unchanged.
coded :
    (api : StatusApi) (tracing : Tracing) (ctx : Ctx) (tag : ℕ) (s : Status)
    → (get_status
        (get_response (some (reply_err_message api tracing ctx tag (some (status s)))))).code
      ≡ s.code
unfolding reply_err_message get_status
coded api tracing ctx tag s = rw (api.convert_status s, get_status) refl

broadcast_reply-AnsweredOnce :
    (ctx : Ctx) (empty_response : Bytes) (r : Bool × List Invoker)
    → AnsweredOnce (broadcast_reply ctx empty_response r).replies
unfolding broadcast_reply
broadcast_reply-AnsweredOnce ctx empty_response (true, is) = refl
broadcast_reply-AnsweredOnce ctx empty_response (false, is) = refl

unary_reply-AnsweredOnce : (ctx : Ctx) (r : Result Bytes) → AnsweredOnce (unary_reply ctx r)
unfolding unary_reply
unary_reply-AnsweredOnce ctx (ok b) = refl
unary_reply-AnsweredOnce ctx (err e) = refl

module _ (api : StatusApi) (empty_response : Bytes) (invoke : Invoker → Ctx → Rpc → Result Bytes)
    (invoke_stream : Invoker → Ctx → Rpc → Streaming) where
  call_method-AnsweredOnce :
      (ctx : Ctx) (msg : Rpc) (i : Invoker) (info : MethodInfo)
      → info.is_client_stream ≡ false
      → Finishes (invoke_stream i ctx msg)
      → AnsweredOnce (call_method api empty_response invoke invoke_stream ctx msg i info).replies
  unfolding call_method
  call_method-AnsweredOnce ctx msg i info c f = elim (Bool-cases info.is_server_stream) [
    | inl s ↦
        rw (s, c, call_method) (stream_replies-AnsweredOnce api ctx (invoke_stream i ctx msg) f)
    | inr s ↦ rw (s, c, call_method) (unary_reply-AnsweredOnce ctx (invoke i ctx msg))
  ]

  call_first-AnsweredOnce :
      (ctx : Ctx) (msg : Rpc) (sh : ServiceHandler)
      → takes_stream msg.method_name sh ≡ false
      → ((i : Invoker) → Finishes (invoke_stream i ctx msg))
      → AnsweredOnce (call_first api empty_response invoke invoke_stream ctx msg sh).replies
  unfolding call_first
  call_first-AnsweredOnce ctx msg sh c f =
      elim (Option-cases (load msg.method_name sh.method_invokers)) [
        | inl e ↦ rw (e, call_first) refl
        | inr (i, e) ↦
            rw (e, call_first)
              (call_method-AnsweredOnce ctx msg i
                (info_or_zero (load msg.method_name sh.method_info)) c (f i))
      ]

  dispatch-AnsweredOnce :
      (ctx : Ctx) (msg : Rpc) (hs : List ServiceHandler)
      → All (λ sh. takes_stream msg.method_name sh ≡ false) hs
      → ((i : Invoker) → Finishes (invoke_stream i ctx msg))
      → AnsweredOnce (dispatch api empty_response invoke invoke_stream ctx msg hs).replies
  unfolding dispatch
  dispatch-AnsweredOnce ctx msg [] c f = refl
  dispatch-AnsweredOnce ctx msg (sh ∷ hs) (c, cs) f =
      elim (Bool-cases (broadcasts msg.method_name sh (sh ∷ hs))) [
        | inl e ↦ rw (e, dispatch) (broadcast_reply-AnsweredOnce ctx empty_response _)
        | inr e ↦ rw (e, dispatch) (call_first-AnsweredOnce ctx msg sh c f)
      ]

  -- Every request is answered by stream messages and then exactly one reply or error, whatever its
  -- service and method, if no handler of the service has the method as client-streaming and every
  -- stream that an invoker opens has a response and is closed.
  pub request-AnsweredOnce :
      (services : Table Text (List ServiceHandler)) (ctx : Ctx) (msg : Rpc)
      → All
          (λ sh. takes_stream msg.method_name sh ≡ false)
          (handlers_of (load msg.service_name services))
      → ((i : Invoker) → Finishes (invoke_stream i ctx msg))
      → AnsweredOnce
          (handle_request api empty_response invoke invoke_stream services ctx msg).replies
  unfolding handle_request
  request-AnsweredOnce services ctx msg c f =
      dispatch-AnsweredOnce ctx msg (handlers_of (load msg.service_name services)) c f

  module _ (services : Table Text (List ServiceHandler)) (ctx : Ctx) (msg : Rpc)
      (sh : ServiceHandler) (rest : List ServiceHandler) where
    to_first :
        load msg.service_name services ≡ some (sh ∷ rest)
        → broadcasts msg.method_name sh (sh ∷ rest) ≡ false
        → handle_request api empty_response invoke invoke_stream services ctx msg
          ≡ call_first api empty_response invoke invoke_stream ctx msg sh
    unfolding handle_request dispatch
    to_first served single = rw (served, single) refl

    -- A server-streaming method, not broadcast: only the first handler's invoker is called; its
    -- stream messages come back in order, none lost; and when the stream is closed, and not when it
    -- is cancelled, the reply made of its last response, if it had one, comes after them all.
    pub streaming_replies :
        (i : Invoker) (info : MethodInfo) (ms : List Rpc) (end : StreamEnd)
        → load msg.service_name services ≡ some (sh ∷ rest)
        → broadcasts msg.method_name sh (sh ∷ rest) ≡ false
        → load msg.method_name sh.method_invokers ≡ some i
        → load msg.method_name sh.method_info ≡ some info
        → info.is_server_stream ≡ true
        → info.is_client_stream ≡ false
        → invoke_stream i ctx msg ≡ streams ms end
        → handle_request api empty_response invoke invoke_stream services ctx msg ≡ record {
          calls = i ∷ [];
          replies = elim end [
            | closes ↦ streamed ms ++ exit_reply api ctx (last_response none ms)
            | cancelled ↦ streamed ms
          ];
        }
    unfolding call_first call_method stream_replies
    streaming_replies i info ms closes served single has_invoker has_info s c opened =
        to_first served single
        ∙ rw (has_invoker, has_info, call_first, s, c, opened, relay-closes api ctx none ms) refl
    streaming_replies i info ms cancelled served single has_invoker has_info s c opened =
        to_first served single
        ∙ rw (has_invoker, has_info, call_first, s, c, opened, relay-cancelled api ctx none ms) refl

  -- A request for a service that has no handler calls no invoker, and the message that answers it
  -- has a status that the caller reads back as Unimplemented.
  pub unknown_service_code :
      (services : Table Text (List ServiceHandler)) (ctx : Ctx) (msg : Rpc) (tracing : Tracing)
      → handlers_of (load msg.service_name services) ≡ []
      → (e : Err) × (handle_request api empty_response invoke invoke_stream services ctx msg
          ≡ record { calls = []; replies = reply_err ctx (some e) ∷ [] })
        × ((get_status
              (get_response (some (reply_err_message api tracing ctx msg.tag (some e))))).code
            ≡ code_unimplemented)
  unfolding handle_request dispatch
  unknown_service_code services ctx msg tracing gone = (
    unknown_service api msg.service_name,
    rw (gone, dispatch) refl,
    coded api tracing ctx msg.tag _,
  )

  -- A request for a method that the first handler of its service neither has nor broadcasts calls no
  -- invoker, not even another handler's, and is read back by the caller as NotFound.
  pub unknown_method_code :
      (services : Table Text (List ServiceHandler)) (ctx : Ctx) (msg : Rpc) (sh : ServiceHandler)
      (rest : List ServiceHandler) (tracing : Tracing)
      → load msg.service_name services ≡ some (sh ∷ rest)
      → broadcasts msg.method_name sh (sh ∷ rest) ≡ false
      → load msg.method_name sh.method_invokers ≡ none
      → (e : Err) × (handle_request api empty_response invoke invoke_stream services ctx msg
          ≡ record { calls = []; replies = reply_err ctx (some e) ∷ [] })
        × ((get_status
              (get_response (some (reply_err_message api tracing ctx msg.tag (some e))))).code
            ≡ code_not_found)
  unfolding call_first
  unknown_method_code services ctx msg sh rest tracing served single missing = (
    method_not_found api msg.method_name,
    to_first services ctx msg sh rest served single ∙ rw (missing, call_first) refl,
    coded api tracing ctx msg.tag _,
  )
