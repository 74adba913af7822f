-- ===== src/Invokers/Answers.antt =====
-- What invokers give to the handler of a request, and what comes of it for the caller.
use totem.Base.{
  ℕ, ◌≡◌, ◌≢◌, ◌∙◌, refl, ap, true, Option, none, some, List, [], ◌∷◌, ◌++◌, Text, Bytes, text_eq,
  All, inl, inr, nat_eq,
}
use totem.Base.Table.{load}
use totem.Wire.{Rpc, Content, request, response, server_stream_msg, Status}
use totem.Status.{Err, status, ok, err, StatusApi, get_status, ok_status}
use totem.Metadata.{Pairs}
use totem.Context.{Ctx, Tracing}
use totem.Controller.Sending.{reply_message, reply_err_message}
use totem.Controller.Receiving.Channels.{is_response, is_stream_msg, IsPart, IsFinal}
use totem.Controller.Dispatch.{streams, closes, stream_reply, exit_reply, stream_replies}
use totem.Controller.Dispatch.Relay.{Content-cases, streamed, last_response, relay-closes}
use totem.LocalStream.{ServerStream, new_server_stream, act_all}
use totem.LocalStream.Headers.{IsPlain, IsHeaded, IsWritten, act_all-IsWritten}
use totem.Invokers.{
  LocalInvoker, StreamHandler, local_invoke_stream, exit_message, gets, remote_result, forward,
  remote_stream,
}

module _ (api : StatusApi) (tracing : Tracing) (ctx : Ctx) (tag : ℕ) where
  -- A unary result goes through the reply of the one end and the stream invoker of the other
  -- unchanged: the bytes of a success, and the status of a failure.
  pub remote_result-reply_message :
      (body : Bytes) (s : Status)
      → s.code ≢ 0
      → (remote_result api (gets (some (reply_message tracing ctx tag body))) ≡ ok body)
        × (remote_result api (gets (some (reply_err_message api tracing ctx tag (some (status s)))))
            ≡ err (status s))
  unfolding remote_result reply_message reply_err_message get_status
  remote_result-reply_message body s ne = (
    rw (api.err_of_ok ok_status refl, remote_result) refl,
    rw (api.convert_status s, remote_result, get_status, api.err_of_ne s ne) refl,
  )

forward-response :
    (m : Rpc) (ms : List Rpc) → is_response m.content ≡ true → forward (m ∷ ms) ≡ m ∷ []
unfolding forward
forward-response m ms h = by_content m.content h
  where
    by_content :
        (o : Option Content)
        → is_response o ≡ true
        → (elim o as (λ x. List Rpc) [
          | none ↦ forward ms
          | some (request _) ↦ forward ms
          | some (response _) ↦ m ∷ []
          | some (server_stream_msg _) ↦ m ∷ forward ms
        ])
          ≡ m ∷ []
    by_content none k = cc
    by_content (some (request b)) k = cc
    by_content (some (response r)) k = refl
    by_content (some (server_stream_msg x)) k = cc

forward-stream_msg :
    (m : Rpc) (ms : List Rpc) → is_stream_msg m.content ≡ true → forward (m ∷ ms) ≡ m ∷ forward ms
unfolding forward
forward-stream_msg m ms h = by_content m.content h
  where
    by_content :
        (o : Option Content)
        → is_stream_msg o ≡ true
        → (elim o as (λ x. List Rpc) [
          | none ↦ forward ms
          | some (request _) ↦ forward ms
          | some (response _) ↦ m ∷ []
          | some (server_stream_msg _) ↦ m ∷ forward ms
        ])
          ≡ m ∷ forward ms
    by_content none k = cc
    by_content (some (request b)) k = cc
    by_content (some (response r)) k = cc
    by_content (some (server_stream_msg x)) k = refl

-- On a conversation the forwarding loop changes nothing.
forward-parts :
    (tag : ℕ) (parts : List Rpc) (final : Rpc)
    → All (IsPart tag) parts
    → IsFinal tag final
    → forward (parts ++ final ∷ []) ≡ parts ++ final ∷ []
forward-parts tag [] final p f = forward-response final [] f.1
forward-parts tag (m ∷ ms) final ((t, p), ps) f =
    forward-stream_msg m (ms ++ final ∷ []) p ∙ ap (λ l. m ∷ l) (forward-parts tag ms final ps f)

last-parts :
    (parts : List Rpc) (final : Rpc) (found : Option Rpc)
    → All (λ m. is_stream_msg m.content ≡ true) parts
    → is_response final.content ≡ true
    → last_response found (parts ++ final ∷ []) ≡ some final
last-parts [] final found p f = by_content final.content f
  where
    by_content :
        (o : Option Content)
        → is_response o ≡ true
        → (elim o as (λ x. Option Rpc) [
          | none ↦ found
          | some (request _) ↦ found
          | some (response _) ↦ some final
          | some (server_stream_msg _) ↦ found
        ])
          ≡ some final
    by_content none k = cc
    by_content (some (request b)) k = cc
    by_content (some (response r)) k = refl
    by_content (some (server_stream_msg x)) k = cc
last-parts (m ∷ ms) final found (p, ps) f = elim (Content-cases m.content) [
  | inl e ↦ cc
  | inr (inl (b, e)) ↦ cc
  | inr (inr (inl (r, e))) ↦ cc
  | inr (inr (inr (x, e))) ↦ rw (e, last_response) (last-parts ms final found ps f)
]

streamed-parts :
    (parts : List Rpc) (final : Rpc)
    → is_response final.content ≡ true
    → streamed (parts ++ final ∷ []) ≡ streamed parts
streamed-parts [] final f = elim (Content-cases final.content) [
  | inl e ↦ cc
  | inr (inl (b, e)) ↦ cc
  | inr (inr (inl (r, e))) ↦ rw (e, streamed) refl
  | inr (inr (inr (x, e))) ↦ cc
]
streamed-parts (m ∷ ms) final f = elim (Content-cases m.content) [
  | inl e ↦ rw (e, streamed) (streamed-parts ms final f)
  | inr (inl (b, e)) ↦ rw (e, streamed) (streamed-parts ms final f)
  | inr (inr (inl (r, e))) ↦ rw (e, streamed) (streamed-parts ms final f)
  | inr (inr (inr (x, e))) ↦
      rw (e, streamed) (ap (λ l. stream_reply x ∷ l) (streamed-parts ms final f))
]

-- Stream messages and a response behind them are answered by the messages and one last reply.
replies-parts :
    (api : StatusApi) (ctx : Ctx) (parts : List Rpc) (final : Rpc)
    → All (λ m. is_stream_msg m.content ≡ true) parts
    → is_response final.content ≡ true
    → stream_replies api ctx (streams (parts ++ final ∷ []) closes)
      ≡ streamed parts ++ exit_reply api ctx (some final)
unfolding stream_replies
replies-parts api ctx parts final p f =
    relay-closes api ctx none (parts ++ final ∷ [])
    ∙ rw (last-parts parts final none p f, streamed-parts parts final f) refl

parts-IsPart :
    (tag : ℕ) (parts : List Rpc)
    → All (IsPart tag) parts
    → All (λ m. is_stream_msg m.content ≡ true) parts
parts-IsPart tag [] p = tt
parts-IsPart tag (m ∷ ms) ((t, p), ps) = (p, parts-IsPart tag ms ps)

-- A call passed on over another stream, whose channel held a whole conversation: every stream
-- message of it is passed back in order, and its response makes the one last reply.
pub remote_stream-Conversation :
    (api : StatusApi) (ctx : Ctx) (tag : ℕ) (ms parts : List Rpc) (final : Rpc)
    → ms ≡ parts ++ final ∷ []
    → All (IsPart tag) parts
    → IsFinal tag final
    → stream_replies api ctx (remote_stream ms) ≡ streamed parts ++ exit_reply api ctx (some final)
remote_stream-Conversation api ctx tag ms parts final e p f =
    rw (e, forward-parts tag parts final p f)
      (replies-parts api ctx parts final (parts-IsPart tag parts p) f.1)

headed-stream_msg : (ms : List Rpc) → IsHeaded ms → All (λ m. is_stream_msg m.content ≡ true) ms
headed-stream_msg [] h = tt
headed-stream_msg (m ∷ ms) (h, hs) = (h, plain_parts ms hs)
  where
    plain_parts : (ns : List Rpc) → All IsPlain ns → All (λ n. is_stream_msg n.content ≡ true) ns
    plain_parts [] k = tt
    plain_parts (n ∷ ns) ((k, _), ks) = (k, plain_parts ns ks)

written-stream_msg :
    (s : ServerStream) → IsWritten s → All (λ m. is_stream_msg m.content ≡ true) s.written
written-stream_msg s (inl (_, e)) = rw e tt
written-stream_msg s (inr (_, h)) = headed-stream_msg s.written h

module _ (join : Pairs → Pairs → Pairs) (quote : Text → Text) (error_text : Err → Text)
    (api : StatusApi) (l : LocalInvoker) (ctx : Ctx) (req : Rpc) (handler : StreamHandler) where
  -- A streaming method of a local service, whatever its handler does with the stream and returns: the
  -- messages that it wrote are sent in order, and behind them one last reply with the trailers, made
  -- of the status of its error, or a success if it has none.
  pub local_stream_replies :
      load req.method_name l.streams ≡ some handler
      → stream_replies api ctx (local_invoke_stream join quote error_text api l ctx req)
        ≡ streamed
            (act_all join quote error_text (handler ctx req).actions new_server_stream).written
          ++ exit_reply api ctx (
              some (
                exit_message api
                  (handler ctx req).failure
                  (act_all join quote error_text
                    (handler ctx req).actions
                    new_server_stream).trailers))
  unfolding local_invoke_stream
  local_stream_replies there =
      rw (there, local_invoke_stream)
        (replies-parts api ctx
          (act_all join quote error_text (handler ctx req).actions new_server_stream).written
          (exit_message api (handler ctx req).failure
            (act_all join quote error_text (handler ctx req).actions new_server_stream).trailers)
          (written-stream_msg
            (act_all join quote error_text (handler ctx req).actions new_server_stream)
            (act_all-IsWritten join quote error_text (handler ctx req).actions new_server_stream
              (inl (refl, refl))))
          refl)
