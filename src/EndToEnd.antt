-- ===== src/EndToEnd.antt =====
-- stream.go: two controllers joined by a stream. One makes calls by `Request`; the workers of the other
-- handle each message that it puts on its way once, by `handleRequest`, and send the replies under the
-- tag of that message; the stream brings them, those of one request in their order and those of
-- different requests in any.
pub mod Requests
pub mod Shape
pub mod Safety
pub mod Delivery
use totem.Base.{
  ℕ, ◌≡◌, ◌<◌, Bool, true, false, not, List, [], ◌∷◌, ◌++◌, none, some, get_elem?, map, Text, Bytes,
  ◌==◌, if◌then◌else◌,
}
use totem.Base.Table.{Table}
use totem.Wire.{Rpc}
use totem.Status.{Result, StatusApi}
use totem.Context.{Ctx, Tracing}
use totem.Handlers.{ServiceHandler, Invoker}
use totem.Controller.Sending.{reply_message, reply_err_message, stream_reply_message}
use totem.Controller.Receiving.{Event, arrives, issues, step}
use totem.Controller.{Controller, next, blocks, crashes}
use totem.Controller.Receiving.Safety.{is_answer}
use totem.Controller.Receiving.Peer.{made}
use totem.Controller.Dispatch.{Streaming, Reply, reply, reply_err, stream_reply, handle_request}

-- What a worker has when it handles a request: the handlers, the context, and what the invokers do
-- with the request.
pub record Work : Type 0 where
  pub services : Table Text (List ServiceHandler)
  pub ctx : Ctx
  pub empty_response : Bytes
  pub invoke : Invoker → Ctx → Rpc → Result Bytes
  pub invoke_stream : Invoker → Ctx → Rpc → Streaming

-- what is in a list behind the places of another
abbrev pub behind : List Rpc → List Rpc → List Rpc
behind [] ms = ms
behind (_ ∷ old) [] = []
behind (_ ∷ old) (_ ∷ ms) = behind old ms

-- the message that an event puts on its way, if it is a call of `Request`
abbrev pub put : Event → Controller → Controller → List Rpc
put (issues ctx m) before after = behind before.waiting after.waiting
put _ before after = []

module _ (api : StatusApi) (tracing : Tracing) where
  -- the message by which a reply is sent
  pub reply_rpc : ℕ → Reply → Rpc
  unfolding reply_message reply_err_message stream_reply_message
  reply_rpc tag (reply ctx body) = reply_message tracing ctx tag body
  reply_rpc tag (reply_err ctx e) = reply_err_message api tracing ctx tag e
  reply_rpc tag (stream_reply m) = stream_reply_message tag m

  -- all that a worker sends for a request
  unfoldable pub replies_to : Work → Rpc → List Rpc
  unfolding reply_rpc handle_request
  replies_to w msg =
      map (reply_rpc msg.tag)
        (handle_request api w.empty_response w.invoke w.invoke_stream w.services w.ctx msg).replies

  -- the requests that a run puts on their way, in the order of the calls
  unfoldable pub requests : List Event → Controller → List Rpc
  unfolding step
  requests [] c = []
  requests (e ∷ es) c = elim (step api tracing e c) [
    | next c' ↦ put e c c' ++ requests es c'
    | blocks ↦ []
    | crashes p ↦ []
  ]

  -- what the workers of the peer say to each call of a run: the replies to its request
  unfoldable pub answers : (ℕ → Work) → List Event → Controller → ℕ → List Rpc
  unfolding requests replies_to
  answers works es c a = elim (get_elem? (requests es c) a) [
    | none ↦ []
    | some m ↦ replies_to (works a) m
  ]

-- An event that is no answer of the peer.
abbrev pub is_local : Event → Bool
is_local (arrives m) = not (is_answer m.content)
is_local _ = true

-- what is left of the answers when one of a call has arrived
abbrev pub without : (ℕ → List Rpc) → ℕ → List Rpc → ℕ → List Rpc
without left a ms b = if a == b then ms else left b

-- The events of the calling controller when `n` calls were made and `left` has what the peer will still
-- say to each call: the next message for a call that was made arrives, or something else happens.
pub data Talk : ℕ → (ℕ → List Rpc) → List Event → Type 0 where
  over : {n : ℕ} {left : ℕ → List Rpc} → Talk n left []
  meanwhile :
      {n : ℕ} {left : ℕ → List Rpc} {es : List Event} (e : Event)
      → is_local e ≡ true
      → Talk (made e n) left es
      → Talk n left (e ∷ es)
  says :
      {n : ℕ} {left : ℕ → List Rpc} {es : List Event} (a : ℕ) (m : Rpc) (ms : List Rpc)
      → a < n
      → left a ≡ m ∷ ms
      → Talk n (without left a ms) es
      → Talk n left (arrives m ∷ es)
