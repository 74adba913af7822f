-- ===== src/Controller/Dispatch/Relay.antt =====
-- How the messages on the response channel of a server stream become replies.
use totem.Base.{
  ◌≡◌, refl, ap, Option, none, some, List, [], ◌∷◌, ◌++◌, Bytes, text_eq, ◌==◌, Bool-cases, ◌⊎◌,
  inl, inr,
}
use totem.Wire.{
  Rpc, Content, request, response, server_stream_msg, Response, ServerStreamMessage, response_of,
}
use totem.Status.{StatusApi, get_status, code_ok}
use totem.Context.{Ctx}
use totem.Controller.Dispatch.{
  Streaming, refuses, streams, closes, cancelled, Reply, reply, reply_err, stream_reply, exit_reply,
  relay, stream_replies,
}

-- Stream messages, and then one reply or one error.
abbrev pub AnsweredOnce : List Reply → Type 0
AnsweredOnce [] = ⊥
AnsweredOnce (stream_reply m ∷ rs) = AnsweredOnce rs
AnsweredOnce (reply ctx b ∷ rs) = rs ≡ []
AnsweredOnce (reply_err ctx e ∷ rs) = rs ≡ []

-- the stream messages among those of a response channel
abbrev pub streamed : List Rpc → List Reply
streamed [] = []
streamed (m ∷ ms) = elim m.content [
  | none ↦ streamed ms
  | some (request _) ↦ streamed ms
  | some (response _) ↦ streamed ms
  | some (server_stream_msg msg) ↦ stream_reply msg ∷ streamed ms
]

-- the last response among those of a response channel, or else the one given
abbrev pub last_response : Option Rpc → List Rpc → Option Rpc
last_response found [] = found
last_response found (m ∷ ms) = elim m.content [
  | none ↦ last_response found ms
  | some (request _) ↦ last_response found ms
  | some (response _) ↦ last_response (some m) ms
  | some (server_stream_msg msg) ↦ last_response found ms
]

-- A stream that is refused, or that has a response and is closed.
abbrev pub Finishes : Streaming → Type 0
Finishes (refuses e) = Unit
Finishes (streams ms closes) = (m : Rpc) × (last_response none ms ≡ some m)
Finishes (streams ms cancelled) = ⊥

pub Content-cases :
    (c : Option Content)
    → (c ≡ none)
      ⊎ (((b : Bytes) × (c ≡ some (request b)))
          ⊎ (((r : Option Response) × (c ≡ some (response r)))
              ⊎ ((m : Option ServerStreamMessage) × (c ≡ some (server_stream_msg m)))))
Content-cases none = inl refl
Content-cases (some (request b)) = inr (inl (b, refl))
Content-cases (some (response r)) = inr (inr (inl (r, refl)))
Content-cases (some (server_stream_msg m)) = inr (inr (inr (m, refl)))

streamed-AnsweredOnce :
    (ms : List Rpc) (rs : List Reply) → AnsweredOnce rs → AnsweredOnce (streamed ms ++ rs)
streamed-AnsweredOnce [] rs a = a
streamed-AnsweredOnce (m ∷ ms) rs a = elim (Content-cases m.content) [
  | inl e ↦ rw (e, streamed) (streamed-AnsweredOnce ms rs a)
  | inr (inl (b, e)) ↦ rw (e, streamed) (streamed-AnsweredOnce ms rs a)
  | inr (inr (inl (r, e))) ↦ rw (e, streamed) (streamed-AnsweredOnce ms rs a)
  | inr (inr (inr (msg, e))) ↦ rw (e, streamed) (streamed-AnsweredOnce ms rs a)
]

module _ (api : StatusApi) where
  pub relay-closes :
      (ctx : Ctx) (found : Option Rpc) (ms : List Rpc)
      → relay api ctx found ms closes ≡ streamed ms ++ exit_reply api ctx (last_response found ms)
  unfolding relay
  relay-closes ctx found [] = refl
  relay-closes ctx found (m ∷ ms) = elim (Content-cases m.content) [
    | inl e ↦ rw (e, relay, streamed, last_response) (relay-closes ctx found ms)
    | inr (inl (b, e)) ↦ rw (e, relay, streamed, last_response) (relay-closes ctx found ms)
    | inr (inr (inl (r, e))) ↦ rw (e, relay, streamed, last_response) (relay-closes ctx (some m) ms)
    | inr (inr (inr (msg, e))) ↦
        rw (e, relay, streamed, last_response)
          (ap (λ rs. stream_reply msg ∷ rs) (relay-closes ctx found ms))
  ]

  pub relay-cancelled :
      (ctx : Ctx) (found : Option Rpc) (ms : List Rpc)
      → relay api ctx found ms cancelled ≡ streamed ms
  unfolding relay
  relay-cancelled ctx found [] = refl
  relay-cancelled ctx found (m ∷ ms) = elim (Content-cases m.content) [
    | inl e ↦ rw (e, relay, streamed) (relay-cancelled ctx found ms)
    | inr (inl (b, e)) ↦ rw (e, relay, streamed) (relay-cancelled ctx found ms)
    | inr (inr (inl (r, e))) ↦ rw (e, relay, streamed) (relay-cancelled ctx (some m) ms)
    | inr (inr (inr (msg, e))) ↦
        rw (e, relay, streamed) (ap (λ rs. stream_reply msg ∷ rs) (relay-cancelled ctx found ms))
  ]

  exit_reply-AnsweredOnce : (ctx : Ctx) (m : Rpc) → AnsweredOnce (exit_reply api ctx (some m))
  unfolding exit_reply
  exit_reply-AnsweredOnce ctx m =
      elim (Bool-cases ((get_status (response_of m.content)).code == code_ok)) [
        | inl e ↦ rw (e, exit_reply) refl
        | inr e ↦ rw (e, exit_reply) refl
      ]

  pub stream_replies-AnsweredOnce :
      (ctx : Ctx) (s : Streaming) → Finishes s → AnsweredOnce (stream_replies api ctx s)
  unfolding stream_replies
  stream_replies-AnsweredOnce ctx (refuses e) f = refl
  stream_replies-AnsweredOnce ctx (streams ms closes) (m, f) =
      rw (relay-closes ctx none ms, f)
        (streamed-AnsweredOnce ms (exit_reply api ctx (some m)) (exit_reply-AnsweredOnce ctx m))
  stream_replies-AnsweredOnce ctx (streams ms cancelled) f = absurd f
