-- ===== src/Controller/Receiving/Delivery.antt =====
-- What the arrival of an answer does, on each branch.
use totem.Base.{
  ℕ, ◌≡◌, ◌∙◌, ◌<◌, ◌≤◌, refl, sym, ap, true, false, Option, none, some, List, [], ◌∷◌, ◌++◌,
  Bool-cases, inl, inr, nat_eq, arith, length, get_elem?, get_elem?-set_self, get_elem?-set_ne,
  get_elem?-lt, set, ◌==◌, if◌then◌else◌,
}
use totem.Base.Table.{load, delete, load-delete}
use totem.Wire.{Rpc, Content, Response, ServerStreamMessage, response, server_stream_msg}
use totem.Status.{StatusApi}
use totem.Context.{Tracing}
use totem.Controller.{
  Chan, Controller, running, next, blocks, crashes, unexpected_tag, chan_capacity,
}
use totem.Controller.Receiving.{
  arrives, step, receive_response, receive_stream_msg, receive_content, on_arrival, store_chan,
}
use totem.Controller.Receiving.Equations.{
  receive_response-none, receive_response-some, receive_stream_msg-none, receive_stream_msg-some,
}
use totem.Controller.Receiving.Channels.{pushed, push_next, push_full}
use totem.Controller.Receiving.Invariant.{IsSound}
use totem.Controller.Receiving.Safety.{is_answer}
use totem.Wire.{request}

pub get_elem?-set_at :
    {A : Type 0} (xs : List A) (a b : ℕ) (old v : A)
    → get_elem? xs a ≡ some old
    → get_elem? (set xs a v) b ≡ (if a == b then some v else get_elem? xs b)
get_elem?-set_at xs a b old v there = elim (Bool-cases (a == b)) [
  | inl e ↦
      let p : a ≡ b = ground arith in
      rw (e, ← p) (get_elem?-set_self xs a v (get_elem?-lt xs a old there))
  | inr e ↦ rw e (get_elem?-set_ne xs a b v (ground arith))
]

module _ (api : StatusApi) (tracing : Tracing) (c : Controller) (m : Rpc)
    (live : c.phase ≡ running) where
  arrival-response :
      (r : Option Response)
      → m.content ≡ some (response r)
      → step api tracing (arrives m) c ≡ receive_response m c
  unfolding step on_arrival receive_content
  arrival-response r e = rw (live, on_arrival, e, receive_content)

  arrival-stream_msg :
      (r : Option ServerStreamMessage)
      → m.content ≡ some (server_stream_msg r)
      → step api tracing (arrives m) c ≡ receive_stream_msg m c
  unfolding step on_arrival receive_content
  arrival-stream_msg r e = rw (live, on_arrival, e, receive_content)

  -- While the loop runs, a response or a stream message whose tag belongs to no pending call ends
  -- the program by the panic "unexpected tag", whoever sent it.
  pub unexpected_panics :
      is_answer m.content ≡ true
      → load m.tag c.pending ≡ none
      → step api tracing (arrives m) c ≡ crashes (unexpected_tag m.tag)
  unexpected_panics answer e = by_content m.content refl answer
    where
      by_content :
          (o : Option Content)
          → m.content ≡ o
          → is_answer o ≡ true
          → step api tracing (arrives m) c ≡ crashes (unexpected_tag m.tag)
      by_content none q y = cc
      by_content (some (request b)) q y = cc
      by_content (some (response r)) q y = arrival-response r q ∙ receive_response-none m c e
      by_content (some (server_stream_msg r)) q y =
          arrival-stream_msg r q ∙ receive_stream_msg-none m c e

  module _ (s : IsSound c) (a : ℕ) (ch : Chan) (there : load m.tag c.pending ≡ some a)
      (here : get_elem? c.channels a ≡ some ch) where
    unclosed : ch.closed ≡ false
    unclosed =
        let (old, there', open') = (s.owned m.tag a there).1 in
        let same : old ≡ ch = cc in ap (λ (x : Chan). x.closed) (sym same) ∙ open'

    -- The response to a pending call whose channel has room is put on that channel, behind what is
    -- there, and the channel is closed; the call is not pending any more; the channels and the
    -- entries of the other calls stay as they are.
    pub response_delivered :
        (r : Option Response) (b t : ℕ)
        → m.content ≡ some (response r)
        → length ch.queue < chan_capacity
        → (out : Controller) × (step api tracing (arrives m) c ≡ next out)
          × (get_elem? out.channels b ≡ (
              if a == b
              then some (record { taken = ch.taken; queue = ch.queue ++ m ∷ []; closed = true })
              else get_elem? c.channels b))
          × (load t out.pending ≡ (if m.tag == t then none else load t c.pending))
    response_delivered r b t e room =
        let d : Controller = record c { pending = delete m.tag c.pending } in
        (
          store_chan a (pushed true m ch) d,
          arrival-response r e
              ∙ receive_response-some m c a there
              ∙ push_next true a m d ch here unclosed room,
          get_elem?-set_at c.channels a b ch (pushed true m ch) here,
          load-delete m.tag t c.pending,
        )

    -- A stream message for a pending call whose channel has room is put on that channel, behind
    -- what is there; the channel stays open and the call pending; the channels of the other calls
    -- stay as they are.
    pub stream_msg_delivered :
        (r : Option ServerStreamMessage) (b : ℕ)
        → m.content ≡ some (server_stream_msg r)
        → length ch.queue < chan_capacity
        → (out : Controller) × (step api tracing (arrives m) c ≡ next out)
          × (get_elem? out.channels b ≡ (
              if a == b
              then some (record { taken = ch.taken; queue = ch.queue ++ m ∷ []; closed = false })
              else get_elem? c.channels b))
          × (out.pending ≡ c.pending)
    stream_msg_delivered r b e room = (
      store_chan a (pushed false m ch) c,
      arrival-stream_msg r e
          ∙ receive_stream_msg-some m c a there
          ∙ push_next false a m c ch here unclosed room,
      get_elem?-set_at c.channels a b ch (pushed false m ch) here,
      refl,
    )

    -- An answer to a call whose channel is full has to wait: the one goroutine that receives for all
    -- the calls stops until the reader of this channel has read.
    pub full_blocks :
        is_answer m.content ≡ true
        → chan_capacity ≤ length ch.queue
        → step api tracing (arrives m) c ≡ blocks
    full_blocks answer no_room = by_content m.content refl answer
      where
        by_content :
            (o : Option Content)
            → m.content ≡ o
            → is_answer o ≡ true
            → step api tracing (arrives m) c ≡ blocks
        by_content none q y = cc
        by_content (some (request b)) q y = cc
        by_content (some (response r)) q y =
            arrival-response r q
            ∙ receive_response-some m c a there
            ∙ push_full true a m (record c { pending = delete m.tag c.pending }) ch here unclosed
                no_room
        by_content (some (server_stream_msg r)) q y =
            arrival-stream_msg r q
            ∙ receive_stream_msg-some m c a there
            ∙ push_full false a m c ch here unclosed no_room
