-- ===== src/Controller/Receiving.antt =====
-- stream.go: the loop of `Run`, one function for each thing that it does, and the steps of the
-- goroutines around it.
pub mod Channels
pub mod Equations
pub mod Invariant
pub mod Safety
pub mod Moves
pub mod Taken
pub mod Answered
pub mod Runs
pub mod Delivery
pub mod Shutdown
pub mod Histories
pub mod Demux
pub mod CallSpec
pub mod Refinement
pub mod Closing
pub mod Peer
use totem.Base.{
  ℕ, Bool, true, false, ◌&&◌, Option, none, some, List, [], ◌∷◌, ◌++◌, ◌+◌, length, get_elem?, set,
  all, if◌then◌else◌, nat_eq, codes,
}
use totem.Base.Table.{Table, load, delete, keys}
use totem.Wire.{Rpc, Content, Response, request, response, server_stream_msg}
use totem.Status.{Err, StatusApi, is_eof, plain}
use totem.Context.{Ctx, Tracing}
use totem.Controller.{
  Controller, Chan, Phase, running, draining, stopped, Verdict, next, blocks, crashes, Panic,
  unexpected_tag, send_on_closed, nil_channel, Sent, delivered, full, refused, send_chan,
}
use totem.Controller.Sending.{issue, send_message, kick_with, blank}

abbrev pub store_chan : ℕ → Chan → Controller → Controller
store_chan a ch c = record c { channels = set c.channels a ch }

-- `future <- msg`, and `close(future)` if `last`
pub push : Bool → ℕ → Rpc → Controller → Verdict
unfolding send_chan
push last a m c = elim (get_elem? c.channels a) [
  | none ↦ crashes nil_channel
  | some ch ↦ elim (send_chan m ch) [
    | full ↦ blocks
    | refused ↦ crashes send_on_closed
    | delivered ch' ↦ next (store_chan a (if last then record ch' { closed = true } else ch') c)
  ]
]

pub receive_response : Rpc → Controller → Verdict
unfolding push
receive_response m c = elim (load m.tag c.pending) [
  | none ↦ crashes (unexpected_tag m.tag)
  | some a ↦ push true a m (record c { pending = delete m.tag c.pending })
]

pub receive_stream_msg : Rpc → Controller → Verdict
unfolding push
receive_stream_msg m c = elim (load m.tag c.pending) [
  | none ↦ crashes (unexpected_tag m.tag)
  | some a ↦ push false a m c
]

-- The `switch` on the content. With no content `Run` returns at once: it cancels nothing.
pub receive_content : Option Content → Rpc → Controller → Verdict
unfolding receive_response receive_stream_msg
receive_content none m c =
    next (record c { phase = stopped (some (plain (codes "invalid content type"))) })
receive_content (some (request _)) m c = next (record c { tasks = c.tasks ++ m ∷ [] })
receive_content (some (response _)) m c = receive_response m c
receive_content (some (server_stream_msg _)) m c = receive_stream_msg m c

-- `Recv` returned an error: the loop ends, and `Range` sets out over the pending calls.
pub stream_ended : Err → Controller → Controller
stream_ended e c = record c {
  phase = draining (if is_eof e then none else some e) (keys c.pending);
}

-- the message by which a pending call is cancelled
unfoldable pub cancellation : StatusApi → Option Err → ℕ → Rpc
cancellation api stream_err tag =
    blank tag (response (some (record { response = []; status_proto = api.convert stream_err })))

-- one round of the `Range`
pub cancel_call : StatusApi → Option Err → ℕ → ℕ → Controller → Verdict
unfolding push cancellation
cancel_call api stream_err tag a c =
    push true a (cancellation api stream_err tag) (record c { pending = delete tag c.pending })

pub is_none : Option ℕ → Bool
is_none none = true
is_none (some a) = false

-- no call that was pending when the stream ended is pending still
unfoldable pub all_cancelled : List ℕ → Table ℕ ℕ → Bool
unfolding is_none
all_cancelled tags pending = all (λ t. is_none (load t pending)) tags

-- The reader of a channel takes the oldest message of its buffer.
pub take_message : Chan → Option Chan
take_message ch = elim ch.queue [
  | [] ↦ none
  | m ∷ rest ↦ some (record ch { taken = ch.taken ++ m ∷ []; queue = rest })
]

pub remove_at : ℕ → List Rpc → List Rpc
remove_at i [] = []
remove_at ℕ.zero (m ∷ ms) = ms
remove_at (ℕ.suc i) (m ∷ ms) = m ∷ remove_at i ms

-- What the goroutines of a controller and its peer can do: a caller issues a request; the send of a
-- waiting request ends, well or with an error; a worker's reply is sent; somebody kicks; a message
-- arrives; `Recv` fails, or finds the kick; `Range` comes to a call; it has come to all; the reader
-- of a channel reads.
pub data Event : Type 0 where
  issues : Ctx → Rpc → Event
  transmits : ℕ → Option Err → Event
  replies : Rpc → Option Err → Event
  kicks : Err → Event
  arrives : Rpc → Event
  fails : Err → Event
  finds_kick : Event
  cancels : ℕ → Event
  drained : Event
  reads : ℕ → Event

pub on_arrival : Phase → Rpc → Controller → Verdict
unfolding receive_content
on_arrival running m c = receive_content m.content m c
on_arrival _ m c = blocks

pub on_failure : Phase → Err → Controller → Verdict
unfolding stream_ended
on_failure running e c = next (stream_ended e c)
on_failure _ e c = blocks

pub on_kick : Phase → Option Err → Controller → Verdict
unfolding stream_ended
on_kick running (some e) c = next (stream_ended e (record c { kick = none }))
on_kick _ _ c = blocks

pub on_cancel : StatusApi → Phase → ℕ → Controller → Verdict
unfolding cancel_call
on_cancel api (draining e tags) tag c = elim (load tag c.pending) [
  | none ↦ blocks
  | some a ↦ cancel_call api e tag a c
]
on_cancel api _ tag c = blocks

pub on_drained : Phase → Controller → Verdict
unfolding all_cancelled
on_drained (draining e tags) c =
    if all_cancelled tags c.pending then next (record c { phase = stopped e }) else blocks
on_drained _ c = blocks

pub on_transmit : ℕ → Option Err → Controller → Verdict
unfolding send_message remove_at
on_transmit i failure c = elim (get_elem? c.waiting i) [
  | none ↦ blocks
  | some m ↦ next (send_message m failure (record c { waiting = remove_at i c.waiting }))
]

pub on_read : ℕ → Controller → Verdict
unfolding take_message
on_read a c = elim (get_elem? c.channels a) [
  | none ↦ blocks
  | some ch ↦ elim (take_message ch) [ none ↦ blocks | some ch' ↦ next (store_chan a ch' c) ]
]

module _ (api : StatusApi) (tracing : Tracing) where
  unfoldable pub step : Event → Controller → Verdict
  unfolding on_arrival on_failure on_kick on_cancel on_drained on_transmit on_read issue
      send_message kick_with
  step (issues ctx m) c = next (issue tracing ctx m c)
  step (transmits i failure) c = on_transmit i failure c
  step (replies m failure) c = next (send_message m failure c)
  step (kicks e) c = next (kick_with e c)
  step (arrives m) c = on_arrival c.phase m c
  step (fails e) c = on_failure c.phase e c
  step finds_kick c = on_kick c.phase c.kick c
  step (cancels tag) c = on_cancel api c.phase tag c
  step drained c = on_drained c.phase c
  step (reads a) c = on_read a c

  -- A run is a list of events, each of which could happen where it stands.
  unfoldable pub run : List Event → Controller → Verdict
  unfolding step
  run [] c = next c
  run (e ∷ es) c = elim (step e c) [ next c' ↦ run es c' | blocks ↦ blocks | crashes p ↦ crashes p ]
