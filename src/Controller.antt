-- ===== src/Controller.antt =====
-- stream.go: the state of a `StreamController`, with the Go channels that its calls wait on.
-- Logging and spans have no effect on it and are left out.
pub mod Sending
pub mod Receiving
pub mod Dispatch
pub mod Starting
pub mod Draining
use totem.Base.{
  ℕ, Bool, true, false, Option, none, some, List, [], ◌∷◌, ◌++◌, Text, ◌^◌, length, leb,
  if◌then◌else◌,
}
use totem.Base.Table.{Table}
use totem.Wire.{Rpc}
use totem.Status.{Err}
use totem.Handlers.{ServiceHandler}

-- A channel of messages: what its reader has taken, what waits in the buffer, and whether it is
-- closed. The history of a channel is what was ever sent on it.
pub record Chan : Type 0 where
  pub taken : List Rpc
  pub queue : List Rpc
  pub closed : Bool

abbrev pub history : Chan → List Rpc
history ch = ch.taken ++ ch.queue

-- `make(chan *RPC, 1)`
abbrev pub new_chan : Chan
new_chan = record { taken = []; queue = []; closed = false }

abbrev pub chan_capacity : ℕ
chan_capacity = 1

pub data Panic : Type 0 where
  unexpected_tag : ℕ → Panic
  send_on_closed nil_channel : Panic

-- A send is done, has to wait for the reader, or panics.
pub data Sent : Type 0 where
  delivered : Chan → Sent
  full : Sent
  refused : Sent

unfoldable pub send_chan : Rpc → Chan → Sent
send_chan m ch =
    if ch.closed
    then refused
    else if leb chan_capacity (length ch.queue)
    then full
    else delivered (record ch { queue = ch.queue ++ m ∷ [] })

-- Where the goroutine of `Run` is: in its loop, cancelling the calls that were pending when the
-- stream ended, or returned with this error.
pub data Phase : Type 0 where
  running : Phase
  draining : Option Err → List ℕ → Phase
  stopped : Option Err → Phase

-- `pendingRPCs` maps a tag to a channel, which is a place in `channels`. `waiting` has the messages
-- that callers are about to send, `sent` those that the stream has taken, and `tasks` those handed
-- to the worker pool. `kick` is the channel of that name of the receiver.
pub record Controller : Type 0 where
  pub uuid : Text
  pub name : Text
  pub base_topology_flags : ℕ
  pub stream_context : ℕ
  pub count : ℕ
  pub pending : Table ℕ ℕ
  pub channels : List Chan
  pub services : Table Text (List ServiceHandler)
  pub waiting : List Rpc
  pub sent : List Rpc
  pub tasks : List Rpc
  pub kicked : Bool
  pub kick : Option Err
  pub phase : Phase

abbrev pub uint64_mod : ℕ
uint64_mod = 2 ^ 64

-- What becomes of a step: the next state, a goroutine that has to wait, or a panic.
pub data Verdict : Type 0 where
  next : Controller → Verdict
  blocks : Verdict
  crashes : Panic → Verdict
