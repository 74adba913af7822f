-- ===== src/Receiver.antt =====
-- recv.go: `recvWrapper`, which reads its stream ahead of the loop of `Run`, and the registry of the
-- streams that have one. The stack traces that are printed before a panic are left out.
pub mod Order
pub mod Known
use totem.Base.{
  ℕ, ◌≡◌, Bool, true, false, Option, none, some, List, [], ◌∷◌, ◌++◌, Text, codes, length, leb, any,
  ◌==◌, if◌then◌else◌,
}
use totem.Base.Go.{Go, returns, panics}
use totem.Wire.{Rpc}
use totem.Status.{Err}

-- `recvPayload`: what one `Recv` of the stream returned
pub record Payload : Type 0 where
  pub rpc : Option Rpc
  pub failure : Option Err

-- Where the goroutine that `Start` begins is: it reads, it holds what it has read, or it has ended.
pub data Reading : Type 0 where
  not_started reads_stream ended : Reading
  holds : Payload → Reading

-- `queue` is the channel `c`, `returned` what `Recv` has returned from it, and `given` what the stream
-- has given. `kick` has the error that somebody sent on the channel of that name, nil included;
-- `receiving` says that a goroutine holds `recvLock`.
pub record Receiver : Type 0 where
  pub stream : ℕ
  pub given : List Payload
  pub reading : Reading
  pub queue : List Payload
  pub returned : List Payload
  pub kick : Option (Option Err)
  pub kick_acked : Bool
  pub receiving : Bool
  pub done : Bool

-- `make(chan recvPayload, 256)`
abbrev pub read_ahead : ℕ
read_ahead = 256

abbrev pub two_wrappers : Text
two_wrappers = codes "attempted to create two recvWrappers for the same stream"

abbrev pub run_twice : Text
run_twice = codes "attempted to call recvWrapper.Run twice"

abbrev pub recv_twice : Text
recv_twice = codes "attempted to call recvWrapper.Recv twice in separate goroutines"

abbrev pub kicked_by_nil : Text
kicked_by_nil = codes "recvWrapper was kicked without an error"

abbrev pub closed_twice : Text
closed_twice = codes "close of closed channel"

abbrev pub new_receiver : ℕ → Receiver
new_receiver stream = record {
  stream = stream;
  given = [];
  reading = not_started;
  queue = [];
  returned = [];
  kick = none;
  kick_acked = false;
  receiving = false;
  done = false;
}

-- `newRecvWrapper`, on the streams of `gKnownStreams`
unfoldable pub new_recv_wrapper : ℕ → List ℕ → Go (List ℕ × Receiver)
new_recv_wrapper stream known =
    if any (λ s. s == stream) known
    then panics two_wrappers
    else returns (stream ∷ known, new_receiver stream)

-- `delete(gKnownStreams, stream)`, when the kick was acknowledged or the stream's context ended
unfoldable pub forget : ℕ → List ℕ → List ℕ
forget stream [] = []
forget stream (s ∷ known) = let rest = forget stream known in if s == stream then rest else s ∷ rest

-- `Start`: the goroutine holds `runLock` until it ends.
pub start : Reading → Receiver → Go Receiver
start (holds p) w = panics run_twice
start reads_stream w = panics run_twice
start not_started w = returns (record w { reading = reads_stream })
start ended w = returns (record w { reading = reads_stream })

-- `w.stream.Recv()` returns
pub on_given : Payload → Reading → Receiver → Option Receiver
on_given p reads_stream w = some (record w { given = w.given ++ p ∷ []; reading = holds p })
on_given p _ w = none

-- the payload is in the channel: the goroutine reads on, or ends if it is an error
pub after_queued : Payload → Option Err → Receiver → Go (Option Receiver)
after_queued p none w =
    returns (some (record w { queue = w.queue ++ p ∷ []; reading = reads_stream }))
after_queued p (some e) w =
    if w.done
    then panics closed_twice
    else returns (some (record w { queue = w.queue ++ p ∷ []; reading = ended; done = true }))

-- `w.c <- payload`, and what follows
pub on_queued : Reading → Receiver → Go (Option Receiver)
unfolding after_queued
on_queued (holds p) w =
    if leb read_ahead (length w.queue) then returns none else after_queued p p.failure w
on_queued _ w = returns none

-- `Recv` up to its `select`
pub recv : Receiver → Go Receiver
recv w = if w.receiving then panics recv_twice else returns (record w { receiving = true })

-- the `select` takes a payload
pub on_payload : List Payload → Receiver → Option Receiver
on_payload [] w = none
on_payload (p ∷ rest) w =
    if w.receiving
    then some (record w { queue = rest; returned = w.returned ++ p ∷ []; receiving = false })
    else none

-- the `select` takes a kick
pub on_kick_taken : Option (Option Err) → Receiver → Go (Option Receiver)
on_kick_taken none w = returns none
on_kick_taken (some none) w = if w.receiving then panics kicked_by_nil else returns none
on_kick_taken (some (some e)) w =
    if w.receiving
    then (if w.kick_acked
        then panics closed_twice
        else returns (some (record w { kick = none; kick_acked = true; receiving = false })))
    else returns none

-- `w.kick <- err`, on a channel of capacity 1
pub on_kick_sent : Option Err → Option (Option Err) → Receiver → Option Receiver
on_kick_sent e none w = some (record w { kick = some e })
on_kick_sent e (some _) w = none

pub data RecvEvent : Type 0 where
  starts : RecvEvent
  stream_gives : Payload → RecvEvent
  queues : RecvEvent
  calls_recv : RecvEvent
  takes_payload takes_kick : RecvEvent
  sends_kick : Option Err → RecvEvent

abbrev pub lifted : Go Receiver → Go (Option Receiver)
lifted (returns w) = returns (some w)
lifted (panics t) = panics t

-- The next state, `none` for a goroutine that waits or is not there, or a panic.
unfoldable pub recv_step : RecvEvent → Receiver → Go (Option Receiver)
unfolding start on_given on_queued recv on_payload on_kick_taken on_kick_sent
recv_step starts w = lifted (start w.reading w)
recv_step (stream_gives p) w = returns (on_given p w.reading w)
recv_step queues w = on_queued w.reading w
recv_step calls_recv w = lifted (recv w)
recv_step takes_payload w = returns (on_payload w.queue w)
recv_step takes_kick w = on_kick_taken w.kick w
recv_step (sends_kick e) w = returns (on_kick_sent e w.kick w)

-- the receivers that the steps of the goroutines lead to
pub data RecvRun (stream : ℕ) : Receiver → Type 0 where
  fresh : RecvRun stream (new_receiver stream)
  after :
      {v w : Receiver} (e : RecvEvent)
      → RecvRun stream v
      → recv_step e v ≡ returns (some w)
      → RecvRun stream w
