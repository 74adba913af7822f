-- ===== src/Controller/Receiving/CallSpec.antt =====
-- What `Request` promises of its calls, without tags, channels, phases or pending calls: each call
-- is a list of messages that its reader reads in order and that ends in one response.
use totem.Base.{ℕ, ◌≡◌, ◌+◌, ◌<◌, Bool, false, some, List, [], ◌∷◌, ◌++◌, length, get_elem?, set}
use totem.Wire.{Rpc}
use totem.Controller.Receiving.Channels.{Fits}
use totem.Controller.Receiving.Invariant.{tag_of}

-- what was said to the call, how many messages of it were read, and whether it is over
pub record Call : Type 0 where
  pub said : List Rpc
  pub read : ℕ
  pub done : Bool

abbrev pub new_call : Call
new_call = record { said = []; read = 0; done = false }

abbrev pub said_more : Call → Rpc → Bool → Call
said_more call m last = record { said = call.said ++ m ∷ []; read = call.read; done = last }

abbrev pub read_more : Call → Call
read_more call = record { said = call.said; read = call.read + 1; done = call.done }

-- A caller makes a call; a call that is not over, and whose reader has read all, is told a message
-- of its own, which is a response exactly if the call is over by it; a reader reads the next
-- message; or nothing happens to the calls.
pub data CallStep (before after : List Call) : Type 0 where
  rests : after ≡ before → CallStep before after
  makes : after ≡ before ++ new_call ∷ [] → CallStep before after
  tells :
      (a : ℕ) (m : Rpc) (call : Call) (last : Bool)
      → get_elem? before a ≡ some call
      → call.done ≡ false
      → call.read ≡ length call.said
      → Fits last (tag_of a) m
      → after ≡ set before a (said_more call m last)
      → CallStep before after
  takes :
      (a : ℕ) (call : Call)
      → get_elem? before a ≡ some call
      → call.read < length call.said
      → after ≡ set before a (read_more call)
      → CallStep before after

pub data CallRun : List Call → List Call → Type 0 where
  no_step : {calls : List Call} → CallRun calls calls
  one_more : {a b c : List Call} → CallRun a b → CallStep b c → CallRun a c
