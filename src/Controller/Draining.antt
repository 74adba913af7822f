-- ===== src/Controller/Draining.antt =====
-- stream.go: `CloseOrRecv`. What the stream gives is a list; a call that never returns has no result.
use totem.Base.{
  ◌≡◌, refl, Bool, true, Option, none, some, List, [], ◌∷◌, ◌++◌, map, arith, if◌then◌else◌,
}
use totem.Wire.{Rpc}
use totem.Status.{Err, Result, ok, err, is_eof}

-- The type switch on the stream; a client stream has what `CloseSend` returns.
pub data Transport : Type 0 where
  client_stream : Option Err → Transport
  server_stream other_stream : Transport

-- the loop over Recv
drain : List (Result Rpc) → Option (Option Err)
drain [] = none
drain (ok m ∷ ms) = drain ms
drain (err e ∷ ms) = if is_eof e then some none else some (some e)

-- `waited` says that `receiver.Wait()` returns: the goroutine that reads the stream has ended.
pub close_or_recv : Transport → Bool → List (Result Rpc) → Option (Option Err)
unfolding drain
close_or_recv (client_stream (some e)) waited ms = some (some e)
close_or_recv (client_stream none) waited ms = if waited then some none else none
close_or_recv server_stream waited ms = if waited then drain ms else none
close_or_recv other_stream waited ms = some none

drain-messages : (ms : List Rpc) (rest : List (Result Rpc)) → drain (map ok ms ++ rest) ≡ drain rest
unfolding drain
drain-messages [] rest = refl
drain-messages (m ∷ ms) rest = drain-messages ms rest

-- Once the goroutine that reads a server's stream has ended, `CloseOrRecv` returns when the stream
-- fails, whatever messages it still gives before: nil at the end of the stream, or else its error.
pub close_or_recv-ends :
    (ms : List Rpc) (e : Err) (rest : List (Result Rpc))
    → close_or_recv server_stream true (map ok ms ++ err e ∷ rest)
      ≡ some (if is_eof e then none else some e)
unfolding close_or_recv
close_or_recv-ends ms e rest = rw (drain-messages ms (err e ∷ rest)) (ground arith)
