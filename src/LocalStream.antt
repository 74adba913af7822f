-- ===== src/LocalStream.antt =====
-- stream_wrapper.go: `localServerStreamWrapper`, the stream that a local service's handler writes to,
-- while it is open: each message is taken by the reader of the channel. `metadata.Join` and the
-- texts of errors are parameters.
pub mod Headers
pub mod Unsent
pub mod Trailers
use totem.Base.{
  ℕ, Bool, true, false, Option, none, some, List, [], ◌∷◌, ◌++◌, Text, Bytes, codes, if◌then◌else◌,
}
use totem.Wire.{Rpc, Content, server_stream_msg, ServerStreamMessage, get_request}
use totem.Status.{Err, status, wrapped, Result, ok, err, code_internal}
use totem.Metadata.{Pairs, from_md}
use totem.Metadata.Validation.{validate_metadata}

pub record ServerStream : Type 0 where
  pub headers : Option Pairs
  pub trailers : Option Pairs
  pub wrote_headers : Bool
  pub written : List Rpc

-- `RecvMsg` into a message of protobuf; `decode` is proto.Unmarshal, with the error if it fails
unfoldable pub recv_request : (Bytes → Option Err) → Rpc → Result Bytes
recv_request decode req =
    let body = get_request (some req) in
    elim (decode body) [
      | none ↦ ok body
      | some e ↦ err (wrapped (codes "[totem] malformed request: ") e)
    ]

-- what a handler does to its stream; a message comes with the result of its marshalling
pub data Action : Type 0 where
  sets_header sends_header sets_trailer : Pairs → Action
  sends_msg : Result Bytes → Action

abbrev pub new_server_stream : ServerStream
new_server_stream = record { headers = none; trailers = none; wrote_headers = false; written = [] }

abbrev pub or_empty : Option Pairs → Pairs
or_empty none = []
or_empty (some md) = md

abbrev pub message : Option ServerStreamMessage → Rpc
message m = record {
  tag = 0;
  service_name = [];
  method_name = [];
  content = some (server_stream_msg m);
  metadata = none;
}

abbrev pub illegal_header_write : Err
illegal_header_write =
    status (record { code = code_internal; message = codes "SendHeader called multiple times" })

-- the first write takes the headers with it
write : Rpc → ServerStream → ServerStream
write m s = record s {
  headers = none;
  wrote_headers = true;
  written = s.written ++ record m { metadata = from_md s.headers } ∷ [];
}

module _ (join : Pairs → Pairs → Pairs) (quote : Text → Text) (error_text : Err → Text) where
  set_header : Pairs → ServerStream → Option Err × ServerStream
  set_header [] s = (none, s)
  set_header (p ∷ md) s = elim (validate_metadata quote (p ∷ md)) [
    | some e ↦ (some (status (record { code = code_internal; message = error_text e })), s)
    | none ↦ (none, record s { headers = some (join (or_empty s.headers) (p ∷ md)) })
  ]

  send_header : Pairs → ServerStream → Option Err × ServerStream
  unfolding set_header write
  send_header md s =
      let (failure, s') = set_header md s in
      elim failure [
        | some e ↦ (some e, s')
        | none ↦
            if s'.wrote_headers
            then (some illegal_header_write, s')
            else (none, write (message none) s')
      ]

  set_trailer : Pairs → ServerStream → ServerStream
  set_trailer [] s = s
  set_trailer (p ∷ md) s = record s { trailers = some (join (or_empty s.trailers) (p ∷ md)) }

  send_msg : Result Bytes → ServerStream → Option Err × ServerStream
  unfolding write
  send_msg (err e) s = (some e, s)
  send_msg (ok body) s =
      let m = message (some (record { headers = none; response = body })) in
      if s.wrote_headers
      then (none, record s { written = s.written ++ m ∷ [] })
      else (none, write m s)

  act : Action → ServerStream → Option Err × ServerStream
  unfolding set_header send_header set_trailer send_msg
  act (sets_header md) s = set_header md s
  act (sends_header md) s = send_header md s
  act (sets_trailer md) s = (none, set_trailer md s)
  act (sends_msg m) s = send_msg m s

  -- the stream after a handler's actions, whatever the handler makes of their errors
  unfoldable pub act_all : List Action → ServerStream → ServerStream
  unfolding act
  act_all [] s = s
  act_all (a ∷ rest) s = act_all rest ((act a s).1)
