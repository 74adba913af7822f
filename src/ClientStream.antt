-- ===== src/ClientStream.antt =====
-- stream_wrapper.go: `serverStreamClientWrapper`, by which a caller reads a server stream into
-- messages of protobuf. `decode` is proto.Unmarshal into the caller's message, with the error if it
-- fails. The wait on the channel of the call is as in the invokers.
pub mod Reading
pub mod Opening
use totem.Base.{
  ℕ, Bool, true, false, Option, none, some, List, [], ◌∷◌, ◌++◌, Text, Bytes, codes, if◌then◌else◌,
}
use totem.Base.Go.{Go, returns, panics, ◌>>=◌}
use totem.Wire.{
  Rpc, Content, request, response, server_stream_msg, ServerStreamMessage, Response, get_bytes,
}
use totem.Status.{
  Err, eof, status, wrapped, plain, StatusApi, get_status, Result, ok, err, code_internal,
}
use totem.Metadata.{Pairs, to_md, from_md}
use totem.Context.{Ctx, Tracing}
use totem.Controller.{Controller}
use totem.Controller.Sending.{issue}
use totem.Invokers.{Wait, gets, gives_up}

-- `header` is what was put on `headerC`, `finished` the error that the callbacks were called with.
pub record ClientStream : Type 0 where
  pub buffered_first_msg : Option Bytes
  pub header : Option Pairs
  pub trailer : Option Pairs
  pub finished : Option (Option Err)

abbrev pub new_client_stream : ClientStream
new_client_stream = record {
  buffered_first_msg = none;
  header = none;
  trailer = none;
  finished = none;
}

-- What `RecvMsg` comes to: the bytes decoded into the caller's message, or an error.
pub data Received : Type 0 where
  got : Bytes → Received
  fails : Err → Received

-- `onFinishedOnce`
finish : Option Err → ClientStream → ClientStream
finish e cs = elim cs.finished [ none ↦ record cs { finished = some e } | some _ ↦ cs ]

-- `writeHeadersOnce`
write_headers : Pairs → ClientStream → ClientStream
write_headers md cs = elim cs.header [ none ↦ record cs { header = some md } | some _ ↦ cs ]

nil_pointer : Text
nil_pointer = codes "invalid memory address or nil pointer dereference"

take_trailer : Rpc → ClientStream → ClientStream
take_trailer m cs = elim m.metadata [
  | none ↦ cs
  | some md ↦ record cs { trailer = some (to_md (some md)) }
]

module _ (api : StatusApi) (decode : Bytes → Option Err) where
  decoded : Bytes → Received
  decoded body = elim (decode body) [
    | none ↦ got body
    | some e ↦ fails (wrapped (codes "[totem] malformed response: ") e)
  ]

  recv_stream_msg : Option ServerStreamMessage → ClientStream → Go (Received × ClientStream)
  unfolding decoded write_headers nil_pointer
  recv_stream_msg none cs = panics nil_pointer
  recv_stream_msg (some msg) cs =
      returns (decoded msg.response, write_headers (to_md msg.headers) cs)

  recv_response : Rpc → Option Response → ClientStream → Received × ClientStream
  unfolding decoded finish take_trailer
  recv_response m resp cs = elim (api.err_of (get_status resp)) [
    | some e ↦ (fails e, finish (some e) cs)
    | none ↦ (decoded (get_bytes resp), take_trailer m cs)
  ]

  recv_content : Option Content → Rpc → ClientStream → Go (Received × ClientStream)
  unfolding recv_stream_msg recv_response
  recv_content (some (server_stream_msg msg)) m cs = recv_stream_msg msg cs
  recv_content (some (response resp)) m cs = returns (recv_response m resp cs)
  recv_content _ m cs = returns (fails (plain (codes "[totem] unexpected response type")), cs)

  recv_msg : Wait → ClientStream → Go (Received × ClientStream)
  unfolding recv_content finish
  recv_msg (gets none) cs = returns (fails eof, finish none cs)
  recv_msg (gets (some m)) cs = recv_content m.content m cs
  recv_msg (gives_up e) cs = returns (fails e, cs)

  -- calls of `RecvMsg`, one for each end of a wait
  unfoldable pub recv_all : List Wait → ClientStream → Go (List Received × ClientStream)
  unfolding recv_msg
  recv_all [] cs = returns ([], cs)
  recv_all (w ∷ ws) cs = do
    one ← recv_msg w cs
    rest ← recv_all ws one.1
    returns (one.0 ∷ rest.0, rest.1)

-- `SendMsg`: only one message goes out, and a nil buffer stands for none
-- The buffer takes what the marshalling returned in any case, its error or not.
unfoldable pub buffer_msg : Option Bytes → Option Err → ClientStream → Option Err × ClientStream
buffer_msg body failure cs = elim cs.buffered_first_msg [
  | some _ ↦ (
    some (
        status (record {
          code = code_internal;
          message = codes "unexpected call to SendMsg on server-streaming RPC";
        })),
    cs,
  )
  | none ↦ (failure, record cs { buffered_first_msg = body })
]

-- `CloseSend` sends the request of the stream: it is a call of `Request`.
unfoldable pub close_send : Tracing → Ctx → Text → Text → ClientStream → Controller → Controller
unfolding issue
close_send tracing ctx service method cs c =
    issue tracing ctx
      (record {
        tag = 0;
        service_name = service;
        method_name = method;
        content = some (request (elim cs.buffered_first_msg [ none ↦ [] | some b ↦ b ]));
        metadata = from_md (some (elim ctx.outgoing [ none ↦ [] | some md ↦ md ]));
      })
      c
