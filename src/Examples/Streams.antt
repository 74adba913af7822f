-- ===== src/Examples/Streams.antt =====
-- Streams of a local service, of another controller and of a caller, and calls of a client.
use totem.Base.{
  All, ◌≡◌, ◌≢◌, refl, Option, none, some, List, [], ◌∷◌, ◌++◌, inl, Text, Bytes, codes, arith,
}
use totem.Base.Go.{returns}
use totem.Wire.{Rpc, Status, Response, ServerStreamMessage, response}
use totem.Status.{Err, eof, status, ok, err, code_not_found, get_status, ok_status}
use totem.Metadata.{Pairs, from_md}
use totem.Controller.Sending.{reply_message, reply_err_message}
use totem.Controller.Dispatch.{exit_reply, stream_replies}
use totem.Controller.Dispatch.Relay.{streamed}
use totem.LocalStream.{
  Action, sets_header, sends_header, sets_trailer, sends_msg, new_server_stream, act_all,
  recv_request,
}
use totem.LocalStream.Unsent.{IsBare, act_all-headers}
use totem.LocalStream.Headers.{IsWritten, act_all-IsWritten}
use totem.Invokers.{LocalInvoker, StreamHandler, gets, remote_result, remote_stream}
use totem.Invokers.Answers.{remote_result-reply_message, remote_stream-Conversation}
use totem.ClientStream.{
  ClientStream, new_client_stream, got, fails, recv_all, buffer_msg, close_send,
}
use totem.ClientStream.Opening.{close_send-recv_request}
use totem.ClientStream.Reading.{arrivals, bodies, ended_stream_reading, failed_stream_reading}
use totem.Examples.{grpc_status, no_tracing, background, fresh, answer, part}

abbrev join_md : Pairs → Pairs → Pairs
join_md a b = a ++ b

abbrev no_quote : Text → Text
no_quote t = t

abbrev no_text : Err → Text
no_text e = []

abbrev missing : Status
missing = record { code = code_not_found; message = [] }

missing-ne : missing.code ≢ 0
missing-ne = λ e. ground arith

abbrev one_header : Pairs
one_header = (codes "h", codes "1" ∷ []) ∷ []

-- a handler that sets a header and a trailer, sends two messages and fails
abbrev actions : List Action
actions =
    sets_header one_header
    ∷ sends_msg (ok (1 ∷ []))
    ∷ sets_trailer one_header
    ∷ sends_header one_header
    ∷ sends_msg (ok (2 ∷ []))
    ∷ []

abbrev failing : StreamHandler
failing ctx req = record { actions = actions; failure = some (status missing) }

abbrev streamer : LocalInvoker
streamer = record { methods = []; streams = (codes "m", failing) ∷ []; flags = 1 }

act_all-IsWritten_example : IsWritten (act_all join_md no_quote no_text actions new_server_stream)
act_all-IsWritten_example =
    act_all-IsWritten join_md no_quote no_text actions new_server_stream (inl (refl, refl))

act_all-headers_example :
    All IsBare (act_all join_md no_quote no_text actions new_server_stream).written
act_all-headers_example = act_all-headers join_md no_quote no_text actions new_server_stream tt

remote_result-reply_message_example :
    (remote_result grpc_status (gets (some (reply_message no_tracing background 1 (5 ∷ []))))
      ≡ ok (5 ∷ []))
    × (remote_result grpc_status (
          gets
            (some (reply_err_message grpc_status no_tracing background 1 (some (status missing)))))
        ≡ err (status missing))
remote_result-reply_message_example =
    remote_result-reply_message grpc_status no_tracing background 1 (5 ∷ []) missing missing-ne

remote_stream-Conversation_example :
    stream_replies grpc_status background (remote_stream (part 1 ∷ part 1 ∷ answer 1 ∷ []))
    ≡ streamed (part 1 ∷ part 1 ∷ []) ++ exit_reply grpc_status background (some (answer 1))
remote_stream-Conversation_example =
    remote_stream-Conversation grpc_status background 1 (part 1 ∷ part 1 ∷ answer 1 ∷ [])
      (part 1 ∷ part 1 ∷ []) (answer 1) refl ((refl, refl), ((refl, refl), tt)) (refl, refl)

abbrev readable : Bytes → Option Err
readable b = none

abbrev two_messages : List ServerStreamMessage
two_messages =
    record { headers = none; response = 1 ∷ [] } ∷ record { headers = none; response = 2 ∷ [] } ∷ []

abbrev failure_response : Response
failure_response = record { response = []; status_proto = some missing }

abbrev failed_answer : Rpc
failed_answer = record (answer 1) {
  content = some (response (some failure_response));
  metadata = from_md (some one_header);
}

ended_stream_reading_example :
    (out : ClientStream) × (recv_all grpc_status readable
        (arrivals 1 two_messages ++ gets (some (answer 1)) ∷ gets none ∷ [])
        new_client_stream
      ≡ returns (bodies two_messages ++ got (2 ∷ []) ∷ fails eof ∷ [], out))
unfolding get_status
ended_stream_reading_example =
    ended_stream_reading grpc_status readable 1 two_messages (answer 1)
      (some (record { response = 2 ∷ []; status_proto = some ok_status })) (refl, (refl, tt)) refl
      new_client_stream refl refl

failed_stream_reading_example :
    (out : ClientStream) × (recv_all grpc_status readable
        (arrivals 1 two_messages ++ gets (some failed_answer) ∷ [])
        new_client_stream
      ≡ returns (bodies two_messages ++ fails (status missing) ∷ [], out))
    × (out.trailer ≡ none)
unfolding get_status
failed_stream_reading_example =
    failed_stream_reading grpc_status readable 1 two_messages failed_answer (some failure_response)
      (refl, (refl, tt)) refl missing-ne

abbrev opened : ClientStream
opened = record new_client_stream { buffered_first_msg = some (7 ∷ []) }

close_send-recv_request_example :
    (m : Rpc) × ((close_send no_tracing background (codes "s") (codes "w") opened fresh).waiting
      ≡ [] ++ m ∷ [])
    × (m.tag ≡ 1)
    × (m.service_name ≡ codes "s")
    × (m.method_name ≡ codes "w")
    × (recv_request readable m ≡ ok (7 ∷ []))
unfolding buffer_msg
close_send-recv_request_example =
    close_send-recv_request readable no_tracing background (codes "s") (codes "w") new_client_stream
      opened (7 ∷ []) fresh refl refl refl
