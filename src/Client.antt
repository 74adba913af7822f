-- ===== src/Client.antt =====
-- clientconn.go: `ClientConn.invoke`, from the arguments to the request, and from the answer to the
-- caller's reply. The Go types of the arguments are told apart as the code does; `type_name` is `%T`.
-- The result of marshalling a message comes with it; `decode` is proto.Unmarshal into the reply.
pub mod Forwarding
use totem.Base.{
  ℕ, Bool, true, false, Option, none, some, List, [], ◌∷◌, ◌++◌, Text, Bytes, codes, same,
  if◌then◌else◌,
}
use totem.Base.Go.{Go, returns, panics, ◌>>=◌}
use totem.Wire.{Rpc, Content, request, Response, Md, get_request, get_response, get_metadata}
use totem.Status.{Err, plain, wrapped, Result, ok, err, StatusApi, get_status}
use totem.Metadata.{Pairs, to_md, from_md}
use totem.Method.{parse_qualified_method}
use totem.Context.{Ctx, Tracing}
use totem.Invokers.{Wait, gets, gives_up}

pub data Argument : Type 0 where
  rpc_argument : Rpc → Argument
  message_argument : Result Bytes → Argument
  other_argument : Argument

pub data ReplyKind : Type 0 where
  rpc_reply message_reply other_reply : ReplyKind

abbrev pub forward_method : Text
forward_method = codes "(forward)"

abbrev pub is_rpc : ReplyKind → Bool
is_rpc rpc_reply = true
is_rpc _ = false

abbrev pub nil_response : Text
nil_response = codes "invalid memory address or nil pointer dereference"

module _ (join : Pairs → Pairs → Pairs) (type_name : Argument → Text)
    (reply_type_name : ReplyKind → Text) (tracing : Tracing) where
  -- the service and the method before the switch on the request
  resolve : Text → Argument → ReplyKind → Result (Text × Text)
  resolve method arg kind =
      if same method forward_method
      then elim arg [
        | rpc_argument _ ↦
            if is_rpc kind
            then ok ([], [])
            else err (
                plain (
                  codes "[totem] invalid forwarding response type: "
                  ++ reply_type_name kind
                  ++ codes " (expected *totem.RPC)"))
        | other ↦ err (
            plain (
              codes "[totem] invalid forwarding request type: "
              ++ type_name other
              ++ codes " (expected *totem.RPC)"))
      ]
      else parse_qualified_method method

  traced : Ctx → Pairs → Pairs
  traced ctx md = if tracing.enabled then tracing.inject ctx md else md

  context_md : Ctx → Pairs
  context_md ctx = elim ctx.outgoing [ none ↦ [] | some md ↦ md ]

  joined : Pairs → Option Md → Pairs
  joined md none = md
  joined md (some m) = join md (to_md (some m))

  request_for : Text → Text → Bytes → Pairs → Rpc
  request_for service method body md = record {
    tag = 0;
    service_name = service;
    method_name = method;
    content = some (request body);
    metadata = from_md (some md);
  }

  build : Ctx → Argument → Text × Text → Go (Result Rpc)
  unfolding traced context_md joined request_for
  build ctx (rpc_argument m) (service, method) = returns (
      ok (
        request_for m.service_name m.method_name (get_request (some m))
          (traced ctx (joined (context_md ctx) m.metadata))))
  build ctx (message_argument (err e)) names = returns (err e)
  build ctx (message_argument (ok body)) (service, method) =
      returns (ok (request_for service method body (traced ctx (context_md ctx))))
  build ctx other_argument names =
      panics (codes "[totem] unsupported request type: " ++ type_name other_argument)

  -- the request that `invoke` hands to the controller
  unfoldable pub prepare : Ctx → Text → Argument → ReplyKind → Go (Result Rpc)
  unfolding resolve build
  prepare ctx method arg kind = elim (resolve method arg kind) [
    | err e ↦ returns (err e)
    | ok names ↦ build ctx arg names
  ]

-- What a caller finds: the metadata for its header and trailer options, and the reply, as a raw
-- response or as the bytes that were decoded.
pub record ClientReply : Type 0 where
  pub metadata : Pairs
  pub raw : Option Response
  pub decoded : Option Bytes

module _ (api : StatusApi) (decode : Bytes → Option Err) where
  unpack_response : ReplyKind → Option Rpc → Option Response → Go (Result ClientReply)
  unpack_response kind m none = panics nil_response
  unpack_response rpc_reply m (some resp) =
      returns (ok (record { metadata = to_md (get_metadata m); raw = some resp; decoded = none }))
  unpack_response message_reply m (some resp) = elim (decode resp.response) [
    | some e ↦ returns (err (wrapped (codes "[totem] malformed response: ") e))
    | none ↦ returns (
        ok (record { metadata = to_md (get_metadata m); raw = none; decoded = some resp.response }))
  ]
  unpack_response other_reply m (some resp) = panics (codes "[totem] unsupported request type")

  status_error : Bool → Option Rpc → Option Err
  status_error true m = none
  status_error false m = api.err_of (get_status (get_response m))

  -- The code reads `rpc.Tag` for its log, with an error and without.
  read_tag : Option Rpc → Go ℕ
  read_tag none = panics nil_response
  read_tag (some m) = returns m.tag

  -- from the end of the wait on
  unfoldable pub unpack : Bool → ReplyKind → Wait → Go (Result ClientReply)
  unfolding unpack_response status_error read_tag
  unpack forwarding kind (gives_up e) = returns (err e)
  unpack forwarding kind (gets m) = elim (status_error forwarding m) [
    | some e ↦ read_tag m >>= (λ tag. returns (err e))
    | none ↦ read_tag m >>= (λ tag. unpack_response kind m (get_response m))
  ]

-- `NewStream`, up to the stream that it makes for a service and a method
unfoldable pub new_stream : Bool → Text → Go (Result (Text × Text))
new_stream client_streams method =
    if client_streams
    then panics (codes "[totem] client streaming not implemented")
    else returns (parse_qualified_method method)
