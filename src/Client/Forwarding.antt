-- ===== src/Client/Forwarding.antt =====
-- Calls of a client connection, plain and forwarded.
use totem.Base.{◌≡◌, refl, true, Option, some, [], ◌∷◌, ◌++◌, Text, Bytes}
use totem.Base.Go.{Go, returns, panics}
use totem.Wire.{Rpc, server_stream_msg, ServerStreamMessage, get_request, request}
use totem.Status.{Err, ok, StatusApi}
use totem.Metadata.{Pairs, from_md}
use totem.Context.{Ctx, Tracing, outgoing_md}
use totem.Controller.{Controller}
use totem.Controller.Sending.{issue, next_tag}
use totem.Invokers.{gets}
use totem.Client.{
  Argument, rpc_argument, ReplyKind, rpc_reply, forward_method, nil_response, prepare, resolve,
  build, request_for, traced, joined, context_md, unpack_response, status_error, unpack,
}

module _ (join : Pairs → Pairs → Pairs) (type_name : Argument → Text)
    (reply_type_name : ReplyKind → Text) (tracing : Tracing) where
  -- A message that is forwarded is sent with its own service, method and body, but with the metadata of
  -- the context of the call only: its own metadata, which `invoke` joined in, does not go out.
  pub forwarded_metadata_lost :
      (ctx : Ctx) (m : Rpc) (c : Controller)
      → (out : Rpc) × (prepare join type_name reply_type_name tracing ctx forward_method
            (rpc_argument m)
            rpc_reply
          ≡ returns (ok out))
        × ((issue tracing ctx out c).waiting
            ≡ c.waiting
              ++ record {
                tag = next_tag c;
                service_name = m.service_name;
                method_name = m.method_name;
                content = some (request (get_request (some m)));
                metadata = from_md (some (outgoing_md tracing ctx));
              }
                ∷ [])
  unfolding prepare resolve build request_for issue
  forwarded_metadata_lost ctx m c = (
    request_for join type_name reply_type_name tracing m.service_name m.method_name
        (get_request (some m))
        (traced join type_name reply_type_name tracing ctx (
          joined join type_name reply_type_name tracing
            (context_md join type_name reply_type_name tracing ctx) m.metadata)),
    refl,
    refl,
  )

module _ (api : StatusApi) (decode : Bytes → Option Err) where
  -- A forwarded call whose first answer is a stream message, since its method is server-streaming,
  -- panics: the code reads a field of the response, which is nil.
  pub forwarded_stream_panics :
      (kind : ReplyKind) (m : Rpc) (x : Option ServerStreamMessage)
      → m.content ≡ some (server_stream_msg x)
      → unpack api decode true kind (gets (some m)) ≡ panics nil_response
  unfolding unpack unpack_response status_error
  forwarded_stream_panics kind m x e = rw (e, unpack_response) refl
