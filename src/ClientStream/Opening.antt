-- ===== src/ClientStream/Opening.antt =====
-- How a caller opens a server stream, and what the handler of the stream reads.
use totem.Base.{◌≡◌, refl, Option, none, some, [], ◌∷◌, ◌++◌, Text, Bytes, ap, sym}
use totem.Wire.{Rpc}
use totem.Status.{Err, ok}
use totem.Context.{Ctx, Tracing}
use totem.Controller.{Controller}
use totem.Controller.Sending.{next_tag, issue}
use totem.ClientStream.{ClientStream, buffer_msg, close_send}
use totem.LocalStream.{recv_request}

-- A caller that puts in one message by `SendMsg` and calls `CloseSend` sends one request more, under
-- the next tag and for the stream's method, and from it the handler's `RecvMsg` reads the bytes of
-- that message, if they decode.
pub close_send-recv_request :
    (decode : Bytes → Option Err) (tracing : Tracing) (ctx : Ctx) (service method : Text)
    (cs cs' : ClientStream) (body : Bytes) (c : Controller)
    → buffer_msg (some body) none cs ≡ (none, cs')
    → cs.buffered_first_msg ≡ none
    → decode body ≡ none
    → (m : Rpc) × ((close_send tracing ctx service method cs' c).waiting ≡ c.waiting ++ m ∷ [])
      × (m.tag ≡ next_tag c)
      × (m.service_name ≡ service)
      × (m.method_name ≡ method)
      × (recv_request decode m ≡ ok body)
unfolding buffer_msg close_send recv_request issue
close_send-recv_request decode tracing ctx service method cs cs' body c e fresh fits =
    let put : record cs { buffered_first_msg = some body } ≡ cs' = ap (λ p. p.1) (rw fresh at e) in
    let b : cs'.buffered_first_msg ≡ some body = sym (ap (λ x. x.buffered_first_msg) put) in
    (_, refl, refl, refl, refl, rw (recv_request, b, fits) (rw b refl))
