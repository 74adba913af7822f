-- ===== src/ClientStream/Reading.antt =====
-- What a caller reads of a server stream.
use totem.Base.{
  ℕ, ◌≡◌, ◌≢◌, ◌∙◌, refl, ap, Option, none, some, List, [], ◌∷◌, ◌++◌, map, All, Option-cases, inl,
  inr, Bytes,
}
use totem.Base.Go.{returns, ◌>>=◌}
use totem.Wire.{Rpc, response, server_stream_msg, ServerStreamMessage, Response, get_bytes}
use totem.Status.{Err, eof, status, StatusApi, get_status}
use totem.Metadata.{Pairs, to_md}
use totem.Invokers.{Wait, gets}
use totem.ClientStream.{
  ClientStream, new_client_stream, Received, got, fails, finish, write_headers, take_trailer,
  decoded, recv_stream_msg, recv_response, recv_content, recv_msg, recv_all,
}

-- the stream message as it comes over the wire
abbrev pub carried : ℕ → ServerStreamMessage → Rpc
carried tag x = record {
  tag = tag;
  service_name = [];
  method_name = [];
  content = some (server_stream_msg (some x));
  metadata = none;
}

abbrev pub arrivals : ℕ → List ServerStreamMessage → List Wait
arrivals tag xs = map (λ x. gets (some (carried tag x))) xs

abbrev pub bodies : List ServerStreamMessage → List Received
bodies xs = map (λ x. got x.response) xs

-- after stream messages, the stream has the first one's headers
headed : List ServerStreamMessage → ClientStream → ClientStream
headed [] cs = cs
headed (x ∷ xs) cs = headed xs (write_headers (to_md x.headers) cs)

write_headers-trailer :
    (md : Pairs) (cs : ClientStream) → (write_headers md cs).trailer ≡ cs.trailer
unfolding write_headers
write_headers-trailer md cs = elim (Option-cases cs.header) [
  | inl e ↦ rw (e, write_headers) refl
  | inr (h, e) ↦ rw (e, write_headers) refl
]

headed-trailer :
    (xs : List ServerStreamMessage) (cs : ClientStream) → (headed xs cs).trailer ≡ cs.trailer
unfolding headed
headed-trailer [] cs = refl
headed-trailer (x ∷ xs) cs =
    headed-trailer xs (write_headers (to_md x.headers) cs)
    ∙ write_headers-trailer (to_md x.headers) cs

finish-trailer : (e : Option Err) (cs : ClientStream) → (finish e cs).trailer ≡ cs.trailer
unfolding finish
finish-trailer e cs = elim (Option-cases cs.finished) [
  | inl n ↦ rw (n, finish) refl
  | inr (h, n) ↦ rw (n, finish) refl
]

module _ (api : StatusApi) (decode : Bytes → Option Err) where
  recv_all-next :
      (w : Wait) (ws : List Wait) (cs mid out : ClientStream) (r : Received) (rs : List Received)
      → recv_msg api decode w cs ≡ returns (r, mid)
      → recv_all api decode ws mid ≡ returns (rs, out)
      → recv_all api decode (w ∷ ws) cs ≡ returns (r ∷ rs, out)
  unfolding recv_all
  recv_all-next w ws cs mid out r rs one rest = rw (one, ◌>>=◌, rest) refl

  recv_all-nil : (cs : ClientStream) → recv_all api decode [] cs ≡ returns ([], cs)
  unfolding recv_all
  recv_all-nil cs = refl

  recv_carried :
      (tag : ℕ) (x : ServerStreamMessage) (cs : ClientStream)
      → decode x.response ≡ none
      → recv_msg api decode (gets (some (carried tag x))) cs
        ≡ returns (got x.response, write_headers (to_md x.headers) cs)
  unfolding recv_msg recv_content recv_stream_msg decoded
  recv_carried tag x cs readable = rw (readable, decoded) refl

  recv_arrivals :
      (tag : ℕ) (xs : List ServerStreamMessage) (ws : List Wait) (rs : List Received)
      (cs out : ClientStream)
      → All (λ x. decode x.response ≡ none) xs
      → recv_all api decode ws (headed xs cs) ≡ returns (rs, out)
      → recv_all api decode (arrivals tag xs ++ ws) cs ≡ returns (bodies xs ++ rs, out)
  unfolding headed
  recv_arrivals tag [] ws rs cs out readable h = h
  recv_arrivals tag (x ∷ xs) ws rs cs out (one, rest) h =
      recv_all-next (gets (some (carried tag x))) (arrivals tag xs ++ ws) cs
        (write_headers (to_md x.headers) cs) out (got x.response) (bodies xs ++ rs)
        (recv_carried tag x cs one)
        (recv_arrivals tag xs ws rs (write_headers (to_md x.headers) cs) out rest h)

  recv_final :
      (m : Rpc) (resp : Option Response) (cs : ClientStream)
      → m.content ≡ some (response resp)
      → recv_msg api decode (gets (some m)) cs ≡ returns (recv_response api decode m resp cs)
  unfolding recv_msg recv_content
  recv_final m resp cs e = rw (e, recv_content) refl

  response_ok :
      (m : Rpc) (resp : Option Response) (cs : ClientStream)
      → (get_status resp).code ≡ 0
      → decode (get_bytes resp) ≡ none
      → recv_response api decode m resp cs ≡ (got (get_bytes resp), take_trailer m cs)
  unfolding recv_response decoded
  response_ok m resp cs zero readable =
      rw (api.err_of_ok (get_status resp) zero, recv_response, readable, decoded) refl

  response_failed :
      (m : Rpc) (resp : Option Response) (cs : ClientStream)
      → (get_status resp).code ≢ 0
      → recv_response api decode m resp cs
        ≡ (fails (status (get_status resp)), finish (some (status (get_status resp))) cs)
  unfolding recv_response
  response_failed m resp cs ne = rw (api.err_of_ne (get_status resp) ne, recv_response) refl

  module _ (tag : ℕ) (xs : List ServerStreamMessage) (final : Rpc) (resp : Option Response)
      (readable : All (λ x. decode x.response ≡ none) xs)
      (is_final : final.content ≡ some (response resp)) where
    -- A stream that ends well is read as one message more than were sent: after the stream messages,
    -- the bytes of the response come as a message of their own, and only then io.EOF.
    pub ended_stream_reading :
        (cs : ClientStream)
        → (get_status resp).code ≡ 0
        → decode (get_bytes resp) ≡ none
        → (out : ClientStream) × (recv_all api decode
              (arrivals tag xs ++ gets (some final) ∷ gets none ∷ [])
              cs
            ≡ returns (bodies xs ++ got (get_bytes resp) ∷ fails eof ∷ [], out))
    unfolding recv_msg
    ended_stream_reading cs zero good =
        let mid = take_trailer final (headed xs cs) in
        let out = finish none mid in
        (
          out,
          recv_arrivals tag xs (gets (some final) ∷ gets none ∷ [])
              (got (get_bytes resp) ∷ fails eof ∷ []) cs out readable
              (recv_all-next (gets (some final)) (gets none ∷ []) (headed xs cs) mid out
                (got (get_bytes resp)) (fails eof ∷ [])
                (recv_final final resp (headed xs cs) is_final
                  ∙ ap returns (response_ok final resp (headed xs cs) zero good))
                (recv_all-next (gets none) [] mid out out (fails eof) [] refl (recv_all-nil out))),
        )

    -- A stream that fails is read as the stream messages and then the error with the status of its
    -- response; and whatever metadata the response has, the caller finds no trailer.
    pub failed_stream_reading :
        (get_status resp).code ≢ 0
        → (out : ClientStream) × (recv_all api decode
              (arrivals tag xs ++ gets (some final) ∷ [])
              new_client_stream
            ≡ returns (bodies xs ++ fails (status (get_status resp)) ∷ [], out))
          × (out.trailer ≡ none)
    failed_stream_reading ne =
        let cs = headed xs new_client_stream in
        let out = finish (some (status (get_status resp))) cs in
        (
          out,
          recv_arrivals tag xs (gets (some final) ∷ []) (fails (status (get_status resp)) ∷ [])
              new_client_stream out readable
              (recv_all-next (gets (some final)) [] cs out out (fails (status (get_status resp))) []
                (recv_final final resp cs is_final ∙ ap returns (response_failed final resp cs ne))
                (recv_all-nil out)),
          finish-trailer (some (status (get_status resp))) cs ∙ headed-trailer xs new_client_stream,
        )
