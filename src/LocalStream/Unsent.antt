-- ===== src/LocalStream/Unsent.antt =====
-- The headers of a local stream on their way to the caller.
use totem.Base.{
  ◌≡◌, refl, sym, subst, none, some, List, [], ◌∷◌, Text, Bytes, All, All-append, Bool-cases,
  Option-cases, inl, inr,
}
use totem.Wire.{Rpc, get_headers, stream_msg_of}
use totem.Status.{Err, Result, ok, err}
use totem.Metadata.{Pairs, from_md}
use totem.Metadata.Validation.{validate_metadata}
use totem.LocalStream.{
  ServerStream, Action, sets_header, sends_header, sets_trailer, sends_msg, message, write,
  set_header, send_header, set_trailer, send_msg, act, act_all,
}

-- The stream message has no headers in the field that its reader looks at.
abbrev pub IsBare : Rpc → Type 0
IsBare m = get_headers (stream_msg_of m.content) ≡ none

write-IsBare :
    (m : Rpc) (s : ServerStream) → IsBare m → All IsBare s.written → All IsBare (write m s).written
unfolding write
write-IsBare m s b h =
    All-append IsBare s.written (record m { metadata = from_md s.headers } ∷ []) h (b, tt)

module _ (join : Pairs → Pairs → Pairs) (quote : Text → Text) (error_text : Err → Text) where
  set_header-written :
      (md : Pairs) (s : ServerStream)
      → (set_header join quote error_text md s).1.written ≡ s.written
  unfolding set_header
  set_header-written [] s = refl
  set_header-written (p ∷ md) s = elim (Option-cases (validate_metadata quote (p ∷ md))) [
    | inl e ↦ rw (e, set_header) refl
    | inr (x, e) ↦ rw (e, set_header) refl
  ]

  send_header-IsBare :
      (md : Pairs) (s : ServerStream)
      → All IsBare s.written
      → All IsBare (send_header join quote error_text md s).1.written
  unfolding send_header
  send_header-IsBare md s h =
      let h' = subst (All IsBare) (sym (set_header-written md s)) h in
      elim (Option-cases (set_header join quote error_text md s).0) [
        | inr (x, e) ↦ rw (e, send_header) h'
        | inl e ↦ elim (Bool-cases (set_header join quote error_text md s).1.wrote_headers) [
          | inl w ↦ rw (e, send_header, w) h'
          | inr w ↦
              rw (e, send_header, w)
                (write-IsBare (message none) (set_header join quote error_text md s).1 refl h')
        ]
      ]

  send_msg-IsBare :
      (m : Result Bytes) (s : ServerStream)
      → All IsBare s.written
      → All IsBare (send_msg join quote error_text m s).1.written
  unfolding send_msg
  send_msg-IsBare (err e) s h = h
  send_msg-IsBare (ok body) s h = elim (Bool-cases s.wrote_headers) [
    | inl w ↦
        rw (w, send_msg)
          (All-append IsBare s.written
            (message (some (record { headers = none; response = body })) ∷ []) h (refl, tt))
    | inr w ↦
        rw (w, send_msg)
          (write-IsBare (message (some (record { headers = none; response = body }))) s refl h)
  ]

  set_trailer-IsBare :
      (md : Pairs) (s : ServerStream)
      → All IsBare s.written
      → All IsBare (set_trailer join quote error_text md s).written
  unfolding set_trailer
  set_trailer-IsBare [] s h = h
  set_trailer-IsBare (p ∷ md) s h = h

  -- Whatever headers a handler sets or sends on its stream, no message that it writes has them in the
  -- field `Headers`, the only one from which the caller's end of the stream takes headers.
  pub act_all-headers :
      (todo : List Action) (s : ServerStream)
      → All IsBare s.written
      → All IsBare (act_all join quote error_text todo s).written
  unfolding act_all act
  act_all-headers [] s h = h
  act_all-headers (sets_header md ∷ rest) s h =
      act_all-headers rest _ (subst (All IsBare) (sym (set_header-written md s)) h)
  act_all-headers (sends_header md ∷ rest) s h = act_all-headers rest _ (send_header-IsBare md s h)
  act_all-headers (sets_trailer md ∷ rest) s h = act_all-headers rest _ (set_trailer-IsBare md s h)
  act_all-headers (sends_msg m ∷ rest) s h = act_all-headers rest _ (send_msg-IsBare m s h)
