-- ===== src/LocalStream/Headers.antt =====
-- What a handler writes on its stream.
use totem.Base.{
  ◌≡◌, refl, true, false, none, some, List, [], ◌∷◌, ◌++◌, Text, Bytes, All, All-append, Bool-cases,
  Option-cases, ◌⊎◌, inl, inr,
}
use totem.Wire.{Rpc}
use totem.Status.{Err, Result, ok, err}
use totem.Metadata.{Pairs}
use totem.Metadata.Validation.{validate_metadata}
use totem.Controller.Receiving.Channels.{is_stream_msg}
use totem.LocalStream.{
  ServerStream, Action, sets_header, sends_header, sets_trailer, sends_msg, message, write,
  set_header, send_header, set_trailer, send_msg, act, act_all,
}

-- A stream message without metadata.
abbrev pub IsPlain : Rpc → Type 0
IsPlain m = (is_stream_msg m.content ≡ true) × (m.metadata ≡ none)

-- Only the first message may have metadata.
abbrev pub IsHeaded : List Rpc → Type 0
IsHeaded [] = Unit
IsHeaded (m ∷ ms) = (is_stream_msg m.content ≡ true) × All IsPlain ms

-- Nothing was written yet, or what was written is headed.
abbrev pub IsWritten : ServerStream → Type 0
IsWritten s =
    ((s.wrote_headers ≡ false) × (s.written ≡ [])) ⊎ ((s.wrote_headers ≡ true) × IsHeaded s.written)

IsHeaded-append : (ms ns : List Rpc) → IsHeaded ms → All IsPlain ns → IsHeaded (ms ++ ns)
IsHeaded-append [] [] h k = tt
IsHeaded-append [] (n ∷ ns) h (k, ks) = (k.0, ks)
IsHeaded-append (m ∷ ms) ns (h, hs) k = (h, All-append IsPlain ms ns hs k)

write-IsWritten :
    (m : Rpc) (s : ServerStream)
    → is_stream_msg m.content ≡ true
    → s.wrote_headers ≡ false
    → IsWritten s
    → IsWritten (write m s)
unfolding write
write-IsWritten m s good fresh (inl (_, e)) = inr (refl, rw e (good, tt))
write-IsWritten m s good fresh (inr (e, _)) = cc

module _ (join : Pairs → Pairs → Pairs) (quote : Text → Text) (error_text : Err → Text) where
  set_header-IsWritten :
      (md : Pairs) (s : ServerStream)
      → IsWritten s
      → IsWritten (set_header join quote error_text md s).1
  unfolding set_header
  set_header-IsWritten [] s w = w
  set_header-IsWritten (p ∷ md) s w = elim (Option-cases (validate_metadata quote (p ∷ md))) [
    | inl e ↦ rw (e, set_header) w
    | inr (x, e) ↦ rw (e, set_header) w
  ]

  send_header-IsWritten :
      (md : Pairs) (s : ServerStream)
      → IsWritten s
      → IsWritten (send_header join quote error_text md s).1
  unfolding send_header
  send_header-IsWritten md s w =
      let w' = set_header-IsWritten md s w in
      elim (Option-cases (set_header join quote error_text md s).0) [
        | inr (x, e) ↦ rw (e, send_header) w'
        | inl e ↦ elim (Bool-cases (set_header join quote error_text md s).1.wrote_headers) [
          | inl h ↦ rw (e, send_header, h) w'
          | inr h ↦
              rw (e, send_header, h)
                (write-IsWritten (message none) (set_header join quote error_text md s).1 refl h w')
        ]
      ]

  set_trailer-IsWritten :
      (md : Pairs) (s : ServerStream)
      → IsWritten s
      → IsWritten (set_trailer join quote error_text md s)
  unfolding set_trailer
  set_trailer-IsWritten [] s w = w
  set_trailer-IsWritten (p ∷ md) s w = w

  send_msg-IsWritten :
      (m : Result Bytes) (s : ServerStream)
      → IsWritten s
      → IsWritten (send_msg join quote error_text m s).1
  unfolding send_msg
  send_msg-IsWritten (err e) s w = w
  send_msg-IsWritten (ok body) s (inl (fresh, e)) =
      rw (fresh, send_msg)
        (write-IsWritten (message (some (record { headers = none; response = body }))) s refl fresh
          (inl (fresh, e)))
  send_msg-IsWritten (ok body) s (inr (wrote, h)) =
      rw (wrote, send_msg)
        (inr (
          refl,
          IsHeaded-append s.written
              (message (some (record { headers = none; response = body })) ∷ []) h
              ((refl, refl), tt),
        ))

  -- After any actions of a handler on its stream, all that is written are stream messages, and only
  -- the first has metadata: headers are sent at most once and before all else. Once a message is
  -- written, no more headers are.
  pub act_all-IsWritten :
      (todo : List Action) (s : ServerStream)
      → IsWritten s
      → IsWritten (act_all join quote error_text todo s)
  unfolding act_all act
  act_all-IsWritten [] s w = w
  act_all-IsWritten (sets_header md ∷ rest) s w =
      act_all-IsWritten rest _ (set_header-IsWritten md s w)
  act_all-IsWritten (sends_header md ∷ rest) s w =
      act_all-IsWritten rest _ (send_header-IsWritten md s w)
  act_all-IsWritten (sets_trailer md ∷ rest) s w =
      act_all-IsWritten rest _ (set_trailer-IsWritten md s w)
  act_all-IsWritten (sends_msg m ∷ rest) s w = act_all-IsWritten rest _ (send_msg-IsWritten m s w)
