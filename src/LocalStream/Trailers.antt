-- ===== src/LocalStream/Trailers.antt =====
-- The trailers of a local stream: what its handler set, joined in order.
use totem.Base.{
  ◌≡◌, refl, ◌∙◌, ap, Option, some, List, [], ◌∷◌, Text, Bytes, Bool-cases, Option-cases, inl, inr,
}
use totem.Status.{Err, Result, ok, err}
use totem.Metadata.{Pairs}
use totem.Metadata.Validation.{validate_metadata}
use totem.LocalStream.{
  ServerStream, Action, sets_header, sends_header, sets_trailer, sends_msg, write, or_empty,
  set_header, send_header, set_trailer, send_msg, act, act_all,
}

-- what a handler passes to SetTrailer, less the empty ones
abbrev pub trailers_set : List Action → List Pairs
trailers_set [] = []
trailers_set (sets_trailer (p ∷ md) ∷ rest) = (p ∷ md) ∷ trailers_set rest
trailers_set (_ ∷ rest) = trailers_set rest

module _ (join : Pairs → Pairs → Pairs) where
  -- metadata joined on to some that is there
  abbrev pub join_on : Option Pairs → List Pairs → Option Pairs
  join_on md [] = md
  join_on md (more ∷ rest) = join_on (some (join (or_empty md) more)) rest

module _ (join : Pairs → Pairs → Pairs) (quote : Text → Text) (error_text : Err → Text) where
  set_header-trailers :
      (md : Pairs) (s : ServerStream)
      → (set_header join quote error_text md s).1.trailers ≡ s.trailers
  unfolding set_header
  set_header-trailers [] s = refl
  set_header-trailers (p ∷ md) s = elim (Option-cases (validate_metadata quote (p ∷ md))) [
    | inl e ↦ rw (e, set_header) refl
    | inr (x, e) ↦ rw (e, set_header) refl
  ]

  send_header-trailers :
      (md : Pairs) (s : ServerStream)
      → (send_header join quote error_text md s).1.trailers ≡ s.trailers
  unfolding send_header write
  send_header-trailers md s =
      let same = set_header-trailers md s in
      elim (Option-cases (set_header join quote error_text md s).0) [
        | inr (x, e) ↦ rw (e, send_header) same
        | inl e ↦ elim (Bool-cases (set_header join quote error_text md s).1.wrote_headers) [
          | inl w ↦ rw (e, send_header, w) same
          | inr w ↦ rw (e, send_header, w) same
        ]
      ]

  send_msg-trailers :
      (m : Result Bytes) (s : ServerStream)
      → (send_msg join quote error_text m s).1.trailers ≡ s.trailers
  unfolding send_msg write
  send_msg-trailers (err e) s = refl
  send_msg-trailers (ok body) s = elim (Bool-cases s.wrote_headers) [
    | inl w ↦ rw (w, send_msg) refl
    | inr w ↦ rw (w, send_msg) refl
  ]

  pub act_all-trailers :
      (actions : List Action) (s : ServerStream)
      → (act_all join quote error_text actions s).trailers
        ≡ join_on join s.trailers (trailers_set actions)
  unfolding act_all act set_trailer
  act_all-trailers [] s = refl
  act_all-trailers (sets_header md ∷ rest) s =
      act_all-trailers rest _
      ∙ ap (λ t. join_on join t (trailers_set rest)) (set_header-trailers md s)
  act_all-trailers (sends_header md ∷ rest) s =
      act_all-trailers rest _
      ∙ ap (λ t. join_on join t (trailers_set rest)) (send_header-trailers md s)
  act_all-trailers (sends_msg m ∷ rest) s =
      act_all-trailers rest _ ∙ ap (λ t. join_on join t (trailers_set rest)) (send_msg-trailers m s)
  act_all-trailers (sets_trailer [] ∷ rest) s = act_all-trailers rest s
  act_all-trailers (sets_trailer (p ∷ md) ∷ rest) s = act_all-trailers rest _
