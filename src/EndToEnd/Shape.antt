-- ===== src/EndToEnd/Shape.antt =====
-- What a worker sends for a request: messages under its tag, of which only the last can be a response.
use totem.Base.{
  ℕ, ◌≡◌, ◌⊎◌, inl, inr, refl, ap, subst, true, List, [], ◌∷◌, map, ◌==◌, Bool-cases, arith, ◌∙◌,
  Option-cases, get_elem?, length,
}
use totem.Wire.{Rpc}
use totem.Status.{StatusApi}
use totem.Context.{Tracing}
use totem.Controller.Sending.{reply_message, reply_err_message, stream_reply_message}
use totem.Controller.Receiving.Channels.{IsPart, IsFinal}
use totem.Controller.Receiving.Safety.{is_answer, is_response-answer, is_stream_msg-answer}
use totem.Controller.Dispatch.{Reply, reply, reply_err, stream_reply}
use totem.Controller.Dispatch.AtMostOnce.{AtMostOnce, request-AtMostOnce}
use totem.Controller.{Controller}
use totem.Controller.Receiving.{Event}
use totem.Controller.Receiving.Invariant.{tag_of}
use totem.Controller.Receiving.Runs.{IsFresh, IsFresh-Good}
use totem.EndToEnd.{Work, reply_rpc, replies_to, requests, answers, without}
use totem.EndToEnd.Requests.{requests-tag}

-- Stream messages under a tag, and behind them at most one response.
abbrev pub Shaped : ℕ → List Rpc → Type 0
Shaped tag [] = Unit
Shaped tag (m ∷ ms) = (IsPart tag m × Shaped tag ms) ⊎ (IsFinal tag m × (ms ≡ []))

module _ (api : StatusApi) (tracing : Tracing) where
  replies-Shaped :
      (tag : ℕ) (rs : List Reply) → AtMostOnce rs → Shaped tag (map (reply_rpc api tracing tag) rs)
  unfolding reply_rpc reply_message reply_err_message stream_reply_message
  replies-Shaped tag [] a = tt
  replies-Shaped tag (stream_reply m ∷ rs) a = inl ((refl, refl), replies-Shaped tag rs a)
  replies-Shaped tag (reply ctx b ∷ rs) a =
      inr ((refl, refl), ap (map (reply_rpc api tracing tag)) a)
  replies-Shaped tag (reply_err ctx e ∷ rs) a =
      inr ((refl, refl), ap (map (reply_rpc api tracing tag)) a)

  replies_to-Shaped : (w : Work) (msg : Rpc) → Shaped msg.tag (replies_to api tracing w msg)
  unfolding replies_to
  replies_to-Shaped w msg =
      replies-Shaped msg.tag _
        (request-AtMostOnce api w.empty_response w.invoke w.invoke_stream w.services w.ctx msg)

  -- What the workers say to a call is under the tag that its request went out with.
  pub answers-Shaped :
      (works : ℕ → Work) (es : List Event) (c : Controller)
      → IsFresh c
      → (a : ℕ) → Shaped (tag_of a) (answers api tracing works es c a)
  unfolding answers
  answers-Shaped works es c f a = elim (Option-cases (get_elem? (requests api tracing es c) a)) [
    | inl e ↦ rw (e, answers) tt
    | inr (m, e) ↦
        let tag =
          requests-tag api tracing es c a m (IsFresh-Good c f) e
          ∙ ap tag_of (omega (arith, ap length f.channels)) in
        rw (e, answers)
          (subst (λ t. Shaped t (replies_to api tracing (works a) m)) tag
            (replies_to-Shaped (works a) m))
  ]

Shaped-tail : (tag : ℕ) (m : Rpc) (ms : List Rpc) → Shaped tag (m ∷ ms) → Shaped tag ms
Shaped-tail tag m ms (inl (_, s)) = s
Shaped-tail tag m ms (inr (_, e)) = rw e tt

-- The next message is under the tag, and it is an answer.
pub Shaped-head :
    (tag : ℕ) (m : Rpc) (ms : List Rpc)
    → Shaped tag (m ∷ ms)
    → (m.tag ≡ tag) × (is_answer m.content ≡ true)
Shaped-head tag m ms (inl ((t, part), _)) = (t, is_stream_msg-answer m.content part)
Shaped-head tag m ms (inr ((t, final), _)) = (t, is_response-answer m.content final)

pub without-Shaped :
    (tag_of : ℕ → ℕ) (left : ℕ → List Rpc) (a : ℕ) (m : Rpc) (ms : List Rpc)
    → left a ≡ m ∷ ms
    → ((b : ℕ) → Shaped (tag_of b) (left b))
    → (b : ℕ) → Shaped (tag_of b) (without left a ms b)
without-Shaped tag_of left a m ms e s b = elim (Bool-cases (a == b)) [
  | inl hit ↦
      let p : a ≡ b = ground arith in
      rw (hit, ← p) (Shaped-tail (tag_of a) m ms (subst (Shaped (tag_of a)) e (s a)))
  | inr miss ↦ rw miss (s b)
]
