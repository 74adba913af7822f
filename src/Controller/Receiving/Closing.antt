-- ===== src/Controller/Receiving/Closing.antt =====
-- Which moves make a call and which close a channel.
use totem.Base.{
  ℕ, ◌≡◌, ◌∙◌, ◌+◌, sym, ap, subst, true, false, some, List, [], ◌∷◌, ◌++◌, arith, length,
  length-append, length-set, get_elem?, set, Bool-cases, ◌⊎◌, inl, inr, ◌==◌, nat_eq,
  get_elem?-set_ne, get_elem?-set_self, get_elem?-lt,
}
use totem.Wire.{Rpc}
use totem.Controller.{Chan, new_chan}
use totem.Controller.Receiving.Channels.{is_response, pushed, take-closed}
use totem.Controller.Receiving.Invariant.{Sound, tag_of, concat_cases}
use totem.Controller.Receiving.Answered.{Closed}
use totem.Controller.Receiving.Moves.{
  News, no_news, new_call, word, Move, idle, issued, streamed, answered, taken, Calls,
}
use totem.Controller.Receiving.Refinement.{pushed-Fits, shaped_at}

abbrev pub new_in : News → ℕ
new_in no_news = 0
new_in new_call = 1
new_in (word m) = 0

-- A closed channel after a write is the new one or was closed before.
set_closed :
    (channels : List Chan) (a b : ℕ) (ch out : Chan)
    → get_elem? channels b ≡ some ch
    → Closed (set channels b out) a
    → Closed channels a ⊎ ((b ≡ a) × (out.closed ≡ true))
set_closed channels a b ch out here (x, at_a, closed) = elim (Bool-cases (b == a)) [
  | inl hit ↦
      let p : b ≡ a = ground arith in
      let same : x ≡ out =
        cc (get_elem?-set_self channels b out (get_elem?-lt channels b ch here), at_a, p) in
      inr (p, ap (λ (y : Chan). y.closed) (sym same) ∙ closed)
  | inr miss ↦ inl (x, sym (get_elem?-set_ne channels b a out (ground arith)) ∙ at_a, closed)
]

concat-Closed :
    (channels : List Chan) (a : ℕ) → Closed (channels ++ new_chan ∷ []) a → Closed channels a
concat-Closed channels a (x, at_a, closed) = elim (concat_cases channels new_chan x a at_a) [
  | inl (_, same) ↦ cc
  | inr there ↦ (x, there, closed)
]

-- A channel that is closed after a move was closed before, or got its response by the move.
abbrev pub Answered : News → ℕ → Type 0
Answered said a = (m : Rpc) × (said ≡ word m) × (m.tag ≡ tag_of a) × (is_response m.content ≡ true)

pub Move-new-Closed :
    {said : News} {s t : Calls} {count : ℕ}
    → Move said s t
    → Sound count t.0 t.1
    → (a : ℕ) → Closed t.0 a
    → Closed s.0 a ⊎ Answered said a
Move-new-Closed (idle n e) k a z = inl (subst (λ (c : Calls). Closed c.0 a) e z)
Move-new-Closed {s = s} (issued n e) k a z =
    inl (concat-Closed s.0 a (subst (λ (c : Calls). Closed c.0 a) e z))
Move-new-Closed {s = s} (streamed b m ch n there here unclosed e) k a z =
    elim (set_closed s.0 a b ch _ here (subst (λ (c : Calls). Closed c.0 a) e z)) [
      | inl old ↦ inl old
      | inr (_, closed) ↦ cc
    ]
Move-new-Closed {s = s} (answered b m ch n there here unclosed e) k a z =
    elim (set_closed s.0 a b ch _ here (subst (λ (c : Calls). Closed c.0 a) e z)) [
      | inl old ↦ inl old
      | inr (hit, closed) ↦
          let (tag, final) = pushed-Fits true (tag_of b) m ch (
            shaped_at _ _ e k b (pushed true m ch)
              (get_elem?-set_self s.0 b (pushed true m ch) (get_elem?-lt s.0 b ch here))) in
          inr (m, n, tag ∙ ap tag_of hit, final)
    ]
Move-new-Closed {s = s} (taken b ch out n here t e) k a z =
    elim (set_closed s.0 a b ch out here (subst (λ (c : Calls). Closed c.0 a) e z)) [
      | inl old ↦ inl old
      | inr (hit, closed) ↦
          inl (ch, ap (get_elem? s.0) (sym hit) ∙ here, sym (take-closed ch out t) ∙ closed)
    ]

-- A move makes a call exactly if that is its news.
pub Move-counted :
    {said : News} {s t : Calls} → Move said s t → length t.0 ≡ length s.0 + new_in said
Move-counted (idle n e) = rw (e, n) (omega arith)
Move-counted {s = s} (issued n e) = rw (e, n) (length-append s.0 (new_chan ∷ []))
Move-counted {s = s} (streamed b m ch n there here unclosed e) =
    rw (e, n) (omega (arith, length-set s.0 b (pushed false m ch)))
Move-counted {s = s} (answered b m ch n there here unclosed e) =
    rw (e, n) (omega (arith, length-set s.0 b (pushed true m ch)))
Move-counted {s = s} (taken b ch out n here t e) = rw (e, n) (omega (arith, length-set s.0 b out))
