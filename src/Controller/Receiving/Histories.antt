-- ===== src/Controller/Receiving/Histories.antt =====
-- What was sent on the channels, and what a move adds to it.
use totem.Base.{
  ℕ, ◌≡◌, ◌≢◌, ◌∙◌, ◌<◌, ◌≤◌, refl, sym, ap, Bool, true, false, Option, none, some, List, [], ◌∷◌,
  ◌++◌, append_assoc, append-nil, Bool-cases, inl, inr, nat_eq, arith, length, get_elem?, set, ◌==◌,
  ==_iff, if◌then◌else◌, get_elem?-lt,
}
use totem.Base.Table.{beq_ne}
use totem.Wire.{Rpc}
use totem.Controller.{Chan, history, new_chan, uint64_mod}
use totem.Controller.Receiving.Channels.{pushed, taken_next}
use totem.Controller.Receiving.Invariant.{tag_of}
use totem.Controller.Receiving.Moves.{
  News, no_news, new_call, word, Move, idle, issued, streamed, answered, taken, Calls,
}
use totem.Controller.Receiving.Answered.{Owned}
use totem.Controller.Receiving.Delivery.{get_elem?-set_at}

abbrev pub history_of : Option Chan → List Rpc
history_of none = []
history_of (some ch) = history ch

-- What was ever sent on the channel of a call, which is nothing before the call is made.
abbrev pub history_at : List Chan → ℕ → List Rpc
history_at channels a = history_of (get_elem? channels a)

-- the part of a step's news that is for a tag
unfoldable pub said_to : ℕ → News → List Rpc
said_to tag no_news = []
said_to tag new_call = []
said_to tag (word m) = if m.tag == tag then m ∷ [] else []

pub tag_of_inj : (a b : ℕ) → a < uint64_mod → b < uint64_mod → tag_of a ≡ tag_of b → a ≡ b
tag_of_inj a b x y h = omega (arith, h)

said_to-hit : (tag : ℕ) (m : Rpc) → m.tag ≡ tag → said_to tag (word m) ≡ m ∷ []
unfolding said_to
said_to-hit tag m e = rw ((==_iff m.tag tag).1 e) refl

said_to-miss : (tag : ℕ) (m : Rpc) → m.tag ≢ tag → said_to tag (word m) ≡ []
unfolding said_to
said_to-miss tag m ne = rw (beq_ne m.tag tag ne) refl

set-history :
    (channels : List Chan) (a b : ℕ) (ch out : Chan)
    → get_elem? channels b ≡ some ch
    → history_at (set channels b out) a ≡ (if b == a then history out else history_at channels a)
set-history channels a b ch out here = elim (Bool-cases (b == a)) [
  | inl e ↦ rw (get_elem?-set_at channels b a ch out here, e) refl
  | inr e ↦ rw (get_elem?-set_at channels b a ch out here, e) refl
]

concat-history :
    (channels : List Chan) (a : ℕ)
    → history_at (channels ++ new_chan ∷ []) a ≡ history_at channels a
concat-history [] ℕ.zero = refl
concat-history [] (ℕ.suc a) = refl
concat-history (ch ∷ channels) ℕ.zero = refl
concat-history (ch ∷ channels) (ℕ.suc a) = concat-history channels a

-- Of the calls, the one with the tag gets the message behind what it had.
pushed-history :
    (channels : List Chan) (a b : ℕ) (ch : Chan) (last : Bool) (m : Rpc)
    → get_elem? channels b ≡ some ch
    → m.tag ≡ tag_of b
    → a < uint64_mod
    → length channels ≤ uint64_mod
    → history_at (set channels b (pushed last m ch)) a
      ≡ history_at channels a ++ said_to (tag_of a) (word m)
pushed-history channels a b ch last m here tag lt fits = elim (Bool-cases (b == a)) [
  | inl e ↦
      let p : b ≡ a = ground arith in
      rw
        (
          set-history channels a b ch (pushed last m ch) here,
          e,
          said_to-hit (tag_of a) m (tag ∙ ap tag_of p),
          ← p,
          here,
        )
        (sym (append_assoc ch.taken ch.queue (m ∷ [])))
  | inr e ↦
      let ne : m.tag ≢ tag_of a = λ same. cc (
        e,
        (==_iff b a).1
            (tag_of_inj b a (omega (arith, get_elem?-lt channels b ch here)) lt (sym tag ∙ same)),
      ) in
      rw (set-history channels a b ch (pushed last m ch) here, e, said_to-miss (tag_of a) m ne)
        (sym (append-nil (history_at channels a)))
]

silent : {x y : List Rpc} (said : List Rpc) → said ≡ [] → x ≡ y → x ≡ y ++ said
silent {y = y} said n e = rw (n, append-nil y) e

pub Move-history :
    {said : News} {s t : Calls}
    → Move said s t
    → Owned s
    → (a : ℕ) → a < uint64_mod
    → length s.0 ≤ uint64_mod
    → history_at t.0 a ≡ history_at s.0 a ++ said_to (tag_of a) said
Move-history (idle n e) own a lt fits =
    silent (said_to (tag_of a) _) (rw n (unfold said_to in refl)) (rw e refl)
Move-history {s = s} (issued n e) own a lt fits =
    silent (said_to (tag_of a) _) (rw n (unfold said_to in refl)) (rw e (concat-history s.0 a))
Move-history {s = s} (streamed b m ch n there here unclosed e) own a lt fits =
    rw (e, n) (pushed-history s.0 a b ch false m here (own m.tag b there) lt fits)
Move-history {s = s} (answered b m ch n there here unclosed e) own a lt fits =
    rw (e, n) (pushed-history s.0 a b ch true m here (own m.tag b there) lt fits)
Move-history {s = s} (taken b ch out n here t e) own a lt fits =
    silent (said_to (tag_of a) _) (rw n (unfold said_to in refl)) (
      rw (e, set-history s.0 a b ch out here)
        (elim (Bool-cases (b == a)) [
          | inl hit ↦
              let p : b ≡ a = ground arith in
              rw (hit, ← p, here) (taken_next ch ch.queue out refl t).0
          | inr miss ↦ rw miss refl
        ]))
