-- ===== src/Controller/Receiving/Channels.antt =====
-- The channels by themselves: what a send and a read do to the history of one.
use totem.Base.{
  ℕ, ◌<◌, ◌≤◌, ◌≡◌, refl, sym, subst, ◌⊎◌, Bool, true, false, Option, some, List, [], ◌∷◌, ◌++◌,
  append_assoc, length, length-append, leb, All, All-append, Bool-cases, inl, inr, get_elem?, arith,
}
use totem.Wire.{Rpc, Content, response, server_stream_msg}
use totem.Controller.{Chan, history, new_chan, chan_capacity, send_chan, Controller, next, blocks}
use totem.Controller.Receiving.{push, store_chan, take_message}

abbrev pub is_response : Option Content → Bool
is_response (some (response _)) = true
is_response _ = false

abbrev pub is_stream_msg : Option Content → Bool
is_stream_msg (some (server_stream_msg _)) = true
is_stream_msg _ = false

abbrev pub IsPart : ℕ → Rpc → Type 0
IsPart tag m = (m.tag ≡ tag) × (is_stream_msg m.content ≡ true)

abbrev pub IsFinal : ℕ → Rpc → Type 0
IsFinal tag m = (m.tag ≡ tag) × (is_response m.content ≡ true)

-- What was sent on the channel of a call: stream messages under its tag, and then, once it is
-- closed, exactly one response under its tag.
abbrev pub Conversation : ℕ → Bool → List Rpc → Type 0
Conversation tag false ms = All (IsPart tag) ms
Conversation tag true ms =
    (parts : List Rpc) × (final : Rpc) × (ms ≡ parts ++ final ∷ [])
    × All (IsPart tag) parts
    × IsFinal tag final

pub record IsChan (tag : ℕ) (ch : Chan) : Type 0 where
  pub conversation : Conversation tag ch.closed (history ch)
  pub bounded : length ch.queue ≤ chan_capacity

pub new_chan-IsChan : (tag : ℕ) → IsChan tag new_chan
new_chan-IsChan tag = record { conversation = tt; bounded = omega arith }

-- a message behind the queue is a message behind the history
history-concat :
    (taken queue : List Rpc) (m : Rpc) → taken ++ (queue ++ m ∷ []) ≡ (taken ++ queue) ++ m ∷ []
history-concat taken queue m = sym (append_assoc taken queue (m ∷ []))

part-Conversation :
    (tag : ℕ) (taken queue : List Rpc) (m : Rpc)
    → All (IsPart tag) (taken ++ queue)
    → IsPart tag m
    → Conversation tag false (taken ++ (queue ++ m ∷ []))
part-Conversation tag taken queue m old new =
    rw history-concat (All-append (IsPart tag) (taken ++ queue) (m ∷ []) old (new, tt))

final-Conversation :
    (tag : ℕ) (taken queue : List Rpc) (m : Rpc)
    → All (IsPart tag) (taken ++ queue)
    → IsFinal tag m
    → Conversation tag true (taken ++ (queue ++ m ∷ []))
final-Conversation tag taken queue m old new =
    (taken ++ queue, m, history-concat taken queue m, old, new)

-- What `push` leaves in the place of an open channel with room.
abbrev pub pushed : Bool → Rpc → Chan → Chan
pushed last m ch = record { taken = ch.taken; queue = ch.queue ++ m ∷ []; closed = last }

-- The cases of a push on a channel that is there.
pub push_next :
    (last : Bool) (a : ℕ) (m : Rpc) (c : Controller) (ch : Chan)
    → get_elem? c.channels a ≡ some ch
    → ch.closed ≡ false
    → length ch.queue < chan_capacity
    → push last a m c ≡ next (store_chan a (pushed last m ch) c)
unfolding push send_chan
push_next true a m c ch here unclosed room = ground arith
push_next false a m c ch here unclosed room = ground arith

pub push_full :
    (last : Bool) (a : ℕ) (m : Rpc) (c : Controller) (ch : Chan)
    → get_elem? c.channels a ≡ some ch
    → ch.closed ≡ false
    → chan_capacity ≤ length ch.queue
    → push last a m c ≡ blocks
unfolding push send_chan
push_full last a m c ch here unclosed room = ground arith

pub push_cases :
    (last : Bool) (a : ℕ) (m : Rpc) (c : Controller) (ch : Chan)
    → get_elem? c.channels a ≡ some ch
    → ch.closed ≡ false
    → ((length ch.queue < chan_capacity)
        × (push last a m c ≡ next (store_chan a (pushed last m ch) c)))
      ⊎ (push last a m c ≡ blocks)
push_cases last a m c ch here unclosed = elim (Bool-cases (leb chan_capacity (length ch.queue))) [
  | inl no_room ↦ inr (push_full last a m c ch here unclosed (ground arith))
  | inr room ↦ inl (ground arith, push_next last a m c ch here unclosed (ground arith))
]

-- the message that ends a conversation, or one that does not
abbrev pub Fits : Bool → ℕ → Rpc → Type 0
Fits true = IsFinal
Fits false = IsPart

pub pushed-IsChan :
    (last : Bool) (tag : ℕ) (m : Rpc) (ch : Chan)
    → ch.closed ≡ false
    → length ch.queue < chan_capacity
    → Fits last tag m
    → IsChan tag ch
    → IsChan tag (pushed last m ch)
pushed-IsChan true tag m ch unclosed room fits i = record {
  conversation =
      final-Conversation tag ch.taken ch.queue m
        (subst (λ b. Conversation tag b (history ch)) unclosed i.conversation) fits;
  bounded = omega (arith, length-append ch.queue (m ∷ []));
}
pushed-IsChan false tag m ch unclosed room fits i = record {
  conversation =
      part-Conversation tag ch.taken ch.queue m
        (subst (λ b. Conversation tag b (history ch)) unclosed i.conversation) fits;
  bounded = omega (arith, length-append ch.queue (m ∷ []));
}

-- A read moves the oldest message of the buffer to what was taken.
pub taken_next :
    (ch : Chan) (q : List Rpc) (out : Chan)
    → ch.queue ≡ q
    → take_message ch ≡ some out
    → (history out ≡ history ch) × (out.closed ≡ ch.closed) × (length out.queue ≤ length ch.queue)
unfolding take_message
taken_next ch [] out e h = ground arith
taken_next ch (m ∷ q) out e h =
    let o : out ≡ record ch { taken = ch.taken ++ m ∷ []; queue = q } = ground arith in
    (rw (o, e) (append_assoc ch.taken (m ∷ []) q), ground (arith, o), ground (arith, o))

pub take-IsChan :
    (tag : ℕ) (ch out : Chan) → take_message ch ≡ some out → IsChan tag ch → IsChan tag out
take-IsChan tag ch out h i =
    let (same, closed, shorter) = taken_next ch ch.queue out refl h in
    record { conversation = rw (same, closed) i.conversation; bounded = omega arith }

pub take-closed : (ch out : Chan) → take_message ch ≡ some out → out.closed ≡ ch.closed
take-closed ch out h = (taken_next ch ch.queue out refl h).1
