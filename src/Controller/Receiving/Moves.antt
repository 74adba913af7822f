-- ===== src/Controller/Receiving/Moves.antt =====
-- The steps as moves on the calls: what a step that was taken did to the channels, the pending
-- calls and the phase.
use totem.Base.{
  ℕ, ◌≡◌, ◌∙◌, sym, Bool, true, false, Option, some, List, [], ◌∷◌, ◌++◌, inl, inr, nat_eq,
  get_elem?, set, length, if◌then◌else◌,
}
use totem.Base.Table.{Table, load, delete, store, keys}
use totem.Wire.{Rpc}
use totem.Status.{Err, StatusApi}
use totem.Controller.{Chan, Controller, Phase, running, draining, stopped, Verdict, next, new_chan}
use totem.Controller.Receiving.{
  push, all_cancelled, take_message, store_chan, cancellation, Event, issues, arrives, cancels,
}
use totem.Controller.Receiving.Safety.{is_answer}
use totem.Controller.Receiving.Channels.{pushed, push_cases}
use totem.Controller.Receiving.Invariant.{tag_of}

-- What the calls are: the channels and the pending ones.
abbrev pub Calls : Type 0
Calls = List Chan × Table ℕ ℕ

abbrev pub calls : Controller → Calls
calls c = (c.channels, c.pending)

-- What a step is for the calls: a new call is made, or a message is for one of them, an answer that
-- arrives or a cancellation.
pub data News : Type 0 where
  no_news new_call : News
  word : Rpc → News

abbrev pub answer_news : Rpc → News
answer_news m = if is_answer m.content then word m else no_news

abbrev pub news : StatusApi → Phase → Event → News
news api p (issues ctx m) = new_call
news api p (arrives m) = answer_news m
news api (draining e tags) (cancels tag) = word (cancellation api e tag)
news api p e = no_news

pub data Move (said : News) (before after : Calls) : Type 0 where
  idle : said ≡ no_news → after ≡ before → Move said before after
  issued :
      said ≡ new_call
      → after
        ≡ (before.0 ++ new_chan ∷ [], store (tag_of (length before.0)) (length before.0) before.1)
      → Move said before after
  streamed :
      (a : ℕ) (m : Rpc) (ch : Chan)
      → said ≡ word m
      → load m.tag before.1 ≡ some a
      → get_elem? before.0 a ≡ some ch
      → ch.closed ≡ false
      → after ≡ (set before.0 a (pushed false m ch), before.1)
      → Move said before after
  answered :
      (a : ℕ) (m : Rpc) (ch : Chan)
      → said ≡ word m
      → load m.tag before.1 ≡ some a
      → get_elem? before.0 a ≡ some ch
      → ch.closed ≡ false
      → after ≡ (set before.0 a (pushed true m ch), delete m.tag before.1)
      → Move said before after
  taken :
      (a : ℕ) (ch out : Chan)
      → said ≡ no_news
      → get_elem? before.0 a ≡ some ch
      → take_message ch ≡ some out
      → after ≡ (set before.0 a out, before.1)
      → Move said before after

pub next_inj : {c d : Controller} → ◌≡◌ {A = Verdict} (next c) (next d) → c ≡ d
next_inj h = cc

-- A push that was taken changed one channel.
pub push-taken :
    (last : Bool) (a : ℕ) (m : Rpc) (c out : Controller) (ch : Chan)
    → get_elem? c.channels a ≡ some ch
    → ch.closed ≡ false
    → push last a m c ≡ next out
    → store_chan a (pushed last m ch) c ≡ out
push-taken last a m c out ch here unclosed h = elim (push_cases last a m c ch here unclosed) [
  | inl (_, e) ↦ next_inj (sym e ∙ h)
  | inr e ↦ cc
]

-- What a step does to the phase: mostly nothing; the stream ends and the pending calls are noted;
-- the loop gives up on a message with no content; or all noted calls are cancelled.
pub data Turn (c out : Controller) : Type 0 where
  stays : out.phase ≡ c.phase → Turn c out
  ends : (e : Option Err) → c.phase ≡ running → out.phase ≡ draining e (keys c.pending) → Turn c out
  gives_up : (e : Option Err) → c.phase ≡ running → out.phase ≡ stopped e → Turn c out
  finishes :
      (e : Option Err) (tags : List ℕ)
      → c.phase ≡ draining e tags
      → all_cancelled tags c.pending ≡ true
      → out.phase ≡ stopped e
      → Turn c out

abbrev pub Moves : News → Controller → Controller → Type 0
Moves said c out = Move said (calls c) (calls out) × Turn c out
