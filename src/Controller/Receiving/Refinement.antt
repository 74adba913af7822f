-- ===== src/Controller/Receiving/Refinement.antt =====
-- The controller implements the specification of its calls: each of its steps is one of theirs.
use totem.Base.{
  ℕ, ◌≡◌, ◌∙◌, ◌<◌, refl, sym, ap, subst, Bool, true, false, Option, none, some, List, [], ◌∷◌,
  ◌++◌, append_assoc, arith, length, length-append, get_elem?, set, All, get_elem?-lt,
  get_elem?-set_self, map,
}
use totem.Base.Table.{Table}
use totem.Wire.{Rpc}
use totem.Status.{StatusApi}
use totem.Context.{Tracing}
use totem.Controller.{Chan, Controller, history, new_chan, next}
use totem.Controller.Receiving.{Event, run, take_message}
use totem.Controller.Receiving.Channels.{pushed, IsPart, IsFinal, Fits, IsChan}
use totem.Controller.Receiving.Invariant.{Sound, tag_of}
use totem.Controller.Receiving.Moves.{News, Move, idle, issued, streamed, answered, taken, Calls}
use totem.Controller.Receiving.Taken.{step-Moves}
use totem.Controller.Receiving.Runs.{Good, IsFresh, IsFresh-Good, step-Good, run_induction}
use totem.Controller.Receiving.CallSpec.{
  Call, new_call, said_more, read_more, CallStep, rests, makes, tells, takes, CallRun, no_step,
  one_more,
}

abbrev pub view : Chan → Call
view ch = record { said = history ch; read = length ch.taken; done = ch.closed }

-- the calls of a controller as the specification sees them
abbrev pub view_all : List Chan → List Call
view_all = map view

view_all-concat :
    (channels : List Chan)
    → view_all (channels ++ new_chan ∷ []) ≡ view_all channels ++ new_call ∷ []
view_all-concat [] = refl
view_all-concat (ch ∷ channels) = ap (λ x. view ch ∷ x) (view_all-concat channels)

view_all-set :
    (channels : List Chan) (a : ℕ) (out : Chan)
    → view_all (set channels a out) ≡ set (view_all channels) a (view out)
view_all-set [] a out = refl
view_all-set (ch ∷ channels) ℕ.zero out = refl
view_all-set (ch ∷ channels) (ℕ.suc a) out = ap (λ x. view ch ∷ x) (view_all-set channels a out)

view_all-get :
    (channels : List Chan) (a : ℕ) (ch : Chan)
    → get_elem? channels a ≡ some ch
    → get_elem? (view_all channels) a ≡ some (view ch)
view_all-get [] a ch h = cc
view_all-get (x ∷ channels) ℕ.zero ch h = ground arith
view_all-get (x ∷ channels) (ℕ.suc a) ch h = view_all-get channels a ch h

last_of : {A : Type 0} → List A → Option A
last_of [] = none
last_of (x ∷ []) = some x
last_of (x ∷ y ∷ xs) = last_of (y ∷ xs)

last_of-concat : {A : Type 0} (xs : List A) (x : A) → last_of (xs ++ x ∷ []) ≡ some x
unfolding last_of
last_of-concat [] x = refl
last_of-concat (y ∷ []) x = refl
last_of-concat (y ∷ z ∷ xs) x = last_of-concat (z ∷ xs) x

All-last : {A : Type 0} (P : A → Type 0) (xs : List A) (x : A) → All P (xs ++ x ∷ []) → P x
All-last P [] x h = h.0
All-last P (y ∷ xs) x h = All-last P xs x h.1

concat_inj_last : {A : Type 0} (xs ys : List A) (x y : A) → xs ++ x ∷ [] ≡ ys ++ y ∷ [] → x ≡ y
concat_inj_last xs ys x y e =
    let same : ◌≡◌ {A = Option _} (some x) (some y) =
      sym (last_of-concat xs x) ∙ ap last_of e ∙ last_of-concat ys y in
    cc

-- The last message of a channel that was pushed to fits.
pub pushed-Fits :
    (last : Bool) (tag : ℕ) (m : Rpc) (ch : Chan) → IsChan tag (pushed last m ch) → Fits last tag m
pushed-Fits false tag m ch i =
    All-last (IsPart tag) (ch.taken ++ ch.queue) m
      (subst (All (IsPart tag)) (sym (append_assoc ch.taken ch.queue (m ∷ []))) i.conversation)
pushed-Fits true tag m ch i =
    let (parts, final, e, _, fits) = i.conversation in
    let same : m ≡ final =
      concat_inj_last (ch.taken ++ ch.queue) parts m final
        (append_assoc ch.taken ch.queue (m ∷ []) ∙ e) in
    subst (IsFinal tag) (sym same) fits

-- A channel that was pushed to had been read to its end.
pushed-read :
    (last : Bool) (tag : ℕ) (m : Rpc) (ch : Chan)
    → IsChan tag (pushed last m ch)
    → length ch.taken ≡ length (history ch)
pushed-read last tag m ch i =
    omega (arith, i.bounded, length-append ch.queue (m ∷ []), length-append ch.taken ch.queue)

pushed-view :
    (last : Bool) (m : Rpc) (ch : Chan) → view (pushed last m ch) ≡ said_more (view ch) m last
pushed-view last m ch =
    ap (λ x. record { said = x; read = length ch.taken; done = last })
      (sym (append_assoc ch.taken ch.queue (m ∷ [])))

tells-CallStep :
    (last : Bool) (a : ℕ) (m : Rpc) (ch : Chan) (channels : List Chan)
    → get_elem? channels a ≡ some ch
    → ch.closed ≡ false
    → ((b : ℕ) (x : Chan)
        → get_elem? (set channels a (pushed last m ch)) b ≡ some x
        → IsChan (tag_of b) x)
    → CallStep (view_all channels) (view_all (set channels a (pushed last m ch)))
tells-CallStep last a m ch channels here unclosed good =
    let i =
      good a (pushed last m ch)
        (get_elem?-set_self channels a (pushed last m ch) (get_elem?-lt channels a ch here)) in
    tells a m (view ch) last (view_all-get channels a ch here) unclosed
      (pushed-read last (tag_of a) m ch i) (pushed-Fits last (tag_of a) m ch i)
      (view_all-set channels a (pushed last m ch)
        ∙ ap (set (view_all channels) a) (pushed-view last m ch))

-- A read takes one message, so that there was one.
taken-view :
    (ch out : Chan) (q : List Rpc)
    → ch.queue ≡ q
    → take_message ch ≡ some out
    → (view out ≡ read_more (view ch)) × (length ch.taken < length (history ch))
unfolding take_message
taken-view ch out [] e h = ground arith
taken-view ch out (m ∷ q) e h =
    let o : out ≡ record ch { taken = ch.taken ++ m ∷ []; queue = q } = ground arith in
    (
      rw (o, e, append_assoc ch.taken (m ∷ []) q, length-append ch.taken (m ∷ [])) refl,
      omega (arith, length-append ch.taken ch.queue, ap length e),
    )

-- What holds of the channels at every place of a state, for the channels it was found equal to.
pub shaped_at :
    {t : Calls} {count : ℕ} (channels : List Chan) (pending : Table ℕ ℕ)
    → t ≡ (channels, pending)
    → Sound count t.0 t.1
    → (b : ℕ) (x : Chan) → get_elem? channels b ≡ some x
    → IsChan (tag_of b) x
shaped_at channels pending e k b x h = k.shaped b x (ap (λ (c : Calls). get_elem? c.0 b) e ∙ h)

Move-CallStep :
    {said : News} {s t : Calls} {count : ℕ}
    → Move said s t
    → Sound count t.0 t.1
    → CallStep (view_all s.0) (view_all t.0)
Move-CallStep (idle n e) k = rests (ap (λ x. view_all x.0) e)
Move-CallStep {s = s} (issued n e) k = makes (ap (λ x. view_all x.0) e ∙ view_all-concat s.0)
Move-CallStep {s = s} (streamed a m ch n there here unclosed e) k =
    subst (λ x. CallStep (view_all s.0) (view_all x)) (sym (ap (λ x. x.0) e))
      (tells-CallStep false a m ch s.0 here unclosed (shaped_at _ _ e k))
Move-CallStep {s = s} (answered a m ch n there here unclosed e) k =
    subst (λ x. CallStep (view_all s.0) (view_all x)) (sym (ap (λ x. x.0) e))
      (tells-CallStep true a m ch s.0 here unclosed (shaped_at _ _ e k))
Move-CallStep {s = s} (taken a ch out n here q e) k =
    let (seen, some_left) = taken-view ch out ch.queue refl q in
    takes a (view ch) (view_all-get s.0 a ch here) some_left
      (ap (λ x. view_all x.0) e ∙ (view_all-set s.0 a out ∙ ap (set (view_all s.0) a) seen))

module _ (api : StatusApi) (tracing : Tracing) where
  -- Every run of a controller that starts with no calls is, for those who make the calls and read
  -- their channels, a run of the specification: each step makes a call, tells a call that is not
  -- over one message under its own tag once its reader has read all, takes the next message for a
  -- reader, or leaves the calls as they are.
  pub run_refines :
      (es : List Event) (c out : Controller)
      → IsFresh c
      → run api tracing es c ≡ next out
      → CallRun [] (view_all out.channels)
  run_refines es c out f h =
      (run_induction api tracing (λ d. Good d × CallRun [] (view_all d.channels))
        (λ e d d' (good, sofar) q.
          let good' = step-Good api tracing e d d' good q in
          (
            good',
            one_more sofar
                (Move-CallStep (step-Moves api tracing e d d' good.sound q).0 good'.sound),
          ))
        es c out (IsFresh-Good c f, rw f.channels no_step) h).1
