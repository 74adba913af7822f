-- ===== src/Controller/Receiving/Safety.antt =====
-- Every step keeps the calls sound, and no goroutine sends on a closed channel or closes one twice.
use totem.Base.{
  ℕ, ◌≡◌, ◌∙◌, refl, sym, ap, subst, Bool, true, false, Option, none, some, Option-cases, ◌⊎◌, inl,
  inr, nat_eq, arith, if◌then◌else◌, get_elem?,
}
use totem.Base.Table.{load, delete}
use totem.Wire.{Rpc, Content, request, response, server_stream_msg}
use totem.Status.{Err, StatusApi, is_eof}
use totem.Context.{Tracing}
use totem.Controller.{
  Chan, Controller, Phase, running, draining, stopped, Verdict, next, blocks, crashes,
  unexpected_tag,
}
use totem.Controller.Sending.{issue, send_message, kick_with}
use totem.Controller.Receiving.{
  Event, all_cancelled, receive_response, receive_stream_msg, receive_content, on_arrival,
  on_failure, on_kick, on_cancel, on_drained, on_transmit, on_read, cancellation, remove_at,
  store_chan, take_message, step, issues, transmits, replies, kicks, arrives, fails, finds_kick,
  cancels, drained, reads,
}
use totem.Controller.Receiving.Equations.{
  receive_response-none, receive_response-some, receive_stream_msg-none, receive_stream_msg-some,
  on_cancel-some, on_read-none, on_read_empty, on_read-some, on_transmit-none, on_transmit-some,
}
use totem.Controller.Receiving.Channels.{is_response, is_stream_msg, take-IsChan, take-closed}
use totem.Controller.Receiving.Invariant.{
  IsSound, push-Sound_cases, deleted_unowned, delete-Sound, set-Sound, issue-Sound, tag_of,
}

-- A message that answers a call.
abbrev pub is_answer : Option Content → Bool
is_answer (some (response _)) = true
is_answer (some (server_stream_msg _)) = true
is_answer _ = false

-- What a step may do: leave a sound controller, wait, or find that the peer has answered a call
-- that is not pending.
abbrev pub Safe : Event → Controller → Verdict → Type 0
Safe e c (next out) = IsSound out
Safe e c blocks = Unit
Safe (arrives m) c (crashes p) =
    (p ≡ unexpected_tag m.tag) × (load m.tag c.pending ≡ none) × (is_answer m.content ≡ true)
Safe _ c (crashes p) = ⊥

-- A push that is done or waits is safe.
settled :
    (e : Event) (c : Controller) (v w : Verdict)
    → v ≡ w
    → ((out : Controller) × (w ≡ next out) × IsSound out) ⊎ (w ≡ blocks)
    → Safe e c v
settled e c v w p (inl (out, q, good)) = subst (Safe e c) (sym (p ∙ q)) good
settled e c v w p (inr q) = subst (Safe e c) (sym (p ∙ q)) tt

if_IsSound : (c d : Controller) (b : Bool) → IsSound c → IsSound d → IsSound (if b then c else d)
if_IsSound c d true h k = h
if_IsSound c d false h k = k

if_Safe :
    (e : Event) (c : Controller) (v w : Verdict) (b : Bool)
    → Safe e c v
    → Safe e c w
    → Safe e c (if b then v else w)
if_Safe e c v w true h k = h
if_Safe e c v w false h k = k

kick-IsSound : (c : Controller) (e : Err) → IsSound c → IsSound (kick_with e c)
unfolding kick_with
kick-IsSound c e s = if_IsSound c (record c { kicked = true; kick = some e }) c.kicked s s

send-IsSound :
    (c : Controller) (m : Rpc) (failure : Option Err)
    → IsSound c
    → IsSound (send_message m failure c)
unfolding send_message
send-IsSound c m none s = s
send-IsSound c m (some e) s = if_IsSound c (kick_with e c) (is_eof e) s (kick-IsSound c e s)

pub is_response-answer : (o : Option Content) → is_response o ≡ true → is_answer o ≡ true
is_response-answer o h = ground arith

pub is_stream_msg-answer : (o : Option Content) → is_stream_msg o ≡ true → is_answer o ≡ true
is_stream_msg-answer o h = ground arith

module _ (c : Controller) (s : IsSound c) where
  response-Safe :
      (m : Rpc) → is_response m.content ≡ true → Safe (arrives m) c (receive_response m c)
  response-Safe m r = elim (Option-cases (load m.tag c.pending)) [
    | inl e ↦
        subst (Safe (arrives m) c) (sym (receive_response-none m c e))
          (refl, e, is_response-answer m.content r)
    | inr (a, e) ↦
        let (tag, o) = s.owned m.tag a e in
        settled (arrives m) c _ _ (receive_response-some m c a e) (
          push-Sound_cases true a m (record c { pending = delete m.tag c.pending })
            (delete-Sound s m.tag) o (tag, r) (deleted_unowned c m.tag a s e))
  ]

  stream_msg-Safe :
      (m : Rpc) → is_stream_msg m.content ≡ true → Safe (arrives m) c (receive_stream_msg m c)
  stream_msg-Safe m r = elim (Option-cases (load m.tag c.pending)) [
    | inl e ↦
        subst (Safe (arrives m) c) (sym (receive_stream_msg-none m c e))
          (refl, e, is_stream_msg-answer m.content r)
    | inr (a, e) ↦
        let (tag, o) = s.owned m.tag a e in
        settled (arrives m) c _ _ (receive_stream_msg-some m c a e)
          (push-Sound_cases false a m c s o (tag, r) (λ t _. refl))
  ]

  content-Safe :
      (o : Option Content) (m : Rpc) → m.content ≡ o → Safe (arrives m) c (receive_content o m c)
  unfolding receive_content
  content-Safe none m e = s
  content-Safe (some (request _)) m e = s
  content-Safe (some (response r)) m e = response-Safe m (rw e refl)
  content-Safe (some (server_stream_msg r)) m e = stream_msg-Safe m (rw e refl)

  arrival-Safe : (p : Phase) (m : Rpc) → Safe (arrives m) c (on_arrival p m c)
  unfolding on_arrival
  arrival-Safe running m = content-Safe m.content m refl
  arrival-Safe (draining e tags) m = tt
  arrival-Safe (stopped e) m = tt

  failure-Safe : (p : Phase) (e : Err) → Safe (fails e) c (on_failure p e c)
  unfolding on_failure
  failure-Safe running e = s
  failure-Safe (draining x tags) e = tt
  failure-Safe (stopped x) e = tt

  kick-Safe : (p : Phase) (o : Option Err) → Safe finds_kick c (on_kick p o c)
  unfolding on_kick
  kick-Safe running none = tt
  kick-Safe running (some e) = s
  kick-Safe (draining x tags) o = tt
  kick-Safe (stopped x) o = tt

  drained-Safe : (p : Phase) → Safe drained c (on_drained p c)
  unfolding on_drained
  drained-Safe running = tt
  drained-Safe (draining e tags) = if_Safe drained c _ _ (all_cancelled tags c.pending) s tt
  drained-Safe (stopped x) = tt

  cancel-Safe :
      (api : StatusApi) (p : Phase) (tag : ℕ) → Safe (cancels tag) c (on_cancel api p tag c)
  unfolding on_cancel
  cancel-Safe api running tag = tt
  cancel-Safe api (draining e tags) tag = elim (Option-cases (load tag c.pending)) [
    | inl none_there ↦ rw (none_there, on_cancel) tt
    | inr (a, there) ↦
        let (owner, o) = s.owned tag a there in
        settled (cancels tag) c _ _ (on_cancel-some api e tags tag a c there) (
          push-Sound_cases true a (cancellation api e tag)
            (record c { pending = delete tag c.pending }) (delete-Sound s tag) o
            (unfold cancellation in (owner, refl)) (deleted_unowned c tag a s there))
  ]
  cancel-Safe api (stopped x) tag = tt

  transmit-Safe :
      (i : ℕ) (failure : Option Err) → Safe (transmits i failure) c (on_transmit i failure c)
  transmit-Safe i failure = elim (Option-cases (get_elem? c.waiting i)) [
    | inl e ↦ subst (Safe (transmits i failure) c) (sym (on_transmit-none i c failure e)) tt
    | inr (m, e) ↦
        subst (Safe (transmits i failure) c) (sym (on_transmit-some i c m failure e))
          (send-IsSound (record c { waiting = remove_at i c.waiting }) m failure s)
  ]

  read_Sound :
      (a : ℕ) (ch out : Chan)
      → get_elem? c.channels a ≡ some ch
      → take_message ch ≡ some out
      → IsSound (store_chan a out c)
  read_Sound a ch out here t =
      set-Sound s a ch out here (take-IsChan (tag_of a) ch out t (s.shaped a ch here)) λ tag h.
        let (old, there, unclosed) = (s.owned tag a h).1 in
        let same : old ≡ ch = cc in
        take-closed ch out t ∙ ap (λ (x : Chan). x.closed) (sym same) ∙ unclosed

  read-Safe : (a : ℕ) → Safe (reads a) c (on_read a c)
  read-Safe a = elim (Option-cases (get_elem? c.channels a)) [
    | inl e ↦ subst (Safe (reads a) c) (sym (on_read-none a c e)) tt
    | inr (ch, here) ↦ elim (Option-cases (take_message ch)) [
      | inl e ↦ subst (Safe (reads a) c) (sym (on_read_empty a c ch here e)) tt
      | inr (out, t) ↦
          subst (Safe (reads a) c) (sym (on_read-some a c ch out here t))
            (read_Sound a ch out here t)
    ]
  ]

module _ (api : StatusApi) (tracing : Tracing) where
  -- From a controller whose calls are sound, every step leaves them sound or waits; it panics only
  -- where a response or a stream message arrives whose tag belongs to no pending call. In
  -- particular no channel is ever closed twice or sent on after it was closed.
  pub step-Safe : (e : Event) (c : Controller) → IsSound c → Safe e c (step api tracing e c)
  unfolding step
  step-Safe (issues ctx m) c s = unfold issue in issue-Sound s
  step-Safe (transmits i failure) c s = transmit-Safe c s i failure
  step-Safe (replies m failure) c s = send-IsSound c m failure s
  step-Safe (kicks e) c s = kick-IsSound c e s
  step-Safe (arrives m) c s = arrival-Safe c s c.phase m
  step-Safe (fails e) c s = failure-Safe c s c.phase e
  step-Safe finds_kick c s = kick-Safe c s c.phase c.kick
  step-Safe (cancels tag) c s = cancel-Safe c s api c.phase tag
  step-Safe drained c s = drained-Safe c s c.phase
  step-Safe (reads a) c s = read-Safe c s a
