-- ===== src/Controller/Receiving/Taken.antt =====
-- stream.go, `Run` and the goroutines around it: each step that is taken is a move on the calls.
use totem.Base.{
  ℕ, ◌≡◌, ◌∙◌, refl, sym, ap, true, false, Option, none, some, [], ◌∷◌, ◌++◌, Option-cases,
  Bool-cases, inl, inr, nat_eq, arith, if◌then◌else◌, get_elem?, length,
}
use totem.Base.Table.{load, delete, store}
use totem.Wire.{Rpc, Content, request, response, server_stream_msg}
use totem.Status.{Err, StatusApi, is_eof}
use totem.Context.{Tracing}
use totem.Controller.{Controller, Phase, running, draining, stopped, Verdict, next, new_chan}
use totem.Controller.Sending.{issue, send_message, kick_with}
use totem.Controller.Receiving.{
  Event, push, all_cancelled, cancellation, receive_response, receive_stream_msg, receive_content,
  on_arrival, on_failure, on_kick, on_cancel, on_drained, on_transmit, on_read, take_message,
  remove_at, stream_ended, step, issues, transmits, replies, kicks, arrives, fails, finds_kick,
  cancels, drained, reads,
}
use totem.Controller.Receiving.Equations.{
  receive_response-none, receive_response-some, receive_stream_msg-none, receive_stream_msg-some,
  on_cancel-some, on_read-none, on_read_empty, on_read-some, on_transmit-none, on_transmit-some,
}
use totem.Controller.Receiving.Invariant.{IsSound, issue-tag}
use totem.Controller.Receiving.Safety.{is_answer}
use totem.Controller.Receiving.Moves.{
  news, answer_news, word, no_news, calls, idle, issued, streamed, answered, taken, next_inj,
  push-taken, stays, ends, gives_up, finishes, Moves,
}

still :
    (c d out : Controller)
    → ◌≡◌ {A = Verdict} (next d) (next out)
    → calls d ≡ calls c
    → d.phase ≡ c.phase
    → Moves no_news c out
still c d out h same phase = (
  idle refl (ap calls (sym (next_inj h)) ∙ same),
  stays (ap (λ (x : Controller). x.phase) (sym (next_inj h)) ∙ phase),
)

calls-kick :
    (c : Controller) (e : Err)
    → (calls (kick_with e c) ≡ calls c) × ((kick_with e c).phase ≡ c.phase)
unfolding kick_with
calls-kick c e = elim (Bool-cases c.kicked) [
  | inl y ↦ rw y (refl, refl)
  | inr n ↦ rw n (refl, refl)
]

calls-send :
    (m : Rpc) (failure : Option Err) (c : Controller)
    → (calls (send_message m failure c) ≡ calls c) × ((send_message m failure c).phase ≡ c.phase)
unfolding send_message
calls-send m none c = (refl, refl)
calls-send m (some e) c = elim (Bool-cases (is_eof e)) [
  | inl y ↦ rw y (refl, refl)
  | inr n ↦ rw n (calls-kick c e)
]

module _ (c out : Controller) where
  stream_ended-Moves :
      (e : Err) → c.phase ≡ running → next (stream_ended e c) ≡ next out → Moves no_news c out
  unfolding stream_ended
  stream_ended-Moves e r h = (
    idle refl (ap calls (sym (next_inj h))),
    ends (if is_eof e then none else some e) r
        (ap (λ (x : Controller). x.phase) (sym (next_inj h))),
  )

  failure-Moves :
      (p : Phase) (e : Err) → c.phase ≡ p → on_failure p e c ≡ next out → Moves no_news c out
  unfolding on_failure
  failure-Moves running e r h = stream_ended-Moves e r h
  failure-Moves (draining x tags) e r h = cc
  failure-Moves (stopped x) e r h = cc

  kick-Moves :
      (p : Phase) (o : Option Err) → c.phase ≡ p → on_kick p o c ≡ next out → Moves no_news c out
  unfolding on_kick stream_ended
  kick-Moves running none r h = cc
  kick-Moves running (some e) r h = (
    idle refl (ap calls (sym (next_inj h))),
    ends (if is_eof e then none else some e) r
        (ap (λ (x : Controller). x.phase) (sym (next_inj h))),
  )
  kick-Moves (draining x tags) o r h = cc
  kick-Moves (stopped x) o r h = cc

  drained-Moves : (p : Phase) → c.phase ≡ p → on_drained p c ≡ next out → Moves no_news c out
  unfolding on_drained
  drained-Moves running r h = cc
  drained-Moves (draining e tags) r h = elim (Bool-cases (all_cancelled tags c.pending)) [
    | inl y ↦
        let n : record c { phase = stopped e } ≡ out = ground arith in
        (
          idle refl (ap calls (sym n)),
          finishes e tags r y (ap (λ (x : Controller). x.phase) (sym n)),
        )
    | inr n ↦ absurd (ground arith)
  ]
  drained-Moves (stopped x) r h = cc

  transmit-Moves :
      (i : ℕ) (failure : Option Err) → on_transmit i failure c ≡ next out → Moves no_news c out
  transmit-Moves i failure h = elim (Option-cases (get_elem? c.waiting i)) [
    | inl e ↦ cc (on_transmit-none i c failure e)
    | inr (m, e) ↦
        let (same, phase) = calls-send m failure (record c { waiting = remove_at i c.waiting }) in
        still c _ out (sym (on_transmit-some i c m failure e) ∙ h) same phase
  ]

  read-Moves : (a : ℕ) → on_read a c ≡ next out → Moves no_news c out
  read-Moves a h = elim (Option-cases (get_elem? c.channels a)) [
    | inl e ↦ cc (on_read-none a c e)
    | inr (ch, here) ↦ elim (Option-cases (take_message ch)) [
      | inl e ↦ cc (on_read_empty a c ch here e)
      | inr (ch', t) ↦
          let n = next_inj (sym (on_read-some a c ch ch' here t) ∙ h) in
          (
            taken a ch ch' refl here t (ap calls (sym n)),
            stays (ap (λ (x : Controller). x.phase) (sym n)),
          )
    ]
  ]

module _ (c out : Controller) (s : IsSound c) where
  -- the message is the last one of the call with this tag
  final-Moves :
      (a : ℕ) (m : Rpc)
      → load m.tag c.pending ≡ some a
      → push true a m (record c { pending = delete m.tag c.pending }) ≡ next out
      → Moves (word m) c out
  final-Moves a m there h =
      let (ch, here, unclosed) = (s.owned m.tag a there).1 in
      let p =
        push-taken true a m (record c { pending = delete m.tag c.pending }) out ch here unclosed
          h in
      (
        answered a m ch refl there here unclosed (ap calls (sym p)),
        stays (ap (λ (x : Controller). x.phase) (sym p)),
      )

  response-Moves : (m : Rpc) → receive_response m c ≡ next out → Moves (word m) c out
  response-Moves m h = elim (Option-cases (load m.tag c.pending)) [
    | inl e ↦ cc (receive_response-none m c e)
    | inr (a, e) ↦ final-Moves a m e (sym (receive_response-some m c a e) ∙ h)
  ]

  stream_msg-Moves : (m : Rpc) → receive_stream_msg m c ≡ next out → Moves (word m) c out
  stream_msg-Moves m h = elim (Option-cases (load m.tag c.pending)) [
    | inl e ↦ cc (receive_stream_msg-none m c e)
    | inr (a, e) ↦
        let (ch, here, unclosed) = (s.owned m.tag a e).1 in
        let p =
          push-taken false a m c out ch here unclosed (sym (receive_stream_msg-some m c a e) ∙ h) in
        (
          streamed a m ch refl e here unclosed (ap calls (sym p)),
          stays (ap (λ (x : Controller). x.phase) (sym p)),
        )
  ]

  content-Moves :
      (o : Option Content) (m : Rpc)
      → c.phase ≡ running
      → receive_content o m c ≡ next out
      → Moves (if is_answer o then word m else no_news) c out
  unfolding receive_content
  content-Moves none m r h = (
    idle refl (ap calls (sym (next_inj h))),
    gives_up _ r (ap (λ (x : Controller). x.phase) (sym (next_inj h))),
  )
  content-Moves (some (request _)) m r h = still c _ out h refl refl
  content-Moves (some (response _)) m r h = response-Moves m h
  content-Moves (some (server_stream_msg _)) m r h = stream_msg-Moves m h

  arrival-Moves :
      (p : Phase) (m : Rpc)
      → c.phase ≡ p
      → on_arrival p m c ≡ next out
      → Moves (answer_news m) c out
  unfolding on_arrival
  arrival-Moves running m r h = content-Moves m.content m r h
  arrival-Moves (draining e tags) m r h = cc
  arrival-Moves (stopped e) m r h = cc

  cancel-Moves :
      (api : StatusApi) (p : Phase) (tag : ℕ)
      → on_cancel api p tag c ≡ next out
      → Moves (news api p (cancels tag)) c out
  unfolding on_cancel cancellation
  cancel-Moves api running tag h = cc
  cancel-Moves api (draining e tags) tag h = elim (Option-cases (load tag c.pending)) [
    | inl n ↦ absurd (ground arith)
    | inr (a, there) ↦
        final-Moves a (cancellation api e tag) there
          (sym (on_cancel-some api e tags tag a c there) ∙ h)
  ]
  cancel-Moves api (stopped x) tag h = cc

-- Every step that is taken is one of these moves and turns.
pub step-Moves :
    (api : StatusApi) (tracing : Tracing) (e : Event) (c out : Controller)
    → IsSound c
    → step api tracing e c ≡ next out
    → Moves (news api c.phase e) c out
unfolding step
step-Moves api tracing (issues ctx m) c out s h =
    unfold issue in
    (
      issued refl (
          ap calls (sym (next_inj h))
          ∙ ap (λ t. (c.channels ++ new_chan ∷ [], store t (length c.channels) c.pending))
              (issue-tag s)),
      stays (ap (λ (x : Controller). x.phase) (sym (next_inj h))),
    )
step-Moves api tracing (transmits i failure) c out s h = transmit-Moves c out i failure h
step-Moves api tracing (replies m failure) c out s h =
    still c _ out h (calls-send m failure c).0 (calls-send m failure c).1
step-Moves api tracing (kicks e) c out s h = still c _ out h (calls-kick c e).0 (calls-kick c e).1
step-Moves api tracing (arrives m) c out s h = arrival-Moves c out s c.phase m refl h
step-Moves api tracing (fails e) c out s h = failure-Moves c out c.phase e refl h
step-Moves api tracing finds_kick c out s h = kick-Moves c out c.phase c.kick refl h
step-Moves api tracing (cancels tag) c out s h = cancel-Moves c out s api c.phase tag h
step-Moves api tracing drained c out s h = drained-Moves c out c.phase refl h
step-Moves api tracing (reads a) c out s h = read-Moves c out a h
