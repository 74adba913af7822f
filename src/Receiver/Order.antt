-- ===== src/Receiver/Order.antt =====
-- What `Recv` returns is what the stream gave, in order.
use totem.Base.{
  ℕ, ◌≡◌, ◌∙◌, ◌≤◌, refl, sym, ap, true, false, Option, none, some, List, [], ◌∷◌, ◌++◌, ◌+◌,
  append_assoc, append-nil, length, length-append, leb, arith, Bool-cases, inl, inr,
}
use totem.Base.Go.{Go, returns, returns_inj}
use totem.Status.{Err}
use totem.Receiver.{
  Payload, Reading, not_started, reads_stream, ended, holds, Receiver, read_ahead, start, on_given,
  after_queued, on_queued, recv, on_payload, on_kick_taken, on_kick_sent, RecvEvent, starts,
  stream_gives, queues, calls_recv, takes_payload, takes_kick, sends_kick, recv_step, lifted,
  RecvRun, fresh, after,
}

-- what the goroutine holds
abbrev pub held : Reading → List Payload
held (holds p) = p ∷ []
held _ = []

record IsOrdered (w : Receiver) : Type 0 where
  all_there : w.returned ++ (w.queue ++ held w.reading) ≡ w.given
  bounded : length w.queue ≤ read_ahead

-- A step that moves no payload.
kept :
    (v w : Receiver)
    → IsOrdered v
    → w.returned ≡ v.returned
    → w.queue ≡ v.queue
    → held w.reading ≡ held v.reading
    → w.given ≡ v.given
    → IsOrdered w
kept v w o a b c d = record { all_there = rw (a, b, c, d) o.all_there; bounded = rw b o.bounded }

some_inj :
    {A : Type 0} {x y : A} → ◌≡◌ {A = Go (Option A)} (returns (some x)) (returns (some y)) → x ≡ y
some_inj h = cc

start-IsOrdered :
    (r : Reading) (v w : Receiver)
    → v.reading ≡ r
    → IsOrdered v
    → lifted (start r v) ≡ returns (some w)
    → IsOrdered w
unfolding start
start-IsOrdered (holds p) v w e o h = cc
start-IsOrdered reads_stream v w e o h = cc
start-IsOrdered not_started v w e o h =
    rw (← some_inj h) (kept v (record v { reading = reads_stream }) o refl refl (rw e refl) refl)
start-IsOrdered ended v w e o h =
    rw (← some_inj h) (kept v (record v { reading = reads_stream }) o refl refl (rw e refl) refl)

given-IsOrdered :
    (r : Reading) (p : Payload) (v w : Receiver)
    → v.reading ≡ r
    → IsOrdered v
    → on_given p r v ≡ some w
    → IsOrdered w
unfolding on_given
given-IsOrdered (holds q) p v w e o h = cc
given-IsOrdered not_started p v w e o h = cc
given-IsOrdered ended p v w e o h = cc
given-IsOrdered reads_stream p v w e o h =
    let all = o.all_there in
    let before : v.returned ++ v.queue ≡ v.given =
      ap (λ x. v.returned ++ x) (sym (append-nil v.queue)) ∙ rw e at all in
    let n : record v { given = v.given ++ p ∷ []; reading = holds p } ≡ w = ground arith in
    rw (← n) (record {
      all_there = sym (append_assoc v.returned v.queue (p ∷ [])) ∙ ap (λ x. x ++ p ∷ []) before;
      bounded = o.bounded;
    })

queued-IsOrdered :
    (p : Payload) (x : Option Err) (v w : Receiver)
    → v.reading ≡ holds p
    → IsOrdered v
    → length v.queue + 1 ≤ read_ahead
    → after_queued p x v ≡ returns (some w)
    → IsOrdered w
unfolding after_queued
queued-IsOrdered p none v w e o room h =
    let all = o.all_there in
    rw (← some_inj h) (record {
      all_there = ap (λ y. v.returned ++ y) (append-nil (v.queue ++ p ∷ [])) ∙ rw e at all;
      bounded = omega (arith, length-append v.queue (p ∷ []), room);
    })
queued-IsOrdered p (some x) v w e o room h = elim (Bool-cases v.done) [
  | inl y ↦ let k = rw y at h in cc
  | inr n ↦
      let all = o.all_there in
      rw (← some_inj (rw n at h)) (record {
        all_there = ap (λ y. v.returned ++ y) (append-nil (v.queue ++ p ∷ [])) ∙ rw e at all;
        bounded = omega (arith, length-append v.queue (p ∷ []), room);
      })
]

queue-IsOrdered :
    (r : Reading) (v w : Receiver)
    → v.reading ≡ r
    → IsOrdered v
    → on_queued r v ≡ returns (some w)
    → IsOrdered w
unfolding on_queued
queue-IsOrdered not_started v w e o h = cc
queue-IsOrdered reads_stream v w e o h = cc
queue-IsOrdered ended v w e o h = cc
queue-IsOrdered (holds p) v w e o h = elim (Bool-cases (leb read_ahead (length v.queue))) [
  | inl y ↦ let k = rw y at h in cc
  | inr n ↦
      let room : length v.queue + 1 ≤ read_ahead = ground (arith, n) in
      queued-IsOrdered p p.failure v w e o room (rw n at h)
]

payload-IsOrdered :
    (q : List Payload) (v w : Receiver)
    → v.queue ≡ q
    → IsOrdered v
    → on_payload q v ≡ some w
    → IsOrdered w
unfolding on_payload
payload-IsOrdered [] v w e o h = cc
payload-IsOrdered (p ∷ q) v w e o h = elim (Bool-cases v.receiving) [
  | inl y ↦
      let n : record v { queue = q; returned = v.returned ++ p ∷ []; receiving = false } ≡ w =
        let k = rw y at h in cc in
      let all = o.all_there in
      rw (← n) (record {
        all_there = append_assoc v.returned (p ∷ []) (q ++ held v.reading) ∙ rw e at all;
        bounded = omega (arith, o.bounded, ap length e);
      })
  | inr n ↦ let k = rw n at h in cc
]

kick-IsOrdered :
    (k : Option (Option Err)) (v w : Receiver)
    → IsOrdered v
    → on_kick_taken k v ≡ returns (some w)
    → IsOrdered w
unfolding on_kick_taken
kick-IsOrdered none v w o h = cc
kick-IsOrdered (some none) v w o h = elim (Bool-cases v.receiving) [
  | inl y ↦ let z = rw y at h in cc
  | inr n ↦ let z = rw n at h in cc
]
kick-IsOrdered (some (some e)) v w o h = elim (Bool-cases v.receiving) [
  | inl y ↦ elim (Bool-cases v.kick_acked) [
    | inl again ↦ let z = rw (y, again) at h in cc
    | inr first ↦ rw (← some_inj (rw (y, first) at h)) (
        kept v (record v { kick = none; kick_acked = true; receiving = false }) o refl refl refl
          refl)
  ]
  | inr n ↦ let z = rw n at h in cc
]

recv-IsOrdered : (v w : Receiver) → IsOrdered v → lifted (recv v) ≡ returns (some w) → IsOrdered w
unfolding recv
recv-IsOrdered v w o h = elim (Bool-cases v.receiving) [
  | inl y ↦ let z = rw y at h in cc
  | inr n ↦
      rw (← some_inj (rw n at h)) (kept v (record v { receiving = true }) o refl refl refl refl)
]

sent-IsOrdered :
    (e : Option Err) (k : Option (Option Err)) (v w : Receiver)
    → IsOrdered v
    → on_kick_sent e k v ≡ some w
    → IsOrdered w
unfolding on_kick_sent
sent-IsOrdered e none v w o h =
    let n : record v { kick = some e } ≡ w = ground arith in
    rw (← n) (kept v (record v { kick = some e }) o refl refl refl refl)
sent-IsOrdered e (some x) v w o h = cc

step-IsOrdered :
    (e : RecvEvent) (v w : Receiver) → IsOrdered v → recv_step e v ≡ returns (some w) → IsOrdered w
unfolding recv_step
step-IsOrdered starts v w o h = start-IsOrdered v.reading v w refl o h
step-IsOrdered (stream_gives p) v w o h = given-IsOrdered v.reading p v w refl o (returns_inj h)
step-IsOrdered queues v w o h = queue-IsOrdered v.reading v w refl o h
step-IsOrdered calls_recv v w o h = recv-IsOrdered v w o h
step-IsOrdered takes_payload v w o h = payload-IsOrdered v.queue v w refl o (returns_inj h)
step-IsOrdered takes_kick v w o h = kick-IsOrdered v.kick v w o h
step-IsOrdered (sends_kick e) v w o h = sent-IsOrdered e v.kick v w o (returns_inj h)

run-IsOrdered : (stream : ℕ) (w : Receiver) → RecvRun stream w → IsOrdered w
run-IsOrdered stream w fresh = record { all_there = refl; bounded = omega arith }
run-IsOrdered stream w (after {v = v} e r h) = step-IsOrdered e v w (run-IsOrdered stream v r) h

-- Whatever the goroutines around a receiver do, what `Recv` has returned from the stream, what waits in
-- the channel and what the reading goroutine holds are together exactly what the stream gave, in its
-- order: no message is lost, doubled or overtaken. At most 256 wait.
pub recv_keeps_order :
    (stream : ℕ) (w : Receiver)
    → RecvRun stream w
    → (w.returned ++ (w.queue ++ held w.reading) ≡ w.given) × (length w.queue ≤ read_ahead)
recv_keeps_order stream w r = let o = run-IsOrdered stream w r in (o.all_there, o.bounded)
