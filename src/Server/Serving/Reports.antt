-- ===== src/Server/Serving/Reports.antt =====
-- What the caller of `Serve` reads from the channel of errors, and that no send on it waits.
use totem.Base.{
  ℕ, ◌≡◌, ◌∙◌, ◌≤◌, refl, sym, ap, subst, Bool, Option, none, some, List, [], ◌∷◌, ◌++◌, ◌+◌,
  length, append_assoc, arith, Bool-cases, inl, inr, ltb,
}
use totem.Base.Go.{returns_inj, returns, >>=-eq-returns}
use totem.Wire.{ServiceDescriptor, ServiceInfo}
use totem.Status.{Err, Result, ok, err}
use totem.Server.{Server, Link}
use totem.Server.Splicing.{invoker_of}
use totem.Server.Serving.{
  Serving, serve, Finding, looks_up, settled, gave_up, Ending, runs, at_end, ends, discovery_failed,
  discovery_over, loop_begun, loop_goes_on, loop_over, connected, sync_links, errors_capacity,
  on_discovered, on_discovery_closed, on_run_returned, on_loop_closed, on_run_closed, on_error_read,
  ServeEvent, discovered, discovery_closed, run_returned, loop_closed, run_closed, error_read,
  serve_step, ServeRun, served_none, served_more,
}
use totem.Server.Serving.Accounts.{
  reports, one_if_finding, one_if_ending, Accounted, report-room, some_inj, none-some, told, untold,
  Knows-more,
}

pub cannot : {A : Type 0} {x : A} → none ≡ some x → ⊥
cannot h = cc

pub some_same : {A : Type 0} {x y : A} → some x ≡ some y → x ≡ y
some_same h = cc

-- reading
read_next :
    (es : List ServeEvent) (s t : Serving) (q : List (Option Err))
    → Accounted es s
    → s.errors ≡ q
    → on_error_read s ≡ some t
    → Accounted (es ++ error_read ∷ []) t
unfolding on_error_read
read_next es s t [] a e h = absurd (ground arith)
read_next es s t (x ∷ q) a e h =
    let o : record s { errors = q; reported = s.reported ++ x ∷ [] } ≡ t = ground arith in
    rw (← o) (
      untold es error_read s (record s { errors = q; reported = s.reported ++ x ∷ [] }) a
        (append_assoc s.reported (x ∷ []) q ∙ ap (λ y. s.reported ++ y) (sym e))
        (omega (arith, ap length e)) refl
        (Knows-more es error_read s.finding s.ending a.knows.0 a.knows.1))

module _ (equal : ServiceDescriptor → ServiceDescriptor → Bool) where
  -- A discovery that was answered leaves the spliced controllers as they were made to be.
  pub on_discovered-ok :
      (info : ServiceInfo) (s t : Serving)
      → on_discovered equal looks_up (ok info) s ≡ returns (some t)
      → (links : List Link) × (sync_links equal s.server.stream_context
            (invoker_of s.server.controller.id s.server.controller.state)
            s.server.next
            info.services
            s.server.spliced
          ≡ returns links)
        × (connected links s ≡ t)
  unfolding on_discovered
  on_discovered-ok info s t h =
      let (links, synced, built) =
        >>=-eq-returns
          (sync_links equal s.server.stream_context
            (invoker_of s.server.controller.id s.server.controller.state) s.server.next
            info.services s.server.spliced)
          (λ l. returns (some (connected l s))) h in
      (links, synced, some_inj built)

  module _ (es : List ServeEvent) (s t : Serving) (a : Accounted es s) where
    discovered-Accounted :
        (f : Finding) (r : Result ServiceInfo)
        → s.finding ≡ f
        → on_discovered equal f r s ≡ returns (some t)
        → Accounted (es ++ discovered r ∷ []) t
    unfolding on_discovered
    discovered-Accounted looks_up (err e) y h =
        subst (Accounted (es ++ discovered (err e) ∷ [])) (some_inj h) (
          untold es (discovered (err e)) s (discovery_failed e s) a refl
            (omega (arith, ap one_if_finding y)) refl
            (Knows-more es (discovered (err e)) (gave_up e) s.ending (λ x p. cc) a.knows.1))
    discovered-Accounted looks_up (ok info) y h =
        let (links, _, built) = on_discovered-ok info s t h in
        subst (Accounted (es ++ discovered (ok info) ∷ [])) built (
          untold es (discovered (ok info)) s (connected links s) a refl
            (omega (arith, ap one_if_finding y)) refl
            (Knows-more es (discovered (ok info)) settled s.ending (λ x p. cc) a.knows.1))
    discovered-Accounted settled r y h = absurd (none-some h)
    discovered-Accounted (gave_up e) r y h = absurd (none-some h)

    -- the room that a goroutine has kept for its report
    room_for :
        (n : ℕ)
        → one_if_finding s.finding + one_if_ending s.ending ≡ n + 1
        → length s.errors + 1 ≤ errors_capacity
    room_for n e = omega (arith, a.room, e)

    discovery_closed-Accounted :
        (f : Finding)
        → s.finding ≡ f
        → on_discovery_closed f s ≡ some t
        → Accounted (es ++ discovery_closed ∷ []) t
    unfolding on_discovery_closed
    discovery_closed-Accounted (gave_up e) y h =
        let due : one_if_finding s.finding ≡ 1 = ap one_if_finding y in
        let p =
          report-room (some e) (discovery_over s)
            (room_for (one_if_ending s.ending) (omega (arith, due))) in
        subst (Accounted (es ++ discovery_closed ∷ [])) (some_same (sym p ∙ h)) (
          told es discovery_closed (some e) s
            (record (discovery_over s) { errors = s.errors ++ some e ∷ [] }) a refl refl
            (omega (arith, due)) (ap (λ x. x ∷ []) (a.knows.0 e y))
            (Knows-more es discovery_closed settled s.ending (λ x q. cc) a.knows.1))
    discovery_closed-Accounted looks_up y h = absurd (cannot h)
    discovery_closed-Accounted settled y h = absurd (cannot h)

    run_returned-Accounted :
        (n : Ending) (e : Option Err)
        → s.ending ≡ n
        → on_run_returned n e s ≡ some t
        → Accounted (es ++ run_returned e ∷ []) t
    unfolding on_run_returned
    run_returned-Accounted runs e y h =
        subst (Accounted (es ++ run_returned e ∷ [])) (some_same h) (
          untold es (run_returned e) s (loop_begun e s) a refl (omega (arith, ap one_if_ending y))
            refl (Knows-more es (run_returned e) s.finding (ends e 0) a.knows.0 (λ x i p. cc)))
    run_returned-Accounted at_end e y h = absurd (cannot h)
    run_returned-Accounted (ends x i) e y h = absurd (cannot h)

    loop_closed-Accounted :
        (n : Ending)
        → s.ending ≡ n
        → on_loop_closed n s ≡ some t
        → Accounted (es ++ loop_closed ∷ []) t
    unfolding on_loop_closed
    loop_closed-Accounted (ends e i) y h = elim (Bool-cases (ltb i (length s.server.spliced))) [
      | inl more ↦ subst (Accounted (es ++ loop_closed ∷ [])) (some_same (rw more at h)) (
          untold es loop_closed s (loop_goes_on e i s) a refl (omega (arith, ap one_if_ending y))
            refl
            (Knows-more es loop_closed s.finding (ends e (i + 1)) a.knows.0
              (λ x j p. a.knows.1 e i y ∙ (let q = p in cc))))
      | inr last ↦ absurd (cannot (rw last at h))
    ]
    loop_closed-Accounted runs y h = absurd (cannot h)
    loop_closed-Accounted at_end y h = absurd (cannot h)

    run_closed-Accounted :
        (n : Ending)
        → s.ending ≡ n
        → on_run_closed n s ≡ some t
        → Accounted (es ++ run_closed ∷ []) t
    unfolding on_run_closed
    run_closed-Accounted (ends e i) y h = elim (Bool-cases (ltb i (length s.server.spliced))) [
      | inl more ↦ absurd (cannot (rw more at h))
      | inr last ↦
          let due : one_if_ending s.ending ≡ 1 = ap one_if_ending y in
          let p =
            report-room e (loop_over s)
              (room_for (one_if_finding s.finding) (omega (arith, due))) in
          subst (Accounted (es ++ run_closed ∷ [])) (some_same (sym p ∙ (rw last at h))) (
            told es run_closed e s (record (loop_over s) { errors = s.errors ++ e ∷ [] }) a refl
              refl (omega (arith, due)) (ap (λ x. x ∷ []) (a.knows.1 e i y))
              (Knows-more es run_closed s.finding at_end a.knows.0 (λ x j q. cc)))
    ]
    run_closed-Accounted runs y h = absurd (cannot h)
    run_closed-Accounted at_end y h = absurd (cannot h)

  step-Accounted :
      (es : List ServeEvent) (ev : ServeEvent) (s t : Serving)
      → Accounted es s
      → serve_step equal ev s ≡ returns (some t)
      → Accounted (es ++ ev ∷ []) t
  unfolding serve_step
  step-Accounted es (discovered r) s t a h = discovered-Accounted es s t a s.finding r refl h
  step-Accounted es discovery_closed s t a h =
      discovery_closed-Accounted es s t a s.finding refl (returns_inj h)
  step-Accounted es (run_returned e) s t a h =
      run_returned-Accounted es s t a s.ending e refl (returns_inj h)
  step-Accounted es loop_closed s t a h =
      loop_closed-Accounted es s t a s.ending refl (returns_inj h)
  step-Accounted es run_closed s t a h = run_closed-Accounted es s t a s.ending refl (returns_inj h)
  step-Accounted es error_read s t a h = read_next es s t s.errors a refl (returns_inj h)

  pub run-Accounted :
      (srv : Server) (es : List ServeEvent) (s : Serving)
      → ServeRun equal (serve srv) es s
      → Accounted es s
  unfolding serve
  run-Accounted srv [] s served_none = record {
    all_there = refl;
    room = omega arith;
    knows = (λ e p. cc, λ e i p. cc);
  }
  run-Accounted srv _ s (served_more {es = es} {t = t} e before h) =
      step-Accounted es e t s (run-Accounted srv es t before) h

  -- After any sequence of the steps around `Serve`, what the caller has read from the channel of
  -- errors and what still waits in it are, in order, exactly what there was to report: the error of the
  -- discovery if it failed and its CloseOrRecv has returned, and what `Run` returned, nil included,
  -- once the CloseOrRecv behind the loop over the spliced controllers has. At most two values wait.
  pub serve-reports :
      (es : List ServeEvent) (srv : Server) (s : Serving)
      → ServeRun equal (serve srv) es s
      → (s.reported ++ s.errors ≡ reports none none es) × (length s.errors ≤ errors_capacity)
  serve-reports es srv s r =
      let a = run-Accounted srv es s r in (a.all_there, omega (arith, a.room))

  -- A discovery that has failed never waits to report it: whatever steps were taken before, there is
  -- room in the channel when its CloseOrRecv returns.
  pub serve_never_waits :
      (es : List ServeEvent) (srv : Server) (s : Serving) (e : Err)
      → ServeRun equal (serve srv) es s
      → s.finding ≡ gave_up e
      → (t : Serving) × (serve_step equal discovery_closed s ≡ returns (some t))
  unfolding serve_step on_discovery_closed
  serve_never_waits es srv s e r y =
      let a = run-Accounted srv es s r in
      (
        record (discovery_over s) { errors = s.errors ++ some e ∷ [] },
        rw y (
            ap returns (
              report-room (some e) (discovery_over s)
                (room_for es s s a (one_if_ending s.ending) (omega (arith, ap one_if_finding y))))),
      )
