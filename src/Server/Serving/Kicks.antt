-- ===== src/Server/Serving/Kicks.antt =====
-- How the end of the main stream ends the spliced ones.
use totem.Base.{
  ℕ, suc, ◌≡◌, ◌∙◌, refl, sym, subst, Bool, Option, none, some, List, [], ◌∷◌, ◌++◌, ◌≤◌, All,
  length, ltb, Bool-cases, inl, inr, arith,
}
use totem.Base.Go.{returns, returns_inj}
use totem.Wire.{ServiceDescriptor, ServiceInfo}
use totem.Status.{Err, Result, ok, err}
use totem.Handlers.{Invoker}
use totem.Server.{Server, Link}
use totem.Server.Serving.{
  Serving, serve, report, Finding, looks_up, settled, gave_up, Ending, runs, at_end, ends,
  begin_round, next_round, discovery_over, loop_over, on_discovered, on_discovery_closed,
  on_run_returned, on_loop_closed, on_run_closed, on_error_read, ServeEvent, discovered,
  discovery_closed, run_returned, loop_closed, run_closed, error_read, serve_step, ServeRun,
  served_none, served_more,
}
use totem.Server.Serving.Accounts.{result_in, result_in-concat, Accounted, some_inj, none-some}
use totem.Server.Serving.Reports.{on_discovered-ok, run-Accounted, cannot, some_same}
use totem.Server.Serving.Ended.{
  IsEnded, EndedBefore, Progress, begin_round-EndedBefore, next_round-EndedBefore, EndedBefore-All,
}
use totem.Server.Serving.Syncing.{AllSynced, no_links, both, IsSynced, sync_links-AllSynced}

report_lem :
    (e : Option Err) (s t : Serving)
    → report e s ≡ some t
    → record s { errors = s.errors ++ e ∷ [] } ≡ t
unfolding report
report_lem e s t h = ground arith

-- Given an error of `Run` among the events, the goroutine has come as far as it says.
IsKicking : List ServeEvent → Serving → Type 0
IsKicking es s = (e : Err) → result_in none es ≡ some e → Progress s.ending s.server.spliced

module _ (equal : ServiceDescriptor → ServiceDescriptor → Bool) where
  synced-IsEnded :
      (ctx : ℕ) (invoker : Invoker) (descs : List ServiceDescriptor) (a b : Link)
      → IsSynced equal ctx invoker descs a b
      → IsEnded a
      → IsEnded b
  synced-IsEnded ctx invoker descs a b i end = record {
    closed = i.same_closed ∙ end.closed;
    kicked = i.same_kicked ∙ end.kicked;
  }

  synced-All :
      (ctx : ℕ) (invoker : Invoker) (descs : List ServiceDescriptor) (links outs : List Link)
      → AllSynced equal ctx invoker descs links outs
      → All IsEnded links
      → All IsEnded outs
  synced-All ctx invoker descs _ _ no_links h = tt
  synced-All ctx invoker descs _ _ (both i rest) (end, h) =
      (synced-IsEnded ctx invoker descs _ _ i end, synced-All ctx invoker descs _ _ rest h)

  synced-EndedBefore :
      (ctx : ℕ) (invoker : Invoker) (descs : List ServiceDescriptor) (links outs : List Link)
      (i : ℕ)
      → AllSynced equal ctx invoker descs links outs
      → EndedBefore i links
      → EndedBefore i outs
  synced-EndedBefore ctx invoker descs _ _ i no_links h = tt
  synced-EndedBefore ctx invoker descs _ _ ℕ.zero (both y rest) h = y.same_kicked ∙ h
  synced-EndedBefore ctx invoker descs _ _ (ℕ.suc i) (both y rest) (end, h) = (
    synced-IsEnded ctx invoker descs _ _ y end,
    synced-EndedBefore ctx invoker descs _ _ i rest h,
  )

  synced-Progress :
      (n : Ending) (ctx : ℕ) (invoker : Invoker) (descs : List ServiceDescriptor)
      (links outs : List Link)
      → AllSynced equal ctx invoker descs links outs
      → Progress n links
      → Progress n outs
  synced-Progress runs ctx invoker descs links outs y h = h
  synced-Progress (ends e i) ctx invoker descs links outs y h =
      synced-EndedBefore ctx invoker descs links outs i y h
  synced-Progress at_end ctx invoker descs links outs y h =
      synced-All ctx invoker descs links outs y h

  module _ (es : List ServeEvent) (s t : Serving) (k : IsKicking es s) where
    discovered-IsKicking :
        (f : Finding) (r : Result ServiceInfo)
        → on_discovered equal f r s ≡ returns (some t)
        → IsKicking (es ++ discovered r ∷ []) t
    unfolding on_discovered IsKicking
    discovered-IsKicking looks_up (err e) h x p =
        subst (λ (u : Serving). Progress u.ending u.server.spliced) (some_inj h)
          (k x (sym (result_in-concat none es (discovered (err e))) ∙ p))
    discovered-IsKicking looks_up (ok info) h x p =
        let (links, synced, built) = on_discovered-ok equal info s t h in
        subst (λ (u : Serving). Progress u.ending u.server.spliced) built
          (synced-Progress s.ending _ _ info.services s.server.spliced links
            (sync_links-AllSynced equal _ _ info.services s.server.next s.server.spliced links
              synced)
            (k x (sym (result_in-concat none es (discovered (ok info))) ∙ p)))
    discovered-IsKicking settled r h x p = absurd (none-some h)
    discovered-IsKicking (gave_up e) r h x p = absurd (none-some h)

    discovery_closed-IsKicking :
        (f : Finding) → on_discovery_closed f s ≡ some t → IsKicking (es ++ discovery_closed ∷ []) t
    unfolding on_discovery_closed IsKicking
    discovery_closed-IsKicking (gave_up e) h x p =
        subst (λ (u : Serving). Progress u.ending u.server.spliced)
          (report_lem (some e) (discovery_over s) t h)
          (k x (sym (result_in-concat none es discovery_closed) ∙ p))
    discovery_closed-IsKicking looks_up h x p = absurd (cannot h)
    discovery_closed-IsKicking settled h x p = absurd (cannot h)

    run_returned-IsKicking :
        (n : Ending) (e : Option Err)
        → on_run_returned n e s ≡ some t
        → IsKicking (es ++ run_returned e ∷ []) t
    unfolding on_run_returned IsKicking
    run_returned-IsKicking runs e h x p =
        let q : e ≡ some x = sym (result_in-concat none es (run_returned e)) ∙ p in
        subst (λ (u : Serving). Progress u.ending u.server.spliced) (some_same h)
          (subst (λ y. EndedBefore 0 (begin_round y s.server.spliced)) (sym q)
            (begin_round-EndedBefore x s.server.spliced))
    run_returned-IsKicking at_end e h x p = absurd (cannot h)
    run_returned-IsKicking (ends y i) e h x p = absurd (cannot h)

    module _ (a : Accounted es s) where
      loop_closed-IsKicking :
          (n : Ending)
          → s.ending ≡ n
          → on_loop_closed n s ≡ some t
          → IsKicking (es ++ loop_closed ∷ []) t
      unfolding on_loop_closed IsKicking
      loop_closed-IsKicking (ends e i) y h x p =
          let old : result_in none es ≡ some x = sym (result_in-concat none es loop_closed) ∙ p in
          let q : e ≡ some x = sym (a.knows.1 e i y) ∙ old in
          let before : EndedBefore i s.server.spliced =
            subst (λ n. Progress n s.server.spliced) y (k x old) in
          elim (Bool-cases (ltb i (length s.server.spliced))) [
            | inl more ↦
                subst (λ (u : Serving). Progress u.ending u.server.spliced)
                  (some_same (rw more at h))
                  (subst (λ j. EndedBefore j (next_round e i s.server.spliced)) (omega arith)
                    (subst (λ z. EndedBefore (suc i) (next_round z i s.server.spliced)) (sym q)
                      (next_round-EndedBefore x i s.server.spliced before)))
            | inr last ↦ absurd (cannot (rw last at h))
          ]
      loop_closed-IsKicking runs y h x p = absurd (cannot h)
      loop_closed-IsKicking at_end y h x p = absurd (cannot h)

      run_closed-IsKicking :
          (n : Ending)
          → s.ending ≡ n
          → on_run_closed n s ≡ some t
          → IsKicking (es ++ run_closed ∷ []) t
      unfolding on_run_closed IsKicking
      run_closed-IsKicking (ends e i) y h x p =
          let old : result_in none es ≡ some x = sym (result_in-concat none es run_closed) ∙ p in
          let before : EndedBefore i s.server.spliced =
            subst (λ n. Progress n s.server.spliced) y (k x old) in
          elim (Bool-cases (ltb i (length s.server.spliced))) [
            | inl more ↦ absurd (cannot (rw more at h))
            | inr last ↦
                let enough : length s.server.spliced ≤ i = ground arith in
                subst (λ (u : Serving). Progress u.ending u.server.spliced)
                  (report_lem e (loop_over s) t (rw last at h))
                  (EndedBefore-All i s.server.spliced enough before)
          ]
      run_closed-IsKicking runs y h x p = absurd (cannot h)
      run_closed-IsKicking at_end y h x p = absurd (cannot h)

    read-IsKicking :
        (q : List (Option Err))
        → s.errors ≡ q
        → on_error_read s ≡ some t
        → IsKicking (es ++ error_read ∷ []) t
    unfolding on_error_read IsKicking
    read-IsKicking [] e h x p = absurd (ground arith)
    read-IsKicking (y ∷ q) e h x p =
        let o : record s { errors = q; reported = s.reported ++ y ∷ [] } ≡ t = ground arith in
        subst (λ (u : Serving). Progress u.ending u.server.spliced) o
          (k x (sym (result_in-concat none es error_read) ∙ p))

  step-IsKicking :
      (es : List ServeEvent) (ev : ServeEvent) (s t : Serving)
      → Accounted es s
      → serve_step equal ev s ≡ returns (some t)
      → IsKicking es s
      → IsKicking (es ++ ev ∷ []) t
  unfolding serve_step
  step-IsKicking es (discovered r) s t a h k = discovered-IsKicking es s t k s.finding r h
  step-IsKicking es discovery_closed s t a h k =
      discovery_closed-IsKicking es s t k s.finding (returns_inj h)
  step-IsKicking es (run_returned e) s t a h k =
      run_returned-IsKicking es s t k s.ending e (returns_inj h)
  step-IsKicking es loop_closed s t a h k =
      loop_closed-IsKicking es s t k a s.ending refl (returns_inj h)
  step-IsKicking es run_closed s t a h k =
      run_closed-IsKicking es s t k a s.ending refl (returns_inj h)
  step-IsKicking es error_read s t a h k = read-IsKicking es s t k s.errors refl (returns_inj h)

  -- Let `Run` of the main controller have returned an error. The loop over the spliced controllers has
  -- begun; those before the one whose CloseOrRecv it waits for have been kicked and closed, and that
  -- one has been kicked; and when the goroutine has come to its end, all have been kicked and closed.
  -- So it is whenever the discovery ends, and whatever the caller reads.
  pub serve_kicks :
      (srv : Server) (es : List ServeEvent) (s : Serving) (e : Err)
      → ServeRun equal (serve srv) es s
      → result_in none es ≡ some e
      → Progress s.ending s.server.spliced
  unfolding IsKicking
  serve_kicks srv es s e r failed = run-IsKicking srv es s r e failed
    where
      run-IsKicking :
          (srv : Server) (es : List ServeEvent) (s : Serving)
          → ServeRun equal (serve srv) es s
          → IsKicking es s
      run-IsKicking srv [] s served_none = λ x p. cc
      run-IsKicking srv _ s (served_more {es = es} {t = t} ev before h) =
          step-IsKicking es ev t s (run-Accounted equal srv es t before) h
            (run-IsKicking srv es t before)
