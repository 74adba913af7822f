-- ===== src/Server/Serving/Accounts.antt =====
-- What the steps around `Serve` have to report, and how a step keeps the account of it.
use totem.Base.{
  ℕ, ◌≡◌, ◌∙◌, ◌≤◌, refl, sym, ap, Option, none, some, List, [], ◌∷◌, ◌++◌, ◌+◌, length,
  length-append, append_assoc, append-nil, arith,
}
use totem.Base.Go.{Go, returns}
use totem.Status.{Err, ok, err}
use totem.Server.Serving.{
  Serving, report, Finding, settled, gave_up, Ending, at_end, ends, errors_capacity, ServeEvent,
  discovered, discovery_closed, run_returned, loop_closed, run_closed, error_read,
}

-- the error of the discovery, if one of the events is its failure
abbrev pub failure_in : Option Err → List ServeEvent → Option Err
failure_in f [] = f
failure_in f (discovered (err e) ∷ es) = failure_in (some e) es
failure_in f (_ ∷ es) = failure_in f es

-- what `Run` returned
abbrev pub result_in : Option Err → List ServeEvent → Option Err
result_in r [] = r
result_in r (run_returned e ∷ es) = result_in e es
result_in r (_ ∷ es) = result_in r es

-- What the events have to report, in order: the error of the discovery when its CloseOrRecv returns,
-- and what `Run` returned when CloseOrRecv of the main controller returns behind the loop. `f` and
-- `r` are the error and the result before the events.
abbrev pub reports : Option Err → Option Err → List ServeEvent → List (Option Err)
reports f r [] = []
reports f r (discovered (err e) ∷ es) = reports (some e) r es
reports f r (run_returned e ∷ es) = reports f e es
reports f r (discovery_closed ∷ es) = f ∷ reports f r es
reports f r (run_closed ∷ es) = r ∷ reports f r es
reports f r (_ ∷ es) = reports f r es

-- what one event reports
abbrev said : Option Err → Option Err → ServeEvent → List (Option Err)
said f r discovery_closed = f ∷ []
said f r run_closed = r ∷ []
said f r _ = []

reports-concat :
    (f r : Option Err) (es : List ServeEvent) (ev : ServeEvent)
    → reports f r (es ++ ev ∷ []) ≡ reports f r es ++ said (failure_in f es) (result_in r es) ev
reports-concat f r [] (discovered (err e)) = refl
reports-concat f r [] (discovered (ok info)) = refl
reports-concat f r [] (run_returned e) = refl
reports-concat f r [] discovery_closed = refl
reports-concat f r [] loop_closed = refl
reports-concat f r [] run_closed = refl
reports-concat f r [] error_read = refl
reports-concat f r (discovered (err e) ∷ es) ev = reports-concat (some e) r es ev
reports-concat f r (discovered (ok info) ∷ es) ev = reports-concat f r es ev
reports-concat f r (run_returned e ∷ es) ev = reports-concat f e es ev
reports-concat f r (discovery_closed ∷ es) ev = ap (λ x. f ∷ x) (reports-concat f r es ev)
reports-concat f r (loop_closed ∷ es) ev = reports-concat f r es ev
reports-concat f r (run_closed ∷ es) ev = ap (λ x. r ∷ x) (reports-concat f r es ev)
reports-concat f r (error_read ∷ es) ev = reports-concat f r es ev

failure_in-concat :
    (f : Option Err) (es : List ServeEvent) (ev : ServeEvent)
    → failure_in f (es ++ ev ∷ []) ≡ failure_in (failure_in f es) (ev ∷ [])
failure_in-concat f [] ev = refl
failure_in-concat f (discovered (err e) ∷ es) ev = failure_in-concat (some e) es ev
failure_in-concat f (discovered (ok info) ∷ es) ev = failure_in-concat f es ev
failure_in-concat f (run_returned e ∷ es) ev = failure_in-concat f es ev
failure_in-concat f (discovery_closed ∷ es) ev = failure_in-concat f es ev
failure_in-concat f (loop_closed ∷ es) ev = failure_in-concat f es ev
failure_in-concat f (run_closed ∷ es) ev = failure_in-concat f es ev
failure_in-concat f (error_read ∷ es) ev = failure_in-concat f es ev

pub result_in-concat :
    (r : Option Err) (es : List ServeEvent) (ev : ServeEvent)
    → result_in r (es ++ ev ∷ []) ≡ result_in (result_in r es) (ev ∷ [])
result_in-concat r [] ev = refl
result_in-concat r (run_returned e ∷ es) ev = result_in-concat e es ev
result_in-concat r (discovered x ∷ es) ev = result_in-concat r es ev
result_in-concat r (discovery_closed ∷ es) ev = result_in-concat r es ev
result_in-concat r (loop_closed ∷ es) ev = result_in-concat r es ev
result_in-concat r (run_closed ∷ es) ev = result_in-concat r es ev
result_in-concat r (error_read ∷ es) ev = result_in-concat r es ev

-- whether a goroutine is still to report
abbrev pub one_if_finding : Finding → ℕ
one_if_finding settled = 0
one_if_finding _ = 1

abbrev pub one_if_ending : Ending → ℕ
one_if_ending at_end = 0
one_if_ending _ = 1

-- What a goroutine will report is what happened to it.
abbrev pub Knows : List ServeEvent → Finding → Ending → Type 0
Knows es f n =
    ((e : Err) → f ≡ gave_up e → failure_in none es ≡ some e)
    × ((e : Option Err) (i : ℕ) → n ≡ ends e i → result_in none es ≡ e)

-- Everything that was reported was read or waits, and there is room for all that is still to come.
pub record Accounted (es : List ServeEvent) (s : Serving) : Type 0 where
  pub all_there : s.reported ++ s.errors ≡ reports none none es
  pub room : length s.errors + one_if_finding s.finding + one_if_ending s.ending ≤ errors_capacity
  pub knows : Knows es s.finding s.ending

pub report-room :
    (e : Option Err) (s : Serving)
    → length s.errors + 1 ≤ errors_capacity
    → report e s ≡ some (record s { errors = s.errors ++ e ∷ [] })
unfolding report
report-room e s room = ground arith

pub some_inj :
    {A : Type 0} {x y : A} → ◌≡◌ {A = Go (Option A)} (returns (some x)) (returns (some y)) → x ≡ y
some_inj h = cc

pub none-some : {A : Type 0} {x : A} → ◌≡◌ {A = Go (Option A)} (returns none) (returns (some x)) → ⊥
none-some h = cc

-- A step that reports: what is behind the errors is what the event said.
pub told :
    (es : List ServeEvent) (ev : ServeEvent) (e : Option Err) (s t : Serving)
    → Accounted es s
    → t.reported ≡ s.reported
    → t.errors ≡ s.errors ++ e ∷ []
    → one_if_finding t.finding + one_if_ending t.ending + 1
      ≡ one_if_finding s.finding + one_if_ending s.ending
    → said (failure_in none es) (result_in none es) ev ≡ e ∷ []
    → Knows (es ++ ev ∷ []) t.finding t.ending
    → Accounted (es ++ ev ∷ []) t
told es ev e s t a same grown left r k = record {
  all_there =
      rw (same, grown)
        (sym (append_assoc s.reported s.errors (e ∷ []))
          ∙ (ap (λ x. x ++ e ∷ []) a.all_there
              ∙ (ap (λ x. reports none none es ++ x) (sym r)
                  ∙ sym (reports-concat none none es ev))));
  room = rw grown (omega (arith, a.room, left, length-append s.errors (e ∷ [])));
  knows = k;
}

pub untold :
    (es : List ServeEvent) (ev : ServeEvent) (s t : Serving)
    → Accounted es s
    → t.reported ++ t.errors ≡ s.reported ++ s.errors
    → length t.errors + one_if_finding t.finding + one_if_ending t.ending
      ≤ length s.errors + one_if_finding s.finding + one_if_ending s.ending
    → said (failure_in none es) (result_in none es) ev ≡ []
    → Knows (es ++ ev ∷ []) t.finding t.ending
    → Accounted (es ++ ev ∷ []) t
untold es ev s t a same less r k = record {
  all_there =
      same
      ∙ (a.all_there
          ∙ (sym (append-nil (reports none none es))
              ∙ (ap (λ x. reports none none es ++ x) (sym r)
                  ∙ sym (reports-concat none none es ev))));
  room = omega (arith, a.room, less);
  knows = k;
}

pub Knows-more :
    (es : List ServeEvent) (ev : ServeEvent) (f : Finding) (n : Ending)
    → ((e : Err) → f ≡ gave_up e → failure_in (failure_in none es) (ev ∷ []) ≡ some e)
    → ((e : Option Err) (i : ℕ) → n ≡ ends e i → result_in (result_in none es) (ev ∷ []) ≡ e)
    → Knows (es ++ ev ∷ []) f n
Knows-more es ev f n failed returned = (
  λ e p. failure_in-concat none es ev ∙ failed e p,
  λ e i p. result_in-concat none es ev ∙ returned e i p,
)
