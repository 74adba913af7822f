-- ===== src/Examples/Calls.antt =====
-- Runs of a controller with a few calls.
use totem.Base.{◌≡◌, refl, none, some, [], ◌∷◌, ◌⊎◌, arith, nat_eq, if◌then◌else◌}
use totem.Base.Table.{load}
use totem.Status.{eof, is_eof}
use totem.Controller.{Controller, Chan, next, blocks, crashes, unexpected_tag}
use totem.Controller.Receiving.{arrives, fails, cancels, drained, step, run}
use totem.Controller.Receiving.Answered.{Closed}
use totem.Controller.Receiving.Runs.{IsFresh, run_keeps_calls, run_panics, IsUnexpected}
use totem.Controller.Receiving.CallSpec.{CallRun}
use totem.Controller.Receiving.Refinement.{view_all, run_refines}
use totem.Controller.Receiving.Histories.{history_at}
use totem.Controller.Receiving.Demux.{run_demultiplexes}
use totem.Controller.Receiving.Peer.{polite_peer}
use totem.Controller.Receiving.Shutdown.{AllClosed, shutdown_answers}
use totem.Examples.{grpc_status, no_tracing, fresh, answer, part, two_calls, state_of}

fresh-IsFresh : IsFresh fresh
fresh-IsFresh = record { count = refl; channels = refl; pending = refl }

abbrev served : Controller
unfolding run
served = state_of (run grpc_status no_tracing two_calls fresh)

served-run : run grpc_status no_tracing two_calls fresh ≡ next served
unfolding run
served-run = refl

-- the stream ends, and then the call that is left is cancelled
abbrev ending : Controller
unfolding step
ending = state_of (step grpc_status no_tracing (fails eof) served)

ending-step : step grpc_status no_tracing (fails eof) served ≡ next ending
unfolding step served
ending-step = refl

abbrev ended_run : Controller
unfolding run
ended_run = state_of (run grpc_status no_tracing (cancels 1 ∷ drained ∷ []) ending)

ended_run-run : run grpc_status no_tracing (cancels 1 ∷ drained ∷ []) ending ≡ next ended_run
unfolding run
ended_run-run = refl

stray_run : run grpc_status no_tracing (arrives (answer 5) ∷ []) fresh ≡ crashes (unexpected_tag 5)
unfolding run
stray_run = refl

run_keeps_calls_example : (load 2 served.pending ≡ some 1) ⊎ Closed served.channels 1
unfolding served
run_keeps_calls_example =
    run_keeps_calls grpc_status no_tracing two_calls fresh served 1 fresh-IsFresh served-run
      (omega arith) (omega arith)

run_panics_example : IsUnexpected (unexpected_tag 5)
run_panics_example =
    run_panics grpc_status no_tracing (arrives (answer 5) ∷ []) fresh (unexpected_tag 5)
      fresh-IsFresh stray_run

shutdown_answers_example : AllClosed 2 ended_run × (none ≡ (if is_eof eof then none else some eof))
unfolding served ended_run
shutdown_answers_example =
    shutdown_answers grpc_status no_tracing two_calls (cancels 1 ∷ drained ∷ []) eof fresh served
      ending ended_run none fresh-IsFresh served-run refl ending-step ended_run-run refl
      (omega arith)

run_demultiplexes_example : history_at served.channels 0 ≡ part 1 ∷ []
unfolding served
run_demultiplexes_example =
    run_demultiplexes grpc_status no_tracing two_calls fresh served 0 fresh-IsFresh served-run
      (omega arith) (omega arith)

run_refines_example : CallRun [] (view_all served.channels)
run_refines_example =
    run_refines grpc_status no_tracing two_calls fresh served fresh-IsFresh served-run

polite_peer_example : ¬ (run grpc_status no_tracing two_calls fresh ≡ crashes (unexpected_tag 5))
unfolding totem.Controller.Receiving.Peer.polite totem.Controller.Receiving.Peer.calls_made
polite_peer_example =
    polite_peer grpc_status no_tracing two_calls fresh (unexpected_tag 5) fresh-IsFresh
      (omega arith) refl
