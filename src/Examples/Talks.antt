-- ===== src/Examples/Talks.antt =====
-- Two calls of a server-streaming method of the peer, whose answers come mixed.
use totem.Base.{ℕ, ◌≡◌, refl, none, List, [], ◌∷◌, ◌++◌, arith}
use totem.Wire.{Rpc}
use totem.Controller.{Controller, next, crashes, unexpected_tag}
use totem.Controller.Sending.{reply_message}
use totem.Controller.Receiving.{Event, issues, transmits, arrives, reads, run}
use totem.Controller.Receiving.Invariant.{tag_of}
use totem.Controller.Receiving.Histories.{history_at}
use totem.Controller.Receiving.Runs.{IsFresh}
use totem.Controller.Dispatch.{with_trailers, handle_request, broadcasts}
use totem.EndToEnd.{Work, replies_to, requests, answers, Talk, over, meanwhile, says}
use totem.EndToEnd.Safety.{talk_safe}
use totem.EndToEnd.Delivery.{talk_delivers}
use totem.Examples.{grpc_status, no_tracing, background, fresh, answer, part, state_of}
use totem.Examples.Requests.{two_handlers, watch, succeed, one_part}

abbrev work_for : ℕ → Work
work_for a = record {
  services = two_handlers;
  ctx = background;
  empty_response = [];
  invoke = succeed;
  invoke_stream = one_part;
}

abbrev final : ℕ → Rpc
final a = reply_message no_tracing (with_trailers background (answer 0)) (tag_of a) (2 ∷ [])

abbrev mixed : List Event
mixed =
    issues background watch
    ∷ issues background watch
    ∷ transmits 0 none
    ∷ transmits 0 none
    ∷ arrives (part 2)
    ∷ reads 1
    ∷ arrives (part 1)
    ∷ arrives (final 1)
    ∷ []

mixed-Talk : Talk 0 (answers grpc_status no_tracing work_for mixed fresh) mixed
unfolding handle_request broadcasts answers requests replies_to reply_message
    totem.Status.get_status
mixed-Talk = meanwhile (issues background watch) refl (
    meanwhile (issues background watch) refl (
      meanwhile (transmits 0 none) refl (
        meanwhile (transmits 0 none) refl (
          says 1 (part 2) (final 1 ∷ []) (omega arith) refl (
            meanwhile (reads 1) refl (
              says 0 (part 1) (final 0 ∷ []) (omega arith) refl
                (says 1 (final 1) [] (omega arith) refl over)))))))

abbrev talked : Controller
unfolding run
talked = state_of (run grpc_status no_tracing mixed fresh)

talked-run : run grpc_status no_tracing mixed fresh ≡ next talked
unfolding run reply_message
talked-run = refl

fresh_talk-IsFresh : IsFresh fresh
fresh_talk-IsFresh = record { count = refl; channels = refl; pending = refl }

talk_safe_example : ¬ (run grpc_status no_tracing mixed fresh ≡ crashes (unexpected_tag 1))
unfolding totem.Controller.Receiving.Peer.calls_made
talk_safe_example =
    talk_safe grpc_status no_tracing work_for mixed fresh (unexpected_tag 1) mixed-Talk
      fresh_talk-IsFresh (omega arith)

talk_delivers_example :
    (rest : List Rpc) × (history_at talked.channels 1 ++ rest
      ≡ answers grpc_status no_tracing work_for mixed fresh 1)
unfolding talked totem.Controller.Receiving.Peer.calls_made reply_message
talk_delivers_example =
    talk_delivers grpc_status no_tracing work_for mixed fresh talked 1 mixed-Talk refl
      fresh_talk-IsFresh talked-run (omega arith) (omega arith) (omega arith)
