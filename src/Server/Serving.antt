-- ===== src/Server/Serving.antt =====
-- server.go: `Serve`. Its two goroutines are the discovery, in the caller's, and the one that waits
-- for `Run`; both send on the channel of errors that `Serve` returns, whose reader is the caller's.
-- A nil error that is sent is `none`.
pub mod Accounts
pub mod Reports
pub mod Ended
pub mod Kicks
pub mod Syncing
use totem.Base.{
  ℕ, ◌≡◌, Bool, true, false, Option, none, some, List, [], ◌∷◌, ◌++◌, ◌+◌, length, leb, ltb, codes,
  Text, text_eq, if◌then◌else◌,
}
use totem.Base.Go.{Go, returns, ◌>>=◌}
use totem.Base.Table.{Table}
use totem.Wire.{ServiceDescriptor, ServiceInfo, DiscoveryRequest}
use totem.Status.{Err, wrapped, Result, ok, err}
use totem.Handlers.{ServiceHandler, Invoker}
use totem.Controller.Sending.{kick_with}
use totem.Discovery.{first_request}
use totem.Server.{Server, Link}
use totem.Server.Descriptors.{register_all}
use totem.Server.Splicing.{invoker_of}

-- what the fields of the `ClientConn` are taken from
pub record Connection : Type 0 where
  pub controller : ℕ
  pub interceptor : Option ℕ
  pub metrics : Option ℕ

-- Where the discovery is: it looks for services; or it has failed, has kicked the main controller, and
-- is in CloseOrRecv; or it has ended.
pub data Finding : Type 0 where
  looks_up settled : Finding
  gave_up : Err → Finding

-- Where the goroutine of `Run` is: `Run` runs; or it has returned, and the loop is in CloseOrRecv of the
-- spliced controller with this index, or behind the last, of the main one; or it has ended.
pub data Ending : Type 0 where
  runs at_end : Ending
  ends : Option Err → ℕ → Ending

-- `errors` has what waits in the channel and `reported` what its reader has taken.
pub record Serving : Type 0 where
  pub server : Server
  pub errors : List (Option Err)
  pub reported : List (Option Err)
  pub finding : Finding
  pub ending : Ending
  pub connection : Option Connection

-- `make(chan error, 2)`
abbrev pub errors_capacity : ℕ
errors_capacity = 2

unfoldable pub serve : Server → Serving
serve srv = record {
  server = srv;
  errors = [];
  reported = [];
  finding = looks_up;
  ending = runs;
  connection = none;
}

-- the request by which the discovery of `Serve` begins
unfoldable pub serve_request : Server → DiscoveryRequest
unfolding first_request
serve_request srv = first_request srv.controller.state.uuid srv.options.discovery_hop_limit

-- `ch <- err`, unless the channel is full
unfoldable pub report : Option Err → Serving → Option Serving
report e s =
    if leb errors_capacity (length s.errors)
    then none
    else some (record s { errors = s.errors ++ e ∷ [] })

abbrev pub kick_link : Err → Link → Link
kick_link e link = record link { state = kick_with e link.state }

-- CloseOrRecv has returned
abbrev pub close_link : Link → Link
close_link link = record link { closed = true }

abbrev pub kick_if : Option Err → Link → Link
kick_if none link = link
kick_if (some e) link = kick_link e link

-- a round of the loop over the spliced controllers, up to its CloseOrRecv
abbrev pub begin_round : Option Err → List Link → List Link
begin_round e [] = []
begin_round e (link ∷ links) = kick_if e link ∷ links

-- CloseOrRecv of the spliced controller with this index returns, and the next round begins.
pub next_round : Option Err → ℕ → List Link → List Link
next_round e i [] = []
next_round e ℕ.zero (link ∷ links) = close_link link ∷ begin_round e links
next_round e (ℕ.suc i) (link ∷ links) = link ∷ next_round e i links

abbrev pub with_spliced : List Link → Serving → Serving
with_spliced links s = record s { server = record (s.server) { spliced = links } }

abbrev pub with_main : Link → Serving → Serving
with_main link s = record s { server = record (s.server) { controller = link } }

-- the discovery that has failed, up to its CloseOrRecv
abbrev pub discovery_failed : Err → Serving → Serving
discovery_failed e s =
    record (with_main (kick_link (wrapped (codes "service discovery failed") e) s.server.controller)
      s) { finding = gave_up e }

-- CloseOrRecv of the main controller returns to it
abbrev pub discovery_over : Serving → Serving
discovery_over s = record (with_main (close_link s.server.controller) s) { finding = settled }

-- the discovery that was answered, with the spliced controllers as they were made to be
abbrev pub connected : List Link → Serving → Serving
connected links s = record (with_spliced links s) {
  finding = settled;
  connection = some (record {
    controller = s.server.controller.id;
    interceptor = s.server.options.interceptors.outgoing;
    metrics = s.server.options.metrics;
  });
}

-- `Run` has returned, and the loop begins
abbrev pub loop_begun : Option Err → Serving → Serving
loop_begun e s = record (with_spliced (begin_round e s.server.spliced) s) { ending = ends e 0 }

abbrev pub loop_goes_on : Option Err → ℕ → Serving → Serving
loop_goes_on e i s = record (with_spliced (next_round e i s.server.spliced) s) {
  ending = ends e (i + 1);
}

-- the goroutine of `Run` up to its report
abbrev pub loop_over : Serving → Serving
loop_over s = record (with_main (close_link s.server.controller) s) { ending = at_end }

module _ (equal : ServiceDescriptor → ServiceDescriptor → Bool) where
  -- The services discovered on the main stream are served on one spliced stream.
  pub sync_link : ℕ → Invoker → ℕ → List ServiceDescriptor → Link → Go Link
  unfolding register_all
  sync_link ctx invoker next descs link = do
    services ← register_all equal ctx invoker next descs link.state.services
    returns (record link { state = record (link.state) { services = services } })

  pub sync_links : ℕ → Invoker → ℕ → List ServiceDescriptor → List Link → Go (List Link)
  unfolding sync_link
  sync_links ctx invoker next descs [] = returns []
  sync_links ctx invoker next descs (link ∷ links) = do
    synced ← sync_link ctx invoker next descs link
    rest ← sync_links ctx invoker (next + length descs) descs links
    returns (synced ∷ rest)

  -- the rest of `Serve`, with what the discovery returned, up to its CloseOrRecv if it failed
  pub on_discovered : Finding → Result ServiceInfo → Serving → Go (Option Serving)
  unfolding sync_links
  on_discovered looks_up (err e) s = returns (some (discovery_failed e s))
  on_discovered looks_up (ok info) s = do
    spliced ←
        sync_links s.server.stream_context
          (invoker_of s.server.controller.id s.server.controller.state) s.server.next info.services
          s.server.spliced
    returns (some (connected spliced s))
  on_discovered _ r s = returns none

-- CloseOrRecv returns to the discovery that failed
pub on_discovery_closed : Finding → Serving → Option Serving
unfolding report
on_discovery_closed (gave_up e) s = report (some e) (discovery_over s)
on_discovery_closed _ s = none

-- `Run` returns
pub on_run_returned : Ending → Option Err → Serving → Option Serving
on_run_returned runs e s = some (loop_begun e s)
on_run_returned _ e s = none

-- CloseOrRecv of a spliced controller returns to the goroutine of `Run`
pub on_loop_closed : Ending → Serving → Option Serving
unfolding next_round
on_loop_closed (ends e i) s =
    if ltb i (length s.server.spliced) then some (loop_goes_on e i s) else none
on_loop_closed _ s = none

-- CloseOrRecv of the main controller returns to it
pub on_run_closed : Ending → Serving → Option Serving
unfolding report
on_run_closed (ends e i) s =
    if ltb i (length s.server.spliced) then none else report e (loop_over s)
on_run_closed _ s = none

pub on_error_read : Serving → Option Serving
on_error_read s = elim s.errors [
  | [] ↦ none
  | e ∷ rest ↦ some (record s { errors = rest; reported = s.reported ++ e ∷ [] })
]

-- What the goroutines do next. A CloseOrRecv that waits for its stream for ever is an event that does
-- not come.
pub data ServeEvent : Type 0 where
  discovered : Result ServiceInfo → ServeEvent
  run_returned : Option Err → ServeEvent
  discovery_closed loop_closed run_closed error_read : ServeEvent

module _ (equal : ServiceDescriptor → ServiceDescriptor → Bool) where
  -- The next state, `none` for a goroutine that is elsewhere or waits, or a panic.
  unfoldable pub serve_step : ServeEvent → Serving → Go (Option Serving)
  unfolding on_discovered on_discovery_closed on_run_returned on_loop_closed on_run_closed
      on_error_read
  serve_step (discovered r) s = on_discovered equal s.finding r s
  serve_step discovery_closed s = returns (on_discovery_closed s.finding s)
  serve_step (run_returned e) s = returns (on_run_returned s.ending e s)
  serve_step loop_closed s = returns (on_loop_closed s.ending s)
  serve_step run_closed s = returns (on_run_closed s.ending s)
  serve_step error_read s = returns (on_error_read s)

  -- The states that a list of steps leads to.
  pub data ServeRun (s : Serving) : List ServeEvent → Serving → Type 0 where
    served_none : ServeRun s [] s
    served_more :
        {es : List ServeEvent} {t u : Serving} (e : ServeEvent)
        → ServeRun s es t
        → serve_step e t ≡ returns (some u)
        → ServeRun s (es ++ e ∷ []) u
