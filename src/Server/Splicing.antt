-- ===== src/Server/Splicing.antt =====
-- server.go: `Splice`, in two parts. The discovery between them is a call of the new controller.
pub mod Exposed
pub mod Total
pub mod Outcome
pub mod Forwarded
use totem.Base.{
  ℕ, Bool, true, false, not, ◌&&◌, Option, none, some, List, [], ◌∷◌, ◌++◌, ◌+◌, Text, codes,
  text_eq, length, if◌then◌else◌,
}
use totem.Base.Go.{Go, returns, ◌>>=◌}
use totem.Base.Table.{Table}
use totem.Wire.{ServiceDescriptor, ServiceInfo, Visibility, DiscoveryRequest}
use totem.Status.{Err, wrapped, Result, ok, err}
use totem.Topology.{has_flag, topology_local, topology_spliced}
use totem.Handlers.{ServiceHandler, Invoker, stream_controller, register, range}
use totem.Controller.{Controller}
use totem.Controller.Starting.{new_stream_controller}
use totem.Discovery.{first_request}
use totem.Server.{with_services, Server, ServerOptions, ServerOption, Link, apply, no_interceptors}
use totem.Server.Descriptors.{register_all}

-- the options of the server, for the spliced stream
abbrev pub splice_options : Server → ServerOptions
splice_options srv = record {
  logger = none;
  name = srv.options.name;
  discovery_hop_limit = srv.options.discovery_hop_limit;
  interceptors = no_interceptors;
  metrics = srv.options.metrics;
  tracer_options = srv.options.tracer_options;
}

abbrev pub shows : Option Visibility → Bool
shows none = false
shows (some vis) = vis.spliced_clients

-- whether a handler of the server is for spliced clients too
unfoldable pub is_exposed : ServiceHandler → Bool
is_exposed sh = has_flag sh.topology_flags topology_local && shows sh.descriptor.visibility

-- what `NewInvoker` returns for a controller with this number
abbrev pub invoker_of : ℕ → Controller → Invoker
invoker_of id c = record { target = stream_controller id; flags = c.base_topology_flags }

module _ (equal : ServiceDescriptor → ServiceDescriptor → Bool) where
  -- the function of the inner `Range`; once a registration has panicked, nothing follows
  pub expose_one :
      ServiceHandler
      → Go (Table Text (List ServiceHandler))
      → Bool × Go (Table Text (List ServiceHandler))
  unfolding is_exposed register
  expose_one sh table =
      (true, table >>= (λ t. if is_exposed sh then register equal sh t else returns t))

  -- the two nested `Range` loops
  unfoldable pub expose_all :
      Table Text (List ServiceHandler)
      → Go (Table Text (List ServiceHandler))
      → Go (Table Text (List ServiceHandler))
  unfolding expose_one range
  expose_all [] table = table
  expose_all ((name, handlers) ∷ rest) table = expose_all rest ((range expose_one handlers table).1)

module _ (equal : ServiceDescriptor → ServiceDescriptor → Bool)
    (reflection : ServiceDescriptor) where
  -- `Splice` up to the start of `Run`: the new controller, whose numbers begin at the server's
  -- next. `known` has the streams that have a receiver.
  unfoldable pub splice_start :
      Text → ℕ → List ℕ → ℕ → List ServerOption → Server → Go (List ℕ × Link)
  unfolding apply new_stream_controller expose_all
  splice_start uuid stream known stream_context opts srv = do
    (known', ctrl) ←
        new_stream_controller equal uuid ((apply opts (splice_options srv)).name) topology_spliced
          stream known stream_context srv.next (srv.next + 1) (srv.next + 2) reflection
    services ← expose_all equal srv.controller.state.services (returns ctrl.services)
    returns (
      known',
      record { id = srv.next; state = record ctrl { services = services }; closed = false },
    )

-- the request by which the discovery of `Splice` begins
unfoldable pub splice_request : Server → Link → DiscoveryRequest
unfolding first_request
splice_request srv link = first_request link.state.uuid srv.options.discovery_hop_limit

module _ (equal : ServiceDescriptor → ServiceDescriptor → Bool) where
  -- The rest of `Splice`, with the controller as it is then and what the discovery returned. The
  -- numbers of the new handlers follow those of the controller.
  unfoldable pub splice_finish : Link → Result ServiceInfo → Server → Go (Server × Option Err)
  unfolding register_all
  splice_finish link (err e) srv =
      returns
        (record srv { next = srv.next + 3 }, some (wrapped (codes "service discovery failed") e))
  splice_finish link (ok info) srv = do
    services ←
        register_all equal link.state.stream_context (invoker_of link.id link.state) (srv.next + 3)
          info.services srv.controller.state.services
    returns (
      record (with_services services srv) {
        spliced = srv.spliced ++ link ∷ [];
        next = srv.next + 3 + length info.services;
      },
      none,
    )
