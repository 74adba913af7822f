-- ===== src/Server.antt =====
-- server.go: the server, its options, and the registration of its own services. A value of another
-- package (a logger, an interceptor, a meter provider, a trace resource) is told apart by number. A
-- controller has a number too, by which invokers name it, and `next` is the first number that no
-- handler and no controller has. Where the code calls log.Fatalf, which ends the program, the model
-- panics with the message's format.
pub mod Descriptors
pub mod Splicing
pub mod Serving
pub mod Setup
use totem.Base.{
  ℕ, Bool, true, false, not, Option, none, some, List, [], ◌∷◌, ◌++◌, ◌+◌, ◌-◌, Text, codes,
  text_eq, bit_or, if◌then◌else◌,
}
use totem.Base.Go.{Go, returns, panics, ◌>>=◌}
use totem.Base.Table.{Table}
use totem.Wire.{ServiceDescriptor, int32_mod}
use totem.Topology.{topology_local}
use totem.Handlers.{
  ServiceHandler, Invoker, local_service, stream_controller, new_default_service_handler, register,
}
use totem.Controller.{Controller}
use totem.Controller.Starting.{new_stream_controller}

pub record InterceptorConfig : Type 0 where
  pub incoming : Option ℕ
  pub outgoing : Option ℕ

pub record ServerOptions : Type 0 where
  pub logger : Option ℕ
  pub name : Text
  pub discovery_hop_limit : ℕ
  pub interceptors : InterceptorConfig
  pub metrics : Option ℕ
  pub tracer_options : List ℕ

-- one constructor for each function that makes a `ServerOption`
pub data ServerOption : Type 0 where
  with_interceptors : InterceptorConfig → ServerOption
  with_metrics : ℕ → ServerOption
  with_tracer_options : List ℕ → ServerOption
  with_discovery_hop_limit : ℕ → ServerOption
  with_name : Text → ServerOption
  with_logger : Option ℕ → ServerOption

pub apply_option : ServerOption → ServerOptions → ServerOptions
apply_option (with_interceptors config) o = record o { interceptors = config }
apply_option (with_metrics exporter) o = record o { metrics = some exporter }
apply_option (with_tracer_options opts) o = record o { tracer_options = opts }
apply_option (with_discovery_hop_limit limit) o = record o { discovery_hop_limit = limit }
apply_option (with_name name) o = record o { name = name }
apply_option (with_logger logger) o = record o { logger = logger }

unfoldable pub apply : List ServerOption → ServerOptions → ServerOptions
unfolding apply_option
apply [] o = o
apply (op ∷ opts) o = apply opts (apply_option op o)

-- the number of the logger that discards everything
abbrev pub noop_logger : ℕ
noop_logger = 0

abbrev pub no_interceptors : InterceptorConfig
no_interceptors = record { incoming = none; outgoing = none }

-- the options before any is applied; the hop limit is -1
abbrev pub default_options : ServerOptions
default_options = record {
  logger = some noop_logger;
  name = [];
  discovery_hop_limit = int32_mod - 1;
  interceptors = no_interceptors;
  metrics = none;
  tracer_options = [];
}

-- A stream controller with its number, and whether a call of its `CloseOrRecv` has returned.
pub record Link : Type 0 where
  pub id : ℕ
  pub state : Controller
  pub closed : Bool

pub record Server : Type 0 where
  pub options : ServerOptions
  pub stream_context : ℕ
  pub controller : Link
  pub spliced : List Link
  pub next : ℕ

-- the server with other lists of handlers in its controller
abbrev pub with_services : Table Text (List ServiceHandler) → Server → Server
with_services services srv = record srv {
  controller = record (srv.controller) {
    state = record (srv.controller.state) { services = services };
  };
}

-- What a `grpc.ServiceDesc` and an implementation say: the descriptor that reflection finds for the
-- service, if it does, and whether the type of the implementation implements the handler type.
pub record Implementation : Type 0 where
  pub implements : Bool
  pub descriptor : Option ServiceDescriptor

abbrev pub not_satisfied_fatal : Text
not_satisfied_fatal =
    codes "grpc: Server.RegisterService found the handler of type %v that does not satisfy %v"

abbrev pub nil_fatal : Text
nil_fatal = codes "grpc: Server.RegisterService found nil service implementation"

abbrev pub descriptor_fatal : Text
descriptor_fatal = codes "totem: failed to load service descriptor: %v"

module _ (equal : ServiceDescriptor → ServiceDescriptor → Bool)
    (reflection : ServiceDescriptor) where
  -- The controller's number is `start`, and its two handlers' are the two that follow.
  -- `known` has the streams that have a receiver.
  unfoldable pub new_server : Text → ℕ → List ℕ → ℕ → ℕ → List ServerOption → Go (List ℕ × Server)
  unfolding apply new_stream_controller
  new_server uuid stream known stream_context start opts = do
    (known', ctrl) ←
        new_stream_controller equal uuid ((apply opts default_options).name) 0 stream known
          stream_context start (start + 1) (start + 2) reflection
    returns (
      known',
      record {
        options = apply opts default_options;
        stream_context = stream_context;
        controller = record { id = start; state = ctrl; closed = false };
        spliced = [];
        next = start + 3;
      },
    )

module _ (equal : ServiceDescriptor → ServiceDescriptor → Bool) where
  -- `register`, with what `LoadServiceDesc` returns; the new invoker and its handler take two numbers
  unfoldable pub register_local : Option ServiceDescriptor → Server → Go Server
  unfolding new_default_service_handler register
  register_local none srv = panics descriptor_fatal
  register_local (some desc) srv = do
    handler ←
        new_default_service_handler (srv.next + 1) srv.stream_context desc
          (record { target = local_service srv.next; flags = bit_or 0 topology_local })
    services ← register equal handler srv.controller.state.services
    returns (record (with_services services srv) { next = srv.next + 2 })

  unfoldable pub register_service : Option Implementation → Server → Go Server
  unfolding register_local
  register_service none srv = panics nil_fatal
  register_service (some impl) srv =
      if not impl.implements then panics not_satisfied_fatal else register_local impl.descriptor srv
