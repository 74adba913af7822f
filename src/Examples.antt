-- ===== src/Examples.antt =====
-- Concrete data of the tests: what stands for grpc's status package, contexts, a controller with no
-- calls, and the messages of two calls.
mod Calls
mod Requests
mod Texts
mod Discoveries
mod Streams
mod Descriptors
mod Servers
mod Talks
use totem.Base.{
  ℕ, ◌≡◌, ◌≢◌, ◌∙◌, refl, Bool, true, false, Option, none, some, List, [], ◌∷◌, ◌++◌, Text, codes,
  ◌==◌, ==_iff, Bool-cases, inl, inr, arith, if◌then◌else◌,
}
use totem.Wire.{Rpc, Status, request, response, server_stream_msg}
use totem.Status.{Err, eof, status, ended, wrapped, plain, StatusApi, code_unknown, ok_status}
use totem.Context.{Ctx, Tracing}
use totem.Controller.{Controller, running, Verdict, next, blocks, crashes}
use totem.Controller.Receiving.{Event, issues, transmits, arrives, reads}

abbrev convert_err : Option Err → Option Status
convert_err none = none
convert_err (some (status s)) = some s
convert_err (some _) = some (record { code = code_unknown; message = [] })

abbrev code_of_err : Err → ℕ
code_of_err (status s) = s.code
code_of_err _ = code_unknown

abbrev err_of_status : Status → Option Err
err_of_status s = if s.code == 0 then none else some (status s)

pub zero_none : (s : Status) → s.code ≡ 0 → err_of_status s ≡ none
zero_none s e = rw e refl

pub other_some : (s : Status) → s.code ≢ 0 → err_of_status s ≡ some (status s)
other_some s ne = elim (Bool-cases (s.code == 0)) [
  | inl e ↦ absurd (ne ((==_iff s.code 0).0 e))
  | inr e ↦ rw e refl
]

abbrev pub grpc_status : StatusApi
grpc_status = record {
  convert = convert_err;
  err_of = err_of_status;
  code_of = code_of_err;
  quote = λ t. b'"' ∷ t ++ b'"' ∷ [];
  convert_nil = refl;
  convert_status = λ s. refl;
  err_of_ok = zero_none;
  err_of_ne = other_some;
}

abbrev pub no_tracing : Tracing
no_tracing = record { enabled = false; inject = λ ctx md. md }

abbrev pub background : Ctx
background = record { incoming = none; outgoing = none }

abbrev pub fresh : Controller
fresh = record {
  uuid = codes "a";
  name = [];
  base_topology_flags = 0;
  stream_context = 7;
  count = 0;
  pending = [];
  channels = [];
  services = [];
  waiting = [];
  sent = [];
  tasks = [];
  kicked = false;
  kick = none;
  phase = running;
}

abbrev pub ping : Rpc
ping = record {
  tag = 0;
  service_name = codes "s";
  method_name = codes "m";
  content = some (request (1 ∷ []));
  metadata = none;
}

abbrev pub answer : ℕ → Rpc
answer tag = record {
  tag = tag;
  service_name = [];
  method_name = [];
  content = some (response (some (record { response = 2 ∷ []; status_proto = some ok_status })));
  metadata = none;
}

abbrev pub part : ℕ → Rpc
part tag = record {
  tag = tag;
  service_name = [];
  method_name = [];
  content = some (server_stream_msg (some (record { headers = none; response = 3 ∷ [] })));
  metadata = none;
}

-- two calls, of which the second is answered first, and the first has a stream message
abbrev pub two_calls : List Event
two_calls =
    issues background ping
    ∷ issues background ping
    ∷ transmits 1 none
    ∷ arrives (answer 2)
    ∷ transmits 0 none
    ∷ arrives (part 1)
    ∷ reads 0
    ∷ []

abbrev pub state_of : Verdict → Controller
state_of (next c) = c
state_of blocks = fresh
state_of (crashes p) = fresh
