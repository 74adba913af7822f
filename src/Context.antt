-- ===== src/Context.antt =====
-- A Go context as far as the controller reads it: the metadata that grpc's metadata package keeps
-- in it. Whether it has ended is for the environment to say, at each wait.
use totem.Base.{Bool, Option, none, some, [], if◌then◌else◌}
use totem.Metadata.{Pairs}

pub record Ctx : Type 0 where
  pub incoming : Option Pairs
  pub outgoing : Option Pairs

-- `TracingEnabled`, and what the text map propagator writes into the metadata of a context.
pub record Tracing : Type 0 where
  pub enabled : Bool
  pub inject : Ctx → Pairs → Pairs

-- metadata.FromOutgoingContext(ctx), or else metadata.New(nil); then the propagator's turn
unfoldable pub outgoing_md : Tracing → Ctx → Pairs
outgoing_md tracing ctx =
    let md : Pairs = elim ctx.outgoing [ none ↦ [] | some m ↦ m ] in
    if tracing.enabled then tracing.inject ctx md else md
