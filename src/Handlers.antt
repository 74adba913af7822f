-- ===== src/Handlers.antt =====
-- types.go: service handlers and their lists. A handler's pointer is the number `self`, a context
-- is a number too, since the code only compares them. An invoker is named by the local service, or
-- by the stream controller, that it calls.
pub mod Building
pub mod Total
pub mod Registry
use totem.Base.{
  ℕ, Bool, true, false, not, ◌&&◌, ◌||◌, Option, none, some, List, [], ◌∷◌, ◌++◌, Text, codes, same,
  text_eq, length, ◌==◌, if◌then◌else◌,
}
use totem.Base.Go.{Go, returns, panics, ◌>>=◌}
use totem.Base.Table.{Table, load, store}
use totem.Wire.{
  ServiceDescriptor, MethodDescriptor, Qos, ReplicationStrategy, first, broadcast, unknown,
}

pub data Target : Type 0 where
  local_service stream_controller : ℕ → Target

pub record Invoker : Type 0 where
  pub target : Target
  pub flags : ℕ

-- grpc.MethodInfo
pub record MethodInfo : Type 0 where
  pub name : Text
  pub is_client_stream : Bool
  pub is_server_stream : Bool

pub record ServiceHandler : Type 0 where
  pub self : ℕ
  pub controller_context : ℕ
  pub descriptor : ServiceDescriptor
  pub method_invokers : Table Text Invoker
  pub method_info : Table Text MethodInfo
  pub method_qos : Table Text Qos
  pub topology_flags : ℕ

abbrev pub empty_type : Text
empty_type = codes ".google.protobuf.Empty"

abbrev pub is_broadcast : ReplicationStrategy → Bool
is_broadcast first = false
is_broadcast broadcast = true
is_broadcast (unknown n) = false

not_empty_panic : Text
not_empty_panic =
    codes
      "methods with Broadcast ReplicationStrategy must have a response type of google.protobuf.Empty"

not_unary_panic : Text
not_unary_panic = codes "only unary methods can have Broadcast ReplicationStrategy"

-- what the loop stores for a method that has QOS options, after its checks
add_qos : MethodDescriptor → Qos → ServiceHandler → Go ServiceHandler
unfolding not_empty_panic not_unary_panic
add_qos m qos sh =
    let stored = returns (record sh { method_qos = store m.name qos sh.method_qos }) in
    if is_broadcast qos.replication_strategy
    then (if not (same m.output_type empty_type)
        then panics not_empty_panic
        else if m.server_streaming || m.client_streaming
        then panics not_unary_panic
        else stored)
    else stored

add_info : MethodDescriptor → ServiceHandler → ServiceHandler
add_info m sh = record sh {
  method_info =
      store m.name
        (record {
          name = m.name;
          is_client_stream = m.client_streaming;
          is_server_stream = m.server_streaming;
        })
        sh.method_info;
}

add_invoker : MethodDescriptor → Invoker → ServiceHandler → ServiceHandler
add_invoker m invoker sh = record sh { method_invokers = store m.name invoker sh.method_invokers }

check_qos : MethodDescriptor → Option Qos → ServiceHandler → Go ServiceHandler
check_qos m none sh = returns sh
check_qos m (some qos) sh = add_qos m qos sh

-- one round of the loop over `descriptor.Method`
add_method : Invoker → MethodDescriptor → ServiceHandler → Go ServiceHandler
unfolding check_qos add_info add_invoker
add_method invoker m sh = do
  checked ← check_qos m m.qos (add_info m sh)
  returns (add_invoker m invoker checked)

add_methods : Invoker → List MethodDescriptor → ServiceHandler → Go ServiceHandler
add_methods invoker [] sh = returns sh
add_methods invoker (m ∷ ms) sh = do added ← add_method invoker m sh; add_methods invoker ms added

-- `self` is the address of the new handler.
unfoldable pub new_default_service_handler : ℕ → ℕ → ServiceDescriptor → Invoker → Go ServiceHandler
unfolding add_methods add_method add_qos
new_default_service_handler self ctx descriptor invoker =
    add_methods invoker descriptor.methods (record {
      self = self;
      controller_context = ctx;
      descriptor = descriptor;
      method_invokers = [];
      method_info = [];
      method_qos = [];
      topology_flags = invoker.flags;
    })

descriptor_panic : Text
descriptor_panic = codes "entries in ServiceHandlerLists must have the same service descriptors"

abbrev pub handlers_of : Option (List ServiceHandler) → List ServiceHandler
handlers_of none = []
handlers_of (some hs) = hs

-- `ServiceHandlerList` is the list `data` of its handlers; each method holds the lock throughout.
-- `equal` is proto.Equal.
module _ (equal : ServiceDescriptor → ServiceDescriptor → Bool) where
  check_all : List ServiceHandler → ServiceHandler → Go (Unit {0})
  check_all [] sh = returns tt
  check_all (existing ∷ rest) sh =
      if equal existing.descriptor sh.descriptor then check_all rest sh else panics descriptor_panic

  unfoldable pub append : List ServiceHandler → ServiceHandler → Go (List ServiceHandler)
  unfolding check_all descriptor_panic
  append hs sh = do _ ← check_all hs sh; returns (hs ++ sh ∷ [])

  -- stream.go, `RegisterServiceHandler`: the list of the service, made if there is none, gets the
  -- handler. Where `append` panics, the empty list may stay.
  unfoldable pub register :
      ServiceHandler → Table Text (List ServiceHandler) → Go (Table Text (List ServiceHandler))
  unfolding append
  register handler services = do
    list ← append (handlers_of (load handler.descriptor.name services)) handler
    returns (store handler.descriptor.name list services)

-- The function that `Append` leaves with `context.AfterFunc`, run when the handler's context ends:
-- it deletes the first entry that is this handler.
unfoldable pub drop_ended : ℕ → List ServiceHandler → List ServiceHandler
drop_ended self [] = []
drop_ended self (h ∷ hs) = if h.self == self then hs else h ∷ drop_ended self hs

-- `Range` over a snapshot: `fn` returns false to stop, and acts on a state of the caller's.
unfoldable pub range {ℓ} :
    {S : Type ℓ} → (ServiceHandler → S → Bool × S) → List ServiceHandler → S → Bool × S
range fn [] s = (true, s)
range fn (h ∷ hs) s =
    let (more, s') = fn h s in elim more [ true ↦ range fn hs s' | false ↦ (false, s') ]

abbrev pub first_handler : List ServiceHandler → Option ServiceHandler
first_handler [] = none
first_handler (h ∷ hs) = some h
