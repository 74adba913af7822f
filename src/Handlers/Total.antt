-- ===== src/Handlers/Total.antt =====
-- types.go: when `NewDefaultServiceHandler` makes a handler and does not panic.
use totem.Base.{
  ℕ, ◌≡◌, refl, inl, inr, List, [], ◌∷◌, Option, none, some, All, Bool-cases, same_iff, text_eq,
  arith,
}
use totem.Base.Go.{returns, ◌>>=◌}
use totem.Base.Table.{store}
use totem.Wire.{ServiceDescriptor, MethodDescriptor, Qos}
use totem.Handlers.{
  Invoker, ServiceHandler, is_broadcast, empty_type, add_qos, check_qos, add_info, add_invoker,
  add_method, add_methods, new_default_service_handler,
}
use totem.Handlers.Building.{QosOk, BroadcastOk}

add_qos-total :
    (m : MethodDescriptor) (q : Qos) (sh : ServiceHandler)
    → QosOk m (some q)
    → add_qos m q sh ≡ returns (record sh { method_qos = store m.name q sh.method_qos })
unfolding add_qos
add_qos-total m q sh (inl no_b) = rw no_b
add_qos-total m q sh (inr (empty, server, client)) =
    elim (Bool-cases (is_broadcast q.replication_strategy)) [
      | inl b ↦ ground (arith, same_iff m.output_type empty_type)
      | inr no_b ↦ rw no_b
    ]

check_qos-total :
    (m : MethodDescriptor) (o : Option Qos) (sh : ServiceHandler)
    → QosOk m o
    → (out : ServiceHandler) × (check_qos m o sh ≡ returns out)
unfolding check_qos
check_qos-total m none sh fine = (sh, refl)
check_qos-total m (some q) sh fine = (_, add_qos-total m q sh fine)

add_methods-total :
    (invoker : Invoker) (ms : List MethodDescriptor) (sh : ServiceHandler)
    → All BroadcastOk ms
    → (out : ServiceHandler) × (add_methods invoker ms sh ≡ returns out)
unfolding add_methods add_method
add_methods-total invoker [] sh fine = (sh, refl)
add_methods-total invoker (m ∷ ms) sh fine =
    let (mid, e) = check_qos-total m m.qos (add_info m sh) fine.0 in
    let (out, rest) = add_methods-total invoker ms (add_invoker m invoker mid) fine.1 in
    (out, rw (e, ◌>>=◌) rest)

-- A handler is made, and nothing panics, whenever every method of the descriptor with the Broadcast
-- strategy is unary and returns Empty.
pub new_handler_total :
    (self ctx : ℕ) (d : ServiceDescriptor) (invoker : Invoker)
    → All BroadcastOk d.methods
    → (sh : ServiceHandler) × (new_default_service_handler self ctx d invoker ≡ returns sh)
unfolding new_default_service_handler
new_handler_total self ctx d invoker fine = add_methods-total invoker d.methods _ fine
