-- ===== src/Handlers/Building.antt =====
-- What `NewDefaultServiceHandler` makes of a descriptor.
use totem.Base.{
  ℕ, Bool, true, false, ◌≡◌, refl, subst, ◌∙◌, ◌⊎◌, inl, inr, List, [], ◌∷◌, Option, none, some,
  Text, All, Bool-cases, any, same, same_iff, text_eq, if◌then◌else◌, arith,
}
use totem.Base.Go.{returns, >>=-eq-returns}
use totem.Base.Table.{load, store, load-store}
use totem.Wire.{ServiceDescriptor, MethodDescriptor, Qos}
use totem.Handlers.{
  Invoker, ServiceHandler, is_broadcast, empty_type, add_qos, check_qos, add_info, add_invoker,
  add_method, add_methods, new_default_service_handler,
}

-- The descriptor has a method of this name.
abbrev pub declares : Text → List MethodDescriptor → Bool
declares name = any λ m. same m.name name

-- Options of a method without the Broadcast strategy, or of one that returns Empty and streams in
-- neither direction.
abbrev pub QosOk : MethodDescriptor → Option Qos → Type 0
QosOk m none = Unit
QosOk m (some q) =
    (is_broadcast q.replication_strategy ≡ false)
    ⊎ ((m.output_type ≡ empty_type) × (m.server_streaming ≡ false) × (m.client_streaming ≡ false))

abbrev pub BroadcastOk : MethodDescriptor → Type 0
BroadcastOk m = QosOk m m.qos

record Added (invoker : Invoker) (m : MethodDescriptor) (sh out : ServiceHandler) : Type 0 where
  self : out.self ≡ sh.self
  context : out.controller_context ≡ sh.controller_context
  descriptor : out.descriptor ≡ sh.descriptor
  flags : out.topology_flags ≡ sh.topology_flags
  invokers : out.method_invokers ≡ store m.name invoker sh.method_invokers
  qos :
      (out.method_qos ≡ sh.method_qos)
      ⊎ ((q : Qos) × (out.method_qos ≡ store m.name q sh.method_qos))

add_qos-returns :
    (m : MethodDescriptor) (q : Qos) (sh out : ServiceHandler)
    → add_qos m q sh ≡ returns out
    → QosOk m (some q) × (out ≡ record sh { method_qos = store m.name q sh.method_qos })
unfolding add_qos
add_qos-returns m q sh out h = (
  elim (Bool-cases (is_broadcast q.replication_strategy)) [
    | inl b ↦ inr (ground (arith, same_iff m.output_type empty_type))
    | inr no_b ↦ inl no_b
  ],
  ground arith,
)

check_qos-returns :
    (m : MethodDescriptor) (o : Option Qos) (sh out : ServiceHandler)
    → check_qos m o sh ≡ returns out
    → QosOk m o
      × ((out ≡ sh) ⊎ ((q : Qos) × (out ≡ record sh { method_qos = store m.name q sh.method_qos })))
unfolding check_qos
check_qos-returns m none sh out h = (tt, inl (ground arith))
check_qos-returns m (some q) sh out h =
    let (fine, e) = add_qos-returns m q sh out h in (fine, inr (q, e))

Added-plain :
    (invoker : Invoker) (m : MethodDescriptor) (sh : ServiceHandler)
    → Added invoker m sh (add_invoker m invoker (add_info m sh))
unfolding add_info add_invoker
Added-plain invoker m sh = record {
  self = refl;
  context = refl;
  descriptor = refl;
  flags = refl;
  invokers = refl;
  qos = inl refl;
}

Added-stored :
    (invoker : Invoker) (m : MethodDescriptor) (q : Qos) (sh : ServiceHandler)
    → Added invoker m sh (
        add_invoker m invoker
          (record (add_info m sh) { method_qos = store m.name q (add_info m sh).method_qos }))
unfolding add_info add_invoker
Added-stored invoker m q sh = record {
  self = refl;
  context = refl;
  descriptor = refl;
  flags = refl;
  invokers = refl;
  qos = inr (q, refl);
}

add_method-Added :
    (invoker : Invoker) (m : MethodDescriptor) (sh out : ServiceHandler)
    → add_method invoker m sh ≡ returns out
    → BroadcastOk m × Added invoker m sh out
unfolding add_method
add_method-Added invoker m sh out h =
    let (mid, checked, built) = >>=-eq-returns (check_qos m m.qos (add_info m sh)) _ h in
    let (fine, change) = check_qos-returns m m.qos (add_info m sh) mid checked in
    let e : add_invoker m invoker mid ≡ out = cc in
    (
      fine,
      subst (Added invoker m sh) e (elim change [
        | inl p ↦ rw p (Added-plain invoker m sh)
        | inr (q, p) ↦ rw p (Added-stored invoker m q sh)
      ]),
    )

-- What the loop has made of a handler `sh` after the methods `ms`.
record Built (invoker : Invoker) (ms : List MethodDescriptor) (sh out : ServiceHandler)
    : Type 0 where
  pub self : out.self ≡ sh.self
  pub context : out.controller_context ≡ sh.controller_context
  pub descriptor : out.descriptor ≡ sh.descriptor
  pub flags : out.topology_flags ≡ sh.topology_flags
  pub invokers :
      (name : Text)
      → load name out.method_invokers
        ≡ (if declares name ms then some invoker else load name sh.method_invokers)
  pub qos :
      (name : Text) → declares name ms ≡ false → load name out.method_qos ≡ load name sh.method_qos

Added-qos :
    {invoker : Invoker} {m : MethodDescriptor} {sh out : ServiceHandler}
    → Added invoker m sh out
    → (name : Text) → same m.name name ≡ false
    → load name out.method_qos ≡ load name sh.method_qos
Added-qos {m = m} {sh = sh} a name other = elim a.qos [
  | inl e ↦ rw e
  | inr (q, e) ↦ rw (e, load-store m.name name q sh.method_qos, other)
]

add_methods-Built :
    (invoker : Invoker) (ms : List MethodDescriptor) (sh out : ServiceHandler)
    → add_methods invoker ms sh ≡ returns out
    → All BroadcastOk ms × Built invoker ms sh out
unfolding add_methods
add_methods-Built invoker [] sh out h = (
  tt,
  let e : sh ≡ out = cc in
      rw (← e) (record {
        self = refl;
        context = refl;
        descriptor = refl;
        flags = refl;
        invokers = λ name. refl;
        qos = λ name _. refl;
      }),
)
add_methods-Built invoker (m ∷ ms) sh out h =
    let (mid, one, rest) = >>=-eq-returns (add_method invoker m sh) _ h in
    let (fine, a) = add_method-Added invoker m sh mid one in
    let (all_fine, b) = add_methods-Built invoker ms mid out rest in
    (
      (fine, all_fine),
      record {
        self = b.self ∙ a.self;
        context = b.context ∙ a.context;
        descriptor = b.descriptor ∙ a.descriptor;
        flags = b.flags ∙ a.flags;
        invokers = λ name.
            ground (
              arith,
              b.invokers name,
              a.invokers,
              load-store m.name name invoker sh.method_invokers,
            );
        qos = λ name no. b.qos name (ground arith) ∙ Added-qos a name (ground arith);
      },
    )

-- What a handler has from its making: an invoker for the methods of its descriptor, and neither an
-- invoker nor QOS options for any other.
pub record IsComplete (sh : ServiceHandler) : Type 0 where
  pub declared :
      (name : Text)
      → declares name sh.descriptor.methods ≡ true
      → (invoker : Invoker) × (load name sh.method_invokers ≡ some invoker)
  pub undeclared :
      (name : Text)
      → declares name sh.descriptor.methods ≡ false
      → (load name sh.method_invokers ≡ none) × (load name sh.method_qos ≡ none)

Built-IsComplete :
    (invoker : Invoker) (start sh : ServiceHandler)
    → start.method_invokers ≡ []
    → start.method_qos ≡ []
    → Built invoker start.descriptor.methods start sh
    → IsComplete sh
Built-IsComplete invoker start sh no_invokers no_qos b = record {
  declared = λ name yes_declared. (invoker, rw (b.invokers name, ← b.descriptor, yes_declared));
  undeclared = λ name undeclared. (
    rw (b.invokers name, ← b.descriptor, undeclared, no_invokers),
    rw (b.qos name (rw b.descriptor at undeclared), no_qos),
  );
}

module _ (self ctx : ℕ) (d : ServiceDescriptor) (invoker : Invoker) where
  -- A handler that is made passed the checks on Broadcast methods, has the descriptor, the context
  -- and the flags given, and answers by the one invoker for the declared methods and for no other.
  pub new_handler_returns :
      (sh : ServiceHandler) (name : Text)
      → new_default_service_handler self ctx d invoker ≡ returns sh
      → All BroadcastOk d.methods
        × (sh.self ≡ self)
        × (sh.controller_context ≡ ctx)
        × (sh.descriptor ≡ d)
        × (sh.topology_flags ≡ invoker.flags)
        × (load name sh.method_invokers ≡ (if declares name d.methods then some invoker else none))
  unfolding new_default_service_handler
  new_handler_returns sh name h =
      let (fine, b) = add_methods-Built invoker d.methods _ sh h in
      (fine, b.self, b.context, b.descriptor, b.flags, b.invokers name)

  -- A handler that is made is complete.
  pub new_handler-IsComplete :
      (sh : ServiceHandler)
      → new_default_service_handler self ctx d invoker ≡ returns sh
      → IsComplete sh
  unfolding new_default_service_handler
  new_handler-IsComplete sh h =
      Built-IsComplete invoker _ sh refl refl (add_methods-Built invoker d.methods _ sh h).1
