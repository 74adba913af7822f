-- ===== src/Controller/Starting.antt =====
-- stream.go: `NewStreamController`. The descriptor of the reflection service is loaded by a library;
-- the worker pool and the tracer have no part in the state, and the receiver is a component of its
-- own (Receiver), of which the registry of known streams is kept here.
use totem.Base.{
  ℕ, ◌≡◌, ◌∙◌, refl, Bool, true, false, none, List, [], ◌∷◌, Text, text_eq, All, bit_or, any, ◌==◌,
  nat_eq,
}
use totem.Base.Go.{Go, returns, panics, ◌>>=◌, >>=-returns}
use totem.Base.Table.{Table}
use totem.Receiver.{new_recv_wrapper, two_wrappers}
use totem.Wire.{ServiceDescriptor}
use totem.Topology.{topology_local}
use totem.Handlers.{
  ServiceHandler, local_service, stream_controller, new_default_service_handler, register,
}
use totem.Handlers.Building.{BroadcastOk, new_handler_returns}
use totem.Handlers.Total.{new_handler_total}
use totem.Handlers.Registry.{register_alone, register_second}
use totem.Controller.{Controller, running}
use totem.Controller.Receiving.Runs.{IsFresh}

abbrev pub start_state : Text → Text → ℕ → ℕ → Table Text (List ServiceHandler) → Controller
start_state uuid name flags ctx services = record {
  uuid = uuid;
  name = name;
  base_topology_flags = flags;
  stream_context = ctx;
  count = 0;
  pending = [];
  channels = [];
  services = services;
  waiting = [];
  sent = [];
  tasks = [];
  kicked = false;
  kick = none;
  phase = running;
}

module _ (equal : ServiceDescriptor → ServiceDescriptor → Bool) where
  -- What follows the making of the receiver. The handlers are at the addresses `near` and `far`, and
  -- `self` is the controller.
  pub fresh_controller :
      (uuid name : Text) (flags ctx self near far : ℕ) (desc : ServiceDescriptor) → Go Controller
  unfolding new_default_service_handler register
  fresh_controller uuid name flags ctx self near far desc = do
    here ←
        new_default_service_handler near ctx desc
          (record { target = local_service self; flags = bit_or flags topology_local })
    one ← register equal here []
    there ←
        new_default_service_handler far ctx desc
          (record { target = stream_controller self; flags = flags })
    two ← register equal there one
    returns (start_state uuid name flags ctx two)

  -- `known` has the streams that have a receiver.
  unfoldable pub new_stream_controller :
      (uuid name : Text) (flags stream : ℕ) (known : List ℕ) (ctx self near far : ℕ)
      (desc : ServiceDescriptor)
      → Go (List ℕ × Controller)
  unfolding new_recv_wrapper fresh_controller
  new_stream_controller uuid name flags stream known ctx self near far desc = do
    received ← new_recv_wrapper stream known
    sh ← fresh_controller uuid name flags ctx self near far desc
    returns (received.0, sh)

  starting :
      (uuid name : Text) (flags ctx self near far : ℕ) (desc : ServiceDescriptor)
      (a b : ServiceHandler) (one two : Table Text (List ServiceHandler))
      → new_default_service_handler near ctx desc
          (record { target = local_service self; flags = bit_or flags topology_local })
        ≡ returns a
      → register equal a [] ≡ returns one
      → new_default_service_handler far ctx desc
          (record { target = stream_controller self; flags = flags })
        ≡ returns b
      → register equal b one ≡ returns two
      → fresh_controller uuid name flags ctx self near far desc
        ≡ returns (start_state uuid name flags ctx two)
  unfolding fresh_controller
  starting uuid name flags ctx self near far desc a b one two ea e1 eb e2 =
      >>=-returns _ a _ ea
      ∙ (>>=-returns _ one
            (λ x.
              new_default_service_handler far ctx desc
                (record { target = stream_controller self; flags = flags })
              >>= (λ y. register equal y x >>= (λ z. returns (start_state uuid name flags ctx z))))
            e1
          ∙ (>>=-returns _ b
                (λ y. register equal y one >>= (λ z. returns (start_state uuid name flags ctx z)))
                eb
              ∙ >>=-returns _ two (λ z. returns (start_state uuid name flags ctx z)) e2))

  begun :
      (uuid name : Text) (flags stream : ℕ) (known : List ℕ) (ctx self near far : ℕ)
      (desc : ServiceDescriptor) (c : Controller)
      → any (λ s. s == stream) known ≡ false
      → fresh_controller uuid name flags ctx self near far desc ≡ returns c
      → new_stream_controller uuid name flags stream known ctx self near far desc
        ≡ returns (stream ∷ known, c)
  unfolding new_stream_controller new_recv_wrapper
  begun uuid name flags stream known ctx self near far desc c new made =
      rw new (>>=-returns _ c (λ sh. returns (stream ∷ known, sh)) made)

  -- There is at most one controller for a stream.
  pub new_stream_controller_known :
      (uuid name : Text) (flags stream : ℕ) (known : List ℕ) (ctx self near far : ℕ)
      (desc : ServiceDescriptor)
      → any (λ s. s == stream) known ≡ true
      → new_stream_controller uuid name flags stream known ctx self near far desc
        ≡ panics two_wrappers
  unfolding new_stream_controller new_recv_wrapper
  new_stream_controller_known uuid name flags stream known ctx self near far desc old = rw old refl

  -- If the stream has no receiver yet, proto.Equal finds the reflection descriptor equal to itself, and
  -- its Broadcast methods pass the checks, a new controller is made without a panic; it has no calls, and it serves the reflection
  -- service, and nothing else, by two handlers of the reflection descriptor.
  pub new_stream_controller-IsFresh :
      (uuid name : Text) (flags stream : ℕ) (known : List ℕ) (ctx self near far : ℕ)
      (desc : ServiceDescriptor)
      → any (λ s. s == stream) known ≡ false
      → equal desc desc ≡ true
      → All BroadcastOk desc.methods
      → (c : Controller) × (new_stream_controller uuid name flags stream known ctx self near far
            desc
          ≡ returns (stream ∷ known, c))
        × IsFresh c
        × (a : ServiceHandler) × (b : ServiceHandler) × (c.services ≡ (desc.name, a ∷ b ∷ []) ∷ [])
        × (a.self ≡ near)
        × (b.self ≡ far)
        × (a.descriptor ≡ desc)
        × (b.descriptor ≡ desc)
  new_stream_controller-IsFresh uuid name flags stream known ctx self near far desc new ok fine =
      let (a, ea) =
        new_handler_total near ctx desc
          (record { target = local_service self; flags = bit_or flags topology_local }) fine in
      let (b, eb) =
        new_handler_total far ctx desc (record { target = stream_controller self; flags = flags })
          fine in
      let (_, near_self, _, da, _, _) =
        new_handler_returns near ctx desc
          (record { target = local_service self; flags = bit_or flags topology_local }) a [] ea in
      let (_, far_self, _, db, _, _) =
        new_handler_returns far ctx desc (record { target = stream_controller self; flags = flags })
          b [] eb in
      let services : Table Text (List ServiceHandler) = (desc.name, a ∷ b ∷ []) ∷ [] in
      (
        start_state uuid name flags ctx services,
        begun uuid name flags stream known ctx self near far desc
            (start_state uuid name flags ctx services) new
            (starting uuid name flags ctx self near far desc a b ((a.descriptor.name, a ∷ []) ∷ [])
              services ea (register_alone equal a) eb (register_second equal a b desc da db ok)),
        record { count = refl; channels = refl; pending = refl },
        a,
        b,
        refl,
        near_self,
        far_self,
        da,
        db,
      )
