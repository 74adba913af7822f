-- ===== src/Controller/Dispatch/Broadcast.antt =====
-- Requests that go to every handler of a service.
use totem.Base.{
  ◌≡◌, ◌∙◌, ◌<◌, refl, sym, ap, true, some, List, [], ◌∷◌, ◌++◌, append-nil, append_assoc, Text,
  Bytes, text_eq, All, Bool-cases, inl, inr, length, ltb_iff, arith,
}
use totem.Base.Table.{Table, load}
use totem.Wire.{Rpc, Qos, broadcast, ServiceDescriptor}
use totem.Status.{Result, StatusApi}
use totem.Context.{Ctx}
use totem.Handlers.{ServiceHandler, Invoker, range}
use totem.Handlers.Building.{IsComplete, declares}
use totem.Handlers.Registry.{IsUniform, range-next}
use totem.Controller.Dispatch.{
  Streaming, reply, broadcast_one, broadcasts, dispatch, handle_request,
}

-- The invokers, one for each handler and in the same order, that the handlers have for a method.
abbrev pub Matched : Text → List ServiceHandler → List Invoker → Type 0
Matched method [] [] = Unit
Matched method (h ∷ hs) (i ∷ is) = (load method h.method_invokers ≡ some i) × Matched method hs is
Matched method _ _ = ⊥

visits :
    (method : Text) (hs : List ServiceHandler) (is acc : List Invoker)
    → Matched method hs is
    → range (broadcast_one method) hs acc ≡ (true, acc ++ is)
unfolding range
visits method [] [] acc m = ap (λ x. (true, x)) (sym (append-nil acc))
visits method [] (i ∷ is) acc m = absurd m
visits method (h ∷ hs) [] acc m = absurd m
visits method (h ∷ hs) (i ∷ is) acc (here, m) =
    range-next (broadcast_one method) h hs acc (acc ++ i ∷ []) (rw (here, broadcast_one))
    ∙ (visits method hs is (acc ++ i ∷ []) m ∙ ap (λ x. (true, x)) (append_assoc acc (i ∷ []) is))

-- Handlers of one descriptor that declares the method have an invoker for it each.
uniform-Matched :
    (method : Text) (d : ServiceDescriptor) (hs : List ServiceHandler)
    → declares method d.methods ≡ true
    → IsUniform d hs
    → All IsComplete hs
    → (is : List Invoker) × Matched method hs is
uniform-Matched method d [] yes_declared u k = ([], tt)
uniform-Matched method d (h ∷ hs) yes_declared (e, u) (k, ks) =
    let (i, here) = k.declared method (rw e yes_declared) in
    let (is, rest) = uniform-Matched method d hs yes_declared u ks in (i ∷ is, (here, rest))

-- A method with QOS options is declared.
qos_declared :
    (method : Text) (h : ServiceHandler) (q : Qos)
    → IsComplete h
    → load method h.method_qos ≡ some q
    → declares method h.descriptor.methods ≡ true
qos_declared method h q k there = elim (Bool-cases (declares method h.descriptor.methods)) [
  | inl y ↦ y
  | inr n ↦ cc ((k.undeclared method n).1)
]

broadcasts_yes :
    (method : Text) (sh : ServiceHandler) (hs : List ServiceHandler) (q : Qos)
    → 1 < length hs
    → load method sh.method_qos ≡ some q
    → q.replication_strategy ≡ broadcast
    → broadcasts method sh hs ≡ true
unfolding broadcasts
broadcasts_yes method sh hs q many there b =
    rw (there, broadcasts) (ground (arith, ltb_iff 1 (length hs)))

module _ (api : StatusApi) (empty_response : Bytes) (invoke : Invoker → Ctx → Rpc → Result Bytes)
    (invoke_stream : Invoker → Ctx → Rpc → Streaming) where
  -- Where a service has more than one handler, all made by `NewDefaultServiceHandler` and of one
  -- descriptor, and the first has the Broadcast strategy for the method, a request is passed to every
  -- handler exactly once, in order, whatever each of them returns, and is answered by one empty
  -- success: the branch for a missing method is never taken.
  pub broadcast_reaches_each :
      (services : Table Text (List ServiceHandler)) (ctx : Ctx) (msg : Rpc) (sh : ServiceHandler)
      (rest : List ServiceHandler) (q : Qos)
      → load msg.service_name services ≡ some (sh ∷ rest)
      → 1 < length (sh ∷ rest)
      → load msg.method_name sh.method_qos ≡ some q
      → q.replication_strategy ≡ broadcast
      → IsUniform sh.descriptor rest
      → All IsComplete (sh ∷ rest)
      → (is : List Invoker) × Matched msg.method_name (sh ∷ rest) is
        × (handle_request api empty_response invoke invoke_stream services ctx msg
            ≡ record { calls = is; replies = reply ctx empty_response ∷ [] })
  unfolding handle_request dispatch
  broadcast_reaches_each services ctx msg sh rest q served many there b u k =
      let (is, m) =
        uniform-Matched msg.method_name sh.descriptor (sh ∷ rest)
          (qos_declared msg.method_name sh q k.0 there) (refl, u) k in
      (
        is,
        m,
        rw (
          served,
          broadcasts_yes msg.method_name sh (sh ∷ rest) q many there b,
          visits msg.method_name (sh ∷ rest) is [] m,
        ),
      )
