-- ===== src/Discovery/Merging.antt =====
-- How the services that a node finds are merged.
use totem.Base.{
  ◌≡◌, ◌∙◌, refl, false, Option, none, some, List, [], ◌∷◌, ◌++◌, Text, Bytes, same, same_iff,
  text_eq, Bool-cases, Option-cases, inl, inr, if◌then◌else◌,
}
use totem.Base.Table.{Table, load, store, load-store, IsMap, store-IsMap}
use totem.Wire.{Rpc, ServiceDescriptor, ServiceInfo, DiscoveryRequest}
use totem.Status.{Result}
use totem.Handlers.{Invoker}
use totem.Controller.{Controller}
use totem.Discovery.{
  stops_here, pass_on, reflection_handlers, local_services, dedup, values, merge, list_services,
}
use totem.Discovery.Stops.{peers, found_by, list_services-services}

-- the first service of a list that has a name
abbrev pub find : Text → List ServiceDescriptor → Option ServiceDescriptor
find name [] = none
find name (s ∷ ss) = if same s.name name then some s else find name ss

-- No two services of the list have one name.
abbrev pub IsDistinct : List ServiceDescriptor → Type 0
IsDistinct [] = Unit
IsDistinct (s ∷ ss) = (find s.name ss ≡ none) × IsDistinct ss

abbrev or_else : Option ServiceDescriptor → Option ServiceDescriptor → Option ServiceDescriptor
or_else none o = o
or_else (some s) o = some s

-- Each service stands under its own name.
abbrev IsKeyed : Table Text ServiceDescriptor → Type 0
IsKeyed [] = Unit
IsKeyed ((name, s) ∷ t) = (s.name ≡ name) × IsKeyed t

store-IsKeyed :
    (s : ServiceDescriptor) (t : Table Text ServiceDescriptor)
    → IsKeyed t
    → IsKeyed (store s.name s t)
store-IsKeyed s [] k = (refl, tt)
store-IsKeyed s ((name, u) ∷ t) (e, k) = elim (Bool-cases (same name s.name)) [
  | inl h ↦ rw (h, store) (refl, k)
  | inr h ↦ rw (h, store) (e, store-IsKeyed s t k)
]

load-dedup :
    (name : Text) (ss : List ServiceDescriptor) (t : Table Text ServiceDescriptor)
    → load name (dedup ss t) ≡ or_else (load name t) (find name ss)
unfolding dedup
load-dedup name [] t = elim (Option-cases (load name t)) [
  | inl e ↦ rw e refl
  | inr (s, e) ↦ rw e refl
]
load-dedup name (s ∷ ss) t = elim (Option-cases (load s.name t)) [
  | inl e ↦ elim (Bool-cases (same s.name name)) [
    | inl h ↦
        let p : s.name ≡ name = (same_iff s.name name).0 h in
        rw (e, dedup, load-dedup name ss (store s.name s t), load-store, h, ← p, e) refl
    | inr h ↦ rw (e, dedup, load-dedup name ss (store s.name s t), load-store, h) refl
  ]
  | inr (u, e) ↦ elim (Bool-cases (same s.name name)) [
    | inl h ↦
        let p : s.name ≡ name = (same_iff s.name name).0 h in
        rw (e, dedup, load-dedup name ss t, h, ← p, e) refl
    | inr h ↦ rw (e, dedup, load-dedup name ss t, h) refl
  ]
]

dedup-IsMap :
    (ss : List ServiceDescriptor) (t : Table Text ServiceDescriptor)
    → IsMap t
    → IsKeyed t
    → IsMap (dedup ss t) × IsKeyed (dedup ss t)
unfolding dedup
dedup-IsMap [] t m k = (m, k)
dedup-IsMap (s ∷ ss) t m k = elim (Option-cases (load s.name t)) [
  | inl e ↦
      rw (e, dedup)
        (dedup-IsMap ss (store s.name s t) (store-IsMap s.name s t m) (store-IsKeyed s t k))
  | inr (u, e) ↦ rw (e, dedup) (dedup-IsMap ss t m k)
]

find-values :
    (name : Text) (t : Table Text ServiceDescriptor)
    → IsKeyed t
    → find name (values t) ≡ load name t
unfolding values
find-values name [] k = refl
find-values name ((key, s) ∷ t) (e, k) = rw (e, find-values name t k) refl

values-IsDistinct : (t : Table Text ServiceDescriptor) → IsMap t → IsKeyed t → IsDistinct (values t)
unfolding values
values-IsDistinct [] m k = tt
values-IsDistinct ((key, s) ∷ t) (fresh, m) (e, k) =
    (find-values s.name t k ∙ rw e fresh, values-IsDistinct t m k)

pub merge-IsDistinct : (ss : List ServiceDescriptor) → IsDistinct (merge ss)
unfolding merge
merge-IsDistinct ss = let (m, k) = dedup-IsMap ss [] tt tt in values-IsDistinct (dedup ss []) m k

pub find-merge : (name : Text) (ss : List ServiceDescriptor) → find name (merge ss) ≡ find name ss
unfolding merge
find-merge name ss =
    find-values name (dedup ss []) (dedup-IsMap ss [] tt tt).1 ∙ load-dedup name ss []

module _ (marshal : DiscoveryRequest → Bytes) (unmarshal : Bytes → Option ServiceInfo)
    (invoke : Invoker → Rpc → Result Bytes) where
  -- The services that a node lists when it does not stop have different names; and under each name
  -- is the first that was found, the node's own before those of the nodes that it asks, in the order
  -- in which it asks them: none is lost, and none is made up.
  pub list_services_merges :
      (c : Controller) (req : DiscoveryRequest) (name : Text)
      → stops_here c.uuid req ≡ false
      → IsDistinct (list_services marshal unmarshal invoke c req).services
        × (find name (list_services marshal unmarshal invoke c req).services
            ≡ find name (
                local_services c.services []
                ++ found_by marshal unmarshal invoke
                    (pass_on c.uuid req)
                    (peers c.stream_context (reflection_handlers c.services))))
  list_services_merges c req name e =
      rw (list_services-services marshal unmarshal invoke c req e)
        (merge-IsDistinct _, find-merge name _)
