-- ===== src/Discovery/Chains.antt =====
-- How far the request of a discovery goes from node to node.
use totem.Base.{
  ℕ, suc, ◌≡◌, ◌∙◌, ◌+◌, ◌^◌, ◌<◌, ◌≤◌, refl, sym, ap, subst, Bool, true, false, ◌||◌, Option, List,
  [], ◌∷◌, ◌++◌, map, append-nil, append_assoc, Text, Bytes, same, same_iff, any, All, Any, length,
  Bool-cases, inl, inr, arith, if◌then◌else◌,
}
use totem.Wire.{Rpc, ServiceInfo, DiscoveryRequest, int32_mod}
use totem.Status.{Result}
use totem.Handlers.{Invoker}
use totem.Controller.{Controller}
use totem.Discovery.{stops_here, pass_on, reflection_handlers, list_services, first_request}
use totem.Discovery.Stops.{peers, list_services_asks}

-- the bit patterns from here on are negative as an int32
abbrev pub int32_negative : ℕ
int32_negative = 2 ^ 31

abbrev pub is_among : List Text → Text → Bool
is_among us u = any (λ v. same v u) us

-- No name stands twice in the list.
abbrev pub AreDifferent : List Text → Type 0
AreDifferent [] = Unit
AreDifferent (u ∷ us) = All (λ w. same u w ≡ false) us × AreDifferent us

-- The request was sent by the invoker.
abbrev pub IsSent : Invoker → DiscoveryRequest → List (Invoker × DiscoveryRequest) → Type 0
IsSent i next = Any (λ p. p ≡ (i, next))

module _ (marshal : DiscoveryRequest → Bytes) (unmarshal : Bytes → Option ServiceInfo)
    (invoke : Invoker → Rpc → Result Bytes) where
  -- A request goes from node to node: each node sends one of those that its `ListServices` sends,
  -- whatever the node's state, and the next node receives it as it was sent. The list has the uuids
  -- of the nodes that have passed it on.
  pub data Chain : DiscoveryRequest → List Text → DiscoveryRequest → Type 0 where
    arrived : (r : DiscoveryRequest) → Chain r [] r
    asks :
        (r next out : DiscoveryRequest) (us : List Text) (c : Controller) (i : Invoker)
        → IsSent i next (list_services marshal unmarshal invoke c r).asked
        → Chain next us out
        → Chain r (c.uuid ∷ us) out

Any-map :
    (r next : DiscoveryRequest) (i : Invoker) (is : List Invoker)
    → IsSent i next (map (λ j. (j, r)) is)
    → next ≡ r
Any-map r next i [] h = absurd h
Any-map r next i (j ∷ js) (inl e) = sym (ap (λ (p : Invoker × DiscoveryRequest). p.1) e)
Any-map r next i (j ∷ js) (inr h) = Any-map r next i js h

abbrev all_asked : Controller → DiscoveryRequest → List (Invoker × DiscoveryRequest)
all_asked c r =
    map (λ i. (i, pass_on c.uuid r)) (peers c.stream_context (reflection_handlers c.services))

goes_on :
    (uuid : Text) (r : DiscoveryRequest)
    → stops_here uuid r ≡ false
    → r.remaining_hops < int32_mod
    → (pass_on uuid r).remaining_hops + 1 ≡ r.remaining_hops
unfolding stops_here pass_on
goes_on uuid r h small = ground arith

not_seen :
    (uuid : Text) (r : DiscoveryRequest)
    → stops_here uuid r ≡ false
    → (same r.initiator uuid ≡ false) × (is_among r.visited uuid ≡ false)
unfolding stops_here
not_seen uuid r h = ground arith

is_among-concat :
    (vs : List Text) (u w : Text) → is_among (vs ++ u ∷ []) w ≡ (is_among vs w || same u w)
is_among-concat [] u w = ground arith
is_among-concat (v ∷ vs) u w = ground (arith, is_among-concat vs u w)

-- what is new to a longer list of visited nodes is new to the shorter, and is not the last of them
new_split :
    (vs : List Text) (u : Text) (us : List Text)
    → All (λ w. is_among (vs ++ u ∷ []) w ≡ false) us
    → All (λ w. is_among vs w ≡ false) us × All (λ w. same u w ≡ false) us
new_split vs u [] h = (tt, tt)
new_split vs u (w ∷ ws) (h, hs) =
    let (old, new) = new_split vs u ws hs in
    ((ground (arith, is_among-concat vs u w), old), (ground (arith, is_among-concat vs u w), new))

-- The list without the first place that has a name.
erase : Text → List Text → List Text
erase u [] = []
erase u (v ∷ vs) = let rest = erase u vs in if same v u then vs else v ∷ rest

length-erase :
    (u : Text) (vs : List Text) → is_among vs u ≡ true → suc (length (erase u vs)) ≡ length vs
unfolding erase
length-erase u [] h = cc
length-erase u (v ∷ vs) h = elim (Bool-cases (same v u)) [
  | inl e ↦ rw (e, erase) refl
  | inr e ↦ rw (e, erase) (ap suc (length-erase u vs (ground arith)))
]

among-erase :
    (u w : Text) (vs : List Text)
    → same u w ≡ false
    → is_among vs w ≡ true
    → is_among (erase u vs) w ≡ true
unfolding erase
among-erase u w [] ne h = cc
among-erase u w (v ∷ vs) ne h = elim (Bool-cases (same v u)) [
  | inl e ↦
      let p : v ≡ u = (same_iff v u).0 e in
      let miss : same v w ≡ false = rw p ne in rw (e, erase) (ground arith)
  | inr e ↦ elim (Bool-cases (same v w)) [
    | inl k ↦ rw (e, erase, k) refl
    | inr k ↦ rw (e, erase, k) (among-erase u w vs ne (ground arith))
  ]
]

All-among-erase :
    (u : Text) (vs us : List Text)
    → All (λ w. same u w ≡ false) us
    → All (λ w. is_among vs w ≡ true) us
    → All (λ w. is_among (erase u vs) w ≡ true) us
All-among-erase u vs [] n h = tt
All-among-erase u vs (w ∷ ws) (n, ns) (h, hs) =
    (among-erase u w vs n h, All-among-erase u vs ws ns hs)

-- Different names of one list are not more than it has.
different-fit :
    (us vs : List Text)
    → AreDifferent us
    → All (λ w. is_among vs w ≡ true) us
    → length us ≤ length vs
different-fit [] vs d h = omega arith
different-fit (u ∷ us) vs (n, d) (h, hs) =
    omega
      (arith, length-erase u vs h, different-fit us (erase u vs) d (All-among-erase u vs us n hs))

pass_on-visited :
    (uuid : Text) (r : DiscoveryRequest) → (pass_on uuid r).visited ≡ r.visited ++ uuid ∷ []
unfolding pass_on
pass_on-visited uuid r = refl

pass_on-initiator : (uuid : Text) (r : DiscoveryRequest) → (pass_on uuid r).initiator ≡ r.initiator
unfolding pass_on
pass_on-initiator uuid r = refl

module _ (marshal : DiscoveryRequest → Bytes) (unmarshal : Bytes → Option ServiceInfo)
    (invoke : Invoker → Rpc → Result Bytes) where
  asked-pass_on :
      (c : Controller) (r next : DiscoveryRequest) (i : Invoker)
      → IsSent i next (list_services marshal unmarshal invoke c r).asked
      → (stops_here c.uuid r ≡ false) × (next ≡ pass_on c.uuid r)
  asked-pass_on c r next i h =
      let asked = subst (IsSent i next) (list_services_asks marshal unmarshal invoke c r) h in
      elim (Bool-cases (stops_here c.uuid r)) [
        | inl e ↦ absurd (subst (λ b. IsSent i next (if b then [] else all_asked c r)) e asked)
        | inr e ↦ (
          e,
          Any-map (pass_on c.uuid r) next i
              (peers c.stream_context (reflection_handlers c.services))
              (subst (λ b. IsSent i next (if b then [] else all_asked c r)) e asked),
        )
      ]

  Chain-counted :
      (r out : DiscoveryRequest) (us : List Text)
      → r.remaining_hops < int32_mod
      → Chain marshal unmarshal invoke r us out
      → length us + out.remaining_hops ≡ r.remaining_hops
  Chain-counted r _ [] small (arrived _) = omega arith
  Chain-counted r out _ small (asks _ next _ us c i sent rest) =
      let (goes, e) = asked-pass_on c r next i sent in
      let less : next.remaining_hops + 1 ≡ r.remaining_hops = rw e (goes_on c.uuid r goes small) in
      let there = Chain-counted next out us (omega arith) rest in omega arith

  -- With a limit that is not negative as an int32, the hops that a request has left go down by one at
  -- each node that passes it on, and the number does not become negative: it goes through no more
  -- nodes than the limit it began with.
  pub Chain-hops :
      (r out : DiscoveryRequest) (us : List Text)
      → r.remaining_hops < int32_negative
      → Chain marshal unmarshal invoke r us out
      → (length us + out.remaining_hops ≡ r.remaining_hops) × (out.remaining_hops < int32_negative)
  Chain-hops r out us small chain =
      let counted = Chain-counted r out us (omega arith) chain in (counted, omega arith)

  -- The nodes that pass a request on are different from each other, from the initiator and from
  -- those that it had visited before, and they are added to the visited ones in order.
  pub Chain-visits_once :
      (r out : DiscoveryRequest) (us : List Text)
      → Chain marshal unmarshal invoke r us out
      → AreDifferent us
        × All (λ u. same r.initiator u ≡ false) us
        × All (λ u. is_among r.visited u ≡ false) us
        × (out.visited ≡ r.visited ++ us)
  Chain-visits_once r _ [] (arrived _) = (tt, tt, tt, sym (append-nil r.visited))
  Chain-visits_once r out _ (asks _ next _ us c i sent rest) =
      let (goes, e) = asked-pass_on c r next i sent in
      let visited : next.visited ≡ r.visited ++ c.uuid ∷ [] = rw e (pass_on-visited c.uuid r) in
      let initiator : next.initiator ≡ r.initiator = rw e (pass_on-initiator c.uuid r) in
      let (different, foreign, new, grown) = Chain-visits_once next out us rest in
      let (old, here) =
        new_split r.visited c.uuid us
          (subst (λ vs. All (λ u. is_among vs u ≡ false) us) visited new) in
      let (not_initiator, not_visited) = not_seen c.uuid r goes in
      (
        (here, different),
        (not_initiator, subst (λ t. All (λ u. same t u ≡ false) us) initiator foreign),
        (not_visited, old),
        grown ∙ (ap (λ vs. vs ++ us) visited ∙ append_assoc r.visited (c.uuid ∷ []) us),
      )

  -- A discovery ends on every network, also with the hop limit turned off by a negative number: its
  -- request is passed on by fewer nodes than there are, since the initiator does not pass it on.
  pub discovery_ends :
      (nodes : List Text) (initiator : Text) (max_hops : ℕ) (out : DiscoveryRequest)
      (us : List Text)
      → is_among nodes initiator ≡ true
      → All (λ u. is_among nodes u ≡ true) us
      → Chain marshal unmarshal invoke (first_request initiator max_hops) us out
      → length us + 1 ≤ length nodes
  unfolding first_request
  discovery_ends nodes initiator max_hops out us home known chain =
      let (different, foreign, _, _) =
        Chain-visits_once (first_request initiator max_hops) out us chain in
      omega (arith, different-fit (initiator ∷ us) nodes (foreign, different) (home, known))
