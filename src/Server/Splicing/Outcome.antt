-- ===== src/Server/Splicing/Outcome.antt =====
-- What `Splice` does, as a whole: how the new controller starts, and what the server's has after.
use totem.Base.{
  ℕ, ◌≡◌, ◌∙◌, refl, sym, ap, Bool, true, false, ◌&&◌, none, List, [], ◌∷◌, ◌++◌, ◌+◌, All,
  append-nil, Bool-cases, inl, inr, Text, same, same_iff, same_refl, text_eq, any, ◌==◌, nat_eq,
  if◌then◌else◌,
}
use totem.Base.Go.{returns, panics, ◌>>=◌, >>=-returns}
use totem.Base.Table.{Table, load, IsMap}
use totem.Wire.{ServiceDescriptor}
use totem.Topology.{topology_spliced, topology_local, has_flag}
use totem.Handlers.{ServiceHandler, handlers_of}
use totem.Handlers.Building.{BroadcastOk}
use totem.Handlers.Registry.{IsServed, IsUniform}
use totem.Controller.{Controller}
use totem.Controller.Receiving.Runs.{IsFresh}
use totem.Controller.Starting.{new_stream_controller_known, new_stream_controller-IsFresh}
use totem.Receiver.{two_wrappers}
use totem.Server.{Server, ServerOption, Link, apply}
use totem.Server.Splicing.{shows, is_exposed, expose_all, splice_start, splice_options}
use totem.Server.Splicing.Exposed.{exposed, shown, shown_all, expose_all-shown}
use totem.Server.Splicing.Total.{Agrees, Fitting, AllFitting, expose_all-total}

-- The registry of a server: a map whose lists are of one descriptor each, under its name.
pub record IsRegistry (services : Table Text (List ServiceHandler)) : Type 0 where
  pub keys_once : IsMap services
  pub served : (n : Text) → IsServed n (handlers_of (load n services))

pub nameless : (n : Text) → IsServed n []
nameless n = (record { name = n; methods = []; visibility = none }, refl, tt)

tail-IsRegistry :
    (n : Text) (hs : List ServiceHandler) (rest : Table Text (List ServiceHandler))
    → IsRegistry ((n, hs) ∷ rest)
    → IsRegistry rest
tail-IsRegistry n hs rest r = record {
  keys_once = r.keys_once.1;
  served = λ m. elim (Bool-cases (same n m)) [
    | inl hit ↦
        let e : n ≡ m = (same_iff n m).0 hit in
        let gone : load m rest ≡ none = ap (λ x. load x rest) (sym e) ∙ r.keys_once.0 in
        rw gone (nameless m)
    | inr miss ↦ let old = r.served m in rw miss at old
  ];
}

head-served :
    (n : Text) (hs : List ServiceHandler) (rest : Table Text (List ServiceHandler))
    → IsRegistry ((n, hs) ∷ rest)
    → IsServed n hs
head-served n hs rest r = let s = r.served n in rw (same_refl n) at s

is_exposed_lem :
    (h : ServiceHandler)
    → is_exposed h ≡ (has_flag h.topology_flags topology_local && shows h.descriptor.visibility)
unfolding is_exposed
is_exposed_lem h = refl

-- The handlers of one list have one name.
shown-uniform :
    (k : Text) (d : ServiceDescriptor) (hs : List ServiceHandler)
    → IsUniform d hs
    → shown k hs ≡ (if same d.name k then exposed hs else [])
shown-uniform k d [] u = elim (Bool-cases (same d.name k)) [ inl y ↦ rw y refl | inr n ↦ rw n refl ]
shown-uniform k d (h ∷ hs) (e, u) =
    let ih = shown-uniform k d hs u in
    let named : same h.descriptor.name k ≡ same d.name k = ap (λ x. same x.name k) e in
    elim (Bool-cases (is_exposed h)) [
      | inl open_to ↦
          let seen = sym (is_exposed_lem h) ∙ open_to in
          elim (Bool-cases (same d.name k)) [
            | inl hit ↦ rw (open_to, seen, named, hit) (ap (λ x. h ∷ x) (rw hit at ih))
            | inr miss ↦ rw (open_to, named, miss) (rw miss at ih)
          ]
      | inr hidden ↦ let unseen = sym (is_exposed_lem h) ∙ hidden in rw (hidden, unseen) ih
    ]

shown_all-load :
    (k : Text) (services : Table Text (List ServiceHandler))
    → IsRegistry services
    → shown_all k services ≡ exposed (handlers_of (load k services))
shown_all-load k [] r = refl
shown_all-load k ((n, hs) ∷ rest) r =
    let (d, named, u) = head-served n hs rest r in
    let tail = shown_all-load k rest (tail-IsRegistry n hs rest r) in
    elim (Bool-cases (same n k)) [
      | inl hit ↦
          let e : n ≡ k = (same_iff n k).0 hit in
          let gone : load k rest ≡ none = ap (λ x. load x rest) (sym e) ∙ r.keys_once.0 in
          rw (shown-uniform k d hs u, named, hit, tail, gone) (append-nil (exposed hs))
      | inr miss ↦ rw (shown-uniform k d hs u, named, miss) tail
    ]

fitting :
    (of : Text → ServiceDescriptor) (n : Text) (d : ServiceDescriptor) (hs : List ServiceHandler)
    → d.name ≡ n
    → IsUniform d hs
    → IsUniform (of n) hs
    → Fitting of hs
fitting of n d [] named u v = tt
fitting of n d (h ∷ hs) named (e, u) (f, v) = (
  f ∙ ap of (sym (ap (λ (x : ServiceDescriptor). x.name) e ∙ named)),
  fitting of n d hs named u v,
)

tail-Agrees :
    (of : Text → ServiceDescriptor) (n : Text) (hs : List ServiceHandler)
    (rest : Table Text (List ServiceHandler))
    → load n rest ≡ none
    → Agrees of ((n, hs) ∷ rest)
    → Agrees of rest
tail-Agrees of n hs rest fresh a m = elim (Bool-cases (same n m)) [
  | inl hit ↦
      let gone : load m rest ≡ none = ap (λ x. load x rest) (sym ((same_iff n m).0 hit)) ∙ fresh in
      rw gone tt
  | inr miss ↦ let old = a m in rw miss at old
]

entries-Fitting :
    (of : Text → ServiceDescriptor) (services : Table Text (List ServiceHandler))
    → IsRegistry services
    → Agrees of services
    → AllFitting of services
entries-Fitting of [] r a = tt
entries-Fitting of ((n, hs) ∷ rest) r a =
    let (d, named, u) = head-served n hs rest r in
    let mine = a n in
    (
      fitting of n d hs named u (rw (same_refl n) at mine),
      entries-Fitting of rest (tail-IsRegistry n hs rest r)
          (tail-Agrees of n hs rest r.keys_once.0 a),
    )

module _ (reflection : ServiceDescriptor) (services : Table Text (List ServiceHandler))
    (r : IsRegistry services)
    (reflects : IsUniform reflection (handlers_of (load reflection.name services))) where
  -- the descriptor of each name
  of : Text → ServiceDescriptor
  of n = if same reflection.name n then reflection else (r.served n).0

  of-Agrees : (n : Text) → IsUniform (of n) (handlers_of (load n services))
  unfolding of
  of-Agrees n = elim (Bool-cases (same reflection.name n)) [
    | inl hit ↦
        let e : reflection.name ≡ n = (same_iff reflection.name n).0 hit in rw (hit, ← e) reflects
    | inr miss ↦ rw miss ((r.served n).2)
  ]

  start-Agrees :
      (a b : ServiceHandler)
      → a.descriptor ≡ reflection
      → b.descriptor ≡ reflection
      → Agrees of ((reflection.name, a ∷ b ∷ []) ∷ [])
  unfolding of
  start-Agrees a b da db n = elim (Bool-cases (same reflection.name n)) [
    | inl hit ↦ rw hit (da, (db, tt))
    | inr miss ↦ rw miss tt
  ]

  exposes :
      (equal : ServiceDescriptor → ServiceDescriptor → Bool)
      → ((d : ServiceDescriptor) → equal d d ≡ true)
      → (a b : ServiceHandler) → a.descriptor ≡ reflection
      → b.descriptor ≡ reflection
      → (out : Table Text (List ServiceHandler)) × (expose_all equal services
            (returns ((reflection.name, a ∷ b ∷ []) ∷ []))
          ≡ returns out)
        × ((k : Text)
            → handlers_of (load k out)
              ≡ (if same reflection.name k then a ∷ b ∷ [] else [])
                ++ exposed (handlers_of (load k services)))
  exposes equal equal_refl a b da db =
      let start : Table Text (List ServiceHandler) = (reflection.name, a ∷ b ∷ []) ∷ [] in
      let (out, e) =
        expose_all-total equal equal_refl of services start
          (entries-Fitting of services r of-Agrees) (start-Agrees a b da db) in
      (
        out,
        e,
        λ k.
            expose_all-shown equal services start out k e
            ∙ (ap (λ x. handlers_of (load k start) ++ x) (shown_all-load k services r)
                ∙ ap (λ x. x ++ exposed (handlers_of (load k services))) (alone k)),
      )
    where
      alone :
          (k : Text)
          → handlers_of (load k ((reflection.name, a ∷ b ∷ []) ∷ []))
            ≡ (if same reflection.name k then a ∷ b ∷ [] else [])
      alone k = elim (Bool-cases (same reflection.name k)) [ inl y ↦ rw y refl | inr n ↦ rw n refl ]

module _ (equal : ServiceDescriptor → ServiceDescriptor → Bool)
    (reflection : ServiceDescriptor) where
  -- A stream that has a receiver is not spliced.
  pub splice_start_known :
      (uuid : Text) (stream : ℕ) (known : List ℕ) (stream_context : ℕ) (opts : List ServerOption)
      (srv : Server)
      → any (λ s. s == stream) known ≡ true
      → splice_start equal reflection uuid stream known stream_context opts srv
        ≡ panics two_wrappers
  unfolding splice_start
  splice_start_known uuid stream known stream_context opts srv old =
      rw
        (new_stream_controller_known equal uuid ((apply opts (splice_options srv)).name)
          topology_spliced stream known stream_context srv.next (srv.next + 1) (srv.next + 2)
          reflection old)
        refl

  -- Let the stream have no receiver yet, let proto.Equal find every descriptor equal to itself, let the Broadcast methods of the reflection
  -- service pass the checks, and let the lists of the server's registry be of one descriptor each,
  -- under its name, the reflection service's of the reflection descriptor. Then `Splice` makes the
  -- spliced controller without a panic; it has no calls; and it serves, under every name, its own two
  -- handlers if it is the reflection service's, and then exactly those handlers of the server, in
  -- order, that are local and visible to spliced clients.
  pub splice_start_exposes :
      (uuid : Text) (stream : ℕ) (known : List ℕ) (stream_context : ℕ) (opts : List ServerOption)
      (srv : Server)
      → any (λ s. s == stream) known ≡ false
      → ((d : ServiceDescriptor) → equal d d ≡ true)
      → All BroadcastOk reflection.methods
      → IsRegistry srv.controller.state.services
      → IsUniform reflection (handlers_of (load reflection.name srv.controller.state.services))
      → (link : Link) × (splice_start equal reflection uuid stream known stream_context opts srv
          ≡ returns (stream ∷ known, link))
        × IsFresh link.state
        × (a : ServiceHandler) × (b : ServiceHandler) × (a.self ≡ srv.next + 1)
        × (b.self ≡ srv.next + 2)
        × ((k : Text)
            → handlers_of (load k link.state.services)
              ≡ (if same reflection.name k then a ∷ b ∷ [] else [])
                ++ exposed (handlers_of (load k srv.controller.state.services)))
  unfolding splice_start
  splice_start_exposes uuid stream known stream_context opts srv new equal_refl fine r reflects =
      let (c, made, fresh, a, b, only, at_a, at_b, da, db) =
        new_stream_controller-IsFresh equal uuid ((apply opts (splice_options srv)).name)
          topology_spliced stream known stream_context srv.next (srv.next + 1) (srv.next + 2)
          reflection new (equal_refl reflection) fine in
      let link_of : Controller → Table Text (List ServiceHandler) → Link =
        λ x y. record { id = srv.next; state = record x { services = y }; closed = false } in
      let (out, e, shows) =
        exposes reflection srv.controller.state.services r reflects equal equal_refl a b da db in
      (
        record { id = srv.next; state = record c { services = out }; closed = false },
        >>=-returns _ (stream ∷ known, c)
              (λ (x : List ℕ × Controller).
                expose_all equal srv.controller.state.services (returns x.1.services)
                >>= (λ y. returns (x.0, link_of x.1 y)))
              made
            ∙ >>=-returns (expose_all equal srv.controller.state.services (returns c.services)) out
                (λ y. returns (stream ∷ known, link_of c y))
                (ap (λ t. expose_all equal srv.controller.state.services (returns t)) only ∙ e),
        record { count = fresh.count; channels = fresh.channels; pending = fresh.pending },
        a,
        b,
        at_a,
        at_b,
        shows,
      )
