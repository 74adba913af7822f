-- ===== src/Server/Serving/Syncing.antt =====
-- What a successful discovery on the main stream gives to the spliced ones.
use totem.Base.{ℕ, ◌≡◌, refl, Bool, some, List, [], ◌∷◌, ◌+◌, length, Text, text_eq}
use totem.Base.Go.{returns, >>=-eq-returns}
use totem.Base.Table.{load}
use totem.Wire.{ServiceDescriptor, ServiceInfo}
use totem.Status.{ok}
use totem.Handlers.{Invoker, handlers_of}
use totem.Server.{Link}
use totem.Server.Descriptors.{register_all}
use totem.Server.Descriptors.Routed.{Routed, register_all-Routed}
use totem.Server.Splicing.{invoker_of}
use totem.Server.Serving.{Serving, sync_link, sync_links, serve_step, discovered, looks_up}
use totem.Server.Serving.Reports.{on_discovered-ok}

module _ (equal : ServiceDescriptor → ServiceDescriptor → Bool) (ctx : ℕ) (invoker : Invoker)
    (descs : List ServiceDescriptor) where
  -- A spliced controller is the same but for its handlers, which are those that it had and then, in
  -- order, one for each discovered service.
  pub record IsSynced (before after : Link) : Type 0 where
    pub same_id : after.id ≡ before.id
    pub same_closed : after.closed ≡ before.closed
    pub same_kicked : after.state.kicked ≡ before.state.kicked
    pub routed :
        (k : Text)
        → Routed equal ctx invoker k descs
            (handlers_of (load k before.state.services))
            (handlers_of (load k after.state.services))

  pub data AllSynced : List Link → List Link → Type 0 where
    no_links : AllSynced [] []
    both :
        {a b : Link} {as' bs : List Link}
        → IsSynced a b
        → AllSynced as' bs
        → AllSynced (a ∷ as') (b ∷ bs)

  sync_link-IsSynced :
      (next : ℕ) (link out : Link)
      → sync_link equal ctx invoker next descs link ≡ returns out
      → IsSynced link out
  unfolding sync_link
  sync_link-IsSynced next link out h =
      let (services, made, built) =
        >>=-eq-returns (register_all equal ctx invoker next descs link.state.services) _ h in
      let e : record link { state = record (link.state) { services = services } } ≡ out = cc in
      rw (← e) (record {
        same_id = refl;
        same_closed = refl;
        same_kicked = refl;
        routed = λ k.
            register_all-Routed equal ctx invoker next descs link.state.services services k made;
      })

  pub sync_links-AllSynced :
      (next : ℕ) (links outs : List Link)
      → sync_links equal ctx invoker next descs links ≡ returns outs
      → AllSynced links outs
  unfolding sync_links
  sync_links-AllSynced next [] outs h = let e : [] ≡ outs = cc in rw (← e) no_links
  sync_links-AllSynced next (link ∷ links) outs h =
      let (one, synced, more) = >>=-eq-returns (sync_link equal ctx invoker next descs link) _ h in
      let (rest, others, built) =
        >>=-eq-returns (sync_links equal ctx invoker (next + length descs) descs links) _ more in
      let e : one ∷ rest ≡ outs = cc in
      rw (← e) (
        both (sync_link-IsSynced next link one synced)
          (sync_links-AllSynced (next + length descs) links rest others))

module _ (equal : ServiceDescriptor → ServiceDescriptor → Bool) where
  -- When the discovery of `Serve` is answered, the caller gets a connection over the main controller,
  -- and each spliced controller gets, behind the handlers that it has under a name, one for each
  -- discovered service of that name, in order, by which its calls go to the main stream.
  pub serve_syncs :
      (info : ServiceInfo) (s t : Serving)
      → s.finding ≡ looks_up
      → serve_step equal (discovered (ok info)) s ≡ returns (some t)
      → AllSynced equal s.server.stream_context
          (invoker_of s.server.controller.id s.server.controller.state)
          info.services
          s.server.spliced
          t.server.spliced
        × (t.connection
            ≡ some (record {
              controller = s.server.controller.id;
              interceptor = s.server.options.interceptors.outgoing;
              metrics = s.server.options.metrics;
            }))
        × (t.errors ≡ s.errors)
  unfolding serve_step
  serve_syncs info s t y h =
      let (links, synced, e) = on_discovered-ok equal info s t (rw y at h) in
      rw (← e) (
        sync_links-AllSynced equal s.server.stream_context
            (invoker_of s.server.controller.id s.server.controller.state) info.services
            s.server.next s.server.spliced links synced,
        refl,
        refl,
      )
