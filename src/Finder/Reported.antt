-- ===== src/Finder/Reported.antt =====
-- A service on its way through the queues of lib/servicefinder.cpp, from its announcement to its
-- event.
use qt_rpc.Base.{◌↔◌, Any, arith, ℕ, ◌≡◌, refl, ap, ◌∙◌, String, Option, none, some, List, [], ◌∷◌}
use qt_rpc.Base.Table.{lookup, lookup-insert_self}
use qt_rpc.Finder.History.{Happening, run}
use qt_rpc.Finder.Near.{IsNear, valid_iff}
use qt_rpc.Finder.Waiting.{
  AllSpare, spares_resolver, spares_lookup, IsQueued, IsAsked, step-IsQueued, step-IsAsked,
  run-Keeps,
}
use qt_rpc.Finder.{
  service_added, Service, Finder, Action, lookup_aborted, resolving, host_looked_up,
  resolver_dropped, service_event, blank, or_blank, announce, described, next_id, added,
  take_resolver, look_up, resolved, get_address, set_first, valid,
}

module _ {A : Type 0} where
  added-IsQueued :
      (name domain : String) (f : Finder A)
      → IsQueued f.fresh
          (next_id f)
          (described name domain service_added f.service blank)
          (added name domain f).0
  unfolding added announce
  added-IsQueued name domain f = (
    lookup-insert_self f.fresh (next_id f) f.resolver_queue,
    lookup-insert_self (next_id f) (described name domain service_added f.service blank)
        f.service_queue,
    omega arith,
    omega arith,
  )

  -- A service that waits is found by its resolver.
  take_resolver-queued :
      (r id : ℕ) (s : Service A) (f : Finder A)
      → IsQueued r id s f
      → (take_resolver (some r) f).0 ≡ some (r, s)
  unfolding take_resolver
  take_resolver-queued r id s f (waits, queued, old, made) = rw (take_resolver, waits, queued) refl

  look_up-some :
      (id : ℕ) (host : String) (noted : Service A → Service A) (o : Option (ℕ × Service A)) (r : ℕ)
      (s : Service A) (f : Finder A)
      → o ≡ some (r, s)
      → (look_up id host noted o f).1 ≡ host_looked_up host ∷ resolver_dropped r ∷ []
        × (lookup id (look_up id host noted o f).0.resolve_queue ≡ some (noted s))
  unfolding look_up
  look_up-some id host noted o r s f e =
      rw (look_up, e) (refl, lookup-insert_self id (noted s) f.resolve_queue)

  abbrev pub first : List A → Option A
  first [] = none
  first (a ∷ more) = some a

  set_first-first :
      (near : List A) (s : Service A)
      → s.address ≡ none
      → set_first near s ≡ record s { address = first near }
  set_first-first [] s e = ap (λ (o : Option A). record s { address = o }) e
  set_first-first (a ∷ more) s e = refl

module _ {A : Type 0} (ipv4 : A → ℕ) where
  get_address-shows :
      (id : ℕ) (addresses : List A) (interfaces : List (List (A × A))) (f : Finder A)
      (s : Service A)
      → lookup id f.resolve_queue ≡ some s
      → s.address ≡ none
      → (get_address ipv4 id addresses interfaces f).1
        ≡ lookup_aborted id
          ∷ service_event (record s {
            all_addresses = addresses;
            valid_addresses = valid ipv4 interfaces addresses;
            address = first (valid ipv4 interfaces addresses);
          })
          ∷ []
  unfolding get_address
  get_address-shows id addresses interfaces f s e no_address =
      let near = valid ipv4 interfaces addresses in
      let shown = λ (t : Service A). lookup_aborted id ∷ service_event t ∷ [] in
      ap
        (λ (o : Option (Service A)). shown (
          set_first near
            (record (or_blank o) { all_addresses = addresses; valid_addresses = near })))
        e
      ∙ ap shown (
          set_first-first near (record s { all_addresses = addresses; valid_addresses = near })
            no_address)

  -- An announced service is resolved under its name and the browser's type. Whatever happens then
  -- but an answer of this resolver or a scan while browsing, its answer starts one lookup of its
  -- host. Whatever happens then but an answer to this lookup, another lookup under its id or a scan
  -- while browsing, its answer shows one event: with the finder's service type at the announcement,
  -- the announced name and domain, the resolver's host and port, and the addresses of the lookup.
  -- Valid are those IPv4 addresses of them that an IPv4 entry of a network interface has in its
  -- network, and the first of these is the event's address.
  pub added-reported :
      (f g k : Finder A) (name domain host : String) (port id : ℕ) (addresses : List A)
      (interfaces : List (List (A × A))) (es later : List (Happening A))
      (done more : List (Action A))
      → AllSpare (spares_resolver f.fresh) es
      → run ipv4 es (added name domain f).0 ≡ some (g, done)
      → AllSpare (spares_lookup id) later
      → run ipv4 later (resolved (some f.fresh) host port id g).0 ≡ some (k, more)
      → (near : List A) × ((a : A) → Any (λ b. b ≡ a) near ↔ IsNear ipv4 a addresses interfaces)
        × ((added name domain f).1 ≡ resolving f.fresh f.browser_type name ∷ [])
        × ((resolved (some f.fresh) host port id g).1
            ≡ host_looked_up host ∷ resolver_dropped f.fresh ∷ [])
        × ((get_address ipv4 id addresses interfaces k).1
            ≡ lookup_aborted id
              ∷ service_event (record {
                service_type = f.service;
                service_name = name;
                domain = domain;
                all_addresses = addresses;
                valid_addresses = near;
                address = first near;
                event = some service_added;
                port = port;
                hostname = host;
              })
              ∷ [])
  unfolding added resolved announce
  added-reported f g k name domain host port id addresses interfaces es later done more spared ran
        spared2 ran2 =
      let s = described name domain service_added f.service blank in
      let noted = λ (t : Service A). record t { port = port; hostname = host } in
      let waits =
        run-Keeps ipv4 (IsQueued f.fresh (next_id f) s) (spares_resolver f.fresh)
          (step-IsQueued f.fresh (next_id f) s ipv4) es (added name domain f).0 g done spared ran
          (added-IsQueued name domain f) in
      let (called, asked) =
        look_up-some id host noted (take_resolver (some f.fresh) g).0 f.fresh s
          (take_resolver (some f.fresh) g).1 (take_resolver-queued f.fresh (next_id f) s g waits) in
      let kept =
        run-Keeps ipv4 (IsAsked id (noted s)) (spares_lookup id) (step-IsAsked id (noted s) ipv4)
          later (resolved (some f.fresh) host port id g).0 k more spared2 ran2 asked in
      (
        valid ipv4 interfaces addresses,
        λ a. valid_iff ipv4 a interfaces addresses,
        refl,
        called,
        get_address-shows id addresses interfaces k (noted s) kept refl,
      )
