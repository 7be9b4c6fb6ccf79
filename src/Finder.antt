-- ===== src/Finder.antt =====
-- lib/servicefinder.cpp: the finder of services on the local network, on top of the zeroconf
-- classes: QxtServiceBrowser announces names, a QxtDiscoverableService resolves each of them, and a
-- host lookup gives its addresses. An object of the resolver is known by its address.
pub mod History
pub mod Kept
pub mod Announced
pub mod Near
pub mod Waiting
pub mod Reported
use Prim.Native.Nat.{bit_and}
use qt_rpc.Base.{
  ℕ, zero, suc, ◌+◌, String, Bool, true, false, ◌||◌, Option, none, some, List, [], ◌∷◌, ◌++◌, ◌==◌,
  map, if◌then◌else◌,
}
use qt_rpc.Base.Text.{chars, of_chars}
use qt_rpc.Base.Table.{lookup, remove, insert, keys}

-- ServiceFinder::Event
pub data Event : Type 0 where
  service_added service_removed error : Event

-- ServicePrivate, with addresses of type `A`; `event` is uninitialised where it is `none`.
pub record Service (A : Type 0) : Type 0 where
  pub service_type : String
  pub service_name : String
  pub domain : String
  pub all_addresses : List A
  pub valid_addresses : List A
  pub address : Option A
  pub event : Option Event
  pub port : ℕ
  pub hostname : String

-- ServiceFinderPrivate. Of its browser: the service type, and how often its signals are connected.
-- `fresh` is an address at which no object was made before.
pub record Finder (A : Type 0) : Type 0 where
  pub browser_type : String
  pub links : ℕ
  pub service : String
  pub service_queue : List (ℕ × Service A)
  pub resolve_queue : List (ℕ × Service A)
  pub resolver_queue : List (ℕ × ℕ)
  pub current_id : ℕ
  pub fresh : ℕ

-- What a step does: the calls on the other classes, and the signal serviceEvent
pub data Action (A : Type 0) : Type 0 where
  resolving : ℕ → String → String → Action A
  resolver_dropped : ℕ → Action A
  lookup_aborted : ℕ → Action A
  host_looked_up : String → Action A
  browser_dropped : Action A
  browsing : Action A
  service_event : Service A → Action A

abbrev pub Step : Type 0 → Type 0
Step A = Finder A → Finder A × List (Action A)

-- QxtServiceBrowser("QtRpc_" + service), with the type that it is given
abbrev pub browser_of : String → String
browser_of service = of_chars (chars "QtRpc_" ++ chars service)

module _ {A : Type 0} where
  -- ServiceFinder::Service()
  abbrev pub blank : Service A
  blank = record {
    service_type = "";
    service_name = "";
    domain = "";
    all_addresses = [];
    valid_addresses = [];
    address = none;
    event = none;
    port = 0;
    hostname = "";
  }

  abbrev pub or_blank : Option (Service A) → Service A
  or_blank none = blank
  or_blank (some s) = s

  unfoldable pub finder : String → Finder A
  finder service = record {
    browser_type = browser_of service;
    links = 0;
    service = service;
    service_queue = [];
    resolve_queue = [];
    resolver_queue = [];
    current_id = 0;
    fresh = 0;
  }

  unfoldable pub set_service : String → Step A
  set_service service f = (
    record f { service = service; browser_type = browser_of service; links = 0 },
    browser_dropped ∷ [],
  )

  -- what scan ends when the browser is browsing
  abbrev pub abandon : Step A
  abandon f = (
    record f { service_queue = []; resolver_queue = []; resolve_queue = [] },
    map resolver_dropped (keys f.resolver_queue) ++ map lookup_aborted (keys f.resolve_queue),
  )

  abbrev pub connect_browser : Finder A → Finder A
  connect_browser f = record f { links = suc f.links }

  -- `is_browsing` is what the browser answers.
  unfoldable pub scan : Bool → Step A
  scan is_browsing f =
      let (g, done) = if is_browsing then abandon f else (f, []) in
      (connect_browser g, done ++ browsing ∷ [])

  abbrev pub next_id : Finder A → ℕ
  next_id f = suc f.current_id

  unfoldable pub get_error : Step A
  unfolding lookup insert remove
  get_error f =
      let id = next_id f in
      let queued = or_blank (lookup id f.service_queue) in
      (
        record f {
          current_id = id;
          service_queue = insert id (record queued { service_type = f.service }) f.service_queue;
        },
        service_event (record blank { event = some error }) ∷ [],
      )

  abbrev pub described : String → String → Event → String → Service A → Service A
  described name domain event service queued = record queued {
    service_type = service;
    service_name = name;
    domain = domain;
    event = some event;
  }

  -- the part that serviceAdded and serviceRemoved share: a resolver of the given service type
  unfoldable pub announce : String → String → String → Event → Service A → Step A
  unfolding insert remove
  announce of_type name domain event queued f =
      let id = next_id f in
      (
        record f {
          current_id = id;
          fresh = suc f.fresh;
          resolver_queue = insert f.fresh id f.resolver_queue;
          service_queue = insert id (described name domain event f.service queued) f.service_queue;
        },
        resolving f.fresh of_type name ∷ [],
      )

  unfoldable pub added : String → String → Step A
  added name domain f = announce f.browser_type name domain service_added blank f

  unfoldable pub removed : String → String → Step A
  unfolding lookup
  removed name domain f =
      let queued = or_blank (lookup (next_id f) f.service_queue) in
      announce f.service name domain service_removed queued f

  -- A signal of the browser calls its slot once for each connection.
  unfoldable pub signalled : ℕ → Step A → Step A
  signalled zero slot f = (f, [])
  signalled (suc n) slot f =
      let (g, done) = slot f in let (h, more) = signalled n slot g in (h, done ++ more)

  -- The service of a resolver, which leaves the queue of the resolvers; a sender that is no resolver
  -- is `none`.
  unfoldable pub take_resolver : Option ℕ → Finder A → Option (ℕ × Service A) × Finder A
  unfolding lookup remove
  take_resolver none f = (none, f)
  take_resolver (some r) f = elim (lookup r f.resolver_queue) [
    | none ↦ (none, f)
    | some id ↦
        let g = record f { resolver_queue = remove r f.resolver_queue } in
        elim (lookup id f.service_queue) [ none ↦ (none, g) | some s ↦ (some (r, s), g) ]
  ]

  unfoldable pub look_up : ℕ → String → (Service A → Service A) → Option (ℕ × Service A) → Step A
  unfolding insert remove
  look_up id host noted none f = (f, [])
  look_up id host noted (some (r, s)) f = (
    record f { resolve_queue = insert id (noted s) f.resolve_queue },
    host_looked_up host ∷ resolver_dropped r ∷ [],
  )

  -- `host` and `port` are the resolver's, and `id` is what lookupHost returns.
  unfoldable pub resolved : Option ℕ → String → ℕ → ℕ → Step A
  unfolding take_resolver look_up
  resolved sender host port id f =
      let (taken, g) = take_resolver sender f in
      look_up id host (λ s. record s { port = port; hostname = host }) taken g

  unfoldable pub resolve_error : Option ℕ → String → ℕ → Step A
  unfolding take_resolver look_up
  resolve_error sender host id f =
      let (taken, g) = take_resolver sender f in look_up id host (λ s. s) taken g

  abbrev pub set_first : List A → Service A → Service A
  set_first [] s = s
  set_first (a ∷ more) s = record s { address = some a }

module _ {A : Type 0} (ipv4 : A → ℕ) where
  -- an entry of a network interface: its address and its mask
  abbrev pub in_network : A → A × A → Bool
  in_network a (ip, mask) =
      if ipv4 ip == 0 then false else bit_and (ipv4 ip) (ipv4 mask) == bit_and (ipv4 a) (ipv4 mask)

  -- the first entry that fits ends the loop over one interface
  unfoldable pub reaches : A → List (A × A) → Bool
  reaches a [] = false
  reaches a (e ∷ es) = in_network a e || reaches a es

  unfoldable pub per_interface : A → List (List (A × A)) → List A
  unfolding reaches
  per_interface a [] = []
  per_interface a (i ∷ is) = let rest = per_interface a is in if reaches a i then a ∷ rest else rest

  unfoldable pub valid : List (List (A × A)) → List A → List A
  unfolding per_interface
  valid interfaces [] = []
  valid interfaces (a ∷ more) =
      let rest = valid interfaces more in
      if ipv4 a == 0 then rest else per_interface a interfaces ++ rest

  -- getAddress: `id` and `addresses` are the QHostInfo's.
  unfoldable pub get_address : ℕ → List A → List (List (A × A)) → Step A
  unfolding lookup remove valid
  get_address id addresses interfaces f =
      let found = or_blank (lookup id f.resolve_queue) in
      let near = valid interfaces addresses in
      (
        record f { resolve_queue = remove id f.resolve_queue },
        lookup_aborted id
            ∷ service_event (
                set_first near (record found { all_addresses = addresses; valid_addresses = near }))
            ∷ [],
      )
