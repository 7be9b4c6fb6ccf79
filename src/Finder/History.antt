-- ===== src/Finder/History.antt =====
-- What can happen to a finder of lib/servicefinder.cpp, and what its browser and its events say.
use qt_rpc.Base.{ℕ, ◌≡◌, String, Bool, Option, none, some, List, [], ◌∷◌, ◌++◌}
use qt_rpc.Base.Table.{lookup}
use qt_rpc.Finder.{
  Event, service_added, service_removed, error, Service, Finder, Action, signalled, service_event,
  set_service, scan, get_error, added, removed, resolved, resolve_error, get_address,
}

-- What can happen to a finder; the addresses are those of a lookup and of the machine's networks.
pub data Happening (A : Type 0) : Type 0 where
  renamed : String → Happening A
  scanned : Bool → Happening A
  failed : Happening A
  appeared : String → String → Happening A
  vanished : String → String → Happening A
  was_resolved : Option ℕ → String → ℕ → ℕ → Happening A
  unresolved : Option ℕ → String → ℕ → Happening A
  found : ℕ → List A → List (List (A × A)) → Happening A

module _ {A : Type 0} where
  -- `P` holds for what the browser announced: a name, a domain and a kind.
  abbrev pub Announces : (String → String → Event → Type 0) → Happening A → Type 0
  Announces P failed = P "" "" error
  Announces P (appeared name domain) = P name domain service_added
  Announces P (vanished name domain) = P name domain service_removed
  Announces P _ = Unit

  -- `P` holds for what a service says of itself.
  abbrev pub Says : (String → String → Event → Type 0) → Service A → Type 0
  Says P s = (e : Event) × (s.event ≡ some e) × P s.service_name s.domain e

  abbrev pub Shows : (String → String → Event → Type 0) → Action A → Type 0
  Shows P (service_event s) = Says P s
  Shows P _ = Unit

module _ {A : Type 0} (ipv4 : A → ℕ) where
  -- one step; only a lookup that was asked for and not aborted is answered
  unfoldable pub step : Happening A → Finder A → Option (Finder A × List (Action A))
  unfolding lookup
  step (renamed service) f = some (set_service service f)
  step (scanned is_browsing) f = some (scan is_browsing f)
  step failed f = some (signalled f.links get_error f)
  step (appeared name domain) f = some (signalled f.links (added name domain) f)
  step (vanished name domain) f = some (signalled f.links (removed name domain) f)
  step (was_resolved sender host port id) f = some (resolved sender host port id f)
  step (unresolved sender host id) f = some (resolve_error sender host id f)
  step (found id addresses interfaces) f = elim (lookup id f.resolve_queue) [
    | none ↦ none
    | some s ↦ some (get_address ipv4 id addresses interfaces f)
  ]

  unfoldable pub run : List (Happening A) → Finder A → Option (Finder A × List (Action A))
  unfolding step
  run [] f = some (f, [])
  run (h ∷ hs) f = elim (step h f) [
    | none ↦ none
    | some (g, done) ↦ elim (run hs g) [ none ↦ none | some (k, more) ↦ some (k, done ++ more) ]
  ]
