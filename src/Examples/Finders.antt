-- ===== src/Examples/Finders.antt =====
-- The properties of the finder of services at concrete data: an IPv4 address is its number.
use qt_rpc.Base.{
  ◌↔◌, Any, ℕ, ◌≡◌, refl, ◌&&◌, ◌||◌, Bool, true, false, String, some, none, List, [], ◌∷◌, All,
  str_eq,
}
use qt_rpc.Finder.{
  Event, service_added, error, Service, Finder, Action, resolving, resolver_dropped, lookup_aborted,
  host_looked_up, browsing, service_event, finder, added, removed, announce, blank, signalled, scan,
  get_error, resolved, get_address, valid,
}
use qt_rpc.Finder.History.{Happening, scanned, failed, appeared, was_resolved, found, Shows, run}
use qt_rpc.Finder.Announced.{run-announced}
use qt_rpc.Finder.Near.{IsNear}
use qt_rpc.Finder.Reported.{added-reported, first}

abbrev address_of : ℕ → ℕ
address_of a = a

-- the networks 10.0.0.0/24, on two interfaces, and 10.0.1.0/24
abbrev networks : List (List (ℕ × ℕ))
networks =
    ((167772161, 4294967040) ∷ []) ∷ ((167772417, 4294967040) ∷ (167772162, 4294967040) ∷ []) ∷ []

near : valid address_of networks (167772165 ∷ 0 ∷ 134744072 ∷ []) ≡ 167772165 ∷ 167772165 ∷ []
unfolding valid
near = refl

abbrev history : List (Happening ℕ)
history =
    scanned false
    ∷ appeared "printer" "local"
    ∷ failed
    ∷ was_resolved (some 0) "host" 80 7
    ∷ found 7 (167772165 ∷ []) networks
    ∷ []

abbrev is_error : Event → Bool
is_error error = true
is_error _ = false

abbrev PrinterOrError : String → String → Event → Type 0
PrinterOrError name domain e = (str_eq name "printer" && str_eq domain "local") || is_error e ≡ true

-- the service as it is queued, and the finder and what it did after the history
abbrev printer : Service ℕ
printer = record {
  service_type = "shop";
  service_name = "printer";
  domain = "local";
  all_addresses = [];
  valid_addresses = [];
  address = none;
  event = some service_added;
  port = 0;
  hostname = "";
}

abbrev printer_found : Service ℕ
printer_found = record printer {
  all_addresses = 167772165 ∷ [];
  valid_addresses = 167772165 ∷ 167772165 ∷ [];
  address = some 167772165;
  port = 80;
  hostname = "host";
}

abbrev at_end : Finder ℕ
at_end = record {
  browser_type = "QtRpc_shop";
  links = 1;
  service = "shop";
  service_queue = (2, record blank { service_type = "shop" }) ∷ (1, printer) ∷ [];
  resolve_queue = [];
  resolver_queue = [];
  current_id = 2;
  fresh = 1;
}

abbrev done : List (Action ℕ)
done =
    browsing
    ∷ resolving 0 "QtRpc_shop" "printer"
    ∷ service_event (record blank { event = some error })
    ∷ host_looked_up "host"
    ∷ resolver_dropped 0
    ∷ lookup_aborted 7
    ∷ service_event printer_found
    ∷ []

history_runs : run address_of history (finder "shop") ≡ some (at_end, done)
unfolding run finder resolved signalled scan added announce get_error get_address
history_runs = refl

run-announced_example : All (Shows PrinterOrError) done
run-announced_example =
    run-announced PrinterOrError address_of "shop" history at_end done
      (tt, (refl, (refl, (tt, (tt, tt))))) history_runs

-- an announcement, then an error and another announcement, then the resolver's answer, then an error
abbrev between : List (Happening ℕ)
between = failed ∷ appeared "scanner" "local" ∷ []

abbrev later : List (Happening ℕ)
later = failed ∷ []

abbrev error_shown : Action ℕ
error_shown = service_event (record blank { event = some error })

abbrev waiting : Finder ℕ
waiting = (added "scanner" "local" (get_error (added "printer" "local" at_end).0).0).0

abbrev asked : Finder ℕ
asked = (get_error (resolved (some 1) "host" 80 7 waiting).0).0

between_runs :
    run address_of between (added "printer" "local" at_end).0
    ≡ some (waiting, error_shown ∷ resolving 2 "QtRpc_shop" "scanner" ∷ [])
unfolding run signalled added announce get_error
between_runs = refl

later_runs :
    run address_of later (resolved (some 1) "host" 80 7 waiting).0 ≡ some (asked, error_shown ∷ [])
unfolding run signalled added announce get_error resolved
later_runs = refl

added-reported_example :
    (near : List ℕ) × ((a : ℕ)
      → Any (λ b. b ≡ a) near ↔ IsNear address_of a (167772165 ∷ 134744072 ∷ []) networks)
    × ((added "printer" "local" at_end).1 ≡ resolving 1 "QtRpc_shop" "printer" ∷ [])
    × ((resolved (some 1) "host" 80 7 waiting).1 ≡ host_looked_up "host" ∷ resolver_dropped 1 ∷ [])
    × ((get_address address_of 7 (167772165 ∷ 134744072 ∷ []) networks asked).1
        ≡ lookup_aborted 7
          ∷ service_event (record printer {
            all_addresses = 167772165 ∷ 134744072 ∷ [];
            valid_addresses = near;
            address = first near;
            port = 80;
            hostname = "host";
          })
          ∷ [])
added-reported_example =
    added-reported address_of at_end waiting asked "printer" "local" "host" 80 7
      (167772165 ∷ 134744072 ∷ []) networks between later
      (error_shown ∷ resolving 2 "QtRpc_shop" "scanner" ∷ []) (error_shown ∷ []) (refl, (refl, tt))
      between_runs (refl, tt) later_runs

-- A service that vanished is resolved under another type than one that appeared.
vanished_type : (removed "printer" "local" at_end).1 ≡ resolving 1 "shop" "printer" ∷ []
unfolding removed announce
vanished_type = refl
