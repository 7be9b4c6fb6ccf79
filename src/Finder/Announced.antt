-- ===== src/Finder/Announced.antt =====
-- Histories of a finder of lib/servicefinder.cpp: where the services of its events come from.
use qt_rpc.Base.{
  ℕ, zero, suc, ◌≡◌, sym, refl, subst, String, Bool, true, false, Option, none, some, List, [], ◌∷◌,
  ◌++◌, append_assoc, inl, inr, All, All-append, map, arith, Option-cases,
}
use qt_rpc.Base.Table.{lookup, keys, lookup-remove}
use qt_rpc.Finder.{
  Event, service_added, service_removed, error, Service, Finder, Action, Step, signalled,
  resolver_dropped, lookup_aborted, browsing, blank, or_blank, finder, set_service, scan, get_error,
  announce, next_id, added, removed, take_resolver, look_up, resolved, resolve_error, get_address,
  set_first, valid,
}
use qt_rpc.Finder.History.{
  Happening, renamed, scanned, failed, appeared, vanished, was_resolved, unresolved, found,
  Announces, Says, Shows, step, run,
}
use qt_rpc.Finder.Kept.{
  Waits, IsKept, announce-IsKept, get_error-IsKept, take_resolver-IsKept, look_up-IsKept,
}

module _ {A : Type 0} (P : String → String → Event → Type 0) where
  -- What a step leaves: a finder that is kept, and events of announced services.
  abbrev IsFounded : Finder A × List (Action A) → Type 0
  IsFounded (f, done) = IsKept P f × All (Shows P) done

  All-silent :
      (ids : List ℕ) (act : ℕ → Action A) (rest : List (Action A))
      → ((id : ℕ) → Shows P (act id))
      → All (Shows P) rest
      → All (Shows P) (map act ids ++ rest)
  All-silent [] act rest silent all = all
  All-silent (id ∷ ids) act rest silent all = (silent id, All-silent ids act rest silent all)

  scan-IsFounded : (is_browsing : Bool) (f : Finder A) → IsKept P f → IsFounded (scan is_browsing f)
  unfolding scan Waits lookup
  scan-IsFounded true f kept = (
    ((λ r id h. absurd (ground (arith, h))), (λ id s h. absurd (ground (arith, h)))),
    rw append_assoc (
        All-silent (keys f.resolver_queue) resolver_dropped
          (map lookup_aborted (keys f.resolve_queue) ++ browsing ∷ []) (λ id. tt)
          (All-silent (keys f.resolve_queue) lookup_aborted (browsing ∷ []) (λ id. tt) (tt, tt))),
  )
  scan-IsFounded false f (waiting, asked) = ((waiting, asked), (tt, tt))

  look_up-silent :
      (id : ℕ) (host : String) (noted : Service A → Service A) (o : Option (ℕ × Service A))
      (f : Finder A)
      → All (Shows P) (look_up id host noted o f).1
  unfolding look_up
  look_up-silent id host noted none f = tt
  look_up-silent id host noted (some (r, s)) f = (tt, (tt, tt))

  set_first-Says : (near : List A) (s : Service A) → Says P s → Says P (set_first near s)
  set_first-Says [] s says = says
  set_first-Says (a ∷ more) s says = says

  get_address-IsFounded :
      (ipv4 : A → ℕ) (id : ℕ) (addresses : List A) (interfaces : List (List (A × A))) (f : Finder A)
      (s : Service A)
      → lookup id f.resolve_queue ≡ some s
      → IsKept P f
      → IsFounded (get_address ipv4 id addresses interfaces f)
  unfolding get_address Waits
  get_address-IsFounded ipv4 id addresses interfaces f s e (waiting, asked) = (
    (waiting, λ j t h. asked j t (ground (arith, h, lookup-remove id j f.resolve_queue))),
    (
      tt,
      (
        set_first-Says (valid ipv4 interfaces addresses)
            (record (or_blank (lookup id f.resolve_queue)) {
              all_addresses = addresses;
              valid_addresses = valid ipv4 interfaces addresses;
            })
            (subst (λ (o : Option (Service A)). Says P (or_blank o)) (sym e) (asked id s e)),
        tt,
      ),
    ),
  )

  signalled-IsFounded :
      (n : ℕ) (slot : Step A) (f : Finder A)
      → ((g : Finder A) → IsKept P g → IsFounded (slot g))
      → IsKept P f
      → IsFounded (signalled n slot f)
  unfolding signalled
  signalled-IsFounded zero slot f founds kept = (kept, tt)
  signalled-IsFounded (suc n) slot f founds kept =
      let (kept2, shown) = founds f kept in
      let (kept3, more) = signalled-IsFounded n slot (slot f).0 founds kept2 in
      (kept3, All-append (Shows P) (slot f).1 (signalled n slot (slot f).0).1 shown more)

  get_error-IsFounded : P "" "" error → (f : Finder A) → IsKept P f → IsFounded (get_error f)
  unfolding get_error
  get_error-IsFounded says f kept = (get_error-IsKept P f kept, ((error, refl, says), tt))

  added-IsFounded :
      (name domain : String)
      → P name domain service_added
      → (f : Finder A) → IsKept P f
      → IsFounded (added name domain f)
  unfolding added announce
  added-IsFounded name domain says f kept =
      (announce-IsKept P f.browser_type name domain service_added blank f kept says, (tt, tt))

  removed-IsFounded :
      (name domain : String)
      → P name domain service_removed
      → (f : Finder A) → IsKept P f
      → IsFounded (removed name domain f)
  unfolding removed announce
  removed-IsFounded name domain says f kept = (
    announce-IsKept P f.service name domain service_removed
        (or_blank (lookup (next_id f) f.service_queue)) f kept says,
    (tt, tt),
  )

  -- of what may have ended
  IsSafe : Option (Finder A × List (Action A)) → Type 0
  IsSafe none = Unit
  IsSafe (some r) = IsFounded r

  module _ (ipv4 : A → ℕ) where
    step-IsSafe :
        (h : Happening A) (f : Finder A) → Announces P h → IsKept P f → IsSafe (step ipv4 h f)
    unfolding step IsSafe set_service resolved resolve_error Waits
    step-IsSafe (renamed service) f says (waiting, asked) = ((waiting, asked), (tt, tt))
    step-IsSafe (scanned is_browsing) f says kept = scan-IsFounded is_browsing f kept
    step-IsSafe failed f says kept =
        signalled-IsFounded f.links get_error f (get_error-IsFounded says) kept
    step-IsSafe (appeared name domain) f says kept =
        signalled-IsFounded f.links (added name domain) f (added-IsFounded name domain says) kept
    step-IsSafe (vanished name domain) f says kept =
        signalled-IsFounded f.links (removed name domain) f (removed-IsFounded name domain says)
          kept
    step-IsSafe (was_resolved sender host port id) f says kept =
        let (taken, g) = take_resolver-IsKept P sender f kept in
        (
          look_up-IsKept P id host (λ s. record s { port = port; hostname = host })
              (take_resolver sender f).0 (take_resolver sender f).1 (λ s known. known) taken g,
          look_up-silent id host (λ s. record s { port = port; hostname = host })
              (take_resolver sender f).0 (take_resolver sender f).1,
        )
    step-IsSafe (unresolved sender host id) f says kept =
        let (taken, g) = take_resolver-IsKept P sender f kept in
        (
          look_up-IsKept P id host (λ s. s) (take_resolver sender f).0 (take_resolver sender f).1
              (λ s known. known) taken g,
          look_up-silent id host (λ s. s) (take_resolver sender f).0 (take_resolver sender f).1,
        )
    step-IsSafe (found id addresses interfaces) f says kept =
        elim (Option-cases (lookup id f.resolve_queue)) [
          | inl e ↦ rw (step, IsSafe, e) tt
          | inr (s, e) ↦
              rw (step, IsSafe, e) (get_address-IsFounded ipv4 id addresses interfaces f s e kept)
        ]

    run-IsSafe :
        (hs : List (Happening A)) (f : Finder A)
        → All (Announces P) hs
        → IsKept P f
        → IsSafe (run ipv4 hs f)
    unfolding run IsSafe
    run-IsSafe [] f says kept = (kept, tt)
    run-IsSafe (h ∷ hs) f (says, all) kept = elim (Option-cases (step ipv4 h f)) [
      | inl e ↦ rw (run, IsSafe, e) tt
      | inr ((g, done), e) ↦
          let (kept2, shown) = subst IsSafe e (step-IsSafe h f says kept) in
          elim (Option-cases (run ipv4 hs g)) [
            | inl e2 ↦ rw (run, IsSafe, e, e2) tt
            | inr ((k, more), e2) ↦
                let (kept3, rest) = subst IsSafe e2 (run-IsSafe hs g all kept2) in
                rw (run, IsSafe, e, e2) (kept3, All-append (Shows P) done more shown rest)
          ]
    ]

    -- In every history of a new finder, whatever it is searching for and however often it scans
    -- again, each event that it shows is one that its browser announced: what holds of the name, the
    -- domain and the kind of every announcement holds of every event. An event of the kind Error has
    -- neither name nor domain. Only host lookups that were asked for and not aborted are taken to be
    -- answered.
    pub run-announced :
        (service : String) (hs : List (Happening A)) (f : Finder A) (done : List (Action A))
        → All (Announces P) hs
        → run ipv4 hs (finder service) ≡ some (f, done)
        → All (Shows P) done
    unfolding IsSafe finder lookup
    run-announced service hs f done says h =
        (subst IsSafe h (
          run-IsSafe hs (finder service) says
            ((λ r id h. absurd (ground (arith, h))), (λ id s h. absurd (ground (arith, h)))))).1
