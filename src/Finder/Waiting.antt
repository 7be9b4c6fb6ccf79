-- ===== src/Finder/Waiting.antt =====
-- A service that waits in the queues of lib/servicefinder.cpp while other things happen.
use qt_rpc.Base.{
  ℕ, zero, suc, ◌≤◌, ◌<◌, ◌≡◌, String, Bool, true, false, not, Option, none, some, List, [], ◌∷◌,
  ◌==◌, arith, All, inl, inr, subst, Option-cases,
}
use qt_rpc.Base.Table.{lookup, remove, lookup-insert, lookup-remove}
use qt_rpc.Finder.{
  Event, service_added, service_removed, Service, Finder, Action, Step, blank, or_blank,
  set_service, scan, get_error, announce, described, next_id, added, removed, signalled,
  take_resolver, look_up, resolved, resolve_error, get_address,
}
use qt_rpc.Finder.History.{
  Happening, renamed, scanned, failed, appeared, vanished, was_resolved, unresolved, found, step,
  run,
}

-- the sender is not the resolver `r`
abbrev pub is_other : ℕ → Option ℕ → Bool
is_other r none = true
is_other r (some j) = not (j == r)

module _ {A : Type 0} where
  -- What neither ends the wait of the resolver `r` by its answer nor clears the queues.
  abbrev pub spares_resolver : ℕ → Happening A → Bool
  spares_resolver r (scanned is_browsing) = not is_browsing
  spares_resolver r (was_resolved sender host port id) = is_other r sender
  spares_resolver r (unresolved sender host id) = is_other r sender
  spares_resolver r _ = true

  -- What neither answers the lookup `id`, nor reuses its id, nor clears the queues.
  abbrev pub spares_lookup : ℕ → Happening A → Bool
  spares_lookup id (scanned is_browsing) = not is_browsing
  spares_lookup id (was_resolved sender host port j) = not (j == id)
  spares_lookup id (unresolved sender host j) = not (j == id)
  spares_lookup id (found j addresses interfaces) = not (j == id)
  spares_lookup id _ = true

  abbrev pub AllSpare : (Happening A → Bool) → List (Happening A) → Type 0
  AllSpare spares hs = All (λ h. spares h ≡ true) hs

  -- what a step keeps, of a finder that has it
  abbrev Keeps : (Finder A → Type 0) → Step A → Type 0
  Keeps P slot = (f : Finder A) → P f → P (slot f).0

  signalled-Keeps :
      (P : Finder A → Type 0) (n : ℕ) (slot : Step A) → Keeps P slot → Keeps P (signalled n slot)
  unfolding signalled
  signalled-Keeps P zero slot keeps f h = h
  signalled-Keeps P (suc n) slot keeps f h = signalled-Keeps P n slot keeps (slot f).0 (keeps f h)

  -- of what may have ended
  unfoldable pub Stays : (Finder A → Type 0) → Option (Finder A × List (Action A)) → Type 0
  Stays P none = Unit
  Stays P (some p) = P p.0

  stayed :
      (P : Finder A → Type 0) (o : Option (Finder A × List (Action A)))
      (p : Finder A × List (Action A))
      → o ≡ some p
      → Stays P o
      → P p.0
  unfolding Stays
  stayed P o p e h = subst (Stays P) e h

module _ {A : Type 0} (r id : ℕ) (s : Service A) where
  -- The resolver `r` waits for the service `s`, which is queued under `id`.
  abbrev pub IsQueued : Finder A → Type 0
  IsQueued f =
      (lookup r f.resolver_queue ≡ some id)
      × (lookup id f.service_queue ≡ some s)
      × (id ≤ f.current_id)
      × (r < f.fresh)

  get_error-IsQueued : Keeps IsQueued get_error
  unfolding get_error
  get_error-IsQueued f (waits, queued, old, made) = (
    waits,
    ground (
      arith,
      queued,
      old,
      lookup-insert (next_id f) id
          (record (or_blank (lookup (next_id f) f.service_queue)) { service_type = f.service })
          f.service_queue,
    ),
    omega (arith, old),
    made,
  )

  announce-IsQueued :
      (of_type name domain : String) (e : Event) (queued : Service A) (f : Finder A)
      → IsQueued f
      → IsQueued (announce of_type name domain e queued f).0
  unfolding announce
  announce-IsQueued of_type name domain e before f (waits, queued, old, made) = (
    ground (arith, waits, made, lookup-insert f.fresh r (next_id f) f.resolver_queue),
    ground (
      arith,
      queued,
      old,
      lookup-insert (next_id f) id (described name domain e f.service before) f.service_queue,
    ),
    omega (arith, old),
    omega (arith, made),
  )

  take_resolver-IsQueued :
      (sender : Option ℕ) (f : Finder A)
      → is_other r sender ≡ true
      → IsQueued f
      → IsQueued (take_resolver sender f).1
  unfolding take_resolver
  take_resolver-IsQueued none f other h = h
  take_resolver-IsQueued (some j) f other (waits, queued, old, made) =
      elim (Option-cases (lookup j f.resolver_queue)) [
        | inl e ↦ rw (take_resolver, e) (waits, queued, old, made)
        | inr (k, e) ↦
            let kept : lookup r (remove j f.resolver_queue) ≡ some id =
              ground (arith, waits, other, lookup-remove j r f.resolver_queue) in
            elim (Option-cases (lookup k f.service_queue)) [
              | inl e2 ↦ rw (take_resolver, e, e2) (kept, queued, old, made)
              | inr (t, e2) ↦ rw (take_resolver, e, e2) (kept, queued, old, made)
            ]
      ]

  look_up-IsQueued :
      (j : ℕ) (host : String) (noted : Service A → Service A) (o : Option (ℕ × Service A))
      (f : Finder A)
      → IsQueued f
      → IsQueued (look_up j host noted o f).0
  unfolding look_up
  look_up-IsQueued j host noted none f h = h
  look_up-IsQueued j host noted (some (k, t)) f h = h

  module _ (ipv4 : A → ℕ) where
    pub step-IsQueued :
        (e : Happening A) (f : Finder A)
        → spares_resolver r e ≡ true
        → IsQueued f
        → Stays IsQueued (step ipv4 e f)
    unfolding step Stays set_service scan added removed resolved resolve_error get_address
    step-IsQueued (renamed service) f spared h = h
    step-IsQueued (scanned true) f spared h = absurd (ground (arith, spared))
    step-IsQueued (scanned false) f spared h = h
    step-IsQueued failed f spared h =
        signalled-Keeps IsQueued f.links get_error get_error-IsQueued f h
    step-IsQueued (appeared name domain) f spared h =
        signalled-Keeps IsQueued f.links (added name domain)
          (λ k. announce-IsQueued k.browser_type name domain service_added blank k) f h
    step-IsQueued (vanished name domain) f spared h =
        signalled-Keeps IsQueued f.links (removed name domain)
          (λ k.
            announce-IsQueued k.service name domain service_removed
              (or_blank (lookup (next_id k) k.service_queue)) k)
          f h
    step-IsQueued (was_resolved sender host port j) f spared h =
        look_up-IsQueued j host (λ t. record t { port = port; hostname = host })
          (take_resolver sender f).0 (take_resolver sender f).1
          (take_resolver-IsQueued sender f spared h)
    step-IsQueued (unresolved sender host j) f spared h =
        look_up-IsQueued j host (λ t. t) (take_resolver sender f).0 (take_resolver sender f).1
          (take_resolver-IsQueued sender f spared h)
    step-IsQueued (found j addresses interfaces) f spared h =
        elim (Option-cases (lookup j f.resolve_queue)) [
          | inl e ↦ rw (step, Stays, e) tt
          | inr (t, e) ↦ rw (step, Stays, e) h
        ]

module _ {A : Type 0} (id : ℕ) (s : Service A) where
  -- The service waits for the answer to the lookup `id`.
  abbrev pub IsAsked : Finder A → Type 0
  IsAsked f = lookup id f.resolve_queue ≡ some s

  take_resolver-IsAsked :
      (sender : Option ℕ) (f : Finder A) → IsAsked f → IsAsked (take_resolver sender f).1
  unfolding take_resolver
  take_resolver-IsAsked none f h = h
  take_resolver-IsAsked (some j) f h = ground (arith, h)

  look_up-IsAsked :
      (j : ℕ) (host : String) (noted : Service A → Service A) (o : Option (ℕ × Service A))
      (f : Finder A)
      → (j == id) ≡ false
      → IsAsked f
      → IsAsked (look_up j host noted o f).0
  unfolding look_up
  look_up-IsAsked j host noted none f other h = h
  look_up-IsAsked j host noted (some (k, t)) f other h =
      ground (arith, h, other, lookup-insert j id (noted t) f.resolve_queue)

  module _ (ipv4 : A → ℕ) where
    pub step-IsAsked :
        (e : Happening A) (f : Finder A)
        → spares_lookup id e ≡ true
        → IsAsked f
        → Stays IsAsked (step ipv4 e f)
    unfolding step Stays set_service scan added removed announce get_error resolved resolve_error
        get_address
    step-IsAsked (renamed service) f spared h = h
    step-IsAsked (scanned true) f spared h = absurd (ground (arith, spared))
    step-IsAsked (scanned false) f spared h = h
    step-IsAsked failed f spared h = signalled-Keeps IsAsked f.links get_error (λ k h. h) f h
    step-IsAsked (appeared name domain) f spared h =
        signalled-Keeps IsAsked f.links (added name domain) (λ k h. h) f h
    step-IsAsked (vanished name domain) f spared h =
        signalled-Keeps IsAsked f.links (removed name domain) (λ k h. h) f h
    step-IsAsked (was_resolved sender host port j) f spared h =
        look_up-IsAsked j host (λ t. record t { port = port; hostname = host })
          (take_resolver sender f).0 (take_resolver sender f).1 (ground (arith, spared))
          (take_resolver-IsAsked sender f h)
    step-IsAsked (unresolved sender host j) f spared h =
        look_up-IsAsked j host (λ t. t) (take_resolver sender f).0 (take_resolver sender f).1
          (ground (arith, spared)) (take_resolver-IsAsked sender f h)
    step-IsAsked (found j addresses interfaces) f spared h =
        elim (Option-cases (lookup j f.resolve_queue)) [
          | inl e ↦ rw (step, Stays, e) tt
          | inr (t, e) ↦
              rw (step, Stays, e) (ground (arith, h, spared, lookup-remove j id f.resolve_queue))
        ]

module _ {A : Type 0} (ipv4 : A → ℕ) where
  -- What each step keeps, a history keeps.
  pub run-Keeps :
      (P : Finder A → Type 0) (spares : Happening A → Bool)
      → ((e : Happening A) (f : Finder A) → spares e ≡ true → P f → Stays P (step ipv4 e f))
      → (es : List (Happening A)) (f g : Finder A) (done : List (Action A)) → AllSpare spares es
      → run ipv4 es f ≡ some (g, done)
      → P f
      → P g
  unfolding run
  run-Keeps P spares keeps [] f g done all ran h = subst P (ground (arith, ran)) h
  run-Keeps P spares keeps (e ∷ es) f g done (spared, all) ran h =
      elim (Option-cases (step ipv4 e f)) [
        | inl gone ↦ absurd (ground (arith, gone, ran))
        | inr ((k, first), next) ↦ elim (Option-cases (run ipv4 es k)) [
          | inl gone ↦ absurd (ground (arith, next, gone, ran))
          | inr ((m, more), rest) ↦ subst P (ground (arith, next, rest, ran)) (
              run-Keeps P spares keeps es k m more all rest
                (stayed P (step ipv4 e f) (k, first) next (keeps e f spared h)))
        ]
      ]
