-- ===== src/Finder/Kept.antt =====
-- What waits in the queues of a finder of lib/servicefinder.cpp was announced, and each slot keeps
-- this.
use qt_rpc.Base.{
  ℕ, suc, ◌≤◌, ◌≡◌, ◌∙◌, refl, subst, String, Option, none, some, List, ◌==◌, inl, inr, arith,
  Bool-cases, Option-cases,
}
use qt_rpc.Base.Table.{lookup, insert, remove, lookup-insert, lookup-insert_self, lookup-remove}
use qt_rpc.Finder.{
  Event, Service, Finder, get_error, announce, described, next_id, take_resolver, look_up,
}
use qt_rpc.Finder.History.{Says}

module _ {A : Type 0} (P : String → String → Event → Type 0) where
  -- A resolver that is waiting has a queued service under its id, and what is queued was announced.
  unfoldable pub Waits : ℕ → Finder A → Type 0
  unfolding lookup
  Waits id f = (s : Service A) × (lookup id f.service_queue ≡ some s) × Says P s

  abbrev pub IsKept : Finder A → Type 0
  IsKept f =
      ((r id : ℕ) → lookup r f.resolver_queue ≡ some id → (id ≤ f.current_id) × Waits id f)
      × ((id : ℕ) (s : Service A) → lookup id f.resolve_queue ≡ some s → Says P s)

  -- An entry under a new id leaves what waits under the old ones.
  Waits-insert :
      (id new : ℕ) (s : Service A) (q : List (ℕ × Service A))
      → suc id ≤ new
      → lookup id (insert new s q) ≡ lookup id q
  Waits-insert id new s q h = ground (arith, lookup-insert new id s q, h)

  pub announce-IsKept :
      (of_type name domain : String) (e : Event) (queued : Service A) (f : Finder A)
      → IsKept f
      → P name domain e
      → IsKept (announce of_type name domain e queued f).0
  unfolding announce Waits
  announce-IsKept of_type name domain e queued f (waiting, asked) says = (
    λ r id h. elim (Bool-cases (f.fresh == r)) [
      | inl new ↦
          let e1 : next_id f ≡ id =
            ground (arith, h, new, lookup-insert f.fresh r (next_id f) f.resolver_queue) in
          subst (λ (i : ℕ). (i ≤ next_id f) × Waits i (announce of_type name domain e queued f).0)
            e1
            (
              omega arith,
              (
                described name domain e f.service queued,
                lookup-insert_self (next_id f) (described name domain e f.service queued)
                    f.service_queue,
                (e, refl, says),
              ),
            )
      | inr old ↦
          let (le, (s, e2, known)) =
            waiting r id
              (ground (arith, h, old, lookup-insert f.fresh r (next_id f) f.resolver_queue)) in
          (
            omega (arith, le),
            (s, Waits-insert id _ _ f.service_queue (omega (arith, le)) ∙ e2, known),
          )
    ],
    asked,
  )

  pub get_error-IsKept : (f : Finder A) → IsKept f → IsKept (get_error f).0
  unfolding get_error Waits
  get_error-IsKept f (waiting, asked) = (
    λ r id h.
        let (le, (s, e, known)) = waiting r id h in
        (
          omega (arith, le),
          (s, Waits-insert id (next_id f) _ f.service_queue (omega (arith, le)) ∙ e, known),
        ),
    asked,
  )

  remove_resolver-IsKept :
      (r : ℕ) (f : Finder A)
      → IsKept f
      → IsKept (record f { resolver_queue = remove r f.resolver_queue })
  unfolding Waits
  remove_resolver-IsKept r f (waiting, asked) =
      (λ j id h. waiting j id (ground (arith, h, lookup-remove r j f.resolver_queue)), asked)

  -- what a resolver that was taken out belongs to
  unfoldable pub Taken : Option (ℕ × Service A) → Type 0
  Taken none = Unit
  Taken (some (r, s)) = Says P s

  pub take_resolver-IsKept :
      (sender : Option ℕ) (f : Finder A)
      → IsKept f
      → Taken (take_resolver sender f).0 × IsKept (take_resolver sender f).1
  unfolding take_resolver Waits Taken
  take_resolver-IsKept none f kept = (tt, kept)
  take_resolver-IsKept (some r) f (waiting, asked) =
      elim (Option-cases (lookup r f.resolver_queue)) [
        | inl e ↦ rw (take_resolver, Taken, e) (tt, (waiting, asked))
        | inr (id, e) ↦
            let (le, (s, e2, known)) = waiting r id e in
            rw (take_resolver, Taken, e, e2) (known, remove_resolver-IsKept r f (waiting, asked))
      ]

  pub look_up-IsKept :
      (id : ℕ) (host : String) (noted : Service A → Service A) (o : Option (ℕ × Service A))
      (f : Finder A)
      → ((s : Service A) → Says P s → Says P (noted s))
      → Taken o
      → IsKept f
      → IsKept (look_up id host noted o f).0
  unfolding look_up Taken Waits
  look_up-IsKept id host noted none f keeps taken kept = kept
  look_up-IsKept id host noted (some (r, s)) f keeps taken (waiting, asked) = (
    waiting,
    λ j t h. elim (Bool-cases (id == j)) [
      | inl it ↦
          let e : noted s ≡ t =
            ground (arith, h, it, lookup-insert id j (noted s) f.resolve_queue) in
          subst (Says P) e (keeps s taken)
      | inr other ↦
          asked j t (ground (arith, h, other, lookup-insert id j (noted s) f.resolve_queue))
    ],
  )
