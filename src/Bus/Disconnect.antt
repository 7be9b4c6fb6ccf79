-- ===== src/Bus/Disconnect.antt =====
-- disconnected() of lib/clientmessagebus.cpp, whose loop runs among the other steps of the bus.
use qt_rpc.Base.{
  ℕ, zero, suc, replicate, ◌+◌, ◌^◌, ◌≤◌, ◌<◌, ◌≡◌, ◌⊎◌, refl, ap, ◌∙◌, Bool, true, false, ◌||◌,
  none, some, List, [], ◌∷◌, ◌++◌, arith, ◌==◌, if◌then◌else◌, length, inl, inr, List-cases,
  Bool-cases,
}
use qt_rpc.Base.Table.{
  lookup, keys, insert, lookup-remove, lookup-insert, lookup-insert_self, lookup-keys, is_in,
}
use qt_rpc.Qt.{Qt}
use qt_rpc.Signature.{Signature}
use qt_rpc.Message.{Message, of_return, of_call}
use qt_rpc.Bus.{
  Waiting, Bus, next_id, call_sync, call_async, wake, expire, return_received, reply_next,
  disconnected, disconnected_error, Event, calls_sync, calls_async, receives, disconnects,
  replies_next, wakes, expires, step, run, entry,
}
use qt_rpc.Bus.Once.{step_ids}

-- A call of an id that was handed out and waits for a reply is among those to reply to.
abbrev IsLeaving : {V : Type 0} → ℕ → Bus V → Type 0
IsLeaving id b = (id ≤ b.current_id) × ((is_in id b.leaving ≡ true) ⊎ (lookup id b.waiting ≡ none))

is_in-append : (id : ℕ) (xs ys : List ℕ) → is_in id (xs ++ ys) ≡ is_in id xs || is_in id ys
is_in-append id [] ys = refl
is_in-append id (x ∷ xs) ys = ground (arith, is_in-append id xs ys)

module _ {V : Type 0} (q : Qt V) where
  received-waiting :
      (alive : ℕ → Bool) (b : Bus V) (msg : Message V) (id : ℕ)
      → lookup id (return_received q alive b msg).0.waiting
        ≡ (if msg.id == id then none else lookup id b.waiting)
  unfolding return_received
  received-waiting alive b msg id = ground (arith, lookup-remove msg.id id b.waiting)

  received-rest :
      (alive : ℕ → Bool) (b : Bus V) (msg : Message V)
      → ((return_received q alive b msg).0.leaving ≡ b.leaving)
        × ((return_received q alive b msg).0.current_id ≡ b.current_id)
  unfolding return_received
  received-rest alive b msg = (ground arith, ground arith)

  received-IsLeaving :
      (alive : ℕ → Bool) (b : Bus V) (msg : Message V) (id : ℕ)
      → IsLeaving id b
      → IsLeaving id (return_received q alive b msg).0
  received-IsLeaving alive b msg id (old, h) =
      let (same, ids) = received-rest alive b msg in
      (
        omega (arith, old, ids),
        elim h [
          | inl among ↦ inl (ap (is_in id) same ∙ among)
          | inr gone ↦ inr (ground (arith, received-waiting alive b msg id, gone))
        ],
      )

  replied-IsLeaving :
      (alive : ℕ → Bool) (b : Bus V) (id : ℕ)
      → IsLeaving id b
      → IsLeaving id (reply_next q alive b).0
  unfolding reply_next of_return of_call
  replied-IsLeaving alive b id (old, h) = elim (List-cases b.leaving) [
    | inl none_left ↦ rw (reply_next, none_left) (old, h)
    | inr (j, js, left) ↦
        let c : Bus V = record b { leaving = js } in
        let msg : Message V = of_return q j (disconnected_error q) in
        rw (reply_next, left)
          (elim (Bool-cases (j == id)) [
            | inl it ↦ (
              omega (arith, old, received-rest alive c msg),
              inr (ground (arith, it, received-waiting alive c msg id)),
            )
            | inr other ↦ received-IsLeaving alive c msg id (
              old,
              elim h [ inl among ↦ inl (ground (arith, among, left, other)) | inr gone ↦ inr gone ],
            )
          ])
  ]

  -- an entry under a new id
  next-lookup :
      (b : Bus V) (w : Waiting) (id : ℕ)
      → b.current_id + 1 < 2 ^ 32
      → id ≤ b.current_id
      → lookup id (insert (next_id b) w b.waiting) ≡ lookup id b.waiting
  next-lookup b w id small old =
      ground (arith, small, old, lookup-insert (next_id b) id w b.waiting)

  step-IsLeaving :
      (b : Bus V) (e : Event V) (id : ℕ)
      → b.current_id + 1 < 2 ^ 32
      → IsLeaving id b
      → IsLeaving id (step q b e).0
  unfolding step call_sync call_async disconnected wake expire entry
  step-IsLeaving b (calls_sync true msg) id small h = h
  step-IsLeaving b (calls_sync false msg) id small (old, h) = (
    omega (arith, old, small),
    elim h [
      | inl among ↦ inl among
      | inr gone ↦ inr (
          next-lookup b (record (entry (lookup (next_id b) b.waiting)) { sync = true }) id small old
          ∙ gone)
    ],
  )
  step-IsLeaving b (calls_async object slot msg) id small (old, h) = (
    omega (arith, old, small),
    elim h [
      | inl among ↦ inl among
      | inr gone ↦ inr (
          next-lookup b (record { object = object; slot = slot.name; sync = false }) id small old
          ∙ gone)
    ],
  )
  step-IsLeaving b (receives alive msg) id small h = received-IsLeaving alive b msg id h
  step-IsLeaving b disconnects id small (old, h) = (
    old,
    elim h [
      | inl among ↦ inl (ground (arith, is_in-append id b.leaving (keys b.waiting), among))
      | inr gone ↦ inr gone
    ],
  )
  step-IsLeaving b (replies_next alive) id small h = replied-IsLeaving alive b id h
  step-IsLeaving b (wakes j) id small (old, h) = ground (arith, old, h)
  step-IsLeaving b (expires j) id small (old, h) = ground (arith, old, h)

  run-IsLeaving :
      (b : Bus V) (es : List (Event V)) (id : ℕ)
      → b.current_id + length es < 2 ^ 32
      → IsLeaving id b
      → IsLeaving id (run q b es).0
  unfolding run
  run-IsLeaving b [] id small h = h
  run-IsLeaving b (e ∷ es) id small h =
      run-IsLeaving (step q b e).0 es id (omega (arith, small, step_ids q b e))
        (step-IsLeaving b e id (omega (arith, small)) h)

  disconnected-IsLeaving :
      (b : Bus V) (id : ℕ) → id ≤ b.current_id → IsLeaving id (disconnected q b)
  unfolding disconnected
  disconnected-IsLeaving b id old = (
    old,
    elim (Bool-cases (is_in id (keys b.waiting))) [
      | inl among ↦ inl (ground (arith, is_in-append id b.leaving (keys b.waiting), among))
      | inr absent ↦ inr (lookup-keys id b.waiting absent)
    ],
  )

  -- When the connection ends, no call that was made before is left waiting once the loop over the
  -- keys has come to its end, whatever else happens among its rounds, for fewer than 2 ^ 32 ids.
  pub run-disconnected :
      (b : Bus V) (es : List (Event V)) (id : ℕ)
      → id ≤ b.current_id
      → b.current_id + length es < 2 ^ 32
      → (run q (disconnected q b) es).0.leaving ≡ []
      → lookup id (run q (disconnected q b) es).0.waiting ≡ none
  unfolding disconnected
  run-disconnected b es id old small ended =
      elim (run-IsLeaving (disconnected q b) es id small (disconnected-IsLeaving b id old)).1 [
        | inl among ↦ absurd (ground (arith, among, ended))
        | inr gone ↦ gone
      ]

  -- the rounds of the loop without another step
  abbrev pub rounds : (ℕ → Bool) → ℕ → List (Event V)
  rounds alive n = replicate n (replies_next alive)

  rounds-waiting :
      (alive : ℕ → Bool) (n : ℕ) (b : Bus V) (id : ℕ)
      → is_in id b.leaving ≡ false
      → lookup id (run q b (rounds alive n)).0.waiting ≡ lookup id b.waiting
  unfolding run step reply_next of_return of_call
  rounds-waiting alive zero b id absent = refl
  rounds-waiting alive (suc n) b id absent = elim (List-cases b.leaving) [
    | inl none_left ↦ rw (run, step, reply_next, none_left) (rounds-waiting alive n b id absent)
    | inr (j, js, left) ↦
        let c : Bus V = record b { leaving = js } in
        let msg : Message V = of_return q j (disconnected_error q) in
        rw (run, step, reply_next, left)
          (rounds-waiting alive n (return_received q alive c msg).0 id
              (ground (arith, absent, left, received-rest alive c msg))
            ∙ ground (arith, absent, left, received-waiting alive c msg id))
  ]

  -- An asynchronous call that is made between the step that takes the keys and the first round of
  -- the loop is still waiting after any number of rounds, when nothing else happens, unless its id
  -- was among the keys.
  pub late_call :
      (alive : ℕ → Bool) (n object : ℕ) (slot : Signature) (msg : Message V) (b : Bus V)
      → is_in (next_id b) (disconnected q b).leaving ≡ false
      → lookup
          (next_id b)
          (run q (call_async q (disconnected q b) object slot msg).0 (rounds alive n)).0.waiting
        ≡ some (record { object = object; slot = slot.name; sync = false })
  unfolding call_async disconnected
  late_call alive n object slot msg b absent =
      rounds-waiting alive n (call_async q (disconnected q b) object slot msg).0 (next_id b) absent
      ∙ lookup-insert_self (next_id b) (record { object = object; slot = slot.name; sync = false })
          b.waiting
