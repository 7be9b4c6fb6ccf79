-- ===== src/Bus/Once.antt =====
-- Each call on the bus is answered once.
use qt_rpc.Base.{
  ℕ, ◌+◌, ◌^◌, ◌≤◌, ◌<◌, ◌≡◌, refl, ◌∙◌, Bool, true, false, ◌&&◌, Option, none, some, List, [], ◌∷◌,
  ◌++◌, arith, ltb, leb, ◌==◌, if◌then◌else◌, length, inl, inr, List-cases,
}
use qt_rpc.Base.Table.{lookup, lookup-remove, lookup-insert}
use qt_rpc.Qt.{Qt}
use qt_rpc.Signature.{Signature}
use qt_rpc.Message.{Message, of_return, set_id}
use qt_rpc.Bus.{
  Waiting, Bus, Output, sent, invoked, returned, refused, dropped, new, next_id, call_sync,
  call_async, wake, expire, return_received, reply_next, disconnected, disconnected_error, Event,
  calls_sync, calls_async, receives, disconnects, replies_next, wakes, expires, step, run, entry,
}

-- 1 for an entry whose reply goes to an object
unfoldable pub to_object : Option Waiting → ℕ
to_object none = 0
to_object (some w) = if w.sync then 0 else 1

-- 1 for a caller that waits
unfoldable pub is_waiting : {V : Type 0} → Option (Message V) → ℕ
is_waiting none = 0
is_waiting (some m) = 1

module _ {V : Type 0} where
  -- how often the call `id` is still to be answered
  unfoldable pub open_calls : Bus V → ℕ → ℕ
  unfolding to_object is_waiting
  open_calls b id = to_object (lookup id b.waiting) + is_waiting (lookup id b.callers)

  -- how often the call `id` was answered
  unfoldable pub answers : ℕ → List (Output V) → ℕ
  answers id [] = 0
  answers id (invoked object slot i ret ∷ out) = answers id out + (if i == id then 1 else 0)
  answers id (returned i ret ∷ out) = answers id out + (if i == id then 1 else 0)
  answers id (dropped i ∷ out) = answers id out + (if i == id then 1 else 0)
  answers id (sent m ∷ out) = answers id out
  answers id (refused ret ∷ out) = answers id out

  -- 1 for an id that was handed out
  unfoldable pub called : Bus V → ℕ → ℕ
  called b id = if ltb 0 id && leb id b.current_id then 1 else 0

  answers-append :
      (id : ℕ) (xs ys : List (Output V)) → answers id (xs ++ ys) ≡ answers id xs + answers id ys
  unfolding answers
  answers-append id [] ys = omega arith
  answers-append id (invoked o s i r ∷ xs) ys = omega (arith, answers-append id xs ys)
  answers-append id (returned i r ∷ xs) ys = omega (arith, answers-append id xs ys)
  answers-append id (dropped i ∷ xs) ys = omega (arith, answers-append id xs ys)
  answers-append id (sent m ∷ xs) ys = answers-append id xs ys
  answers-append id (refused r ∷ xs) ys = answers-append id xs ys

-- A step that hands out no id: what is no longer open was answered.
abbrev Keeps : {V : Type 0} → Bus V → Bus V × List (Output V) → Type 0
Keeps b p =
    (p.0.current_id ≡ b.current_id)
    × ((id : ℕ) → open_calls p.0 id + answers id p.1 ≡ open_calls b id)

module _ {V : Type 0} (q : Qt V) where
  return_received-Keeps :
      (alive : ℕ → Bool) (b : Bus V) (msg : Message V) → Keeps b (return_received q alive b msg)
  unfolding return_received open_calls answers to_object
  return_received-Keeps alive b msg =
      (ground arith, λ j. ground (arith, lookup-remove msg.id j b.waiting))

  wake-Keeps : (b : Bus V) (id : ℕ) → Keeps b (wake q b id)
  unfolding wake open_calls answers is_waiting
  wake-Keeps b id = (ground arith, λ j. ground (arith, lookup-remove id j b.callers))

  expire-Keeps : (b : Bus V) (id : ℕ) → Keeps b (expire q b id)
  unfolding expire open_calls answers is_waiting
  expire-Keeps b id = (ground arith, λ j. ground (arith, lookup-remove id j b.callers))

  disconnected-Keeps : (b : Bus V) → Keeps b (disconnected q b, [])
  unfolding disconnected open_calls answers
  disconnected-Keeps b = (refl, λ j. omega arith)

  reply_next-Keeps : (alive : ℕ → Bool) (b : Bus V) → Keeps b (reply_next q alive b)
  unfolding reply_next open_calls answers
  reply_next-Keeps alive b = elim (List-cases b.leaving) [
    | inl none_left ↦ rw (reply_next, none_left) (refl, λ j. omega arith)
    | inr (id, ids, left) ↦
        rw (reply_next, left)
          (return_received-Keeps alive (record b { leaving = ids })
            (of_return q id (disconnected_error q)))
  ]

-- What was handed out is open or was answered once, where `done` counts the answers so far.
abbrev Once : {V : Type 0} → Bus V → (ℕ → ℕ) → Type 0
Once b done = (id : ℕ) → open_calls b id + done id ≡ called b id

module _ {V : Type 0} (q : Qt V) where
  Keeps-Once :
      (b : Bus V) (p : Bus V × List (Output V)) (done : ℕ → ℕ)
      → Keeps b p
      → Once b done
      → Once p.0 (λ id. done id + answers id p.1)
  unfolding called open_calls
  Keeps-Once b p done (same, keeps) once id = rw same (omega (arith, keeps id, once id))

  not_open :
      (b : Bus V) (done : ℕ → ℕ)
      → Once b done
      → open_calls b (b.current_id + 1) + done (b.current_id + 1) ≡ 0
  unfolding called
  not_open b done once = once (b.current_id + 1) ∙ ground arith

  call_sync-Once :
      (own : Bool) (b : Bus V) (msg : Message V) (done : ℕ → ℕ)
      → b.current_id + 1 < 2 ^ 32
      → Once b done
      → Once (call_sync q own b msg).0 (λ id. done id + answers id (call_sync q own b msg).1)
  unfolding call_sync answers open_calls called to_object is_waiting entry
  call_sync-Once true b msg done small once id = omega (arith, once id)
  call_sync-Once false b msg done small once id = ground (
    arith,
    once id,
    not_open b done once,
    lookup-insert (next_id b) id (record (entry (lookup (next_id b) b.waiting)) { sync = true })
        b.waiting,
    lookup-insert (next_id b) id (set_id msg (next_id b)) b.callers,
  )

  call_async-Once :
      (object : ℕ) (slot : Signature) (b : Bus V) (msg : Message V) (done : ℕ → ℕ)
      → b.current_id + 1 < 2 ^ 32
      → Once b done
      → Once
          (call_async q b object slot msg).0
          (λ id. done id + answers id (call_async q b object slot msg).1)
  unfolding call_async answers open_calls called to_object is_waiting
  call_async-Once object slot b msg done small once id = ground (
    arith,
    once id,
    not_open b done once,
    lookup-insert (next_id b) id (record { object = object; slot = slot.name; sync = false })
        b.waiting,
  )

  step-Once :
      (b : Bus V) (e : Event V) (done : ℕ → ℕ)
      → b.current_id + 1 < 2 ^ 32
      → Once b done
      → Once (step q b e).0 (λ id. done id + answers id (step q b e).1)
  unfolding step
  step-Once b (calls_sync own msg) done small once = call_sync-Once own b msg done small once
  step-Once b (calls_async object slot msg) done small once =
      call_async-Once object slot b msg done small once
  step-Once b (receives alive msg) done small once =
      Keeps-Once b _ done (return_received-Keeps q alive b msg) once
  step-Once b disconnects done small once = Keeps-Once b _ done (disconnected-Keeps q b) once
  step-Once b (replies_next alive) done small once =
      Keeps-Once b _ done (reply_next-Keeps q alive b) once
  step-Once b (wakes id) done small once = Keeps-Once b _ done (wake-Keeps q b id) once
  step-Once b (expires id) done small once = Keeps-Once b _ done (expire-Keeps q b id) once

  pub step_ids : (b : Bus V) (e : Event V) → (step q b e).0.current_id ≤ b.current_id + 1
  unfolding step call_sync call_async disconnected
  step_ids b (calls_sync true msg) = omega arith
  step_ids b (calls_sync false msg) = ground arith
  step_ids b (calls_async object slot msg) = ground arith
  step_ids b (receives alive msg) = omega (arith, (return_received-Keeps q alive b msg).0)
  step_ids b disconnects = omega (arith, (disconnected-Keeps q b).0)
  step_ids b (replies_next alive) = omega (arith, (reply_next-Keeps q alive b).0)
  step_ids b (wakes id) = omega (arith, (wake-Keeps q b id).0)
  step_ids b (expires id) = omega (arith, (expire-Keeps q b id).0)

  run-Once :
      (b : Bus V) (es : List (Event V)) (done : ℕ → ℕ)
      → b.current_id + length es < 2 ^ 32
      → Once b done
      → Once (run q b es).0 (λ id. done id + answers id (run q b es).1)
  unfolding run answers
  run-Once b [] done small once id = omega (arith, once id)
  run-Once b (e ∷ es) done small once id =
      let p : Bus V × List (Output V) = step q b e in
      let later =
        run-Once p.0 es (λ j. done j + answers j p.1) (omega (arith, small, step_ids b e))
          (step-Once b e done (omega (arith, small)) once) in
      omega (arith, later id, answers-append id p.1 (run q p.0 es).1)

  -- In every history of a new bus with fewer than 2 ^ 32 events, each id that was handed out is
  -- either open, with nothing shown to its caller, or was answered exactly once: by a reply, by the
  -- end of the connection or by the end of its time, where a reply whose object is gone counts. No
  -- other id is open or was answered.
  pub answered_once :
      (es : List (Event V)) (id : ℕ)
      → length es < 2 ^ 32
      → open_calls (run q new es).0 id + answers id (run q new es).1
        ≡ (if ltb 0 id && leb id (run q new es).0.current_id then 1 else 0)
  unfolding called open_calls to_object is_waiting lookup
  answered_once es id small =
      let h = run-Once new es (λ j. 0) (omega arith) (λ j. ground arith) id in omega (arith, h)
