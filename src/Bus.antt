-- ===== src/Bus.antt =====
-- lib/clientmessagebus.cpp: the calls of a client and their replies. A step is what runs under the
-- mutex. Two methods give it up in between: the synchronous callFunction while it waits, which is the
-- step that sends and then the steps of its caller, which wakes or runs out of time; and
-- disconnected(), which is the step that takes the keys and then a step for the reply to each.
-- An object is a number, and `alive` tells which QPointers are not null.
pub mod Once
pub mod Replies
pub mod Disconnect
use qt_rpc.Base.{
  ℕ, ◌+◌, ◌%◌, ◌^◌, String, Bool, true, false, Option, none, some, List, [], ◌∷◌, ◌++◌,
  if◌then◌else◌,
}
use qt_rpc.Base.Table.{lookup, remove, insert, keys}
use qt_rpc.Qt.{Qt}
use qt_rpc.Signature.{Signature}
use qt_rpc.ReturnValue
use qt_rpc.ReturnValue.{ReturnValue}
use qt_rpc.Message.{Message, of_return, set_id}

-- ClientMessageBusPrivate::WaitingMessage
pub record Waiting : Type 0 where
  pub object : ℕ
  pub slot : String
  pub sync : Bool

-- ClientMessageBusPrivate, with the callers that are in the loop and the message of each, and the
-- keys that disconnected() took and has not replied to
pub record Bus (V : Type 0) : Type 0 where
  pub current_id : ℕ
  pub return_values : List (ℕ × ReturnValue V)
  pub waiting : List (ℕ × Waiting)
  pub callers : List (ℕ × Message V)
  pub leaving : List ℕ

-- What a step shows: `sent` is emit sendFunction, `invoked` a queued invokeMethod, `returned` and
-- `refused` the result of a synchronous call, `dropped` a reply whose object is gone.
pub data Output (V : Type 0) : Type 0 where
  sent : Message V → Output V
  invoked : ℕ → String → ℕ → ReturnValue V → Output V
  returned : ℕ → ReturnValue V → Output V
  refused : ReturnValue V → Output V
  dropped : ℕ → Output V

-- the entry that wm[id] refers to
unfoldable pub entry : Option Waiting → Waiting
entry none = record { object = 0; slot = ""; sync = false }
entry (some w) = w

-- ClientMessageBus(QObject*)
abbrev pub new : {V : Type 0} → Bus V
new = record { current_id = 0; return_values = []; waiting = []; callers = []; leaving = [] }

abbrev pub next_id : {V : Type 0} → Bus V → ℕ
next_id b = (b.current_id + 1) % 2 ^ 32

module _ {V : Type 0} (q : Qt V) where
  -- callFunction(Message, int) up to its loop, where `own` tells that the caller is in the thread
  -- of the bus
  unfoldable pub call_sync : Bool → Bus V → Message V → Bus V × List (Output V)
  unfolding entry insert
  call_sync true b msg = (
    b,
    refused (
          ReturnValue.of_error q 1
            "You cannot call functions from the same thread as the message bus, this breaks EVERYTHING.")
        ∷ [],
  )
  call_sync false b msg =
      let msg = set_id msg (next_id b) in
      (
        record b {
          current_id = next_id b;
          waiting =
              insert (next_id b) (record (entry (lookup (next_id b) b.waiting)) { sync = true })
                b.waiting;
          callers = insert (next_id b) msg b.callers;
        },
        sent msg ∷ [],
      )

  -- the caller wakes in time: with its reply, or to wait again
  unfoldable pub wake : Bus V → ℕ → Bus V × List (Output V)
  unfolding lookup remove
  wake b id = elim (lookup id b.callers) [
    | none ↦ (b, [])
    | some msg ↦ elim (lookup id b.return_values) [
      | none ↦ (b, [])
      | some ret ↦ (
        record b { return_values = remove id b.return_values; callers = remove id b.callers },
        returned id ret ∷ [],
      )
    ]
  ]

  -- the caller is out of time, and leaves its entry in `waiting`
  unfoldable pub expire : Bus V → ℕ → Bus V × List (Output V)
  unfolding lookup remove
  expire b id = elim (lookup id b.callers) [
    | none ↦ (b, [])
    | some msg ↦ (
      record b { callers = remove id b.callers },
      returned id (ReturnValue.of_error q 1 "Timed out while waiting for reply on the MessageBus.")
          ∷ [],
    )
  ]

  -- callFunction(QObject*, Signature, Message)
  unfoldable pub call_async : Bus V → ℕ → Signature → Message V → Bus V × List (Output V)
  unfolding insert
  call_async b object slot msg =
      let msg = set_id msg (next_id b) in
      (
        record b {
          current_id = next_id b;
          waiting =
              insert (next_id b) (record { object = object; slot = slot.name; sync = false })
                b.waiting;
        },
        sent msg ∷ [],
      )

  -- returnReceived(Message)
  unfoldable pub return_received : (ℕ → Bool) → Bus V → Message V → Bus V × List (Output V)
  unfolding lookup remove insert
  return_received alive b msg = elim (lookup msg.id b.waiting) [
    | none ↦ (b, [])
    | some w ↦
        let c : Bus V = record b { waiting = remove msg.id b.waiting } in
        if w.sync
        then (record c { return_values = insert msg.id msg.ret b.return_values }, [])
        else if alive w.object
        then (c, invoked w.object w.slot msg.id msg.ret ∷ [])
        else (c, dropped msg.id ∷ [])
  ]

  -- disconnected() up to the end of its lock. Its `disconnect` concerns signals of the private
  -- object, which has none that lead to returnReceived.
  unfoldable pub disconnected : Bus V → Bus V
  disconnected b = record b { leaving = b.leaving ++ keys b.waiting }

  abbrev pub disconnected_error : ReturnValue V
  disconnected_error = ReturnValue.of_error q 1 "Disconnected from server"

  -- one round of the loop of disconnected()
  unfoldable pub reply_next : (ℕ → Bool) → Bus V → Bus V × List (Output V)
  unfolding return_received
  reply_next alive b = elim b.leaving [
    | [] ↦ (b, [])
    | id ∷ ids ↦
        return_received alive (record b { leaving = ids }) (of_return q id disconnected_error)
  ]

-- What can happen to a bus.
pub data Event (V : Type 0) : Type 0 where
  calls_sync : Bool → Message V → Event V
  calls_async : ℕ → Signature → Message V → Event V
  receives : (ℕ → Bool) → Message V → Event V
  disconnects : Event V
  replies_next : (ℕ → Bool) → Event V
  wakes : ℕ → Event V
  expires : ℕ → Event V

module _ {V : Type 0} (q : Qt V) where
  unfoldable pub step : Bus V → Event V → Bus V × List (Output V)
  unfolding call_sync call_async return_received disconnected reply_next wake expire
  step b (calls_sync own msg) = call_sync q own b msg
  step b (calls_async object slot msg) = call_async q b object slot msg
  step b (receives alive msg) = return_received q alive b msg
  step b disconnects = (disconnected q b, [])
  step b (replies_next alive) = reply_next q alive b
  step b (wakes id) = wake q b id
  step b (expires id) = expire q b id

  unfoldable pub run : Bus V → List (Event V) → Bus V × List (Output V)
  run b [] = (b, [])
  run b (e ∷ es) = let (c, out) = step b e in let (d, more) = run c es in (d, out ++ more)
