-- ===== src/Bus/Replies.antt =====
-- Which reply reaches which caller of the bus.
use qt_rpc.Base.{ℕ, ◌≡◌, ◌≢◌, refl, subst, ◌∙◌, Bool, true, false, some, List, [], ◌∷◌, arith, All}
use qt_rpc.Base.Table.{lookup, lookup-remove, lookup-insert, lookup-insert_self}
use qt_rpc.Qt.{Qt}
use qt_rpc.Message.{Message, set_id}
use qt_rpc.Bus.{Waiting, Bus, returned, next_id, call_sync, wake, return_received, entry}

module _ {V : Type 0} (q : Qt V) (alive : ℕ → Bool) where
  -- what a reply to another call leaves
  other_reply :
      (b : Bus V) (msg : Message V) (id : ℕ)
      → msg.id ≢ id
      → (lookup id (return_received q alive b msg).0.waiting ≡ lookup id b.waiting)
        × (lookup id (return_received q alive b msg).0.return_values ≡ lookup id b.return_values)
        × (lookup id (return_received q alive b msg).0.callers ≡ lookup id b.callers)
  unfolding return_received
  other_reply b msg id ne = (
    ground (arith, lookup-remove msg.id id b.waiting),
    ground (arith, lookup-insert msg.id id msg.ret b.return_values),
    ground arith,
  )

  -- replies that arrive one after another
  unfoldable pub receive_all : Bus V → List (Message V) → Bus V
  receive_all b [] = b
  receive_all b (m ∷ ms) = receive_all (return_received q alive b m).0 ms

  -- A caller that waits: its entry is synchronous and it is among the callers.
  record Waits (b : Bus V) (id : ℕ) (m : Message V) : Type 0 where
    w : Waiting
    is_sync : w.sync ≡ true
    entered : lookup id b.waiting ≡ some w
    called : lookup id b.callers ≡ some m

  receive_all-Waits :
      (b : Bus V) (ms : List (Message V)) (id : ℕ) (m : Message V)
      → All (λ o. o.id ≢ id) ms
      → Waits b id m
      → Waits (receive_all b ms) id m
  unfolding receive_all
  receive_all-Waits b [] id m others waits = waits
  receive_all-Waits b (o ∷ os) id m (ne, others) waits =
      let (entry_, values, callers) = other_reply b o id ne in
      receive_all-Waits (return_received q alive b o).0 os id m others (record {
        w = waits.w;
        is_sync = waits.is_sync;
        entered = entry_ ∙ waits.entered;
        called = callers ∙ waits.called;
      })

  wake_reply :
      (b : Bus V) (reply m : Message V)
      → Waits b reply.id m
      → (wake q (return_received q alive b reply).0 reply.id).1 ≡ returned reply.id reply.ret ∷ []
  unfolding wake return_received
  wake_reply b reply m waits = ground (
    arith,
    waits.entered,
    waits.is_sync,
    waits.called,
    lookup-insert reply.id reply.id reply.ret b.return_values,
  )

  call_sync-Waits :
      (b : Bus V) (msg : Message V)
      → Waits (call_sync q false b msg).0 (next_id b) (set_id msg (next_id b))
  unfolding call_sync
  call_sync-Waits b msg = record {
    w = record (entry (lookup (next_id b) b.waiting)) { sync = true };
    is_sync = refl;
    entered = lookup-insert_self (next_id b) _ b.waiting;
    called = lookup-insert_self (next_id b) (set_id msg (next_id b)) b.callers;
  }

  -- A synchronous call returns the reply with its id when its caller wakes, whatever replies to
  -- other calls came before it.
  pub reply_returns :
      (b : Bus V) (msg reply : Message V) (others : List (Message V))
      → All (λ o. o.id ≢ next_id b) others
      → reply.id ≡ next_id b
      → (wake q
          (return_received q alive (receive_all (call_sync q false b msg).0 others) reply).0
          (next_id b)).1
        ≡ returned (next_id b) reply.ret ∷ []
  reply_returns b msg reply others ne e =
      subst
        (λ id.
          All (λ o. o.id ≢ id) others
          → Waits (call_sync q false b msg).0 id (set_id msg (next_id b))
          → (wake q
              (return_received q alive (receive_all (call_sync q false b msg).0 others) reply).0
              id).1
            ≡ returned id reply.ret ∷ [])
        e
        (λ ne waits.
          wake_reply _ reply _
            (receive_all-Waits (call_sync q false b msg).0 others reply.id _ ne waits))
        ne (call_sync-Waits b msg)
