-- ===== src/ClientProxy/Route.antt =====
-- lib/clientproxy.cpp: where a connection sends the events and the callbacks that arrive. A result
-- `none` is a null pointer that is followed.
use qt_rpc.Base.{
  ℕ, ◌≡◌, ◌≢◌, inl, inr, refl, Option-cases, ==-ne, Option, none, some, List, [], ◌∷◌, ◌==◌,
  if◌then◌else◌,
}
use qt_rpc.Base.Table.{lookup, keys}
use qt_rpc.Qt.{Qt}
use qt_rpc.Message.{Message}
use qt_rpc.ClientProxy.{ServiceData, World, put_service, event_receivers, callback_receiver}

abbrev pub if_alive : Option (List ℕ) → Option (List ℕ)
if_alive none = some []
if_alive (some ps) = some ps

abbrev pub event_goes : Option ServiceData → List ℕ
event_goes none = []
event_goes (some d) = event_receivers d

abbrev pub callback_goes : Option ServiceData → Option ℕ
callback_goes none = none
callback_goes (some d) = (callback_receiver d).0

module _ {V B : Type 0} (q : Qt V) where
  -- ServiceData::sendEvent through the weak pointer of a registered service
  unfoldable pub receivers : World V B → Option ℕ → Option (List ℕ)
  receivers w none = none
  receivers w (some a) = elim (w.service_at a) [ none ↦ none | some d ↦ some (event_receivers d) ]

  -- sendEvent(Message), behind the lock: the proxies whose receiveEvent is called
  unfoldable pub route_event : World V B → Message V → List (ℕ × ℕ) → Option (List ℕ)
  unfolding receivers lookup
  route_event w msg [] = some []
  route_event w msg (e ∷ table) =
      if msg.version == 0
      then receivers w (lookup (q.begin (keys (e ∷ table))) (e ∷ table))
      else if_alive (receivers w (lookup msg.service (e ∷ table)))

  unfoldable pub send_event : World V B → ℕ → Message V → Option (List ℕ)
  unfolding route_event
  send_event w c msg = route_event w msg (w.connection_at c).registered

  -- ServiceData::sendCallback through the weak pointer
  unfoldable pub callback_at : World V B → Option ℕ → Option (Option ℕ × World V B)
  unfolding callback_receiver
  callback_at w none = none
  callback_at w (some a) = elim (w.service_at a) [
    | none ↦ none
    | some d ↦ let (p, e) = callback_receiver d in some (p, put_service w a (some e))
  ]

  abbrev pub if_present : World V B → Option (Option ℕ × World V B) → Option (Option ℕ × World V B)
  if_present w none = some (none, w)
  if_present w (some r) = some r

  -- sendCallback(Message): the proxy whose receiveCallback is called
  unfoldable pub route_callback :
      World V B → Message V → List (ℕ × ℕ) → Option (Option ℕ × World V B)
  unfolding callback_at lookup
  route_callback w msg [] = some (none, w)
  route_callback w msg (e ∷ table) =
      if msg.version == 0
      then callback_at w (lookup (q.begin (keys (e ∷ table))) (e ∷ table))
      else if_present w (callback_at w (lookup msg.service (e ∷ table)))

  unfoldable pub send_callback : World V B → ℕ → Message V → Option (Option ℕ × World V B)
  unfolding route_callback
  send_callback w c msg = route_callback w msg (w.connection_at c).registered

  -- the service at the address that was found
  abbrev pub living : World V B → Option ℕ → Option ServiceData
  living w none = none
  living w (some a) = w.service_at a

  abbrev pub receiver : Option (Option ℕ × World V B) → Option (Option ℕ)
  receiver none = none
  receiver (some (p, w)) = some p

  event_at :
      (w : World V B) (o : Option ℕ) → if_alive (receivers w o) ≡ some (event_goes (living w o))
  unfolding receivers
  event_at w none = refl
  event_at w (some a) = elim (Option-cases (w.service_at a)) [
    | inl gone ↦ rw (receivers, gone) refl
    | inr (d, e) ↦ rw (receivers, e) refl
  ]

  callback_goes_at :
      (w : World V B) (o : Option ℕ)
      → receiver (if_present w (callback_at w o)) ≡ some (callback_goes (living w o))
  unfolding callback_at
  callback_goes_at w none = refl
  callback_goes_at w (some a) = elim (Option-cases (w.service_at a)) [
    | inl gone ↦ rw (callback_at, gone) refl
    | inr (d, e) ↦ rw (callback_at, e) refl
  ]

  routes :
      (w : World V B) (msg : Message V) (table : List (ℕ × ℕ))
      → msg.version ≢ 0
      → (route_event w msg table ≡ some (event_goes (living w (lookup msg.service table))))
        × (receiver (route_callback w msg table)
            ≡ some (callback_goes (living w (lookup msg.service table))))
  unfolding route_event route_callback lookup
  routes w msg [] h = (refl, refl)
  routes w msg (e ∷ table) h =
      let later = ==-ne msg.version 0 h in
      (
        rw later (event_at w (lookup msg.service (e ∷ table))),
        rw later (callback_goes_at w (lookup msg.service (e ∷ table))),
      )

  -- From version 1 on an event goes to the proxies that share the service it names, and a callback to
  -- the one that answers for that service; what names no registered service, or one that is gone,
  -- goes nowhere.
  pub send_event-send_callback :
      (w : World V B) (c : ℕ) (msg : Message V)
      → msg.version ≢ 0
      → (send_event w c msg
          ≡ some (event_goes (living w (lookup msg.service (w.connection_at c).registered))))
        × (receiver (send_callback w c msg)
            ≡ some (callback_goes (living w (lookup msg.service (w.connection_at c).registered))))
  unfolding send_event send_callback
  send_event-send_callback w c msg h = routes w msg (w.connection_at c).registered h
