-- ===== src/ClientProxy.antt =====
-- lib/clientproxy.cpp and lib/clientproxy_p.h: the client's proxies, which share services and
-- connections. Objects stand in a store under their addresses; a proxy is known by its own address.
-- The message bus of a connection is a parameter: `B` is its state, `Env` its operations.
pub mod Sharing
pub mod Route
pub mod Sharer
pub mod Select
pub mod Connect
pub mod Request
pub mod Connecting
pub mod Calls
use qt_rpc.Base.{
  ℕ, ◌+◌, ◌-◌, String, Bool, true, false, not, ◌&&◌, ◌||◌, Option, none, some, List, [], ◌∷◌, ◌++◌,
  ◌==◌, if◌then◌else◌,
}
use qt_rpc.Base.Table.{lookup, remove, insert, keys}
use qt_rpc.Qt.{Qt}
use qt_rpc.Signature
use qt_rpc.Signature.{Signature}
use qt_rpc.ReturnValue
use qt_rpc.ReturnValue.{ReturnValue}
use qt_rpc.Message
use qt_rpc.Message.{Message}
use qt_rpc.Token.{AuthToken, Heap}

-- ClientProxy::State
pub data State : Type 0 where
  disconnected connecting connected : State

abbrev pub is_disconnected : State → Bool
is_disconnected disconnected = true
is_disconnected _ = false

-- ServiceData, with the connection's address and the number of its shared pointers
pub record ServiceData : Type 0 where
  pub id : ℕ
  pub connection : ℕ
  pub primary : Option ℕ
  pub list : List ℕ
  pub references : ℕ

-- ConnectionData; serviceDataObjects holds the addresses of its weak pointers
pub record Connection (B : Type 0) : Type 0 where
  pub state : State
  pub bus : Option B
  pub registered : List (ℕ × ℕ)
  pub token : AuthToken

-- the objects that exist: a freed service is `none`
pub record World (V B : Type 0) : Type 0 where
  pub connection_at : ℕ → Connection B
  pub service_at : ℕ → Option ServiceData
  pub fresh : ℕ
  pub heap : Heap V

-- the message bus: ClientMessageBus::instance(scheme), callFunction(Message), and
-- callFunction(QObject *, Signature, Message)
pub record Env (V B : Type 0) : Type 0 where
  pub instance_of : String → Option B
  pub call : Message V → B → ReturnValue V × B
  pub call_async : ℕ → Signature → Message V → B → ReturnValue V × B
  -- a QVariant of a ReturnValue
  pub of_return : ReturnValue V → V

abbrev pub put_connection : {V B : Type 0} → World V B → ℕ → Connection B → World V B
put_connection w a c = record w { connection_at = λ b. if a == b then c else w.connection_at b }

abbrev pub put_service : {V B : Type 0} → World V B → ℕ → Option ServiceData → World V B
put_service w a d = record w { service_at = λ b. if a == b then d else w.service_at b }

-- list.removeAll(ptr)
unfoldable pub remove_all : ℕ → List ℕ → List ℕ
remove_all p [] = []
remove_all p (r ∷ rs) = let rest = remove_all p rs in if r == p then rest else r ∷ rest

-- list.first(), or no client
abbrev pub first : List ℕ → Option ℕ
first [] = none
first (p ∷ ps) = some p

abbrev pub is_primary_of : ℕ → Option ℕ → Bool
is_primary_of p none = false
is_primary_of p (some r) = r == p

-- ServiceData(quint32, QSharedPointer<ConnectionData>), held by one pointer
abbrev pub new_service : ℕ → ℕ → ServiceData
new_service id connection = record {
  id = id;
  connection = connection;
  primary = none;
  list = [];
  references = 1;
}

-- addProxy(ClientProxy *)
unfoldable pub add_proxy : ℕ → ServiceData → ServiceData
add_proxy p d = record d {
  primary = elim d.primary [ none ↦ some p | some r ↦ some r ];
  list = d.list ++ p ∷ [];
}

-- removeProxy(ClientProxy *)
unfoldable pub remove_proxy : ℕ → ServiceData → ServiceData
unfolding remove_all
remove_proxy p d = record d {
  list = remove_all p d.list;
  primary = if is_primary_of p d.primary then first (remove_all p d.list) else d.primary;
}

-- sendEvent: the proxies whose receiveEvent is called, in order
abbrev pub event_receivers : ServiceData → List ℕ
event_receivers d = d.list

-- sendCallback: the proxy whose receiveCallback is called, if there is one
unfoldable pub callback_receiver : ServiceData → Option ℕ × ServiceData
callback_receiver d = elim d.primary [
  | none ↦ (first d.list, record d { primary = first d.list })
  | some p ↦ (some p, d)
]

module _ {V B : Type 0} where
  -- registerServiceData(quint32, QWeakPointer<ServiceData>)
  unfoldable pub register : World V B → ℕ → ℕ → ℕ → World V B
  unfolding insert
  register w c id a =
      put_connection w c
        (record (w.connection_at c) { registered = insert id a (w.connection_at c).registered })

  -- unregisterServiceData(quint32)
  unfoldable pub unregister : World V B → ℕ → ℕ → World V B
  unfolding remove
  unregister w c id =
      put_connection w c
        (record (w.connection_at c) { registered = remove id (w.connection_at c).registered })

  -- QSharedPointer<ServiceData>(new ServiceData(id, connection))
  unfoldable pub allocate : World V B → ℕ → ℕ → ℕ × World V B
  allocate w id c =
      (w.fresh, record (put_service w w.fresh (some (new_service id c))) { fresh = w.fresh + 1 })

  unfoldable pub change : World V B → ℕ → (ServiceData → ServiceData) → World V B
  change w a f = elim (w.service_at a) [ none ↦ w | some d ↦ put_service w a (some (f d)) ]

  -- another shared pointer to a service
  abbrev pub retain : World V B → ℕ → World V B
  retain w a = change w a (λ d. record d { references = d.references + 1 })

module _ {V B : Type 0} (q : Qt V) (env : Env V B) where
  abbrev pub not_connected : ReturnValue V
  not_connected = ReturnValue.of_error q 1 "Cannot call functions while not connected"

  -- the two forms of a call on the bus of a connection
  unfoldable pub on_bus : World V B → ℕ → (B → ReturnValue V × B) → ReturnValue V × World V B
  on_bus w c f = elim (w.connection_at c).bus [
    | none ↦ (not_connected, w)
    | some b ↦
        let (ret, b) = f b in
        (ret, put_connection w c (record (w.connection_at c) { bus = some b }))
  ]

  -- ConnectionData::callFunction(Signature, Arguments)
  unfoldable pub connection_call : World V B → ℕ → Signature → List V → ReturnValue V × World V B
  unfolding on_bus
  connection_call w c sig args =
      on_bus w c (env.call (Message.of_call q 0 Message.protocol sig args))

  -- ConnectionData::callFunction(QObject *, Signature, Signature, Arguments)
  unfoldable pub connection_call_async :
      World V B → ℕ → ℕ → Signature → Signature → List V → ReturnValue V × World V B
  unfolding on_bus
  connection_call_async w c object slot sig args =
      on_bus w c (env.call_async object slot (Message.of_call q 0 Message.protocol sig args))

  -- ServiceData::callFunction(Signature, Arguments)
  unfoldable pub service_call :
      World V B → ServiceData → Signature → List V → ReturnValue V × World V B
  unfolding on_bus
  service_call w d sig args =
      on_bus w d.connection (env.call (Message.of_service_call q 0 Message.function sig args d.id))

  -- ServiceData::callFunction(QObject *, Signature, Signature, Arguments)
  unfoldable pub service_call_async :
      World V B → ServiceData → ℕ → Signature → Signature → List V → ReturnValue V × World V B
  unfolding on_bus
  service_call_async w d object slot sig args =
      on_bus w d.connection
        (env.call_async object slot (Message.of_service_call q 0 Message.function sig args d.id))

  -- ~ServiceData()
  unfoldable pub destroy : World V B → ServiceData → World V B
  unfolding connection_call_async unregister
  destroy w d =
      let connection = w.connection_at d.connection in
      let w : World V B =
        if is_disconnected connection.state
        then w
        else (connection_call_async w d.connection 0 Signature.empty
            (record { name = "destroyService"; args = "quint32" ∷ [] }) (q.of_uint d.id ∷ [])).1 in
      unregister w d.connection d.id

  -- a shared pointer to a service goes away, and the service with the last one
  unfoldable pub release : World V B → ℕ → World V B
  unfolding destroy
  release w a = elim (w.service_at a) [
    | none ↦ w
    | some d ↦
        if d.references == 1
        then destroy (put_service w a none) d
        else put_service w a (some (record d { references = d.references - 1 }))
  ]
