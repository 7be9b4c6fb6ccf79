-- ===== src/ClientProxy/Calls.antt =====
-- lib/clientproxy.cpp: the calls of a service's functions through a proxy, their returns, and the
-- callbacks and events that reach a proxy.
use qt_rpc.Base.{ℕ, String, Bool, ◌&&◌, Option, none, some, List, [], ◌∷◌, if◌then◌else◌}
use qt_rpc.Base.Table.{remove, insert}
use qt_rpc.Qt.{Qt}
use qt_rpc.Signature.{Signature}
use qt_rpc.ReturnValue
use qt_rpc.ReturnValue.{ReturnValue}
use qt_rpc.Proxy.{Proxy, Lists, Method, init}
use qt_rpc.Proxy.Metacall.{Meta, Outcome, returned, emit_signal, call_callback}
use qt_rpc.ClientProxy.{World, Env, service_call, service_call_async}
use qt_rpc.ClientProxy.Sharer.{
  ObjectSlot, Returned, ClientProxy, value, connection_of, parse_return,
}
use qt_rpc.ClientProxy.Select.{plain}
use qt_rpc.ClientProxy.Request.{Deed, send_return_value, returns_to}

-- the lists that init() passes to ProxyBase::init
abbrev pub client_lists : Lists
client_lists = record {
  functions = "ReturnValue" ∷ "QtRpc::ReturnValue" ∷ [];
  callbacks = "ReturnValue" ∷ "QtRpc::ReturnValue" ∷ [];
  events = "Event" ∷ "QtRpc::Event" ∷ [];
}

-- init()
unfoldable pub init_client : {V : Type 0} → Qt V → List Method → Proxy → Proxy
unfolding init
init_client q methods p = init q client_lists methods p

-- How a call ends: by its return, or by an exception with the return value
pub data Reply (V : Type 0) : Type 0 where
  replied : Returned V → Reply V
  threw : ReturnValue V → Reply V

-- throwException(ret) and `return(ret)`, where `throws` tells whether exceptions are enabled
unfoldable pub fail : {V : Type 0} → Bool → Returned V → Reply V
fail throws r = if throws then threw r.ret else replied r

module _ {V B : Type 0} (q : Qt V) (env : Env V B) (throws : Bool) where
  abbrev pub failed : String → Returned V
  failed what = plain (ReturnValue.of_error q 1 what)

  abbrev no_service : World V B × ClientProxy V → Reply V × World V B × ClientProxy V
  no_service (w, p) = (fail throws (failed "No service selected"), w, p)

  abbrev pub reply_of : Returned V → Reply V
  reply_of r = if ReturnValue.is_error r.ret then fail throws r else replied r

  -- functionCalled(sig, args, type)
  unfoldable pub function_called :
      World V B → ClientProxy V → Signature → List V → Reply V × World V B × ClientProxy V
  unfolding fail service_call parse_return
  function_called w p sig args = elim (connection_of w p).bus [
    | none ↦ (fail throws (failed "Not Connected"), w, p)
    | some b ↦ elim p.service [
      | none ↦ no_service (w, p)
      | some a ↦ elim (w.service_at a) [
        | none ↦ no_service (w, p)
        | some d ↦
            let (ret, w) = service_call q env w d sig args in
            let (r, w) = parse_return q env w p ret in (reply_of r, w, p)
      ]
    ]
  ]

  -- functionCalled(obj, slot, sig, args, type) behind the call
  unfoldable pub note_call :
      ℕ → String → ReturnValue V × World V B → ClientProxy V → Reply V × World V B × ClientProxy V
  unfolding fail insert
  note_call object name (ret, w) p =
      if ReturnValue.is_error ret then (fail throws (plain ret), w, p) else (
        replied (plain ret),
        w,
        record p {
          function_objects =
              insert (q.to_uint ret.value) (record { slot = name; object = object; id = 0 })
                p.function_objects;
        },
      )

  -- functionCalled(obj, slot, sig, args, type)
  unfoldable pub async_called :
      World V B
      → ClientProxy V
      → ℕ
      → String
      → Signature
      → List V
      → Reply V × World V B × ClientProxy V
  unfolding fail note_call service_call_async
  async_called w p object name sig args = elim (connection_of w p).bus [
    | none ↦ (fail throws (failed "Not Connected"), w, p)
    | some b ↦ elim p.service [
      | none ↦ no_service (w, p)
      | some a ↦ elim (w.service_at a) [
        | none ↦ no_service (w, p)
        | some d ↦
            note_call object name
              (service_call_async q env w d p.this (returns_to "functionCompleted") sig args) p
      ]
    ]
  ]

  -- functionCompleted(uint, ReturnValue), where `throws` tells of the asynchronous exceptions
  unfoldable pub function_completed :
      World V B
      → ClientProxy V
      → ℕ
      → ReturnValue V
      → Option (ReturnValue V) × World V B × ClientProxy V × List (Deed V)
  unfolding parse_return value remove send_return_value
  function_completed w p id ret =
      let (r, w) = parse_return q env w p ret in
      let obj : ObjectSlot = record (value id p.function_objects) { id = id } in
      let p : ClientProxy V = record p { function_objects = remove id p.function_objects } in
      if ReturnValue.is_error r.ret && throws
      then (some r.ret, w, p, [])
      else (none, w, p, send_return_value obj r)

-- what comes of a message: a callback's return for the bus, the end of the process, or an exception
pub data Received (V : Type 0) : Type 0 where
  nothing : Received V
  return_callback : ℕ → ReturnValue V → Received V
  fatal : ReturnValue V → Received V
  escaped : Outcome V → Received V

module _ {V S : Type 0} where
  abbrev pub callback_result : ℕ → Outcome V × S → Received V × S
  callback_result id (returned ret, s) = (return_callback id ret, s)
  callback_result id (o, s) = (escaped o, s)

  abbrev pub event_result : Outcome V × S → Received V × S
  event_result (returned ret, s) = if ReturnValue.is_error ret then (fatal ret, s) else (nothing, s)
  event_result (o, s) = (escaped o, s)

module _ {V B S : Type 0} (q : Qt V) (meta : Meta V S) (tables : Proxy) where
  -- receiveCallback(uint, Signature, Arguments)
  unfoldable pub receive_callback :
      World V B → ClientProxy V → ℕ → Signature → List V → S → Received V × S
  unfolding call_callback
  receive_callback w p id sig args s = elim (connection_of w p).bus [
    | none ↦ (nothing, s)
    | some b ↦ callback_result id (call_callback q meta tables sig args s)
  ]

  -- receiveEvent(Signature, Arguments)
  unfoldable pub receive_event : World V B → ClientProxy V → Signature → List V → S → Received V × S
  unfolding emit_signal
  receive_event w p sig args s = elim (connection_of w p).bus [
    | none ↦ (nothing, s)
    | some b ↦ event_result (emit_signal q meta tables sig args s)
  ]
