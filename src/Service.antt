-- ===== src/Service.antt =====
-- lib/serviceproxy.cpp: a service object on the server, with the tables of its ProxyBase. `this` is
-- the address of the object; `data` holds addresses. The functions of the class are a parameter.
pub mod Calls
pub mod Events
use qt_rpc.Base.{
  ℕ, String, Bool, true, false, not, Option, none, some, List, [], ◌∷◌, ◌++◌, str_eq, ◌||◌,
  if◌then◌else◌,
}
use qt_rpc.Base.Text.{chars, of_chars, split}
use qt_rpc.Qt.{Qt}
use qt_rpc.Signature
use qt_rpc.Signature.{Signature}
use qt_rpc.ReturnValue
use qt_rpc.ReturnValue.{ReturnValue}
use qt_rpc.Message
use qt_rpc.Message.{Message}
use qt_rpc.Token.{AuthToken, Heap, client_entry}
use Prim.Native.Char.{Char}
use qt_rpc.Proxy.{Method}
use qt_rpc.Instance.{Instance, service_id, parse_return}
use qt_rpc.Device
use qt_rpc.Device.{Device, Action, write_message}
use qt_rpc.Proxy.{Proxy, Lists, init, list_callbacks}
use qt_rpc.Proxy.Metacall.{
  Meta, Pointer, Metacall, function_called, async_called, passed_on, Outcome, returned, raised,
  std_exception, overrun, qt_metacall, call_callback,
}

-- ServiceProxyPrivate
pub record ServiceProxy : Type 0 where
  pub this : ℕ
  pub token : AuthToken
  pub service_name : String
  pub weak_pointer : ℕ
  pub server : ℕ
  pub has_instance : Bool
  pub stored : List (String × ℕ)
  pub proxy : Proxy

-- the lists that initProxy passes to ProxyBase::init
abbrev pub service_lists : Lists
service_lists = record {
  functions = "Event" ∷ "QtRpc::Event" ∷ "CallbackValue" ∷ "QtRpc::CallbackValue" ∷ [];
  callbacks = "ReturnValue" ∷ "QtRpc::ReturnValue" ∷ [];
  events = [];
}

-- data[name] and data.keys().contains(name)
unfoldable pub find : String → List (String × ℕ) → Option ℕ
find name [] = none
find name ((k, p) ∷ m) = if str_eq k name then some p else find name m

-- data[name] = pointer
unfoldable pub put : String → ℕ → List (String × ℕ) → List (String × ℕ)
put name p [] = (name, p) ∷ []
put name p ((k, r) ∷ m) =
    let rest = put name p m in if str_eq k name then (k, p) ∷ m else (k, r) ∷ rest

-- getData(QString), where the null pointer is 0
unfoldable pub get_data : ServiceProxy → String → ℕ
unfolding find
get_data v name = elim (find name v.stored) [ none ↦ 0 | some p ↦ p ]

-- setData(QString, void *)
unfoldable pub set_data : ServiceProxy → String → ℕ → ℕ × ServiceProxy
unfolding put
set_data v name p = (p, record v { stored = put name p v.stored })

-- setServiceName(QString)
unfoldable pub set_service_name : ServiceProxy → String → ServiceProxy
set_service_name v name = record v { service_name = name }

-- Signature(QString(slot).section("(", 0, 0), less a "1" in front, with "()")
abbrev pub without_one : List Char → List Char
without_one [] = []
without_one (c ∷ cs) = if str_eq (of_chars (c ∷ [])) "1" then cs else c ∷ cs

module _ {V : Type 0} (q : Qt V) where
  -- initProxy(Server *, ServerProtocolInstanceBase *, const QHash<QString, void *> &)
  unfoldable pub init_proxy :
      List Method → ServiceProxy → ℕ → Bool → List (String × ℕ) → ServiceProxy
  unfolding init
  init_proxy methods v server has_instance stored = record v {
    server = server;
    has_instance = has_instance;
    stored = stored;
    proxy = init q service_lists methods v.proxy;
  }

  unfoldable pub slot_signature : String → Signature
  unfolding split
  slot_signature name =
      Signature.of_string q (of_chars (without_one (split b'(' (chars name)).0 ++ chars "()"))

  -- functionCalled(sig, args, type): an event
  unfoldable pub event_called :
      ServiceProxy → Device V → Signature → List V → String → ReturnValue V × List (Action V)
  event_called v d sig args type =
      if str_eq type "CallbackValue"
      then (ReturnValue.of_error q 1 "Synchronous callbacks are not supported", [])
      else if not v.has_instance
      then (ReturnValue.of_error q 1 "Invalid internal object", [])
      else (
        ReturnValue.of_value q (q.of_bool true),
        Device.send_event q d (service_id q d.instance v.this) sig args ∷ [],
      )

  -- functionCalled(obj, slot, sig, args, type): a callback
  unfoldable pub callback_called :
      ServiceProxy
      → Device V
      → ℕ
      → String
      → Signature
      → List V
      → String
      → ReturnValue V × Device V × List (Action V)
  unfolding slot_signature
  callback_called v d object name sig args type =
      if str_eq type "Event"
      then (ReturnValue.of_error q 1 "Asynchronous events are not supported", d, [])
      else if not v.has_instance
      then (ReturnValue.of_error q 1 "Invalid internal object", d, [])
      else (let (id, e, done) =
            Device.call_callback q d object (slot_signature name) (service_id q d.instance v.this)
              sig args in
          (ReturnValue.of_value q (q.of_uint id), e, done))

  -- setProtocolData, getProtocolProperty, with the properties of the instance
  unfoldable pub set_protocol_data :
      {P : Type 0} → (P → String → V → P) → ServiceProxy → P → String → V → Bool × P
  set_protocol_data set_property v p name value =
      if not v.has_instance then (false, p) else (true, set_property p name value)

  unfoldable pub get_protocol_property :
      {P : Type 0} → (P → String → V) → ServiceProxy → P → String → V
  get_protocol_property property v p name = if not v.has_instance then q.null else property p name

  -- currentFunctionId(); quint32(-1) without an instance
  unfoldable pub current_function_id : ServiceProxy → Instance V → ℕ
  current_function_id v s = if not v.has_instance then 0xffff_ffff else s.current_function_id

  -- sendReturn(quint32, ReturnValue)
  unfoldable pub send_return :
      ServiceProxy → Device V → ℕ → ReturnValue V → Device V × List (Action V)
  send_return v d id ret =
      if not v.has_instance
      then (d, [])
      else (let (sent, s) = parse_return q d.instance ret in
          let e : Device V = record d { instance = s } in
          (e, write_message q e (Message.of_return q id sent) ∷ []))

  -- auth(AuthToken), where `login` is the virtual auth(QString, QString)
  unfoldable pub auth :
      (String → String → ReturnValue V) → Heap V → AuthToken → ReturnValue V × Heap V
  unfolding client_entry
  auth login h token =
      let (username, h) = client_entry q.null h token "username" in
      let (password, h) = client_entry q.null h token "password" in
      (login (q.to_text username) (q.to_text password), h)

  -- the signature of the same function with an object and a slot for its return
  abbrev pub async_signature : Signature → Signature
  async_signature sig = record sig { args = "QObject*" ∷ "const char*" ∷ sig.args }

  -- siglist.contains(sig)
  unfoldable pub lists : Signature → List Signature → Bool
  lists sig [] = false
  lists sig (t ∷ ts) = Signature.equal t sig || lists sig ts

  module _ {S : Type 0} (meta : Meta V S) (of_object : ℕ → V) where
    -- the arguments with `this` and SLOT(sendReturn(quint32, ReturnValue)) in front
    abbrev pub async_args : ServiceProxy → List V → List V
    async_args v args = of_object v.this ∷ q.of_text "1sendReturn(quint32, ReturnValue)" ∷ args

    abbrev pub async_outcome : Outcome V × S → Outcome V × S
    async_outcome (returned ret, s) =
        if ReturnValue.is_error ret then (returned ret, s) else (returned (ReturnValue.async q), s)
    async_outcome (o, s) = (o, s)

    -- the handler of std::exception
    abbrev pub caught : Outcome V × S → Outcome V × S
    caught (raised (std_exception what), s) = (returned (ReturnValue.of_error q 1 what), s)
    caught (o, s) = (o, s)

    -- callFunction(sig, args); only the call of a synchronous function stands in the `try`
    unfoldable pub call_function : ServiceProxy → Signature → List V → S → Outcome V × S
    unfolding lists list_callbacks call_callback
    call_function v sig args s =
        if lists (async_signature sig) (list_callbacks v.proxy)
        then async_outcome
            (call_callback q meta v.proxy (async_signature sig) (async_args v args) s)
        else caught (call_callback q meta v.proxy sig args s)

    -- what a call of qt_metacall does for a service: the answer, the device after it, and the actions
    unfoldable pub perform : ServiceProxy → Metacall V → Device V → Device V × List (Action V)
    unfolding event_called callback_called
    perform v (function_called sig args type) d = (d, (event_called v d sig args type).1)
    perform v (async_called object name sig args type) d =
        let (ret, e, done) = callback_called v d object name sig args type in (e, done)
    perform v (passed_on id) d = (d, [])

    -- the calls of one emission, one after another
    unfoldable pub perform_all :
        ServiceProxy → List (Metacall V) → Device V → Device V × List (Action V)
    unfolding perform
    perform_all v [] d = (d, [])
    perform_all v (c ∷ cs) d =
        let (e, done) = perform v c d in let (f, rest) = perform_all v cs e in (f, done ++ rest)
