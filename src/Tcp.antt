-- ===== src/Tcp.antt =====
-- lib/serverprotocolinstancetcp.cpp: the server's end of a connection over TCP, on top of Device.
-- The clock and the existence of files are parameters. Encryption itself is QSslSocket's: the model
-- has its start and the signal `encrypted`.
pub mod Client
pub mod History
pub mod Guard
pub mod Forward
pub mod Listener
use qt_rpc.Base.{
  ℕ, ◌+◌, ◌-◌, ◌/◌, ◌%◌, ◌^◌, String, Bool, true, false, not, ◌&&◌, ◌||◌, Option, none, some, List,
  [], ◌∷◌, ◌++◌, str_eq, ltb, leb, ◌==◌, if◌then◌else◌,
}
use qt_rpc.Qt.{Qt, Bytes}
use qt_rpc.Signature.{Signature}
use qt_rpc.Instance.{Services}
use qt_rpc.Device
use qt_rpc.Device.{
  Device, Action, protocol_function, change_state, call_protocol, error_message, prepare,
}
use qt_rpc.Device.Dispatch.{handle_frame}

-- ServerProtocolListenerTcp::SslMode; a property's number is cast to it without a check
pub data SslMode : Type 0 where
  ssl_enabled ssl_disabled ssl_forced : SslMode
  ssl_unknown : ℕ → SslMode

abbrev pub ssl_number : SslMode → ℕ
ssl_number ssl_enabled = 0
ssl_number ssl_disabled = 1
ssl_number ssl_forced = 2
ssl_number (ssl_unknown n) = n

abbrev pub ssl_of_number : ℕ → SslMode
ssl_of_number n =
    if n == 0
    then ssl_enabled
    else if n == 1
    then ssl_disabled
    else if n == 2
    then ssl_forced
    else ssl_unknown n

-- ServerProtocolInstanceTcpPrivate. `timer` is the interval of the timer when it runs, in
-- milliseconds; `last_ping` is in seconds
pub record Tcp (V : Type 0) : Type 0 where
  pub device : Device V
  pub socket : Bool
  pub descriptor : ℕ
  pub ssl_mode : SslMode
  pub certificate : String
  pub last_ping : ℕ
  pub timer : Option ℕ
  pub timeout_enabled : Bool
  pub timeout : ℕ

-- What a step does: what the device does, and startServerEncryption, disconnectFromHost, deleteLater,
-- and QObject::disconnect of the private object
pub data TcpAction (V : Type 0) : Type 0 where
  did : Action V → TcpAction V
  encryption_started : TcpAction V
  host_dropped : TcpAction V
  deleted : TcpAction V
  signals_cut : TcpAction V

-- the properties of the socket: peerAddress, port and peerPort
pub record Peer (V : Type 0) : Type 0 where
  pub address : V
  pub port : V
  pub peer_port : V

-- timeout / 4 of an int, by its bit pattern
abbrev pub quarter : ℕ → ℕ
quarter n = if ltb n (2 ^ 31) then n / 4 else (2 ^ 32 - (2 ^ 32 - n) / 4) % 2 ^ 32

-- a number of seconds that is more than an int
abbrev pub exceeds : ℕ → ℕ → Bool
exceeds seconds n = if ltb n (2 ^ 31) then ltb n seconds else true

abbrev pub Done : Type 0 → Type 0
Done V = Tcp V × List (TcpAction V)

-- ServerProtocolInstanceTcp(Server *, QObject *)
unfoldable pub tcp : {V : Type 0} → Device V → ℕ → Tcp V
tcp d now = record {
  device = d;
  socket = false;
  descriptor = 2 ^ 32 - 1;
  ssl_mode = ssl_enabled;
  certificate = "";
  last_ping = now;
  timer = none;
  timeout_enabled = false;
  timeout = 20;
}

module _ {V : Type 0} where
  -- disconnect()
  unfoldable pub disconnect : Tcp V → Done V
  disconnect t =
      (record t { socket = false }, (if t.socket then host_dropped ∷ [] else []) ++ deleted ∷ [])

  abbrev pub with_actions : List (TcpAction V) → Done V → Done V
  with_actions before (t, done) = (t, before ++ done)

  -- the actions of the device
  abbrev pub all_did : List (Action V) → List (TcpAction V)
  all_did [] = []
  all_did (a ∷ as') = did a ∷ all_did as'

module _ {V : Type 0} (q : Qt V) where
  -- ping(), at the end of the timer
  unfoldable pub ping : ℕ → Tcp V → Done V
  ping now t =
      if exceeds (now - t.last_ping) t.timeout
      then (t, signals_cut ∷ [])
      else (t, did (call_protocol q t.device "ping" [] []) ∷ [])

  -- callProtocolFunction("enableTimeout(int)"), and the start of the timer
  unfoldable pub start_timeout : ℕ → Tcp V → Done V
  start_timeout now t = (
    record t { last_ping = now; timer = some (quarter t.timeout) },
    did (call_protocol q t.device "enableTimeout" ("int" ∷ []) (q.of_int t.timeout ∷ [])) ∷ [],
  )

  abbrev pub disable_message : Tcp V → TcpAction V
  disable_message t = did (call_protocol q t.device "disableTimeout" [] [])

  abbrev pub set_enabled : Bool → Done V → Done V
  set_enabled b (t, done) = (record t { timeout_enabled = b }, done)

  abbrev pub equal_flags : Bool → Bool → Bool
  equal_flags true b = b
  equal_flags false b = not b

  -- setProperty(QString, QVariant)
  unfoldable pub set_property : ℕ → Tcp V → String → V → Done V
  unfolding start_timeout
  set_property now t prop val =
      if str_eq prop "descriptor"
      then (record t { descriptor = q.to_int val }, [])
      else if str_eq prop "sslmode"
      then (record t { ssl_mode = ssl_of_number (q.to_int val) }, [])
      else if str_eq prop "certificate"
      then (record t { certificate = q.to_text val }, [])
      else if str_eq prop "timeoutEnabled"
      then set_enabled (q.to_bool val) (
          if equal_flags t.timeout_enabled (q.to_bool val)
          then (t, [])
          else if q.to_bool val
          then start_timeout now t
          else (t, disable_message t ∷ []))
      else if str_eq prop "timeout"
      then (let t : Tcp V = record t { timeout = q.to_int val } in
          if t.timeout_enabled then start_timeout now t else (t, disable_message t ∷ []))
      else (t, [])

  -- getProperty(QString)
  unfoldable pub get_property : Peer V → Tcp V → String → V
  get_property peer t prop =
      if str_eq prop "descriptor"
      then q.of_int t.descriptor
      else if str_eq prop "sslmode"
      then q.of_int (ssl_number t.ssl_mode)
      else if str_eq prop "certificate"
      then q.of_text t.certificate
      else if str_eq prop "protocol"
      then q.of_text "tcp"
      else if str_eq prop "timeoutEnabled"
      then q.of_bool t.timeout_enabled
      else if str_eq prop "timeout"
      then q.of_int t.timeout
      else if t.socket && str_eq prop "peerAddress"
      then peer.address
      else if t.socket && str_eq prop "port"
      then peer.port
      else if t.socket && str_eq prop "peerPort"
      then peer.peer_port
      else q.null

  -- init(), which gives the socket to prepareDevice
  unfoldable pub init : Tcp V → Done V
  unfolding prepare
  init t = (record t { socket = true }, all_did (prepare q t.device))

  -- an error that ends the connection
  unfoldable pub refuse : String → Tcp V → Done V
  unfolding disconnect
  refuse what t = with_actions (did (error_message q t.device 2 what) ∷ []) (disconnect t)

  -- changeState(Service)
  unfoldable pub serve : Tcp V → Done V
  unfolding change_state
  serve t =
      let (d, done) = change_state q t.device Device.service in
      (record t { device = d }, all_did done)

  module _ (exists : String → Bool) where
    -- the protocol function setSsl, behind the timeout
    unfoldable pub set_ssl : Bool → Tcp V → Done V
    unfolding refuse serve
    set_ssl true t = elim t.ssl_mode [
      | ssl_disabled ↦ refuse "Ssl is disabled on the server." t
      | _ ↦
          if str_eq t.certificate "" || not (exists t.certificate)
          then refuse "Ssl is enabled but has not been configured on this server." t
          else (t, did (call_protocol q t.device "enableSsl" [] []) ∷ encryption_started ∷ [])
    ]
    set_ssl false t = elim t.ssl_mode [
      | ssl_forced ↦ refuse "Ssl is forced on the server." t
      | _ ↦ serve t
    ]

    abbrev pub timeout_first : ℕ → Tcp V → Done V
    timeout_first now t = if t.timeout_enabled then start_timeout now t else (t, [])

    abbrev pub then_ssl : Bool → Done V → Done V
    then_ssl ssl (t, done) = with_actions done (set_ssl ssl t)

    -- protocolFunction(Signature, Arguments); `none` is an index out of range
    unfoldable pub protocol_call : ℕ → Tcp V → Signature → List V → Option (Done V)
    unfolding set_ssl start_timeout
    protocol_call now t func args =
        if str_eq func.name "setSsl"
        then elim args [ [] ↦ none | a ∷ _ ↦ some (then_ssl (q.to_bool a) (timeout_first now t)) ]
        else if str_eq func.name "ping"
        then some (record t { last_ping = now }, [])
        else some (t, [])

    -- the slot encrypted()
    unfoldable pub encrypted : Tcp V → Done V
    unfolding serve
    encrypted t = serve t

    abbrev pub perform_one : ℕ → Action V → Tcp V → Option (Done V)
    perform_one now (protocol_function func args) t = protocol_call now t func args
    perform_one now a t = some (t, did a ∷ [])

    -- the actions of the device, where a protocol function is this class's
    unfoldable pub perform : ℕ → List (Action V) → Tcp V → Option (Done V)
    unfolding protocol_call
    perform now [] t = some (t, [])
    perform now (a ∷ as') t = elim (perform_one now a t) [
      | none ↦ none
      | some (t, done) ↦ elim (perform now as' t) [
        | none ↦ none
        | some (u, more) ↦ some (u, done ++ more)
      ]
    ]

    -- a frame that arrives: what the device makes of it, and the protocol functions of this class
    unfoldable pub handle : Services V → ℕ → Tcp V → Bytes → Option (Done V)
    unfolding handle_frame perform
    handle services now t body = elim (handle_frame q services t.device body) [
      | none ↦ none
      | some (d, done) ↦ perform now done (record t { device = d })
    ]
