-- ===== src/Tcp/Client.antt =====
-- lib/clientprotocoltcp.cpp: the client's end of a connection over TCP, on top of Client. The clock
-- and what QSslSocket answers are parameters.
use qt_rpc.Base.{
  ℕ, ◌-◌, String, Bool, true, false, Option, none, some, List, [], ◌∷◌, str_eq, if◌then◌else◌,
}
use qt_rpc.Qt.{Qt}
use qt_rpc.Signature.{Signature}
use qt_rpc.ReturnValue
use qt_rpc.ReturnValue.{ReturnValue}
use qt_rpc.Message
use qt_rpc.Client.{Client, Transport, Action, return_received, cut_off, call_protocol}
use qt_rpc.Tcp.{quarter, exceeds}

-- ClientProtocolTcpPrivate, with the scheme of the URL; `timer` is the interval when it runs, in
-- milliseconds, and `last_ping` is in seconds. An int is its bit pattern.
pub record TcpClient : Type 0 where
  pub client : Client
  pub scheme : String
  pub connected_socket : Bool
  pub timeout : ℕ
  pub timer : Option ℕ
  pub last_ping : ℕ

-- What a step does: what the connection does, and the calls on the socket and the signal
-- disconnected
pub data TcpAction (V : Type 0) : Type 0 where
  did : Action V → TcpAction V
  host_called : TcpAction V
  host_dropped : TcpAction V
  disconnected : TcpAction V
  encryption_started : TcpAction V

module _ {V : Type 0} (q : Qt V) where
  -- setProperty(QString, QVariant), getProperty(QString)
  unfoldable pub set_property : String → V → ReturnValue V
  set_property name v = ReturnValue.of_value q (q.of_bool true)

  unfoldable pub get_property : String → ReturnValue V
  get_property name = ReturnValue.of_value q (q.of_bool true)

  -- protocolDisconnect(), and isConnected()
  unfoldable pub protocol_disconnect : TcpClient → TcpClient × List (TcpAction V)
  protocol_disconnect t =
      if t.connected_socket
      then (record t { connected_socket = false }, host_dropped ∷ disconnected ∷ [])
      else (t, [])

  unfoldable pub is_connected : TcpClient → Bool
  is_connected t = t.connected_socket

  -- what the connection takes from this class
  abbrev pub transport : TcpClient → Transport V
  transport t = record {
    get_property = get_property;
    set_property = λ name v. set_property name v;
    is_connected = is_connected t;
  }

  -- ping(), at the end of the timer
  unfoldable pub ping : ℕ → TcpClient → TcpClient × List (TcpAction V)
  unfolding protocol_disconnect
  ping now t =
      if exceeds (now - t.last_ping) t.timeout
      then protocol_disconnect t
      else (t, did (call_protocol q (transport t) t.client "ping" [] []) ∷ [])

  abbrev connect_error : TcpClient → String → String → TcpAction V
  connect_error t what about = did (
      return_received (
        Message.of_return q t.client.connect_id
          (ReturnValue.of_error q 1 (q.complaint what about))))

  -- protocolConnect(), where `reached` is waitForConnected() and `error` the socket's text
  unfoldable pub protocol_connect : ℕ → Bool → String → TcpClient → TcpClient × List (TcpAction V)
  protocol_connect now reached error t = (
    record t { last_ping = now; connected_socket = reached },
    host_called ∷ (if reached then [] else connect_error t "Failed to connect: " error ∷ []),
  )

  -- protocolFunction(Signature, Arguments); `none` is an index out of range
  unfoldable pub protocol_call :
      ℕ → TcpClient → Signature → List V → Option (TcpClient × List (TcpAction V))
  protocol_call now t func args =
      if str_eq func.name "ping"
      then some (record t { last_ping = now }, [])
      else if str_eq func.name "enableTimeout"
      then elim args [
        | [] ↦ none
        | a ∷ _ ↦ some (record t { timeout = q.to_int a; timer = some (quarter (q.to_int a)) }, [])
      ]
      else if str_eq func.name "disableTimeout"
      then some (record t { timer = none }, [])
      else if str_eq func.name "enableSsl"
      then some (t, did cut_off ∷ encryption_started ∷ [])
      else some (t, [])

  -- connected()
  unfoldable pub connected : ℕ → TcpClient → TcpClient × List (TcpAction V)
  connected now t = (
    record t { last_ping = now },
    (if str_eq t.scheme "tcp"
          then did
              (call_protocol q (transport t) t.client "setSsl" ("bool" ∷ []) (q.of_bool false ∷ []))
          else if str_eq t.scheme "tcps"
          then did
              (call_protocol q (transport t) t.client "setSsl" ("bool" ∷ []) (q.of_bool true ∷ []))
          else connect_error t "Error: Tcp does not support protocol: " t.scheme)
        ∷ [],
  )
