-- ===== src/Client.antt =====
-- lib/clientprotocolbase.cpp and lib/clientprotocoliodevice.cpp: the client's end of a connection on
-- a device of bytes. A step gives the new state and what was done, in order; `none` is a fault: an
-- index out of range. How a device's bytes become frames is in Frame.antt.
pub mod Handshake
use Prim.Native.Char.{Char, code}
use qt_rpc.Base.{
  ℕ, ◌-◌, ◌^◌, String, Bool, true, false, not, ◌&&◌, Option, none, some, List, [], ◌∷◌, ◌++◌,
  str_eq, ltb, ◌==◌, if◌then◌else◌,
}
use qt_rpc.Base.Text.{chars, of_chars, trimmed}
use qt_rpc.Qt.{Qt, Bytes}
use qt_rpc.Signature.{Signature}
use qt_rpc.ReturnValue
use qt_rpc.ReturnValue.{ReturnValue}
use qt_rpc.Message
use qt_rpc.Message.{Message, current_version}
use qt_rpc.Message.Wire

-- What the derived class answers: getProperty, setProperty, and isConnected.
pub record Transport (V : Type 0) : Type 0 where
  pub get_property : String → ReturnValue V
  pub set_property : String → V → ReturnValue V
  pub is_connected : Bool

-- ClientProtocolBasePrivate; the URL is its path, user name and password
pub record Client : Type 0 where
  pub url : String × String × String
  pub connect_id : ℕ
  pub select_service_id : ℕ
  pub version : ℕ

-- What a step does: it writes a message, emits one of the signals, calls into the derived class, or
-- calls QObject::disconnect, which cuts all signals of this end off.
pub data Action (V : Type 0) : Type 0 where
  wrote : Message V → Action V
  return_received : Message V → Action V
  send_callback : Message V → Action V
  send_event : Message V → Action V
  connected : Action V
  protocol_function : Message V → Action V
  protocol_connect : Action V
  protocol_disconnect : Action V
  cut_off : Action V

-- ClientProtocolBase(QObject*) and its private part
unfoldable pub client : Client
client = record { url = ("", "", ""); connect_id = 2 ^ 32 - 1; select_service_id = 3; version = 0 }

-- the path without its slashes
unfoldable pub without_slashes : List Char → List Char
without_slashes [] = []
without_slashes (c ∷ cs) =
    let rest = without_slashes cs in if code c == b'/' then rest else c ∷ rest

-- getServiceName()
unfoldable pub service_name : Client → String
unfolding without_slashes
service_name c = of_chars (without_slashes (chars c.url.0))

module _ {V : Type 0} (q : Qt V) (t : Transport V) where
  -- ClientProtocolIODevicePrivate::writeMessage(Message), and with it function(Message) and
  -- callbackReturn(Message)
  unfoldable pub write_message : Client → Message V → Action V
  write_message c msg =
      if t.is_connected
      then wrote (Message.set_version msg c.version)
      else return_received (Message.of_return q msg.id (ReturnValue.of_error q 1 "Not Connected"))

  -- callProtocolFunction(Signature, Arguments)
  unfoldable pub call_protocol : Client → String → List String → List V → Action V
  unfolding write_message
  call_protocol c name types args =
      write_message c
        (Message.of_call q 0 Message.protocol (record { name = name; args = types }) args)

  abbrev received : Message V → ReturnValue V → Action V
  received msg ret = return_received (Message.of_return q msg.id ret)

  -- sendFunction(Message), for a protocol message; QTRPC_PROTOCOL_PREFIX is the empty text
  unfoldable pub send_protocol : Client → Message V → Option (Client × List (Action V))
  unfolding write_message
  send_protocol c msg =
      let name = msg.func.name in
      if str_eq name "version"
      then some (c, received msg (ReturnValue.of_value q (q.of_uint c.version)) ∷ [])
      else if str_eq name "getProperty"
      then elim msg.args [
        | [] ↦ none
        | a ∷ _ ↦ some (c, received msg (t.get_property (q.to_text a)) ∷ [])
      ]
      else if str_eq name "setProperty"
      then elim msg.args [
        | a ∷ b ∷ _ ↦ some (c, received msg (t.set_property (q.to_text a) b) ∷ [])
        | _ ↦ none
      ]
      else if str_eq name "connect"
      then elim msg.args [
        | [] ↦ none
        | a ∷ _ ↦ some (record c { url = q.to_url a; connect_id = msg.id }, protocol_connect ∷ [])
      ]
      else if str_eq name "disconnect"
      then some (c, protocol_disconnect ∷ [])
      else if str_eq name "selectService"
      then (let d : Client = record c { select_service_id = msg.id } in
          some (d, write_message d msg ∷ []))
      else some (c, write_message c msg ∷ [])

  -- sendFunction(Message)
  unfoldable pub send_function : Client → Message V → Option (Client × List (Action V))
  unfolding send_protocol write_message
  send_function c msg = elim msg.type [
    | Message.protocol ↦ send_protocol c msg
    | _ ↦ some (c, write_message c msg ∷ [])
  ]

  -- selectService()
  unfoldable pub select_service : Client → Action V
  unfolding call_protocol service_name
  select_service c =
      call_protocol c "selectService" ("QString" ∷ "QString" ∷ "QString" ∷ [])
        (q.of_text (service_name c) ∷ q.of_text c.url.1 ∷ q.of_text c.url.2 ∷ [])

  -- checkProtocolFunction: welcome
  unfoldable pub welcome : Client → List V → List (Action V)
  unfolding call_protocol
  welcome c [] = connected ∷ []
  welcome c (a ∷ args) =
      let offered = q.to_uint a in
      call_protocol c "setProtocolVersion" ("quint32" ∷ [])
        (q.of_uint (if ltb current_version offered then current_version else offered) ∷ [])
      ∷ []

  -- checkProtocolFunction: setProtocolVersion
  unfoldable pub set_protocol_version : Client → List V → Client × List (Action V)
  set_protocol_version c [] = (c, cut_off ∷ [])
  set_protocol_version c (a ∷ args) =
      if ltb current_version (q.to_uint a) then (c, cut_off ∷ []) else (
        record c { version = q.to_uint a },
        connected
            ∷ return_received
                (Message.of_return q c.connect_id (ReturnValue.of_value q (q.of_bool true)))
            ∷ [],
      )

  -- checkProtocolFunction: error, which ends the connection at level 2
  unfoldable pub error : Client → List V → Option (List (Action V))
  error c (level ∷ what ∷ args) =
      if q.to_int level == 2
      then some (
          (if c.connect_id == 2 ^ 32 - 1
            then []
            else return_received
                (Message.of_return q c.connect_id (ReturnValue.of_error q 2 (q.to_text what)))
              ∷ [])
          ++ protocol_disconnect ∷ [])
      else some []
  error c _ = none

  -- checkProtocolFunction: stateChanged
  unfoldable pub state_changed : Client → List V → Option (List (Action V))
  unfolding select_service service_name
  state_changed c [] = none
  state_changed c (a ∷ args) =
      if q.to_int a == 1 && not (str_eq (service_name c) "")
      then some (select_service c ∷ [])
      else some []

  abbrev known : Client → Option (List (Action V)) → Option (Bool × Client × List (Action V))
  known c none = none
  known c (some out) = some (true, c, out)

  -- checkProtocolFunction(Message)
  unfoldable pub check_protocol_function :
      Client → Message V → Option (Bool × Client × List (Action V))
  unfolding welcome set_protocol_version error state_changed
  check_protocol_function c msg =
      let name = of_chars (trimmed q.is_space (chars msg.func.name)) in
      if str_eq name "welcome"
      then some (true, c, welcome c msg.args)
      else if str_eq name "setProtocolVersion"
      then (let (d, out) = set_protocol_version c msg.args in some (true, d, out))
      else if str_eq name "error"
      then known c (error c msg.args)
      else if str_eq name "stateChanged"
      then known c (state_changed c msg.args)
      else if str_eq name "ready"
      then elim msg.args [
        | [] ↦ none
        | a ∷ _ ↦ some (
          true,
          c,
          return_received (Message.of_return q c.select_service_id (ReturnValue.of_value q a)) ∷ [],
        )
      ]
      else some (false, c, [])

  -- parseMessage(Message)
  unfoldable pub parse_message : Client → Message V → Option (Client × List (Action V))
  unfolding check_protocol_function
  parse_message c msg = elim msg.type [
    | Message.function ↦ some (c, send_callback msg ∷ [])
    | Message.protocol ↦ elim (check_protocol_function c msg) [
      | none ↦ none
      | some (known, d, out) ↦ some (d, if known then out else out ++ protocol_function msg ∷ [])
    ]
    | Message.return ↦ some (c, return_received msg ∷ [])
    | Message.event ↦ some (c, send_event msg ∷ [])
    | _ ↦ some (c, [])
  ]

  -- readyRead() on a complete frame
  unfoldable pub handle_frame : Client → Bytes → Option (Client × List (Action V))
  unfolding parse_message
  handle_frame c body =
      parse_message c (Message.Wire.read q (Message.set_version (Message.empty q) c.version) body).0
