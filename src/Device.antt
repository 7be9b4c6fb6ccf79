-- ===== src/Device.antt =====
-- lib/serverprotocolinstanceiodevice.cpp: the server's end of a connection on a device of bytes. A
-- step gives the new state and what was done, in order; `none` is a fault: an index out of range, or
-- a lock that is taken twice. The messages that
-- arrive are told apart in Device/Dispatch.antt.
pub mod Dispatch
pub mod Fallback
pub mod States
pub mod Connecting
use qt_rpc.Base.{
  ℕ, ◌+◌, String, Bool, true, false, not, ◌&&◌, Option, none, some, List, [], ◌∷◌, ◌++◌, map,
  str_eq, ltb, leb, ◌==◌, if◌then◌else◌,
}
use qt_rpc.Base.Table.{lookup, remove, insert}
use qt_rpc.Qt.{Qt, Bytes}
use qt_rpc.Signature.{Signature}
use qt_rpc.ReturnValue
use qt_rpc.ReturnValue.{ReturnValue}
use qt_rpc.Message
use qt_rpc.Message.{Message, current_version}
use qt_rpc.Message.Wire
use qt_rpc.Frame.{Reader}
use qt_rpc.Token.{copy}
use qt_rpc.Server.{Server, list_services, list_functions, list_callbacks, list_events}
use qt_rpc.Instance.{
  Services, Instance, ReplySlot, get_service, get_service_login, call_message, next_id,
}

-- ServerProtocolInstanceIODevice::State, and its numbers
pub data State : Type 0 where
  connecting service ready : State

abbrev pub state_number : State → ℕ
state_number connecting = 0
state_number service = 1
state_number ready = 2

pub record Device (V : Type 0) : Type 0 where
  pub instance : Instance V
  pub state : State
  pub version : ℕ

-- What a step does: it writes a message, hands a protocol function to the derived class, invokes
-- the slot of a callback, or closes the connection.
pub data Action (V : Type 0) : Type 0 where
  wrote : Message V → Action V
  protocol_function : Signature → List V → Action V
  replied : ReplySlot → ℕ → ReturnValue V → Action V
  closed : Action V

-- ServerProtocolInstanceIODevice(Server*, QObject*), without its device
unfoldable pub device : {V : Type 0} → Instance V → Device V
device s = record { instance = s; state = connecting; version = 0 }

module _ {V : Type 0} (q : Qt V) where
  -- writeMessage(Message)
  unfoldable pub write_message : Device V → Message V → Action V
  write_message d msg = wrote (Message.set_version msg d.version)

  -- callProtocolFunction(Signature, Arguments)
  unfoldable pub call_protocol : Device V → String → List String → List V → Action V
  unfolding write_message
  call_protocol d name types args =
      write_message d
        (Message.of_call q 0 Message.protocol (record { name = name; args = types }) args)

  -- sendEvent(quint32 id, Signature, Arguments)
  unfoldable pub send_event : Device V → ℕ → Signature → List V → Action V
  unfolding write_message
  send_event d id func args =
      write_message d (Message.of_service_call q 0 Message.event func args id)

  -- callCallback(QObject*, Signature slot, quint32 servid, Signature func, Arguments)
  unfoldable pub call_callback :
      Device V → ℕ → Signature → ℕ → Signature → List V → ℕ × Device V × List (Action V)
  unfolding write_message
  call_callback d object slot servid func args =
      let (id, s) = next_id q d.instance in
      (
        id,
        record d {
          instance = record s {
            queue = insert id (record { object = object; slot = slot }) s.queue;
          };
        },
        write_message d (Message.of_service_call q id Message.function func args servid) ∷ [],
      )

  -- prepareDevice(QIODevice*)
  unfoldable pub prepare : Device V → List (Action V)
  unfolding call_protocol
  prepare d = call_protocol d "welcome" ("quint32" ∷ []) (q.of_uint current_version ∷ []) ∷ []

  -- changeState(State): a state does not go backwards
  unfoldable pub change_state : Device V → State → Device V × List (Action V)
  unfolding call_protocol
  change_state d new = if leb (state_number new) (state_number d.state) then (d, []) else (
    record d { state = new },
    call_protocol d "stateChanged" ("int" ∷ []) (q.of_int (state_number new) ∷ []) ∷ [],
  )

  abbrev pub error_message : Device V → ℕ → String → Action V
  error_message d level what =
      call_protocol d "error" ("int" ∷ "QString" ∷ []) (q.of_int level ∷ q.of_text what ∷ [])

  abbrev pub answer : Device V → Message V → ReturnValue V → Action V
  answer d msg ret = write_message d (Message.of_return q msg.id ret)

  -- checkProtocolFunction: setProtocolVersion
  unfoldable pub set_protocol_version : Device V → List V → Device V × List (Action V)
  unfolding call_protocol
  set_protocol_version d [] = (d, closed ∷ [])
  set_protocol_version d (a ∷ args) =
      let wanted = q.to_uint a in
      let v = if ltb current_version wanted then current_version else wanted in
      (
        record d { version = v },
        call_protocol d "setProtocolVersion" ("quint32" ∷ []) (q.of_uint v ∷ []) ∷ [],
      )

  -- checkProtocolFunction: selectService in version 0, once the state is Service
  unfoldable pub select_original :
      Services V → Device V → List V → Option (Device V × List (Action V))
  unfolding call_protocol change_state
  select_original services d (a ∷ b ∷ c ∷ args) =
      let (ret, s) =
        get_service_login q services d.instance (q.to_text a) (q.to_text b) (q.to_text c) in
      let d : Device V = record d { instance = s } in
      if ReturnValue.is_error ret
      then some (d, error_message d 2 ret.string ∷ [])
      else (let (e, written) = change_state d ready in
          some (e, call_protocol d "ready" ("QVariant" ∷ []) (ret.value ∷ []) ∷ written))
  select_original services d _ = none

  -- the service that the arguments of selectService ask for in the later versions
  unfoldable pub ask_service :
      Services V → Instance V → List V → Option (ReturnValue V × Instance V)
  ask_service services s [] = none
  ask_service services s (a ∷ b ∷ c ∷ args) =
      some (get_service_login q services s (q.to_text a) (q.to_text b) (q.to_text c))
  ask_service services s (a ∷ args) = some (get_service q s (q.to_text a))

  -- checkProtocolFunction: selectService
  unfoldable pub select_service :
      Services V → Device V → Message V → Option (Device V × List (Action V))
  unfolding select_original ask_service change_state write_message
  select_service services d msg =
      let refusal : String =
        "You cannot select a service until the server enters the Service state." in
      if leb (state_number d.state) 0
      then some (
        d,
        (if d.version == 0
              then error_message d 1 refusal
              else answer d msg (ReturnValue.of_error q 1 refusal))
            ∷ [],
      )
      else if d.version == 0
      then select_original services d msg.args
      else elim (ask_service services d.instance msg.args) [
        | none ↦ none
        | some (ret, s) ↦
            let e : Device V = record d { instance = s } in
            let (f, written) =
              if ReturnValue.is_service ret then change_state e ready else (e, []) in
            some (f, written ++ answer f msg ret ∷ [])
      ]

  -- checkProtocolFunction: error. Its texts are logged; at level 2 it calls `disconnect` of the
  -- private object, which leaves the connection as it is.
  unfoldable pub error : Device V → List V → Option (Device V)
  error d (level ∷ what ∷ args) = some d
  error d _ = none

  abbrev signatures : List Signature → V
  signatures ss = q.of_signatures (map (λ (s : Signature). (s.name, s.args)) ss)

  -- checkProtocolFunction: listFunctions, listEvents and listCallbacks, each with its list
  unfoldable pub list_of :
      Device V → Message V → String → (Server → String → List Signature) → List (Action V)
  unfolding write_message
  list_of d msg name list = elim msg.args [
    | [] ↦
        answer d msg (ReturnValue.of_error q 1 (q.complaint "Missing parameters to function " name))
        ∷ []
    | a ∷ _ ↦
        answer d msg (ReturnValue.of_value q (signatures (list d.instance.server (q.to_text a))))
        ∷ []
  ]

  -- checkProtocolFunction: setDefaultToken
  unfoldable pub set_default_token : Device V → Message V → Option (Device V × List (Action V))
  unfolding write_message
  set_default_token d msg = elim msg.args [
    | [] ↦ some (
      d,
      answer d msg (ReturnValue.of_error q 1 "Missing parameters to function setDefaultToken") ∷ [],
    )
    | a ∷ _ ↦ elim (copy d.instance.heap d.instance.default_token (q.to_token a)) [
      | none ↦ none
      | some heap ↦ some (
        record d { instance = record d.instance { heap = heap } },
        answer d msg (ReturnValue.of_value q (q.of_bool true)) ∷ [],
      )
    ]
  ]
