-- ===== src/Device/Dispatch.antt =====
-- lib/serverprotocolinstanceiodevice.cpp: parseMessage and checkProtocolFunction, which tell the
-- messages apart that arrive, and what readyRead does with a frame.
use qt_rpc.Base.{
  Bool, true, false, Option, none, some, List, [], ◌∷◌, ◌++◌, str_eq, leb, if◌then◌else◌,
}
use qt_rpc.Base.Table.{lookup, remove}
use qt_rpc.Qt.{Qt, Bytes}
use qt_rpc.ReturnValue
use qt_rpc.ReturnValue.{ReturnValue}
use qt_rpc.Message
use qt_rpc.Message.{Message, current_version}
use qt_rpc.Message.Wire
use qt_rpc.Server.{list_services, list_functions, list_callbacks, list_events}
use qt_rpc.Instance.{Services, call_message}
use qt_rpc.Device.{
  Device, Action, protocol_function, replied, write_message, call_protocol, error_message, answer,
  set_protocol_version, select_service, error, list_of, set_default_token, state_number,
}

module _ {V : Type 0} (q : Qt V) where
  abbrev pub Checked : Type 0
  Checked = Option (Bool × Device V × List (Action V))

  abbrev pub tag : Bool → Option (Device V × List (Action V)) → Checked
  tag known none = none
  tag known (some (d, out)) = some (known, d, out)

  -- checkProtocolFunction(Message): the branches from listServices on answer, and say false
  unfoldable pub check_protocol_function : Services V → Device V → Message V → Checked
  unfolding set_protocol_version select_service error list_of set_default_token write_message
  check_protocol_function services d msg =
      let name = msg.func.name in
      if str_eq name "setProtocolVersion"
      then tag true (some (set_protocol_version q d msg.args))
      else if str_eq name "selectService"
      then tag true (select_service q services d msg)
      else if str_eq name "error"
      then elim (error q d msg.args) [ none ↦ none | some e ↦ some (true, e, []) ]
      else if str_eq name "listServices"
      then some (
        false,
        d,
        answer q d msg (ReturnValue.of_value q (q.of_texts (list_services d.instance.server))) ∷ [],
      )
      else if str_eq name "listFunctions"
      then some (false, d, list_of q d msg name list_functions)
      else if str_eq name "listEvents"
      then some (false, d, list_of q d msg name list_events)
      else if str_eq name "listCallbacks"
      then some (false, d, list_of q d msg name list_callbacks)
      else if str_eq name "setDefaultToken"
      then tag false (set_default_token q d msg)
      else some (false, d, [])

  -- parseMessage: a function call
  unfoldable pub parse_function :
      Services V → Device V → Message V → Option (Device V × List (Action V))
  unfolding call_protocol write_message
  parse_function services d msg =
      if leb 2 (state_number d.state)
      then elim (call_message q services d.instance msg) [
        | none ↦ none
        | some (ret, s) ↦
            let e : Device V = record d { instance = s } in
            some (e, if ReturnValue.is_asyncronous ret then [] else answer q e msg ret ∷ [])
      ]
      else some
          (d, error_message q d 2 "Function calls cannot be made until the server is ready." ∷ [])

  -- parseMessage: the reply to a callback
  unfoldable pub parse_reply : Device V → Message V → Device V × List (Action V)
  unfolding lookup remove
  parse_reply d msg = elim (lookup msg.id d.instance.queue) [
    | none ↦ (d, [])
    | some slot ↦ (
      record d { instance = record d.instance { queue = remove msg.id d.instance.queue } },
      replied slot msg.id msg.ret ∷ [],
    )
  ]

  -- parseMessage(Message)
  unfoldable pub parse_message : Services V → Device V → Message V → Checked
  unfolding parse_function parse_reply check_protocol_function
  parse_message services d msg = elim msg.type [
    | Message.function ↦ tag true (parse_function services d msg)
    | Message.protocol ↦ elim (check_protocol_function services d msg) [
      | none ↦ none
      | some (known, e, out) ↦
          some (true, e, if known then out else out ++ protocol_function msg.func msg.args ∷ [])
    ]
    | Message.return ↦ tag true (some (parse_reply d msg))
    | _ ↦ some (false, d, [])
  ]

  -- readyRead() on a complete frame: a message that is refused is read again as version 0
  unfoldable pub handle_frame : Services V → Device V → Bytes → Option (Device V × List (Action V))
  unfolding parse_message
  handle_frame services d body =
      let msg = (Message.Wire.read q (Message.set_version (Message.empty q) d.version) body).0 in
      elim (parse_message services d msg) [
        | none ↦ none
        | some (known, e, out) ↦
            if known
            then some (e, out)
            else elim (parse_message services e (Message.Wire.read q (Message.empty q) body).0) [
              | none ↦ none
              | some (_, f, more) ↦ some (f, out ++ more)
            ]
      ]
