-- ===== src/Message.antt =====
-- lib/message.cpp: the message that the two ends of a connection exchange, its constructors and
-- setters. MessageData is copied on write and its lock guards single reads and writes, so a message
-- is a value here. The wire format is in Message/Wire.antt.
pub mod Wire
pub mod RoundTrip
pub mod Versions
use qt_rpc.Base.{ℕ, zero, suc, String, Bool, true, false, List, [], ◌∷◌, if◌then◌else◌}
use qt_rpc.Qt.{Qt}
use qt_rpc.Signature.{Signature}
use qt_rpc.Signature
use qt_rpc.ReturnValue.{ReturnValue}
use qt_rpc.ReturnValue

-- Message::Type, with `protocol` for its constant QtRpc. A version 0 message casts a number to it without a check.
pub data MessageType : Type 0 where
  function protocol event return invalid : MessageType
  unknown : ℕ → MessageType

pub record Message (V : Type 0) : Type 0 where
  pub id : ℕ
  pub type : MessageType
  pub func : Signature
  pub args : List V
  pub ret : ReturnValue V
  pub version : ℕ
  pub service : ℕ

-- currentVersion()
abbrev pub current_version : ℕ
current_version = 2

module _ {V : Type 0} (q : Qt V) where
  -- Message(), and MessageData()
  unfoldable pub empty : Message V
  empty = record {
    id = 0;
    type = invalid;
    func = Signature.empty;
    args = [];
    ret = ReturnValue.empty q;
    version = 0;
    service = 0;
  }

  -- the return value that a list of arguments stands for
  unfoldable pub return_of_args : List V → ReturnValue V
  return_of_args [] = ReturnValue.of_error q 100 "Error: Failed to generate the ReturnValue"
  return_of_args (a ∷ []) = ReturnValue.of_value q a
  return_of_args (a ∷ b ∷ rest) = ReturnValue.of_error q (q.to_int a) (q.to_text b)

  -- the end of the constructors from arguments, and of setArguments
  unfoldable pub with_return : MessageType → Message V → Message V
  unfolding return_of_args
  with_return return m = record m { ret = return_of_args m.args }
  with_return _ m = m

  -- Message(uint, Type, Signature, Arguments, quint32 service)
  unfoldable pub of_service_call : ℕ → MessageType → Signature → List V → ℕ → Message V
  unfolding empty with_return
  of_service_call id type func args service =
      with_return type
        (record empty { id = id; type = type; func = func; args = args; service = service })

  -- Message(uint, Type, Signature, Arguments)
  unfoldable pub of_call : ℕ → MessageType → Signature → List V → Message V
  unfolding empty with_return
  of_call id type func args =
      with_return type (record empty { id = id; type = type; func = func; args = args })

  -- setArguments(const Arguments&)
  unfoldable pub set_arguments : Message V → List V → Message V
  unfolding with_return
  set_arguments m args = with_return m.type (record m { args = args })

  -- setReturnValue(const ReturnValue&)
  unfoldable pub set_return_value : Message V → ReturnValue V → Message V
  set_return_value m ret = record m {
    ret = ret;
    args =
        if ReturnValue.is_error ret
        then q.of_uint ret.number ∷ q.of_text ret.string ∷ []
        else ret.value ∷ [];
  }

  -- Message(uint, ReturnValue)
  unfoldable pub of_return : ℕ → ReturnValue V → Message V
  unfolding empty set_return_value
  of_return id ret = set_return_value (record empty { id = id; type = return }) ret

module _ {V : Type 0} where
  -- setVersion, setId, setType, setSignature, setService
  unfoldable pub set_version : Message V → ℕ → Message V
  set_version m v = record m { version = v }

  unfoldable pub set_id : Message V → ℕ → Message V
  set_id m id = record m { id = id }

  unfoldable pub set_type : Message V → MessageType → Message V
  set_type m t = record m { type = t }

  unfoldable pub set_signature : Message V → Signature → Message V
  set_signature m f = record m { func = f }

  unfoldable pub set_service : Message V → ℕ → Message V
  set_service m id = record m { service = id }
