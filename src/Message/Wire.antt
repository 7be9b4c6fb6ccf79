-- ===== src/Message/Wire.antt =====
-- lib/message.cpp: operator<< and operator>> of a Message, in the three versions of the protocol.
use qt_rpc.Base.{ℕ, zero, suc, not, [], ◌++◌, if◌then◌else◌, ◌==◌, length}
use qt_rpc.Qt.{Qt, Bytes}
use qt_rpc.Signature.{Signature}
use qt_rpc.Signature
use qt_rpc.ReturnValue
use qt_rpc.Message.{
  Message, MessageType, function, protocol, event, return, invalid, unknown, of_call, set_arguments,
  set_return_value, set_id, set_type, set_signature, set_service,
}

abbrev pub magic : ℕ
magic = 0x1234_abcd

abbrev pub type_number : MessageType → ℕ
type_number function = 0
type_number protocol = 1
type_number event = 2
type_number return = 3
type_number invalid = 4
type_number (unknown n) = n

-- static_cast<Message::Type>
abbrev pub cast_type : ℕ → MessageType
cast_type zero = function
cast_type (suc zero) = protocol
cast_type (suc (suc zero)) = event
cast_type (suc (suc (suc zero))) = return
cast_type (suc (suc (suc (suc zero)))) = invalid
cast_type n = unknown n

-- the `switch` of operator>>(QDataStream&, Message::Type&)
abbrev pub known_type : MessageType → MessageType
known_type (unknown n) = invalid
known_type t = t

module _ {V : Type 0} (q : Qt V) where
  -- operator>> and operator<< of Message::Type
  unfoldable pub read_type : Bytes → MessageType × Bytes
  read_type b = let (n, b) = q.u32.get b in (known_type (cast_type n), b)

  unfoldable pub write_type : MessageType → Bytes
  write_type t = q.u32.put (type_number t)

  -- the inner `switch` of operator<<
  unfoldable pub write_body : MessageType → Message V → Bytes
  write_body function m =
      q.u32.put m.service ++ (q.u32.put m.id ++ (Signature.write q m.func ++ q.variants.put m.args))
  write_body event m =
      q.u32.put m.service ++ (q.u32.put m.id ++ (Signature.write q m.func ++ q.variants.put m.args))
  write_body protocol m = q.u32.put m.id ++ (Signature.write q m.func ++ q.variants.put m.args)
  write_body return m = q.u32.put m.id ++ ReturnValue.write q m.ret
  write_body _ m = []

  -- `case 1` of operator<<
  unfoldable pub write_packed : Message V → Bytes
  unfolding write_body write_type
  write_packed m = write_type m.type ++ write_body m.type m

  -- `case 0` and `default` of operator<<
  unfoldable pub write_original : Message V → Bytes
  write_original m =
      q.u32.put m.id
      ++ (q.u32.put (type_number m.type)
          ++ (q.string.put (Signature.to_string q m.func) ++ q.variants.put m.args))

  -- operator<<(QDataStream&, const Message&)
  unfoldable pub write : Message V → Bytes
  unfolding write_packed write_original
  write m =
      if m.version == 2
      then q.u32.put magic ++ write_packed m
      else if m.version == 1
      then write_packed m
      else write_original m

  -- size()
  unfoldable pub size : Message V → ℕ
  unfolding write
  size m = length (write m)

  -- `case QtRpc` of operator>>
  unfoldable pub read_call : Message V → Bytes → Message V × Bytes
  unfolding set_arguments set_signature set_id
  read_call m b =
      let (id, b) = q.u32.get b in
      let (func, b) = Signature.read q b in
      let (args, b) = q.variants.get b in
      (set_arguments q (set_signature (set_id m id) func) args, b)

  -- the inner `switch` of operator>>
  unfoldable pub read_body : MessageType → Message V → Bytes → Message V × Bytes
  unfolding read_call set_service set_id set_return_value
  read_body function m b = let (srv, b) = q.u32.get b in read_call (set_service m srv) b
  read_body event m b = let (srv, b) = q.u32.get b in read_call (set_service m srv) b
  read_body protocol m b = read_call m b
  read_body return m b =
      let (id, b) = q.u32.get b in
      let (ret, b) = ReturnValue.read q (ReturnValue.empty q) b in
      (set_return_value q (set_id m id) ret, b)
  read_body _ m b = (m, b)

  -- `case 1` of operator>>
  unfoldable pub read_packed : Message V → Bytes → Message V × Bytes
  unfolding read_body read_type set_type
  read_packed m b = let (t, b) = read_type b in read_body t (set_type m t) b

  -- `case 0` and `default` of operator>>
  unfoldable pub read_original : Bytes → Message V × Bytes
  unfolding of_call set_service
  read_original b =
      let (id, b) = q.u32.get b in
      let (t, b) = q.u32.get b in
      let (func, b) = q.string.get b in
      let (args, b) = q.variants.get b in
      (set_service (of_call q id (cast_type t) (Signature.of_string q func) args) 1, b)

  -- operator>>(QDataStream&, Message&)
  unfoldable pub read : Message V → Bytes → Message V × Bytes
  unfolding read_packed read_original set_type
  read m b =
      if m.version == 2
      then (let (i, b) = q.u32.get b in
          if not (i == magic) then (set_type m invalid, b) else read_packed m b)
      else if m.version == 1
      then read_packed m b
      else read_original b
