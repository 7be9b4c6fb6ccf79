-- ===== src/Message/RoundTrip.antt =====
-- operator>> of a Message against operator<<, in the packed versions 1 and 2.
use qt_rpc.Base.{ℕ, ◌<◌, ◌^◌, ◌≡◌, ◌⊎◌, inl, inr, ◌∙◌, ◌++◌, arith, append_assoc}
use qt_rpc.Qt.{Qt, IsQt, Bytes}
use qt_rpc.Signature
use qt_rpc.Signature.RoundTrip
use qt_rpc.ReturnValue
use qt_rpc.ReturnValue.Stream.{sent, IsWire}
use qt_rpc.ReturnValue.Stream
use qt_rpc.Message.{
  Message, MessageType, function, protocol, event, return, invalid, unknown, empty,
  set_return_value, set_version,
}
use qt_rpc.Message.Wire.{
  magic, write, write_packed, write_body, read, read_packed, read_body, type_number, cast_type,
  known_type,
}

-- The messages that are sent: calls, protocol functions, events and returns.
abbrev pub IsSendable : {V : Type 0} → MessageType → Message V → Type 0
IsSendable function m = m.service < 2 ^ 32
IsSendable event m = m.service < 2 ^ 32
IsSendable protocol m = Unit {0}
IsSendable return m = IsWire m.ret
IsSendable _ m = ⊥

-- What a receiver of version `v` gets of a message: its id, its type and the fields of that type.
abbrev pub delivered_as : {V : Type 0} → Qt V → ℕ → MessageType → Message V → Message V
delivered_as q v function m = record (empty q) {
  version = v;
  type = function;
  id = m.id;
  func = m.func;
  args = m.args;
  service = m.service;
}
delivered_as q v event m = record (empty q) {
  version = v;
  type = event;
  id = m.id;
  func = m.func;
  args = m.args;
  service = m.service;
}
delivered_as q v protocol m = record (empty q) {
  version = v;
  type = protocol;
  id = m.id;
  func = m.func;
  args = m.args;
}
delivered_as q v return m =
    set_return_value q (record (empty q) { version = v; type = return; id = m.id }) (sent q m.ret)
delivered_as q v t m = record (empty q) { version = v; type = t }

abbrev pub delivered : {V : Type 0} → Qt V → ℕ → Message V → Message V
delivered q v m = delivered_as q v m.type m

module _ {V : Type 0} (q : Qt V) (qt : IsQt q) where
  read_body-write_body :
      (v : ℕ) (t : MessageType) (m : Message V) (rest : Bytes)
      → m.id < 2 ^ 32
      → IsSendable t m
      → read_body q t (record (empty q) { version = v; type = t }) (write_body q t m ++ rest)
        ≡ (delivered_as q v t m, rest)
  unfolding read_body write_body empty
  read_body-write_body v function m rest i s = simp (
    append_assoc,
    qt.u32_reads m.id i,
    qt.u32_reads m.service s,
    Signature.RoundTrip.read-write q qt,
    qt.variants_reads,
  )
  read_body-write_body v event m rest i s = simp (
    append_assoc,
    qt.u32_reads m.id i,
    qt.u32_reads m.service s,
    Signature.RoundTrip.read-write q qt,
    qt.variants_reads,
  )
  read_body-write_body v protocol m rest i s =
      simp
        (append_assoc, qt.u32_reads m.id i, Signature.RoundTrip.read-write q qt, qt.variants_reads)
  read_body-write_body v return m rest i s =
      simp
        (append_assoc, qt.u32_reads m.id i, ReturnValue.Stream.read-write_return q qt m.ret rest s)
  read_body-write_body v invalid m rest i s = absurd s
  read_body-write_body v (unknown n) m rest i s = absurd s

  read_tagged :
      (m : Message V) (n : ℕ) (body rest : Bytes)
      → n < 2 ^ 32
      → read_packed q m ((q.u32.put n ++ body) ++ rest)
        ≡ read_body q
            (known_type (cast_type n))
            (record m { type = known_type (cast_type n) })
            (body ++ rest)
  unfolding read_packed
  read_tagged m n body rest h =
      rw (append_assoc (q.u32.put n) body rest, qt.u32_reads n h (body ++ rest))

  read_packed-write_packed :
      (v : ℕ) (t : MessageType) (m : Message V) (rest : Bytes)
      → m.id < 2 ^ 32
      → IsSendable t m
      → read_packed q
          (record (empty q) { version = v })
          ((q.u32.put (type_number t) ++ write_body q t m) ++ rest)
        ≡ (delivered_as q v t m, rest)
  read_packed-write_packed v function m rest i s =
      read_tagged _ 0 (write_body q function m) rest (omega arith)
      ∙ read_body-write_body v function m rest i s
  read_packed-write_packed v event m rest i s =
      read_tagged _ 2 (write_body q event m) rest (omega arith)
      ∙ read_body-write_body v event m rest i s
  read_packed-write_packed v protocol m rest i s =
      read_tagged _ 1 (write_body q protocol m) rest (omega arith)
      ∙ read_body-write_body v protocol m rest i s
  read_packed-write_packed v return m rest i s =
      read_tagged _ 3 (write_body q return m) rest (omega arith)
      ∙ read_body-write_body v return m rest i s
  read_packed-write_packed v invalid m rest i s = absurd s
  read_packed-write_packed v (unknown n) m rest i s = absurd s

  -- A call, protocol function, event or return of version 1 or 2, with an id, a service and a
  -- return value that fit 32 bits, arrives at a reader of the same version with its id, its type
  -- and the fields of that type, and what follows it is left unread.
  pub read-write_message :
      (m : Message V) (rest : Bytes)
      → (m.version ≡ 1) ⊎ (m.version ≡ 2)
      → m.id < 2 ^ 32
      → IsSendable m.type m
      → read q (set_version (empty q) m.version) (write q m ++ rest)
        ≡ (delivered q m.version m, rest)
  unfolding read write set_version
  read-write_message m rest (inl v1) i s = simp v1 (read_packed-write_packed 1 m.type m rest i s)
  read-write_message m rest (inr v2) i s =
      simp
        (
          v2,
          append_assoc (q.u32.put magic) (write_packed q m) rest,
          qt.u32_reads magic (omega arith),
        )
        (read_packed-write_packed 2 m.type m rest i s)
