-- ===== src/Device/Fallback.antt =====
-- What a server of version 2 makes of a client that writes in the original format.
use qt_rpc.Base.{
  ◌<◌, ◌^◌, ◌≡◌, ◌≢◌, subst, ap, ◌∙◌, Bool, false, Option, none, some, List, [], append-nil, arith,
}
use qt_rpc.Qt.{Qt, IsQt, Bytes}
use qt_rpc.Signature.RoundTrip.{IsNormal}
use qt_rpc.Message
use qt_rpc.Message.{Message}
use qt_rpc.Message.Wire
use qt_rpc.Message.Versions.{magic_rejects, read_original-write}
use qt_rpc.Instance.{Services}
use qt_rpc.Device.{Device, Action}
use qt_rpc.Device.Dispatch.{parse_message, handle_frame}

-- a step without the answer whether the message was understood
abbrev pub step_of :
    {V : Type 0} → Option (Bool × Device V × List (Action V)) → Option (Device V × List (Action V))
step_of none = none
step_of (some (known, d, out)) = some (d, out)

module _ {V : Type 0} (q : Qt V) (qt : IsQt q) (services : Services V) where
  refused :
      (d : Device V) (msg : Message V)
      → msg.type ≡ Message.invalid
      → parse_message q services d msg ≡ some (false, d, [])
  unfolding parse_message
  refused d msg e = ground (arith, e)

  handle_again :
      (d : Device V) (body : Bytes)
      → (Message.Wire.read q (Message.set_version (Message.empty q) d.version) body).0.type
        ≡ Message.invalid
      → handle_frame q services d body
        ≡ step_of (parse_message q services d (Message.Wire.read q (Message.empty q) body).0)
  unfolding handle_frame
  handle_again d body e = ground (
    arith,
    refused d (Message.Wire.read q (Message.set_version (Message.empty q) d.version) body).0 e,
  )

  original_read :
      (m : Message V)
      → m.version ≡ 0
      → m.id < 2 ^ 32
      → Message.Wire.type_number m.type < 2 ^ 32
      → Message.Wire.cast_type (Message.Wire.type_number m.type) ≡ m.type
      → IsNormal q m.func
      → (Message.Wire.read q (Message.empty q) (Message.Wire.write q m)).0
        ≡ Message.set_service (Message.of_call q m.id m.type m.func m.args) 1
  unfolding Message.set_version Message.empty
  original_read m v id number known normal =
      subst
        (λ b.
          (Message.Wire.read q (Message.empty q) b).0
          ≡ Message.set_service (Message.of_call q m.id m.type m.func m.args) 1)
        (append-nil (Message.Wire.write q m))
        (ap (λ (p : Message V × Bytes). p.0)
          (read_original-write q qt m 0 [] (omega (arith, v)) (omega (arith, v)) (omega arith)
            (omega arith) id number known normal))

  invalid_here :
      (m : Message V)
      → m.version ≡ 0
      → m.id < 2 ^ 32
      → m.id ≢ Message.Wire.magic
      → (Message.Wire.read q
          (Message.set_version (Message.empty q) 2)
          (Message.Wire.write q m)).0.type
        ≡ Message.invalid
  invalid_here m v id ne =
      subst
        (λ b.
          (Message.Wire.read q (Message.set_version (Message.empty q) 2) b).0.type
          ≡ Message.invalid)
        (append-nil (Message.Wire.write q m))
        (magic_rejects q qt m [] (omega (arith, v)) (ground (arith, v, id)) (ground (arith, v, ne)))

  -- A frame in the original format that reaches a server of version 2, with a known type, an id of
  -- 32 bits and a normal signature, is handled as the message of version 0 that it is, with the
  -- service 1, unless its id happens to be the magic number.
  pub original_handled :
      (d : Device V) (m : Message V)
      → d.version ≡ 2
      → m.version ≡ 0
      → m.id < 2 ^ 32
      → m.id ≢ Message.Wire.magic
      → Message.Wire.type_number m.type < 2 ^ 32
      → Message.Wire.cast_type (Message.Wire.type_number m.type) ≡ m.type
      → IsNormal q m.func
      → handle_frame q services d (Message.Wire.write q m)
        ≡ step_of (
            parse_message q services d
              (Message.set_service (Message.of_call q m.id m.type m.func m.args) 1))
  original_handled d m two zero_ id ne number known normal =
      handle_again d (Message.Wire.write q m) (rw two (invalid_here m zero_ id ne))
      ∙ ap (λ n. step_of (parse_message q services d n))
          (original_read m zero_ id number known normal)
