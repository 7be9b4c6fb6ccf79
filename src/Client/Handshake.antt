-- ===== src/Client/Handshake.antt =====
-- The two ends of a connection agree on a version.
use qt_rpc.Base.{ℕ, ◌≤◌, ◌<◌, ◌^◌, ◌≡◌, refl, ap, ◌∙◌, subst, String, true, some, [], ◌∷◌, arith}
use qt_rpc.Base.Text.{chars, of_chars, trimmed, skip}
use qt_rpc.Qt.{Qt, IsQt}
use qt_rpc.ReturnValue
use qt_rpc.ReturnValue.{ReturnValue}
use qt_rpc.Message
use qt_rpc.Message.{Message, current_version}
use qt_rpc.Instance.{Services}
use qt_rpc.Device
use qt_rpc.Device.{Device}
use qt_rpc.Device.Dispatch
use qt_rpc.Device.States.{version_set, capped}
use qt_rpc.Client.{
  Transport, Client, wrote, return_received, connected, write_message, call_protocol, welcome,
  set_protocol_version, check_protocol_function, parse_message,
}

-- A protocol message of this name with this one argument.
abbrev pub Tells : {V : Type 0} → Message V → String → V → Type 0
Tells m name a = (m.type ≡ Message.protocol) × (m.func.name ≡ name) × (m.args ≡ a ∷ [])

module _ {V : Type 0} (q : Qt V) (qt : IsQt q) (services : Services V) (t : Transport V) where
  welcome-trimmed : of_chars (trimmed q.is_space (chars "welcome")) ≡ "welcome"
  unfolding trimmed skip
  welcome-trimmed = simp (
    qt.letter_is_no_space "w" (omega arith) (omega arith),
    qt.letter_is_no_space "e" (omega arith) (omega arith),
  )

  version-trimmed :
      of_chars (trimmed q.is_space (chars "setProtocolVersion")) ≡ "setProtocolVersion"
  unfolding trimmed skip
  version-trimmed = simp (
    qt.letter_is_no_space "s" (omega arith) (omega arith),
    qt.letter_is_no_space "n" (omega arith) (omega arith),
  )

  -- a message that names a version
  abbrev pub names_version : ℕ → ℕ → Message V
  names_version v version =
      Message.set_version
        (Message.of_call q 0 Message.protocol
          (record { name = "setProtocolVersion"; args = "quint32" ∷ [] }) (q.of_uint v ∷ []))
        version

  check_welcome :
      (c : Client) (m : Message V) (a : V)
      → m.func.name ≡ "welcome"
      → m.args ≡ a ∷ []
      → check_protocol_function q t c m ≡ some (true, c, welcome q t c (a ∷ []))
  unfolding check_protocol_function
  check_welcome c m a named given = rw (check_protocol_function, named, welcome-trimmed, given) refl

  check_version :
      (c : Client) (m : Message V) (a : V)
      → m.func.name ≡ "setProtocolVersion"
      → m.args ≡ a ∷ []
      → check_protocol_function q t c m
        ≡ some
            (true, (set_protocol_version q t c (a ∷ [])).0, (set_protocol_version q t c (a ∷ [])).1)
  unfolding check_protocol_function
  check_version c m a named given = rw (check_protocol_function, named, version-trimmed, given) refl

  welcomed :
      (c : Client) (m : Message V) (n : ℕ)
      → n < 2 ^ 32
      → t.is_connected ≡ true
      → m.type ≡ Message.protocol
      → m.func.name ≡ "welcome"
      → m.args ≡ q.of_uint n ∷ []
      → parse_message q t c m ≡ some (c, wrote (names_version (capped n) c.version) ∷ [])
  unfolding parse_message welcome call_protocol write_message
  welcomed c m n small is_connected is_protocol named given =
      let checked = check_welcome c m (q.of_uint n) named given in
      ground (arith, checked, is_protocol, is_connected, qt.to_uint-of_uint n small)

  agreed :
      (c : Client) (m : Message V) (v : ℕ)
      → v ≤ current_version
      → m.type ≡ Message.protocol
      → m.func.name ≡ "setProtocolVersion"
      → m.args ≡ q.of_uint v ∷ []
      → parse_message q t c m
        ≡ some (
          record c { version = v },
          connected
              ∷ return_received
                  (Message.of_return q c.connect_id (ReturnValue.of_value q (q.of_bool true)))
              ∷ [],
        )
  unfolding parse_message set_protocol_version
  agreed c m v low is_protocol named given =
      let checked = check_version c m (q.of_uint v) named given in
      ground (arith, checked, is_protocol, qt.to_uint-of_uint v (omega arith))

  -- A server that welcomes a connected client with a version of 32 bits makes both ends speak one
  -- version, the lower one of what the server offers and what the client knows. Each message of the
  -- exchange is written in its writer's old version, and at its end the client's connect call is
  -- answered with true. Here `m1`, `m2` and `m3` are the messages as they arrive.
  pub handshake :
      (c : Client) (d : Device V) (m1 m2 m3 : Message V) (n : ℕ)
      → n < 2 ^ 32
      → t.is_connected ≡ true
      → Tells m1 "welcome" (q.of_uint n)
      → Tells m2 "setProtocolVersion" (q.of_uint (capped n))
      → Tells m3 "setProtocolVersion" (q.of_uint (capped n))
      → (parse_message q t c m1 ≡ some (c, wrote (names_version (capped n) c.version) ∷ []))
        × (Dispatch.parse_message q services d m2
            ≡ some (
              true,
              record d { version = capped n },
              Device.wrote (names_version (capped n) d.version) ∷ [],
            ))
        × (parse_message q t c m3
            ≡ some (
              record c { version = capped n },
              connected
                  ∷ return_received
                      (Message.of_return q c.connect_id (ReturnValue.of_value q (q.of_bool true)))
                  ∷ [],
            ))
  handshake c d m1 m2 m3 n small is_connected (t1, n1, a1) (t2, n2, a2) (t3, n3, a3) = (
    welcomed c m1 n small is_connected t1 n1 a1,
    subst
        (λ v.
          Dispatch.parse_message q services d m2
          ≡ some (true, record d { version = v }, Device.wrote (names_version v d.version) ∷ []))
        (ap capped (qt.to_uint-of_uint (capped n) (ground arith)) ∙ ground arith)
        (version_set q services d m2 (q.of_uint (capped n)) [] t2 n2 a2),
    agreed c m3 (capped n) (ground arith) t3 n3 a3,
  )
