-- ===== src/Device/States.antt =====
-- The states of a server's end of lib/serverprotocolinstanceiodevice.cpp, and its version.
use qt_rpc.Base.{
  ℕ, ◌≤◌, ◌≡◌, refl, ap, Bool, true, false, Option, none, some, List, [], ◌∷◌, arith, leb, ltb,
  if◌then◌else◌, Option-cases, inl, inr,
}
use qt_rpc.Qt.{Qt}
use qt_rpc.Message
use qt_rpc.Message.{Message, current_version}
use qt_rpc.Instance.{Services, get_service_login}
use qt_rpc.Device.{
  Device, State, ready, state_number, Action, wrote, write_message, call_protocol, change_state,
  set_protocol_version, select_original, ask_service, select_service, error, set_default_token,
}
use qt_rpc.Device.Dispatch.{
  tag, check_protocol_function, parse_function, parse_reply, parse_message,
}

abbrev number : {V : Type 0} → Device V → ℕ
number d = state_number d.state

-- the version for one that was named
abbrev pub capped : ℕ → ℕ
capped n = if ltb current_version n then current_version else n

module _ {V : Type 0} (q : Qt V) (services : Services V) where
  pub change_state_lem :
      (d : Device V) (new : State)
      → (number d ≤ number (change_state q d new).0)
        × (number (change_state q d new).0
            ≡ (if leb (state_number new) (number d) then number d else state_number new))
  unfolding change_state
  change_state_lem d new = (ground arith, ground arith)

  select_original-forward :
      (d e : Device V) (args : List V) (out : List (Action V))
      → select_original q services d args ≡ some (e, out)
      → number d ≤ number e
  unfolding select_original
  select_original-forward d e [] out h = ground arith
  select_original-forward d e (a ∷ []) out h = ground arith
  select_original-forward d e (a ∷ b ∷ []) out h = ground arith
  select_original-forward d e (a ∷ b ∷ c ∷ args) out h =
      let p = get_service_login q services d.instance (q.to_text a) (q.to_text b) (q.to_text c) in
      ground (arith, change_state_lem (record d { instance = p.1 }) ready)

  select_service-forward :
      (d e : Device V) (msg : Message V) (out : List (Action V))
      → select_service q services d msg ≡ some (e, out)
      → number d ≤ number e
  unfolding select_service
  select_service-forward d e msg out h =
      elim (Option-cases (ask_service q services d.instance msg.args)) [
        | inl gone ↦ ground (arith, gone, select_original-forward d e msg.args out)
        | inr ((ret, s), found) ↦ ground (
          arith,
          found,
          select_original-forward d e msg.args out,
          change_state_lem (record d { instance = s }) ready,
        )
      ]

  pub set_default_token-state :
      (d e : Device V) (msg : Message V) (out : List (Action V))
      → set_default_token q d msg ≡ some (e, out)
      → e.state ≡ d.state
  unfolding set_default_token
  set_default_token-state d e msg out h = ground arith

  pub error-state : (d e : Device V) (args : List V) → error q d args ≡ some e → e.state ≡ d.state
  unfolding error
  error-state d e args h = ground arith

  pub set_protocol_version-state :
      (d : Device V) (args : List V) → (set_protocol_version q d args).0.state ≡ d.state
  unfolding set_protocol_version
  set_protocol_version-state d [] = refl
  set_protocol_version-state d (a ∷ args) = refl

  -- a step under its tag
  tag-forward :
      (d e : Device V) (fixed known : Bool) (o : Option (Device V × List (Action V)))
      (out : List (Action V))
      → ((f : Device V) (more : List (Action V)) → o ≡ some (f, more) → number d ≤ number f)
      → tag q fixed o ≡ some (known, e, out)
      → number d ≤ number e
  tag-forward d e fixed known none out forward h = ground arith
  tag-forward d e fixed known (some (f, more)) out forward h = ground (arith, forward f more refl)

  error-forward :
      (d e : Device V) (args : List V) (known : Bool) (out : List (Action V))
      → (elim (error q d args) as (λ o. Option (Bool × Device V × List (Action V))) [
        | none ↦ none
        | some f ↦ some (true, f, [])
      ])
        ≡ some (known, e, out)
      → number d ≤ number e
  error-forward d e args known out h = elim (Option-cases (error q d args)) [
    | inl gone ↦ ground (arith, gone, h)
    | inr (f, found) ↦ ground (arith, found, h, error-state d f args found)
  ]

  check-forward :
      (d e : Device V) (msg : Message V) (known : Bool) (out : List (Action V))
      → check_protocol_function q services d msg ≡ some (known, e, out)
      → number d ≤ number e
  unfolding check_protocol_function
  check-forward d e msg known out h = ground (
    arith,
    h,
    set_protocol_version-state d msg.args,
    tag-forward d e true known (select_service q services d msg) out
        (λ f more. select_service-forward d f msg more),
    tag-forward d e false known (set_default_token q d msg) out
        (λ f more g. omega (arith, ap state_number (set_default_token-state d f msg more g))),
    error-forward d e msg.args known out,
  )

  pub parse_function-state :
      (d e : Device V) (msg : Message V) (out : List (Action V))
      → parse_function q services d msg ≡ some (e, out)
      → e.state ≡ d.state
  unfolding parse_function
  parse_function-state d e msg out h = ground arith

  pub parse_reply-state : (d : Device V) (msg : Message V) → (parse_reply q d msg).0.state ≡ d.state
  unfolding parse_reply
  parse_reply-state d msg = ground arith

  -- Whatever message arrives, the state of a server's end does not go backwards.
  pub parse_message-forward :
      (d e : Device V) (msg : Message V) (known : Bool) (out : List (Action V))
      → parse_message q services d msg ≡ some (known, e, out)
      → state_number d.state ≤ state_number e.state
  unfolding parse_message
  parse_message-forward d e msg known out h =
      elim (Option-cases (check_protocol_function q services d msg)) [
        | inl gone ↦ ground (arith, h, gone, functions, parse_reply-state d msg)
        | inr ((b, f, more), found) ↦ ground (
          arith,
          h,
          found,
          functions,
          parse_reply-state d msg,
          check-forward d f msg b more found,
        )
      ]
    where
      functions :
          tag q true (parse_function q services d msg) ≡ some (known, e, out) → number d ≤ number e
      functions =
          tag-forward d e true known (parse_function q services d msg) out
            (λ f more g. omega (arith, ap state_number (parse_function-state d f msg more g)))

  check_version :
      (d : Device V) (msg : Message V) (a : V) (args : List V)
      → msg.func.name ≡ "setProtocolVersion"
      → msg.args ≡ a ∷ args
      → check_protocol_function q services d msg
        ≡ tag q true (some (set_protocol_version q d (a ∷ args)))
  unfolding check_protocol_function
  check_version d msg a args named given = rw (check_protocol_function, named, given) refl

  -- A client's setProtocolVersion sets the version of the connection to the one it names, or to the
  -- current one if that is lower, and the reply that names the new version is still written in the
  -- old one.
  pub version_set :
      (d : Device V) (msg : Message V) (a : V) (args : List V)
      → msg.type ≡ Message.protocol
      → msg.func.name ≡ "setProtocolVersion"
      → msg.args ≡ a ∷ args
      → parse_message q services d msg
        ≡ some (
          true,
          record d { version = capped (q.to_uint a) },
          wrote (
                Message.set_version
                  (Message.of_call q 0 Message.protocol
                    (record { name = "setProtocolVersion"; args = "quint32" ∷ [] })
                    (q.of_uint (capped (q.to_uint a)) ∷ []))
                  d.version)
              ∷ [],
        )
  unfolding parse_message set_protocol_version call_protocol write_message
  version_set d msg a args is_protocol named given =
      let checked = check_version d msg a args named given in ground (arith, is_protocol, checked)
