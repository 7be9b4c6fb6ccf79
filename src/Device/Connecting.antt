-- ===== src/Device/Connecting.antt =====
-- The first state of a server's end: no message that arrives leaves it.
use qt_rpc.Base.{
  ℕ, ◌≡◌, refl, ap, ◌∙◌, Bool, true, false, Option, none, some, List, [], arith, Option-cases, inl,
  inr,
}
use qt_rpc.Qt.{Qt, Bytes}
use qt_rpc.Message
use qt_rpc.Message.{Message}
use qt_rpc.Message.Wire
use qt_rpc.Instance.{Services}
use qt_rpc.Device.{Device, state_number, Action, select_service, error, set_default_token}
use qt_rpc.Device.Dispatch.{
  tag, check_protocol_function, parse_function, parse_message, handle_frame,
}
use qt_rpc.Device.States.{
  set_default_token-state, error-state, set_protocol_version-state, parse_function-state,
  parse_reply-state,
}

abbrev number : {V : Type 0} → Device V → ℕ
number d = state_number d.state

module _ {V : Type 0} (q : Qt V) (services : Services V) where
  select_service-connecting :
      (d e : Device V) (msg : Message V) (out : List (Action V))
      → number d ≡ 0
      → select_service q services d msg ≡ some (e, out)
      → number e ≡ 0
  unfolding select_service
  select_service-connecting d e msg out start h = ground (arith, h)

  tag-connecting :
      (e : Device V) (fixed known : Bool) (o : Option (Device V × List (Action V)))
      (out : List (Action V))
      → ((f : Device V) (more : List (Action V)) → o ≡ some (f, more) → number f ≡ 0)
      → tag q fixed o ≡ some (known, e, out)
      → number e ≡ 0
  tag-connecting e fixed known none out stays h = absurd (ground (arith, h))
  tag-connecting e fixed known (some (f, more)) out stays h = ground (arith, stays f more refl)

  error-connecting :
      (d e : Device V) (args : List V) (known : Bool) (out : List (Action V))
      → number d ≡ 0
      → (elim (error q d args) as (λ o. Option (Bool × Device V × List (Action V))) [
        | none ↦ none
        | some f ↦ some (true, f, [])
      ])
        ≡ some (known, e, out)
      → number e ≡ 0
  error-connecting d e args known out start h = elim (Option-cases (error q d args)) [
    | inl gone ↦ ground (arith, gone, h)
    | inr (f, found) ↦ ground (arith, found, h, error-state q services d f args found)
  ]

  check-connecting :
      (d e : Device V) (msg : Message V) (known : Bool) (out : List (Action V))
      → number d ≡ 0
      → check_protocol_function q services d msg ≡ some (known, e, out)
      → number e ≡ 0
  unfolding check_protocol_function
  check-connecting d e msg known out start h = ground (
    arith,
    h,
    start,
    set_protocol_version-state q services d msg.args,
    tag-connecting e true known (select_service q services d msg) out
        (λ f more. select_service-connecting d f msg more start),
    tag-connecting e false known (set_default_token q d msg) out
        (λ f more g. ap state_number (set_default_token-state q services d f msg more g) ∙ start),
    error-connecting d e msg.args known out start,
  )

  pub parse_message-connecting :
      (d e : Device V) (msg : Message V) (known : Bool) (out : List (Action V))
      → number d ≡ 0
      → parse_message q services d msg ≡ some (known, e, out)
      → number e ≡ 0
  unfolding parse_message
  parse_message-connecting d e msg known out start h =
      let functions : tag q true (parse_function q services d msg) ≡ some (known, e, out)
          → number e ≡ 0 =
        tag-connecting e true known (parse_function q services d msg) out
          (λ f more g. ap state_number (parse_function-state q services d f msg more g) ∙ start) in
      elim (Option-cases (check_protocol_function q services d msg)) [
        | inl gone ↦ ground (arith, h, gone, functions, start, parse_reply-state q services d msg)
        | inr ((b, f, more), found) ↦ ground (
          arith,
          h,
          found,
          functions,
          start,
          parse_reply-state q services d msg,
          check-connecting d f msg b more start found,
        )
      ]

  -- A frame that arrives in the state Connecting leaves the connection in it.
  pub handle_frame-connecting :
      (d e : Device V) (body : Bytes) (out : List (Action V))
      → number d ≡ 0
      → handle_frame q services d body ≡ some (e, out)
      → number e ≡ 0
  unfolding handle_frame
  handle_frame-connecting d e body out start h =
      let msg = (Message.Wire.read q (Message.set_version (Message.empty q) d.version) body).0 in
      elim (Option-cases (parse_message q services d msg)) [
        | inl gone ↦ ground (arith, h, gone)
        | inr ((known, f, some_out), found) ↦
            let first = parse_message-connecting d f msg known some_out start found in
            let again = (Message.Wire.read q (Message.empty q) body).0 in
            elim (Option-cases (parse_message q services f again)) [
              | inl fails ↦ ground (arith, h, found, fails, first)
              | inr ((k, g, more), next) ↦ ground (
                arith,
                h,
                found,
                next,
                first,
                parse_message-connecting f g again k more first next,
              )
            ]
      ]
