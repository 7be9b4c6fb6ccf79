-- ===== src/Tcp/Forward.antt =====
-- The states of a server's end over TCP, in lib/serverprotocolinstancetcp.cpp and
-- lib/serverprotocolinstanceiodevice.cpp: whatever happens, they go forward only.
use qt_rpc.Base.{
  ℕ, ◌≤◌, ◌≡◌, String, Bool, true, false, some, List, [], ◌∷◌, arith, Option-cases, inl, inr,
}
use qt_rpc.Qt.{Qt, Bytes}
use qt_rpc.Signature.{Signature}
use qt_rpc.Message
use qt_rpc.Message.Wire
use qt_rpc.Instance.{Services}
use qt_rpc.Device
use qt_rpc.Device.{
  Device, Action, state_number, protocol_function, wrote, replied, closed, change_state,
}
use qt_rpc.Device.Dispatch.{handle_frame, parse_message}
use qt_rpc.Device.States.{change_state_lem, parse_message-forward}
use qt_rpc.Tcp.History.{Event, frame, property, tick, close, secured, step, run}
use qt_rpc.Tcp.{
  Tcp, TcpAction, disconnect, refuse, serve, set_ssl, timeout_first, start_timeout, protocol_call,
  perform_one, perform, handle, set_property, ping, encrypted,
}

abbrev number : {V : Type 0} → Tcp V → ℕ
number t = state_number t.device.state

module _ {V : Type 0} (q : Qt V) (services : Services V) (exists : String → Bool) where
  handle_frame-forward :
      (d e : Device V) (body : Bytes) (out : List (Action V))
      → handle_frame q services d body ≡ some (e, out)
      → state_number d.state ≤ state_number e.state
  unfolding handle_frame
  handle_frame-forward d e body out h =
      let msg = (Message.Wire.read q (Message.set_version (Message.empty q) d.version) body).0 in
      elim (Option-cases (parse_message q services d msg)) [
        | inl gone ↦ ground (arith, h, gone)
        | inr ((known, f, some_out), found) ↦
            let first = parse_message-forward q services d f msg known some_out found in
            let again = (Message.Wire.read q (Message.empty q) body).0 in
            elim (Option-cases (parse_message q services f again)) [
              | inl fails ↦ ground (arith, h, found, fails, first)
              | inr ((k, g, more), next) ↦ ground (
                arith,
                h,
                found,
                next,
                first,
                parse_message-forward q services f g again k more next,
              )
            ]
      ]

  serve-forward : (t : Tcp V) → number t ≤ number (serve q t).0
  unfolding serve
  serve-forward t = (change_state_lem q services t.device Device.service).0

  set_ssl-forward : (b : Bool) (t : Tcp V) → number t ≤ number (set_ssl q exists b t).0
  unfolding set_ssl refuse disconnect
  set_ssl-forward true t = ground arith
  set_ssl-forward false t = ground (arith, serve-forward t)

  protocol_call-forward :
      (now : ℕ) (t u : Tcp V) (func : Signature) (args : List V) (done : List (TcpAction V))
      → protocol_call q exists now t func args ≡ some (u, done)
      → number t ≤ number u
  unfolding protocol_call start_timeout
  protocol_call-forward now t u func [] done h = ground (arith, h)
  protocol_call-forward now t u func (a ∷ args) done h =
      ground (arith, h, set_ssl-forward (q.to_bool a) (timeout_first q exists now t).0)

  perform_one-forward :
      (now : ℕ) (a : Action V) (t u : Tcp V) (done : List (TcpAction V))
      → perform_one q exists now a t ≡ some (u, done)
      → number t ≤ number u
  perform_one-forward now (protocol_function func args) t u done h =
      protocol_call-forward now t u func args done h
  perform_one-forward now (wrote m) t u done h = ground (arith, h)
  perform_one-forward now (replied s id ret) t u done h = ground (arith, h)
  perform_one-forward now closed t u done h = ground (arith, h)

  perform-forward :
      (now : ℕ) (acts : List (Action V)) (t u : Tcp V) (done : List (TcpAction V))
      → perform q exists now acts t ≡ some (u, done)
      → number t ≤ number u
  unfolding perform
  perform-forward now [] t u done h = ground (arith, h)
  perform-forward now (a ∷ acts) t u done h = elim (Option-cases (perform_one q exists now a t)) [
    | inl gone ↦ absurd (ground (arith, gone, h))
    | inr ((v, first), e) ↦
        let before = perform_one-forward now a t v first e in
        elim (Option-cases (perform q exists now acts v)) [
          | inl gone ↦ absurd (ground (arith, gone, e, h))
          | inr ((x, more), next) ↦
              ground (arith, h, e, next, before, perform-forward now acts v x more next)
        ]
  ]

  step-forward :
      (now : ℕ) (e : Event V) (t u : Tcp V) (done : List (TcpAction V))
      → step q exists services now e t ≡ some (u, done)
      → number t ≤ number u
  unfolding step handle ping disconnect encrypted set_property start_timeout
  step-forward now (frame body) t u done h =
      elim (Option-cases (handle_frame q services t.device body)) [
        | inl gone ↦ absurd (ground (arith, gone, h))
        | inr ((d, acts), e) ↦ ground (
          arith,
          handle_frame-forward t.device d body acts e,
          perform-forward now acts (record t { device = d }) u done (ground (arith, e, h)),
        )
      ]
  step-forward now (property prop val) t u done h = ground (arith, h)
  step-forward now tick t u done h = ground (arith, h)
  step-forward now close t u done h = ground (arith, h)
  step-forward now secured t u done h = ground (arith, h, serve-forward t)

  -- In every history of a server's end over TCP its state does not go backwards: not by a frame,
  -- also one that asks for encryption or for none when the end is ready, and not by the end of a
  -- handshake.
  pub run-forward :
      (es : List (ℕ × Event V)) (t u : Tcp V)
      → run q exists services es t ≡ some u
      → state_number t.device.state ≤ state_number u.device.state
  unfolding run
  run-forward [] t u h = ground (arith, h)
  run-forward ((now, e) ∷ es) t u h = elim (Option-cases (step q exists services now e t)) [
    | inl gone ↦ absurd (ground (arith, gone, h))
    | inr ((v, done), next) ↦
        ground
          (arith, step-forward now e t v done next, run-forward es v u (ground (arith, next, h)))
  ]
