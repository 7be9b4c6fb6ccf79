-- ===== src/Tcp/Guard.antt =====
-- SslForced of lib/serverprotocolinstancetcp.cpp: what a client can reach before encryption.
use qt_rpc.Base.{
  ℕ, refl, ◌≡◌, String, Bool, true, false, some, List, [], ◌∷◌, arith, str_eq, eq_iff, if-cases,
  Option-cases, Bool-cases, inl, inr,
}
use qt_rpc.Qt.{Qt, Bytes}
use qt_rpc.Signature.{Signature}
use qt_rpc.Instance.{Services}
use qt_rpc.Device.{Action, state_number, protocol_function, wrote, replied, closed}
use qt_rpc.Device.Dispatch.{handle_frame}
use qt_rpc.Device.Connecting.{handle_frame-connecting}
use qt_rpc.Tcp.History.{
  Event, frame, property, tick, close, secured, is_forced, opens_one, opens, step, run,
}
use qt_rpc.Tcp.{
  SslMode, ssl_enabled, ssl_disabled, ssl_unknown, ssl_of_number, Tcp, ssl_forced, Done, TcpAction,
  disconnect, refuse, set_ssl, timeout_first, start_timeout, protocol_call, perform_one, perform,
  handle, set_property, ping,
}

-- a server's end that forces encryption, in the state before Service
abbrev pub IsGuarded : {V : Type 0} → Tcp V → Type 0
IsGuarded t = (t.ssl_mode ≡ ssl_forced) × (state_number t.device.state ≡ 0)

forced_mode : (m : SslMode) → is_forced m ≡ true → m ≡ ssl_forced
forced_mode ssl_enabled h = absurd (ground (arith, h))
forced_mode ssl_disabled h = absurd (ground (arith, h))
forced_mode ssl_forced h = refl
forced_mode (ssl_unknown n) h = absurd (ground (arith, h))

module _ {V : Type 0} (q : Qt V) (exists : String → Bool) where
  set_ssl-IsGuarded : (b : Bool) (t : Tcp V) → IsGuarded t → IsGuarded (set_ssl q exists b t).0
  unfolding set_ssl refuse disconnect
  set_ssl-IsGuarded true t (forced, start) = ground (arith, forced, start)
  set_ssl-IsGuarded false t (forced, start) = ground (arith, forced, start)

  timeout_first-IsGuarded :
      (now : ℕ) (t : Tcp V) → IsGuarded t → IsGuarded (timeout_first q exists now t).0
  unfolding start_timeout
  timeout_first-IsGuarded now t g =
      if-cases (λ (d : Done V). IsGuarded d.0) t.timeout_enabled _ _ (λ _. g) (λ _. g)

  protocol_call-IsGuarded :
      (now : ℕ) (t u : Tcp V) (func : Signature) (args : List V) (done : List (TcpAction V))
      → IsGuarded t
      → protocol_call q exists now t func args ≡ some (u, done)
      → IsGuarded u
  unfolding protocol_call
  protocol_call-IsGuarded now t u func [] done g h = ground (arith, h, g)
  protocol_call-IsGuarded now t u func (a ∷ args) done g h = ground (
    arith,
    h,
    g,
    set_ssl-IsGuarded (q.to_bool a) (timeout_first q exists now t).0
        (timeout_first-IsGuarded now t g),
  )

  perform_one-IsGuarded :
      (now : ℕ) (a : Action V) (t u : Tcp V) (done : List (TcpAction V))
      → IsGuarded t
      → perform_one q exists now a t ≡ some (u, done)
      → IsGuarded u
  perform_one-IsGuarded now (protocol_function func args) t u done g h =
      protocol_call-IsGuarded now t u func args done g h
  perform_one-IsGuarded now (wrote m) t u done g h = ground (arith, h, g)
  perform_one-IsGuarded now (replied s id ret) t u done g h = ground (arith, h, g)
  perform_one-IsGuarded now closed t u done g h = ground (arith, h, g)

  perform-IsGuarded :
      (now : ℕ) (acts : List (Action V)) (t u : Tcp V) (done : List (TcpAction V))
      → IsGuarded t
      → perform q exists now acts t ≡ some (u, done)
      → IsGuarded u
  unfolding perform
  perform-IsGuarded now [] t u done g h = ground (arith, h, g)
  perform-IsGuarded now (a ∷ acts) t u done g h =
      elim (Option-cases (perform_one q exists now a t)) [
        | inl gone ↦ absurd (ground (arith, gone, h))
        | inr ((v, first), e) ↦
            let guarded = perform_one-IsGuarded now a t v first g e in
            elim (Option-cases (perform q exists now acts v)) [
              | inl gone ↦ absurd (ground (arith, gone, e, h))
              | inr ((x, more), next) ↦
                  ground (arith, h, e, next, perform-IsGuarded now acts v x more guarded next)
            ]
      ]

  handle-IsGuarded :
      (services : Services V) (now : ℕ) (t u : Tcp V) (body : Bytes) (done : List (TcpAction V))
      → IsGuarded t
      → handle q exists services now t body ≡ some (u, done)
      → IsGuarded u
  unfolding handle
  handle-IsGuarded services now t u body done (forced, start) h =
      elim (Option-cases (handle_frame q services t.device body)) [
        | inl gone ↦ absurd (ground (arith, gone, h))
        | inr ((d, acts), e) ↦
            perform-IsGuarded now acts (record t { device = d }) u done
              (forced, handle_frame-connecting q services t.device d body acts start e)
              (ground (arith, e, h))
      ]

  set_property-IsGuarded :
      (now : ℕ) (t : Tcp V) (prop : String) (val : V)
      → opens_one q (property prop val) ≡ false
      → IsGuarded t
      → IsGuarded (set_property q now t prop val).0
  unfolding set_property start_timeout
  set_property-IsGuarded now t prop val closed_ (forced, start) =
      elim (Bool-cases (str_eq prop "sslmode")) [
        | inl mode ↦ (
          ground (
            arith,
            forced,
            mode,
            closed_,
            eq_iff prop "sslmode",
            forced_mode (ssl_of_number (q.to_int val)),
          ),
          ground (arith, start, mode),
        )
        | inr other ↦ ground (arith, forced, start, other)
      ]

module _ {V : Type 0} (q : Qt V) (exists : String → Bool) (services : Services V) where
  step-IsGuarded :
      (now : ℕ) (e : Event V) (t u : Tcp V) (done : List (TcpAction V))
      → opens_one q e ≡ false
      → IsGuarded t
      → step q exists services now e t ≡ some (u, done)
      → IsGuarded u
  unfolding step ping disconnect
  step-IsGuarded now (frame body) t u done keeps g h =
      handle-IsGuarded q exists services now t u body done g h
  step-IsGuarded now (property prop val) t u done keeps g h =
      ground (arith, h, set_property-IsGuarded q exists now t prop val keeps g)
  step-IsGuarded now tick t u done keeps g h = ground (arith, h, g)
  step-IsGuarded now close t u done keeps g h = ground (arith, h, g)
  step-IsGuarded now secured t u done keeps g h = absurd (ground (arith, keeps))

  -- A server's end that forces encryption does not leave its first state, whatever frames arrive and
  -- whatever else happens in any order, as long as the handshake of encryption does not end and no
  -- other mode is set.
  pub run-IsGuarded :
      (es : List (ℕ × Event V)) (t u : Tcp V)
      → opens q es ≡ false
      → IsGuarded t
      → run q exists services es t ≡ some u
      → IsGuarded u
  unfolding run opens
  run-IsGuarded [] t u keeps g h = ground (arith, h, g)
  run-IsGuarded ((now, e) ∷ es) t u keeps g h =
      elim (Option-cases (step q exists services now e t)) [
        | inl gone ↦ absurd (ground (arith, gone, h))
        | inr ((v, done), next) ↦
            run-IsGuarded es v u (ground (arith, keeps))
              (step-IsGuarded now e t v done (ground (arith, keeps)) g next)
              (ground (arith, next, h))
      ]
