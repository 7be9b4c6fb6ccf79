-- ===== src/ClientProxy/Request/Alive.antt =====
-- The services that a connection of lib/clientproxy.cpp has registered are alive, and a returned
-- service is found through them.
use qt_rpc.Base.{
  ℕ, ◌≡◌, refl, sym, ap, ◌∙◌, String, true, Option, none, some, List, [], ◌∷◌, arith, ◌==◌, ==_iff,
  if◌then◌else◌, if-cases, Option-cases, inl, inr,
}
use qt_rpc.Base.Table.{lookup, contains}
use qt_rpc.Qt.{Qt}
use qt_rpc.ReturnValue
use qt_rpc.ReturnValue.{ReturnValue}
use qt_rpc.ClientProxy.{
  ServiceData, Connection, World, Env, on_bus, connection_call_async, register, allocate,
}
use qt_rpc.ClientProxy.Sharer.{ClientProxy, Status, parse_return, attach_service, lock_service}
use qt_rpc.ClientProxy.Select.{login_args, own_token}
use qt_rpc.ClientProxy.Request.{
  data_of, Stepped, move_on, step_version, call_back, answer, keep_status,
}

module _ {V B : Type 0} where
  -- what is registered on the connection `c` is alive
  abbrev pub Alive : World V B → ℕ → Type 0
  Alive w c =
      (id a : ℕ)
      → lookup id (w.connection_at c).registered ≡ some a
      → contains (w.service_at a) ≡ true

module _ {V B : Type 0} (q : Qt V) (env : Env V B) where
  same :
      (w : World V B) (b c : ℕ) (s : B)
      → (if b == c
          then record (w.connection_at b) { bus = some s }
          else w.connection_at c).registered
        ≡ (w.connection_at c).registered
  same w b c s =
      if-cases (λ (x : Connection B). x.registered ≡ (w.connection_at c).registered) (b == c) _ _
        (λ e. ap (λ k. (w.connection_at k).registered) ((==_iff b c).0 e)) (λ _. refl)

  -- a call on a bus changes neither what is registered nor which services are alive
  on_bus-registered :
      (w : World V B) (b c : ℕ) (f : B → ReturnValue V × B)
      → (((on_bus q env w b f).1.connection_at c).registered ≡ (w.connection_at c).registered)
        × ((on_bus q env w b f).1.service_at ≡ w.service_at)
  unfolding on_bus
  on_bus-registered w b c f = elim (Option-cases (w.connection_at b).bus) [
    | inl closed ↦ (rw (on_bus, closed) refl, rw (on_bus, closed) refl)
    | inr (s, opened) ↦ (rw (on_bus, opened) (same w b c (f s).1), rw (on_bus, opened) refl)
  ]

  on_bus-Alive :
      (w : World V B) (b c : ℕ) (f : B → ReturnValue V × B)
      → Alive w c
      → Alive (on_bus q env w b f).1 c
  on_bus-Alive w b c f alive id a found =
      let (registered, services) = on_bus-registered w b c f in
      ap (λ (s : ℕ → Option ServiceData). contains (s a)) services
      ∙ alive id a (ap (lookup id) (sym registered) ∙ found)

  lock_service-Alive :
      (w : World V B) (ret : ReturnValue V) (a : ℕ) (o : Option ServiceData)
      → contains o ≡ true
      → contains (data_of q env (lock_service q env w ret a o).1 (lock_service q env w ret a o).0)
        ≡ true
  unfolding lock_service
  lock_service-Alive w ret a none alive = absurd (ground (arith, alive))
  lock_service-Alive w ret a (some d) alive = ground arith

  attach_service-Alive :
      (w : World V B) (p : ClientProxy V) (ret : ReturnValue V) (o : Option ℕ)
      → ((a : ℕ) → o ≡ some a → contains (w.service_at a) ≡ true)
      → contains
          (data_of q env (attach_service q env w p ret o).1 (attach_service q env w p ret o).0)
        ≡ true
  unfolding attach_service register allocate lock_service
  attach_service-Alive w p ret none alive = ground arith
  attach_service-Alive w p ret (some a) alive =
      lock_service-Alive w ret a (w.service_at a) (alive a refl)

  -- a return that is a service has the data of a service that is alive
  pub parse_return-Alive :
      (w : World V B) (p : ClientProxy V) (ret : ReturnValue V)
      → Alive w p.connection
      → ReturnValue.is_service ret ≡ true
      → contains (data_of q env (parse_return q env w p ret).1 (parse_return q env w p ret).0)
        ≡ true
  unfolding parse_return
  parse_return-Alive w p ret alive is = rw is (
      attach_service-Alive w p ret (lookup ret.service_id (w.connection_at p.connection).registered)
        (λ a found. alive ret.service_id a found))

  -- the world that a step leaves when it made the call `c`
  pub move_on-Alive :
      (p : ClientProxy V) (id function_id : ℕ) (st : Status V) (c : ReturnValue V × World V B)
      → Alive c.1 p.connection
      → Alive
          (move_on q env p id function_id st c).0
          (move_on q env p id function_id st c).1.connection
  unfolding move_on keep_status answer
  move_on-Alive p id function_id st (ret, w) alive =
      if-cases (λ (s : Stepped V B). Alive s.0 s.1.connection) (ReturnValue.is_error ret) _ _
        (λ failed. alive) (λ going. alive)

  call_back-Alive :
      (w : World V B) (p : ClientProxy V) (name : String) (types : List String) (args : List V)
      → Alive w p.connection
      → Alive (call_back q env w p name types args).1 p.connection
  unfolding connection_call_async
  call_back-Alive w p name types args alive = on_bus-Alive w p.connection p.connection _ alive

  pub step_version-Alive :
      (w : World V B) (p : ClientProxy V) (id function_id : ℕ) (st : Status V) (ret : ReturnValue V)
      → Alive w p.connection
      → Alive
          (step_version q env w p id function_id st ret).0
          (step_version q env w p id function_id st ret).1.connection
  unfolding step_version login_args
  step_version-Alive w p id function_id st ret alive =
      if-cases (λ (s : Stepped V B). Alive s.0 s.1.connection) (q.to_int ret.value == 0) _ _
        (λ original.
          let (args, w2) = login_args q env w st.service (own_token w p st.token) in
          move_on-Alive p id function_id _ _ (
            call_back-Alive w2 p "selectService" ("QString" ∷ "QString" ∷ "QString" ∷ []) args
              alive))
        (λ later.
          move_on-Alive p id function_id _ _ (
            call_back-Alive w p "selectService" ("QString" ∷ []) (q.of_text st.service ∷ []) alive))

  pub step_again-Alive :
      (w : World V B) (p : ClientProxy V) (id function_id : ℕ) (st : Status V)
      → Alive w p.connection
      → Alive
          (move_on q env p id function_id st (call_back q env w p "version" [] [])).0
          (move_on q env p id function_id st (call_back q env w p "version" [] [])).1.connection
  step_again-Alive w p id function_id st alive =
      move_on-Alive p id function_id st _ (call_back-Alive w p "version" [] [] alive)
