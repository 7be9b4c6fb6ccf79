-- ===== src/Instance/Gate.antt =====
-- The services that wait for their client to authenticate.
use qt_rpc.Base.{
  ℕ, ◌≡◌, ◌≢◌, refl, ap, String, Bool, true, not, ◌&&◌, some, List, [], ◌∷◌, str_eq, eq_iff, arith,
  ◌==◌, Bool-cases, Option-cases, inl, inr,
}
use qt_rpc.Base.Table.{is_in}
use qt_rpc.Qt.{Qt}
use qt_rpc.Signature
use qt_rpc.Signature.{Signature}
use qt_rpc.Signature.Check.{equal_iff}
use qt_rpc.ReturnValue
use qt_rpc.ReturnValue.{ReturnValue}
use qt_rpc.Token.{of_login}
use qt_rpc.Instance.{
  Services, Instance, remove_all, service, fill_tokens, parse_return, after_call, invoke, perform,
  call_function,
}

is_in-remove_all :
    (id j : ℕ) (js : List ℕ) → is_in j (remove_all id js) ≡ (not (id == j) && is_in j js)
unfolding remove_all
is_in-remove_all id j [] = ground arith
is_in-remove_all id j (i ∷ is) = ground (arith, is_in-remove_all id j is)

module _ {V : Type 0} (q : Qt V) (services : Services V) where
  -- While a service waits for its client to authenticate, a call of any function but `auth` on its
  -- id is answered with an error, changes nothing and does not reach the service.
  pub gate_closed :
      (s : Instance V) (id service_id : ℕ) (sig : Signature) (args : List V)
      → is_in service_id s.needs_auth ≡ true
      → sig.name ≢ "auth"
      → (r : ReturnValue V) × (call_function q services s id service_id sig args ≡ some (r, s))
        × (ReturnValue.is_error r ≡ true)
  unfolding call_function ReturnValue.is_error ReturnValue.of_error ReturnValue.empty
  gate_closed s id service_id sig args waits ne = elim (Option-cases (service q s service_id)) [
    | inl e ↦
        (ReturnValue.of_error q 1 "The service object does not exist", ground (arith, e), refl)
    | inr (srv, e) ↦ (
      ReturnValue.of_error q 1 "You must authenticate before selecting a service!",
      ground (arith, e, waits, ne, eq_iff sig.name "auth"),
      refl,
    )
  ]

  parse_return-needs_auth :
      (s : Instance V) (r : ReturnValue V)
      → ((parse_return q s r).1.needs_auth ≡ s.needs_auth)
        × (ReturnValue.is_error (parse_return q s r).0 ≡ ReturnValue.is_error r)
  unfolding parse_return ReturnValue.is_error
  parse_return-needs_auth s r = (ground arith, ground arith)

  -- whether `j` still waits after a call of `name` on `service_id` that did not fail
  abbrev still_waits : Instance V → ℕ → String → ℕ → Bool → Bool
  still_waits s j name service_id failed =
      is_in j s.needs_auth && not (str_eq name "auth" && service_id == j && not failed)

  after_call-still_waits :
      (s u : Instance V) (srv service_id j : ℕ) (sig : Signature) (args : List V)
      (r : ReturnValue V)
      → after_call q s srv service_id sig args r ≡ some u
      → is_in j u.needs_auth ≡ still_waits s j sig.name service_id (ReturnValue.is_error r)
  unfolding after_call
  after_call-still_waits s u srv service_id j sig [] r e = ground arith
  after_call-still_waits s u srv service_id j sig (a ∷ args) r e =
      ground (arith, is_in-remove_all service_id j s.needs_auth)

  invoke-still_waits :
      (s t : Instance V) (srv id service_id j : ℕ) (sig : Signature) (args : List V)
      (r : ReturnValue V)
      → invoke q services s srv id service_id sig args ≡ some (r, t)
      → is_in j t.needs_auth ≡ still_waits s j sig.name service_id (ReturnValue.is_error r)
  unfolding invoke
  invoke-still_waits s t srv id service_id j sig args r e =
      elim (Option-cases (fill_tokens q s.heap s.default_token sig.args args)) [
        | inl none_ ↦ ground (arith, none_)
        | inr (filled, f) ↦
            let p = services.call id srv sig filled s.heap in
            let called : Instance V = record s { heap = p.1 } in
            elim (Option-cases (after_call q called srv service_id sig filled p.0)) [
              | inl stuck ↦ ground (arith, f, stuck)
              | inr (u, g) ↦
                  let opened = after_call-still_waits called u srv service_id j sig filled p.0 g in
                  let kept = parse_return-needs_auth (record u { current_function_id = 0 }) p.0 in
                  ground (arith, f, g, opened, kept)
            ]
      ]

  is_error-of_error :
      (n : ℕ) (msg : String) → ReturnValue.is_error (ReturnValue.of_error q n msg) ≡ true
  unfolding ReturnValue.is_error ReturnValue.of_error ReturnValue.empty
  is_error-of_error n msg = refl

  abbrev login : Signature
  login = record { name = "auth"; args = "QString" ∷ "QString" ∷ [] }

  perform-login :
      (s t : Instance V) (srv id service_id j : ℕ) (sig : Signature) (args : List V)
      (r : ReturnValue V)
      → perform q services s srv id service_id sig args ≡ some (r, t)
      → Signature.equal sig login ≡ true
      → sig.name ≡ "auth"
      → is_in j t.needs_auth ≡ still_waits s j sig.name service_id (ReturnValue.is_error r)
  unfolding perform
  perform-login s t srv id service_id j sig [] r e is_login name =
      ground (arith, is_login, e, is_error-of_error 1 "Not enough paramters for that signature")
  perform-login s t srv id service_id j sig (a ∷ []) r e is_login name =
      ground (arith, is_login, e, is_error-of_error 1 "Not enough paramters for that signature")
  perform-login s t srv id service_id j sig (a ∷ b ∷ args) r e is_login name =
      let p = of_login q s.heap (q.to_text a) (q.to_text b) in
      let invoked =
        invoke-still_waits (record s { heap = p.1 }) t srv id service_id j
          (record { name = "auth"; args = "AuthToken" ∷ [] }) (q.of_token p.0 ∷ []) r
          (ground (arith, is_login, e)) in
      rw name invoked

  perform-still_waits :
      (s t : Instance V) (srv id service_id j : ℕ) (sig : Signature) (args : List V)
      (r : ReturnValue V)
      → perform q services s srv id service_id sig args ≡ some (r, t)
      → is_in j t.needs_auth ≡ still_waits s j sig.name service_id (ReturnValue.is_error r)
  unfolding perform
  perform-still_waits s t srv id service_id j sig args r e =
      elim (Bool-cases (Signature.equal sig login)) [
        | inl same ↦
            perform-login s t srv id service_id j sig args r e same
              (ap (λ (x : Signature). x.name) ((equal_iff sig login).0 same))
        | inr other ↦
            invoke-still_waits s t srv id service_id j sig args r (ground (arith, e, other))
      ]

  -- A call that is not a fault changes which services wait in one way: a call of `auth` on a
  -- service's own id that does not return an error ends its wait.
  pub gate_opens :
      (s t : Instance V) (id service_id j : ℕ) (sig : Signature) (args : List V) (r : ReturnValue V)
      → call_function q services s id service_id sig args ≡ some (r, t)
      → is_in j t.needs_auth ≡ (
          is_in j s.needs_auth
          && not (str_eq sig.name "auth" && service_id == j && not (ReturnValue.is_error r)))
  unfolding call_function
  gate_opens s t id service_id j sig args r e = elim (Option-cases (service q s service_id)) [
    | inl gone ↦ ground (arith, e, gone, is_error-of_error 1 "The service object does not exist")
    | inr (srv, found) ↦
        elim (Bool-cases (not (str_eq sig.name "auth") && is_in service_id s.needs_auth)) [
          | inl shut ↦ ground (
            arith,
            e,
            found,
            shut,
            is_error-of_error 1 "You must authenticate before selecting a service!",
          )
          | inr open_ ↦
              perform-still_waits s t srv id service_id j sig args r
                (ground (arith, e, found, open_))
        ]
  ]
