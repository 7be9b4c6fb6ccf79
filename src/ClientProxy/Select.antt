-- ===== src/ClientProxy/Select.antt =====
-- lib/clientproxy.cpp: how a proxy gets and selects a service, by calls that wait for their return.
use qt_rpc.Base.{String, not, Option, none, some, List, [], ◌∷◌, ◌==◌, if◌then◌else◌}
use qt_rpc.Qt.{Qt}
use qt_rpc.Signature.{Signature}
use qt_rpc.ReturnValue
use qt_rpc.ReturnValue.{ReturnValue}
use qt_rpc.Token
use qt_rpc.Token.{
  AuthToken, Heap, client_contains, client_insert, client_remove, client_entry, is_default,
}
use qt_rpc.ClientProxy.{World, Env, allocate, register, connection_call, service_call}
use qt_rpc.ClientProxy.Sharer.{
  Returned, ClientProxy, connection_of, set_heap, parse_return, drop_service, take_service,
  assign_return,
}

abbrev pub no_args : String → Signature
no_args name = record { name = name; args = [] }

abbrev pub plain : {V : Type 0} → ReturnValue V → Returned V
plain ret = record { ret = ret; service = none }

module _ {V B : Type 0} where
  -- the data of the client in a token: clientData()[key] = value
  abbrev pub token_insert : World V B → AuthToken → String → V → World V B
  token_insert w token key v = set_heap w (client_insert w.heap token key v)

  -- the token of a request, or the connection's in place of the default token
  abbrev pub own_token : World V B → ClientProxy V → AuthToken → AuthToken
  own_token w p token = if is_default w.heap token then (connection_of w p).token else token

module _ {V B : Type 0} (q : Qt V) (env : Env V B) where
  -- service << token.clientData()["username"] << token.clientData()["password"]
  unfoldable pub login_args : World V B → String → AuthToken → List V × World V B
  unfolding client_entry
  login_args w service token =
      let (username, h) = client_entry q.null w.heap token "username" in
      let (password, h) = client_entry q.null h token "password" in
      (q.of_text service ∷ username ∷ password ∷ [], set_heap w h)

  -- the service 0 of a server of version 0, which becomes the service of the proxy
  unfoldable pub take_original : World V B → ClientProxy V → World V B × ClientProxy V
  unfolding allocate register take_service
  take_original w p =
      let (a, w) = allocate w 0 p.connection in take_service q env (register w p.connection 0 a) p a

  -- getService(QString, AuthToken) behind selectService(QString, QString, QString)
  unfoldable pub got_original :
      World V B → ClientProxy V → Returned V → Returned V × World V B × ClientProxy V
  unfolding take_original
  got_original w p r =
      let (w, p) = if ReturnValue.is_error r.ret then (w, p) else take_original w p in
      (r, token_insert w (connection_of w p).token "auth_return" (env.of_return r.ret), p)

  -- the same behind the answer of auth(QtRpc::AuthToken)
  unfoldable pub authenticated :
      World V B → ClientProxy V → Returned V → Returned V → Returned V × World V B × ClientProxy V
  authenticated w p r r2 =
      if ReturnValue.is_error r2.ret then (r2, drop_service q env w r.service, p) else (
        r,
        token_insert (drop_service q env w r2.service) (connection_of w p).token "auth_return"
            (env.of_return r2.ret),
        p,
      )

  abbrev pub no_data : Returned V
  no_data =
      plain (ReturnValue.of_error q 1 "Failed to fetch the service data from the ReturnValue!")

  -- the same behind selectService(QString)
  unfoldable pub got_service :
      World V B → ClientProxy V → AuthToken → Returned V → Returned V × World V B × ClientProxy V
  unfolding authenticated parse_return service_call
  got_service w p token r =
      if not (ReturnValue.is_service r.ret)
      then (plain (ReturnValue.of_error q 1 "Failed to get service object from server"), w, p)
      else elim r.service [
        | none ↦ (no_data, w, p)
        | some a ↦ elim (w.service_at a) [
          | none ↦ (no_data, w, p)
          | some d ↦
              let (ret, w) =
                service_call q env w d (record { name = "auth"; args = "QtRpc::AuthToken" ∷ [] })
                  (q.of_token token ∷ []) in
              let (r2, w) = parse_return q env w p ret in authenticated w p r r2
        ]
      ]

  -- getService(QString, AuthToken)
  unfoldable pub get_service :
      World V B → ClientProxy V → String → AuthToken → Returned V × World V B × ClientProxy V
  unfolding connection_call parse_return login_args got_original got_service
  get_service w p service token =
      let (ret, w) = connection_call q env w p.connection (no_args "version") [] in
      if ReturnValue.is_error ret
      then (plain ret, w, p)
      else if q.to_uint ret.value == 0
      then (let (args, w) = login_args w service (own_token w p token) in
          let (ret, w) =
            connection_call q env w p.connection
              (record { name = "selectService"; args = "QString" ∷ "QString" ∷ "QString" ∷ [] })
              args in
          let (r, w) = parse_return q env w p ret in got_original w p r)
      else (let (ret, w) =
            connection_call q env w p.connection
              (record { name = "selectService"; args = "QString" ∷ [] }) (q.of_text service ∷ []) in
          let (r, w) = parse_return q env w p ret in got_service w p token r)

  -- selectService(QString, AuthToken)
  unfoldable pub select_service :
      World V B
      → ClientProxy V
      → String
      → AuthToken
      → Option (Returned V × World V B × ClientProxy V)
  unfolding get_service assign_return
  select_service w p service token =
      let (r, w, p) = get_service w p service token in
      if ReturnValue.is_error r.ret
      then some (r, w, p)
      else elim (assign_return q env w p r) [ none ↦ none | some (w, p) ↦ some (r, w, p) ]

  -- selectService(QString)
  unfoldable pub select_default :
      World V B → ClientProxy V → String → Option (Returned V × World V B × ClientProxy V)
  unfolding select_service
  select_default w p service =
      let (token, h) = Token.default_token w.heap in select_service (set_heap w h) p service token
