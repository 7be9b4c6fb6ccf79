-- ===== src/Instance.antt =====
-- lib/serverprotocolinstancebase.cpp: the server's end of a connection, which keeps the services of
-- a client and calls their functions. A ServiceProxy is the number that the server gave out, and a
-- QSharedPointer to one the same number, 0 for null. `none` is a fault: an index out of range.
pub mod Gate
pub mod Bypass
use qt_rpc.Base.{
  ℕ, ◌+◌, ◌%◌, ◌^◌, String, Bool, true, false, not, ◌&&◌, ◌||◌, Option, none, some, List, [], ◌∷◌,
  ◌++◌, str_eq, ltb, ◌==◌, if◌then◌else◌, length,
}
use qt_rpc.Base.Table.{lookup, insert, keys, is_in}
use qt_rpc.Qt.{Qt}
use qt_rpc.Signature
use qt_rpc.Signature.{Signature}
use qt_rpc.ReturnValue
use qt_rpc.ReturnValue.{ReturnValue}
use qt_rpc.Message.{Message}
use qt_rpc.Token.{Heap, AuthToken, of_login, is_default}
use qt_rpc.Server.{Server, Factory, request_service}

-- The services' own code, which may write into the tokens it is given: ServiceProxy::auth, which a
-- service overrides, and ServiceProxy::callFunction, which also sees the id of the current function.
-- What they do to the connection itself is not modelled.
pub record Services (V : Type 0) : Type 0 where
  pub auth : ℕ → AuthToken → Heap V → ReturnValue V × Heap V
  pub call : ℕ → ℕ → Signature → List V → Heap V → ReturnValue V × Heap V

-- ServerProtocolInstanceBase::ReplySlot
pub record ReplySlot : Type 0 where
  pub object : ℕ
  pub slot : Signature

-- ServerProtocolInstanceBasePrivate, with the token that each service keeps and the data of all
-- tokens
pub record Instance (V : Type 0) : Type 0 where
  pub server : Server
  pub service_name : String
  pub services : List (ℕ × ℕ)
  pub queue : List (ℕ × ReplySlot)
  pub needs_auth : List ℕ
  pub current_id : ℕ
  pub current_service_id : ℕ
  pub current_function_id : ℕ
  pub default_token : AuthToken
  pub tokens : List (ℕ × AuthToken)
  pub heap : Heap V

-- ServerProtocolInstanceBase(Server*, QObject*), where `token` is the new connection's default one
unfoldable pub connection : {V : Type 0} → Server → AuthToken → Heap V → Instance V
connection server token heap = record {
  server = server;
  service_name = "";
  services = [];
  queue = [];
  needs_auth = [];
  current_id = 0;
  current_service_id = 0;
  current_function_id = 0;
  default_token = token;
  tokens = [];
  heap = heap;
}

-- needsAuth.removeAll(id)
unfoldable pub remove_all : ℕ → List ℕ → List ℕ
remove_all id [] = []
remove_all id (j ∷ js) = let rest = remove_all id js in if j == id then rest else j ∷ rest

-- services.key(srv): the first key of this value
unfoldable pub key? : ℕ → List (ℕ × ℕ) → Option ℕ
key? srv [] = none
key? srv ((id, s) ∷ m) = if s == srv then some id else key? srv m

abbrev pub next_service : {V : Type 0} → Instance V → ℕ
next_service s = (s.current_service_id + 1) % 2 ^ 32

-- an argument type that takes a token
abbrev pub takes_token : String → Bool
takes_token a = str_eq a "AuthToken" || str_eq a "QtRpc::AuthToken"

module _ {V : Type 0} (q : Qt V) where
  -- service(), service(quint32 id)
  unfoldable pub first_service : Instance V → Option ℕ
  unfolding lookup
  first_service s = elim s.services [
    | [] ↦ none
    | _ ∷ _ ↦ lookup (q.begin (keys s.services)) s.services
  ]

  unfoldable pub service : Instance V → ℕ → Option ℕ
  unfolding first_service lookup
  service s id = if id == 0 then first_service s else lookup id s.services

  -- nextId()
  unfoldable pub next_id : Instance V → ℕ × Instance V
  next_id s = let id = (s.current_id + 1) % 2 ^ 32 in (id, record s { current_id = id })

  abbrev pub no_service : String → ReturnValue V
  no_service name =
      ReturnValue.of_error q 1 (q.complaint "Received service template object was null ()" name)

  -- the part that both getServiceObject share: a new service under a new id
  unfoldable pub add_service : Instance V → String → Option ℕ × Instance V
  unfolding insert
  add_service s name =
      let (found, server) = request_service s.server name in
      let s : Instance V = record s { service_name = name; server = server } in
      elim found [
        | none ↦ (none, s)
        | some (srv, f) ↦ (
          some srv,
          record s {
            current_service_id = next_service s;
            services = insert (next_service s) srv s.services;
          },
        )
      ]

  -- getServiceObject(QString name, QString username, QString pass), behind the shared part
  unfoldable pub log_in :
      Services V → String → String → String → Option ℕ × Instance V → ReturnValue V × Instance V
  log_in services name username pass (none, t) = (no_service name, t)
  log_in services name username pass (some srv, t) =
      let (token, heap) = of_login q t.heap username pass in
      let (ret, heap) = services.auth srv token heap in
      (
        if not (ReturnValue.is_error ret)
            then ReturnValue.set_service_id ret t.current_service_id
            else ret,
        record t { heap = heap },
      )

  unfoldable pub get_service_login :
      Services V → Instance V → String → String → String → ReturnValue V × Instance V
  unfolding add_service log_in
  get_service_login services s name username pass =
      log_in services name username pass (add_service s name)

  -- getServiceObject(QString name), behind the shared part
  unfoldable pub wait_for_auth : String → Option ℕ × Instance V → ReturnValue V × Instance V
  wait_for_auth name (none, t) = (no_service name, t)
  wait_for_auth name (some srv, t) = (
    ReturnValue.set_service_id (ReturnValue.empty q) t.current_service_id,
    record t { needs_auth = t.needs_auth ++ t.current_service_id ∷ [] },
  )

  unfoldable pub get_service : Instance V → String → ReturnValue V × Instance V
  unfolding add_service wait_for_auth
  get_service s name = wait_for_auth name (add_service s name)

  -- the loop that puts the connection's token in place of each default token
  unfoldable pub fill_tokens : Heap V → AuthToken → List String → List V → Option (List V)
  fill_tokens h token [] args = some args
  fill_tokens h token (a ∷ types) [] =
      let rest = fill_tokens h token types [] in if takes_token a then none else rest
  fill_tokens h token (a ∷ types) (v ∷ args) = elim (fill_tokens h token types args) [
    | none ↦ none
    | some rest ↦
        some ((if takes_token a && is_default h (q.to_token v) then q.of_token token else v) ∷ rest)
  ]

  -- services.key(srv, -1), compared with -1
  unfoldable pub known_id : ℕ → List (ℕ × ℕ) → Option ℕ
  unfolding key?
  known_id srv m = elim (key? srv m) [
    | none ↦ none
    | some id ↦ if id == 0xffff_ffff then none else some id
  ]

  -- parseReturn(ReturnValue&): a service that is returned gets an id, unless it has one
  unfoldable pub parse_return : Instance V → ReturnValue V → ReturnValue V × Instance V
  unfolding known_id insert
  parse_return s ret = elim ret.type [
    | ReturnValue.service ↦
        let srv = if ret.held == 0 then ret.raw_service else ret.held in
        elim (known_id srv s.services) [
          | some id ↦ (record ret { held = srv; service_id = id }, s)
          | none ↦ (
            record ret { held = srv; service_id = next_service s },
            record s {
              current_service_id = next_service s;
              services = insert (next_service s) srv s.services;
            },
          )
        ]
    | _ ↦ (ret, s)
  ]

  -- the end of callFunction, behind the call: a successful `auth` opens the service
  unfoldable pub after_call :
      Instance V → ℕ → ℕ → Signature → List V → ReturnValue V → Option (Instance V)
  unfolding remove_all insert
  after_call s srv service_id sig args ret =
      if str_eq sig.name "auth" && not (ReturnValue.is_error ret)
      then elim args [
        | [] ↦ none
        | a ∷ _ ↦ some (record s {
          needs_auth = remove_all service_id s.needs_auth;
          tokens = insert srv (q.to_token a) s.tokens;
        })
      ]
      else some s

  -- the part of callFunction behind the rewriting of `auth`
  unfoldable pub invoke :
      Services V → Instance V → ℕ → ℕ → ℕ → Signature → List V → Option (ReturnValue V × Instance V)
  unfolding fill_tokens after_call parse_return
  invoke services s srv id service_id sig args =
      elim (fill_tokens s.heap s.default_token sig.args args) [
        | none ↦ none
        | some args ↦
            let (ret, heap) = services.call id srv sig args s.heap in
            let t : Instance V = record s { heap = heap } in
            elim (after_call t srv service_id sig args ret) [
              | none ↦ none
              | some u ↦ some (parse_return (record u { current_function_id = 0 }) ret)
            ]
      ]

  -- the part of callFunction behind its two tests
  unfoldable pub perform :
      Services V → Instance V → ℕ → ℕ → ℕ → Signature → List V → Option (ReturnValue V × Instance V)
  unfolding invoke
  perform services s srv id service_id sig args =
      if Signature.equal sig (record { name = "auth"; args = "QString" ∷ "QString" ∷ [] })
      then elim args [
        | user ∷ pass ∷ _ ↦
            let (token, heap) = of_login q s.heap (q.to_text user) (q.to_text pass) in
            invoke services (record s { heap = heap }) srv id service_id
              (record { name = "auth"; args = "AuthToken" ∷ [] }) (q.of_token token ∷ [])
        | _ ↦ some (ReturnValue.of_error q 1 "Not enough paramters for that signature", s)
      ]
      else invoke services s srv id service_id sig args

  -- callFunction(quint32 id, quint32 serviceId, Signature, Arguments)
  unfoldable pub call_function :
      Services V → Instance V → ℕ → ℕ → Signature → List V → Option (ReturnValue V × Instance V)
  unfolding service perform
  call_function services s id service_id sig args = elim (service s service_id) [
    | none ↦ some (ReturnValue.of_error q 1 "The service object does not exist", s)
    | some srv ↦
        if not (str_eq sig.name "auth") && is_in service_id s.needs_auth
        then some (ReturnValue.of_error q 1 "You must authenticate before selecting a service!", s)
        else perform services s srv id service_id sig args
  ]

  -- serviceId(ServiceProxy*)
  unfoldable pub service_id : Instance V → ℕ → ℕ
  unfolding key?
  service_id s srv = elim (key? srv s.services) [ none ↦ 0 | some id ↦ id ]

  -- callFunction(const Message&)
  unfoldable pub call_message :
      Services V → Instance V → Message V → Option (ReturnValue V × Instance V)
  unfolding call_function
  call_message services s msg = call_function services s msg.id msg.service msg.func msg.args
