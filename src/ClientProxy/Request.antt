-- ===== src/ClientProxy/Request.antt =====
-- lib/clientproxy.cpp: getService, selectService and connect with a slot for the return, and the
-- slots at which the returns of their calls arrive. `none` is a null pointer that is followed.
pub mod Alive
pub mod Steps
pub mod Follow
use qt_rpc.Base.{
  ℕ, zero, suc, ◌+◌, String, Bool, true, false, not, ◌||◌, Option, none, some, List, [], ◌∷◌, ◌++◌,
  str_eq, ◌==◌, if◌then◌else◌,
}
use qt_rpc.Base.Table.{lookup, remove, insert}
use qt_rpc.Qt.{Qt}
use qt_rpc.Signature.{Signature}
use qt_rpc.ReturnValue
use qt_rpc.ReturnValue.{ReturnValue}
use qt_rpc.Token
use qt_rpc.Token.{AuthToken, client_contains, client_insert, client_remove, client_entry}
use qt_rpc.ClientProxy.{
  State, disconnected, connected, ServiceData, World, Env, connection_call_async,
  service_call_async,
}
use qt_rpc.ClientProxy.Sharer.{
  ObjectSlot, no_slot, Returned, Status, ClientProxy, Url, value, connection_of, set_state,
  set_heap, parse_return, assign_return,
}
use qt_rpc.ClientProxy.Select.{no_args, plain, token_insert, own_token, login_args, take_original}

-- What a step does: the bus gives an id to a call whose return comes back to the proxy, or a return
-- is sent to an object's slot.
pub data Deed (V : Type 0) : Type 0 where
  asked : ℕ → Deed V
  sent : ObjectSlot → Returned V → Deed V

-- sendReturnValue(const ObjectSlot &, const ReturnValue &)
unfoldable pub send_return_value : {V : Type 0} → ObjectSlot → Returned V → List (Deed V)
send_return_value obj r = if obj.object == 0 || str_eq obj.slot "" then [] else sent obj r ∷ []

abbrev pub returns_to : String → Signature
returns_to name = record { name = name; args = "uint" ∷ "ReturnValue" ∷ [] }

abbrev pub is_original : {V : Type 0} → Status V → Bool
is_original st = elim st.version [ none ↦ false | some v ↦ v == 0 ]

abbrev pub next_step : {V : Type 0} → Status V → Status V
next_step st = record st { step = suc st.step }

abbrev pub Stepped : Type 0 → Type 0 → Type 0
Stepped V B = World V B × ClientProxy V × List (Deed V)

module _ {V B : Type 0} where
  -- ObjectSlot obj = getServiceObjects.take(id); getServiceStatus.remove(obj.id); sendReturnValue
  unfoldable pub answer : World V B → ClientProxy V → ℕ → Returned V → Stepped V B
  unfolding value remove send_return_value
  answer w p id r =
      let obj = value id p.get_service_objects in
      (
        w,
        record p {
          get_service_objects = remove id p.get_service_objects;
          status = remove obj.id p.status;
        },
        send_return_value obj r,
      )

  -- the same once more, when the request was answered before
  unfoldable pub again : ℕ → Returned V → Stepped V B → Stepped V B
  unfolding answer
  again id r (w, p, done) = let (w, p, more) = answer w p id r in (w, p, done ++ more)

  unfoldable pub keep_status : ℕ → Status V → Stepped V B → Stepped V B
  unfolding insert
  keep_status id st (w, p, done) = (w, record p { status = insert id st p.status }, done)

  -- the connection's table of connect: take(id), and sendReturnValue
  unfoldable pub answer_connect : World V B → ClientProxy V → ℕ → Returned V → Stepped V B
  unfolding value remove send_return_value
  answer_connect w p id r = (
    w,
    record p { connect_objects = remove id p.connect_objects },
    send_return_value (value id p.connect_objects) r,
  )

module _ {V B : Type 0} (q : Qt V) (env : Env V B) where
  -- getService(QObject *, const char *, QString, AuthToken)
  unfoldable pub get_service_async :
      World V B
      → ClientProxy V
      → ℕ
      → String
      → String
      → AuthToken
      → ReturnValue V × World V B × ClientProxy V
  unfolding connection_call_async insert
  get_service_async w p object name service token =
      let (ret, w) =
        connection_call_async q env w p.connection p.this (returns_to "getServiceCompleted")
          (no_args "version") [] in
      if ReturnValue.is_error ret
      then (ret, w, p)
      else (let id = q.to_uint ret.value in
          (
            ret,
            w,
            record p {
              status =
                  insert id
                    (record {
                      step = 0;
                      token = token;
                      service = service;
                      version = none;
                      service_return = none;
                    })
                    p.status;
              get_service_objects =
                  insert id (record { slot = name; object = object; id = id })
                    p.get_service_objects;
            },
          ))

  -- getServiceCompleted behind its `switch`, when the request was not answered in it
  unfoldable pub move_on :
      ClientProxy V → ℕ → ℕ → Status V → ReturnValue V × World V B → Stepped V B
  unfolding answer keep_status insert remove value
  move_on p id function_id st (ret, w) =
      if ReturnValue.is_error ret
      then keep_status function_id (next_step st) (answer w p id (plain ret))
      else keep_status function_id (next_step st) (
        w,
        record p {
          get_service_objects =
              insert (q.to_uint ret.value) (value id p.get_service_objects)
                (remove id p.get_service_objects);
        },
        asked (q.to_uint ret.value) ∷ [],
      )

  abbrev pub call_back :
      World V B → ClientProxy V → String → List String → List V → ReturnValue V × World V B
  call_back w p name types args =
      connection_call_async q env w p.connection p.this (returns_to "getServiceCompleted")
        (record { name = name; args = types }) args

  -- case 1: the return of version()
  unfoldable pub step_version :
      World V B → ClientProxy V → ℕ → ℕ → Status V → ReturnValue V → Stepped V B
  unfolding move_on login_args connection_call_async
  step_version w p id function_id st ret =
      let st : Status V = record st { version = some (q.to_int ret.value) } in
      if is_original st
      then (let (args, w) = login_args q env w st.service (own_token w p st.token) in
          move_on p id function_id st
            (call_back w p "selectService" ("QString" ∷ "QString" ∷ "QString" ∷ []) args))
      else move_on p id function_id st
          (call_back w p "selectService" ("QString" ∷ []) (q.of_text st.service ∷ []))

  -- case 2: the return of selectService, from a server of version 0
  unfoldable pub step_original : World V B → ClientProxy V → ℕ → Status V → Returned V → Stepped V B
  unfolding take_original answer
  step_original w p id st r =
      let (w, p) = if ReturnValue.is_error r.ret then (w, p) else take_original q env w p in
      answer (token_insert w (own_token w p st.token) "auth_return" (env.of_return r.ret)) p id r

  -- getServiceData(ReturnValue)
  abbrev pub data_of : World V B → Returned V → Option ServiceData
  data_of w r = elim r.service [ none ↦ none | some a ↦ w.service_at a ]

  -- case 2, from the later versions; without a service the null pointer `data` is followed
  unfoldable pub step_service :
      World V B
      → ClientProxy V
      → ℕ
      → ℕ
      → Status V
      → Returned V
      → Option ServiceData
      → Option (Stepped V B)
  unfolding move_on service_call_async
  step_service w p id function_id st r none = none
  step_service w p id function_id st r (some d) =
      let call =
        service_call_async q env w d p.this (returns_to "getServiceCompleted")
          (record { name = "auth"; args = "QtRpc::AuthToken" ∷ [] }) (q.of_token st.token ∷ []) in
      some (move_on p id function_id (record st { service_return = some r }) call)

  -- case 3: the return of auth
  unfoldable pub step_auth : World V B → ClientProxy V → ℕ → Status V → Returned V → Stepped V B
  unfolding answer again
  step_auth w p id st r =
      let w' = token_insert w (own_token w p st.token) "auth_return" (env.of_return r.ret) in
      let kept : Returned V = elim st.service_return [
        | none ↦ plain (ReturnValue.empty q)
        | some k ↦ k
      ] in
      if ReturnValue.is_error r.ret then again id kept (answer w' p id r) else answer w' p id kept

  unfoldable pub step_at :
      ℕ → World V B → ClientProxy V → ℕ → ℕ → Status V → ReturnValue V → Option (Stepped V B)
  unfolding move_on step_version step_original step_service step_auth answer parse_return
  step_at zero w p id function_id st ret =
      some (move_on p id function_id st (call_back w p "version" [] []))
  step_at (suc zero) w p id function_id st ret = some (step_version w p id function_id st ret)
  step_at (suc (suc zero)) w p id function_id st ret =
      let (r, w) = parse_return q env w p ret in
      if is_original st
      then some (step_original w p id st r)
      else step_service w p id function_id st r (data_of w r)
  step_at (suc (suc (suc zero))) w p id function_id st ret =
      let (r, w) = parse_return q env w p ret in some (step_auth w p id st r)
  step_at (suc (suc (suc (suc n)))) w p id function_id st ret = some (
      answer w p id (
        plain (ReturnValue.of_error q 1 "Reached an known step in the service selecting process!")))

  -- the `switch`, for a request that has a status; the others start over, at the return of version()
  unfoldable pub step_found :
      World V B → ClientProxy V → ℕ → ReturnValue V → ℕ → Option (Status V) → Option (Stepped V B)
  unfolding step_at connection_call_async
  step_found w p id ret function_id none =
      let (ret, w) = call_back w p "version" [] [] in some (w, p, [])
  step_found w p id ret function_id (some st) = step_at st.step w p id function_id st ret

  -- getServiceCompleted(uint, ReturnValue)
  unfoldable pub get_service_completed :
      World V B → ClientProxy V → ℕ → ReturnValue V → Option (Stepped V B)
  unfolding answer value lookup step_found
  get_service_completed w p id ret =
      if ReturnValue.is_error ret
      then some (answer w p id (plain ret))
      else (let function_id = (value id p.get_service_objects).id in
          step_found w p id ret function_id (lookup function_id p.status))
