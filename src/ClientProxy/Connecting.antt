-- ===== src/ClientProxy/Connecting.antt =====
-- lib/clientproxy.cpp: selectService and connect with a slot for the return, and the slots at which
-- the returns of their calls arrive.
use qt_rpc.Base.{ℕ, String, false, Option, none, some, [], ◌∷◌, if◌then◌else◌}
use qt_rpc.Base.Table.{remove, insert}
use qt_rpc.Qt.{Qt}
use qt_rpc.ReturnValue
use qt_rpc.ReturnValue.{ReturnValue}
use qt_rpc.Token
use qt_rpc.Token.{AuthToken, client_contains, client_remove, client_entry}
use qt_rpc.ClientProxy.{disconnected, connected, World, Env, connection_call_async}
use qt_rpc.ClientProxy.Sharer.{
  Returned, ClientProxy, Url, value, connection_of, set_state, set_heap, assign_return,
}
use qt_rpc.ClientProxy.Select.{plain, token_insert}
use qt_rpc.ClientProxy.Connect.{begin_connect, connect_call, address}
use qt_rpc.ClientProxy.Request.{
  asked, Stepped, send_return_value, answer_connect, returns_to, get_service_async,
}

module _ {V B : Type 0} (q : Qt V) (env : Env V B) where
  -- selectService(QObject *, const char *, QString, AuthToken)
  unfoldable pub select_service_async :
      World V B
      → ClientProxy V
      → ℕ
      → String
      → String
      → AuthToken
      → ReturnValue V × World V B × ClientProxy V
  unfolding get_service_async insert
  select_service_async w p object name service token =
      let (ret, w, p) =
        get_service_async q env w p p.this "1selectServiceCompleted(uint, ReturnValue)" service
          token in
      if ReturnValue.is_error ret then (ret, w, p) else (
        ret,
        w,
        record p {
          select_service_objects =
              insert (q.to_uint ret.value)
                (record { slot = name; object = object; id = q.to_uint ret.value })
                p.select_service_objects;
        },
      )

  -- selectServiceCompleted(uint, ReturnValue)
  unfoldable pub select_service_completed :
      World V B → ClientProxy V → ℕ → Returned V → Option (Stepped V B)
  unfolding assign_return value remove send_return_value
  select_service_completed w p id r =
      elim (if ReturnValue.is_error r.ret then some (w, p) else assign_return q env w p r) [
        | none ↦ none
        | some (w, p) ↦ some (
          w,
          record p { select_service_objects = remove id p.select_service_objects },
          send_return_value (value id p.select_service_objects) r,
        )
      ]

  -- connect(QUrl, QObject *, const char *, const AuthToken &) with an object
  unfoldable pub connect_async :
      (Url → V)
      → World V B
      → ClientProxy V
      → Url
      → ℕ
      → String
      → AuthToken
      → ReturnValue V × World V B × ClientProxy V
  unfolding begin_connect connection_call_async insert
  connect_async of_url w p url object name token =
      let (failed, w, p) = begin_connect q env of_url w p url token in
      elim failed [
        | some ret ↦ (ret, w, p)
        | none ↦
            let w = token_insert w (connection_of w p).token "setDefaultToken" (q.of_bool false) in
            let (ret, w) =
              connection_call_async q env w p.connection p.this (returns_to "connectCompleted")
                connect_call (of_url (address url) ∷ []) in
            if ReturnValue.is_error ret then (ret, set_state w p disconnected, p) else (
              ret,
              w,
              record p {
                connect_objects =
                    insert (q.to_uint ret.value)
                      (record { slot = name; object = object; id = q.to_uint ret.value })
                      p.connect_objects;
              },
            )
      ]

  -- clientData().remove(key) on the token of the connection
  abbrev pub token_remove : World V B → ClientProxy V → String → World V B
  token_remove w p key = set_heap w (client_remove w.heap (connection_of w p).token key)

  -- the end of a connect that failed
  unfoldable pub give_up : World V B → ClientProxy V → ℕ → Returned V → Stepped V B
  unfolding answer_connect
  give_up w p id r =
      let w = token_remove (token_remove w p "setDefaultToken") p "service" in
      answer_connect (set_state w p disconnected) p id r

  -- the table of the objects that wait, after another call was made
  unfoldable pub wait_on : ℕ → ReturnValue V × World V B × ClientProxy V → Stepped V B
  unfolding give_up value insert remove
  wait_on id (ret, w, p) = if ReturnValue.is_error ret then give_up w p id (plain ret) else (
    w,
    record p {
      connect_objects =
          insert (q.to_uint ret.value) (value id p.connect_objects) (remove id p.connect_objects);
    },
    asked (q.to_uint ret.value) ∷ [],
  )

  -- the call of setDefaultToken, and the selection of the service of the URL
  unfoldable pub call_token : World V B → ClientProxy V → ReturnValue V × World V B × ClientProxy V
  unfolding connection_call_async
  call_token w p =
      let w = token_remove w p "setDefaultToken" in
      let (ret, w) =
        connection_call_async q env w p.connection p.this (returns_to "connectCompleted")
          (record { name = "setDefaultToken"; args = "AuthToken" ∷ [] })
          (q.of_token (connection_of w p).token ∷ []) in
      (ret, w, p)

  unfoldable pub call_select : World V B → ClientProxy V → ReturnValue V × World V B × ClientProxy V
  unfolding select_service_async client_entry
  call_select w p =
      let service = q.to_text (client_entry q.null w.heap (connection_of w p).token "service").0 in
      let w = token_remove w p "service" in
      let (token, h) = Token.default_token w.heap in
      select_service_async (set_heap w h) p p.this "1connectCompleted(uint, ReturnValue)" service
        token

  -- connectCompleted(uint, ReturnValue)
  unfoldable pub connect_completed : World V B → ClientProxy V → ℕ → Returned V → Stepped V B
  unfolding give_up wait_on call_token call_select client_contains answer_connect
  connect_completed w p id r =
      let token = (connection_of w p).token in
      if ReturnValue.is_error r.ret
      then give_up w p id r
      else if client_contains w.heap token "setDefaultToken"
      then wait_on id (call_token w p)
      else if client_contains w.heap token "service"
      then wait_on id (call_select w p)
      else answer_connect (set_state w p connected) p id r
