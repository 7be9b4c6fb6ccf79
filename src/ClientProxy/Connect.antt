-- ===== src/ClientProxy/Connect.antt =====
-- lib/clientproxy.cpp: how a proxy connects and disconnects.
use qt_rpc.Base.{
  ◌+◌, String, Bool, false, not, Option, none, some, [], ◌∷◌, str_eq, ltb, if◌then◌else◌,
}
use qt_rpc.Qt.{Qt}
use qt_rpc.Signature
use qt_rpc.Signature.{Signature}
use qt_rpc.ReturnValue
use qt_rpc.ReturnValue.{ReturnValue}
use qt_rpc.Token
use qt_rpc.Token.{
  AuthToken, Heap, client_contains, client_insert, client_remove, client_entry, is_default,
}
use qt_rpc.ClientProxy.{
  disconnected, connecting, connected, is_disconnected, Connection, World, Env, put_connection,
  connection_call, connection_call_async,
}
use qt_rpc.ClientProxy.Sharer.{
  Returned, ClientProxy, Url, split_path, connection_of, set_state, set_heap,
}
use qt_rpc.ClientProxy.Select.{token_insert, plain, no_args, select_default}

abbrev pub is_open : {B : Type 0} → Connection B → Bool
is_open c = elim c.bus [ none ↦ false | some b ↦ not (is_disconnected c.state) ]

abbrev pub connect_call : Signature
connect_call = record { name = "connect"; args = "QUrl" ∷ [] }

abbrev pub address : Url → Url
address url = record url { path = (split_path url).1 }

module _ {V B : Type 0} where
  -- the new connection, whose bus is null, and the name of the service put into its token
  unfoldable pub renew : World V B → ClientProxy V → Url → AuthToken → World V B × ClientProxy V
  renew w p url token =
      let c : Connection B = record {
        state = connecting;
        bus = none;
        registered = [];
        token = token;
      } in
      (
        record (put_connection w w.fresh c) { fresh = w.fresh + 1 },
        record p { connection = w.fresh },
      )

  -- disconnect(), and what disconnectedSlot does but the call
  unfoldable pub forget_bus : World V B → ClientProxy V → World V B
  forget_bus w p =
      put_connection w p.connection
        (record (connection_of w p) { bus = none; state = disconnected })

module _ {V B : Type 0} (q : Qt V) (env : Env V B) (of_url : Url → V) where
  -- connect(QUrl): the token of the user name and the password
  unfoldable pub url_token : World V B → Url → AuthToken × World V B
  unfolding client_insert
  url_token w url =
      let (token, h) = Token.new w.heap in
      let h =
        if str_eq url.user_name ""
        then h
        else client_insert h token "username" (q.of_text url.user_name) in
      let h =
        if str_eq url.password ""
        then h
        else client_insert h token "password" (q.of_text url.password) in
      (token, set_heap w h)

  unfoldable pub note_service : World V B → ClientProxy V → Option String → World V B
  note_service w p none = w
  note_service w p (some service) =
      token_insert w (connection_of w p).token "service" (q.of_text service)

  -- connect(QUrl, QObject *, const char *, const AuthToken &) up to the call of `connect`: an error,
  -- or the address that is called
  unfoldable pub begin_connect :
      World V B
      → ClientProxy V
      → Url
      → AuthToken
      → Option (ReturnValue V) × World V B × ClientProxy V
  unfolding renew note_service split_path
  begin_connect w p url token =
      let (w, p) = renew w p url token in
      if str_eq url.scheme ""
      then (
        some (ReturnValue.of_error q 1 "You must specify a protocol in the url."),
        set_state w p disconnected,
        p,
      )
      else (let w = note_service w p (split_path url).0 in
          elim (env.instance_of url.scheme) [
            | none ↦ (
              some (ReturnValue.of_error q 2 "Protocol not found."),
              set_state w p disconnected,
              p,
            )
            | some b ↦ (
              none,
              put_connection w p.connection (record (connection_of w p) { bus = some b }),
              p,
            )
          ])

  -- the end of the synchronous `connect`: the service named in the URL
  unfoldable pub select_named :
      World V B → ClientProxy V → ReturnValue V → Option (Returned V × World V B × ClientProxy V)
  unfolding select_default client_contains client_entry client_remove
  select_named w p ret =
      let token = (connection_of w p).token in
      if client_contains w.heap token "service"
      then select_default q env (set_heap w (client_remove w.heap token "service")) p
          (q.to_text (client_entry q.null w.heap token "service").0)
      else some (plain ret, w, p)

  -- the synchronous `connect` behind the version
  unfoldable pub send_token :
      World V B → ClientProxy V → ReturnValue V → Option (Returned V × World V B × ClientProxy V)
  unfolding connection_call select_named
  send_token w p version =
      if ltb 0 (q.to_uint version.value)
      then (let (ret, w) =
            connection_call q env w p.connection
              (record { name = "setDefaultToken"; args = "AuthToken" ∷ [] })
              (q.of_token (connection_of w p).token ∷ []) in
          if ReturnValue.is_error ret then some (plain ret, w, p) else select_named w p ret)
      else select_named w p version

  -- connect(QString, const AuthToken &), and connect(QUrl, 0, "", defaultToken)
  unfoldable pub connect :
      World V B → ClientProxy V → Url → AuthToken → Option (Returned V × World V B × ClientProxy V)
  unfolding begin_connect connection_call send_token
  connect w p url token =
      let (failed, w, p) = begin_connect w p url token in
      elim failed [
        | some ret ↦ some (plain ret, w, p)
        | none ↦
            let (ret, w) =
              connection_call q env w p.connection connect_call (of_url (address url) ∷ []) in
            if ReturnValue.is_error ret
            then some (plain ret, set_state w p disconnected, p)
            else (let w = set_state w p connected in
                let (ret, w) = connection_call q env w p.connection (no_args "version") [] in
                if ReturnValue.is_error ret then some (plain ret, w, p) else send_token w p ret)
      ]

  unfoldable pub disconnect : World V B → ClientProxy V → World V B
  unfolding connection_call_async forget_bus
  disconnect w p =
      if not (is_open (connection_of w p))
      then w
      else (let w = set_state w p disconnected in
          let (ret, w) =
            connection_call_async q env w p.connection 0 Signature.empty (no_args "disconnect")
              [] in
          forget_bus w p)

  unfoldable pub disconnected_slot : World V B → ClientProxy V → World V B
  unfolding forget_bus
  disconnected_slot w p = if not (is_open (connection_of w p)) then w else forget_bus w p

  -- listServices(), listFunctions(QString), listCallbacks(QString), listEvents(QString)
  unfoldable pub list_services : World V B → ClientProxy V → ReturnValue V × World V B
  unfolding connection_call
  list_services w p = connection_call q env w p.connection (no_args "listServices") []

  unfoldable pub list_of : String → World V B → ClientProxy V → String → ReturnValue V × World V B
  unfolding connection_call
  list_of name w p service =
      connection_call q env w p.connection (record { name = name; args = "QString" ∷ [] })
        (q.of_text service ∷ [])
