-- ===== src/ClientProxy/Sharer.antt =====
-- lib/clientproxy.cpp: a proxy, how it takes and leaves a service, and what it makes of a return value.
use qt_rpc.Base.{
  ℕ, ◌+◌, String, Option, none, some, List, str_eq, ltb, if◌then◌else◌, length, take, drop,
}
use qt_rpc.Base.Table.{lookup}
use qt_rpc.Base.Text.{chars, of_chars, index_of}
use qt_rpc.Qt.{Qt}
use qt_rpc.ReturnValue
use qt_rpc.ReturnValue.{ReturnValue}
use qt_rpc.Token.{AuthToken, Heap}
use qt_rpc.ClientProxy.{
  State, Connection, World, Env, ServiceData, put_connection, put_service, change, allocate,
  register, retain, release, add_proxy, remove_proxy,
}

-- ClientProxyPrivate::ObjectSlot; the null pointer is 0
pub record ObjectSlot : Type 0 where
  pub slot : String
  pub object : ℕ
  pub id : ℕ

abbrev pub no_slot : ObjectSlot
no_slot = record { slot = ""; object = 0; id = 0 }

-- a return value with its serviceData
pub record Returned (V : Type 0) : Type 0 where
  pub ret : ReturnValue V
  pub service : Option ℕ

-- what getServiceStatus keeps of a request: `step`, `token`, `service`, `version`, `service_return`
pub record Status (V : Type 0) : Type 0 where
  pub step : ℕ
  pub token : AuthToken
  pub service : String
  pub version : Option ℕ
  pub service_return : Option (Returned V)

-- ClientProxyPrivate, with the address of the proxy
pub record ClientProxy (V : Type 0) : Type 0 where
  pub this : ℕ
  pub connection : ℕ
  pub service : Option ℕ
  pub connect_objects : List (ℕ × ObjectSlot)
  pub function_objects : List (ℕ × ObjectSlot)
  pub get_service_objects : List (ℕ × ObjectSlot)
  pub select_service_objects : List (ℕ × ObjectSlot)
  pub status : List (ℕ × Status V)

-- QUrl
pub record Url : Type 0 where
  pub scheme : String
  pub path : String
  pub user_name : String
  pub password : String

-- objects.value(id) and objects.take(id)
unfoldable pub value : ℕ → List (ℕ × ObjectSlot) → ObjectSlot
unfolding lookup
value id m = elim (lookup id m) [ none ↦ no_slot | some o ↦ o ]

-- the service name in a path, and the path that is left
unfoldable pub split_path : Url → Option String × String
split_path url =
    if str_eq url.scheme "socket"
    then elim (index_of b':' (chars url.path)) [
      | none ↦ (none, url.path)
      | some i ↦
          (some (of_chars (drop (i + 1) (chars url.path))), of_chars (take i (chars url.path)))
    ]
    else (
      if ltb 1 (length (chars url.path)) then some (of_chars (drop 1 (chars url.path))) else none,
      "",
    )

module _ {V B : Type 0} where
  abbrev pub connection_of : World V B → ClientProxy V → Connection B
  connection_of w p = w.connection_at p.connection

  abbrev pub set_state : World V B → ClientProxy V → State → World V B
  set_state w p state =
      put_connection w p.connection (record (w.connection_at p.connection) { state = state })

  abbrev pub set_heap : World V B → Heap V → World V B
  set_heap w h = record w { heap = h }

  -- the service of the proxy goes away from it: removeProxy, then the shared pointer
  abbrev pub leave : World V B → ClientProxy V → World V B
  leave w p = elim p.service [ none ↦ w | some a ↦ change w a (remove_proxy p.this) ]

module _ {V B : Type 0} (q : Qt V) (env : Env V B) where
  -- the strong pointer of a weak one, which is null when the service is gone
  unfoldable pub lock_service :
      World V B → ReturnValue V → ℕ → Option ServiceData → Returned V × World V B
  lock_service w ret a none = (record { ret = ret; service = none }, w)
  lock_service w ret a (some d) = (
    record { ret = ret; service = some a },
    put_service w a (some (record d { references = d.references + 1 })),
  )

  -- the service of a return, by the address that is registered for its id
  unfoldable pub attach_service :
      World V B → ClientProxy V → ReturnValue V → Option ℕ → Returned V × World V B
  unfolding allocate register lock_service
  attach_service w p ret none =
      let (a, w) = allocate w ret.service_id p.connection in
      (record { ret = ret; service = some a }, register w p.connection ret.service_id a)
  attach_service w p ret (some a) = lock_service w ret a (w.service_at a)

  -- parseReturn(ReturnValue)
  unfoldable pub parse_return : World V B → ClientProxy V → ReturnValue V → Returned V × World V B
  unfolding lookup attach_service
  parse_return w p ret =
      if ReturnValue.is_service ret
      then attach_service w p ret (lookup ret.service_id (connection_of w p).registered)
      else (record { ret = ret; service = none }, w)

  abbrev pub drop_service : World V B → Option ℕ → World V B
  drop_service w none = w
  drop_service w (some a) = release q env w a

  -- service = data; service->addProxy(this)
  unfoldable pub take_service : World V B → ClientProxy V → ℕ → World V B × ClientProxy V
  unfolding change remove_proxy add_proxy release
  take_service w p a =
      let w = drop_service (leave w p) p.service in
      (change w a (add_proxy p.this), record p { service = some a })

  -- operator=(const ReturnValue &), for a proxy that was initialized
  unfoldable pub assign_return :
      World V B → ClientProxy V → Returned V → Option (World V B × ClientProxy V)
  unfolding take_service
  assign_return w p r =
      if ReturnValue.is_service r.ret
      then elim r.service [
        | none ↦ none
        | some a ↦ elim (w.service_at a) [
          | none ↦ none
          | some d ↦ some (take_service (retain w a) (record p { connection = d.connection }) a)
        ]
      ]
      else some (w, p)

  -- operator=(const ClientProxy &); `none` is the null service of `other` that is followed
  unfoldable pub assign :
      World V B → ClientProxy V → ClientProxy V → Option (World V B × ClientProxy V)
  unfolding take_service
  assign w p other = elim other.service [
    | none ↦ none
    | some a ↦ some (take_service (retain w a) (record p { connection = other.connection }) a)
  ]

  -- deselectService()
  unfoldable pub deselect_service : World V B → ClientProxy V → World V B × ClientProxy V
  unfolding change remove_proxy release
  deselect_service w p = (drop_service (leave w p) p.service, record p { service = none })
