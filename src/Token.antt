-- ===== src/Token.antt =====
-- lib/authtoken.cpp: a token is a handle on shared data, so that copies of it see one another's
-- writes. The heap maps handles to the data; handles from `fresh` on are not in use. Of the
-- lock of the data there is only where it blocks for ever or is destroyed while it is held.
pub mod Sharing
use qt_rpc.Base.{
  ℕ, suc, ◌+◌, String, Bool, true, false, Option, none, some, List, [], ◌∷◌, ◌++◌, str_eq, ◌==◌,
  if◌then◌else◌,
}
use qt_rpc.Qt.{Qt, Codec, Bytes}

-- A QVariantMap, in the order of an association list.
module _ {V : Type 0} where
  unfoldable pub value? : String → List (String × V) → Option V
  value? k [] = none
  value? k ((j, v) ∷ m) = if str_eq j k then some v else value? k m

  unfoldable pub remove : String → List (String × V) → List (String × V)
  remove k [] = []
  remove k ((j, v) ∷ m) = let rest = remove k m in if str_eq j k then rest else (j, v) ∷ rest

  unfoldable pub insert : String → V → List (String × V) → List (String × V)
  unfolding remove
  insert k v m = (k, v) ∷ remove k m

-- AuthTokenData
pub record TokenData (V : Type 0) : Type 0 where
  pub client : List (String × V)
  pub server : List (String × V)
  pub default_token : Bool

pub record Heap (V : Type 0) : Type 0 where
  pub cell : ℕ → TokenData V
  pub fresh : ℕ

abbrev pub AuthToken : Type 0
AuthToken = ℕ

unfoldable pub store : {V : Type 0} → Heap V → AuthToken → TokenData V → Heap V
store h t d = record h { cell = λ u. if t == u then d else h.cell u }

unfoldable pub allocate : {V : Type 0} → Heap V → TokenData V → AuthToken × Heap V
unfolding store
allocate h d = (h.fresh, record (store h h.fresh d) { fresh = h.fresh + 1 })

module _ {V : Type 0} where
  -- AuthToken(), with AuthTokenData()
  unfoldable pub new : Heap V → AuthToken × Heap V
  unfolding allocate
  new h = allocate h (record { client = []; server = []; default_token = false })

  -- AuthToken::defaultToken()
  unfoldable pub default_token : Heap V → AuthToken × Heap V
  unfolding allocate
  default_token h = allocate h (record { client = []; server = []; default_token = true })

  unfoldable pub is_default : Heap V → AuthToken → Bool
  is_default h t = (h.cell t).default_token

  -- clientValue, serverValue
  unfoldable pub client_value : Heap V → AuthToken → String → V → V
  client_value h t k d = elim (value? k (h.cell t).client) [ none ↦ d | some v ↦ v ]

  unfoldable pub server_value : Heap V → AuthToken → String → V → V
  server_value h t k d = elim (value? k (h.cell t).server) [ none ↦ d | some v ↦ v ]

  -- clientInsert, serverInsert
  unfoldable pub client_insert : Heap V → AuthToken → String → V → Heap V
  unfolding store insert
  client_insert h t k v = store h t (record (h.cell t) { client = insert k v (h.cell t).client })

  unfoldable pub server_insert : Heap V → AuthToken → String → V → Heap V
  unfolding store insert
  server_insert h t k v = store h t (record (h.cell t) { server = insert k v (h.cell t).server })

  -- clientData()[key], which inserts a null value for a missing key
  unfoldable pub client_entry : V → Heap V → AuthToken → String → V × Heap V
  unfolding value? client_insert
  client_entry null h t k = elim (value? k (h.cell t).client) [
    | none ↦ (null, client_insert h t k null)
    | some v ↦ (v, h)
  ]

  -- clientRemove, serverRemove
  unfoldable pub client_remove : Heap V → AuthToken → String → Heap V
  unfolding store remove
  client_remove h t k = store h t (record (h.cell t) { client = remove k (h.cell t).client })

  unfoldable pub server_remove : Heap V → AuthToken → String → Heap V
  unfolding store remove
  server_remove h t k = store h t (record (h.cell t) { server = remove k (h.cell t).server })

  -- clientContains, serverContains
  unfoldable pub client_contains : Heap V → AuthToken → String → Bool
  client_contains h t k = elim (value? k (h.cell t).client) [ none ↦ false | some v ↦ true ]

  unfoldable pub server_contains : Heap V → AuthToken → String → Bool
  server_contains h t k = elim (value? k (h.cell t).server) [ none ↦ false | some v ↦ true ]

  -- detach(), with AuthTokenData(const AuthTokenData&): that constructor does not set
  -- `defaultToken`, so its value is whatever `garbage` the memory holds. The result is the token's
  -- new handle. `shared` tells whether another token has the data: if not, the assignment destroys
  -- the mutex that the locker holds and unlocks afterwards, which is a fault, `none`.
  unfoldable pub detach : Bool → Bool → Heap V → AuthToken → Option (AuthToken × Heap V)
  unfolding allocate
  detach garbage shared h t =
      if shared then some (allocate h (record (h.cell t) { default_token = garbage })) else none

  -- copy(const AuthToken&). A token that shares its data with `other` locks its lock twice and
  -- waits for ever: `none`.
  unfoldable pub copy : Heap V → AuthToken → AuthToken → Option (Heap V)
  unfolding store
  copy h t other =
      if t == other
      then none
      else some (
          store h t
            (record (h.cell t) { server = (h.cell other).server; client = (h.cell other).client }))

module _ {V : Type 0} (q : Qt V) where
  -- AuthToken(const QString&, const QString&)
  unfoldable pub of_login : Heap V → String → String → AuthToken × Heap V
  unfolding allocate insert
  of_login h username password = allocate h (record {
    client = insert "password" (q.of_text password) (insert "username" (q.of_text username) []);
    server = [];
    default_token = false;
  })

  -- operator[]: a reference to the entry, which is made if it is missing
  unfoldable pub index : Heap V → AuthToken → String → V × Heap V
  unfolding server_insert
  index h t k = elim (value? k (h.cell t).server) [
    | none ↦ (q.null, server_insert h t k q.null)
    | some v ↦ (v, h)
  ]

  -- operator<< and operator>> of QDataStream; reading writes into the shared data
  unfoldable pub write : Heap V → AuthToken → Bytes
  write h t =
      q.flag.put (h.cell t).default_token
      ++ (q.entries.put (h.cell t).client ++ q.entries.put (h.cell t).server)

  unfoldable pub read : Heap V → AuthToken → Bytes → Heap V × Bytes
  unfolding store
  read h t b =
      let (flag, b) = q.flag.get b in
      let (client, b) = q.entries.get b in
      let (server, b) = q.entries.get b in
      (store h t (record { client = client; server = server; default_token = flag }), b)
