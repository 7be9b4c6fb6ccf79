-- ===== src/Token/Sharing.antt =====
-- Which tokens see which writes.
use qt_rpc.Base.{
  ◌<◌, ◌≡◌, ◌≢◌, refl, String, Bool, true, ◌&&◌, none, some, List, [], ◌∷◌, ◌++◌, str_eq, eq_iff,
  ◌==◌, if◌then◌else◌, arith, append_assoc,
}
use qt_rpc.Qt.{Qt, IsQt, Bytes}
use qt_rpc.Token.{
  Heap, AuthToken, value?, insert, remove, store, is_default, client_value, server_value,
  client_insert, server_insert, allocate, detach, copy, write, read,
}

module _ {V : Type 0} where
  value?-remove :
      (k j : String) (m : List (String × V))
      → value? j (remove k m) ≡ (if str_eq k j then none else value? j m)
  unfolding value? remove
  value?-remove k j [] = ground arith
  value?-remove k j ((i, v) ∷ m) =
      ground (arith, value?-remove k j m, eq_iff i k, eq_iff i j, eq_iff k j)

  value?-insert :
      (k j : String) (v : V) (m : List (String × V))
      → value? j (insert k v m) ≡ (if str_eq k j then some v else value? j m)
  unfolding value? insert
  value?-insert k j v m = ground (arith, value?-remove k j m)

  -- A value that is inserted through one token is found by every token that shares its data and
  -- under its key, and nothing else changes for any token: not another key, not the server's data,
  -- not the default flag.
  pub client_value-client_insert :
      (h : Heap V) (t u : AuthToken) (k j : String) (v d : V)
      → (client_value (client_insert h t k v) u j d
          ≡ (if (t == u) && str_eq k j then v else client_value h u j d))
        × (server_value (client_insert h t k v) u j d ≡ server_value h u j d)
        × (is_default (client_insert h t k v) u ≡ is_default h u)
  unfolding client_value client_insert server_value is_default store
  client_value-client_insert h t u k j v d =
      (ground (arith, value?-insert k j v (h.cell t).client), ground arith, ground arith)

  -- A token of the heap that shares its data and is detached starts with the data of the old one,
  -- the client's and the server's. From then on neither token sees what is inserted through the
  -- other, in either of these.
  pub detach_separates :
      (garbage : Bool) (h : Heap V) (t : AuthToken) (k j : String) (v d : V)
      → t < h.fresh
      → (u : AuthToken) × (g : Heap V) × (detach garbage true h t ≡ some (u, g))
        × (client_value g u j d ≡ client_value h t j d)
        × (server_value g u j d ≡ server_value h t j d)
        × (client_value (client_insert g u k v) t j d ≡ client_value h t j d)
        × (server_value (server_insert g u k v) t j d ≡ server_value h t j d)
        × (client_value (client_insert g t k v) u j d ≡ client_value h t j d)
        × (server_value (server_insert g t k v) u j d ≡ server_value h t j d)
  unfolding detach allocate client_value client_insert server_value server_insert
  detach_separates garbage h t k j v d live = (
    h.fresh,
    (allocate h (record (h.cell t) { default_token = garbage })).1,
    refl,
    ground arith,
    ground arith,
    ground arith,
    ground arith,
    ground arith,
    ground arith,
  )

  -- `copy` between tokens with data of their own takes over both maps, keeps the default flag, and
  -- changes no other token.
  copy_lem :
      (h : Heap V) (t other : AuthToken)
      → t ≢ other
      → (g : Heap V) × (copy h t other ≡ some g)
        × ((k : String) (d : V) → client_value g t k d ≡ client_value h other k d)
        × ((k : String) (d : V) → server_value g t k d ≡ server_value h other k d)
        × (is_default g t ≡ is_default h t)
        × ((u : AuthToken) → g.cell u ≡ (if t == u then g.cell t else h.cell u))
  unfolding copy client_value server_value is_default
  copy_lem h t other ne = (
    store h t
        (record (h.cell t) { server = (h.cell other).server; client = (h.cell other).client }),
    ground arith,
    λ k d. ground arith,
    λ k d. ground arith,
    ground arith,
    λ u. ground arith,
  )

module _ {V : Type 0} (q : Qt V) (qt : IsQt q) where
  -- A token that is written and read into another one gives it the whole data, for every token that
  -- shares it.
  pub read-write_token :
      (h g : Heap V) (t u : AuthToken) (rest : Bytes)
      → ((read q g u (write q h t ++ rest)).0.cell u ≡ h.cell t)
        × ((read q g u (write q h t ++ rest)).1 ≡ rest)
  unfolding read write
  read-write_token h g t u rest =
      simp (append_assoc, qt.flag_reads, qt.entries_reads) (ground arith, refl)
