-- ===== src/Server/Balance.antt =====
-- The instances of a thread pool over time: started by requestThread, ended by removeService.
use qt_rpc.Base.{
  ℕ, zero, suc, ◌+◌, ◌<◌, ◌≡◌, refl, sym, ap, ◌∙◌, subst, some, List, [], ◌∷◌, ◌++◌, arith, ◌==◌,
  if◌then◌else◌, length, length-set, get_or, replicate,
}
use qt_rpc.Server.{
  Server, Thread, thread_pool, own, pooled, created, server, pool_size, add_at, request_thread,
  sub_at, remove_service,
}
use qt_rpc.Server.Pick.{request_thread_pool}

unfoldable pub occurs : ℕ → List ℕ → ℕ
occurs j [] = 0
occurs j (i ∷ is) = occurs j is + (if i == j then 1 else 0)

-- the thread of the pool that an instance is moved to
unfoldable pub index : Thread → ℕ
index own = 0
index (pooled i) = i
index created = 0

-- A server of a thread pool with the threads of its live instances, the latest first.
pub data Run : Server → List ℕ → Type 0 where
  begun : (count ideal : ℕ) → Run (server thread_pool count ideal) []
  started :
      (s : Server) (live : List ℕ)
      → Run s live
      → Run (request_thread s).1 (index (request_thread s).0 ∷ live)
  ended :
      (s t : Server) (before after : List ℕ) (i : ℕ)
      → Run s (before ++ i ∷ after)
      → remove_service s i ≡ some t
      → Run t (before ++ after)

occurs-append : (j : ℕ) (xs ys : List ℕ) → occurs j (xs ++ ys) ≡ occurs j xs + occurs j ys
unfolding occurs
occurs-append j [] ys = omega arith
occurs-append j (x ∷ xs) ys = omega (arith, occurs-append j xs ys)

get_or-add_at :
    (cs : List ℕ) (i j : ℕ)
    → i < length cs
    → get_or (add_at cs i) j 0 ≡ get_or cs j 0 + (if i == j then 1 else 0)
unfolding add_at
get_or-add_at [] i j less = ground arith
get_or-add_at (c ∷ cs) zero zero less = ground arith
get_or-add_at (c ∷ cs) zero (suc j) less = ground arith
get_or-add_at (c ∷ cs) (suc i) zero less = ground arith
get_or-add_at (c ∷ cs) (suc i) (suc j) less = ground (arith, get_or-add_at cs i j (omega arith))

-- One less at `i`.
abbrev Less : List ℕ → List ℕ → ℕ → Type 0
Less ds cs i =
    (sub_at cs i ≡ some ds)
    × (length ds ≡ length cs)
    × ((j : ℕ) → get_or ds j 0 + (if i == j then 1 else 0) ≡ get_or cs j 0)

sub_at_lem : (cs : List ℕ) (i : ℕ) → 0 < get_or cs i 0 → (ds : List ℕ) × Less ds cs i
unfolding sub_at
sub_at_lem [] i some_left = ground arith
sub_at_lem (zero ∷ cs) zero some_left = ground arith
sub_at_lem (suc c ∷ cs) zero some_left = (c ∷ cs, (refl, refl, at))
  where
    at : (j : ℕ) → get_or (c ∷ cs) j 0 + (if 0 == j then 1 else 0) ≡ get_or (suc c ∷ cs) j 0
    at zero = ground arith
    at (suc j) = ground arith
sub_at_lem (c ∷ cs) (suc i) some_left =
    let (ds, (e, same, rest)) = sub_at_lem cs i some_left in
    (c ∷ ds, (rw e refl, ap suc same, at ds rest))
  where
    at :
        (ds : List ℕ)
        → ((j : ℕ) → get_or ds j 0 + (if i == j then 1 else 0) ≡ get_or cs j 0)
        → (j : ℕ) → get_or (c ∷ ds) j 0 + (if suc i == j then 1 else 0) ≡ get_or (c ∷ cs) j 0
    at ds rest zero = ground arith
    at ds rest (suc j) = ground (arith, rest j)

abbrev Balanced : Server → List ℕ → Type 0
Balanced s live =
    (s.thread_type ≡ thread_pool)
    × (0 < length s.thread_count)
    × ((j : ℕ) → get_or s.thread_count j 0 ≡ occurs j live)

get_or-replicate : (n j : ℕ) → get_or {A = ℕ} (replicate n 0) j 0 ≡ 0
get_or-replicate zero j = refl
get_or-replicate (suc n) zero = refl
get_or-replicate (suc n) (suc j) = get_or-replicate n j

begun-Balanced : (count ideal : ℕ) → Balanced (server thread_pool count ideal) []
unfolding server pool_size occurs
begun-Balanced zero zero = (refl, ground arith, λ j. get_or-replicate 10 j)
begun-Balanced zero (suc n) = (refl, ground arith, λ j. get_or-replicate (suc n) j)
begun-Balanced (suc n) ideal = (refl, ground arith, λ j. get_or-replicate (suc n) j)

split_first : (cs : List ℕ) → 0 < length cs → (c : ℕ) × (ds : List ℕ) × (cs ≡ c ∷ ds)
split_first [] less = ground arith
split_first (c ∷ ds) less = (c, ds, refl)

started-Balanced :
    (s : Server) (live : List ℕ)
    → Balanced s live
    → Balanced (request_thread s).1 (index (request_thread s).0 ∷ live)
unfolding index occurs add_at
started-Balanced s live (pool, some_threads, counts) =
    let (c, cs, e) = split_first s.thread_count some_threads in
    let (i, step, less, _) = request_thread_pool s c cs pool e in
    let here : i < length s.thread_count = subst (λ ds. i < length ds) (sym e) less in
    rw step (
      pool,
      subst (λ n. 0 < n) (sym (same_length i)) some_threads,
      λ j.
          get_or-add_at s.thread_count i j here
          ∙ ap (λ n. n + (if i == j then 1 else 0)) (counts j),
    )
  where
    same_length : (i : ℕ) → length (add_at s.thread_count i) ≡ length s.thread_count
    same_length i = length-set s.thread_count i _

occurs_live : (i : ℕ) (before after : List ℕ) → 0 < occurs i (before ++ i ∷ after)
unfolding occurs
occurs_live i before after = ground (arith, occurs-append i before (i ∷ after))

-- What is left when an instance on thread `i` ends.
remove_service_lem :
    (s : Server) (before after : List ℕ) (i : ℕ)
    → Balanced s (before ++ i ∷ after)
    → (t : Server) × ((remove_service s i ≡ some t) × Balanced t (before ++ after))
unfolding remove_service occurs
remove_service_lem s before after i (pool, some_threads, counts) =
    let (ds, (e, same, rest)) =
      sub_at_lem s.thread_count i
        (subst (λ n. 0 < n) (sym (counts i)) (occurs_live i before after)) in
    (
      record s { thread_count = ds },
      (rw (e, remove_service) refl, (pool, omega arith, λ j. fewer ds j (rest j ∙ counts j))),
    )
  where
    fewer :
        (ds : List ℕ) (j : ℕ)
        → get_or ds j 0 + (if i == j then 1 else 0) ≡ occurs j (before ++ i ∷ after)
        → get_or ds j 0 ≡ occurs j (before ++ after)
    fewer ds j e =
        omega (arith, e, occurs-append j before (i ∷ after), occurs-append j before after)

Run-Balanced : (s : Server) (live : List ℕ) → Run s live → Balanced s live
Run-Balanced _ _ (begun count ideal) = begun-Balanced count ideal
Run-Balanced _ _ (started s live run) = started-Balanced s live (Run-Balanced s live run)
Run-Balanced _ _ (ended s t before after i run e) =
    let (u, (f, balanced)) =
      remove_service_lem s before after i (Run-Balanced s (before ++ i ∷ after) run) in
    subst (λ v. Balanced v (before ++ after)) (some-injective (sym f ∙ e)) balanced
  where
    some-injective : {a b : Server} → some a ≡ some b → a ≡ b
    some-injective h = cc

-- In every run of a thread pool, the count of each thread is the number of live instances on it.
pub counts_live :
    (s : Server) (live : List ℕ) (j : ℕ) → Run s live → get_or s.thread_count j 0 ≡ occurs j live
counts_live s live j run = (Run-Balanced s live run).2 j

-- In every run of a thread pool, each live instance can end without a fault, and what is left is
-- a run again.
pub remove_live :
    (s : Server) (before after : List ℕ) (i : ℕ)
    → Run s (before ++ i ∷ after)
    → (t : Server) × (remove_service s i ≡ some t) × Run t (before ++ after)
remove_live s before after i run =
    let (t, (e, _)) = remove_service_lem s before after i (Run-Balanced s _ run) in
    (t, e, ended s t before after i run e)
