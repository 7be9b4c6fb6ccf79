-- ===== src/Server.antt =====
-- lib/server.cpp: the thread pool and the registry of services. A thread of the pool is its index,
-- and a ServiceProxy a number that `newInstance` has not handed out before. The mutexes make each
-- call one step; the counts are natural
-- numbers, and to lower a count of 0 is a fault.
pub mod Pick
pub mod Balance
pub mod Registry
use qt_rpc.Base.{
  ℕ, zero, suc, ◌+◌, String, Bool, true, false, not, Option, none, some, List, [], ◌∷◌, ◌++◌,
  str_eq, ltb, ◌==◌, if◌then◌else◌, length, get_elem?, get_or, set, replicate, map,
}
use qt_rpc.Signature.{Signature}

-- Server::ThreadType
pub data ThreadType : Type 0 where
  single_thread thread_pool thread_per_instance process_per_instance : ThreadType

-- A QThread: the server's own, one of the pool, or a new one.
pub data Thread : Type 0 where
  own : Thread
  pooled : ℕ → Thread
  created : Thread

-- What a ServiceFactory<Service> holds in its template object: the service's name, the lists of its
-- ProxyBase and its raw data (a pointer).
pub record Factory : Type 0 where
  pub service_name : String
  pub functions : List Signature
  pub callbacks : List Signature
  pub events : List Signature
  pub raw_data : ℕ

pub record Server : Type 0 where
  pub thread_type : ThreadType
  pub thread_count : List ℕ
  pub factories : List (String × Factory)
  pub next_object : ℕ

-- the number of threads, from the argument and QThread::idealThreadCount() + 1; any int below 1
-- is 0 here
unfoldable pub pool_size : ℕ → ℕ → ℕ
pool_size zero zero = 10
pool_size zero (suc n) = suc n
pool_size (suc n) ideal = suc n

-- Server(QObject*, ThreadType, int, bool)
unfoldable pub server : ThreadType → ℕ → ℕ → Server
unfolding pool_size
server type count ideal = record {
  thread_type = type;
  thread_count = elim type [ thread_pool ↦ replicate (pool_size count ideal) 0 | _ ↦ [] ];
  factories = [];
  next_object = 1;
}

-- The loop of requestThread(): the first idle thread from index `i` on, else the last one whose
-- count is below `lowest`, which the loop never lowers, else `thread`.
unfoldable pub pick : ℕ → ℕ → ℕ → List ℕ → ℕ
pick lowest i thread [] = thread
pick lowest i thread (c ∷ cs) =
    let rest = pick lowest (i + 1) (if ltb c lowest then i else thread) cs in
    if c == 0 then i else rest

-- threadCount[i]++
unfoldable pub add_at : List ℕ → ℕ → List ℕ
add_at cs i = set cs i (suc (get_or cs i 0))

-- requestThread()
unfoldable pub request_thread : Server → Thread × Server
unfolding pick add_at
request_thread s = elim s.thread_type [
  | single_thread ↦ (own, s)
  | thread_pool ↦
      let i = pick (get_or s.thread_count 0 0) 0 0 s.thread_count in
      (pooled i, record s { thread_count = add_at s.thread_count i })
  | thread_per_instance ↦ (created, s)
  | process_per_instance ↦ (own, s)
]

-- threadCount[i]--, where a count of 0 is a fault
unfoldable pub sub_at : List ℕ → ℕ → Option (List ℕ)
sub_at [] i = none
sub_at (c ∷ cs) zero = elim c [ zero ↦ none | suc d ↦ some (d ∷ cs) ]
sub_at (c ∷ cs) (suc i) = elim (sub_at cs i) [ none ↦ none | some ds ↦ some (c ∷ ds) ]

-- removeService() in thread `i` of the pool; a thread outside of it is a fault
unfoldable pub remove_service : Server → ℕ → Option Server
unfolding sub_at
remove_service s i = elim (sub_at s.thread_count i) [
  | none ↦ none
  | some cs ↦ some (record s { thread_count = cs })
]

-- _serviceFactories.contains(name), and its value
unfoldable pub find_factory : String → List (String × Factory) → Option Factory
find_factory name [] = none
find_factory name ((n, f) ∷ fs) = if str_eq n name then some f else find_factory name fs

-- setServiceName on the factory `name`
unfoldable pub name_factory : String → List (String × Factory) → List (String × Factory)
name_factory name [] = []
name_factory name ((n, f) ∷ fs) =
    let rest = name_factory name fs in
    if str_eq n name then (n, record f { service_name = name }) ∷ fs else (n, f) ∷ rest

-- registerService<Service>(name), where `template` is what the new factory would hold
unfoldable pub register_service : Server → String → Factory → Server
unfolding find_factory name_factory
register_service s name template =
    let fs : List (String × Factory) = elim (find_factory name s.factories) [
      | none ↦ (name, template) ∷ s.factories
      | some f ↦ s.factories
    ] in
    record s { factories = name_factory name fs }

-- requestService(name, protocol): a new object, initialised for the connection, or null
unfoldable pub request_service : Server → String → Option (ℕ × Factory) × Server
unfolding find_factory
request_service s name = elim (find_factory name s.factories) [
  | none ↦ (none, s)
  | some f ↦ (some (s.next_object, f), record s { next_object = s.next_object + 1 })
]

-- listServices(), listFunctions(service), listCallbacks(service), listEvents(service)
unfoldable pub list_services : Server → List String
list_services s = map (λ (e : String × Factory). e.0) s.factories

unfoldable pub list_functions : Server → String → List Signature
unfolding find_factory
list_functions s service = elim (find_factory service s.factories) [
  | none ↦ []
  | some f ↦ f.functions
]

unfoldable pub list_callbacks : Server → String → List Signature
unfolding find_factory
list_callbacks s service = elim (find_factory service s.factories) [
  | none ↦ []
  | some f ↦ f.callbacks
]

unfoldable pub list_events : Server → String → List Signature
unfolding find_factory
list_events s service = elim (find_factory service s.factories) [ none ↦ [] | some f ↦ f.events ]
