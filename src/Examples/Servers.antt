-- ===== src/Examples/Servers.antt =====
-- The properties of the token data and of the server at concrete data.
use qt_rpc.Base.{
  ℕ, suc, ◌<◌, ◌≤◌, ◌≡◌, ◌≢◌, ◌⊎◌, refl, true, ◌&&◌, some, List, [], ◌∷◌, ◌++◌, arith, All, length,
  get_or, drop, str_eq, ◌==◌, if◌then◌else◌,
}
use qt_rpc.Token.{
  Heap, client_value, server_value, client_insert, server_insert, AuthToken, is_default, detach,
  write, read,
}
use qt_rpc.Token.Sharing.{client_value-client_insert, detach_separates, read-write_token}
use qt_rpc.Server.{
  Server, Factory, thread_pool, server, pooled, request_thread, pick, add_at, remove_service,
  register_service, request_service, list_functions, find_factory,
}
use qt_rpc.Server.Pick.{request_thread_pool}
use qt_rpc.Server.Balance.{Run, begun, started, occurs, index, counts_live, remove_live}
use qt_rpc.Server.Registry.{registered, request_registered}
use qt_rpc.Examples.Sample.{Value, number, words, sample, sample-IsQt}

-- two tokens with data of their own
abbrev two_tokens : Heap Value
two_tokens = record {
  cell = λ t. record { client = ("user", number t) ∷ []; server = []; default_token = t == 0 };
  fresh = 2;
}

client_value-client_insert_example :
    (client_value (client_insert two_tokens 1 "user" (words "ann")) 1 "user" (number 9) ≡ (
      if (1 == 1) && str_eq "user" "user"
      then words "ann"
      else client_value two_tokens 1 "user" (number 9)))
    × (server_value (client_insert two_tokens 1 "user" (words "ann")) 1 "user" (number 9)
        ≡ server_value two_tokens 1 "user" (number 9))
    × (is_default (client_insert two_tokens 1 "user" (words "ann")) 1 ≡ is_default two_tokens 1)
client_value-client_insert_example =
    client_value-client_insert two_tokens 1 1 "user" "user" (words "ann") (number 9)

detach_separates_example :
    (u : AuthToken) × (g : Heap Value) × (detach true true two_tokens 1 ≡ some (u, g))
    × (client_value g u "user" (number 9) ≡ client_value two_tokens 1 "user" (number 9))
    × (server_value g u "user" (number 9) ≡ server_value two_tokens 1 "user" (number 9))
    × (client_value (client_insert g u "user" (words "ann")) 1 "user" (number 9)
        ≡ client_value two_tokens 1 "user" (number 9))
    × (server_value (server_insert g u "user" (words "ann")) 1 "user" (number 9)
        ≡ server_value two_tokens 1 "user" (number 9))
    × (client_value (client_insert g 1 "user" (words "ann")) u "user" (number 9)
        ≡ client_value two_tokens 1 "user" (number 9))
    × (server_value (server_insert g 1 "user" (words "ann")) u "user" (number 9)
        ≡ server_value two_tokens 1 "user" (number 9))
detach_separates_example =
    detach_separates true two_tokens 1 "user" "user" (words "ann") (number 9) (omega arith)

read-write_token_example :
    ((read sample two_tokens 0 (write sample two_tokens 1 ++ 9 ∷ [])).0.cell 0 ≡ two_tokens.cell 1)
    × ((read sample two_tokens 0 (write sample two_tokens 1 ++ 9 ∷ [])).1 ≡ 9 ∷ [])
read-write_token_example = read-write_token sample sample-IsQt two_tokens two_tokens 1 0 (9 ∷ [])

abbrev counts : List ℕ
counts = 3 ∷ 1 ∷ 2 ∷ 4 ∷ []

-- The last light thread is chosen, not the lightest.
abbrev busy : Server
busy = record { thread_type = thread_pool; thread_count = counts; factories = []; next_object = 1 }

request_thread_pool_example :
    (i : ℕ) × (request_thread busy
      ≡ (pooled i, record busy { thread_count = add_at busy.thread_count i }))
    × (i < length counts)
    × ((get_or counts i 1 ≡ 0)
        ⊎ (All (λ d. d ≢ 0) counts
            × (((i ≡ 0) × All (λ d. 3 ≤ d) counts)
                ⊎ ((get_or counts i 3 < 3) × All (λ d. 3 ≤ d) (drop (suc i) counts)))))
request_thread_pool_example = request_thread_pool busy 3 (1 ∷ 2 ∷ 4 ∷ []) refl refl

last_light : (request_thread busy).0 ≡ pooled 2
unfolding request_thread pick
last_light = refl

abbrev one_started :
    Run
      (request_thread (server thread_pool 2 4)).1
      (index (request_thread (server thread_pool 2 4)).0 ∷ [])
one_started = started (server thread_pool 2 4) [] (begun 2 4)

counts_live_example :
    get_or (request_thread (server thread_pool 2 4)).1.thread_count 0 0
    ≡ occurs 0 (index (request_thread (server thread_pool 2 4)).0 ∷ [])
counts_live_example = counts_live (request_thread (server thread_pool 2 4)).1 _ 0 one_started

remove_live_example :
    (t : Server) × (remove_service
        (request_thread (server thread_pool 2 4)).1
        (index (request_thread (server thread_pool 2 4)).0)
      ≡ some t)
    × Run t ([] ++ [])
remove_live_example =
    remove_live (request_thread (server thread_pool 2 4)).1 [] []
      (index (request_thread (server thread_pool 2 4)).0) one_started

abbrev counter : Factory
counter = record { service_name = ""; functions = []; callbacks = []; events = []; raw_data = 5 }

request_registered_example :
    ((request_service (register_service busy "Counter" counter) "Counter").0
      ≡ some
          (busy.next_object, registered (find_factory "Counter" busy.factories) counter "Counter"))
    × (list_functions (register_service busy "Counter" counter) "Counter"
        ≡ (registered (find_factory "Counter" busy.factories) counter "Counter").functions)
    × ((request_service (register_service busy "Counter" counter) "Clock").0 ≡ (
        if str_eq "Counter" "Clock"
        then some
            (busy.next_object, registered (find_factory "Counter" busy.factories) counter "Counter")
        else (request_service busy "Clock").0))
request_registered_example = request_registered busy "Counter" "Clock" counter
