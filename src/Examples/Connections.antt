-- ===== src/Examples/Connections.antt =====
-- The properties of a server's connection at concrete data.
use qt_rpc.Base.{
  ◌≡◌, ◌≢◌, refl, true, false, not, ◌&&◌, some, [], ◌∷◌, arith, length, str_eq, ◌==◌, ap,
}
use qt_rpc.Base.Table.{lookup, insert, remove, is_in}
use qt_rpc.Base.Text.{chars}
use qt_rpc.Signature
use qt_rpc.Signature.{Signature}
use qt_rpc.ReturnValue
use qt_rpc.ReturnValue.{ReturnValue}
use qt_rpc.Token.{Heap, is_default}
use qt_rpc.Server.{Server, Factory, single_thread, request_service, find_factory}
use qt_rpc.Instance
use qt_rpc.Instance.{
  Services, Instance, connection, next_service, call_function, call_message, perform, get_service,
  get_service_login,
}
use qt_rpc.Instance.Gate.{gate_closed, gate_opens}
use qt_rpc.Instance.Bypass.{refused_stays, zero_reaches}
use qt_rpc.Examples.Sample.{Value, number, words, token, sample, sample-IsQt}

abbrev pub result : ReturnValue Value
result = record {
  value = words "ok";
  type = ReturnValue.variant;
  number = 0;
  string = "";
  raw_service = 0;
  held = 0;
  service_id = 0;
}

abbrev refusal : ReturnValue Value
refusal = record result { type = ReturnValue.error; number = 5; string = "no" }

-- services that answer every call and refuse every user name
abbrev pub clerks : Services Value
clerks = record { auth = λ srv t h. (refusal, h); call = λ id srv sig args h. (result, h) }

abbrev no_tokens : Heap Value
no_tokens = record {
  cell = λ t. record { client = []; server = []; default_token = false };
  fresh = 1;
}

abbrev counter : Factory
counter = record {
  service_name = "Counter";
  functions = [];
  callbacks = [];
  events = [];
  raw_data = 0;
}

abbrev pub host : Server
host = record {
  thread_type = single_thread;
  thread_count = [];
  factories = ("Counter", counter) ∷ [];
  next_object = 10;
}

-- a connection with one service, which waits
abbrev pub shut : Instance Value
shut = record {
  server = host;
  service_name = "Counter";
  services = (1, 9) ∷ [];
  queue = [];
  needs_auth = 1 ∷ [];
  current_id = 0;
  current_service_id = 1;
  current_function_id = 0;
  default_token = 0;
  tokens = [];
  heap = no_tokens;
}

abbrev pub count_up : Signature
count_up = record { name = "count"; args = "uint" ∷ [] }

abbrev auth : Signature
auth = record { name = "auth"; args = "AuthToken" ∷ [] }

differs : count_up.name ≢ auth.name
differs e = absurd (omega (arith, ap (λ s. length (chars s)) e))

gate_closed_example :
    (r : ReturnValue Value) × (call_function sample clerks shut 4 1 count_up (number 2 ∷ [])
      ≡ some (r, shut))
    × (ReturnValue.is_error r ≡ true)
gate_closed_example = gate_closed sample clerks shut 4 1 count_up (number 2 ∷ []) refl differs

abbrev pub opened : Instance Value
opened = record shut { needs_auth = []; tokens = (9, 0) ∷ [] }

auth_opens : call_function sample clerks shut 4 1 auth (token 0 ∷ []) ≡ some (result, opened)
unfolding call_function Instance.service Instance.perform Instance.invoke Instance.fill_tokens
    Instance.after_call Instance.parse_return Instance.remove_all is_default lookup insert remove
    Signature.equal ReturnValue.is_error
auth_opens = refl

gate_opens_example : is_in 1 opened.needs_auth ≡ (
    is_in 1 shut.needs_auth
    && not (str_eq auth.name "auth" && 1 == 1 && not (ReturnValue.is_error result)))
gate_opens_example =
    gate_opens sample clerks shut opened 4 1 1 auth (token 0 ∷ []) result auth_opens

refused_stays_example :
    (ReturnValue.is_error (get_service_login sample clerks shut "Counter" "ann" "pw").0 ≡ true)
    × (lookup
          (next_service shut)
          (get_service_login sample clerks shut "Counter" "ann" "pw").1.services
        ≡ some 10)
    × ((get_service_login sample clerks shut "Counter" "ann" "pw").1.needs_auth ≡ shut.needs_auth)
unfolding request_service find_factory ReturnValue.is_error
refused_stays_example = refused_stays sample clerks shut "Counter" "ann" "pw" 10 counter refl refl

zero_reaches_example :
    call_function sample clerks
      (get_service sample (connection host 0 no_tokens) "Counter").1
      4
      0
      count_up
      (number 2 ∷ [])
    ≡ perform sample clerks
        (get_service sample (connection host 0 no_tokens) "Counter").1
        10
        4
        0
        count_up
        (number 2 ∷ [])
unfolding request_service find_factory
zero_reaches_example =
    zero_reaches sample clerks sample-IsQt host 0 no_tokens "Counter" 10 counter 4 count_up
      (number 2 ∷ []) refl
