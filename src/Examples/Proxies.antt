-- ===== src/Examples/Proxies.antt =====
-- The properties of the proxies' tables and of a service at concrete data.
use qt_rpc.Base.{
  ◌⊎◌, false, ℕ, suc, ◌<◌, ◌≡◌, ◌↔◌, refl, true, false, none, some, List, [], ◌∷◌, ◌++◌, map,
  length,
}
use mathlib.Core.Option
use qt_rpc.Base.Table.{lookup, is_in}
use qt_rpc.Base.Text.{count, index_of, split, trimmed, skip}
use qt_rpc.Signature
use qt_rpc.Signature.{Signature}
use qt_rpc.Signature.Check.{Fit}
use qt_rpc.Device
use qt_rpc.Device.{Device, Action}
use qt_rpc.Proxy.{signal, slot, Method, new, first_id, init, is_async, list_callbacks}
use qt_rpc.Proxy.Metacall.{
  Pointer, char_pointer, data_of, variant, Meta, thrown, raised, other_exception, overrun,
  call_metacall, call_callback,
}
use qt_rpc.Proxy.Tables.{entry_at, found_at, init-entries}
use qt_rpc.Proxy.Class.{Entry, event_of, callback_of, links, is_signal}
use qt_rpc.Service.{
  ServiceProxy, service_lists, init_proxy, async_signature, async_args, lists, call_function,
}
use qt_rpc.Proxy.Bounds.{call_metacall-overrun}
use qt_rpc.Service.Calls.{call_function-raised}
use qt_rpc.Service.Events.{emit, event_message, created, emit-events}
use qt_rpc.Examples.Sample.{Value, number, words, sample, sample-IsQt}
use qt_rpc.Examples.Connections.{shut}

-- a class with an event and a function
abbrev ticked : Method
ticked = record { kind = signal; type = "Event"; text = "ticked(uint)"; attributes = 0 }

abbrev count_slot : Method
count_slot = record { kind = slot; type = "ReturnValue"; text = "count(uint)"; attributes = 0 }

abbrev methods : List Method
methods = ticked ∷ count_slot ∷ []

abbrev read_pointer : Pointer Value → Value
read_pointer (char_pointer s) = words s
read_pointer (data_of v) = v
read_pointer (variant v) = v

abbrev object_value : ℕ → Value
object_value n = number n

-- its meta object, where every call throws
abbrev meta : Meta Value ℕ
meta = record {
  class_name = "Counter";
  methods = methods;
  index_of_method = λ s. some 1;
  normalized = λ s. s;
  qt_metacall = λ id a s. (thrown other_exception, suc s);
  convert = λ n p. read_pointer p;
  variant_at = read_pointer;
  object_at = λ p. 0;
  text_at = λ p. "";
  is_user = λ v. false;
}

init-entries_example :
    (lookup 1000 (init sample service_lists methods new).functions
      ≡ Option.map (λ (e : Entry). e.signature) (entry_at sample service_lists methods 1000))
    × (is_in 1000 (init sample service_lists methods new).async_functions
        ≡ elim (entry_at sample service_lists methods 1000) [ none ↦ false | some e ↦ e.async ])
    × (lookup 1000 (init sample service_lists methods new).function_types
        ≡ elim (entry_at sample service_lists methods 1000) [
          | none ↦ lookup 1000 new.function_types
          | some e ↦ some e.type
        ])
    × (lookup 1000 (init sample service_lists methods new).signals
        ≡ found_at sample 1000 0 (map (event_of sample service_lists) methods) none)
    × (lookup 1000 (init sample service_lists methods new).callbacks
        ≡ found_at sample 1000 0 (map (callback_of sample service_lists) methods) none)
    × ((init sample service_lists methods new).connections
        ≡ new.connections ++ links sample service_lists 0 first_id methods)
init-entries_example = init-entries sample service_lists methods new 1000

abbrev counted : ServiceProxy
counted = record {
  this = 9;
  token = 0;
  service_name = "Counter";
  weak_pointer = 9;
  server = 1;
  has_instance = true;
  stored = [];
  proxy = new;
}

abbrev end_of : Device Value
end_of = record { instance = shut; state = Device.ready; version = 2 }

abbrev memory : List (Pointer Value)
memory = variant (number 4) ∷ []

emit-events_example :
    (emit sample meta object_value
        (init_proxy sample methods (created sample meta object_value counted) 1 true [])
        0
        memory
        end_of
      ≡ (end_of, event_message sample meta object_value counted ticked memory end_of ∷ []))
    × (emit sample meta object_value
          (init_proxy sample methods
            (init_proxy sample methods (created sample meta object_value counted) 1 true [])
            1
            true
            [])
          0
          memory
          end_of
        ≡ (
          end_of,
          event_message sample meta object_value counted ticked memory end_of
              ∷ event_message sample meta object_value counted ticked memory end_of
              ∷ [],
        ))
unfolding is_signal is_async Signature.of_string Signature.parse Signature.parse_at
    Signature.with_parts Signature.split_args count index_of split trimmed skip
emit-events_example =
    emit-events sample meta object_value methods counted 1 [] 0 ticked memory end_of refl
      (refl, refl, refl)

abbrev of_eleven : Signature
of_eleven = record {
  name = "many";
  args =
      "uint" ∷ "uint" ∷ "uint" ∷ "uint" ∷ "uint" ∷ "uint" ∷ "uint" ∷ "uint" ∷ "uint" ∷ "uint"
      ∷ "uint" ∷ [];
}

abbrev eleven : List Value
eleven =
    number 1
    ∷ number 2
    ∷ number 3
    ∷ number 4
    ∷ number 5
    ∷ number 6
    ∷ number 7
    ∷ number 8
    ∷ number 9
    ∷ number 10
    ∷ number 11
    ∷ []

call_metacall-overrun_example :
    ((call_metacall sample meta of_eleven eleven 0).0 ≡ overrun)
    ↔ (Fit sample of_eleven.args eleven × (10 < length of_eleven.args))
call_metacall-overrun_example = call_metacall-overrun sample sample-IsQt meta of_eleven eleven 0

abbrev count_up : Signature
count_up = record { name = "count"; args = "uint" ∷ [] }

-- a service with the synchronous function only, which throws what is no std::exception
abbrev sync_counted : ServiceProxy
sync_counted = record counted { proxy = record new { callbacks = (1, count_up) ∷ [] } }

call_function-raised_example :
    ((call_function sample meta object_value sync_counted count_up (number 2 ∷ []) 0).0
      ≡ raised other_exception)
    ↔ (((lists sample (async_signature sample count_up) (list_callbacks sync_counted.proxy) ≡ true)
          × ((call_callback sample meta sync_counted.proxy
                (async_signature sample count_up)
                (async_args sample meta object_value sync_counted (number 2 ∷ []))
                0).0
              ≡ raised other_exception))
        ⊎ ((lists sample (async_signature sample count_up) (list_callbacks sync_counted.proxy)
              ≡ false)
            × ((call_callback sample meta sync_counted.proxy count_up (number 2 ∷ []) 0).0
                ≡ raised other_exception)
            × (other_exception ≡ other_exception)))
call_function-raised_example =
    call_function-raised sample meta object_value sync_counted count_up (number 2 ∷ []) 0
      other_exception
