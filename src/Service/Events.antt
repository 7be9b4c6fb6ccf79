-- ===== src/Service/Events.antt =====
-- From the emission of a signal of a service to the messages on the connection: lib/serviceproxy.cpp
-- over lib/proxybase.cpp and lib/serverprotocolinstanceiodevice.cpp.
use qt_rpc.Base.{
  ℕ, ◌≡◌, refl, ap, ◌∙◌, String, true, false, Option, none, some, List, [], ◌∷◌, ◌++◌, get_elem?,
}
use qt_rpc.Base.Text.{is_one_of}
use qt_rpc.Qt.{Qt}
use qt_rpc.Device
use qt_rpc.Device.{Device, Action}
use qt_rpc.Instance.{service_id}
use qt_rpc.Proxy.{Method, new, is_async}
use qt_rpc.Proxy.Metacall.{Meta, Pointer, Metacall, function_called, convert_args, activate}
use qt_rpc.Proxy.Class.{Entry, entry, is_signal, signature_of}
use qt_rpc.Proxy.Calls.{calls_of, call_of, activate-once, activate-again}
use qt_rpc.Service.{ServiceProxy, service_lists, init_proxy, event_called, perform, perform_all}

module _ {V S : Type 0} (q : Qt V) (meta : Meta V S) (of_object : ℕ → V) where
  -- the emission of the signal of method `i` with the memory `a`
  abbrev pub emit : ServiceProxy → ℕ → List (Pointer V) → Device V → Device V × List (Action V)
  emit v i a d = perform_all q meta of_object v (activate q meta v.proxy i a v.proxy.connections) d

  -- the message of an event
  abbrev pub event_message : ServiceProxy → Method → List (Pointer V) → Device V → Action V
  event_message v m a d =
      let sig = signature_of q m in
      Device.send_event q d (service_id q d.instance v.this) sig (convert_args q meta sig.args a)

  -- a signal that is an event
  abbrev pub IsEvent : Method → Type 0
  IsEvent m =
      (is_signal q m ≡ true) × (m.type ≡ "Event") × (is_async (signature_of q m).args ≡ false)

  abbrev event_of_class : Method → Entry
  event_of_class m = record { signature = signature_of q m; async = false; type = "Event" }

  event_entry : (m : Method) → IsEvent m → entry q service_lists m ≡ some (event_of_class m)
  unfolding entry is_one_of
  event_entry m (signal, type, plain) =
      let listed : is_one_of m.type service_lists.functions ≡ true = rw type refl in
      rw (signal, listed, plain, type) refl

  plain_call :
      (e : Entry) (a : List (Pointer V))
      → e.async ≡ false
      → call_of q meta service_lists e a
        ≡ function_called e.signature (convert_args q meta e.signature.args a) e.type
  plain_call e [] h = refl
  plain_call e (object ∷ []) h = refl
  plain_call e (object ∷ name ∷ a) h = rw h refl

  abbrev event_call : Method → List (Pointer V) → Metacall V
  event_call m a =
      function_called (signature_of q m) (convert_args q meta (signature_of q m).args a) "Event"

  event_calls :
      (ms : List Method) (i : ℕ) (m : Method) (a : List (Pointer V))
      → get_elem? ms i ≡ some m
      → IsEvent m
      → calls_of q meta service_lists a (get_elem? ms i)
        ≡ function_called (signature_of q m) (convert_args q meta (signature_of q m).args a) "Event"
          ∷ []
  event_calls ms i m a at is =
      ap (calls_of q meta service_lists a) at
      ∙ ap
          (λ (o : Option Entry). elim o as (λ _. List (Metacall V)) [
            | none ↦ []
            | some e ↦ call_of q meta service_lists e a ∷ []
          ])
          (event_entry m is)
      ∙ ap (λ c. c ∷ []) (plain_call (event_of_class m) a refl)

  -- a service as its constructor leaves it
  abbrev pub created : ServiceProxy → ServiceProxy
  created v = record v { proxy = new }

  perform_events :
      (v : ServiceProxy) (d : Device V) (m : Method) (a : List (Pointer V))
      → v.has_instance ≡ true
      → (perform_all q meta of_object v (event_call m a ∷ []) d ≡ (d, event_message v m a d ∷ []))
        × (perform_all q meta of_object v (event_call m a ∷ event_call m a ∷ []) d
            ≡ (d, event_message v m a d ∷ event_message v m a d ∷ []))
  unfolding perform_all perform event_called
  perform_events v d m a h = (rw h refl, rw h refl)

  -- A service that was initialized on a connection sends one message for each emission of an event,
  -- with the id of the service there, the signature of the event and its converted arguments. When it
  -- was initialized twice, as it is when it is returned twice, it sends that message twice.
  pub emit-events :
      (ms : List Method) (v : ServiceProxy) (server : ℕ) (stored : List (String × ℕ)) (i : ℕ)
      (m : Method) (a : List (Pointer V)) (d : Device V)
      → get_elem? ms i ≡ some m
      → IsEvent m
      → (emit (init_proxy q ms (created v) server true stored) i a d
          ≡ (d, event_message v m a d ∷ []))
        × (emit
              (init_proxy q ms (init_proxy q ms (created v) server true stored) server true stored)
              i
              a
              d
            ≡ (d, event_message v m a d ∷ event_message v m a d ∷ []))
  unfolding init_proxy
  emit-events ms v server stored i m a d at is =
      let once = init_proxy q ms (created v) server true stored in
      let calls = event_calls ms i m a at is in
      let first = activate-once q meta service_lists ms i a ∙ calls in
      let second =
        activate-again q meta service_lists ms new i a
        ∙ ap (λ cs. cs ++ calls_of q meta service_lists a (get_elem? ms i)) first
        ∙ ap (λ cs. event_call m a ∷ cs) calls in
      (
        ap (λ cs. perform_all q meta of_object once cs d) first
            ∙ (perform_events once d m a refl).0,
        ap (λ cs. perform_all q meta of_object (init_proxy q ms once server true stored) cs d)
              second
            ∙ (perform_events (init_proxy q ms once server true stored) d m a refl).1,
      )
