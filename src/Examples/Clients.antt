-- ===== src/Examples/Clients.antt =====
-- The properties of the client's proxies and of a connection over TCP at concrete data.
use qt_rpc.Base.{
  ℕ, ◌≤◌, ◌+◌, ◌≡◌, ◌≢◌, ◌⊎◌, refl, true, false, not, ◌&&◌, ◌||◌, none, some, List, [], ◌∷◌, arith,
  length, ◌==◌, ap, if◌then◌else◌,
}
use qt_rpc.Base.Table.{lookup, is_in}
use qt_rpc.Base.Text.{chars, count, join, index_of}
use qt_rpc.ReturnValue
use qt_rpc.ReturnValue.{ReturnValue}
use qt_rpc.Message
use qt_rpc.Message.{Message}
use qt_rpc.Message.Wire
use qt_rpc.Device
use qt_rpc.Device.Dispatch
use qt_rpc.Signature
use qt_rpc.Device.{Device, device, state_number}
use qt_rpc.ClientProxy.{
  connected, ServiceData, Connection, World, Env, add_proxy, remove_proxy, event_receivers,
  callback_receiver,
}
use qt_rpc.ClientProxy.Sharing.{IsShared, proxies-IsShared}
use qt_rpc.ClientProxy.Route.{
  send_event, send_callback, event_goes, callback_goes, living, receiver, send_event-send_callback,
}
use qt_rpc.ClientProxy.Sharer.{ObjectSlot, Returned, Status, ClientProxy}
use qt_rpc.ClientProxy.Request.Alive.{Alive}
use qt_rpc.ClientProxy.Request.Follow.{follow, follow-once, Lacks}
use qt_rpc.Tcp.{
  Tcp, ssl_forced, ssl_enabled, serve, handle, set_property, ping, disconnect, perform,
  protocol_call, set_ssl, refuse, init, tcp,
}
use qt_rpc.Tcp.History
use qt_rpc.Tcp.History.{Event, tick, close, property, frame, secured, run}
use qt_rpc.Tcp.Guard.{IsGuarded, run-IsGuarded}
use qt_rpc.Tcp.Forward.{run-forward}
use qt_rpc.Tcp.Listener.{
  listener, set_ssl_mode, set_certificate, incoming_connection, forced-IsGuarded,
}
use qt_rpc.Examples.Sample.{Value, number, truth, sample, sample-IsQt}
use qt_rpc.Examples.Connections.{shut, clerks, result, count_up}

-- a service that two proxies share
abbrev shared : ServiceData
shared = record { id = 3; connection = 0; primary = some 7; list = 7 ∷ 8 ∷ []; references = 2 }

proxies-IsShared_example :
    IsShared (add_proxy 7 shared)
    × IsShared (remove_proxy 7 shared)
    × ((r : ℕ)
        → is_in r (event_receivers (add_proxy 7 shared))
          ≡ is_in r (event_receivers shared) || 7 == r)
    × ((r : ℕ)
        → is_in r (event_receivers (remove_proxy 7 shared))
          ≡ is_in r (event_receivers shared) && not (7 == r))
    × (callback_receiver shared ≡ (shared.primary, shared))
proxies-IsShared_example = proxies-IsShared shared 7 refl

abbrev line : Connection ℕ
line = record { state = connected; bus = some 5; registered = (3, 1) ∷ []; token = 0 }

abbrev world : World Value ℕ
world = record {
  connection_at = λ c. line;
  service_at = λ a. if a == 1 then some shared else none;
  fresh = 2;
  heap = shut.heap;
}

abbrev event : Message Value
event = record {
  id = 0;
  type = Message.event;
  func = count_up;
  args = number 1 ∷ [];
  ret = result;
  version = 2;
  service = 3;
}

some_version : event.version ≢ 0
some_version e = absurd (omega (arith, e))

send_event-send_callback_example :
    (send_event sample world 0 event
      ≡ some (event_goes (living sample world (lookup 3 line.registered))))
    × (receiver sample (send_callback sample world 0 event)
        ≡ some (callback_goes (living sample world (lookup 3 line.registered))))
send_event-send_callback_example = send_event-send_callback sample world 0 event some_version

-- a bus that counts its calls
abbrev counting : Env Value ℕ
counting = record {
  instance_of = λ s. some 0;
  call = λ m b. (result, b);
  call_async = λ object name m b. (record result { value = number b }, b + 1);
  of_return = λ r. r.value;
}

abbrev asker : ObjectSlot
asker = record { slot = "1ready(uint, ReturnValue)"; object = 40; id = 4 }

abbrev start : Status Value
start = record { step = 0; token = 0; service = "Counter"; version = none; service_return = none }

abbrev asking : ClientProxy Value
asking = record {
  this = 7;
  connection = 0;
  service = none;
  connect_objects = [];
  function_objects = [];
  get_service_objects = (4, asker) ∷ [];
  select_service_objects = [];
  status = (4, start) ∷ [];
}

abbrev version_one : ReturnValue Value
version_one = record result { value = number 2 }

abbrev service_three : ReturnValue Value
service_three = record result { type = ReturnValue.service; service_id = 3 }

abbrev replies : List (ReturnValue Value)
replies = version_one ∷ version_one ∷ service_three ∷ result ∷ []

real : asker.object ≢ 0
real e = absurd (omega (arith, e))

named : asker.slot ≢ ""
named e = absurd (omega (arith, ap (λ s. length (chars s)) e))

living_world : Alive world 0
unfolding lookup
living_world id a found = ground (arith, found)

follow-once_example :
    ((r : Returned Value) × (follow sample counting replies world asking 4
        ≡ some ((asker, r) ∷ [])))
    ⊎ (Lacks sample counting replies 0 × (follow sample counting replies world asking 4 ≡ none))
unfolding lookup
follow-once_example =
    follow-once sample counting replies world asking 4 asker start (refl, refl)
      (λ early. living_world) real named (omega arith) (omega arith)

-- a server's end that forces encryption, before it
abbrev forced : Tcp Value
forced = record {
  device = record { instance = shut; state = Device.connecting; version = 0 };
  socket = true;
  descriptor = 11;
  ssl_mode = ssl_forced;
  certificate = "server.pem";
  last_ping = 100;
  timer = none;
  timeout_enabled = false;
  timeout = 20;
}

-- the end after a client asked for no encryption
abbrev dropped : Tcp Value
dropped = record forced { socket = false; last_ping = 100; timeout = 8 }

abbrev plain_call : Message Value
plain_call = record event {
  type = Message.protocol;
  func = record { name = "setSsl"; args = "bool" ∷ [] };
  args = truth false ∷ [];
  version = 0;
}

abbrev history : List (ℕ × Event Value)
history =
    (102, property "timeout" (number 8))
    ∷ (103, tick)
    ∷ (104, frame (Wire.write sample plain_call))
    ∷ []

history_runs : run sample (λ s. true) clerks history forced ≡ some dropped
unfolding run History.step handle set_property ping disconnect perform protocol_call set_ssl refuse
    Dispatch.handle_frame Dispatch.parse_message Dispatch.check_protocol_function Wire.write
    Wire.write_original Wire.read Wire.read_original Message.of_call Message.set_version
    Signature.of_string Signature.parse Signature.parse_at Signature.with_parts Signature.split_args
    Signature.to_string count join index_of
history_runs = refl

run-IsGuarded_example : IsGuarded dropped
unfolding History.opens
run-IsGuarded_example =
    run-IsGuarded sample (λ s. true) clerks history forced dropped refl (refl, refl) history_runs

-- the same end, as a listener makes it
listener_runs :
    run sample
      (λ s. true)
      clerks
      history
      (init sample (
        incoming_connection sample 100
          (Device.device shut)
          11
          (set_ssl_mode ssl_forced (set_certificate "server.pem" listener)))).0
    ≡ some dropped
unfolding run History.step handle set_property ping disconnect perform protocol_call set_ssl refuse
    Dispatch.handle_frame Dispatch.parse_message Dispatch.check_protocol_function Wire.write
    Wire.write_original Wire.read Wire.read_original Message.of_call Message.set_version
    Signature.of_string Signature.parse Signature.parse_at Signature.with_parts Signature.split_args
    Signature.to_string count join index_of incoming_connection init tcp Device.device
listener_runs = refl

forced-IsGuarded_example : IsGuarded dropped
unfolding History.opens
forced-IsGuarded_example =
    forced-IsGuarded sample sample-IsQt (λ s. true) clerks 100 shut 11
      (set_certificate "server.pem" listener) history dropped refl listener_runs

-- an end that is ready, whose client asks for no encryption again
abbrev is_ready : Tcp Value
is_ready = record forced {
  device = record forced.device { state = Device.ready };
  ssl_mode = ssl_enabled;
}

ready_runs :
    run sample (λ s. true) clerks ((104, frame (Wire.write sample plain_call)) ∷ []) is_ready
    ≡ some is_ready
unfolding run History.step handle perform protocol_call set_ssl serve Device.change_state
    Dispatch.handle_frame Dispatch.parse_message Dispatch.check_protocol_function Wire.write
    Wire.write_original Wire.read Wire.read_original Message.of_call Message.set_version
    Signature.of_string Signature.parse Signature.parse_at Signature.with_parts Signature.split_args
    Signature.to_string count join index_of
ready_runs = refl

run-forward_example : state_number is_ready.device.state ≤ state_number is_ready.device.state
run-forward_example =
    run-forward sample clerks (λ s. true) ((104, frame (Wire.write sample plain_call)) ∷ [])
      is_ready is_ready ready_runs
