-- ===== src/Examples/Ends.antt =====
-- The properties of the two ends of a connection on a device at concrete data.
use qt_rpc.Base.{◌≡◌, refl, true, some, List, [], ◌∷◌, arith, length, ap, get_or}
use qt_rpc.Base.Text.{chars, count, trimmed, skip}
use qt_rpc.Signature.{Signature}
use qt_rpc.Signature.RoundTrip.{IsArg, IsNormal}
use qt_rpc.Message.Wire
use qt_rpc.ReturnValue
use qt_rpc.ReturnValue.{ReturnValue}
use qt_rpc.Message
use qt_rpc.Message.{Message}
use qt_rpc.Instance.{Instance}
use qt_rpc.Device
use qt_rpc.Device.{Device}
use qt_rpc.Device.Dispatch
use qt_rpc.Device.Fallback.{step_of, original_handled}
use qt_rpc.Device.States.{capped}
use qt_rpc.Client
use qt_rpc.Client.{Client, Transport}
use qt_rpc.Client.Handshake.{names_version, handshake}
use qt_rpc.Examples.Sample.{Value, number, sample, sample-IsQt}
use qt_rpc.Examples.Connections.{result, clerks, shut, opened, count_up, host}

abbrev message : Message.MessageType → Signature → List Value → Message Value
message type func args = record {
  id = 4;
  type = type;
  func = func;
  args = args;
  ret = result;
  version = 2;
  service = 1;
}

abbrev select : Signature
select = record { name = "selectService"; args = "QString" ∷ [] }

abbrev before : Device Value
before = record { instance = shut; state = Device.service; version = 2 }

abbrev selected : Instance Value
selected = record shut {
  server = record host { next_object = 11 };
  services = (2, 10) ∷ (1, 9) ∷ [];
  needs_auth = 1 ∷ 2 ∷ [];
  current_service_id = 2;
}

abbrev after : Device Value
after = record { instance = selected; state = Device.ready; version = 2 }

abbrev ready_device : Device Value
ready_device = record { instance = opened; state = Device.ready; version = 2 }

abbrev version_call : Signature
version_call = record { name = "setProtocolVersion"; args = "quint32" ∷ [] }

abbrev wire : Transport Value
wire = record { get_property = λ s. result; set_property = λ s v. result; is_connected = true }

abbrev fresh_client : Client
fresh_client = record {
  url = ("/Counter", "", "");
  connect_id = 1;
  select_service_id = 3;
  version = 0;
}

abbrev welcome_call : Signature
welcome_call = record { name = "welcome"; args = "quint32" ∷ [] }

handshake_example :
    (Client.parse_message sample wire fresh_client
        (message Message.protocol welcome_call (number 9 ∷ []))
      ≡ some (
        fresh_client,
        Client.wrote (names_version sample sample-IsQt clerks wire (capped 9) 0) ∷ [],
      ))
    × (Dispatch.parse_message sample clerks before
          (message Message.protocol version_call (number 2 ∷ []))
        ≡ some (
          true,
          record before { version = capped 9 },
          Device.wrote (names_version sample sample-IsQt clerks wire (capped 9) 2) ∷ [],
        ))
    × (Client.parse_message sample wire fresh_client
          (message Message.protocol version_call (number 2 ∷ []))
        ≡ some (
          record fresh_client { version = capped 9 },
          Client.connected
              ∷ Client.return_received
                  (Message.of_return sample 1 (ReturnValue.of_value sample (sample.of_bool true)))
              ∷ [],
        ))
handshake_example =
    handshake sample sample-IsQt clerks wire fresh_client before
      (message Message.protocol welcome_call (number 9 ∷ []))
      (message Message.protocol version_call (number 2 ∷ []))
      (message Message.protocol version_call (number 2 ∷ [])) 9 (omega arith) refl
      (refl, refl, refl) (refl, refl, refl) (refl, refl, refl)

count-IsArg : IsArg sample "uint"
unfolding count trimmed skip
count-IsArg = record { no_open = refl; no_close = refl; no_comma = refl; no_edge = refl }

count_up-IsNormal : IsNormal sample count_up
unfolding count trimmed skip
count_up-IsNormal = record {
  named = λ e. absurd (omega (arith, ap (λ s. length (chars s)) e));
  no_mark = ground arith;
  name_open = refl;
  name_close = refl;
  args_normal = (count-IsArg, tt);
  not_blank = λ e. absurd (omega (arith, ap (λ ss. length (chars (get_or ss 0 ""))) e));
}

abbrev old_call : Message Value
old_call = record (message Message.function count_up (number 2 ∷ [])) { version = 0 }

original_handled_example :
    Dispatch.handle_frame sample clerks ready_device (Message.Wire.write sample old_call)
    ≡ step_of (
        Dispatch.parse_message sample clerks ready_device (
          Message.set_service
            (Message.of_call sample old_call.id old_call.type old_call.func old_call.args)
            1))
original_handled_example =
    original_handled sample sample-IsQt clerks ready_device old_call refl refl (omega arith)
      (omega arith) (omega arith) refl count_up-IsNormal
