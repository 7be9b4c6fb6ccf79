-- ===== src/Examples/Buses.antt =====
-- The properties of the message bus at concrete data.
use qt_rpc.Base.{
  ◌+◌, ◌≡◌, refl, true, false, ◌&&◌, none, some, List, [], ◌∷◌, arith, if◌then◌else◌, leb, ltb,
}
use qt_rpc.Base.Table.{lookup}
use qt_rpc.Signature.{Signature}
use qt_rpc.ReturnValue
use qt_rpc.ReturnValue.{ReturnValue}
use qt_rpc.Message
use qt_rpc.Message.{Message}
use qt_rpc.Bus
use qt_rpc.Bus.{Bus}
use qt_rpc.Bus.Once.{open_calls, answers, answered_once}
use qt_rpc.Bus.Replies.{receive_all, reply_returns}
use qt_rpc.Bus.Disconnect.{run-disconnected, late_call, rounds}
use qt_rpc.Examples.Sample.{Value, words, sample}

abbrev result : ReturnValue Value
result = record {
  value = words "ok";
  type = ReturnValue.variant;
  number = 0;
  string = "";
  raw_service = 0;
  held = 0;
  service_id = 0;
}

abbrev count_up : Signature
count_up = record { name = "count"; args = "uint" ∷ [] }

abbrev message : Message.MessageType → Signature → List Value → Message Value
message type func args = record {
  id = 4;
  type = type;
  func = func;
  args = args;
  ret = result;
  version = 2;
  service = 1;
}

abbrev history : List (Bus.Event Value)
history =
    Bus.calls_sync false (message Message.function count_up [])
    ∷ Bus.calls_async 7 count_up (message Message.function count_up [])
    ∷ Bus.expires 1
    ∷ Bus.disconnects
    ∷ Bus.replies_next (λ o. true)
    ∷ Bus.replies_next (λ o. true)
    ∷ []

answered_once_example :
    open_calls (Bus.run sample Bus.new history).0 1 + answers 1 (Bus.run sample Bus.new history).1
    ≡ (if ltb 0 1 && leb 1 (Bus.run sample Bus.new history).0.current_id then 1 else 0)
answered_once_example = answered_once sample history 1 (omega arith)

abbrev no_calls : Bus Value
no_calls = Bus.new

reply_returns_example :
    (Bus.wake sample
      (Bus.return_received sample
        (λ o. true)
        (receive_all sample
          (λ o. true)
          (Bus.call_sync sample false no_calls (message Message.function count_up [])).0
          (message Message.return count_up [] ∷ []))
        (record (message Message.return count_up []) { id = 1 })).0
      (Bus.next_id no_calls)).1
    ≡ Bus.returned (Bus.next_id no_calls) result ∷ []
reply_returns_example =
    reply_returns sample (λ o. true) no_calls (message Message.function count_up [])
      (record (message Message.return count_up []) { id = 1 })
      (message Message.return count_up [] ∷ []) (omega arith, tt) refl

abbrev busy : Bus Value
busy = record {
  current_id = 1;
  return_values = [];
  callers = [];
  waiting = (1, record { object = 0; slot = ""; sync = true }) ∷ [];
  leaving = [];
}

-- the end of a connection, with a call in the middle of its loop
abbrev ending : List (Bus.Event Value)
ending =
    Bus.calls_async 7 count_up (message Message.function count_up [])
    ∷ Bus.replies_next (λ o. true)
    ∷ []

run-disconnected_example :
    lookup 1 (Bus.run sample (Bus.disconnected sample busy) ending).0.waiting ≡ none
unfolding Bus.run Bus.step Bus.disconnected Bus.call_async Bus.reply_next Bus.return_received
    Message.of_return Message.of_call
run-disconnected_example = run-disconnected sample busy ending 1 (omega arith) (omega arith) refl

late_call_example :
    lookup 2
      (Bus.run sample
        (Bus.call_async sample
          (Bus.disconnected sample busy)
          7
          count_up
          (message Message.function count_up [])).0
        (rounds sample (λ o. true) 3)).0.waiting
    ≡ some (record { object = 7; slot = "count"; sync = false })
unfolding Bus.disconnected
late_call_example =
    late_call sample (λ o. true) 3 7 count_up (message Message.function count_up []) busy refl
