-- ===== src/Examples/Formats.antt =====
-- The properties of signatures, return values, messages and frames at concrete data.
use Prim.Native.Char.{Char}
use qt_rpc.Base.{
  ℕ, ◌≡◌, inl, inr, refl, true, false, List, [], ◌∷◌, ◌++◌, arith, ap, length, take, drop, ◌↔◌, ◌⊎◌,
  if◌then◌else◌,
}
use qt_rpc.Base.Text.{chars, of_chars, count, trimmed, skip}
use qt_rpc.Qt.{Bytes}
use qt_rpc.Signature
use qt_rpc.Signature.{Signature}
use qt_rpc.Signature.Accept.{Call, parse_cases}
use qt_rpc.Signature.Parse.{IsCall, call_text, parsed_args}
use qt_rpc.Signature.RoundTrip.{IsArg, IsNormal, parse-to_string}
use qt_rpc.Signature.Check.{Fit, test_iff}
use qt_rpc.ReturnValue
use qt_rpc.ReturnValue.{ReturnValue}
use qt_rpc.ReturnValue.Stream.{sent, IsWire, read-write_return}
use qt_rpc.Message
use qt_rpc.Message.{Message}
use qt_rpc.Message.Wire
use qt_rpc.Message.RoundTrip.{delivered, read-write_message}
use qt_rpc.Message.Versions.{magic_rejects, read_original-write, original_return}
use qt_rpc.Frame.{Reader, feed}
use qt_rpc.Frame.Chunks.{feed-append}
use qt_rpc.Frame.Sent.{IsIdle, frame, frames, handle_all, feed_all, feed_all-frames}
use qt_rpc.Examples.Sample.{Value, invalid, number, words, sample, sample-IsQt}

abbrev add_pair : Signature
add_pair = record { name = "add"; args = "uint" ∷ "uint" ∷ [] }

uint-IsArg : IsArg sample "uint"
unfolding count trimmed skip
uint-IsArg = record { no_open = refl; no_close = refl; no_comma = refl; no_edge = refl }

add_pair-IsNormal : IsNormal sample add_pair
unfolding count trimmed skip
add_pair-IsNormal = record {
  named = λ e. absurd (omega (arith, ap (λ s. length (chars s)) e));
  no_mark = ground arith;
  name_open = refl;
  name_close = refl;
  args_normal = (uint-IsArg, (uint-IsArg, tt));
  not_blank = λ e. absurd (omega (arith, ap length e));
}

parse-to_string_example :
    Signature.parse sample Signature.empty (Signature.to_string sample add_pair) ≡ (true, add_pair)
parse-to_string_example =
    parse-to_string sample sample-IsQt Signature.empty add_pair add_pair-IsNormal

abbrev no_result : ReturnValue Value
no_result = record {
  value = invalid;
  type = ReturnValue.variant;
  number = 0;
  string = "";
  raw_service = 0;
  held = 0;
  service_id = 0;
}

abbrev message : ℕ → Message.MessageType → List Value → ReturnValue Value → ℕ → Message Value
message id type args ret version = record {
  id = id;
  type = type;
  func = add_pair;
  args = args;
  ret = ret;
  version = version;
  service = 3;
}

abbrev call : Message Value
call = message 7 Message.function (number 1 ∷ number 2 ∷ []) no_result 2

read-write_message_example :
    Message.Wire.read sample
      (Message.set_version (Message.empty sample) call.version)
      (Message.Wire.write sample call ++ 9 ∷ [])
    ≡ (delivered sample call.version call, 9 ∷ [])
read-write_message_example =
    read-write_message sample sample-IsQt call (9 ∷ []) (inr refl) (omega arith) (omega arith)

abbrev old_call : Message Value
old_call = message 7 Message.function (number 1 ∷ number 2 ∷ []) no_result 0

magic_rejects_example :
    (Message.Wire.read sample
      (Message.set_version (Message.empty sample) 2)
      (Message.Wire.write sample old_call ++ [])).0.type
    ≡ Message.invalid
magic_rejects_example =
    magic_rejects sample sample-IsQt old_call [] (omega arith) (omega arith) (omega arith)

read_original-write_example :
    Message.Wire.read sample
      (Message.set_version (Message.empty sample) 0)
      (Message.Wire.write sample old_call ++ 9 ∷ [])
    ≡ (
      Message.set_service
          (Message.of_call sample old_call.id old_call.type old_call.func old_call.args)
          1,
      9 ∷ [],
    )
read_original-write_example =
    read_original-write sample sample-IsQt old_call 0 (9 ∷ []) (omega arith) (omega arith)
      (omega arith) (omega arith) (omega arith) (omega arith) refl add_pair-IsNormal

abbrev failure : ReturnValue Value
failure = record no_result { type = ReturnValue.error; number = 4; string = "no service" }

original_return_example :
    (Message.Wire.read sample (Message.set_version (Message.empty sample) 0) (
      Message.Wire.write sample (Message.set_version (Message.of_return sample 7 failure) 0)
      ++ [])).0.ret
    ≡ (if ReturnValue.is_error failure
        then ReturnValue.of_error sample failure.number failure.string
        else ReturnValue.of_value sample failure.value)
original_return_example =
    original_return sample sample-IsQt 7 failure 0 0 [] (omega arith) (omega arith) (omega arith)
      (omega arith) (omega arith) (omega arith)

failure-IsWire : IsWire failure
failure-IsWire = record {
  known = refl;
  small_type = omega arith;
  small_number = omega arith;
  small_id = omega arith;
}

read-write_return_example :
    ReturnValue.read sample (ReturnValue.empty sample) (ReturnValue.write sample failure ++ 9 ∷ [])
    ≡ (sent sample failure, 9 ∷ [])
read-write_return_example = read-write_return sample sample-IsQt failure (9 ∷ []) failure-IsWire

test_iff_example :
    (Signature.test sample add_pair (number 1 ∷ words "x" ∷ []) ≡ "")
    ↔ Fit sample add_pair.args (number 1 ∷ words "x" ∷ [])
test_iff_example = test_iff sample sample-IsQt add_pair (number 1 ∷ words "x" ∷ [])

parse_cases_example :
    ((name : List Char) × (args : List Char) × IsCall name args
      × (chars "f(uint)" ≡ call_text name args)
      × (Signature.parse sample add_pair "f(uint)"
          ≡ (true, record { name = of_chars name; args = parsed_args sample args })))
    ⊎ (¬ Call (chars "f(uint)"))
      × (Signature.parse sample add_pair "f(uint)" ≡ (false, record add_pair { args = [] }))
parse_cases_example = parse_cases sample add_pair "f(uint)"

-- A frame is appended to what was handled before it.
abbrev collect : List Bytes → Bytes → List Bytes
collect bs b = bs ++ b ∷ []

abbrev idle : Reader
idle = record { total_size = 0; read = 0; buffer = []; available = [] }

abbrev two_frames : Bytes
two_frames = 0 ∷ 0 ∷ 0 ∷ 0 ∷ 0 ∷ 0 ∷ 0 ∷ 2 ∷ 5 ∷ 6 ∷ 0 ∷ 0 ∷ 0 ∷ 0 ∷ 0 ∷ 0 ∷ 0 ∷ 1 ∷ 7 ∷ []

feed-append_example :
    feed sample collect ([], idle) ((1 ∷ 2 ∷ []) ++ 3 ∷ [])
    ≡ feed sample collect (feed sample collect ([], idle) (1 ∷ 2 ∷ [])) (3 ∷ [])
feed-append_example =
    feed-append sample sample-IsQt collect [] idle (1 ∷ 2 ∷ []) (3 ∷ []) (inl refl)

feed_all-frames_example :
    ((feed_all sample collect ([], idle) (take 3 two_frames ∷ drop 3 two_frames ∷ [])).0
      ≡ handle_all collect [] ((5 ∷ 6 ∷ []) ∷ (7 ∷ []) ∷ []))
    × IsIdle (feed_all sample collect ([], idle) (take 3 two_frames ∷ drop 3 two_frames ∷ [])).1
unfolding frames frame
feed_all-frames_example =
    feed_all-frames sample sample-IsQt collect [] idle ((5 ∷ 6 ∷ []) ∷ (7 ∷ []) ∷ [])
      (take 3 two_frames ∷ drop 3 two_frames ∷ []) (record { no_frame = refl; no_bytes = refl })
      (omega arith, (omega arith, tt)) refl
