-- ===== src/Examples/Sample.antt =====
-- A Qt with a small QVariant, and what the program relies on, proved of it.
use Prim.Native.Char.{code}
use qt_rpc.Base.{
  ℕ, zero, suc, ◌≢◌, refl, String, Bool, true, false, List, [], ◌∷◌, ◌++◌, map, length, ◌==◌, arith,
  ap,
}
use qt_rpc.Base.Text.{chars, of_chars, chars-of_chars}
use qt_rpc.Qt.{Qt, IsQt, Bytes, Codec, Reads}
use qt_rpc.Examples.Wire.{
  u32, u32-Reads, size64, size64-Reads, size64_exact, many, many-Reads, both, both-Reads, string,
  string-Reads, flag, flag-Reads,
}

pub data Value : Type 0 where
  invalid : Value
  number : ℕ → Value
  truth : Bool → Value
  words : String → Value
  texts : List String → Value
  token : ℕ → Value

abbrev put_value : Value → Bytes
put_value invalid = 0 ∷ []
put_value (number n) = 1 ∷ u32.put n
put_value (truth b) = 2 ∷ flag.put b
put_value (words s) = 3 ∷ string.put s
put_value (texts ss) = 4 ∷ (many string).put ss
put_value (token n) = 5 ∷ u32.put n

abbrev tagged : {A : Type 0} → (A → Value) → A × Bytes → Value × Bytes
tagged f (a, b) = (f a, b)

abbrev get_tag : ℕ → Bytes → Value × Bytes
get_tag (suc zero) b = tagged number (u32.get b)
get_tag (suc (suc zero)) b = tagged truth (flag.get b)
get_tag (suc (suc (suc zero))) b = tagged words (string.get b)
get_tag (suc (suc (suc (suc zero)))) b = tagged texts ((many string).get b)
get_tag (suc (suc (suc (suc (suc zero))))) b = tagged token (u32.get b)
get_tag _ b = (invalid, b)

abbrev value : Codec Value
value = record {
  put = put_value;
  get = λ b. elim b [ [] ↦ (invalid, []) | t ∷ rest ↦ get_tag t rest ];
}

value-Reads : (v : Value) → Reads value v
value-Reads invalid rest = refl
value-Reads (number n) rest = ap (tagged number) (u32-Reads n rest)
value-Reads (truth b) rest = ap (tagged truth) (flag-Reads b rest)
value-Reads (words s) rest = ap (tagged words) (string-Reads s rest)
value-Reads (texts ss) rest = ap (tagged texts) (many-Reads string string-Reads ss rest)
value-Reads (token n) rest = ap (tagged token) (u32-Reads n rest)

abbrev type_of : Value → String
type_of (number n) = "uint"
type_of (truth b) = "bool"
type_of (words s) = "QString"
type_of (texts ss) = "QStringList"
type_of (token n) = "AuthToken"
type_of invalid = ""

abbrev is_words : Value → Bool
is_words (words s) = true
is_words _ = false

abbrev number_of : Value → ℕ
number_of (number n) = n
number_of _ = 0

abbrev truth_of : Value → Bool
truth_of (truth b) = b
truth_of _ = false

abbrev words_of : Value → String
words_of (words s) = s
words_of _ = ""

abbrev token_of : Value → ℕ
token_of (token n) = n
token_of _ = 0

abbrev call_text : String → String → String
call_text name args = of_chars (chars name ++ (chars "(" ++ (chars args ++ chars ")")))

abbrev joined : String → String → String
joined s t = of_chars (chars s ++ chars t)

abbrev pub sample : Qt Value
sample = record {
  is_space = λ c. code c == 32;
  format_call = call_text;
  count_complaint = λ m n. "wrong number of arguments";
  type_complaint = λ i s t m n. "wrong type of an argument";
  complaint = joined;
  type_id = λ s. length (chars s);
  is_registered = λ n. true;
  type_name = type_of;
  is_text = is_words;
  null = invalid;
  of_uint = number;
  of_int = number;
  of_bool = truth;
  of_text = words;
  of_texts = texts;
  of_token = token;
  of_signatures = λ ss. texts (map (λ (s : String × List String). s.0) ss);
  to_uint = number_of;
  to_int = number_of;
  to_bool = truth_of;
  to_text = words_of;
  to_token = token_of;
  to_url = λ v. (words_of v, "", "");
  u32 = u32;
  size64 = size64;
  string = string;
  strings = many string;
  variant = value;
  variants = many value;
  flag = flag;
  entries = many (both string value);
  begin = λ ks. elim ks [ [] ↦ 0 | k ∷ _ ↦ k ];
}

differs : (s : String) → length (chars s) ≢ 0 → s ≢ ""
differs s some_letters e = some_letters (ap (λ t. length (chars t)) e)

pub sample-IsQt : IsQt sample
sample-IsQt = record {
  u32_reads = λ n small. u32-Reads n;
  size64_reads = λ n small. size64-Reads n;
  size64_length = λ n. refl;
  size64_exact = size64_exact;
  string_reads = string-Reads;
  strings_reads = many-Reads string string-Reads;
  variant_reads = value-Reads;
  variants_reads = many-Reads value value-Reads;
  flag_reads = flag-Reads;
  entries_reads = many-Reads (both string value) (both-Reads string value string-Reads value-Reads);
  format_plain = λ name args plain. chars-of_chars _;
  to_uint-of_uint = λ n small. refl;
  to_int-of_uint = λ n small. refl;
  to_int-of_int = λ n small. refl;
  to_text-of_text = λ s. refl;
  to_token-of_token = λ t. refl;
  count_complaint-ne_nil = λ m n. differs _ (omega arith);
  letter_is_no_space = λ c low high. ground arith;
  begin_in = λ k ks. ground arith;
  type_complaint-ne_nil = λ i s t m n. differs _ (omega arith);
}
