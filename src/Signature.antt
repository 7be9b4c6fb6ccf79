-- ===== src/Signature.antt =====
-- lib/signature.cpp: the signature of a function, its parser, and the test of an argument list.
-- A QString is a `String`, a QVector<QString> a list; indices are not negative.
pub mod Parse
pub mod Accept
pub mod RoundTrip
pub mod Check
use Prim.Native.Char.{Char}
use qt_rpc.Base.{
  ℕ, suc, ◌+◌, ◌-◌, String, Bool, true, false, not, ◌&&◌, ◌||◌, Option, none, some, List, [], ◌∷◌,
  ◌++◌, map, str_eq, ltb, ◌==◌, if◌then◌else◌, length, get_or, set, take, drop, replicate,
}
use qt_rpc.Base.Text.{chars, of_chars, count, index_of, split, join, trimmed, texts_eq}
use qt_rpc.Qt.{Qt, Bytes}

pub record Signature : Type 0 where
  pub name : String
  pub args : List String

abbrev pub comma : Char
comma = ","

-- Signature()
abbrev pub empty : Signature
empty = record { name = ""; args = [] }

module _ {V : Type 0} (q : Qt V) where
  -- the elements of args.split(","), trimmed
  unfoldable pub split_args : List Char → List String
  split_args args =
      let (w, ws) = split b',' args in
      map (λ (s : List Char). of_chars (trimmed q.is_space s)) (w ∷ ws)

  -- the name, and the arguments unless their text is empty
  unfoldable pub with_parts : Signature → List Char → List Char → Signature
  unfolding split_args
  with_parts s name [] = record s { name = of_chars name }
  with_parts s name (x ∷ xs) = record s { name = of_chars name; args = split_args (x ∷ xs) }

  -- the part of `parse` behind its first two tests
  unfoldable pub parse_at : Signature → List Char → Option ℕ → Option ℕ → Bool × Signature
  unfolding with_parts
  parse_at s sig (some (suc index)) (some index2) =
      if not (suc index2 == length sig) then (false, s) else (
        true,
        with_parts s (take (suc index) sig)
            (take (index2 - suc index - 1) (drop (suc (suc index)) sig)),
      )
  parse_at s sig _ _ = (false, s)

  -- parse(const QString&); a failure leaves the old name and no arguments
  unfoldable pub parse : Signature → String → Bool × Signature
  unfolding parse_at
  parse s sig =
      let s = record s { args = [] } in
      let cs = chars sig in
      if not (count b'(' cs == 1)
      then (false, s)
      else if not (count b')' cs == 1)
      then (false, s)
      else parse_at s cs (index_of b'(' cs) (index_of b')' cs)

  -- Signature(QString), Signature(const QByteArray&)
  unfoldable pub of_string : String → Signature
  unfolding parse
  of_string sig = (parse empty sig).1

  -- Signature(const char*); a null pointer is `none`
  unfoldable pub of_pointer : Option String → Signature
  unfolding of_string
  of_pointer none = of_string ""
  of_pointer (some sig) = elim (chars sig) [
    | [] ↦ of_string sig
    | c ∷ cs ↦ if Prim.Native.Char.code c == b'1' then of_string (of_chars cs) else of_string sig
  ]

  -- toString()
  unfoldable pub to_string : Signature → String
  to_string s = q.format_call s.name (of_chars (join comma (map chars s.args)))

  -- setName(const QString&), setArgs(const QVector<QString>&)
  unfoldable pub set_name : Signature → String → Signature
  set_name s name = record s { name = name }

  unfoldable pub set_args : Signature → List String → Signature
  set_args s args = record s { args = args }

  -- numArgs(), setNumArgs(int)
  unfoldable pub num_args : Signature → ℕ
  num_args s = length s.args

  unfoldable pub set_num_args : Signature → ℕ → Signature
  set_num_args s n = record s { args = take n s.args ++ replicate (n - length s.args) "" }

  -- arg(int), setArg(int, QString)
  unfoldable pub arg : Signature → ℕ → String
  arg s n = get_or s.args n ""

  unfoldable pub set_arg : Signature → ℕ → String → Bool × Signature
  set_arg s n value =
      if ltb n (length s.args) then (true, record s { args = set s.args n value }) else (false, s)

  -- one round of the loop of test(const QVariantList&): the `continue`s, then the comparison
  unfoldable pub arg_fits : String → V → Bool
  arg_fits wanted v =
      str_eq wanted "QVariant"
      || (q.is_text v && (str_eq wanted "char*" || str_eq wanted "const char*"))
      || q.type_id (q.type_name v) == q.type_id wanted

  -- the loop, from index `i` on
  unfoldable pub test_from : ℕ → List String → List V → String
  unfolding arg_fits
  test_from i (wanted ∷ args) (v ∷ list) =
      let rest = test_from (i + 1) args list in
      if arg_fits wanted v
      then rest
      else q.type_complaint i (q.type_name v) wanted (q.type_id (q.type_name v)) (q.type_id wanted)
  test_from i _ _ = ""

  -- test(const QVariantList&); the null string is ""
  unfoldable pub test : Signature → List V → String
  unfolding test_from
  test s list =
      if not (length s.args == length list)
      then q.count_complaint (length list) (length s.args)
      else test_from 0 s.args list

  -- test(QVariant arg1, ..., QVariant arg10)
  unfoldable pub test_values : Signature → V × V × V × V × V × V × V × V × V × V → String
  unfolding test
  test_values s (a, b, c, d, e, f, g, h, i, j) =
      test s (take (length s.args) (a ∷ b ∷ c ∷ d ∷ e ∷ f ∷ g ∷ h ∷ i ∷ j ∷ []))

  -- validate()
  unfoldable pub validate_args : List String → Bool
  validate_args [] = true
  validate_args (a ∷ as') = q.is_registered (q.type_id a) && validate_args as'

  unfoldable pub validate : Signature → Bool
  unfolding validate_args
  validate s = validate_args s.args

  -- operator<< and operator>> of QDataStream
  unfoldable pub write : Signature → Bytes
  write s = q.string.put s.name ++ q.strings.put s.args

  unfoldable pub read : Bytes → Signature × Bytes
  read b =
      let (name, b) = q.string.get b in
      let (args, b) = q.strings.get b in (record { name = name; args = args }, b)

-- operator==
unfoldable pub equal : Signature → Signature → Bool
equal s t =
    if not (length s.args == length t.args)
    then false
    else if not (str_eq s.name t.name)
    then false
    else if not (texts_eq s.args t.args)
    then false
    else true
