-- ===== src/Signature/Parse.antt =====
-- What Signature::parse accepts, and that it reads back what Signature::toString writes.
use Prim.Native.Char.{Char}
use qt_rpc.Base.{
  ℕ, suc, ◌+◌, ◌-◌, ◌≡◌, ◌≢◌, refl, sym, ap, ◌∙◌, String, true, false, Option, some, List, [], ◌∷◌,
  ◌++◌, arith, append_assoc, length, length-append, take, drop, take-length_append,
}
use qt_rpc.Base.Text.{chars, of_chars, count, index_of}
use qt_rpc.Base.Search.{Free, count-append, index_of-append}
use qt_rpc.Qt.{Qt}
use qt_rpc.Signature.{Signature, split_args, with_parts, parse_at, parse}

abbrev pub open_paren : Char
open_paren = "("

abbrev pub close_paren : Char
close_paren = ")"

-- "name(args)"
abbrev pub call_text : List Char → List Char → List Char
call_text name args = name ++ (open_paren ∷ (args ++ (close_paren ∷ [])))

-- A text with one parenthesis of each kind, the first behind a name and the second at the end.
pub record IsCall (name args : List Char) : Type 0 where
  pub named : name ≢ []
  pub name_open : Free b'(' name
  pub name_close : Free b')' name
  pub args_open : Free b'(' args
  pub args_close : Free b')' args

pub call_open : (name args : List Char) → IsCall name args → count b'(' (call_text name args) ≡ 1
unfolding count
call_open name args h = omega (
  arith,
  count-append b'(' name (open_paren ∷ (args ++ (close_paren ∷ []))),
  count-append b'(' args (close_paren ∷ []),
  h.name_open,
  h.args_open,
)

pub call_close : (name args : List Char) → IsCall name args → count b')' (call_text name args) ≡ 1
unfolding count
call_close name args h = omega (
  arith,
  count-append b')' name (open_paren ∷ (args ++ (close_paren ∷ []))),
  count-append b')' args (close_paren ∷ []),
  h.name_close,
  h.args_close,
)

call_open_at :
    (name args : List Char)
    → IsCall name args
    → index_of b'(' (call_text name args) ≡ some (length name)
call_open_at name args h = index_of-append open_paren name _ h.name_open

-- The text up to its closing parenthesis.
before_close :
    (name args : List Char)
    → call_text name args ≡ (name ++ (open_paren ∷ args)) ++ (close_paren ∷ [])
before_close name args = sym (append_assoc name (open_paren ∷ args) (close_paren ∷ []))

call_close_at :
    (name args : List Char)
    → IsCall name args
    → index_of b')' (call_text name args) ≡ some (length name + suc (length args))
unfolding count
call_close_at name args h = rw (before_close name args) (
    index_of-append close_paren (name ++ (open_paren ∷ args)) []
      (omega (arith, count-append b')' name (open_paren ∷ args), h.name_close, h.args_close))
    ∙ ap some (length-append name (open_paren ∷ args)))

length-call_text :
    (name args : List Char) → length (call_text name args) ≡ suc (length name + suc (length args))
length-call_text name args = omega (
  arith,
  length-append name (open_paren ∷ (args ++ (close_paren ∷ []))),
  length-append args (close_paren ∷ []),
)

-- The arguments that the inner text stands for: none if it is empty.
abbrev pub parsed_args : {V : Type 0} → Qt V → List Char → List String
parsed_args q [] = []
parsed_args q (x ∷ xs) = split_args q (x ∷ xs)

mid_call :
    (name args : List Char)
    → take
        (length name + suc (length args) - length name - 1)
        (drop (suc (length name)) (call_text name args))
      ≡ args
mid_call [] args = rw (length_mid (length args)) (take-length_append args (close_paren ∷ []))
  where
    length_mid : (n : ℕ) → 0 + suc n - 0 - 1 ≡ n
    length_mid n = omega arith
mid_call (c ∷ cs) args = rw (same (length cs) (length args)) (mid_call cs args)
  where
    same : (m n : ℕ) → suc m + suc n - suc m - 1 ≡ m + suc n - m - 1
    same m n = omega arith

module _ {V : Type 0} (q : Qt V) where
  with_parts_call :
      (s : Signature) (name args : List Char)
      → s.args ≡ []
      → with_parts q s name args ≡ record { name = of_chars name; args = parsed_args q args }
  unfolding with_parts
  with_parts_call s name [] h = ground (arith, h)
  with_parts_call s name (x ∷ xs) h = refl

  parse_at_call :
      (s : Signature) (c : Char) (cs args : List Char)
      → s.args ≡ []
      → parse_at q s
          (call_text (c ∷ cs) args)
          (some (length (c ∷ cs)))
          (some (length (c ∷ cs) + suc (length args)))
        ≡ (true, record { name = of_chars (c ∷ cs); args = parsed_args q args })
  unfolding parse_at
  parse_at_call s c cs args h = ground (
    arith,
    length-call_text (c ∷ cs) args,
    mid_call (c ∷ cs) args,
    take-length_append (c ∷ cs) (open_paren ∷ (args ++ (close_paren ∷ []))),
    with_parts_call s (c ∷ cs) args h,
  )

  parse-call :
      (s : Signature) (sig : String) (c : Char) (cs args : List Char)
      → IsCall (c ∷ cs) args
      → chars sig ≡ call_text (c ∷ cs) args
      → parse q s sig ≡ (true, record { name = of_chars (c ∷ cs); args = parsed_args q args })
  unfolding parse
  parse-call s sig c cs args h e = rw e (
      ground (
        arith,
        call_open (c ∷ cs) args h,
        call_close (c ∷ cs) args h,
        call_open_at (c ∷ cs) args h,
        call_close_at (c ∷ cs) args h,
        parse_at_call (record s { args = [] }) c cs args refl,
      ))

  -- A text of the form "name(args)" is accepted, whatever was in the signature before.
  pub parse_accepts :
      (s : Signature) (sig : String) (name args : List Char)
      → IsCall name args
      → chars sig ≡ call_text name args
      → parse q s sig ≡ (true, record { name = of_chars name; args = parsed_args q args })
  parse_accepts s sig [] args h e = absurd (h.named refl)
  parse_accepts s sig (c ∷ cs) args h e = parse-call s sig c cs args h e

  parse_at-false :
      (s : Signature) (sig : List Char) (i j : Option ℕ)
      → (parse_at q s sig i j).0 ≡ false
      → parse_at q s sig i j ≡ (false, s)
  unfolding parse_at
  parse_at-false s sig (some (suc i)) (some j) h = ground arith
  parse_at-false s sig _ _ h = refl

  pub parse-false :
      (s : Signature) (sig : String)
      → (parse q s sig).0 ≡ false
      → parse q s sig ≡ (false, record s { args = [] })
  unfolding parse
  parse-false s sig h = ground (
    arith,
    parse_at-false (record s { args = [] }) (chars sig) (index_of b'(' (chars sig))
        (index_of b')' (chars sig)),
  )
