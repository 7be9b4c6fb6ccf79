-- ===== src/Signature/Accept.antt =====
-- Signature::parse accepts the texts of the form "name(args)" and no other.
use Prim.Native.Char.{Char, code}
use qt_rpc.Base.{
  ℕ, suc, ◌≡◌, ◌≢◌, refl, sym, ap, ◌∙◌, String, true, false, Option, some, List, [], ◌∷◌, ◌++◌,
  arith, length, length-append, take, drop, inl, inr, Bool-cases, ◌⊎◌, length-drop,
}
use qt_rpc.Base.Text.{chars, of_chars, count, index_of}
use qt_rpc.Base.Search.{Free, count-append, index_of-some, code-injective}
use qt_rpc.Qt.{Qt}
use qt_rpc.Signature.{Signature, parse_at, parse}
use qt_rpc.Signature.Parse.{
  IsCall, call_text, open_paren, close_paren, parse_accepts, parse-false, parsed_args,
}

-- Where a text has both a `d` and, at its end, an `e`.
last_split :
    (d e : Char) (xs r p : List Char)
    → d ≢ e
    → xs ++ (d ∷ r) ≡ p ++ (e ∷ [])
    → (a : List Char) × (r ≡ a ++ (e ∷ [])) × (p ≡ xs ++ (d ∷ a))
last_split d e [] r [] ne h = absurd (ne (cc))
last_split d e [] r (x ∷ p) ne h = (p, ground arith, ground arith)
last_split d e (x ∷ xs) r [] ne h = absurd (omega (arith, ap length h, length-append xs (d ∷ r)))
last_split d e (x ∷ xs) r (y ∷ p) ne h =
    let (a, l, m) = last_split d e xs r p ne (ground arith) in (a, l, ground (arith, m))

-- A text that is of the form "name(args)".
abbrev pub Call : List Char → Type 0
Call sig = (name : List Char) × (args : List Char) × IsCall name args × (sig ≡ call_text name args)

one_left : (xs : List Char) → length xs ≡ 0 → xs ≡ []
one_left [] h = refl
one_left (x ∷ xs) h = absurd (omega (arith, h))

Call-of_splits :
    (cs name r p : List Char)
    → name ≢ []
    → count b'(' cs ≡ 1
    → cs ≡ name ++ (open_paren ∷ r)
    → Free b'(' name
    → cs ≡ p ++ (close_paren ∷ [])
    → Free b')' p
    → Call cs
unfolding count
Call-of_splits cs name r p named one_open e name_open e' p_close =
    let (args, r_eq, p_eq) = last_split open_paren close_paren name r p distinct (sym e ∙ e') in
    let opens = ap (count b'(') (e ∙ ap (λ (t : List Char). name ++ (open_paren ∷ t)) r_eq) in
    let closes = ap (count b')') p_eq in
    (
      name,
      args,
      record {
        named = named;
        name_open = name_open;
        name_close = omega (arith, closes, count-append b')' name (open_paren ∷ args));
        args_open = omega (
          arith,
          opens,
          count-append b'(' name (open_paren ∷ (args ++ (close_paren ∷ []))),
          count-append b'(' args (close_paren ∷ []),
        );
        args_close = omega (arith, closes, count-append b')' name (open_paren ∷ args));
      },
      e ∙ ap (λ (t : List Char). name ++ (open_paren ∷ t)) r_eq,
    )
  where
    distinct : open_paren ≢ close_paren
    distinct h = absurd (omega (arith, ap code h))

Call-of_indices :
    (cs : List Char) (i j : ℕ)
    → count b'(' cs ≡ 1
    → index_of b'(' cs ≡ some (suc i)
    → index_of b')' cs ≡ some j
    → suc j ≡ length cs
    → Call cs
Call-of_indices cs i j one_open at_open at_close end =
    let (d, d_open, open_split, open_free) = index_of-some b'(' cs (suc i) at_open in
    let (e, e_close, close_split, close_free) = index_of-some b')' cs j at_close in
    let is_open : d ≡ open_paren = code-injective d open_paren d_open in
    let is_close : e ≡ close_paren = code-injective e close_paren e_close in
    let nothing : drop (suc j) cs ≡ [] =
      one_left (drop (suc j) cs) (omega (arith, length-drop (suc j) cs)) in
    Call-of_splits cs (take (suc i) cs) (drop (suc (suc i)) cs) (take j cs) (named cs at_open)
      one_open
      (open_split ∙ ap (λ (x : Char). take (suc i) cs ++ (x ∷ drop (suc (suc i)) cs)) is_open)
      open_free
      (close_split
        ∙ ap (λ (x : Char). take j cs ++ (x ∷ drop (suc j) cs)) is_close
        ∙ ap (λ (t : List Char). take j cs ++ (close_paren ∷ t)) nothing)
      close_free
  where
    named : (xs : List Char) → index_of b'(' xs ≡ some (suc i) → take (suc i) xs ≢ []
    named [] h = unfold index_of in cc
    named (x ∷ xs) h = λ e. cc

module _ {V : Type 0} (q : Qt V) where
  parse_at-true :
      (s : Signature) (cs : List Char) (i j : Option ℕ)
      → count b'(' cs ≡ 1
      → index_of b'(' cs ≡ i
      → index_of b')' cs ≡ j
      → (parse_at q s cs i j).0 ≡ true
      → Call cs
  unfolding parse_at
  parse_at-true s cs (some (suc i)) (some j) one at_open at_close h =
      Call-of_indices cs i j one at_open at_close (ground arith)
  parse_at-true s cs _ _ one at_open at_close h = cc

  parse-true : (s : Signature) (sig : String) → (parse q s sig).0 ≡ true → Call (chars sig)
  unfolding parse
  parse-true s sig h = ground (
    arith,
    parse_at-true (record s { args = [] }) (chars sig) (index_of b'(' (chars sig))
        (index_of b')' (chars sig)),
  )

  -- `parse` succeeds exactly on the texts "name(args)" with a name, one parenthesis of each kind
  -- and nothing behind the closing one. It then replaces the name and the arguments; on any other
  -- text it keeps the name and leaves no arguments.
  pub parse_cases :
      (s : Signature) (sig : String)
      → ((name : List Char) × (args : List Char) × IsCall name args
          × (chars sig ≡ call_text name args)
          × (parse q s sig ≡ (true, record { name = of_chars name; args = parsed_args q args })))
        ⊎ (¬ Call (chars sig)) × (parse q s sig ≡ (false, record s { args = [] }))
  parse_cases s sig = elim (Bool-cases (parse q s sig).0) [
    | inl h ↦
        let (name, args, call, e) = parse-true s sig h in
        inl (name, args, call, e, parse_accepts q s sig name args call e)
    | inr h ↦ inr (
      λ (name, args, call, e). cc (parse_accepts q s sig name args call e, h),
      parse-false q s sig h,
    )
  ]
