-- ===== src/Signature/Check.antt =====
-- Signature::test on an argument list, Signature::operator==, and the setters.
use qt_rpc.Base.{ℕ, ◌+◌, ◌≡◌, ◌↔◌, ◌⊎◌, refl, String, true, List, [], ◌∷◌, arith, length, eq_iff}
use qt_rpc.Base.Text.{texts_eq_iff}
use qt_rpc.Qt.{Qt, IsQt}
use qt_rpc.Signature.{Signature, arg_fits, test_from, test, equal}

-- A value may be passed where the type `a` is named: QVariant takes any value, a char pointer takes
-- a text, and any type takes the values of its meta type.
abbrev pub Takes : {V : Type 0} → Qt V → String → V → Type 0
Takes q a v =
    (a ≡ "QVariant")
    ⊎ ((q.is_text v ≡ true) × ((a ≡ "char*") ⊎ (a ≡ "const char*")))
    ⊎ (q.type_id (q.type_name v) ≡ q.type_id a)

-- Each argument of a list may be passed at its place, and there are as many as places.
abbrev pub Fit : {V : Type 0} → Qt V → List String → List V → Type 0
Fit q [] [] = Unit {0}
Fit q [] (v ∷ vs) = ⊥
Fit q (a ∷ as') [] = ⊥
Fit q (a ∷ as') (v ∷ vs) = Takes q a v × Fit q as' vs

module _ {V : Type 0} (q : Qt V) (qt : IsQt q) where
  arg_fits_iff : (a : String) (v : V) → (arg_fits q a v ≡ true) ↔ Takes q a v
  unfolding arg_fits
  arg_fits_iff a v = ground (arith, eq_iff a "QVariant", eq_iff a "char*", eq_iff a "const char*")

  test_from-Fit :
      (i : ℕ) (as' : List String) (vs : List V)
      → length as' ≡ length vs
      → (test_from q i as' vs ≡ "") ↔ Fit q as' vs
  unfolding test_from
  test_from-Fit i [] [] e = ground arith
  test_from-Fit i [] (v ∷ vs) e = absurd (omega (arith, e))
  test_from-Fit i (a ∷ as') [] e = absurd (omega (arith, e))
  test_from-Fit i (a ∷ as') (v ∷ vs) e = ground (
    arith,
    arg_fits_iff a v,
    test_from-Fit (i + 1) as' vs (omega (arith, e)),
    qt.type_complaint-ne_nil i (q.type_name v) a (q.type_id (q.type_name v)) (q.type_id a),
  )

  pub Fit-length : (as' : List String) (vs : List V) → Fit q as' vs → length as' ≡ length vs
  Fit-length [] [] h = refl
  Fit-length [] (v ∷ vs) h = absurd h
  Fit-length (a ∷ as') [] h = absurd h
  Fit-length (a ∷ as') (v ∷ vs) h = omega (arith, Fit-length as' vs h.1)

  -- `test` returns the null string exactly for the lists that have as many arguments as the
  -- signature, each of the type named at its place: any value for QVariant, a text for a char
  -- pointer, and else the same meta type.
  pub test_iff : (s : Signature) (vs : List V) → (test q s vs ≡ "") ↔ Fit q s.args vs
  unfolding test
  test_iff s vs = ground (
    arith,
    test_from-Fit 0 s.args vs,
    Fit-length s.args vs,
    qt.count_complaint-ne_nil (length vs) (length s.args),
  )

-- Two signatures are `==` exactly if their names and their argument types are the same.
pub equal_iff : (s t : Signature) → (equal s t ≡ true) ↔ (s ≡ t)
unfolding equal
equal_iff s t = ground (arith, eq_iff s.name t.name, texts_eq_iff s.args t.args)
