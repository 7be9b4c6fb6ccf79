-- ===== src/Proxy/Bounds.antt =====
-- The array of pointers of ProxyBase::callMetacall in lib/proxybase.cpp.
use qt_rpc.Base.{
  ℕ, suc, ◌+◌, ◌≤◌, ◌<◌, ◌≡◌, ◌≢◌, ◌↔◌, refl, String, true, false, Option, none, some, List, [],
  ◌∷◌, arith, length, set, length-set, ltb, ltb→lt, eq_iff, str_eq, inl, inr, Bool-cases,
  Option-cases,
}
use qt_rpc.Qt.{Qt, IsQt}
use qt_rpc.Signature
use qt_rpc.Signature.{Signature, test}
use qt_rpc.Signature.Check.{Fit, Fit-length, test_iff}
use qt_rpc.Proxy.Metacall.{
  Meta, Invoked, Pointer, answered, thrown, overrun, finish, call_metacall, index_of, invoke,
  call_filled, fill, param, pointer_to,
}

module _ {V S : Type 0} (q : Qt V) (qt : IsQt q) (meta : Meta V S) where
  finish-no_overrun : (sig : Signature) (r : Invoked V × S) → (finish q meta sig r).0 ≢ overrun
  unfolding finish
  finish-no_overrun sig (answered ret true, s) = ground arith
  finish-no_overrun sig (answered ret false, s) = ground arith
  finish-no_overrun sig (thrown what, s) = ground arith

  invoke-no_overrun :
      (sig : Signature) (a : List (Option (Pointer V))) (s : S) (o : Option ℕ)
      → (invoke q meta sig a s o).0 ≢ overrun
  unfolding invoke
  invoke-no_overrun sig a s none = ground arith
  invoke-no_overrun sig a s (some id) = finish-no_overrun sig (meta.qt_metacall id a s)

  call_filled-no_overrun :
      (sig : Signature) (s : S) (a : List (Option (Pointer V)))
      → (call_filled q meta sig s a).0 ≢ overrun
  unfolding call_filled
  call_filled-no_overrun sig s a =
      ground (arith, invoke-no_overrun sig a s (index_of q meta (Signature.to_string q sig)))

  -- The loop leaves the array exactly when the arguments do not fit behind the place `i`.
  fill_iff :
      (i : ℕ) (names : List String) (args : List V) (a : List (Option (Pointer V)))
      → length names ≡ length args
      → i ≤ length a
      → (fill q meta i names args a ≡ none) ↔ (length a < i + length names)
  unfolding fill
  fill_iff i [] [] a same inside = ground (arith, inside)
  fill_iff i [] (v ∷ args) a same inside = absurd (omega (arith, same))
  fill_iff i (name ∷ names) [] a same inside = absurd (omega (arith, same))
  fill_iff i (name ∷ names) (v ∷ args) a same inside = elim (Bool-cases (ltb i (length a))) [
    | inl fits ↦
        let b = set a i (some (pointer_to q meta name v)) in
        let kept = length-set a i (some (pointer_to q meta name v)) in
        let below = ltb→lt i (length a) fits in
        let later =
          fill_iff (suc i) names args b (omega (arith, same)) (omega (arith, kept, below)) in
        rw (fill, fits)
          ((λ h. omega (arith, kept, later.0 h)), (λ h. later.1 (omega (arith, kept, h))))
    | inr full ↦ rw (fill, full) ((λ h. ground (arith, full, inside)), (λ h. refl))
  ]

  -- `callMetacall` writes behind the end of its array of pointers exactly for an argument list that
  -- fits its signature and is longer than ten.
  pub call_metacall-overrun :
      (sig : Signature) (args : List V) (s : S)
      → ((call_metacall q meta sig args s).0 ≡ overrun)
        ↔ (Fit q sig.args args × (10 < length sig.args))
  unfolding call_metacall
  call_metacall-overrun sig args s = elim (Bool-cases (str_eq (test q sig args) "")) [
    | inr refused ↦ ground (arith, refused, eq_iff (test q sig args) "", test_iff q qt sig args)
    | inl passed ↦
        let fit = (test_iff q qt sig args).0 ((eq_iff (test q sig args) "").0 passed) in
        let filled =
          fill_iff 0 sig.args args (param q meta) (Fit-length q qt sig.args args fit)
            (omega arith) in
        elim (Option-cases (fill q meta 0 sig.args args (param q meta))) [
          | inl left ↦
              rw (call_metacall, passed, left)
                ((λ h. (fit, omega (arith, filled.0 left))), (λ h. refl))
          | inr (a, e) ↦
              rw (call_metacall, passed, e)
                (
                  (λ h. absurd (call_filled-no_overrun sig s a h)),
                  (λ h. absurd (ground (arith, e, filled.1 (omega (arith, h.1))))),
                )
        ]
  ]
