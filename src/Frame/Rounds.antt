-- ===== src/Frame/Rounds.antt =====
-- The loop by rounds: each takes a byte at least, so that the fuel is enough.
use qt_rpc.Base.{
  ℕ, zero, suc, ◌+◌, ◌-◌, ◌≤◌, ◌<◌, ◌≡◌, ◌⊎◌, inl, inr, refl, sym, ap, ◌∙◌, true, false, arith,
  length, length-drop, Bool-cases,
}
use native.Mathlib.Nat.{zero-add, suc-add}
use qt_rpc.Qt.{Qt, IsQt, Bytes}
use qt_rpc.Frame.Cut.{IsOpen, begin_header, begin_inside, has_header}
use qt_rpc.Frame.{Reader, wanted, fill, is_complete, stops, begin, finish, round, loop, ready_read}

module _ {V : Type 0} {S : Type 0} (q : Qt V) (qt : IsQt q) (handle : S → Bytes → S) where
  begin_shrinks :
      (r : Reader)
      → IsOpen r
      → stops r ≡ false
      → (length (begin q handle r).available < length r.available)
        ⊎ ((begin q handle r ≡ r) × (1 ≤ wanted r) × (1 ≤ length r.available))
  begin_shrinks r (inl e) h = inl (
      rw (begin_header q qt handle r e (has_header q qt handle r h e))
        (omega (arith, length-drop 8 r.available, has_header q qt handle r h e)))
  begin_shrinks r (inr (small, more)) h = inr (
    begin_inside q qt handle r (omega arith),
    unfold wanted in ground arith,
    unfold stops in ground arith,
  )

  fill_shrinks : (r : Reader) → length (fill r).available ≡ length r.available - wanted r
  unfolding fill
  fill_shrinks r = length-drop (wanted r) r.available

  finish_available : (s : S) (r : Reader) → (finish q handle s r).1.available ≡ r.available
  unfolding finish
  finish_available s r = ground arith

  pub round_lem :
      (s : S) (r : Reader) → round q handle s r ≡ finish q handle s (fill (begin q handle r))
  unfolding round
  round_lem s r = refl

  -- every round takes a byte at least
  pub round_shrinks :
      (s : S) (r : Reader)
      → IsOpen r
      → stops r ≡ false
      → length (round q handle s r).1.available < length r.available
  round_shrinks s r o h =
      rw
        (
          round_lem s r,
          finish_available s (fill (begin q handle r)),
          fill_shrinks (begin q handle r),
        )
        (elim (begin_shrinks r o h) [
          | inl less ↦ omega (arith, less)
          | inr (e, some_wanted, some_there) ↦ rw e (omega (arith, some_wanted, some_there))
        ])

  finish-IsOpen : (s : S) (r : Reader) → IsOpen (finish q handle s r).1
  unfolding finish is_complete
  finish-IsOpen s r = ground arith

  pub round-IsOpen : (s : S) (r : Reader) → IsOpen (round q handle s r).1
  round-IsOpen s r = rw (round_lem s r) (finish-IsOpen s (fill (begin q handle r)))

  pub loop_stop : (fuel : ℕ) (s : S) (r : Reader) → stops r ≡ true → loop q handle fuel s r ≡ (s, r)
  unfolding loop
  loop_stop zero s r h = refl
  loop_stop (suc fuel) s r h = rw (h, loop)

  pub loop_step :
      (fuel : ℕ) (s : S) (r : Reader)
      → stops r ≡ false
      → loop q handle (suc fuel) s r
        ≡ loop q handle fuel (round q handle s r).0 (round q handle s r).1
  unfolding loop
  loop_step fuel s r h = rw (h, loop)

  pub stops_empty : (r : Reader) → length r.available ≤ 0 → stops r ≡ true
  unfolding stops
  stops_empty r h = ground arith

  -- more fuel than bytes changes nothing
  loop_more :
      (fuel : ℕ) (s : S) (r : Reader)
      → IsOpen r
      → length r.available ≤ fuel
      → loop q handle (suc fuel) s r ≡ loop q handle fuel s r
  loop_more zero s r o h =
      loop_stop 1 s r (stops_empty r h) ∙ sym (loop_stop 0 s r (stops_empty r h))
  loop_more (suc fuel) s r o h = elim (Bool-cases (stops r)) [
    | inl e ↦ loop_stop (suc (suc fuel)) s r e ∙ sym (loop_stop (suc fuel) s r e)
    | inr e ↦
        loop_step (suc fuel) s r e
        ∙ loop_more fuel (round q handle s r).0 (round q handle s r).1 (round-IsOpen s r)
            (omega (arith, round_shrinks s r o e))
        ∙ sym (loop_step fuel s r e)
  ]

  loop_enough :
      (extra : ℕ) (s : S) (r : Reader)
      → IsOpen r
      → loop q handle (extra + length r.available) s r ≡ ready_read q handle s r
  unfolding ready_read
  loop_enough zero s r o = rw (zero-add (length r.available))
  loop_enough (suc extra) s r o =
      rw (suc-add extra (length r.available))
        (loop_more (extra + length r.available) s r o (omega arith) ∙ loop_enough extra s r o)

  -- `ready_read` by rounds
  pub ready_read_lem :
      (s : S) (r : Reader) → ready_read q handle s r ≡ loop q handle (length r.available) s r
  unfolding ready_read
  ready_read_lem s r = refl

  pub ready_read_stop : (s : S) (r : Reader) → stops r ≡ true → ready_read q handle s r ≡ (s, r)
  unfolding ready_read
  ready_read_stop s r h = loop_stop (length r.available) s r h

  pub ready_read_step :
      (s : S) (r : Reader)
      → IsOpen r
      → stops r ≡ false
      → ready_read q handle s r ≡ ready_read q handle (round q handle s r).0 (round q handle s r).1
  ready_read_step s r o h =
      let rest : ℕ = length (round q handle s r).1.available in
      let extra : ℕ = length r.available - suc rest in
      let count : length r.available ≡ suc (extra + rest) = omega (arith, round_shrinks s r o h) in
      ready_read_lem s r
      ∙ ap (λ (k : ℕ). loop q handle k s r) count
      ∙ loop_step (extra + rest) s r h
      ∙ loop_enough extra (round q handle s r).0 (round q handle s r).1 (round-IsOpen s r)

  loop-IsOpen : (fuel : ℕ) (s : S) (r : Reader) → IsOpen r → IsOpen (loop q handle fuel s r).1
  loop-IsOpen zero s r o = unfold loop in o
  loop-IsOpen (suc fuel) s r o = elim (Bool-cases (stops r)) [
    | inl e ↦ rw (loop_stop (suc fuel) s r e) o
    | inr e ↦
        rw (loop_step fuel s r e)
          (loop-IsOpen fuel (round q handle s r).0 (round q handle s r).1 (round-IsOpen s r))
  ]

  pub ready_read-IsOpen : (s : S) (r : Reader) → IsOpen r → IsOpen (ready_read q handle s r).1
  ready_read-IsOpen s r o = rw (ready_read_lem s r) (loop-IsOpen (length r.available) s r o)
