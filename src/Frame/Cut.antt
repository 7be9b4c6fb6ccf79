-- ===== src/Frame/Cut.antt =====
-- The steps of a round of the loop on a device that has more bytes: `begin` and `fill`.
use qt_rpc.Base.{
  ℕ, ◌+◌, ◌-◌, ◌≤◌, ◌<◌, ◌^◌, ◌≡◌, ◌≢◌, ◌⊎◌, inl, inr, sym, ap, ◌∙◌, false, [], ◌++◌, arith,
  append_assoc, length, length-append, take, drop, take-append-drop, length-take, take-append_le,
  drop-append_le, take-append_ge, drop-append_ge, take_all, drop_all, ◌==◌, Bool-cases,
}
use native.Mathlib.Nat.{add_assoc}
use qt_rpc.Qt.{Qt, IsQt, Bytes}
use qt_rpc.Frame.{Reader, wanted, fill, stops, receive, begin}

-- Between two signals of the device: no frame, or one that is not complete.
abbrev pub IsOpen : Reader → Type 0
IsOpen r = (r.total_size ≡ 0) ⊎ ((r.total_size < 2 ^ 63) × (r.read < r.total_size))

module _ {V : Type 0} {S : Type 0} (q : Qt V) (qt : IsQt q) (handle : S → Bytes → S) where
  -- the size is read from the first eight bytes
  pub size_header :
      (b : Bytes) → 8 ≤ length b → q.size64.get b ≡ ((q.size64.get (take 8 b)).0, drop 8 b)
  size_header b h =
      ap q.size64.get (sym (take-append-drop 8 b))
      ∙ qt.size64_exact (take 8 b) (drop 8 b) (length-take 8 b h)

  pub begin_header :
      (r : Reader)
      → r.total_size ≡ 0
      → 8 ≤ length r.available
      → begin q handle r ≡ record {
        total_size = (q.size64.get (take 8 r.available)).0;
        read = 0;
        buffer = [];
        available = drop 8 r.available;
      }
  unfolding begin
  begin_header r e h = simp (e, size_header r.available h)

  pub begin_inside : (r : Reader) → r.total_size ≢ 0 → begin q handle r ≡ r
  unfolding begin
  begin_inside r h = ground arith

  pub has_header : (r : Reader) → stops r ≡ false → r.total_size ≡ 0 → 8 ≤ length r.available
  unfolding stops
  has_header r h e = ground arith

  pub begin-receive :
      (r : Reader) (c : Bytes)
      → stops r ≡ false
      → begin q handle (receive r c) ≡ receive (begin q handle r) c
  begin-receive r c h = elim (Bool-cases (r.total_size == 0)) [
    | inl e ↦
        let zero_size : r.total_size ≡ 0 = ground arith in
        let long : 8 ≤ length r.available = has_header r h zero_size in
        begin_header (receive r c) zero_size (omega (arith, length-append r.available c))
        ∙ rw (
          begin_header r zero_size long,
          take-append_le 8 r.available c long,
          drop-append_le 8 r.available c long,
        )
    | inr e ↦
        let inside : r.total_size ≢ 0 = ground arith in
        begin_inside (receive r c) inside
        ∙ ap (λ (r : Reader). receive r c) (sym (begin_inside r inside))
  ]

  -- a frame whose bytes are all there does not touch what comes behind them
  pub fill-receive :
      (r : Reader) (c : Bytes)
      → wanted r ≤ length r.available
      → fill (receive r c) ≡ receive (fill r) c
  unfolding fill
  fill-receive r c h =
      rw (take-append_le (wanted r) r.available c h, drop-append_le (wanted r) r.available c h)

  -- the reader when it has taken all that there is
  drained : Reader → Reader
  drained r = record r {
    buffer = r.buffer ++ r.available;
    read = r.read + length r.available;
    available = [];
  }

  fill_short : (r : Reader) → length r.available ≤ wanted r → fill r ≡ drained r
  unfolding fill drained
  fill_short r h = rw (take_all (wanted r) r.available h, drop_all (wanted r) r.available h)

  wanted-drained :
      (r : Reader) (c : Bytes)
      → wanted (receive (drained r) c) ≡ wanted (receive r c) - length r.available
  unfolding wanted drained
  wanted-drained r c = ground arith

  fill-drained :
      (r : Reader) (c : Bytes)
      → length r.available ≤ wanted r
      → fill (receive (drained r) c) ≡ fill (receive r c)
  unfolding fill drained
  fill-drained r c h =
      let k : ℕ = wanted r - length r.available in
      let takes = take-append_ge (wanted r) r.available c h in
      let counts = length-append r.available (take k c) in
      simp (
        wanted-drained r c,
        takes,
        drop-append_ge (wanted r) r.available c h,
        counts,
        append_assoc,
        add_assoc,
      )

  -- the rest of a frame is read where its beginning was left
  pub fill-fill :
      (r : Reader) (c : Bytes)
      → length r.available ≤ wanted r
      → fill (receive (fill r) c) ≡ fill (receive r c)
  fill-fill r c h = rw (fill_short r h) (fill-drained r c h)
