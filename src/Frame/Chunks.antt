-- ===== src/Frame/Chunks.antt =====
-- How the bytes of a device are cut into chunks makes no difference to the frames.
use qt_rpc.Base.{
  ℕ, zero, suc, ◌≤◌, ◌<◌, ◌^◌, ◌≡◌, ◌≢◌, inl, inr, refl, sym, ap, ◌∙◌, false, [], ◌∷◌, ◌++◌, arith,
  append_assoc, append-nil, length, length-append, take_all, drop_all, leb, Bool-cases,
}
use qt_rpc.Qt.{Qt, IsQt, Bytes}
use qt_rpc.Frame.Cut.{IsOpen, begin_inside, begin-receive, fill-receive, fill-fill}
use qt_rpc.Frame.Rounds.{
  round_lem, round_shrinks, round-IsOpen, ready_read_stop, ready_read_step, stops_empty,
  ready_read-IsOpen,
}
use qt_rpc.Frame.{
  Reader, wanted, fill, is_complete, stops, receive, begin, finish, round, ready_read, feed,
}

-- A frame that is not complete, on a device that has no more bytes.
record Waits (f : Reader) : Type 0 where
  empty : f.available ≡ []
  begun : f.total_size ≢ 0
  small : f.total_size < 2 ^ 63
  unfinished : is_complete f ≡ false

fill-Waits : (b : Reader) → length b.available < wanted b → Waits (fill b)
unfolding fill wanted is_complete
fill-Waits b h =
    rw
      (take_all (wanted b) b.available (omega arith), drop_all (wanted b) b.available (omega arith))
      (ground arith)

module _ {V : Type 0} {S : Type 0} (q : Qt V) (qt : IsQt q) (handle : S → Bytes → S) where
  finish-receive :
      (s : S) (r : Reader) (c : Bytes)
      → finish q handle s (receive r c)
        ≡ ((finish q handle s r).0, receive (finish q handle s r).1 c)
  unfolding finish is_complete
  finish-receive s r c = ground arith

  receive-IsOpen : (r : Reader) (c : Bytes) → IsOpen r → IsOpen (receive r c)
  receive-IsOpen r c (inl e) = inl e
  receive-IsOpen r c (inr h) = inr h

  stops-receive : (r : Reader) (c : Bytes) → stops r ≡ false → stops (receive r c) ≡ false
  unfolding stops
  stops-receive r c h = ground (arith, length-append r.available c)

  round-receive :
      (s : S) (r : Reader) (c : Bytes)
      → stops r ≡ false
      → wanted (begin q handle r) ≤ length (begin q handle r).available
      → round q handle s (receive r c) ≡ ((round q handle s r).0, receive (round q handle s r).1 c)
  round-receive s r c h fits =
      rw
        (
          round_lem q qt handle s (receive r c),
          round_lem q qt handle s r,
          begin-receive q qt handle r c h,
          fill-receive q qt handle (begin q handle r) c fits,
        )
        (finish-receive s (fill (begin q handle r)) c)

  finish-Waits : (s : S) (f : Reader) → Waits f → finish q handle s f ≡ (s, f)
  unfolding finish
  finish-Waits s f w = rw w.unfinished

  round_waits :
      (s : S) (r : Reader)
      → length (begin q handle r).available < wanted (begin q handle r)
      → round q handle s r ≡ (s, fill (begin q handle r))
  round_waits s r h = round_lem q qt handle s r ∙ finish-Waits s _ (fill-Waits _ h)

  -- the next bytes are read on into the frame that waits
  round-receive_waits :
      (s : S) (r : Reader) (c : Bytes)
      → stops r ≡ false
      → length (begin q handle r).available < wanted (begin q handle r)
      → round q handle s (receive (fill (begin q handle r)) c) ≡ round q handle s (receive r c)
  round-receive_waits s r c h short =
      let w = fill-Waits (begin q handle r) short in
      let f : Reader = fill (begin q handle r) in
      round_lem q qt handle s (receive f c)
      ∙ ap (λ (b : Reader). finish q handle s (fill b))
          (begin_inside q qt handle (receive f c) w.begun)
      ∙ ap (finish q handle s) (fill-fill q qt handle (begin q handle r) c (omega arith))
      ∙ ap (λ (b : Reader). finish q handle s (fill b)) (sym (begin-receive q qt handle r c h))
      ∙ sym (round_lem q qt handle s (receive r c))

  pub feed_lem :
      (s : S) (r : Reader) (c : Bytes)
      → feed q handle (s, r) c ≡ ready_read q handle s (receive r c)
  unfolding feed
  feed_lem s r c = refl

  stops-Waits : (f : Reader) (x : ℕ) (c : Bytes) → Waits f → stops (receive f (x ∷ c)) ≡ false
  unfolding stops
  stops-Waits f x c w = ground (arith, w.empty, w.begun)

  Waits-IsOpen : (f : Reader) → Waits f → IsOpen f
  unfolding is_complete
  Waits-IsOpen f w = inr (w.small, ground (arith, w.small, w.unfinished))

  -- a round that waits, and what comes later
  waits-receive :
      (s : S) (r : Reader) (c : Bytes)
      → IsOpen r
      → stops r ≡ false
      → length (begin q handle r).available < wanted (begin q handle r)
      → ready_read q handle s (receive r c)
        ≡ ready_read q handle s (receive (fill (begin q handle r)) c)
  waits-receive s r [] o h short =
      let f : Reader = fill (begin q handle r) in
      let w = fill-Waits (begin q handle r) short in
      rw (append-nil r.available, append-nil f.available)
        (ready_read_step q qt handle s r o h ∙ rw (round_waits s r short))
  waits-receive s r (x ∷ c) o h short =
      let f : Reader = fill (begin q handle r) in
      let w = fill-Waits (begin q handle r) short in
      ready_read_step q qt handle s (receive r (x ∷ c)) (receive-IsOpen r (x ∷ c) o)
        (stops-receive r (x ∷ c) h)
      ∙ ap (λ (p : S × Reader). ready_read q handle p.0 p.1)
          (sym (round-receive_waits s r (x ∷ c) h short))
      ∙ sym (
          ready_read_step q qt handle s (receive f (x ∷ c))
            (receive-IsOpen f (x ∷ c) (Waits-IsOpen f w)) (stops-Waits f x c w))

  ready_read-receive :
      (n : ℕ) (s : S) (r : Reader) (c : Bytes)
      → IsOpen r
      → length r.available < n
      → ready_read q handle s (receive r c) ≡ feed q handle (ready_read q handle s r) c
  ready_read-receive zero s r c o less = absurd (omega arith)
  ready_read-receive (suc n) s r c o less =
      let later = λ (e : stops r ≡ false).
        ready_read-receive n (round q handle s r).0 (round q handle s r).1 c
          (round-IsOpen q qt handle s r) (omega (arith, round_shrinks q qt handle s r o e)) in
      elim (Bool-cases (stops r)) [
        | inl e ↦ rw (ready_read_stop q qt handle s r e) (sym (feed_lem s r c))
        | inr e ↦
            let b : Reader = begin q handle r in
            elim (Bool-cases (leb (wanted b) (length b.available))) [
              | inl fits ↦ whole e (ground (arith, fits)) (later e)
              | inr short ↦ part e (ground (arith, short))
            ]
      ]
    where
      s' : S
      s' = (round q handle s r).0

      r' : Reader
      r' = (round q handle s r).1

      whole :
          stops r ≡ false
          → wanted (begin q handle r) ≤ length (begin q handle r).available
          → ready_read q handle s' (receive r' c) ≡ feed q handle (ready_read q handle s' r') c
          → ready_read q handle s (receive r c) ≡ feed q handle (ready_read q handle s r) c
      whole e fits later =
          ready_read_step q qt handle s (receive r c) (receive-IsOpen r c o) (stops-receive r c e)
          ∙ ap (λ (p : S × Reader). ready_read q handle p.0 p.1) (round-receive s r c e fits)
          ∙ later
          ∙ ap (λ (p : S × Reader). feed q handle p c) (sym (ready_read_step q qt handle s r o e))

      part :
          stops r ≡ false
          → length (begin q handle r).available < wanted (begin q handle r)
          → ready_read q handle s (receive r c) ≡ feed q handle (ready_read q handle s r) c
      part e short =
          let w = fill-Waits (begin q handle r) short in
          let f : Reader = fill (begin q handle r) in
          waits-receive s r c o e short
          ∙ sym (feed_lem s f c)
          ∙ ap (λ (p : S × Reader). feed q handle p c)
              (sym (
                ready_read_step q qt handle s r o e
                ∙ ap (λ (p : S × Reader). ready_read q handle p.0 p.1) (round_waits s r short)
                ∙ ready_read_stop q qt handle s f
                    (stops_empty q qt handle f (omega (arith, ap length w.empty)))))

  pub feed-IsOpen : (s : S) (r : Reader) (c : Bytes) → IsOpen r → IsOpen (feed q handle (s, r) c).1
  feed-IsOpen s r c o =
      rw (feed_lem s r c) (ready_read-IsOpen q qt handle s (receive r c) (receive-IsOpen r c o))

  -- For a reader that is between frames or inside one that is not complete, and whatever is done
  -- with a frame: bytes that arrive in two chunks leave the handler's state and the reader as if
  -- they had arrived in one.
  pub feed-append :
      (s : S) (r : Reader) (b c : Bytes)
      → IsOpen r
      → feed q handle (s, r) (b ++ c) ≡ feed q handle (feed q handle (s, r) b) c
  feed-append s r b c o =
      feed_lem s r (b ++ c)
      ∙ ap (λ (a : Bytes). ready_read q handle s (record r { available = a }))
          (sym (append_assoc r.available b c))
      ∙ ready_read-receive (suc (length (receive r b).available)) s (receive r b) c
          (receive-IsOpen r b o) (omega arith)
      ∙ ap (λ (p : S × Reader). feed q handle p c) (sym (feed_lem s r b))
