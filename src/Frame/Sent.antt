-- ===== src/Frame/Sent.antt =====
-- Frames as writeMessage() sends them, against the loop that reads them.
use qt_rpc.Base.{
  ◌<◌, ◌^◌, ◌≡◌, ◌≢◌, inl, refl, sym, ap, ◌∙◌, false, List, [], ◌∷◌, ◌++◌, arith, append_assoc,
  append-nil, length, length-append, All, take-length_append, drop-length_append,
}
use qt_rpc.Qt.{Qt, IsQt, Bytes}
use qt_rpc.Frame.Cut.{IsOpen}
use qt_rpc.Frame.Rounds.{round_lem, ready_read_stop, ready_read_step, stops_empty}
use qt_rpc.Frame.Chunks.{feed-append, feed_lem, feed-IsOpen}
use qt_rpc.Frame.{
  Reader, wanted, fill, is_complete, stops, receive, begin, finish, round, ready_read, feed,
}

-- stream << msg.size() << msg, on the bytes of the message
unfoldable pub frame : {V : Type 0} → Qt V → Bytes → Bytes
frame q body = q.size64.put (length body) ++ body

unfoldable pub frames : {V : Type 0} → Qt V → List Bytes → Bytes
frames q [] = []
frames q (b ∷ bs) = frame q b ++ frames q bs

abbrev pub concat : List Bytes → Bytes
concat [] = []
concat (c ∷ cs) = c ++ concat cs

abbrev pub handle_all : {S : Type 0} → (S → Bytes → S) → S → List Bytes → S
handle_all handle s [] = s
handle_all handle s (b ∷ bs) = handle_all handle (handle s b) bs

abbrev pub feed_all :
    {V : Type 0} {S : Type 0} → Qt V → (S → Bytes → S) → S × Reader → List Bytes → S × Reader
feed_all q handle p [] = p
feed_all q handle p (c ∷ cs) = feed_all q handle (feed q handle p c) cs

-- A reader at the end of a frame, with nothing left on the device.
pub record IsIdle (r : Reader) : Type 0 where
  pub no_frame : r.total_size ≡ 0
  pub no_bytes : r.available ≡ []

module _ {V : Type 0} {S : Type 0} (q : Qt V) (qt : IsQt q) (handle : S → Bytes → S) where
  begin_frame :
      (r : Reader) (body rest : Bytes)
      → r.total_size ≡ 0
      → r.available ≡ frame q body ++ rest
      → length body < 2 ^ 63
      → begin q handle r
        ≡ record { total_size = length body; read = 0; buffer = []; available = body ++ rest }
  unfolding begin frame
  begin_frame r body rest e a small = simp (e, a, append_assoc, qt.size64_reads (length body) small)

  fill_frame :
      (body rest : Bytes)
      → length body < 2 ^ 63
      → fill (record { total_size = length body; read = 0; buffer = []; available = body ++ rest })
        ≡ record { total_size = length body; read = length body; buffer = body; available = rest }
  unfolding fill wanted
  fill_frame body rest small =
      ground (arith, take-length_append body rest, drop-length_append body rest)

  round-frame :
      (s : S) (r : Reader) (body rest : Bytes)
      → r.total_size ≡ 0
      → r.available ≡ frame q body ++ rest
      → length body < 2 ^ 63
      → round q handle s r
        ≡ (handle s body, record { total_size = 0; read = 0; buffer = body; available = rest })
  unfolding finish is_complete
  round-frame s r body rest e a small =
      round_lem q qt handle s r
      ∙ rw (begin_frame r body rest e a small, fill_frame body rest small) (ground arith)

  stops-frame :
      (r : Reader) (body rest : Bytes) → r.available ≡ frame q body ++ rest → stops r ≡ false
  unfolding stops frame
  stops-frame r body rest a = ground (
    arith,
    ap length a,
    length-append (q.size64.put (length body) ++ body) rest,
    length-append (q.size64.put (length body)) body,
    qt.size64_length (length body),
  )

  ready_read-frames :
      (s : S) (r : Reader) (bodies : List Bytes)
      → r.total_size ≡ 0
      → r.available ≡ frames q bodies
      → All (λ b. length b < 2 ^ 63) bodies
      → ((ready_read q handle s r).0 ≡ handle_all handle s bodies)
        × IsIdle (ready_read q handle s r).1
  unfolding frames
  ready_read-frames s r [] e a small =
      rw (ready_read_stop q qt handle s r (stops_empty q qt handle r (omega (arith, ap length a))))
        (refl, record { no_frame = e; no_bytes = a })
  ready_read-frames s r (b ∷ bs) e a small =
      rw
        (
          ready_read_step q qt handle s r (inl e) (stops-frame r b (frames q bs) a),
          round-frame s r b (frames q bs) e a small.0,
        )
        (ready_read-frames (handle s b) _ bs refl refl small.1)

  frames-ne-nil : (b : Bytes) (bs : List Bytes) → frames q (b ∷ bs) ≢ []
  unfolding frames frame
  frames-ne-nil b bs e = absurd (
      omega (
        arith,
        ap length e,
        length-append (q.size64.put (length b) ++ b) (frames q bs),
        length-append (q.size64.put (length b)) b,
        qt.size64_length (length b),
      ))

  feed_all-concat :
      (p : S × Reader) (c : Bytes) (cs : List Bytes)
      → IsOpen p.1
      → feed_all q handle p (c ∷ cs) ≡ feed q handle p (concat (c ∷ cs))
  feed_all-concat p c [] o = ap (feed q handle p) (sym (append-nil c))
  feed_all-concat (s, r) c (d ∷ cs) o =
      feed_all-concat (feed q handle (s, r) c) d cs (feed-IsOpen q qt handle s r c o)
      ∙ sym (feed-append q qt handle s r c (concat (d ∷ cs)) o)

  -- Frames of less than 2 ^ 63 bytes that are sent to a reader between frames, with nothing unread,
  -- are handled one by one in their order, however the device cuts their bytes into chunks, and the
  -- reader is left between frames with nothing unread.
  pub feed_all-frames :
      (s : S) (r : Reader) (bodies chunks : List Bytes)
      → IsIdle r
      → All (λ b. length b < 2 ^ 63) bodies
      → concat chunks ≡ frames q bodies
      → ((feed_all q handle (s, r) chunks).0 ≡ handle_all handle s bodies)
        × IsIdle (feed_all q handle (s, r) chunks).1
  feed_all-frames s r [] [] idle small e = (refl, idle)
  feed_all-frames s r (b ∷ bs) [] idle small e = absurd (frames-ne-nil b bs (sym e))
  feed_all-frames s r bodies (c ∷ cs) idle small e =
      rw
        (
          feed_all-concat (s, r) c cs (inl idle.no_frame),
          feed_lem q qt handle s r (concat (c ∷ cs)),
        )
        (ready_read-frames s (receive r (concat (c ∷ cs))) bodies idle.no_frame
          (ap (λ (a : Bytes). a ++ concat (c ∷ cs)) idle.no_bytes ∙ e) small)
