-- ===== src/Frame.antt =====
-- The loop of readyRead() in lib/serverprotocolinstanceiodevice.cpp and, with the same text, in
-- lib/clientprotocoliodevice.cpp: it cuts the bytes of a device into frames. `handle` stands for
-- what is done with a complete frame, on a state `S` of the reading end. The size is a qint64,
-- given by its bit pattern. The capacity that is reserved for the buffer is not modelled, and the
-- branch for a negative buff.size() is left out, since QByteArray::size is never negative.
pub mod Cut
mod Rounds
pub mod Chunks
pub mod Sent
use qt_rpc.Base.{
  ℕ, zero, suc, ◌+◌, ◌-◌, ◌^◌, Bool, true, false, ◌&&◌, ◌||◌, List, [], ◌∷◌, ◌++◌, ltb, leb, ◌==◌,
  if◌then◌else◌, length, take, drop,
}
use qt_rpc.Qt.{Qt, Bytes}

pub record Reader : Type 0 where
  pub total_size : ℕ
  pub read : ℕ
  pub buffer : Bytes
  -- what the device holds unread
  pub available : Bytes

abbrev pub is_negative : ℕ → Bool
is_negative n = leb (2 ^ 63) n

-- device->read(totalSize - read): a negative size reads nothing
unfoldable pub wanted : Reader → ℕ
wanted r = if is_negative r.total_size then 0 else r.total_size - r.read

unfoldable pub fill : Reader → Reader
unfolding wanted
fill r = record r {
  buffer = r.buffer ++ take (wanted r) r.available;
  read = r.read + length (take (wanted r) r.available);
  available = drop (wanted r) r.available;
}

-- totalSize <= read
unfoldable pub is_complete : Reader → Bool
is_complete r = is_negative r.total_size || leb r.total_size r.read

-- the end of the loop: its condition, and the `break` before an incomplete size
unfoldable pub stops : Reader → Bool
stops r = length r.available == 0 || (r.total_size == 0 && ltb (length r.available) 8)

-- new data on the device
abbrev pub receive : Reader → Bytes → Reader
receive r c = record r { available = r.available ++ c }

module _ {V : Type 0} {S : Type 0} (q : Qt V) (handle : S → Bytes → S) where
  -- the size of the next frame, where none has begun
  unfoldable pub begin : Reader → Reader
  begin r =
      if r.total_size == 0
      then (let (n, rest) = q.size64.get r.available in
          record { total_size = n; read = 0; buffer = []; available = rest })
      else r

  unfoldable pub finish : S → Reader → S × Reader
  unfolding is_complete
  finish s r =
      if is_complete r then (handle s r.buffer, record r { total_size = 0; read = 0 }) else (s, r)

  unfoldable pub round : S → Reader → S × Reader
  unfolding begin fill finish
  round s r = finish s (fill (begin r))

  -- the loop, with fuel for its rounds
  unfoldable pub loop : ℕ → S → Reader → S × Reader
  loop zero s r = (s, r)
  loop (suc fuel) s r = elim (stops r) [
    | true ↦ (s, r)
    | false ↦ let (s', r') = round s r in loop fuel s' r'
  ]

  -- readyRead(): each round takes a byte at least, so as many rounds as bytes are enough
  unfoldable pub ready_read : S → Reader → S × Reader
  unfolding loop round stops
  ready_read s r = loop (length r.available) s r

  -- the device receives some bytes and signals them
  unfoldable pub feed : S × Reader → Bytes → S × Reader
  unfolding ready_read
  feed (s, r) c = ready_read s (receive r c)
