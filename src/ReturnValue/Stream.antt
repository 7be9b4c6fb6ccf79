-- ===== src/ReturnValue/Stream.antt =====
-- operator>> of a ReturnValue against operator<<.
use qt_rpc.Base.{◌<◌, ◌^◌, ◌≡◌, ◌++◌, append_assoc}
use qt_rpc.Qt.{Qt, IsQt, Bytes}
use qt_rpc.ReturnValue.{
  ReturnType, error, service, type_number, type_of_number, ReturnValue, empty, write, read,
  write_body, read_body,
}

-- What goes over the wire: the type, and the field that belongs to it.
abbrev pub sent_as : {V : Type 0} → Qt V → ReturnType → ReturnValue V → ReturnValue V
sent_as q service r = record (empty q) { type = service; service_id = r.service_id }
sent_as q error r = record (empty q) { type = error; number = r.number; string = r.string }
sent_as q t r = record (empty q) { type = t; value = r.value }

abbrev pub sent : {V : Type 0} → Qt V → ReturnValue V → ReturnValue V
sent q r = sent_as q r.type r

-- A return value as the program builds it: its numbers fit 32 bits and its type is in the enum.
pub record IsWire {V : Type 0} (r : ReturnValue V) : Type 0 where
  pub known : type_of_number (type_number r.type) ≡ r.type
  pub small_type : type_number r.type < 2 ^ 32
  pub small_number : r.number < 2 ^ 32
  pub small_id : r.service_id < 2 ^ 32

module _ {V : Type 0} (q : Qt V) (qt : IsQt q) where
  read_body-write_body :
      (t : ReturnType) (r : ReturnValue V) (rest : Bytes)
      → r.number < 2 ^ 32
      → r.service_id < 2 ^ 32
      → read_body q t (record (empty q) { type = t }) (write_body q t r ++ rest)
        ≡ (sent_as q t r, rest)
  unfolding read_body write_body empty
  read_body-write_body service r rest n i = rw (qt.u32_reads r.service_id i rest)
  read_body-write_body error r rest n i =
      simp (append_assoc, qt.u32_reads r.number n, qt.string_reads)
  read_body-write_body _ r rest n i = simp qt.variant_reads

  -- A return value of a known type, with numbers of 32 bits, that was written is read back with its
  -- type and what belongs to it: the value, the error's number and text, or the service's id. What
  -- follows it is left unread.
  pub read-write_return :
      (r : ReturnValue V) (rest : Bytes)
      → IsWire r
      → read q (empty q) (write q r ++ rest) ≡ (sent q r, rest)
  unfolding read write
  read-write_return r rest w =
      simp (append_assoc, qt.u32_reads (type_number r.type) w.small_type, w.known)
        (read_body-write_body r.type r rest w.small_number w.small_id)
