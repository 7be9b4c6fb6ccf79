-- ===== src/Message/Versions.antt =====
-- Messages between ends of different versions: the original format, and what a reader of version 2
-- makes of a frame that has no magic number.
use qt_rpc.Base.{
  ℕ, ◌<◌, ◌^◌, ◌≡◌, ◌≢◌, inl, inr, ap, ◌∙◌, ◌++◌, arith, append_assoc, if◌then◌else◌, ◌==◌, ==-ne,
  Bool-cases, sym,
}
use qt_rpc.Qt.{Qt, IsQt, Bytes}
use qt_rpc.Signature
use qt_rpc.Signature.{Signature}
use qt_rpc.Signature.RoundTrip.{IsNormal, parse-to_string}
use qt_rpc.ReturnValue
use qt_rpc.ReturnValue.{ReturnValue}
use qt_rpc.Message.{Message, invalid, empty, of_call, of_return, set_version, set_service, set_type}
use qt_rpc.Message.Wire.{
  magic, write, write_original, read, read_original, type_number, cast_type, write_packed,
  write_type,
}

-- The first word of a frame in the formats before version 2.
abbrev pub first_word : {V : Type 0} → Message V → ℕ
first_word m = if m.version == 1 then type_number m.type else m.id

module _ {V : Type 0} (q : Qt V) (qt : IsQt q) where
  word_read :
      (m : Message V) (rest : Bytes)
      → m.version ≢ 2
      → first_word m < 2 ^ 32
      → (q.u32.get (write q m ++ rest)).0 ≡ first_word m
  unfolding write write_packed write_original write_type
  word_read m rest v small = elim (Bool-cases (m.version == 1)) [
    | inl one ↦
        let fits : type_number m.type < 2 ^ 32 = rw one at small in
        simp (==-ne m.version 2 v, one, append_assoc, qt.u32_reads (type_number m.type) fits)
    | inr other ↦
        let fits : m.id < 2 ^ 32 = rw other at small in
        simp (==-ne m.version 2 v, other, append_assoc, qt.u32_reads m.id fits)
  ]

  -- A message that was written in another version than 2, with a first word of 32 bits, is invalid
  -- to a reader of version 2, unless that word (the type in version 1, else the id) happens to be
  -- the magic number.
  pub magic_rejects :
      (m : Message V) (rest : Bytes)
      → m.version ≢ 2
      → first_word m < 2 ^ 32
      → first_word m ≢ magic
      → (read q (set_version (empty q) 2) (write q m ++ rest)).0.type ≡ invalid
  unfolding read set_version set_type
  magic_rejects m rest v small ne =
      rw (==-ne _ magic (λ e. ne (sym (word_read m rest v small) ∙ e)))

  signature_reads :
      (s : Signature) → IsNormal q s → Signature.of_string q (Signature.to_string q s) ≡ s
  unfolding Signature.of_string
  signature_reads s h = ap (λ (p : _ × Signature). p.1) (parse-to_string q qt Signature.empty s h)

  -- In the original format a message with a known type, an id of 32 bits and a normal signature
  -- arrives with its id, type, signature and arguments, as one to service 1; of a return its result
  -- is what the arguments say.
  pub read_original-write :
      (m : Message V) (version : ℕ) (rest : Bytes)
      → m.version ≢ 1
      → m.version ≢ 2
      → version ≢ 1
      → version ≢ 2
      → m.id < 2 ^ 32
      → type_number m.type < 2 ^ 32
      → cast_type (type_number m.type) ≡ m.type
      → IsNormal q m.func
      → read q (set_version (empty q) version) (write q m ++ rest)
        ≡ (set_service (of_call q m.id m.type m.func m.args) 1, rest)
  unfolding read write set_version read_original write_original
  read_original-write m version rest m1 m2 v1 v2 i t known normal = simp (
    ==-ne version 1 v1,
    ==-ne version 2 v2,
    ==-ne m.version 1 m1,
    ==-ne m.version 2 m2,
    append_assoc,
    qt.u32_reads m.id i,
    qt.u32_reads (type_number m.type) t,
    qt.string_reads,
    qt.variants_reads,
    signature_reads m.func normal,
    known,
  )

  -- A result that is sent in the original format, with an id and an error number of 32 bits,
  -- arrives as its error or as its value; of a service or an asynchronous result only the value is
  -- left.
  pub original_return :
      (id : ℕ) (r : ReturnValue V) (written version : ℕ) (rest : Bytes)
      → written ≢ 1
      → written ≢ 2
      → version ≢ 1
      → version ≢ 2
      → id < 2 ^ 32
      → r.number < 2 ^ 32
      → (read q
          (set_version (empty q) version)
          (write q (set_version (of_return q id r) written) ++ rest)).0.ret
        ≡ (if ReturnValue.is_error r
            then ReturnValue.of_error q r.number r.string
            else ReturnValue.of_value q r.value)
  unfolding read write set_version read_original write_original of_return of_call set_service
  original_return id r written version rest w1 w2 v1 v2 i n =
      elim (Bool-cases (ReturnValue.is_error r)) [
        | inl e ↦ simp (
          ==-ne version 1 v1,
          ==-ne version 2 v2,
          ==-ne written 1 w1,
          ==-ne written 2 w2,
          append_assoc,
          e,
          qt.u32_reads id i,
          qt.u32_reads 3 (omega arith),
          qt.string_reads,
          qt.variants_reads,
          qt.to_int-of_uint r.number n,
          qt.to_text-of_text,
        )
        | inr e ↦ simp (
          ==-ne version 1 v1,
          ==-ne version 2 v2,
          ==-ne written 1 w1,
          ==-ne written 2 w2,
          append_assoc,
          e,
          qt.u32_reads id i,
          qt.u32_reads 3 (omega arith),
          qt.string_reads,
          qt.variants_reads,
        )
      ]
