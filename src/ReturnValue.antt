-- ===== src/ReturnValue.antt =====
-- lib/returnvalue.cpp: the result of a call, which is a value, an error or a service, and its form
-- on the wire. The private data of a ReturnValue is copied on write, so it is a value here.
pub mod Stream
use qt_rpc.Base.{
  ℕ, zero, suc, String, Bool, true, false, Option, none, some, List, [], ◌++◌, if◌then◌else◌, ◌==◌,
}
use qt_rpc.Qt.{Qt, Codec, Bytes}

-- ReturnValueData::ReturnValueType. A number from the network is cast to it without a check.
pub data ReturnType : Type 0 where
  variant error service asyncronous : ReturnType
  unknown : ℕ → ReturnType

abbrev pub type_number : ReturnType → ℕ
type_number variant = 0
type_number error = 1
type_number service = 2
type_number asyncronous = 3
type_number (unknown n) = n

abbrev pub type_of_number : ℕ → ReturnType
type_of_number zero = variant
type_of_number (suc zero) = error
type_of_number (suc (suc zero)) = service
type_of_number (suc (suc (suc zero))) = asyncronous
type_of_number n = unknown n

-- The QVariant that a ReturnValue is, and ReturnValueData. A pointer to a ServiceProxy is a number,
-- 0 for null; `held` is the shared pointer `service`.
pub record ReturnValue (V : Type 0) : Type 0 where
  pub value : V
  pub type : ReturnType
  pub number : ℕ
  pub string : String
  pub raw_service : ℕ
  pub held : ℕ
  pub service_id : ℕ

-- serviceId(-1)
abbrev pub no_service_id : ℕ
no_service_id = 0xffff_ffff

module _ {V : Type 0} (q : Qt V) where
  -- ReturnValue(), and ReturnValueData()
  unfoldable pub empty : ReturnValue V
  empty = record {
    value = q.null;
    type = variant;
    number = 0;
    string = "";
    raw_service = 0;
    held = 0;
    service_id = no_service_id;
  }

  -- the DEFAULT_CONSTRUCTORs, from a value that converts to QVariant
  unfoldable pub of_value : V → ReturnValue V
  unfolding empty
  of_value v = record empty { value = v }

  -- ReturnValue(int, QString)
  unfoldable pub of_error : ℕ → String → ReturnValue V
  unfolding empty
  of_error num str = record empty { type = error; number = num; string = str }

  -- ReturnValue(ServiceProxy*), where `weak` is srv->weakPointer()
  unfoldable pub of_service : ℕ → ℕ → ReturnValue V
  unfolding empty
  of_service srv weak = record empty { type = service; held = weak; raw_service = srv }

  -- asyncronous()
  unfoldable pub async : ReturnValue V
  unfolding empty
  async = record empty { type = asyncronous }

module _ {V : Type 0} where
  unfoldable pub is_error : ReturnValue V → Bool
  is_error r = elim r.type [ error ↦ true | _ ↦ false ]

  unfoldable pub is_service : ReturnValue V → Bool
  is_service r = elim r.type [ service ↦ true | _ ↦ false ]

  unfoldable pub is_asyncronous : ReturnValue V → Bool
  is_asyncronous r = elim r.type [ asyncronous ↦ true | _ ↦ false ]

  unfoldable pub set_service_id : ReturnValue V → ℕ → ReturnValue V
  set_service_id r id = record r { type = service; service_id = id }

module _ {V : Type 0} (q : Qt V) where
  -- the `switch` of operator<<
  unfoldable pub write_body : ReturnType → ReturnValue V → Bytes
  write_body service r = q.u32.put r.service_id
  write_body error r = q.u32.put r.number ++ q.string.put r.string
  write_body _ r = q.variant.put r.value

  -- operator<<(QDataStream&, const ReturnValue&)
  unfoldable pub write : ReturnValue V → Bytes
  unfolding write_body
  write r = q.u32.put (type_number r.type) ++ write_body r.type r

  -- the `switch` of operator>>, which writes into `r`
  unfoldable pub read_body : ReturnType → ReturnValue V → Bytes → ReturnValue V × Bytes
  read_body service r b = let (id, b) = q.u32.get b in (record r { service_id = id }, b)
  read_body error r b =
      let (n, b) = q.u32.get b in
      let (s, b) = q.string.get b in (record r { number = n; string = s }, b)
  read_body _ r b = let (v, b) = q.variant.get b in (record r { value = v }, b)

  -- operator>>(QDataStream&, ReturnValue&)
  unfoldable pub read : ReturnValue V → Bytes → ReturnValue V × Bytes
  unfolding read_body
  read r b =
      let (n, b) = q.u32.get b in
      read_body (type_of_number n) (record r { type = type_of_number n }) b
