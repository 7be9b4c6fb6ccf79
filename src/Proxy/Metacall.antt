-- ===== src/Proxy/Metacall.antt =====
-- The calls of lib/proxybase.cpp through the tables of a proxy. A missing key of `key(sig, -1)` is
-- `none`; `_a[1]` is at the head of a list.
use qt_rpc.Base.{
  ℕ, suc, set, ltb, String, Bool, false, not, ◌&&◌, ◌||◌, Option, none, some, List, [], ◌∷◌, str_eq,
  leb, ◌==◌, if◌then◌else◌, length,
}
use qt_rpc.Base.Table.{lookup, is_in}
use qt_rpc.Qt.{Qt}
use qt_rpc.Signature
use qt_rpc.Signature.{Signature}
use qt_rpc.ReturnValue
use qt_rpc.ReturnValue.{ReturnValue}
use qt_rpc.Proxy.{Method, Proxy, first_id}

-- the memory that a `void *` points to: a char pointer, the data of a QVariant, or a QVariant
pub data Pointer (V : Type 0) : Type 0 where
  char_pointer : String → Pointer V
  data_of : V → Pointer V
  variant : V → Pointer V

-- What qt_metacall makes of a call: a function call, synchronous or with the object and slot for
-- the return, or the id that goes on to QObject::qt_metacall
pub data Metacall (V : Type 0) : Type 0 where
  function_called : Signature → List V → String → Metacall V
  async_called : ℕ → String → Signature → List V → String → Metacall V
  passed_on : ℕ → Metacall V

-- An exception: one that a handler of std::exception matches, with the text of its what(), or another
pub data Exception : Type 0 where
  std_exception : String → Exception
  other_exception : Exception

-- How an invocation ends: with what it left in `_a[0]` and the sign of its result, or by an exception
pub data Invoked (V : Type 0) : Type 0 where
  answered : ReturnValue V → Bool → Invoked V
  thrown : Exception → Invoked V

-- How callMetacall ends: by a return, by that exception, or by a write behind the end of `param`
pub data Outcome (V : Type 0) : Type 0 where
  returned : ReturnValue V → Outcome V
  raised : Exception → Outcome V
  overrun : Outcome V

-- What the meta object of a class and QVariant do: `S` is the state that the class's own code
-- changes
pub record Meta (V S : Type 0) : Type 0 where
  pub class_name : String
  pub methods : List Method
  pub index_of_method : String → Option ℕ
  pub normalized : String → String
  -- the virtual qt_metacall(InvokeMetaMethod, id, param), with the array behind param[0]; a null
  -- pointer is `none`
  pub qt_metacall : ℕ → List (Option (Pointer V)) → S → Invoked V × S
  -- QVariant(type, data), *static_cast<QVariant *>(data), *(QObject **)data, *(char **)data
  pub convert : ℕ → Pointer V → V
  pub variant_at : Pointer V → V
  pub object_at : Pointer V → ℕ
  pub text_at : Pointer V → String
  -- v.type() == QVariant::UserType
  pub is_user : V → Bool

-- functiontypes[_id], which is the null string for a missing key
abbrev or_null : Option String → String
or_null none = ""
or_null (some type) = type

module _ {V : Type 0} (q : Qt V) where
  module _ {S : Type 0} (meta : Meta V S) where
    -- convertQVariant(QString, void *)
    unfoldable pub convert : String → Pointer V → V
    convert name stored =
        if str_eq name "QVariant"
        then meta.variant_at stored
        else meta.convert (q.type_id name) stored

    -- the loops over the arguments
    unfoldable pub convert_args : List String → List (Pointer V) → List V
    unfolding convert
    convert_args (name ∷ names) (p ∷ a) = convert name p ∷ convert_args names a
    convert_args _ _ = []

    -- the rest behind the search, where an asynchronous function has its two arguments more
    unfoldable pub called : Proxy → ℕ → Signature → String → List (Pointer V) → Metacall V
    unfolding convert_args
    called p id sig type (object ∷ name ∷ a) =
        if is_in id p.async_functions
        then async_called (meta.object_at object) (meta.text_at name) sig (convert_args sig.args a)
            type
        else function_called sig (convert_args sig.args (object ∷ name ∷ a)) type
    called p id sig type a = function_called sig (convert_args sig.args a) type

    -- qt_metacall(QMetaObject::Call, int, void **)
    unfoldable pub qt_metacall : Proxy → ℕ → List (Pointer V) → Metacall V
    unfolding called
    qt_metacall p id a =
        if leb first_id id
        then elim (lookup id p.functions) [
          | none ↦ passed_on id
          | some sig ↦ called p id sig (or_null (lookup id p.function_types)) a
        ]
        else passed_on id

    -- one round of the loop that fills `param`
    unfoldable pub pointer_to : String → V → Pointer V
    pointer_to name v =
        if str_eq name "char*" || str_eq name "const char*"
        then char_pointer (q.to_text v)
        else if not (str_eq name "QVariant") && meta.is_user v
        then data_of v
        else variant v

    -- `param` behind its entry for the return value, before the loop
    abbrev pub param : List (Option (Pointer V))
    param = none ∷ none ∷ none ∷ none ∷ none ∷ none ∷ none ∷ none ∷ none ∷ none ∷ []

    -- the loop over the arguments from the one of number `i` on; a write behind the end is `none`
    unfoldable pub fill :
        ℕ → List String → List V → List (Option (Pointer V)) → Option (List (Option (Pointer V)))
    unfolding pointer_to
    fill i (name ∷ names) (v ∷ args) a =
        let rest = fill (suc i) names args (set a i (some (pointer_to name v))) in
        if ltb i (length a) then rest else none
    fill i _ _ a = some a

    -- indexOfMethod, and again with the normalized text
    unfoldable pub index_of : String → Option ℕ
    index_of sig = elim (meta.index_of_method sig) [
      | none ↦ meta.index_of_method (meta.normalized sig)
      | some id ↦ some id
    ]

    -- the end of callMetacall
    unfoldable pub finish : Signature → Invoked V × S → Outcome V × S
    finish sig (answered ret positive, s) =
        if positive
        then (
          returned (
              ReturnValue.of_error q 5 (q.complaint "Failed to call " (Signature.to_string q sig))),
          s,
        )
        else (returned ret, s)
    finish sig (thrown what, s) = (raised what, s)

    -- the part of callMetacall behind the search for the id
    unfoldable pub invoke : Signature → List (Option (Pointer V)) → S → Option ℕ → Outcome V × S
    unfolding finish
    invoke sig a s none = (
      returned
          (ReturnValue.of_error q 4 (q.complaint "Failed to call " (Signature.to_string q sig))),
      s,
    )
    invoke sig a s (some id) = finish sig (meta.qt_metacall id a s)

    -- the part of callMetacall behind the loop
    unfoldable pub call_filled : Signature → S → List (Option (Pointer V)) → Outcome V × S
    unfolding index_of invoke
    call_filled sig s a =
        if str_eq sig.name ""
        then (
          returned (
              ReturnValue.of_error q 3 (q.complaint "Failed to call " (Signature.to_string q sig))),
          s,
        )
        else invoke sig a s (index_of (Signature.to_string q sig))

    -- callMetacall(Signature, Arguments)
    unfoldable pub call_metacall : Signature → List V → S → Outcome V × S
    unfolding fill call_filled
    call_metacall sig args s =
        if not (str_eq (Signature.test q sig args) "")
        then (returned (ReturnValue.of_error q 2 (Signature.test q sig args)), s)
        else elim (fill 0 sig.args args param) [
          | none ↦ (overrun, s)
          | some a ↦ call_filled sig s a
        ]

    -- hash.key(sig, -1), compared with -1
    unfoldable pub has_signature : Signature → List (ℕ × Signature) → Bool
    has_signature sig [] = false
    has_signature sig ((i, t) ∷ m) = Signature.equal t sig || has_signature sig m

    -- emitSignal(Signature, Arguments)
    unfoldable pub emit_signal : Proxy → Signature → List V → S → Outcome V × S
    unfolding has_signature call_metacall
    emit_signal p sig args s =
        if not (has_signature sig p.signals)
        then (
          returned (
              ReturnValue.of_error q 1
                (q.complaint "Signal not found" (Signature.to_string q sig))),
          s,
        )
        else call_metacall sig args s

    -- callCallback(Signature, Arguments)
    unfoldable pub call_callback : Proxy → Signature → List V → S → Outcome V × S
    unfolding has_signature call_metacall
    call_callback p sig args s =
        if not (has_signature sig p.callbacks)
        then (returned (ReturnValue.of_error q 1 "Callback not found"), s)
        else call_metacall sig args s

    -- the activation of signal `i`: each connection of it calls qt_metacall, in order
    unfoldable pub activate : Proxy → ℕ → List (Pointer V) → List (ℕ × ℕ) → List (Metacall V)
    unfolding qt_metacall
    activate p i a [] = []
    activate p i a ((j, id) ∷ cs) =
        let rest = activate p i a cs in if j == i then qt_metacall p id a ∷ rest else rest
