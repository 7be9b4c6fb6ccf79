-- ===== src/Proxy/Class.antt =====
-- An independent description of what ProxyBase::init of lib/proxybase.cpp finds in a class.
use qt_rpc.Base.{
  ℕ, suc, ◌≡◌, ap, String, Bool, true, false, not, ◌&&◌, Option, none, some, List, [], ◌∷◌,
  if◌then◌else◌, drop,
}
use qt_rpc.Base.Text.{is_one_of}
use qt_rpc.Qt.{Qt}
use qt_rpc.Signature
use qt_rpc.Signature.{Signature}
use qt_rpc.Proxy.{signal, slot, Method, Lists, is_clone, is_async}

-- a function of the class: its signature without object and slot, whether it had them, its type
pub record Entry : Type 0 where
  pub signature : Signature
  pub async : Bool
  pub type : String

module _ {V : Type 0} (q : Qt V) where
  abbrev pub signature_of : Method → Signature
  signature_of m = Signature.of_string q m.text

  unfoldable pub is_signal : Method → Bool
  is_signal m = not (is_clone m) && elim m.kind [ signal ↦ true | _ ↦ false ]

  unfoldable pub is_slot : Method → Bool
  is_slot m = not (is_clone m) && elim m.kind [ slot ↦ true | _ ↦ false ]

  abbrev pub entry_of : Method → Bool → Entry
  entry_of m async = record {
    signature =
        if async
        then record (signature_of m) { args = drop 2 (signature_of m).args }
        else signature_of m;
    async = async;
    type = m.type;
  }

  unfoldable pub entry : Lists → Method → Option Entry
  unfolding is_signal
  entry l m =
      if is_signal m && is_one_of m.type l.functions
      then some (entry_of m (is_async (signature_of m).args))
      else none

  abbrev pub append_to : Option Entry → List Entry → List Entry
  append_to none es = es
  append_to (some e) es = e ∷ es

  -- the functions of the class, in the order of the methods
  unfoldable pub entries : Lists → List Method → List Entry
  unfolding entry
  entries l [] = []
  entries l (m ∷ ms) = append_to (entry l m) (entries l ms)

  -- what the class has at a method for `signalHash` and for `callbacks`
  unfoldable pub event_of : Lists → Method → Option Signature
  unfolding is_signal
  event_of l m =
      if is_signal m && not (is_one_of m.type l.functions) && is_one_of m.type l.events
      then some (signature_of m)
      else none

  unfoldable pub callback_of : Lists → Method → Option Signature
  unfolding is_slot
  callback_of l m =
      if is_slot m && is_one_of m.type l.callbacks then some (signature_of m) else none

  -- the signals that are functions, each with its id
  unfoldable pub links : Lists → ℕ → ℕ → List Method → List (ℕ × ℕ)
  unfolding entry
  links l i n [] = []
  links l i n (m ∷ ms) = elim (entry l m) [
    | none ↦ links l (suc i) n ms
    | some e ↦ (i, n) ∷ links l (suc i) (suc n) ms
  ]

  -- a method in front of the others
  pub no_entry :
      (l : Lists) (m : Method) (ms : List Method) (i n : ℕ)
      → entry l m ≡ none
      → (entries l (m ∷ ms) ≡ entries l ms) × (links l i n (m ∷ ms) ≡ links l (suc i) n ms)
  unfolding entries links
  no_entry l m ms i n h = (
    ap (λ o. append_to o (entries l ms)) h,
    ap
        (λ (o : Option Entry). elim o as (λ _. List (ℕ × ℕ)) [
          | none ↦ links l (suc i) n ms
          | some e ↦ (i, n) ∷ links l (suc i) (suc n) ms
        ])
        h,
  )

  pub an_entry :
      (l : Lists) (m : Method) (ms : List Method) (i n : ℕ) (e : Entry)
      → entry l m ≡ some e
      → (entries l (m ∷ ms) ≡ e ∷ entries l ms)
        × (links l i n (m ∷ ms) ≡ (i, n) ∷ links l (suc i) (suc n) ms)
  unfolding entries links
  an_entry l m ms i n e h = (
    ap (λ o. append_to o (entries l ms)) h,
    ap
        (λ (o : Option Entry). elim o as (λ _. List (ℕ × ℕ)) [
          | none ↦ links l (suc i) n ms
          | some e ↦ (i, n) ∷ links l (suc i) (suc n) ms
        ])
        h,
  )
