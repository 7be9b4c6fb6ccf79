-- ===== src/Proxy.antt =====
-- lib/proxybase.cpp: the tables of a proxy, their filling from the meta object, and the calls
-- through them. A missing key of `key(sig, -1)` is `none`; `_a[1]` is at the head of a list.
pub mod Metacall
pub mod Class
pub mod Tables
pub mod Calls
pub mod Bounds
use qt_rpc.Base.{
  ℕ, suc, ◌+◌, ◌%◌, ◌/◌, String, Bool, true, false, not, ◌&&◌, ◌||◌, Option, none, some, List, [],
  ◌∷◌, ◌++◌, map, str_eq, ltb, leb, ◌==◌, if◌then◌else◌, length, get_or, drop,
}
use qt_rpc.Base.Table.{lookup, insert, keys, is_in, contains}
use qt_rpc.Base.Text.{is_one_of}
use qt_rpc.Qt.{Qt}
use qt_rpc.Signature
use qt_rpc.Signature.{Signature}
use qt_rpc.ReturnValue
use qt_rpc.ReturnValue.{ReturnValue}

-- QMetaMethod::MethodType
pub data Kind : Type 0 where
  signal : Kind
  slot : Kind
  other : Kind

-- QMetaMethod: its methodType(), typeName(), methodSignature() and attributes()
pub record Method : Type 0 where
  pub kind : Kind
  pub type : String
  pub text : String
  pub attributes : ℕ

-- ProxyBasePrivate, with the connections (signal, id) that `init` makes from the object to itself
pub record Proxy : Type 0 where
  pub functions : List (ℕ × Signature)
  pub function_types : List (ℕ × String)
  pub signals : List (ℕ × Signature)
  pub callbacks : List (ℕ × Signature)
  pub async_functions : List ℕ
  pub connections : List (ℕ × ℕ)

abbrev pub new : Proxy
new = record {
  functions = [];
  function_types = [];
  signals = [];
  callbacks = [];
  async_functions = [];
  connections = [];
}

abbrev pub first_id : ℕ
first_id = 1000

-- the lists `functionlist`, `callbacklist` and `eventlist`
pub record Lists : Type 0 where
  pub functions : List String
  pub callbacks : List String
  pub events : List String

-- method.attributes() & 2
abbrev pub is_clone : Method → Bool
is_clone m = m.attributes / 2 % 2 == 1

-- a function that begins with QObject*, char*
unfoldable pub is_async : List String → Bool
is_async (object ∷ name ∷ args) =
    str_eq object "QObject*" && (str_eq name "const char*" || str_eq name "char*")
is_async _ = false

-- the case QMetaMethod::Signal of the loop, for method `i` and the next id `n`
unfoldable pub visit_signal : Lists → ℕ → String → Signature → ℕ × Proxy → ℕ × Proxy
unfolding is_async
visit_signal l i type sig (n, p) =
    if is_one_of type l.functions
    then (
      suc n,
      record p {
        async_functions =
            if is_async sig.args then p.async_functions ++ (n ∷ []) else p.async_functions;
        functions =
            insert n (if is_async sig.args then record sig { args = drop 2 sig.args } else sig)
              p.functions;
        function_types = insert n type p.function_types;
        connections = p.connections ++ ((i, n) ∷ []);
      },
    )
    else if is_one_of type l.events
    then (n, record p { signals = insert i sig p.signals })
    else (n, p)

-- the case QMetaMethod::Slot
unfoldable pub visit_slot : Lists → ℕ → String → Signature → ℕ × Proxy → ℕ × Proxy
visit_slot l i type sig (n, p) =
    if is_one_of type l.callbacks
    then (n, record p { callbacks = insert i sig p.callbacks })
    else (n, p)

abbrev pub visit_kind : Kind → Lists → ℕ → String → Signature → ℕ × Proxy → ℕ × Proxy
visit_kind signal = visit_signal
visit_kind slot = visit_slot
visit_kind other = λ l i type sig np. np

module _ {V : Type 0} (q : Qt V) where
  -- one round of the loop of init
  unfoldable pub visit : Lists → ℕ → Method → ℕ × Proxy → ℕ × Proxy
  unfolding visit_signal visit_slot
  visit l i m np =
      if is_clone m then np else visit_kind m.kind l i m.type (Signature.of_string q m.text) np

  -- the loop, from method `i` on
  unfoldable pub visit_all : Lists → ℕ → List Method → ℕ × Proxy → ℕ × Proxy
  unfolding visit
  visit_all l i [] np = np
  visit_all l i (m ∷ ms) np = visit_all l (suc i) ms (visit l i m np)

  -- what `init` clears: the types of the functions and the connections stay
  abbrev pub cleared : Proxy → Proxy
  cleared p = record p { signals = []; functions = []; callbacks = []; async_functions = [] }

  -- init(QStringList, QStringList, QStringList)
  unfoldable pub init : Lists → List Method → Proxy → Proxy
  unfolding visit_all
  init l methods p = (visit_all l 0 methods (first_id, cleared p)).1

-- listFunctions(), listCallbacks(), listEvents()
abbrev pub values : List (ℕ × Signature) → List Signature
values [] = []
values ((i, sig) ∷ m) = sig ∷ values m

unfoldable pub list_functions : Proxy → List Signature
list_functions p = values p.functions

unfoldable pub list_callbacks : Proxy → List Signature
list_callbacks p = values p.callbacks

unfoldable pub list_events : Proxy → List Signature
list_events p = values p.signals
