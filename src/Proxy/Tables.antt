-- ===== src/Proxy/Tables.antt =====
-- ProxyBase::init of lib/proxybase.cpp against an independent description of its tables: the
-- function number k of the class has the id 1000 + k, whatever the tables held before.
use qt_rpc.Base.{
  ℕ, suc, ◌-◌, ◌≡◌, refl, sym, ap, ◌∙◌, String, Bool, false, ◌||◌, Option, none, some, List, [],
  ◌∷◌, ◌++◌, arith, ltb, ◌==◌, if◌then◌else◌, get_elem?, append-nil, append_assoc, map, zero,
  Bool-cases, inl, inr,
}
use mathlib.Core.Option
use qt_rpc.Base.Table.{lookup, insert, is_in, lookup-insert}
use qt_rpc.Qt.{Qt}
use qt_rpc.Signature.{Signature}
use qt_rpc.Proxy.{
  signal, slot, other, Method, Proxy, Lists, first_id, visit_signal, visit_slot, visit, visit_all,
  init, cleared,
}
use qt_rpc.Proxy.Class.{
  Entry, is_signal, is_slot, entry, append_to, entries, event_of, callback_of, links,
}

module _ {V : Type 0} (q : Qt V) where
  -- a round of the loop, by what the method is
  abbrev visited : Option Entry → Option Signature → Option Signature → ℕ → ℕ × Proxy → ℕ × Proxy
  visited (some e) _ _ i (n, p) = (
    suc n,
    record p {
      async_functions = if e.async then p.async_functions ++ n ∷ [] else p.async_functions;
      functions = insert n e.signature p.functions;
      function_types = insert n e.type p.function_types;
      connections = p.connections ++ (i, n) ∷ [];
    },
  )
  visited none (some sig) _ i (n, p) = (n, record p { signals = insert i sig p.signals })
  visited none none (some sig) i (n, p) = (n, record p { callbacks = insert i sig p.callbacks })
  visited none none none i np = np

  visit_lem :
      (l : Lists) (i : ℕ) (m : Method) (np : ℕ × Proxy)
      → visit q l i m np ≡ visited (entry q l m) (event_of q l m) (callback_of q l m) i np
  unfolding visit visit_signal visit_slot entry event_of callback_of is_signal is_slot
  visit_lem l i m np = elim m.kind [
    | signal ↦ ground arith
    | slot ↦ ground arith
    | other ↦ ground arith
  ]

  -- the value of an id below `n`, at an entry, and behind the entries
  abbrev pub found : {A : Type 0} → ℕ → ℕ → List A → Option A → Option A
  found id n es old =
      if ltb id n then old else elim (get_elem? es (id - n)) [ none ↦ old | some e ↦ some e ]

  abbrev pub sigs : List Entry → List Signature
  sigs [] = []
  sigs (e ∷ es) = e.signature ∷ sigs es

  found_step :
      {A : Type 0} (id n : ℕ) (a : A) (es : List A) (old : Option A)
      → found id (suc n) es (if n == id then some a else old) ≡ found id n (a ∷ es) old
  found_step id n a es old = ground arith

  functions_step :
      (o : Option Entry) (u v : Option Signature) (i : ℕ) (np : ℕ × Proxy) (id : ℕ)
      (es : List Entry)
      → found id (visited o u v i np).0 (sigs es) (lookup id (visited o u v i np).1.functions)
        ≡ found id np.0 (sigs (append_to q o es)) (lookup id np.1.functions)
  functions_step none none none i np id es = refl
  functions_step none none (some c) i np id es = refl
  functions_step none (some c) v i np id es = refl
  functions_step (some e) u v i (n, p) id es =
      ap (λ t. found id (suc n) (sigs es) t) (lookup-insert n id e.signature p.functions)
      ∙ (found_step id n e.signature (sigs es) (lookup id p.functions))

  functions-visit_all :
      (l : Lists) (i : ℕ) (ms : List Method) (np : ℕ × Proxy) (id : ℕ)
      → lookup id (visit_all q l i ms np).1.functions
        ≡ found id np.0 (sigs (entries q l ms)) (lookup id np.1.functions)
  unfolding visit_all entries
  functions-visit_all l i [] np id = ground arith
  functions-visit_all l i (m ∷ ms) np id =
      functions-visit_all l (suc i) ms (visit q l i m np) id
      ∙ ap (λ (w : ℕ × Proxy). found id w.0 (sigs (entries q l ms)) (lookup id w.1.functions))
          (visit_lem l i m np)
      ∙ (functions_step (entry q l m) (event_of q l m) (callback_of q l m) i np id (entries q l ms))

  abbrev pub types : List Entry → List String
  types [] = []
  types (e ∷ es) = e.type ∷ types es

  types_step :
      (o : Option Entry) (u v : Option Signature) (i : ℕ) (np : ℕ × Proxy) (id : ℕ)
      (es : List Entry)
      → found id (visited o u v i np).0 (types es) (lookup id (visited o u v i np).1.function_types)
        ≡ found id np.0 (types (append_to q o es)) (lookup id np.1.function_types)
  types_step none none none i np id es = refl
  types_step none none (some c) i np id es = refl
  types_step none (some c) v i np id es = refl
  types_step (some e) u v i (n, p) id es =
      ap (λ t. found id (suc n) (types es) t) (lookup-insert n id e.type p.function_types)
      ∙ (found_step id n e.type (types es) (lookup id p.function_types))

  types-visit_all :
      (l : Lists) (i : ℕ) (ms : List Method) (np : ℕ × Proxy) (id : ℕ)
      → lookup id (visit_all q l i ms np).1.function_types
        ≡ found id np.0 (types (entries q l ms)) (lookup id np.1.function_types)
  unfolding visit_all entries
  types-visit_all l i [] np id = ground arith
  types-visit_all l i (m ∷ ms) np id =
      types-visit_all l (suc i) ms (visit q l i m np) id
      ∙ ap (λ (w : ℕ × Proxy). found id w.0 (types (entries q l ms)) (lookup id w.1.function_types))
          (visit_lem l i m np)
      ∙ (types_step (entry q l m) (event_of q l m) (callback_of q l m) i np id (entries q l ms))

  links_step :
      (l : Lists) (i : ℕ) (ms : List Method) (o : Option Entry) (u v : Option Signature)
      (np : ℕ × Proxy)
      → (visited o u v i np).1.connections ++ links q l (suc i) (visited o u v i np).0 ms
        ≡ np.1.connections ++ elim o [
          | none ↦ links q l (suc i) np.0 ms
          | some e ↦ (i, np.0) ∷ links q l (suc i) (suc np.0) ms
        ]
  links_step l i ms none none none np = refl
  links_step l i ms none none (some c) np = refl
  links_step l i ms none (some c) v np = refl
  links_step l i ms (some e) u v (n, p) =
      append_assoc p.connections ((i, n) ∷ []) (links q l (suc i) (suc n) ms)

  links-visit_all :
      (l : Lists) (i : ℕ) (ms : List Method) (np : ℕ × Proxy)
      → (visit_all q l i ms np).1.connections ≡ np.1.connections ++ links q l i np.0 ms
  unfolding visit_all links
  links-visit_all l i [] np = sym (append-nil np.1.connections)
  links-visit_all l i (m ∷ ms) np =
      links-visit_all l (suc i) ms (visit q l i m np)
      ∙ ap (λ (w : ℕ × Proxy). w.1.connections ++ links q l (suc i) w.0 ms) (visit_lem l i m np)
      ∙ (links_step l i ms (entry q l m) (event_of q l m) (callback_of q l m) np)

  -- the tables of a round that are indexed by methods
  abbrev put : ℕ → Option Signature → List (ℕ × Signature) → List (ℕ × Signature)
  put i none t = t
  put i (some sig) t = insert i sig t

  signals-visit :
      (l : Lists) (i : ℕ) (m : Method) (np : ℕ × Proxy)
      → ((visit q l i m np).1.signals ≡ put i (event_of q l m) np.1.signals)
        × ((visit q l i m np).1.callbacks ≡ put i (callback_of q l m) np.1.callbacks)
  unfolding visit visit_signal visit_slot event_of callback_of is_signal is_slot
  signals-visit l i m np = elim m.kind [
    | signal ↦ ground arith
    | slot ↦ ground arith
    | other ↦ ground arith
  ]

  -- the value of a key below `i`, at a method that has one, and else
  abbrev pub found_at : ℕ → ℕ → List (Option Signature) → Option Signature → Option Signature
  found_at j i os old =
      if ltb j i
      then old
      else elim (get_elem? os (j - i)) [ none ↦ old | some none ↦ old | some (some sig) ↦ some sig ]

  put_step :
      (j i : ℕ) (o : Option Signature) (os : List (Option Signature)) (t : List (ℕ × Signature))
      → found_at j (suc i) os (lookup j (put i o t)) ≡ found_at j i (o ∷ os) (lookup j t)
  put_step j i none os t = ground arith
  put_step j i (some sig) os t = ground (arith, lookup-insert i j sig t)

  signals-visit_all :
      (l : Lists) (i : ℕ) (ms : List Method) (np : ℕ × Proxy) (j : ℕ)
      → lookup j (visit_all q l i ms np).1.signals
        ≡ found_at j i (map (event_of q l) ms) (lookup j np.1.signals)
  unfolding visit_all
  signals-visit_all l i [] np j = ground arith
  signals-visit_all l i (m ∷ ms) np j =
      signals-visit_all l (suc i) ms (visit q l i m np) j
      ∙ ap (λ t. found_at j (suc i) (map (event_of q l) ms) (lookup j t)) (signals-visit l i m np).0
      ∙ (put_step j i (event_of q l m) (map (event_of q l) ms) np.1.signals)

  callbacks-visit_all :
      (l : Lists) (i : ℕ) (ms : List Method) (np : ℕ × Proxy) (j : ℕ)
      → lookup j (visit_all q l i ms np).1.callbacks
        ≡ found_at j i (map (callback_of q l) ms) (lookup j np.1.callbacks)
  unfolding visit_all
  callbacks-visit_all l i [] np j = ground arith
  callbacks-visit_all l i (m ∷ ms) np j =
      callbacks-visit_all l (suc i) ms (visit q l i m np) j
      ∙ ap (λ t. found_at j (suc i) (map (callback_of q l) ms) (lookup j t))
          (signals-visit l i m np).1
      ∙ (put_step j i (callback_of q l m) (map (callback_of q l) ms) np.1.callbacks)

  is_in-append : (id n : ℕ) (js : List ℕ) → is_in id (js ++ n ∷ []) ≡ is_in id js || n == id
  is_in-append id n [] = ground arith
  is_in-append id n (j ∷ js) = ground (arith, is_in-append id n js)

  -- whether an id is marked, when it was or not before
  abbrev pub marked : ℕ → ℕ → List Entry → Bool → Bool
  marked id n es old =
      if ltb id n
      then old
      else elim (get_elem? es (id - n)) [ none ↦ old | some e ↦ old || e.async ]

  async_step :
      (o : Option Entry) (u v : Option Signature) (i : ℕ) (np : ℕ × Proxy) (id : ℕ)
      (es : List Entry)
      → marked id (visited o u v i np).0 es (is_in id (visited o u v i np).1.async_functions)
        ≡ marked id np.0 (append_to q o es) (is_in id np.1.async_functions)
  async_step none none none i np id es = refl
  async_step none none (some c) i np id es = refl
  async_step none (some c) v i np id es = refl
  async_step (some e) u v i (n, p) id es = elim (Bool-cases e.async) [
    | inl is_one ↦ ground (arith, is_one, is_in-append id n p.async_functions)
    | inr plain ↦ ground (arith, plain)
  ]

  async-visit_all :
      (l : Lists) (i : ℕ) (ms : List Method) (np : ℕ × Proxy) (id : ℕ)
      → is_in id (visit_all q l i ms np).1.async_functions
        ≡ marked id np.0 (entries q l ms) (is_in id np.1.async_functions)
  unfolding visit_all entries
  async-visit_all l i [] np id = ground arith
  async-visit_all l i (m ∷ ms) np id =
      async-visit_all l (suc i) ms (visit q l i m np) id
      ∙ ap (λ (w : ℕ × Proxy). marked id w.0 (entries q l ms) (is_in id w.1.async_functions))
          (visit_lem l i m np)
      ∙ async_step (entry q l m) (event_of q l m) (callback_of q l m) i np id (entries q l ms)

  abbrev pub entry_at : Lists → List Method → ℕ → Option Entry
  entry_at l ms id = if ltb id first_id then none else get_elem? (entries q l ms) (id - first_id)

  sigs_at :
      (es : List Entry) (k : ℕ)
      → get_elem? (sigs es) k ≡ Option.map (λ (e : Entry). e.signature) (get_elem? es k)
  sigs_at [] k = refl
  sigs_at (e ∷ es) zero = refl
  sigs_at (e ∷ es) (suc k) = sigs_at es k

  types_at :
      (es : List Entry) (k : ℕ)
      → get_elem? (types es) k ≡ Option.map (λ (e : Entry). e.type) (get_elem? es k)
  types_at [] k = refl
  types_at (e ∷ es) zero = refl
  types_at (e ∷ es) (suc k) = types_at es k

  -- After `init` the tables are those of the class, whatever they held before: the id 1000 + k has
  -- the signature of the function number k, and is marked asynchronous if that began with an object
  -- and a slot; an event and a callback are found at the index of their method; the connections
  -- made are added to those that were there.
  pub init-entries :
      (l : Lists) (ms : List Method) (p : Proxy) (id : ℕ)
      → (lookup id (init q l ms p).functions
          ≡ Option.map (λ (e : Entry). e.signature) (entry_at l ms id))
        × (is_in id (init q l ms p).async_functions
            ≡ elim (entry_at l ms id) [ none ↦ false | some e ↦ e.async ])
        × (lookup id (init q l ms p).function_types
            ≡ elim (entry_at l ms id) [ none ↦ lookup id p.function_types | some e ↦ some e.type ])
        × (lookup id (init q l ms p).signals ≡ found_at id 0 (map (event_of q l) ms) none)
        × (lookup id (init q l ms p).callbacks ≡ found_at id 0 (map (callback_of q l) ms) none)
        × ((init q l ms p).connections ≡ p.connections ++ links q l 0 first_id ms)
  unfolding init lookup
  init-entries l ms p id = (
    functions-visit_all l 0 ms (first_id, cleared q p) id
        ∙ ground (arith, sigs_at (entries q l ms) (id - first_id)),
    async-visit_all l 0 ms (first_id, cleared q p) id ∙ ground arith,
    types-visit_all l 0 ms (first_id, cleared q p) id
        ∙ ground (arith, types_at (entries q l ms) (id - first_id)),
    signals-visit_all l 0 ms (first_id, cleared q p) id,
    callbacks-visit_all l 0 ms (first_id, cleared q p) id,
    links-visit_all l 0 ms (first_id, cleared q p),
  )
