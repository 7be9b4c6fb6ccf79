-- ===== src/Proxy/Calls.antt =====
-- qt_metacall and the emission of signals of lib/proxybase.cpp, on the tables that `init` fills.
use qt_rpc.Base.{
  ℕ, suc, ◌+◌, ◌-◌, ◌≤◌, ◌<◌, ◌≡◌, ◌⊎◌, refl, sym, ap, ◌∙◌, Bool, false, Option, none, some, List,
  [], ◌∷◌, ◌++◌, arith, ltb, ◌==◌, if◌then◌else◌, get_elem?, Option-cases, inl, inr, le→leb,
}
use mathlib.Core.Option
use qt_rpc.Base.Table.{lookup, is_in}
use qt_rpc.Qt.{Qt}
use qt_rpc.Proxy.{Method, Proxy, new, Lists, first_id, init}
use qt_rpc.Proxy.Metacall.{
  Meta, Pointer, Metacall, function_called, async_called, passed_on, convert_args, called,
  qt_metacall, activate,
}
use qt_rpc.Proxy.Tables.{entry_at, init-entries}
use qt_rpc.Proxy.Class.{Entry, entry, entries, links, no_entry, an_entry}

lt_cases : (j i : ℕ) → (j < i) ⊎ (j ≡ i) ⊎ (i < j)
lt_cases j i = ground arith

minus-suc : (j i : ℕ) → i < j → j - i ≡ suc (j - suc i)
minus-suc j i h = omega (arith, h)

module _ {V S : Type 0} (q : Qt V) (meta : Meta V S) (l : Lists) where
  -- the call of a function of the class with the memory `a`
  abbrev pub call_of : Entry → List (Pointer V) → Metacall V
  call_of e (object ∷ name ∷ a) =
      if e.async
      then async_called (meta.object_at object) (meta.text_at name) e.signature
          (convert_args q meta e.signature.args a) e.type
      else function_called e.signature (convert_args q meta e.signature.args (object ∷ name ∷ a))
          e.type
  call_of e a = function_called e.signature (convert_args q meta e.signature.args a) e.type

  abbrev pub call_at : ℕ → Option Entry → List (Pointer V) → Metacall V
  call_at id none a = passed_on id
  call_at id (some e) a = call_of e a

  call_of-called :
      (p : Proxy) (id : ℕ) (e : Entry) (a : List (Pointer V))
      → is_in id p.async_functions ≡ e.async
      → called q meta p id e.signature e.type a ≡ call_of e a
  unfolding called
  call_of-called p id e [] h = refl
  call_of-called p id e (object ∷ []) h = refl
  call_of-called p id e (object ∷ name ∷ a) h =
      ap
        (λ (b : Bool).
          if b
          then async_called (meta.object_at object) (meta.text_at name) e.signature
              (convert_args q meta e.signature.args a) e.type
          else function_called e.signature
              (convert_args q meta e.signature.args (object ∷ name ∷ a)) e.type)
        h

  -- the search for the function, by what it finds
  metacall_missing :
      (p : Proxy) (id : ℕ) (a : List (Pointer V))
      → lookup id p.functions ≡ none
      → qt_metacall q meta p id a ≡ passed_on id
  unfolding qt_metacall
  metacall_missing p id a missing = ground (arith, missing)

  metacall_found :
      (p : Proxy) (id : ℕ) (a : List (Pointer V)) (e : Entry)
      → first_id ≤ id
      → lookup id p.functions ≡ some e.signature
      → lookup id p.function_types ≡ some e.type
      → is_in id p.async_functions ≡ e.async
      → qt_metacall q meta p id a ≡ call_of e a
  unfolding qt_metacall
  metacall_found p id a e large function type async =
      rw (le→leb first_id id large, function, type) (call_of-called p id e a async)

  -- A call of qt_metacall after `init` is a call of the function of the class that has the id, with
  -- its own signature and type and the arguments converted behind object and slot, if it has those;
  -- any other id is passed on.
  pub qt_metacall-init :
      (ms : List Method) (p : Proxy) (id : ℕ) (a : List (Pointer V))
      → qt_metacall q meta (init q l ms p) id a ≡ call_at id (entry_at q l ms id) a
  qt_metacall-init ms p id a =
      let (functions, asyncs, types, _, _, _) = init-entries q l ms p id in
      elim (Option-cases (entry_at q l ms id)) [
        | inl missing ↦
            metacall_missing (init q l ms p) id a
              (functions ∙ ap (Option.map (λ (e : Entry). e.signature)) missing)
            ∙ ap (λ o. call_at id o a) (sym missing)
        | inr (e, at) ↦
            metacall_found (init q l ms p) id a e (ground arith)
              (functions ∙ ap (Option.map (λ (e : Entry). e.signature)) at) (rw (types, at) refl)
              (rw (asyncs, at) refl)
            ∙ ap (λ o. call_at id o a) (sym at)
      ]

  -- the call that the signal of a method makes, if it is a function
  abbrev pub calls_of : List (Pointer V) → Option Method → List (Metacall V)
  calls_of a none = []
  calls_of a (some m) = elim (entry q l m) [ none ↦ [] | some e ↦ call_of e a ∷ [] ]

  activate-append :
      (p : Proxy) (i : ℕ) (a : List (Pointer V)) (cs ds : List (ℕ × ℕ))
      → activate q meta p i a (cs ++ ds) ≡ activate q meta p i a cs ++ activate q meta p i a ds
  unfolding activate
  activate-append p i a [] ds = refl
  activate-append p i a (c ∷ cs) ds = ground (arith, activate-append p i a cs ds)

  activate-same :
      (p r : Proxy) (i : ℕ) (a : List (Pointer V)) (cs : List (ℕ × ℕ))
      → ((id : ℕ) → qt_metacall q meta p id a ≡ qt_metacall q meta r id a)
      → activate q meta p i a cs ≡ activate q meta r i a cs
  unfolding activate
  activate-same p r i a [] same = refl
  activate-same p r i a ((j, id) ∷ cs) same =
      ap (λ rest. if j == i then qt_metacall q meta p id a ∷ rest else rest)
        (activate-same p r i a cs same)
      ∙ ap (λ c. if j == i then c ∷ activate q meta r i a cs else activate q meta r i a cs)
          (same id)

  -- from the methods behind `m` to those with it
  skip_step :
      {A : Type 0} (c : Option Method → List A) (m : Method) (ms : List Method) (j i : ℕ)
      → c (some m) ≡ []
      → (if ltb j (suc i) then [] else c (get_elem? ms (j - suc i)))
        ≡ (if ltb j i then [] else c (get_elem? (m ∷ ms) (j - i)))
  skip_step c m ms j i none_of_it = elim (lt_cases j i) [
    | inl below ↦ ground arith
    | inr (inl (same)) ↦ ground (arith, none_of_it)
    | inr (inr above) ↦ ground (arith, ap (λ k. c (get_elem? (m ∷ ms) k)) (minus-suc j i above))
  ]

  take_step :
      {A : Type 0} (c : Option Method → List A) (m : Method) (ms : List Method) (j i : ℕ) (call : A)
      → c (some m) ≡ call ∷ []
      → (if i == j
          then call ∷ (if ltb j (suc i) then [] else c (get_elem? ms (j - suc i)))
          else (if ltb j (suc i) then [] else c (get_elem? ms (j - suc i))))
        ≡ (if ltb j i then [] else c (get_elem? (m ∷ ms) (j - i)))
  take_step c m ms j i call it = elim (lt_cases j i) [
    | inl below ↦ ground arith
    | inr (inl same) ↦ ground (arith, it)
    | inr (inr above) ↦ ground (arith, ap (λ k. c (get_elem? (m ∷ ms) k)) (minus-suc j i above))
  ]

  -- the connections from method `i` on, when the ids from `n` on call the functions of the class
  activate-links :
      (p : Proxy) (j i n : ℕ) (a : List (Pointer V)) (ms : List Method)
      → ((k : ℕ) (e : Entry)
          → get_elem? (entries q l ms) k ≡ some e
          → qt_metacall q meta p (n + k) a ≡ call_of e a)
      → activate q meta p j a (links q l i n ms)
        ≡ (if ltb j i then [] else calls_of a (get_elem? ms (j - i)))
  unfolding activate links
  activate-links p j i n a [] calls = ground arith
  activate-links p j i n a (m ∷ ms) calls = elim (Option-cases (entry q l m)) [
    | inl plain ↦
        let (same, next) = no_entry q l m ms i n plain in
        let rest =
          activate-links p j (suc i) n a ms
            (λ k e at. calls k e (ap (λ es. get_elem? es k) same ∙ at)) in
        ap (activate q meta p j a) next
        ∙ rest
        ∙ skip_step (calls_of a) m ms j i (
            ap
              (λ (o : Option Entry). elim o as (λ _. List (Metacall V)) [
                | none ↦ []
                | some e ↦ call_of e a ∷ []
              ])
              plain)
    | inr (e, is_function) ↦
        let (more, next) = an_entry q l m ms i n e is_function in
        let first : qt_metacall q meta p n a ≡ call_of e a =
          ap (λ (id : ℕ). qt_metacall q meta p id a) (omega arith)
          ∙ calls 0 e (ap (λ es. get_elem? es 0) more) in
        let rest = activate-links p j (suc i) (suc n) a ms (λ k f at.
          ap (λ (id : ℕ). qt_metacall q meta p id a) (omega arith)
          ∙ calls (suc k) f (ap (λ es. get_elem? es (suc k)) more ∙ at)) in
        ap (activate q meta p j a) next
        ∙ ap
            (λ c.
              if i == j
              then c ∷ activate q meta p j a (links q l (suc i) (suc n) ms)
              else activate q meta p j a (links q l (suc i) (suc n) ms))
            first
        ∙ ap (λ r. if i == j then call_of e a ∷ r else r) rest
        ∙ take_step (calls_of a) m ms j i (call_of e a) (
            ap
              (λ (o : Option Entry). elim o as (λ _. List (Metacall V)) [
                | none ↦ []
                | some e ↦ call_of e a ∷ []
              ])
              is_function)
  ]

  entry_above :
      (ms : List Method) (k : ℕ) → entry_at q l ms (first_id + k) ≡ get_elem? (entries q l ms) k
  entry_above ms k =
      let large : ltb (first_id + k) first_id ≡ false = ground arith in
      ap (λ (b : Bool). if b then none else get_elem? (entries q l ms) (first_id + k - first_id))
        large
      ∙ ap (get_elem? (entries q l ms)) (omega arith)

  activate-init :
      (ms : List Method) (p : Proxy) (i : ℕ) (a : List (Pointer V))
      → activate q meta (init q l ms p) i a (links q l 0 first_id ms) ≡ calls_of a (get_elem? ms i)
  activate-init ms p i a =
      activate-links (init q l ms p) i 0 first_id a ms (λ k e at.
        qt_metacall-init ms p (first_id + k) a
        ∙ ap (λ o. call_at (first_id + k) o a) (entry_above ms k ∙ at))
      ∙ ground arith

  -- The emission of a signal of a proxy that was initialized once calls its function once, with the
  -- signature, the type and the converted arguments of that signal, and a signal that is no function
  -- calls nothing.
  pub activate-once :
      (ms : List Method) (i : ℕ) (a : List (Pointer V))
      → activate q meta (init q l ms new) i a (init q l ms new).connections
        ≡ calls_of a (get_elem? ms i)
  activate-once ms i a =
      let (_, _, _, _, _, made) = init-entries q l ms new 0 in
      ap (activate q meta (init q l ms new) i a) made ∙ activate-init ms new i a

  -- Another `init` with the same lists adds a call: after it, each emission of a signal that is a
  -- function calls the function once more than before, and leaves the tables' answers as they were.
  pub activate-again :
      (ms : List Method) (p : Proxy) (i : ℕ) (a : List (Pointer V))
      → activate q meta (init q l ms (init q l ms p)) i a (init q l ms (init q l ms p)).connections
        ≡ activate q meta (init q l ms p) i a (init q l ms p).connections
          ++ calls_of a (get_elem? ms i)
  activate-again ms p i a =
      let again = init q l ms (init q l ms p) in
      let (_, _, _, _, _, made) = init-entries q l ms (init q l ms p) 0 in
      ap (activate q meta again i a) made
      ∙ activate-append again i a (init q l ms p).connections (links q l 0 first_id ms)
      ∙ ap (λ cs. cs ++ activate q meta again i a (links q l 0 first_id ms))
          (activate-same again (init q l ms p) i a (init q l ms p).connections
            (λ id. qt_metacall-init ms (init q l ms p) id a ∙ sym (qt_metacall-init ms p id a)))
      ∙ ap (λ cs. activate q meta (init q l ms p) i a (init q l ms p).connections ++ cs)
          (activate-init ms (init q l ms p) i a)
