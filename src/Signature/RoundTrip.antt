-- ===== src/Signature/RoundTrip.antt =====
-- Signature::parse reads back what Signature::toString and operator<< write.
use Prim.Native.Char.{Char}
use qt_rpc.Base.{
  ◌≡◌, ◌≢◌, refl, sym, ap, ◌∙◌, String, true, List, [], ◌∷◌, ◌++◌, map, arith, All, length,
  length-append, append_assoc,
}
use qt_rpc.Base.Text.{chars, of_chars, chars-of_chars, of_chars-chars, count, join, trimmed}
use qt_rpc.Base.Search.{Free, count-append, split-join}
use qt_rpc.Qt.{Qt, IsQt, NoMark, Bytes}
use qt_rpc.Signature.{Signature, comma, split_args, parse, to_string, write, read}
use qt_rpc.Signature.Parse.{IsCall, call_text, parse_accepts, parsed_args}

module _ {V : Type 0} (q : Qt V) where
  -- an argument type that `parse` cannot cut or trim
  pub record IsArg (a : String) : Type 0 where
    pub no_open : Free b'(' (chars a)
    pub no_close : Free b')' (chars a)
    pub no_comma : Free b',' (chars a)
    pub no_edge : trimmed q.is_space (chars a) ≡ chars a

  -- A signature as moc produces it: a name, and argument types with no space at their ends.
  pub record IsNormal (s : Signature) : Type 0 where
    pub named : s.name ≢ ""
    pub no_mark : NoMark s.name
    pub name_open : Free b'(' (chars s.name)
    pub name_close : Free b')' (chars s.name)
    pub args_normal : All IsArg s.args
    pub not_blank : s.args ≢ "" ∷ []

  words-Free : (as' : List String) → All IsArg as' → All (Free b',') (map chars as')
  words-Free [] h = tt
  words-Free (a ∷ as') h = (h.0.no_comma, words-Free as' h.1)

  join_open : (as' : List String) → All IsArg as' → Free b'(' (join comma (map chars as'))
  unfolding join count
  join_open [] h = refl
  join_open (a ∷ []) h = h.0.no_open
  join_open (a ∷ b ∷ as') h = omega (
    arith,
    count-append b'(' (chars a) (comma ∷ join comma (map chars (b ∷ as'))),
    h.0.no_open,
    join_open (b ∷ as') h.1,
  )

  join_close : (as' : List String) → All IsArg as' → Free b')' (join comma (map chars as'))
  unfolding join count
  join_close [] h = refl
  join_close (a ∷ []) h = h.0.no_close
  join_close (a ∷ b ∷ as') h = omega (
    arith,
    count-append b')' (chars a) (comma ∷ join comma (map chars (b ∷ as'))),
    h.0.no_close,
    join_close (b ∷ as') h.1,
  )

  trim_words :
      (as' : List String)
      → All IsArg as'
      → map (λ (s : List Char). of_chars (trimmed q.is_space s)) (map chars as') ≡ as'
  trim_words [] h = refl
  trim_words (a ∷ as') h = rw (h.0.no_edge, of_chars-chars a) (ap (◌∷◌ a) (trim_words as' h.1))

  split_args-join :
      (a : String) (as' : List String)
      → All IsArg (a ∷ as')
      → split_args q (join comma (map chars (a ∷ as'))) ≡ a ∷ as'
  unfolding split_args
  split_args-join a as' h =
      rw (split-join comma (chars a) (map chars as') h.0.no_comma (words-Free as' h.1))
        (trim_words (a ∷ as') h)

  -- the empty text stands for no arguments
  of_parsed :
      (cs : List Char) (as' : List String)
      → cs ≢ []
      → split_args q cs ≡ as'
      → parsed_args q cs ≡ as'
  of_parsed [] as' h e = absurd (h refl)
  of_parsed (c ∷ cs) as' h e = e

  join-ne-nil :
      (a : String) (as' : List String) → a ∷ as' ≢ "" ∷ [] → join comma (map chars (a ∷ as')) ≢ []
  unfolding join
  join-ne-nil a [] h e = h (ap (λ (t : String). t ∷ []) (sym (of_chars-chars a) ∙ ap of_chars e))
  join-ne-nil a (b ∷ as') h e = absurd (
      omega
        (arith, ap length e, length-append (chars a) (comma ∷ join comma (map chars (b ∷ as')))))

  parsed_args-join :
      (as' : List String)
      → All IsArg as'
      → as' ≢ "" ∷ []
      → parsed_args q (join comma (map chars as')) ≡ as'
  parsed_args-join [] h ne = unfold join in refl
  parsed_args-join (a ∷ as') h ne = of_parsed _ _ (join-ne-nil a as' ne) (split_args-join a as' h)

  to_string_text :
      IsQt q
      → (s : Signature) → IsNormal s
      → chars (to_string q s) ≡ call_text (chars s.name) (join comma (map chars s.args))
  unfolding to_string
  to_string_text qt s h =
      qt.format_plain s.name (of_chars (join comma (map chars s.args))) h.no_mark
      ∙ rw (chars-of_chars (join comma (map chars s.args)))

  is_call : (s : Signature) → IsNormal s → IsCall (chars s.name) (join comma (map chars s.args))
  is_call s h = record {
    named = λ e. h.named (sym (of_chars-chars s.name) ∙ ap of_chars e);
    name_open = h.name_open;
    name_close = h.name_close;
    args_open = join_open s.args h.args_normal;
    args_close = join_close s.args h.args_normal;
  }

  -- A normal signature that is printed by `to_string` is parsed back whole, into any signature.
  pub parse-to_string :
      IsQt q → (old s : Signature) → IsNormal s → parse q old (to_string q s) ≡ (true, s)
  parse-to_string qt old s h =
      parse_accepts q old (to_string q s) (chars s.name) (join comma (map chars s.args))
        (is_call s h) (to_string_text qt s h)
      ∙ ap (λ (t : Signature). (true, t))
          (λ i. record {
            name = of_chars-chars s.name i;
            args = parsed_args-join s.args h.args_normal h.not_blank i;
          })

  -- What operator<< writes of a signature, operator>> reads, and leaves what follows.
  pub read-write : IsQt q → (s : Signature) (rest : Bytes) → read q (write q s ++ rest) ≡ (s, rest)
  unfolding write read
  read-write qt s rest = simp (append_assoc, qt.string_reads, qt.strings_reads)
