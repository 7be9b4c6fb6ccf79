-- ===== src/Base/Text.antt =====
-- Texts as lists of characters: the operations of QString and QStringList that the code uses.
use Prim.Native.Nat.{ℕ, suc}
use Prim.Native.Char.{Char, code}
use Prim.Native.String.{String}
use mathlib.Core.Path.{◌≡◌, refl, ap}
use mathlib.Core.Logic.{◌↔◌}
use mathlib.Core.Bool.{Bool, true, false, ◌&&◌, ◌||◌}
use mathlib.Core.List.{List, [], ◌∷◌, ◌++◌, reverse}
use mathlib.Core.Option
use mathlib.Core.Option.{Option, none, some}
use native.Mathlib.Omega.{arith}
use text.Mathlib.Text.{◌==◌ as str_eq}
use text.Mathlib.TextEquality.{eq_iff}
use qt_rpc.Base.Tests.{◌==◌, if◌then◌else◌}

abbrev pub chars : String → List Char
chars String.[] = []
chars (String.◌∷◌ c s) = c ∷ chars s

abbrev pub of_chars : List Char → String
of_chars [] = String.[]
of_chars (c ∷ cs) = String.◌∷◌ c (of_chars cs)

pub of_chars-chars : (s : String) → of_chars (chars s) ≡ s
of_chars-chars String.[] = refl
of_chars-chars (String.◌∷◌ c s) = ap (String.◌∷◌ c) (of_chars-chars s)

pub chars-of_chars : (cs : List Char) → chars (of_chars cs) ≡ cs
chars-of_chars [] = refl
chars-of_chars (c ∷ cs) = ap (◌∷◌ c) (chars-of_chars cs)

-- s.count(c)
unfoldable pub count : ℕ → List Char → ℕ
count c [] = 0
count c (x ∷ xs) = let rest = count c xs in if code x == c then suc rest else rest

-- s.indexOf(c), where -1 is `none`
unfoldable pub index_of : ℕ → List Char → Option ℕ
index_of c [] = none
index_of c (x ∷ xs) =
    let rest = index_of c xs in if code x == c then some 0 else Option.map suc rest

-- the first part of s.split(c), and the parts behind it
unfoldable pub split : ℕ → List Char → List Char × List (List Char)
split c [] = ([], [])
split c (x ∷ xs) =
    let (word, words) = split c xs in if code x == c then ([], word ∷ words) else (x ∷ word, words)

-- list.join(c)
unfoldable pub join : Char → List (List Char) → List Char
join c [] = []
join c (w ∷ []) = w
join c (w ∷ v ∷ ws) = w ++ c ∷ join c (v ∷ ws)

-- s.trimmed(), where `space` is QChar::isSpace
module _ (space : Char → Bool) where
  unfoldable pub skip : List Char → List Char
  skip [] = []
  skip (x ∷ xs) = let rest = skip xs in if space x then rest else x ∷ xs

  unfoldable pub trimmed : List Char → List Char
  unfolding skip
  trimmed s = reverse (skip (reverse (skip s)))

-- list.contains(s)
unfoldable pub is_one_of : String → List String → Bool
is_one_of s [] = false
is_one_of s (t ∷ ts) = str_eq t s || is_one_of s ts

unfoldable pub texts_eq : List String → List String → Bool
texts_eq [] [] = true
texts_eq (s ∷ ss) (t ∷ ts) = str_eq s t && texts_eq ss ts
texts_eq _ _ = false

pub texts_eq_iff : (ss ts : List String) → (texts_eq ss ts ≡ true) ↔ (ss ≡ ts)
unfolding texts_eq
texts_eq_iff [] [] = ground arith
texts_eq_iff [] (t ∷ ts) = ground arith
texts_eq_iff (s ∷ ss) [] = ground arith
texts_eq_iff (s ∷ ss) (t ∷ ts) = ground (arith, eq_iff s t, texts_eq_iff ss ts)
