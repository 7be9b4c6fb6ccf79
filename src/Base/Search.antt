-- ===== src/Base/Search.antt =====
-- Laws of the searches in texts: `count`, `index_of`, `split` against `join`.
use Prim.Native.Nat.{ℕ, zero, suc, ◌+◌}
use Prim.Native.Char.{Char, code}
use mathlib.Core.Path.{◌≡◌, refl, ap}
use mathlib.Core.Logic.{◌≢◌}
use mathlib.Core.List.{List, [], ◌∷◌, ◌++◌}
use mathlib.Core.Option.{some}
use native.Mathlib.Omega.{arith}
use text.Mathlib.TextEquality.{codes_equal}
use qt_rpc.Base.Lists.{length, take, drop, All}
use qt_rpc.Base.Text.{count, index_of, split, join}

pub code-injective : (c d : Char) → code c ≡ code d → c ≡ d
code-injective c d h = codes_equal c d (ground arith)

pub count-append : (c : ℕ) (xs ys : List Char) → count c (xs ++ ys) ≡ count c xs + count c ys
unfolding count
count-append c [] ys = omega arith
count-append c (x ∷ xs) ys = ground (arith, count-append c xs ys)

pub count_self : (d : Char) (xs : List Char) → count (code d) (d ∷ xs) ≡ suc (count (code d) xs)
unfolding count
count_self d xs = ground arith

pub count_ne : (c : ℕ) (d : Char) (xs : List Char) → code d ≢ c → count c (d ∷ xs) ≡ count c xs
unfolding count
count_ne c d xs h = ground arith

-- The first occurrence behind a part that has none.
pub index_of-append :
    (d : Char) (xs ys : List Char)
    → count (code d) xs ≡ 0
    → index_of (code d) (xs ++ (d ∷ ys)) ≡ some (length xs)
unfolding index_of count
index_of-append d [] ys h = ground arith
index_of-append d (x ∷ xs) ys h = ground (arith, index_of-append d xs ys)

-- What an index that was found says of the text.
pub index_of-some :
    (c : ℕ) (xs : List Char) (n : ℕ)
    → index_of c xs ≡ some n
    → (d : Char) × (code d ≡ c)
      × (xs ≡ take n xs ++ (d ∷ drop (suc n) xs))
      × (count c (take n xs) ≡ 0)
unfolding index_of count
index_of-some c [] n h = cc
index_of-some c (x ∷ xs) zero h = (x, ground arith, ground arith, ground arith)
index_of-some c (x ∷ xs) (suc n) h =
    let (d, e, same, none_before) = index_of-some c xs n (ground arith) in
    (d, e, ap (◌∷◌ x) same, ground arith)

abbrev pub Free : ℕ → List Char → Type 0
Free c xs = count c xs ≡ 0

pub split-Free : (c : ℕ) (xs : List Char) → Free c xs → split c xs ≡ (xs, [])
unfolding split count
split-Free c [] h = refl
split-Free c (x ∷ xs) h = ground (arith, split-Free c xs)

pub split-append :
    (d : Char) (xs ys : List Char)
    → Free (code d) xs
    → split (code d) (xs ++ (d ∷ ys)) ≡ (xs, (split (code d) ys).0 ∷ (split (code d) ys).1)
unfolding split count
split-append d [] ys h = ground arith
split-append d (x ∷ xs) ys h = ground (arith, split-append d xs ys)

-- Words without the separator are what their text is split into.
pub split-join :
    (d : Char) (w : List Char) (ws : List (List Char))
    → Free (code d) w
    → All (Free (code d)) ws
    → split (code d) (join d (w ∷ ws)) ≡ (w, ws)
unfolding join
split-join d w [] h hs = split-Free (code d) w h
split-join d w (v ∷ ws) h hs =
    rw (split-append d w (join d (v ∷ ws)) h, split-join d v ws hs.0 hs.1)
