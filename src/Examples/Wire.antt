-- ===== src/Examples/Wire.antt =====
-- A wire format: numbers xs four and eight bytes, the high one first; texts, lists and maps behind
-- their lengths. A character is one number, so that these bytes are not below 256 everywhere.
use Prim.Native.Char.{Char, code}
use qt_rpc.Base.{
  ℕ, zero, suc, ◌+◌, ◌*◌, ◌/◌, ◌%◌, ◌≡◌, refl, ap, ◌∙◌, String, Bool, true, false, List, [], ◌∷◌,
  ◌++◌, arith, length, append_assoc,
}
use qt_rpc.Base.Text.{chars, of_chars, of_chars-chars}
use qt_rpc.Qt.{Bytes, Codec, Reads}
use qt_rpc.Examples.Chars.{of_code, of_code-code}

abbrev put32 : ℕ → Bytes
put32 n = n / 16777216 ∷ (n / 65536) % 256 ∷ (n / 256) % 256 ∷ n % 256 ∷ []

abbrev get32 : Bytes → ℕ × Bytes
get32 (a ∷ b ∷ c ∷ d ∷ rest) = (a * 16777216 + b * 65536 + c * 256 + d, rest)
get32 _ = (0, [])

abbrev pub u32 : Codec ℕ
u32 = record { put = put32; get = get32 }

whole :
    (n : ℕ)
    → n / 16777216 * 16777216 + (n / 65536) % 256 * 65536 + (n / 256) % 256 * 256 + n % 256 ≡ n
whole n = omega arith

pub u32-Reads : (n : ℕ) → Reads u32 n
u32-Reads n rest = ap (λ m. (m, rest)) (whole n)

abbrev get64 : Bytes → ℕ × Bytes
get64 b = let (high, b) = get32 b in let (low, b) = get32 b in (high * 4294967296 + low, b)

abbrev pub size64 : Codec ℕ
size64 = record { put = λ n. put32 (n / 4294967296) ++ put32 (n % 4294967296); get = get64 }

pub size64-Reads : (n : ℕ) → Reads size64 n
size64-Reads n rest = ap (λ m. (m, rest)) (joined (whole (n / 4294967296)) (whole (n % 4294967296)))
  where
    joined : {a b : ℕ} → a ≡ n / 4294967296 → b ≡ n % 4294967296 → a * 4294967296 + b ≡ n
    joined e f = omega arith

pub size64_exact :
    (b rest : Bytes) → length b ≡ 8 → size64.get (b ++ rest) ≡ ((size64.get b).0, rest)
size64_exact (a ∷ b ∷ c ∷ d ∷ e ∷ f ∷ g ∷ h ∷ []) rest eight = refl
size64_exact _ rest eight = absurd (omega arith)

-- a list behind its length
module _ {A : Type 0} (c : Codec A) where
  abbrev put_all : List A → Bytes
  put_all [] = []
  put_all (a ∷ xs) = c.put a ++ put_all xs

  abbrev get_all : ℕ → Bytes → List A × Bytes
  get_all zero b = ([], b)
  get_all (suc n) b = let (a, b) = c.get b in let (xs, b) = get_all n b in (a ∷ xs, b)

  abbrev pub many : Codec (List A)
  many = record {
    put = λ xs. length xs ∷ put_all xs;
    get = λ b. elim b [ [] ↦ ([], []) | n ∷ rest ↦ get_all n rest ];
  }

  pub many-Reads : ((a : A) → Reads c a) → (xs : List A) → Reads many xs
  many-Reads reads xs rest = all xs
    where
      all : (xs : List A) → get_all (length xs) (put_all xs ++ rest) ≡ (xs, rest)
      all [] = refl
      all (a ∷ xs) = rw (append_assoc (c.put a), reads a, all xs) refl

-- two values in a row
module _ {A B : Type 0} (c : Codec A) (d : Codec B) where
  abbrev pub both : Codec (A × B)
  both = record {
    put = λ p. c.put p.0 ++ d.put p.1;
    get = λ b. let (x, b) = c.get b in let (y, b) = d.get b in ((x, y), b);
  }

  pub both-Reads : ((a : A) → Reads c a) → ((b : B) → Reads d b) → (p : A × B) → Reads both p
  both-Reads first second (x, y) rest = simp (append_assoc, first, second) refl

abbrev letter : Codec Char
letter = record {
  put = λ c. code c ∷ [];
  get = λ b. elim b [ [] ↦ (of_code 0, []) | n ∷ rest ↦ (of_code n, rest) ];
}

letter-Reads : (c : Char) → Reads letter c
letter-Reads c rest = ap (λ d. (d, rest)) (of_code-code c)

abbrev pub string : Codec String
string = record {
  put = λ s. (many letter).put (chars s);
  get = λ b. let (cs, b) = (many letter).get b in (of_chars cs, b);
}

pub string-Reads : (s : String) → Reads string s
string-Reads s rest =
    ap (λ r. (of_chars r.0, r.1)) (many-Reads letter letter-Reads (chars s) rest)
    ∙ ap (λ t. (t, rest)) (of_chars-chars s)

abbrev pub flag : Codec Bool
flag = record {
  put = λ f. elim f [ true ↦ 1 ∷ [] | false ↦ 0 ∷ [] ];
  get =
      λ b. elim b [ [] ↦ (false, []) | n ∷ rest ↦ (elim n [ zero ↦ false | suc _ ↦ true ], rest) ];
}

pub flag-Reads : (f : Bool) → Reads flag f
flag-Reads true rest = refl
flag-Reads false rest = refl
