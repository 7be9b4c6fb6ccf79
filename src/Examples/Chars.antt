-- ===== src/Examples/Chars.antt =====
-- The character with a given number, for the wire format of the sample Qt.
use Prim.Native.Nat.{compare, Ordering}
use Prim.Native.Char.{Char, char, code, IsLt, IsScalar}
use qt_rpc.Base.{ℕ, ◌≡◌, ◌⊎◌, inl, inr, refl}
use qt_rpc.Base.Search.{code-injective}

abbrev Both : Ordering → Ordering → Type 0
Both Ordering.lt o = IsLt o
Both Ordering.eq _ = ⊥
Both Ordering.gt _ = ⊥

abbrev Scalar : Ordering → Ordering → Ordering → Type 0
Scalar Ordering.lt _ _ = Unit
Scalar Ordering.eq o p = Both o p
Scalar Ordering.gt o p = Both o p

abbrev both? : (o p : Ordering) → (Both o p) ⊎ ((Both o p) → ⊥)
both? Ordering.lt Ordering.lt = inl tt
both? Ordering.lt Ordering.eq = inr (λ h. h)
both? Ordering.lt Ordering.gt = inr (λ h. h)
both? Ordering.eq p = inr (λ h. h)
both? Ordering.gt p = inr (λ h. h)

abbrev scalar? : (o p r : Ordering) → (Scalar o p r) ⊎ ((Scalar o p r) → ⊥)
scalar? Ordering.lt p r = inl tt
scalar? Ordering.eq p r = both? p r
scalar? Ordering.gt p r = both? p r

abbrev is_scalar? : (n : ℕ) → (IsScalar n) ⊎ ((IsScalar n) → ⊥)
is_scalar? n = scalar? (compare n 55296) (compare 57343 n) (compare n 1114112)

-- a question mark where the number is not one of a character
abbrev pub of_code : ℕ → Char
of_code n = elim (is_scalar? n) [ inl p ↦ char n p | inr _ ↦ char 63 tt ]

pub of_code-code : (c : Char) → of_code (code c) ≡ c
of_code-code (char n p) = code-injective _ (char n p) (same (is_scalar? n))
  where
    same :
        (d : (IsScalar n) ⊎ ((IsScalar n) → ⊥))
        → code (elim d [ inl q ↦ char n q | inr _ ↦ char 63 tt ]) ≡ n
    same (inl q) = refl
    same (inr np) = absurd (np p)
