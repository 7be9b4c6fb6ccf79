-- ===== src/Server/Pick.antt =====
-- Which thread of the pool Server::requestThread chooses.
use qt_rpc.Base.{
  ℕ, suc, ◌+◌, ◌≤◌, ◌<◌, ◌≡◌, ◌≢◌, ◌⊎◌, inl, inr, refl, subst, List, [], ◌∷◌, arith, All, ltb, ◌==◌,
  if◌then◌else◌, length, get_or, drop, Bool-cases,
}
use qt_rpc.Server.{Server, thread_pool, pooled, pick, add_at, request_thread}

-- Where `pick` ends on a list with no idle thread: at `thread`, or at the last light one.
abbrev Busy : ℕ → ℕ → ℕ → List ℕ → ℕ → Type 0
Busy lowest i thread cs p =
    ((p ≡ thread) × All (λ c. lowest ≤ c) cs)
    ⊎ ((k : ℕ) × (p ≡ i + k)
        × (get_or cs k lowest < lowest)
        × (k < length cs)
        × All (λ c. lowest ≤ c) (drop (suc k) cs))

abbrev Idle : ℕ → List ℕ → ℕ → Type 0
Idle i cs p = (k : ℕ) × (p ≡ i + k) × (k < length cs) × (get_or cs k 1 ≡ 0)

abbrev Cases : ℕ → ℕ → ℕ → List ℕ → ℕ → Type 0
Cases lowest i thread cs p = Idle i cs p ⊎ (All (λ c. c ≢ 0) cs × Busy lowest i thread cs p)

-- One more busy thread in front.
skip_busy :
    (lowest i thread c p : ℕ) (cs : List ℕ)
    → c ≢ 0
    → Cases lowest (i + 1) (if ltb c lowest then i else thread) cs p
    → Cases lowest i thread (c ∷ cs) p
skip_busy lowest i thread c p cs busy (inl (k, e, less, none_there)) =
    inl (suc k, omega arith, omega arith, none_there)
skip_busy lowest i thread c p cs busy (inr (nonzero, inr (k, e, light, less, heavy))) =
    inr ((busy, nonzero), inr (suc k, omega arith, light, omega arith, heavy))
skip_busy lowest i thread c p cs busy (inr (nonzero, inl (e, heavy))) =
    elim (Bool-cases (ltb c lowest)) [
      | inl light ↦
          inr ((busy, nonzero), inr (0, ground (arith, light), ground arith, omega arith, heavy))
      | inr not_light ↦
          inr ((busy, nonzero), inl (ground (arith, not_light), (ground arith, heavy)))
    ]

pick-Cases :
    (lowest i thread : ℕ) (cs : List ℕ) → Cases lowest i thread cs (pick lowest i thread cs)
unfolding pick
pick-Cases lowest i thread [] = inr (tt, inl (refl, tt))
pick-Cases lowest i thread (c ∷ cs) = elim (Bool-cases (c == 0)) [
  | inl e ↦ inl (0, ground (arith, e), omega arith, ground (arith, e))
  | inr e ↦ rw e (
      skip_busy lowest i thread c _ cs (ground (arith, e))
        (pick-Cases lowest (i + 1) (if ltb c lowest then i else thread) cs))
]

from_Cases :
    (c p : ℕ) (cs : List ℕ)
    → Cases c 0 0 (c ∷ cs) p
    → (p < length (c ∷ cs))
      × ((get_or (c ∷ cs) p 1 ≡ 0)
          ⊎ (All (λ d. d ≢ 0) (c ∷ cs)
              × (((p ≡ 0) × All (λ d. c ≤ d) (c ∷ cs))
                  ⊎ ((get_or (c ∷ cs) p c < c) × All (λ d. c ≤ d) (drop (suc p) (c ∷ cs))))))
from_Cases c p cs (inl (k, e, less, idle)) =
    let same : k ≡ p = omega arith in
    (omega arith, inl (subst (λ j. get_or (c ∷ cs) j 1 ≡ 0) same idle))
from_Cases c p cs (inr (nonzero, inl (e, heavy))) = (omega arith, inr (nonzero, inl (e, heavy)))
from_Cases c p cs (inr (nonzero, inr (k, e, light, less, heavy))) =
    let same : k ≡ p = omega arith in
    (
      omega arith,
      inr (
        nonzero,
        inr (
          subst (λ j. get_or (c ∷ cs) j c < c) same light,
          subst (λ j. All (λ d. c ≤ d) (drop (suc j) (c ∷ cs))) same heavy,
        ),
      ),
    )

-- A request on a thread pool with at least one thread takes one more instance on one of its
-- threads. That thread is idle, or no thread is idle and it is the last one with fewer instances
-- than the first thread, or the first thread where no other has fewer.
pub request_thread_pool :
    (s : Server) (c : ℕ) (cs : List ℕ)
    → s.thread_type ≡ thread_pool
    → s.thread_count ≡ c ∷ cs
    → (i : ℕ) × (request_thread s ≡ (pooled i, record s { thread_count = add_at s.thread_count i }))
      × (i < length (c ∷ cs))
      × ((get_or (c ∷ cs) i 1 ≡ 0)
          ⊎ (All (λ d. d ≢ 0) (c ∷ cs)
              × (((i ≡ 0) × All (λ d. c ≤ d) (c ∷ cs))
                  ⊎ ((get_or (c ∷ cs) i c < c) × All (λ d. c ≤ d) (drop (suc i) (c ∷ cs))))))
unfolding request_thread
request_thread_pool s c cs pool counts = (
  pick c 0 0 (c ∷ cs),
  rw (pool, counts) refl,
  (from_Cases c _ cs (pick-Cases c 0 0 (c ∷ cs))).0,
  (from_Cases c _ cs (pick-Cases c 0 0 (c ∷ cs))).1,
)
