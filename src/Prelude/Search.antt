-- ===== src/Prelude/Search.antt =====
-- `for (i = lo; i < lo + n; i++) if (p(i)) return i;` and the count of the places that pass.
use Prim.Native.Nat.{ℕ, zero, suc, ◌+◌, ◌≤◌, ◌<◌}
use mathlib.Core.Path.{◌≡◌, refl}
use mathlib.Core.Logic.{◌≢◌, inl, inr}
use mathlib.Core.Bool.{Bool, true, false}
use mathlib.Core.Option.{Option, none, some}
use native.Mathlib.Omega.{arith}
use native.Mathlib.Decide.{ℕ_discrete}
use apna_os.Prelude.Tests.{if◌then◌else◌, Bool-cases, Option-cases}

-- The first of the `n` places from `i` on that passes the test.
unfoldable pub search_from : (ℕ → Bool) → ℕ → ℕ → Option ℕ
search_from p i zero = none
search_from p i (suc n) = let rest = search_from p (i + 1) n in if p i then some i else rest

pub record IsFirst (p : ℕ → Bool) (lo n k : ℕ) : Type 0 where
  pub passes : p k ≡ true
  pub above : lo ≤ k
  pub below : k < lo + n
  pub least : (j : ℕ) → lo ≤ j → j < k → p j ≡ false

IsFirst-extend :
    {p : ℕ → Bool} {i n k : ℕ} → p i ≡ false → IsFirst p (i + 1) n k → IsFirst p i (suc n) k
IsFirst-extend {p} {i} f r = record {
  passes = r.passes;
  above = omega arith;
  below = omega arith;
  least = λ j a b. elim (ℕ_discrete i j) [ yes e ↦ rw (← e) f | no ne ↦ r.least j (omega arith) b ];
}

some-ne-none : {k : ℕ} → some k ≡ none → ⊥
some-ne-none e = cc

pub true-ne-false : {b : Bool} → b ≡ true → b ≡ false → ⊥
true-ne-false t f = cc

pub search_from-some :
    (p : ℕ → Bool) (i n : ℕ) {k : ℕ} → search_from p i n ≡ some k → IsFirst p i n k
unfolding search_from
search_from-some p i zero h = cc
search_from-some p i (suc n) {k} h = elim (Bool-cases (p i)) [
  | inl t ↦
      let e : i ≡ k = ground arith in
      record {
        passes = rw (← e) t;
        above = omega arith;
        below = omega arith;
        least = λ j a b. absurd (omega arith);
      }
  | inr f ↦ IsFirst-extend f (search_from-some p (i + 1) n (rw f at h))
]

pub search_from-none :
    (p : ℕ → Bool) (i n : ℕ) → search_from p i n ≡ none → (j : ℕ) → i ≤ j → j < i + n → p j ≡ false
unfolding search_from
search_from-none p i zero h j a b = absurd (omega arith)
search_from-none p i (suc n) h j a b = elim (Bool-cases (p i)) [
  | inl t ↦ absurd (some-ne-none (rw t at h))
  | inr f ↦ elim (ℕ_discrete i j) [
    | yes e ↦ rw (← e) f
    | no ne ↦ search_from-none p (i + 1) n (rw f at h) j (omega arith) (omega arith)
  ]
]

pub search_from-congr :
    (p q : ℕ → Bool) (i n : ℕ)
    → ((j : ℕ) → i ≤ j → j < i + n → p j ≡ q j)
    → search_from p i n ≡ search_from q i n
unfolding search_from
search_from-congr p q i zero h = refl
search_from-congr p q i (suc n) h = rw (
  h i (omega arith) (omega arith),
  search_from-congr p q (i + 1) n (λ j a b. h j (omega arith) (omega arith)),
)

-- A search that some place passes finds one.
pub search_from-hit :
    (p : ℕ → Bool) (i n k : ℕ)
    → p k ≡ true
    → i ≤ k
    → k < i + n
    → (j : ℕ) × (search_from p i n ≡ some j) × IsFirst p i n j
search_from-hit p i n k t a b = elim (Option-cases (search_from p i n)) [
  | inl e ↦ absurd (true-ne-false t (search_from-none p i n e k a b))
  | inr (j, e) ↦ (j, e, search_from-some p i n e)
]

-- How many of the first `n` places pass the test.
unfoldable pub count_below : (ℕ → Bool) → ℕ → ℕ
count_below p zero = 0
count_below p (suc n) = count_below p n + (if p n then 1 else 0)

pub count_below-congr :
    (p q : ℕ → Bool) (n : ℕ) → ((j : ℕ) → j < n → p j ≡ q j) → count_below p n ≡ count_below q n
unfolding count_below
count_below-congr p q zero h = refl
count_below-congr p q (suc n) h =
    rw (h n (omega arith), count_below-congr p q n (λ j a. h j (omega arith)))

-- One place that stops passing lowers the count by one.
pub count_below-drop :
    (p q : ℕ → Bool) (n k : ℕ)
    → k < n
    → p k ≡ true
    → q k ≡ false
    → ((j : ℕ) → j ≢ k → p j ≡ q j)
    → count_below p n ≡ count_below q n + 1
unfolding count_below
count_below-drop p q zero k a t f h = absurd (omega arith)
count_below-drop p q (suc n) k a t f h = elim (ℕ_discrete n k) [
  | yes e ↦
      let same = count_below-congr p q n (λ j l. h j (omega arith)) in
      let t' : p n ≡ true = rw e t in
      let f' : q n ≡ false = rw e f in rw (t', f', same) (omega arith)
  | no ne ↦ rw (h n ne) (omega (arith, count_below-drop p q n k (omega arith) t f h))
]

-- A place that passes is counted.
pub count_below-pos : (p : ℕ → Bool) (n k : ℕ) → k < n → p k ≡ true → 0 < count_below p n
unfolding count_below
count_below-pos p zero k a t = absurd (omega arith)
count_below-pos p (suc n) k a t = elim (ℕ_discrete n k) [
  | yes e ↦ let t' : p n ≡ true = rw e t in rw t' (omega arith)
  | no ne ↦ omega (arith, count_below-pos p n k (omega arith) t)
]

pub count_below-zero :
    (p : ℕ → Bool) (n : ℕ) → ((j : ℕ) → j < n → p j ≡ false) → count_below p n ≡ 0
unfolding count_below
count_below-zero p zero h = refl
count_below-zero p (suc n) h =
    rw (h n (omega arith)) (omega (arith, count_below-zero p n (λ j a. h j (omega arith))))

pub count_below-all : (p : ℕ → Bool) (n : ℕ) → ((j : ℕ) → j < n → p j ≡ true) → count_below p n ≡ n
unfolding count_below
count_below-all p zero h = refl
count_below-all p (suc n) h =
    rw (h n (omega arith)) (omega (arith, count_below-all p n (λ j a. h j (omega arith))))

pub count_below-le : (p : ℕ → Bool) (n : ℕ) → count_below p n ≤ n
unfolding count_below
count_below-le p zero = omega arith
count_below-le p (suc n) = ground (arith, count_below-le p n)

-- A test that every number below `n` passes, which a run can check.
unfoldable pub all_below : (ℕ → Bool) → ℕ → Bool
all_below p zero = true
all_below p (suc n) = let rest = all_below p n in if p n then rest else false

pub all_below-at : (p : ℕ → Bool) (n k : ℕ) → all_below p n ≡ true → k < n → p k ≡ true
unfolding all_below
all_below-at p zero k h l = absurd (omega (arith, l))
all_below-at p (suc n) k h l = elim (Bool-cases (p n)) [
  | inl t ↦ elim (ℕ_discrete n k) [
    | yes e ↦ rw (← e) t
    | no ne ↦ all_below-at p n k (rw t at h) (omega (arith, l, ne))
  ]
  | inr f ↦ cc
]
