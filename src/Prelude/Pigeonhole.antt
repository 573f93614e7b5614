-- ===== src/Prelude/Pigeonhole.antt =====
-- A function that is one-to-one on the numbers below `n`, with values below `m`.
use Prim.Native.Nat.{ℕ, zero, suc, ◌-◌, ◌≤◌, ◌<◌}
use mathlib.Core.Path.{◌≡◌}
use mathlib.Core.Logic.{◌≢◌}
use native.Mathlib.Omega.{arith}
use apna_os.Prelude.Tests.{ltb, if◌then◌else◌}

abbrev pub IsInjection : ℕ → (ℕ → ℕ) → Type 0
IsInjection n f = (i j : ℕ) → i < n → j < n → f i ≡ f j → i ≡ j

-- The values with the unused value `v` taken out.
abbrev skip : ℕ → (ℕ → ℕ) → ℕ → ℕ
skip v f i = if ltb v (f i) then f i - 1 else f i

pub pigeonhole : (n m : ℕ) (f : ℕ → ℕ) → ((i : ℕ) → i < n → f i < m) → IsInjection n f → n ≤ m
pigeonhole zero m f small inj = omega arith
pigeonhole (suc n) zero f small inj = absurd (omega (arith, small n (omega arith)))
pigeonhole (suc n) (suc m) f small inj =
    let below = small n (omega arith) in
    omega (
      arith,
      pigeonhole n m (skip (f n) f) (λ i l. ground (arith, small i (omega arith), inj i n))
          (λ i j l k e. ground (arith, inj i j (omega arith) (omega arith), inj i n, inj j n)),
    )

-- Below `n` such a function leaves out no value.
pub no_value_missed :
    (n v : ℕ) (f : ℕ → ℕ)
    → v < n
    → ((i : ℕ) → i < n → f i < n)
    → IsInjection n f
    → ((i : ℕ) → i < n → f i ≢ v)
    → ⊥
no_value_missed n v f l small inj misses = absurd (
    omega (
      arith,
      pigeonhole n (n - 1) (skip v f) (λ i a. ground (arith, small i a, misses i a))
          (λ i j a b e. ground (arith, inj i j a b, misses i a, misses j b)),
    ))
