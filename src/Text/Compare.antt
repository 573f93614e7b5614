-- ===== src/Text/Compare.antt =====
-- What `strlen`, `strcmp` and `strncmp` decide.
use apna_os.Prelude.{
  ℕ, zero, suc, ◌+◌, ◌≤◌, ◌<◌, ◌≡◌, refl, ◌≢◌, ◌↔◌, ◌⊎◌, Bool, not, ◌||◌, arith, ◌==◌, ℕ_discrete,
  dec_lt, Bytes, some, search_from-hit, IsFirst, true-ne-false,
}
use apna_os.Prelude.Int.{ℤ, pos, sub_ℕ}
use apna_os.Text.{HasLength, strlen, strcmp, strncmp_loop, strncmp}

sub_ℕ-eq-zero : (a b : ℕ) → sub_ℕ a b ≡ pos 0 → a ≡ b
sub_ℕ-eq-zero a b h = ground arith

-- `strlen` ends with the length, given more fuel than that.
pub strlen_lem : (fuel : ℕ) (s : Bytes) (k : ℕ) → HasLength s k → k < fuel → strlen fuel s ≡ some k
unfolding strlen
strlen_lem fuel s k h l =
    let (j, e, first) =
      search_from-hit (λ i. s i == 0) 0 fuel k (ground (arith, h.ends)) (omega arith)
        (omega arith) in
    let same : j ≡ k = elim (dec_lt j k) [
      | yes b ↦ absurd (h.before j b (ground (arith, first.passes)))
      | no b ↦ elim (dec_lt k j) [
        | yes c ↦ absurd (true-ne-false (ground (arith, h.ends)) (first.least k (omega arith) c))
        | no c ↦ omega arith
      ]
    ] in
    rw (← same) e

-- Two names are the same to `strncmp` with the limit `n`: they agree on the first `n` bytes, or
-- up to a common end.
abbrev pub SameName : ℕ → Bytes → Bytes → Type 0
SameName n a b = (j : ℕ) → j < n → ((k : ℕ) → k < j → a k ≢ 0) → a j ≡ b j

-- The same, for the `n` bytes from `i` on.
abbrev SameFrom : Bytes → Bytes → ℕ → ℕ → Type 0
SameFrom a b i n = (j : ℕ) → i ≤ j → j < i + n → ((k : ℕ) → i ≤ k → k < j → a k ≢ 0) → a j ≡ b j

strncmp_loop_sound : (n : ℕ) (a b : Bytes) (i : ℕ) → strncmp_loop n a b i ≡ pos 0 → SameFrom a b i n
unfolding strncmp_loop
strncmp_loop_sound zero a b i h j l u nz = absurd (omega arith)
strncmp_loop_sound (suc n) a b i h j l u nz = elim (ℕ_discrete i j) [
  | yes e ↦ rw (← e) (ground (arith, sub_ℕ-eq-zero (a i) (b i)))
  | no ne ↦
      let more : a i ≢ 0 = nz i (omega arith) (omega arith) in
      strncmp_loop_sound n a b (i + 1) (ground arith) j (omega arith) (omega arith)
        (λ k c d. nz k (omega arith) d)
]

strncmp_loop_complete :
    (n : ℕ) (a b : Bytes) (i : ℕ) → SameFrom a b i n → strncmp_loop n a b i ≡ pos 0
unfolding strncmp_loop
strncmp_loop_complete zero a b i h = refl
strncmp_loop_complete (suc n) a b i h =
    let e : a i ≡ b i = h i (omega arith) (omega arith) (λ k c d. absurd (omega arith)) in
    elim (ℕ_discrete (a i) 0) [
      | yes z ↦ ground arith
      | no nz ↦ ground (
        arith,
        strncmp_loop_complete n a b (i + 1)
            (λ j l u before. h j (omega arith) (omega arith) (λ k c d. extend nz before k c d)),
      )
    ]
  where
    extend :
        {j : ℕ}
        → a i ≢ 0
        → ((k : ℕ) → i + 1 ≤ k → k < j → a k ≢ 0)
        → (k : ℕ) → i ≤ k
        → k < j
        → a k ≢ 0
    extend nz before k c d = elim (ℕ_discrete i k) [
      | yes e ↦ rw (← e) nz
      | no ne ↦ before k (omega arith) d
    ]

-- `strncmp` returns 0 exactly for two names that are the same up to its limit.
pub strncmp-SameName : (a b : Bytes) (n : ℕ) → (strncmp a b n ≡ pos 0) ↔ SameName n a b
unfolding strncmp
strncmp-SameName a b n = (
  λ h j l nz. strncmp_loop_sound n a b 0 h j (omega arith) (omega arith) (λ k c d. nz k d),
  λ h. strncmp_loop_complete n a b 0 (λ j l u nz. h j (omega arith) (λ k d. nz k (omega arith) d)),
)

-- Where `strcmp` stops: at the end of `s1`, or where the strings differ.
strcmp-stops :
    (fuel : ℕ) (a b : Bytes) (i k : ℕ)
    → i ≤ k
    → k < i + fuel
    → ((j : ℕ) → i ≤ j → j < k → (a j ≢ 0) × (a j ≡ b j))
    → (a k ≡ 0) ⊎ (a k ≢ b k)
    → strcmp fuel a b i ≡ some (sub_ℕ (a k) (b k))
unfolding strcmp
strcmp-stops zero a b i k l u same stop = absurd (omega arith)
strcmp-stops (suc fuel) a b i k l u same stop = elim (ℕ_discrete i k) [
  | yes e ↦ rw (← e) (ground (arith, rw (← e) at stop))
  | no ne ↦ ground (
    arith,
    same i (omega arith) (omega arith),
    strcmp-stops fuel a b (i + 1) k (omega arith) (omega arith) (λ j c d. same j (omega arith) d)
        stop,
  )
]

stops_at : Bytes → Bytes → ℕ → Bool
stops_at a b j = a j == 0 || not (a j == b j)

-- Over a string of `k` bytes and with more fuel than that `strcmp` ends, and it returns 0 exactly
-- when the other string has the same bytes, its end included.
pub strcmp-eq_zero :
    (fuel : ℕ) (a b : Bytes) (k : ℕ)
    → HasLength a k
    → k < fuel
    → (r : ℤ) × (strcmp fuel a b 0 ≡ some r) × ((r ≡ pos 0) ↔ ((j : ℕ) → j ≤ k → a j ≡ b j))
unfolding stops_at
strcmp-eq_zero fuel a b k h l =
    let (j, e, first) =
      search_from-hit (stops_at a b) 0 fuel k (ground (arith, h.ends)) (omega arith)
        (omega arith) in
    let at_most : j ≤ k = not_after first in
    (
      sub_ℕ (a j) (b j),
      strcmp-stops fuel a b 0 j (omega arith) (first.below)
          (λ i c d. ground (arith, first.least i c d)) (ground (arith, first.passes)),
      (
        λ z i c. ground (
          arith,
          ends_there first at_most z,
          first.least i (omega arith),
          sub_ℕ-eq-zero (a j) (b j) z,
        ),
        λ same. ground (arith, same j at_most),
      ),
    )
  where
    ends_there :
        {j : ℕ} → IsFirst (stops_at a b) 0 fuel j → j ≤ k → sub_ℕ (a j) (b j) ≡ pos 0 → j ≡ k
    ends_there {j} first c z = elim (dec_lt j k) [
      | yes d ↦ ground (arith, first.passes, h.before j d, sub_ℕ-eq-zero (a j) (b j) z)
      | no d ↦ omega arith
    ]

    not_after : {j : ℕ} → IsFirst (stops_at a b) 0 fuel j → j ≤ k
    not_after {j} first = elim (dec_lt k j) [
      | yes c ↦ absurd (true-ne-false (ground (arith, h.ends)) (first.least k (omega arith) c))
      | no c ↦ omega arith
    ]
