-- ===== src/Prelude/Arrays.antt =====
-- A C array, or the memory behind a pointer, as a function of the index; its bounds are tested
-- where the code computes an index (see `Run`).
use Prim.Native.Nat.{ℕ, zero, suc, ◌+◌, ◌<◌}
use mathlib.Core.Path.{◌≡◌, ap, subst, ◌∙◌}
use mathlib.Core.Logic.{◌≢◌, inl, inr}
use mathlib.Core.Bool.{Bool, ◌&&◌}
use mathlib.Core.List.{List, [], ◌∷◌}
use native.Mathlib.Decide.{ℕ_discrete}
use apna_os.Prelude.Tests.{Bool-cases, ltb, leb, ◌==◌, if◌then◌else◌, ==_refl, ne→==}

abbrev pub Array {ℓ} : Type ℓ → Type ℓ
Array A = ℕ → A

-- A byte array: `char *`, `uint8_t[]`.
abbrev pub Bytes : Type 0
Bytes = ℕ → ℕ

module _ {ℓ} {A : Type ℓ} where
  abbrev pub update : Array A → ℕ → A → Array A
  update f i a j = if i == j then a else f j

  pub update_self : (f : Array A) (i : ℕ) (a : A) → update f i a i ≡ a
  update_self f i a = rw ==_refl

  pub update_ne : (f : Array A) (i j : ℕ) (a : A) → i ≢ j → update f i a j ≡ f j
  update_ne f i j a h = rw (ne→== i j h)

  -- What a write to one place keeps of it, it keeps of all.
  pub update-view {κ} :
      {B : Type κ} (view : A → B) (f : Array A) (i : ℕ) (a : A)
      → view a ≡ view (f i)
      → (j : ℕ) → view (update f i a j) ≡ view (f j)
  update-view view f i a e j = elim (ℕ_discrete i j) [
    | yes same ↦
        subst (λ j. view (update f i a j) ≡ view (f j)) same (ap view (update_self f i a) ∙ e)
    | no ne ↦ ap view (update_ne f i j a ne)
  ]

  -- The array of a list, `d` behind its end.
  abbrev pub of_list : A → List A → Array A
  of_list d [] i = d
  of_list d (x ∷ xs) zero = x
  of_list d (x ∷ xs) (suc i) = of_list d xs i

-- The index `i` lies in the `n` places from `lo` on.
abbrev pub within : ℕ → ℕ → ℕ → Bool
within lo n i = leb lo i && ltb i (lo + n)

module _ {ℓ κ} {A : Type ℓ} (P : A → Type κ) where
  -- What holds of the new value and of all the old ones holds of the updated array.
  pub update-All :
      (f : Array A) (i n : ℕ) (a : A)
      → ((j : ℕ) → j < n → P (f j))
      → P a
      → (j : ℕ) → j < n
      → P (update f i a j)
  update-All f i n a old new j l = elim (Bool-cases (i == j)) [
    | inl e ↦ rw e new
    | inr e ↦ rw e (old j l)
  ]
