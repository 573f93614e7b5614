-- ===== src/Process/Chain.antt =====
-- A queue of processes as the list of its blocks, and where insertion stands in it.
use apna_os.Prelude.{
  ℕ, ◌≡◌, ◌≢◌, arith, Option, none, some, List, [], ◌∷◌, Array, if◌then◌else◌, ◌∉◌, Distinct,
  Bool-cases, inl, inr, sym,
}
use apna_os.Prelude.Int.{ℤ, ltb_ℤ, ◌≤ℤ◌}
use apna_os.Process.{Pcb, Queued}

-- From `front` on the links lead through the blocks of the list and end there.
abbrev pub Chain : Array Pcb → Option ℕ → List ℕ → Type 0
Chain blocks front [] = front ≡ none
Chain blocks front (x ∷ xs) = (front ≡ some x) × Chain blocks ((blocks x).next) xs

abbrev pub last : List ℕ → Option ℕ
last [] = none
last (x ∷ []) = some x
last (x ∷ y ∷ xs) = last (y ∷ xs)

module _ (key : ℕ → ℤ) where
  abbrev pub AllAbove : ℤ → List ℕ → Type 0
  AllAbove z [] = Unit
  AllAbove z (x ∷ xs) = (z ≤ℤ key x) × AllAbove z xs

  abbrev pub Sorted : List ℕ → Type 0
  Sorted [] = Unit
  Sorted (x ∷ xs) = AllAbove (key x) xs × Sorted xs

  -- A block goes behind those whose key is not larger than its own.
  unfoldable pub insert : ℕ → List ℕ → List ℕ
  insert p [] = p ∷ []
  insert p (x ∷ xs) =
      let rest = insert p xs in if ltb_ℤ (key p) (key x) then p ∷ x ∷ xs else x ∷ rest

-- `q` is the list: its links, its end, its order.
pub record IsQueue (key : Pcb → ℤ) (q : Queued) (xs : List ℕ) : Type 0 where
  pub chain : Chain q.blocks q.queue.front xs
  pub rear : q.queue.rear ≡ last xs
  pub distinct : Distinct xs
  pub sorted : Sorted (λ a. key (q.blocks a)) xs

-- A chain lives on as long as its own blocks do not change.
pub Chain-frame :
    (b b' : Array Pcb) (front : Option ℕ) (xs : List ℕ) (p c : ℕ)
    → p ∉ xs
    → c ∉ xs
    → ((a : ℕ) → a ≢ p → a ≢ c → b' a ≡ b a)
    → Chain b front xs
    → Chain b' front xs
Chain-frame b b' front [] p c out out' same chain = chain
Chain-frame b b' front (x ∷ xs) p c (ne, out) (ne', out') same (e, chain) = (
  e,
  rw (same x (λ e. ne (sym e)) (λ e. ne' (sym e)))
      (Chain-frame b b' ((b x).next) xs p c out out' same chain),
)

le_trans : (a b c : ℤ) → a ≤ℤ b → b ≤ℤ c → a ≤ℤ c
le_trans a b c h i = omega (arith, h, i)

module _ (key : ℕ → ℤ) where
  AllAbove-trans : (a b : ℤ) (xs : List ℕ) → a ≤ℤ b → AllAbove key b xs → AllAbove key a xs
  AllAbove-trans a b [] l h = tt
  AllAbove-trans a b (x ∷ xs) l (e, h) = (le_trans a b (key x) l e, AllAbove-trans a b xs l h)

  AllAbove-insert :
      (z : ℤ) (p : ℕ) (xs : List ℕ)
      → z ≤ℤ key p
      → AllAbove key z xs
      → AllAbove key z (insert key p xs)
  unfolding insert
  AllAbove-insert z p [] l h = (l, tt)
  AllAbove-insert z p (x ∷ xs) l (e, h) = elim (Bool-cases (ltb_ℤ (key p) (key x))) [
    | inl t ↦ rw t (l, (e, h))
    | inr f ↦ rw f (e, AllAbove-insert z p xs l h)
  ]

  -- Insertion keeps the order.
  pub insert-Sorted : (p : ℕ) (xs : List ℕ) → Sorted key xs → Sorted key (insert key p xs)
  unfolding insert
  insert-Sorted p [] h = (tt, tt)
  insert-Sorted p (x ∷ xs) (a, h) = elim (Bool-cases (ltb_ℤ (key p) (key x))) [
    | inl t ↦
        let le : key p ≤ℤ key x = ground (arith, t) in
        rw t ((le, AllAbove-trans (key p) (key x) xs le a), (a, h))
    | inr f ↦
        let le : key x ≤ℤ key p = ground (arith, f) in
        rw f (AllAbove-insert (key x) p xs le a, insert-Sorted p xs h)
  ]

  pub not-mem-insert : (a p : ℕ) (xs : List ℕ) → a ≢ p → a ∉ xs → a ∉ insert key p xs
  unfolding insert
  not-mem-insert a p [] ne h = (ne, tt)
  not-mem-insert a p (x ∷ xs) ne (e, h) = elim (Bool-cases (ltb_ℤ (key p) (key x))) [
    | inl t ↦ rw t (ne, (e, h))
    | inr f ↦ rw f (e, not-mem-insert a p xs ne h)
  ]

  pub insert-Distinct : (p : ℕ) (xs : List ℕ) → p ∉ xs → Distinct xs → Distinct (insert key p xs)
  unfolding insert
  insert-Distinct p [] out d = (tt, tt)
  insert-Distinct p (x ∷ xs) (ne, out) (a, d) = elim (Bool-cases (ltb_ℤ (key p) (key x))) [
    | inl t ↦ rw t ((ne, out), (a, d))
    | inr f ↦ rw f (not-mem-insert x p xs (λ e. ne (sym e)) a, insert-Distinct p xs out d)
  ]
