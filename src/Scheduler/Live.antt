-- ===== src/Scheduler/Live.antt =====
-- Which blocks of the heap are in use, as the kernel's allocations see it.
use apna_os.Prelude.{
  ℕ, ◌<◌, ◌≡◌, ◌≢◌, arith, Option, some, List, [], ◌∷◌, Option-cases, inl, inr, ◌∙◌, ap, sym, ◌∉◌,
}
use apna_os.Memory.{Memory, num_pages, kmalloc}
use apna_os.Memory.Pages.{page_at}
use apna_os.Memory.Free.{page_of}
use apna_os.Memory.Heap.{Block, kmalloc_lem, kmalloc-none}
use apna_os.Memory.Restore.{locate}

-- The page of a block is taken, in a table of pages.
abbrev pub Live : Memory → ℕ → Type 0
Live m a = (page_of a < num_pages) × (m.page_table (page_of a) ≢ 0)

abbrev pub AllLive : Memory → List ℕ → Type 0
AllLive m [] = Unit
AllLive m (x ∷ xs) = Live m x × AllLive m xs

-- Every block that is in use in `m` is in use in `m'`.
abbrev pub StillLive : Memory → Memory → Type 0
StillLive m m' = (a : ℕ) → Live m a → Live m' a

pub AllLive-mono : (m m' : Memory) (xs : List ℕ) → StillLive m m' → AllLive m xs → AllLive m' xs
AllLive-mono m m' [] s h = tt
AllLive-mono m m' (x ∷ xs) s (l, h) = (s x l, AllLive-mono m m' xs s h)

-- An address whose page is free is none of them.
pub not-mem-AllLive :
    (m : Memory) (p : ℕ) (xs : List ℕ) → m.page_table (page_of p) ≡ 0 → AllLive m xs → p ∉ xs
not-mem-AllLive m p [] z h = tt
not-mem-AllLive m p (x ∷ xs) z ((in_table, l), h) =
    (λ e. l (ap (λ a. m.page_table (page_of a)) (sym e) ∙ z), not-mem-AllLive m p xs z h)

-- What an allocation does, as far as the kernel's blocks are concerned: it takes none of them.
pub record Fresh (m m' : Memory) (r : Option ℕ) : Type 0 where
  pub still : StillLive m m'
  pub new : (p : ℕ) → r ≡ some p → (m.page_table (page_of p) ≡ 0) × Live m' p

Block-Fresh : {size ptr : ℕ} {m m' : Memory} → Block size m ptr m' → Fresh m m' (some ptr)
Block-Fresh {size} {ptr} {m} {m'} b = record {
  still = λ a (l, nz). (
    l,
    λ z. elim (locate b (page_of a) l) [
      | inl (k, inside, e) ↦ nz (sym (ap m.page_table e) ∙ b.was_free k inside)
      | inr out ↦ nz (sym (b.taken.others (page_of a) out) ∙ z)
    ],
  );
  new = λ p e.
      let same : ptr ≡ p = cc in
      let here : page_of p ≡ b.first = omega (arith, b.start, same) in
      let at_0 : page_at b.first 0 ≡ b.first = omega (arith, b.in_table) in
      let taken : m'.page_table (page_of p) ≡ 1 = ap m'.page_table here ∙ b.taken.head in
      (
        ap m.page_table (here ∙ sym at_0) ∙ b.was_free 0 b.some_page,
        (omega (arith, here, b.in_table), λ z. omega (arith, taken, z)),
      );
}

pub kmalloc-Fresh : (size : ℕ) (m : Memory) → Fresh m ((kmalloc size m).1) ((kmalloc size m).0)
kmalloc-Fresh size m = elim (Option-cases (kmalloc size m).0) [
  | inl e ↦ rw (kmalloc-none size m e, e) (record { still = λ a l. l; new = λ p e'. cc })
  | inr (ptr, e) ↦ rw e (Block-Fresh (kmalloc_lem size m e))
]
