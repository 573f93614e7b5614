-- ===== src/Scheduler/Keep.antt =====
-- The bytes of a block of 4096 bytes of memory/memory.c while others are allocated.
use apna_os.Prelude.{
  ℕ, ◌+◌, ◌*◌, ◌/◌, ◌≤◌, ◌<◌, ◌≡◌, refl, ◌≢◌, arith, Option-cases, inl, inr, ap, sym, subst, ◌∙◌,
  ◌⊎◌, dec_lt, dec_le,
}
use apna_os.Memory.{
  page_size, num_pages, header_size, kernel_memory_size, Memory, pages_for, kmalloc,
}
use apna_os.Memory.Pages.{page_at}
use apna_os.Memory.Free.{page_of}
use apna_os.Memory.Heap.{Block, kmalloc_lem, kmalloc-none}
use apna_os.Scheduler.Live.{kmalloc-Fresh}

-- The page of a byte is in use.
abbrev pub InUse : Memory → ℕ → Type 0
InUse m q = (q / page_size < num_pages) × (m.page_table (q / page_size) ≢ 0)

pub kmalloc-InUse : (size q : ℕ) (m : Memory) → InUse m q → InUse ((kmalloc size m).1) q
kmalloc-InUse size q m (l, nz) =
    let a = q / page_size * page_size + header_size in
    let e : page_of a ≡ q / page_size = omega arith in
    subst (λ p. (p < num_pages) × ((kmalloc size m).1.page_table p ≢ 0)) e
      ((kmalloc-Fresh size m).still a
        (subst (λ p. (p < num_pages) × (m.page_table p ≢ 0)) (sym e) (l, nz)))

-- `kmalloc` writes to no byte of a page that is in use.
pub kmalloc-keeps :
    (size q : ℕ) (m : Memory) → InUse m q → (kmalloc size m).1.kernel_memory q ≡ m.kernel_memory q
kmalloc-keeps size q m (l, nz) = elim (Option-cases (kmalloc size m).0) [
  | inl e ↦ ap (λ m. m.kernel_memory q) (kmalloc-none size m e)
  | inr (ptr, e) ↦
      let b = kmalloc_lem size m e in
      elim (dec_lt (q + header_size) ptr) [
        | yes before ↦ b.bytes q (inl before)
        | no ne ↦ elim (dec_le ptr q) [
          | yes behind ↦ b.bytes q (inr behind)
          | no ne' ↦
              let here : q / page_size ≡ page_at b.first 0 =
                omega (arith, b.start, ne, ne', b.in_table) in
              absurd (nz (ap m.page_table here ∙ b.was_free 0 b.some_page))
        ]
      ]
]

two_pages : pages_for 4096 ≡ 2
unfolding pages_for
two_pages = refl

module _ {m m' : Memory} {base : ℕ} (b : Block 4096 m base m')
    (inside : base + 4096 ≤ kernel_memory_size) (q : ℕ) (lo : base ≤ q) (hi : q < base + 4096) where
  page_in : (q / page_size ≡ page_at b.first 0) ⊎ (q / page_size ≡ page_at b.first 1)
  page_in = elim (dec_lt q (b.first * page_size + page_size)) [
    | yes here ↦ inl (omega (arith, b.start, b.in_table, lo, here))
    | no there ↦ inr (omega (arith, b.start, inside, lo, hi, there))
  ]

  -- The bytes of the block were free, and are in use.
  block-was_free : m.page_table (q / page_size) ≡ 0
  block-was_free = elim (page_in) [
    | inl e ↦ ap m.page_table e ∙ b.was_free 0 (rw two_pages (omega arith))
    | inr e ↦ ap m.page_table e ∙ b.was_free 1 (rw two_pages (omega arith))
  ]

  pub block-InUse : InUse m' q
  block-InUse = elim (page_in) [
    | inl e ↦
        let at_0 : page_at b.first 0 ≡ b.first = omega (arith, b.in_table) in
        let one = ap m'.page_table (e ∙ at_0) ∙ b.taken.head in
        (omega (arith, e), λ z. omega (arith, one, z))
    | inr e ↦
        let two = ap m'.page_table e ∙ b.taken.tail 1 (omega arith) (rw two_pages (omega arith)) in
        (omega (arith, e), λ z. omega (arith, two, z))
  ]

-- A byte that was in use lies outside the new block.
pub Block-apart :
    {m m' : Memory} {base : ℕ}
    → Block 4096 m base m'
    → base + 4096 ≤ kernel_memory_size
    → (q : ℕ) → InUse m q
    → q < base ⊎ base + 4096 ≤ q
Block-apart {base = base} b inside q used = elim (dec_lt q base) [
  | yes before ↦ inl before
  | no ne ↦ elim (dec_le (base + 4096) q) [
    | yes behind ↦ inr behind
    | no ne' ↦ absurd (used.1 (block-was_free b inside q (omega (arith, ne)) (omega (arith, ne'))))
  ]
]
