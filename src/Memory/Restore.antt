-- ===== src/Memory/Restore.antt =====
-- The shape of the page table that `kmalloc` and `kfree` keep, and what is left of a block that was
-- allocated and freed.
use apna_os.Prelude.{
  ℕ, ◌+◌, ◌-◌, ◌%◌, ◌≤◌, ◌<◌, ◌≡◌, ◌≢◌, arith, Array, dec_lt, sym, ◌∙◌, ap, ◌⊎◌, inl, inr,
  ℕ_discrete,
}
use apna_os.Memory.{num_pages, Memory, pages_for, kfree}
use apna_os.Memory.Pages.{page_at}
use apna_os.Memory.Free.{page_of, Freed, kfree-Freed, kfree-no_head}
use apna_os.Memory.Heap.{Block, covers}

-- No tail of an allocation follows a free page.
abbrev pub IsTable : Array ℕ → Type 0
IsTable table = (p : ℕ) → p + 1 < num_pages → table (p + 1) ≡ 2 → table p ≢ 0

module _ {size ptr : ℕ} {m m' : Memory} (b : Block size m ptr m') where
  -- A page outside the block.
  outside :
      (p : ℕ)
      → ((k : ℕ) → k < pages_for size → page_at b.first k ≢ p)
      → m'.page_table p ≡ m.page_table p
  outside = b.taken.others

  -- A page of the block is not free any more.
  pub in_block : (k : ℕ) → k < pages_for size → m'.page_table (page_at b.first k) ≢ 0
  in_block k l blank = elim (ℕ_discrete k 0) [
    | yes e ↦
        let same : page_at b.first k ≡ b.first = omega (arith, b.in_table, e) in
        let head : m'.page_table (page_at b.first k) ≡ 1 = rw same (b.taken.head) in
        omega (arith, head, blank)
    | no ne ↦ omega (arith, b.taken.tail k (omega (arith, ne)) l, blank)
  ]

  -- The distance of a page from the block's first.
  from_first : (p : ℕ) → p < num_pages → page_at b.first ((p + num_pages - b.first) % num_pages) ≡ p
  from_first p l = omega (arith, b.in_table, l)

  -- Where a page lies: in the block, or not.
  pub locate :
      (p : ℕ)
      → p < num_pages
      → ((k : ℕ) × (k < pages_for size) × (page_at b.first k ≡ p))
        ⊎ ((k : ℕ) → k < pages_for size → page_at b.first k ≢ p)
  locate p l = elim (dec_lt ((p + num_pages - b.first) % num_pages) (pages_for size)) [
    | yes inside ↦ inl ((p + num_pages - b.first) % num_pages, inside, from_first p l)
    | no out ↦ inr (λ j a e. omega (arith, a, e, out, b.in_table, b.fits, l))
  ]

  -- A page that is marked 2 and not the first of the table follows a page of the block, or is none.
  pub Block-IsTable : IsTable m.page_table → IsTable m'.page_table
  Block-IsTable v p l mark blank = elim (locate p (omega (arith, l))) [
    | inl (k, inside, e) ↦ in_block k inside (ap (m'.page_table) e ∙ blank)
    | inr out ↦ elim (locate (p + 1) l) [
      | inr out' ↦ v p l (sym (outside (p + 1) out') ∙ mark) (sym (outside p out) ∙ blank)
      | inl (k, inside, e) ↦ elim (ℕ_discrete k 0) [
        | yes first ↦
            let same : b.first ≡ p + 1 = omega (arith, b.in_table, e, first) in
            let head : m'.page_table (p + 1) ≡ 1 = rw (← same) (b.taken.head) in
            omega (arith, head, mark)
        | no ne ↦ out (k - 1) (omega (arith, inside)) (omega (arith, e, b.in_table, l, ne))
      ]
    ]
  ]

-- `kfree` keeps the shape, whatever its pointer.
pub kfree-IsTable :
    (ptr : ℕ) (m : Memory) → IsTable m.page_table → IsTable ((kfree ptr m).page_table)
kfree-IsTable ptr m v = elim (ℕ_discrete (m.page_table (page_of ptr)) 1) [
  | no other ↦ rw (kfree-no_head ptr m other) v
  | yes head ↦ let (e, r) = kfree-Freed ptr m head in after e r
]
  where
    after :
        (e : ℕ)
        → Freed (page_of ptr) e m.page_table ((kfree ptr m).page_table)
        → IsTable ((kfree ptr m).page_table)
    after e r p l mark blank = elim (dec_lt p e) [
      | no behind ↦
          v p l (sym (r.behind (p + 1) (omega (arith, behind))) ∙ mark)
            (sym (r.behind p (omega (arith, behind))) ∙ blank)
      | yes a ↦ elim (dec_lt p (page_of ptr)) [
        | yes before ↦ elim (ℕ_discrete (p + 1) (page_of ptr)) [
          | yes e' ↦
              let none_left : (kfree ptr m).page_table (p + 1) ≡ 0 =
                r.free (p + 1) (omega (arith, e')) (omega (arith, e', r.upper)) in
              omega (arith, none_left, mark)
          | no ne ↦
              v p l (sym (r.before (p + 1) (omega (arith, before, ne))) ∙ mark)
                (sym (r.before p before) ∙ blank)
        ]
        | no inside ↦ elim (dec_lt (p + 1) e) [
          | yes b ↦
              let none_left : (kfree ptr m).page_table (p + 1) ≡ 0 =
                r.free (p + 1) (omega (arith, inside)) b in
              omega (arith, none_left, mark)
          | no c ↦
              let end : e ≡ p + 1 = omega (arith, a, c) in
              r.stop (omega (arith, end, l))
                (rw end (sym (r.behind (p + 1) (omega (arith, c))) ∙ mark))
        ]
      ]
    ]

module _ {size ptr : ℕ} {m m' : Memory} (b : Block size m ptr m') where
  module _ (e : ℕ) (r : Freed b.first e m'.page_table ((kfree ptr m').page_table)) where
    -- In a table of that shape the run that `kfree` clears ends with the block.
    ends :
        IsTable m.page_table → b.first + pages_for size < num_pages → e ≤ b.first + pages_for size
    ends v l = elim (dec_lt (b.first + pages_for size) e) [
      | no a ↦ omega (arith, a)
      | yes a ↦
          let q : ℕ = b.first + pages_for size in
          let mark : m.page_table q ≡ 2 =
            sym (outside b q (λ k c e'. omega (arith, c, e', l, b.in_table)))
            ∙ r.marks q (omega (arith, b.some_page)) a in
          let last : page_at b.first (pages_for size - 1) ≡ q - 1 = omega (arith, l, b.some_page) in
          let next : q - 1 + 1 ≡ q = omega (arith, b.some_page) in
          absurd (
            v (q - 1) (omega (arith, l)) (ap m.page_table next ∙ mark) (
              sym (ap m.page_table last)
              ∙ b.was_free (pages_for size - 1) (omega (arith, b.some_page))))
    ]

    pub restored :
        IsTable m.page_table
        → b.first + pages_for size ≤ num_pages
        → (p : ℕ) → p < num_pages
        → (kfree ptr m').page_table p ≡ m.page_table p
    restored v inside p l = elim (dec_lt p b.first) [
      | yes a ↦ r.before p a ∙ outside b p (λ k c e'. omega (arith, a, c, e', inside, b.in_table))
      | no a ↦ elim (dec_lt p (b.first + pages_for size)) [
        | yes c ↦
            let here : page_at b.first (p - b.first) ≡ p = omega arith in
            r.free p (omega (arith, a)) (covers b e r p c l)
            ∙ sym (rw (← here) (b.was_free (p - b.first) (omega (arith, a, c))))
        | no c ↦
            r.behind p (omega (arith, c, ends v (omega (arith, c, l))))
            ∙ outside b p (λ k d e'. omega (arith, c, d, e', inside, b.in_table))
      ]
    ]
