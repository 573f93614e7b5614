-- ===== src/Memory/Pages.antt =====
-- What `allocate_pages` marks in the page table, and what `kfree` clears in it.
use apna_os.Prelude.{
  ℕ, zero, suc, ◌+◌, ◌-◌, ◌*◌, ◌%◌, ◌≤◌, ◌<◌, ◌≡◌, refl, ◌≢◌, arith, Option, none, some, Array,
  update, update_self, update_ne, ℕ_discrete, ne→==, eq→==, ◌∙◌,
}
use apna_os.Memory.{page_size, num_pages, Memory, scan, mark_tail, allocate_pages}
use apna_os.Memory.Search.{RowAt, FirstRow, row, no_row, scan-FirstRow, Seen-start}

-- The page at distance `k` from `s`, round the end of the table.
abbrev pub page_at : ℕ → ℕ → ℕ
page_at s k = (s + k) % num_pages

-- The table after the pages at the distances from `j` on, `n` of them, are marked 2.
record Marked (n s j : ℕ) (table table' : Array ℕ) : Type 0 where
  tail : (k : ℕ) → j ≤ k → k < j + n → table' (page_at s k) ≡ 2
  others : (p : ℕ) → ((k : ℕ) → j ≤ k → k < j + n → page_at s k ≢ p) → table' p ≡ table p

mark_tail-Marked :
    (n s j : ℕ) (table : Array ℕ) → j + n ≤ num_pages → Marked n s j table (mark_tail n table s j)
unfolding mark_tail
mark_tail-Marked zero s j table l = record {
  tail = λ k a b. absurd (omega (arith, a, b));
  others = λ p h. refl;
}
mark_tail-Marked (suc n) s j table l =
    let ih = mark_tail-Marked n s (j + 1) (update table (page_at s j) 2) (omega arith) in
    record {
      tail = λ k a b. elim (ℕ_discrete j k) [
        | yes e ↦ rw (← e) (
            ih.others (page_at s j) (λ i c d e'. omega (arith, l, c, d, e'))
            ∙ update_self table (page_at s j) 2)
        | no ne ↦ ih.tail k (omega arith) (omega arith)
      ];
      others = λ p h.
          ih.others p (λ k a b. h k (omega arith) (omega arith))
          ∙ update_ne table (page_at s j) p 2 (h j (omega arith) (omega arith));
    }

-- The table after an allocation of `n` pages from page `s` on.
pub record Taken (n s : ℕ) (table table' : Array ℕ) : Type 0 where
  pub head : table' s ≡ 1
  pub tail : (k : ℕ) → 0 < k → k < n → table' (page_at s k) ≡ 2
  pub others : (p : ℕ) → ((k : ℕ) → k < n → page_at s k ≢ p) → table' p ≡ table p

mark-Taken :
    (n s : ℕ) (table : Array ℕ)
    → 0 < n
    → n ≤ num_pages
    → s < num_pages
    → Taken n s table (mark_tail (n - 1) (update table s 1) s 1)
mark-Taken n s table some_page l in_table =
    let r = mark_tail-Marked (n - 1) s 1 (update table s 1) (omega arith) in
    record {
      head = r.others s (λ k a b e. omega (arith, a, b, e, l)) ∙ update_self table s 1;
      tail = λ k a b. r.tail k (omega arith) (omega arith);
      others = λ p h.
          let e : page_at s 0 ≡ s = omega arith in
          r.others p (λ k a b. h k (omega arith))
          ∙ update_ne table s p 1 (λ same. h 0 (omega arith) (e ∙ same));
    }

-- How `allocate_pages` ends when `n` pages are asked for.
pub data Allocated (n : ℕ) (m : Memory) : Option ℕ × Memory → Type 0 where
  granted :
      (a : ℕ) {table : Array ℕ}
      → a + n ≤ num_pages
      → RowAt m.page_table m.last_page_index n a
      → ((b : ℕ) → b < a → RowAt m.page_table m.last_page_index n b → ⊥)
      → Taken n (page_at m.last_page_index a) m.page_table table
      → Allocated n m (
        some (page_at m.last_page_index a * page_size),
        record m { page_table = table; last_page_index = page_at (page_at m.last_page_index a) n },
      )
  refused :
      ((b : ℕ) → b + n ≤ num_pages → RowAt m.page_table m.last_page_index n b → ⊥)
      → Allocated n m (none, m)

-- `allocate_pages` of at least one page ends in one of two ways. It takes the first row of so many
-- free pages, counted from `last_page_index` round the end of the table and ending within one round:
-- its first page is marked 1, the others 2, no other page changes, the result is the address of the
-- first page, and the next search starts behind the row. Or there is no such row, and it returns the
-- null pointer and changes nothing.
pub allocate_pages_lem : (n : ℕ) (m : Memory) → 0 < n → Allocated n m (allocate_pages n m)
unfolding allocate_pages
allocate_pages_lem n m some_page =
    finish
      (scan-FirstRow num_pages m.page_table m.last_page_index n 0 0 refl (Seen-start some_page))
  where
    finish :
        {r : Option ℕ}
        → FirstRow m.page_table m.last_page_index n r
        → Allocated n m (elim r [
          | none ↦ (none, m)
          | some s ↦ (
            some (s * page_size),
            record m {
              page_table = mark_tail (n - 1) (update m.page_table s 1) s 1;
              last_page_index = (s + n) % num_pages;
            },
          )
        ])
    finish (no_row none_fits) = refused none_fits
    finish (row a fits free first) = granted a fits free first (
        mark-Taken n (page_at m.last_page_index a) m.page_table some_page (omega arith)
          (omega arith))

scan-none :
    (r : ℕ) (table : Array ℕ) (start i count : ℕ) (found : Option ℕ)
    → scan r table start 0 i count found ≡ none
unfolding scan
scan-none zero table start i count found = refl
scan-none (suc r) table start i count found =
    elim (ℕ_discrete (table ((start + i) % num_pages)) 0) [
      | no taken ↦ rw (ne→== _ _ taken) (scan-none r table start (i + 1) 0 none)
      | yes free ↦
          rw (eq→== _ _ free, ne→== (count + 1) 0 (omega arith))
            (scan-none r table start (i + 1) (count + 1) _)
    ]

-- No pages are never found.
pub allocate_pages-none : (m : Memory) → allocate_pages 0 m ≡ (none, m)
unfolding allocate_pages
allocate_pages-none m =
    rw (allocate_pages, scan-none num_pages m.page_table m.last_page_index 0 0 none)
