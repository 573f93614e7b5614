-- ===== src/Memory/Heap.antt =====
-- `kmalloc` and `kfree` together: what a block is, and what becomes of it.
use apna_os.Prelude.{
  ℕ, ◌+◌, ◌-◌, ◌*◌, ◌^◌, ◌≤◌, ◌<◌, ◌≡◌, refl, arith, Option, none, some, Array, Bytes, ◌⊎◌,
  ℕ_discrete, dec_lt, ap, subst,
}
use apna_os.Memory.{
  page_size, num_pages, header_size, Memory, allocate_pages, pages_for, write_header, kmalloc,
  kfree,
}
use apna_os.Memory.Search.{RowAt}
use apna_os.Memory.Pages.{
  page_at, Taken, Allocated, granted, refused, allocate_pages_lem, allocate_pages-none,
}
use apna_os.Memory.Free.{page_of, Freed, kfree-Freed}

-- For a size that leaves room for the header and the rounding below 2^32, `kmalloc` asks for as
-- many pages as the header and the bytes need, and no more.
pub pages_for-enough :
    (size : ℕ)
    → size ≤ 2 ^ 32 - 4104
    → (size + header_size ≤ pages_for size * page_size)
      × (pages_for size * page_size < size + header_size + page_size)
unfolding pages_for
pages_for-enough size l = (omega arith, omega arith)

-- For the seven sizes above 2^32 - 8 the addition of the header wraps round: `kmalloc` asks for a
-- single page.
pub pages_for-wraps : (size : ℕ) → 2 ^ 32 - header_size < size → size < 2 ^ 32 → pages_for size ≡ 1
unfolding pages_for
pages_for-wraps size a b = omega arith

-- What a `kmalloc` that succeeds leaves.
pub record Block (size : ℕ) (m : Memory) (ptr : ℕ) (m' : Memory) : Type 0 where
  pub first : ℕ
  pub start : ptr ≡ first * page_size + header_size
  pub in_table : first < num_pages
  pub some_page : 0 < pages_for size
  pub fits : pages_for size ≤ num_pages
  pub was_free : (k : ℕ) → k < pages_for size → m.page_table (page_at first k) ≡ 0
  pub taken : Taken (pages_for size) first m.page_table m'.page_table
  pub bytes : (p : ℕ) → p + header_size < ptr ⊎ ptr ≤ p → m'.kernel_memory p ≡ m.kernel_memory p

write_header-other :
    (mem : Bytes) (start size p : ℕ)
    → p < start ⊎ start + header_size ≤ p
    → write_header mem start size p ≡ mem p
unfolding write_header
write_header-other mem start size p h = ground arith

granted-Block :
    (size a : ℕ) (m : Memory) {table : Array ℕ}
    → 0 < pages_for size
    → a + pages_for size ≤ num_pages
    → RowAt m.page_table m.last_page_index (pages_for size) a
    → Taken (pages_for size) (page_at m.last_page_index a) m.page_table table
    → (next : ℕ)
    → Block size m (page_at m.last_page_index a * page_size + header_size) (record {
      kernel_memory = write_header m.kernel_memory (page_at m.last_page_index a * page_size) size;
      page_table = table;
      last_page_index = next;
    })
granted-Block size a m some_page fits free taken next = record {
  some_page = some_page;
  first = page_at m.last_page_index a;
  start = refl;
  in_table = omega arith;
  fits = omega arith;
  was_free = λ k l.
      let e : page_at (page_at m.last_page_index a) k ≡ page_at m.last_page_index (a + k) =
        omega arith in
      rw e (free (a + k) (omega arith) (omega arith));
  taken = taken;
  bytes = λ p h. write_header-other m.kernel_memory _ size p (ground (arith, h));
}

-- `kmalloc` once `allocate_pages` has answered.
abbrev with_header : ℕ → Option ℕ × Memory → Option ℕ × Memory
with_header size (mem, m') = elim mem [
  | none ↦ (none, m')
  | some p ↦
      (some (p + header_size), record m' { kernel_memory = write_header m'.kernel_memory p size })
]

-- A `kmalloc` that returns a pointer has taken `pages_for size` pages in a row, counted round the end
-- of the table, that were free: the first is marked 1 and the others 2. The pointer stands behind the
-- header at the start of the first. No other page changes, and no byte in front of the header or
-- behind it.
pub kmalloc_lem :
    (size : ℕ) (m : Memory) {ptr : ℕ}
    → (kmalloc size m).0 ≡ some ptr
    → Block size m ptr ((kmalloc size m).1)
unfolding kmalloc
kmalloc_lem size m {ptr} e = elim (ℕ_discrete (pages_for size) 0) [
  | no ne ↦
      let some_page : 0 < pages_for size = omega (arith, ne) in
      finish some_page (allocate_pages_lem (pages_for size) m some_page) e
  | yes no_page ↦
      let fails : allocate_pages (pages_for size) m ≡ (none, m) =
        rw no_page (allocate_pages-none m) in
      let same : (with_header size (none, m)).0 ≡ some ptr =
        subst (λ r. (with_header size r).0 ≡ some ptr) fails e in
      absurd (cc)
]
  where
    finish :
        {r : Option ℕ × Memory}
        → 0 < pages_for size
        → Allocated (pages_for size) m r
        → (with_header size r).0 ≡ some ptr
        → Block size m ptr ((with_header size r).1)
    finish some_page (refused none_fits) same = absurd (cc)
    finish some_page (granted a fits free first taken) same =
        let here : page_at m.last_page_index a * page_size + header_size ≡ ptr = cc in
        rw (← here) (granted-Block size a m some_page fits free taken _)

-- A `kmalloc` that fails changes nothing.
pub kmalloc-none : (size : ℕ) (m : Memory) → (kmalloc size m).0 ≡ none → (kmalloc size m).1 ≡ m
unfolding kmalloc
kmalloc-none size m e = elim (ℕ_discrete (pages_for size) 0) [
  | no ne ↦ finish (allocate_pages_lem (pages_for size) m (omega (arith, ne))) e
  | yes no_page ↦
      let fails : allocate_pages (pages_for size) m ≡ (none, m) =
        rw no_page (allocate_pages-none m) in
      ap (λ r. (with_header size r).1) fails
]
  where
    finish :
        {r : Option ℕ × Memory}
        → Allocated (pages_for size) m r
        → (with_header size r).0 ≡ none
        → (with_header size r).1 ≡ m
    finish (refused none_fits) same = refl
    finish (granted a fits free first taken) same = absurd (cc)

-- What `kfree` of the block does to the table: its pages up to the end of the table are free again.
module _ {size ptr : ℕ} {m m' : Memory} (b : Block size m ptr m') where
  page_of-first : page_of ptr ≡ b.first
  page_of-first = omega (arith, b.start)

  pub freed : (e : ℕ) × Freed b.first e m'.page_table ((kfree ptr m').page_table)
  freed =
      let (e, r) = kfree-Freed ptr m' (rw page_of-first (b.taken.head)) in
      (e, subst (λ s. Freed s e m'.page_table ((kfree ptr m').page_table)) page_of-first r)

  -- Inside the table, the pages behind the first one are marked 2.
  tail_at :
      (p : ℕ) → b.first < p → p < b.first + pages_for size → p < num_pages → m'.page_table p ≡ 2
  tail_at p after inside l =
      let e : page_at b.first (p - b.first) ≡ p = omega arith in
      rw (← e) (b.taken.tail (p - b.first) (omega arith) (omega arith))

  module _ (e : ℕ) (r : Freed b.first e m'.page_table ((kfree ptr m').page_table)) where
    -- The run of pages that `kfree` clears covers the block, as far as it lies in front of the end.
    pub covers : (p : ℕ) → p < b.first + pages_for size → p < num_pages → p < e
    covers p inside l = elim (dec_lt p e) [
      | yes a ↦ a
      | no a ↦ absurd (
          r.stop (omega (arith, a, l))
            (tail_at e (r.upper) (omega (arith, a, inside)) (omega (arith, a, l))))
    ]
