-- ===== src/Memory.antt =====
-- memory/memory.c: the pages of the kernel's memory and the heap on top of them. A pointer into
-- `kernel_memory` is its offset in it, and the null pointer is `none`.
pub mod Search
pub mod Pages
pub mod Free
pub mod Heap
pub mod Restore
pub mod Calls
mod Tests
use apna_os.Prelude.{
  ℕ, zero, suc, ◌+◌, ◌-◌, ◌*◌, ◌/◌, ◌%◌, ◌^◌, Option, none, some, ◌==◌, if◌then◌else◌, Array, Bytes,
  update, ◌&&◌, ltb,
}

abbrev pub page_size : ℕ
page_size = 4096

abbrev pub kernel_memory_size : ℕ
kernel_memory_size = 1024 * 1024 * 16

abbrev pub num_pages : ℕ
num_pages = kernel_memory_size / page_size

-- The statics of the file. A page is free (0), the first of an allocation (1) or another of it (2).
pub record Memory : Type 0 where
  pub kernel_memory : Bytes
  pub page_table : Array ℕ
  pub last_page_index : ℕ

-- for (i = ...; i < ...; i++) a[i] = 0;
unfoldable pub clear_loop : ℕ → ℕ → Array ℕ → Array ℕ
clear_loop zero i a = a
clear_loop (suc n) i a = clear_loop n (i + 1) (update a i 0)

unfoldable pub memory_init : Memory → Memory
memory_init m = record {
  kernel_memory = clear_loop kernel_memory_size 0 m.kernel_memory;
  page_table = clear_loop num_pages 0 m.page_table;
  last_page_index = 0;
}

-- `found_start`, where `none` is `(size_t)-1`, once the free page `index` is seen.
abbrev pub start_at : Option ℕ → ℕ → ℕ
start_at none index = index
start_at (some s) index = s

-- The loop that looks for `wanted` free pages in a row, with `n` rounds left at `i`: where the row
-- starts.
unfoldable pub scan : ℕ → Array ℕ → ℕ → ℕ → ℕ → ℕ → Option ℕ → Option ℕ
scan zero table start wanted i count found = none
scan (suc n) table start wanted i count found =
    let index : ℕ = (start + i) % num_pages in
    let longer = scan n table start wanted (i + 1) (count + 1) (some (start_at found index)) in
    let again = scan n table start wanted (i + 1) 0 none in
    if table index == 0
    then (if count + 1 == wanted then some (start_at found index) else longer)
    else again

-- for (j = ...; j < num_pages; ++j) page_table[(found_start + j) % NUM_PAGES] = 2;
unfoldable pub mark_tail : ℕ → Array ℕ → ℕ → ℕ → Array ℕ
mark_tail zero table s j = table
mark_tail (suc n) table s j = mark_tail n (update table ((s + j) % num_pages) 2) s (j + 1)

unfoldable pub allocate_pages : ℕ → Memory → Option ℕ × Memory
allocate_pages wanted m = elim (scan num_pages m.page_table m.last_page_index wanted 0 0 none) [
  | none ↦ (none, m)
  | some s ↦ (
    some (s * page_size),
    record m {
      page_table = mark_tail (wanted - 1) (update m.page_table s 1) s 1;
      last_page_index = (s + wanted) % num_pages;
    },
  )
]

-- sizeof(memory_block_t): a 32-bit size, a byte and its padding.
abbrev pub header_size : ℕ
header_size = 8

-- (size + sizeof(memory_block_t) + PAGE_SIZE - 1) / PAGE_SIZE in 32 bits
unfoldable pub pages_for : ℕ → ℕ
pages_for size =
    let total_size : ℕ = (size + header_size) % 2 ^ 32 in
    (total_size + page_size - 1) % 2 ^ 32 / page_size

-- block->size = size; block->is_free = 0;
unfoldable pub write_header : Bytes → ℕ → ℕ → Bytes
write_header mem p size =
    update
      (update
        (update (update (update mem p (size % 256)) (p + 1) (size / 2 ^ 8 % 256)) (p + 2)
          (size / 2 ^ 16 % 256))
        (p + 3) (size / 2 ^ 24 % 256))
      (p + 4) 0

unfoldable pub kmalloc : ℕ → Memory → Option ℕ × Memory
kmalloc size m =
    let (mem, m') = allocate_pages (pages_for size) m in
    elim mem [
      | none ↦ (none, m')
      | some p ↦ (
        some (p + header_size),
        record m' { kernel_memory = write_header m'.kernel_memory p size },
      )
    ]

-- while (i < NUM_PAGES && page_table[i] == 2) page_table[i++] = 0;  `i` grows, so `NUM_PAGES`
-- rounds suffice.
unfoldable pub free_tail : ℕ → ℕ → Array ℕ → Array ℕ
free_tail zero i table = table
free_tail (suc n) i table =
    let rest = free_tail n (i + 1) (update table i 0) in
    if ltb i num_pages && table i == 2 then rest else table

-- `kfree` of a pointer that is not null.
unfoldable pub kfree : ℕ → Memory → Memory
kfree ptr m =
    let block : ℕ = ptr - header_size in
    let start_page : ℕ = block / page_size in
    let m' : Memory = record m { kernel_memory = update m.kernel_memory (block + 4) 1 } in
    if m.page_table start_page == 1
    then record m' {
      page_table = free_tail num_pages (start_page + 1) (update m.page_table start_page 0);
    }
    else m'
