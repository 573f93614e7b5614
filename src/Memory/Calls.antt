-- ===== src/Memory/Calls.antt =====
-- Sequences of calls of the heap, and blocks that are allocated and freed.
use apna_os.Prelude.{
  ℕ, zero, suc, ◌+◌, ◌-◌, ◌*◌, ◌≤◌, ◌<◌, ◌≡◌, arith, some, Array, within, update, if◌then◌else◌,
  sym, ◌∙◌, ap, inl, inr, List, [], ◌∷◌, Option-cases,
}
use apna_os.Memory.{
  page_size, num_pages, kernel_memory_size, header_size, Memory, pages_for, kmalloc, kfree,
  clear_loop, memory_init,
}
use apna_os.Memory.Pages.{page_at}
use apna_os.Memory.Heap.{kmalloc_lem, kmalloc-none, freed}
use apna_os.Memory.Restore.{IsTable, Block-IsTable, kfree-IsTable, restored}

-- The calls of the heap.
pub data HeapOp : Type 0 where
  alloc : ℕ → HeapOp
  release : ℕ → HeapOp

unfoldable pub heap : List HeapOp → Memory → Memory
heap [] m = m
heap (alloc size ∷ ops) m = heap ops ((kmalloc size m).1)
heap (release ptr ∷ ops) m = heap ops (kfree ptr m)

kmalloc-IsTable :
    (size : ℕ) (m : Memory) → IsTable m.page_table → IsTable ((kmalloc size m).1.page_table)
kmalloc-IsTable size m v = elim (Option-cases (kmalloc size m).0) [
  | inr (ptr, e) ↦ Block-IsTable (kmalloc_lem size m e) v
  | inl e ↦ rw (kmalloc-none size m e) v
]

heap-IsTable :
    (ops : List HeapOp) (m : Memory) → IsTable m.page_table → IsTable (heap ops m).page_table
unfolding heap
heap-IsTable [] m v = v
heap-IsTable (alloc size ∷ ops) m v = heap-IsTable ops _ (kmalloc-IsTable size m v)
heap-IsTable (release ptr ∷ ops) m v = heap-IsTable ops _ (kfree-IsTable ptr m v)

clear_loop-at :
    (n i : ℕ) (a : Array ℕ) (p : ℕ) → clear_loop n i a p ≡ (if within i n p then 0 else a p)
unfolding clear_loop
clear_loop-at zero i a p = ground arith
clear_loop-at (suc n) i a p = ground (arith, clear_loop-at n (i + 1) (update a i 0) p)

memory_init-IsTable : (m : Memory) → IsTable (memory_init m).page_table
unfolding memory_init
memory_init-IsTable m p l mark =
    absurd (ground (arith, clear_loop-at num_pages 0 m.page_table (p + 1), mark, l))

-- After `memory_init` and any calls of `kmalloc` and `kfree`, a block that `kmalloc` returns and that
-- lies in front of the end of `kernel_memory` is given back whole: `kfree` of its pointer, right
-- away, makes the page table what it was before `kmalloc`.
pub kfree-kmalloc :
    (start : Memory) (ops : List HeapOp) (size : ℕ) {ptr : ℕ}
    → (kmalloc size (heap ops (memory_init start))).0 ≡ some ptr
    → ptr + pages_for size * page_size ≤ kernel_memory_size + header_size
    → (p : ℕ) → p < num_pages
    → (kfree ptr ((kmalloc size (heap ops (memory_init start))).1)).page_table p
      ≡ (heap ops (memory_init start)).page_table p
kfree-kmalloc start ops size e inside =
    let v = heap-IsTable ops _ (memory_init-IsTable start) in
    let b = kmalloc_lem size (heap ops (memory_init start)) e in
    let (e, r) = freed b in restored b e r v (omega (arith, b.start, inside))

-- If the pages that `kmalloc` counts for a block reach past the end of `kernel_memory`, when they
-- are laid out from the pointer's header on, the block has taken page 0, which was free, and marked
-- it 2 as one of its own; and `kfree` of the pointer leaves that mark.
pub kmalloc-past_end :
    (size : ℕ) (m : Memory) {ptr : ℕ}
    → (kmalloc size m).0 ≡ some ptr
    → kernel_memory_size + header_size < ptr + pages_for size * page_size
    → (m.page_table 0 ≡ 0)
      × ((kmalloc size m).1.page_table 0 ≡ 2)
      × ((kfree ptr ((kmalloc size m).1)).page_table 0 ≡ 2)
kmalloc-past_end size m {ptr} e past =
    let b = kmalloc_lem size m e in
    let k = num_pages - b.first in
    let here : page_at b.first k ≡ 0 = omega (arith, b.in_table) in
    let inside : k < pages_for size = omega (arith, past, b.start) in
    let mark : (kmalloc size m).1.page_table 0 ≡ 2 =
      sym (ap ((kmalloc size m).1.page_table) here)
      ∙ b.taken.tail k (omega (arith, b.in_table)) inside in
    let (e', r) = freed b in
    (
      sym (ap m.page_table here) ∙ b.was_free k inside,
      mark,
      r.before 0 (omega (arith, past, b.start, b.fits)) ∙ mark,
    )
