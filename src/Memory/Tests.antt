-- ===== src/Memory/Tests.antt =====
-- The heap on concrete memories.
use apna_os.Prelude.{ℕ, ◌≡◌, refl, arith, some, [], ◌∷◌}
use apna_os.Memory.{
  Memory, memory_init, allocate_pages, scan, pages_for, kmalloc, kfree, clear_loop, mark_tail,
}
use apna_os.Memory.Pages.{Allocated, allocate_pages_lem}
use apna_os.Memory.Heap.{Block, kmalloc_lem}
use apna_os.Memory.Calls.{alloc, heap, kfree-kmalloc, kmalloc-past_end}

abbrev at_page : ℕ → Memory
at_page next = record { kernel_memory = λ p. 0; page_table = λ p. 0; last_page_index = next }

one_page : (kmalloc 100 (at_page 0)).0 ≡ some 8
unfolding kmalloc allocate_pages scan pages_for
one_page = refl

at_the_end : (kmalloc 5000 (at_page 4095)).0 ≡ some 16773128
unfolding kmalloc allocate_pages scan pages_for
at_the_end = refl

allocate_pages_lem_example : Allocated 2 (at_page 7) (allocate_pages 2 (at_page 7))
allocate_pages_lem_example = allocate_pages_lem 2 (at_page 7) (omega arith)

kmalloc_lem_example : Block 100 (at_page 0) 8 ((kmalloc 100 (at_page 0)).1)
kmalloc_lem_example = kmalloc_lem 100 (at_page 0) one_page

kmalloc-past_end_example :
    ((at_page 4095).page_table 0 ≡ 0)
    × ((kmalloc 5000 (at_page 4095)).1.page_table 0 ≡ 2)
    × ((kfree 16773128 ((kmalloc 5000 (at_page 4095)).1)).page_table 0 ≡ 2)
unfolding pages_for
kmalloc-past_end_example = kmalloc-past_end 5000 (at_page 4095) at_the_end (omega arith)

after_init : (kmalloc 100 (heap (alloc 5000 ∷ []) (memory_init (at_page 9)))).0 ≡ some 8200
unfolding kmalloc allocate_pages scan pages_for memory_init heap clear_loop mark_tail
after_init = refl

abbrev used : Memory
used = heap (alloc 5000 ∷ []) (memory_init (at_page 9))

kfree-kmalloc_example : (kfree 8200 ((kmalloc 100 used).1)).page_table 2 ≡ used.page_table 2
unfolding pages_for
kfree-kmalloc_example =
    kfree-kmalloc (at_page 9) (alloc 5000 ∷ []) 100 after_init (omega arith) 2 (omega arith)
