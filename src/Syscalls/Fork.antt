-- ===== src/Syscalls/Fork.antt =====
-- `fork_syscall` of process/syscall.c makes a ready child.
use apna_os.Prelude.{
  ℕ, ◌+◌, ◌-◌, ◌%◌, ◌^◌, ◌<◌, ◌≡◌, refl, Option, none, some, List, ◌∙◌, ap, sym, subst, length,
  update_self, update_ne, ◌==◌, ◌≤◌, ◌⊎◌, ◌≢◌, inl, inr, arith, Bool-cases,
}
use apna_os.Prelude.Int.{ℤ}
use apna_os.Prelude.Run
use apna_os.Prelude.Run.{
  Run, done, Returns, returns, Ends, ends, stops, Returns-Ends, bind-Ends, mono-Ends, ◌>>=◌,
}
use apna_os.Memory.{kernel_memory_size, kmalloc}
use apna_os.Memory.Heap.{kmalloc_lem}
use apna_os.Memory.Free.{page_of}
use apna_os.Process.{Pcb}
use apna_os.Scheduler.{Kernel, change, allocate, sizeof_pcb, get_new_pid}
use apna_os.Scheduler.Invariant.{IsKernel, update-same}
use apna_os.Scheduler.Live.{Live}
use apna_os.Scheduler.Pending.{
  IsPending-same, change-IsPending, Allocated, refused, granted, allocate-Allocated,
  allocate-IsPending, kept-IsKernel,
}
use apna_os.Scheduler.Create.{of-done}
use apna_os.Scheduler.Keep.{InUse, kmalloc-InUse, kmalloc-keeps, block-InUse, Block-apart}
use apna_os.Syscalls.Copy.{NoPlace, IsCopied, copy_memory-IsCopied}
use apna_os.Syscalls.{
  copy_page_tables, set_cr3, with_tables, with_child_stack, with_child, fork_from, fork_syscall,
}
use apna_os.Syscalls.Child.{
  lineage, Forked, CannotCopy, childless, no_stack, no_tables, tied, IsChild, IsStacked,
  change-IsChild, change-IsStacked, memory-IsChild, finish_fork-Forked, allocate-IsStacked,
  copied-IsStacked,
}

module _ (fuel : ℕ) (ready : List ℕ) (bound : length ready < fuel + 1) (k : Kernel)
    (l : ℕ × (Option ℕ × ℤ)) (src stack_ptr : ℕ) (child : ℕ)
    (free : k.memory.page_table (page_of child) ≡ 0) where
  with_tables-Forked :
      {F : Type 0} (base parent : ℕ) (k1 : Kernel) (tables : Option ℕ)
      → IsStacked fuel ready bound k l src stack_ptr child free base k1
      → (kmalloc 4096 k1.memory).0 ≡ tables
      → ((base' : ℕ) → tables ≡ some base' → NoPlace 4096 base' (k1.blocks parent).cr3 → F)
      → Ends F
          (Forked k ready l src stack_ptr)
          (with_tables fuel parent child tables (record k1 { memory = (kmalloc 4096 k1.memory).1 }))
  unfolding with_tables copy_page_tables set_cr3
  with_tables-Forked base parent k1 none v got why =
      let v2 = allocate-IsStacked fuel ready bound k l src stack_ptr child free base 4096 k1 v in
      ends (
        childless (
          (change-IsChild fuel ready bound k l src stack_ptr child free (λ b. record b { cr3 = 0 })
            _ refl v2.is_child).pending.kernel))
  with_tables-Forked base parent k1 (some cr3) v got why =
      let k2 : Kernel = record k1 { memory = (kmalloc 4096 k1.memory).1 } in
      let v3 =
        change-IsStacked fuel ready bound k l src stack_ptr child free base
          (λ b. record b { cr3 = cr3 }) k2 refl refl
          (allocate-IsStacked fuel ready bound k l src stack_ptr child free base 4096 k1 v) in
      let k3 = change child (λ b. record b { cr3 = cr3 }) k2 in
      bind-Ends
        (mono-Ends (copy_memory-IsCopied cr3 (k1.blocks parent).cr3 4096 k3) (why cr3 refl)
          (λ _ _ c. c))
        λ _ k4 _ c. Returns-Ends (
          finish_fork-Forked fuel ready bound k l src stack_ptr child free base k4 (
            copied-IsStacked fuel ready bound k l src stack_ptr child free base cr3
              (k1.blocks parent).cr3 k3 k4 c
              (λ room j lt.
                Block-apart (kmalloc_lem 4096 k1.memory got) room (base + j) (v.used j lt))
              v3))

  -- The stack is allocated and the parent's is copied into it.
  module _ (parent cr3 base : ℕ) (k1 : Kernel)
      (v : IsChild fuel ready bound k l src stack_ptr child free k1)
      (mem : k1.memory ≡ (kmalloc sizeof_pcb k.memory).1)
      (got : (kmalloc 4096 k1.memory).0 ≡ some base)
      (t : tied (k1.blocks parent) ≡ (src, (stack_ptr, cr3))) where
    abbrev k_alloc : Kernel
    k_alloc = record k1 { memory = (kmalloc 4096 k1.memory).1 }

    abbrev place : Pcb → Pcb
    place b = record b {
      user_stack_ptr =
          (base
            + ((k1.blocks parent).user_stack_ptr + 2 ^ 32 - (k1.blocks parent).user_stack_base)
              % 2 ^ 32)
          % 2 ^ 32;
    }

    -- The bytes of the parent's stack that are in use are so still, and outside the new block.
    kept_byte :
        (j : ℕ)
        → InUse k.memory (src + j)
        → k_alloc.memory.kernel_memory (src + j) ≡ k.memory.kernel_memory (src + j)
    kept_byte j used =
        let used1 =
          subst (λ m. InUse m (src + j)) (sym mem)
            (kmalloc-InUse sizeof_pcb (src + j) k.memory used) in
        kmalloc-keeps 4096 (src + j) k1.memory used1
        ∙ ap (λ m. m.kernel_memory (src + j)) mem
        ∙ kmalloc-keeps sizeof_pcb (src + j) k.memory used

    outside :
        (j : ℕ)
        → base + 4096 ≤ kernel_memory_size
        → InUse k.memory (src + j)
        → src + j < base ⊎ base + 4096 ≤ src + j
    outside j room used =
        let used1 =
          subst (λ m. InUse m (src + j)) (sym mem)
            (kmalloc-InUse sizeof_pcb (src + j) k.memory used) in
        Block-apart (kmalloc_lem 4096 k1.memory got) room (src + j) used1

    stack-IsStacked :
        (k3 : Kernel)
        → IsCopied 4096 base (k1.blocks parent).user_stack_base k_alloc k3
        → IsStacked fuel ready bound k l src stack_ptr child free base (change child place k3)
    unfolding allocate
    stack-IsStacked k3 c =
        let room : base + 4096 ≤ kernel_memory_size = elim (c.room) [
          | inl z ↦ absurd (omega (arith, z))
          | inr le ↦ le
        ] in
        let (pending, _, _, _) = of-done (allocate-IsPending 4096 child k1 ready v.pending) in
        let es : (k1.blocks parent).user_stack_base ≡ src = ap (λ t. t.0) t in
        let before : IsChild fuel ready bound k l src stack_ptr child free k_alloc = record {
          pending = pending;
          lineage = v.lineage;
          current = v.current;
        } in
        subst
          (λ k3.
            IsStacked fuel ready bound k l src stack_ptr child free base (change child place k3))
          (sym c.same)
          (record {
            is_child = change-IsChild fuel ready bound k l src stack_ptr child free place _ refl (
                memory-IsChild fuel ready bound k l src stack_ptr child free k_alloc _ c.mem refl
                  before);
            copy = record {
              inside = room;
              bytes = λ j lt used.
                  let from : (k1.blocks parent).user_stack_base + j ≡ src + j =
                    ap (λ s. s + j) es in
                  c.copies j lt
                    (subst (λ q. q < base ⊎ base + 4096 ≤ q) (sym from) (outside j room used))
                  ∙ ap k_alloc.memory.kernel_memory from
                  ∙ kept_byte j used;
              top =
                  ap (λ b. b.user_stack_ptr) (update_self k1.blocks child (place (k1.blocks child)))
                  ∙ ap (λ s. (base + (s.1.0 + 2 ^ 32 - s.0) % 2 ^ 32) % 2 ^ 32) t;
            };
            used = λ j lt.
                block-InUse (kmalloc_lem 4096 k1.memory got) room (base + j) (omega arith)
                  (omega (arith, lt));
          })

    stack-Forked :
        Ends
          (CannotCopy k.memory src cr3)
          (Forked k ready l src stack_ptr)
          (with_child_stack fuel parent child (some base) k_alloc)
    unfolding with_child_stack allocate
    stack-Forked =
        bind-Ends
          (mono-Ends (copy_memory-IsCopied base (k1.blocks parent).user_stack_base 4096 k_alloc)
            (λ f.
              no_stack base (subst (λ m. (kmalloc 4096 m).0 ≡ some base) mem got)
                (subst (NoPlace 4096 base) (ap (λ t. t.0) t) f))
            (λ _ _ c. c))
          λ _ k3 _ c.
            let k4 = change child place k3 in
            let stacked = stack-IsStacked k3 c in
            elim (Bool-cases ((k1.blocks parent).cr3 == 0)) [
              | inl z ↦ rw z (
                  Returns-Ends (
                    finish_fork-Forked fuel ready bound k l src stack_ptr child free base k4
                      stacked))
              | inr nz ↦
                  let same : (k4.blocks parent).cr3 ≡ cr3 =
                    update-same (λ b. b.cr3) k3.blocks child (place (k3.blocks child)) refl parent
                    ∙ ap (λ k. (k.blocks parent).cr3) c.same
                    ∙ ap (λ t. t.1.1) t in
                  let has : cr3 ≢ 0 = λ z. absurd (ground (arith, nz, z, ap (λ t. t.1.1) t)) in
                  let heap : k4.memory
                      ≡ record ((kmalloc 4096 ((kmalloc sizeof_pcb k.memory).1)).1) {
                        kernel_memory = c.mem;
                      } =
                    ap (λ k. k.memory) c.same
                    ∙ ap (λ m. record ((kmalloc 4096 m).1) { kernel_memory = c.mem }) mem in
                  rw nz (
                    with_tables-Forked base parent k4 ((kmalloc 4096 k4.memory).0) stacked refl
                      (λ tables e f.
                        no_tables c.mem tables has
                          (subst (λ m. (kmalloc 4096 m).0 ≡ some tables) heap e)
                          (subst (NoPlace 4096 tables) same f)))
            ]

  with_child_stack-Forked :
      (parent cr3 : ℕ) (k1 : Kernel) (stack : Option ℕ)
      → IsChild fuel ready bound k l src stack_ptr child free k1
      → k1.memory ≡ (kmalloc sizeof_pcb k.memory).1
      → (kmalloc 4096 k1.memory).0 ≡ stack
      → tied (k1.blocks parent) ≡ (src, (stack_ptr, cr3))
      → Ends (CannotCopy k.memory src cr3) (Forked k ready l src stack_ptr) (
          with_child_stack fuel parent child stack
            (record k1 { memory = (kmalloc 4096 k1.memory).1 }))
  unfolding with_child_stack allocate
  with_child_stack-Forked parent cr3 k1 none v mem got t =
      let (pending, _, _, _) = of-done (allocate-IsPending 4096 child k1 ready v.pending) in
      ends (childless pending.kernel)
  with_child_stack-Forked parent cr3 k1 (some base) v mem got t =
      stack-Forked parent cr3 base k1 v mem got t

module _ (fuel : ℕ) (ready : List ℕ) (bound : length ready < fuel + 1) (k : Kernel) (parent : ℕ)
    (v : IsKernel k ready) (e : k.current_process ≡ some parent) where
  -- The number is the next one, the priority that of the parent.
  abbrev inherited : ℕ × (Option ℕ × ℤ)
  inherited = (k.next_pid, (some parent, (k.blocks parent).priority))

  abbrev Result : ℕ → Run.Run Kernel (Option ℕ) → Type 0
  Result stack_ptr =
      Ends (CannotCopy k.memory (k.blocks parent).user_stack_base (k.blocks parent).cr3)
        (Forked k ready inherited (k.blocks parent).user_stack_base stack_ptr)

  with_child-Forked :
      (stack_ptr : ℕ) (k2 : Kernel) (block : Option ℕ)
      → k2.memory ≡ (kmalloc sizeof_pcb k.memory).1
      → Allocated (change parent (λ b. record b { user_stack_ptr = stack_ptr }) k) ready block k2
      → Result stack_ptr (with_child fuel parent block k2)
  unfolding with_child get_new_pid allocate
  with_child-Forked stack_ptr k2 _ mem (refused v2) = ends (childless v2)
  with_child-Forked stack_ptr k2 _ mem (granted child free blocks cur number v2) =
      let k3 : Kernel = record k2 { next_pid = (k2.next_pid + 1) % 2 ^ 32 } in
      let v3 = IsPending-same k2 k3 child ready refl refl refl (λ a l. l) v2 in
      let f = λ (b : Pcb). record b {
        pid = k2.next_pid;
        parent = some parent;
        priority = (k2.blocks parent).priority;
      } in
      let asked = record (k.blocks parent) { user_stack_ptr = stack_ptr } in
      let priority : (k2.blocks parent).priority ≡ (k.blocks parent).priority =
        ap (λ b. (b parent).priority) blocks
        ∙ update-same (λ b. b.priority) k.blocks parent asked refl parent in
      let live : (d : ℕ) → some parent ≡ some d → Live k3.memory d =
        λ d same. (v2.kernel.current d (cur ∙ e ∙ same)).0 in
      let apart = v2.apart parent (cur ∙ e) in
      let k4 = change child f k3 in
      let src = (k.blocks parent).user_stack_base in
      let child_of : IsChild fuel ready bound k inherited src stack_ptr child free k4 = record {
        pending = change-IsPending child f k3 ready live v3;
        lineage =
            ap lineage (update_self k3.blocks child (f (k3.blocks child)))
            ∙ rw (number, priority) refl;
        current = cur;
      } in
      let t : tied (k4.blocks parent) ≡ (src, (stack_ptr, (k.blocks parent).cr3)) = ap tied (
        update_ne k3.blocks child parent (f (k3.blocks child)) apart
        ∙ ap (λ b. b parent) blocks
        ∙ update_self k.blocks parent asked) in
      with_child_stack-Forked fuel ready bound k inherited src stack_ptr child free parent
        (k.blocks parent).cr3 k4 ((kmalloc 4096 k4.memory).0) child_of mem refl t

  -- Where the queue stands for a list of ready processes in the order of the priorities, which are in
  -- use as every parent is, the current process, which there is, is in use and not ready, and the fuel
  -- is as much as processes are ready, `fork_syscall` ends in one of two ways, or stops. It returns
  -- -1, and the same processes are ready. Or it returns the next free process number, and the child,
  -- in a page that was free, has this number, the current process as its parent and the parent's
  -- priority, a stack of 4096 bytes with those bytes of the parent's that are in use, and its stack
  -- pointer as far above the start as the parent's; it is marked as new and at the head of the process
  -- table, and the queue stands for the list with the child behind those of no larger priority number.
  -- The parent stays the current process then, and what is assumed of the kernel holds again. It stops
  -- only where the stack that it copies, or the page tables if the parent has any, start at the null
  -- pointer or have not all their 4096 bytes in `kernel_memory`, or the block that the heap gives for
  -- the copy has not.
  pub fork_syscall-Forked : (stack_ptr : ℕ) → Result stack_ptr (fork_syscall fuel stack_ptr k)
  unfolding fork_syscall fork_from allocate
  fork_syscall-Forked stack_ptr =
      let f = λ (b : Pcb). record b { user_stack_ptr = stack_ptr } in
      let v' = kept-IsKernel parent f k ready refl refl v in
      let k1 = change parent f k in
      subst (λ c. Result stack_ptr (fork_from fuel stack_ptr c k)) (sym e)
        (with_child-Forked stack_ptr (record k1 { memory = (kmalloc sizeof_pcb k.memory).1 })
          ((kmalloc sizeof_pcb k.memory).0) refl
          (of-done (allocate-Allocated sizeof_pcb k1 ready v')))
