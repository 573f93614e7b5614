-- ===== src/Syscalls/Child.antt =====
-- The child of `fork_syscall` of process/syscall.c in the making.
use apna_os.Prelude.{
  ℕ, ◌+◌, ◌-◌, ◌%◌, ◌^◌, ◌<◌, ◌≡◌, refl, Option, none, some, List, ◌∙◌, ap, sym, subst, length,
  Bytes, update_self, ◌≤◌, ◌⊎◌, ◌≢◌, inl, inr, arith, true,
}
use apna_os.Prelude.Int.{ℤ}
use apna_os.Prelude.Run
use apna_os.Prelude.Run.{
  Run, done, Returns, returns, Ends, ends, stops, Returns-Ends, bind-Ends, mono-Ends, ◌>>=◌,
}
use apna_os.Memory.{Memory, kernel_memory_size, kmalloc}
use apna_os.Memory.Free.{page_of}
use apna_os.Process.{Pcb}
use apna_os.Process.Chain.{insert}
use apna_os.Scheduler.{
  Kernel, change, state_ready, allocate, enter_table, sizeof_pcb, kernel_stack_size,
}
use apna_os.Scheduler.Invariant.{IsKernel, update-same}
use apna_os.Scheduler.Ready.{priorities}
use apna_os.Scheduler.Pending.{
  IsPending, IsPending-same, change-IsPending, allocate-IsPending, enqueue_ready-IsKernel,
}
use apna_os.Scheduler.Create.{table-kept, table-IsPending, allocate_kernel_stack-IsPending, of-done}
use apna_os.Scheduler.Keep.{InUse, kmalloc-InUse, kmalloc-keeps}
use apna_os.Syscalls.Copy.{NoPlace, IsCopied}
use apna_os.Syscalls.{finish_fork}

-- What a child has of its own and of its parent.
abbrev pub lineage : Pcb → ℕ × (Option ℕ × ℤ)
lineage b = (b.pid, (b.parent, b.priority))

-- The child's stack of 4096 bytes has the bytes of its parent's, as far as those are in use, and its
-- stack pointer stands as far above the start as the parent's.
pub record HasCopy (k k' : Kernel) (child base src stack_ptr : ℕ) : Type 0 where
  pub inside : base + 4096 ≤ kernel_memory_size
  pub bytes :
      (j : ℕ)
      → j < 4096
      → InUse k.memory (src + j)
      → k'.memory.kernel_memory (base + j) ≡ k.memory.kernel_memory (src + j)
  pub top : (k'.blocks child).user_stack_ptr ≡ (base + (stack_ptr + 2 ^ 32 - src) % 2 ^ 32) % 2 ^ 32

-- What `fork_syscall` comes to in the parent.
pub data Forked (k : Kernel) (ready : List ℕ) (l : ℕ × (Option ℕ × ℤ)) (src stack_ptr : ℕ)
    : Option ℕ → Kernel → Type 0 where
  childless : {k' : Kernel} → IsKernel k' ready → Forked k ready l src stack_ptr none k'
  forked :
      (child base : ℕ) {k' : Kernel}
      → k.memory.page_table (page_of child) ≡ 0
      → IsKernel k' (insert (priorities k') child ready)
      → lineage (k'.blocks child) ≡ l
      → HasCopy k k' child base src stack_ptr
      → (k'.blocks child).is_new_child ≡ true
      → k'.process_table_head ≡ some child
      → k'.current_process ≡ k.current_process
      → Forked k ready l src stack_ptr (some (l.0)) k'

-- The two copies that `fork_syscall` may make have no place: the parent's stack or page tables start
-- at the null pointer or lie outside `kernel_memory`, or the block that the heap gives reaches past
-- the end of it.
pub data CannotCopy (m : Memory) (src cr3 : ℕ) : Type 0 where
  no_stack :
      (base : ℕ)
      → (kmalloc 4096 ((kmalloc sizeof_pcb m).1)).0 ≡ some base
      → NoPlace 4096 base src
      → CannotCopy m src cr3
  no_tables :
      (mem : Bytes) (tables : ℕ)
      → cr3 ≢ 0
      → (kmalloc 4096
          (record ((kmalloc 4096 ((kmalloc sizeof_pcb m).1)).1) { kernel_memory = mem })).0
        ≡ some tables
      → NoPlace 4096 tables cr3
      → CannotCopy m src cr3

-- What `fork_syscall` reads of the parent's memory.
abbrev pub tied : Pcb → ℕ × (ℕ × ℕ)
tied b = (b.user_stack_base, (b.user_stack_ptr, b.cr3))

module _ (fuel : ℕ) (ready : List ℕ) (bound : length ready < fuel + 1) (k : Kernel)
    (l : ℕ × (Option ℕ × ℤ)) (src stack_ptr : ℕ) (child : ℕ)
    (free : k.memory.page_table (page_of child) ≡ 0) where
  -- A child in the making.
  pub record IsChild (k1 : Kernel) : Type 0 where
    pub pending : IsPending k1 child ready
    pub lineage : lineage (k1.blocks child) ≡ l
    pub current : k1.current_process ≡ k.current_process

  -- The child has its stack.
  pub record IsStacked (base : ℕ) (k1 : Kernel) : Type 0 where
    pub is_child : IsChild k1
    pub copy : HasCopy k k1 child base src stack_ptr
    pub used : (j : ℕ) → j < 4096 → InUse k1.memory (base + j)

  -- A write to the child that keeps its lineage.
  pub change-IsChild :
      (f : Pcb → Pcb) (k1 : Kernel)
      → lineage (f (k1.blocks child)) ≡ lineage (k1.blocks child)
      → IsChild k1
      → IsChild (change child f k1)
  change-IsChild f k1 same v = record {
    pending =
        change-IsPending child f k1 ready
          (λ d e. v.pending.kernel.is_ready.parents child d (sym (ap (λ t. t.1.0) same) ∙ e))
          v.pending;
    lineage = update-same lineage k1.blocks child (f (k1.blocks child)) same child ∙ v.lineage;
    current = v.current;
  }

  pub change-IsStacked :
      (base : ℕ) (f : Pcb → Pcb) (k1 : Kernel)
      → lineage (f (k1.blocks child)) ≡ lineage (k1.blocks child)
      → (f (k1.blocks child)).user_stack_ptr ≡ (k1.blocks child).user_stack_ptr
      → IsStacked base k1
      → IsStacked base (change child f k1)
  change-IsStacked base f k1 same top v = record {
    is_child = change-IsChild f k1 same v.is_child;
    copy = record {
      inside = v.copy.inside;
      bytes = v.copy.bytes;
      top =
          update-same (λ b. b.user_stack_ptr) k1.blocks child (f (k1.blocks child)) top child
          ∙ v.copy.top;
    };
    used = v.used;
  }

  -- The bytes of the memory change.
  pub memory-IsChild :
      (k1 k2 : Kernel) (mem : Bytes)
      → k2 ≡ record k1 { memory = record (k1.memory) { kernel_memory = mem } }
      → IsChild k1
      → IsChild k2
  memory-IsChild k1 k2 mem e v = subst IsChild (sym e) (record {
    pending =
        IsPending-same k1 (record k1 { memory = record (k1.memory) { kernel_memory = mem } }) child
          ready refl refl refl (λ a l. l) v.pending;
    lineage = v.lineage;
    current = v.current;
  })

  pub finish_fork-Forked :
      (base : ℕ) (k1 : Kernel)
      → IsStacked base k1
      → Returns (Forked k ready l src stack_ptr) (finish_fork fuel child k1)
  unfolding finish_fork
  finish_fork-Forked base k1 v =
      let f = λ (b : Pcb). record b { state = state_ready; is_new_child = true } in
      Run.bind (allocate_kernel_stack-IsPending child k1 ready v.is_child.pending)
        λ _ k2 (v2, same, cur, mem).
          let v3 = change-IsChild f k2 refl (record {
            pending = v2;
            lineage = ap lineage (same child) ∙ v.is_child.lineage;
            current = cur ∙ v.is_child.current;
          }) in
          let k3 = change child f k2 in
          let now = update_self k2.blocks child (f (k2.blocks child)) in
          Run.bind
            (enqueue_ready-IsKernel fuel child (enter_table child k3) ready
              (table-IsPending child k3 ready v3.pending)
              (table-kept (λ b. b.state) (λ b n. refl) child k3 child ∙ ap (λ b. b.state) now)
              bound)
            λ _ k4 (r, s).
              let l' =
                ap lineage (s.links child)
                ∙ table-kept lineage (λ b n. refl) child k3 child
                ∙ v3.lineage in
              let copy : HasCopy k k4 child base src stack_ptr = record {
                inside = v.copy.inside;
                bytes = λ j lt used.
                    ap (λ m. m.kernel_memory (base + j)) (s.memory ∙ mem)
                    ∙ kmalloc-keeps kernel_stack_size (base + j) k1.memory (v.used j lt)
                    ∙ v.copy.bytes j lt used;
                top =
                    ap (λ b. b.user_stack_ptr) (s.links child)
                    ∙ table-kept (λ b. b.user_stack_ptr) (λ b n. refl) child k3 child
                    ∙ ap (λ b. b.user_stack_ptr) now
                    ∙ ap (λ b. b.user_stack_ptr) (same child)
                    ∙ v.copy.top;
              } in
              returns (
                subst (λ n. Forked k ready l src stack_ptr (some n) k4) (sym (ap (λ t. t.0) l'))
                  (forked child base free r l' copy
                    (ap (λ b. b.is_new_child) (s.links child)
                      ∙ table-kept (λ b. b.is_new_child) (λ b n. refl) child k3 child
                      ∙ ap (λ b. b.is_new_child) now)
                    s.table (s.current ∙ v3.current)))

  pub allocate-IsStacked :
      (base size : ℕ) (k1 : Kernel)
      → IsStacked base k1
      → IsStacked base (record k1 { memory = (kmalloc size k1.memory).1 })
  unfolding allocate
  allocate-IsStacked base size k1 v =
      let (pending, _, _, _) =
        of-done (allocate-IsPending size child k1 ready v.is_child.pending) in
      record {
        is_child = record {
          pending = pending;
          lineage = v.is_child.lineage;
          current = v.is_child.current;
        };
        copy = record {
          inside = v.copy.inside;
          bytes = λ j lt used.
              kmalloc-keeps size (base + j) k1.memory (v.used j lt) ∙ v.copy.bytes j lt used;
          top = v.copy.top;
        };
        used = λ j lt. kmalloc-InUse size (base + j) k1.memory (v.used j lt);
      }

  -- A copy into another block.
  pub copied-IsStacked :
      (base dest from : ℕ) (k2 k3 : Kernel)
      → IsCopied 4096 dest from k2 k3
      → (dest + 4096 ≤ kernel_memory_size
          → (j : ℕ) → j < 4096
          → base + j < dest ⊎ dest + 4096 ≤ base + j)
      → IsStacked base k2
      → IsStacked base k3
  copied-IsStacked base dest from k2 k3 c apart v =
      let room : dest + 4096 ≤ kernel_memory_size = elim (c.room) [
        | inl z ↦ absurd (omega (arith, z))
        | inr le ↦ le
      ] in
      subst (IsStacked base) (sym c.same) (record {
        is_child = memory-IsChild k2 _ c.mem refl v.is_child;
        copy = record {
          inside = v.copy.inside;
          bytes = λ j lt used. c.others (base + j) (apart room j lt) ∙ v.copy.bytes j lt used;
          top = v.copy.top;
        };
        used = v.used;
      })
