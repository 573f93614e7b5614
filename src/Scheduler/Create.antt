-- ===== src/Scheduler/Create.antt =====
-- `create_process` of process/process.c.
use apna_os.Prelude.{
  ℕ, ◌+◌, ◌-◌, ◌<◌, ◌≡◌, refl, Option, none, some, List, ◌∙◌, ap, length, update_self, ◌≤◌, arith,
  dec_le, sym, subst,
}
use apna_os.Prelude.Int.{ℤ}
use apna_os.Prelude.Run
use apna_os.Prelude.Run.{
  done, fault, get, put, pure, ◌>>◌, Returns, returns, Ends, ends, stops, Returns-Ends, bind-Ends,
  mono-Ends, ◌>>=◌,
}
use apna_os.Memory.{Memory, kernel_memory_size, kmalloc}
use apna_os.Memory.Free.{page_of}
use apna_os.Process.{Pcb}
use apna_os.Process.Chain.{insert}
use apna_os.Scheduler.{
  Kernel, change, set_state, state_ready, poked, write_word, fill_process, pointer,
  allocate_kernel_stack, kernel_stack_size, enter_table, sizeof_pcb, enqueue_ready, allocate,
  with_block, build_process, with_stack, create_process,
}
use apna_os.Scheduler.Invariant.{IsKernel, update-same}
use apna_os.Scheduler.Keep.{InUse, block-InUse}
use apna_os.Memory.Heap.{kmalloc_lem}
use apna_os.Scheduler.Ready.{priorities}
use apna_os.Scheduler.Pending.{
  IsPending, IsPending-same, change-IsPending, Allocated, refused, granted, allocate-Allocated,
  allocate-IsPending, enqueue_ready-IsKernel,
}
use apna_os.Scheduler.Stack.{HasStack, poke-inside, poke-outside, stacked}

-- What identifies a process and orders it.
abbrev pub details : Pcb → ℕ × (ℤ × (ℤ × ℤ))
details b = (b.pid, (b.priority, (b.deadline, b.time_to_run)))

-- A block but for its kernel stack.
abbrev pub unstacked : Pcb → Pcb
unstacked b = record b { kernel_stack_base = 0; kernel_stack_ptr = 0 }

-- The process table is linked through one field.
pub table-kept :
    {A : Type 0} (view : Pcb → A)
    → ((b : Pcb) (n : Option ℕ) → view (record b { next_in_table = n }) ≡ view b)
    → (p : ℕ) (k : Kernel) (a : ℕ) → view ((enter_table p k).blocks a) ≡ view (k.blocks a)
table-kept view blind p k a =
    update-same view k.blocks p (record (k.blocks p) { next_in_table = k.process_table_head })
      (blind (k.blocks p) k.process_table_head) a

pub table-IsPending :
    (p : ℕ) (k : Kernel) (ready : List ℕ)
    → IsPending k p ready
    → IsPending (enter_table p k) p ready
table-IsPending p k ready v =
    let f = λ (b : Pcb). record b { next_in_table = k.process_table_head } in
    IsPending-same (change p f k) (enter_table p k) p ready refl refl refl (λ a l. l)
      (change-IsPending p f k ready (v.kernel.is_ready.parents p) v)

pub of-done :
    {A : Type 0} {P : A → Kernel → Type 0} {a : A} {k : Kernel} → Returns P (done a k) → P a k
of-done (returns h) = h

pub allocate_kernel_stack-IsPending :
    (p : ℕ) (k : Kernel) (ready : List ℕ)
    → IsPending k p ready
    → Returns
        (λ _ k'.
          IsPending k' p ready
          × ((a : ℕ) → unstacked (k'.blocks a) ≡ unstacked (k.blocks a))
          × (k'.current_process ≡ k.current_process)
          × (k'.memory ≡ (kmalloc kernel_stack_size k.memory).1))
        (allocate_kernel_stack p k)
unfolding allocate_kernel_stack allocate
allocate_kernel_stack-IsPending p k ready v =
    let stack = (kmalloc kernel_stack_size k.memory).0 in
    let k1 : Kernel = record k { memory = (kmalloc kernel_stack_size k.memory).1 } in
    let (v1, blocks, table, cur) = of-done (allocate-IsPending kernel_stack_size p k ready v) in
    let f = λ (b : Pcb). record b {
      kernel_stack_base = pointer stack;
      kernel_stack_ptr = pointer stack + kernel_stack_size;
    } in
    returns (
      change-IsPending p f k1 ready (v1.kernel.is_ready.parents p) v1,
      (λ a. update-same unstacked k1.blocks p (f (k1.blocks p)) refl a),
      refl,
      refl,
    )

-- What `create_process` comes to.
pub data Created (k : Kernel) (ready : List ℕ) (asked : ℕ × (ℤ × (ℤ × ℤ))) (entry_point : ℕ)
    : Option ℕ → Kernel → Type 0 where
  failed : {k' : Kernel} → IsKernel k' ready → Created k ready asked entry_point none k'
  created :
      (p base : ℕ) {k' : Kernel}
      → k.memory.page_table (page_of p) ≡ 0
      → IsKernel k' (insert (priorities k') p ready)
      → details (k'.blocks p) ≡ asked
      → HasStack k' p base entry_point
      → k'.process_table_head ≡ some p
      → k'.current_process ≡ k.current_process
      → Created k ready asked entry_point (some p) k'

-- The heap gives a block and then, for the stack, one that reaches past the end of `kernel_memory`.
pub record Overhangs (m : Memory) : Type 0 where
  pub block : ℕ
  pub base : ℕ
  pub first : (kmalloc sizeof_pcb m).0 ≡ some block
  pub second : (kmalloc 4096 ((kmalloc sizeof_pcb m).1)).0 ≡ some base
  pub past_end : kernel_memory_size < base + 4096

abbrev pub stack_of : Pcb → ℕ × ℕ
stack_of b = (b.user_stack_base, b.user_stack_ptr)

module _ (fuel pid entry_point : ℕ) (priority deadline time_to_run : ℤ) (ready : List ℕ)
    (bound : length ready < fuel + 1) where
  abbrev asked : ℕ × (ℤ × (ℤ × ℤ))
  asked = (pid, (priority, (deadline, time_to_run)))

  build_rest :
      (p base : ℕ) (k k4 : Kernel)
      → base + 4096 ≤ kernel_memory_size
      → k.memory.page_table (page_of p) ≡ 0
      → k4.current_process ≡ k.current_process
      → ((q : ℕ) → base ≤ q → q < base + 4096 → InUse k4.memory q)
      → IsPending k4 p ready
      → (m : Memory)
      → k4.memory ≡ record m {
        kernel_memory =
            write_word
              (write_word m.kernel_memory (base + 4096 - 4) entry_point)
              (base + 4096 - 8)
              0;
      }
      → details (k4.blocks p) ≡ asked
      → stack_of (k4.blocks p) ≡ (base, base + 4096 - 8)
      → Returns (Created k ready asked entry_point) (
          (allocate_kernel_stack p
              >> (get >>= λ k'.
                  put (set_state p state_ready (enter_table p k'))
                  >> (enqueue_ready fuel p >> pure (some p))))
            k4)
  build_rest p base k k4 inside free cur used v4 m written filled stack =
      let run = λ (b : Pcb). record b { state = state_ready } in
      let writes =
        write_word (write_word m.kernel_memory (base + 4096 - 4) entry_point) (base + 4096 - 8) 0 in
      let (low, high) =
        stacked p base entry_point m writes refl
          (λ q lo hi. subst (λ m. InUse m q) written (used q lo hi)) in
      Run.bind (allocate_kernel_stack-IsPending p k4 ready v4) λ _ k5 (v5, same, cur', mem).
        let k6 = enter_table p k5 in
        let v6 = table-IsPending p k5 ready v5 in
        let v7 = change-IsPending p run k6 ready (v6.kernel.is_ready.parents p) v6 in
        let state = ap (λ b. b.state) (update_self k6.blocks p (run (k6.blocks p))) in
        Run.bind (enqueue_ready-IsKernel fuel p (set_state p state_ready k6) ready v7 state bound)
          λ _ k8 s.
            let bytes : k8.memory.kernel_memory
                ≡ (kmalloc kernel_stack_size
                    (record m { kernel_memory = writes })).1.kernel_memory =
              ap (λ m. m.kernel_memory) (s.1.memory ∙ mem)
              ∙ ap (λ m. (kmalloc kernel_stack_size m).1.kernel_memory) written in
            let stack' : stack_of (k8.blocks p) ≡ (base, base + 4096 - 8) =
              ap stack_of (s.1.links p)
              ∙ update-same stack_of k6.blocks p (run (k6.blocks p)) refl p
              ∙ table-kept stack_of (λ b n. refl) p k5 p
              ∙ ap stack_of (same p)
              ∙ stack in
            let top = ap (λ t. t.1) stack' in
            returns (
              created p base free (s.0)
                (ap details (s.1.links p)
                  ∙ update-same details k6.blocks p (run (k6.blocks p)) refl p
                  ∙ table-kept details (λ b n. refl) p k5 p
                  ∙ ap details (same p)
                  ∙ filled)
                (record {
                  inside = inside;
                  start = ap (λ t. t.0) stack';
                  top = omega (arith, top);
                  returns_to = rw bytes low;
                  enters_at = rw bytes high;
                })
                s.1.table (s.1.current ∙ cur' ∙ cur))

  build_process-Created :
      (p base : ℕ) (k k1 : Kernel) {F : Type 0}
      → k.memory.page_table (page_of p) ≡ 0
      → k1.current_process ≡ k.current_process
      → (base + 4096 ≤ kernel_memory_size
          → (q : ℕ) → base ≤ q
          → q < base + 4096
          → InUse k1.memory q)
      → (kernel_memory_size < base + 4096 → F)
      → IsPending k1 p ready
      → Ends F
          (Created k ready asked entry_point)
          (build_process fuel p base pid entry_point priority deadline time_to_run k1)
  unfolding build_process
  build_process-Created p base k k1 free cur used why v =
      let fill = fill_process pid base priority deadline time_to_run (base + 4096 - 8) in
      let k2 = change p fill k1 in
      elim (dec_le (base + 4096) kernel_memory_size) [
        | no ne ↦
            rw (poke-outside (base + 4096 - 4) entry_point k2 (omega (arith, ne)))
              (stops (why (omega (arith, ne))))
        | yes inside ↦
            let k3 = poked (base + 4096 - 4) entry_point k2 in
            let k4 = poked (base + 4096 - 8) 0 k3 in
            rw
              (
                poke-inside (base + 4096 - 4) entry_point k2 (omega (arith, inside)),
                poke-inside (base + 4096 - 8) 0 k3 (omega (arith, inside)),
              )
              (Returns-Ends (
                build_rest p base k k4 inside free cur (used inside)
                  (IsPending-same k2 k4 p ready refl refl refl (λ a l. l)
                    (change-IsPending p fill k1 ready (v.kernel.is_ready.parents p) v))
                  k1.memory refl (ap details (update_self k1.blocks p (fill (k1.blocks p))))
                  (ap stack_of (update_self k1.blocks p (fill (k1.blocks p))))))
      ]

  with_stack-Created :
      (p : ℕ) (k k1 : Kernel) {F : Type 0} (stack : Option ℕ)
      → k.memory.page_table (page_of p) ≡ 0
      → k1.current_process ≡ k.current_process
      → ((base : ℕ)
          → stack ≡ some base
          → base + 4096 ≤ kernel_memory_size
          → (q : ℕ) → base ≤ q
          → q < base + 4096
          → InUse k1.memory q)
      → ((base : ℕ) → stack ≡ some base → kernel_memory_size < base + 4096 → F)
      → IsPending k1 p ready
      → Ends F
          (Created k ready asked entry_point)
          (with_stack fuel p pid entry_point priority deadline time_to_run stack k1)
  unfolding with_stack
  with_stack-Created p k k1 none free cur used why v = ends (failed v.kernel)
  with_stack-Created p k k1 (some base) free cur used why v =
      build_process-Created p base k k1 free cur (used base refl) (why base refl) v

  with_block-Created :
      (k k1 : Kernel) (block : Option ℕ)
      → block ≡ (kmalloc sizeof_pcb k.memory).0
      → k1.memory ≡ (kmalloc sizeof_pcb k.memory).1
      → Allocated k ready block k1
      → Ends
          (Overhangs k.memory)
          (Created k ready asked entry_point)
          (with_block fuel pid entry_point priority deadline time_to_run block k1)
  unfolding with_block allocate
  with_block-Created k k1 _ got mem (refused v) = ends (failed v)
  with_block-Created k k1 _ got mem (granted p free blocks cur number v) =
      let k2 : Kernel = record k1 { memory = (kmalloc 4096 k1.memory).1 } in
      let (v2, _, _, cur') = of-done (allocate-IsPending 4096 p k1 ready v) in
      with_stack-Created p k k2 ((kmalloc 4096 k1.memory).0) free cur
        (λ base e inside q lo hi. block-InUse (kmalloc_lem 4096 k1.memory e) inside q lo hi)
        (λ base e past. record {
          block = p;
          base = base;
          first = sym got;
          second = subst (λ m. (kmalloc 4096 m).0 ≡ some base) mem e;
          past_end = past;
        })
        v2

  -- Where the queue stands for a list of ready processes in the order of the priorities, which are in
  -- use as every parent is, the current process is in use and not ready, and the fuel is as much as
  -- processes are ready, `create_process` ends in one of two ways, or stops. It returns the null
  -- pointer, and the same processes are ready. Or it returns a block in a page that was free, with the
  -- number, priority, deadline and run time that were asked for, a stack of 4096 bytes inside
  -- `kernel_memory` whose two upper words are the entry point and below it the null word, to which its
  -- stack pointer leads, at the head of the process table, and the queue stands for the list with
  -- that process behind those of no larger priority number. The current process stays then, and what
  -- is assumed of the kernel holds again. It stops at a write behind `kernel_memory` only if the block
  -- that the heap gives for the stack reaches past the end of it.
  pub create_process-Created :
      (k : Kernel)
      → IsKernel k ready
      → Ends
          (Overhangs k.memory)
          (Created k ready asked entry_point)
          (create_process fuel pid entry_point priority deadline time_to_run k)
  unfolding create_process allocate
  create_process-Created k v =
      with_block-Created k (record k { memory = (kmalloc sizeof_pcb k.memory).1 })
        ((kmalloc sizeof_pcb k.memory).0) refl refl
        (of-done (allocate-Allocated sizeof_pcb k ready v))
