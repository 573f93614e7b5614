-- ===== src/Scheduler.antt =====
-- The processes of process/process.c and the system calls of process/syscall.c on the kernel's state.
-- A block at an address is what the memory behind the pointer holds as a `PCB`; what a field holds
-- that the code has not set is what was there before. A pointer is its offset in `kernel_memory`, and
-- where it is kept as a number the null pointer is 0. The registers that the assembly reads are
-- arguments: `stack_ptr` is `%ebp`, `esp` the stack pointer.
pub mod Live
pub mod Invariant
pub mod Ready
pub mod Keep
pub mod Pending
pub mod Stack
pub mod Create
pub mod Requeue
pub mod Schedule
pub mod Tests
use apna_os.Prelude.{
  ℕ, zero, suc, ◌+◌, ◌-◌, ◌/◌, ◌%◌, ◌^◌, ◌&&◌, Bool, true, false, Option, none, some, ◌==◌,
  if◌then◌else◌, Array, Bytes, update, leb,
}
use apna_os.Prelude.Int.{ℤ}
use apna_os.Prelude.Run.{Run, Cmd, done, fault, out_of_fuel, pure, get, put, guard, ◌>>=◌, ◌>>◌}
use apna_os.Memory.{Memory, kernel_memory_size, kmalloc}
use apna_os.Process.{Pcb, ProcessQueue, Queued, enqueue_process, dequeue_process}

abbrev pub state_ready : ℕ
state_ready = 0

abbrev pub state_running : ℕ
state_running = 1

abbrev pub state_blocked : ℕ
state_blocked = 2

abbrev pub state_new : ℕ
state_new = 3

abbrev pub state_zombie : ℕ
state_zombie = 5

abbrev pub kernel_stack_size : ℕ
kernel_stack_size = 4096

-- sizeof(PCB): fifteen words of four bytes, two of eight, and the flag and the colour with their
-- padding.
abbrev pub sizeof_pcb : ℕ
sizeof_pcb = 92

pub record Kernel : Type 0 where
  pub memory : Memory
  pub blocks : Array Pcb
  pub ready_queue : ProcessQueue
  pub current_process : Option ℕ
  pub process_table_head : Option ℕ
  pub next_pid : ℕ

-- A write to fields of the block at `p`.
abbrev pub change : ℕ → (Pcb → Pcb) → Kernel → Kernel
change p f k = record k { blocks = update k.blocks p (f (k.blocks p)) }

abbrev pub set_state : ℕ → ℕ → Kernel → Kernel
set_state p state = change p (λ b. record b { state = state })

abbrev pub queued : Kernel → Queued
queued k = record { queue = k.ready_queue; blocks = k.blocks }

abbrev pub with_queued : Kernel → Queued → Kernel
with_queued k q = record k { ready_queue = q.queue; blocks = q.blocks }

unfoldable pub enqueue_done : Kernel → Run Queued (Unit {0}) → Run Kernel (Unit {0})
enqueue_done k (done _ q) = done tt (with_queued k q)
enqueue_done k fault = fault
enqueue_done k out_of_fuel = out_of_fuel

-- enqueue_process(&ready_queue, p);
unfoldable pub enqueue_ready : ℕ → ℕ → Cmd Kernel (Unit {0})
enqueue_ready fuel p k = enqueue_done k (enqueue_process fuel p (queued k))

unfoldable pub dequeue_ready : Cmd Kernel (Option ℕ)
dequeue_ready k = let (next, q) = dequeue_process (queued k) in done next (with_queued k q)

unfoldable pub allocate : ℕ → Cmd Kernel (Option ℕ)
allocate size k = let (p, m) = kmalloc size k.memory in done p (record k { memory = m })

unfoldable pub init_process_management : Cmd Kernel (Unit {0})
init_process_management k =
    done tt (record k { ready_queue = record { front = none; rear = none } })

unfoldable pub get_new_pid : Cmd Kernel ℕ
get_new_pid k = done k.next_pid (record k { next_pid = (k.next_pid + 1) % 2 ^ 32 })

abbrev pub pointer : Option ℕ → ℕ
pointer none = 0
pointer (some p) = p

unfoldable pub allocate_kernel_stack : ℕ → Cmd Kernel (Unit {0})
allocate_kernel_stack p = do
  stack ← allocate kernel_stack_size
  k ← get
  put (
      change p
        (λ b. record b {
          kernel_stack_base = pointer stack;
          kernel_stack_ptr = pointer stack + kernel_stack_size;
        })
        k)

-- *p = word;
unfoldable pub write_word : Bytes → ℕ → ℕ → Bytes
write_word mem p word =
    update
      (update (update (update mem p (word % 256)) (p + 1) (word / 2 ^ 8 % 256)) (p + 2)
        (word / 2 ^ 16 % 256))
      (p + 3) (word / 2 ^ 24 % 256)

abbrev pub poked : ℕ → ℕ → Kernel → Kernel
poked p word k = record k {
  memory = record (k.memory) { kernel_memory = write_word k.memory.kernel_memory p word };
}

-- A write to a stack, which may leave `kernel_memory`.
unfoldable pub poke : ℕ → ℕ → Cmd Kernel (Unit {0})
poke p word = do guard (leb (p + 4) kernel_memory_size); k ← get; put (poked p word k)

-- process->next_in_table = process_table_head; process_table_head = process;
abbrev pub enter_table : ℕ → Kernel → Kernel
enter_table p k = record (change p (λ b. record b { next_in_table = k.process_table_head }) k) {
  process_table_head = some p;
}

-- The fields that `create_process` sets, its stack being the 4096 bytes from `base` on.
abbrev pub fill_process : ℕ → ℕ → ℤ → ℤ → ℤ → ℕ → Pcb → Pcb
fill_process pid base priority deadline time_to_run stack_top b = record b {
  pid = pid;
  state = state_new;
  priority = priority;
  deadline = deadline;
  time_to_run = time_to_run;
  user_stack_base = base;
  user_stack_ptr = stack_top;
  cr3 = 0;
  next = none;
}

-- What follows the two allocations.
unfoldable pub build_process : ℕ → ℕ → ℕ → ℕ → ℕ → ℤ → ℤ → ℤ → Cmd Kernel (Option ℕ)
build_process fuel p base pid entry_point priority deadline time_to_run = do
  k ← get
  put (change p (fill_process pid base priority deadline time_to_run (base + 4096 - 8)) k)
  poke (base + 4096 - 4) entry_point
  poke (base + 4096 - 8) 0
  allocate_kernel_stack p
  k' ← get
  put (set_state p state_ready (enter_table p k'))
  enqueue_ready fuel p
  pure (some p)

-- The stack that was asked for, or the null pointer.
unfoldable pub with_stack : ℕ → ℕ → ℕ → ℕ → ℤ → ℤ → ℤ → Option ℕ → Cmd Kernel (Option ℕ)
with_stack fuel p pid entry_point priority deadline time_to_run none = pure none
with_stack fuel p pid entry_point priority deadline time_to_run (some base) =
    build_process fuel p base pid entry_point priority deadline time_to_run

unfoldable pub with_block : ℕ → ℕ → ℕ → ℤ → ℤ → ℤ → Option ℕ → Cmd Kernel (Option ℕ)
with_block fuel pid entry_point priority deadline time_to_run none = pure none
with_block fuel pid entry_point priority deadline time_to_run (some p) =
    allocate 4096 >>= with_stack fuel p pid entry_point priority deadline time_to_run

unfoldable pub create_process : ℕ → ℕ → ℕ → ℤ → ℤ → ℤ → Cmd Kernel (Option ℕ)
create_process fuel pid entry_point priority deadline time_to_run =
    allocate sizeof_pcb >>= with_block fuel pid entry_point priority deadline time_to_run

-- Where `schedule` leaves to: the shell, a process at its saved stack, or a new child at its own, in
-- which `fork` returns 0.
pub data Switch : Type 0 where
  to_cli : Switch
  to_process : ℕ → ℕ → Switch
  to_child : ℕ → ℕ → Switch

-- A process that runs goes back into the queue.
unfoldable pub requeue : ℕ → Option ℕ → Cmd Kernel (Unit {0})
requeue fuel none = pure tt
requeue fuel (some c) = do
  k ← get
  if (k.blocks c).state == state_running
      then (do put (set_state c state_ready k); enqueue_ready fuel c)
      else pure tt

-- movl %esp into current_process->kernel_stack_ptr
abbrev pub save_stack : ℕ → Option ℕ → Kernel → Kernel
save_stack esp none k = k
save_stack esp (some c) k = change c (λ b. record b { kernel_stack_ptr = esp }) k

unfoldable pub switch_to : ℕ → Option ℕ → Kernel → Run Kernel Switch
switch_to esp none k = done to_cli k
switch_to esp (some p) k =
    let k1 = save_stack esp k.current_process (set_state p state_running k) in
    let child : Kernel = record (change p (λ b. record b { is_new_child = false }) k1) {
      current_process = some p;
    } in
    if (k1.blocks p).is_new_child
    then done (to_child p (k1.blocks p).user_stack_ptr) child
    else done (to_process p (k1.blocks p).user_stack_ptr) (record k1 { current_process = some p })

unfoldable pub schedule : ℕ → ℕ → Cmd Kernel Switch
schedule fuel esp = do
  k ← get
  requeue fuel k.current_process
  next ← dequeue_ready
  switch_to esp next
