-- ===== src/Syscalls.antt =====
-- process/syscall.c: the system calls on the kernel's state, and the two copies of memory/memory.c
-- that `fork` uses. The messages on the serial line are left out. A result of -1 is `none`.
pub mod Copy
pub mod Child
pub mod Fork
pub mod Exit
pub mod Session
pub mod Zombie
mod Tests
use apna_os.Prelude.{
  ℕ, zero, suc, ◌+◌, ◌-◌, ◌%◌, ◌^◌, ◌&&◌, Bool, true, false, Option, none, some, ◌==◌,
  if◌then◌else◌, Array, Bytes, update, not, ltb,
}
use apna_os.Prelude.Int.{ℤ}
use apna_os.Prelude.Run.{Run, Cmd, done, fault, out_of_fuel, pure, get, put, ◌>>=◌, ◌>>◌}
use apna_os.Memory.{page_size, kernel_memory_size, kfree}
use apna_os.Process.{Pcb}
use apna_os.Scheduler.{
  Kernel, change, set_state, state_ready, state_blocked, state_zombie, kernel_stack_size,
  sizeof_pcb, allocate, pointer, allocate_kernel_stack, get_new_pid, enter_table, enqueue_ready,
  Switch, schedule,
}

-- p[i], where `p` may be the null pointer or lead outside `kernel_memory`.
abbrev pub may_access : ℕ → ℕ → Bool
may_access p i = not (p == 0) && ltb (p + i) kernel_memory_size

-- for (size_t i = 0; i < size; i++) d[i] = s[i];  with `n` rounds left.
unfoldable pub copy_loop : ℕ → ℕ → ℕ → ℕ → Cmd Bytes (Unit {0})
copy_loop zero i dest src mem = done tt mem
copy_loop (suc n) i dest src mem =
    let rest = copy_loop n (i + 1) dest src (update mem (dest + i) (mem (src + i))) in
    if may_access src i && may_access dest i then rest else fault

unfoldable pub copy_done : Kernel → Run Bytes (Unit {0}) → Run Kernel (Unit {0})
copy_done k (done _ mem) = done tt (record k { memory = record (k.memory) { kernel_memory = mem } })
copy_done k fault = fault
copy_done k out_of_fuel = out_of_fuel

unfoldable pub copy_memory : ℕ → ℕ → ℕ → Cmd Kernel (Unit {0})
copy_memory dest src size k = copy_done k (copy_loop size 0 dest src k.memory.kernel_memory)

unfoldable pub copy_page_tables : ℕ → ℕ → Cmd Kernel (Unit {0})
copy_page_tables parent_cr3 child_cr3 = copy_memory child_cr3 parent_cr3 page_size

-- The end of `fork_syscall`: `child` is ready and in the table and the queue.
unfoldable pub finish_fork : ℕ → ℕ → Cmd Kernel (Option ℕ)
finish_fork fuel child = do
  allocate_kernel_stack child
  k ← get
  put (
      enter_table child
        (change child (λ b. record b { state = state_ready; is_new_child = true }) k))
  enqueue_ready fuel child
  k' ← get
  pure (some (k'.blocks child).pid)

unfoldable pub set_cr3 : ℕ → ℕ → Kernel → Kernel
set_cr3 child cr3 k = change child (λ b. record b { cr3 = cr3 }) k

-- A parent with page tables gives its child a copy of them.
unfoldable pub with_tables : ℕ → ℕ → ℕ → Option ℕ → Cmd Kernel (Option ℕ)
with_tables fuel parent child none = do k ← get; put (set_cr3 child 0 k); pure none
with_tables fuel parent child (some cr3) = do
  k ← get
  put (set_cr3 child cr3 k)
  copy_page_tables (k.blocks parent).cr3 cr3
  finish_fork fuel child

-- From the copy of the stack on.
unfoldable pub with_child_stack : ℕ → ℕ → ℕ → Option ℕ → Cmd Kernel (Option ℕ)
with_child_stack fuel parent child none = pure none
with_child_stack fuel parent child (some base) = do
  k ← get
  let p : Pcb = k.blocks parent
  let stack_offset : ℕ = (p.user_stack_ptr + 2 ^ 32 - p.user_stack_base) % 2 ^ 32
  copy_memory base p.user_stack_base 4096
  k' ← get
  put (change child (λ b. record b { user_stack_ptr = (base + stack_offset) % 2 ^ 32 }) k')
  if p.cr3 == 0 then finish_fork fuel child else allocate 4096 >>= with_tables fuel parent child

unfoldable pub with_child : ℕ → ℕ → Option ℕ → Cmd Kernel (Option ℕ)
with_child fuel parent none = pure none
with_child fuel parent (some child) = do
  pid ← get_new_pid
  k ← get
  put (
      change child
        (λ b. record b { pid = pid; parent = some parent; priority = (k.blocks parent).priority })
        k)
  allocate 4096 >>= with_child_stack fuel parent child

-- `fork_syscall`, for the process that is the current one.
unfoldable pub fork_from : ℕ → ℕ → Option ℕ → Cmd Kernel (Option ℕ)
fork_from fuel stack_ptr none = pure none
fork_from fuel stack_ptr (some parent) = do
  k ← get
  put (change parent (λ b. record b { user_stack_ptr = stack_ptr }) k)
  allocate sizeof_pcb >>= with_child fuel parent

unfoldable pub fork_syscall : ℕ → ℕ → Cmd Kernel (Option ℕ)
fork_syscall fuel stack_ptr k = fork_from fuel stack_ptr k.current_process k

-- prev->next_in_table = current->next_in_table, or the head of the table.
abbrev pub unlink : Option ℕ → ℕ → Kernel → Kernel
unlink none current k = record k { process_table_head = (k.blocks current).next_in_table }
unlink (some prev) current k =
    change prev (λ b. record b { next_in_table = (k.blocks current).next_in_table }) k

-- The loop of `find_zombie_child` at a block of the table. A block with no parent makes it read
-- through the null pointer.
unfoldable pub find_zombie : ℕ → ℕ → Option ℕ → Option ℕ → Cmd Kernel (Option ℕ)
find_zombie fuel pid prev none = pure none
find_zombie zero pid prev (some current) = λ k. out_of_fuel
find_zombie (suc fuel) pid prev (some current) = do
  k ← get
  let rest = find_zombie fuel pid (some current) (k.blocks current).next_in_table
  elim ((k.blocks current).parent) [
    | none ↦ λ k'. fault
    | some parent ↦
        if ((k.blocks parent).pid == pid) && ((k.blocks current).state == state_zombie)
        then (do put (unlink prev current k); pure (some current))
        else rest
  ]

unfoldable pub find_zombie_child : ℕ → ℕ → Cmd Kernel (Option ℕ)
find_zombie_child fuel parent k = find_zombie fuel (k.blocks parent).pid none k.process_table_head k

-- kfree(zombie_child); the result is the child's pid and its exit status, which goes to `*status`.
unfoldable pub reap : ℕ → Cmd Kernel (ℕ × ℤ)
reap child k =
    done ((k.blocks child).pid, (k.blocks child).exit_status)
      (record k { memory = kfree child k.memory })

-- `yield_syscall` of the current process.
unfoldable pub yield_from : ℕ → ℕ → ℕ → Option ℕ → Cmd Kernel (Option Switch)
yield_from fuel stack_ptr esp none = pure none
yield_from fuel stack_ptr esp (some proc) = do
  k ← get
  put (change proc (λ b. record b { user_stack_ptr = stack_ptr }) k)
  next ← schedule fuel esp
  pure (some next)

unfoldable pub yield_syscall : ℕ → ℕ → ℕ → Cmd Kernel (Option Switch)
yield_syscall fuel stack_ptr esp k = yield_from fuel stack_ptr esp k.current_process k

-- What `wait_syscall` comes to: a child's pid and status, -1, or another process.
pub data Waited : Type 0 where
  reaped : ℕ × ℤ → Waited
  failed : Waited
  waits : Option Switch → Waited

-- The second half of `wait_syscall`, once the parent runs again.
unfoldable pub wait_resumed : ℕ → ℕ → Cmd Kernel Waited
wait_resumed fuel parent = do
  child ← find_zombie_child fuel parent
  elim child [ none ↦ pure failed | some c ↦ do r ← reap c; pure (reaped r) ]

unfoldable pub wait_from : ℕ → ℕ → ℕ → Option ℕ → Cmd Kernel Waited
wait_from fuel stack_ptr esp none = pure failed
wait_from fuel stack_ptr esp (some parent) = do
  child ← find_zombie_child fuel parent
  elim child [
    | some c ↦ do r ← reap c; pure (reaped r)
    | none ↦ do
      k ← get
      put (set_state parent state_blocked k)
      next ← yield_syscall fuel stack_ptr esp
      pure (waits next)
  ]

unfoldable pub wait_syscall : ℕ → ℕ → ℕ → Cmd Kernel Waited
wait_syscall fuel stack_ptr esp k = wait_from fuel stack_ptr esp k.current_process k

-- A parent that waits is woken.
unfoldable pub wake : ℕ → Option ℕ → Cmd Kernel (Unit {0})
wake fuel none = pure tt
wake fuel (some parent) = do
  k ← get
  if (k.blocks parent).state == state_blocked
      then (do put (set_state parent state_ready k); enqueue_ready fuel parent)
      else pure tt

unfoldable pub exit_from : ℕ → ℕ → ℤ → Option ℕ → Cmd Kernel (Option Switch)
exit_from fuel esp status none = pure none
exit_from fuel esp status (some proc) = do
  k ← get
  put (change proc (λ b. record b { exit_status = status; state = state_zombie }) k)
  wake fuel (k.blocks proc).parent
  next ← schedule fuel esp
  pure (some next)

unfoldable pub exit_syscall : ℕ → ℕ → ℤ → Cmd Kernel (Option Switch)
exit_syscall fuel esp status k = exit_from fuel esp status k.current_process k
