-- ===== src/Process.antt =====
-- process/process.c: the process control blocks and the queues of processes. A pointer to a block
-- is a number, the null pointer `none`; the memory is the function from pointers to blocks.
pub mod Chain
pub mod Links
pub mod Insert
pub mod Queue
pub mod Serve
mod Tests
use apna_os.Prelude.{
  ℕ, zero, suc, ◌-◌, Bool, true, false, not, Option, none, some, Array, update, ltb, if◌then◌else◌,
}
use apna_os.Prelude.Int.{ℤ, ltb_ℤ, leb_ℤ}
use apna_os.Prelude.Run.{Run, Cmd, done, out_of_fuel}

-- `struct rb_node`
pub record RbNode : Type 0 where
  pub rb_left : Option ℕ
  pub rb_right : Option ℕ
  pub rb_parent : Option ℕ
  pub rb_red : Bool

pub record Pcb : Type 0 where
  pub pid : ℕ
  pub state : ℕ
  pub user_stack_ptr : ℕ
  pub cr3 : ℕ
  pub priority : ℤ
  pub deadline : ℤ
  pub time_to_run : ℤ
  pub next : Option ℕ
  pub next_in_table : Option ℕ
  pub parent : Option ℕ
  pub exit_status : ℤ
  pub is_new_child : Bool
  pub weight : ℕ
  pub vruntime : ℕ
  pub vr_node : RbNode
  pub user_stack_base : ℕ
  pub kernel_stack_base : ℕ
  pub kernel_stack_ptr : ℕ

pub record ProcessQueue : Type 0 where
  pub front : Option ℕ
  pub rear : Option ℕ

-- One queue and the memory of the blocks.
pub record Queued : Type 0 where
  pub queue : ProcessQueue
  pub blocks : Array Pcb

abbrev pub initialize_queue : Queued → Queued
initialize_queue q = record q { queue = record { front = none; rear = none } }

abbrev pub is_none : Option ℕ → Bool
is_none none = true
is_none (some p) = false

abbrev pub is_queue_empty : Queued → Bool
is_queue_empty q = is_none q.queue.front

-- `process->next = next`
abbrev pub set_next : ℕ → Option ℕ → Queued → Queued
set_next process next q = record q {
  blocks = update q.blocks process (record (q.blocks process) { next = next });
}

-- `queue->front = process`
abbrev pub set_front : Option ℕ → Queued → Queued
set_front process q = record q { queue = record { front = process; rear = q.queue.rear } }

abbrev pub set_rear : Option ℕ → Queued → Queued
set_rear process q = record q { queue = record { front = q.queue.front; rear = process } }

-- while (current->next && current->next->key <= process->key) current = current->next;
unfoldable pub walk : (Pcb → ℤ) → ℕ → ℕ → ℕ → Queued → Option ℕ
walk key zero process current q = none
walk key (suc fuel) process current q = elim ((q.blocks current).next) [
  | none ↦ some current
  | some n ↦
      let rest = walk key fuel process n q in
      if leb_ℤ (key (q.blocks n)) (key (q.blocks process)) then rest else some current
]

-- What follows the loop.
unfoldable pub put_behind : ℕ → ℕ → Queued → Queued
put_behind current process q =
    let after : Option ℕ = (q.blocks current).next in
    let q' : Queued = set_next current (some process) (set_next process after q) in
    if is_none (q'.blocks process).next then set_rear (some process) q' else q'

-- `process` goes behind the block at which the loop ends.
unfoldable pub place : ℕ → Queued → Option ℕ → Run Queued (Unit {0})
place process q none = out_of_fuel
place process q (some current) = done tt (put_behind current process q)

-- What follows `process->next = NULL`, for the block that `queue->front` is then.
unfoldable pub enter : (Pcb → ℤ) → ℕ → ℕ → Queued → Option ℕ → Run Queued (Unit {0})
enter key fuel process q none = done tt (set_rear (some process) (set_front (some process) q))
enter key fuel process q (some front) =
    if ltb_ℤ (key (q.blocks process)) (key (q.blocks front))
    then done tt (set_front (some process) (set_next process (some front) q))
    else place process q (walk key fuel process front q)

-- `enqueue_process`, `enqueue_process_edf` and `enqueue_process_sjf` are the same code with another
-- field as the key. `fuel` bounds the rounds of the loop.
unfoldable pub enqueue_by : (Pcb → ℤ) → ℕ → ℕ → Cmd Queued (Unit {0})
enqueue_by key fuel process q =
    enter key fuel process (set_next process none q) (set_next process none q).queue.front

unfoldable pub enqueue_process : ℕ → ℕ → Cmd Queued (Unit {0})
enqueue_process = enqueue_by λ p. p.priority

unfoldable pub enqueue_process_edf : ℕ → ℕ → Cmd Queued (Unit {0})
enqueue_process_edf = enqueue_by λ p. p.deadline

unfoldable pub enqueue_process_sjf : ℕ → ℕ → Cmd Queued (Unit {0})
enqueue_process_sjf = enqueue_by λ p. p.time_to_run

-- `dequeue_process`, for the block that `queue->front` is. The messages on the serial line are left
-- out.
unfoldable pub serve : Queued → Option ℕ → Option ℕ × Queued
serve q none = (none, q)
serve q (some process) =
    let after : Option ℕ = (q.blocks process).next in
    let q' : Queued = set_front after q in
    let q'' : Queued = if is_none after then set_rear none q' else q' in
    (some process, set_next process none q'')

unfoldable pub dequeue_process : Queued → Option ℕ × Queued
dequeue_process q = serve q q.queue.front
