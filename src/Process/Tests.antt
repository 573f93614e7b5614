-- ===== src/Process/Tests.antt =====
-- The queue on concrete processes.
use apna_os.Prelude.{[], ◌∷◌, refl, arith, false, none, some, ◌==◌, if◌then◌else◌}
use apna_os.Prelude.Int.{ℤ, pos, negsuc}
use apna_os.Prelude.Run.{Returns}
use apna_os.Process.{Pcb, Queued, enqueue_by, dequeue_process}
use apna_os.Process.Chain.{IsQueue}
use apna_os.Process.Insert.{Enqueued, enqueue_by-Enqueued}
use apna_os.Process.Serve.{Dequeued, dequeue_process-Dequeued}

abbrev with_priority : ℤ → Pcb
with_priority priority = record {
  pid = 1;
  state = 0;
  user_stack_ptr = 0;
  cr3 = 0;
  priority = priority;
  deadline = pos 0;
  time_to_run = pos 0;
  next = none;
  next_in_table = none;
  parent = none;
  exit_status = pos 0;
  is_new_child = false;
  weight = 0;
  vruntime = 0;
  vr_node = record { rb_left = none; rb_right = none; rb_parent = none; rb_red = false };
  user_stack_base = 0;
  kernel_stack_base = 0;
  kernel_stack_ptr = 0;
}

-- Block 1, of priority 3, is in the queue; block 2 has priority -1.
abbrev one_waits : Queued
one_waits = record {
  queue = record { front = some 1; rear = some 1 };
  blocks = λ p. if p == 1 then with_priority (pos 3) else with_priority (negsuc 0);
}

one_waits-IsQueue : IsQueue (λ b. b.priority) one_waits (1 ∷ [])
one_waits-IsQueue = record {
  chain = (refl, refl);
  rear = refl;
  distinct = (tt, tt);
  sorted = (tt, tt);
}

enqueue_by-Enqueued_example :
    Returns
      (λ _ q'. Enqueued (λ b. b.priority) 2 (1 ∷ []) one_waits q')
      (enqueue_by (λ b. b.priority) 5 2 one_waits)
enqueue_by-Enqueued_example =
    enqueue_by-Enqueued (λ b. b.priority) (λ b n. refl) 5 2 (1 ∷ []) one_waits one_waits-IsQueue
      ((λ e. omega (arith, e)), tt) (omega arith)

dequeue_process-Dequeued_example :
    Dequeued (λ b. b.priority) one_waits (1 ∷ []) (dequeue_process one_waits)
dequeue_process-Dequeued_example =
    dequeue_process-Dequeued (λ b. b.priority) (λ b n. refl) (1 ∷ []) one_waits one_waits-IsQueue
