-- ===== src/Scheduler/Tests.antt =====
-- The scheduler on concrete processes.
use apna_os.Prelude.{
  none-some, ℕ, ◌≡◌, refl, arith, [], ◌∷◌, false, none, some, Option, ◌==◌, if◌then◌else◌,
}
use apna_os.Prelude.Int.{pos}
use apna_os.Prelude.Run.{Returns, Ends}
use apna_os.Process.{Pcb}
use apna_os.Process.Chain.{insert}
use apna_os.Scheduler.{Kernel, schedule, create_process}
use apna_os.Scheduler.Invariant.{IsKernel}
use apna_os.Scheduler.Create.{Created, Overhangs, create_process-Created}
use apna_os.Scheduler.Requeue.{waiting}
use apna_os.Scheduler.Schedule.{Scheduled, schedule-Scheduled}

abbrev pub blank : Pcb
blank = record {
  pid = 1;
  state = 0;
  user_stack_ptr = 0;
  cr3 = 0;
  priority = pos 0;
  deadline = pos 0;
  time_to_run = pos 0;
  next = none;
  next_in_table = none;
  parent = none;
  exit_status = pos 0;
  is_new_child = false;
  weight = 0;
  vruntime = 0;
  vr_node = record { rb_left = none; rb_right = none; rb_parent = none; rb_red = false };
  user_stack_base = 0;
  kernel_stack_base = 0;
  kernel_stack_ptr = 0;
}

-- The block at 8 is ready with priority 3; the one at 4104 runs with priority 5 and has
-- its stack at 8200.
abbrev pub two_processes : Kernel
two_processes = record {
  memory = record {
    kernel_memory = λ p. 0;
    page_table = λ p.
        if p == 0 then 1 else if p == 1 then 1 else if p == 2 then 1 else if p == 3 then 2 else 0;
    last_page_index = 4;
  };
  blocks = λ p. record blank {
    state = if p == 4104 then 1 else 0;
    priority = if p == 8 then pos 3 else pos 5;
    user_stack_base = if p == 4104 then 8200 else 0;
  };
  ready_queue = record { front = some 8; rear = some 8 };
  current_process = some 4104;
  process_table_head = none;
  next_pid = 3;
}

runs_at : (c : ℕ) → ◌≡◌ {A = Option ℕ} (some 4104) (some c) → c ≡ 4104
runs_at c e = cc

pub two_processes-IsKernel : IsKernel two_processes (8 ∷ [])
two_processes-IsKernel = record {
  is_ready = record {
    queue = record { chain = (refl, refl); rear = refl; distinct = (tt, tt); sorted = (tt, tt) };
    states = (refl, tt);
    live = ((omega arith, λ e. omega (arith, e)), tt);
    parents = λ a p e. absurd (none-some p e);
  };
  current = λ c e. rw (runs_at c e) ((omega arith, λ e. omega (arith, e)), λ e. omega (arith, e));
}

schedule-Scheduled_example :
    Returns
      (Scheduled two_processes (waiting two_processes two_processes.current_process (8 ∷ [])))
      (schedule 5 20000 two_processes)
schedule-Scheduled_example =
    schedule-Scheduled 5 20000 two_processes (8 ∷ []) two_processes-IsKernel (omega arith)

create_process-Created_example :
    Ends
      (Overhangs two_processes.memory)
      (Created two_processes (8 ∷ []) (7, (pos 2, (pos 0, pos 0))) 65536)
      (create_process 5 7 65536 (pos 2) (pos 0) (pos 0) two_processes)
create_process-Created_example =
    create_process-Created 5 7 65536 (pos 2) (pos 0) (pos 0) (8 ∷ []) (omega arith) two_processes
      two_processes-IsKernel

-- The process that is ready goes before the one that ran.
the_more_urgent : waiting two_processes (some 4104) (8 ∷ []) ≡ 8 ∷ 4104 ∷ []
unfolding insert
the_more_urgent = refl
