-- ===== src/Syscalls/Tests.antt =====
-- The system calls on concrete processes.
use apna_os.Prelude.{List, ◌≡◌, refl, arith, [], ◌∷◌, some, none, ◌==◌, if◌then◌else◌}
use apna_os.Prelude.Int.{pos}
use apna_os.Prelude.Run.{Returns, Ends}
use apna_os.Scheduler.Tests.{blank, two_processes, two_processes-IsKernel}
use apna_os.Scheduler.{Kernel}
use apna_os.Syscalls.Zombie.{Searched, search_list, child, crash, find_zombie_child-Searched}
use apna_os.Syscalls.{find_zombie_child, fork_syscall, exit_syscall}
use apna_os.Syscalls.Child.{Forked, CannotCopy}
use apna_os.Syscalls.Fork.{fork_syscall-Forked}
use apna_os.Syscalls.Exit.{Exited, woken, ended, exit_syscall-Exited}
use apna_os.Syscalls.Session.{
  creates, forks, yields, exits, perform_all, Call, Stops, IsSound, perform_all-IsSound,
}

fork_syscall-Forked_example :
    Ends
      (CannotCopy two_processes.memory 8200 0)
      (Forked two_processes (8 ∷ []) (3, (some 4104, pos 5)) 8200 20000)
      (fork_syscall 5 20000 two_processes)
fork_syscall-Forked_example =
    fork_syscall-Forked 5 (8 ∷ []) (omega arith) two_processes 4104 two_processes-IsKernel refl
      20000

exit_syscall-Exited_example :
    Returns
      (Exited two_processes 4104 (pos 9) (woken (ended 4104 (pos 9) two_processes) none (8 ∷ [])))
      (exit_syscall 5 20000 (pos 9) two_processes)
exit_syscall-Exited_example =
    exit_syscall-Exited 5 20000 two_processes (8 ∷ []) two_processes-IsKernel (omega arith) 4104
      refl (pos 9)

abbrev four_calls : List Call
four_calls =
    forks 20000
    ∷ creates 7 65536 (pos 2) (pos 0) (pos 0)
    ∷ yields 20000 30000
    ∷ exits 30000 (pos 0)
    ∷ []

perform_all-IsSound_example :
    Ends
      (Stops 5 four_calls two_processes)
      (λ _ k'. IsSound 6 k')
      (perform_all 5 four_calls two_processes)
perform_all-IsSound_example =
    perform_all-IsSound 5 four_calls two_processes (8 ∷ []) two_processes-IsKernel (omega arith)

-- The table has the zombie child at 12 of the process at 4104, which the shell created.
abbrev with_zombie : Kernel
with_zombie = record two_processes {
  blocks = λ p. record blank {
    pid = p;
    state = if p == 12 then 5 else 1;
    parent = if p == 12 then some 4104 else none;
    next_in_table = if p == 12 then some 4104 else none;
  };
  process_table_head = some 12;
}

find_zombie_child-Searched_example :
    Searched with_zombie (child 12 (4104 ∷ [])) (find_zombie_child 2 4104 with_zombie)
unfolding search_list
find_zombie_child-Searched_example =
    find_zombie_child-Searched 2 4104 (12 ∷ 4104 ∷ []) with_zombie (refl, (refl, refl))
      (((λ e. omega (arith, e)), tt), (tt, tt)) (omega arith)

-- Behind a process without a parent nothing is found.
search_list-orphan : search_list with_zombie.blocks 4104 (4104 ∷ 12 ∷ []) ≡ crash
unfolding search_list
search_list-orphan = refl
