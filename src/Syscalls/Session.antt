-- ===== src/Syscalls/Session.antt =====
-- Processes that are created, fork, yield and exit one after another, in any order.
use apna_os.Prelude.{
  none-some, ℕ, ◌+◌, ◌<◌, ◌≡◌, refl, arith, Option, none, some, List, [], ◌∷◌, Option-cases, ◌⊎◌,
  inl, inr, subst, sym, ◌∙◌, length, ◌==◌, Bool-cases,
}
use apna_os.Prelude.Int.{ℤ}
use apna_os.Prelude.Run
use apna_os.Prelude.Run.{
  Run, Cmd, done, pure, ◌>>=◌, ◌>>◌, Returns, returns, Ends, ends, stops, Returns-Ends, mono-Ends,
  bind-Ends,
}
use apna_os.Process.Chain.{insert}
use apna_os.Scheduler.{
  Kernel, state_running, Switch, create_process, init_process_management, change,
}
use apna_os.Scheduler.Invariant.{IsKernel, length-insert}
use apna_os.Scheduler.Ready.{priorities}
use apna_os.Scheduler.Pending.{kept-IsKernel}
use apna_os.Scheduler.Create.{Created, failed, created, Overhangs, create_process-Created}
use apna_os.Scheduler.Requeue.{waiting}
use apna_os.Scheduler.Schedule.{Scheduled, idles, runs, schedule-Scheduled}
use apna_os.Syscalls.{fork_from, fork_syscall, exit_from, exit_syscall, yield_from, yield_syscall}
use apna_os.Syscalls.Child.{Forked, childless, forked, CannotCopy}
use apna_os.Syscalls.Fork.{fork_syscall-Forked}
use apna_os.Syscalls.Exit.{
  Exited, to_shell, to_next, exit_syscall-Exited, woken, ended, woken-length,
}

-- A call with its arguments and the registers that it reads.
pub data Call : Type 0 where
  creates : ℕ → ℕ → ℤ → ℤ → ℤ → Call
  forks : ℕ → Call
  yields : ℕ → ℕ → Call
  exits : ℕ → ℤ → Call

-- Its result is dropped.
unfoldable pub perform : ℕ → Call → Cmd Kernel (Unit {0})
perform fuel (creates pid entry_point priority deadline time_to_run) =
    create_process fuel pid entry_point priority deadline time_to_run >> pure tt
perform fuel (forks stack_ptr) = fork_syscall fuel stack_ptr >> pure tt
perform fuel (yields stack_ptr esp) = yield_syscall fuel stack_ptr esp >> pure tt
perform fuel (exits esp status) = exit_syscall fuel esp status >> pure tt

unfoldable pub perform_all : ℕ → List Call → Cmd Kernel (Unit {0})
perform_all fuel [] = pure tt
perform_all fuel (call ∷ calls) = perform fuel call >> perform_all fuel calls

-- The kernel is sound, with fewer than `n` processes ready.
pub record IsSound (n : ℕ) (k : Kernel) : Type 0 where
  pub ready : List ℕ
  pub kernel : IsKernel k ready
  pub few : length ready < n

same-IsSound :
    {n : ℕ} {k : Kernel} (ready : List ℕ) → IsKernel k ready → length ready < n → IsSound n k
same-IsSound ready v few = record { ready = ready; kernel = v; few = few }

insert-IsSound :
    {k : Kernel} (p : ℕ) (ready : List ℕ)
    → IsKernel k (insert (priorities k) p ready)
    → IsSound (length ready + 2) k
insert-IsSound {k} p ready v =
    same-IsSound (insert (priorities k) p ready) v
      (rw (length-insert (priorities k) p ready) (omega arith))

module _ (ready : List ℕ) (k : Kernel) where
  pub Created-IsSound :
      (asked : ℕ × (ℤ × (ℤ × ℤ))) (entry_point : ℕ) (r : Option ℕ) (k' : Kernel)
      → Created k ready asked entry_point r k'
      → IsSound (length ready + 2) k'
  Created-IsSound asked entry_point _ k' (failed v) = same-IsSound ready v (omega arith)
  Created-IsSound asked entry_point _ k' (created p base free v is stack table cur) =
      insert-IsSound p ready v

  Forked-IsSound :
      (l : ℕ × (Option ℕ × ℤ)) (src stack_ptr : ℕ) (r : Option ℕ) (k' : Kernel)
      → Forked k ready l src stack_ptr r k'
      → IsSound (length ready + 2) k'
  Forked-IsSound l src stack_ptr _ k' (childless v) = same-IsSound ready v (omega arith)
  Forked-IsSound l src stack_ptr _ k' (forked child base free v is copy new table cur) =
      insert-IsSound child ready v

  pub Scheduled-IsSound :
      (ws : List ℕ) (sw : Switch) (k' : Kernel)
      → length ws < length ready + 2
      → Scheduled k ws sw k'
      → IsSound (length ready + 2) k'
  Scheduled-IsSound _ _ _ few (idles v) = same-IsSound [] v few
  Scheduled-IsSound _ _ k' few (runs x xs v cur running old stay) =
      same-IsSound xs v (omega (arith, few))

  Exited-IsSound :
      (proc : ℕ) (status : ℤ) (ws : List ℕ) (sw : Option Switch) (k' : Kernel)
      → length ws < length ready + 2
      → Exited k proc status ws sw k'
      → IsSound (length ready + 2) k'
  Exited-IsSound proc status _ _ k' few (to_shell v zombie) = same-IsSound [] v few
  Exited-IsSound proc status _ _ k' few (to_next x xs v cur running zombie) =
      same-IsSound xs v (omega (arith, few))

pub waiting-length :
    (k : Kernel) (cur : Option ℕ) (ready : List ℕ) → length (waiting k cur ready) < length ready + 2
waiting-length k none ready = omega arith
waiting-length k (some c) ready = elim (Bool-cases ((k.blocks c).state == state_running)) [
  | inl t ↦ rw (t, length-insert (priorities k) c ready) (omega arith)
  | inr f ↦ rw f (omega arith)
]

-- Why a call leaves the memory: a creation has no room for its stack, a fork none for its copies.
abbrev pub Blocked : Kernel → Call → Type 0
Blocked k (creates pid entry_point priority deadline time_to_run) = Overhangs k.memory
Blocked k (forks stack_ptr) =
    (p : ℕ) × ((k.current_process ≡ some p)
      × CannotCopy k.memory (k.blocks p).user_stack_base (k.blocks p).cr3)
Blocked k (yields stack_ptr esp) = ⊥
Blocked k (exits esp status) = ⊥

-- One of the calls, reached by those before it, leaves the memory.
abbrev pub Stops : ℕ → List Call → Kernel → Type 0
Stops fuel [] k = ⊥
Stops fuel (call ∷ calls) k =
    Blocked k call ⊎ ((k' : Kernel) × ((perform fuel call k ≡ done tt k') × Stops fuel calls k'))

module _ (fuel : ℕ) (k : Kernel) (ready : List ℕ) (v : IsKernel k ready)
    (bound : length ready < fuel) where
  fork-IsSound :
      (stack_ptr : ℕ)
      → Ends
          (Blocked k (forks stack_ptr))
          (λ _ k'. IsSound (length ready + 2) k')
          (fork_syscall fuel stack_ptr k)
  unfolding fork_syscall fork_from
  fork-IsSound stack_ptr = elim (Option-cases k.current_process) [
    | inl e ↦
        subst
          (λ c.
            Ends (Blocked k (forks stack_ptr)) (λ _ k'. IsSound (length ready + 2) k')
              (fork_from fuel stack_ptr c k))
          (sym e) (ends (same-IsSound ready v (omega arith)))
    | inr (p, e) ↦
        mono-Ends (fork_syscall-Forked fuel ready (omega (arith, bound)) k p v e stack_ptr)
          (λ f. (p, (e, f)))
          λ r k'.
            Forked-IsSound ready k (k.next_pid, (some p, (k.blocks p).priority))
              (k.blocks p).user_stack_base stack_ptr r k'
  ]

  yield-IsSound :
      (stack_ptr esp : ℕ) (cur : Option ℕ)
      → Returns (λ _ k'. IsSound (length ready + 2) k') (yield_from fuel stack_ptr esp cur k)
  unfolding yield_from
  yield-IsSound stack_ptr esp none = returns (same-IsSound ready v (omega arith))
  yield-IsSound stack_ptr esp (some p) =
      let k1 = change p (λ b. record b { user_stack_ptr = stack_ptr }) k in
      let v1 = kept-IsKernel p (λ b. record b { user_stack_ptr = stack_ptr }) k ready refl refl v in
      let ws = waiting k1 k1.current_process ready in
      Run.bind (schedule-Scheduled fuel esp k1 ready v1 (omega (arith, bound))) λ sw k2 r.
        returns (Scheduled-IsSound ready k1 ws sw k2 (waiting-length k1 k1.current_process ready) r)

  exit-IsSound :
      (esp : ℕ) (status : ℤ)
      → Returns (λ _ k'. IsSound (length ready + 2) k') (exit_syscall fuel esp status k)
  unfolding exit_syscall exit_from
  exit-IsSound esp status = elim (Option-cases k.current_process) [
    | inl e ↦
        subst (λ c. Returns (λ _ k'. IsSound (length ready + 2) k') (exit_from fuel esp status c k))
          (sym e) (returns (same-IsSound ready v (omega arith)))
    | inr (p, e) ↦
        let k1 = ended p status k in
        Run.mono (exit_syscall-Exited fuel esp k ready v (omega (arith, bound)) p e status) λ sw k'.
          Exited-IsSound ready k p status (woken k1 ((k.blocks p).parent) ready) sw k'
            (woken-length k1 ((k.blocks p).parent) ready)
  ]

  perform-IsSound :
      (call : Call)
      → Ends (Blocked k call) (λ _ k'. IsSound (length ready + 2) k') (perform fuel call k)
  unfolding perform yield_syscall
  perform-IsSound (creates pid entry_point priority deadline time_to_run) =
      bind-Ends
        (create_process-Created fuel pid entry_point priority deadline time_to_run ready
          (omega (arith, bound)) k v)
        λ r k' _ c.
          ends
            (Created-IsSound ready k (pid, (priority, (deadline, time_to_run))) entry_point r k' c)
  perform-IsSound (forks stack_ptr) = bind-Ends (fork-IsSound stack_ptr) λ _ k' _ s. ends s
  perform-IsSound (yields stack_ptr esp) =
      Returns-Ends (Run.bind (yield-IsSound stack_ptr esp k.current_process) λ _ k' s. returns s)
  perform-IsSound (exits esp status) =
      Returns-Ends (Run.bind (exit-IsSound esp status) λ _ k' s. returns s)

-- Where the queue stands for a list of ready processes in the order of the priorities, these and every
-- parent are in use, the current process, if there is one, is in use and not ready, and the fuel is as
-- much as ready processes and calls together, processes are created, fork, yield and exit in any order.
-- All the calls end, and the same holds again, with at most `fuel` processes ready; or one of them,
-- which the calls before it lead to, leaves the memory, for one of two reasons. A creation gets a
-- stack that reaches past the end of `kernel_memory`; or a fork copies a stack, or page tables, that
-- start at the null pointer or do not lie in `kernel_memory`, or into a block that does not.
pub perform_all-IsSound :
    (fuel : ℕ) (calls : List Call) (k : Kernel) (ready : List ℕ)
    → IsKernel k ready
    → length ready + length calls < fuel + 1
    → Ends (Stops fuel calls k) (λ _ k'. IsSound (fuel + 1) k') (perform_all fuel calls k)
unfolding perform_all
perform_all-IsSound fuel [] k ready v bound = ends (same-IsSound ready v (omega (arith, bound)))
perform_all-IsSound fuel (call ∷ calls) k ready v bound =
    bind-Ends
      (mono-Ends (perform-IsSound fuel k ready v (omega (arith, bound)) call) (λ f. inl f)
        (λ _ _ s. s))
      λ _ k' e s.
        let few = s.few in
        mono-Ends (perform_all-IsSound fuel calls k' s.ready s.kernel (omega (arith, bound, few)))
          (λ f. inr (k', (e, f))) (λ _ _ s. s)

-- Where there is no process yet.
pub init_process_management-IsSound :
    (k : Kernel)
    → k.current_process ≡ none
    → ((a : ℕ) → (k.blocks a).parent ≡ none)
    → Returns (λ _ k'. IsKernel k' []) (init_process_management k)
unfolding init_process_management
init_process_management-IsSound k idle orphans = returns (record {
  is_ready = record {
    queue = record { chain = refl; rear = refl; distinct = tt; sorted = tt };
    states = tt;
    live = tt;
    parents = λ a p e. absurd (none-some p (sym (orphans a) ∙ e));
  };
  current = λ c e. absurd (none-some c (sym idle ∙ e));
})
