-- ===== src/Syscalls/Exit.antt =====
-- `exit_syscall` and `yield_syscall` of process/syscall.c leave to the next process.
use apna_os.Prelude.{
  ℕ, ◌+◌, ◌<◌, ◌≡◌, refl, ◌≢◌, arith, Option, none, some, List, [], ◌∷◌, ◌∙◌, ap, sym, subst,
  length, update_self, update_ne, ◌==◌, if◌then◌else◌, false, Bool-cases, inl, inr, fun_ext,
}
use apna_os.Prelude.Int.{ℤ}
use apna_os.Prelude.Run
use apna_os.Prelude.Run.{Returns, returns}
use apna_os.Process.{Pcb}
use apna_os.Process.Chain.{insert}
use apna_os.Scheduler.{
  Kernel, change, set_state, state_ready, state_running, state_blocked, state_zombie, enqueue_ready,
  schedule, Switch, to_cli,
}
use apna_os.Scheduler.Live.{Live}
use apna_os.Scheduler.Invariant.{
  update-same, IsKernel, not-mem-AllReady, change-IsReady, length-insert,
}
use apna_os.Scheduler.Ready.{priorities}
use apna_os.Scheduler.Pending.{IsPending, change-IsPending, enqueue_ready-IsKernel}
use apna_os.Scheduler.Requeue.{waiting, standing, entry, SameEntries, links-SameEntries}
use apna_os.Scheduler.Schedule.{Scheduled, idles, runs, schedule-Scheduled}
use apna_os.Syscalls.{wake, exit_from, exit_syscall}

-- The ready processes once a parent that waits is woken.
abbrev pub woken : Kernel → Option ℕ → List ℕ → List ℕ
woken k none ready = ready
woken k (some parent) ready =
    if (k.blocks parent).state == state_blocked then insert (priorities k) parent ready else ready

-- The wake of a parent.
record Wakes (k : Kernel) (ws : List ℕ) (k' : Kernel) : Type 0 where
  kernel : IsKernel k' ws
  current : k'.current_process ≡ k.current_process
  entries : SameEntries k k'
  stay :
      (a : ℕ) → (k.blocks a).state ≢ state_blocked → standing (k'.blocks a) ≡ standing (k.blocks a)

module _ (k : Kernel) (ready : List ℕ) (v : IsKernel k ready)
    (busy : (c : ℕ) → k.current_process ≡ some c → (k.blocks c).state ≢ state_blocked) where
  blocked-IsPending :
      (p : ℕ) → Live k.memory p → (k.blocks p).state ≡ state_blocked → IsPending k p ready
  blocked-IsPending p live blocked = record {
    kernel = v;
    out = not-mem-AllReady k.blocks p ready (λ z. omega (arith, z, blocked)) v.is_ready.states;
    live = live;
    apart = λ c e same. busy c e (subst (λ j. (k.blocks j).state ≡ state_blocked) same blocked);
  }

  wake-blocked :
      (fuel p : ℕ)
      → length ready < fuel + 1
      → Live k.memory p
      → (k.blocks p).state ≡ state_blocked
      → Returns
          (λ _ k'. Wakes k (insert (priorities k) p ready) k')
          (enqueue_ready fuel p (set_state p state_ready k))
  wake-blocked fuel p bound live blocked =
      let f = λ (b : Pcb). record b { state = state_ready } in
      let k1 = change p f k in
      let v1 =
        change-IsPending p f k ready (v.is_ready.parents p) (blocked-IsPending p live blocked) in
      let state = ap (λ b. b.state) (update_self k.blocks p (f (k.blocks p))) in
      Run.mono (enqueue_ready-IsKernel fuel p k1 ready v1 state bound) λ _ k' (r, s).
        let keys : priorities k' ≡ priorities k = fun_ext λ a.
          ap (λ b. b.priority) (s.links a)
          ∙ update-same (λ b. b.priority) k.blocks p (f (k.blocks p)) refl a in
        record {
          kernel = subst (λ key. IsKernel k' (insert key p ready)) keys r;
          current = s.current;
          entries = λ a.
              links-SameEntries k1 k' s a
              ∙ update-same (entry a) k.blocks p (f (k.blocks p)) refl a;
          stay = λ a ne.
              ap standing (s.links a)
              ∙ ap standing (
                  update_ne k.blocks p a (f (k.blocks p))
                    (λ same. ne (subst (λ j. (k.blocks j).state ≡ state_blocked) same blocked)));
        }

  wake-Wakes :
      (fuel : ℕ) (parent : Option ℕ)
      → length ready < fuel + 1
      → ((p : ℕ) → parent ≡ some p → Live k.memory p)
      → Returns (λ _ k'. Wakes k (woken k parent ready) k') (wake fuel parent k)
  unfolding wake
  wake-Wakes fuel none bound live =
      returns (record { kernel = v; current = refl; entries = λ a. refl; stay = λ a ne. refl })
  wake-Wakes fuel (some p) bound live = elim (Bool-cases ((k.blocks p).state == state_blocked)) [
    | inl t ↦ rw t (wake-blocked fuel p bound (live p refl) (ground (arith, t)))
    | inr f ↦
        rw f (
          returns (record { kernel = v; current = refl; entries = λ a. refl; stay = λ a ne. refl }))
  ]

-- The process that exits, as a zombie.
abbrev pub ended : ℕ → ℤ → Kernel → Kernel
ended proc status = change proc (λ b. record b { exit_status = status; state = state_zombie })

-- What `exit_syscall` comes to, for the ready processes with the woken parent.
pub data Exited (k : Kernel) (proc : ℕ) (status : ℤ)
    : List ℕ → Option Switch → Kernel → Type 0 where
  to_shell :
      {k' : Kernel}
      → IsKernel k' []
      → standing (k'.blocks proc) ≡ (state_zombie, status)
      → Exited k proc status [] (some to_cli) k'
  to_next :
      (x : ℕ) (xs : List ℕ) {k' : Kernel}
      → IsKernel k' xs
      → k'.current_process ≡ some x
      → (k'.blocks x).state ≡ state_running
      → standing (k'.blocks proc) ≡ (state_zombie, status)
      → Exited k proc status (x ∷ xs) (some (entry x (k.blocks x))) k'

Scheduled-Exited :
    (k k2 k' : Kernel) (proc : ℕ) (status : ℤ) (ws : List ℕ) (sw : Switch)
    → IsKernel k2 ws
    → SameEntries k k2
    → standing (k2.blocks proc) ≡ (state_zombie, status)
    → Scheduled k2 ws sw k'
    → Exited k proc status ws (some sw) k'
Scheduled-Exited k k2 _ proc status _ _ v entries zombie (idles v') = to_shell v' zombie
Scheduled-Exited k k2 k' proc status _ _ v entries zombie (runs x xs v' cur running old stay) =
    let is_zombie = ap (λ t. t.0) zombie in
    let apart : proc ≢ x = λ e. omega (
      arith,
      is_zombie,
      subst (λ j. (k2.blocks j).state ≡ state_ready) (sym e) (v.is_ready.states.0),
    ) in
    subst (λ s. Exited k proc status (x ∷ xs) (some s) k') (sym (entries x))
      (to_next x xs v' cur running (stay proc (λ z. omega (arith, is_zombie, z)) apart ∙ zombie))

-- A current process that does not run stays out of the queue.
waiting-rests :
    (k : Kernel) (c : ℕ) (ready : List ℕ)
    → (k.blocks c).state ≢ state_running
    → waiting k (some c) ready ≡ ready
waiting-rests k c ready ne =
    let f : ((k.blocks c).state == state_running) ≡ false = ground (arith, ne) in rw f refl

pub woken-length :
    (k : Kernel) (parent : Option ℕ) (ready : List ℕ)
    → length (woken k parent ready) < length ready + 2
woken-length k none ready = omega arith
woken-length k (some p) ready = elim (Bool-cases ((k.blocks p).state == state_blocked)) [
  | inl t ↦ rw (t, length-insert (priorities k) p ready) (omega arith)
  | inr f ↦ rw f (omega arith)
]

module _ (fuel esp : ℕ) (k : Kernel) (ready : List ℕ) (v : IsKernel k ready)
    (bound : length ready + 1 < fuel + 1) (proc : ℕ) (e : k.current_process ≡ some proc) where
  ended-IsKernel : (status : ℤ) → IsKernel (ended proc status k) ready
  ended-IsKernel status =
      let f = λ (b : Pcb). record b { exit_status = status; state = state_zombie } in
      let out = not-mem-AllReady k.blocks proc ready ((v.current proc e).1) v.is_ready.states in
      record {
        is_ready = change-IsReady proc f k ready out (v.is_ready.parents proc) v.is_ready;
        current =
            λ c e'. ((v.current c e').0, λ z. omega (arith, z, is_zombie c (sym e ∙ e') status));
      }
    where
      is_zombie :
          (c : ℕ)
          → some proc ≡ some c
          → (status : ℤ) → ((ended proc status k).blocks c).state ≡ state_zombie
      is_zombie c same status =
          let same' : proc ≡ c = cc in
          subst (λ j. ((ended proc status k).blocks j).state ≡ state_zombie) same'
            (ap (λ b. b.state)
              (update_self k.blocks proc
                (record (k.blocks proc) { exit_status = status; state = state_zombie })))

  -- Where the queue stands for a list of ready processes in the order of the priorities, these and
  -- every parent pointer lead to blocks in use, the current process, which there is, is in use and not
  -- ready, and the fuel is enough for one more process than are ready, `exit_syscall` ends and leaves
  -- to the first of the ready processes, among which is then the parent if it was blocked, or to the
  -- shell if there is none. The process that exits is a zombie with its status, the one that follows
  -- is current and running, the queue stands for the others, and what is assumed of the kernel holds
  -- again. A parent that `wait_syscall` has freed before its child ends is outside of this.
  pub exit_syscall-Exited :
      (status : ℤ)
      → Returns
          (Exited k proc status (woken (ended proc status k) ((k.blocks proc).parent) ready))
          (exit_syscall fuel esp status k)
  unfolding exit_syscall exit_from
  exit_syscall-Exited status =
      let k1 = ended proc status k in
      let v1 = ended-IsKernel status in
      let parent = (k.blocks proc).parent in
      let ws = woken k1 parent ready in
      let zombie = ap standing (
        update_self k.blocks proc
          (record (k.blocks proc) { exit_status = status; state = state_zombie })) in
      let dead = ap (λ t. t.0) zombie in
      let busy : (c : ℕ) → k1.current_process ≡ some c → (k1.blocks c).state ≢ state_blocked =
        λ c e'.
          let same : proc ≡ c = cc in
          subst (λ j. (k1.blocks j).state ≢ state_blocked) same (λ z. omega (arith, z, dead)) in
      subst (λ c. Returns (Exited k proc status ws) (exit_from fuel esp status c k)) (sym e)
        (Run.bind
          (wake-Wakes k1 ready v1 busy fuel parent (omega (arith, bound)) (v.is_ready.parents proc))
          λ _ k2 w.
            let zombie2 = w.stay proc (λ z. omega (arith, z, dead)) ∙ zombie in
            let dead2 = ap (λ t. t.0) zombie2 in
            let rests : waiting k2 k2.current_process ws ≡ ws =
              subst (λ c. waiting k2 c ws ≡ ws) (sym (w.current ∙ e))
                (waiting-rests k2 proc ws (λ z. omega (arith, z, dead2))) in
            let bound2 = woken-length k1 parent ready in
            let s = schedule-Scheduled fuel esp k2 ws w.kernel (omega (arith, bound, bound2)) in
            Run.bind (subst (λ l. Returns (Scheduled k2 l) (schedule fuel esp k2)) rests s)
              λ sw k3 r. returns (
                Scheduled-Exited k k2 k3 proc status ws sw w.kernel
                  (λ a.
                    w.entries a
                    ∙ update-same (entry a) k.blocks proc
                        (record (k.blocks proc) { exit_status = status; state = state_zombie }) refl
                        a)
                  zombie2 r))
