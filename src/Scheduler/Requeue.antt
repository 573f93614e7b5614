-- ===== src/Scheduler/Requeue.antt =====
-- The running process of `schedule` in process/process.c goes back into the queue.
use apna_os.Prelude.{
  ℕ, ◌+◌, ◌<◌, ◌≡◌, refl, ◌≢◌, arith, Option, none, some, List, [], ◌∷◌, if◌then◌else◌, ◌==◌, ◌∙◌,
  ap, subst, ◌∉◌, length, update_self, update_ne, Bool-cases, inl, inr, fun_ext,
}
use apna_os.Prelude.Run
use apna_os.Prelude.Run.{Run, done, Returns, returns}
use apna_os.Prelude.Int.{ℤ, ltb_ℤ}
use apna_os.Process.{Pcb}
use apna_os.Process.Chain.{insert}
use apna_os.Scheduler.{
  Kernel, set_state, state_ready, state_running, Switch, to_process, to_child, requeue,
  enqueue_ready,
}
use apna_os.Scheduler.Invariant.{IsReady, IsKernel, change-IsReady, not-mem-AllReady, update-same}
use apna_os.Scheduler.Ready.{SameButLinks, priorities, enqueue_ready-IsReady}

-- The ready processes once the current one, if it runs, is back among them.
abbrev pub waiting : Kernel → Option ℕ → List ℕ → List ℕ
waiting k none ready = ready
waiting k (some c) ready =
    if (k.blocks c).state == state_running then insert (priorities k) c ready else ready

-- Where a process goes on.
abbrev pub entry : ℕ → Pcb → Switch
entry p b = if b.is_new_child then to_child p b.user_stack_ptr else to_process p b.user_stack_ptr

-- How a process stands.
abbrev pub standing : Pcb → ℕ × ℤ
standing b = (b.state, b.exit_status)

-- Blocks that say the same of where a process goes on.
abbrev pub SameEntries : Kernel → Kernel → Type 0
SameEntries k k' = (a : ℕ) → entry a (k'.blocks a) ≡ entry a (k.blocks a)

-- `ws` is ready after the process that ran is back.
pub record Requeued (k : Kernel) (ws : List ℕ) (k' : Kernel) : Type 0 where
  pub is_ready : IsReady k' ws
  pub memory : k'.memory ≡ k.memory
  pub current : k'.current_process ≡ k.current_process
  pub entries : SameEntries k k'
  pub rests : ws ≡ [] → k' ≡ k
  pub stay :
      (a : ℕ) → (k.blocks a).state ≢ state_running → standing (k'.blocks a) ≡ standing (k.blocks a)

insert-not-empty : (key : ℕ → ℤ) (p : ℕ) (xs : List ℕ) → insert key p xs ≢ []
unfolding insert
insert-not-empty key p [] = λ e. cc
insert-not-empty key p (x ∷ xs) = elim (Bool-cases (ltb_ℤ (key p) (key x))) [
  | inl t ↦ rw t (λ e. cc)
  | inr f ↦ rw f (λ e. cc)
]

-- Where a process goes on is not read from its link.
pub links-SameEntries : (k k' : Kernel) → SameButLinks k k' → SameEntries k k'
links-SameEntries k k' s a = ap (λ b. entry a b) (s.links a)

module _ (k : Kernel) (ready : List ℕ) (v : IsKernel k ready) (c : ℕ) where
  abbrev readied : Kernel
  readied = set_state c state_ready k

  -- Setting the state of a block that is not in the queue.
  set_state-IsReady : (s : ℕ) → c ∉ ready → IsReady (set_state c s k) ready
  set_state-IsReady s out =
      change-IsReady c (λ b. record b { state = s }) k ready out (v.is_ready.parents c) v.is_ready

  set_state-entries : (s : ℕ) → SameEntries k (set_state c s k)
  set_state-entries s a =
      update-same (entry a) k.blocks c (record (k.blocks c) { state = s }) refl a

  readied-priorities : priorities readied ≡ priorities k
  readied-priorities =
      fun_ext (
        update-same (λ b. b.priority) k.blocks c (record (k.blocks c) { state = state_ready }) refl)

  requeue-running :
      (fuel : ℕ)
      → length ready < fuel + 1
      → k.current_process ≡ some c
      → (k.blocks c).state ≡ state_running
      → Returns
          (λ _ k'. Requeued k (insert (priorities k) c ready) k')
          (enqueue_ready fuel c readied)
  requeue-running fuel bound e running =
      let (live, not_ready) = v.current c e in
      let out = not-mem-AllReady k.blocks c ready not_ready v.is_ready.states in
      let state =
        ap (λ b. b.state) (update_self k.blocks c (record (k.blocks c) { state = state_ready })) in
      Run.mono
        (enqueue_ready-IsReady fuel c readied ready (set_state-IsReady state_ready out) out state
          live bound)
        λ _ k' r. record {
          is_ready = subst (λ f. IsReady k' (insert f c ready)) readied-priorities (r.0);
          memory = r.1.memory;
          current = r.1.current;
          entries = λ a. links-SameEntries readied k' (r.1) a ∙ set_state-entries state_ready a;
          rests = λ e. absurd (insert-not-empty (priorities k) c ready e);
          stay = λ a ne.
              ap standing (r.1.links a)
              ∙ ap standing (
                  update_ne k.blocks c a (record (k.blocks c) { state = state_ready })
                    (λ same. ne (subst (λ j. (k.blocks j).state ≡ state_running) same running)));
        }

unchanged : (k : Kernel) (ready : List ℕ) → IsReady k ready → Requeued k ready k
unchanged k ready v = record {
  is_ready = v;
  memory = refl;
  current = refl;
  entries = λ a. refl;
  rests = λ e. refl;
  stay = λ a ne. refl;
}

pub requeue-Requeued :
    (fuel : ℕ) (k : Kernel) (ready : List ℕ) (cur : Option ℕ)
    → IsKernel k ready
    → length ready < fuel + 1
    → k.current_process ≡ cur
    → Returns (λ _ k'. Requeued k (waiting k cur ready) k') (requeue fuel cur k)
unfolding requeue
requeue-Requeued fuel k ready none v bound e = returns (unchanged k ready v.is_ready)
requeue-Requeued fuel k ready (some c) v bound e =
    elim (Bool-cases ((k.blocks c).state == state_running)) [
      | inl t ↦ rw t (requeue-running k ready v c fuel bound e (ground (arith, t)))
      | inr f ↦ rw f (returns (unchanged k ready v.is_ready))
    ]
