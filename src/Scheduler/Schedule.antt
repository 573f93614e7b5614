-- ===== src/Scheduler/Schedule.antt =====
-- `schedule` of process/process.c picks the first of the ready processes.
use apna_os.Prelude.{
  ℕ, ◌+◌, ◌<◌, ◌≡◌, refl, ◌≢◌, arith, Option, none, some, List, [], ◌∷◌, false, ◌∙◌, ap, sym, subst,
  length, update_self, update_ne, Bool-cases, inl, inr,
}
use apna_os.Prelude.Run
use apna_os.Prelude.Run.{Run, done, Returns, returns}
use apna_os.Process.{Pcb}
use apna_os.Scheduler.{
  Kernel, change, set_state, state_ready, state_running, Switch, to_cli, save_stack, switch_to,
  schedule,
}
use apna_os.Scheduler.Live.{Live}
use apna_os.Scheduler.Invariant.{
  IsReady, IsKernel, IsReady-same, SameCores-all, change-IsReady, kept-IsReady, core, update-same,
}
use apna_os.Scheduler.Ready.{Taken, idle, taken, dequeue_ready-Taken}
use apna_os.Scheduler.Requeue.{
  waiting, entry, standing, SameEntries, links-SameEntries, Requeued, requeue-Requeued,
}

-- The processes that did not run and are not `x` stand as before.
abbrev pub OthersStay : ℕ → Kernel → Kernel → Type 0
OthersStay x k k' =
    (a : ℕ)
    → (k.blocks a).state ≢ state_running
    → a ≢ x
    → standing (k'.blocks a) ≡ standing (k.blocks a)

-- What `schedule` comes to, for the ready processes with the one that ran.
pub data Scheduled (k : Kernel) : List ℕ → Switch → Kernel → Type 0 where
  idles : IsKernel k [] → Scheduled k [] to_cli k
  runs :
      (x : ℕ) (xs : List ℕ) {k' : Kernel}
      → IsKernel k' xs
      → k'.current_process ≡ some x
      → (k'.blocks x).state ≡ state_running
      → (k'.blocks x).is_new_child ≡ false
      → OthersStay x k k'
      → Scheduled k (x ∷ xs) (entry x (k.blocks x)) k'

-- A process that is to run, on its way out of the queue.
record IsNext (k : Kernel) (x : ℕ) (xs : List ℕ) : Type 0 where
  is_ready : IsReady k xs
  live : Live k.memory x
  state : (k.blocks x).state ≡ state_running

-- A change to what neither the queue nor the states are read from.
change-IsNext :
    (p : ℕ) (f : Pcb → Pcb) (k : Kernel) (x : ℕ) (xs : List ℕ)
    → core (f (k.blocks p)) ≡ core (k.blocks p)
    → (f (k.blocks p)).parent ≡ (k.blocks p).parent
    → IsNext k x xs
    → IsNext (change p f k) x xs
change-IsNext p f k x xs same parent v = record {
  is_ready = kept-IsReady p f k xs same parent v.is_ready;
  live = v.live;
  state = ap (λ t. t.1.1) (update-same core k.blocks p (f (k.blocks p)) same x) ∙ v.state;
}

save_stack-IsNext :
    (esp : ℕ) (cur : Option ℕ) (k : Kernel) (x : ℕ) (xs : List ℕ)
    → IsNext k x xs
    → IsNext (save_stack esp cur k) x xs
save_stack-IsNext esp none k x xs v = v
save_stack-IsNext esp (some c) k x xs v =
    change-IsNext c (λ b. record b { kernel_stack_ptr = esp }) k x xs refl refl v

save_stack-entries : (esp : ℕ) (cur : Option ℕ) (k : Kernel) → SameEntries k (save_stack esp cur k)
save_stack-entries esp none k a = refl
save_stack-entries esp (some c) k a =
    update-same (entry a) k.blocks c (record (k.blocks c) { kernel_stack_ptr = esp }) refl a

save_stack-standing :
    (esp : ℕ) (cur : Option ℕ) (k : Kernel) (a : ℕ)
    → standing ((save_stack esp cur k).blocks a) ≡ standing (k.blocks a)
save_stack-standing esp none k a = refl
save_stack-standing esp (some c) k a =
    update-same standing k.blocks c (record (k.blocks c) { kernel_stack_ptr = esp }) refl a

-- `current_process = x`
current-IsKernel :
    (k : Kernel) (x : ℕ) (xs : List ℕ)
    → IsNext k x xs
    → IsKernel (record k { current_process = some x }) xs
current-IsKernel k x xs v = record {
  is_ready =
      IsReady-same k (record k { current_process = some x }) xs refl
        (SameCores-all k.blocks k.blocks xs (λ a. refl)) (λ a l. l) v.is_ready.parents v.is_ready;
  current = λ c e.
      let same : x ≡ c = cc in
      subst (λ c. Live k.memory c × ((k.blocks c).state ≢ state_ready)) same
        (v.live, λ z. omega (arith, z, v.state));
}

module _ (k : Kernel) where
  -- The jump to `x`: to a new child, whose flag is cleared, or to a process that ran before.
  switch_to-runs :
      (esp x : ℕ) (xs : List ℕ) (k' : Kernel)
      → SameEntries k k'
      → ((a : ℕ)
          → (k.blocks a).state ≢ state_running
          → standing (k'.blocks a) ≡ standing (k.blocks a))
      → IsNext (save_stack esp k'.current_process (set_state x state_running k')) x xs
      → Returns (Scheduled k (x ∷ xs)) (switch_to esp (some x) k')
  unfolding switch_to
  switch_to-runs esp x xs k' entries stay v =
      let k0 = set_state x state_running k' in
      let k1 = save_stack esp k'.current_process k0 in
      let same : entry x (k1.blocks x) ≡ entry x (k.blocks x) =
        save_stack-entries esp k'.current_process k0 x
        ∙ update-same (entry x) k'.blocks x (record (k'.blocks x) { state = state_running }) refl x
        ∙ entries x in
      let others : OthersStay x k k1 = λ a ne apart.
        save_stack-standing esp k'.current_process k0 a
        ∙ ap standing (
            update_ne k'.blocks x a (record (k'.blocks x) { state = state_running })
              (λ e. apart (sym e)))
        ∙ stay a ne in
      elim (Bool-cases ((k1.blocks x).is_new_child)) [
        | inl t ↦
            let clear = λ (b : Pcb). record b { is_new_child = false } in
            let v' = change-IsNext x clear k1 x xs refl refl v in
            rw t (
              returns (
                subst
                  (λ sw.
                    Scheduled k (x ∷ xs) sw
                      (record (change x clear k1) { current_process = some x }))
                  (sym same ∙ rw t)
                  (runs x xs (current-IsKernel (change x clear k1) x xs v') refl v'.state
                    (ap (λ b. b.is_new_child) (update_self k1.blocks x (clear (k1.blocks x))))
                    (λ a ne apart.
                      update-same standing k1.blocks x (clear (k1.blocks x)) refl a
                      ∙ others a ne apart))))
        | inr f ↦ rw f (
            returns (
              subst (λ sw. Scheduled k (x ∷ xs) sw (record k1 { current_process = some x }))
                (sym same ∙ rw f) (runs x xs (current-IsKernel k1 x xs v) refl v.state f others)))
      ]

  switch_to-Scheduled :
      (esp : ℕ) (ws : List ℕ) (next : Option ℕ) (k1 k2 : Kernel)
      → ((c : ℕ)
          → k.current_process ≡ some c
          → Live k.memory c × ((k.blocks c).state ≢ state_ready))
      → Requeued k ws k1
      → Taken k1 ws next k2
      → Returns (Scheduled k ws) (switch_to esp next k2)
  unfolding switch_to
  switch_to-Scheduled esp _ _ k1 _ cur r idle = returns (
      subst (λ k'. Scheduled k [] to_cli k') (sym (r.rests refl))
        (idles (record {
          is_ready = subst (λ k'. IsReady k' []) (r.rests refl) r.is_ready;
          current = cur;
        })))
  switch_to-Scheduled esp _ _ k1 _ cur r (taken x xs {k' = k2} v s out live) =
      let f = λ (b : Pcb). record b { state = state_running } in
      switch_to-runs esp x xs k2 (λ a. links-SameEntries k1 k2 s a ∙ r.entries a)
        (λ a ne. ap standing (s.links a) ∙ r.stay a ne)
        (save_stack-IsNext esp k2.current_process (change x f k2) x xs (record {
          is_ready = change-IsReady x f k2 xs out (v.parents x) v;
          live = subst (λ m. Live m x) (sym s.memory) live;
          state = ap (λ b. b.state) (update_self k2.blocks x (f (k2.blocks x)));
        }))

-- If the ready queue stands for a list in the order of the priorities whose processes are ready and
-- in use, every parent is in use, and the current process, if there is one, is in use and not ready,
-- then `schedule` ends
-- with as much fuel as processes are ready. The current process, if it runs, goes back behind those
-- of no larger priority number. If none is ready then, `schedule` leaves to the shell and nothing
-- changed. Else it leaves to the first of them, at its saved stack, a new child as such and once
-- only; that process is current and running, the queue stands for the rest, and the others that did
-- not run keep their state and exit status. What is assumed of the queue and the current process
-- holds again in both cases.
pub schedule-Scheduled :
    (fuel esp : ℕ) (k : Kernel) (ready : List ℕ)
    → IsKernel k ready
    → length ready < fuel + 1
    → Returns (Scheduled k (waiting k k.current_process ready)) (schedule fuel esp k)
unfolding schedule
schedule-Scheduled fuel esp k ready v bound =
    let ws = waiting k k.current_process ready in
    Run.bind (requeue-Requeued fuel k ready k.current_process v bound refl) λ _ k1 r.
      Run.bind (dequeue_ready-Taken k1 ws r.is_ready)
        λ next k2 t. switch_to-Scheduled k esp ws next k1 k2 v.current r t
