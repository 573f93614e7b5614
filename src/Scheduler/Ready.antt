-- ===== src/Scheduler/Ready.antt =====
-- The ready queue of process/process.c at work: how a process enters it and leaves it.
use apna_os.Prelude.{
  ℕ, ◌+◌, ◌<◌, ◌≡◌, refl, Option, none, some, List, [], ◌∷◌, ◌∙◌, ap, sym, ◌∉◌, length,
}
use apna_os.Prelude.Int.{ℤ}
use apna_os.Prelude.Run.{Run, Returns, returns}
use apna_os.Process.{Queued, enqueue_process, dequeue_process}
use apna_os.Process.Chain.{insert}
use apna_os.Process.Links.{unlinked}
use apna_os.Process.Insert.{enqueue_by-Enqueued}
use apna_os.Process.Serve.{Dequeued, empty, first, dequeue_process-Dequeued}
use apna_os.Scheduler.{
  Kernel, queued, with_queued, enqueue_done, enqueue_ready, dequeue_ready, state_ready,
}
use apna_os.Scheduler.Live.{Live}
use apna_os.Scheduler.Invariant.{
  priority_of, IsReady, AllReady-links, AllReady-insert, AllLive-insert,
}

-- Two states that differ in the queue and its links alone.
pub record SameButLinks (k k' : Kernel) : Type 0 where
  pub links : (a : ℕ) → unlinked (k'.blocks a) ≡ unlinked (k.blocks a)
  pub memory : k'.memory ≡ k.memory
  pub current : k'.current_process ≡ k.current_process
  pub table : k'.process_table_head ≡ k.process_table_head

abbrev pub priorities : Kernel → ℕ → ℤ
priorities k a = (k.blocks a).priority

enqueue_done-Returns :
    {P : Unit {0} → Queued → Type 0} {Q : Unit {0} → Kernel → Type 0} (k : Kernel)
    {r : Run Queued (Unit {0})}
    → Returns P r
    → ((u : Unit {0}) (q : Queued) → P u q → Q u (with_queued k q))
    → Returns Q (enqueue_done k r)
unfolding enqueue_done
enqueue_done-Returns k (returns p) next = returns (next tt _ p)

-- A ready process that was not in the queue.
pub enqueue_ready-IsReady :
    (fuel p : ℕ) (k : Kernel) (ready : List ℕ)
    → IsReady k ready
    → p ∉ ready
    → (k.blocks p).state ≡ state_ready
    → Live k.memory p
    → length ready < fuel + 1
    → Returns
        (λ _ k'. IsReady k' (insert (priorities k) p ready) × SameButLinks k k')
        (enqueue_ready fuel p k)
unfolding enqueue_ready enqueue_process
enqueue_ready-IsReady fuel p k ready v out state l bound =
    enqueue_done-Returns k
      (enqueue_by-Enqueued priority_of (λ b n. refl) fuel p ready (queued k) v.queue out bound)
      λ _ q r. (
        record {
          queue = r.queue;
          states =
              AllReady-links k.blocks q.blocks (insert (priorities k) p ready) r.links
                (AllReady-insert (priorities k) k.blocks p ready state v.states);
          live = AllLive-insert (priorities k) k.memory p ready l v.live;
          parents = λ a d e. v.parents a d (sym (ap (λ b. b.parent) (r.links a)) ∙ e);
        },
        record { links = r.links; memory = refl; current = refl; table = refl },
      )

-- What `dequeue_process(&ready_queue)` gives.
pub data Taken (k : Kernel) : List ℕ → Option ℕ → Kernel → Type 0 where
  idle : Taken k [] none k
  taken :
      (x : ℕ) (xs : List ℕ) {k' : Kernel}
      → IsReady k' xs
      → SameButLinks k k'
      → x ∉ xs
      → Live k.memory x
      → Taken k (x ∷ xs) (some x) k'

Dequeued-Taken :
    (k : Kernel) (ready : List ℕ) (r : Option ℕ × Queued)
    → IsReady k ready
    → Dequeued priority_of (queued k) ready r
    → Taken k ready r.0 (with_queued k r.1)
Dequeued-Taken k _ _ v empty = idle
Dequeued-Taken k _ _ v (first x xs {q' = q} vq cleared links others) =
    taken x xs
      (record {
        queue = vq;
        states = AllReady-links k.blocks q.blocks xs links v.states.1;
        live = v.live.1;
        parents = λ a d e. v.parents a d (sym (ap (λ b. b.parent) (links a)) ∙ e);
      })
      (record { links = links; memory = refl; current = refl; table = refl }) (v.queue.distinct.0)
      (v.live.0)

pub dequeue_ready-Taken :
    (k : Kernel) (ready : List ℕ) → IsReady k ready → Returns (Taken k ready) (dequeue_ready k)
unfolding dequeue_ready
dequeue_ready-Taken k ready v = returns (
    Dequeued-Taken k ready (dequeue_process (queued k)) v
      (dequeue_process-Dequeued priority_of (λ b n. refl) ready (queued k) v.queue))
