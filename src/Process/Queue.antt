-- ===== src/Process/Queue.antt =====
-- A queue of processes gives the most urgent one first.
use apna_os.Prelude.{
  ℕ, ◌≡◌, refl, ◌≢◌, true, none, some, update_self, update_ne, ap, subst, sym, ◌∙◌, Option,
}
use apna_os.Prelude.Int.{ltb_ℤ}
use apna_os.Prelude.Run.{Returns, returns}
use apna_os.Process.{
  ProcessQueue, serve, set_front, Queued, set_next, enter, enqueue_by, enqueue_process,
  dequeue_process,
}

dequeue-next :
    (q : Queued) (process second : ℕ)
    → q.queue.front ≡ some process
    → (q.blocks process).next ≡ some second
    → ((dequeue_process q).0 ≡ some process)
      × ((dequeue_process q).1.queue ≡ record { front = some second; rear = q.queue.rear })
unfolding dequeue_process serve
dequeue-next q process second front next =
    subst
      (λ f.
        ((serve q f).0 ≡ some process)
        × ((serve q f).1.queue ≡ record { front = some second; rear = q.queue.rear }))
      (sym front) (refl, rw (next, serve))

-- If the process in front has a larger priority number than another, then `enqueue_process` of that
-- one, which need not go through the queue, puts it in front of all: `dequeue_process` returns it,
-- and the queue's front and rear are as before both calls.
pub enqueue-dequeue_urgent :
    (fuel process first : ℕ) (q : Queued)
    → q.queue.front ≡ some first
    → process ≢ first
    → ltb_ℤ ((q.blocks process).priority) ((q.blocks first).priority) ≡ true
    → Returns
        (λ _ q'. ((dequeue_process q').0 ≡ some process) × ((dequeue_process q').1.queue ≡ q.queue))
        (enqueue_process fuel process q)
unfolding enqueue_process enqueue_by enter
enqueue-dequeue_urgent fuel process first q front apart urgent =
    let mine =
      ap (λ b. b.priority)
        (update_self q.blocks process (record (q.blocks process) { next = none })) in
    let other =
      ap (λ b. b.priority)
        (update_ne q.blocks process first (record (q.blocks process) { next = none }) apart) in
    let q0 = set_next process none q in
    let back =
      ap (λ b. b.next)
        (update_self q0.blocks process (record (q0.blocks process) { next = some first })) in
    let test : ltb_ℤ ((q0.blocks process).priority) ((q0.blocks first).priority) ≡ true =
      rw (mine, other) urgent in
    subst
      (λ f.
        Returns
          (λ _ q'.
            ((dequeue_process q').0 ≡ some process) × ((dequeue_process q').1.queue ≡ q.queue))
          (enter (λ p. p.priority) fuel process q0 f))
      (sym front)
      (let (got, left) =
          dequeue-next (set_front (some process) (set_next process (some first) q0)) process first
            refl back in
        rw test (returns (got, left ∙ ap with_front (sym front))))
  where
    with_front : Option ℕ → ProcessQueue
    with_front f = record { front = f; rear = q.queue.rear }
