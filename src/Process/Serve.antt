-- ===== src/Process/Serve.antt =====
-- `dequeue_process` takes the first of the list that a queue stands for.
use apna_os.Prelude.{
  ℕ, ◌≡◌, refl, ◌≢◌, Option, none, some, List, [], ◌∷◌, sym, subst, ◌∙◌, if◌then◌else◌, Array,
  Bool-cases, inl, inr,
}
use apna_os.Prelude.Int.{ℤ}
use apna_os.Process.{Pcb, Queued, is_none, serve, dequeue_process}
use apna_os.Process.Chain.{Chain, IsQueue, Chain-frame, last, Sorted}
use apna_os.Process.Insert.{same_keys}
use apna_os.Process.Links.{unlinked, Linked, set_next-Linked}

-- What `dequeue_process` gives of a queue that stands for a list.
pub data Dequeued (key : Pcb → ℤ) (q : Queued) : List ℕ → Option ℕ × Queued → Type 0 where
  empty : Dequeued key q [] (none, q)
  first :
      (x : ℕ) (xs : List ℕ) {q' : Queued}
      → IsQueue key q' xs
      → (q'.blocks x).next ≡ none
      → ((a : ℕ) → unlinked (q'.blocks a) ≡ unlinked (q.blocks a))
      → ((a : ℕ) → a ≢ x → q'.blocks a ≡ q.blocks a)
      → Dequeued key q (x ∷ xs) (some x, q')

-- What `dequeue_process` does with the first block.
record Served (x : ℕ) (q q' : Queued) : Type 0 where
  front : q'.queue.front ≡ (q.blocks x).next
  rear : q'.queue.rear ≡ (if is_none (q.blocks x).next then none else q.queue.rear)
  cleared : Linked x none q.blocks q'.blocks

serve-Served : (x : ℕ) (q : Queued) → Served x q ((serve q (some x)).1)
unfolding serve
serve-Served x q = elim (Bool-cases (is_none (q.blocks x).next)) [
  | inl t ↦ rw t (record { front = refl; rear = rw t; cleared = set_next-Linked x none q })
  | inr f ↦ rw f (record { front = refl; rear = rw f; cleared = set_next-Linked x none q })
]

-- The end of a chain without its first block.
rest-last :
    (b : Array Pcb) (front : Option ℕ) (x : ℕ) (xs : List ℕ)
    → Chain b front xs
    → (if is_none front then none else last (x ∷ xs)) ≡ last xs
rest-last b front x [] e = rw e
rest-last b front x (y ∷ xs) (e, chain) = rw e

module _ (key : Pcb → ℤ)
    (blind : (b : Pcb) (n : Option ℕ) → key (record b { next = n }) ≡ key b) where
  -- `dequeue_process` of a queue that stands for a list, in the order of the keys, returns the null
  -- pointer and changes nothing if the list is empty. Else it returns the first block, the queue
  -- stands for the rest of the list, the link of the block is cleared, no other block changes, and
  -- of that one nothing but the link.
  pub dequeue_process-Dequeued :
      (xs : List ℕ) (q : Queued) → IsQueue key q xs → Dequeued key q xs (dequeue_process q)
  unfolding dequeue_process serve
  dequeue_process-Dequeued [] q v = subst (λ f. Dequeued key q [] (serve q f)) (sym v.chain) empty
  dequeue_process-Dequeued (x ∷ xs) q v =
      let q' = (serve q (some x)).1 in
      let s = serve-Served x q in
      let chain =
        Chain-frame q.blocks q'.blocks ((q.blocks x).next) xs x x (v.distinct.0) (v.distinct.0)
          (λ a ne ne'. s.cleared.others a ne) (v.chain.1) in
      subst (λ f. Dequeued key q (x ∷ xs) (serve q f)) (sym (v.chain.0))
        (first x xs
          (record {
            chain = subst (λ f. Chain q'.blocks f xs) (sym s.front) chain;
            rear = s.rear ∙ rw (v.rear) (rest-last q.blocks ((q.blocks x).next) x xs (v.chain.1));
            distinct = v.distinct.1;
            sorted =
                subst (λ k. Sorted k xs)
                  (sym (same_keys key blind q.blocks q'.blocks (s.cleared.links))) (v.sorted.1);
          })
          (s.cleared.now) (s.cleared.links) (s.cleared.others))
