-- ===== src/Process/Insert.antt =====
-- `enqueue_process` and its two variants insert into the list that a queue stands for.
use apna_os.Prelude.{
  ℕ, zero, suc, ◌+◌, ◌<◌, ◌≡◌, refl, ◌≢◌, arith, Option, none, some, List, [], ◌∷◌, Array, true,
  false, if◌then◌else◌, ◌∉◌, Distinct, length, Bool-cases, inl, inr, sym, ap, subst, fun_ext, ◌∙◌,
}
use apna_os.Prelude.Int.{ℤ, ltb_ℤ, leb_ℤ}
use apna_os.Prelude.Run
use apna_os.Prelude.Run.{done, Returns, returns}
use apna_os.Process.{
  Pcb, Queued, is_none, set_next, walk, put_behind, enter, place, enqueue_by, set_front, set_rear,
  enqueue_by, set_front, set_rear,
}
use apna_os.Process.Chain.{
  Chain, last, insert, Chain-frame, IsQueue, Sorted, insert-Sorted, insert-Distinct,
}
use apna_os.Process.Links.{unlinked, set_next-Linked, put_behind-Behind}

-- The new end of a queue in which `p` is put between `c` and what stands behind it.
end_of-last :
    (b : Array Pcb) (front : Option ℕ) (c p : ℕ) (xs : List ℕ)
    → Chain b front xs
    → (if is_none front then some p else last (c ∷ xs)) ≡ last (p ∷ xs)
end_of-last b front c p [] e = rw e
end_of-last b front c p (x ∷ xs) (e, chain) = rw e

module _ (key : Pcb → ℤ) (p : ℕ) (q : Queued) where
  abbrev keys : ℕ → ℤ
  keys a = key (q.blocks a)

  -- `p` is put into the list `xs` of the blocks behind `c`.
  record Put (c : ℕ) (xs : List ℕ) (q' : Queued) : Type 0 where
    chain : Chain q'.blocks ((q'.blocks c).next) (insert keys p xs)
    others : (a : ℕ) → a ≢ p → a ≢ c → a ∉ xs → q'.blocks a ≡ q.blocks a
    links : (a : ℕ) → unlinked (q'.blocks a) ≡ unlinked (q.blocks a)
    front : q'.queue.front ≡ q.queue.front
    rear : q'.queue.rear ≡ last (c ∷ insert keys p xs)

  -- The walk ends behind `c` itself.
  Put-next :
      (c : ℕ) (xs : List ℕ)
      → insert keys p xs ≡ p ∷ xs
      → Chain q.blocks ((q.blocks c).next) xs
      → c ≢ p
      → c ∉ xs
      → p ∉ xs
      → q.queue.rear ≡ last (c ∷ xs)
      → Put c xs (put_behind c p q)
  Put-next c xs here chain ne out out' rear =
      let r = put_behind-Behind c p q ne in
      record {
        chain = rw here (
          r.now,
          subst (λ f. Chain (put_behind c p q).blocks f xs) (sym r.next)
              (Chain-frame q.blocks (put_behind c p q).blocks ((q.blocks c).next) xs p c out' out
                r.others chain),
        );
        others = λ a np nc o. r.others a np nc;
        links = r.links;
        front = r.front;
        rear = rw here (r.rear ∙ rw rear (end_of-last q.blocks ((q.blocks c).next) c p xs chain));
      }

  walk-Put :
      (fuel c : ℕ) (xs : List ℕ)
      → length xs < fuel
      → Chain q.blocks ((q.blocks c).next) xs
      → c ≢ p
      → c ∉ xs
      → p ∉ xs
      → Distinct xs
      → q.queue.rear ≡ last (c ∷ xs)
      → (current : ℕ) × (walk key fuel p c q ≡ some current) × Put c xs (put_behind current p q)
  unfolding walk insert
  walk-Put zero c xs l chain ne out out' d rear = absurd (omega (arith, l))
  walk-Put (suc fuel) c [] l chain ne out out' d rear =
      (c, rw (chain, walk), Put-next c [] refl chain ne out out' rear)
  walk-Put (suc fuel) c (x ∷ xs) l (e, chain) ne (nc, out) (np, out') (dx, d) rear =
      elim (Bool-cases (ltb_ℤ (keys p) (keys x))) [
        | inl t ↦
            let f : leb_ℤ (keys x) (keys p) ≡ false = ground (arith, t) in
            (c, rw (e, walk, f), Put-next c (x ∷ xs) (rw t) (e, chain) ne (nc, out) (np, out') rear)
        | inr f ↦
            let t : leb_ℤ (keys x) (keys p) ≡ true = ground (arith, f) in
            let (current, e', r) =
              walk-Put fuel x xs (omega (arith, l)) chain (λ e. np (sym e)) dx out' d rear in
            (
              current,
              rw (e, walk, t) e',
              record {
                chain = rw f (ap (λ b. b.next) (r.others c ne nc out) ∙ e, r.chain);
                others = λ a np nc o. r.others a np (o.0) (o.1);
                links = r.links;
                front = r.front;
                rear = rw f (r.rear);
              },
            )
      ]

-- What `enqueue_process` leaves of a queue that stands for the list `xs`.
pub record Enqueued (key : Pcb → ℤ) (p : ℕ) (xs : List ℕ) (q q' : Queued) : Type 0 where
  pub queue : IsQueue key q' (insert (λ a. key (q.blocks a)) p xs)
  pub links : (a : ℕ) → unlinked (q'.blocks a) ≡ unlinked (q.blocks a)
  pub others : (a : ℕ) → a ≢ p → a ∉ xs → q'.blocks a ≡ q.blocks a

module _ (key : Pcb → ℤ)
    (blind : (b : Pcb) (n : Option ℕ) → key (record b { next = n }) ≡ key b) where
  -- Links do not change the keys.
  pub same_keys :
      (b b' : Array Pcb)
      → ((a : ℕ) → unlinked (b' a) ≡ unlinked (b a))
      → ◌≡◌ {A = ℕ → ℤ} (λ a. key (b' a)) (λ a. key (b a))
  same_keys b b' links = fun_ext λ a. sym (blind (b' a) none) ∙ ap key (links a) ∙ blind (b a) none

  -- The queue's order and its blocks' identities once the links and the rear are right.
  finish :
      (p : ℕ) (xs : List ℕ) (q q' : Queued)
      → p ∉ xs
      → IsQueue key q xs
      → ((a : ℕ) → unlinked (q'.blocks a) ≡ unlinked (q.blocks a))
      → Chain q'.blocks q'.queue.front (insert (λ a. key (q.blocks a)) p xs)
      → q'.queue.rear ≡ last (insert (λ a. key (q.blocks a)) p xs)
      → IsQueue key q' (insert (λ a. key (q.blocks a)) p xs)
  finish p xs q q' out v links chain rear = record {
    chain = chain;
    rear = rear;
    distinct = insert-Distinct (λ a. key (q.blocks a)) p xs out v.distinct;
    sorted =
        subst (λ k. Sorted k (insert (λ a. key (q.blocks a)) p xs))
          (sym (same_keys q.blocks q'.blocks links))
          (insert-Sorted (λ a. key (q.blocks a)) p xs v.sorted);
  }

  -- Clearing the link of a block that is not in the queue.
  cleared-IsQueue :
      (p : ℕ) (xs : List ℕ) (q : Queued)
      → p ∉ xs
      → IsQueue key q xs
      → IsQueue key (set_next p none q) xs
  cleared-IsQueue p xs q out v =
      let l = set_next-Linked p none q in
      record {
        chain =
            Chain-frame q.blocks (set_next p none q).blocks q.queue.front xs p p out out
              (λ a ne ne'. l.others a ne) v.chain;
        rear = v.rear;
        distinct = v.distinct;
        sorted =
            subst (λ k. Sorted k xs) (sym (same_keys q.blocks (set_next p none q).blocks (l.links)))
              v.sorted;
      }

  -- `process` goes in front of the block `x`, which was the first.
  first-Enqueued :
      (p x : ℕ) (xs : List ℕ) (q : Queued)
      → IsQueue key q (x ∷ xs)
      → p ∉ x ∷ xs
      → ltb_ℤ (key (q.blocks p)) (key (q.blocks x)) ≡ true
      → Enqueued key p (x ∷ xs) q (set_front (some p) (set_next p (some x) q))
  unfolding insert
  first-Enqueued p x xs q v out t =
      let q' = set_front (some p) (set_next p (some x) q) in
      let l = set_next-Linked p (some x) q in
      let head : insert (λ a. key (q.blocks a)) p (x ∷ xs) ≡ p ∷ x ∷ xs = rw t in
      let chain =
        Chain-frame q.blocks q'.blocks (some x) (x ∷ xs) p p out out (λ a ne ne'. l.others a ne)
          (refl, v.chain.1) in
      record {
        queue =
            finish p (x ∷ xs) q q' out v (l.links)
              (rw head (refl, subst (λ f. Chain q'.blocks f (x ∷ xs)) (sym l.now) chain))
              (rw head (v.rear));
        links = l.links;
        others = λ a np o. l.others a np;
      }

  empty-Enqueued :
      (p : ℕ) (q : Queued)
      → IsQueue key q []
      → (q.blocks p).next ≡ none
      → Enqueued key p [] q (set_rear (some p) (set_front (some p) q))
  unfolding insert
  empty-Enqueued p q v e = record {
    queue = record { chain = (refl, e); rear = refl; distinct = (tt, tt); sorted = (tt, tt) };
    links = λ a. refl;
    others = λ a np o. refl;
  }

  -- `process` goes behind the first block, or further back.
  walked-Enqueued :
      (p x current : ℕ) (xs : List ℕ) (q : Queued)
      → IsQueue key q (x ∷ xs)
      → p ∉ x ∷ xs
      → ltb_ℤ (key (q.blocks p)) (key (q.blocks x)) ≡ false
      → Put key p q x xs (put_behind current p q)
      → Enqueued key p (x ∷ xs) q (put_behind current p q)
  unfolding insert
  walked-Enqueued p x current xs q v out f r =
      let q' = put_behind current p q in
      let behind : insert (λ a. key (q.blocks a)) p (x ∷ xs)
          ≡ x ∷ insert (λ a. key (q.blocks a)) p xs =
        rw f in
      record {
        queue =
            finish p (x ∷ xs) q q' out v r.links (rw behind (r.front ∙ v.chain.0, r.chain))
              (rw behind r.rear);
        links = r.links;
        others = λ a np o. r.others a np (o.0) (o.1);
      }

  enter-Enqueued :
      (fuel p : ℕ) (xs : List ℕ) (q : Queued)
      → IsQueue key q xs
      → p ∉ xs
      → (q.blocks p).next ≡ none
      → length xs < fuel + 1
      → Returns (λ _ q'. Enqueued key p xs q q') (enter key fuel p q q.queue.front)
  unfolding enter insert place
  enter-Enqueued fuel p [] q v out e l =
      subst (λ f. Returns (λ _ q'. Enqueued key p [] q q') (enter key fuel p q f)) (sym (v.chain))
        (returns (empty-Enqueued p q v e))
  enter-Enqueued fuel p (x ∷ xs) q v (np, out) e l =
      subst (λ f. Returns (λ _ q'. Enqueued key p (x ∷ xs) q q') (enter key fuel p q f))
        (sym (v.chain.0))
        (elim (Bool-cases (ltb_ℤ (key (q.blocks p)) (key (q.blocks x)))) [
          | inl t ↦ rw t (returns (first-Enqueued p x xs q v (np, out) t))
          | inr f ↦
              let (current, e', r) =
                walk-Put key p q fuel x xs (omega (arith, l)) (v.chain.1) (λ e. np (sym e))
                  (v.distinct.0) out (v.distinct.1) (v.rear) in
              rw (f, e', place) (returns (walked-Enqueued p x current xs q v (np, out) f r))
        ])

  -- `enqueue_process`, for any field as the key that is not the link: on a queue that stands for a
  -- list in the order of the keys, and for a block that is not in it, with as much fuel as the list
  -- has blocks, it ends, and the queue stands for the list into which the block is inserted behind
  -- those whose key is not larger. No block outside the list changes but this one, and of no block
  -- anything but the link.
  pub enqueue_by-Enqueued :
      (fuel p : ℕ) (xs : List ℕ) (q : Queued)
      → IsQueue key q xs
      → p ∉ xs
      → length xs < fuel + 1
      → Returns (λ _ q'. Enqueued key p xs q q') (enqueue_by key fuel p q)
  unfolding enqueue_by
  enqueue_by-Enqueued fuel p xs q v out l =
      let c = set_next-Linked p none q in
      let q0 = set_next p none q in
      Run.mono (enter-Enqueued fuel p xs q0 (cleared-IsQueue p xs q out v) out (c.now) l) λ _ q' r.
        record {
          queue =
              subst (λ k. IsQueue key q' (insert k p xs)) (same_keys q.blocks q0.blocks (c.links))
                (r.queue);
          links = λ a. r.links a ∙ c.links a;
          others = λ a np o. r.others a np o ∙ c.others a np;
        }
