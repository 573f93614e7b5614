-- ===== src/Process/Links.antt =====
-- Writes to the links of the blocks.
use apna_os.Prelude.{
  ℕ, ◌≡◌, refl, ◌≢◌, Option, none, some, Array, true, false, if◌then◌else◌, Bool-cases, inl, inr,
  sym, ap, ◌∙◌, update_self, update_ne, ℕ_discrete,
}
use apna_os.Process.{Pcb, Queued, is_none, set_next, put_behind}

-- A block but for its link.
abbrev pub unlinked : Pcb → Pcb
unlinked b = record b { next = none }

-- What `set_next` does.
pub record Linked (process : ℕ) (next : Option ℕ) (b b' : Array Pcb) : Type 0 where
  pub now : (b' process).next ≡ next
  pub others : (a : ℕ) → a ≢ process → b' a ≡ b a
  pub links : (a : ℕ) → unlinked (b' a) ≡ unlinked (b a)

pub set_next-Linked :
    (process : ℕ) (next : Option ℕ) (q : Queued)
    → Linked process next q.blocks (set_next process next q).blocks
set_next-Linked process next q =
    let self = update_self q.blocks process (record (q.blocks process) { next = next }) in
    record {
      now = ap (λ b. b.next) self;
      others = λ a ne. update_ne q.blocks process a _ (λ e. ne (sym e));
      links = λ a. elim (ℕ_discrete process a) [
        | yes e ↦ rw (← e) (ap unlinked self)
        | no ne ↦ ap unlinked (update_ne q.blocks process a _ ne)
      ];
    }

-- What `put_behind` does.
pub record Behind (current process : ℕ) (q q' : Queued) : Type 0 where
  pub next : (q'.blocks process).next ≡ (q.blocks current).next
  pub now : (q'.blocks current).next ≡ some process
  pub others : (a : ℕ) → a ≢ process → a ≢ current → q'.blocks a ≡ q.blocks a
  pub links : (a : ℕ) → unlinked (q'.blocks a) ≡ unlinked (q.blocks a)
  pub front : q'.queue.front ≡ q.queue.front
  pub rear :
      q'.queue.rear ≡ (if is_none (q.blocks current).next then some process else q.queue.rear)

pub put_behind-Behind :
    (current process : ℕ) (q : Queued)
    → current ≢ process
    → Behind current process q (put_behind current process q)
unfolding put_behind
put_behind-Behind current process q ne =
    let after = (q.blocks current).next in
    let l1 = set_next-Linked process after q in
    let q1 = set_next process after q in
    let q2 = set_next current (some process) q1 in
    let l2 = set_next-Linked current (some process) q1 in
    let next : (q2.blocks process).next ≡ after =
      ap (λ b. b.next) (l2.others process (λ e. ne (sym e))) ∙ l1.now in
    let others = λ (a : ℕ) (np : a ≢ process) (nc : a ≢ current). l2.others a nc ∙ l1.others a np in
    let links = λ (a : ℕ). l2.links a ∙ l1.links a in
    elim (Bool-cases (is_none after)) [
      | inl t ↦
          let t' : is_none (q2.blocks process).next ≡ true = ap is_none next ∙ t in
          rw t' (record {
            next = next;
            now = l2.now;
            others = others;
            links = links;
            front = refl;
            rear = rw t;
          })
      | inr f ↦
          let f' : is_none (q2.blocks process).next ≡ false = ap is_none next ∙ f in
          rw f' (record {
            next = next;
            now = l2.now;
            others = others;
            links = links;
            front = refl;
            rear = rw f;
          })
    ]
