-- ===== src/Scheduler/Invariant.antt =====
-- What holds of the kernel between two calls: which processes are ready, and that the current one is
-- none of them.
use apna_os.Prelude.{
  ℕ, ◌+◌, ◌≡◌, refl, ◌≢◌, Option, some, List, [], ◌∷◌, Array, ◌∙◌, ap, sym, ◌∉◌, length, subst,
  update, update_self, update_ne, Bool-cases, inl, inr, ℕ_discrete,
}
use apna_os.Prelude.Int.{ℤ, ltb_ℤ, ◌≤ℤ◌}
use apna_os.Memory.{Memory}
use apna_os.Process.{Pcb}
use apna_os.Process.Chain.{Chain, Sorted, IsQueue, insert, AllAbove}
use apna_os.Process.Links.{unlinked}
use apna_os.Scheduler.{Kernel, change, queued, state_ready}
use apna_os.Scheduler.Live.{Live, AllLive, StillLive, AllLive-mono}

abbrev pub priority_of : Pcb → ℤ
priority_of b = b.priority

abbrev pub AllReady : Array Pcb → List ℕ → Type 0
AllReady blocks [] = Unit
AllReady blocks (x ∷ xs) = ((blocks x).state ≡ state_ready) × AllReady blocks xs

-- The ready queue stands for `ready`, in the order of the priorities; its processes are ready and in
-- use, and so is every parent.
pub record IsReady (k : Kernel) (ready : List ℕ) : Type 0 where
  pub queue : IsQueue priority_of (queued k) ready
  pub states : AllReady k.blocks ready
  pub live : AllLive k.memory ready
  pub parents : (a p : ℕ) → (k.blocks a).parent ≡ some p → Live k.memory p

-- The current process is in use and not ready.
pub record IsKernel (k : Kernel) (ready : List ℕ) : Type 0 where
  pub is_ready : IsReady k ready
  pub current :
      (c : ℕ) → k.current_process ≡ some c → Live k.memory c × ((k.blocks c).state ≢ state_ready)

-- A process that is not ready is not in the queue.
pub not-mem-AllReady :
    (blocks : Array Pcb) (a : ℕ) (xs : List ℕ)
    → (blocks a).state ≢ state_ready
    → AllReady blocks xs
    → a ∉ xs
not-mem-AllReady blocks a [] ne h = tt
not-mem-AllReady blocks a (x ∷ xs) ne (e, h) =
    (λ same. ne (ap (λ j. (blocks j).state) same ∙ e), not-mem-AllReady blocks a xs ne h)

-- What the invariant reads of a block in the queue.
abbrev pub core : Pcb → Option ℕ × (ℤ × ℕ)
core b = (b.next, (b.priority, b.state))

abbrev pub SameCores : Array Pcb → Array Pcb → List ℕ → Type 0
SameCores b b' [] = Unit
SameCores b b' (x ∷ xs) = (core (b' x) ≡ core (b x)) × SameCores b b' xs

module _ (b b' : Array Pcb) where
  Chain-same :
      (front : Option ℕ) (xs : List ℕ) → SameCores b b' xs → Chain b front xs → Chain b' front xs
  Chain-same front [] s c = c
  Chain-same front (x ∷ xs) (e, s) (here, c) =
      (here, rw (ap (λ t. t.0) e) (Chain-same ((b x).next) xs s c))

  AllAbove-same :
      (z : ℤ) (xs : List ℕ)
      → SameCores b b' xs
      → AllAbove (λ a. (b a).priority) z xs
      → AllAbove (λ a. (b' a).priority) z xs
  AllAbove-same z [] s h = tt
  AllAbove-same z (x ∷ xs) (e, s) (l, h) =
      (subst (λ y. z ≤ℤ y) (sym (ap (λ t. t.1.0) e)) l, AllAbove-same z xs s h)

  Sorted-same :
      (xs : List ℕ)
      → SameCores b b' xs
      → Sorted (λ a. (b a).priority) xs
      → Sorted (λ a. (b' a).priority) xs
  Sorted-same [] s h = tt
  Sorted-same (x ∷ xs) (e, s) (l, h) = (
    subst (λ y. AllAbove (λ a. (b' a).priority) y xs) (sym (ap (λ t. t.1.0) e))
        (AllAbove-same ((b x).priority) xs s l),
    Sorted-same xs s h,
  )

  AllReady-same : (xs : List ℕ) → SameCores b b' xs → AllReady b xs → AllReady b' xs
  AllReady-same [] s h = tt
  AllReady-same (x ∷ xs) (e, s) (r, h) = (ap (λ t. t.1.1) e ∙ r, AllReady-same xs s h)

  -- The links are not read by `AllReady`.
  pub AllReady-links :
      (xs : List ℕ) → ((a : ℕ) → unlinked (b' a) ≡ unlinked (b a)) → AllReady b xs → AllReady b' xs
  AllReady-links [] links h = tt
  AllReady-links (x ∷ xs) links (e, h) =
      (ap (λ p. p.state) (links x) ∙ e, AllReady-links xs links h)

  pub SameCores-all : (xs : List ℕ) → ((a : ℕ) → core (b' a) ≡ core (b a)) → SameCores b b' xs
  SameCores-all [] same = tt
  SameCores-all (x ∷ xs) same = (same x, SameCores-all xs same)

-- What a write to one block keeps of that block it keeps of all.
pub update-same :
    {A : Type 0} (view : Pcb → A) (b : Array Pcb) (p : ℕ) (v : Pcb)
    → view v ≡ view (b p)
    → (a : ℕ) → view (update b p v a) ≡ view (b a)
update-same view b p v same a = elim (ℕ_discrete p a) [
  | yes e ↦ subst (λ j. view (update b p v j) ≡ view (b j)) e (ap view (update_self b p v) ∙ same)
  | no ne ↦ ap view (update_ne b p a v ne)
]

pub SameCores-out :
    (b : Array Pcb) (p : ℕ) (v : Pcb) (xs : List ℕ) → p ∉ xs → SameCores b (update b p v) xs
SameCores-out b p v [] out = tt
SameCores-out b p v (x ∷ xs) (ne, out) =
    (ap core (update_ne b p x v ne), SameCores-out b p v xs out)

module _ (key : ℕ → ℤ) where
  pub AllReady-insert :
      (blocks : Array Pcb) (p : ℕ) (xs : List ℕ)
      → (blocks p).state ≡ state_ready
      → AllReady blocks xs
      → AllReady blocks (insert key p xs)
  unfolding insert
  AllReady-insert blocks p [] e h = (e, tt)
  AllReady-insert blocks p (x ∷ xs) e (e', h) = elim (Bool-cases (ltb_ℤ (key p) (key x))) [
    | inl t ↦ rw t (e, (e', h))
    | inr f ↦ rw f (e', AllReady-insert blocks p xs e h)
  ]

  pub AllLive-insert :
      (m : Memory) (p : ℕ) (xs : List ℕ) → Live m p → AllLive m xs → AllLive m (insert key p xs)
  unfolding insert
  AllLive-insert m p [] l h = (l, tt)
  AllLive-insert m p (x ∷ xs) l (l', h) = elim (Bool-cases (ltb_ℤ (key p) (key x))) [
    | inl t ↦ rw t (l, (l', h))
    | inr f ↦ rw f (l', AllLive-insert m p xs l h)
  ]

  pub length-insert : (p : ℕ) (xs : List ℕ) → length (insert key p xs) ≡ length xs + 1
  unfolding insert
  length-insert p [] = refl
  length-insert p (x ∷ xs) = elim (Bool-cases (ltb_ℤ (key p) (key x))) [
    | inl t ↦ rw t refl
    | inr f ↦ rw f (ap (λ n. n + 1) (length-insert p xs))
  ]

-- Where the queue is the same, its blocks have the same cores and every parent is in use, the
-- invariant is kept.
pub IsReady-same :
    (k k' : Kernel) (ready : List ℕ)
    → k'.ready_queue ≡ k.ready_queue
    → SameCores k.blocks k'.blocks ready
    → StillLive k.memory k'.memory
    → ((a p : ℕ) → (k'.blocks a).parent ≡ some p → Live k'.memory p)
    → IsReady k ready
    → IsReady k' ready
IsReady-same k k' ready same cores still parents v = record {
  queue = record {
    chain = Chain-same k.blocks k'.blocks k'.ready_queue.front ready cores (rw same v.queue.chain);
    rear = rw same v.queue.rear;
    distinct = v.queue.distinct;
    sorted = Sorted-same k.blocks k'.blocks ready cores v.queue.sorted;
  };
  states = AllReady-same k.blocks k'.blocks ready cores v.states;
  live = AllLive-mono k.memory k'.memory ready still v.live;
  parents = parents;
}

-- The parents after a change to one block.
pub update-parents :
    (m : Memory) (b : Array Pcb) (p : ℕ) (v : Pcb)
    → ((d : ℕ) → v.parent ≡ some d → Live m d)
    → ((a d : ℕ) → (b a).parent ≡ some d → Live m d)
    → (a d : ℕ) → (update b p v a).parent ≡ some d
    → Live m d
update-parents m b p v here all a d e = elim (ℕ_discrete p a) [
  | yes same ↦ here d (
      subst (λ j. (update b p v j).parent ≡ some d → v.parent ≡ some d) same
        (λ e. ap (λ x. x.parent) (sym (update_self b p v)) ∙ e) e)
  | no ne ↦ all a d (ap (λ x. x.parent) (sym (update_ne b p a v ne)) ∙ e)
]

-- A change to a block that is not in the queue.
pub change-IsReady :
    (p : ℕ) (f : Pcb → Pcb) (k : Kernel) (ready : List ℕ)
    → p ∉ ready
    → ((d : ℕ) → (f (k.blocks p)).parent ≡ some d → Live k.memory d)
    → IsReady k ready
    → IsReady (change p f k) ready
change-IsReady p f k ready out here v =
    IsReady-same k (change p f k) ready refl (SameCores-out k.blocks p (f (k.blocks p)) ready out)
      (λ a l. l) (update-parents k.memory k.blocks p (f (k.blocks p)) here v.parents) v

-- A change to what the invariant does not read.
pub kept-IsReady :
    (p : ℕ) (f : Pcb → Pcb) (k : Kernel) (ready : List ℕ)
    → core (f (k.blocks p)) ≡ core (k.blocks p)
    → (f (k.blocks p)).parent ≡ (k.blocks p).parent
    → IsReady k ready
    → IsReady (change p f k) ready
kept-IsReady p f k ready same parent v =
    IsReady-same k (change p f k) ready refl
      (SameCores-all k.blocks (change p f k).blocks ready
        (update-same core k.blocks p (f (k.blocks p)) same))
      (λ a l. l)
      (update-parents k.memory k.blocks p (f (k.blocks p)) (λ d e. v.parents p d (sym parent ∙ e))
        v.parents)
      v
