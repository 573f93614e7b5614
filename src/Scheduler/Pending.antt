-- ===== src/Scheduler/Pending.antt =====
-- A block that a process is made in: it is in use, and neither in the ready queue nor current.
use apna_os.Prelude.{
  ℕ, ◌+◌, ◌<◌, ◌≡◌, refl, ◌≢◌, Option, none, some, List, ◌∙◌, ap, sym, subst, ◌∉◌, length,
  update_ne,
}
use apna_os.Prelude.Run
use apna_os.Prelude.Run.{Returns, returns}
use apna_os.Memory.{kmalloc}
use apna_os.Memory.Free.{page_of}
use apna_os.Process.{Pcb}
use apna_os.Process.Chain.{insert}
use apna_os.Process.Insert.{same_keys}
use apna_os.Scheduler.{Kernel, change, allocate, enqueue_ready, state_ready}
use apna_os.Scheduler.Live.{Live, StillLive, not-mem-AllLive, kmalloc-Fresh}
use apna_os.Scheduler.Invariant.{
  priority_of, IsReady, IsKernel, IsReady-same, SameCores-all, change-IsReady, kept-IsReady, core,
  update-same,
}
use apna_os.Scheduler.Ready.{SameButLinks, priorities, enqueue_ready-IsReady}

-- The invariant reads the queue, the blocks, the current process and which blocks are in use.
pub IsKernel-same :
    (k k' : Kernel) (ready : List ℕ)
    → k'.ready_queue ≡ k.ready_queue
    → k'.blocks ≡ k.blocks
    → k'.current_process ≡ k.current_process
    → StillLive k.memory k'.memory
    → IsKernel k ready
    → IsKernel k' ready
IsKernel-same k k' ready queue blocks current still v = record {
  is_ready =
      IsReady-same k k' ready queue
        (SameCores-all k.blocks k'.blocks ready (λ a. ap (λ b. core (b a)) blocks)) still
        (λ a p e. still p (v.is_ready.parents a p (sym (ap (λ b. (b a).parent) blocks) ∙ e)))
        v.is_ready;
  current = λ c e.
      let (live, not_ready) = v.current c (sym current ∙ e) in
      (still c live, λ z. not_ready (sym (ap (λ b. (b c).state) blocks) ∙ z));
}

pub kept-IsKernel :
    (p : ℕ) (f : Pcb → Pcb) (k : Kernel) (ready : List ℕ)
    → core (f (k.blocks p)) ≡ core (k.blocks p)
    → (f (k.blocks p)).parent ≡ (k.blocks p).parent
    → IsKernel k ready
    → IsKernel (change p f k) ready
kept-IsKernel p f k ready same parent v = record {
  is_ready = kept-IsReady p f k ready same parent v.is_ready;
  current = λ c e.
      let (live, not_ready) = v.current c e in
      (
        live,
        λ z.
            not_ready
              (sym (ap (λ t. t.1.1) (update-same core k.blocks p (f (k.blocks p)) same c)) ∙ z),
      );
}

pub record IsPending (k : Kernel) (p : ℕ) (ready : List ℕ) : Type 0 where
  pub kernel : IsKernel k ready
  pub out : p ∉ ready
  pub live : Live k.memory p
  pub apart : (c : ℕ) → k.current_process ≡ some c → p ≢ c

pub IsPending-same :
    (k k' : Kernel) (p : ℕ) (ready : List ℕ)
    → k'.ready_queue ≡ k.ready_queue
    → k'.blocks ≡ k.blocks
    → k'.current_process ≡ k.current_process
    → StillLive k.memory k'.memory
    → IsPending k p ready
    → IsPending k' p ready
IsPending-same k k' p ready queue blocks current still v = record {
  kernel = IsKernel-same k k' ready queue blocks current still v.kernel;
  out = v.out;
  live = still p v.live;
  apart = λ c e. v.apart c (sym current ∙ e);
}

-- Whatever is written to the block, as long as its parent is in use.
pub change-IsPending :
    (p : ℕ) (f : Pcb → Pcb) (k : Kernel) (ready : List ℕ)
    → ((d : ℕ) → (f (k.blocks p)).parent ≡ some d → Live k.memory d)
    → IsPending k p ready
    → IsPending (change p f k) p ready
change-IsPending p f k ready here v = record {
  kernel = record {
    is_ready = change-IsReady p f k ready v.out here v.kernel.is_ready;
    current = λ c e.
        let (live, not_ready) = v.kernel.current c e in
        (
          live,
          λ z.
              not_ready (
                sym (ap (λ b. b.state) (update_ne k.blocks p c (f (k.blocks p)) (v.apart c e)))
                ∙ z),
        );
  };
  out = v.out;
  live = v.live;
  apart = v.apart;
}

-- What an allocation for a new process gives.
pub data Allocated (k : Kernel) (ready : List ℕ) : Option ℕ → Kernel → Type 0 where
  refused : {k' : Kernel} → IsKernel k' ready → Allocated k ready none k'
  granted :
      (p : ℕ) {k' : Kernel}
      → k.memory.page_table (page_of p) ≡ 0
      → k'.blocks ≡ k.blocks
      → k'.current_process ≡ k.current_process
      → k'.next_pid ≡ k.next_pid
      → IsPending k' p ready
      → Allocated k ready (some p) k'

pub allocate-Allocated :
    (size : ℕ) (k : Kernel) (ready : List ℕ)
    → IsKernel k ready
    → Returns (Allocated k ready) (allocate size k)
unfolding allocate
allocate-Allocated size k ready v =
    let f = kmalloc-Fresh size k.memory in
    let k' : Kernel = record k { memory = (kmalloc size k.memory).1 } in
    let v' = IsKernel-same k k' ready refl refl refl f.still v in
    let go : (r : Option ℕ) → (kmalloc size k.memory).0 ≡ r → Allocated k ready r k' = λ r.
      elim r as (λ r. (kmalloc size k.memory).0 ≡ r → Allocated k ready r k') [
        | none ↦ λ e. refused v'
        | some p ↦ λ e. granted p ((f.new p e).0) refl refl refl (record {
          kernel = v';
          out = not-mem-AllLive k.memory p ready ((f.new p e).0) v.is_ready.live;
          live = (f.new p e).1;
          apart = λ c e' same.
              (v.current c e').0.1
                (subst (λ j. k.memory.page_table (page_of j) ≡ 0) same ((f.new p e).0));
        })
      ] in
    returns (go ((kmalloc size k.memory).0) refl)

-- An allocation besides.
pub allocate-IsPending :
    (size p : ℕ) (k : Kernel) (ready : List ℕ)
    → IsPending k p ready
    → Returns
        (λ _ k'.
          IsPending k' p ready
          × (k'.blocks ≡ k.blocks)
          × (k'.process_table_head ≡ k.process_table_head)
          × (k'.current_process ≡ k.current_process))
        (allocate size k)
unfolding allocate
allocate-IsPending size p k ready v = returns (
  IsPending-same k (record k { memory = (kmalloc size k.memory).1 }) p ready refl refl refl
      (kmalloc-Fresh size k.memory).still v,
  refl,
  refl,
  refl,
)

-- Into the queue.
pub enqueue_ready-IsKernel :
    (fuel p : ℕ) (k : Kernel) (ready : List ℕ)
    → IsPending k p ready
    → (k.blocks p).state ≡ state_ready
    → length ready < fuel + 1
    → Returns
        (λ _ k'. IsKernel k' (insert (priorities k') p ready) × SameButLinks k k')
        (enqueue_ready fuel p k)
enqueue_ready-IsKernel fuel p k ready v state bound =
    Run.mono (enqueue_ready-IsReady fuel p k ready v.kernel.is_ready v.out state v.live bound)
      λ _ k' (r, s). (
        record {
          is_ready =
              subst (λ key. IsReady k' (insert key p ready))
                (sym (same_keys priority_of (λ b n. refl) k.blocks k'.blocks s.links)) r;
          current = λ c e.
              let (live, not_ready) = v.kernel.current c (sym s.current ∙ e) in
              (
                subst (λ m. Live m c) (sym s.memory) live,
                λ z. not_ready (sym (ap (λ b. b.state) (s.links c)) ∙ z),
              );
        },
        s,
      )
