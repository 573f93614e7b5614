-- ===== src/Syscalls/Zombie.antt =====
-- `find_zombie_child` of process/syscall.c searches the process table as a list.
use apna_os.Prelude.{
  none-some, ℕ, zero, suc, ◌≤◌, ◌≡◌, refl, ◌≢◌, arith, Option, none, some, List, [], ◌∷◌, ◌∙◌, ap,
  sym, subst, ◌∉◌, Distinct, length, update_self, update_ne, ◌==◌, ◌&&◌, if◌then◌else◌,
  Option-cases, Bool-cases, inl, inr, Array, Bool,
}
use apna_os.Prelude.Run.{Run, done, fault}
use apna_os.Process.{Pcb}
use apna_os.Scheduler.{Kernel, change, state_zombie}
use apna_os.Scheduler.Invariant.{update-same}
use apna_os.Syscalls.{unlink, find_zombie, find_zombie_child}

-- From `head` on the process table leads through the blocks of the list and ends there.
abbrev pub Table : Array Pcb → Option ℕ → List ℕ → Type 0
Table blocks head [] = head ≡ none
Table blocks head (x ∷ xs) = (head ≡ some x) × Table blocks ((blocks x).next_in_table) xs

Table-frame :
    (b b' : Array Pcb) (head : Option ℕ) (c : ℕ) (xs : List ℕ)
    → c ∉ xs
    → ((a : ℕ) → a ≢ c → b' a ≡ b a)
    → Table b head xs
    → Table b' head xs
Table-frame b b' head c [] out same t = t
Table-frame b b' head c (x ∷ xs) (ne, out) same (e, t) =
    (e, rw (same x (λ e. ne (sym e))) (Table-frame b b' ((b x).next_in_table) c xs out same t))

-- What a search comes to: a read through the null pointer, no child, or a child and the table without
-- it.
pub data Outcome : Type 0 where
  crash : Outcome
  nothing : Outcome
  child : ℕ → List ℕ → Outcome

abbrev pub passed : ℕ → Outcome → Outcome
passed x crash = crash
passed x nothing = nothing
passed x (child y rest) = child y (x ∷ rest)

-- The process `x` is a zombie whose parent `d` has the number `pid`.
abbrev pub is_child : Array Pcb → ℕ → ℕ → ℕ → Bool
is_child b pid d x = ((b d).pid == pid) && ((b x).state == state_zombie)

abbrev pub visit : Array Pcb → ℕ → ℕ → List ℕ → Outcome → Option ℕ → Outcome
visit b pid x xs rest none = crash
visit b pid x xs rest (some d) = if is_child b pid d x then child x xs else passed x rest

-- The search on the list: the first zombie child, unless a process without a parent stands before it.
unfoldable pub search_list : Array Pcb → ℕ → List ℕ → Outcome
search_list b pid [] = nothing
search_list b pid (x ∷ xs) = let rest = search_list b pid xs in visit b pid x xs rest ((b x).parent)

-- The pointer that leads on.
abbrev front : Option ℕ → Kernel → Option ℕ
front none k = k.process_table_head
front (some prev) k = (k.blocks prev).next_in_table

-- A block but for its place in the table.
abbrev pub untabled : Pcb → Pcb
untabled b = record b { next_in_table = none }

-- The part of the table behind `prev`, once a block is taken out of it.
record Removed (prev : Option ℕ) (xs : List ℕ) (k : Kernel) (rest : List ℕ) (k' : Kernel)
    : Type 0 where
  table : Table k'.blocks (front prev k') rest
  others : (a : ℕ) → a ∉ xs → prev ≢ some a → k'.blocks a ≡ k.blocks a
  head : (c : ℕ) → prev ≡ some c → k'.process_table_head ≡ k.process_table_head
  kept : (a : ℕ) → untabled (k'.blocks a) ≡ untabled (k.blocks a)
  same : k' ≡ record k { blocks = k'.blocks; process_table_head = k'.process_table_head }

data Found (prev : Option ℕ) (xs : List ℕ) (k : Kernel)
    : Outcome → Run Kernel (Option ℕ) → Type 0 where
  crashes : Found prev xs k crash fault
  misses : Found prev xs k nothing (done none k)
  finds :
      (x : ℕ) (rest : List ℕ) {k' : Kernel}
      → Removed prev xs k rest k'
      → Found prev xs k (child x rest) (done (some x) k')

-- The block `prev` is not behind itself.
abbrev Before : Option ℕ → List ℕ → Type 0
Before none xs = Unit
Before (some c) xs = c ∉ xs

unlink-Removed :
    (prev : Option ℕ) (x : ℕ) (xs : List ℕ) (k : Kernel)
    → Before prev (x ∷ xs)
    → Table k.blocks ((k.blocks x).next_in_table) xs
    → Removed prev (x ∷ xs) k xs (unlink prev x k)
unlink-Removed none x xs k out t = record {
  table = t;
  others = λ a o ne. refl;
  head = λ c e. absurd (none-some c e);
  kept = λ a. refl;
  same = refl;
}
unlink-Removed (some c) x xs k (ne, out) t =
    let f = λ (b : Pcb). record b { next_in_table = (k.blocks x).next_in_table } in
    let now = update_self k.blocks c (f (k.blocks c)) in
    let else_same =
      λ (a : ℕ) (ne : a ≢ c). update_ne k.blocks c a (f (k.blocks c)) (λ e. ne (sym e)) in
    record {
      table =
          subst (λ h. Table (change c f k).blocks h xs) (sym (ap (λ b. b.next_in_table) now))
            (Table-frame k.blocks (change c f k).blocks ((k.blocks x).next_in_table) c xs out
              else_same t);
      others = λ a o ne'. else_same a (λ e. ne' (ap some (sym e)));
      head = λ c e. refl;
      kept = update-same untabled k.blocks c (f (k.blocks c)) refl;
      same = refl;
    }

-- One block that is passed.
Removed-passed :
    (prev : Option ℕ) (x : ℕ) (xs rest : List ℕ) (k k' : Kernel)
    → Before prev (x ∷ xs)
    → x ∉ xs
    → front prev k ≡ some x
    → Removed (some x) xs k rest k'
    → Removed prev (x ∷ xs) k (x ∷ rest) k'
Removed-passed prev x xs rest k k' before out e r = record {
  table = (leads prev before e, r.table);
  others = λ a (ne, o) ne'. r.others a o (λ e. ne (sym (injective e)));
  head = λ c e. r.head x refl;
  kept = r.kept;
  same = r.same;
}
  where
    injective : {a : ℕ} → ◌≡◌ {A = Option ℕ} (some x) (some a) → x ≡ a
    injective e = cc

    leads :
        (prev : Option ℕ) → Before prev (x ∷ xs) → front prev k ≡ some x → front prev k' ≡ some x
    leads none before e = r.head x refl ∙ e
    leads (some c) (ne, o) e =
        ap (λ b. b.next_in_table) (r.others c o (λ e. ne (sym (injective e)))) ∙ e

passed-Found :
    (prev : Option ℕ) (x : ℕ) (xs : List ℕ) (k : Kernel) (o : Outcome) (r : Run Kernel (Option ℕ))
    → Before prev (x ∷ xs)
    → x ∉ xs
    → front prev k ≡ some x
    → Found (some x) xs k o r
    → Found prev (x ∷ xs) k (passed x o) r
passed-Found prev x xs k _ _ before out e crashes = crashes
passed-Found prev x xs k _ _ before out e misses = misses
passed-Found prev x xs k _ _ before out e (finds y rest {k' = k'} r) =
    finds y (x ∷ rest) (Removed-passed prev x xs rest k k' before out e r)

module _ (pid : ℕ) (k : Kernel) where
  find_zombie-Found :
      (fuel : ℕ) (prev : Option ℕ) (xs : List ℕ)
      → Table k.blocks (front prev k) xs
      → Distinct xs
      → Before prev xs
      → length xs ≤ fuel
      → Found prev xs k (search_list k.blocks pid xs) (find_zombie fuel pid prev (front prev k) k)
  unfolding find_zombie search_list
  find_zombie-Found fuel prev [] t d before bound =
      subst (λ h. Found prev [] k nothing (find_zombie fuel pid prev h k)) (sym t) misses
  find_zombie-Found zero prev (x ∷ xs) t d before bound = absurd (omega (arith, bound))
  find_zombie-Found (suc fuel) prev (x ∷ xs) (e, t) (out, d) before bound =
      subst
        (λ h.
          Found prev (x ∷ xs) k (search_list k.blocks pid (x ∷ xs))
            (find_zombie (suc fuel) pid prev h k))
        (sym e)
        (elim (Option-cases ((k.blocks x).parent)) [
          | inl orphan ↦ rw orphan crashes
          | inr (p, has) ↦ elim (Bool-cases (is_child k.blocks pid p x)) [
            | inl yes' ↦ rw (has, yes') (finds x xs (unlink-Removed prev x xs k before t))
            | inr no' ↦
                rw (has, no')
                  (passed-Found prev x xs k (search_list k.blocks pid xs)
                    (find_zombie fuel pid (some x) ((k.blocks x).next_in_table) k) before out e
                    (find_zombie-Found fuel (some x) xs t d out (omega (arith, bound))))
          ]
        ])

-- What `find_zombie_child` comes to, for what the search on the list gives.
pub data Searched (k : Kernel) : Outcome → Run Kernel (Option ℕ) → Type 0 where
  reads_null : Searched k crash fault
  no_child : Searched k nothing (done none k)
  takes :
      (x : ℕ) (rest : List ℕ) {k' : Kernel}
      → Table k'.blocks k'.process_table_head rest
      → ((a : ℕ) → untabled (k'.blocks a) ≡ untabled (k.blocks a))
      → k' ≡ record k { blocks = k'.blocks; process_table_head = k'.process_table_head }
      → Searched k (child x rest) (done (some x) k')

Found-Searched :
    (xs : List ℕ) (k : Kernel) (o : Outcome) (r : Run Kernel (Option ℕ))
    → Found none xs k o r
    → Searched k o r
Found-Searched xs k _ _ crashes = reads_null
Found-Searched xs k _ _ misses = no_child
Found-Searched xs k _ _ (finds x rest r) = takes x rest r.table r.kept r.same

-- Where the process table stands for a list of blocks, `find_zombie_child` with as much fuel as the
-- list has blocks does what the search on the list says: it ends in a read through the null pointer
-- if a process without a parent stands before the first zombie whose parent has the same number as
-- the given one; it returns the null pointer and changes nothing if there is neither; else it returns
-- that zombie, and the table stands for the list without it. Nothing else changes.
pub find_zombie_child-Searched :
    (fuel parent : ℕ) (xs : List ℕ) (k : Kernel)
    → Table k.blocks k.process_table_head xs
    → Distinct xs
    → length xs ≤ fuel
    → Searched k (search_list k.blocks ((k.blocks parent).pid) xs) (find_zombie_child fuel parent k)
unfolding find_zombie_child
find_zombie_child-Searched fuel parent xs k t d bound =
    let pid = (k.blocks parent).pid in
    Found-Searched xs k (search_list k.blocks pid xs)
      (find_zombie fuel pid none k.process_table_head k)
      (find_zombie-Found pid k fuel none xs t d tt bound)
