-- ===== src/Memory/Free.antt =====
-- What `kfree` clears in the page table, and the shape of the table that the heap keeps.
use apna_os.Prelude.{
  ℕ, zero, suc, ◌+◌, ◌-◌, ◌/◌, ◌≤◌, ◌<◌, ◌≡◌, refl, ◌≢◌, arith, Array, update, update_self,
  update_ne, ℕ_discrete, dec_lt, ne→==, eq→==, lt→ltb, ge→ltb, sym, ◌∙◌,
}
use apna_os.Memory.{page_size, num_pages, header_size, Memory, free_tail, kfree}

-- The pages from `i` to before `e` had the mark 2 and are free now; the run is as long as can be.
record Cleared (i e : ℕ) (table table' : Array ℕ) : Type 0 where
  upper : i ≤ e
  marks : (p : ℕ) → i ≤ p → p < e → table p ≡ 2
  free : (p : ℕ) → i ≤ p → p < e → table' p ≡ 0
  before : (p : ℕ) → p < i → table' p ≡ table p
  behind : (p : ℕ) → e ≤ p → table' p ≡ table p
  stop : e < num_pages → table e ≢ 2

free_tail-Cleared :
    (n i : ℕ) (table : Array ℕ)
    → num_pages ≤ i + n
    → (e : ℕ) × Cleared i e table (free_tail n i table)
unfolding free_tail
free_tail-Cleared zero i table l = (
  i,
  record {
    upper = omega arith;
    marks = λ p a b. absurd (omega (arith, a, b));
    free = λ p a b. absurd (omega (arith, a, b));
    before = λ p a. refl;
    behind = λ p a. refl;
    stop = λ a. absurd (omega (arith, l, a));
  },
)
free_tail-Cleared (suc n) i table l = elim (dec_lt i num_pages) [
  | no out ↦ rw (ge→ltb i num_pages (omega arith)) (i, stays (λ a. absurd (out a)))
  | yes a ↦ elim (ℕ_discrete (table i) 2) [
    | no other ↦ rw (ne→== _ _ other, lt→ltb i num_pages a) (i, stays (λ b. other))
    | yes mark ↦
        let (e, r) = free_tail-Cleared n (i + 1) (update table i 0) (omega arith) in
        rw (eq→== _ _ mark, lt→ltb i num_pages a)
          (
            e,
            record {
              upper = omega (arith, r.upper);
              marks = λ p b c. elim (ℕ_discrete i p) [
                | yes same ↦ rw (← same) mark
                | no ne ↦ sym (update_ne table i p 0 ne) ∙ r.marks p (omega arith) c
              ];
              free = λ p b c. elim (ℕ_discrete i p) [
                | yes same ↦ rw (← same) (r.before i (omega arith) ∙ update_self table i 0)
                | no ne ↦ r.free p (omega arith) c
              ];
              before = λ p b.
                  r.before p (omega arith) ∙ update_ne table i p 0 (λ same. omega (arith, same, b));
              behind = λ p b.
                  r.behind p b ∙ update_ne table i p 0 (λ same. omega (arith, same, b, r.upper));
              stop = λ b c.
                  r.stop b (update_ne table i e 0 (λ same. omega (arith, same, r.upper)) ∙ c);
            },
          )
  ]
]
  where
    stays : (i < num_pages → table i ≢ 2) → Cleared i i table table
    stays stop = record {
      upper = omega arith;
      marks = λ p a b. absurd (omega (arith, a, b));
      free = λ p a b. absurd (omega (arith, a, b));
      before = λ p a. refl;
      behind = λ p a. refl;
      stop = stop;
    }

-- The table after `kfree` of a block that starts at page `s`: the pages from `s` to before `e` are
-- free, where those behind the first had the mark 2; page `e` is the first without it.
pub record Freed (s e : ℕ) (table table' : Array ℕ) : Type 0 where
  pub upper : s < e
  pub marks : (p : ℕ) → s < p → p < e → table p ≡ 2
  pub free : (p : ℕ) → s ≤ p → p < e → table' p ≡ 0
  pub before : (p : ℕ) → p < s → table' p ≡ table p
  pub behind : (p : ℕ) → e ≤ p → table' p ≡ table p
  pub stop : e < num_pages → table e ≢ 2

Cleared-Freed :
    (s e : ℕ) {table table' : Array ℕ}
    → Cleared (s + 1) e (update table s 0) table'
    → Freed s e table table'
Cleared-Freed s e {table} r =
    let away = λ (p : ℕ) (ne : s ≢ p). update_ne table s p 0 ne in
    record {
      upper = omega (arith, r.upper);
      marks = λ p a b. sym (away p (λ same. omega (arith, same, a))) ∙ r.marks p (omega arith) b;
      free = λ p a b. elim (ℕ_discrete s p) [
        | yes same ↦ rw (← same) (r.before s (omega arith) ∙ update_self table s 0)
        | no ne ↦ r.free p (omega arith) b
      ];
      before = λ p a. r.before p (omega arith) ∙ away p (λ same. omega (arith, same, a));
      behind = λ p a. r.behind p a ∙ away p (λ same. omega (arith, same, a, r.upper));
      stop = λ a b. r.stop a (away e (λ same. omega (arith, same, r.upper)) ∙ b);
    }

-- The page in which a pointer's header lies.
abbrev pub page_of : ℕ → ℕ
page_of ptr = (ptr - header_size) / page_size

pub kfree-Freed :
    (ptr : ℕ) (m : Memory)
    → m.page_table (page_of ptr) ≡ 1
    → (e : ℕ) × Freed (page_of ptr) e m.page_table ((kfree ptr m).page_table)
unfolding kfree
kfree-Freed ptr m head =
    let (e, r) =
      free_tail-Cleared num_pages (page_of ptr + 1) (update m.page_table (page_of ptr) 0)
        (omega arith) in
    rw (eq→== _ _ head) (e, Cleared-Freed (page_of ptr) e r)

-- A pointer to a page that starts no block: `kfree` leaves the table alone.
pub kfree-no_head :
    (ptr : ℕ) (m : Memory)
    → m.page_table (page_of ptr) ≢ 1
    → (kfree ptr m).page_table ≡ m.page_table
unfolding kfree
kfree-no_head ptr m other = rw (ne→== _ _ other)
