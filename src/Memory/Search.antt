-- ===== src/Memory/Search.antt =====
-- What `scan` finds: the first row of free pages, in the order in which it looks.
use apna_os.Prelude.{
  ℕ, zero, suc, ◌+◌, ◌-◌, ◌%◌, ◌≤◌, ◌<◌, ◌≡◌, refl, ◌≢◌, arith, Option, none, some, Array,
  ℕ_discrete, dec_lt, ne→==, eq→==, subst,
}
use apna_os.Memory.{num_pages, start_at, scan}

-- The `n` pages from the `a`-th on, counted from `start` and round the end of the table, are free.
abbrev pub RowAt : Array ℕ → ℕ → ℕ → ℕ → Type 0
RowAt table start n a = (k : ℕ) → a ≤ k → k < a + n → table ((start + k) % num_pages) ≡ 0

-- The result of the search: the first row that ends within one round, or none.
pub data FirstRow (table : Array ℕ) (start n : ℕ) : Option ℕ → Type 0 where
  row :
      (a : ℕ)
      → a + n ≤ num_pages
      → RowAt table start n a
      → ((b : ℕ) → b < a → RowAt table start n b → ⊥)
      → FirstRow table start n (some ((start + a) % num_pages))
  no_row : ((b : ℕ) → b + n ≤ num_pages → RowAt table start n b → ⊥) → FirstRow table start n none

-- `found_start` when `count` pages before `i` are free.
abbrev pub row_start : ℕ → ℕ → ℕ → Option ℕ
row_start start i zero = none
row_start start i (suc count) = some ((start + (i - suc count)) % num_pages)

start_at-row :
    (start i count : ℕ)
    → start_at (row_start start i count) ((start + i) % num_pages)
      ≡ (start + (i - count)) % num_pages
start_at-row start i zero = let e : i - 0 ≡ i = omega arith in rw e
start_at-row start i (suc count) = refl

row_start-suc :
    (start i count : ℕ)
    → some (start_at (row_start start i count) ((start + i) % num_pages))
      ≡ row_start start (i + 1) (count + 1)
row_start-suc start i count =
    let c : count + 1 ≡ suc count = omega arith in
    let e : i + 1 - suc count ≡ i - count = omega arith in rw (start_at-row start i count, c, e)

-- The loop invariant: `count` free pages end before `i`, and no row starts before them.
pub record Seen (table : Array ℕ) (start n i count : ℕ) : Type 0 where
  le : count ≤ i
  short : count < n
  free : RowAt table start count (i - count)
  before : (b : ℕ) → b < i - count → RowAt table start n b → ⊥

module _ {table : Array ℕ} {start n i count : ℕ} (s : Seen table start n i count) where
  longer : table ((start + i) % num_pages) ≡ 0 → RowAt table start (count + 1) (i - count)
  longer e k a b = elim (ℕ_discrete k i) [
    | yes same ↦ rw same e
    | no other ↦ s.free k a (omega (arith, s.le))
  ]

  Seen-longer :
      table ((start + i) % num_pages) ≡ 0 → count + 1 ≢ n → Seen table start n (i + 1) (count + 1)
  Seen-longer e more =
      let same : i + 1 - (count + 1) ≡ i - count = omega arith in
      record {
        le = omega (arith, s.le);
        short = omega (arith, s.short);
        free = rw same (longer e);
        before = λ b l. s.before b (omega arith);
      }

  -- A taken page is in every row that starts at most at it and is longer than what stands before it.
  Seen-again : table ((start + i) % num_pages) ≢ 0 → Seen table start n (i + 1) 0
  Seen-again taken = record {
    le = omega arith;
    short = omega (arith, s.short);
    free = λ k a b. absurd (omega (arith, a, b));
    before = λ b l all. elim (dec_lt b (i - count)) [
      | yes l' ↦ s.before b l' all
      | no l' ↦ taken (all i (omega arith) (omega (arith, s.short, s.le)))
    ];
  }

pub Seen-start : {table : Array ℕ} {start n : ℕ} → 0 < n → Seen table start n 0 0
Seen-start some_page = record {
  le = omega arith;
  short = some_page;
  free = λ k a b. absurd (omega (arith, a, b));
  before = λ b l. absurd (omega (arith, l));
}

pub scan-FirstRow :
    (r : ℕ) (table : Array ℕ) (start n i count : ℕ)
    → i + r ≡ num_pages
    → Seen table start n i count
    → FirstRow table start n (scan r table start n i count (row_start start i count))
unfolding scan
scan-FirstRow zero table start n i count e s =
    no_row λ b fits all. s.before b (omega (arith, s.short)) all
scan-FirstRow (suc r) table start n i count e s =
    elim (ℕ_discrete (table ((start + i) % num_pages)) 0) [
      | no taken ↦
          rw (ne→== _ _ taken)
            (scan-FirstRow r table start n (i + 1) 0 (omega arith) (Seen-again s taken))
      | yes free ↦ elim (ℕ_discrete (count + 1) n) [
        | yes full ↦
            rw (eq→== _ _ free, eq→== _ _ full, start_at-row start i count)
              (row (i - count) (omega (arith, s.le))
                (subst (λ m. RowAt table start m (i - count)) full (longer s free)) (s.before))
        | no more ↦
            rw (eq→== _ _ free, ne→== _ _ more, row_start-suc start i count)
              (scan-FirstRow r table start n (i + 1) (count + 1) (omega arith)
                (Seen-longer s free more))
      ]
    ]
