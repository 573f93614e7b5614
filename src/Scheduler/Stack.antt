-- ===== src/Scheduler/Stack.antt =====
-- The stack of a new process in `create_process` of process/process.c.
use apna_os.Prelude.{
  ℕ, ◌+◌, ◌-◌, ◌<◌, ◌≡◌, refl, ◌∙◌, ap, Bytes, ◌*◌, ◌%◌, ◌^◌, ◌≤◌, ◌/◌, ◌⊎◌, inr, leb, true, false,
  arith,
}
use apna_os.Prelude.Run.{done, fault}
use apna_os.Memory.{Memory, kernel_memory_size, kmalloc}
use apna_os.Scheduler.{Kernel, poke, poked, write_word, kernel_stack_size}
use apna_os.Scheduler.Keep.{InUse, kmalloc-keeps}

-- The word at `p`, the least byte first.
abbrev word_at : Bytes → ℕ → ℕ
word_at mem p = mem p + mem (p + 1) * 2 ^ 8 + mem (p + 2) * 2 ^ 16 + mem (p + 3) * 2 ^ 24

-- The process at `p` has a stack of 4096 bytes, with the null word and above it the entry point on
-- top.
pub record HasStack (k : Kernel) (p base entry_point : ℕ) : Type 0 where
  pub inside : base + 4096 ≤ kernel_memory_size
  pub start : (k.blocks p).user_stack_base ≡ base
  pub top : (k.blocks p).user_stack_ptr ≡ base + 4088
  pub returns_to : word_at k.memory.kernel_memory (base + 4088) ≡ 0
  pub enters_at : word_at k.memory.kernel_memory (base + 4092) ≡ entry_point % 2 ^ 32

pub poke-inside :
    (p word : ℕ) (k : Kernel)
    → p + 4 ≤ kernel_memory_size
    → poke p word k ≡ done tt (poked p word k)
unfolding poke
poke-inside p word k l =
    let e : leb (p + 4) kernel_memory_size ≡ true = ground (arith, l) in rw e refl

pub poke-outside : (p word : ℕ) (k : Kernel) → kernel_memory_size < p + 4 → poke p word k ≡ fault
unfolding poke
poke-outside p word k l =
    let e : leb (p + 4) kernel_memory_size ≡ false = ground (arith, l) in rw e refl

write_word-word_at : (mem : Bytes) (p word : ℕ) → word_at (write_word mem p word) p ≡ word % 2 ^ 32
unfolding write_word
write_word-word_at mem p word =
    let m' = write_word mem p word in
    let b0 : m' p ≡ word % 256 = ground arith in
    let b1 : m' (p + 1) ≡ word / 2 ^ 8 % 256 = ground arith in
    let b2 : m' (p + 2) ≡ word / 2 ^ 16 % 256 = ground arith in
    let b3 : m' (p + 3) ≡ word / 2 ^ 24 % 256 = ground arith in rw (b0, b1, b2, b3) (omega arith)

same-word_at :
    (mem mem' : Bytes) (p : ℕ)
    → ((q : ℕ) → p ≤ q → q < p + 4 → mem' q ≡ mem q)
    → word_at mem' p ≡ word_at mem p
same-word_at mem mem' p h =
    let b0 = h p (omega arith) (omega arith) in
    let b1 = h (p + 1) (omega arith) (omega arith) in
    let b2 = h (p + 2) (omega arith) (omega arith) in
    let b3 = h (p + 3) (omega arith) (omega arith) in rw (b0, b1, b2, b3) refl

write_word-other :
    (mem : Bytes) (p word q : ℕ) → q < p ⊎ p + 4 ≤ q → write_word mem p word q ≡ mem q
unfolding write_word
write_word-other mem p word q h = ground arith

-- The two words stay where the kernel stack is allocated.
pub stacked :
    (p base word : ℕ) (m : Memory) (mem : Bytes)
    → mem ≡ write_word (write_word m.kernel_memory (base + 4096 - 4) word) (base + 4096 - 8) 0
    → ((q : ℕ) → base ≤ q → q < base + 4096 → InUse m q)
    → (word_at
          (kmalloc kernel_stack_size (record m { kernel_memory = mem })).1.kernel_memory
          (base + 4088)
        ≡ 0)
      × (word_at
            (kmalloc kernel_stack_size (record m { kernel_memory = mem })).1.kernel_memory
            (base + 4092)
          ≡ word % 2 ^ 32)
stacked p base word m mem e used =
    let m1 : Memory = record m { kernel_memory = mem } in
    let keeps : (q : ℕ)
        → base ≤ q
        → q < base + 4096
        → (kmalloc kernel_stack_size m1).1.kernel_memory q ≡ mem q =
      λ q lo hi. kmalloc-keeps kernel_stack_size q m1 (used q lo hi) in
    let inner = write_word m.kernel_memory (base + 4092) word in
    let e8 : base + 4096 - 8 ≡ base + 4088 = omega arith in
    let e4 : base + 4096 - 4 ≡ base + 4092 = omega arith in
    let e' : mem ≡ write_word inner (base + 4088) 0 = rw (e8, e4) at e in
    let low : word_at mem (base + 4088) ≡ 0 =
      ap (λ mem. word_at mem (base + 4088)) e' ∙ write_word-word_at inner (base + 4088) 0 in
    let high : word_at mem (base + 4092) ≡ word % 2 ^ 32 =
      ap (λ mem. word_at mem (base + 4092)) e'
      ∙ same-word_at inner (write_word inner (base + 4088) 0) (base + 4092)
          (λ q lo hi. write_word-other inner (base + 4088) 0 q (inr (omega (arith, lo))))
      ∙ write_word-word_at m.kernel_memory (base + 4092) word in
    (
      same-word_at mem (kmalloc kernel_stack_size m1).1.kernel_memory (base + 4088)
            (λ q lo hi. keeps q (omega (arith, lo)) (omega (arith, hi)))
          ∙ low,
      same-word_at mem (kmalloc kernel_stack_size m1).1.kernel_memory (base + 4092)
            (λ q lo hi. keeps q (omega (arith, lo)) (omega (arith, hi)))
          ∙ high,
    )
