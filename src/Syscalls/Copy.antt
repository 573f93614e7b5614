-- ===== src/Syscalls/Copy.antt =====
-- `copy_memory` of memory/memory.c.
use apna_os.Prelude.{
  ℕ, zero, suc, ◌+◌, ◌≤◌, ◌<◌, ◌≡◌, refl, ◌⊎◌, inl, inr, arith, Bytes, update, update_self,
  update_ne, Bool-cases, ◌&&◌, true, false, ◌∙◌, ℕ_discrete, dec_lt,
}
use apna_os.Prelude.Run
use apna_os.Prelude.Run.{Run, done, Ends, ends, stops}
use apna_os.Memory.{kernel_memory_size}
use apna_os.Scheduler.{Kernel}
use apna_os.Syscalls.{may_access, copy_loop, copy_done, copy_memory}

-- The bytes from the distance `i` on, `n` of them, are copied.
record Copied (n i dest src : ℕ) (mem mem' : Bytes) : Type 0 where
  others : (q : ℕ) → q < dest + i ⊎ dest + i + n ≤ q → mem' q ≡ mem q
  copies :
      (j : ℕ)
      → i ≤ j
      → j < i + n
      → src + j < dest + i ⊎ dest + i + n ≤ src + j
      → mem' (dest + j) ≡ mem (src + j)
  room : n ≡ 0 ⊎ dest + i + n ≤ kernel_memory_size

-- One of the two places is no place for so many bytes.
abbrev pub NoPlace : ℕ → ℕ → ℕ → Type 0
NoPlace size dest src =
    ((src ≡ 0) ⊎ (dest ≡ 0))
    ⊎ ((kernel_memory_size < src + size) ⊎ (kernel_memory_size < dest + size))

no_access : (p i : ℕ) → may_access p i ≡ false → (p ≡ 0) ⊎ (kernel_memory_size ≤ p + i)
no_access p i e = elim (ℕ_discrete p 0) [
  | yes z ↦ inl z
  | no ne ↦ elim (dec_lt (p + i) kernel_memory_size) [
    | yes l ↦ absurd (ground (arith, e, ne, l))
    | no nl ↦ inr (omega (arith, nl))
  ]
]

accessed : (p i : ℕ) → may_access p i ≡ true → p + i < kernel_memory_size
accessed p i e = ground (arith, e)

refused :
    (size i dest src : ℕ)
    → i < size
    → (may_access src i && may_access dest i) ≡ false
    → NoPlace size dest src
refused size i dest src l e = elim (Bool-cases (may_access src i)) [
  | inr f ↦ elim (no_access src i f) [
    | inl z ↦ inl (inl z)
    | inr past ↦ inr (inl (omega (arith, l, past)))
  ]
  | inl t ↦ elim (no_access dest i (rw t at e)) [
    | inl z ↦ inl (inr z)
    | inr past ↦ inr (inr (omega (arith, l, past)))
  ]
]

copy_loop-Copied :
    (size n i dest src : ℕ) (mem : Bytes)
    → i + n ≤ size
    → Ends
        (NoPlace size dest src)
        (λ _ mem'. Copied n i dest src mem mem')
        (copy_loop n i dest src mem)
unfolding copy_loop
copy_loop-Copied size zero i dest src mem l = ends (record {
  others = λ q h. refl;
  copies = λ j lo hi h. absurd (omega (arith, lo, hi));
  room = inl refl;
})
copy_loop-Copied size (suc n) i dest src mem l =
    elim (Bool-cases (may_access src i && may_access dest i)) [
      | inr f ↦ rw f (stops (refused size i dest src (omega (arith, l)) f))
      | inl t ↦
          let mem1 = update mem (dest + i) (mem (src + i)) in
          rw t (
            Run.mono-Ends (copy_loop-Copied size n (i + 1) dest src mem1 (omega (arith, l)))
              (λ f. f)
              λ _ mem' v. record {
                others = λ q h.
                    v.others q (ground (arith, h))
                    ∙ update_ne mem (dest + i) q (mem (src + i)) (λ e. ground (arith, h, e));
                copies = λ j lo hi h. elim (ℕ_discrete i j) [
                  | yes e ↦ rw (← e) (
                      v.others (dest + i) (inl (omega arith))
                      ∙ update_self mem (dest + i) (mem (src + i)))
                  | no ne ↦
                      v.copies j (omega (arith, lo, ne)) (omega (arith, hi)) (ground (arith, h))
                      ∙ update_ne mem (dest + i) (src + j) (mem (src + i))
                          (λ e. ground (arith, h, lo, hi, ne, e))
                ];
                room = inr (elim (v.room) [
                  | inl z ↦
                      let at : may_access dest i ≡ true = ground (arith, t) in
                      let l' = accessed dest i at in omega (arith, z, l')
                  | inr le ↦ omega (arith, le)
                ]);
              })
    ]

-- The kernel but for the bytes of its memory, and what the copy makes of them.
pub record IsCopied (size dest src : ℕ) (k k' : Kernel) : Type 0 where
  pub mem : Bytes
  pub same : k' ≡ record k { memory = record (k.memory) { kernel_memory = mem } }
  pub others : (q : ℕ) → q < dest ⊎ dest + size ≤ q → mem q ≡ k.memory.kernel_memory q
  pub copies :
      (j : ℕ)
      → j < size
      → src + j < dest ⊎ dest + size ≤ src + j
      → mem (dest + j) ≡ k.memory.kernel_memory (src + j)
  pub room : size ≡ 0 ⊎ dest + size ≤ kernel_memory_size

pub copy_memory-IsCopied :
    (dest src size : ℕ) (k : Kernel)
    → Ends
        (NoPlace size dest src)
        (λ _ k'. IsCopied size dest src k k')
        (copy_memory dest src size k)
unfolding copy_memory copy_done
copy_memory-IsCopied dest src size k =
    finish (copy_loop size 0 dest src k.memory.kernel_memory)
      (copy_loop-Copied size size 0 dest src k.memory.kernel_memory (omega arith))
  where
    finish :
        (r : Run Bytes (Unit {0}))
        → Ends
            (NoPlace size dest src)
            (λ _ mem'. Copied size 0 dest src k.memory.kernel_memory mem')
            r
        → Ends (NoPlace size dest src) (λ _ k'. IsCopied size dest src k k') (copy_done k r)
    finish _ (stops f) = stops f
    finish _ (ends {s = mem} v) = ends (record {
      mem = mem;
      same = refl;
      others = λ q h. v.others q (ground (arith, h));
      copies = λ j hi h. v.copies j (omega arith) (omega (arith, hi)) (ground (arith, h));
      room = elim (v.room) [ inl z ↦ inl z | inr l ↦ inr (omega (arith, l)) ];
    })
