-- ===== src/Disk/Write.antt =====
-- The loop of `write_file`: which bytes it puts into the file, and that it writes to no block of
-- another one.
use apna_os.Prelude.{
  ℕ, zero, suc, ◌+◌, ◌-◌, ◌*◌, ◌/◌, ◌%◌, ◌≤◌, ◌<◌, ◌≡◌, refl, ◌≢◌, ◌⊎◌, inl, inr, arith, Bytes, ltb,
  if◌then◌else◌, update, ℕ_discrete, dec_lt, lt→ltb, ge→ltb, ne→==, eq→==, min,
}
use apna_os.Prelude.Run
use apna_os.Prelude.Run.{done, Returns, returns}
use apna_os.Text.{memcpy}
use apna_os.Text.Copy.{memcpy_lem}
use apna_os.Disk.State.{
  Fs, block_count, block_size, max_blocks_per_file, max_files, no_block, load_inode,
}
use apna_os.Disk.Transfer.{copy_in, write_loop}
use apna_os.Disk.Valid.{Owned}

-- The byte at offset `p` of the file at `ix`.
abbrev pub content : Fs → ℕ → ℕ → ℕ
content fs ix p = fs.storage ((fs.inode_table ix).blocks (p / block_size)) (p % block_size)

-- The state behind `copy_in`.
abbrev pub copied : Fs → ℕ → ℕ → Bytes → ℕ → ℕ → Fs
copied fs b offset buffer at n = record fs {
  storage = update fs.storage b (memcpy (fs.storage b) offset buffer at n);
}

pub copy_in-copied :
    (fs : Fs) (b offset : ℕ) (buffer : Bytes) (at n : ℕ)
    → b < block_count
    → offset + n ≤ block_size
    → copy_in b offset buffer at n fs ≡ done tt (copied fs b offset buffer at n)
unfolding copy_in
copy_in-copied fs b offset buffer at n l k = ground arith

-- The outcome of the loop, started with `w` bytes written of the `n` of the buffer.
pub record Written (ix n w : ℕ) (buffer : Bytes) (fs : Fs) (w' : ℕ) (fs' : Fs) : Type 0 where
  pub same : fs' ≡ record fs { storage = fs'.storage }
  pub lower : w ≤ w'
  pub upper : w' ≤ n
  pub bytes : (p : ℕ) → p < w' → content fs' ix p ≡ (if ltb p w then content fs ix p else buffer p)
  pub held :
      (p : ℕ)
      → w ≤ p
      → p < w'
      → (p / block_size < max_blocks_per_file)
        × ((fs.inode_table ix).blocks (p / block_size) ≢ no_block)
  pub others :
      (b : ℕ)
      → ((j : ℕ) → j < max_blocks_per_file → (fs.inode_table ix).blocks j ≢ b)
      → fs'.storage b ≡ fs.storage b
  pub stop :
      (w' ≡ n)
      ⊎ (w' ≡ max_blocks_per_file * block_size)
      ⊎ ((w' % block_size ≡ 0) × ((fs.inode_table ix).blocks (w' / block_size) ≡ no_block))

module _ (fs : Fs) (o : Owned fs.inode_table fs.block_bitmap) (ix : ℕ) (l : ix < max_files)
    (buffer : Bytes) where
  -- One block: place `j`, with the `c` bytes from offset `j * block_size` of the buffer.
  content-copied :
      (j c p : ℕ)
      → j < max_blocks_per_file
      → (fs.inode_table ix).blocks j ≢ no_block
      → c ≤ block_size
      → p < j * block_size + c
      → content (copied fs ((fs.inode_table ix).blocks j) 0 buffer (j * block_size) c) ix p
        ≡ (if ltb p (j * block_size) then content fs ix p else buffer p)
  content-copied j c p a held small m = elim (dec_lt p (j * block_size)) [
    | yes before ↦ ground (arith, o.apart ix j ix (p / block_size) l a l)
    | no after ↦
        let q : p / block_size ≡ j = omega arith in
        let e : j * block_size + (p % block_size - 0) ≡ p = omega arith in
        let step =
          memcpy_lem (fs.storage ((fs.inode_table ix).blocks j)) 0 buffer (j * block_size) c
            (p % block_size) in
        rw q (ground (arith, rw e at step))
  ]

Written-stop :
    (ix n w : ℕ) (buffer : Bytes) (fs : Fs)
    → w ≤ n
    → (w ≡ n)
      ⊎ (w ≡ max_blocks_per_file * block_size)
      ⊎ ((w % block_size ≡ 0) × ((fs.inode_table ix).blocks (w / block_size) ≡ no_block))
    → Written ix n w buffer fs w fs
Written-stop ix n w buffer fs le why = record {
  same = refl;
  lower = omega arith;
  upper = le;
  bytes = λ p h. rw (lt→ltb p w h);
  held = λ p a b. absurd (omega arith);
  others = λ b h. refl;
  stop = why;
}

-- What the rest of the loop does after one block, seen from before that block.
Written-step :
    (fs : Fs) (o : Owned fs.inode_table fs.block_bitmap) (ix n j c w : ℕ) (buffer : Bytes) {w' : ℕ}
    {fs' : Fs}
    → ix < max_files
    → j < max_blocks_per_file
    → (fs.inode_table ix).blocks j ≢ no_block
    → c ≤ block_size
    → w ≡ j * block_size
    → Written ix n (w + c) buffer (copied fs ((fs.inode_table ix).blocks j) 0 buffer w c) w' fs'
    → Written ix n w buffer fs w' fs'
Written-step fs o ix n j c w buffer l a held small e r = record {
  same = r.same;
  lower = omega (arith, r.lower);
  upper = r.upper;
  bytes = λ p h. elim (dec_lt p (w + c)) [
    | yes m ↦ ground (
      arith,
      r.bytes p h,
      rw (← e) at (content-copied fs o ix l buffer j c p a held small (omega arith)),
    )
    | no m ↦ ground (arith, r.bytes p h)
  ];
  held = λ p b d. elim (dec_lt p (w + c)) [
    | yes m ↦ let q : j ≡ p / block_size = omega arith in (omega arith, rw q at held)
    | no m ↦ r.held p (omega arith) d
  ];
  others = λ b apart. ground (arith, r.others b apart, apart j a);
  stop = r.stop;
}

-- `write_loop` ends inside the bounds, having written a prefix of what was asked.
pub write_loop-Written :
    (k : ℕ) (fs : Fs) (o : Owned fs.inode_table fs.block_bitmap) (ix n j w : ℕ) (buffer : Bytes)
    → ix < max_files
    → j + k ≡ max_blocks_per_file
    → w ≤ n
    → (w ≡ j * block_size) ⊎ (w ≡ n)
    → Returns (Written ix n w buffer fs) (write_loop k ix buffer n j w fs)
unfolding write_loop
write_loop-Written zero fs o ix n j w buffer l e le at =
    returns (Written-stop ix n w buffer fs le (ground arith))
write_loop-Written (suc k) fs o ix n j w buffer l e le at = elim (dec_lt w n) [
  | no all ↦
      rw (ge→ltb w n (omega arith)) (returns (Written-stop ix n w buffer fs le (inl (omega arith))))
  | yes more ↦
      let here : w ≡ j * block_size = ground arith in
      let q : w / block_size ≡ j = omega arith in
      let c = min block_size (n - w) in
      let b = (fs.inode_table ix).blocks j in
      rw (lt→ltb w n more, load_inode, lt→ltb ix max_files l)
        (elim (ℕ_discrete b no_block) [
          | yes none_left ↦
              rw (eq→== b no_block none_left) (
                returns
                  (Written-stop ix n w buffer fs le (inr (inr (omega arith, rw q none_left)))))
          | no held ↦
              rw
                (
                  ne→== b no_block held,
                  copy_in-copied fs b 0 buffer w c (o.marked ix j l (omega arith) held).0
                      (omega arith),
                )
                (Run.mono
                  (write_loop-Written k (copied fs b 0 buffer w c) o ix n (j + 1) (w + c) buffer l
                    (omega arith) (omega arith) (ground arith))
                  (λ w' fs' r.
                    Written-step fs o ix n j c w buffer l (omega arith) held (omega arith) here r))
        ])
]
