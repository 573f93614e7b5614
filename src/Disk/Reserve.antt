-- ===== src/Disk/Reserve.antt =====
-- `allocate_blocks`: an inode grows, and nothing else of the file system changes but the bitmap and
-- the counter of free blocks.
use apna_os.Prelude.{
  ℕ, zero, suc, ◌+◌, ◌≤◌, ◌<◌, ◌≡◌, refl, ◌≢◌, ◌⊎◌, inl, inr, arith, Array, ◌==◌, update,
  ℕ_discrete, dec_lt, count_below-drop, count_below-all, count_below-zero, count_below-pos,
  count_below-le, not, ◌∙◌, lt→ltb, ge→ltb, ne→==, eq→==,
}
use apna_os.Prelude.Run
use apna_os.Prelude.Run.{done, Returns, returns}
use apna_os.Disk.State.{
  Inode, Fs, block_count, max_blocks_per_file, max_files, no_block, load_inode,
}
use apna_os.Disk.Alloc.{allocate_loop, allocate_blocks}
use apna_os.Disk.Valid.{IsValid, held, free_count}
use apna_os.Disk.Grow.{DiskFull, allocate_block-cases, granted, granted-IsValid, set_block-granted}

-- What growing the inode at `ix` may change, and what it may not.
pub record Grown (ix : ℕ) (fs fs' : Fs) : Type 0 where
  pub storage : fs'.storage ≡ fs.storage
  pub root : fs'.root_directory ≡ fs.root_directory
  pub others : (k : ℕ) → k ≢ ix → fs'.inode_table k ≡ fs.inode_table k
  pub number : (fs'.inode_table ix).inode_number ≡ (fs.inode_table ix).inode_number
  pub size : (fs'.inode_table ix).size ≡ (fs.inode_table ix).size
  pub permissions : (fs'.inode_table ix).permissions ≡ (fs.inode_table ix).permissions
  pub kept :
      (j : ℕ)
      → (fs.inode_table ix).blocks j ≢ no_block
      → (fs'.inode_table ix).blocks j ≡ (fs.inode_table ix).blocks j

pub Grown-refl : (ix : ℕ) (fs : Fs) → Grown ix fs fs
Grown-refl ix fs = record {
  storage = refl;
  root = refl;
  others = λ k ne. refl;
  number = refl;
  size = refl;
  permissions = refl;
  kept = λ j h. refl;
}

Grown-granted :
    (ix i b : ℕ) {fs fs' : Fs}
    → (fs.inode_table ix).blocks i ≡ no_block
    → Grown ix (granted fs ix i b) fs'
    → Grown ix fs fs'
Grown-granted ix i b empty g = record {
  storage = g.storage;
  root = g.root;
  others = λ k ne. ground (arith, g.others k ne);
  number = ground (arith, g.number);
  size = ground (arith, g.size);
  permissions = ground (arith, g.permissions);
  kept = λ j h. ground (arith, g.kept j);
}

-- The outcome of a loop that has allocated `a` blocks of `required` so far, and ends with `a'`:
-- it got them all, or the disk is full, or the inode is.
pub record Allocated (ix required a : ℕ) (fs : Fs) (a' : ℕ) (fs' : Fs) : Type 0 where
  pub valid : IsValid fs'
  pub grown : Grown ix fs fs'
  pub gained : held (fs'.inode_table ix) + a ≡ held (fs.inode_table ix) + a'
  pub spent : fs'.sb.free_blocks + a' ≡ fs.sb.free_blocks + a
  pub limit : a' ≤ required
  pub stop :
      (a' ≡ required) ⊎ (fs'.sb.free_blocks ≡ 0) ⊎ (held (fs'.inode_table ix) ≡ max_blocks_per_file)

held-grant :
    (ino : Inode) (i b : ℕ)
    → i < max_blocks_per_file
    → b < block_count
    → ino.blocks i ≡ no_block
    → held (record ino { blocks = update ino.blocks i b }) ≡ held ino + 1
unfolding held
held-grant ino i b l in_disk empty =
    count_below-drop (λ j. not (update ino.blocks i b j == no_block))
      (λ j. not (ino.blocks j == no_block)) max_blocks_per_file i l (ground arith) (ground arith)
      (λ j ne. ground arith)

held-full :
    (ino : Inode)
    → ((j : ℕ) → j < max_blocks_per_file → ino.blocks j ≢ no_block)
    → held ino ≡ max_blocks_per_file
unfolding held
held-full ino h =
    count_below-all (λ j. not (ino.blocks j == no_block)) max_blocks_per_file
      (λ j l. ground (arith, h j l))

free_blocks-full : {fs : Fs} → IsValid fs → DiskFull fs → fs.sb.free_blocks ≡ 0
unfolding free_count
free_blocks-full {fs} v full =
    v.counted
    ∙ count_below-zero (λ b. fs.block_bitmap b == 0) block_count (λ b l. ground (arith, full b l))

free_blocks-pos :
    {fs : Fs} (b : ℕ)
    → IsValid fs
    → b < block_count
    → fs.block_bitmap b ≡ 0
    → (0 < fs.sb.free_blocks) × (fs.sb.free_blocks ≤ block_count)
unfolding free_count
free_blocks-pos {fs} b v l free = omega (
  arith,
  v.counted,
  count_below-pos (λ c. fs.block_bitmap c == 0) block_count b l (ground arith),
  count_below-le (λ c. fs.block_bitmap c == 0) block_count,
)

extend :
    {blocks : Array ℕ} (i : ℕ)
    → ((j : ℕ) → j < i → blocks j ≢ no_block)
    → blocks i ≢ no_block
    → (j : ℕ) → j < i + 1
    → blocks j ≢ no_block
extend i before place j l = elim (ℕ_discrete i j) [
  | yes e ↦ rw (← e) place
  | no ne ↦ before j (omega arith)
]

granted-before :
    (fs : Fs) (ix i b : ℕ)
    → b < block_count
    → ((j : ℕ) → j < i → (fs.inode_table ix).blocks j ≢ no_block)
    → (j : ℕ) → j < i + 1
    → ((granted fs ix i b).inode_table ix).blocks j ≢ no_block
granted-before fs ix i b in_disk before j l = ground (arith, before j)

Allocated-granted :
    {fs fs' : Fs} {ix i b required a a' : ℕ}
    → IsValid fs
    → b < block_count
    → fs.block_bitmap b ≡ 0
    → i < max_blocks_per_file
    → (fs.inode_table ix).blocks i ≡ no_block
    → Allocated ix required (a + 1) (granted fs ix i b) a' fs'
    → Allocated ix required a fs a' fs'
Allocated-granted {fs} {ix} {i} {b} v in_disk free l empty r = record {
  valid = r.valid;
  grown = Grown-granted ix i b empty r.grown;
  gained = ground (arith, r.gained, held-grant (fs.inode_table ix) i b l in_disk empty);
  spent = ground (arith, r.spent, free_blocks-pos b v in_disk free);
  limit = r.limit;
  stop = r.stop;
}

pub allocate_loop-Allocated :
    (n ix required i a : ℕ) {fs : Fs}
    → IsValid fs
    → ix < max_files
    → (fs.inode_table ix).inode_number ≢ 0
    → i + n ≡ max_blocks_per_file
    → a ≤ required
    → ((j : ℕ) → j < i → (fs.inode_table ix).blocks j ≢ no_block)
    → Returns (Allocated ix required a fs) (allocate_loop n ix required i a fs)
unfolding allocate_loop
allocate_loop-Allocated zero ix required i a {fs} v l used e le before = returns (record {
  valid = v;
  grown = Grown-refl ix fs;
  gained = refl;
  spent = refl;
  limit = le;
  stop = inr (inr (held-full (fs.inode_table ix) (λ j h. before j (omega arith))));
})
allocate_loop-Allocated (suc n) ix required i a {fs} v l used e le before =
    elim (dec_lt a required) [
      | no done_all ↦ rw (ge→ltb a required (omega arith)) (
          returns (record {
            valid = v;
            grown = Grown-refl ix fs;
            gained = refl;
            spent = refl;
            limit = le;
            stop = inl (omega arith);
          }))
      | yes more ↦
          rw (lt→ltb a required more, load_inode, lt→ltb ix max_files l)
            (elim (ℕ_discrete ((fs.inode_table ix).blocks i) no_block) [
              | no place ↦ rw (ne→== _ _ place) (
                  allocate_loop-Allocated n ix required (i + 1) a v l used (omega arith) le
                    (extend i before place))
              | yes empty ↦ rw (eq→== _ _ empty) (elim (allocate_block-cases fs) [
                | inl (none_free, full) ↦ rw none_free (
                    returns (record {
                      valid = v;
                      grown = Grown-refl ix fs;
                      gained = refl;
                      spent = refl;
                      limit = le;
                      stop = inr (inl (free_blocks-full v full));
                    }))
                | inr (b, some_free, in_disk, free) ↦
                    let v' = granted-IsValid v ix i b in_disk free l used before in
                    let place : update (fs.inode_table ix).blocks i b i ≢ no_block = ground arith in
                    rw (some_free, set_block-granted fs ix i b l)
                      (Run.mono
                        (allocate_loop-Allocated n ix required (i + 1) (a + 1) v' l (ground arith)
                          (omega arith) (omega arith) (granted-before fs ix i b in_disk before))
                        (λ a' fs' r. Allocated-granted v in_disk free (omega arith) empty r))
              ])
            ])
    ]

-- `allocate_blocks` gives the inode as many more blocks as are asked for, unless the disk or the
-- inode is full.
pub allocate_blocks-Allocated :
    (ix required : ℕ) {fs : Fs}
    → IsValid fs
    → ix < max_files
    → (fs.inode_table ix).inode_number ≢ 0
    → Returns (Allocated ix required 0 fs) (allocate_blocks ix required fs)
unfolding allocate_blocks
allocate_blocks-Allocated ix required v l used =
    allocate_loop-Allocated max_blocks_per_file ix required 0 0 v l used refl (omega arith)
      (λ j h. absurd (omega arith))
