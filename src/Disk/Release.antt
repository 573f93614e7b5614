-- ===== src/Disk/Release.antt =====
-- The loop of `delete_file` that gives the blocks of a file back.
use apna_os.Prelude.{
  ℕ, zero, suc, ◌+◌, ◌≤◌, ◌<◌, ◌≡◌, refl, sym, subst, ◌≢◌, arith, not, ◌==◌, update, update_ne,
  lt→ltb, ne→==, eq→==, ℕ_discrete, ◌∙◌, count_below-drop, count_below-le,
}
use apna_os.Prelude.Run
use apna_os.Prelude.Run.{done, Returns, returns}
use apna_os.Disk.State.{
  Inode, Fs, block_count, max_files, max_blocks_per_file, no_block, inc32, load_inode, store_inode,
}
use apna_os.Disk.Files.{release_block, release_loop}
use apna_os.Disk.Valid.{Owned, free_count, held}
use apna_os.Disk.Blocks.{Owned-release, free_count-release}

-- The state once place `j` of the inode at `ix`, which held a block, is given back.
abbrev pub released : Fs → ℕ → ℕ → Fs
released fs ix j = record fs {
  inode_table =
      update fs.inode_table ix
        (record (fs.inode_table ix) { blocks = update (fs.inode_table ix).blocks j no_block });
  block_bitmap = update fs.block_bitmap ((fs.inode_table ix).blocks j) 0;
  sb = record (fs.sb) { free_blocks = inc32 fs.sb.free_blocks };
}

pub release_block-empty :
    (fs : Fs) (ix j : ℕ)
    → ix < max_files
    → (fs.inode_table ix).blocks j ≡ no_block
    → release_block ix j fs ≡ done tt fs
unfolding release_block
release_block-empty fs ix j l e = rw (load_inode, lt→ltb ix max_files l, eq→== _ _ e)

pub release_block-held :
    (fs : Fs) (ix j : ℕ)
    → ix < max_files
    → (fs.inode_table ix).blocks j ≢ no_block
    → (fs.inode_table ix).blocks j < block_count
    → release_block ix j fs ≡ done tt (released fs ix j)
unfolding release_block
release_block-held fs ix j l ne inside =
    rw (load_inode, store_inode, lt→ltb ix max_files l, ne→== _ _ ne, lt→ltb _ _ inside)

-- Part of the invariant that holds between the rounds: ownership and the counter.
pub record IsCounted (fs : Fs) : Type 0 where
  pub owned : Owned fs.inode_table fs.block_bitmap
  pub counted : fs.sb.free_blocks ≡ free_count fs.block_bitmap

-- The loop from place `j` on.
pub record Released (ix j : ℕ) (fs fs' : Fs) : Type 0 where
  pub rest : IsCounted fs'
  pub gone : (i : ℕ) → j ≤ i → i < max_blocks_per_file → (fs'.inode_table ix).blocks i ≡ no_block
  pub before : (i : ℕ) → i < j → (fs'.inode_table ix).blocks i ≡ (fs.inode_table ix).blocks i
  pub others : (k : ℕ) → k ≢ ix → fs'.inode_table k ≡ fs.inode_table k
  pub number : (fs'.inode_table ix).inode_number ≡ (fs.inode_table ix).inode_number
  pub total :
      held (fs'.inode_table ix) + fs'.sb.free_blocks ≡ held (fs.inode_table ix) + fs.sb.free_blocks
  pub root : fs'.root_directory ≡ fs.root_directory
  pub storage : fs'.storage ≡ fs.storage

pub held-release :
    (ino : Inode) (j : ℕ)
    → j < max_blocks_per_file
    → ino.blocks j ≢ no_block
    → held ino ≡ held (record ino { blocks = update ino.blocks j no_block }) + 1
unfolding held
held-release ino j l ne =
    count_below-drop (λ i. not (ino.blocks i == no_block))
      (λ i. not (update ino.blocks j no_block i == no_block)) max_blocks_per_file j l (ground arith)
      (ground arith) (λ i d. ground arith)

-- A block is taken, so the counter is below its end.
pub room :
    {fs : Fs} (b : ℕ)
    → IsCounted fs
    → b < block_count
    → fs.block_bitmap b ≡ 1
    → fs.sb.free_blocks < block_count
unfolding free_count
room {fs} b c l t = omega (
  arith,
  c.counted,
  count_below-drop (λ i. update fs.block_bitmap b 0 i == 0) (λ i. fs.block_bitmap i == 0)
      block_count b l (ground arith) (ground arith) (λ i d. ground arith),
  count_below-le (λ i. update fs.block_bitmap b 0 i == 0) block_count,
)

module _ {fs : Fs} (c : IsCounted fs) (ix j : ℕ) (l : ix < max_files) (a : j < max_blocks_per_file)
    (ne : (fs.inode_table ix).blocks j ≢ no_block) where
  pub released-IsCounted : IsCounted (released fs ix j)
  released-IsCounted =
      let (inside, taken) = c.owned.marked ix j l a ne in
      record {
        owned = Owned-release c.owned ix _ j l a ne (λ i. refl);
        counted = rw c.counted (
            free_count-release fs.block_bitmap ((fs.inode_table ix).blocks j) inside
              (omega (arith, taken)));
      }

  pub Released-step : {fs' : Fs} → Released ix (j + 1) (released fs ix j) fs' → Released ix j fs fs'
  Released-step {fs'} r =
      let (inside, taken) = c.owned.marked ix j l a ne in
      let more = held-release (fs.inode_table ix) j a ne in
      let bound = room ((fs.inode_table ix).blocks j) c inside taken in
      record {
        rest = r.rest;
        gone = λ i b d. elim (ℕ_discrete j i) [
          | yes e ↦
              subst (λ k. (fs'.inode_table ix).blocks k ≡ no_block) e
                (ground (arith, r.before j (omega arith)))
          | no ne' ↦ r.gone i (omega arith) d
        ];
        before = λ i b. ground (arith, r.before i (omega arith));
        others = λ k d. r.others k d ∙ update_ne fs.inode_table ix k _ (λ e. d (sym e));
        number = ground (arith, r.number);
        total = ground (arith, r.total, more, bound);
        root = r.root;
        storage = r.storage;
      }

pub release_loop-Released :
    (n ix j : ℕ) {fs : Fs}
    → IsCounted fs
    → ix < max_files
    → j + n ≡ max_blocks_per_file
    → Returns (λ _ fs'. Released ix j fs fs') (release_loop n ix j fs)
unfolding release_loop
release_loop-Released zero ix j c l e = returns (record {
  rest = c;
  gone = λ i a b. absurd (omega arith);
  before = λ i a. refl;
  others = λ k d. refl;
  number = refl;
  total = refl;
  root = refl;
  storage = refl;
})
release_loop-Released (suc n) ix j {fs} c l e =
    elim (ℕ_discrete ((fs.inode_table ix).blocks j) no_block) [
      | yes empty ↦ rw (release_block-empty fs ix j l empty) (
          Run.mono (release_loop-Released n ix (j + 1) c l (omega arith)) (λ _ fs' r. record {
            rest = r.rest;
            gone = λ i b d. elim (ℕ_discrete j i) [
              | yes same ↦
                  subst (λ k. (fs'.inode_table ix).blocks k ≡ no_block) same
                    (r.before j (omega arith) ∙ empty)
              | no ne' ↦ r.gone i (omega arith) d
            ];
            before = λ i b. r.before i (omega arith);
            others = r.others;
            number = r.number;
            total = r.total;
            root = r.root;
            storage = r.storage;
          }))
      | no ne ↦
          let a : j < max_blocks_per_file = omega arith in
          rw (release_block-held fs ix j l ne (c.owned.marked ix j l a ne).0) (
            Run.mono
              (release_loop-Released n ix (j + 1) (released-IsCounted c ix j l a ne) l
                (omega arith))
              (λ _ fs' r. Released-step c ix j l a ne r))
    ]
