-- ===== src/Disk/Blocks.antt =====
-- Taking a free block for an inode, and giving one back, keep the ownership of blocks, the links of
-- the directory and the counter of free blocks.
use apna_os.Prelude.{
  ℕ, ◌-◌, ◌≤◌, ◌<◌, ◌≡◌, ◌≢◌, arith, not, Array, ◌==◌, update, count_below, count_below-drop,
  count_below-le, ℕ_discrete,
}
use apna_os.Disk.State.{
  Inode, DirectoryEntry, block_count, max_blocks_per_file, max_files, no_block, dec32, inc32,
}
use apna_os.Disk.Valid.{Owned, Linked, IsShaped, held, free_count}

module _ {table : Array Inode} {bitmap : Array ℕ} (o : Owned table bitmap) (ix : ℕ)
    (ino : Inode) where
  -- The inode at `ix` is rewritten, its blocks are not.
  pub Owned-rewrite :
      ((j : ℕ) → ino.blocks j ≡ (table ix).blocks j) → Owned (update table ix ino) bitmap
  Owned-rewrite same = record {
    marked = λ i j a b held. elim (ℕ_discrete ix i) [
      | yes e ↦ ground (arith, same j, o.marked i j a b)
      | no ne ↦ ground (arith, o.marked i j a b)
    ];
    apart = λ i j k l a b c d held e. ground (arith, same j, same l, o.apart i j k l a b c d);
  }

  -- The free block `b` goes to place `i` of the inode at `ix`, which was unused.
  pub Owned-grant :
      (i b : ℕ)
      → b < block_count
      → bitmap b ≡ 0
      → ((j : ℕ) → ino.blocks j ≡ update (table ix).blocks i b j)
      → Owned (update table ix ino) (update bitmap b 1)
  Owned-grant i b inside free new = record {
    marked = λ k j a c held. ground (arith, new j, o.marked k j a c);
    apart = λ k j k' j' a c a' c' held e.
        ground (
          arith,
          new j,
          new j',
          o.apart k j k' j' a c a' c',
          o.marked k j a c,
          o.marked k' j' a' c',
        );
  }

  -- The block at place `i` of the inode at `ix` becomes free.
  pub Owned-release :
      (i : ℕ)
      → ix < max_files
      → i < max_blocks_per_file
      → (table ix).blocks i ≢ no_block
      → ((j : ℕ) → ino.blocks j ≡ update (table ix).blocks i no_block j)
      → Owned (update table ix ino) (update bitmap ((table ix).blocks i) 0)
  Owned-release i a b held new = record {
    marked = λ k j c d held'. ground (arith, new j, o.marked k j c d, o.apart k j ix i c d a b);
    apart =
        λ k j k' j' c d c' d' held' e. ground (arith, new j, new j', o.apart k j k' j' c d c' d');
  }

-- The directory is linked to the inodes by their numbers alone.
pub Linked-same :
    {table : Array Inode} {root : Array DirectoryEntry} (table' : Array Inode)
    → Linked table root
    → ((i : ℕ) → (table' i).inode_number ≡ (table i).inode_number)
    → Linked table' root
Linked-same {root} table' l same = record {
  numbered = λ i a u. ground (arith, same i, l.numbered i a);
  entries = λ d a u. ground (arith, same ((root d).inode_number - 1), l.entries d a u);
  distinct = l.distinct;
}

-- The counter of free blocks follows the bitmap.
pub free_count-take :
    (bitmap : Array ℕ) (b : ℕ)
    → b < block_count
    → bitmap b ≡ 0
    → dec32 (free_count bitmap) ≡ free_count (update bitmap b 1)
unfolding free_count
free_count-take bitmap b inside free = omega (
  arith,
  count_below-drop (λ c. bitmap c == 0) (λ c. update bitmap b 1 c == 0) block_count b inside
      (ground arith) (ground arith) (λ c ne. ground arith),
  count_below-le (λ c. bitmap c == 0) block_count,
)

pub free_count-release :
    (bitmap : Array ℕ) (b : ℕ)
    → b < block_count
    → bitmap b ≢ 0
    → inc32 (free_count bitmap) ≡ free_count (update bitmap b 0)
unfolding free_count
free_count-release bitmap b inside taken = omega (
  arith,
  count_below-drop (λ c. update bitmap b 0 c == 0) (λ c. bitmap c == 0) block_count b inside
      (ground arith) (ground arith) (λ c ne. ground arith),
  count_below-le (λ c. update bitmap b 0 c == 0) block_count,
)

pub held-le : (ino : Inode) → held ino ≤ max_blocks_per_file
unfolding held
held-le ino = count_below-le (λ j. not (ino.blocks j == no_block)) max_blocks_per_file

-- The blocks of an inode have no gap, so the first `held ino` places hold them.
pub held-place : {ino : Inode} (j : ℕ) → IsShaped ino → j < held ino → ino.blocks j ≢ no_block
unfolding held count_below
held-place j s l = ground (arith, s.packed 0, s.packed 1, s.packed 2)
