-- ===== src/Disk/Valid.antt =====
-- The representation invariant of the file system: which blocks an inode may hold, and how the
-- directory, the inodes and the block bitmap fit together.
use apna_os.Prelude.{ℕ, suc, ◌+◌, ◌-◌, ◌*◌, ◌≤◌, ◌<◌, ◌≡◌, ◌≢◌, Array, not, ◌==◌, count_below}
use apna_os.Disk.State.{
  Inode, DirectoryEntry, Fs, block_count, block_size, max_blocks_per_file, max_files, no_block,
}

-- Each block that an inode holds is a block of the disk, is marked as taken, and is held once.
pub record Owned (table : Array Inode) (bitmap : Array ℕ) : Type 0 where
  pub marked :
      (i j : ℕ)
      → i < max_files
      → j < max_blocks_per_file
      → (table i).blocks j ≢ no_block
      → ((table i).blocks j < block_count) × (bitmap ((table i).blocks j) ≡ 1)
  pub apart :
      (i j k l : ℕ)
      → i < max_files
      → j < max_blocks_per_file
      → k < max_files
      → l < max_blocks_per_file
      → (table i).blocks j ≢ no_block
      → (table i).blocks j ≡ (table k).blocks l
      → (i ≡ k) × (j ≡ l)

-- The blocks of one inode: no gap, enough for the size, none in an unused inode, at least one in a
-- used one.
pub record IsShaped (ino : Inode) : Type 0 where
  pub sized :
      (j : ℕ) → j * block_size < ino.size → (j < max_blocks_per_file) × (ino.blocks j ≢ no_block)
  pub packed :
      (j : ℕ)
      → suc j < max_blocks_per_file
      → ino.blocks (suc j) ≢ no_block
      → ino.blocks j ≢ no_block
  pub unused : ino.inode_number ≡ 0 → ino.blocks 0 ≡ no_block
  pub started : ino.inode_number ≢ 0 → ino.blocks 0 ≢ no_block

-- An entry in use names an inode in use, and no two name the same.
pub record Linked (table : Array Inode) (root : Array DirectoryEntry) : Type 0 where
  pub numbered :
      (i : ℕ) → i < max_files → (table i).inode_number ≢ 0 → (table i).inode_number ≡ i + 1
  pub entries :
      (d : ℕ)
      → d < max_files
      → (root d).inode_number ≢ 0
      → ((root d).inode_number ≤ max_files) × ((table ((root d).inode_number - 1)).inode_number ≢ 0)
  pub distinct :
      (d e : ℕ)
      → d < max_files
      → e < max_files
      → (root d).inode_number ≢ 0
      → (root d).inode_number ≡ (root e).inode_number
      → d ≡ e

-- How many blocks an inode holds.
unfoldable pub held : Inode → ℕ
held ino = count_below (λ j. not (ino.blocks j == no_block)) max_blocks_per_file

unfoldable pub free_count : Array ℕ → ℕ
free_count bitmap = count_below (λ b. bitmap b == 0) block_count

pub record IsValid (fs : Fs) : Type 0 where
  pub owned : Owned fs.inode_table fs.block_bitmap
  pub shaped : (i : ℕ) → i < max_files → IsShaped (fs.inode_table i)
  pub linked : Linked fs.inode_table fs.root_directory
  pub counted : fs.sb.free_blocks ≡ free_count fs.block_bitmap
