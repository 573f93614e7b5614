-- ===== src/Disk/Format.antt =====
-- `format_disk`: an empty file system from any state.
use apna_os.Prelude.{
  ℕ, zero, suc, ◌+◌, ◌≤◌, ◌<◌, ◌≡◌, refl, sym, arith, Array, ◌==◌, [], inr, count_below-all,
  ℕ_discrete, ◌⊎◌,
}
use apna_os.Disk.State.{
  Inode, DirectoryEntry, Fs, block_count, max_files, no_block, format_inodes, format_entries,
  format_bitmap, format_disk,
}
use apna_os.Disk.Files.{list_loop, list_files}
use apna_os.Disk.Valid.{IsValid, free_count}

-- A formatted inode.
record IsBlank (ino : Inode) : Type 0 where
  number : ino.inode_number ≡ 0
  size : ino.size ≡ 0
  blocks : (j : ℕ) → ino.blocks j ≡ no_block

format_inodes-keeps :
    (n i k : ℕ) (t : Array Inode) → IsBlank (t k) → IsBlank (format_inodes n i t k)
unfolding format_inodes
format_inodes-keeps zero i k t h = h
format_inodes-keeps (suc n) i k t h = format_inodes-keeps n (i + 1) k _ (record {
  number = ground (arith, h.number);
  size = ground (arith, h.size);
  blocks = λ j. ground (arith, h.blocks j);
})

format_inodes-IsBlank :
    (n i k : ℕ) (t : Array Inode) → i ≤ k → k < i + n → IsBlank (format_inodes n i t k)
unfolding format_inodes
format_inodes-IsBlank zero i k t a b = absurd (omega arith)
format_inodes-IsBlank (suc n) i k t a b = elim (ℕ_discrete i k) [
  | yes e ↦
      format_inodes-keeps n (i + 1) k _
        (record { number = ground arith; size = ground arith; blocks = λ j. ground arith })
  | no ne ↦ format_inodes-IsBlank n (i + 1) k _ (omega arith) (omega arith)
]

format_entries-zero :
    (n i k : ℕ) (t : Array DirectoryEntry)
    → ((t k).inode_number ≡ 0) ⊎ ((i ≤ k) × (k < i + n))
    → (format_entries n i t k).inode_number ≡ 0
unfolding format_entries
format_entries-zero zero i k t h = ground arith
format_entries-zero (suc n) i k t h = format_entries-zero n (i + 1) k _ (ground arith)

format_bitmap-zero :
    (n i k : ℕ) (t : Array ℕ) → (t k ≡ 0) ⊎ ((i ≤ k) × (k < i + n)) → format_bitmap n i t k ≡ 0
unfolding format_bitmap
format_bitmap-zero zero i k t h = ground arith
format_bitmap-zero (suc n) i k t h = format_bitmap-zero n (i + 1) k _ (ground arith)

pub format_disk-free : (fs : Fs) (b : ℕ) → b < block_count → (format_disk fs).block_bitmap b ≡ 0
unfolding format_disk
format_disk-free fs b l = format_bitmap-zero block_count 0 b fs.block_bitmap (inr (omega arith))

pub format_disk-unused :
    (fs : Fs) (i : ℕ) → i < max_files → ((format_disk fs).inode_table i).inode_number ≡ 0
unfolding format_disk
format_disk-unused fs i l =
    (format_inodes-IsBlank max_files 0 i fs.inode_table (omega arith) (omega arith)).number

pub format_disk-root :
    (fs : Fs) (d : ℕ) → d < max_files → ((format_disk fs).root_directory d).inode_number ≡ 0
unfolding format_disk
format_disk-root fs d l = format_entries-zero max_files 0 d fs.root_directory (inr (omega arith))

list_loop-nil :
    (n i : ℕ) (fs : Fs)
    → ((d : ℕ) → i ≤ d → d < i + n → (fs.root_directory d).inode_number ≡ 0)
    → list_loop n i fs ≡ []
unfolding list_loop
list_loop-nil zero i fs h = refl
list_loop-nil (suc n) i fs h =
    ground (arith, h i, list_loop-nil n (i + 1) fs (λ d a b. h d (omega arith) (omega arith)))

all_free : (fs : Fs) → free_count (format_disk fs).block_bitmap ≡ block_count
unfolding free_count
all_free fs =
    count_below-all (λ b. (format_disk fs).block_bitmap b == 0) block_count
      (λ b l. ground (arith, format_disk-free fs b l))

-- Formatting makes a valid file system of any state, whatever was in it: no inode and no directory
-- entry is in use, all blocks are free and counted so, and `list_files` prints nothing.
pub format_disk-IsValid :
    (fs : Fs)
    → IsValid (format_disk fs)
      × ((i : ℕ) → i < max_files → ((format_disk fs).inode_table i).inode_number ≡ 0)
      × ((format_disk fs).sb.free_blocks ≡ block_count)
      × (list_files (format_disk fs) ≡ [])
unfolding format_disk list_files
format_disk-IsValid fs =
    let blank = λ (i : ℕ) (l : i < max_files).
      format_inodes-IsBlank max_files 0 i fs.inode_table (omega arith) (omega arith) in
    (
      record {
        owned = record {
          marked = λ i j a b held. absurd (held ((blank i a).blocks j));
          apart = λ i j k l a b c d held e. absurd (held ((blank i a).blocks j));
        };
        shaped = λ i a. record {
          sized = λ j h. absurd (omega (arith, (blank i a).size));
          packed = λ j l held. absurd (held ((blank i a).blocks (suc j)));
          unused = λ z. (blank i a).blocks 0;
          started = λ u. absurd (u (blank i a).number);
        };
        linked = record {
          numbered = λ i a u. absurd (u (blank i a).number);
          entries = λ d a u. absurd (u (format_disk-root fs d a));
          distinct = λ d e a b u p. absurd (u (format_disk-root fs d a));
        };
        counted = sym (all_free fs);
      },
      format_disk-unused fs,
      refl,
      list_loop-nil max_files 0 (format_disk fs) (λ d a b. format_disk-root fs d b),
    )
