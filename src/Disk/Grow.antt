-- ===== src/Disk/Grow.antt =====
-- `allocate_block`, and the state once an inode has the block that it found.
use apna_os.Prelude.{
  ℕ, ◌<◌, ◌≡◌, refl, ◌≢◌, ◌⊎◌, inl, inr, arith, some, none, ◌==◌, update, search_from,
  search_from-some, search_from-none, update-All, Option-cases,
}
use apna_os.Prelude.Run.{done}
use apna_os.Disk.State.{Inode, Fs, block_count, max_files, no_block, dec32}
use apna_os.Disk.Alloc.{allocate_block, set_block}
use apna_os.Disk.Valid.{IsShaped, IsValid}
use apna_os.Disk.Blocks.{Owned-grant, Linked-same, free_count-take}

-- The state behind a successful `allocate_block`.
abbrev pub taken : Fs → ℕ → Fs
taken fs b = record fs {
  block_bitmap = update fs.block_bitmap b 1;
  sb = record (fs.sb) { free_blocks = dec32 fs.sb.free_blocks };
}

abbrev pub DiskFull : Fs → Type 0
DiskFull fs = (b : ℕ) → b < block_count → fs.block_bitmap b ≢ 0

pub allocate_block-cases :
    (fs : Fs)
    → ((allocate_block fs ≡ done none fs) × DiskFull fs)
      ⊎ ((b : ℕ) × (allocate_block fs ≡ done (some b) (taken fs b))
          × (b < block_count)
          × (fs.block_bitmap b ≡ 0))
unfolding allocate_block
allocate_block-cases fs =
    elim (Option-cases (search_from (λ i. fs.block_bitmap i == 0) 0 block_count)) [
      | inl e ↦ inl (
        rw (e, allocate_block),
        λ b l. ground (arith, search_from-none (λ i. fs.block_bitmap i == 0) 0 block_count e b),
      )
      | inr (b, e) ↦
          let first = search_from-some (λ i. fs.block_bitmap i == 0) 0 block_count e in
          inr (b, rw (e, allocate_block), omega (arith, first.below), ground (arith, first.passes))
    ]

-- The state once the free block `b` is place `i` of the inode at `ix`.
abbrev pub granted : Fs → ℕ → ℕ → ℕ → Fs
granted fs ix i b = record (taken fs b) {
  inode_table =
      update fs.inode_table ix
        (record (fs.inode_table ix) { blocks = update (fs.inode_table ix).blocks i b });
}

IsShaped-grant :
    {ino : Inode} (i b : ℕ)
    → IsShaped ino
    → b < block_count
    → ino.inode_number ≢ 0
    → ((j : ℕ) → j < i → ino.blocks j ≢ no_block)
    → IsShaped (record ino { blocks = update ino.blocks i b })
IsShaped-grant i b s in_disk used before = record {
  sized = λ j h. ground (arith, s.sized j h);
  packed = λ j l held. ground (arith, s.packed j l, before j);
  unused = λ z. absurd (used z);
  started = λ u. ground (arith, s.started u);
}

module _ {fs : Fs} (v : IsValid fs) (ix i b : ℕ) (in_disk : b < block_count)
    (free : fs.block_bitmap b ≡ 0) where
  pub granted-IsValid :
      ix < max_files
      → (fs.inode_table ix).inode_number ≢ 0
      → ((j : ℕ) → j < i → (fs.inode_table ix).blocks j ≢ no_block)
      → IsValid (granted fs ix i b)
  granted-IsValid in_table used before = record {
    owned = Owned-grant v.owned ix _ i b in_disk free (λ j. refl);
    shaped =
        update-All IsShaped fs.inode_table ix max_files _ v.shaped
          (IsShaped-grant i b (v.shaped ix in_table) in_disk used before);
    linked = Linked-same _ v.linked (λ k. ground arith);
    counted = rw v.counted (free_count-take fs.block_bitmap b in_disk free);
  }

pub set_block-granted :
    (fs : Fs) (ix i b : ℕ)
    → ix < max_files
    → set_block ix i b (taken fs b) ≡ done tt (granted fs ix i b)
unfolding set_block
set_block-granted fs ix i b l = ground arith
