-- ===== src/Disk/Alloc.antt =====
-- `allocate_inode`, `allocate_block`, `allocate_blocks` and `check_permissions`. An `int` result
-- that is -1 on failure is an option.
use apna_os.Prelude.{
  ℕ, zero, suc, ◌+◌, ◌/◌, ◌%◌, ◌^◌, Bool, false, Option, none, some, ltb, ◌==◌, if◌then◌else◌,
  update, search_from,
}
use apna_os.Prelude.Run.{Cmd, done, pure, ◌>>=◌, ◌>>◌}
use apna_os.Disk.State.{
  Fs, max_files, max_blocks_per_file, block_count, no_block, dec32, load_inode, store_inode,
}

unfoldable pub allocate_inode : Cmd Fs (Option ℕ)
allocate_inode fs = elim (search_from (λ i. (fs.inode_table i).inode_number == 0) 0 max_files) [
  | none ↦ done none fs
  | some i ↦ done (some i) (record fs {
    inode_table = update fs.inode_table i (record (fs.inode_table i) { inode_number = i + 1 });
    sb = record (fs.sb) { free_inodes = dec32 fs.sb.free_inodes };
  })
]

unfoldable pub allocate_block : Cmd Fs (Option ℕ)
allocate_block fs = elim (search_from (λ i. fs.block_bitmap i == 0) 0 block_count) [
  | none ↦ done none fs
  | some i ↦ done (some i) (record fs {
    block_bitmap = update fs.block_bitmap i 1;
    sb = record (fs.sb) { free_blocks = dec32 fs.sb.free_blocks };
  })
]

-- `inode_table[ix].blocks[j] = b`, for a `j` that the loop bounds.
unfoldable pub set_block : ℕ → ℕ → ℕ → Cmd Fs (Unit {0})
unfolding load_inode store_inode
set_block ix j b = do
  ino ← load_inode ix
  store_inode ix (record ino { blocks = update ino.blocks j b })

-- The loop, with `n` rounds left at place `i`.
unfoldable pub allocate_loop : ℕ → ℕ → ℕ → ℕ → ℕ → Cmd Fs ℕ
unfolding load_inode
allocate_loop zero ix required i allocated = pure allocated
allocate_loop (suc n) ix required i allocated =
    if ltb allocated required
    then (do
      ino ← load_inode ix
      if ino.blocks i == no_block
          then (do
            new_block ← allocate_block
            elim new_block [
              | none ↦ pure allocated
              | some b ↦ do set_block ix i b; allocate_loop n ix required (i + 1) (allocated + 1)
            ])
          else allocate_loop n ix required (i + 1) allocated)
    else pure allocated

unfoldable pub allocate_blocks : ℕ → ℕ → Cmd Fs ℕ
allocate_blocks ix required = allocate_loop max_blocks_per_file ix required 0 0

-- (permissions >> k) & 1
abbrev pub bit : ℕ → ℕ → Bool
bit permissions k = permissions / 2 ^ k % 2 == 1

-- 0b100 is for reading, 0b010 for writing, 0b001 for running.
unfoldable pub check_permissions : ℕ → ℕ → Bool
check_permissions permissions zero = bit permissions 2
check_permissions permissions (suc zero) = bit permissions 1
check_permissions permissions (suc (suc zero)) = bit permissions 0
check_permissions permissions (suc (suc (suc mode))) = false
