-- ===== src/Disk/Files.antt =====
-- The operations on names: `create_file`, `delete_file`, `chmod_file`, `list_files`. A file is
-- found by the first directory entry of its name. `some 0` and `none` stand for the results 0 and
-- -1; the messages on the serial line are left out.
use apna_os.Prelude.{
  ℕ, zero, suc, ◌+◌, ◌-◌, List, [], ◌∷◌, Bool, false, not, ◌&&◌, Option, none, some, ltb, leb, ◌==◌,
  if◌then◌else◌, Bytes, update, search_from,
}
use apna_os.Prelude.Int.{ℤ, pos, negsuc}
use apna_os.Prelude.Run.{Cmd, done, pure, get, put, guard, ◌>>=◌, ◌>>◌}
use apna_os.Text.{strncmp, strncpy, strncpy_extent, memset}
use apna_os.Disk.State.{
  Fs, DirectoryEntry, max_files, max_blocks_per_file, max_filename_len, block_count, no_block,
  inc32, load_inode, store_inode,
}
use apna_os.Disk.Alloc.{allocate_inode, allocate_block, check_permissions}

abbrev pub is_zero : ℤ → Bool
is_zero (pos n) = n == 0
is_zero (negsuc n) = false

-- The test on a directory entry that all the loops over names make.
unfoldable pub names : Bytes → DirectoryEntry → Bool
names filename entry =
    not (entry.inode_number == 0) && is_zero (strncmp entry.filename filename max_filename_len)

unfoldable pub find_file : Bytes → Fs → Option ℕ
find_file filename fs = search_from (λ i. names filename (fs.root_directory i)) 0 max_files

-- root_directory[i].inode_number - 1, of an entry that is in use
unfoldable pub inode_of : Fs → ℕ → ℕ
inode_of fs i = (fs.root_directory i).inode_number - 1

unfoldable pub chmod_file : Bytes → ℕ → Cmd Fs (Option ℕ)
unfolding load_inode store_inode
chmod_file filename new_permissions fs = elim (find_file filename fs) [
  | none ↦ done none fs
  | some i ↦
      (do
        ino ← load_inode (inode_of fs i)
        store_inode (inode_of fs i) (record ino { permissions = new_permissions })
        pure (some 0))
        fs
]

-- The name goes into the first unused entry. `strncpy` must stay inside `filename`.
unfoldable pub enter_name : Bytes → ℕ → Cmd Fs (Option ℕ)
unfolding strncpy strncpy_extent
enter_name filename ix fs =
    elim (search_from (λ i. (fs.root_directory i).inode_number == 0) 0 max_files) [
      | none ↦ done none fs
      | some i ↦
          let old : Bytes = (fs.root_directory i).filename in
          (do
            guard (leb (strncpy_extent old filename max_filename_len) max_filename_len)
            put (record fs {
              root_directory = update fs.root_directory i (record {
                filename = strncpy old filename max_filename_len;
                inode_number = ix + 1;
              });
            })
            pure (some ix))
            fs
    ]

-- `create_file` once it has the inode `ix`.
unfoldable pub fill_inode : Bytes → ℕ → Cmd Fs (Option ℕ)
unfolding load_inode store_inode
fill_inode filename ix = do
  block ← allocate_block
  elim block [
    | none ↦ do ino ← load_inode ix; store_inode ix (record ino { inode_number = 0 }); pure none
    | some b ↦ do
      ino ← load_inode ix
      store_inode ix (record ino { size = 0; blocks = update ino.blocks 0 b; permissions = 7 })
      enter_name filename ix
  ]

unfoldable pub create_file : Bytes → Cmd Fs (Option ℕ)
create_file filename = do
  slot ← allocate_inode
  elim slot [ none ↦ pure none | some ix ↦ fill_inode filename ix ]

-- One round of the loop that gives the blocks back.
unfoldable pub release_block : ℕ → ℕ → Cmd Fs (Unit {0})
unfolding load_inode store_inode
release_block ix j = do
  ino ← load_inode ix
  if ino.blocks j == no_block then pure tt else (do
    guard (ltb (ino.blocks j) block_count)
    fs ← get
    put (record fs {
      block_bitmap = update fs.block_bitmap (ino.blocks j) 0;
      sb = record (fs.sb) { free_blocks = inc32 fs.sb.free_blocks };
    })
    store_inode ix (record ino { blocks = update ino.blocks j no_block }))

unfoldable pub release_loop : ℕ → ℕ → ℕ → Cmd Fs (Unit {0})
release_loop zero ix j = pure tt
release_loop (suc n) ix j = do release_block ix j; release_loop n ix (j + 1)

-- What follows the loop: the inode and the entry `i` become free.
unfoldable pub clear_entry : ℕ → ℕ → Cmd Fs (Unit {0})
unfolding load_inode store_inode memset
clear_entry ix i = do
  ino ← load_inode ix
  store_inode ix (record ino { inode_number = 0; size = 0 })
  fs ← get
  put (record fs {
    sb = record (fs.sb) { free_inodes = inc32 fs.sb.free_inodes };
    root_directory = update fs.root_directory i (record {
      filename = memset (fs.root_directory i).filename 0 0 max_filename_len;
      inode_number = 0;
    });
  })

unfoldable pub delete_file : Bytes → Cmd Fs (Option ℕ)
unfolding load_inode
delete_file filename fs = elim (find_file filename fs) [
  | none ↦ done none fs
  | some i ↦
      let ix : ℕ = inode_of fs i in
      (do
        ino ← load_inode ix
        if check_permissions ino.permissions 1
            then (do release_loop max_blocks_per_file ix 0; clear_entry ix i; pure (some 0))
            else pure none)
        fs
]

-- The names that `list_files` prints, in order; `n` entries are left from `i` on.
unfoldable pub list_loop : ℕ → ℕ → Fs → List Bytes
list_loop zero i fs = []
list_loop (suc n) i fs =
    let rest = list_loop n (i + 1) fs in
    if (fs.root_directory i).inode_number == 0 then rest else (fs.root_directory i).filename ∷ rest

unfoldable pub list_files : Fs → List Bytes
list_files fs = list_loop max_files 0 fs
