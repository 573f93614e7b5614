-- ===== src/Disk/State.antt =====
-- The structures of filesystem/filesystem.h, the globals of filesystem.c as one state, and
-- `format_disk`.
use apna_os.Prelude.{
  ℕ, zero, suc, ◌+◌, ◌-◌, ◌%◌, ◌^◌, [], ◌∷◌, ltb, if◌then◌else◌, Array, Bytes, update, of_list,
}
use apna_os.Prelude.Run.{done, fault, Cmd}
use apna_os.Text.{strncpy}

abbrev pub block_count : ℕ
block_count = 1024

abbrev pub block_size : ℕ
block_size = 4096

abbrev pub max_blocks_per_file : ℕ
max_blocks_per_file = 4

abbrev pub max_files : ℕ
max_files = 256

abbrev pub max_filename_len : ℕ
max_filename_len = 255

-- -1 in a `uint32_t`: an unused place of `blocks`.
abbrev pub no_block : ℕ
no_block = 2 ^ 32 - 1

pub record Superblock : Type 0 where
  pub inode_count : ℕ
  pub block_count : ℕ
  pub free_inodes : ℕ
  pub free_blocks : ℕ
  pub magic : ℕ
  pub volume_name : Bytes

-- `blocks` has `max_blocks_per_file` places.
pub record Inode : Type 0 where
  pub inode_number : ℕ
  pub size : ℕ
  pub blocks : Array ℕ
  pub permissions : ℕ

pub record DirectoryEntry : Type 0 where
  pub filename : Bytes
  pub inode_number : ℕ

pub record Fs : Type 0 where
  pub sb : Superblock
  pub inode_table : Array Inode
  pub root_directory : Array DirectoryEntry
  pub storage : Array Bytes
  pub block_bitmap : Array ℕ

-- `x--` and `x++` on a `uint32_t`.
abbrev pub dec32 : ℕ → ℕ
dec32 x = (x + 2 ^ 32 - 1) % 2 ^ 32

abbrev pub inc32 : ℕ → ℕ
inc32 x = (x + 1) % 2 ^ 32

-- `inode_table[ix]`, read and written.
unfoldable pub load_inode : ℕ → Cmd Fs Inode
load_inode ix fs = if ltb ix max_files then done (fs.inode_table ix) fs else fault

unfoldable pub store_inode : ℕ → Inode → Cmd Fs (Unit {0})
store_inode ix ino fs =
    if ltb ix max_files
    then done tt (record fs { inode_table = update fs.inode_table ix ino })
    else fault

-- for (i = 0; i < MAX_FILES; i++): the inodes. `permissions` is left as it is.
unfoldable pub format_inodes : ℕ → ℕ → Array Inode → Array Inode
format_inodes zero i table = table
format_inodes (suc n) i table =
    format_inodes n (i + 1)
      (update table i (record (table i) { inode_number = 0; size = 0; blocks = λ j. no_block }))

-- The directory. `filename` is left as it is.
unfoldable pub format_entries : ℕ → ℕ → Array DirectoryEntry → Array DirectoryEntry
format_entries zero i entries = entries
format_entries (suc n) i entries =
    format_entries n (i + 1) (update entries i (record (entries i) { inode_number = 0 }))

unfoldable pub format_bitmap : ℕ → ℕ → Array ℕ → Array ℕ
format_bitmap zero i bitmap = bitmap
format_bitmap (suc n) i bitmap = format_bitmap n (i + 1) (update bitmap i 0)

abbrev pub apna_fs : Bytes
apna_fs = of_list 0 (b'A' ∷ b'p' ∷ b'n' ∷ b'a' ∷ b'F' ∷ b'S' ∷ [])

unfoldable pub format_disk : Fs → Fs
unfolding format_inodes format_entries format_bitmap strncpy
format_disk fs = record fs {
  sb = record {
    inode_count = max_files;
    block_count = block_count;
    free_inodes = max_files;
    free_blocks = block_count;
    magic = 0xEF53;
    volume_name = update (strncpy fs.sb.volume_name apna_fs 16) 15 0;
  };
  inode_table = format_inodes max_files 0 fs.inode_table;
  root_directory = format_entries max_files 0 fs.root_directory;
  block_bitmap = format_bitmap block_count 0 fs.block_bitmap;
}

unfoldable pub create_file_system : Fs → Fs
unfolding format_disk
create_file_system fs = format_disk fs
