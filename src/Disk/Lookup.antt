-- ===== src/Disk/Lookup.antt =====
-- What `find_file` finds: the first entry in use with the name, and its inode.
use apna_os.Prelude.{ℕ, ◌+◌, ◌-◌, ◌<◌, ◌≡◌, ◌≢◌, ◌↔◌, arith, true, Bytes, some, search_from-some}
use apna_os.Prelude.Int.{ℤ, pos}
use apna_os.Text.{strncmp}
use apna_os.Text.Compare.{SameName, strncmp-SameName}
use apna_os.Disk.State.{Fs, DirectoryEntry, max_files, max_filename_len}
use apna_os.Disk.Files.{is_zero, names, find_file, inode_of}
use apna_os.Disk.Valid.{IsValid}

is_zero_iff : (z : ℤ) → (is_zero z ≡ true) ↔ (z ≡ pos 0)
is_zero_iff z = ground arith

-- An entry is named by `filename` exactly when it is in use under the same name.
pub names_iff :
    (filename : Bytes) (entry : DirectoryEntry)
    → (names filename entry ≡ true)
      ↔ ((entry.inode_number ≢ 0) × SameName max_filename_len entry.filename filename)
unfolding names
names_iff filename entry =
    let z = is_zero_iff (strncmp entry.filename filename max_filename_len) in
    let s = strncmp-SameName entry.filename filename max_filename_len in
    (λ h. (ground arith, s.0 (z.0 (ground arith))), λ h. ground (arith, h.0, z.1 (s.1 h.1)))

-- The entry `d` is the first one in use with the name.
pub record IsEntry (filename : Bytes) (fs : Fs) (d : ℕ) : Type 0 where
  pub in_root : d < max_files
  pub in_use : (fs.root_directory d).inode_number ≢ 0
  pub same : SameName max_filename_len (fs.root_directory d).filename filename
  pub first : (e : ℕ) → e < d → names filename (fs.root_directory e) ≢ true

pub find_file-IsEntry :
    (filename : Bytes) (fs : Fs) {d : ℕ} → find_file filename fs ≡ some d → IsEntry filename fs d
unfolding find_file
find_file-IsEntry filename fs {d} h =
    let r = search_from-some (λ i. names filename (fs.root_directory i)) 0 max_files h in
    let n = (names_iff filename (fs.root_directory d)).0 r.passes in
    record {
      in_root = omega (arith, r.below);
      in_use = n.0;
      same = n.1;
      first = λ e l. ground (arith, r.least e);
    }

-- Its inode is one of the table and in use.
pub record HasInode (fs : Fs) (ix : ℕ) : Type 0 where
  pub in_table : ix < max_files
  pub used : (fs.inode_table ix).inode_number ≢ 0
  pub number : (fs.inode_table ix).inode_number ≡ ix + 1

pub inode_of-HasInode :
    (filename : Bytes) (fs : Fs) {d : ℕ}
    → IsValid fs
    → find_file filename fs ≡ some d
    → HasInode fs (inode_of fs d)
unfolding inode_of
inode_of-HasInode filename fs {d} v h =
    let e = find_file-IsEntry filename fs h in
    let (small, used) = v.linked.entries d e.in_root e.in_use in
    let l : (fs.root_directory d).inode_number - 1 < max_files = omega (arith, e.in_use, small) in
    record { in_table = l; used = used; number = v.linked.numbered _ l used }

-- The lookup reads the directory alone.
pub find_file-root :
    (filename : Bytes) (fs fs' : Fs)
    → fs'.root_directory ≡ fs.root_directory
    → find_file filename fs' ≡ find_file filename fs
unfolding find_file
find_file-root filename fs fs' e = rw e

pub inode_of-root :
    (d : ℕ) (fs fs' : Fs) → fs'.root_directory ≡ fs.root_directory → inode_of fs' d ≡ inode_of fs d
unfolding inode_of
inode_of-root d fs fs' e = rw e
