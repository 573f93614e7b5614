-- ===== src/Disk/Refuse.antt =====
-- The operations on a name that no entry has, and on a file whose permissions forbid them; and
-- `chmod_file`.
use apna_os.Prelude.{
  ℕ, ◌/◌, ◌%◌, ◌<◌, ◌≡◌, refl, ◌≢◌, arith, false, Bytes, none, some, inl, inr, Option-cases, lt→ltb,
  update, update_self, update_ne, update-All, sym, ap,
}
use apna_os.Prelude.Run.{done, Returns, returns}
use apna_os.Text.Compare.{SameName}
use apna_os.Disk.State.{Fs, max_files, max_filename_len, load_inode, store_inode}
use apna_os.Disk.Alloc.{check_permissions}
use apna_os.Disk.Files.{find_file, inode_of, chmod_file, delete_file}
use apna_os.Disk.Transfer.{
  read_file, read_inode, write_file, write_inode, append_to_file, append_inode,
}
use apna_os.Disk.Valid.{IsShaped, IsValid}
use apna_os.Disk.Blocks.{Owned-rewrite, Linked-same}
use apna_os.Disk.Lookup.{find_file-IsEntry, inode_of-HasInode}

abbrev pub NoFile : Bytes → Fs → Type 0
NoFile filename fs =
    (d : ℕ)
    → d < max_files
    → (fs.root_directory d).inode_number ≢ 0
    → SameName max_filename_len (fs.root_directory d).filename filename
    → ⊥

find_file-none : (filename : Bytes) (fs : Fs) → NoFile filename fs → find_file filename fs ≡ none
find_file-none filename fs h = elim (Option-cases (find_file filename fs)) [
  | inl e ↦ e
  | inr (d, e) ↦ let f = find_file-IsEntry filename fs e in absurd (h d f.in_root f.in_use f.same)
]

-- On a name that no entry in use has, every operation fails and changes nothing, the caller's
-- buffer included.
pub refuse_unknown :
    (filename buffer : Bytes) (n : ℕ) (fs : Fs)
    → NoFile filename fs
    → (read_file filename buffer n fs ≡ done (none, buffer) fs)
      × (write_file filename buffer n fs ≡ done none fs)
      × (append_to_file filename buffer n fs ≡ done none fs)
      × (delete_file filename fs ≡ done none fs)
      × (chmod_file filename n fs ≡ done none fs)
unfolding read_file write_file append_to_file delete_file chmod_file
refuse_unknown filename buffer n fs h =
    let e = find_file-none filename fs h in
    (
      rw (e, read_file),
      rw (e, write_file),
      rw (e, append_to_file),
      rw (e, delete_file),
      rw (e, chmod_file),
    )

-- `read_file` of a file whose permissions lack bit 2 fails and changes neither the buffer nor the
-- file system.
pub read_file-forbidden :
    (filename buffer : Bytes) (n : ℕ) {fs : Fs} {d : ℕ}
    → IsValid fs
    → find_file filename fs ≡ some d
    → check_permissions (fs.inode_table (inode_of fs d)).permissions 0 ≡ false
    → read_file filename buffer n fs ≡ done (none, buffer) fs
unfolding read_file read_inode
read_file-forbidden filename buffer n v found may_not =
    let h = inode_of-HasInode filename _ v found in
    rw (found, read_file, load_inode, lt→ltb _ max_files h.in_table, may_not)

may_not_write :
    (permissions : ℕ) → permissions / 2 % 2 ≡ 0 → check_permissions permissions 1 ≡ false
unfolding check_permissions
may_not_write permissions e = ground (arith, e)

-- The test of the permissions fails.
pub write-refused :
    (filename buffer : Bytes) (n : ℕ) {fs : Fs} {d : ℕ}
    → IsValid fs
    → find_file filename fs ≡ some d
    → check_permissions (fs.inode_table (inode_of fs d)).permissions 1 ≡ false
    → (write_file filename buffer n fs ≡ done none fs)
      × (append_to_file filename buffer n fs ≡ done none fs)
      × (delete_file filename fs ≡ done none fs)
unfolding write_file write_inode append_to_file append_inode delete_file
write-refused filename buffer n v found may_not =
    let h = inode_of-HasInode filename _ v found in
    let l = lt→ltb _ max_files h.in_table in
    (
      rw (found, write_file, load_inode, l, may_not),
      rw (found, append_to_file, load_inode, l, may_not),
      rw (found, delete_file, load_inode, l, may_not),
    )

-- On a valid file system, `write_file`, `append_to_file` and `delete_file` under the name of a file in
-- whose permissions bit 1, of value 2, is clear fail and change nothing.
pub write-forbidden :
    (filename buffer : Bytes) (n : ℕ) {fs : Fs} {d : ℕ}
    → IsValid fs
    → find_file filename fs ≡ some d
    → (fs.inode_table (inode_of fs d)).permissions / 2 % 2 ≡ 0
    → (write_file filename buffer n fs ≡ done none fs)
      × (append_to_file filename buffer n fs ≡ done none fs)
      × (delete_file filename fs ≡ done none fs)
write-forbidden filename buffer n {fs} {d} v found clear =
    write-refused filename buffer n v found
      (may_not_write (fs.inode_table (inode_of fs d)).permissions clear)

-- What `chmod_file` leaves.
pub record Permitted (ix permissions : ℕ) (fs fs' : Fs) : Type 0 where
  pub valid : IsValid fs'
  pub now : (fs'.inode_table ix).permissions ≡ permissions
  pub size : (fs'.inode_table ix).size ≡ (fs.inode_table ix).size
  pub blocks : (j : ℕ) → (fs'.inode_table ix).blocks j ≡ (fs.inode_table ix).blocks j
  pub others : (k : ℕ) → k ≢ ix → fs'.inode_table k ≡ fs.inode_table k
  pub root : fs'.root_directory ≡ fs.root_directory
  pub storage : fs'.storage ≡ fs.storage

abbrev pub permitted : Fs → ℕ → ℕ → Fs
permitted fs ix permissions = record fs {
  inode_table = update fs.inode_table ix (record (fs.inode_table ix) { permissions = permissions });
}

pub permitted-Permitted :
    {fs : Fs} (ix permissions : ℕ)
    → IsValid fs
    → ix < max_files
    → Permitted ix permissions fs (permitted fs ix permissions)
permitted-Permitted {fs} ix permissions v l =
    let s = v.shaped ix l in
    let self =
      update_self fs.inode_table ix (record (fs.inode_table ix) { permissions = permissions }) in
    record {
      valid = record {
        owned = Owned-rewrite v.owned ix _ (λ j. refl);
        shaped =
            update-All IsShaped fs.inode_table ix max_files _ v.shaped (record {
              sized = s.sized;
              packed = s.packed;
              unused = s.unused;
              started = s.started;
            });
        linked = Linked-same _ v.linked (λ k. ground arith);
        counted = v.counted;
      };
      now = ap (λ i. i.permissions) self;
      size = ap (λ i. i.size) self;
      blocks = λ j. ap (λ i. i.blocks j) self;
      others = λ k ne. update_ne fs.inode_table ix k _ (λ e. ne (sym e));
      root = refl;
      storage = refl;
    }

-- `chmod_file` of a file that exists returns 0 and asks for no permission: the file has the new
-- permissions, and all else is as before. The invariant holds again.
pub chmod_file_lem :
    (filename : Bytes) (permissions : ℕ) {fs : Fs} {d : ℕ}
    → IsValid fs
    → find_file filename fs ≡ some d
    → Returns
        (λ out fs'. (out ≡ some 0) × Permitted (inode_of fs d) permissions fs fs')
        (chmod_file filename permissions fs)
unfolding chmod_file
chmod_file_lem filename permissions {fs} {d} v found =
    let h = inode_of-HasInode filename fs v found in
    rw (found, chmod_file, load_inode, store_inode, lt→ltb _ max_files h.in_table)
      (returns (refl, permitted-Permitted (inode_of fs d) permissions v h.in_table))
