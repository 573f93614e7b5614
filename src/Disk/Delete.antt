-- ===== src/Disk/Delete.antt =====
-- `delete_file`: the blocks, the inode and the directory entry become free.
use apna_os.Prelude.{
  ℕ, suc, ◌+◌, ◌-◌, ◌<◌, ◌≡◌, refl, sym, ap, subst, ◌≢◌, arith, not, true, Array, Bytes, ◌==◌,
  update, update_self, update_ne, lt→ltb, some, ℕ_discrete, ◌∙◌, count_below-zero,
}
use apna_os.Prelude.Run
use apna_os.Prelude.Run.{done, Returns, returns}
use apna_os.Text.{memset}
use apna_os.Disk.State.{
  Inode, DirectoryEntry, Fs, max_files, max_blocks_per_file, no_block, inc32, max_filename_len,
  load_inode, store_inode,
}
use apna_os.Disk.Alloc.{check_permissions}
use apna_os.Disk.Files.{find_file, inode_of, clear_entry, delete_file}
use apna_os.Disk.Valid.{IsShaped, Linked, IsValid, held}
use apna_os.Disk.Blocks.{Owned-rewrite}
use apna_os.Disk.Lookup.{find_file-IsEntry, inode_of-HasInode}
use apna_os.Disk.Release.{Released, release_loop-Released}

-- What deleting the file at the inode `ix` and the entry `d` leaves.
pub record Deleted (ix d : ℕ) (fs fs' : Fs) : Type 0 where
  pub valid : IsValid fs'
  pub inode : ((fs'.inode_table ix).inode_number ≡ 0) × ((fs'.inode_table ix).size ≡ 0)
  pub blocks : (j : ℕ) → j < max_blocks_per_file → (fs'.inode_table ix).blocks j ≡ no_block
  pub entry : (fs'.root_directory d).inode_number ≡ 0
  pub others : (k : ℕ) → k ≢ ix → fs'.inode_table k ≡ fs.inode_table k
  pub entries : (e : ℕ) → e ≢ d → fs'.root_directory e ≡ fs.root_directory e
  pub storage : fs'.storage ≡ fs.storage
  pub free : fs'.sb.free_blocks ≡ fs.sb.free_blocks + held (fs.inode_table ix)

abbrev cleared : Fs → ℕ → ℕ → Bytes → Fs
cleared fs ix d name = record fs {
  inode_table =
      update fs.inode_table ix (record (fs.inode_table ix) { inode_number = 0; size = 0 });
  sb = record (fs.sb) { free_inodes = inc32 fs.sb.free_inodes };
  root_directory = update fs.root_directory d (record { filename = name; inode_number = 0 });
}

held-zero :
    (ino : Inode) → ((j : ℕ) → j < max_blocks_per_file → ino.blocks j ≡ no_block) → held ino ≡ 0
unfolding held
held-zero ino h =
    count_below-zero (λ j. not (ino.blocks j == no_block)) max_blocks_per_file
      (λ j a. ground (arith, h j a))

inode_of-number :
    (fs : Fs) (d : ℕ)
    → (fs.root_directory d).inode_number ≢ 0
    → (fs.root_directory d).inode_number ≡ inode_of fs d + 1
unfolding inode_of
inode_of-number fs d u = omega arith

-- Without the entry `d` and its inode the rest stays linked.
Linked-clear :
    {table : Array Inode} {root : Array DirectoryEntry} (table' : Array Inode) (ix d : ℕ)
    (name : Bytes)
    → Linked table root
    → d < max_files
    → (root d).inode_number ≡ ix + 1
    → (table' ix).inode_number ≡ 0
    → ((k : ℕ) → k ≢ ix → table' k ≡ table k)
    → Linked table' (update root d (record { filename = name; inode_number = 0 }))
Linked-clear {table} {root} table' ix d name l in_root link zero_now same = record {
  numbered = λ i a u. elim (ℕ_discrete i ix) [
    | yes e ↦ absurd (u (subst (λ k. (table' k).inode_number ≡ 0) (sym e) zero_now))
    | no ne ↦ ground (arith, l.numbered i a, same i ne)
  ];
  entries = λ e a u. elim (ℕ_discrete d e) [
    | yes p ↦ absurd (u (ground arith))
    | no ne ↦
        let used : (root e).inode_number ≢ 0 = ground arith in
        let (small, inode) = l.entries e a used in
        let other : (root e).inode_number - 1 ≢ ix =
          λ p. ne (sym (l.distinct e d a in_root used (omega arith))) in
        rw (update_ne root d e _ ne, same _ other) (small, inode)
  ];
  distinct = λ e e' a b u p. ground (arith, l.distinct e e' a b);
}

module _ {fs fs1 : Fs} (v : IsValid fs) (ix d : ℕ) (in_table : ix < max_files)
    (in_root : d < max_files) (link : (fs.root_directory d).inode_number ≡ ix + 1)
    (r : Released ix 0 fs fs1) (name : Bytes) where
  cleared-IsShaped : IsShaped (record (fs1.inode_table ix) { inode_number = 0; size = 0 })
  cleared-IsShaped = record {
    sized = λ j h. absurd (omega arith);
    packed = λ j l h. absurd (h (r.gone (suc j) (omega arith) l));
    unused = λ z. r.gone 0 (omega arith) (omega arith);
    started = λ u. absurd (u refl);
  }

  cleared-IsValid : IsValid (cleared fs1 ix d name)
  cleared-IsValid = record {
    owned = Owned-rewrite r.rest.owned ix _ (λ j. refl);
    shaped = λ k a. elim (ℕ_discrete ix k) [
      | yes e ↦
          subst (λ k'. IsShaped ((cleared fs1 ix d name).inode_table k')) e
            (subst IsShaped (sym (update_self fs1.inode_table ix _)) cleared-IsShaped)
      | no ne ↦
          subst IsShaped (sym (update_ne fs1.inode_table ix k _ ne ∙ r.others k (λ e. ne (sym e))))
            (v.shaped k a)
    ];
    linked =
        subst
          (λ root.
            Linked (cleared fs1 ix d name).inode_table
              (update root d (record { filename = name; inode_number = 0 })))
          (sym r.root)
          (Linked-clear _ ix d name v.linked in_root link
            (ap (λ i. i.inode_number) (update_self fs1.inode_table ix _))
            (λ k ne. update_ne fs1.inode_table ix k _ (λ e. ne (sym e)) ∙ r.others k ne));
    counted = r.rest.counted;
  }

  cleared-Deleted : Deleted ix d fs (cleared fs1 ix d name)
  cleared-Deleted =
      let self =
        update_self fs1.inode_table ix
          (record (fs1.inode_table ix) { inode_number = 0; size = 0 }) in
      record {
        valid = cleared-IsValid;
        inode = (ap (λ i. i.inode_number) self, ap (λ i. i.size) self);
        blocks = λ j a. ap (λ i. i.blocks j) self ∙ r.gone j (omega arith) a;
        entry = ap (λ e. e.inode_number) (update_self fs1.root_directory d _);
        others = λ k ne. update_ne fs1.inode_table ix k _ (λ e. ne (sym e)) ∙ r.others k ne;
        entries =
            λ e ne. update_ne fs1.root_directory d e _ (λ p. ne (sym p)) ∙ ap (λ t. t e) r.root;
        storage = r.storage;
        free =
            omega
              (arith, r.total, held-zero (fs1.inode_table ix) (λ j a. r.gone j (omega arith) a));
      }

clear_entry-cleared :
    (fs : Fs) (ix d : ℕ)
    → ix < max_files
    → clear_entry ix d fs
      ≡ done tt (cleared fs ix d (memset (fs.root_directory d).filename 0 0 max_filename_len))
unfolding clear_entry
clear_entry-cleared fs ix d l = rw (load_inode, store_inode, lt→ltb ix max_files l)

-- `delete_file` of a file that may be written returns 0: its inode and its directory entry are
-- unused, it holds no block any more, the blocks that it held are counted as free, and the other
-- inodes, the other entries and the storage are as before. The invariant holds again.
pub delete_file_lem :
    (filename : Bytes) {fs : Fs} {d : ℕ}
    → IsValid fs
    → find_file filename fs ≡ some d
    → check_permissions (fs.inode_table (inode_of fs d)).permissions 1 ≡ true
    → Returns
        (λ out fs'. (out ≡ some 0) × Deleted (inode_of fs d) d fs fs')
        (delete_file filename fs)
unfolding delete_file
delete_file_lem filename {fs} {d} v found may =
    let h = inode_of-HasInode filename fs v found in
    let e = find_file-IsEntry filename fs found in
    rw (found, delete_file, load_inode, lt→ltb _ max_files h.in_table, may)
      (Run.bind
        (release_loop-Released max_blocks_per_file (inode_of fs d) 0
          (record { owned = v.owned; counted = v.counted }) h.in_table refl)
        λ _ fs1 r. rw (clear_entry-cleared fs1 (inode_of fs d) d h.in_table) (
          returns (
            refl,
            cleared-Deleted v (inode_of fs d) d h.in_table e.in_root (inode_of-number fs d e.in_use)
                r _,
          )))
