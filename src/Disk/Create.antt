-- ===== src/Disk/Create.antt =====
-- `create_file`: which inode, block and directory entry a new file gets, and when it gets none.
use apna_os.Prelude.{
  ℕ, ◌+◌, ◌<◌, ◌≡◌, refl, ◌≢◌, ◌⊎◌, inl, inr, arith, Array, Bytes, ltb, ◌==◌, if◌then◌else◌, update,
  update_self, update_ne, sym, ap, subst, lt→ltb, some, none, Option-cases, search_from,
  search_from-some, search_from-none, fun_ext, ◌∙◌,
}
use apna_os.Prelude.Run
use apna_os.Prelude.Run.{done, Returns, returns}
use apna_os.Text.{HasLength, strncpy}
use apna_os.Text.Copy.{strncpy-pads}
use apna_os.Disk.State.{
  Inode, Fs, block_count, max_files, max_filename_len, dec32, load_inode, store_inode,
}
use apna_os.Disk.Alloc.{allocate_inode, allocate_block}
use apna_os.Disk.Files.{enter_name, fill_inode, create_file}
use apna_os.Disk.Valid.{IsShaped, IsValid}
use apna_os.Disk.Grow.{DiskFull, taken, allocate_block-cases}
use apna_os.Disk.Fill.{entered, entered-IsValid, filled, new_inode, root_full-used}

abbrev pub AllUsed : Fs → Type 0
AllUsed fs = (i : ℕ) → i < max_files → (fs.inode_table i).inode_number ≢ 0

-- The state behind a successful `allocate_inode`.
abbrev numbered : Fs → ℕ → Fs
numbered fs ix = record fs {
  inode_table = update fs.inode_table ix (record (fs.inode_table ix) { inode_number = ix + 1 });
  sb = record (fs.sb) { free_inodes = dec32 fs.sb.free_inodes };
}

allocate_inode-cases :
    (fs : Fs)
    → ((allocate_inode fs ≡ done none fs) × AllUsed fs)
      ⊎ ((ix : ℕ) × (allocate_inode fs ≡ done (some ix) (numbered fs ix))
          × (ix < max_files)
          × ((fs.inode_table ix).inode_number ≡ 0))
unfolding allocate_inode
allocate_inode-cases fs =
    elim (Option-cases (search_from (λ i. (fs.inode_table i).inode_number == 0) 0 max_files)) [
      | inl e ↦ inl (
        rw (e, allocate_inode),
        λ i l.
            ground
              (arith, search_from-none (λ i. (fs.inode_table i).inode_number == 0) 0 max_files e i),
      )
      | inr (ix, e) ↦
          let first = search_from-some (λ i. (fs.inode_table i).inode_number == 0) 0 max_files e in
          inr (ix, rw (e, allocate_inode), omega (arith, first.below), ground (arith, first.passes))
    ]

-- A failed `create_file`: no inode is unused, or no block is. Only the counter of free inodes may
-- differ; it has lost one in the second case.
pub record Refused (fs fs' : Fs) : Type 0 where
  pub valid : IsValid fs'
  pub table : fs'.inode_table ≡ fs.inode_table
  pub root : fs'.root_directory ≡ fs.root_directory
  pub bitmap : fs'.block_bitmap ≡ fs.block_bitmap
  pub storage : fs'.storage ≡ fs.storage
  pub why :
      (AllUsed fs × (fs'.sb.free_inodes ≡ fs.sb.free_inodes))
      ⊎ (DiskFull fs × (fs'.sb.free_inodes ≡ dec32 fs.sb.free_inodes))

-- A successful one: the unused inode `ix` is an empty file under the name in the unused entry `d`.
pub record Created (filename : Bytes) (k : ℕ) (fs : Fs) (ix d : ℕ) (fs' : Fs) : Type 0 where
  pub valid : IsValid fs'
  pub in_table : ix < max_files
  pub unused : (fs.inode_table ix).inode_number ≡ 0
  pub inode :
      ((fs'.inode_table ix).inode_number ≡ ix + 1)
      × ((fs'.inode_table ix).size ≡ 0)
      × ((fs'.inode_table ix).permissions ≡ 7)
  pub others : (i : ℕ) → i ≢ ix → fs'.inode_table i ≡ fs.inode_table i
  pub in_root : d < max_files
  pub slot : (fs.root_directory d).inode_number ≡ 0
  pub entry : (fs'.root_directory d).inode_number ≡ ix + 1
  pub name :
      (j : ℕ)
      → j < max_filename_len
      → (fs'.root_directory d).filename j ≡ (if ltb j k then filename j else 0)
  pub entries : (e : ℕ) → e ≢ d → fs'.root_directory e ≡ fs.root_directory e
  pub storage : fs'.storage ≡ fs.storage

fill_inode-full :
    (filename : Bytes) {fs : Fs} (ix : ℕ)
    → IsValid fs
    → ix < max_files
    → (fs.inode_table ix).inode_number ≡ 0
    → DiskFull fs
    → allocate_block (numbered fs ix) ≡ done none (numbered fs ix)
    → Returns (λ out fs'. (out ≡ none) × Refused fs fs') (fill_inode filename ix (numbered fs ix))
unfolding fill_inode
fill_inode-full filename {fs} ix v l unused full failed =
    let back : update
          (update fs.inode_table ix (record (fs.inode_table ix) { inode_number = ix + 1 })) ix
          (record (update fs.inode_table ix (record (fs.inode_table ix) { inode_number = ix + 1 })
            ix) { inode_number = 0 })
        ≡ fs.inode_table =
      fun_ext λ j. ground arith in
    rw (failed, load_inode, store_inode, lt→ltb ix max_files l)
      (returns (
        refl,
        record {
          valid = record {
            owned = rw back v.owned;
            shaped = λ i a. subst (λ t. IsShaped (t i)) (sym back) (v.shaped i a);
            linked = rw back v.linked;
            counted = v.counted;
          };
          table = back;
          root = refl;
          bitmap = refl;
          storage = refl;
          why = inr (full, refl);
        },
      ))

name-padded :
    (old filename : Bytes) (k j : ℕ)
    → HasLength filename k
    → k < max_filename_len
    → j < max_filename_len
    → strncpy old filename max_filename_len j ≡ (if ltb j k then filename j else 0)
name-padded old filename k j len short a =
    rw (lt→ltb j max_filename_len a) at
      ((strncpy-pads old filename max_filename_len k len short).1 j)

entered-Created :
    (filename : Bytes) (k : ℕ) {fs : Fs} (ix b d : ℕ)
    → IsValid (entered (filled fs ix b) d ix filename)
    → HasLength filename k
    → k < max_filename_len
    → ix < max_files
    → (fs.inode_table ix).inode_number ≡ 0
    → d < max_files
    → (fs.root_directory d).inode_number ≡ 0
    → Created filename k fs ix d (entered (filled fs ix b) d ix filename)
entered-Created filename k {fs} ix b d v len short l unused in_root slot =
    let new = update_self fs.inode_table ix (new_inode (fs.inode_table ix) ix b) in
    record {
      valid = v;
      in_table = l;
      unused = unused;
      inode = (ap (λ i. i.inode_number) new, ap (λ i. i.size) new, ap (λ i. i.permissions) new);
      others = λ i ne. update_ne fs.inode_table ix i _ (λ e. ne (sym e));
      in_root = in_root;
      slot = slot;
      entry = ap (λ e. e.inode_number) (update_self fs.root_directory d _);
      name = λ j a.
          ap (λ e. e.filename j) (update_self fs.root_directory d _)
          ∙ name-padded (fs.root_directory d).filename filename k j len short a;
      entries = λ e ne. update_ne fs.root_directory d e _ (λ p. ne (sym p));
      storage = refl;
    }

enter_name-Created :
    (filename : Bytes) (k : ℕ) {fs : Fs} (ix b : ℕ)
    → IsValid fs
    → HasLength filename k
    → k < max_filename_len
    → ix < max_files
    → (fs.inode_table ix).inode_number ≡ 0
    → b < block_count
    → fs.block_bitmap b ≡ 0
    → Returns
        (λ out fs'. (d : ℕ) × (out ≡ some ix) × Created filename k fs ix d fs')
        (enter_name filename ix (filled fs ix b))
unfolding enter_name
enter_name-Created filename k {fs} ix b v len short l unused in_disk free =
    elim (Option-cases (search_from (λ i. (fs.root_directory i).inode_number == 0) 0 max_files)) [
      | inl e ↦ absurd (
          root_full-used ix v.linked l
            (λ d a. ground (
              arith,
              search_from-none (λ i. (fs.root_directory i).inode_number == 0) 0 max_files e d,
            ))
            unused)
      | inr (d, e) ↦
          let first =
            search_from-some (λ i. (fs.root_directory i).inode_number == 0) 0 max_files e in
          let slot : (fs.root_directory d).inode_number ≡ 0 = ground (arith, first.passes) in
          let (extent, copy) =
            strncpy-pads (fs.root_directory d).filename filename max_filename_len k len short in
          rw (e, enter_name, extent)
            (returns (
              d,
              refl,
              entered-Created filename k ix b d
                  (entered-IsValid v ix b l unused in_disk free d filename slot) len short l unused
                  (omega (arith, first.below)) slot,
            ))
    ]

fill_inode-filled :
    (filename : Bytes) (fs : Fs) (ix b : ℕ)
    → ix < max_files
    → allocate_block (numbered fs ix) ≡ done (some b) (taken (numbered fs ix) b)
    → fill_inode filename ix (numbered fs ix) ≡ enter_name filename ix (filled fs ix b)
unfolding fill_inode
fill_inode-filled filename fs ix b l got =
    rw (got, load_inode, store_inode, lt→ltb ix max_files l)
      (ap (λ t. enter_name filename ix (record (filled fs ix b) { inode_table = t })) table)
  where
    named : Array Inode
    named = update fs.inode_table ix (record (fs.inode_table ix) { inode_number = ix + 1 })

    table :
        update named ix
          (record (named ix) { size = 0; blocks = update (named ix).blocks 0 b; permissions = 7 })
        ≡ update fs.inode_table ix (new_inode (fs.inode_table ix) ix b)
    table = fun_ext λ j. ground arith

-- `create_file` under a name of at most 254 bytes ends inside the bounds, in one of two ways. It
-- returns the number of an unused inode, now an empty file that may be read, written and run, and
-- an unused directory entry holds the name, padded with zeros, and names that inode; all else but
-- the block bitmap and the counters is as before. Or it fails, and only because no inode or no
-- block is unused; then the inodes, the directory, the bitmap and the storage are as before. The
-- invariant holds again.
pub create_file_lem :
    (filename : Bytes) (k : ℕ) {fs : Fs}
    → IsValid fs
    → HasLength filename k
    → k < max_filename_len
    → Returns
        (λ out fs'.
          ((out ≡ none) × Refused fs fs')
          ⊎ ((ix d : ℕ) × (out ≡ some ix) × Created filename k fs ix d fs'))
        (create_file filename fs)
unfolding create_file
create_file_lem filename k {fs} v len short = elim (allocate_inode-cases fs) [
  | inl (e, all) ↦ rw e (
      returns (
        inl (
          refl,
          record {
            valid = v;
            table = refl;
            root = refl;
            bitmap = refl;
            storage = refl;
            why = inl (all, refl);
          },
        )))
  | inr (ix, e, l, unused) ↦ rw e (elim (allocate_block-cases (numbered fs ix)) [
    | inl (failed, full) ↦
        Run.mono (fill_inode-full filename ix v l unused full failed) (λ out fs' r. inl r)
    | inr (b, got, in_disk, free) ↦ rw (fill_inode-filled filename fs ix b l got) (
        Run.mono (enter_name-Created filename k ix b v len short l unused in_disk free)
          (λ out fs' r. inr (ix, r.0, r.1, r.2)))
  ])
]
