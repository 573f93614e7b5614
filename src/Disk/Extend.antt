-- ===== src/Disk/Extend.antt =====
-- `append_to_file`: its result, the bytes of the file and what stays as it was.
use apna_os.Prelude.{
  ℕ, ◌+◌, ◌-◌, ◌*◌, ◌/◌, ◌%◌, ◌^◌, ◌≤◌, ◌<◌, ◌≡◌, refl, sym, subst, ◌≢◌, arith, true, false, Array,
  Bytes, ltb, leb, if◌then◌else◌, update_ne, dec_lt, lt→ltb, ge→ltb, min, some, update-All,
}
use apna_os.Prelude.Run
use apna_os.Prelude.Run.{done, Returns, returns}
use apna_os.Disk.State.{Fs, block_size, max_files, no_block, load_inode, store_inode}
use apna_os.Disk.Alloc.{check_permissions}
use apna_os.Disk.Files.{find_file, inode_of}
use apna_os.Disk.Transfer.{max_size, space_left, reserve_append, append_inode, append_to_file}
use apna_os.Disk.Valid.{IsShaped, IsValid}
use apna_os.Disk.Blocks.{Owned-rewrite, Linked-same}
use apna_os.Disk.Reserve.{Grown, Grown-refl, allocate_blocks-Allocated}
use apna_os.Disk.Write.{content}
use apna_os.Disk.Store.{blocks_of, resized, with_storage}
use apna_os.Disk.Append.{Appended, append_loop-Appended}
use apna_os.Disk.Lookup.{inode_of-HasInode}

record ReservedMore (ix n : ℕ) (fs : Fs) (n' : ℕ) (fs' : Fs) : Type 0 where
  valid : IsValid fs'
  grown : Grown ix fs fs'
  limit : n' ≤ n

reserve_append-ReservedMore :
    (ix cur n : ℕ) {fs : Fs}
    → IsValid fs
    → ix < max_files
    → (fs.inode_table ix).inode_number ≢ 0
    → Returns (ReservedMore ix n fs) (reserve_append ix cur n fs)
unfolding reserve_append
reserve_append-ReservedMore ix cur n {fs} v l used =
    let needed = blocks_of (n - space_left cur) in
    elim (dec_lt 0 needed) [
      | no nothing ↦
          rw (ge→ltb 0 needed (omega arith))
            (returns (record { valid = v; grown = Grown-refl ix fs; limit = omega arith }))
      | yes some_needed ↦ rw (lt→ltb 0 needed some_needed) (
          Run.bind (allocate_blocks-Allocated ix needed v l used) λ a fs' r.
            returns (record { valid = r.valid; grown = r.grown; limit = ground (arith, r.limit) }))
    ]

-- What `append_to_file` leaves in the inode at `ix` and around it, once it returns `w`.
pub record Extended (ix : ℕ) (buffer : Bytes) (fs : Fs) (w : ℕ) (fs' : Fs) : Type 0 where
  pub valid : IsValid fs'
  pub size : (fs'.inode_table ix).size ≡ (fs.inode_table ix).size + w
  pub bytes :
      (p : ℕ)
      → p < (fs.inode_table ix).size + w
      → content fs' ix p ≡ (
          if ltb p (fs.inode_table ix).size
          then content fs ix p
          else buffer (p - (fs.inode_table ix).size))
  pub root : fs'.root_directory ≡ fs.root_directory
  pub others : (k : ℕ) → k ≢ ix → fs'.inode_table k ≡ fs.inode_table k
  pub elsewhere :
      (k p : ℕ)
      → k < max_files
      → k ≢ ix
      → p < (fs.inode_table k).size
      → content fs' k p ≡ content fs k p

module _ {fs fs1 : Fs} (ix n w : ℕ) (buffer : Bytes) (l : ix < max_files) (v : IsValid fs)
    (v1 : IsValid fs1) (g : Grown ix fs fs1) (st : Array Bytes)
    (fits : (fs.inode_table ix).size + n ≤ max_size)
    (r : Appended ix (fs.inode_table ix).size n 0 buffer fs1 w (with_storage fs1 st)) where
  extended-IsShaped : IsShaped (record (fs1.inode_table ix) { size = (fs.inode_table ix).size + w })
  extended-IsShaped = record {
    sized = λ j h. elim (dec_lt (j * block_size) (fs.inode_table ix).size) [
      | yes old ↦ (v1.shaped ix l).sized j (rw g.size old)
      | no new ↦
          let q : j * block_size / block_size ≡ j = omega arith in
          (omega (arith, r.upper), rw q at (r.held (j * block_size) (omega arith) h))
    ];
    packed = (v1.shaped ix l).packed;
    unused = (v1.shaped ix l).unused;
    started = (v1.shaped ix l).started;
  }

  extended-IsValid : IsValid (resized (with_storage fs1 st) ix ((fs.inode_table ix).size + w))
  extended-IsValid = record {
    owned = Owned-rewrite v1.owned ix _ (λ j. refl);
    shaped = update-All IsShaped fs1.inode_table ix max_files _ v1.shaped extended-IsShaped;
    linked = Linked-same _ v1.linked (λ k. ground arith);
    counted = v1.counted;
  }

  -- The bytes that were there are those of the state before.
  old_bytes : (p : ℕ) → p < (fs.inode_table ix).size → content fs1 ix p ≡ content fs ix p
  old_bytes p h =
      let (a, place) = (v.shaped ix l).sized (p / block_size) (omega arith) in
      rw (g.storage, g.kept (p / block_size) place)

  extended-elsewhere :
      (k p : ℕ)
      → k < max_files
      → k ≢ ix
      → p < (fs.inode_table k).size
      → content (resized (with_storage fs1 st) ix ((fs.inode_table ix).size + w)) k p
        ≡ content fs k p
  extended-elsewhere k p a ne h =
      let (b, place) = (v.shaped k a).sized (p / block_size) (omega arith) in
      let t : fs1.inode_table k ≡ fs.inode_table k = g.others k ne in
      let place' : (fs1.inode_table k).blocks (p / block_size) ≢ no_block = rw t place in
      let untouched =
        r.others ((fs1.inode_table k).blocks (p / block_size))
          (λ j c e. ne (v1.owned.apart k (p / block_size) ix j a b l c place' (sym e)).0) in
      rw (update_ne fs1.inode_table ix k _ (λ e. ne (sym e))) (rw (untouched, t, g.storage))

  extended_lem :
      Extended ix buffer fs w (resized (with_storage fs1 st) ix ((fs.inode_table ix).size + w))
  extended_lem = record {
    valid = extended-IsValid;
    size = ground arith;
    bytes = λ p h. ground (arith, r.bytes p h, old_bytes p);
    root = g.root;
    others = λ k ne. ground (arith, g.others k ne);
    elsewhere = extended-elsewhere;
  }

finish-Extended :
    (ix : ℕ) (buffer : Bytes) {n w : ℕ} {fs fs1 fs2 : Fs}
    → IsValid fs
    → ix < max_files
    → IsValid fs1
    → Grown ix fs fs1
    → (fs.inode_table ix).size + n ≤ max_size
    → Appended ix (fs.inode_table ix).size n 0 buffer fs1 w fs2
    → Extended ix buffer fs w (resized fs2 ix (((fs2.inode_table ix).size + w) % 2 ^ 32))
finish-Extended ix buffer {n} {w} {fs} {fs1} {fs2} v l v1 g fits ap =
    subst (λ s. Extended ix buffer fs w (resized s ix (((s.inode_table ix).size + w) % 2 ^ 32)))
      (sym ap.same)
      (rw size' (
        extended_lem ix n w buffer l v v1 g fs2.storage fits
          (subst (λ s. Appended ix (fs.inode_table ix).size n 0 buffer fs1 w s) ap.same ap)))
  where
    size' : ((fs1.inode_table ix).size + w) % 2 ^ 32 ≡ (fs.inode_table ix).size + w
    size' = omega (arith, g.size, ap.upper)

append_inode-Extended :
    (ix : ℕ) (buffer : Bytes) (size : ℕ) {fs : Fs}
    → IsValid fs
    → ix < max_files
    → (fs.inode_table ix).inode_number ≢ 0
    → check_permissions (fs.inode_table ix).permissions 1 ≡ true
    → (fs.inode_table ix).size < max_size
    → Returns
        (λ out fs'. (w : ℕ) × (out ≡ some w) × (w ≤ size) × Extended ix buffer fs w fs')
        (append_inode ix buffer size fs)
unfolding append_inode
append_inode-Extended ix buffer size {fs} v l used may small =
    let cur = (fs.inode_table ix).size in
    let room : leb max_size cur ≡ false = ground arith in
    rw (load_inode, lt→ltb ix max_files l, may, room)
      (Run.bind (reserve_append-ReservedMore ix cur (min size (max_size - cur)) v l used) λ n fs1 r.
        Run.bind
          (append_loop-Appended (n + 1) fs1 r.valid.owned ix cur n 0 buffer l
            (omega (arith, r.limit)) (omega arith) (omega arith))
          λ w fs2 ap.
            rw (load_inode, store_inode, lt→ltb ix max_files l)
              (returns (
                w,
                refl,
                omega (arith, ap.upper, r.limit),
                finish-Extended ix buffer v l r.valid r.grown (omega (arith, r.limit)) ap,
              )))

-- Appending to a file that may be written and is not yet of the largest size ends inside the
-- bounds. It returns the number `w` of bytes that it took; the file is `w` bytes longer, with its
-- old bytes followed by the first `w` of the buffer. The invariant holds again, and the directory,
-- the other inodes and the bytes of the other files are as before.
pub append_to_file_lem :
    (filename buffer : Bytes) (size : ℕ) {fs : Fs} {d : ℕ}
    → IsValid fs
    → find_file filename fs ≡ some d
    → check_permissions (fs.inode_table (inode_of fs d)).permissions 1 ≡ true
    → (fs.inode_table (inode_of fs d)).size < max_size
    → Returns
        (λ out fs'.
          (w : ℕ) × (out ≡ some w) × (w ≤ size) × Extended (inode_of fs d) buffer fs w fs')
        (append_to_file filename buffer size fs)
unfolding append_to_file
append_to_file_lem filename buffer size {fs} {d} v found may small =
    let h = inode_of-HasInode filename fs v found in
    rw (found, append_to_file)
      (append_inode-Extended (inode_of fs d) buffer size v h.in_table h.used may small)
