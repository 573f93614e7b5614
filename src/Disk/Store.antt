-- ===== src/Disk/Store.antt =====
-- `write_file` on the inode that it found: its result, the bytes of the file and what stays as it
-- was.
use apna_os.Prelude.{
  ℕ, ◌+◌, ◌-◌, ◌*◌, ◌/◌, ◌≤◌, ◌<◌, ◌≡◌, refl, sym, subst, ◌∙◌, ◌≢◌, inl, true, arith, Array, Bytes,
  update, update_ne, dec_lt, lt→ltb, ge→ltb, min, some, update-All,
}
use apna_os.Prelude.Run
use apna_os.Prelude.Run.{done, Returns, returns}
use apna_os.Disk.State.{
  Fs, block_size, max_blocks_per_file, max_files, no_block, load_inode, store_inode,
}
use apna_os.Disk.Alloc.{check_permissions}
use apna_os.Disk.Transfer.{max_size, blocks_for, reserve, write_inode}
use apna_os.Disk.Valid.{IsShaped, IsValid, held}
use apna_os.Disk.Blocks.{Owned-rewrite, held-le, held-place, Linked-same}
use apna_os.Disk.Reserve.{Grown, Grown-refl, allocate_blocks-Allocated}
use apna_os.Disk.Write.{content, Written, write_loop-Written}

-- The blocks that `n` bytes take.
abbrev pub blocks_of : ℕ → ℕ
blocks_of n = (n + block_size - 1) / block_size

-- What `reserve` leaves, for `n` bytes wanted and `cur` blocks counted.
pub record Reserved (ix cur n : ℕ) (fs : Fs) (n' : ℕ) (fs' : Fs) : Type 0 where
  pub valid : IsValid fs'
  pub grown : Grown ix fs fs'
  pub limit : n' ≤ n
  pub full :
      blocks_of n - cur ≤ fs.sb.free_blocks
      → held (fs.inode_table ix) + (blocks_of n - cur) ≤ max_blocks_per_file
      → (n' ≡ n) × (held (fs'.inode_table ix) ≡ held (fs.inode_table ix) + (blocks_of n - cur))
  pub short : max_blocks_per_file < held (fs.inode_table ix) + (blocks_of n - cur) → n' < n

reserve-Reserved :
    (ix cur n : ℕ) {fs : Fs}
    → IsValid fs
    → ix < max_files
    → (fs.inode_table ix).inode_number ≢ 0
    → Returns (Reserved ix cur n fs) (reserve ix cur n fs)
unfolding reserve
reserve-Reserved ix cur n {fs} v l used = elim (dec_lt 0 (blocks_of n - cur)) [
  | no nothing ↦ rw (ge→ltb 0 (blocks_of n - cur) (omega arith)) (
      returns (record {
        valid = v;
        grown = Grown-refl ix fs;
        limit = omega arith;
        full = λ a b. (refl, omega arith);
        short = λ room. absurd (omega (arith, held-le (fs.inode_table ix)));
      }))
  | yes needed ↦ rw (lt→ltb 0 (blocks_of n - cur) needed) (
      Run.bind (allocate_blocks-Allocated ix (blocks_of n - cur) v l used) λ a fs' r.
        returns (record {
          valid = r.valid;
          grown = r.grown;
          limit = ground (arith, r.limit);
          full = λ enough room. ground (arith, r.limit, r.gained, r.spent, r.stop);
          short = λ room.
              ground (arith, held-le (fs'.inode_table ix), r.limit, r.gained, r.spent, r.stop);
        }))
]

-- What `write_file` leaves in the inode at `ix` and around it, once it returns `w`.
pub record Stored (ix : ℕ) (buffer : Bytes) (fs : Fs) (w : ℕ) (fs' : Fs) : Type 0 where
  pub valid : IsValid fs'
  pub size : (fs'.inode_table ix).size ≡ w
  pub bytes : (p : ℕ) → p < w → content fs' ix p ≡ buffer p
  pub number : (fs'.inode_table ix).inode_number ≡ (fs.inode_table ix).inode_number
  pub permissions : (fs'.inode_table ix).permissions ≡ (fs.inode_table ix).permissions
  pub root : fs'.root_directory ≡ fs.root_directory
  pub others : (k : ℕ) → k ≢ ix → fs'.inode_table k ≡ fs.inode_table k
  pub elsewhere :
      (k p : ℕ)
      → k < max_files
      → k ≢ ix
      → p < (fs.inode_table k).size
      → content fs' k p ≡ content fs k p

-- The last step: the new size.
abbrev pub resized : Fs → ℕ → ℕ → Fs
resized fs ix w = record fs {
  inode_table = update fs.inode_table ix (record (fs.inode_table ix) { size = w });
}

abbrev pub with_storage : Fs → Array Bytes → Fs
with_storage fs st = record fs { storage = st }

module _ {fs fs1 : Fs} (ix n w : ℕ) (buffer : Bytes) (l : ix < max_files) (v : IsValid fs)
    (v1 : IsValid fs1) (g : Grown ix fs fs1) (st : Array Bytes)
    (r : Written ix n 0 buffer fs1 w (with_storage fs1 st)) where
  resized-IsShaped : IsShaped (record (fs1.inode_table ix) { size = w })
  resized-IsShaped = record {
    sized = λ j h.
        let q : j * block_size / block_size ≡ j = omega arith in
        rw q at (r.held (j * block_size) (omega arith) h);
    packed = (v1.shaped ix l).packed;
    unused = (v1.shaped ix l).unused;
    started = (v1.shaped ix l).started;
  }

  resized-IsValid : IsValid (resized (with_storage fs1 st) ix w)
  resized-IsValid = record {
    owned = Owned-rewrite v1.owned ix _ (λ j. refl);
    shaped = update-All IsShaped fs1.inode_table ix max_files _ v1.shaped resized-IsShaped;
    linked = Linked-same _ v1.linked (λ k. ground arith);
    counted = v1.counted;
  }

  resized-elsewhere :
      (k p : ℕ)
      → k < max_files
      → k ≢ ix
      → p < (fs.inode_table k).size
      → content (resized (with_storage fs1 st) ix w) k p ≡ content fs k p
  resized-elsewhere k p a ne h =
      let (b, place) = (v.shaped k a).sized (p / block_size) (omega arith) in
      let t : fs1.inode_table k ≡ fs.inode_table k = g.others k ne in
      let place' : (fs1.inode_table k).blocks (p / block_size) ≢ no_block = rw t place in
      let untouched =
        r.others ((fs1.inode_table k).blocks (p / block_size))
          (λ j c e. ne (v1.owned.apart k (p / block_size) ix j a b l c place' (sym e)).0) in
      rw (update_ne fs1.inode_table ix k _ (λ e. ne (sym e))) (rw (untouched, t, g.storage))

  resized-Stored : Stored ix buffer fs w (resized (with_storage fs1 st) ix w)
  resized-Stored = record {
    valid = resized-IsValid;
    size = ground arith;
    bytes = λ p h. ground (arith, r.bytes p h);
    number = ground (arith, g.number);
    permissions = ground (arith, g.permissions);
    root = g.root;
    others = λ k ne. ground (arith, g.others k ne);
    elsewhere = resized-elsewhere;
  }

-- The result of a successful `write_file` of `size` bytes, with the conditions under which it is
-- all of them, or not.
pub record WriteResult (ix : ℕ) (buffer : Bytes) (size : ℕ) (fs : Fs) (w : ℕ) (fs' : Fs)
    : Type 0 where
  pub stored : Stored ix buffer fs w fs'
  pub limit : w ≤ min size max_size
  pub full :
      blocks_of (min size max_size) - blocks_for (fs.inode_table ix).size ≤ fs.sb.free_blocks
      → held (fs.inode_table ix) ≡ blocks_for (fs.inode_table ix).size
      → w ≡ min size max_size
  pub short :
      max_blocks_per_file
        < held (fs.inode_table ix)
          + (blocks_of (min size max_size) - blocks_for (fs.inode_table ix).size)
      → w < min size max_size

-- With blocks enough for `n` bytes the loop writes all of them.
Written-all :
    {ix n w : ℕ} {buffer : Bytes} {fs fs' : Fs}
    → IsShaped (fs.inode_table ix)
    → Written ix n 0 buffer fs w fs'
    → n ≤ max_size
    → n ≤ held (fs.inode_table ix) * block_size
    → w ≡ n
Written-all {ix} {n} {w} {fs} s r most room =
    elim (dec_lt (w / block_size) (held (fs.inode_table ix))) [
      | yes l ↦ ground (arith, r.upper, r.stop, held-place (w / block_size) s l)
      | no l ↦ omega (arith, r.upper)
    ]

finish-Stored :
    (ix : ℕ) (buffer : Bytes) {n w : ℕ} {fs fs1 fs2 : Fs}
    → IsValid fs
    → ix < max_files
    → IsValid fs1
    → Grown ix fs fs1
    → Written ix n 0 buffer fs1 w fs2
    → Stored ix buffer fs w (resized fs2 ix w)
finish-Stored ix buffer {n} {w} {fs} {fs1} {fs2} v l v1 g wr =
    subst (λ s. Stored ix buffer fs w (resized s ix w)) (sym wr.same)
      (resized-Stored ix n w buffer l v v1 g fs2.storage
        (subst (λ s. Written ix n 0 buffer fs1 w s) wr.same wr))

finish-WriteResult :
    (ix : ℕ) (buffer : Bytes) (size : ℕ) {n w : ℕ} {fs fs1 fs2 : Fs}
    → IsValid fs
    → ix < max_files
    → Reserved ix (blocks_for (fs.inode_table ix).size) (min size max_size) fs n fs1
    → Written ix n 0 buffer fs1 w fs2
    → WriteResult ix buffer size fs w (resized fs2 ix w)
finish-WriteResult ix buffer size {n} {w} {fs} {fs1} v l r wr = record {
  stored = finish-Stored ix buffer v l r.valid r.grown wr;
  limit = omega (arith, wr.upper, r.limit);
  full = λ enough exact.
      let (all, more) = r.full enough (omega (arith, held-le (fs.inode_table ix))) in
      Written-all (r.valid.shaped ix l) wr (omega arith) (omega arith) ∙ all;
  short = λ room. omega (arith, wr.upper, r.short room);
}

pub write_inode-WriteResult :
    (ix : ℕ) (buffer : Bytes) (size : ℕ) {fs : Fs}
    → IsValid fs
    → ix < max_files
    → (fs.inode_table ix).inode_number ≢ 0
    → check_permissions (fs.inode_table ix).permissions 1 ≡ true
    → Returns
        (λ out fs'. (w : ℕ) × (out ≡ some w) × WriteResult ix buffer size fs w fs')
        (write_inode ix buffer size fs)
unfolding write_inode
write_inode-WriteResult ix buffer size {fs} v l used may =
    rw (load_inode, lt→ltb ix max_files l, may)
      (Run.bind
        (reserve-Reserved ix (blocks_for (fs.inode_table ix).size) (min size max_size) v l used)
        λ n fs1 r.
          Run.bind
            (write_loop-Written max_blocks_per_file fs1 r.valid.owned ix n 0 0 buffer l refl
              (omega arith) (inl refl))
            λ w fs2 wr.
              rw (load_inode, store_inode, lt→ltb ix max_files l)
                (returns (w, refl, finish-WriteResult ix buffer size v l r wr)))
