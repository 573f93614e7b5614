-- ===== src/Disk/RoundTrip.antt =====
-- `write_file` and `read_file` as a caller sees them, and what a read returns after a write.
use apna_os.Prelude.{
  ℕ, ◌+◌, ◌-◌, ◌≤◌, ◌<◌, ◌≡◌, arith, ap, true, Bytes, some, Option, ltb, if◌then◌else◌, min, lt→ltb,
  ◌∙◌,
}
use apna_os.Prelude.Run
use apna_os.Prelude.Run.{done, Returns, returns}
use apna_os.Disk.State.{max_blocks_per_file, Fs, max_files, load_inode}
use apna_os.Disk.Alloc.{check_permissions}
use apna_os.Disk.Files.{find_file, inode_of}
use apna_os.Disk.Transfer.{max_size, blocks_for, read_inode, read_file, write_file}
use apna_os.Disk.Valid.{held, IsValid}
use apna_os.Disk.Write.{content}
use apna_os.Disk.Read.{read_loop-Read}
use apna_os.Disk.Store.{Stored, WriteResult, blocks_of, write_inode-WriteResult}
use apna_os.Disk.Lookup.{inode_of-HasInode, find_file-root, inode_of-root}

-- What a read of `size` bytes from the inode at `ix` delivers, `buffer` being the caller's before.
pub record ReadResult (ix : ℕ) (buffer : Bytes) (size : ℕ) (fs : Fs) (out : Option ℕ × Bytes)
    (fs' : Fs) : Type 0 where
  pub same : fs' ≡ fs
  pub count : out.0 ≡ some (min size (fs.inode_table ix).size)
  pub bytes :
      (p : ℕ)
      → out.1 p ≡ (if ltb p (min size (fs.inode_table ix).size) then content fs ix p else buffer p)

read_inode-ReadResult :
    (ix : ℕ) (buffer : Bytes) (size : ℕ) {fs : Fs}
    → IsValid fs
    → ix < max_files
    → check_permissions (fs.inode_table ix).permissions 0 ≡ true
    → Returns (ReadResult ix buffer size fs) (read_inode ix buffer size fs)
unfolding read_inode
read_inode-ReadResult ix buffer size {fs} v l may =
    let n = if ltb (fs.inode_table ix).size size then (fs.inode_table ix).size else size in
    let e : n ≡ min size (fs.inode_table ix).size = ground arith in
    rw (load_inode, lt→ltb ix max_files l, may)
      (Run.bind
        (read_loop-Read fs v.owned ix l (v.shaped ix l) (n + 1) n 0 buffer (omega arith)
          (omega arith) (omega arith))
        λ out fs' r. returns (record {
          same = r.same;
          count = ground (arith, r.count, e);
          bytes = λ p. ground (arith, r.bytes p, e);
        }))

-- Reading a file that may be read returns its first bytes, as many as are asked for and as it has,
-- fills the buffer with them, and changes neither the rest of the buffer nor the file system.
pub read_file_lem :
    (filename buffer : Bytes) (size : ℕ) {fs : Fs} {d : ℕ}
    → IsValid fs
    → find_file filename fs ≡ some d
    → check_permissions (fs.inode_table (inode_of fs d)).permissions 0 ≡ true
    → Returns (ReadResult (inode_of fs d) buffer size fs) (read_file filename buffer size fs)
unfolding read_file
read_file_lem filename buffer size {fs} {d} v found may =
    rw (found, read_file)
      (read_inode-ReadResult (inode_of fs d) buffer size v
        (inode_of-HasInode filename fs v found).in_table may)

write_file-WriteResult :
    (filename buffer : Bytes) (size : ℕ) {fs : Fs} {d : ℕ}
    → IsValid fs
    → find_file filename fs ≡ some d
    → check_permissions (fs.inode_table (inode_of fs d)).permissions 1 ≡ true
    → Returns
        (λ out fs'. (w : ℕ) × (out ≡ some w) × WriteResult (inode_of fs d) buffer size fs w fs')
        (write_file filename buffer size fs)
unfolding write_file
write_file-WriteResult filename buffer size {fs} {d} v found may =
    let h = inode_of-HasInode filename fs v found in
    rw (found, write_file)
      (write_inode-WriteResult (inode_of fs d) buffer size v h.in_table h.used may)

module _ (filename buffer : Bytes) (size : ℕ) {fs : Fs} {d : ℕ} (v : IsValid fs)
    (found : find_file filename fs ≡ some d)
    (may : check_permissions (fs.inode_table (inode_of fs d)).permissions 1 ≡ true) where
  -- `write_file` of a file that may be written ends inside the bounds. It returns a number `w`, at
  -- most the bytes asked for and at most 16384: the file has these first `w` bytes of the buffer and
  -- no more. The invariant holds again, and the directory, the permissions, the other inodes and the
  -- bytes of the other files are as before.
  pub write_file_lem :
      Returns
        (λ out fs'.
          (w : ℕ) × (out ≡ some w)
          × Stored (inode_of fs d) buffer fs w fs'
          × (w ≤ min size max_size))
        (write_file filename buffer size fs)
  write_file_lem =
      Run.mono (write_file-WriteResult filename buffer size v found may)
        λ out fs' (w, e, r). (w, e, r.stored, r.limit)

  -- If the file holds as many blocks as its size accounts for, and the disk has as many free ones as
  -- the bytes need beyond these, `write_file` takes all the bytes, up to 16384.
  pub write_file-full :
      held (fs.inode_table (inode_of fs d)) ≡ blocks_for (fs.inode_table (inode_of fs d)).size
      → blocks_of (min size max_size) - blocks_for (fs.inode_table (inode_of fs d)).size
        ≤ fs.sb.free_blocks
      → Returns (λ out fs'. out ≡ some (min size max_size)) (write_file filename buffer size fs)
  write_file-full exact enough =
      Run.mono (write_file-WriteResult filename buffer size v found may)
        λ out fs' (w, e, r). e ∙ ap some (r.full enough exact)

  -- `write_file` computes the blocks that a file lacks from its size. If this number and the blocks
  -- that the file holds are together more than four, which takes a file that holds more blocks than
  -- its size accounts for, the write takes fewer bytes than asked for (or than 16384), however many
  -- blocks are free.
  pub write_file-cut_short :
      max_blocks_per_file
        < held (fs.inode_table (inode_of fs d))
          + (blocks_of (min size max_size) - blocks_for (fs.inode_table (inode_of fs d)).size)
      → Returns
          (λ out fs'. (w : ℕ) × (out ≡ some w) × (w < min size max_size))
          (write_file filename buffer size fs)
  write_file-cut_short spare =
      Run.mono (write_file-WriteResult filename buffer size v found may)
        λ out fs' (w, e, r). (w, e, r.short spare)

-- After a write to a file that may be read and written, on a valid file system, a read under the
-- same name returns the bytes written, as many as are asked for and as the write took, and leaves
-- the rest of the reader's buffer and the file system alone. Both end inside the bounds.
pub read-write :
    (filename written buffer : Bytes) (n m : ℕ) {fs : Fs} {d : ℕ}
    → IsValid fs
    → find_file filename fs ≡ some d
    → check_permissions (fs.inode_table (inode_of fs d)).permissions 0 ≡ true
    → check_permissions (fs.inode_table (inode_of fs d)).permissions 1 ≡ true
    → Returns
        (λ out fs'.
          (w : ℕ) × (out ≡ some w)
          × Returns
              (λ got fs''.
                (fs'' ≡ fs')
                × (got.0 ≡ some (min m w))
                × ((p : ℕ) → got.1 p ≡ (if ltb p (min m w) then written p else buffer p)))
              (read_file filename buffer m fs'))
        (write_file filename written n fs)
read-write filename written buffer n m {fs} {d} v found may_read may_write =
    Run.mono (write_file_lem filename written n v found may_write)
      λ out fs' (w, e, r, _). (w, e, read_back r)
  where
    read_back :
        {w : ℕ} {fs' : Fs}
        → Stored (inode_of fs d) written fs w fs'
        → Returns
            (λ got fs''.
              (fs'' ≡ fs')
              × (got.0 ≡ some (min m w))
              × ((p : ℕ) → got.1 p ≡ (if ltb p (min m w) then written p else buffer p)))
            (read_file filename buffer m fs')
    read_back {w} {fs'} s =
        let ix = inode_of-root d fs fs' s.root in
        let may' : check_permissions (fs'.inode_table (inode_of fs' d)).permissions 0 ≡ true =
          rw (ix, s.permissions) may_read in
        let size' : (fs'.inode_table (inode_of fs' d)).size ≡ w = rw ix s.size in
        Run.mono
          (read_file_lem filename buffer m s.valid (find_file-root filename fs fs' s.root ∙ found)
            may')
          λ got fs'' r. (
            r.same,
            ground (arith, r.count, size'),
            λ p. ground (arith, r.bytes p, size', rw (← ix) at (s.bytes p)),
          )
