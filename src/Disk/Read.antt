-- ===== src/Disk/Read.antt =====
-- The loop of `read_file`: it delivers the bytes of the file and leaves the file system alone.
use apna_os.Prelude.{
  ℕ, zero, suc, ◌+◌, ◌-◌, ◌/◌, ◌%◌, ◌≤◌, ◌<◌, ◌≡◌, refl, arith, Bytes, ltb, leb, ◌&&◌,
  if◌then◌else◌, dec_lt, lt→ltb, ge→ltb, ne→==, min,
}
use apna_os.Prelude.Run
use apna_os.Prelude.Run.{done, Returns, returns}
use apna_os.Text.{memcpy}
use apna_os.Text.Copy.{memcpy_lem}
use apna_os.Disk.State.{Fs, block_count, block_size, max_blocks_per_file, max_files, no_block}
use apna_os.Disk.Transfer.{block_at, copy_out, read_loop}
use apna_os.Disk.Valid.{Owned, IsShaped}
use apna_os.Disk.Write.{content}

pub block_at-lem :
    (fs : Fs) (ix j : ℕ)
    → ix < max_files
    → j < max_blocks_per_file
    → block_at ix j fs ≡ done ((fs.inode_table ix).blocks j) fs
unfolding block_at
block_at-lem fs ix j l a = ground arith

copy_out-lem :
    (fs : Fs) (b offset : ℕ) (buffer : Bytes) (at n : ℕ)
    → b < block_count
    → offset + n ≤ block_size
    → copy_out b offset buffer at n fs ≡ done (memcpy buffer at (fs.storage b) offset n) fs
unfolding copy_out
copy_out-lem fs b offset buffer at n l k = ground arith

-- All `n` bytes from `w` on are in the buffer, and nothing else of it is changed.
pub record Read (ix n w : ℕ) (buffer : Bytes) (fs : Fs) (out : ℕ × Bytes) (fs' : Fs) : Type 0 where
  pub same : fs' ≡ fs
  pub count : out.0 ≡ n
  pub bytes : (p : ℕ) → out.1 p ≡ (if leb w p && ltb p n then content fs ix p else buffer p)

module _ (fs : Fs) (o : Owned fs.inode_table fs.block_bitmap) (ix : ℕ) (l : ix < max_files)
    (s : IsShaped (fs.inode_table ix)) where
  Read-step :
      (n w c : ℕ) (buffer : Bytes) {out : ℕ × Bytes} {fs' : Fs}
      → w < n
      → c ≤ block_size - w % block_size
      → c ≤ n - w
      → 0 < c
      → Read ix n
          (w + c)
          (memcpy buffer w
            (fs.storage ((fs.inode_table ix).blocks (w / block_size)))
            (w % block_size)
            c)
          fs
          out
          fs'
      → Read ix n w buffer fs out fs'
  Read-step n w c buffer more small rest pos r = record {
    same = r.same;
    count = r.count;
    bytes = λ p.
        let copy =
          memcpy_lem buffer w (fs.storage ((fs.inode_table ix).blocks (w / block_size)))
            (w % block_size) c p in
        elim (dec_lt p w) [
          | yes before ↦ ground (arith, r.bytes p, copy)
          | no a ↦ elim (dec_lt p (w + c)) [
            | no after ↦ ground (arith, r.bytes p, copy)
            | yes inside ↦
                let q : p / block_size ≡ w / block_size = omega arith in
                let e : w % block_size + (p - w) ≡ p % block_size = omega arith in
                rw (q, content) (ground (arith, r.bytes p, rw e at copy))
          ]
        ];
  }

  -- `read_loop` ends, inside the bounds, with all the bytes asked for.
  pub read_loop-Read :
      (fuel n w : ℕ) (buffer : Bytes)
      → n ≤ (fs.inode_table ix).size
      → w ≤ n
      → n - w < fuel
      → Returns (Read ix n w buffer fs) (read_loop fuel ix n w buffer fs)
  unfolding read_loop
  read_loop-Read zero n w buffer fits le enough = absurd (omega arith)
  read_loop-Read (suc fuel) n w buffer fits le enough = elim (dec_lt w n) [
    | no all ↦
        rw (ge→ltb w n (omega arith))
          (returns (record { same = refl; count = omega arith; bytes = λ p. ground arith }))
    | yes more ↦
        let (a, held) = s.sized (w / block_size) (omega arith) in
        let b = (fs.inode_table ix).blocks (w / block_size) in
        let c = min (block_size - w % block_size) (n - w) in
        rw
          (
            lt→ltb w n more,
            block_at-lem fs ix (w / block_size) l a,
            ne→== b no_block held,
            copy_out-lem fs b (w % block_size) buffer w c (o.marked ix (w / block_size) l a held).0
                (omega arith),
          )
          (Run.mono
            (read_loop-Read fuel n (w + c) (memcpy buffer w (fs.storage b) (w % block_size) c) fits
              (omega arith) (omega arith))
            (λ out fs' r. Read-step n w c buffer more (omega arith) (omega arith) (omega arith) r))
  ]
