-- ===== src/Disk/Append.antt =====
-- The loop of `append_to_file`: the bytes go behind those that are there, block by block.
use apna_os.Prelude.{
  ℕ, zero, suc, ◌+◌, ◌-◌, ◌/◌, ◌%◌, ◌≤◌, ◌<◌, ◌≡◌, refl, ◌≢◌, arith, Bytes, ltb, if◌then◌else◌,
  ℕ_discrete, dec_lt, lt→ltb, ge→ltb, ne→==, eq→==, min,
}
use apna_os.Prelude.Run
use apna_os.Prelude.Run.{done, Returns, returns}
use apna_os.Text.Copy.{memcpy_lem}
use apna_os.Disk.State.{Fs, block_size, max_blocks_per_file, max_files, no_block}
use apna_os.Disk.Transfer.{max_size, append_loop}
use apna_os.Disk.Valid.{Owned}
use apna_os.Disk.Write.{content, copied, copy_in-copied}
use apna_os.Disk.Read.{block_at-lem}

-- The outcome of the loop on a file of `cur` bytes, started with `w` bytes appended of `n`.
pub record Appended (ix cur n w : ℕ) (buffer : Bytes) (fs : Fs) (w' : ℕ) (fs' : Fs) : Type 0 where
  pub same : fs' ≡ record fs { storage = fs'.storage }
  pub lower : w ≤ w'
  pub upper : w' ≤ n
  pub bytes :
      (p : ℕ)
      → p < cur + w'
      → content fs' ix p ≡ (if ltb p (cur + w) then content fs ix p else buffer (p - cur))
  pub held :
      (p : ℕ) → cur + w ≤ p → p < cur + w' → (fs.inode_table ix).blocks (p / block_size) ≢ no_block
  pub others :
      (b : ℕ)
      → ((j : ℕ) → j < max_blocks_per_file → (fs.inode_table ix).blocks j ≢ b)
      → fs'.storage b ≡ fs.storage b

Appended-stop :
    (ix cur n w : ℕ) (buffer : Bytes) (fs : Fs) → w ≤ n → Appended ix cur n w buffer fs w fs
Appended-stop ix cur n w buffer fs le = record {
  same = refl;
  lower = omega arith;
  upper = le;
  bytes = λ p h. rw (lt→ltb p (cur + w) h);
  held = λ p a b. absurd (omega arith);
  others = λ b h. refl;
}

-- A patch of `c` bytes at offset `s` of the file, inside one block.
content-patched :
    (fs : Fs) (o : Owned fs.inode_table fs.block_bitmap) (ix : ℕ) (buffer : Bytes) (s at c p : ℕ)
    → ix < max_files
    → s / block_size < max_blocks_per_file
    → (fs.inode_table ix).blocks (s / block_size) ≢ no_block
    → c ≤ block_size - s % block_size
    → p < s + c
    → content
        (copied fs ((fs.inode_table ix).blocks (s / block_size)) (s % block_size) buffer at c)
        ix
        p
      ≡ (if ltb p s then content fs ix p else buffer (at + (p - s)))
content-patched fs o ix buffer s at c p l a held small m =
    elim (dec_lt (p / block_size) (s / block_size)) [
      | yes before ↦ ground (arith, o.apart ix (s / block_size) ix (p / block_size) l a l)
      | no after ↦
          let q : p / block_size ≡ s / block_size = omega arith in
          let copy =
            memcpy_lem (fs.storage ((fs.inode_table ix).blocks (s / block_size))) (s % block_size)
              buffer at c (p % block_size) in
          elim (dec_lt p s) [
            | yes old ↦ rw (q, content) (ground arith)
            | no new ↦
                let e : at + (p % block_size - s % block_size) ≡ at + (p - s) = omega arith in
                rw q (ground (arith, rw e at copy))
          ]
    ]

Appended-step :
    (fs : Fs) (o : Owned fs.inode_table fs.block_bitmap) (ix cur n w c : ℕ) (buffer : Bytes)
    {w' : ℕ} {fs' : Fs}
    → ix < max_files
    → (cur + w) / block_size < max_blocks_per_file
    → (fs.inode_table ix).blocks ((cur + w) / block_size) ≢ no_block
    → c ≤ block_size - (cur + w) % block_size
    → Appended ix cur n
        (w + c)
        buffer
        (copied fs
          ((fs.inode_table ix).blocks ((cur + w) / block_size))
          ((cur + w) % block_size)
          buffer
          w
          c)
        w'
        fs'
    → Appended ix cur n w buffer fs w' fs'
Appended-step fs o ix cur n w c buffer l a held small r = record {
  same = r.same;
  lower = omega (arith, r.lower);
  upper = r.upper;
  bytes = λ p h.
      let now = r.bytes p h in
      elim (dec_lt p (cur + (w + c))) [
        | no m ↦ ground (arith, now)
        | yes m ↦
            let patch =
              content-patched fs o ix buffer (cur + w) w c p l a held small (omega arith) in
            elim (dec_lt p (cur + w)) [
              | yes old ↦ ground (arith, now, patch)
              | no new ↦
                  let e : w + (p - (cur + w)) ≡ p - cur = omega arith in
                  ground (arith, now, rw e at patch)
            ]
      ];
  held = λ p b d. elim (dec_lt p (cur + (w + c))) [
    | yes m ↦ let q : (cur + w) / block_size ≡ p / block_size = omega arith in rw q at held
    | no m ↦ r.held p (omega arith) d
  ];
  others = λ b apart. ground (arith, r.others b apart, apart ((cur + w) / block_size) a);
}

-- `append_loop` ends inside the bounds, having appended a prefix of what was asked.
pub append_loop-Appended :
    (fuel : ℕ) (fs : Fs) (o : Owned fs.inode_table fs.block_bitmap) (ix cur n w : ℕ)
    (buffer : Bytes)
    → ix < max_files
    → cur + n ≤ max_size
    → w ≤ n
    → n - w < fuel
    → Returns (Appended ix cur n w buffer fs) (append_loop fuel ix buffer cur n w fs)
unfolding append_loop
append_loop-Appended zero fs o ix cur n w buffer l fits le enough = absurd (omega arith)
append_loop-Appended (suc fuel) fs o ix cur n w buffer l fits le enough = elim (dec_lt w n) [
  | no all ↦ rw (ge→ltb w n (omega arith)) (returns (Appended-stop ix cur n w buffer fs le))
  | yes more ↦
      let j = (cur + w) / block_size in
      let s = (cur + w) % block_size in
      let a : j < max_blocks_per_file = omega arith in
      let b = (fs.inode_table ix).blocks j in
      let c = min (block_size - s) (n - w) in
      rw (lt→ltb w n more, block_at-lem fs ix j l a)
        (elim (ℕ_discrete b no_block) [
          | yes none_left ↦
              rw (eq→== b no_block none_left) (returns (Appended-stop ix cur n w buffer fs le))
          | no held ↦
              rw
                (
                  ne→== b no_block held,
                  copy_in-copied fs b s buffer w c (o.marked ix j l a held).0 (omega arith),
                )
                (Run.mono
                  (append_loop-Appended fuel (copied fs b s buffer w c) o ix cur n (w + c) buffer l
                    fits (omega arith) (omega arith))
                  (λ w' fs' r. Appended-step fs o ix cur n w c buffer l a held (omega arith) r))
        ])
]
