-- ===== src/Disk/Transfer.antt =====
-- The operations on bytes: `read_file`, `write_file`, `append_to_file`. The caller's buffer is the
-- memory from its pointer on. A result that is -1 on failure is an option.
use apna_os.Prelude.{
  ℕ, zero, suc, ◌+◌, ◌-◌, ◌*◌, ◌/◌, ◌%◌, ◌^◌, ◌&&◌, Option, none, some, ltb, leb, ◌==◌,
  if◌then◌else◌, Bytes, update, min, max,
}
use apna_os.Prelude.Run.{Cmd, done, out_of_fuel, pure, get, put, guard, ◌>>=◌, ◌>>◌}
use apna_os.Text.{memcpy}
use apna_os.Disk.State.{
  Fs, max_blocks_per_file, block_count, block_size, no_block, load_inode, store_inode,
}
use apna_os.Disk.Alloc.{allocate_blocks, check_permissions}
use apna_os.Disk.Files.{find_file, inode_of}

abbrev pub max_size : ℕ
max_size = max_blocks_per_file * block_size

-- `inode_table[ix].blocks[j]` at a computed `j`.
unfoldable pub block_at : ℕ → ℕ → Cmd Fs ℕ
unfolding load_inode
block_at ix j = do ino ← load_inode ix; guard (ltb j max_blocks_per_file); pure (ino.blocks j)

-- memcpy(buffer + at, storage[b] + offset, n)
unfoldable pub copy_out : ℕ → ℕ → Bytes → ℕ → ℕ → Cmd Fs Bytes
unfolding memcpy
copy_out b offset buffer at n = do
  guard (ltb b block_count && leb (offset + n) block_size)
  fs ← get
  pure (memcpy buffer at (fs.storage b) offset n)

-- memcpy(storage[b] + offset, buffer + at, n)
unfoldable pub copy_in : ℕ → ℕ → Bytes → ℕ → ℕ → Cmd Fs (Unit {0})
unfolding memcpy
copy_in b offset buffer at n = do
  guard (ltb b block_count && leb (offset + n) block_size)
  fs ← get
  put (record fs { storage = update fs.storage b (memcpy (fs.storage b) offset buffer at n) })

-- `memcpy` of at least one byte in each round: `read_size` rounds and the last test suffice.
unfoldable pub read_loop : ℕ → ℕ → ℕ → ℕ → Bytes → Cmd Fs (ℕ × Bytes)
read_loop zero ix read_size read buffer = λ _. out_of_fuel
read_loop (suc fuel) ix read_size read buffer =
    if ltb read read_size
    then (do
      b ← block_at ix (read / block_size)
      if b == no_block then pure (read, buffer) else (do
        let chunk = min (block_size - read % block_size) (read_size - read)
        buffer' ← copy_out b (read % block_size) buffer read chunk
        read_loop fuel ix read_size (read + chunk) buffer'))
    else pure (read, buffer)

-- `read_file` on the inode that it found.
unfoldable pub read_inode : ℕ → Bytes → ℕ → Cmd Fs (Option ℕ × Bytes)
unfolding load_inode
read_inode ix buffer size = do
  ino ← load_inode ix
  if check_permissions ino.permissions 0
      then (do
        let read_size : ℕ = if ltb ino.size size then ino.size else size
        (read, buffer') ← read_loop (read_size + 1) ix read_size 0 buffer
        pure (some read, buffer'))
      else pure (none, buffer)

unfoldable pub read_file : Bytes → Bytes → ℕ → Cmd Fs (Option ℕ × Bytes)
read_file filename buffer size fs = elim (find_file filename fs) [
  | none ↦ done (none, buffer) fs
  | some i ↦ read_inode (inode_of fs i) buffer size fs
]

-- The loop of `write_file`, with `n` rounds left at place `j`.
unfoldable pub write_loop : ℕ → ℕ → Bytes → ℕ → ℕ → ℕ → Cmd Fs ℕ
unfolding load_inode
write_loop zero ix buffer write_size j written = pure written
write_loop (suc n) ix buffer write_size j written =
    if ltb written write_size
    then (do
      ino ← load_inode ix
      if ino.blocks j == no_block then pure written else (do
        let chunk = min block_size (write_size - written)
        copy_in (ino.blocks j) 0 buffer written chunk
        write_loop n ix buffer write_size (j + 1) (written + chunk)))
    else pure written

-- `write_size` once the missing blocks are asked for. An `int` difference that is not positive
-- asks for none, and is 0 here.
unfoldable pub reserve : ℕ → ℕ → ℕ → Cmd Fs ℕ
reserve ix current_blocks write_size =
    let total : ℕ = (write_size + block_size - 1) / block_size in
    let needed : ℕ = total - current_blocks in
    if ltb 0 needed
    then (do
      allocated ← allocate_blocks ix needed
      pure (if ltb allocated needed then (current_blocks + allocated) * block_size else write_size))
    else pure write_size

-- max((size + BLOCK_SIZE - 1) / BLOCK_SIZE, 1), in a `uint32_t`
unfoldable pub blocks_for : ℕ → ℕ
blocks_for size = max ((size + block_size - 1) % 2 ^ 32 / block_size) 1

unfoldable pub write_inode : ℕ → Bytes → ℕ → Cmd Fs (Option ℕ)
unfolding load_inode store_inode
write_inode ix buffer size = do
  ino ← load_inode ix
  if check_permissions ino.permissions 1
      then (do
        write_size ← reserve ix (blocks_for ino.size) (min size max_size)
        written ← write_loop max_blocks_per_file ix buffer write_size 0 0
        ino' ← load_inode ix
        store_inode ix (record ino' { size = written })
        pure (some written))
      else pure none

unfoldable pub write_file : Bytes → Bytes → ℕ → Cmd Fs (Option ℕ)
write_file filename buffer size fs = elim (find_file filename fs) [
  | none ↦ done none fs
  | some i ↦ write_inode (inode_of fs i) buffer size fs
]

-- Each round of the loop of `append_to_file` copies at least one byte.
unfoldable pub append_loop : ℕ → ℕ → Bytes → ℕ → ℕ → ℕ → Cmd Fs ℕ
append_loop zero ix buffer current_size append_size written = λ _. out_of_fuel
append_loop (suc fuel) ix buffer current_size append_size written =
    if ltb written append_size
    then (do
      let offset = (current_size + written) % block_size
      b ← block_at ix ((current_size + written) / block_size)
      if b == no_block then pure written else (do
        let chunk = min (block_size - offset) (append_size - written)
        copy_in b offset buffer written chunk
        append_loop fuel ix buffer current_size append_size (written + chunk)))
    else pure written

-- The room in the last block of a file of `current_size` bytes.
unfoldable pub space_left : ℕ → ℕ
space_left current_size =
    let used : ℕ = current_size % block_size in
    if used == 0 && ltb 0 current_size then 0 else block_size - used

-- `append_size` once the missing blocks are asked for.
unfoldable pub reserve_append : ℕ → ℕ → ℕ → Cmd Fs ℕ
reserve_append ix current_size append_size =
    let left : ℕ = space_left current_size in
    let overflow : ℕ = append_size - left in
    let needed : ℕ = (overflow + block_size - 1) / block_size in
    if ltb 0 needed
    then (do
      allocated ← allocate_blocks ix needed
      pure (if ltb allocated needed then left + allocated * block_size else append_size))
    else pure append_size

unfoldable pub append_inode : ℕ → Bytes → ℕ → Cmd Fs (Option ℕ)
unfolding load_inode store_inode
append_inode ix buffer size = do
  ino ← load_inode ix
  if check_permissions ino.permissions 1
      then (if leb max_size ino.size then pure none else (do
        append_size ← reserve_append ix ino.size (min size (max_size - ino.size))
        written ← append_loop (append_size + 1) ix buffer ino.size append_size 0
        ino' ← load_inode ix
        store_inode ix (record ino' { size = (ino'.size + written) % 2 ^ 32 })
        pure (some written)))
      else pure none

unfoldable pub append_to_file : Bytes → Bytes → ℕ → Cmd Fs (Option ℕ)
append_to_file filename buffer size fs = elim (find_file filename fs) [
  | none ↦ done none fs
  | some i ↦ append_inode (inode_of fs i) buffer size fs
]
