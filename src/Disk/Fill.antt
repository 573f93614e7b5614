-- ===== src/Disk/Fill.antt =====
-- The state once a new file has its inode, its first block and its directory entry.
use apna_os.Prelude.{
  ℕ, ◌+◌, ◌-◌, ◌<◌, ◌≡◌, refl, ◌≢◌, arith, Array, Bytes, update, update-All, no_value_missed,
}
use apna_os.Text.{strncpy}
use apna_os.Disk.State.{Inode, DirectoryEntry, Fs, block_count, max_files, max_filename_len, dec32}
use apna_os.Disk.Valid.{IsShaped, Linked, IsValid}
use apna_os.Disk.Blocks.{Owned-grant, free_count-take}

-- A directory in full use would name every inode.
pub root_full-used :
    {table : Array Inode} {root : Array DirectoryEntry} (ix : ℕ)
    → Linked table root
    → ix < max_files
    → ((d : ℕ) → d < max_files → (root d).inode_number ≢ 0)
    → (table ix).inode_number ≢ 0
root_full-used {table} {root} ix l in_table full free =
    no_value_missed max_files ix (λ d. (root d).inode_number - 1) in_table
      (λ d a. omega (arith, l.entries d a (full d a), full d a))
      (λ d e a b same. l.distinct d e a b (full d a) (omega (arith, full d a, full e b)))
      (λ d a hit. ground (arith, l.entries d a (full d a)))

-- The inode `ix` of a new file whose first block is `b`.
abbrev pub new_inode : Inode → ℕ → ℕ → Inode
new_inode old ix b = record old {
  inode_number = ix + 1;
  size = 0;
  blocks = update old.blocks 0 b;
  permissions = 7;
}

-- The state with the inode filled, before the name is entered.
abbrev pub filled : Fs → ℕ → ℕ → Fs
filled fs ix b = record fs {
  inode_table = update fs.inode_table ix (new_inode (fs.inode_table ix) ix b);
  block_bitmap = update fs.block_bitmap b 1;
  sb = record (fs.sb) {
    free_inodes = dec32 fs.sb.free_inodes;
    free_blocks = dec32 fs.sb.free_blocks;
  };
}

-- The state with the file in the directory entry `d`.
abbrev pub entered : Fs → ℕ → ℕ → Bytes → Fs
entered fs d ix filename = record fs {
  root_directory = update fs.root_directory d (record {
    filename = strncpy (fs.root_directory d).filename filename max_filename_len;
    inode_number = ix + 1;
  });
}

module _ {fs : Fs} (v : IsValid fs) (ix b : ℕ) (in_table : ix < max_files)
    (unused : (fs.inode_table ix).inode_number ≡ 0) (in_disk : b < block_count)
    (free : fs.block_bitmap b ≡ 0) where
  pub new_inode-IsShaped : IsShaped (new_inode (fs.inode_table ix) ix b)
  new_inode-IsShaped =
      let s = v.shaped ix in_table in
      let empty = s.unused unused in
      record {
        sized = λ j h. absurd (omega arith);
        packed = λ j l held. ground (arith, empty, s.packed j l);
        unused = λ z. absurd (omega arith);
        started = λ u. ground arith;
      }

  pub filled-Linked :
      Linked (update fs.inode_table ix (new_inode (fs.inode_table ix) ix b)) fs.root_directory
  filled-Linked = record {
    numbered = λ i a u. ground (arith, v.linked.numbered i a);
    entries = λ d a u. ground (arith, v.linked.entries d a u);
    distinct = v.linked.distinct;
  }

  pub filled-IsValid : IsValid (filled fs ix b)
  filled-IsValid = record {
    owned = Owned-grant v.owned ix _ 0 b in_disk free (λ j. refl);
    shaped = update-All IsShaped fs.inode_table ix max_files _ v.shaped new_inode-IsShaped;
    linked = filled-Linked;
    counted = rw v.counted (free_count-take fs.block_bitmap b in_disk free);
  }

  pub entered-IsValid :
      (d : ℕ) (filename : Bytes)
      → (fs.root_directory d).inode_number ≡ 0
      → IsValid (entered (filled fs ix b) d ix filename)
  entered-IsValid d filename slot = record {
    owned = filled-IsValid.owned;
    shaped = filled-IsValid.shaped;
    linked = record {
      numbered = filled-Linked.numbered;
      entries = λ e a u. ground (arith, filled-Linked.entries e a);
      distinct = λ e e' a c u same.
          ground (arith, v.linked.distinct e e' a c, v.linked.entries e a, v.linked.entries e' c);
    };
    counted = filled-IsValid.counted;
  }
