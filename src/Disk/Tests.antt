-- ===== src/Disk/Tests.antt =====
-- The theorems on the file system at a disk with one file, and small runs.
use apna_os.Prelude.{
  ◌/◌, ◌%◌, ℕ, ◌≤◌, ◌<◌, ◌≡◌, refl, ◌⊎◌, arith, true, false, Bytes, [], ◌∷◌, none, some, of_list,
  count_below, search_from, ltb, if◌then◌else◌, min,
}
use apna_os.Prelude.Run.{done, Returns}
use apna_os.Text.{HasLength, strncmp, strncmp_loop, strncpy, strncpy_loop, memset_loop}
use apna_os.Disk.State.{Fs, format_disk, format_inodes, max_files}
use apna_os.Disk.Alloc.{check_permissions}
use apna_os.Disk.Files.{
  find_file, names, inode_of, chmod_file, create_file, delete_file, list_files,
}
use apna_os.Disk.Transfer.{read_file, write_file, append_to_file, max_size, blocks_for}
use apna_os.Disk.Valid.{IsValid, held}
use apna_os.Disk.Grow.{granted, granted-IsValid}
use apna_os.Disk.RoundTrip.{
  ReadResult, read_file_lem, write_file_lem, write_file-full, write_file-cut_short, read-write,
}
use apna_os.Disk.Store.{Stored}
use apna_os.Disk.Extend.{Extended, append_to_file_lem}
use apna_os.Disk.Fill.{filled, entered, entered-IsValid}
use apna_os.Disk.Create.{Refused, Created, create_file_lem}
use apna_os.Disk.Delete.{Deleted, delete_file_lem}
use apna_os.Disk.Refuse.{
  refuse_unknown, write-forbidden, chmod_file_lem, Permitted, permitted, permitted-Permitted,
}
use apna_os.Disk.Format.{
  format_disk-IsValid, format_disk-free, format_disk-unused, format_disk-root,
}
use apna_os.Disk.Session.{make, write, read, session, session-IsValid}

abbrev pub blank : Fs
blank = record {
  sb = record {
    inode_count = 0;
    block_count = 0;
    free_inodes = 0;
    free_blocks = 0;
    magic = 0;
    volume_name = λ i. 0;
  };
  inode_table = λ i. record { inode_number = 0; size = 0; blocks = λ j. 0; permissions = 0 };
  root_directory = λ i. record { filename = λ j. 0; inode_number = 0 };
  storage = λ b i. 0;
  block_bitmap = λ b. 0;
}

abbrev name : Bytes
name = of_list 0 (b'a' ∷ [])

abbrev text : Bytes
text = of_list 0 (b'h' ∷ b'i' ∷ b'!' ∷ [])

abbrev empty_buffer : Bytes
empty_buffer = λ i. 0

name-HasLength : HasLength name 1
name-HasLength = record { ends = refl; before = λ j l. ground arith }

-- The disk that `create_file` leaves, called on a formatted one.
abbrev one_file : Fs
one_file = entered (filled (format_disk blank) 0 0) 0 0 name

one_file-IsValid : IsValid one_file
one_file-IsValid =
    entered-IsValid (format_disk-IsValid blank).0 0 0 (omega arith)
      (format_disk-unused blank 0 (omega arith)) (omega arith)
      (format_disk-free blank 0 (omega arith)) 0 name (format_disk-root blank 0 (omega arith))

one_file-found : find_file name one_file ≡ some 0
unfolding find_file names search_from strncmp strncmp_loop strncpy strncpy_loop memset_loop
one_file-found = refl

may_read : check_permissions (one_file.inode_table (inode_of one_file 0)).permissions 0 ≡ true
unfolding check_permissions inode_of
may_read = refl

may_write : check_permissions (one_file.inode_table (inode_of one_file 0)).permissions 1 ≡ true
unfolding check_permissions inode_of
may_write = refl

create_file_lem_example :
    Returns
      (λ out fs'.
        ((out ≡ none) × Refused (format_disk blank) fs')
        ⊎ ((ix d : ℕ) × (out ≡ some ix) × Created name 1 (format_disk blank) ix d fs'))
      (create_file name (format_disk blank))
create_file_lem_example =
    create_file_lem name 1 (format_disk-IsValid blank).0 name-HasLength (omega arith)

read_file_lem_example :
    Returns
      (ReadResult (inode_of one_file 0) empty_buffer 5 one_file)
      (read_file name empty_buffer 5 one_file)
read_file_lem_example = read_file_lem name empty_buffer 5 one_file-IsValid one_file-found may_read

write_file_lem_example :
    Returns
      (λ out fs'.
        (w : ℕ) × (out ≡ some w)
        × Stored (inode_of one_file 0) text one_file w fs'
        × (w ≤ min 3 max_size))
      (write_file name text 3 one_file)
write_file_lem_example = write_file_lem name text 3 one_file-IsValid one_file-found may_write

read-write_example :
    Returns
      (λ out fs'.
        (w : ℕ) × (out ≡ some w)
        × Returns
            (λ got fs''.
              (fs'' ≡ fs')
              × (got.0 ≡ some (min 2 w))
              × ((p : ℕ) → got.1 p ≡ (if ltb p (min 2 w) then text p else empty_buffer p)))
            (read_file name empty_buffer 2 fs'))
      (write_file name text 3 one_file)
read-write_example =
    read-write name text empty_buffer 3 2 one_file-IsValid one_file-found may_read may_write

append_to_file_lem_example :
    Returns
      (λ out fs'.
        (w : ℕ) × (out ≡ some w) × (w ≤ 3) × Extended (inode_of one_file 0) text one_file w fs')
      (append_to_file name text 3 one_file)
unfolding inode_of
append_to_file_lem_example =
    append_to_file_lem name text 3 one_file-IsValid one_file-found may_write (ground arith)

delete_file_lem_example :
    Returns
      (λ out fs'. (out ≡ some 0) × Deleted (inode_of one_file 0) 0 one_file fs')
      (delete_file name one_file)
delete_file_lem_example = delete_file_lem name one_file-IsValid one_file-found may_write

chmod_file_lem_example :
    Returns
      (λ out fs'. (out ≡ some 0) × Permitted (inode_of one_file 0) 4 one_file fs')
      (chmod_file name 4 one_file)
chmod_file_lem_example = chmod_file_lem name 4 one_file-IsValid one_file-found

format_disk-IsValid_example :
    IsValid (format_disk one_file)
    × ((i : ℕ) → i < max_files → ((format_disk one_file).inode_table i).inode_number ≡ 0)
    × ((format_disk one_file).sb.free_blocks ≡ 1024)
    × (list_files (format_disk one_file) ≡ [])
format_disk-IsValid_example = format_disk-IsValid one_file

refuse_unknown_example :
    (read_file name empty_buffer 3 (format_disk blank)
      ≡ done (none, empty_buffer) (format_disk blank))
    × (write_file name empty_buffer 3 (format_disk blank) ≡ done none (format_disk blank))
    × (append_to_file name empty_buffer 3 (format_disk blank) ≡ done none (format_disk blank))
    × (delete_file name (format_disk blank) ≡ done none (format_disk blank))
    × (chmod_file name 3 (format_disk blank) ≡ done none (format_disk blank))
refuse_unknown_example =
    refuse_unknown name empty_buffer 3 (format_disk blank)
      (λ d l used same. used (format_disk-root blank d l))

session-IsValid_example :
    Returns
      (λ _ fs'. IsValid fs')
      (session (make name ∷ write name text 3 ∷ read name empty_buffer 3 ∷ []) (format_disk blank))
session-IsValid_example =
    session-IsValid (make name ∷ write name text 3 ∷ read name empty_buffer 3 ∷ []) blank
      ((1, name-HasLength, omega arith), (tt, (tt, tt)))

-- The state behind `chmod_file(name, 0)`.
abbrev locked : Fs
locked = permitted one_file 0 0

locked-IsValid : IsValid locked
locked-IsValid = (permitted-Permitted 0 0 one_file-IsValid (omega arith)).valid

locked-found : find_file name locked ≡ some 0
unfolding find_file names search_from strncmp strncmp_loop strncpy strncpy_loop memset_loop
locked-found = refl

locked_read : check_permissions (locked.inode_table (inode_of locked 0)).permissions 0 ≡ false
unfolding check_permissions inode_of
locked_read = refl

locked_bit : (locked.inode_table (inode_of locked 0)).permissions / 2 % 2 ≡ 0
unfolding inode_of
locked_bit = refl

write-forbidden_example :
    (write_file name text 3 locked ≡ done none locked)
    × (append_to_file name text 3 locked ≡ done none locked)
    × (delete_file name locked ≡ done none locked)
write-forbidden_example = write-forbidden name text 3 locked-IsValid locked-found locked_bit

-- The file of `one_file`, holding a second block that its size does not account for.
abbrev spare : Fs
spare = granted one_file 0 1 1

spare-IsValid : IsValid spare
unfolding inode_of
spare-IsValid =
    granted-IsValid one_file-IsValid 0 1 1 (omega arith) (format_disk-free blank 1 (omega arith))
      (omega arith) (ground arith) (λ j l. ground arith)

spare-found : find_file name spare ≡ some 0
unfolding find_file names search_from strncmp strncmp_loop strncpy strncpy_loop memset_loop
spare-found = refl

spare_write : check_permissions (spare.inode_table (inode_of spare 0)).permissions 1 ≡ true
unfolding check_permissions inode_of
spare_write = refl

write_file-full_example :
    Returns (λ out fs'. out ≡ some (min 3 max_size)) (write_file name text 3 one_file)
unfolding held count_below inode_of blocks_for format_disk format_inodes
write_file-full_example =
    write_file-full name text 3 one_file-IsValid one_file-found may_write refl (omega arith)

write_file-cut_short_example :
    Returns
      (λ out fs'. (w : ℕ) × (out ≡ some w) × (w < min 16384 max_size))
      (write_file name text 16384 spare)
unfolding held count_below inode_of blocks_for format_disk format_inodes
write_file-cut_short_example =
    write_file-cut_short name text 16384 spare-IsValid spare-found spare_write (omega arith)
