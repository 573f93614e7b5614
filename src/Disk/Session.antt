-- ===== src/Disk/Session.antt =====
-- Any sequence of calls of the file system's interface, from a formatted disk on.
use apna_os.Prelude.{
  ℕ, ◌<◌, ◌≡◌, arith, true, Bytes, List, [], ◌∷◌, inl, inr, Option-cases, Bool-cases, leb, dec_lt,
  lt→ltb,
}
use apna_os.Prelude.Run
use apna_os.Prelude.Run.{done, Returns, returns, Cmd, pure, ◌>>=◌, ◌>>◌}
use apna_os.Text.{HasLength}
use apna_os.Disk.State.{Fs, max_filename_len, max_files, load_inode, format_disk}
use apna_os.Disk.Alloc.{check_permissions}
use apna_os.Disk.Files.{find_file, inode_of, chmod_file, create_file, delete_file}
use apna_os.Disk.Transfer.{max_size, read_file, write_file, append_to_file, append_inode}
use apna_os.Disk.Valid.{IsValid}
use apna_os.Disk.Lookup.{inode_of-HasInode}
use apna_os.Disk.RoundTrip.{read_file_lem, write_file_lem}
use apna_os.Disk.Extend.{append_to_file_lem}
use apna_os.Disk.Create.{create_file_lem}
use apna_os.Disk.Delete.{delete_file_lem}
use apna_os.Disk.Refuse.{read_file-forbidden, write-refused, chmod_file_lem}
use apna_os.Disk.Format.{format_disk-IsValid}

-- A call, with the buffer that the caller passes.
pub data Op : Type 0 where
  make : Bytes → Op
  remove : Bytes → Op
  chmod : Bytes → ℕ → Op
  read : Bytes → Bytes → ℕ → Op
  write : Bytes → Bytes → ℕ → Op
  append : Bytes → Bytes → ℕ → Op

unfoldable pub call : Op → Cmd Fs (Unit {0})
call (make name) = create_file name >>= λ _. pure tt
call (remove name) = delete_file name >>= λ _. pure tt
call (chmod name permissions) = chmod_file name permissions >>= λ _. pure tt
call (read name buffer n) = read_file name buffer n >>= λ _. pure tt
call (write name buffer n) = write_file name buffer n >>= λ _. pure tt
call (append name buffer n) = append_to_file name buffer n >>= λ _. pure tt

unfoldable pub session : List Op → Cmd Fs (Unit {0})
session [] = pure tt
session (op ∷ ops) = call op >> session ops

-- A name to be entered fits in `filename` with its end.
abbrev pub Fits : Op → Type 0
Fits (make name) = (k : ℕ) × HasLength name k × (k < max_filename_len)
Fits (remove name) = Unit
Fits (chmod name permissions) = Unit
Fits (read name buffer n) = Unit
Fits (write name buffer n) = Unit
Fits (append name buffer n) = Unit

abbrev pub AllFit : List Op → Type 0
AllFit [] = Unit
AllFit (op ∷ ops) = Fits op × AllFit ops

abbrev Safe : Unit {0} → Fs → Type 0
Safe _ fs = IsValid fs

make-Safe :
    (name : Bytes) {fs : Fs} → IsValid fs → Fits (make name) → Returns Safe (call (make name) fs)
unfolding call
make-Safe name v (k, len, short) = Run.bind (create_file_lem name k v len short) λ out fs' r.
    returns (elim r [ inl (_, refused) ↦ refused.valid | inr (_, _, _, created) ↦ created.valid ])

remove-Safe : (name : Bytes) {fs : Fs} → IsValid fs → Returns Safe (call (remove name) fs)
unfolding call delete_file
remove-Safe name {fs} v = elim (Option-cases (find_file name fs)) [
  | inl e ↦ rw (e, delete_file) (returns v)
  | inr (d, e) ↦
      elim (Bool-cases (check_permissions (fs.inode_table (inode_of fs d)).permissions 1)) [
        | inl may ↦ Run.bind (delete_file_lem name v e may) λ out fs' r. returns (r.1.valid)
        | inr may_not ↦ rw ((write-refused name (λ _. 0) 0 v e may_not).2) (returns v)
      ]
]

chmod-Safe : (name : Bytes) (p : ℕ) {fs : Fs} → IsValid fs → Returns Safe (call (chmod name p) fs)
unfolding call chmod_file
chmod-Safe name p {fs} v = elim (Option-cases (find_file name fs)) [
  | inl e ↦ rw (e, chmod_file) (returns v)
  | inr (d, e) ↦ Run.bind (chmod_file_lem name p v e) λ out fs' r. returns (r.1.valid)
]

module _ (name buffer : Bytes) (n : ℕ) {fs : Fs} (v : IsValid fs) where
  read-Safe : Returns Safe (call (read name buffer n) fs)
  unfolding call read_file
  read-Safe = elim (Option-cases (find_file name fs)) [
    | inl e ↦ rw (e, read_file) (returns v)
    | inr (d, e) ↦
        elim (Bool-cases (check_permissions (fs.inode_table (inode_of fs d)).permissions 0)) [
          | inl may ↦
              Run.bind (read_file_lem name buffer n v e may) λ out fs' r. returns (rw (r.same) v)
          | inr may_not ↦ rw (read_file-forbidden name buffer n v e may_not) (returns v)
        ]
  ]

  write-Safe : Returns Safe (call (write name buffer n) fs)
  unfolding call write_file
  write-Safe = elim (Option-cases (find_file name fs)) [
    | inl e ↦ rw (e, write_file) (returns v)
    | inr (d, e) ↦
        elim (Bool-cases (check_permissions (fs.inode_table (inode_of fs d)).permissions 1)) [
          | inl may ↦
              Run.bind (write_file_lem name buffer n v e may) λ out fs' r. returns (r.2.valid)
          | inr may_not ↦ rw ((write-refused name buffer n v e may_not).0) (returns v)
        ]
  ]

  append-Safe : Returns Safe (call (append name buffer n) fs)
  unfolding call append_to_file append_inode
  append-Safe = elim (Option-cases (find_file name fs)) [
    | inl e ↦ rw (e, append_to_file) (returns v)
    | inr (d, e) ↦
        elim (Bool-cases (check_permissions (fs.inode_table (inode_of fs d)).permissions 1)) [
          | inr may_not ↦ rw ((write-refused name buffer n v e may_not).1) (returns v)
          | inl may ↦ elim (dec_lt (fs.inode_table (inode_of fs d)).size max_size) [
            | yes small ↦
                Run.bind (append_to_file_lem name buffer n v e may small)
                  λ out fs' r. returns (r.3.valid)
            | no large ↦
                let full : leb max_size (fs.inode_table (inode_of fs d)).size ≡ true =
                  ground arith in
                rw
                  (
                    e,
                    append_to_file,
                    load_inode,
                    lt→ltb _ max_files (inode_of-HasInode name fs v e).in_table,
                    may,
                    full,
                  )
                  (returns v)
          ]
        ]
  ]

pub call-Safe : (op : Op) {fs : Fs} → IsValid fs → Fits op → Returns Safe (call op fs)
call-Safe (make name) v f = make-Safe name v f
call-Safe (remove name) v f = remove-Safe name v
call-Safe (chmod name p) v f = chmod-Safe name p v
call-Safe (read name buffer n) v f = read-Safe name buffer n v
call-Safe (write name buffer n) v f = write-Safe name buffer n v
call-Safe (append name buffer n) v f = append-Safe name buffer n v

session-Safe : (ops : List Op) {fs : Fs} → IsValid fs → AllFit ops → Returns Safe (session ops fs)
unfolding session
session-Safe [] v f = returns v
session-Safe (op ∷ ops) v f = Run.bind (call-Safe op v f.0) λ _ fs' v'. session-Safe ops v' f.1

-- From a formatted disk, any sequence of calls in which each name that is to be created has at most
-- 254 bytes runs to its end: no call leaves the bounds of an array, none loops for ever, and the
-- invariant holds at the end.
pub session-IsValid :
    (ops : List Op) (fs : Fs)
    → AllFit ops
    → Returns (λ _ fs'. IsValid fs') (session ops (format_disk fs))
session-IsValid ops fs f = session-Safe ops (format_disk-IsValid fs).0 f
