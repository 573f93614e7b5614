-- ===== src/Shell/Requests.antt =====
-- The `file` commands of the shell keep the kernel sound.
use Prim.Native.String.{String}
use apna_os.Prelude.{
  true, ap, ◌∙◌, ℕ, ◌≤◌, ◌<◌, ◌≡◌, refl, arith, Option, none, some, List, [], ◌∷◌, length, subst,
  Bytes, ge→ltb, dec_lt, lt→ltb,
}
use apna_os.Prelude.Run
use apna_os.Prelude.Run.{
  Run, Cmd, done, fault, out_of_fuel, pure, and_then, Returns, returns, Ends, ends, stops,
  Returns-Ends, mono-Ends, ◌>>=◌, ◌>>◌,
}
use apna_os.Text.Words.{Spells}
use apna_os.Disk.State.{Fs}
use apna_os.Disk.Files.{create_file, delete_file, chmod_file}
use apna_os.Disk.Transfer.{read_file, write_file, append_to_file}
use apna_os.Disk.Valid.{IsValid}
use apna_os.Disk.Session.{call, call-Safe, make, remove, chmod, read, write, append}
use apna_os.Shell.{Shell, within_shell, blanks, line_end, next_token, token_at, is_word, Outcome}
use apna_os.Shell.Files.{
  report, make_named, show_content, read_named, write_named, append_named, remove_named, to_uint16,
  chmod_named, list_all, make_word, read_word, write_word, append_word, rm_word, ls_word,
  chmod_word, two_tokens, file_operation, file_command,
}
use apna_os.Shell.Line.{IsToken, blanks-spells, line_end-spells}
use apna_os.Shell.Reads.{IsToken-HasLength, is_word-same, length_at-same, number_at-same}
use apna_os.Shell.Sound.{Sound, then-Ends, if-Ends, tell-Sound, on_disk-Sound, next_token-Next}

-- The words that a command was given.
abbrev pub AreTokens : Shell → Option ℕ → Type 0
AreTokens s o = (q : ℕ) → o ≡ some q → IsToken s.tokens q

-- Of the file that the word at `q` names, `read_file` fills the shell's buffer of 128 bytes.
pub record Overrun (buffer : Bytes) (s : Shell) (q : ℕ) : Type 0 where
  pub read : ℕ
  pub bytes : Bytes
  pub after : Fs
  pub run : read_file (token_at s q) buffer 128 s.fs ≡ done (some read, bytes) after
  pub full : 128 ≤ read

module _ {A : Type 0} {P : Unit {0} → Fs → Type 0} where
  -- A call whose result is dropped.
  undropped :
      (r : Run Fs A) → Returns P (and_then r (λ _ fs. done tt fs)) → Returns (λ _ fs'. P tt fs') r
  undropped (done a fs) (returns p) = returns p
  undropped fault h = elim h [ ]
  undropped out_of_fuel h = elim h [ ]

report-Sound :
    {n : ℕ} (r : Option ℕ) (bad good : String) (s : Shell)
    → Sound n s
    → Returns (λ _ s'. Sound n s') (report r bad good s)
report-Sound none bad good s v = tell-Sound bad s v
report-Sound (some r) bad good s v = tell-Sound good s v

pub list_all-Sound : {n : ℕ} (s : Shell) → Sound n s → Returns (λ _ s'. Sound n s') (list_all s)
unfolding list_all
list_all-Sound s v = returns (record { valid = v.valid; kernel = v.kernel; line = v.line })

module _ {n : ℕ} (s : Shell) (v : Sound n s) where
  make_named-Sound :
      (file : Option ℕ) → AreTokens s file → Returns (λ _ s'. Sound n s') (make_named file s)
  unfolding make_named call
  make_named-Sound none h = tell-Sound "Usage: file make <filename>\n" s v
  make_named-Sound (some q) h =
      let (k, (short, len)) = IsToken-HasLength s.tokens q (h q refl) in
      let c = create_file (token_at s q) in
      Run.bind
        (on_disk-Sound s v c (
          undropped (c s.fs)
            (call-Safe (make (token_at s q)) v.valid (k, len, omega (arith, short)))))
        λ r s' v'.
          report-Sound r "Error: Failed to create file.\n" "File created successfully.\n" s' v'

  remove_named-Sound :
      (file : Option ℕ) → AreTokens s file → Returns (λ _ s'. Sound n s') (remove_named file s)
  unfolding remove_named call
  remove_named-Sound none h = tell-Sound "Usage: file rm <filename>\n" s v
  remove_named-Sound (some q) h =
      let c = delete_file (token_at s q) in
      Run.bind
        (on_disk-Sound s v c (undropped (c s.fs) (call-Safe (remove (token_at s q)) v.valid tt)))
        λ r s' v'.
          report-Sound r "Error: Failed to delete file.\n" "File deleted successfully.\n" s' v'

  write_named-Sound :
      (file data' : Option ℕ)
      → AreTokens s data'
      → Returns (λ _ s'. Sound n s') (write_named file data' s)
  unfolding write_named call
  write_named-Sound none data' h = tell-Sound "Usage: file write <filename> <data>\n" s v
  write_named-Sound (some q) none h = tell-Sound "Usage: file write <filename> <data>\n" s v
  write_named-Sound (some q) (some d) h =
      let (k, e) = length_at-same d s (h d refl) in
      let c = write_file (token_at s q) (token_at s d) k in
      rw e (
        Run.bind
          (on_disk-Sound s v c
            (undropped (c s.fs) (call-Safe (write (token_at s q) (token_at s d) k) v.valid tt)))
          λ r s' v'.
            report-Sound r "Error: Failed to write to file.\n"
              "Data written to file successfully.\n" s' v')

  append_named-Sound :
      (file data' : Option ℕ)
      → AreTokens s data'
      → Returns (λ _ s'. Sound n s') (append_named file data' s)
  unfolding append_named call
  append_named-Sound none data' h = tell-Sound "Usage: file append <filename> <data>\n" s v
  append_named-Sound (some q) none h = tell-Sound "Usage: file append <filename> <data>\n" s v
  append_named-Sound (some q) (some d) h =
      let (k, e) = length_at-same d s (h d refl) in
      let c = append_to_file (token_at s q) (token_at s d) k in
      rw e (
        Run.bind
          (on_disk-Sound s v c
            (undropped (c s.fs) (call-Safe (append (token_at s q) (token_at s d) k) v.valid tt)))
          λ r s' v'.
            report-Sound r "Error: Failed to append to file.\n"
              "Data appended to file successfully.\n" s' v')

  chmod_named-Sound :
      (file perm : Option ℕ)
      → AreTokens s perm
      → Returns (λ _ s'. Sound n s') (chmod_named file perm s)
  unfolding chmod_named call
  chmod_named-Sound none perm h = tell-Sound "Usage: file chmod <filename> <permissions>\n" s v
  chmod_named-Sound (some q) none h = tell-Sound "Usage: file chmod <filename> <permissions>\n" s v
  chmod_named-Sound (some q) (some d) h =
      let (k, e) = number_at-same d s (h d refl) in
      let c = chmod_file (token_at s q) (to_uint16 k) in
      rw e (
        Run.bind
          (on_disk-Sound s v c
            (undropped (c s.fs) (call-Safe (chmod (token_at s q) (to_uint16 k)) v.valid tt)))
          λ r s' v'.
            report-Sound r "Error: Failed to change file permissions.\n"
              "File permissions changed successfully.\n" s' v')

  shown-Ends :
      (q : ℕ) (buffer : Bytes) (r : Run Fs (Option ℕ × Bytes))
      → read_file (token_at s q) buffer 128 s.fs ≡ r
      → Returns (λ _ fs'. IsValid fs') r
      → Ends
          (Overrun buffer s q)
          (λ _ s'. Sound n s')
          (and_then (within_shell (λ fs. record s { fs = fs }) r) show_content)
  unfolding show_content
  shown-Ends q buffer _ e (returns {a = (none, bytes)} {s = fs'} w) =
      ends (record { valid = w; kernel = v.kernel; line = v.line })
  shown-Ends q buffer _ e (returns {a = (some k, bytes)} {s = fs'} w) = elim (dec_lt k 128) [
    | yes l ↦ rw (lt→ltb k 128 l) (ends (record { valid = w; kernel = v.kernel; line = v.line }))
    | no g ↦
        rw (ge→ltb k 128 (omega (arith, g))) (
          stops (record { read = k; bytes = bytes; after = fs'; run = e; full = omega (arith, g) }))
  ]

  read_named-Ends :
      {F : Type 0} (buffer : Bytes) (file : Option ℕ)
      → ((q : ℕ) → file ≡ some q → Overrun buffer s q → F)
      → Ends F (λ _ s'. Sound n s') (read_named buffer file s)
  unfolding read_named call
  read_named-Ends buffer none why = Returns-Ends (tell-Sound "Usage: file read <filename>\n" s v)
  read_named-Ends buffer (some q) why =
      let c = read_file (token_at s q) buffer 128 in
      mono-Ends
        (shown-Ends q buffer (c s.fs) refl
          (undropped (c s.fs) (call-Safe (read (token_at s q) buffer 128) v.valid tt)))
        (why q refl) (λ _ _ v'. v')

-- What follows the next word, or the next two.
module _ {n : ℕ} {Q : Type 0} (s : Shell) (v : Sound n s) where
  pub one_token-Ends :
      (c : Option ℕ → Cmd Shell Outcome)
      → ((file : Option ℕ) (s' : Shell)
          → Sound n s'
          → next_token blanks s ≡ done file s'
          → AreTokens s' file
          → Ends Q (λ _ s''. Sound n s'') (c file s'))
      → Ends Q (λ _ s'. Sound n s') ((next_token blanks >>= c) s)
  one_token-Ends c follow =
      then-Ends (next_token-Next (32 ∷ 9 ∷ []) blanks s blanks-spells (omega arith) v)
        λ file s' e r. follow file s' r.sound e r.taken

  two_tokens-Ends :
      (ds : List ℕ) (delim : Bytes) (c : Option ℕ → Option ℕ → Cmd Shell Outcome)
      → Spells delim 0 ds
      → length ds < 3
      → ((file second : Option ℕ) (s' : Shell)
          → Sound n s'
          → AreTokens s' second
          → Returns (λ _ s''. Sound n s'') (c file second s'))
      → Ends Q (λ _ s'. Sound n s') (two_tokens delim c s)
  two_tokens-Ends ds delim c spells few follow =
      then-Ends (next_token-Next (32 ∷ 9 ∷ []) blanks s blanks-spells (omega arith) v)
        λ file s' _ r.
          then-Ends (next_token-Next ds delim s' spells few r.sound)
            λ second s'' _ r'. Returns-Ends (follow file second s'' r'.sound r'.taken)

module _ {n : ℕ} (s : Shell) (v : Sound n s) (buffer : Bytes) where
  file_operation-Ends :
      {F : Type 0} (operation : ℕ)
      → IsToken s.tokens operation
      → (is_word operation read_word s ≡ done true s
          → (q : ℕ) (s' : Shell) → next_token blanks s ≡ done (some q) s'
          → Overrun buffer s' q
          → F)
      → Ends F (λ _ s'. Sound n s') (file_operation buffer operation s)
  unfolding file_operation
  file_operation-Ends operation k why =
      let (is_make, e1) = is_word-same operation make_word s k in
      let (is_read, e2) = is_word-same operation read_word s k in
      let (is_write, e3) = is_word-same operation write_word s k in
      let (is_append, e4) = is_word-same operation append_word s k in
      let (is_rm, e5) = is_word-same operation rm_word s k in
      let (is_ls, e6) = is_word-same operation ls_word s k in
      let (is_chmod, e7) = is_word-same operation chmod_word s k in
      rw (e1, e2, e3, e4, e5, e6, e7)
        (if-Ends is_make _ _
          (λ _.
            one_token-Ends s v make_named
              λ file s' v' same h. Returns-Ends (make_named-Sound s' v' file h))
          (if-Ends is_read _ _
            (λ t. one_token-Ends s v (read_named buffer) λ file s' v' e h.
              read_named-Ends s' v' buffer file λ q here over.
                why (subst (λ b. is_word operation read_word s ≡ done b s) t e2) q s'
                  (e ∙ ap (λ file. done file s') here) over)
            (if-Ends is_write _ _
              (λ _.
                two_tokens-Ends s v (10 ∷ []) line_end write_named line_end-spells (omega arith)
                  λ file data' s' v' h. write_named-Sound s' v' file data' h)
              (if-Ends is_append _ _
                (λ _.
                  two_tokens-Ends s v (10 ∷ []) line_end append_named line_end-spells (omega arith)
                    λ file data' s' v' h. append_named-Sound s' v' file data' h)
                (if-Ends is_rm _ _
                  (λ _.
                    one_token-Ends s v remove_named
                      λ file s' v' same h. Returns-Ends (remove_named-Sound s' v' file h))
                  (if-Ends is_ls _ _ (λ _. Returns-Ends (list_all-Sound s v))
                    (if-Ends is_chmod _ _
                      (λ _.
                        two_tokens-Ends s v (32 ∷ 9 ∷ []) blanks chmod_named blanks-spells
                          (omega arith) λ file perm s' v' h. chmod_named-Sound s' v' file perm h)
                      (Returns-Ends (
                        tell-Sound
                          "Unknown file operation. Use 'make', 'read', 'write', 'append', 'rm', or 'ls'.\n"
                          s v)))))))))

  pub file_command-Ends :
      {F : Type 0} (operation : Option ℕ)
      → AreTokens s operation
      → ((op : ℕ)
          → operation ≡ some op
          → is_word op read_word s ≡ done true s
          → (q : ℕ) (s' : Shell) → next_token blanks s ≡ done (some q) s'
          → Overrun buffer s' q
          → F)
      → Ends F (λ _ s'. Sound n s') (file_command buffer operation s)
  unfolding file_command
  file_command-Ends none h why =
      Returns-Ends (tell-Sound "Usage: file <operation> <filename> [args]\n" s v)
  file_command-Ends (some operation) h why =
      file_operation-Ends operation (h operation refl) (why operation refl)
