-- ===== src/Shell/Sound.antt =====
-- What holds of the kernel's parts between two lines of the shell, and that the shell's calls of them
-- keep it.
use Prim.Native.String.{String}
use apna_os.Prelude.{
  ℕ, ◌+◌, ◌%◌, ◌^◌, ◌≤◌, ◌<◌, ◌≡◌, refl, arith, Bool, true, false, Option, none, some, List, length,
  Bytes, if◌then◌else◌,
}
use apna_os.Prelude.Int.{ℤ, pos}
use apna_os.Prelude.Run
use apna_os.Prelude.Run.{
  Run, Cmd, done, fault, pure, and_then, Returns, returns, Ends, ends, stops, Returns-Ends,
  bind-Ends, mono-Ends, ◌>>=◌,
}
use apna_os.Disk.State.{Fs}
use apna_os.Disk.Valid.{IsValid}
use apna_os.Scheduler.{Kernel, get_new_pid, create_process, schedule}
use apna_os.Scheduler.Pending.{IsKernel-same}
use apna_os.Scheduler.Create.{Overhangs, create_process-Created}
use apna_os.Scheduler.Schedule.{schedule-Scheduled}
use apna_os.Scheduler.Requeue.{waiting}
use apna_os.Syscalls.Session.{IsSound, Created-IsSound, Scheduled-IsSound, waiting-length}
use apna_os.Text.Words.{Spells}
use apna_os.Text.Tokens.{Tokens}
use apna_os.Shell.{
  Shell, Output, within_shell, on_disk, on_kernel, print, tell, next_token, Outcome,
}
use apna_os.Shell.Commands.{queue_process}
use apna_os.Shell.Line.{IsLine, IsToken, Cut, strtok-Cut}

-- The file system is valid, the kernel is sound with fewer than `n` processes ready, and `strtok` has
-- a line.
pub record Sound (n : ℕ) (s : Shell) : Type 0 where
  pub valid : IsValid s.fs
  pub kernel : IsSound n s.kernel
  pub line : IsLine s.tokens

module _ {A : Type 0} {F : Type 0} {P : A → Shell → Type 0} where
  -- A part that ends, and what follows it.
  pub then-Ends :
      {B : Type 0} {R : B → Shell → Type 0} {r : Run Shell B} {k : B → Cmd Shell A}
      → Returns R r
      → ((b : B) (s : Shell) → r ≡ done b s → R b s → Ends F P (k b s))
      → Ends F P (and_then r k)
  then-Ends r next = bind-Ends (Returns-Ends r) next

module _ {F : Type 0} {P : Outcome → Shell → Type 0} {s : Shell} where
  -- Both branches of a test.
  pub if-Ends :
      (b : Bool) (c d : Cmd Shell Outcome)
      → (b ≡ true → Ends F P (c s))
      → Ends F P (d s)
      → Ends F P ((if b then c else d) s)
  if-Ends true _ _ c d = c refl
  if-Ends false _ _ c d = d

IsSound-mono : {m n : ℕ} {k : Kernel} → m ≤ n → IsSound m k → IsSound n k
IsSound-mono l v =
    let few = v.few in record { ready = v.ready; kernel = v.kernel; few = omega (arith, few, l) }

pub Sound-mono : {m n : ℕ} {s : Shell} → m ≤ n → Sound m s → Sound n s
Sound-mono l v = record { valid = v.valid; kernel = IsSound-mono l v.kernel; line = v.line }

-- Printing changes none of it.
pub print-Sound :
    {n : ℕ} (o : Output) (s : Shell) → Sound n s → Returns (λ _ s'. Sound n s') (print o s)
print-Sound o s v = returns (record { valid = v.valid; kernel = v.kernel; line = v.line })

pub tell-Sound :
    {n : ℕ} (m : String) (s : Shell) → Sound n s → Returns (λ _ s'. Sound n s') (tell m s)
tell-Sound m s v = returns (record { valid = v.valid; kernel = v.kernel; line = v.line })

module _ {A : Type 0} {n : ℕ} (s : Shell) (v : Sound n s) where
  pub on_disk-Sound :
      (c : Cmd Fs A)
      → Returns (λ _ fs'. IsValid fs') (c s.fs)
      → Returns (λ _ s'. Sound n s') (on_disk c s)
  on_disk-Sound c r = put_back r
    where
      put_back :
          {run : Run Fs A}
          → Returns (λ _ fs'. IsValid fs') run
          → Returns (λ _ s'. Sound n s') (within_shell (λ fs. record s { fs = fs }) run)
      put_back (returns w) = returns (record { valid = w; kernel = v.kernel; line = v.line })

  pub on_kernel-Sound :
      {m : ℕ} (c : Cmd Kernel A)
      → Returns (λ _ k'. IsSound m k') (c s.kernel)
      → Returns (λ _ s'. Sound m s') (on_kernel c s)
  on_kernel-Sound {m} c r = put_back r
    where
      put_back :
          {run : Run Kernel A}
          → Returns (λ _ k'. IsSound m k') run
          → Returns (λ _ s'. Sound m s') (within_shell (λ k. record s { kernel = k }) run)
      put_back (returns w) = returns (record { valid = v.valid; kernel = w; line = v.line })

  pub on_kernel-Ends :
      {F : Type 0} {m : ℕ} (c : Cmd Kernel A)
      → Ends F (λ _ k'. IsSound m k') (c s.kernel)
      → Ends F (λ _ s'. Sound m s') (on_kernel c s)
  on_kernel-Ends {F} {m} c r = put_back r
    where
      put_back :
          {run : Run Kernel A}
          → Ends F (λ _ k'. IsSound m k') run
          → Ends F (λ _ s'. Sound m s') (within_shell (λ k. record s { kernel = k }) run)
      put_back (ends w) = ends (record { valid = v.valid; kernel = w; line = v.line })
      put_back (stops f) = stops f

-- The next word.
pub record Next (n : ℕ) (s : Shell) (r : Option ℕ) (s' : Shell) : Type 0 where
  pub sound : Sound n s'
  pub fs : s'.fs ≡ s.fs
  pub kernel : s'.kernel ≡ s.kernel
  pub taken : (q : ℕ) → r ≡ some q → IsToken s'.tokens q
  pub kept : (q : ℕ) → IsToken s.tokens q → IsToken s'.tokens q

pub next_token-Next :
    {n : ℕ} (ds : List ℕ) (delim : Bytes) (s : Shell)
    → Spells delim 0 ds
    → length ds < 3
    → Sound n s
    → Returns (Next n s) (next_token delim s)
unfolding next_token
next_token-Next {n} ds delim s spells few v =
    let (p, (at, text)) = v.line in
    put_back (strtok-Cut ds delim spells few none s.tokens p at text)
  where
    put_back :
        {run : Run Tokens (Option ℕ)}
        → Returns (Cut none s.tokens) run
        → Returns (Next n s) (within_shell (λ t. record s { tokens = t }) run)
    put_back (returns w) = returns (record {
      sound = record { valid = v.valid; kernel = v.kernel; line = w.line };
      fs = refl;
      kernel = refl;
      taken = w.taken;
      kept = w.kept refl;
    })

-- `create_process` under the next number.
pub queue_process-Sound :
    {n : ℕ} (fuel entry_point : ℕ) (priority : ℤ) (s : Shell)
    → Sound n s
    → n ≤ fuel + 1
    → Ends
        (Overhangs s.kernel.memory)
        (λ _ s'. Sound (n + 1) s')
        (queue_process fuel entry_point priority s)
unfolding queue_process get_new_pid
queue_process-Sound {n} fuel entry_point priority s v l =
    let k = s.kernel in
    let k1 : Kernel = record k { next_pid = (k.next_pid + 1) % 2 ^ 32 } in
    let ready = v.kernel.ready in
    let few = v.kernel.few in
    let v1 = IsKernel-same k k1 ready refl refl refl (λ a l. l) v.kernel.kernel in
    let s1 : Shell = record s { kernel = k1 } in
    let sound1 : Sound n s1 = record {
      valid = v.valid;
      kernel = record { ready = ready; kernel = v1; few = few };
      line = v.line;
    } in
    on_kernel-Ends s1 sound1 (create_process fuel k.next_pid entry_point priority (pos 1) (pos 2)) (
      mono-Ends
        (create_process-Created fuel k.next_pid entry_point priority (pos 1) (pos 2) ready
          (omega (arith, few, l)) k1 v1)
        (λ f. f)
        λ r k' c.
          IsSound-mono (omega (arith, few))
            (Created-IsSound ready k1 (k.next_pid, (priority, (pos 1, pos 2))) entry_point r k' c))

pub schedule-Sound :
    {n : ℕ} (fuel esp : ℕ) (s : Shell)
    → Sound n s
    → n ≤ fuel + 1
    → Returns (λ _ s'. Sound (n + 1) s') (on_kernel (schedule fuel esp) s)
schedule-Sound {n} fuel esp s v l =
    let k = s.kernel in
    let ready = v.kernel.ready in
    let few = v.kernel.few in
    let ws = waiting k k.current_process ready in
    on_kernel-Sound s v (schedule fuel esp) (
      Run.mono (schedule-Scheduled fuel esp k ready v.kernel.kernel (omega (arith, few, l)))
        λ sw k' r.
          IsSound-mono (omega (arith, few))
            (Scheduled-IsSound ready k ws sw k' (waiting-length k k.current_process ready) r))
