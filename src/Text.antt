-- ===== src/Text.antt =====
-- keyboard/string.c: the kernel's own string and memory routines. A pointer is the memory from it
-- on, a function of the offset; a routine that writes returns the new memory behind `dest`.
-- A loop with no counter of its own runs on fuel.
pub mod Copy
pub mod Compare
pub mod Tokens
pub mod Words
mod Tests
use apna_os.Prelude.{
  ℕ, zero, suc, ◌+◌, ◌-◌, ◌^◌, ◌<◌, ◌≡◌, ◌≢◌, Bool, true, false, ◌&&◌, ◌||◌, not, Option, none,
  some, ◌==◌, if◌then◌else◌, Bytes, update, search_from,
}
use apna_os.Prelude.Int.{ℤ, pos, sub_ℕ}

-- `(size_t)-1` on the 32-bit target: what `n--` leaves in `n` when it was 0.
abbrev pub size_max : ℕ
size_max = 2 ^ 32 - 1

-- A string of `k` bytes: its first zero stands at offset `k`.
pub record HasLength (s : Bytes) (k : ℕ) : Type 0 where
  pub ends : s k ≡ 0
  pub before : (j : ℕ) → j < k → s j ≢ 0

-- while (str[len]) len++;
unfoldable pub strlen : ℕ → Bytes → Option ℕ
strlen fuel str = search_from (λ len. str len == 0) 0 fuel

-- while (n--) *d++ = *s++;  with `d` at `dest + i` and `s` at `src + j`.
unfoldable pub memcpy_loop : ℕ → Bytes → ℕ → Bytes → ℕ → Bytes
memcpy_loop zero dest i src j = dest
memcpy_loop (suc n) dest i src j = memcpy_loop n (update dest i (src j)) (i + 1) src (j + 1)

-- memcpy(dest + i, src + j, n), for regions that do not overlap.
unfoldable pub memcpy : Bytes → ℕ → Bytes → ℕ → ℕ → Bytes
unfolding memcpy_loop
memcpy dest i src j n = memcpy_loop n dest i src j

-- while (n--) *p++ = (unsigned char)c;
unfoldable pub memset_loop : ℕ → Bytes → ℕ → ℕ → Bytes
memset_loop zero dest i c = dest
memset_loop (suc n) dest i c = memset_loop n (update dest i c) (i + 1) c

-- memset(s + i, c, n), for a `c` that is a byte.
unfoldable pub memset : Bytes → ℕ → ℕ → ℕ → Bytes
unfolding memset_loop
memset s i c n = memset_loop n s i c

-- The difference of the bytes at which the loop stops, or `none` when the fuel runs out first.
unfoldable pub strcmp : ℕ → Bytes → Bytes → ℕ → Option ℤ
strcmp zero s1 s2 i = none
strcmp (suc fuel) s1 s2 i =
    let rest = strcmp fuel s1 s2 (i + 1) in
    if not (s1 i == 0) && s1 i == s2 i then rest else some (sub_ℕ (s1 i) (s2 i))

-- `n` counts down while `i` is the offset of both pointers; at 0 the decrement leaves
-- `(size_t)-1`, for which the routine returns 0.
unfoldable pub strncmp_loop : ℕ → Bytes → Bytes → ℕ → ℤ
strncmp_loop zero s1 s2 i = pos 0
strncmp_loop (suc n) s1 s2 i =
    let rest = strncmp_loop n s1 s2 (i + 1) in
    if s1 i == 0 || s2 i == 0
    then sub_ℕ (s1 i) (s2 i)
    else if s1 i == s2 i
    then rest
    else sub_ℕ (s1 i) (s2 i)

unfoldable pub strncmp : Bytes → Bytes → ℕ → ℤ
unfolding strncmp_loop
strncmp s1 s2 n = strncmp_loop n s1 s2 0

-- Where the first loop of `strncpy` leaves `d` and `n`, and what it has written.
pub record Copied : Type 0 where
  pub stop : ℕ
  pub left : ℕ
  pub dest : Bytes

-- while (n-- && (*d++ = *src++));  at 0 the decrement wraps round to `(size_t)-1`.
unfoldable pub strncpy_loop : ℕ → Bytes → Bytes → ℕ → Copied
strncpy_loop zero dest src i = record { stop = i; left = size_max; dest = dest }
strncpy_loop (suc n) dest src i =
    let dest' : Bytes = update dest i (src i) in
    let rest = strncpy_loop n dest' src (i + 1) in
    if src i == 0 then record { stop = i + 1; left = n; dest = dest' } else rest

-- The bytes from `dest` on that `strncpy` writes.
unfoldable pub strncpy_extent : Bytes → Bytes → ℕ → ℕ
unfolding strncpy_loop
strncpy_extent dest src n = let c = strncpy_loop n dest src 0 in c.stop + c.left

-- The second loop, while (n-- > 0) *d++ = '\0';, clears all that `n` still counts.
unfoldable pub strncpy : Bytes → Bytes → ℕ → Bytes
unfolding strncpy_loop memset_loop
strncpy dest src n = let c = strncpy_loop n dest src 0 in memset_loop c.left c.dest c.stop 0

-- The offset of the first `c` of the string, `none` for the null pointer.
unfoldable pub strchr_loop : ℕ → Bytes → ℕ → ℕ → Option ℕ
strchr_loop zero s c i = none
strchr_loop (suc fuel) s c i =
    let rest = strchr_loop fuel s c (i + 1) in
    if s i == 0 then none else if s i == c then some i else rest
