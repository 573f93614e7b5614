-- ===== src/Text/Copy.antt =====
-- What `memcpy`, `memset` and `strncpy` leave in memory.
use apna_os.Prelude.{
  ℕ, zero, suc, ◌+◌, ◌-◌, ◌≤◌, ◌<◌, ◌≡◌, refl, ◌≢◌, arith, ltb, if◌then◌else◌, ℕ_discrete, dec_lt,
  Bytes, update, within,
}
use native.Mathlib.Nat.{zero-add}
use apna_os.Text.{
  size_max, HasLength, memcpy_loop, memcpy, memset_loop, memset, Copied, strncpy_loop, strncpy,
  strncpy_extent,
}

memcpy_loop-at :
    (n : ℕ) (dest : Bytes) (i : ℕ) (src : Bytes) (j p : ℕ)
    → memcpy_loop n dest i src j p ≡ (if within i n p then src (j + (p - i)) else dest p)
unfolding memcpy_loop
memcpy_loop-at zero dest i src j p = ground arith
memcpy_loop-at (suc n) dest i src j p = elim (ℕ_discrete i p) [
  | yes e ↦
      let e' : j + (p - i) ≡ j = omega arith in
      rw e' (ground (arith, memcpy_loop-at n (update dest i (src j)) (i + 1) src (j + 1) p))
  | no ne ↦ elim (dec_lt i p) [
    | yes l ↦
        let e' : j + 1 + (p - (i + 1)) ≡ j + (p - i) = omega arith in
        let ih = memcpy_loop-at n (update dest i (src j)) (i + 1) src (j + 1) p in
        ground (arith, rw e' at ih)
    | no l ↦ ground (arith, memcpy_loop-at n (update dest i (src j)) (i + 1) src (j + 1) p)
  ]
]

-- `memcpy` moves the `n` bytes, each to its place, and leaves every other byte of `dest` alone.
pub memcpy_lem :
    (dest : Bytes) (i : ℕ) (src : Bytes) (j n p : ℕ)
    → memcpy dest i src j n p ≡ (if within i n p then src (j + (p - i)) else dest p)
unfolding memcpy
memcpy_lem dest i src j n p = memcpy_loop-at n dest i src j p

memset_loop-at :
    (n : ℕ) (dest : Bytes) (i c p : ℕ)
    → memset_loop n dest i c p ≡ (if within i n p then c else dest p)
unfolding memset_loop
memset_loop-at zero dest i c p = ground arith
memset_loop-at (suc n) dest i c p = ground (arith, memset_loop-at n (update dest i c) (i + 1) c p)

pub memset_lem : (s : Bytes) (i c n p : ℕ) → memset s i c n p ≡ (if within i n p then c else s p)
unfolding memset
memset_lem s i c n p = memset_loop-at n s i c p

-- The first loop of `strncpy` over a string that ends in time, started at offset `i`.
record Ended (dest src : Bytes) (i k n : ℕ) (c : Copied) : Type 0 where
  stop : c.stop ≡ i + k + 1
  left : c.left + k + 1 ≡ n
  bytes : (p : ℕ) → c.dest p ≡ (if within i (k + 1) p then src p else dest p)

strncpy_loop-Ended :
    (n k : ℕ) (dest src : Bytes) (i : ℕ)
    → k < n
    → src (i + k) ≡ 0
    → ((j : ℕ) → j < k → src (i + j) ≢ 0)
    → Ended dest src i k n (strncpy_loop n dest src i)
unfolding strncpy_loop
strncpy_loop-Ended zero k dest src i l z b = absurd (omega arith)
strncpy_loop-Ended (suc n) zero dest src i l z b =
    let z' : src i ≡ 0 = (let e : i + 0 ≡ i = omega arith in rw e at z) in
    record { stop = ground arith; left = ground arith; bytes = λ p. ground arith }
strncpy_loop-Ended (suc n) (suc k) dest src i l z b =
    let nz : src i ≢ 0 = (let e : i + 0 ≡ i = omega arith in rw e at (b 0 (omega arith))) in
    let ih =
      strncpy_loop-Ended n k (update dest i (src i)) src (i + 1) (omega arith)
        (let e : i + 1 + k ≡ i + suc k = omega arith in rw e z)
        (λ j h. let e : i + 1 + j ≡ i + suc j = omega arith in rw e (b (suc j) (omega arith))) in
    record {
      stop = ground (arith, ih.stop);
      left = ground (arith, ih.left);
      bytes = λ p. ground (arith, ih.bytes p);
    }

-- The first loop over a source with no end in reach.
record Unended (dest src : Bytes) (i n : ℕ) (c : Copied) : Type 0 where
  stop : c.stop ≡ i + n
  left : c.left ≡ size_max
  bytes : (p : ℕ) → c.dest p ≡ (if within i n p then src p else dest p)

strncpy_loop-Unended :
    (n : ℕ) (dest src : Bytes) (i : ℕ)
    → ((j : ℕ) → j < n → src (i + j) ≢ 0)
    → Unended dest src i n (strncpy_loop n dest src i)
unfolding strncpy_loop
strncpy_loop-Unended zero dest src i b = record {
  stop = omega arith;
  left = refl;
  bytes = λ p. ground arith;
}
strncpy_loop-Unended (suc n) dest src i b =
    let nz : src i ≢ 0 = (let e : i + 0 ≡ i = omega arith in rw e at (b 0 (omega arith))) in
    let ih =
      strncpy_loop-Unended n (update dest i (src i)) src (i + 1)
        (λ j h. let e : i + 1 + j ≡ i + suc j = omega arith in rw e (b (suc j) (omega arith))) in
    record {
      stop = ground (arith, ih.stop);
      left = ground (arith, ih.left);
      bytes = λ p. ground (arith, ih.bytes p);
    }

-- A source of `k` bytes, shorter than `n`, is copied and the rest of the `n` bytes is cleared;
-- nothing behind them is written.
pub strncpy-pads :
    (dest src : Bytes) (n k : ℕ)
    → HasLength src k
    → k < n
    → (strncpy_extent dest src n ≡ n)
      × ((p : ℕ)
          → strncpy dest src n p ≡ (if ltb p k then src p else if ltb p n then 0 else dest p))
unfolding strncpy strncpy_extent
strncpy-pads dest src n k h l =
    let e =
      strncpy_loop-Ended n k dest src 0 l (rw zero-add h.ends)
        (λ j a. rw zero-add (h.before j a)) in
    let c = strncpy_loop n dest src 0 in
    (
      omega (arith, e.stop, e.left),
      λ p.
          ground
            (arith, e.bytes p, e.stop, e.left, memset_loop-at c.left c.dest c.stop 0 p, h.ends),
    )

-- A source with no zero among its first `n` bytes makes `strncpy` run on: behind the `n` bytes
-- that it copies it clears 2^32 - 1 more.
pub strncpy-overruns :
    (dest src : Bytes) (n : ℕ)
    → ((j : ℕ) → j < n → src j ≢ 0)
    → (strncpy_extent dest src n ≡ n + size_max)
      × ((p : ℕ) → n ≤ p → p < n + size_max → strncpy dest src n p ≡ 0)
unfolding strncpy strncpy_extent
strncpy-overruns dest src n h =
    let e = strncpy_loop-Unended n dest src 0 (λ j a. rw zero-add (h j a)) in
    let c = strncpy_loop n dest src 0 in
    (
      omega (arith, e.stop, e.left),
      λ p a b. ground (arith, e.stop, e.left, memset_loop-at c.left c.dest c.stop 0 p),
    )
