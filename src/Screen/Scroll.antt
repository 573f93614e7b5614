-- ===== src/Screen/Scroll.antt =====
-- What `scroll_screen` does to the bytes of the screen.
use apna_os.Prelude.{
  ℕ, zero, suc, ◌+◌, ◌-◌, ◌*◌, ◌%◌, ◌≤◌, ◌<◌, ◌≡◌, refl, arith, ◌==◌, ltb, leb, ◌&&◌, if◌then◌else◌,
  Bytes, update, ◌∙◌,
}
use apna_os.Screen.{vga_width, Vga, scroll_cols, scroll_rows, blank_row, scroll_screen}

-- The bytes from `a` to before `b` are those of the row below, the others as before.
abbrev moved : ℕ → ℕ → Bytes → Bytes
moved a b video p = if leb a p && ltb p b then video (p + 160) else video p

-- One cell is copied.
copy_cell : ℕ → ℕ → Bytes → Bytes
copy_cell to from video =
    update (update video to (video from)) (to + 1) ((update video to (video from)) (from + 1))

copy_cell-moved :
    (to p : ℕ) (video : Bytes) → copy_cell to (to + 160) video p ≡ moved to (to + 2) video p
unfolding copy_cell
copy_cell-moved to p video = ground arith

-- A cell first and then the rest of the row.
moved-moved :
    (a b p : ℕ) (video video' : Bytes)
    → a + 2 ≤ b
    → b ≤ a + 160
    → ((j : ℕ) → video' j ≡ moved a (a + 2) video j)
    → moved (a + 2) b video' p ≡ moved a b video p
moved-moved a b p video video' l l' same = ground (arith, same p, same (p + 160), l, l')

scroll_cols-moved :
    (n col row p : ℕ) (video : Bytes)
    → col + n ≡ vga_width
    → 0 < row
    → scroll_cols n col row video p ≡ moved (((row - 1) * 80 + col) * 2) (row * 160) video p
unfolding scroll_cols copy_cell
scroll_cols-moved zero col row p video e l = ground (arith, e, l)
scroll_cols-moved (suc n) col row p video e l =
    let to = ((row - 1) * 80 + col) * 2 in
    let from : (row * 80 + col) * 2 ≡ to + 160 = omega (arith, l) in
    let next : ((row - 1) * 80 + (col + 1)) * 2 ≡ to + 2 = omega arith in
    let video' = copy_cell to (to + 160) video in
    rw from (
      scroll_cols-moved n (col + 1) row p video' (omega (arith, e)) l
      ∙ rw next (
          moved-moved to (row * 160) p video video' (omega (arith, e, l)) (omega (arith, e, l))
            (λ j. copy_cell-moved to j video)))

scroll_rows-moved :
    (n row p : ℕ) (video : Bytes)
    → 0 < row
    → scroll_rows n row video p ≡ moved ((row - 1) * 160) ((row + n - 1) * 160) video p
unfolding scroll_rows
scroll_rows-moved zero row p video l = ground (arith, l)
scroll_rows-moved (suc n) row p video l =
    let video' = scroll_cols vga_width 0 row video in
    let ih = scroll_rows-moved n (row + 1) p video' (omega arith) in
    let here = scroll_cols-moved vga_width 0 row p video refl l in
    let there = scroll_cols-moved vga_width 0 row (p + 160) video refl l in
    ground (arith, ih, here, there, l)

blank_row-at :
    (n col p : ℕ) (video : Bytes)
    → blank_row n col video p ≡ (
        if leb (3840 + col * 2) p && ltb p (3840 + (col + n) * 2)
        then (if p % 2 == 0 then 32 else 7)
        else video p)
unfolding blank_row
blank_row-at zero col p video = ground arith
blank_row-at (suc n) col p video =
    let video' = update (update video (3840 + col * 2) 32) (3840 + col * 2 + 1) 7 in
    ground (arith, blank_row-at n (col + 1) p video')

-- The rows move up by one, the last row is blank, and no other byte changes.
pub scroll_screen_lem :
    (v : Vga) (p : ℕ)
    → (scroll_screen v).video p ≡ (
        if ltb p 3840
        then v.video (p + 160)
        else if ltb p 4000
        then (if p % 2 == 0 then 32 else 7)
        else v.video p)
unfolding scroll_screen
scroll_screen_lem v p = ground (
  arith,
  blank_row-at vga_width 0 p (scroll_rows 24 1 v.video),
  scroll_rows-moved 24 1 p v.video (omega arith),
)
