-- ===== src/Screen.antt =====
-- The text screen of kernel.c: 25 rows of 80 cells of two bytes, and the cursor.
pub mod Scroll
pub mod Grid
mod Tests
use apna_os.Prelude.{
  ℕ, zero, suc, ◌+◌, ◌-◌, ◌*◌, ◌&&◌, ltb, leb, ◌==◌, if◌then◌else◌, Bytes, update,
}
use apna_os.Prelude.Run.{Cmd, done, out_of_fuel, pure, get, put, guard, ◌>>=◌, ◌>>◌}

abbrev pub vga_width : ℕ
vga_width = 80

abbrev pub vga_height : ℕ
vga_height = 25

-- `VGA_MEMORY` and the two statics.
pub record Vga : Type 0 where
  pub video : Bytes
  pub vga_row : ℕ
  pub vga_col : ℕ

-- The columns of one row, with `n` left from `col` on, are copied to the row above.
unfoldable pub scroll_cols : ℕ → ℕ → ℕ → Bytes → Bytes
scroll_cols zero col row video = video
scroll_cols (suc n) col row video =
    let from : ℕ = (row * vga_width + col) * 2 in
    let to : ℕ = ((row - 1) * vga_width + col) * 2 in
    let video' : Bytes = update video to (video from) in
    scroll_cols n (col + 1) row (update video' (to + 1) (video' (from + 1)))

unfoldable pub scroll_rows : ℕ → ℕ → Bytes → Bytes
scroll_rows zero row video = video
scroll_rows (suc n) row video = scroll_rows n (row + 1) (scroll_cols vga_width 0 row video)

-- for (int col = 0; ...): the last row becomes blank.
unfoldable pub blank_row : ℕ → ℕ → Bytes → Bytes
blank_row zero col video = video
blank_row (suc n) col video =
    let last_row : ℕ = (vga_height - 1) * vga_width * 2 in
    blank_row n (col + 1)
      (update (update video (last_row + col * 2) (b' ')) (last_row + col * 2 + 1) 0x07)

unfoldable pub scroll_screen : Vga → Vga
scroll_screen v = record {
  video = blank_row vga_width 0 (scroll_rows (vga_height - 1) 1 v.video);
  vga_row = vga_height - 1;
  vga_col = 0;
}

-- The last line of `putchar`.
unfoldable pub scroll_if_full : Vga → Vga
scroll_if_full v = if leb vga_height v.vga_row then scroll_screen v else v

-- if(vga_col >= VGA_WIDTH){ vga_row++; vga_col = 0; }
unfoldable pub wrap_row : Vga → Vga
wrap_row v =
    if leb vga_width v.vga_col then record v { vga_row = v.vga_row + 1; vga_col = 0 } else v

-- The memory of the screen has 4000 bytes.
unfoldable pub putchar : ℕ → Cmd Vga (Unit {0})
putchar c = do
  v ← get
  if c == 10 then put (scroll_if_full (record v { vga_row = v.vga_row + 1; vga_col = 0 })) else (do
    let offset : ℕ = (v.vga_row * vga_width + v.vga_col) * 2
    guard (ltb (offset + 1) (vga_height * vga_width * 2))
    let video : Bytes = update (update v.video offset c) (offset + 1) 0x07
    put (scroll_if_full (wrap_row (record v { video = video; vga_col = v.vga_col + 1 }))))

-- `message` is read from offset `i` on.
unfoldable pub print_to_screen : ℕ → Bytes → ℕ → Cmd Vga (Unit {0})
print_to_screen zero message i = λ v. out_of_fuel
print_to_screen (suc fuel) message i =
    if message i == 0
    then pure tt
    else (do putchar (message i); print_to_screen fuel message (i + 1))
