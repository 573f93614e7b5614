-- ===== src/Screen/Grid.antt =====
-- The screen as a grid of characters with a cursor, and what printing does to it.
use apna_os.Prelude.{
  ℕ, zero, suc, ◌+◌, ◌*◌, ◌≤◌, ◌<◌, ◌≡◌, refl, arith, ◌==◌, ltb, leb, ◌&&◌, if◌then◌else◌, Bytes,
  update, ◌∙◌, Bool-cases, inl, inr, true, false, ne→==, eq→==, ℕ_discrete, ap,
}
use apna_os.Prelude.Run
use apna_os.Prelude.Run.{Returns, returns, Cmd}
use apna_os.Text.{HasLength}
use apna_os.Screen.{
  vga_width, vga_height, Vga, scroll_screen, scroll_if_full, wrap_row, putchar, print_to_screen,
}
use apna_os.Screen.Scroll.{scroll_screen_lem}

-- The characters and their colours by row and column.
pub record Grid : Type 0 where
  pub char : ℕ → ℕ → ℕ
  pub colour : ℕ → ℕ → ℕ
  pub row : ℕ
  pub col : ℕ

-- The first row is lost, and the last one is blank.
unfoldable pub scrolled : Grid → Grid
scrolled g = record {
  char = λ r c. if r == 24 then b' ' else g.char (r + 1) c;
  colour = λ r c. if r == 24 then 7 else g.colour (r + 1) c;
  row = 24;
  col = 0;
}

unfoldable pub feed : Grid → Grid
feed g = if leb 25 g.row then scrolled g else g

unfoldable pub draw : ℕ → Grid → Grid
draw x g = record g {
  char = λ r c. if r == g.row && c == g.col then x else g.char r c;
  colour = λ r c. if r == g.row && c == g.col then 7 else g.colour r c;
  col = g.col + 1;
}

unfoldable pub next_line : Grid → Grid
next_line g = record g { row = g.row + 1; col = 0 }

unfoldable pub wrap : Grid → Grid
wrap g = if leb 80 g.col then feed (next_line g) else g

unfoldable pub type : ℕ → Grid → Grid
type x g = if x == 10 then feed (next_line g) else wrap (draw x g)

-- The memory of the screen holds the cells of the grid.
pub record Draws (g : Grid) (v : Vga) : Type 0 where
  pub row : v.vga_row ≡ g.row
  pub col : v.vga_col ≡ g.col
  pub char : (r c : ℕ) → r < 25 → c < 80 → v.video ((r * 80 + c) * 2) ≡ g.char r c
  pub colour : (r c : ℕ) → r < 25 → c < 80 → v.video ((r * 80 + c) * 2 + 1) ≡ g.colour r c

-- And the cursor stands on it.
pub record Displays (g : Grid) (v : Vga) : Type 0 where
  pub draws : Draws g v
  pub in_rows : g.row < 25
  pub in_cols : g.col < 80

scroll_screen-row : (v : Vga) → ((scroll_screen v).vga_row ≡ 24) × ((scroll_screen v).vga_col ≡ 0)
unfolding scroll_screen
scroll_screen-row v = (refl, refl)

scroll_screen-Draws : {g : Grid} {v : Vga} → Draws g v → Draws (scrolled g) (scroll_screen v)
unfolding scrolled
scroll_screen-Draws {g} {v} d = record {
  row = (scroll_screen-row v).0;
  col = (scroll_screen-row v).1;
  char = λ r c a b. elim (ℕ_discrete r 24) [
    | yes e ↦ rw (eq→== r 24 e) (ground (arith, scroll_screen_lem v ((r * 80 + c) * 2), e, b))
    | no ne ↦
        let below : (r * 80 + c) * 2 + 160 ≡ ((r + 1) * 80 + c) * 2 = omega arith in
        let cell : v.video ((r * 80 + c) * 2 + 160) ≡ g.char (r + 1) c =
          rw below (d.char (r + 1) c (omega (arith, a, ne)) b) in
        rw (ne→== r 24 ne) (ground (arith, scroll_screen_lem v ((r * 80 + c) * 2), cell, a, b, ne))
  ];
  colour = λ r c a b. elim (ℕ_discrete r 24) [
    | yes e ↦ rw (eq→== r 24 e) (ground (arith, scroll_screen_lem v ((r * 80 + c) * 2 + 1), e, b))
    | no ne ↦
        let below : (r * 80 + c) * 2 + 1 + 160 ≡ ((r + 1) * 80 + c) * 2 + 1 = omega arith in
        let cell : v.video ((r * 80 + c) * 2 + 1 + 160) ≡ g.colour (r + 1) c =
          rw below (d.colour (r + 1) c (omega (arith, a, ne)) b) in
        rw (ne→== r 24 ne)
          (ground (arith, scroll_screen_lem v ((r * 80 + c) * 2 + 1), cell, a, b, ne))
  ];
}

feed-Displays :
    {g : Grid} {v : Vga}
    → Draws g v
    → g.row ≤ 25
    → g.col < 80
    → Displays (feed g) (scroll_if_full v)
unfolding feed scroll_if_full scrolled
feed-Displays {g} {v} d l l' =
    let same : leb vga_height v.vga_row ≡ leb 25 g.row = ap (leb 25) (d.row) in
    elim (Bool-cases (leb 25 g.row)) [
      | inr f ↦ rw (same ∙ f, f) (record { draws = d; in_rows = ground (arith, f); in_cols = l' })
      | inl t ↦
          rw (same ∙ t, t)
            (record { draws = scroll_screen-Draws d; in_rows = omega arith; in_cols = omega arith })
    ]

next_line-Draws :
    {g : Grid} {v : Vga}
    → Draws g v
    → Draws (next_line g) (record v { vga_row = v.vga_row + 1; vga_col = 0 })
unfolding next_line
next_line-Draws d = record {
  row = ap (λ r. r + 1) (d.row);
  col = refl;
  char = d.char;
  colour = d.colour;
}

-- One character is written at the cursor.
drawn : ℕ → Vga → Vga
drawn x v =
    let offset : ℕ = (v.vga_row * vga_width + v.vga_col) * 2 in
    record v { video = update (update v.video offset x) (offset + 1) 0x07; vga_col = v.vga_col + 1 }

drawn-Draws : (x : ℕ) {g : Grid} {v : Vga} → Displays g v → Draws (draw x g) (drawn x v)
unfolding draw drawn
drawn-Draws x {g} {v} d = record {
  row = d.draws.row;
  col = ap (λ c. c + 1) (d.draws.col);
  char = λ r c a b. ground (arith, d.draws.char r c a b, d.draws.row, d.draws.col, d.in_cols, b);
  colour =
      λ r c a b. ground (arith, d.draws.colour r c a b, d.draws.row, d.draws.col, d.in_cols, b);
}

wrap_row-Displays :
    {g : Grid} {v : Vga}
    → Draws g v
    → g.row < 25
    → g.col ≤ 80
    → Displays (wrap g) (scroll_if_full (wrap_row v))
unfolding wrap wrap_row next_line scroll_if_full
wrap_row-Displays {g} {v} d l l' =
    let same : leb vga_width v.vga_col ≡ leb 80 g.col = ap (leb 80) (d.col) in
    elim (Bool-cases (leb 80 g.col)) [
      | inl t ↦
          rw (same ∙ t, t) (feed-Displays (next_line-Draws d) (omega (arith, l)) (omega arith))
      | inr f ↦
          let stays : leb vga_height v.vga_row ≡ false = ground (arith, d.row, l) in
          rw (same ∙ f, f)
            (rw stays (record { draws = d; in_rows = l; in_cols = ground (arith, f, l') }))
    ]

putchar-Displays :
    (x : ℕ) {g : Grid} {v : Vga}
    → Displays g v
    → Returns (λ _ v'. Displays (type x g) v') (putchar x v)
unfolding putchar type drawn next_line draw
putchar-Displays x {g} {v} d = elim (ℕ_discrete x 10) [
  | yes e ↦
      rw (eq→== x 10 e)
        (returns (feed-Displays (next_line-Draws d.draws) (omega (arith, d.in_rows)) (omega arith)))
  | no ne ↦
      let room : ltb ((v.vga_row * vga_width + v.vga_col) * 2 + 1) (vga_height * vga_width * 2)
          ≡ true =
        ground (arith, d.draws.row, d.draws.col, d.in_rows, d.in_cols) in
      rw (ne→== x 10 ne, room)
        (returns (wrap_row-Displays (drawn-Draws x d) (d.in_rows) (omega (arith, d.in_cols))))
]

-- The characters of a string, from offset `i` on, `n` of them.
abbrev pub type_all : ℕ → Bytes → ℕ → Grid → Grid
type_all zero s i g = g
type_all (suc n) s i g = type_all n s (i + 1) (type (s i) g)

print_loop-Displays :
    (fuel n i k : ℕ) (message : Bytes) {g : Grid} {v : Vga}
    → HasLength message k
    → i + n ≡ k
    → n < fuel
    → Displays g v
    → Returns (λ _ v'. Displays (type_all n message i g) v') (print_to_screen fuel message i v)
unfolding print_to_screen
print_loop-Displays zero n i k message h e l d = absurd (omega (arith, l))
print_loop-Displays (suc fuel) zero i k message h e l d =
    let here : i ≡ k = omega (arith, e) in
    rw (eq→== (message i) 0 (ap message here ∙ h.ends)) (returns d)
print_loop-Displays (suc fuel) (suc n) i k message h e l d =
    rw (ne→== (message i) 0 (h.before i (omega (arith, e)))) (
      Run.bind (putchar-Displays (message i) d) λ _ v' d'.
        print_loop-Displays fuel n (i + 1) k message h (omega (arith, e)) (omega (arith, l)) d')

-- Printing a string on a screen that displays a grid, the cursor on it, ends inside the memory of the
-- screen, given more rounds than the string has bytes; the screen then displays the grid on which the
-- bytes of the string were typed one after the other, with line feeds, full rows and scrolling, and
-- the cursor stands on it.
pub print_to_screen-Displays :
    (fuel k : ℕ) (message : Bytes) (g : Grid) (v : Vga)
    → HasLength message k
    → k < fuel
    → Displays g v
    → Returns (λ _ v'. Displays (type_all k message 0 g) v') (print_to_screen fuel message 0 v)
print_to_screen-Displays fuel k message g v h l d =
    print_loop-Displays fuel k 0 k message h (omega arith) l d
