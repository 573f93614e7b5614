-- ===== src/Screen/Tests.antt =====
-- The screen on a concrete string.
use apna_os.Prelude.{refl, arith, [], ◌∷◌, Bytes, of_list}
use apna_os.Prelude.Run.{Returns}
use apna_os.Text.{HasLength}
use apna_os.Screen.{Vga, print_to_screen}
use apna_os.Screen.Grid.{Grid, Displays, type_all, print_to_screen-Displays}

-- "a", a line feed, "b".
abbrev message : Bytes
message = of_list 0 (b'a' ∷ 10 ∷ b'b' ∷ [])

message-HasLength : HasLength message 3
message-HasLength = record { ends = refl; before = λ j l e. ground (arith, l, e) }

-- A screen of dots, the cursor at the end of the last row.
abbrev dots : Vga
dots = record { video = λ p. 46; vga_row = 24; vga_col = 79 }

abbrev dots_grid : Grid
dots_grid = record { char = λ r c. 46; colour = λ r c. 46; row = 24; col = 79 }

dots-Displays : Displays dots_grid dots
dots-Displays = record {
  draws = record { row = refl; col = refl; char = λ r c a b. refl; colour = λ r c a b. refl };
  in_rows = omega arith;
  in_cols = omega arith;
}

print_to_screen-Displays_example :
    Returns
      (λ _ v'. Displays (type_all 3 message 0 dots_grid) v')
      (print_to_screen 9 message 0 dots)
print_to_screen-Displays_example =
    print_to_screen-Displays 9 3 message dots_grid dots message-HasLength (omega arith)
      dots-Displays
