-- ===== src/Boot/Picture.antt =====
-- The test picture of kernel/main.c: four bars of 20 rows, whose colours run from blue to red.
pub mod Colours
use knos.Base.{ℕ, zero, suc, ◌+◌, ◌-◌, ◌*◌, ◌/◌, ◌%◌, ◌^◌, List, ◌∷◌, ◌==◌, if◌then◌else◌}

abbrev pub total_width : ℕ
total_width = 1024

abbrev pub bar_height : ℕ
bar_height = 20

-- `(x * 0xFF) / total_width`, as a byte.
abbrev pub color_value : ℕ → ℕ
color_value x = x * 0xFF / total_width % 2 ^ 8

-- The four bytes of a pixel, blue the lowest.
abbrev pub bgr : ℕ → ℕ → ℕ → ℕ
bgr b g r = b + g * 2 ^ 8 + r * 2 ^ 16

-- The colour of column `x` of a bar.
unfoldable pub bar_color : ℕ → ℕ → ℕ
bar_color bar x =
    if bar == 0
    then bgr 0xFF (color_value x) 0
    else if bar == 1
    then bgr (0xFF - color_value x) 0xFF 0
    else if bar == 2
    then bgr 0 0xFF (color_value x)
    else if bar == 3
    then bgr 0 (0xFF - color_value x) 0xFF
    else (bgr 0 0 0)

-- `left` columns of a row, from column `x`. `at` is the number of pixels that `frame_buffer` has moved by.
unfoldable pub draw_columns : ℕ → ℕ → ℕ → ℕ → List (ℕ × ℕ) → List (ℕ × ℕ)
draw_columns zero x bar at pixels = pixels
draw_columns (suc left) x bar at pixels =
    draw_columns left (x + 1) bar (at + 1) ((at * 4, bar_color bar x) ∷ pixels)

unfoldable pub draw_lines : ℕ → ℕ → ℕ → List (ℕ × ℕ) → List (ℕ × ℕ)
draw_lines zero bar at pixels = pixels
draw_lines (suc left) bar at pixels =
    draw_lines left bar (at + total_width) (draw_columns total_width 0 bar at pixels)

unfoldable pub draw_bars : ℕ → ℕ → ℕ → List (ℕ × ℕ) → List (ℕ × ℕ)
draw_bars zero bar at pixels = pixels
draw_bars (suc left) bar at pixels =
    draw_bars left (bar + 1) (at + bar_height * total_width) (draw_lines bar_height bar at pixels)

unfoldable pub draw_picture : List (ℕ × ℕ) → List (ℕ × ℕ)
draw_picture pixels = draw_bars 4 0 0 pixels
