-- ===== src/Printk/Console/Tests.antt =====
-- What is drawn at concrete inputs.
use knos.Base.{ℕ, ◌+◌, ◌<◌, ◌≡◌, ◌≢◌, ◌⊎◌, refl, some, none, List, [], ◌∷◌, ok, arith}
use knos.Base.Int.{pos}
use knos.Printk.Buffer.{push, put, fill, copy}
use knos.Printk.Number.{
  codes, digit, digits_loop, digits_of, sign_char, width_for_prefix, padding, put_prefix,
  write_number, number,
}
use knos.Printk.Format.{
  add_flag, parse_flags, parse_width, parse_digits, parse_precision, parse_after_dot,
  parse_qualifier, signed,
}
use knos.Printk.Font.{font_row}
use knos.Printk.Vsnprintf.{
  Printed, print_signed, convert, dispatch, specification, print_one, print_loop, vsnprintf,
}
use knos.Printk.Vsnprintf.Demand.{
  Demand, demand, character_demand, specification_demand, conversion_demand,
}
use knos.Printk.Console.{Geometry, Console, white, black, put_color_char, vcolor_printk}
use knos.Printk.Console.Glyph.{pixel_at, place, glyph_colour, put_color_char_lem}
use knos.Printk.Console.Legible.{ArePrintable, read_text}
use knos.Printk.Console.Readback.{vcolor_printk-read_text}

abbrev screen : Geometry
screen = record { x_resolution = 1024; y_resolution = 768; x_char_size = 8; y_char_size = 16 }

abbrev second : Console
second = record { x_position = pos 8; y_position = pos 16; pixels = [] }

abbrev no_strings : ℕ → List ℕ
no_strings a = []

put_color_char_lem_example :
    (s' : Console) × (put_color_char font_row screen white black b'A' second ≡ ok s')
    × (s'.x_position ≡ pos 8)
    × (s'.y_position ≡ pos 16)
    × ((i j : ℕ)
        → i < 16
        → j < 8
        → pixel_at (place screen (16 + i) (8 + j)) s'.pixels
          ≡ some (glyph_colour (font_row b'A' i) j white black))
    × ((row column : ℕ)
        → column < 1024
        → ((i j : ℕ) → i < 16 → j < 8 → (row ≢ 16 + i) ⊎ (column ≢ 8 + j))
        → pixel_at (place screen row column) s'.pixels ≡ pixel_at (place screen row column) [])
put_color_char_lem_example =
    put_color_char_lem font_row screen white black b'A' 8 16 second refl refl (omega arith)

abbrev answer : Printed
answer = record { text = codes "x = 42!"; terminator = some 7; returned = 7; stores = [] }

abbrev answer_demand : Demand
answer_demand = record { arguments = 1; characters = 80 }

answer_asked : demand none 7 (codes "x = %d!") ≡ ok answer_demand
unfolding demand character_demand specification_demand conversion_demand add_flag parse_flags
    parse_width parse_digits parse_precision parse_after_dot parse_qualifier
answer_asked = refl

answer_formatted : vsnprintf no_strings 4096 (codes "x = %d!") (42 ∷ []) ≡ ok answer
unfolding vsnprintf print_loop print_one specification dispatch convert print_signed number put fill
    push copy write_number digits_of digits_loop put_prefix sign_char padding width_for_prefix digit
    signed parse_flags add_flag parse_width parse_digits parse_precision parse_after_dot
    parse_qualifier
answer_formatted = refl

answer_printable : ArePrintable answer.text
unfolding ArePrintable
answer_printable = ground arith

vcolor_printk-read_text_example :
    (s' : Console) × (vcolor_printk font_row screen no_strings white black
        (codes "x = %d!")
        (42 ∷ [])
        second
      ≡ ok (s', 7))
    × (read_text screen white 16 8 7 s'.pixels ≡ codes "x = 42!")
vcolor_printk-read_text_example =
    vcolor_printk-read_text screen none no_strings white black (codes "x = %d!") (42 ∷ [])
      answer_demand answer 8 16 second (omega arith) answer_asked (omega arith) (omega arith)
      answer_formatted answer_printable (omega arith) refl refl refl (omega arith) (omega arith)
