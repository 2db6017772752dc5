-- ===== src/Printk/Tests.antt =====
-- Runs of kernel/printk.c's functions, and the theorems at concrete inputs.
use Prim.Native.String.{String}
use knos.Base.{none, ℕ, ◌+◌, ◌≡◌, refl, true, false, some, List, [], ◌∷◌, Result, ok, arith}
use knos.Base.Int.{pos, negsuc}
use knos.Printk.Buffer.{Buffer, emit, push, put, fill, copy}
use knos.Printk.Number.{
  Flags, codes, number, digits_of, write_number, digits_loop, put_prefix, sign_char, padding,
  width_for_prefix, digit,
}
use knos.Printk.Format.{
  no_flags, parse_width, parse_flags, add_flag, parse_digits, parse_precision, parse_qualifier,
  signed,
}
use knos.Printk.Vsnprintf.{
  Printed, vsnprintf, print_loop, print_one, specification, dispatch, convert, print_signed,
  print_unsigned,
}
use knos.Printk.Vsnprintf.Demand.{demand, character_demand, specification_demand, conversion_demand}
use knos.Printk.Console.{Geometry, Console, red, white, show_text, fatalk}
use knos.Printk.Console.Report.{IsReport, fatalk_lem}
use knos.Printk.Console.Cursor.{IsScreen, IsOnScreen, Shows, show_text-IsOnScreen}

abbrev line : Buffer
line = record { text = []; room = 80 }

abbrev hex_flags : Flags
hex_flags = record no_flags { special = true; small = true }

abbrev no_strings : ℕ → List ℕ
no_strings a = []

-- The width of `%#8x` is 8, but the field has 6 characters: the prefix is taken off twice.
narrow_field : number line 255 16 (pos 8) (negsuc 0) hex_flags false ≡ emit (codes "  0xff") line
unfolding number digits_of write_number copy digits_loop fill put_prefix sign_char padding
    width_for_prefix push digit
narrow_field = refl

abbrev formatted : String → List ℕ → Result Printed
formatted fmt args = vsnprintf no_strings 32 (codes fmt) args

minus_five :
    formatted "%5d|%-3d|" (0xFFFFFFFB ∷ 7 ∷ [])
    ≡ ok (record { text = codes "   -5|7  |"; terminator = some 10; returned = 10; stores = [] })
unfolding vsnprintf print_loop print_one specification parse_width parse_flags add_flag parse_digits
    parse_precision dispatch parse_qualifier convert print_signed print_unsigned signed put number
    digits_of write_number copy digits_loop fill put_prefix sign_char padding width_for_prefix push
    digit
minus_five = refl

-- `%u` prints in base 16.
unsigned_is_hex :
    formatted "%u" (255 ∷ [])
    ≡ ok (record { text = codes "ff"; terminator = some 2; returned = 2; stores = [] })
unfolding vsnprintf print_loop print_one specification parse_width parse_flags add_flag parse_digits
    parse_precision dispatch parse_qualifier convert print_signed print_unsigned signed put number
    digits_of write_number copy digits_loop fill put_prefix sign_char padding width_for_prefix push
    digit
unsigned_is_hex = refl

-- A text that fills the buffer leaves no place for the 0.
full_buffer :
    vsnprintf no_strings 3 (codes "abcd") []
    ≡ ok (record { text = codes "abc"; terminator = some 3; returned = 2; stores = [] })
unfolding vsnprintf print_loop print_one put push
full_buffer = refl

abbrev screen : Geometry
screen = record { x_resolution = 1024; y_resolution = 768; x_char_size = 8; y_char_size = 16 }

abbrev blank : ℕ → ℕ → ℕ
blank c i = 0

screen-IsScreen : IsScreen screen
screen-IsScreen = record {
  x_fits = omega arith;
  y_fits = omega arith;
  x_some = omega arith;
  y_some = omega arith;
}

abbrev corner : Console
corner = record { x_position = pos 0; y_position = pos 0; pixels = [] }

corner-IsOnScreen : IsOnScreen screen corner
corner-IsOnScreen = record {
  x = 0;
  y = 0;
  at_x = refl;
  at_y = refl;
  x_inside = omega arith;
  y_inside = omega arith;
}

show_text-IsOnScreen_example :
    Shows screen (show_text blank screen (codes "a\tb\n") 0xFFFFFFFF 0xFF000000 corner)
show_text-IsOnScreen_example =
    show_text-IsOnScreen blank screen screen-IsScreen (codes "a\tb\n") 0xFFFFFFFF 0xFF000000 corner
      corner-IsOnScreen

-- A format of three conversions, which asks for three arguments and at most 160 characters.
abbrev fault_format : List ℕ
fault_format = codes "CR2=%#llx %c, %d%%\n"

fatalk_lem_example :
    (s1 : Console) × (s2 : Console) × (m : ℕ) × (n : ℕ) × (fatalk blank screen no_strings
        (codes "Unhandled exception %d\n")
        (9 ∷ [])
        corner
      ≡ ok (s2, m + n))
    × IsReport blank screen no_strings red white (codes "[FATL] ") [] corner s1 m
    × IsReport blank screen no_strings red white (codes "Unhandled exception %d\n") (9 ∷ []) s1 s2 n
unfolding demand character_demand specification_demand conversion_demand parse_flags add_flag
    parse_width parse_digits parse_precision parse_qualifier
fatalk_lem_example =
    fatalk_lem blank screen no_strings none (omega arith) screen-IsScreen
      (codes "Unhandled exception %d\n") (9 ∷ []) (record { arguments = 1; characters = 96 }) corner
      refl (omega arith) (omega arith) corner-IsOnScreen
