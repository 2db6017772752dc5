-- ===== src/Boot/Kernel/Prints.antt =====
-- What `Start_Kernel` of kernel/main.c prints is drawn in the frame buffer.
use knos.Base.{
  ℕ, ◌≡◌, refl, ap, ◌∙◌, true, Bool-cases, inl, inr, Option, some, List, [], ◌∷◌, Result, ok, ◌>>=◌,
  arith, length,
}
use knos.Printk.Buffer.{push, put, fill, copy}
use knos.Printk.Number.{
  codes, digit, digits_loop, digits_of, sign_char, width_for_prefix, padding, put_prefix,
  write_number, number,
}
use knos.Printk.Vsnprintf.{
  Printed, print_signed, convert, dispatch, specification, print_one, print_loop, vsnprintf,
}
use knos.Printk.Format.{
  signed, parse_flags, add_flag, parse_width, parse_digits, parse_precision, parse_after_dot,
  parse_qualifier,
}
use knos.Printk.Vsnprintf.Demand.{demand, character_demand, specification_demand, conversion_demand}
use knos.Printk.Vsnprintf.Strings.{AreShort}
use knos.Printk.Console.{Geometry, Console, white, black, printk}
use knos.Printk.Console.Frame.{IsGrid, IsInFrame}
use knos.Memory.{Page}
use knos.Cpu.{cpu_physical_cores}
use knos.Vbe.{VbeInfo}
use knos.Boot.Script.{Call, say, say_all}
use knos.Boot.Script.Fine.{
  is_met, Draws, formatted-Prints, call_met, calls_met, say-Draws, say_all-Draws,
}
use knos.Boot.Lines.{
  Setting, first_tests, big_number, special_tests, count_steps, last_tests, vbe_lines, idt_lines,
  tss_lines, gdt_lines, allocated_lines, word_lines, frame_lines, reaches_next,
}
use knos.Boot.Kernel.{test_printk_function}

-- No string that is printed is longer.
abbrev pub longest_string : Option ℕ
longest_string = some 2048

abbrev AreMet : List Call → Type 0
AreMet cs = calls_met longest_string cs ≡ true

first_tests_met : (m : Setting) → AreMet (first_tests m)
unfolding calls_met demand character_demand specification_demand conversion_demand parse_flags
    add_flag parse_width parse_digits parse_precision parse_after_dot parse_qualifier
first_tests_met m = refl

rest_tests_met :
    (m : Setting)
    → AreMet (special_tests m)
      × AreMet (count_steps 10 0)
      × ((cores : ℕ) → AreMet (last_tests m cores))
unfolding calls_met count_steps demand character_demand specification_demand conversion_demand
    parse_flags add_flag parse_width parse_digits parse_precision parse_after_dot parse_qualifier
rest_tests_met m = (refl, refl, λ cores. refl)

pub setup_met :
    (info : VbeInfo) (base low high : ℕ)
    → AreMet (vbe_lines info)
      × AreMet idt_lines
      × AreMet (tss_lines base)
      × AreMet (gdt_lines low high)
unfolding calls_met demand character_demand specification_demand conversion_demand parse_flags
    add_flag parse_width parse_digits parse_precision parse_after_dot parse_qualifier
setup_met info base low high = (refl, refl, refl, refl)

pub allocated_met : (pfn word next : ℕ) → AreMet (allocated_lines pfn word next)
unfolding calls_met demand character_demand specification_demand conversion_demand parse_flags
    add_flag parse_width parse_digits parse_precision parse_after_dot parse_qualifier
allocated_met pfn word next = elim (Bool-cases (reaches_next pfn)) [
  | inl further ↦ rw further refl
  | inr inside ↦ rw inside refl
]

word_met :
    (color : ℕ) (fmt : List ℕ) (bitmap_word pfn word next : ℕ)
    → is_met (demand longest_string (length fmt) fmt) 2 ≡ true
    → AreMet (word_lines color fmt bitmap_word pfn word next)
unfolding calls_met
word_met color fmt bitmap_word pfn word next met = elim (Bool-cases (reaches_next pfn)) [
  | inl further ↦ rw (further, met) refl
  | inr inside ↦ rw (inside, met) refl
]

pub release_met :
    (color color' bitmap_word pfn word next pfn' word' next' : ℕ) (p : Page)
    → AreMet (
        word_lines color
          (codes "Before freeing - bitmap[%lu]: %#018lx\n")
          bitmap_word
          pfn
          word
          next)
      × AreMet (
          word_lines color'
            (codes "After freeing - bitmap[%lu]: %#018lx\n")
            bitmap_word
            pfn'
            word'
            next')
      × AreMet (frame_lines p)
unfolding calls_met demand character_demand specification_demand conversion_demand parse_flags
    add_flag parse_width parse_digits parse_precision parse_after_dot parse_qualifier
release_met color color' bitmap_word pfn word next pfn' word' next' p = (
  word_met color (codes "Before freeing - bitmap[%lu]: %#018lx\n") bitmap_word pfn word next refl,
  word_met color' (codes "After freeing - bitmap[%lu]: %#018lx\n") bitmap_word pfn' word' next'
      refl,
  refl,
)

-- The least int64_t is refused by the demand, but this is another number.
abbrev big_printed : Printed
big_printed = record {
  text = codes "Big number: 12345678901234567\n";
  terminator = some 30;
  returned = 30;
  stores = [];
}

big_formatted :
    (string_at : ℕ → List ℕ)
    → vsnprintf string_at 4096 (codes "Big number: %lld\n") (12345678901234567 ∷ [])
      ≡ ok big_printed
unfolding vsnprintf print_loop print_one specification dispatch convert print_signed number put fill
    push copy write_number digits_of digits_loop put_prefix sign_char padding width_for_prefix digit
    signed parse_flags add_flag parse_width parse_digits parse_precision parse_after_dot
    parse_qualifier
big_formatted string_at = refl

module _ (font : ℕ → ℕ → ℕ) (g : Geometry) (columns rows : ℕ) (grid : IsGrid g columns rows)
    (string_at : ℕ → List ℕ) (brief : AreShort string_at longest_string) where
  abbrev pub In : Console → Type 0
  In s = IsInFrame font g columns rows grid s

  abbrev pub Shows : Result Console → Type 0
  Shows r = Draws font g columns rows grid string_at r

  >>=-Shows :
      (first : Result Console) (rest : Console → Result Console)
      → Shows first
      → ((s : Console) → In s → Shows (rest s))
      → Shows (first >>= rest)
  >>=-Shows first rest (s, e, is) k =
      let (s', e', is') = k s is in (s', ap (λ r. r >>= rest) e ∙ e', is')

  pub say_all-Shows :
      (cs : List Call) (s : Console) → AreMet cs → In s → Shows (say_all font g string_at cs s)
  say_all-Shows = say_all-Draws font g columns rows grid string_at longest_string brief

  pub say-Shows :
      (c : Call) (s : Console)
      → call_met longest_string c ≡ true
      → In s
      → Shows (say font g string_at c s)
  say-Shows = say-Draws font g columns rows grid string_at longest_string brief

  big_number-Shows : (s : Console) → In s → Shows (say font g string_at big_number s)
  unfolding say printk
  big_number-Shows s is =
      let (s', n, run, is') =
        formatted-Prints font g columns rows grid string_at white black _ _ big_printed s
          (big_formatted string_at) refl refl (omega arith) is in
      (s', ap (λ r. r >>= λ x. ok x.0) run, is')

  pub test_printk_function-Shows :
      (m : Setting) (cores : ℕ) (s : Console)
      → cpu_physical_cores m.cpuid m.cpuid_count m.level_fuel ≡ ok cores
      → In s
      → Shows (test_printk_function font string_at g m s)
  unfolding test_printk_function
  test_printk_function-Shows m cores s counted is =
      let (special, steps, last) = rest_tests_met m in
      >>=-Shows _ _ (say_all-Shows (first_tests m) s (first_tests_met m) is) (λ s is.
        >>=-Shows _ _ (big_number-Shows s is) (λ s is.
          >>=-Shows _ _ (say_all-Shows (special_tests m) s special is) (λ s is.
            >>=-Shows _ _ (say_all-Shows (count_steps 10 0) s steps is) (λ s is.
              let (s', run, is') = say_all-Shows (last_tests m cores) s (last cores) is in
              (
                s',
                ap (λ r. r >>= λ cores. say_all font g string_at (last_tests m cores) s) counted
                    ∙ run,
                is',
              )))))
