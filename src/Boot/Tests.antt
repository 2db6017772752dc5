-- ===== src/Boot/Tests.antt =====
-- The kernel's start on the memory map of a machine with 256 MB.
use knos.Base.{
  ℕ, ◌/◌, ◌%◌, ◌*◌, ◌<◌, ◌≤◌, ◌≡◌, ◌⊎◌, inl, inr, ok, some, false, Bool-cases, List, [], ◌∷◌, arith,
  refl, replicate, ◌==◌, if◌then◌else◌,
}
use knos.Printk.Number.{codes}
use knos.Printk.Font.{font_row}
use knos.Printk.Vsnprintf.Strings.{AreShort}
use knos.Printk.Console.Glyph.{pixel_at}
use knos.Interrupt.{Entry}
use knos.Interrupt.Idt.{IdtState, gate}
use knos.Tss.{GdtState}
use knos.Vbe.Text.{IsUsable}
use knos.Boot.Picture.{bar_color, draw_picture}
use knos.Boot.Picture.Colours.{draw_picture_lem}
use knos.Boot.Lines.{Setting}
use knos.Boot.Kernel.{Kernel, start_kernel}
use knos.Boot.Kernel.Prints.{longest_string}
use knos.Cpu.{Answer, level_type}
use knos.Boot.Kernel.Start.{IsCountable, IsStarted, start_kernel_lem}
use knos.Memory.{Manager}
use knos.Memory.E820.{E820Entry}
use knos.Memory.E820.Reserved.{AreNamed, top_pfn}
use knos.Memory.Init.{stored_entries}
use knos.Memory.Init.Layout.{place_arrays, kernel_end}
use knos.Memory.Init.Build.{has_pages, first_zone, count_zones, AreAscending}
use knos.Memory.Init.Correct.{IsBootable}
use knos.Boot.{Shown, start_memory}
use knos.Boot.Correct.{IsClean, start_memory_lem}

abbrev usable : ℕ → ℕ → E820Entry
usable low len = record {
  base_addr_low = low;
  base_addr_high = 0;
  length_low = len;
  length_high = 0;
  entry_type = 1;
}

abbrev machine : List E820Entry
machine = usable 0 0x9F000 ∷ usable 0x100000 0xFF00000 ∷ []

abbrev machine_end : ℕ
machine_end = 0xFFFF800000110000

machine-IsBootable : IsBootable machine_end (stored_entries machine) 1 8
unfolding AreNamed AreAscending first_zone has_pages top_pfn count_zones place_arrays kernel_end
    stored_entries
machine-IsBootable = record {
  named = (omega arith, (omega arith, omega arith));
  ascending = (omega arith, omega arith);
  first = refl;
  test_fits = omega arith;
  arrays_fit = omega arith;
}

start_memory_lem_example :
    (shown : Shown) × (k : Manager) × (start_memory machine_end [] machine ≡ ok (shown, k))
    × IsClean shown
start_memory_lem_example = start_memory_lem machine_end [] machine 1 8 machine-IsBootable

draw_picture_lem_example :
    ((20500 < 81920)
      × (pixel_at (20500 * 4) (draw_picture []) ≡ some (bar_color (20500 / 20480) (20500 % 1024))))
    ⊎ ((81920 ≤ 20500) × (pixel_at (20500 * 4) (draw_picture []) ≡ pixel_at (20500 * 4) []))
draw_picture_lem_example = draw_picture_lem 20500 []

-- The first pixel of the second bar is cyan, and the last one of the fourth all but red.
bar_ends : (bar_color 1 0 ≡ 0xFFFF) × (bar_color 3 1023 ≡ 0xFF0100)
unfolding bar_color
bar_ends = (refl, refl)

abbrev at_4k : Entry → ℕ
at_4k e = 0x1000

-- A processor of 4 cores: one level.
abbrev leaf : ℕ → Answer
leaf code = record { eax = 0x16; ebx = 0x080800; ecx = 0; edx = 0 }

abbrev level : ℕ → ℕ → Answer
level code subleaf =
    if subleaf == 0
    then record { eax = 1; ebx = 4; ecx = 0x201; edx = 0 }
    else record { eax = 0; ebx = 0; ecx = 0; edx = 0 }

abbrev setting : Setting
setting = record {
  entry_address = at_4k;
  idt_table = 0xFFFF800000108000;
  tss64_table = 0xFFFF800000108440;
  end_krnl = machine_end;
  pml4 = [];
  entries = machine;
  vbe_info = record {
    x_resolution = 1024;
    y_resolution = 768;
    bits_per_pixel = 32;
    mode_attributes = 0xFB;
    phys_base_ptr = 0xE0000000;
    max_pixel_clock = 0;
  };
  hello_string = 1;
  test_string = 2;
  cpu_name_str = 3;
  cpuid = leaf;
  cpuid_count = level;
  level_fuel = 2;
}

abbrev strings : ℕ → List ℕ
strings a = if a == 1 then codes "HelloString" else if a == 2 then codes "Test" else codes "a CPU"

strings-AreShort : AreShort strings longest_string
strings-AreShort a = elim (Bool-cases (a == 1)) [
  | inl hello ↦ rw hello (omega arith)
  | inr other ↦ elim (Bool-cases (a == 2)) [
    | inl test ↦ rw (other, test) (omega arith)
    | inr cpu ↦ rw (other, cpu) (omega arith)
  ]
]

abbrev no_gates : IdtState
no_gates = record {
  table = replicate 256 (gate 0 0 0 0);
  limit = 0;
  base = 0;
  port_writes = [];
  interrupts_on = false;
}

abbrev empty_gdt : GdtState
empty_gdt = record { gdt = replicate 10 0; task_register = 0; interrupts_on = false }

setting-IsUsable : IsUsable setting.vbe_info 128 48
setting-IsUsable = record {
  width = refl;
  height = refl;
  some_column = omega arith;
  some_row = omega arith;
  bounded = omega arith;
}

setting-IsCountable : IsCountable setting 1
setting-IsCountable = record {
  levels = record { ends = refl; before = first_level };
  few = omega arith;
  enough = omega arith;
  there = omega arith;
  positive = omega arith;
}
  where
    first_level : (i : ℕ) → i < 1 → ¬ (level_type leaf level i ≡ 0)
    first_level i lt e = ground arith

start_kernel_lem_example :
    (k : Kernel) × (start_kernel font_row strings setting no_gates empty_gdt ≡ ok k)
    × IsStarted setting no_gates empty_gdt k
start_kernel_lem_example =
    start_kernel_lem font_row strings strings-AreShort setting 128 48 1 8 1 no_gates empty_gdt
      setting-IsUsable setting-IsCountable machine-IsBootable (omega arith) (omega arith)
      (omega arith)
