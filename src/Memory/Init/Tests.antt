-- ===== src/Memory/Init/Tests.antt =====
-- `init_memory` on the memory map of a machine with 256 MB.
use knos.Memory.{dma, normal}
use knos.Memory.Init.Spans.{zones_from, spans_of}
use knos.Base.{ℕ, ◌≤◌, true, false, ◌≡◌, refl, List, [], ◌∷◌, ok, arith}
use knos.Memory.E820.{E820Entry}
use knos.Memory.E820.Reserved.{AreNamed, top_pfn}
use knos.Memory.Init.{stored_entries, Initialised, init_memory}
use knos.Memory.Init.Layout.{IsDisjoint, place_arrays, kernel_end, place_arrays-IsDisjoint}
use knos.Memory.Init.Build.{has_pages, first_zone, count_zones, AreAscending}
use knos.Memory.Init.Correct.{is_kernel_page, IsBootable, IsInitialised, init_memory_lem}

abbrev usable : ℕ → ℕ → E820Entry
usable low len = record {
  base_addr_low = low;
  base_addr_high = 0;
  length_low = len;
  length_high = 0;
  entry_type = 1;
}

-- 636 KB of low memory, and 255 MB from 1 MB on.
abbrev pub machine : List E820Entry
machine = usable 0 0x9F000 ∷ usable 0x100000 0xFF00000 ∷ []

abbrev pub machine_end : ℕ
machine_end = 0xFFFF800000110000

pub machine-IsBootable : IsBootable machine_end (stored_entries machine) 1 8
unfolding AreNamed AreAscending first_zone has_pages top_pfn count_zones place_arrays kernel_end
    stored_entries
machine-IsBootable = record {
  named = (omega arith, (omega arith, omega arith));
  ascending = (omega arith, omega arith);
  first = refl;
  test_fits = omega arith;
  arrays_fit = omega arith;
}

-- A kernel that ends at 2 MB: the arrays lie in page 1.
abbrev kernel_2m : ℕ
kernel_2m = 0xFFFF800000200000

kernel_2m-IsBootable : IsBootable kernel_2m (stored_entries machine) 1 8
unfolding AreNamed AreAscending first_zone has_pages top_pfn count_zones place_arrays kernel_end
    stored_entries
kernel_2m-IsBootable = record {
  named = (omega arith, (omega arith, omega arith));
  ascending = (omega arith, omega arith);
  first = refl;
  test_fits = omega arith;
  arrays_fit = omega arith;
}

init_memory_lem_example :
    (r : Initialised) × (init_memory kernel_2m [] machine ≡ ok r)
    × IsInitialised kernel_2m (stored_entries machine) 1 r
init_memory_lem_example = init_memory_lem kernel_2m [] machine 1 8 kernel_2m-IsBootable

-- Pages 1 and 2 are the kernel's, and the arrays lie in the first of them.
arrays_in_page_1 :
    let l = place_arrays kernel_2m 128 2 in
    (l.bitmap_addr ≡ 0xFFFF800000200000)
    × (l.struct_end ≤ 0xFFFF800000400000)
    × (is_kernel_page l 0 ≡ false)
    × (is_kernel_page l 1 ≡ true)
    × (is_kernel_page l 2 ≡ true)
    × (is_kernel_page l 3 ≡ false)
unfolding place_arrays is_kernel_page
arrays_in_page_1 = (refl, omega arith, refl, refl, refl, refl)

-- One zone below 16 MB, and one from there on.
machine_zones :
    zones_from machine
    ≡ record { kind = dma; first = 1; last = 8 }
      ∷ record { kind = normal; first = 8; last = 128 }
      ∷ []
unfolding zones_from spans_of
machine_zones = refl

place_arrays-IsDisjoint_example : IsDisjoint machine_end 128 2 (place_arrays machine_end 128 2)
place_arrays-IsDisjoint_example =
    place_arrays-IsDisjoint machine_end 128 2 (omega arith) (omega arith) (omega arith)
