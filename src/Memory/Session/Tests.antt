-- ===== src/Memory/Session/Tests.antt =====
-- A session of two calls on a machine with 32 MB.
use knos.Base.{ℕ, ◌≡◌, refl, Option, some, List, [], ◌∷◌, Result, ok, fault, halted, no_fuel, arith}
use knos.Memory.{Manager, normal, page_kernel}
use knos.Memory.WellFormed.{IsWellFormed}
use knos.Memory.Bitmap.{set_bit, clear_bit}
use knos.Memory.Frame.{page_init}
use knos.Memory.Search.{search, probe, probe_word}
use knos.Memory.Alloc.{alloc_pages, mark, charge}
use knos.Memory.Free.{free_pages, free_loop, free_frame}
use knos.Memory.E820.{
  E820Entry, prepare, no_totals, count_entries, count_entry, count_usable, mark_run, reserve_entry,
  reserve_entries, new_pages,
}
use knos.Memory.E820.Reserved.{AreNamed, top_pfn}
use knos.Memory.Init.{
  stored_entries, Initialised, init_memory, own_frames, add_zone, zones_of, entry_zones,
  build_zones, claim_page_0, test_bit, charge_zone, take_kernel_page, take_kernel_pages,
  clear_entries, settle,
}
use knos.Memory.Init.Layout.{place_arrays, kernel_start, kernel_end}
use knos.Memory.Init.Build.{has_pages, first_zone, count_zones, AreAscending}
use knos.Memory.Init.Correct.{IsBootable}
use knos.Memory.Session.{allocated, freed, start, more, reached-IsWellFormed}

abbrev machine : List E820Entry
machine =
    record {
      base_addr_low = 0x100000;
      base_addr_high = 0;
      length_low = 0x1F00000;
      length_high = 0;
      entry_type = 1;
    }
    ∷ []

abbrev machine_end : ℕ
machine_end = 0xFFFF800000110000

machine-IsBootable : IsBootable machine_end (stored_entries machine) 1 8
unfolding AreNamed AreAscending first_zone has_pages top_pfn count_zones place_arrays kernel_end
    stored_entries
machine-IsBootable = record {
  named = (omega arith, omega arith);
  ascending = (omega arith, omega arith);
  first = refl;
  test_fits = omega arith;
  arrays_fit = omega arith;
}

abbrev idle : Manager
idle = record { bitmap = []; pages = []; zones = []; free_2m_pages = 0; trace = [] }

abbrev nothing : Initialised
nothing = record { totals = no_totals; manager = idle; layout = place_arrays 0 0 0; pml4 = [] }

-- The machine behind `init_memory`, and behind an allocation of two pages.
abbrev initialised : Result Initialised → Initialised
initialised (ok r) = r
initialised fault = nothing
initialised halted = nothing
initialised no_fuel = nothing

abbrev booted : Initialised
booted = initialised (init_memory machine_end [] machine)

boot_run : init_memory machine_end [] machine ≡ ok booted
unfolding new_pages prepare count_entries count_entry count_usable mark_run reserve_entry
    reserve_entries init_memory stored_entries own_frames add_zone zones_of entry_zones build_zones
    claim_page_0 test_bit charge_zone take_kernel_page take_kernel_pages clear_entries settle
    place_arrays kernel_start kernel_end set_bit clear_bit
boot_run = refl

abbrev allocation : Result (Option ℕ × Manager) → Manager
allocation (ok r) = r.1
allocation fault = idle
allocation halted = idle
allocation no_fuel = idle

abbrev two_taken : Manager
two_taken = allocation (alloc_pages booted.manager normal 2 page_kernel)

abbrev return : Result Manager → Manager
return (ok g) = g
return fault = idle
return halted = idle
return no_fuel = idle

abbrev both_back : Manager
both_back = return (free_pages two_taken (some 8) 2)

two_run : alloc_pages booted.manager normal 2 page_kernel ≡ ok (some 8, two_taken)
unfolding new_pages prepare count_entries count_entry count_usable mark_run reserve_entry
    reserve_entries init_memory stored_entries own_frames add_zone zones_of entry_zones build_zones
    claim_page_0 test_bit charge_zone take_kernel_page take_kernel_pages clear_entries settle
    place_arrays kernel_start kernel_end set_bit clear_bit alloc_pages search probe probe_word mark
    charge page_init free_pages free_loop free_frame
two_run = refl

back_run : free_pages two_taken (some 8) 2 ≡ ok both_back
unfolding new_pages prepare count_entries count_entry count_usable mark_run reserve_entry
    reserve_entries init_memory stored_entries own_frames add_zone zones_of entry_zones build_zones
    claim_page_0 test_bit charge_zone take_kernel_page take_kernel_pages clear_entries settle
    place_arrays kernel_start kernel_end set_bit clear_bit alloc_pages search probe probe_word mark
    charge page_init free_pages free_loop free_frame
back_run = refl

reached-IsWellFormed_example : IsWellFormed both_back
reached-IsWellFormed_example =
    reached-IsWellFormed machine_end [] machine 1 8 booted both_back machine-IsBootable boot_run (
      more (more start (allocated normal 2 page_kernel (some 8) two_run))
        (freed (some 8) 2 back_run))
