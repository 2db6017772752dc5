-- ===== src/Boot/Kernel/Start.antt =====
-- `Start_Kernel` of kernel/main.c from its first line to its loop of `hlt`.
use knos.Base.{
  ℕ, ◌*◌, ◌^◌, ◌≤◌, ◌<◌, ◌≡◌, refl, false, some, List, [], ok, arith, length, get_elem?, leb,
}
use knos.Printk.Number.{codes}
use knos.Printk.Vsnprintf.Demand.{demand, character_demand}
use knos.Printk.Vsnprintf.Strings.{AreShort}
use knos.Printk.Console.{Geometry, Console, white}
use knos.Printk.Console.Pixels.{AreInside}
use knos.Printk.Console.Frame.{IsGrid, IsInFrame}
use knos.Interrupt.Idt.{IdtState, setup_idt}
use knos.Tss.{GdtState, setup_tss64}
use knos.Tss.Descriptor.{IsTss, setup_tss64_lem}
use knos.Cpu.{cpu_physical_cores}
use knos.Cpu.Cores.{HasLevels, cpu_physical_cores_lem}
use knos.Vbe.{screen_of, init_vbe_info}
use knos.Vbe.Text.{IsUsable}
use knos.Memory.{Manager}
use knos.Memory.WellFormed.{IsWellFormed}
use knos.Memory.Init.{Initialised, stored_entries, init_memory}
use knos.Memory.Init.Correct.{IsBootable, init_memory_lem}
use knos.Boot.Picture.Colours.{draw_picture-AreInside}
use knos.Boot.Script.{color_printk_call, say, say_all}
use knos.Boot.Lines.{Setting, vbe_lines, idt_lines, tss_lines, gdt_lines, dark_green}
use knos.Boot.Kernel.{
  Kernel, test_printk_function, show_tss64, test_memory, run_kernel, with_picture, start_kernel,
}
use knos.Boot.Kernel.Prints.{
  longest_string, say_all-Shows, say-Shows, setup_met, test_printk_function-Shows,
}
use knos.Boot.Kernel.Runs.{test_memory-Ends}

module _ (font : ℕ → ℕ → ℕ) (string_at : ℕ → List ℕ) (g : Geometry) where
  show_tss64_run :
      (base low high : ℕ) (gdt gdt' : GdtState) (s s1 s2 : Console)
      → say_all font g string_at (tss_lines base) s ≡ ok s1
      → setup_tss64 base gdt ≡ ok gdt'
      → get_elem? gdt'.gdt 8 ≡ some low
      → get_elem? gdt'.gdt 9 ≡ some high
      → say_all font g string_at (gdt_lines low high) s1 ≡ ok s2
      → show_tss64 font string_at g base gdt s ≡ ok (s2, gdt')
  unfolding show_tss64
  show_tss64_run base low high gdt gdt' s s1 s2 before set at_8 at_9 behind =
      rw (before, set, at_8, at_9, behind) refl

  run_kernel_run :
      (m : Setting) (idt : IdtState) (gdt gdt' : GdtState) (r : Initialised) (k : Manager)
      (s s1 s2 s3 s4 s5 s6 : Console)
      → test_printk_function font string_at g m s ≡ ok s1
      → say_all font g string_at (vbe_lines m.vbe_info) s1 ≡ ok s2
      → say_all font g string_at idt_lines s2 ≡ ok s3
      → show_tss64 font string_at g m.tss64_table gdt s3 ≡ ok (s4, gdt')
      → init_memory m.end_krnl m.pml4 m.entries ≡ ok r
      → test_memory font string_at g r.manager s4 ≡ ok (s5, k)
      → say font g string_at
          (color_printk_call dark_green white (codes "Run into kernel hlt loop.\n") [])
          s5
        ≡ ok s6
      → run_kernel font string_at g m idt gdt s
        ≡ ok (record {
          console = s6;
          idt = setup_idt m.entry_address m.idt_table idt;
          gdt = gdt';
          manager = k;
        })
  unfolding run_kernel
  run_kernel_run m idt gdt gdt' r k s s1 s2 s3 s4 s5 s6 tests vbe lines tss memory tried last =
      rw (tests, vbe, lines, tss, memory, tried, last) refl

-- The kernel at its loop of `hlt`: it drew nothing outside the frame buffer, set up the interrupt table
-- and the task state segment, and has a well-formed manager.
pub record IsStarted (m : Setting) (idt : IdtState) (gdt : GdtState) (k : Kernel) : Type 0 where
  pub drawn : AreInside (m.vbe_info.x_resolution * m.vbe_info.y_resolution * 4) k.console.pixels
  pub gates : k.idt ≡ setup_idt m.entry_address m.idt_table idt
  pub tss : IsTss m.tss64_table gdt k.gdt
  pub manager_well_formed : IsWellFormed k.manager

-- The processor has leaf 0x0B of cpuid, with `n` levels.
pub record IsCountable (m : Setting) (n : ℕ) : Type 0 where
  pub levels : HasLevels m.cpuid m.cpuid_count n
  pub few : n < 2 ^ 32
  pub enough : n < m.level_fuel
  pub there : 0x0B ≤ (m.cpuid 0).eax
  pub positive : (m.cpuid 0).eax < 2 ^ 31

IsCountable-counted :
    (m : Setting) (n : ℕ) (h : IsCountable m n)
    → (cores : ℕ) × (cpu_physical_cores m.cpuid m.cpuid_count m.level_fuel ≡ ok cores)
IsCountable-counted m n h =
    let (cores, package_threads, core_threads, run, of_package, of_core, some_threads, low, high) =
      cpu_physical_cores_lem m.cpuid m.cpuid_count m.level_fuel n h.levels h.few h.enough h.there
        h.positive in
    (cores, run)

module _ (font : ℕ → ℕ → ℕ) (string_at : ℕ → List ℕ) (brief : AreShort string_at longest_string)
    (m : Setting) (columns rows first last levels : ℕ) (idt : IdtState) (gdt : GdtState)
    (usable : IsUsable m.vbe_info columns rows) (countable : IsCountable m levels)
    (boot : IsBootable m.end_krnl (stored_entries m.entries) first last)
    (base_fits : m.tss64_table < 2 ^ 64) (table_fits : 10 ≤ length gdt.gdt) where
  abbrev g : Geometry
  g = (screen_of m.vbe_info).geometry

  grid : IsGrid g columns rows
  grid = record {
    width = usable.width;
    height = usable.height;
    char_width = refl;
    char_height = refl;
    some_column = usable.some_column;
    some_row = usable.some_row;
  }

  run_kernel_lem :
      (s : Console)
      → IsInFrame font g columns rows grid s
      → (k : Kernel) × (run_kernel font string_at g m idt gdt s ≡ ok k) × IsStarted m idt gdt k
  unfolding demand character_demand
  run_kernel_lem s is =
      let base = m.tss64_table in
      let (gdt', set, tss) = setup_tss64_lem base gdt base_fits table_fits in
      let (vbe_met, idt_met, tss_met, gdt_met) = setup_met m.vbe_info base tss.low tss.high in
      let (r, memory, ready) = init_memory_lem m.end_krnl m.pml4 m.entries first last boot in
      let (cores, counted) = IsCountable-counted m levels countable in
      let (s1, tests, is1) =
        test_printk_function-Shows font g columns rows grid string_at brief m _ s counted is in
      let (s2, vbe, is2) =
        say_all-Shows font g columns rows grid string_at brief (vbe_lines m.vbe_info) s1 vbe_met
          is1 in
      let (s3, lines, is3) =
        say_all-Shows font g columns rows grid string_at brief idt_lines s2 idt_met is2 in
      let (s4, before, is4) =
        say_all-Shows font g columns rows grid string_at brief (tss_lines base) s3 tss_met is3 in
      let (s5, behind, is5) =
        say_all-Shows font g columns rows grid string_at brief (gdt_lines tss.low tss.high) s4
          gdt_met is4 in
      let shown =
        show_tss64_run font string_at g base tss.low tss.high gdt gdt' s3 s4 s5 before set tss.at_8
          tss.at_9 behind in
      let (s6, k, tried, is6, wf) =
        test_memory-Ends font g columns rows grid string_at brief r.manager s5 ready.well_formed
          ready.fair ready.within is5 in
      let (s7, said, is7) = say-Shows font g columns rows grid string_at brief _ s6 refl is6 in
      (
        _,
        run_kernel_run font string_at g m idt gdt gdt' r k s s1 s2 s3 s5 s6 s7 tests vbe lines shown
            memory tried said,
        record { drawn = is7.drawn; gates = refl; tss = tss; manager_well_formed = wf },
      )

  -- With a resolution of whole characters, at least 81920 pixels and less than 2 GB, a memory map that
  -- `init_memory` can work with, levels of cpuid that end, at least ten words in the GDT, a 64-bit address of the TSS, and no
  -- string in memory of more than 2048 bytes, `Start_Kernel` comes to its loop of `hlt` without a fault
  -- and without an endless loop. It has drawn its picture and printed all of its lines inside the frame
  -- buffer, set up the interrupt gates and the descriptor of the TSS, and tried out the allocator, whose
  -- manager is well-formed then. (The lines that kernel/memory.c prints are left out.)
  pub start_kernel_lem :
      81920 ≤ m.vbe_info.x_resolution * m.vbe_info.y_resolution
      → (k : Kernel) × (start_kernel font string_at m idt gdt ≡ ok k) × IsStarted m idt gdt k
  unfolding start_kernel init_vbe_info AreInside
  start_kernel_lem room =
      let start : IsInFrame font g columns rows grid (with_picture (screen_of m.vbe_info).console) =
        record {
          column = 0;
          row = 0;
          at_x = refl;
          at_y = refl;
          column_inside = usable.some_column;
          row_inside = usable.some_row;
          drawn = draw_picture-AreInside _ _ (omega (arith, room)) (omega arith);
        } in
      let small : leb (2 ^ 31) (m.vbe_info.x_resolution * m.vbe_info.y_resolution * 4) ≡ false =
        ground (arith, usable.bounded) in
      let (k, run, started) = run_kernel_lem (with_picture (screen_of m.vbe_info).console) start in
      (k, rw small run, started)
