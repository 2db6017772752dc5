-- ===== src/Boot/Kernel.antt =====
-- `Start_Kernel` of kernel/main.c as a whole, up to its loop of `hlt`.
pub mod Prints
pub mod Runs
pub mod Start
use knos.Base.{
  ℕ, ◌+◌, ◌/◌, Option, none, some, List, [], Result, ok, ◌>>=◌, in_range, get_elem?, if◌then◌else◌,
}
use knos.Printk.Number.{codes}
use knos.Printk.Console.{Geometry, Console, white}
use knos.Interrupt.Idt.{IdtState, setup_idt}
use knos.Tss.{GdtState, setup_tss64}
use knos.Cpu.{cpu_physical_cores}
use knos.Vbe.{init_vbe_info}
use knos.Memory.{Manager, normal}
use knos.Memory.Alloc.{alloc_pages}
use knos.Memory.Free.{free_pages}
use knos.Memory.Init.{init_memory}
use knos.Boot.{test_pages, test_flags}
use knos.Boot.Picture.{draw_picture}
use knos.Boot.Script.{logk_call, color_printk_call, say, say_all}
use knos.Boot.Lines.{
  Setting, blue, green, dark_green, first_tests, big_number, special_tests, count_steps, last_tests,
  vbe_lines, idt_lines, tss_lines, gdt_lines, reaches_next, allocated_lines, word_lines,
  frame_lines,
}

-- The tables and the memory, as `Start_Kernel` leaves them.
pub record Kernel : Type 0 where
  pub console : Console
  pub idt : IdtState
  pub gdt : GdtState
  pub manager : Manager

-- The next word of the bitmap is read only if the run reaches it.
abbrev pub next_word : ℕ → ℕ → List ℕ → Result ℕ
next_word bitmap_word pfn bitmap =
    let next = in_range (get_elem? bitmap (bitmap_word + 1)) in
    if reaches_next pfn then next else ok 0

-- The console when the picture is drawn.
abbrev pub with_picture : Console → Console
with_picture s = record s { pixels = draw_picture s.pixels }

module _ (font : ℕ → ℕ → ℕ) (string_at : ℕ → List ℕ) where
  module _ (g : Geometry) where
    unfoldable pub test_printk_function : Setting → Console → Result Console
    test_printk_function m s = say_all font g string_at (first_tests m) s >>= λ s.
        say font g string_at big_number s >>= λ s.
        say_all font g string_at (special_tests m) s >>= λ s.
        say_all font g string_at (count_steps 10 0) s >>= λ s.
        cpu_physical_cores m.cpuid m.cpuid_count m.level_fuel >>= λ cores.
        say_all font g string_at (last_tests m cores) s

    unfoldable pub show_allocated : Option ℕ → Manager → Console → Result Console
    show_allocated none h s =
        say font g string_at (logk_call (codes "Page allocation failed!\n") []) s
    show_allocated (some page) h s = in_range (get_elem? h.pages page) >>= λ p.
        in_range (get_elem? h.bitmap (p.pfn / 64)) >>= λ word.
        in_range (get_elem? h.bitmap (p.pfn / 64 + 1)) >>= λ next.
        say_all font g string_at (allocated_lines p.pfn word next) s

    unfoldable pub release_pages : Option ℕ → Manager → Console → Result (Console × Manager)
    release_pages none h s = ok (s, h)
    release_pages (some page) h s = in_range (get_elem? h.pages page) >>= λ p.
        let bitmap_word = p.pfn / 64 in
        in_range (get_elem? h.bitmap bitmap_word) >>= λ word.
        next_word bitmap_word p.pfn h.bitmap >>= λ next.
        say_all font g string_at
          (word_lines blue (codes "Before freeing - bitmap[%lu]: %#018lx\n") bitmap_word p.pfn word
            next)
          s
        >>= λ s. free_pages h (some page) test_pages >>= λ k.
            in_range (get_elem? k.pages page) >>= λ q.
            in_range (get_elem? k.bitmap bitmap_word) >>= λ word.
            next_word bitmap_word q.pfn k.bitmap >>= λ next.
            say_all font g string_at
              (word_lines green (codes "After freeing - bitmap[%lu]: %#018lx\n") bitmap_word q.pfn
                word next)
              s
            >>= λ s. in_range (get_elem? k.pages q.pfn) >>= λ check_page.
                say_all font g string_at (frame_lines check_page) s >>= λ s. ok (s, k)

    unfoldable pub test_memory : Manager → Console → Result (Console × Manager)
    test_memory h s =
        say font g string_at
          (logk_call (codes "Attempting to allocate 64 pages from ZONE_NORMAL\n") []) s
        >>= λ s. alloc_pages h normal test_pages test_flags >>= λ r.
            show_allocated r.0 r.1 s >>= λ s.
            say font g string_at (logk_call (codes "\nTesting page deallocation...\n") []) s
            >>= λ s. release_pages r.0 r.1 s

    -- `setup_tss64` with its lines.
    unfoldable pub show_tss64 : ℕ → GdtState → Console → Result (Console × GdtState)
    show_tss64 base gdt s = say_all font g string_at (tss_lines base) s >>= λ s.
        setup_tss64 base gdt >>= λ gdt. in_range (get_elem? gdt.gdt 8) >>= λ low.
        in_range (get_elem? gdt.gdt 9) >>= λ high.
        say_all font g string_at (gdt_lines low high) s >>= λ s. ok (s, gdt)

    -- What `Start_Kernel` does behind `init_vbe_info` and the picture. The lines that `init_memory` and
    -- the allocator print themselves are left out.
    unfoldable pub run_kernel : Setting → IdtState → GdtState → Console → Result Kernel
    run_kernel m idt gdt s = test_printk_function m s >>= λ s.
        say_all font g string_at (vbe_lines m.vbe_info) s >>= λ s.
        say_all font g string_at idt_lines s >>= λ s. show_tss64 m.tss64_table gdt s >>= λ t.
        init_memory m.end_krnl m.pml4 m.entries >>= λ r. test_memory r.manager t.0 >>= λ u.
        say font g string_at
          (color_printk_call dark_green white (codes "Run into kernel hlt loop.\n") []) u.0
        >>= λ s. ok (record {
          console = s;
          idt = setup_idt m.entry_address m.idt_table idt;
          gdt = t.1;
          manager = u.1;
        })

  unfoldable pub start_kernel : Setting → IdtState → GdtState → Result Kernel
  start_kernel m idt gdt = init_vbe_info m.vbe_info >>= λ screen.
      run_kernel screen.geometry m idt gdt (with_picture screen.console)
