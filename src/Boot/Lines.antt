-- ===== src/Boot/Lines.antt =====
-- The lines that `Start_Kernel` of kernel/main.c, and the functions that it calls, print: formats and
-- arguments.
use knos.Base.{Bool, ℕ, zero, suc, ◌+◌, ◌/◌, ◌%◌, List, [], ◌∷◌, ltb, if◌then◌else◌}
use knos.Printk.Number.{codes}
use knos.Printk.Console.{black, red}
use knos.Interrupt.{Entry}
use knos.Tss.{base_low, base_mid, base_high, descriptor_high}
use knos.Cpu.{Answer}
use knos.Vbe.{VbeInfo}
use knos.Memory.{Page}
use knos.Memory.E820.{E820Entry}
use knos.Boot.Script.{
  Call, printk_call, logk_call, warnk_call, errk_call, fatalk_call, color_printk_call,
}

abbrev pub blue : ℕ
blue = 0xFF0000FF

abbrev pub green : ℕ
green = 0xFF00FF00

abbrev pub dark_green : ℕ
dark_green = 0xFF008000

-- The addresses that the link gives, and what is in memory behind the boot loader. `hello_string`,
-- `test_string` and `cpu_name_str` are the addresses of the strings that are printed. `level_fuel` is for
-- the loop of `cpu_physical_cores`.
pub record Setting : Type 0 where
  pub entry_address : Entry → ℕ
  pub idt_table : ℕ
  pub tss64_table : ℕ
  pub end_krnl : ℕ
  pub pml4 : List ℕ
  pub entries : List E820Entry
  pub vbe_info : VbeInfo
  pub hello_string : ℕ
  pub test_string : ℕ
  pub cpu_name_str : ℕ
  pub cpuid : ℕ → Answer
  pub cpuid_count : ℕ → ℕ → Answer
  pub level_fuel : ℕ

-- `Test_Printk_Function`, up to the long number.
abbrev pub first_tests : Setting → List Call
first_tests m =
    printk_call (codes "Hello, world!\n") []
    ∷ printk_call (codes "Welcome KNOS!\n") []
    ∷ printk_call (codes "Year: %d\n") (2023 ∷ [])
    ∷ printk_call (codes "Hex value: 0x%x\n") (0x1A3F ∷ [])
    ∷ printk_call (codes "Mix test: %d, %x, %s, %c\n") (12345 ∷ 0xABCD ∷ m.hello_string ∷ b'A' ∷ [])
    ∷ printk_call (codes "First part. ") []
    ∷ printk_call (codes "Second part.") []
    ∷ printk_call (codes "\n") []
    ∷ []

abbrev pub big_number : Call
big_number = printk_call (codes "Big number: %lld\n") (12345678901234567 ∷ [])

abbrev pub special_tests : Setting → List Call
special_tests m =
    printk_call (codes "Special chars: tab\\t, quote\\\", backslash\\\\\n") []
    ∷ printk_call (codes "%5d | %-8s | 0x%04x\n") (42 ∷ m.test_string ∷ 0xAB ∷ [])
    ∷ printk_call (codes "Counting start:\n") []
    ∷ []

-- The rounds `i`, `i + 1`, … of the loop.
unfoldable pub count_steps : ℕ → ℕ → List Call
count_steps zero i = []
count_steps (suc left) i = printk_call (codes " - Step %d\n") (i ∷ []) ∷ count_steps left (i + 1)

abbrev pub last_tests : Setting → ℕ → List Call
last_tests m cores =
    printk_call (codes "CPU name: %s, Cores: %d\n") (m.cpu_name_str ∷ cores ∷ [])
    ∷ logk_call (codes "log message: %d\n") (1 ∷ [])
    ∷ warnk_call (codes "warning message: %d\n") (2 ∷ [])
    ∷ errk_call (codes "error message: %d\n") (3 ∷ [])
    ∷ fatalk_call (codes "system down: %d\n") (4 ∷ [])
    ∷ []

-- The lines on the VBE structure.
abbrev pub vbe_lines : VbeInfo → List Call
vbe_lines info =
    printk_call (codes "vbe_info:\n") []
    ∷ printk_call (codes "ModeAttributes: %#x\n") (info.mode_attributes ∷ [])
    ∷ printk_call (codes "XResolution: %d\n") (info.x_resolution ∷ [])
    ∷ printk_call (codes "YResolution: %d\n") (info.y_resolution ∷ [])
    ∷ printk_call (codes "BitsPerPixel: %d\n") (info.bits_per_pixel ∷ [])
    ∷ printk_call (codes "PhysBasePtr: %#x\n") (info.phys_base_ptr ∷ [])
    ∷ printk_call (codes "MaxPixelClock(VBE3.0, Not necessarily supported): %d\n")
        (info.max_pixel_clock ∷ [])
    ∷ []

abbrev pub idt_lines : List Call
idt_lines =
    logk_call (codes "Start setup IDT...\n") [] ∷ logk_call (codes "IDT setup done!\n") [] ∷ []

-- The lines of `setup_tss64` before and behind its writes; the latter read the table again.
abbrev pub tss_lines : ℕ → List Call
tss_lines base =
    logk_call (codes "Start setup TSS64...\n") []
    ∷ printk_call (codes "base: %#016llx\n") (base ∷ [])
    ∷ printk_call (codes "[TSS] base address:\n") []
    ∷ printk_call (codes "BaseLow:  0x%04x\n") (base_low base ∷ [])
    ∷ printk_call (codes "BaseMid:  0x%02x\n") (base_mid base ∷ [])
    ∷ printk_call (codes "BaseHigh: 0x%02x\n") (base_high base ∷ [])
    ∷ printk_call (codes "BaseUpper32: 0x%08x\n") (descriptor_high base ∷ [])
    ∷ []

abbrev pub gdt_lines : ℕ → ℕ → List Call
gdt_lines low high =
    printk_call (codes "gdt8: 0x%016llx\n") (low ∷ [])
    ∷ printk_call (codes "gdt9: 0x%016llx\n") (high ∷ [])
    ∷ logk_call (codes "TSS64 setup done!\n") []
    ∷ []

-- Whether a run of 64 pages that starts there reaches the next word: `pfn % 64 + 64 > 64`.
abbrev pub reaches_next : ℕ → Bool
reaches_next pfn = ltb 64 (pfn % 64 + 64)

-- Behind the allocation: a frame with its word of the bitmap and the next. The last line is for a frame
-- that is not the first of its word.
abbrev pub allocated_lines : ℕ → ℕ → ℕ → List Call
allocated_lines pfn word next =
    logk_call (codes "Pages allocated successfully, starting at PFN: %lu\n") (pfn ∷ [])
    ∷ color_printk_call red black (codes "Page PFN: %lu corresponds to bitmap[%lu], bit %lu\n")
        (pfn ∷ pfn / 64 ∷ pfn % 64 ∷ [])
    ∷ color_printk_call red black (codes "After allocation bitmap[%lu]:%#018lx\n")
        (pfn / 64 ∷ word ∷ [])
    ∷ color_printk_call red black (codes "After allocation bitmap[%lu]:%#018lx\n")
        ((pfn / 64 + 1) ∷ next ∷ [])
    ∷ (if reaches_next pfn
        then (color_printk_call red black (codes "After allocation bitmap[%lu]:%#018lx\n")
              ((pfn / 64 + 1) ∷ next ∷ [])
            ∷ [])
        else [])

-- A word of the bitmap, and the next one if the run reaches it.
abbrev pub word_lines : ℕ → List ℕ → ℕ → ℕ → ℕ → ℕ → List Call
word_lines color fmt bitmap_word pfn word next =
    color_printk_call color black fmt (bitmap_word ∷ word ∷ [])
    ∷ (if reaches_next pfn
        then (color_printk_call color black fmt ((bitmap_word + 1) ∷ next ∷ []) ∷ [])
        else [])

abbrev pub frame_lines : Page → List Call
frame_lines p =
    color_printk_call red black (codes "First page flags after free: %#x\n") (p.flags ∷ [])
    ∷ color_printk_call red black (codes "First page ref_count after free: %d\n") (p.ref_count ∷ [])
    ∷ []
