-- ===== src/Lib.antt =====
-- The kernel of KNOS: its page allocator, its interrupt and TSS tables, its printing, and its start.
--
-- Parts. `kernel/memory.c` builds the memory manager from the firmware's memory map and hands out 2 MB
-- page frames from zones; `kernel/idt.c`, `kernel/trap_entry.S`, `kernel/trap.h` and `kernel/trap.c`
-- lead an exception to its handler and back; `kernel/printk.c` formats text and draws it, with the
-- glyphs of `kernel/font.h`, on the screen that `kernel/vbe.c` sets up; `kernel/gdt.c` describes the
-- task state segment to the processor; `kernel/cpu.h` and `kernel/lib.h` hold what they share. The
-- allocator warns by `warnk`, and the handlers report by `fatalk`, both of which end in
-- `vcolor_printk`. `kernel/main.c` calls the parts in turn.
--
-- Files.
--   Base              tests, lists, results, machine words, signed integers, binary digits
--   Memory            the structures of kernel/memory.h. A pointer into the frame or the zone array is
--                     an index, NULL is `none`; page.count and zone.count are lengths of lists.
--   Memory/Bitmap     one bit for each frame, as alloc_pages and free_pages set and clear it
--   Memory/Frame      page_init
--   Memory/Search     the search of alloc_pages for free pages (kernel/memory.c, from line 410)
--   Memory/Alloc      alloc_pages
--   Memory/Free       free_pages
--   Memory/Lifecycle  both together
--   Memory/E820       init_memory as far as the zones: totals, reserved bits, frames
--   Memory/Init       init_memory from the zones on and as a whole
--   Memory/Session    the calls behind init_memory, in any order
--   Memory/Blocks     a client that holds blocks of pages
--   Boot              Start_Kernel (kernel/main.c) from init_memory on, without its lines
--   Boot/Kernel       Start_Kernel as a whole;  Boot/Lines  the lines that it prints
--   Boot/Picture      its test picture
--   Boot/Script       lists of calls of the printing functions
--   Interrupt         the entry points
--   Interrupt/Idt     set_gate and setup_idt
--   Interrupt/Trap    the pushes of kernel/trap_entry.S, struct register_frame, dispatch_exception
--   Interrupt/Route   the way from a vector to its handler
--   Interrupt/Handlers  the handlers of kernel/trap.c
--   Interrupt/Assembly  the instructions of the assembly around them, as a stack machine
--   Interrupt/Stub    the entry points, common_exception_stub and ignore_interrupt as its programs
--   Printk/Buffer     writing to a buffer through str and end
--   Printk/Number     number
--   Printk/Format     flags, width, precision and qualifier of a conversion
--   Printk/Vsnprintf  vsnprintf; its module Demand reads off a format what it asks of a call
--   Printk/Font       font_ascii (kernel/font.h)
--   Printk/Console    put_color_char, vcolor_printk and the log functions
--   Vbe               init_vbe_info (kernel/vbe.c)
--   Tss               setup_tss64 (kernel/gdt.c);  Tss/Descriptor  what the processor reads from it
--   Routines          memcpy, memset and strlen (kernel/lib.h), by their instructions
--   Cpu               cpu_name and cpu_physical_cores (kernel/cpu.h)
--
-- Conventions. A uint64_t is a natural number with its wrap-around written out; an int32_t of printk
-- is an integer. `Result` says how code ends: with a value, by a fault (what C leaves undefined, such
-- as an access outside an array), in an endless loop, or without enough fuel. Warnings and TLB
-- flushes of the allocator are events in a trace. The screen is the list of the pixels written, the
-- latest first. The stack of the assembly is the list of its words from rsp on.
--
-- Bounds and fuel. The search for pages has 64 rounds for each word of the bitmap and one more; each
-- round moves on by at least one page. The digits of a number have 72 places, as `tmp` in the source;
-- 64 would do for base 2. vsnprintf has a round for each character of the format, and each round
-- takes at least one off it. The loop over the subleaves of cpuid takes its fuel as an argument.
--
-- Not modelled. The lines that kernel/memory.c only logs; the field GMM_struct; the overflow of the
-- cursor's int32_t, which a screen does not reach; the port instructions and do_div; kernel/list.h,
-- which is empty; the declarations of kernel/gate.h and kernel/gdt.h, with load_TR and Get_gdt, whose
-- one instruction each is part of setup_tss64 and of the arguments of init_memory; the assembly of
-- kernel/head.S; the boot loader. Parameters are the link-time addresses of the entry points, of the
-- tables and of the kernel's end, the strings in memory, what the processor pushes for an exception,
-- the registers as C code leaves them, cpuid, cr2, mxcsr, and the bytes of an instruction.
mod Base
pub mod Memory
pub mod Interrupt
pub mod Printk
pub mod Tss
pub mod Boot
pub mod Routines
pub mod Cpu
pub mod Vbe
