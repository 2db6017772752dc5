-- ===== src/Interrupt.antt =====
-- Interrupts: the entry points and handlers that kernel/idt.c, kernel/trap.c and
-- kernel/trap_entry.S share.
pub mod Idt
pub mod Trap
pub mod Route
pub mod Handlers
pub mod Assembly
pub mod Stub
mod Tests
use knos.Base.{ℕ}

-- The entry points: `ignore_interrupt` of kernel/trap.h and the `exception_entry_…` symbols.
pub data Entry : Type 0 where
  ignore_interrupt : Entry
  divide_error debug nmi breakpoint overflow bound_range invalid_opcode : Entry
  device_not_available double_fault invalid_tss segment_not_present stack_segment : Entry
  general_protection page_fault x87_fpu_error alignment_check machine_check : Entry
  simd_exception virtualization : Entry
