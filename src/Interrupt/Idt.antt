-- ===== src/Interrupt/Idt.antt =====
-- The interrupt descriptor table of kernel/idt.h and kernel/idt.c.
pub mod Laws
use knos.Base.{
  ℕ, zero, suc, ◌+◌, ◌-◌, ◌*◌, ◌^◌, Bool, true, false, List, [], ◌∷◌, bit_and, length, get_elem?,
  set,
}
use knos.Base.Word.{shr}
use knos.Interrupt.{
  Entry, ignore_interrupt, divide_error, debug, nmi, breakpoint, overflow, bound_range,
  invalid_opcode, device_not_available, double_fault, invalid_tss, segment_not_present,
  stack_segment, general_protection, page_fault, x87_fpu_error, alignment_check, machine_check,
  simd_exception, virtualization,
}

-- `IDTEntry`.
pub record IdtEntry : Type 0 where
  pub offset_low : ℕ
  pub selector : ℕ
  pub ist : ℕ
  pub type_attr : ℕ
  pub offset_mid : ℕ
  pub offset_high : ℕ
  pub reserved : ℕ

abbrev pub idt_entries : ℕ
idt_entries = 256

abbrev pub gate_type_interrupt : ℕ
gate_type_interrupt = 0x8E

abbrev pub gate_type_trap : ℕ
gate_type_trap = 0x8F

-- The entry that `set_gate` stores.
unfoldable pub gate : ℕ → ℕ → ℕ → ℕ → IdtEntry
gate addr selector type_attr ist = record {
  offset_low = bit_and addr 0xFFFF;
  selector = selector;
  ist = bit_and ist 0x07;
  type_attr = type_attr;
  offset_mid = bit_and (shr addr 16) 0xFFFF;
  offset_high = bit_and (shr addr 32) 0xFFFFFFFF;
  reserved = 0;
}

unfoldable pub set_gate : List IdtEntry → ℕ → ℕ → ℕ → ℕ → ℕ → List IdtEntry
set_gate table vector addr selector type_attr ist =
    set table vector (gate addr selector type_attr ist)

-- One call of `set_gate` in `setup_idt`; the selector is always 0x08.
pub record GateCall : Type 0 where
  pub vector : ℕ
  pub entry : Entry
  pub type_attr : ℕ
  pub ist : ℕ

abbrev interrupt_gate : ℕ → Entry → ℕ → GateCall
interrupt_gate v e ist = record {
  vector = v;
  entry = e;
  type_attr = gate_type_interrupt;
  ist = ist;
}

abbrev trap_gate : ℕ → Entry → GateCall
trap_gate v e = record { vector = v; entry = e; type_attr = gate_type_trap; ist = 0 }

-- The calls that install the exceptions, in order.
abbrev pub exception_gates : List GateCall
exception_gates =
    interrupt_gate 0 divide_error 0
    ∷ trap_gate 1 debug
    ∷ interrupt_gate 2 nmi 1
    ∷ trap_gate 3 breakpoint
    ∷ trap_gate 4 overflow
    ∷ interrupt_gate 5 bound_range 0
    ∷ interrupt_gate 6 invalid_opcode 0
    ∷ interrupt_gate 7 device_not_available 0
    ∷ interrupt_gate 8 double_fault 2
    ∷ interrupt_gate 10 invalid_tss 0
    ∷ interrupt_gate 11 segment_not_present 0
    ∷ interrupt_gate 12 stack_segment 0
    ∷ interrupt_gate 13 general_protection 0
    ∷ interrupt_gate 14 page_fault 0
    ∷ interrupt_gate 16 x87_fpu_error 0
    ∷ interrupt_gate 17 alignment_check 0
    ∷ interrupt_gate 18 machine_check 0
    ∷ interrupt_gate 19 simd_exception 0
    ∷ interrupt_gate 20 virtualization 0
    ∷ []

-- What `setup_idt` leaves behind: the table, the limit and base given to `lidt`, the bytes written to
-- ports (the latest first), and whether interrupts are on.
pub record IdtState : Type 0 where
  pub table : List IdtEntry
  pub limit : ℕ
  pub base : ℕ
  pub port_writes : List (ℕ × ℕ)
  pub interrupts_on : Bool

-- `address` gives the link-time address of each entry point, and `table_addr` that of the table.
module _ (address : Entry → ℕ) where
  -- `for (int i = 0; i < IDT_ENTRIES; i++)` from `i`, with `left` rounds to go.
  unfoldable pub ignore_all : List IdtEntry → ℕ → ℕ → List IdtEntry
  ignore_all table zero i = table
  ignore_all table (suc left) i =
      ignore_all (set_gate table i (address ignore_interrupt) 0x08 gate_type_interrupt 0) left
        (i + 1)

  unfoldable pub install : List IdtEntry → List GateCall → List IdtEntry
  install table [] = table
  install table (c ∷ calls) =
      install (set_gate table c.vector (address c.entry) 0x08 c.type_attr c.ist) calls

  unfoldable pub setup_idt : ℕ → IdtState → IdtState
  setup_idt table_addr s = record {
    table = install (ignore_all s.table idt_entries 0) exception_gates;
    limit = 16 * idt_entries - 1;
    base = table_addr;
    port_writes = (0xA1, 0xFF) ∷ (0x21, 0xFF) ∷ s.port_writes;
    interrupts_on = true;
  }
