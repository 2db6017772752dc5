-- ===== src/Interrupt/Trap.antt =====
-- The way of an exception: the stub of kernel/trap_entry.S pushes the registers, and
-- `dispatch_exception` of kernel/trap.c reads them as a `struct register_frame` and calls a handler.
use knos.Base.{
  ℕ, ◌+◌, ◌*◌, ◌/◌, ◌%◌, ◌^◌, Option, none, some, List, [], ◌∷◌, get_elem?, ltb, if◌then◌else◌,
}
use knos.Interrupt.{
  Entry, ignore_interrupt, divide_error, debug, nmi, breakpoint, overflow, bound_range,
  invalid_opcode, device_not_available, double_fault, invalid_tss, segment_not_present,
  stack_segment, general_protection, page_fault, x87_fpu_error, alignment_check, machine_check,
  simd_exception, virtualization,
}

-- The registers that the stub saves.
pub record Registers : Type 0 where
  pub rax : ℕ
  pub rbx : ℕ
  pub rcx : ℕ
  pub rdx : ℕ
  pub rbp : ℕ
  pub rsi : ℕ
  pub rdi : ℕ
  pub r8 : ℕ
  pub r9 : ℕ
  pub r10 : ℕ
  pub r11 : ℕ
  pub r12 : ℕ
  pub r13 : ℕ
  pub r14 : ℕ
  pub r15 : ℕ
  pub ds : ℕ
  pub es : ℕ

-- `movw %seg, %ax` replaces the low 16 bits of rax.
abbrev pub with_segment : ℕ → ℕ → ℕ
with_segment rax seg = rax / 2 ^ 16 * 2 ^ 16 + seg

-- The pushes of `common_exception_stub`. The head of the list is the top of the stack.
unfoldable pub save_registers : Registers → List ℕ → List ℕ
save_registers r stack =
    with_segment r.rax r.es
    ∷ with_segment r.rax r.ds
    ∷ r.r15
    ∷ r.r14
    ∷ r.r13
    ∷ r.r12
    ∷ r.r11
    ∷ r.r10
    ∷ r.r9
    ∷ r.r8
    ∷ r.rdi
    ∷ r.rsi
    ∷ r.rbp
    ∷ r.rdx
    ∷ r.rcx
    ∷ r.rbx
    ∷ r.rax
    ∷ stack

-- The vector that an entry point pushes, and whether the processor pushed an error code before it.
-- (`ignore_interrupt` pushes none.)
unfoldable pub pushed_vector : Entry → Option ℕ
pushed_vector ignore_interrupt = none
pushed_vector divide_error = some 0
pushed_vector debug = some 1
pushed_vector nmi = some 2
pushed_vector breakpoint = some 3
pushed_vector overflow = some 4
pushed_vector bound_range = some 5
pushed_vector invalid_opcode = some 6
pushed_vector device_not_available = some 7
pushed_vector double_fault = some 8
pushed_vector invalid_tss = some 10
pushed_vector segment_not_present = some 11
pushed_vector stack_segment = some 12
pushed_vector general_protection = some 13
pushed_vector page_fault = some 14
pushed_vector x87_fpu_error = some 16
pushed_vector alignment_check = some 17
pushed_vector machine_check = some 18
pushed_vector simd_exception = some 19
pushed_vector virtualization = some 20

-- The fields of `struct register_frame` that the code reads, by their places in the structure. `none`
-- is a read beyond the stack.
unfoldable pub frame_r15 : List ℕ → Option ℕ
frame_r15 frame = get_elem? frame 0

unfoldable pub frame_vector : List ℕ → Option ℕ
frame_vector frame = get_elem? frame 17

unfoldable pub frame_error_code : List ℕ → Option ℕ
frame_error_code frame = get_elem? frame 18

unfoldable pub frame_rip : List ℕ → Option ℕ
frame_rip frame = get_elem? frame 19

-- The handlers of kernel/trap.c.
pub data Handler : Type 0 where
  divide_error_handler debug_handler nmi_handler breakpoint_handler : Handler
  overflow_handler bound_range_exceeded_handler invalid_opcode_handler : Handler
  device_not_available_handler double_fault_handler reserved_exception_handler : Handler
  invalid_tss_handler segment_not_present_handler stack_segment_fault_handler : Handler
  general_protection_handler page_fault_handler x87_fp_exception_handler : Handler
  alignment_check_handler machine_check_handler simd_fp_exception_handler : Handler
  virtualization_exception_handler : Handler

-- `exception_handlers`: the initialised slots of the array of 32; the others are NULL.
abbrev pub handler_slots : List Handler
handler_slots =
    divide_error_handler ∷ debug_handler ∷ nmi_handler ∷ breakpoint_handler ∷ overflow_handler
    ∷ bound_range_exceeded_handler ∷ invalid_opcode_handler ∷ device_not_available_handler
    ∷ double_fault_handler ∷ reserved_exception_handler ∷ invalid_tss_handler
    ∷ segment_not_present_handler ∷ stack_segment_fault_handler ∷ general_protection_handler
    ∷ page_fault_handler ∷ reserved_exception_handler ∷ x87_fp_exception_handler
    ∷ alignment_check_handler ∷ machine_check_handler ∷ simd_fp_exception_handler
    ∷ virtualization_exception_handler ∷ []

-- What `dispatch_exception` does with a vector: it calls a handler, or reports the vector.
pub data Dispatched : Type 0 where
  called : Handler → Dispatched
  unhandled : ℕ → Dispatched

call_slot : ℕ → Option Handler → Dispatched
call_slot vector none = unhandled vector
call_slot vector (some h) = called h

-- `frame->vector` is cut to a uint8_t.
unfoldable pub dispatch_exception : ℕ → Dispatched
unfolding call_slot
dispatch_exception frame_vector =
    let vector = frame_vector % 2 ^ 8 in
    if ltb vector 32 then call_slot vector (get_elem? handler_slots vector) else unhandled vector
