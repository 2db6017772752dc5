-- ===== src/Interrupt/Stub.antt =====
-- The assembly around the handlers: the entry points and `common_exception_stub` of
-- kernel/trap_entry.S, and `ignore_interrupt` of kernel/trap.h.
pub mod Round
pub mod Entries
mod Tests
use knos.Base.{ℕ, List, [], ◌∷◌}
use knos.Interrupt.{
  Entry, ignore_interrupt, divide_error, debug, nmi, breakpoint, overflow, bound_range,
  invalid_opcode, device_not_available, double_fault, invalid_tss, segment_not_present,
  stack_segment, general_protection, page_fault, x87_fpu_error, alignment_check, machine_check,
  simd_exception, virtualization,
}
use knos.Interrupt.Assembly.{
  Register, rax, rbx, rcx, rdx, rbp, rsi, rdi, r8, r9, r10, r11, r12, r13, r14, r15, ds, es,
  Instruction, cld, movq_rsp_rdi, call, addq_16_rsp, iretq, pushq, popq, pushq_imm, movw_imm,
  movq_imm, movw_from, movw_to, movq_from, movq_to,
}

-- The part of `common_exception_stub` behind its call.
abbrev pub common_restore : List Instruction
common_restore =
    popq rax
    ∷ movw_to es
    ∷ popq rax
    ∷ movw_to ds
    ∷ popq r15
    ∷ popq r14
    ∷ popq r13
    ∷ popq r12
    ∷ popq r11
    ∷ popq r10
    ∷ popq r9
    ∷ popq r8
    ∷ popq rdi
    ∷ popq rsi
    ∷ popq rbp
    ∷ popq rdx
    ∷ popq rcx
    ∷ popq rbx
    ∷ popq rax
    ∷ addq_16_rsp
    ∷ iretq
    ∷ []

unfoldable pub common_exception_stub : List Instruction
common_exception_stub =
    pushq rax
    ∷ pushq rbx
    ∷ pushq rcx
    ∷ pushq rdx
    ∷ pushq rbp
    ∷ pushq rsi
    ∷ pushq rdi
    ∷ pushq r8
    ∷ pushq r9
    ∷ pushq r10
    ∷ pushq r11
    ∷ pushq r12
    ∷ pushq r13
    ∷ pushq r14
    ∷ pushq r15
    ∷ movw_from ds
    ∷ pushq rax
    ∷ movw_from es
    ∷ pushq rax
    ∷ movw_imm 0x10
    ∷ movw_to ds
    ∷ movw_to es
    ∷ movq_rsp_rdi
    ∷ call
    ∷ common_restore

abbrev pub ignore_restore : List Instruction
ignore_restore =
    popq rax
    ∷ movq_to es
    ∷ popq rax
    ∷ movq_to ds
    ∷ popq r15
    ∷ popq r14
    ∷ popq r13
    ∷ popq r12
    ∷ popq r11
    ∷ popq r10
    ∷ popq r9
    ∷ popq r8
    ∷ popq rsi
    ∷ popq rdi
    ∷ popq rbp
    ∷ popq rdx
    ∷ popq rcx
    ∷ popq rbx
    ∷ popq rax
    ∷ iretq
    ∷ []

-- It saves rdi before rsi, and the segments by 64-bit moves.
unfoldable pub ignore_interrupt_code : List Instruction
ignore_interrupt_code =
    cld
    ∷ pushq rax
    ∷ pushq rbx
    ∷ pushq rcx
    ∷ pushq rdx
    ∷ pushq rbp
    ∷ pushq rdi
    ∷ pushq rsi
    ∷ pushq r8
    ∷ pushq r9
    ∷ pushq r10
    ∷ pushq r11
    ∷ pushq r12
    ∷ pushq r13
    ∷ pushq r14
    ∷ pushq r15
    ∷ movq_from ds
    ∷ pushq rax
    ∷ movq_from es
    ∷ pushq rax
    ∷ movq_imm 0x10
    ∷ movq_to ds
    ∷ movq_to es
    ∷ movq_rsp_rdi
    ∷ call
    ∷ ignore_restore

-- `EXCEPTION_ENTRY_NOERRCODE` and `EXCEPTION_ENTRY_ERRCODE`
unfoldable pub exception_entry_noerrcode : ℕ → List Instruction
exception_entry_noerrcode vector = pushq_imm 0 ∷ pushq_imm vector ∷ common_exception_stub

unfoldable pub exception_entry_errcode : ℕ → List Instruction
exception_entry_errcode vector = pushq_imm vector ∷ common_exception_stub

unfoldable pub entry_code : Entry → List Instruction
entry_code ignore_interrupt = ignore_interrupt_code
entry_code divide_error = exception_entry_noerrcode 0
entry_code debug = exception_entry_noerrcode 1
entry_code nmi = exception_entry_noerrcode 2
entry_code breakpoint = exception_entry_noerrcode 3
entry_code overflow = exception_entry_noerrcode 4
entry_code bound_range = exception_entry_noerrcode 5
entry_code invalid_opcode = exception_entry_noerrcode 6
entry_code device_not_available = exception_entry_noerrcode 7
entry_code double_fault = exception_entry_errcode 8
entry_code invalid_tss = exception_entry_errcode 10
entry_code segment_not_present = exception_entry_errcode 11
entry_code stack_segment = exception_entry_errcode 12
entry_code general_protection = exception_entry_errcode 13
entry_code page_fault = exception_entry_errcode 14
entry_code x87_fpu_error = exception_entry_noerrcode 16
entry_code alignment_check = exception_entry_errcode 17
entry_code machine_check = exception_entry_noerrcode 18
entry_code simd_exception = exception_entry_noerrcode 19
entry_code virtualization = exception_entry_noerrcode 20
