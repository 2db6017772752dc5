-- ===== src/Interrupt/Stub/Entries.antt =====
-- From the processor's stack to the C code and back: the entry points of kernel/trap_entry.S.
use knos.Base.{
  ℕ, ◌^◌, ◌<◌, ◌≡◌, refl, ap, sym, ◌∙◌, Bool, true, false, ◌||◌, Option, none, some, List, ◌∷◌,
  Result, ◌>>=◌, arith, leb, ◌==◌, if◌then◌else◌, ◌&&◌,
}
use mathlib.Core.Path.{subst}
use knos.Printk.Console.{Console}
use knos.Interrupt.{
  Entry, ignore_interrupt, divide_error, debug, nmi, breakpoint, overflow, bound_range,
  invalid_opcode, device_not_available, double_fault, invalid_tss, segment_not_present,
  stack_segment, general_protection, page_fault, x87_fpu_error, alignment_check, machine_check,
  simd_exception, virtualization,
}
use knos.Interrupt.Trap.{Registers, with_segment, save_registers, pushed_vector}
use knos.Interrupt.Handlers.{Ending}
use knos.Interrupt.Assembly.{Resumption, Instruction, execute, run}
use knos.Interrupt.Stub.{exception_entry_noerrcode, exception_entry_errcode, entry_code}
use knos.Interrupt.Stub.Round.{cpu_words, registers_at_call, given_back, goes_on, common_run}

-- The exceptions that come with an error code.
abbrev pub with_error_code : ℕ → Bool
with_error_code v = v == 8 || (leb 10 v && leb v 14 || v == 17)

-- The processor: which vectors it pushes an error code for. The vectors above 20 have no entry point
-- here.
pub record IsProcessor (pushes : ℕ → Bool) : Type 0 where
  pub documented : (v : ℕ) → v < 21 → pushes v ≡ with_error_code v

-- The stack that an entry point finds.
abbrev pub cpu_stack : Bool → ℕ → Resumption → List ℕ → List ℕ
cpu_stack pushes code i rest = if pushes then code ∷ cpu_words i rest else cpu_words i rest

-- The error code of the frame: the processor's, or the placeholder.
abbrev pub frame_code : Bool → ℕ → ℕ
frame_code pushes code = if pushes then code else 0

-- The code behind an entry point, by its vector.
abbrev code_for : Bool → ℕ → List Instruction
code_for pushes v = if pushes then exception_entry_errcode v else exception_entry_noerrcode v

abbrev IsCoded : Entry → Option ℕ → Type 0
IsCoded e none = e ≡ e
IsCoded e (some v) = (entry_code e ≡ code_for (with_error_code v) v) × (v < 21)

entry-IsCoded : (e : Entry) → IsCoded e (pushed_vector e)
unfolding entry_code pushed_vector
entry-IsCoded ignore_interrupt = refl
entry-IsCoded divide_error = (refl, omega arith)
entry-IsCoded debug = (refl, omega arith)
entry-IsCoded nmi = (refl, omega arith)
entry-IsCoded breakpoint = (refl, omega arith)
entry-IsCoded overflow = (refl, omega arith)
entry-IsCoded bound_range = (refl, omega arith)
entry-IsCoded invalid_opcode = (refl, omega arith)
entry-IsCoded device_not_available = (refl, omega arith)
entry-IsCoded double_fault = (refl, omega arith)
entry-IsCoded invalid_tss = (refl, omega arith)
entry-IsCoded segment_not_present = (refl, omega arith)
entry-IsCoded stack_segment = (refl, omega arith)
entry-IsCoded general_protection = (refl, omega arith)
entry-IsCoded page_fault = (refl, omega arith)
entry-IsCoded x87_fpu_error = (refl, omega arith)
entry-IsCoded alignment_check = (refl, omega arith)
entry-IsCoded machine_check = (refl, omega arith)
entry-IsCoded simd_exception = (refl, omega arith)
entry-IsCoded virtualization = (refl, omega arith)

module _ (stack_end : ℕ) (callee : List ℕ → Console → Result (Console × Ending))
    (left_by_callee : Registers → Registers) where
  code_run :
      (pushes : Bool) (v code : ℕ) (r : Registers) (s : Console) (i : Resumption) (rest : List ℕ)
      → r.ds < 2 ^ 16
      → r.es < 2 ^ 16
      → let frame = save_registers r (v ∷ frame_code pushes code ∷ cpu_words i rest) in
        run stack_end callee left_by_callee (code_for pushes v) (record {
          registers = r;
          stack = cpu_stack pushes code i rest;
          console = s;
          resumed = none;
        })
        ≡ (callee frame s >>= λ q.
            goes_on
              (given_back r i rest)
              (registers_at_call stack_end r
                (with_segment (with_segment r.rax r.es) 0x10)
                0x10
                frame)
              frame
              q.0
              q.1)
  unfolding run execute exception_entry_errcode exception_entry_noerrcode
  code_run true v code r s i rest ds_small es_small =
      common_run stack_end callee left_by_callee r s i rest v code ds_small es_small
  code_run false v code r s i rest ds_small es_small =
      common_run stack_end callee left_by_callee r s i rest v 0 ds_small es_small

  -- On a processor that pushes error codes as documented, the entry point of a vector, found with
  -- any general registers and with selectors of 16 bits, calls the C code once, with a frame of
  -- the saved registers, the vector, and the processor's error code, or 0 where it pushes none;
  -- es and ds are then 0x10. If the C code returns, whatever it leaves in the registers, the
  -- assembly ends in `iretq` with all registers and the stack as they were when the exception
  -- came, and with the processor's rip, cs, rflags, rsp and ss.
  pub entry_round :
      (pushes : ℕ → Bool) (e : Entry) (v code : ℕ) (r : Registers) (s : Console) (i : Resumption)
      (rest : List ℕ)
      → IsProcessor pushes
      → pushed_vector e ≡ some v
      → r.ds < 2 ^ 16
      → r.es < 2 ^ 16
      → let frame = save_registers r (v ∷ frame_code (pushes v) code ∷ cpu_words i rest) in
        run stack_end callee left_by_callee (entry_code e) (record {
          registers = r;
          stack = cpu_stack (pushes v) code i rest;
          console = s;
          resumed = none;
        })
        ≡ (callee frame s >>= λ q.
            goes_on
              (given_back r i rest)
              (registers_at_call stack_end r
                (with_segment (with_segment r.rax r.es) 0x10)
                0x10
                frame)
              frame
              q.0
              q.1)
  entry_round pushes e v code r s i rest processor own ds_small es_small =
      let coded = subst (IsCoded e) own (entry-IsCoded e) in
      let same : code_for (pushes v) v ≡ code_for (with_error_code v) v =
        ap (λ b. code_for b v) (processor.documented v coded.1) in
      ap
        (λ c. run stack_end callee left_by_callee c (record {
          registers = r;
          stack = cpu_stack (pushes v) code i rest;
          console = s;
          resumed = none;
        }))
        (coded.0 ∙ sym same)
      ∙ code_run (pushes v) v code r s i rest ds_small es_small
