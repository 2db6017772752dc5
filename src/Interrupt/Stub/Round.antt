-- ===== src/Interrupt/Stub/Round.antt =====
-- The assembly of kernel/trap_entry.S and kernel/trap.h gives back what it found.
use knos.Base.{
  ℕ, ◌-◌, ◌*◌, ◌%◌, ◌^◌, ◌<◌, ◌≡◌, refl, ap, ◌∙◌, none, some, List, [], ◌∷◌, Result, ok, fault,
  halted, no_fuel, length, ◌>>=◌, arith,
}
use native.Mathlib.Nat.{mod-eq_of_lt}
use knos.Printk.Console.{Console}
use knos.Interrupt.{ignore_interrupt}
use knos.Interrupt.Trap.{Registers, with_segment, save_registers}
use knos.Interrupt.Handlers.{Ending, spins, stops, returns}
use knos.Interrupt.Assembly.{Resumption, State, Instruction, read, write, execute, behind_call, run}
use knos.Interrupt.Stub.{
  common_restore, ignore_restore, common_exception_stub, ignore_interrupt_code, entry_code,
}

-- The general registers that `movw` and `mov` of a segment leave.
with_segment-with_segment :
    (w a b : ℕ) → a < 2 ^ 16 → with_segment (with_segment w a) b ≡ with_segment w b
with_segment-with_segment w a b small = omega arith

with_segment_low : (w a : ℕ) → a < 2 ^ 16 → with_segment w a % 2 ^ 16 ≡ a
with_segment_low w a small = omega arith

bind_cong :
    (r : Result (Console × Ending)) (f g : Console → Ending → Result (State × Ending))
    → ((s : Console) (ending : Ending) → f s ending ≡ g s ending)
    → (r >>= λ q. f q.0 q.1) ≡ (r >>= λ q. g q.0 q.1)
bind_cong (ok q) f g h = h q.0 q.1
bind_cong fault f g h = refl
bind_cong halted f g h = refl
bind_cong no_fuel f g h = refl

-- The processor's part of the stack, but for the error code.
abbrev pub cpu_words : Resumption → List ℕ → List ℕ
cpu_words i stack = i.rip ∷ i.cs ∷ i.rflags ∷ i.rsp ∷ i.ss ∷ stack

abbrev tail : List ℕ → List ℕ
tail [] = []
tail (w ∷ ws) = ws

-- The pushes of `ignore_interrupt`.
abbrev pub save_ignored : Registers → List ℕ → List ℕ
save_ignored r stack =
    r.es ∷ r.ds ∷ r.r15 ∷ r.r14 ∷ r.r13 ∷ r.r12 ∷ r.r11 ∷ r.r10 ∷ r.r9 ∷ r.r8 ∷ r.rsi ∷ r.rdi
    ∷ r.rbp ∷ r.rdx ∷ r.rcx ∷ r.rbx ∷ r.rax ∷ stack

-- The registers that the callee finds: the frame's address in rdi, and the data segments.
abbrev pub registers_at_call : ℕ → Registers → ℕ → ℕ → List ℕ → Registers
registers_at_call stack_end r rax segment frame = record r {
  rax = rax;
  rdi = stack_end - 8 * length frame;
  ds = segment;
  es = segment;
}

-- The registers and the stack are as they were before, and the interrupted program goes on.
abbrev pub given_back : Registers → Resumption → List ℕ → Console → Result (State × Ending)
given_back r i rest s =
    ok (record { registers = r; stack = rest; console = s; resumed = some i }, returns)

-- What becomes of the callee's ending: either `back`, or the state that it was called in stays.
abbrev pub goes_on :
    (Console → Result (State × Ending))
    → Registers
    → List ℕ
    → Console
    → Ending
    → Result (State × Ending)
goes_on back q frame s returns = back s
goes_on back q frame s spins =
    ok (record { registers = q; stack = frame; console = s; resumed = none }, spins)
goes_on back q frame s stops =
    ok (record { registers = q; stack = frame; console = s; resumed = none }, stops)

module _ (stack_end : ℕ) (callee : List ℕ → Console → Result (Console × Ending))
    (left_by_callee : Registers → Registers) where
  -- The assembly from its call on.
  abbrev from_call : List Instruction → Registers → List ℕ → Console → Result (State × Ending)
  from_call restore q frame s = callee frame s >>= λ r.
      behind_call stack_end callee left_by_callee r.1
        (record { registers = q; stack = frame; console = r.0; resumed = none })
        (run stack_end callee left_by_callee restore)

  from_call_lem :
      (restore : List Instruction) (q : Registers) (frame : List ℕ) (s : Console)
      (back : Console → Result (State × Ending))
      → ((s' : Console)
          → run stack_end callee left_by_callee restore
              (record { registers = left_by_callee q; stack = frame; console = s'; resumed = none })
            ≡ back s')
      → from_call restore q frame s ≡ (callee frame s >>= λ r. goes_on back q frame r.0 r.1)
  from_call_lem restore q frame s back h =
      bind_cong (callee frame s)
        (λ s' ending.
          behind_call stack_end callee left_by_callee ending
            (record { registers = q; stack = frame; console = s'; resumed = none })
            (run stack_end callee left_by_callee restore))
        (goes_on back q frame) step
    where
      step :
          (s' : Console) (ending : Ending)
          → behind_call stack_end callee left_by_callee ending
              (record { registers = q; stack = frame; console = s'; resumed = none })
              (run stack_end callee left_by_callee restore)
            ≡ goes_on back q frame s' ending
      step s' spins = refl
      step s' stops = refl
      step s' returns = h s'

  common_restored :
      (r q : Registers) (s : Console) (i : Resumption) (rest : List ℕ) (vector e : ℕ)
      → r.ds < 2 ^ 16
      → r.es < 2 ^ 16
      → run stack_end callee left_by_callee common_restore (record {
        registers = q;
        stack = save_registers r (vector ∷ e ∷ cpu_words i rest);
        console = s;
        resumed = none;
      })
        ≡ given_back r i rest s
  unfolding run execute read write save_registers
  common_restored r q s i rest vector e ds_small es_small =
      rw (with_segment_low r.rax r.ds ds_small, with_segment_low r.rax r.es es_small) refl

  -- With the words that `movw` leaves in rax.
  abbrev saving : Registers → Console → List ℕ → ℕ → ℕ → Result (State × Ending)
  saving r s c w segment =
      let frame = w ∷ tail (save_registers r c) in
      from_call common_restore (registers_at_call stack_end r (with_segment w 0x10) segment frame)
        frame s

  common_saved :
      (r : Registers) (s : Console) (c : List ℕ)
      → let w = with_segment (with_segment r.rax r.ds) r.es in
        run stack_end callee left_by_callee common_exception_stub
          (record { registers = r; stack = c; console = s; resumed = none })
        ≡ saving r s c w (with_segment w 0x10 % 2 ^ 16)
  unfolding run execute read write save_registers common_exception_stub
  common_saved r s c = refl

  pub common_run :
      (r : Registers) (s : Console) (i : Resumption) (rest : List ℕ) (vector e : ℕ)
      → r.ds < 2 ^ 16
      → r.es < 2 ^ 16
      → let c = vector ∷ e ∷ cpu_words i rest in
        let frame = save_registers r c in
        run stack_end callee left_by_callee common_exception_stub
          (record { registers = r; stack = c; console = s; resumed = none })
        ≡ (callee frame s >>= λ q.
            goes_on
              (given_back r i rest)
              (registers_at_call stack_end r
                (with_segment (with_segment r.rax r.es) 0x10)
                0x10
                frame)
              frame
              q.0
              q.1)
  unfolding save_registers
  common_run r s i rest vector e ds_small es_small =
      let c = vector ∷ e ∷ cpu_words i rest in
      let w = with_segment (with_segment r.rax r.ds) r.es in
      common_saved r s c
      ∙ ap (saving r s c w) (with_segment_low w 0x10 (omega arith))
      ∙ ap (λ w'. saving r s c w' 0x10) (with_segment-with_segment r.rax r.ds r.es ds_small)
      ∙ from_call_lem common_restore _ _ s (given_back r i rest)
          (λ s'. common_restored r _ s' i rest vector e ds_small es_small)

  ignore_restored :
      (r q : Registers) (s : Console) (i : Resumption) (rest : List ℕ)
      → r.ds < 2 ^ 16
      → r.es < 2 ^ 16
      → run stack_end callee left_by_callee ignore_restore (record {
        registers = q;
        stack = save_ignored r (cpu_words i rest);
        console = s;
        resumed = none;
      })
        ≡ given_back r i rest s
  unfolding run execute read write
  ignore_restored r q s i rest ds_small es_small =
      rw (mod-eq_of_lt ds_small, mod-eq_of_lt es_small) refl

  ignore_saved :
      (r : Registers) (s : Console) (c : List ℕ)
      → run stack_end callee left_by_callee ignore_interrupt_code
          (record { registers = r; stack = c; console = s; resumed = none })
        ≡ from_call ignore_restore
            (registers_at_call stack_end r 0x10 0x10 (save_ignored r c))
            (save_ignored r c)
            s
  unfolding run execute read write ignore_interrupt_code
  ignore_saved r s c = refl

  -- What is behind `ignore_interrupt` where the processor pushed no error code.
  pub ignore_run :
      (r : Registers) (s : Console) (i : Resumption) (rest : List ℕ)
      → r.ds < 2 ^ 16
      → r.es < 2 ^ 16
      → let frame = save_ignored r (cpu_words i rest) in
        run stack_end callee left_by_callee
          (entry_code ignore_interrupt)
          (record { registers = r; stack = cpu_words i rest; console = s; resumed = none })
        ≡ (callee frame s >>= λ q.
            goes_on
              (given_back r i rest)
              (registers_at_call stack_end r 0x10 0x10 frame)
              frame
              q.0
              q.1)
  unfolding entry_code
  ignore_run r s i rest ds_small es_small =
      ignore_saved r s (cpu_words i rest)
      ∙ from_call_lem ignore_restore _ _ s (given_back r i rest)
          (λ s'. ignore_restored r _ s' i rest ds_small es_small)
