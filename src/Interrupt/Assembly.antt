-- ===== src/Interrupt/Assembly.antt =====
-- The instructions that kernel/trap_entry.S and `ignore_interrupt` of kernel/trap.h use, as a stack
-- machine.
use knos.Base.{ℕ, ◌-◌, ◌*◌, ◌%◌, ◌^◌, Option, some, List, [], ◌∷◌, Result, ok, fault, ◌>>=◌, length}
use knos.Printk.Console.{Console}
use knos.Interrupt.Trap.{Registers, with_segment}
use knos.Interrupt.Handlers.{Ending, spins, stops, returns}

-- The general registers but rsp.
pub data Register : Type 0 where
  rax rbx rcx rdx rbp rsi rdi r8 r9 r10 r11 r12 r13 r14 r15 : Register

pub data Segment : Type 0 where
  ds es : Segment

-- The instructions that the code has. `movw` moves between ax and a segment register, `movq` between
-- rax and one, and `movq_rsp_rdi` is `movq %rsp, %rdi`.
pub data Instruction : Type 0 where
  cld movq_rsp_rdi call addq_16_rsp iretq : Instruction
  pushq popq : Register → Instruction
  pushq_imm movw_imm movq_imm : ℕ → Instruction
  movw_from movw_to movq_from movq_to : Segment → Instruction

-- What `iretq` takes off the stack.
pub record Resumption : Type 0 where
  pub rip : ℕ
  pub cs : ℕ
  pub rflags : ℕ
  pub rsp : ℕ
  pub ss : ℕ

-- The registers, the words from rsp on (the last pushed first), the screen, and where the interrupted
-- program goes on.
pub record State : Type 0 where
  pub registers : Registers
  pub stack : List ℕ
  pub console : Console
  pub resumed : Option Resumption

unfoldable pub read : Register → Registers → ℕ
read rax r = r.rax
read rbx r = r.rbx
read rcx r = r.rcx
read rdx r = r.rdx
read rbp r = r.rbp
read rsi r = r.rsi
read rdi r = r.rdi
read r8 r = r.r8
read r9 r = r.r9
read r10 r = r.r10
read r11 r = r.r11
read r12 r = r.r12
read r13 r = r.r13
read r14 r = r.r14
read r15 r = r.r15

unfoldable pub write : Register → ℕ → Registers → Registers
write rax w r = record r { rax = w }
write rbx w r = record r { rbx = w }
write rcx w r = record r { rcx = w }
write rdx w r = record r { rdx = w }
write rbp w r = record r { rbp = w }
write rsi w r = record r { rsi = w }
write rdi w r = record r { rdi = w }
write r8 w r = record r { r8 = w }
write r9 w r = record r { r9 = w }
write r10 w r = record r { r10 = w }
write r11 w r = record r { r11 = w }
write r12 w r = record r { r12 = w }
write r13 w r = record r { r13 = w }
write r14 w r = record r { r14 = w }
write r15 w r = record r { r15 = w }

abbrev pub selector : Segment → Registers → ℕ
selector ds r = r.ds
selector es r = r.es

-- A segment register takes 16 bits.
abbrev pub load : Segment → ℕ → Registers → Registers
load ds w r = record r { ds = w % 2 ^ 16 }
load es w r = record r { es = w % 2 ^ 16 }

abbrev pub push : ℕ → State → State
push w m = record m { stack = w ∷ m.stack }

abbrev pub popped : Register → List ℕ → State → Result State
popped d [] m = fault
popped d (w ∷ stack) m = ok (record m { registers = write d w m.registers; stack = stack })

abbrev pub dropped : List ℕ → State → Result State
dropped (a ∷ b ∷ stack) m = ok (record m { stack = stack })
dropped _ m = fault

abbrev pub resume : List ℕ → State → Result (State × Ending)
resume (rip ∷ cs ∷ rflags ∷ rsp ∷ ss ∷ stack) m =
    let r : Resumption = record { rip = rip; cs = cs; rflags = rflags; rsp = rsp; ss = ss } in
    ok (record m { stack = stack; resumed = some r }, returns)
resume _ m = fault

-- `stack_end` is the address behind the stack, `callee` the C function that is called, with the words
-- behind its return address, and `left_by_callee` the registers as it leaves them.
module _ (stack_end : ℕ) (callee : List ℕ → Console → Result (Console × Ending))
    (left_by_callee : Registers → Registers) where
  -- `call` and `iretq` are the matter of `run`.
  unfoldable pub execute : Instruction → State → Result State
  execute cld m = ok m
  execute movq_rsp_rdi m =
      ok (record m { registers = write rdi (stack_end - 8 * length m.stack) m.registers })
  execute call m = fault
  execute addq_16_rsp m = dropped m.stack m
  execute iretq m = fault
  execute (pushq s) m = ok (push (read s m.registers) m)
  execute (popq d) m = popped d m.stack m
  execute (pushq_imm w) m = ok (push w m)
  execute (movw_imm w) m =
      ok (record m { registers = write rax (with_segment (read rax m.registers) w) m.registers })
  execute (movq_imm w) m = ok (record m { registers = write rax w m.registers })
  execute (movw_from s) m =
      let w = with_segment (read rax m.registers) (selector s m.registers) in
      ok (record m { registers = write rax w m.registers })
  execute (movw_to s) m = ok (record m { registers = load s (read rax m.registers) m.registers })
  execute (movq_from s) m =
      ok (record m { registers = write rax (selector s m.registers) m.registers })
  execute (movq_to s) m = ok (record m { registers = load s (read rax m.registers) m.registers })

  -- Behind the call: only a function that returns is gone on from.
  abbrev pub behind_call :
      Ending → State → (State → Result (State × Ending)) → Result (State × Ending)
  behind_call spins m rest = ok (m, spins)
  behind_call stops m rest = ok (m, stops)
  behind_call returns m rest = rest (record m { registers = left_by_callee m.registers })

  unfoldable pub run : List Instruction → State → Result (State × Ending)
  run [] m = fault
  run (call ∷ code) m =
      callee m.stack m.console >>= λ r. behind_call r.1 (record m { console = r.0 }) (run code)
  run (iretq ∷ code) m = resume m.stack m
  run (i ∷ code) m = execute i m >>= run code
