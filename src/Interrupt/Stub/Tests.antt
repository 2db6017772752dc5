-- ===== src/Interrupt/Stub/Tests.antt =====
-- The assembly at concrete inputs.
use knos.Base.{ℕ, ◌≡◌, refl, some, none, List, [], ◌∷◌, Result, ok, ◌>>=◌, arith}
use knos.Base.Int.{pos}
use knos.Printk.Console.{Console}
use knos.Interrupt.{page_fault, debug}
use knos.Interrupt.Trap.{Registers, with_segment, save_registers, pushed_vector}
use knos.Interrupt.Handlers.{Ending, returns}
use knos.Interrupt.Assembly.{Resumption, read, write, execute, run}
use knos.Interrupt.Stub.{entry_code, common_exception_stub, exception_entry_noerrcode}
use knos.Interrupt.Stub.Round.{cpu_words, registers_at_call, given_back, goes_on}
use knos.Interrupt.Stub.Entries.{with_error_code, IsProcessor, entry_round}

abbrev busy : Registers
busy = record {
  rax = 1;
  rbx = 2;
  rcx = 3;
  rdx = 4;
  rbp = 5;
  rsi = 6;
  rdi = 7;
  r8 = 8;
  r9 = 9;
  r10 = 10;
  r11 = 11;
  r12 = 12;
  r13 = 13;
  r14 = 14;
  r15 = 15;
  ds = 0x10;
  es = 0x18;
}

-- The C code may leave anything in the registers.
abbrev zeroed : Registers → Registers
zeroed r = record {
  rax = 0;
  rbx = 0;
  rcx = 0;
  rdx = 0;
  rbp = 0;
  rsi = 0;
  rdi = 0;
  r8 = 0;
  r9 = 0;
  r10 = 0;
  r11 = 0;
  r12 = 0;
  r13 = 0;
  r14 = 0;
  r15 = 0;
  ds = 0x10;
  es = 0x10;
}

abbrev corner : Console
corner = record { x_position = pos 0; y_position = pos 0; pixels = [] }

abbrev coming_back : List ℕ → Console → Result (Console × Ending)
coming_back frame s = ok (s, returns)

abbrev interrupted : Resumption
interrupted = record { rip = 0x104000; cs = 8; rflags = 0x202; rsp = 0x7E00; ss = 16 }

documented-IsProcessor : IsProcessor with_error_code
documented-IsProcessor = record { documented = λ v small. refl }

-- A debug exception that the C code comes back from.
debug_restores :
    run 0x8000 coming_back zeroed (entry_code debug) (record {
      registers = busy;
      stack = cpu_words interrupted [];
      console = corner;
      resumed = none;
    })
    ≡ ok (
      record { registers = busy; stack = []; console = corner; resumed = some interrupted },
      returns,
    )
unfolding run execute read write entry_code exception_entry_noerrcode common_exception_stub
debug_restores = refl

page_fault_vector : pushed_vector page_fault ≡ some 14
unfolding pushed_vector
page_fault_vector = refl

entry_round_example :
    let frame = save_registers busy (14 ∷ 2 ∷ cpu_words interrupted []) in
    run 0x8000 coming_back zeroed (entry_code page_fault) (record {
      registers = busy;
      stack = 2 ∷ cpu_words interrupted [];
      console = corner;
      resumed = none;
    })
    ≡ (coming_back frame corner >>= λ q.
        goes_on
          (given_back busy interrupted [])
          (registers_at_call 0x8000 busy (with_segment (with_segment 1 0x18) 0x10) 0x10 frame)
          frame
          q.0
          q.1)
entry_round_example =
    entry_round 0x8000 coming_back zeroed with_error_code page_fault 14 2 busy corner interrupted []
      documented-IsProcessor page_fault_vector (omega arith) (omega arith)
