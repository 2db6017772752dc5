-- ===== src/Interrupt/Handlers/Report.antt =====
-- Every exception is reported in full, and none comes back to the code that it interrupted.
use mathlib.Core.Path.{subst}
use knos.Printk.Number.{codes}
use knos.Base.Bits.{bit_and_one, bit_and_two, bit_and_four}
use knos.Base.{
  ◌/◌, ◌==◌, ◌∙◌, if◌then◌else◌, ℕ, ◌%◌, ◌^◌, [], ◌≤◌, sym, Option, ◌<◌, ◌≡◌, ◌≢◌, ◌⊎◌, inl, inr,
  refl, ap, Bool, true, false, ◌&&◌, some, none, List, ◌∷◌, Result, ok, fault, halted, no_fuel,
  ◌>>=◌, arith, length, ltb, leb, get_elem?,
}
use knos.Printk.Format.{
  parse_flags, add_flag, parse_width, parse_digits, parse_precision, parse_after_dot,
  parse_qualifier,
}
use knos.Printk.Vsnprintf.Demand.{
  Demand, demand, character_demand, specification_demand, conversion_demand,
}
use knos.Printk.Console.{red, white, Geometry, Console, buffer_size}
use knos.Printk.Console.Cursor.{IsScreen, IsOnScreen}
use knos.Printk.Console.Report.{IsReport, fatalk_lem}
use knos.Interrupt.{Entry, ignore_interrupt}
use knos.Interrupt.Idt.{IdtState, GateCall, setup_idt}
use knos.Interrupt.Idt.Laws.{gate_of}
use knos.Interrupt.Route.{IsException, own_vector, stack_at_dispatch, vector_route}
use knos.Interrupt.Trap.{
  Registers, save_registers, pushed_vector, Handler, divide_error_handler, debug_handler,
  nmi_handler, breakpoint_handler, overflow_handler, bound_range_exceeded_handler,
  invalid_opcode_handler, device_not_available_handler, double_fault_handler,
  reserved_exception_handler, invalid_tss_handler, segment_not_present_handler,
  stack_segment_fault_handler, general_protection_handler, page_fault_handler,
  x87_fp_exception_handler, alignment_check_handler, machine_check_handler,
  simd_fp_exception_handler, virtualization_exception_handler, frame_vector, frame_error_code,
  frame_rip, called, dispatch_exception,
}
use knos.Interrupt.Handlers.{
  frame_rsp, error_flag, Machine, Ending, spins, stops, returns, report, handle, served, serve,
  ignore_interrupt_handler,
}

-- A letter for a lowest binary digit 1.
abbrev pub letter_of : ℕ → ℕ → ℕ
letter_of e letter = if e % 2 == 1 then letter else b'-'

error_flags :
    (e : ℕ)
    → (error_flag e 1 b'P' ≡ letter_of e b'P')
      × (error_flag e 2 b'W' ≡ letter_of (e / 2) b'W')
      × (error_flag e 4 b'U' ≡ letter_of (e / 4) b'U')
error_flags e =
    (ground (arith, bit_and_one e), ground (arith, bit_and_two e), ground (arith, bit_and_four e))

-- The demand of a format is met by `n` arguments and `printk_buf`.
abbrev met : Result Demand → ℕ → Bool
met (ok d) n = leb d.arguments n && ltb d.characters buffer_size
met fault n = false
met halted n = false
met no_fuel n = false

-- The machine check stops the processor, the others wait in a loop.
abbrev pub ending_of : Handler → Ending
ending_of divide_error_handler = spins
ending_of debug_handler = spins
ending_of nmi_handler = spins
ending_of breakpoint_handler = spins
ending_of overflow_handler = spins
ending_of bound_range_exceeded_handler = spins
ending_of invalid_opcode_handler = spins
ending_of device_not_available_handler = spins
ending_of double_fault_handler = spins
ending_of reserved_exception_handler = spins
ending_of invalid_tss_handler = spins
ending_of segment_not_present_handler = spins
ending_of stack_segment_fault_handler = spins
ending_of general_protection_handler = spins
ending_of page_fault_handler = spins
ending_of x87_fp_exception_handler = spins
ending_of alignment_check_handler = spins
ending_of machine_check_handler = stops
ending_of simd_fp_exception_handler = spins
ending_of virtualization_exception_handler = spins

ending_of-returns : (h : Handler) → ending_of h ≢ returns
ending_of-returns h = ground arith

-- The stack at the call of `dispatch_exception`, with the five words that the processor pushes.
abbrev pub exception_stack : Registers → ℕ → ℕ → ℕ → ℕ → ℕ → ℕ → ℕ → List ℕ → List ℕ
exception_stack r v error_code rip cs rflags rsp ss rest =
    stack_at_dispatch r v error_code (rip ∷ cs ∷ rflags ∷ rsp ∷ ss ∷ rest)

module _ (font : ℕ → ℕ → ℕ) (g : Geometry) (string_at : ℕ → List ℕ) (m : Machine)
    (screen : IsScreen g) where
  -- The call has shown the tag of `fatalk` and behind it all of the format with its arguments, in red
  -- on white, with the cursor on the screen, and ends so.
  pub record Reports (s : Console) (r : Result (Console × Ending)) (fmt args : List ℕ)
      (ending : Ending) : Type 0 where
    pub behind_tag : Console
    pub last : Console
    pub tag_length : ℕ
    pub body_length : ℕ
    pub run : r ≡ ok (last, ending)
    pub tag : IsReport font g string_at red white (codes "[FATL] ") [] s behind_tag tag_length
    pub body : IsReport font g string_at red white fmt args behind_tag last body_length

  report-met :
      (fmt args : List ℕ) (ending : Ending) (s : Console) (r : Result Demand)
      → demand none (length fmt) fmt ≡ r
      → met r (length args) ≡ true
      → IsOnScreen g s
      → Reports s (report font g string_at m fmt args ending s) fmt args ending
  report-met fmt args ending s (ok d) asked fits on =
      let (s1, s2, i, j, run, tag, body) =
        fatalk_lem font g string_at none (omega arith) screen fmt args d s asked (ground arith)
          (ground arith) on in
      record {
        behind_tag = s1;
        last = s2;
        tag_length = i;
        body_length = j;
        run = ap (λ r. r >>= λ x. ok (x.0, ending)) run;
        tag = tag;
        body = body;
      }
  report-met fmt args ending s fault asked fits on = absurd (cc fits)
  report-met fmt args ending s halted asked fits on = absurd (cc fits)
  report-met fmt args ending s no_fuel asked fits on = absurd (cc fits)

  abbrev page_fault_format : List ℕ
  page_fault_format = codes "#PF(14) Page Fault CR2=%#llx  Error Code=%#llx [%c%c%c]\n"

  -- The message of each vector: its format and arguments, for an error code, the address of the
  -- interrupted instruction and its stack pointer.
  abbrev pub messages : ℕ → ℕ → ℕ → List (List ℕ × List ℕ)
  messages e rip rsp =
      (codes "#DE(0) Divide error RSP=%#llx, RIP=%#llx, Error Code=%#llx\n", rsp ∷ rip ∷ e ∷ [])
      ∷ (codes "#DB(1) Debug RIP=%#llx, Error Code=%#llx\n", rip ∷ e ∷ [])
      ∷ (codes "#NMI(2) Non-Maskable Interrupt! RIP=%#llx\n", rip ∷ [])
      ∷ (codes "#BP(3) Breakpoint RIP=%#llx\n", rip ∷ [])
      ∷ (codes "#OF(4) Overflow! RIP=%#llx, RSP=%#llx\n", rip ∷ rsp ∷ [])
      ∷ (codes "#BR(5) BOUND Range Exceeded RIP=%#llx\n", rip ∷ [])
      ∷ (codes "#UD(6) Invalid Opcode 0x%04x RIP=%#llx\n", m.opcode_at rip % 2 ^ 16 ∷ rip ∷ [])
      ∷ (codes "#NM(7) FPU Not Available RIP=%#llx\n", rip ∷ [])
      ∷ (codes "#DF(8) Double Fault! RIP=%#llx, RSP=%#llx\n", rip ∷ rsp ∷ [])
      ∷ (codes "Reserved Exception RIP=%#llx\n", rip ∷ [])
      ∷ (codes "#TS(10) Invalid TSS! Error Code=%#llx RIP=%#llx\n", e ∷ rip ∷ [])
      ∷ (codes "#NP(11) Segment Not Present! Error Code=%#llx RIP=%#llx\n", e ∷ rip ∷ [])
      ∷ (codes "#SS(12) Stack Segment Fault! Error Code=%#llx RIP=%#llx\n", e ∷ rip ∷ [])
      ∷ (codes "#GP(13) General Protection Fault! Error Code=%#llx RIP=%#llx\n", e ∷ rip ∷ [])
      ∷ (
        codes "#PF(14) Page Fault CR2=%#llx  Error Code=%#llx [%c%c%c]\n",
        m.cr2 ∷ e ∷ letter_of e b'P' ∷ letter_of (e / 2) b'W' ∷ letter_of (e / 4) b'U' ∷ [],
      )
      ∷ (codes "Reserved Exception RIP=%#llx\n", rip ∷ [])
      ∷ (codes "#MF(16) x87 FPU Fault RIP=%#llx, Status=%#llx\n", rip ∷ e ∷ [])
      ∷ (codes "#AC(17) Alignment Check RIP=%#llx (Addr=%#llx)\n", rip ∷ m.cr2 ∷ [])
      ∷ (codes "#MC(18) Machine Check! System Halted\n", [])
      ∷ (codes "#XM(19) SIMD FP Exception RIP=%#llx\n  MXCSR=0x%08x\n", rip ∷ m.mxcsr % 2 ^ 32 ∷ [])
      ∷ (codes "#VE(20) Virtualization Exception RIP=%#llx\n", rip ∷ [])
      ∷ []

  -- The message is that of the vector, if there is one.
  abbrev IsMessage : Option ℕ → ℕ → ℕ → ℕ → List ℕ → List ℕ → Type 0
  IsMessage none e rip rsp fmt args = 0 ≤ 0
  IsMessage (some v) e rip rsp fmt args = get_elem? (messages e rip rsp) v ≡ some (fmt, args)

  -- The call shows the message of the vector.
  abbrev Tells : Option ℕ → ℕ → ℕ → ℕ → Console → Result (Console × Ending) → Ending → Type 0
  Tells v e rip rsp s r ending =
      (fmt args : List ℕ) × IsMessage v e rip rsp fmt args × Reports s r fmt args ending

  -- The stack behind the frame of the processor: the handlers read two words of it.
  handle-Tells :
      (h : Handler) (e rip rsp : ℕ) (frame : List ℕ) (s : Console)
      → frame_rip frame ≡ some rip
      → frame_rsp frame ≡ some rsp
      → IsOnScreen g s
      → Tells (own_vector h) e rip rsp s (handle font g string_at m h e frame s) (ending_of h)
  unfolding handle demand character_demand specification_demand conversion_demand parse_flags
      add_flag parse_width parse_digits parse_precision parse_after_dot parse_qualifier
  handle-Tells divide_error_handler e rip rsp frame s at_rip at_rsp on =
      rw (at_rip, at_rsp) (_, _, refl, report-met _ _ spins s _ refl refl on)
  handle-Tells debug_handler e rip rsp frame s at_rip at_rsp on =
      rw at_rip (_, _, refl, report-met _ _ spins s _ refl refl on)
  handle-Tells nmi_handler e rip rsp frame s at_rip at_rsp on =
      rw at_rip (_, _, refl, report-met _ _ spins s _ refl refl on)
  handle-Tells breakpoint_handler e rip rsp frame s at_rip at_rsp on =
      rw at_rip (_, _, refl, report-met _ _ spins s _ refl refl on)
  handle-Tells overflow_handler e rip rsp frame s at_rip at_rsp on =
      rw (at_rip, at_rsp) (_, _, refl, report-met _ _ spins s _ refl refl on)
  handle-Tells bound_range_exceeded_handler e rip rsp frame s at_rip at_rsp on =
      rw at_rip (_, _, refl, report-met _ _ spins s _ refl refl on)
  handle-Tells invalid_opcode_handler e rip rsp frame s at_rip at_rsp on =
      rw at_rip (_, _, refl, report-met _ _ spins s _ refl refl on)
  handle-Tells device_not_available_handler e rip rsp frame s at_rip at_rsp on =
      rw at_rip (_, _, refl, report-met _ _ spins s _ refl refl on)
  handle-Tells double_fault_handler e rip rsp frame s at_rip at_rsp on =
      rw (at_rip, at_rsp) (_, _, refl, report-met _ _ spins s _ refl refl on)
  handle-Tells reserved_exception_handler e rip rsp frame s at_rip at_rsp on =
      rw at_rip (_, _, omega arith, report-met _ _ spins s _ refl refl on)
  handle-Tells invalid_tss_handler e rip rsp frame s at_rip at_rsp on =
      rw at_rip (_, _, refl, report-met _ _ spins s _ refl refl on)
  handle-Tells segment_not_present_handler e rip rsp frame s at_rip at_rsp on =
      rw at_rip (_, _, refl, report-met _ _ spins s _ refl refl on)
  handle-Tells stack_segment_fault_handler e rip rsp frame s at_rip at_rsp on =
      rw at_rip (_, _, refl, report-met _ _ spins s _ refl refl on)
  handle-Tells general_protection_handler e rip rsp frame s at_rip at_rsp on =
      rw at_rip (_, _, refl, report-met _ _ spins s _ refl refl on)
  handle-Tells page_fault_handler e rip rsp frame s at_rip at_rsp on =
      let (present, write, user) = error_flags e in
      (
        _,
        _,
        sym (
            ap (λ (l : List ℕ). some (page_fault_format, m.cr2 ∷ e ∷ l))
              (ap (λ c. c ∷ error_flag e 2 b'W' ∷ error_flag e 4 b'U' ∷ []) present
                ∙ (ap (λ c. letter_of e b'P' ∷ c ∷ error_flag e 4 b'U' ∷ []) write
                    ∙ ap (λ c. letter_of e b'P' ∷ letter_of (e / 2) b'W' ∷ c ∷ []) user))),
        report-met _ _ spins s _ refl refl on,
      )
  handle-Tells x87_fp_exception_handler e rip rsp frame s at_rip at_rsp on =
      rw at_rip (_, _, refl, report-met _ _ spins s _ refl refl on)
  handle-Tells alignment_check_handler e rip rsp frame s at_rip at_rsp on =
      rw at_rip (_, _, refl, report-met _ _ spins s _ refl refl on)
  handle-Tells machine_check_handler e rip rsp frame s at_rip at_rsp on =
      (_, _, refl, report-met _ _ stops s _ refl refl on)
  handle-Tells simd_fp_exception_handler e rip rsp frame s at_rip at_rsp on =
      rw at_rip (_, _, refl, report-met _ _ spins s _ refl refl on)
  handle-Tells virtualization_exception_handler e rip rsp frame s at_rip at_rsp on =
      rw at_rip (_, _, refl, report-met _ _ spins s _ refl refl on)

  serve-Tells :
      (r : Registers) (v e rip cs rflags rsp ss : ℕ) (rest : List ℕ) (h : Handler) (s : Console)
      → dispatch_exception v ≡ called h
      → own_vector h ≡ some v
      → IsOnScreen g s
      → Tells
          (some v)
          e
          rip
          rsp
          s
          (serve font g string_at m (exception_stack r v e rip cs rflags rsp ss rest) s)
          (ending_of h)
  unfolding serve frame_vector frame_error_code frame_rip frame_rsp save_registers
  serve-Tells r v e rip cs rflags rsp ss rest h s chosen own on =
      let frame = exception_stack r v e rip cs rflags rsp ss rest in
      let told = handle-Tells h e rip rsp frame s refl refl on in
      subst (λ d. Tells (some v) e rip rsp s (served font g string_at m d e frame s) (ending_of h))
        (sym chosen)
        (subst (λ w. Tells w e rip rsp s (handle font g string_at m h e frame s) (ending_of h)) own
          told)

  ignore-Reports :
      (s : Console)
      → IsOnScreen g s
      → Reports s
          (ignore_interrupt_handler font g string_at m s)
          (codes "Unknown interrupt or fault at RIP\n")
          []
          spins
  unfolding ignore_interrupt_handler demand character_demand
  ignore-Reports s on = report-met _ _ spins s _ refl refl on

  -- Behind `setup_idt`, with the cursor on a screen of at least one character, every vector is
  -- reported, whatever the registers and the error code are. An exception of the processor reaches an
  -- entry point that pushes its vector, and `dispatch_exception`, on the stack that results, calls the
  -- handler that is declared for the vector: it shows the vector's message behind the tag of `fatalk`,
  -- with the error code, the instruction's address and the stack pointer that the processor pushed,
  -- all of it and without a fault, and never returns. Every other vector reaches `ignore_interrupt`,
  -- whose handler shows its message and loops.
  pub vectors_reported :
      (address : Entry → ℕ) (table_addr : ℕ) (idt : IdtState) (r : Registers)
      (v e rip cs rflags rsp ss : ℕ) (rest : List ℕ) (s : Console)
      → length idt.table ≡ 256
      → v < 256
      → IsOnScreen g s
      → (c : GateCall) × (get_elem? (setup_idt address table_addr idt).table v
          ≡ some (gate_of address c))
        × ((IsException v
              × (pushed_vector c.entry ≡ some v)
              × ((h : Handler) × (fmt args : List ℕ) × (ending : Ending) × (dispatch_exception v
                    ≡ called h)
                  × (own_vector h ≡ some v)
                  × (get_elem? (messages e rip rsp) v ≡ some (fmt, args))
                  × Reports s
                      (serve font g string_at m (exception_stack r v e rip cs rflags rsp ss rest) s)
                      fmt
                      args
                      ending
                  × (ending ≢ returns)))
            ⊎ ((¬ IsException v)
                × (c.entry ≡ ignore_interrupt)
                × Reports s
                    (ignore_interrupt_handler font g string_at m s)
                    (codes "Unknown interrupt or fault at RIP\n")
                    []
                    spins))
  vectors_reported address table_addr idt r v e rip cs rflags rsp ss rest s size small on =
      let (c, at_gate, which) = vector_route address table_addr idt v size small in
      (
        c,
        at_gate,
        elim which [
          | inl (is, pushed, (h, chosen, own)) ↦
              let (fmt, args, message, shown) =
                serve-Tells r v e rip cs rflags rsp ss rest h s chosen own on in
              inl (
                is,
                pushed,
                (h, fmt, args, ending_of h, chosen, own, message, shown, ending_of-returns h),
              )
          | inr (not_is, entry) ↦ inr (not_is, entry, ignore-Reports s on)
        ],
      )
