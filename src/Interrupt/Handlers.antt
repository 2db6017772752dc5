-- ===== src/Interrupt/Handlers.antt =====
-- What the handlers of kernel/trap.c do: each reports by `fatalk`, and does not come back.
pub mod Report
use knos.Base.{
  ℕ, ◌+◌, ◌%◌, ◌^◌, Option, none, some, List, [], ◌∷◌, bit_and, Result, ok, ◌>>=◌, in_range,
  get_elem?, ◌==◌, if◌then◌else◌,
}
use knos.Printk.Number.{codes}
use knos.Printk.Console.{Geometry, Console, fatalk}
use knos.Interrupt.Trap.{
  Handler, divide_error_handler, debug_handler, nmi_handler, breakpoint_handler, overflow_handler,
  bound_range_exceeded_handler, invalid_opcode_handler, device_not_available_handler,
  double_fault_handler, reserved_exception_handler, invalid_tss_handler,
  segment_not_present_handler, stack_segment_fault_handler, general_protection_handler,
  page_fault_handler, x87_fp_exception_handler, alignment_check_handler, machine_check_handler,
  simd_fp_exception_handler, virtualization_exception_handler, frame_vector, frame_error_code,
  frame_rip, Dispatched, called, unhandled, dispatch_exception,
}

-- `frame->rsp`, by its place in `struct register_frame`.
unfoldable pub frame_rsp : List ℕ → Option ℕ
frame_rsp frame = get_elem? frame 22

-- What the handlers read from the processor and from memory: cr2, mxcsr, and the two bytes at an address.
pub record Machine : Type 0 where
  pub cr2 : ℕ
  pub mxcsr : ℕ
  pub opcode_at : ℕ → ℕ

-- How a handler ends: in `for(;;)`, at `cli; hlt`, or by returning to the stub.
pub data Ending : Type 0 where
  spins stops returns : Ending

-- `(error_code & mask) ? letter : '-'`
abbrev pub error_flag : ℕ → ℕ → ℕ → ℕ
error_flag error_code mask letter = if bit_and error_code mask == 0 then b'-' else letter

module _ (font : ℕ → ℕ → ℕ) (g : Geometry) (string_at : ℕ → List ℕ) (m : Machine) where
  abbrev pub report : List ℕ → List ℕ → Ending → Console → Result (Console × Ending)
  report fmt args ending s = fatalk font g string_at fmt args s >>= λ r. ok (r.0, ending)

  -- The handlers, with their error code and frame.
  unfoldable pub handle : Handler → ℕ → List ℕ → Console → Result (Console × Ending)
  handle divide_error_handler e frame s = in_range (frame_rsp frame) >>= λ rsp.
      in_range (frame_rip frame) >>= λ rip.
      report (codes "#DE(0) Divide error RSP=%#llx, RIP=%#llx, Error Code=%#llx\n")
        (rsp ∷ rip ∷ e ∷ []) spins s
  handle debug_handler e frame s = in_range (frame_rip frame) >>= λ rip.
      report (codes "#DB(1) Debug RIP=%#llx, Error Code=%#llx\n") (rip ∷ e ∷ []) spins s
  handle nmi_handler e frame s = in_range (frame_rip frame) >>= λ rip.
      report (codes "#NMI(2) Non-Maskable Interrupt! RIP=%#llx\n") (rip ∷ []) spins s
  handle breakpoint_handler e frame s = in_range (frame_rip frame) >>= λ rip.
      report (codes "#BP(3) Breakpoint RIP=%#llx\n") (rip ∷ []) spins s
  handle overflow_handler e frame s = in_range (frame_rip frame) >>= λ rip.
      in_range (frame_rsp frame) >>= λ rsp.
      report (codes "#OF(4) Overflow! RIP=%#llx, RSP=%#llx\n") (rip ∷ rsp ∷ []) spins s
  handle bound_range_exceeded_handler e frame s = in_range (frame_rip frame) >>= λ rip.
      report (codes "#BR(5) BOUND Range Exceeded RIP=%#llx\n") (rip ∷ []) spins s
  handle invalid_opcode_handler e frame s = in_range (frame_rip frame) >>= λ rip.
      report (codes "#UD(6) Invalid Opcode 0x%04x RIP=%#llx\n")
        (m.opcode_at rip % 2 ^ 16 ∷ rip ∷ []) spins s
  handle device_not_available_handler e frame s = in_range (frame_rip frame) >>= λ rip.
      report (codes "#NM(7) FPU Not Available RIP=%#llx\n") (rip ∷ []) spins s
  handle double_fault_handler e frame s = in_range (frame_rip frame) >>= λ rip.
      in_range (frame_rsp frame) >>= λ rsp.
      report (codes "#DF(8) Double Fault! RIP=%#llx, RSP=%#llx\n") (rip ∷ rsp ∷ []) spins s
  handle reserved_exception_handler e frame s = in_range (frame_rip frame) >>= λ rip.
      report (codes "Reserved Exception RIP=%#llx\n") (rip ∷ []) spins s
  handle invalid_tss_handler e frame s = in_range (frame_rip frame) >>= λ rip.
      report (codes "#TS(10) Invalid TSS! Error Code=%#llx RIP=%#llx\n") (e ∷ rip ∷ []) spins s
  handle segment_not_present_handler e frame s = in_range (frame_rip frame) >>= λ rip.
      report (codes "#NP(11) Segment Not Present! Error Code=%#llx RIP=%#llx\n") (e ∷ rip ∷ [])
        spins s
  handle stack_segment_fault_handler e frame s = in_range (frame_rip frame) >>= λ rip.
      report (codes "#SS(12) Stack Segment Fault! Error Code=%#llx RIP=%#llx\n") (e ∷ rip ∷ [])
        spins s
  handle general_protection_handler e frame s = in_range (frame_rip frame) >>= λ rip.
      report (codes "#GP(13) General Protection Fault! Error Code=%#llx RIP=%#llx\n") (e ∷ rip ∷ [])
        spins s
  handle page_fault_handler e frame s =
      report (codes "#PF(14) Page Fault CR2=%#llx  Error Code=%#llx [%c%c%c]\n")
        (m.cr2 ∷ e ∷ error_flag e 1 b'P' ∷ error_flag e 2 b'W' ∷ error_flag e 4 b'U' ∷ []) spins s
  handle x87_fp_exception_handler e frame s = in_range (frame_rip frame) >>= λ rip.
      report (codes "#MF(16) x87 FPU Fault RIP=%#llx, Status=%#llx\n") (rip ∷ e ∷ []) spins s
  handle alignment_check_handler e frame s = in_range (frame_rip frame) >>= λ rip.
      report (codes "#AC(17) Alignment Check RIP=%#llx (Addr=%#llx)\n") (rip ∷ m.cr2 ∷ []) spins s
  handle machine_check_handler e frame s =
      report (codes "#MC(18) Machine Check! System Halted\n") ([]) stops s
  handle simd_fp_exception_handler e frame s = in_range (frame_rip frame) >>= λ rip.
      report (codes "#XM(19) SIMD FP Exception RIP=%#llx\n  MXCSR=0x%08x\n")
        (rip ∷ m.mxcsr % 2 ^ 32 ∷ []) spins s
  handle virtualization_exception_handler e frame s = in_range (frame_rip frame) >>= λ rip.
      report (codes "#VE(20) Virtualization Exception RIP=%#llx\n") (rip ∷ []) spins s

  abbrev served : Dispatched → ℕ → List ℕ → Console → Result (Console × Ending)
  served (called h) e frame s = handle h e frame s
  served (unhandled vector) e frame s =
      report (codes "Unhandled exception %d\n") (vector ∷ []) returns s

  -- `dispatch_exception` with all that it calls.
  unfoldable pub serve : List ℕ → Console → Result (Console × Ending)
  serve frame s = in_range (frame_vector frame) >>= λ vector.
      in_range (frame_error_code frame) >>= λ e. served (dispatch_exception vector) e frame s

  unfoldable pub ignore_interrupt_handler : Console → Result (Console × Ending)
  ignore_interrupt_handler s = report (codes "Unknown interrupt or fault at RIP\n") [] spins s
