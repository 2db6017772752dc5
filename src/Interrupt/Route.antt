-- ===== src/Interrupt/Route.antt =====
-- From the vector that the processor raises to the handler that runs.
use knos.Base.{
  ℕ, ◌<◌, ◌≡◌, ◌≢◌, ◌⊎◌, inl, inr, refl, ap, Bool, true, false, not, ◌&&◌, all_below,
  all_below_sound, Bool-cases, Option, none, some, List, ◌∷◌, arith, length, get_elem?, ltb, ◌==◌,
  ==→eq, if◌then◌else◌,
}
use knos.Interrupt.{Entry, ignore_interrupt}
use knos.Interrupt.Idt.{IdtState, GateCall, setup_idt, exception_gates}
use knos.Interrupt.Idt.Laws.{last_call, ignored, gate_of, setup_idt-gate}
use knos.Interrupt.Trap.{
  Registers, with_segment, save_registers, pushed_vector, frame_r15, frame_vector, frame_error_code,
  frame_rip, Handler, reserved_exception_handler, divide_error_handler, debug_handler, nmi_handler,
  breakpoint_handler, overflow_handler, bound_range_exceeded_handler, invalid_opcode_handler,
  device_not_available_handler, double_fault_handler, invalid_tss_handler,
  segment_not_present_handler, stack_segment_fault_handler, general_protection_handler,
  page_fault_handler, x87_fp_exception_handler, alignment_check_handler, machine_check_handler,
  simd_fp_exception_handler, virtualization_exception_handler, Dispatched, called, unhandled,
  dispatch_exception,
}

-- The stack at the call of `dispatch_exception`: the processor's part, the error code (the
-- processor's, or the 0 of the entry point), the vector, and the registers.
abbrev pub stack_at_dispatch : Registers → ℕ → ℕ → List ℕ → List ℕ
stack_at_dispatch r vector error_code cpu = save_registers r (vector ∷ error_code ∷ cpu)

-- `dispatch_exception` reads the vector, the error code and the interrupted instruction's address
-- where the entry point and the processor put them.
pub frame_of_stub :
    (r : Registers) (vector error_code rip : ℕ) (rest : List ℕ)
    → let frame = stack_at_dispatch r vector error_code (rip ∷ rest) in
      (frame_vector frame ≡ some vector)
      × (frame_error_code frame ≡ some error_code)
      × (frame_rip frame ≡ some rip)
unfolding frame_vector frame_error_code frame_rip save_registers
frame_of_stub r vector error_code rip rest = (refl, refl, refl)

-- The general registers of the frame are not where the structure says: the segments are pushed last,
-- and the structure expects them behind rax.
pub frame_r15_lem :
    (r : Registers) (vector error_code : ℕ) (cpu : List ℕ)
    → frame_r15 (stack_at_dispatch r vector error_code cpu) ≡ some (with_segment r.rax r.es)
unfolding frame_r15 save_registers
frame_r15_lem r vector error_code cpu = refl

-- Vector 9 and 15 are reserved, and there is no exception from 21 on.
abbrev pub IsException : ℕ → Type 0
IsException v = (v < 21) × (v ≢ 9) × (v ≢ 15)

-- The vector that each handler is for, by its declaration in kernel/trap.h. The handler of the reserved
-- vectors is for none of the exceptions.
abbrev pub own_vector : Handler → Option ℕ
own_vector divide_error_handler = some 0
own_vector debug_handler = some 1
own_vector nmi_handler = some 2
own_vector breakpoint_handler = some 3
own_vector overflow_handler = some 4
own_vector bound_range_exceeded_handler = some 5
own_vector invalid_opcode_handler = some 6
own_vector device_not_available_handler = some 7
own_vector double_fault_handler = some 8
own_vector invalid_tss_handler = some 10
own_vector segment_not_present_handler = some 11
own_vector stack_segment_fault_handler = some 12
own_vector general_protection_handler = some 13
own_vector page_fault_handler = some 14
own_vector x87_fp_exception_handler = some 16
own_vector alignment_check_handler = some 17
own_vector machine_check_handler = some 18
own_vector simd_fp_exception_handler = some 19
own_vector virtualization_exception_handler = some 20
own_vector reserved_exception_handler = none

abbrev entry_at : ℕ → Entry
entry_at v = (last_call exception_gates v (ignored v)).entry

abbrev pushes_none : Option ℕ → Bool
pushes_none none = true
pushes_none (some w) = false

abbrev is_own : ℕ → Option ℕ → Bool
is_own v none = false
is_own v (some w) = w == v

abbrev is_served : ℕ → Dispatched → Bool
is_served v (called h) = is_own v (own_vector h)
is_served v (unhandled w) = false

abbrev is_exception : ℕ → Bool
is_exception v = ltb v 21 && (not (v == 9) && not (v == 15))

abbrev good_route : ℕ → Bool
good_route v =
    if is_exception v
    then is_own v (pushed_vector (entry_at v)) && is_served v (dispatch_exception v)
    else (pushes_none (pushed_vector (entry_at v)))

routes : all_below 256 good_route ≡ true
unfolding all_below last_call pushed_vector dispatch_exception
routes = refl

and-inv : (a b : Bool) → (a && b) ≡ true → (a ≡ true) × (b ≡ true)
and-inv true b e = (refl, e)
and-inv false b e = cc

own-inv : (v : ℕ) (o : Option ℕ) → is_own v o ≡ true → o ≡ some v
own-inv v none e = cc
own-inv v (some w) e = ap some (==→eq w v e)

served-inv :
    (v : ℕ) (d : Dispatched)
    → is_served v d ≡ true
    → (h : Handler) × (d ≡ called h) × (own_vector h ≡ some v)
served-inv v (unhandled w) e = cc
served-inv v (called h) e = (h, refl, own-inv v (own_vector h) e)

none-inv : (e : Entry) → pushes_none (pushed_vector e) ≡ true → e ≡ ignore_interrupt
unfolding pushed_vector
none-inv e h = ground arith

-- Behind `setup_idt`, each exception of the processor (vectors 0 to 20 but 9 and 15) reaches, through
-- its gate, an entry point that pushes just that vector, and `dispatch_exception` calls the handler
-- that kernel/trap.h declares for the vector. Every other vector reaches `ignore_interrupt`.
pub vector_route :
    (address : Entry → ℕ) (table_addr : ℕ) (s : IdtState) (v : ℕ)
    → length s.table ≡ 256
    → v < 256
    → (c : GateCall) × (get_elem? (setup_idt address table_addr s).table v
        ≡ some (gate_of address c))
      × ((IsException v
            × (pushed_vector c.entry ≡ some v)
            × ((h : Handler) × (dispatch_exception v ≡ called h) × (own_vector h ≡ some v)))
          ⊎ ((¬ IsException v) × (c.entry ≡ ignore_interrupt)))
vector_route address table_addr s v size h = (
  last_call exception_gates v (ignored v),
  setup_idt-gate address table_addr s v size h,
  elim (Bool-cases (is_exception v)) [
    | inl e ↦
        let both = and-inv _ _ (rw e at good) in
        inl (ground arith, own-inv v _ both.0, served-inv v _ both.1)
    | inr e ↦ inr (ground arith, none-inv (entry_at v) (rw e at good))
  ],
)
  where
    good : good_route v ≡ true
    good = all_below_sound 256 good_route v routes h
