-- ===== src/Interrupt/Tests.antt =====
-- The theorems on gates and exceptions at concrete inputs.
use knos.Base.{
  ℕ, ◌%◌, ◌≡◌, ◌≢◌, ◌⊎◌, refl, false, some, List, [], ◌∷◌, arith, length-replicate, get_elem?,
  replicate,
}
use knos.Interrupt.{Entry, ignore_interrupt}
use knos.Interrupt.Idt.{IdtEntry, IdtState, GateCall, gate, set_gate, setup_idt}
use knos.Interrupt.Idt.Laws.{gate_of, gate_target, set_gate_lem}
use knos.Interrupt.Trap.{Registers, pushed_vector, Handler, called, dispatch_exception}
use knos.Base.Int.{pos}
use knos.Printk.Number.{codes}
use knos.Printk.Console.{Geometry, Console}
use knos.Printk.Console.Cursor.{IsScreen, IsOnScreen}
use knos.Interrupt.Handlers.{Machine, Ending, spins, returns, serve, ignore_interrupt_handler}
use knos.Interrupt.Handlers.Report.{Reports, messages, exception_stack, vectors_reported}
use knos.Interrupt.Route.{IsException, own_vector, vector_route}

abbrev empty_gate : IdtEntry
empty_gate = gate 0 0 0 0

abbrev table : List IdtEntry
table = empty_gate ∷ empty_gate ∷ []

set_gate_lem_example :
    let table' = set_gate table 1 0xFFFF800000104000 0x08 0x8E 10 in
    (e : IdtEntry) × (get_elem? table' 1 ≡ some e)
    × (gate_target e ≡ 0xFFFF800000104000)
    × (e.selector ≡ 0x08)
    × (e.type_attr ≡ 0x8E)
    × (e.ist ≡ 10 % 8)
    × (e.reserved ≡ 0)
    × ((w : ℕ) → 1 ≢ w → get_elem? table' w ≡ get_elem? table w)
set_gate_lem_example =
    set_gate_lem table 1 0xFFFF800000104000 0x08 0x8E 10 (omega arith) (omega arith)

abbrev at_4k : Entry → ℕ
at_4k e = 0x1000

abbrev fresh : IdtState
fresh = record {
  table = replicate 256 empty_gate;
  limit = 0;
  base = 0;
  port_writes = [];
  interrupts_on = false;
}

vector_route_example :
    (c : GateCall) × (get_elem? (setup_idt at_4k 0x8000 fresh).table 14 ≡ some (gate_of at_4k c))
    × ((IsException 14
          × (pushed_vector c.entry ≡ some 14)
          × ((h : Handler) × (dispatch_exception 14 ≡ called h) × (own_vector h ≡ some 14)))
        ⊎ ((¬ IsException 14) × (c.entry ≡ ignore_interrupt)))
vector_route_example =
    vector_route at_4k 0x8000 fresh 14 (length-replicate 256 empty_gate) (omega arith)

abbrev screen : Geometry
screen = record { x_resolution = 1024; y_resolution = 768; x_char_size = 8; y_char_size = 16 }

screen-IsScreen : IsScreen screen
screen-IsScreen = record {
  x_fits = omega arith;
  y_fits = omega arith;
  x_some = omega arith;
  y_some = omega arith;
}

abbrev corner : Console
corner = record { x_position = pos 0; y_position = pos 0; pixels = [] }

corner-IsOnScreen : IsOnScreen screen corner
corner-IsOnScreen = record {
  x = 0;
  y = 0;
  at_x = refl;
  at_y = refl;
  x_inside = omega arith;
  y_inside = omega arith;
}

abbrev blank : ℕ → ℕ → ℕ
blank c i = 0

abbrev no_strings : ℕ → List ℕ
no_strings a = []

abbrev machine : Machine
machine = record { cr2 = 0x23A00000; mxcsr = 0x1F80; opcode_at = λ a. 0x0B0F }

abbrev zeros : Registers
zeros = record {
  rax = 0;
  rbx = 0;
  rcx = 0;
  rdx = 0;
  rbp = 0;
  rsi = 0;
  rdi = 0;
  r8 = 0;
  r9 = 0;
  r10 = 0;
  r11 = 0;
  r12 = 0;
  r13 = 0;
  r14 = 0;
  r15 = 0;
  ds = 0x10;
  es = 0x10;
}

-- A page fault of a write at 0x23A00000.
vectors_reported_example :
    (c : GateCall) × (get_elem? (setup_idt at_4k 0x8000 fresh).table 14 ≡ some (gate_of at_4k c))
    × ((IsException 14
          × (pushed_vector c.entry ≡ some 14)
          × ((h : Handler) × (fmt args : List ℕ) × (ending : Ending) × (dispatch_exception 14
                ≡ called h)
              × (own_vector h ≡ some 14)
              × (get_elem?
                    (messages blank screen no_strings machine screen-IsScreen 2 0x100000 0x7E00)
                    14
                  ≡ some (fmt, args))
              × Reports blank screen no_strings machine screen-IsScreen corner
                  (serve blank screen no_strings machine
                    (exception_stack zeros 14 2 0x100000 8 2 0x7E00 0x10 [])
                    corner)
                  fmt
                  args
                  ending
              × (ending ≢ returns)))
        ⊎ ((¬ IsException 14)
            × (c.entry ≡ ignore_interrupt)
            × Reports blank screen no_strings machine screen-IsScreen corner
                (ignore_interrupt_handler blank screen no_strings machine corner)
                (codes "Unknown interrupt or fault at RIP\n")
                []
                spins))
vectors_reported_example =
    vectors_reported blank screen no_strings machine screen-IsScreen at_4k 0x8000 fresh zeros 14 2
      0x100000 8 2 0x7E00 0x10 [] corner (length-replicate 256 empty_gate) (omega arith)
      corner-IsOnScreen
