-- ===== src/Interrupt/Idt/Laws.antt =====
-- What the gates hold, and which gate each vector gets.
use native.Mathlib.Decide.{ℕ_discrete}
use knos.Base.{
  ℕ, zero, suc, ◌+◌, ◌*◌, ◌/◌, ◌%◌, ◌^◌, ◌≤◌, ◌<◌, ◌≡◌, ◌≢◌, inl, inr, refl, sym, ◌∙◌, ap, some,
  List, [], ◌∷◌, arith, length, get_elem?, set, get_elem?-set_self, get_elem?-set_ne, length-set,
  ◌==◌, if◌then◌else◌, Bool-cases, ==→eq,
}
use knos.Base.Bits.{bit_and-ones}
use knos.Interrupt.{Entry, ignore_interrupt}
use knos.Interrupt.Idt.{
  IdtEntry, IdtState, GateCall, gate, set_gate, ignore_all, install, setup_idt, exception_gates,
  gate_type_interrupt,
}

-- The address that the processor reads from a gate.
abbrev pub gate_target : IdtEntry → ℕ
gate_target e = e.offset_low + e.offset_mid * 2 ^ 16 + e.offset_high * 2 ^ 32

-- `set_gate` splits a handler's address so that the processor puts it together again, keeps the low
-- three bits of the IST, sets the other fields, and touches no other gate.
pub set_gate_lem :
    (table : List IdtEntry) (v addr selector type_attr ist : ℕ)
    → addr < 2 ^ 64
    → v < length table
    → let table' = set_gate table v addr selector type_attr ist in
      (e : IdtEntry) × (get_elem? table' v ≡ some e)
      × (gate_target e ≡ addr)
      × (e.selector ≡ selector)
      × (e.type_attr ≡ type_attr)
      × (e.ist ≡ ist % 8)
      × (e.reserved ≡ 0)
      × ((w : ℕ) → v ≢ w → get_elem? table' w ≡ get_elem? table w)
unfolding set_gate gate
set_gate_lem table v addr selector type_attr ist small inside = (
  gate addr selector type_attr ist,
  get_elem?-set_self table v (gate addr selector type_attr ist) inside,
  omega (
    arith,
    bit_and-ones 16 addr,
    bit_and-ones 16 (addr / 2 ^ 16),
    bit_and-ones 32 (addr / 2 ^ 32),
  ),
  refl,
  refl,
  bit_and-ones 3 ist,
  refl,
  λ w ne. get_elem?-set_ne table v w (gate addr selector type_attr ist) ne,
)

-- The call that decides the gate of a vector: the last one for it, and `d` if there is none.
unfoldable pub last_call : List GateCall → ℕ → GateCall → GateCall
last_call [] v d = d
last_call (c ∷ calls) v d = last_call calls v (if c.vector == v then c else d)

abbrev pub ignored : ℕ → GateCall
ignored v = record {
  vector = v;
  entry = ignore_interrupt;
  type_attr = gate_type_interrupt;
  ist = 0;
}

module _ (address : Entry → ℕ) where
  abbrev pub gate_of : GateCall → IdtEntry
  gate_of c = gate (address c.entry) 0x08 c.type_attr c.ist

  length-ignore_all :
      (left i : ℕ) (table : List IdtEntry) → length (ignore_all address table left i) ≡ length table
  unfolding ignore_all set_gate
  length-ignore_all zero i table = refl
  length-ignore_all (suc left) i table =
      length-ignore_all left (i + 1) (set table i (gate_of (ignored i))) ∙ length-set table i _

  get_elem?-ignore_all_out :
      (left i v : ℕ) (table : List IdtEntry)
      → v < i
      → get_elem? (ignore_all address table left i) v ≡ get_elem? table v
  unfolding ignore_all set_gate
  get_elem?-ignore_all_out zero i v table h = refl
  get_elem?-ignore_all_out (suc left) i v table h =
      get_elem?-ignore_all_out left (i + 1) v (set table i (gate_of (ignored i))) (omega arith)
      ∙ get_elem?-set_ne table i v _ (omega arith)

  get_elem?-ignore_all :
      (left i v : ℕ) (table : List IdtEntry)
      → i ≤ v
      → v < i + left
      → v < length table
      → get_elem? (ignore_all address table left i) v ≡ some (gate_of (ignored v))
  unfolding ignore_all set_gate
  get_elem?-ignore_all zero i v table lo hi inside = absurd (omega arith)
  get_elem?-ignore_all (suc left) i v table lo hi inside = elim (ℕ_discrete i v) [
    | yes e ↦
        get_elem?-ignore_all_out left (i + 1) v (set table i (gate_of (ignored i))) (omega arith)
        ∙ ap (get_elem? (set table i (gate_of (ignored i)))) (sym e)
        ∙ get_elem?-set_self table i (gate_of (ignored i)) (omega arith)
    | no ne ↦
        get_elem?-ignore_all left (i + 1) v (set table i (gate_of (ignored i))) (omega arith)
          (omega arith) (omega (arith, length-set table i (gate_of (ignored i))))
  ]

  -- The last call for a vector wins.
  get_elem?-install :
      (calls : List GateCall) (table : List IdtEntry) (v : ℕ) (d : GateCall)
      → v < length table
      → get_elem? table v ≡ some (gate_of d)
      → get_elem? (install address table calls) v ≡ some (gate_of (last_call calls v d))
  unfolding install last_call set_gate
  get_elem?-install [] table v d inside e = e
  get_elem?-install (c ∷ calls) table v d inside e =
      get_elem?-install calls (set table c.vector (gate_of c)) v (if c.vector == v then c else d)
        (omega (arith, length-set table c.vector (gate_of c)))
        (elim (Bool-cases (c.vector == v)) [
          | inl same ↦ rw same (
              ap (get_elem? (set table c.vector (gate_of c))) (sym (==→eq c.vector v same))
              ∙ get_elem?-set_self table c.vector (gate_of c)
                  (omega (arith, ==→eq c.vector v same)))
          | inr other ↦ rw other (get_elem?-set_ne table c.vector v (gate_of c) (ground arith) ∙ e)
        ])

  -- Behind `setup_idt` each of the 256 vectors has the gate of the last call for it, and the default
  -- gate if there is none.
  pub setup_idt-gate :
      (table_addr : ℕ) (s : IdtState) (v : ℕ)
      → length s.table ≡ 256
      → v < 256
      → get_elem? (setup_idt address table_addr s).table v
        ≡ some (gate_of (last_call exception_gates v (ignored v)))
  unfolding setup_idt
  setup_idt-gate table_addr s v size h =
      get_elem?-install exception_gates (ignore_all address s.table 256 0) v (ignored v)
        (omega (arith, length-ignore_all 256 0 s.table))
        (get_elem?-ignore_all 256 0 v s.table (omega arith) (omega arith) (omega arith))
