-- ===== src/Tss/Tests.antt =====
-- The descriptor of a task state segment at a concrete address.
use knos.Base.{◌≡◌, false, ok, arith, replicate}
use knos.Tss.{GdtState, setup_tss64}
use knos.Tss.Descriptor.{IsTss, setup_tss64_lem}

abbrev empty_gdt : GdtState
empty_gdt = record { gdt = replicate 10 0; task_register = 0; interrupts_on = false }

setup_tss64_lem_example :
    (s' : GdtState) × (setup_tss64 0xFFFF800000108440 empty_gdt ≡ ok s')
    × IsTss 0xFFFF800000108440 empty_gdt s'
setup_tss64_lem_example = setup_tss64_lem 0xFFFF800000108440 empty_gdt (omega arith) (omega arith)
