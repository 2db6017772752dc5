-- ===== src/Printk/Vsnprintf/Plain.antt =====
-- `vsnprintf` of kernel/printk.c on a format without conversions.
use knos.Base.{ℕ, ◌≤◌, ◌≢◌, List, [], ◌∷◌}
use knos.Printk.Buffer.{Buffer, emit}
use knos.Printk.Vsnprintf.{Printing}

-- No character is a `%`.
unfoldable pub IsPlain : List ℕ → Type 0
IsPlain [] = 0 ≤ 0
IsPlain (c ∷ cs) = (c ≢ b'%') × IsPlain cs

abbrev after : List ℕ → Printing → Printing
after cs s = record s { buffer = emit cs s.buffer }
