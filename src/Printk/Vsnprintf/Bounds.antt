-- ===== src/Printk/Vsnprintf/Bounds.antt =====
-- `vsnprintf` ends and stays inside its buffer, whatever the format.
use knos.Base.{ℕ, ◌≤◌, ◌<◌, ◌≡◌, some, List, length}
use knos.Printk.Buffer.{Buffer}
use knos.Printk.Room.{IsWithin}
use knos.Printk.Vsnprintf.{Printing, Printed}

module _ (size : ℕ) where
  -- The state of the loop is within the buffer, and so is it with at most `k` characters of format.
  abbrev Fits : Printing → Type 0
  Fits s = IsWithin size s.buffer

  abbrev FitsWith : ℕ → (List ℕ × Printing) → Type 0
  FitsWith k r = (length r.0 ≤ k) × Fits r.1

  module _ (string_at : ℕ → List ℕ) where
    -- Where the text has at most `size` bytes, the 0 stands behind it, and the result is the length of
    -- the text, or `size - 1` if the text has filled the buffer.
    abbrev pub IsBounded : Printed → Type 0
    IsBounded r =
        (length r.text ≤ size)
        × (r.terminator ≡ some (length r.text))
        × (r.returned < size)
        × (length r.text < size → r.returned ≡ length r.text)
