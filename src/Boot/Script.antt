-- ===== src/Boot/Script.antt =====
-- Calls of the printing functions of kernel/printk.c, one after the other.
pub mod Fine
use knos.Base.{ℕ, List, [], ◌∷◌, Result, ok, ◌>>=◌}
use knos.Printk.Console.{Geometry, Console, color_printk, printk, logk, warnk, errk, fatalk}

-- A call with its format and arguments; `color_printk` has the two colours before them.
pub data Call : Type 0 where
  printk_call logk_call warnk_call errk_call fatalk_call : List ℕ → List ℕ → Call
  color_printk_call : ℕ → ℕ → List ℕ → List ℕ → Call

module _ (font : ℕ → ℕ → ℕ) (g : Geometry) (string_at : ℕ → List ℕ) where
  -- The returned number is not used.
  unfoldable pub say : Call → Console → Result Console
  say (printk_call fmt args) s = printk font g string_at fmt args s >>= λ r. ok r.0
  say (logk_call fmt args) s = logk font g string_at fmt args s >>= λ r. ok r.0
  say (warnk_call fmt args) s = warnk font g string_at fmt args s >>= λ r. ok r.0
  say (errk_call fmt args) s = errk font g string_at fmt args s >>= λ r. ok r.0
  say (fatalk_call fmt args) s = fatalk font g string_at fmt args s >>= λ r. ok r.0
  say (color_printk_call fg bg fmt args) s =
      color_printk font g string_at fg bg fmt args s >>= λ r. ok r.0

  unfoldable pub say_all : List Call → Console → Result Console
  say_all [] s = ok s
  say_all (c ∷ cs) s = say c s >>= λ s'. say_all cs s'
