-- ===== src/Base/Int.antt =====
-- Signed amounts: what `parseFloat` gives for a text of a request, in units of 10^-7.
use Prim.Native.Nat.{ℕ}

-- `negsuc n` is -(n + 1).
pub data ℤ : Type 0 where
  pos : ℕ → ℤ
  negsuc : ℕ → ℤ
