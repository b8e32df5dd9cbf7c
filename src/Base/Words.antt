-- ===== src/Base/Words.antt =====
-- Go's fixed-width integers. A value of an unsigned type is its number, and a value of a signed
-- type is its two's complement bit pattern.
use due.Base.Tests.{ltb}
use Prim.Native.Nat.{ℕ, ◌+◌, ◌%◌, ◌^◌, ◌<◌}
use mathlib.Core.Bool.{Bool, ◌&&◌}

abbrev pub IsByte : ℕ → Type 0
IsByte b = b < 2 ^ 8

abbrev pub IsU16 : ℕ → Type 0
IsU16 w = w < 2 ^ 16

abbrev pub IsU32 : ℕ → Type 0
IsU32 w = w < 2 ^ 32

abbrev pub IsU64 : ℕ → Type 0
IsU64 w = w < 2 ^ 64

-- `w > 0` for the int64 whose pattern is `w`.
abbrev pub is_positive64 : ℕ → Bool
is_positive64 w = ltb 0 w && ltb w (2 ^ 63)

-- `w + 1` on uint64.
abbrev pub inc64 : ℕ → ℕ
inc64 w = (w + 1) % 2 ^ 64
