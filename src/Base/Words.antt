-- ===== src/Base/Words.antt =====
-- `usize` arithmetic, on 64 bits.
use Prim.Native.Nat.{ℕ, ◌+◌, ◌-◌, ◌*◌, ◌^◌}
use mathlib.Core.Path.{◌≡◌, refl}
use mathlib.Core.Option.{Option, none, some}
use native.Mathlib.Omega.{arith}
use dovecote.Base.Tests.{ltb, leb, if◌then◌else◌}

-- `usize::MAX`
abbrev pub usize_max : ℕ
usize_max = 2 ^ 64 - 1

unfoldable pub checked_add : ℕ → ℕ → Option ℕ
checked_add a b = if leb (a + b) usize_max then some (a + b) else none

unfoldable pub saturating_add : ℕ → ℕ → ℕ
saturating_add a b = if leb (a + b) usize_max then a + b else usize_max

unfoldable pub saturating_mul : ℕ → ℕ → ℕ
saturating_mul a b = if leb (a * b) usize_max then a * b else usize_max

-- `usize::max`
unfoldable pub maximum : ℕ → ℕ → ℕ
maximum a b = if ltb b a then a else b

-- The number, or the largest `usize` when it is greater.
unfoldable pub clamp : ℕ → ℕ
clamp n = if leb n usize_max then n else usize_max

-- Sums that saturate are the sum, saturated once.
pub saturating_add-clamp : (a b : ℕ) → saturating_add (clamp a) (clamp b) ≡ clamp (a + b)
unfolding saturating_add clamp
saturating_add-clamp a b = ground arith

pub saturating_add-left : (a b : ℕ) → saturating_add (clamp a) b ≡ clamp (a + b)
unfolding saturating_add clamp
saturating_add-left a b = ground arith

pub saturating_mul-clamp : (a b : ℕ) → saturating_mul a b ≡ clamp (a * b)
unfolding saturating_mul clamp
saturating_mul-clamp a b = refl
