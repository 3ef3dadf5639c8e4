-- ===== src/Base/Words.antt =====
-- What the code does with a `u64` or `usize` near its bounds: checked and saturating arithmetic.
use Prim.Native.Nat.{ℕ, ◌+◌, ◌-◌, ◌*◌, ◌^◌}
use mathlib.Core.Option.{Option, none, some}
use git_ents.Base.Tests.{if◌then◌else◌, leb, ltb}

-- One more than the largest `u64`.
abbrev pub u64_mod : ℕ
u64_mod = 2 ^ 64

abbrev pub fits : ℕ → Option ℕ
fits n = if ltb n u64_mod then some n else none

abbrev pub checked_add : ℕ → ℕ → Option ℕ
checked_add a b = fits (a + b)

abbrev pub checked_mul : ℕ → ℕ → Option ℕ
checked_mul a b = fits (a * b)

abbrev pub checked_sub : ℕ → ℕ → Option ℕ
checked_sub a b = if leb b a then some (a - b) else none

abbrev pub min : ℕ → ℕ → ℕ
min a b = if leb a b then a else b

abbrev pub saturating_add : ℕ → ℕ → ℕ
saturating_add a b = min (a + b) (u64_mod - 1)
