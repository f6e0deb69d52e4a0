-- ===== src/Base/Words.antt =====
-- 64-bit machine words. An int64, a uint64, an int or a time.Duration is the number below 2 ^ 64
-- with the same bit pattern (two's complement for the signed types), so a conversion between int64
-- and uint64 is the identity, and arithmetic wraps around modulo 2 ^ 64.
use Prim.Native.Nat.{ℕ, ◌+◌, ◌-◌, ◌/◌, ◌%◌, ◌^◌, min}
use mathlib.Core.Bool.{Bool, ◌&&◌}
use directory_size_exporter.Base.Tests.{ltb, leb, if◌then◌else◌}

abbrev pub add64 : ℕ → ℕ → ℕ
add64 a b = (a + b) % 2 ^ 64

abbrev pub sub64 : ℕ → ℕ → ℕ
sub64 a b = (a + 2 ^ 64 - b % 2 ^ 64) % 2 ^ 64

abbrev pub neg64 : ℕ → ℕ
neg64 a = sub64 0 a

-- The sign tests of the signed types.
abbrev pub is_neg64 : ℕ → Bool
is_neg64 a = leb (2 ^ 63) a

abbrev pub is_pos64 : ℕ → Bool
is_pos64 a = ltb 0 a && ltb a (2 ^ 63)

-- `a < b` and `a <= b` on the signed types: adding 2 ^ 63 turns the signed order into that of ℕ.
abbrev pub lt64 : ℕ → ℕ → Bool
lt64 a b = ltb ((a + 2 ^ 63) % 2 ^ 64) ((b + 2 ^ 63) % 2 ^ 64)

abbrev pub le64 : ℕ → ℕ → Bool
le64 a b = leb ((a + 2 ^ 63) % 2 ^ 64) ((b + 2 ^ 63) % 2 ^ 64)

-- A time.Time is a number of nanoseconds since the Unix epoch. `t.Sub(u)` is a time.Duration and
-- saturates at the bounds of int64, as the package time documents.
unfoldable pub time_sub : ℕ → ℕ → ℕ
time_sub t u = if leb u t then min (t - u) (2 ^ 63 - 1) else 2 ^ 64 - min (u - t) (2 ^ 63)

-- `t.Unix()`
abbrev pub unix : ℕ → ℕ
unix t = t / 1_000_000_000

abbrev pub second : ℕ
second = 1_000_000_000
