-- ===== src/Base/Words.antt =====
-- The machine numbers of the x86 kernel. An `uint` is a number below 2 ^ 32, an `int` is the
-- 32-bit pattern that the machine holds, and the signed order compares the patterns shifted by 2 ^ 31.
use Prim.Native.Nat.{ℕ, ◌+◌, ◌-◌, ◌*◌, ◌%◌, ◌^◌}
use mathlib.Core.Bool.{Bool}
use xv6_public_os_project.Base.Tests.{ltb, ◌==◌}

abbrev pub word : ℕ
word = 2 ^ 32

abbrev pub half_word : ℕ
half_word = 2 ^ 31

abbrev pub add32 : ℕ → ℕ → ℕ
add32 a b = (a + b) % word

abbrev pub sub32 : ℕ → ℕ → ℕ
sub32 a b = (a + word - b) % word

abbrev pub mul32 : ℕ → ℕ → ℕ
mul32 a b = a * b % word

-- The place of an `int` pattern in the signed order, counted from the least `int`.
abbrev pub signed_key : ℕ → ℕ
signed_key a = (a + half_word) % word

-- `a < b` of two ints.
abbrev pub int_lt : ℕ → ℕ → Bool
int_lt a b = ltb (signed_key a) (signed_key b)

-- The pattern of -1, by which the system calls report an error.
abbrev pub minus_one : ℕ
minus_one = word - 1

-- `a == b` of two ints.
abbrev pub int_eq : ℕ → ℕ → Bool
int_eq a b = signed_key a == signed_key b
