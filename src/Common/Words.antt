-- ===== src/Common/Words.antt =====
-- Machine integers of the x86-64 Linux build: `size_t` (64 bits, unsigned) and `int` (32 bits).
use Prim.Native.Nat.{ℕ, ◌+◌, ◌-◌, ◌%◌, ◌^◌, ◌<◌}
use mathlib.Core.Path.{◌≡◌}
use native.Mathlib.Omega.{arith}
use my_cpp_code.Common.Tests.{ltb, if◌then◌else◌}

abbrev pub size_mod : ℕ
size_mod = 2 ^ 64

abbrev pub int_mod : ℕ
int_mod = 2 ^ 32

-- One more than the greatest `int`.
abbrev pub int_limit : ℕ
int_limit = 2 ^ 31

abbrev pub add_size : ℕ → ℕ → ℕ
add_size a b = (a + b) % size_mod

-- `-` on ℕ stops at 0, so the modulus is added first.
abbrev pub sub_size : ℕ → ℕ → ℕ
sub_size a b = (a + size_mod - b) % size_mod

-- A `size_t` passed as an `int` and used as a `size_t` again: the low 32 bits, sign-extended.
unfoldable pub size_of_int : ℕ → ℕ
size_of_int n =
    let low = n % int_mod in if ltb low int_limit then low else low + (size_mod - int_mod)

pub size_of_int_small : (n : ℕ) → n < int_limit → size_of_int n ≡ n
unfolding size_of_int
size_of_int_small n h = ground arith
