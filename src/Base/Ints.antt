-- ===== src/Base/Ints.antt =====
-- Integers with a sign, and what becomes of a `size_t` that is returned as an `int` of 32 bits.
use Prim.Native.Nat.{ℕ, ◌+◌, ◌-◌, ◌%◌, ◌^◌, ◌<◌}
use mathlib.Core.Path.{◌≡◌}
use mathlib.Core.Bool.{Bool, true, false}
use native.Mathlib.Omega.{arith}
use yk_server.Base.Tests.{if◌then◌else◌, ltb, lt→ltb}

-- `negsuc n` is -(n + 1).
pub data ℤ : Type 0 where
  pos : ℕ → ℤ
  negsuc : ℕ → ℤ

abbrev pub signed : ℕ → ℤ
signed r = if ltb r (2 ^ 31) then pos r else negsuc (2 ^ 32 - 1 - r)

-- `(int) n`
unfoldable pub to_int : ℕ → ℤ
to_int n = signed (n % 2 ^ 32)

-- `v > 0`
abbrev pub is_positive : ℤ → Bool
is_positive (pos n) = ltb 0 n
is_positive (negsuc n) = false

-- `(size_t) v` for the `int` that has the pattern `n`.
unfoldable pub size_of_int : ℕ → ℕ
size_of_int n = if ltb n (2 ^ 31) then n else 2 ^ 64 - 2 ^ 32 + n

pub to_int-small : (n : ℕ) → n < 2 ^ 31 → to_int n ≡ pos n
unfolding to_int
to_int-small n h = ground arith

pub is_positive-to_int : (n : ℕ) → 0 < n → n < 2 ^ 31 → is_positive (to_int n) ≡ true
is_positive-to_int n some_byte h = rw (to_int-small n h) (lt→ltb 0 n some_byte)

pub size_of_int-small : (n : ℕ) → n < 2 ^ 31 → size_of_int n ≡ n
unfolding size_of_int
size_of_int-small n h = ground arith
