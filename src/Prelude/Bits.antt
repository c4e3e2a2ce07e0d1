-- ===== src/Prelude/Bits.antt =====
-- Laws of the bit operations on bytes, each checked at all 256 values.
use Prim.Native.Nat.{ℕ, zero, suc, ◌/◌, ◌%◌, ◌<◌, bit_and, bit_or}
use mathlib.Core.Path.{◌≡◌, refl}
use mathlib.Core.Bool.{Bool, true, ◌&&◌}
use native.Mathlib.Omega.{arith}
use traffic_director.Prelude.Tests.{◌==◌, ltb}

-- A `u8` is a number below 256.
abbrev pub IsByte : ℕ → Type 0
IsByte x = x < 256

holds_below : (ℕ → Bool) → ℕ → Bool
holds_below p zero = true
holds_below p (suc n) = let rest = holds_below p n in p n && rest

-- A test that succeeds below `n` succeeds at each number there.
holds_below-at : (p : ℕ → Bool) (n x : ℕ) → x < n → holds_below p n ≡ true → p x ≡ true
unfolding holds_below
holds_below-at p (suc n) x lt h = ground (arith, holds_below-at p n x)
holds_below-at p zero x lt h = absurd (omega arith)

dup_table :
    holds_below
      (λ x.
        (bit_or x 8 / 16 == x / 16)
        && (bit_or x 8 % 8 == x % 8)
        && (bit_and (bit_or x 8) 8 == 8)
        && ltb (bit_or x 8) 256)
      256
    ≡ true
unfolding holds_below
dup_table = refl

-- Setting bit 3 of a byte keeps the high nibble and the three low bits.
pub bit_or_eight :
    (x : ℕ)
    → IsByte x
    → (bit_or x 8 / 16 ≡ x / 16)
      × (bit_or x 8 % 8 ≡ x % 8)
      × (bit_and (bit_or x 8) 8 ≡ 8)
      × IsByte (bit_or x 8)
bit_or_eight x h = ground (arith, holds_below-at _ 256 x h dup_table)

clear_table :
    holds_below
      (λ x.
        (bit_and x 0xfd / 4 == x / 4)
        && (bit_and x 0xfd % 2 == x % 2)
        && (bit_and x 0xfd / 2 % 2 == 0)
        && ltb (bit_and x 0xfd) 256)
      256
    ≡ true
unfolding holds_below
clear_table = refl

-- Masking a byte by `!0x02` clears bit 1 and keeps the other bits.
pub bit_and_fd :
    (x : ℕ)
    → IsByte x
    → (bit_and x 0xfd / 4 ≡ x / 4)
      × (bit_and x 0xfd % 2 ≡ x % 2)
      × (bit_and x 0xfd / 2 % 2 ≡ 0)
      × IsByte (bit_and x 0xfd)
bit_and_fd x h = ground (arith, holds_below-at _ 256 x h clear_table)
