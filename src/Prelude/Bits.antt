-- ===== src/Prelude/Bits.antt =====
-- Facts about the bits of a byte, from a check of all 256 values.
use Prim.Native.Nat.{ℕ, zero, suc, ◌*◌, ◌/◌, ◌%◌, ◌<◌, bit_and}
use mathlib.Core.Path.{◌≡◌, refl}
use mathlib.Core.Bool.{Bool, true, ◌&&◌}
use native.Mathlib.Omega.{arith}
use esp32_mqtts_broker.Prelude.Tests.{◌==◌, ==_iff}

-- a test passes at every number under a limit
unfoldable pub every_under : (ℕ → Bool) → ℕ → Bool
every_under test zero = true
every_under test (suc limit) = every_under test limit && test limit

pub every_under_sound :
    (test : ℕ → Bool) (limit : ℕ)
    → every_under test limit ≡ true
    → (value : ℕ) → value < limit
    → test value ≡ true
unfolding every_under
every_under_sound test zero passed value under = absurd (omega arith)
every_under_sound test (suc limit) passed value under =
    ground (arith, λ (all : every_under test limit ≡ true). every_under_sound test limit all value)

low_seven_table : every_under (λ x. bit_and x 127 == x % 128) 256 ≡ true
unfolding every_under
low_seven_table = refl

pub bit_and_127 : (x : ℕ) → x < 256 → bit_and x 127 ≡ x % 128
bit_and_127 x h = (==_iff _ _).0 (every_under_sound _ 256 low_seven_table x h)

high_bit_table : every_under (λ x. bit_and x 128 == (x / 128) * 128) 256 ≡ true
unfolding every_under
high_bit_table = refl

pub bit_and_128 : (x : ℕ) → x < 256 → bit_and x 128 ≡ x / 128 * 128
bit_and_128 x h = (==_iff _ _).0 (every_under_sound _ 256 high_bit_table x h)
