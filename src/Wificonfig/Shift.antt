-- ===== src/Wificonfig/Shift.antt =====
-- A number in the low bits, and another one above them.
use Prim.Native.Nat.{digits, max, bit_or-bitwise}
use esp32_mqtts_broker.Prelude.{ℕ, zero, suc, ◌+◌, ◌*◌, ◌/◌, ◌%◌, ◌≤◌, ◌<◌, ◌≡◌, ◌∙◌, arith, bit_or}

abbrev or_digits : ℕ → ℕ → ℕ → ℕ
or_digits n a b = digits (λ b. b) max n a b

-- `b` shifted by `k` bits
abbrev pub doubled : ℕ → ℕ → ℕ
doubled zero b = b
doubled (suc k) b = doubled k b * 2

or_digits-doubled :
    (k n a b : ℕ) → a ≤ n → a < doubled k 1 → or_digits n a (doubled k b) ≡ a + doubled k b
or_digits-doubled k zero zero b fuel low = omega arith
or_digits-doubled k zero (suc a) b fuel low = absurd (omega arith)
or_digits-doubled k (suc n) zero b fuel low = omega arith
or_digits-doubled zero (suc n) (suc a) b fuel low = absurd (omega arith)
or_digits-doubled (suc k) (suc n) (suc a) b fuel low =
    let half : doubled k b * 2 / 2 ≡ doubled k b = omega arith in
    let even : doubled k b * 2 % 2 ≡ 0 = omega arith in
    let rest = or_digits-doubled k n (suc a / 2) b (omega arith) (omega arith) in
    rw (half, even, rest) (omega arith)

-- where the bits do not overlap, `|` adds
pub bit_or-doubled : (k a b : ℕ) → a < doubled k 1 → bit_or a (doubled k b) ≡ a + doubled k b
bit_or-doubled k a b low =
    bit_or-bitwise a (doubled k b) ∙ or_digits-doubled k a a b (omega arith) low
