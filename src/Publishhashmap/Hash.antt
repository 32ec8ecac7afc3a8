-- ===== src/Publishhashmap/Hash.antt =====
-- The multiplicative hash of main/includes/Publishhashmap.hpp stays inside a table of `2 ^ power` slots.
use native.Mathlib.Nat.{pow-suc, mul_comm}
use esp32_mqtts_broker.Prelude.{
  ℕ, zero, suc, ◌+◌, ◌-◌, ◌*◌, ◌/◌, ◌%◌, ◌^◌, ◌≤◌, ◌<◌, ◌≡◌, sym, ap, ◌∙◌, arith, size_mod,
}
use esp32_mqtts_broker.Publishhashmap.{knuth_hash, knuth}

pow_split : (a b : ℕ) → 2 ^ (a + b) ≡ 2 ^ a * 2 ^ b
pow_split zero b = let e : 0 + b ≡ b = omega arith in rw e (omega arith)
pow_split (suc a) b =
    let e : suc a + b ≡ suc (a + b) = omega arith in
    rw (e, pow-suc 2 (a + b), pow-suc 2 a) (grind (arith, pow_split a b))

pub pow_pos : (a : ℕ) → 0 < 2 ^ a
pow_pos zero = omega arith
pow_pos (suc a) = rw pow-suc (omega (arith, pow_pos a))

div-lt : (x d e : ℕ) → x < d * e → x / d < e
div-lt x d e h = grind arith

-- The hash of an identifier is the index of a slot, for every power up to 32.
pub knuth_hash-lt : (power x : ℕ) → power ≤ 32 → knuth_hash power x < 2 ^ power
unfolding knuth_hash
knuth_hash-lt power x h =
    let total : power + (32 - power) ≡ 32 = omega arith in
    let whole : 2 ^ power * 2 ^ (32 - power) ≡ size_mod =
      sym (pow_split power (32 - power)) ∙ ap (λ (n : ℕ). 2 ^ n) total in
    div-lt (x * knuth % size_mod) (2 ^ (32 - power)) (2 ^ power)
      (omega (arith, whole, mul_comm (2 ^ power) (2 ^ (32 - power))))

pow_mono : (a b : ℕ) → 2 ^ a ≤ 2 ^ (a + b)
pow_mono a b = rw (pow_split a b) (grind (arith, pow_pos b))

pub pow_bounds : (power : ℕ) → 0 < power → power < 32 → (1 < 2 ^ power) × (2 ^ power < size_mod)
pow_bounds power lo hi =
    let below : 1 + (power - 1) ≡ power = omega arith in
    let above : power + (31 - power) ≡ 31 = omega arith in
    (
      omega (arith, rw below at (pow_mono 1 (power - 1))),
      omega (arith, rw above at (pow_mono power (31 - power))),
    )
