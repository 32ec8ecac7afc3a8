-- ===== src/Prelude/Words.antt =====
-- Machine words as native numbers. `size_t` has 32 bits on the ESP32.
use Prim.Native.Nat.{ℕ}

-- 2 ^ 32, the modulus of `size_t` and `uint32_t`
abbrev pub size_mod : ℕ
size_mod = 4294967296

-- 2 ^ 16, the modulus of `uint16_t`
abbrev pub u16_mod : ℕ
u16_mod = 65536
