-- ===== src/Frame/Length.antt =====
-- The remaining length that `read_length` finds, against the encoding of MQTT 3.1.1.
use native.Mathlib.Nat.{pow-suc}
use esp32_mqtts_broker.Prelude.{
  ℕ, zero, suc, ◌+◌, ◌*◌, ◌/◌, ◌%◌, ◌≤◌, ◌<◌, ◌≡◌, refl, ◌∙◌, false, some, List, [], ◌∷◌, ◌++◌,
  arith, ltb, if◌then◌else◌, length, bit_and, u16_mod, bit_and_127, bit_and_128, ◌^◌, ap,
  Bool-cases, inl, inr, ltb→lt,
}
use esp32_mqtts_broker.Run.{ok, fault, out_of_range}
use esp32_mqtts_broker.Frame.{
  Reading, take_byte, read_length, buff_size, start_reading, write_bytes,
}

abbrev counted : ℕ → Reading → Reading
counted b r = record (take_byte b r) { additional_packet_len = (r.additional_packet_len + 1) % 256 }

-- The test for a malformed length compares a 16-bit number with 2 ^ 21: it never fires.
multiplier_small : (m : ℕ) → ltb (128 * 128 * 128) (m * 128 % u16_mod) ≡ false
multiplier_small m = ground arith

continues :
    (b : ℕ) (stream : List ℕ) (r : Reading)
    → b < 256
    → 128 ≤ b
    → r.pos < buff_size
    → read_length (b ∷ stream) r ≡ read_length stream (counted b r)
unfolding read_length
continues b stream r byte high inside =
    ground (arith, multiplier_small r.multiplier, bit_and_128 b byte)

stops :
    (b : ℕ) (stream : List ℕ) (r : Reading)
    → b < 128
    → r.pos < buff_size
    → read_length (b ∷ stream) r ≡ ok (some (counted b r, stream))
unfolding read_length
stops b stream r low inside =
    ground (arith, multiplier_small r.multiplier, bit_and_128 b (omega arith))

-- the specification: seven bits to a byte, least significant first, at most four bytes
unfoldable pub encode_length : ℕ → ℕ → List ℕ
encode_length zero n = []
encode_length (suc fuel) n =
    let rest = encode_length fuel (n / 128) in if ltb n 128 then n ∷ [] else (n % 128 + 128) ∷ rest

-- every byte says that another follows
abbrev pub Continues : List ℕ → Type 0
Continues [] = Unit {0}
Continues (b ∷ bs) = (128 ≤ b) × (b < 256) × Continues bs

-- The bound that is missing: bytes that all announce another one are written one behind the other,
-- and with more of them than `buf` has room from the position on, one is written behind its end.
pub read_length_overruns :
    (bytes stream : List ℕ) (r : Reading)
    → Continues bytes
    → r.pos ≤ buff_size
    → buff_size < r.pos + length bytes
    → read_length (bytes ++ stream) r ≡ fault out_of_range
read_length_overruns [] stream r all inside long = absurd (omega arith)
read_length_overruns (b ∷ bytes) stream r all inside long =
    elim (Bool-cases (ltb r.pos buff_size)) [
      | inl before ↦
          continues b (bytes ++ stream) r all.1 all.0 (ltb→lt r.pos buff_size before)
          ∙ read_length_overruns bytes stream (counted b r) all.2
              (omega (arith, ltb→lt r.pos buff_size before)) (omega arith)
      | inr at_end ↦ unfold read_length in ground arith
    ]

-- one digit more of the length, modulo 2 ^ 16
digit_mod :
    (sum n m : ℕ)
    → ((sum + n % 128 * m) % u16_mod + n / 128 * (m * 128 % u16_mod)) % u16_mod
      ≡ (sum + n * m) % u16_mod
digit_mod sum n m =
    let q = n / 128 in
    let t = m * 128 / u16_mod in
    let rest = m * 128 % u16_mod in
    let whole : m * 128 ≡ u16_mod * t + rest = omega arith in
    let parts : n ≡ q * 128 + n % 128 = omega arith in
    let scaled : q * (m * 128) ≡ q * (u16_mod * t + rest) = ap (λ x. q * x) whole in
    let spread : n * m ≡ (q * 128 + n % 128) * m = ap (λ x. x * m) parts in
    omega (arith, scaled, spread)

-- what is known when the loop has ended at the length `n`
pub record Decoded (n : ℕ) (code : List ℕ) (r r' : Reading) : Type 0 where
  pub value : r'.packet_length ≡ (r.packet_length + n * r.multiplier) % u16_mod
  pub place : r'.pos ≡ r.pos + length code
  pub header : r'.additional_packet_len ≡ (r.additional_packet_len + length code) % 256
  pub bytes : r'.buf ≡ write_bytes r.buf r.pos code

one_digit : 128 ^ 1 ≡ 128
one_digit = refl

pow_down : (f n : ℕ) → n < 128 ^ suc (suc f) → n / 128 < 128 ^ suc f
pow_down f n h = omega (arith, pow-suc 128 (suc f))

encode-last : (f n : ℕ) → n < 128 → encode_length (suc f) n ≡ n ∷ []
unfolding encode_length
encode-last f n h = ground arith

encode-more :
    (f n : ℕ) → 128 ≤ n → encode_length (suc f) n ≡ (n % 128 + 128) ∷ encode_length f (n / 128)
unfolding encode_length
encode-more f n h = ground arith

encoded_last :
    (n : ℕ) (rest : List ℕ) (r : Reading)
    → n < 128
    → r.pos < buff_size
    → (r' : Reading) × (read_length (n ∷ rest) r ≡ ok (some (r', rest))) × Decoded n (n ∷ []) r r'
encoded_last n rest r few inside =
    let digit : bit_and n 127 ≡ n = bit_and_127 n (omega arith) ∙ omega arith in
    (
      counted n r,
      stops n rest r few inside,
      record {
        value = rw digit refl;
        place = omega arith;
        header = omega arith;
        bytes = unfold write_bytes in refl;
      },
    )

read_length-encode_from :
    (f n : ℕ) (rest : List ℕ) (r : Reading)
    → n < 128 ^ suc f
    → r.pos + f < buff_size
    → r.additional_packet_len < 256
    → (r' : Reading) × (read_length (encode_length (suc f) n ++ rest) r ≡ ok (some (r', rest)))
      × Decoded n (encode_length (suc f) n) r r'
read_length-encode_from zero n rest r small room byte =
    let few : n < 128 = omega (arith, small, one_digit) in
    let only : encode_length 1 n ≡ n ∷ [] = encode-last 0 n few in
    rw only (encoded_last n rest r few (omega arith))
read_length-encode_from (suc f) n rest r small room byte = elim (Bool-cases (ltb n 128)) [
  | inl last ↦
      let few = ltb→lt n 128 last in
      rw (encode-last (suc f) n few) (encoded_last n rest r few (omega arith))
  | inr more ↦
      let b = n % 128 + 128 in
      let digit : bit_and b 127 ≡ n % 128 = bit_and_127 b (omega arith) ∙ omega arith in
      let (r', run, d) =
        read_length-encode_from f (n / 128) rest (counted b r) (pow_down f n small) (omega arith)
          (omega arith) in
      rw (encode-more (suc f) n (ground arith)) (
        r',
        continues b (encode_length (suc f) (n / 128) ++ rest) r (omega arith) (omega arith)
              (omega arith)
            ∙ run,
        record {
          value = d.value ∙ rw digit (digit_mod r.packet_length n r.multiplier);
          place = omega (arith, d.place);
          header = omega (arith, d.header);
          bytes = d.bytes ∙ unfold write_bytes in refl;
        },
      )
]

pub length-encode_length : (fuel n : ℕ) → length (encode_length fuel n) ≤ fuel
unfolding encode_length
length-encode_length zero n = omega arith
length-encode_length (suc fuel) n = ground (arith, length-encode_length fuel (n / 128))

-- The length that the loop finds is the encoded one modulo 2 ^ 16, for every length of MQTT 3.1.1,
-- which has at most four bytes; the bytes read stand in `buf` behind the header byte, what follows
-- them is left to be read, and the header length counts them. So a length of 65536 or more is taken
-- for a smaller one.
pub read_length-encode_length :
    (n : ℕ) (rest buf : List ℕ) (header : ℕ)
    → n < 128 ^ 4
    → (r' : Reading) × (read_length (encode_length 4 n ++ rest) (start_reading buf header)
        ≡ ok (some (r', rest)))
      × (r'.packet_length ≡ n % u16_mod)
      × (r'.pos ≡ length (encode_length 4 n) + 1)
      × (r'.additional_packet_len ≡ length (encode_length 4 n) + 1)
      × (r'.buf ≡ write_bytes buf 0 (header ∷ encode_length 4 n))
read_length-encode_length n rest buf header small =
    let (r', run, d) =
      read_length-encode_from 3 n rest (start_reading buf header) small (omega arith)
        (omega arith) in
    (
      r',
      run,
      omega (arith, d.value),
      omega (arith, d.place),
      omega (arith, d.header, length-encode_length 4 n),
      d.bytes ∙ unfold write_bytes in refl,
    )
