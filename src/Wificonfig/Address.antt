-- ===== src/Wificonfig/Address.antt =====
-- `ip_conversion` of main/wificonfig.cpp on an address as it is written.
use esp32_mqtts_broker.Prelude.{
  ℕ, ◌+◌, ◌-◌, ◌*◌, ◌/◌, ◌%◌, ◌^◌, ◌<◌, ◌≡◌, refl, sym, ap, ◌∙◌, true, false, List, [], ◌∷◌, ◌++◌,
  arith, ◌==◌, ltb, if◌then◌else◌, size_mod, Bool-cases, inl, inr,
}
use esp32_mqtts_broker.Run.{ok, ◌>>=◌}
use esp32_mqtts_broker.Wificonfig.{Conversion, shift_in, convert, ip_conversion}
use esp32_mqtts_broker.Wificonfig.Shift.{doubled, bit_or-doubled}

abbrev pub digit : ℕ → ℕ
digit n = n + b'0'

-- a number below 256 in decimal digits
unfoldable pub decimal : ℕ → List ℕ
decimal n =
    if ltb n 10
    then digit n ∷ []
    else (if ltb n 100
        then digit (n / 10) ∷ digit (n % 10) ∷ []
        else digit (n / 100) ∷ digit (n / 10 % 10) ∷ digit (n % 10) ∷ [])

abbrev pub dotted : ℕ → ℕ → ℕ → ℕ → List ℕ
dotted a b c d = decimal a ++ (b'.' ∷ (decimal b ++ (b'.' ∷ (decimal c ++ (b'.' ∷ decimal d)))))

-- a digit is read
convert-digit :
    (s : Conversion) (n : ℕ) (ip : List ℕ)
    → n < 10
    → s.curval < 1000
    → convert s (digit n ∷ ip) ≡ convert (record s { curval = s.curval * 10 + n }) ip
unfolding convert
convert-digit s n ip one small =
    let differs : (n + b'0' == b'.') ≡ false = ground arith in
    let value : (s.curval * 10 + (n + b'0' + size_mod - b'0')) % size_mod ≡ s.curval * 10 + n =
      omega arith in
    rw (differs, convert, value) refl

-- the digits of a number are read
convert-decimal :
    (s : Conversion) (n : ℕ) (ip : List ℕ)
    → n < 256
    → s.curval ≡ 0
    → convert s (decimal n ++ ip) ≡ convert (record s { curval = n }) ip
unfolding decimal
convert-decimal s n ip small clear = elim (Bool-cases (ltb n 10)) [
  | inl one ↦ rw one (
      convert-digit s n ip (ground arith) (omega arith)
      ∙ ap (λ v. convert (record s { curval = v }) ip) (omega arith))
  | inr more ↦ elim (Bool-cases (ltb n 100)) [
    | inl two ↦
        let s1 = record s { curval = s.curval * 10 + n / 10 } in
        rw (more, two)
          (convert-digit s (n / 10) (digit (n % 10) ∷ ip) (ground arith) (omega arith)
            ∙ convert-digit s1 (n % 10) ip (omega arith) (ground arith)
            ∙ ap (λ v. convert (record s { curval = v }) ip) (omega arith))
    | inr three ↦
        let s1 = record s { curval = s.curval * 10 + n / 100 } in
        let s2 = record s { curval = s1.curval * 10 + n / 10 % 10 } in
        rw (more, three)
          (convert-digit s (n / 100) (digit (n / 10 % 10) ∷ (digit (n % 10) ∷ ip)) (omega arith)
              (omega arith)
            ∙ convert-digit s1 (n / 10 % 10) (digit (n % 10) ∷ ip) (omega arith) (omega arith)
            ∙ convert-digit s2 (n % 10) ip (omega arith) (omega arith)
            ∙ ap (λ v. convert (record s { curval = v }) ip) (omega arith))
  ]
]

-- a number is shifted in above what is there
shift_in-doubled :
    (x n k : ℕ)
    → ltb k 32 ≡ true
    → n * 2 ^ k % size_mod ≡ doubled k n
    → x < doubled k 1
    → shift_in (record { converted = x; curval = n; shift = k }) ≡ ok (x + doubled k n)
unfolding shift_in
shift_in-doubled x n k below fits low = rw (below, fits) (ap ok (bit_or-doubled k x n low))

-- a number and the dot behind it are read
convert-part :
    (x n k : ℕ) (ip : List ℕ)
    → n < 256
    → ltb k 32 ≡ true
    → n * 2 ^ k % size_mod ≡ doubled k n
    → x < doubled k 1
    → convert (record { converted = x; curval = 0; shift = k }) (decimal n ++ (b'.' ∷ ip))
      ≡ convert (record { converted = x + doubled k n; curval = 0; shift = (k + 8) % 256 }) ip
unfolding convert
convert-part x n k ip small below fits low =
    convert-decimal (record { converted = x; curval = 0; shift = k }) n (b'.' ∷ ip) small refl
    ∙ rw (shift_in-doubled x n k below fits low, ◌>>=◌) refl

append_nil : (xs : List ℕ) → xs ++ [] ≡ xs
append_nil [] = refl
append_nil (x ∷ xs) = ap (λ ys. x ∷ ys) (append_nil xs)

-- An address of four numbers below 256, written in decimal digits with dots between them, is
-- converted to the number whose bytes they are, the first one lowest.
pub ip_conversion-dotted :
    (a b c d : ℕ)
    → a < 256
    → b < 256
    → c < 256
    → d < 256
    → ip_conversion (dotted a b c d) ≡ ok (a + b * 256 + c * 65536 + d * 16777216)
unfolding ip_conversion convert
ip_conversion-dotted a b c d ha hb hc hd =
    let x1 = 0 + doubled 0 a in
    let x2 = x1 + doubled 8 b in
    let x3 = x2 + doubled 16 c in
    let read : convert (record { converted = 0; curval = 0; shift = 0 }) (dotted a b c d)
        ≡ ok (record { converted = x3; curval = d; shift = 24 }) =
      convert-part 0 a 0 (decimal b ++ (b'.' ∷ (decimal c ++ (b'.' ∷ decimal d)))) ha refl
        (omega arith) (omega arith)
      ∙ convert-part x1 b 8 (decimal c ++ (b'.' ∷ decimal d)) hb refl (omega arith) (omega arith)
      ∙ convert-part x2 c 16 (decimal d) hc refl (omega arith) (omega arith)
      ∙ ap (convert (record { converted = x3; curval = 0; shift = 24 }))
          (sym (append_nil (decimal d)))
      ∙ convert-decimal (record { converted = x3; curval = 0; shift = 24 }) d [] hd refl in
    rw (read, ◌>>=◌)
      (shift_in-doubled x3 d 24 refl (omega arith) (omega arith) ∙ ap ok (omega arith))
