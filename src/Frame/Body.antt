-- ===== src/Frame/Body.antt =====
-- The loop of main/worker.cpp that reads the rest of a packet in pieces.
use esp32_mqtts_broker.Prelude.{
  ℕ, zero, suc, ◌+◌, ◌-◌, ◌≤◌, ◌<◌, ◌≡◌, refl, ◌∙◌, none, some, List, [], ◌∷◌, ◌++◌, arith, ltb,
  leb, if◌then◌else◌, length, set, take, drop, true, false,
}
use esp32_mqtts_broker.Run.{ok}
use esp32_mqtts_broker.Frame.{write_bytes, piece, read_body, buff_size}

drop-drop : (n m : ℕ) (xs : List ℕ) → n ≤ length xs → drop m (drop n xs) ≡ drop (n + m) xs
drop-drop zero m xs h = let e : 0 + m ≡ m = omega arith in rw e refl
drop-drop (suc n) m [] h = absurd (omega arith)
drop-drop (suc n) m (x ∷ xs) h =
    let e : suc n + m ≡ suc (n + m) = omega arith in rw e (drop-drop n m xs (omega arith))

length-drop : (n : ℕ) (xs : List ℕ) → n ≤ length xs → length (drop n xs) + n ≡ length xs
length-drop zero xs h = omega arith
length-drop (suc n) [] h = absurd (omega arith)
length-drop (suc n) (x ∷ xs) h = omega (arith, length-drop n xs (omega arith))

-- two pieces, one behind the other, are one
write_bytes-take :
    (n m : ℕ) (xs buf : List ℕ) (pos : ℕ)
    → n ≤ length xs
    → write_bytes (write_bytes buf pos (take n xs)) (pos + n) (take m (drop n xs))
      ≡ write_bytes buf pos (take (n + m) xs)
unfolding write_bytes
write_bytes-take zero m xs buf pos h =
    let e : 0 + m ≡ m = omega arith in let f : pos + 0 ≡ pos = omega arith in rw (e, f) refl
write_bytes-take (suc n) m [] buf pos h = absurd (omega arith)
write_bytes-take (suc n) m (x ∷ xs) buf pos h =
    let e : suc n + m ≡ suc (n + m) = omega arith in
    let f : pos + suc n ≡ pos + 1 + n = omega arith in
    rw (e, f) (write_bytes-take n m xs (set buf pos x) (pos + 1) (omega arith))

piece-bounds :
    (conn : ℕ → ℕ) (missing there : ℕ)
    → 0 < missing
    → 0 < there
    → (0 < piece conn missing there)
      × (piece conn missing there ≤ missing)
      × (piece conn missing there ≤ there)
piece-bounds conn missing there h g = ground arith

write_bytes-nil : (buf : List ℕ) (pos : ℕ) → write_bytes buf pos [] ≡ buf
unfolding write_bytes
write_bytes-nil buf pos = refl

pub write_bytes-append :
    (xs ys buf : List ℕ) (pos : ℕ)
    → write_bytes buf pos (xs ++ ys) ≡ write_bytes (write_bytes buf pos xs) (pos + length xs) ys
unfolding write_bytes
write_bytes-append [] ys buf pos = let e : pos + 0 ≡ pos = omega arith in rw e refl
write_bytes-append (x ∷ xs) ys buf pos =
    let e : pos + suc (length xs) ≡ pos + 1 + length xs = omega arith in
    rw e (write_bytes-append xs ys (set buf pos x) (pos + 1))

leb-less : (n a b c : ℕ) → b + n ≡ c → n ≤ a → leb (a - n) b ≡ leb a c
leb-less n a b c h g = ground arith

-- Where there is room in `buf`, the loop ends after at most as many rounds as bytes are missing. If
-- the connection has them all, they stand in `buf` in order, in whatever pieces they came, and what
-- comes behind them is left to be read; if it ends before, the loop reports the error.
pub read_body-whole :
    (conn : ℕ → ℕ) (fuel missing pos : ℕ) (stream buf : List ℕ)
    → missing ≤ fuel
    → pos + missing ≤ buff_size
    → read_body fuel conn stream buf pos missing
      ≡ ok (
          if leb missing (length stream)
          then some (write_bytes buf pos (take missing stream), drop missing stream)
          else none)
unfolding read_body
read_body-whole conn fuel zero pos stream buf enough room =
    let e : leb 0 (length stream) ≡ true = ground arith in rw (e, write_bytes-nil buf pos) refl
read_body-whole conn zero (suc missing) pos stream buf enough room = absurd (omega arith)
read_body-whole conn (suc fuel) (suc missing) pos [] buf enough room =
    let e : leb (suc missing) 0 ≡ false = ground arith in rw e refl
read_body-whole conn (suc fuel) (suc missing) pos (b ∷ stream) buf enough room =
    let all = b ∷ stream in
    let n = piece conn (suc missing) (length all) in
    let (some_byte, asked, there) =
      piece-bounds conn (suc missing) (length all) (omega arith) (omega arith) in
    let inside : ltb buff_size (pos + n) ≡ false = ground arith in
    let rest =
      read_body-whole conn fuel (suc missing - n) (pos + n) (drop n all)
        (write_bytes buf pos (take n all)) (omega arith) (omega arith) in
    let left : length (drop n all) + n ≡ length all = length-drop n all there in
    let total : n + (suc missing - n) ≡ suc missing = omega arith in
    let written = write_bytes-take n (suc missing - n) all buf pos there in
    let dropped = drop-drop n (suc missing - n) all there in
    let test : leb (suc missing - n) (length (drop n all)) ≡ leb (suc missing) (length all) =
      leb-less n (suc missing) _ _ left asked in
    rw (inside, read_body) (rest ∙ rw (test, written, dropped, total) refl)
