-- ===== src/Worker/Arriving.antt =====
-- An acknowledgement that comes on a connection, in the buffer of main/worker.cpp.
use esp32_mqtts_broker.Prelude.{ℕ, ◌+◌, ◌*◌, ◌≤◌, ◌≡◌, refl, List, [], ◌∷◌, arith, length}
use esp32_mqtts_broker.Frame.{write_bytes}
use esp32_mqtts_broker.Session.Chain.{Acks}
use esp32_mqtts_broker.Worker.{Arrival}

-- an acknowledgement of four bytes at the start of `buf`
pub ack_bytes :
    (buf : List ℕ) (kind low high id : ℕ)
    → 4 ≤ length buf
    → high * 256 + low ≡ id
    → Acks id (write_bytes buf 0 (kind ∷ 2 ∷ low ∷ high ∷ [])) 4
unfolding write_bytes
ack_bytes [] kind low high id room e = absurd (omega arith)
ack_bytes (x ∷ []) kind low high id room e = absurd (omega arith)
ack_bytes (x ∷ y ∷ []) kind low high id room e = absurd (omega arith)
ack_bytes (x ∷ y ∷ z ∷ []) kind low high id room e = absurd (omega arith)
ack_bytes (x ∷ y ∷ z ∷ u ∷ buf) kind low high id room e = record { good = refl; about = e }

-- what the connection gives begins with an acknowledgement: its kind, the length 2, and the identifier
pub record Arrives (kind id : ℕ) (a : Arrival) : Type 0 where
  pub low : ℕ
  pub high : ℕ
  pub more : List ℕ
  pub room : 4 ≤ length a.buf
  pub stream : a.stream ≡ kind ∷ 2 ∷ low ∷ high ∷ more
  pub about : high * 256 + low ≡ id

-- the buffer when it was read
abbrev pub ack_buf : (a : Arrival) (kind id : ℕ) → Arrives kind id a → List ℕ
ack_buf a kind id arrives = write_bytes a.buf 0 (kind ∷ 2 ∷ arrives.low ∷ arrives.high ∷ [])
