-- ===== src/Worker/Suback.antt =====
-- The SUBACK of main/worker.cpp.
use esp32_mqtts_broker.Prelude.{
  ℕ, zero, suc, ◌+◌, ◌-◌, ◌/◌, ◌%◌, ◌≤◌, ◌<◌, ◌≡◌, refl, ap, true, false, List, [], ◌∷◌, arith,
  ◌==◌, length, set, take, u16_mod, leb,
}
use esp32_mqtts_broker.Run.{ok, fault, dangling_pointer, ◌>>=◌}
use esp32_mqtts_broker.Myvector.{Myvector, is_full, insert}
use esp32_mqtts_broker.Myvector.View.{view, IsValid, length-take}
use esp32_mqtts_broker.Session.{read}
use esp32_mqtts_broker.Worker.State.{Worker, World, offer, write_conn}
use esp32_mqtts_broker.Worker.Subscribing.{write_length, send_suback}

take-set : (n : ℕ) (xs : List ℕ) (i b : ℕ) → take n (set xs i b) ≡ set (take n xs) i b
take-set zero xs i b = refl
take-set (suc n) [] i b = refl
take-set (suc n) (x ∷ xs) zero b = refl
take-set (suc n) (x ∷ xs) (suc i) b = ap (λ ys. x ∷ ys) (take-set n xs i b)

-- A SUBACK of fewer than 128 bytes behind its second byte goes to the connection with that number as its
-- remaining length, and nothing else in it is changed; then the socket is to be read.
pub send_suback-short :
    (world : World) (w : Worker) (sock kind blank : ℕ) (rest : List ℕ) (v : Myvector ℕ)
    → IsValid v
    → view v ≡ kind ∷ blank ∷ rest
    → length rest < 128
    → send_suback world w sock v
      ≡ ok (offer world (write_conn world w sock (kind ∷ length rest ∷ rest)) sock read).1
unfolding send_suback write_length
send_suback-short world w sock kind blank rest v valid seen short =
    let long = length-take v.size v.cells (omega (arith, valid.cells_there, valid.fits)) in
    let size : v.size ≡ length rest + 2 = omega (arith, long, ap length seen) in
    let digit : (v.size - 2) % u16_mod % 128 ≡ length rest = omega arith in
    let one_byte : ((v.size - 2) % u16_mod / 128 == 0) ≡ true = ground arith in
    rw (one_byte, digit, ◌>>=◌, take-set v.size v.cells 1 (length rest), seen) refl

-- From 128 bytes on the remaining length takes a second byte. If the vector is full, and memory for a larger array is given,
-- the handler goes on to write through a pointer into the old one.
pub send_suback_dangles :
    (world : World) (w : Worker) (sock : ℕ) (v : Myvector ℕ)
    → is_full v ≡ true
    → world.vector_ok w.effects (v.capacity + 2) ≡ true
    → 130 ≤ v.size
    → v.size < u16_mod
    → send_suback world w sock v ≡ fault dangling_pointer
unfolding send_suback write_length insert
send_suback_dangles world w sock v full memory long small =
    let more_bytes : ((v.size - 2) % u16_mod / 128 == 0) ≡ false = ground arith in
    let behind : leb v.size 2 ≡ false = ground arith in rw (more_bytes, behind, full, memory) refl
