-- ===== src/Worker/Topics.antt =====
-- Reads and writes of arrays in main/worker.cpp, and the array of an UNSUBSCRIBE.
use esp32_mqtts_broker.Prelude.{
  ℕ, zero, suc, ◌+◌, ◌<◌, ◌≡◌, ◌≢◌, refl, ap, true, List, [], ◌∷◌, arith, ◌==◌, length,
  if◌then◌else◌, bit_and,
}
use esp32_mqtts_broker.Run.{ok, Yields, Yields-then, Yields-bind, Yields-map, Yields-ok}
use esp32_mqtts_broker.Connect.{byte}
use esp32_mqtts_broker.Frame.{Incoming}
use esp32_mqtts_broker.Worker.State.{Worker, World}
use esp32_mqtts_broker.Worker.Drop.{drop_conn}
use esp32_mqtts_broker.Worker.Subscribing.{
  minus_u16, put, topic_fuel, unsubscribe_loop, on_unsubscribe,
}

pub byte-inside : (buf : List ℕ) (i : ℕ) → Yields (byte buf i) λ b. i < length buf
unfolding byte
byte-inside [] i = tt
byte-inside (b ∷ buf) zero = omega arith
byte-inside (b ∷ buf) (suc i) =
    Yields-map _ _ (byte buf i) (byte-inside buf i) (λ value h. omega arith)

length-put : (xs : List ℕ) (i b : ℕ) → Yields (put xs i b) λ ys. length ys ≡ length xs
unfolding put
length-put [] i b = tt
length-put (x ∷ xs) zero b = refl
length-put (x ∷ xs) (suc i) b =
    Yields-bind _ _ (put xs i b) _ (length-put xs i b) (λ ys e. ap suc e)

put-inside : (xs : List ℕ) (i b : ℕ) → Yields (put xs i b) λ ys. i < length xs
unfolding put
put-inside [] i b = tt
put-inside (x ∷ xs) zero b = omega arith
put-inside (x ∷ xs) (suc i) b =
    Yields-bind _ _ (put xs i b) _ (put-inside xs i b) (λ ys h. omega arith)

unsubscribe-long :
    (world : World) (garbage : List ℕ) (w : Worker) (sock : ℕ) (p : Incoming)
    → Yields (on_unsubscribe world garbage w sock p) λ t. 4 < length garbage
unfolding on_unsubscribe
unsubscribe-long world garbage w sock p = Yields-then _ (byte p.buf 0) _ (λ first.
    Yields-then _ (if bit_and first 0x0f == 0x02 then ok w else drop_conn world w sock true) _ (λ t.
      Yields-then _ (byte p.buf p.cur_pos) _ (λ msb.
        Yields-then _ (byte p.buf (p.cur_pos + 1)) _ (λ lsb.
          Yields-bind _ _ (put garbage 0 0xb0) _ (length-put garbage 0 0xb0) (λ typed a.
            Yields-bind _ _ (put typed 1 2) _ (length-put typed 1 2) (λ sized b.
              Yields-bind _ _ (put sized 3 msb) _ (length-put sized 3 msb) (λ half c.
                Yields-bind _ _ (put half 4 lsb) _ (put-inside half 4 lsb) (λ unsuback h.
                  let left = minus_u16 (minus_u16 p.packet_length p.additional_packet_len) 2 in
                  Yields-then _ (unsubscribe_loop topic_fuel t sock p.buf (p.cur_pos + 2) left) _
                    (λ u. omega (arith, a, b, c, h))))))))))

-- No UNSUBSCRIBE returns: the handler writes element 4 of an array of four bytes, whatever the packet
-- has, the reserved bits that drop the connection included.
pub on_unsubscribe_overruns :
    (world : World) (garbage : List ℕ) (w t : Worker) (sock : ℕ) (p : Incoming)
    → length garbage ≡ 4
    → on_unsubscribe world garbage w sock p ≢ ok t
on_unsubscribe_overruns world garbage w t sock p four run =
    let long =
      Yields-ok _ (on_unsubscribe world garbage w sock p) t
        (unsubscribe-long world garbage w sock p) run in
    omega (arith, long)
