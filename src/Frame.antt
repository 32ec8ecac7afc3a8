-- ===== src/Frame.antt =====
-- main/worker.cpp, the reading of one packet: the header byte, the remaining length, the rest.
-- What the socket still gives is a list of bytes; a read that gets none is the end of the list.
pub mod Length
pub mod Body
pub mod Packet
use esp32_mqtts_broker.Prelude.{
  ℕ, zero, suc, ◌+◌, ◌-◌, ◌*◌, ◌/◌, ◌%◌, ◌≤◌, Bool, true, false, ◌&&◌, ◌||◌, not, Option, none,
  some, List, [], ◌∷◌, ◌++◌, ◌==◌, ltb, leb, if◌then◌else◌, length, set, take, drop, bit_and,
  u16_mod,
}
use esp32_mqtts_broker.Run.{Run, ok, fault, out_of_range, out_of_fuel, ◌>>=◌}

abbrev pub buff_size : ℕ
buff_size = 1024

-- the variables of the loop; `pos` is `cur_pos - buf`
pub record Reading : Type 0 where
  pub buf : List ℕ
  pub pos : ℕ
  pub packet_length : ℕ
  pub multiplier : ℕ
  pub additional_packet_len : ℕ

-- one byte of the length taken in: both numbers are `uint16_t`
abbrev pub take_byte : ℕ → Reading → Reading
take_byte enc_byte r = record r {
  buf = set r.buf r.pos enc_byte;
  pos = r.pos + 1;
  packet_length = (r.packet_length + bit_and enc_byte 127 * r.multiplier) % u16_mod;
  multiplier = r.multiplier * 128 % u16_mod;
}

-- the `do` loop; `none` is `len_error`. A byte behind the end of `buf` is written out of range.
unfoldable pub read_length : List ℕ → Reading → Run (Option (Reading × List ℕ))
read_length [] r = ok none
read_length (enc_byte ∷ stream) r = elim (ltb r.pos buff_size) [
  | false ↦ fault out_of_range
  | true ↦
      let next = take_byte enc_byte r in
      let counted = record next { additional_packet_len = (r.additional_packet_len + 1) % 256 } in
      elim (ltb (128 * 128 * 128) next.multiplier) [
        | true ↦ ok none
        | false ↦ elim (bit_and enc_byte 128 == 0) [
          | true ↦ ok (some (counted, stream))
          | false ↦ read_length stream counted
        ]
      ]
]

-- before the loop, with the header byte in `buf[0]`
abbrev pub start_reading : List ℕ → ℕ → Reading
start_reading buf header = record {
  buf = set buf 0 header;
  pos = 1;
  packet_length = 0;
  multiplier = 1;
  additional_packet_len = 1;
}

-- bytes that the connection writes from a place on
unfoldable pub write_bytes : List ℕ → ℕ → List ℕ → List ℕ
write_bytes buf pos [] = buf
write_bytes buf pos (b ∷ bytes) = write_bytes (set buf pos b) (pos + 1) bytes

-- how many bytes one read gives: at least one, and no more than were asked for or are there; the
-- connection decides, by the number of bytes that are still missing
abbrev pub piece : (ℕ → ℕ) → ℕ → ℕ → ℕ
piece conn missing there =
    let most = if ltb there missing then there else missing in
    let some_bytes = conn missing in
    if ltb some_bytes most then (if some_bytes == 0 then 1 else some_bytes) else most

-- `while (sum < packet_length)`: `missing` is `packet_length - sum`, `pos` is `tmp_ptr - buf`; `none`
-- is `len_error`
unfoldable pub read_body : ℕ → (ℕ → ℕ) → List ℕ → List ℕ → ℕ → ℕ → Run (Option (List ℕ × List ℕ))
read_body fuel conn stream buf pos zero = ok (some (buf, stream))
read_body zero conn stream buf pos (suc missing) = fault out_of_fuel
read_body (suc fuel) conn [] buf pos (suc missing) = ok none
read_body (suc fuel) conn (b ∷ stream) buf pos (suc missing) =
    let n = piece conn (suc missing) (length (b ∷ stream)) in
    elim (ltb buff_size (pos + n)) [
      | true ↦ fault out_of_range
      | false ↦
          read_body fuel conn (drop n (b ∷ stream)) (write_bytes buf pos (take n (b ∷ stream)))
            (pos + n) (suc missing - n)
    ]

-- a packet that has been read, with the variables that the handlers use
pub record Incoming : Type 0 where
  pub buf : List ℕ
  pub cur_pos : ℕ
  pub additional_packet_len : ℕ
  pub packet_length : ℕ

-- The whole packet from its header byte on. The result is the packet with the final
-- `packet_length`, and what is left to be read; `none` drops the connection.
unfoldable pub read_packet : (ℕ → ℕ) → List ℕ → List ℕ → Run (Option (Incoming × List ℕ))
read_packet conn buf [] = ok none
read_packet conn buf (header ∷ stream) =
    read_length stream (start_reading buf header) >>= λ counted. elim counted [
      | none ↦ ok none
      | some (r, rest) ↦ elim (ltb 1024 (r.packet_length + r.additional_packet_len)) [
        | true ↦ ok none
        | false ↦ read_body r.packet_length conn rest r.buf r.pos r.packet_length >>= λ body.
            elim body [
              | none ↦ ok none
              | some (bytes, more) ↦ ok (
                  some (
                    record {
                      buf = bytes;
                      cur_pos = r.pos;
                      additional_packet_len = r.additional_packet_len;
                      packet_length = (r.packet_length + r.additional_packet_len) % u16_mod;
                    },
                    more,
                  ))
            ]
      ]
    ]
