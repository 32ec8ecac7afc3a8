-- ===== src/Frame/Packet.antt =====
-- One packet from its header byte on, against the layout of MQTT 3.1.1.
use esp32_mqtts_broker.Prelude.{
  ℕ, ◌+◌, ◌%◌, ◌^◌, ◌≤◌, ◌<◌, ◌≡◌, refl, sym, ap, ◌∙◌, none, some, List, [], ◌∷◌, ◌++◌, arith, ltb,
  leb, if◌then◌else◌, length, length-append, take, drop, u16_mod, true, not, Bool-cases, inl, inr,
}
use esp32_mqtts_broker.Run.{ok, ◌>>=◌}
use esp32_mqtts_broker.Frame.{Incoming, write_bytes, read_packet, buff_size}
use esp32_mqtts_broker.Frame.Length.{encode_length, length-encode_length, read_length-encode_length}
use esp32_mqtts_broker.Frame.Body.{read_body-whole, read_body-whole, write_bytes-append}

split_at :
    (body more : List ℕ)
    → (take (length body) (body ++ more) ≡ body) × (drop (length body) (body ++ more) ≡ more)
split_at [] more = (refl, refl)
split_at (b ∷ body) more = (ap (λ xs. b ∷ xs) (split_at body more).0, (split_at body more).1)

mod_small : (n : ℕ) → leb n 1024 ≡ true → n % u16_mod ≡ n
mod_small n h = ground arith

ltb-leb : (a b : ℕ) → ltb a b ≡ not (leb b a)
ltb-leb a b = ground arith

leb_prefix : (n : ℕ) (body more : List ℕ) → n ≡ length body → leb n (length (body ++ more)) ≡ true
leb_prefix n body more h = ground (arith, length-append body more)

room :
    (n : ℕ) (code : List ℕ) (len pos : ℕ)
    → leb (n + length code) 1024 ≡ true
    → pos + len ≡ n + length code
    → pos + len ≤ buff_size
room n code len pos h e = ground arith

-- `code` and the `n` bytes of `body` at the start of `buf`
abbrev pub whole : List ℕ → List ℕ → List ℕ → ℕ → Incoming
whole buf code body n = record {
  buf = write_bytes buf 0 (code ++ body);
  cur_pos = length code;
  additional_packet_len = length code;
  packet_length = n + length code;
}

-- A packet whose remaining length is below 2 ^ 16 is read whole if it has at most 1024 bytes, in
-- whatever pieces the connection gives it: header byte, length and body stand in `buf` from its
-- start, the final length counts all of them, `cur_pos` and the count of the first bytes are behind
-- the length, and the next packet is left to be read. A longer
-- packet drops the connection. No byte is written out of range.
pub read_packet-encode_length :
    (conn : ℕ → ℕ) (n : ℕ) (body more buf : List ℕ) (header : ℕ)
    → n < u16_mod
    → length body ≡ n
    → let code = header ∷ encode_length 4 n in
      read_packet conn buf (code ++ (body ++ more))
      ≡ ok (if leb (n + length code) 1024 then some (whole buf code body n, more) else none)
unfolding read_packet
read_packet-encode_length conn n body more buf header small same =
    let code = encode_length 4 n in
    let most : 65536 ≤ 128 ^ 4 = omega arith in
    let (r, run, length_read, place, counted, bytes) =
      read_length-encode_length n (body ++ more) buf header (omega (arith, most)) in
    let short = length-encode_length 4 n in
    let len : r.packet_length ≡ length body = omega arith in
    let front : r.pos ≡ 0 + length (header ∷ code) = omega arith in
    let place_now : r.pos ≡ length (header ∷ code) = omega arith in
    let first_bytes : r.additional_packet_len ≡ length (header ∷ code) = omega arith in
    let final : r.packet_length + r.additional_packet_len ≡ n + length (header ∷ code) =
      omega arith in
    let no_wrap = mod_small (n + length (header ∷ code)) in
    let kept : take r.packet_length (body ++ more) ≡ body =
      ap (λ k. take k (body ++ more)) len ∙ (split_at body more).0 in
    let left : drop r.packet_length (body ++ more) ≡ more =
      ap (λ k. drop k (body ++ more)) len ∙ (split_at body more).1 in
    let written : write_bytes r.buf r.pos body ≡ write_bytes buf 0 (header ∷ code ++ body) =
      rw (bytes, front) (sym (write_bytes-append (header ∷ code) body buf 0)) in
    let enough : leb r.packet_length (length (body ++ more)) ≡ true =
      leb_prefix r.packet_length body more len in
    elim (Bool-cases (leb (n + length (header ∷ code)) 1024)) [
      | inr over ↦ rw (run, ◌>>=◌, final, ltb-leb 1024 (n + length (header ∷ code)), over) refl
      | inl fits ↦
          let got =
            read_body-whole conn r.packet_length r.packet_length r.pos (body ++ more) r.buf
              (omega arith) (room n (header ∷ code) r.packet_length r.pos fits (omega arith)) in
          rw
            (
              run,
              ◌>>=◌,
              final,
              ltb-leb 1024 (n + length (header ∷ code)),
              fits,
              got,
              enough,
              kept,
              left,
              written,
              ◌>>=◌,
              final,
              no_wrap fits,
              place_now,
              first_bytes,
            )
            refl
    ]
