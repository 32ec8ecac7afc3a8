-- ===== src/Worker/Routed.antt =====
-- main/worker.cpp from the message about a socket to the handler of the packet that was sent on it.
use esp32_mqtts_broker.Prelude.{
  ℕ, suc, ◌<◌, ◌+◌, ◌≡◌, refl, ap, ◌∙◌, true, false, none, some, List, [], ◌∷◌, ◌++◌, arith, leb,
  if◌then◌else◌, length, set, u16_mod, Bool-cases, inl, inr,
}
use esp32_mqtts_broker.Run.{ok, ◌>>=◌}
use esp32_mqtts_broker.Connect.{byte}
use esp32_mqtts_broker.Frame.{write_bytes, read_packet}
use esp32_mqtts_broker.Frame.Length.{encode_length}
use esp32_mqtts_broker.Frame.Packet.{whole, read_packet-encode_length}
use esp32_mqtts_broker.Session.{read}
use esp32_mqtts_broker.Worker.{
  Arrival, dispatch, kind_of, is_new, on_packet, on_read, on_mqtt, on_message,
}
use esp32_mqtts_broker.Worker.State.{World, Worker, SockCid, Phase, mqtt, cell}
use esp32_mqtts_broker.Worker.Drop.{drop_conn}
use esp32_mqtts_broker.Worker.Login.{below, on_phase}

-- what is written behind the first byte leaves it
write_bytes-suc :
    (b : ℕ) (buf : List ℕ) (pos : ℕ) (bytes : List ℕ)
    → write_bytes (b ∷ buf) (suc pos) bytes ≡ b ∷ write_bytes buf pos bytes
unfolding write_bytes
write_bytes-suc b buf pos [] = refl
write_bytes-suc b buf pos (x ∷ bytes) =
    let e : suc pos + 1 ≡ suc (pos + 1) = omega arith in
    rw e (write_bytes-suc b (set buf pos x) (pos + 1) bytes)

header_first :
    (buf : List ℕ) (header : ℕ) (bytes : List ℕ)
    → 0 < length buf
    → byte (write_bytes buf 0 (header ∷ bytes)) 0 ≡ ok header
unfolding byte write_bytes
header_first [] header bytes h = absurd (omega arith)
header_first (b ∷ buf) header bytes h = rw (write_bytes-suc header buf 0 bytes) refl

module _ (world : World) (a : Arrival) (w : Worker) (sock : ℕ) (sockst : SockCid)
    (here : cell w.sock_to_clientid sock ≡ ok sockst) (shaken : sockst.phs ≡ mqtt)
    (named : is_new sockst ≡ false) where
  pub past_handshake : (phs : Phase) → phs ≡ mqtt → on_phase world w sock sockst phs ≡ ok (below w)
  unfolding on_phase
  past_handshake phs done = rw done refl

  message_read : on_message world a w (some sock) read ≡ on_read world a w sock
  unfolding on_message on_mqtt
  message_read = rw (here, ◌>>=◌, past_handshake sockst.phs shaken) refl

  -- A connection has finished its handshake and has a client identifier, and what it gives begins
  -- with a packet in the layout of MQTT 3.1.1 whose remaining length is below 2 ^ 16; `buf` is not
  -- empty. If the packet has at most 1024 bytes, the message that the socket can be read does what
  -- the handler for the type in the header byte does with the whole packet, in whatever pieces it
  -- comes; if it is longer, the message does what `drop_conn` with the will does.
  pub on_message-routes :
      (n header : ℕ) (body more : List ℕ)
      → 0 < length a.buf
      → n < u16_mod
      → length body ≡ n
      → a.stream ≡ header ∷ (encode_length 4 n ++ (body ++ more))
      → let code = header ∷ encode_length 4 n in
        on_message world a w (some sock) read ≡ (
          if leb (n + length code) 1024
          then dispatch world a.garbage w sock sockst (whole a.buf code body n) (kind_of header)
          else drop_conn world w sock true)
  unfolding on_read on_packet
  on_message-routes n header body more some_room small same stream =
      let code = header ∷ encode_length 4 n in
      let got : read_packet a.pieces a.buf a.stream
          ≡ ok (if leb (n + length code) 1024 then some (whole a.buf code body n, more) else none) =
        ap (λ s. read_packet a.pieces a.buf s) stream
        ∙ read_packet-encode_length a.pieces n body more a.buf header small same in
      let first = header_first a.buf header (encode_length 4 n ++ body) some_room in
      elim (Bool-cases (leb (n + length code) 1024)) [
        | inl fits ↦ message_read ∙ rw (got, fits, ◌>>=◌, here, ◌>>=◌, named, first, ◌>>=◌) refl
        | inr over ↦ message_read ∙ rw (got, over, ◌>>=◌) refl
      ]
