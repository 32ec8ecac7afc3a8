-- ===== src/Worker/Subscribing.antt =====
-- main/worker.cpp: the handlers of SUBSCRIBE and UNSUBSCRIBE.
use esp32_mqtts_broker.Prelude.{
  ℕ, zero, suc, ◌+◌, ◌-◌, ◌/◌, ◌%◌, true, false, Option, none, some, List, [], ◌∷◌, ◌==◌, ltb,
  if◌then◌else◌, set, take, bit_and, bit_or, u16_mod,
}
use esp32_mqtts_broker.Run.{
  Run, ok, fault, null_pointer, dangling_pointer, out_of_range, out_of_fuel, ◌>>=◌,
}
use esp32_mqtts_broker.Myvector.{Myvector, empty_vector, reserve, push_back, insert, is_full}
use esp32_mqtts_broker.Hashmap
use esp32_mqtts_broker.Hashmap.Bucket.{Key}
use esp32_mqtts_broker.Publishhashmap
use esp32_mqtts_broker.Publishhashmap.{slot_at}
use esp32_mqtts_broker.Connect.{byte, word, bytes}
use esp32_mqtts_broker.Client
use esp32_mqtts_broker.Client.{Client}
use esp32_mqtts_broker.Frame.{Incoming}
use esp32_mqtts_broker.Session.{read, write}
use esp32_mqtts_broker.Worker.State.{Worker, World, cell, deref, with_client, offer, write_conn}
use esp32_mqtts_broker.Worker.Fanout.{hand_over}
use esp32_mqtts_broker.Worker.Drop.{drop_conn}

-- unsigned subtraction of 16 bits
abbrev pub minus_u16 : ℕ → ℕ → ℕ
minus_u16 a b = (a % u16_mod + (u16_mod - b % u16_mod)) % u16_mod

-- `sockst->client`
unfoldable pub client_of : Worker → ℕ → Run (ℕ × Client)
client_of w sock = cell w.sock_to_clientid sock >>= λ sockst. elim sockst.client [
  | none ↦ fault null_pointer
  | some c ↦ deref w.clients c >>= λ client. ok (c, client)
]

-- `suback`, whose allocations are asked for by the number of cells
abbrev pub push : World → Worker → Myvector ℕ → ℕ → Myvector ℕ
push world w v code = push_back (world.vector_ok w.effects (v.capacity + 2)) 0 v code

-- the retained message of a topic goes to the new subscriber
unfoldable pub send_retained : World → Worker → ℕ → Key → ℕ → Run Worker
send_retained world w sock topic req_qos = Hashmap.get w.retained_sub_msg topic >>= λ retained_msg.
    elim retained_msg [
      | none ↦ ok w
      | some id ↦ Publishhashmap.get w.publish_msg_store id >>= λ found. elim found [
        | none ↦ ok w
        | some n ↦ slot_at w.publish_msg_store.slots n >>= λ node.
            let (taken, t) = offer world w sock write in
            if taken
            then hand_over world t sock id (if ltb req_qos node.qos then req_qos else node.qos) n
                false
            else ok t
      ]
    ]

-- one topic of a SUBSCRIBE
unfoldable pub subscribe_topic :
    World → Worker → ℕ → Myvector ℕ → Key → ℕ → Run (Worker × Myvector ℕ)
subscribe_topic world w sock suback topic qos =
    let req_qos = if ltb 2 qos then 2 else qos in
    client_of w sock >>= λ found.
    Client.subscribe (world.memory w.effects) found.1 topic req_qos >>= λ r.
    let t = with_client w found.0 r.1 in
    send_retained world t sock topic req_qos >>= λ u. ok (u, push world t suback r.0)

-- `while (packet_length > 0)` of SUBSCRIBE
unfoldable pub subscribe_loop :
    ℕ → World → Worker → ℕ → List ℕ → ℕ → ℕ → Myvector ℕ → Run (Worker × Myvector ℕ)
subscribe_loop fuel world w sock buf pos zero suback = ok (w, suback)
subscribe_loop zero world w sock buf pos (suc left) suback = fault out_of_fuel
subscribe_loop (suc fuel) world w sock buf pos (suc left) suback = word buf pos >>= λ topic_len.
    bytes buf (pos + 2) topic_len >>= λ topic. byte buf (pos + 2 + topic_len) >>= λ qos.
    subscribe_topic world w sock suback topic qos >>= λ r.
    subscribe_loop fuel world r.0 sock buf (pos + 3 + topic_len)
      (minus_u16 (minus_u16 (suc left) (topic_len + 2)) 1) r.1

-- The length of the SUBACK, in as many bytes as it takes: a byte for which there is no room goes in
-- behind the one at `place`. If `insert` gets a larger array for it, `cur_pos` is left in the old one;
-- `none` if there is no memory.
unfoldable pub write_length :
    ℕ → World → Worker → Myvector ℕ → ℕ → ℕ → ℕ → Run (Option (Myvector ℕ))
write_length zero world w v place insert_id len = fault out_of_fuel
write_length (suc fuel) world w v place insert_id len =
    let digit = len % 128 in
    if len / 128 == 0
    then ok (some (record v { cells = set v.cells place digit }))
    else (let more = record v { cells = set v.cells place (bit_or digit 128) } in
        let (inserted, longer) =
          insert (world.vector_ok w.effects (v.capacity + 2)) 0 more insert_id 0 in
        if inserted
        then (elim (is_full more) [
          | true ↦ fault dangling_pointer
          | false ↦ write_length fuel world w longer (place + 1) (insert_id + 1) (len / 128)
        ])
        else ok none)

-- at most as many rounds as a topic can begin at places of `buf`, and as a length has digits
abbrev pub topic_fuel : ℕ
topic_fuel = 1024

abbrev pub length_fuel : ℕ
length_fuel = 3

-- the header of the SUBACK, with the identifier of the packet
abbrev pub suback_header : World → Worker → Myvector ℕ → ℕ → ℕ → Myvector ℕ
suback_header world w v msb lsb =
    push world w (push world w (push world w (push world w v 0x90) 0) msb) lsb

unfoldable pub send_suback : World → Worker → ℕ → Myvector ℕ → Run Worker
send_suback world w sock suback =
    write_length length_fuel world w suback 1 2 ((suback.size - 2) % u16_mod) >>= λ r. elim r [
      | none ↦ drop_conn world w sock true
      | some v ↦ ok (offer world (write_conn world w sock (take v.size v.cells)) sock read).1
    ]

unfoldable pub on_subscribe : World → Worker → ℕ → Incoming → Run Worker
on_subscribe world w sock p = do
  first ← byte p.buf 0
  if bit_and first 0x0f == 0x02
      then (reserve (world.vector_ok w.effects 5) 0 empty_vector 5 >>= λ r.
          if r.0
          then (do
            msb ← byte p.buf p.cur_pos
            lsb ← byte p.buf (p.cur_pos + 1)
            (t, suback) ←
                subscribe_loop topic_fuel world w sock p.buf (p.cur_pos + 2)
                  (minus_u16 (minus_u16 p.packet_length p.additional_packet_len) 2)
                  (suback_header world w r.1 msb lsb)
            send_suback world t sock suback)
          else drop_conn world w sock true)
      else drop_conn world w sock true

-- a write to `std::array<uint8_t, 4>`
unfoldable pub put : List ℕ → ℕ → ℕ → Run (List ℕ)
put [] i b = fault out_of_range
put (x ∷ xs) zero b = ok (b ∷ xs)
put (x ∷ xs) (suc i) b = put xs i b >>= λ ys. ok (x ∷ ys)

-- `while (packet_length > 0)` of UNSUBSCRIBE
unfoldable pub unsubscribe_loop : ℕ → Worker → ℕ → List ℕ → ℕ → ℕ → Run Worker
unsubscribe_loop fuel w sock buf pos zero = ok w
unsubscribe_loop zero w sock buf pos (suc left) = fault out_of_fuel
unsubscribe_loop (suc fuel) w sock buf pos (suc left) = word buf pos >>= λ topic_len.
    bytes buf (pos + 2) topic_len >>= λ topic. client_of w sock >>= λ found.
    Client.unsubscribe found.1 topic >>= λ client.
    unsubscribe_loop fuel (with_client w found.0 client) sock buf (pos + 2 + topic_len)
      (minus_u16 (suc left) (topic_len + 2))

-- wrong reserved bits drop the connection, and the handler goes on; the contents of an array that
-- is not initialised are `garbage`
unfoldable pub on_unsubscribe : World → List ℕ → Worker → ℕ → Incoming → Run Worker
on_unsubscribe world garbage w sock p = do
  first ← byte p.buf 0
  t ← if bit_and first 0x0f == 0x02 then ok w else drop_conn world w sock true
  msb ← byte p.buf p.cur_pos
  lsb ← byte p.buf (p.cur_pos + 1)
  typed ← put garbage 0 0xb0
  sized ← put typed 1 2
  half ← put sized 3 msb
  unsuback ← put half 4 lsb
  u ←
      unsubscribe_loop topic_fuel t sock p.buf (p.cur_pos + 2)
        (minus_u16 (minus_u16 p.packet_length p.additional_packet_len) 2)
  ok (offer world (write_conn world u sock unsuback) sock read).1
