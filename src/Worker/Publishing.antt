-- ===== src/Worker/Publishing.antt =====
-- main/worker.cpp: the handler of PUBLISH.
use esp32_mqtts_broker.Prelude.{
  ℕ, ◌+◌, ◌*◌, ◌%◌, true, none, some, List, ◌==◌, if◌then◌else◌, bit_and, u16_mod,
}
use esp32_mqtts_broker.Run.{Run, ok, ◌>>=◌}
use esp32_mqtts_broker.Hashmap
use esp32_mqtts_broker.Hashmap.Bucket.{Key}
use esp32_mqtts_broker.Publishhashmap
use esp32_mqtts_broker.Connect.{byte, word, bytes, has_flag}
use esp32_mqtts_broker.Frame.{Incoming}
use esp32_mqtts_broker.Session.{read, write}
use esp32_mqtts_broker.Session.Items.{PacketState, sendpuback, sendpubrec, add_packet_id}
use esp32_mqtts_broker.Worker.State.{Worker, World, cell, with_cell, offer}
use esp32_mqtts_broker.Worker.Fanout.{publish_by_topic}
use esp32_mqtts_broker.Worker.Drop.{drop_conn}

-- the quality of service in bits 1 and 2
unfoldable pub packet_qos : ℕ → ℕ
packet_qos first = if has_flag first 0x04 then 2 else (if has_flag first 0x02 then 1 else 0)

-- the identifier as the chip reads it, least significant byte first, or a random one
unfoldable pub packet_id_at : World → Worker → List ℕ → ℕ → ℕ → Run ℕ
packet_id_at world w buf pos qos =
    if qos == 0
    then ok (world.esp_random w.effects % u16_mod)
    else (do low ← byte buf pos; high ← byte buf (pos + 1); ok (high * 256 + low))

-- the topic's retained message is replaced; the old one loses a receiver
unfoldable pub keep_retained : World → Worker → Key → ℕ → Run Worker
keep_retained world w topic packetid = Hashmap.get w.retained_sub_msg topic >>= λ found.
    elim found [
      | none ↦ Hashmap.add (world.adding w.effects) w.retained_sub_msg topic packetid >>= λ r.
          ok (record w { retained_sub_msg = r.1 })
      | some old ↦ Publishhashmap.release w.publish_msg_store old >>= λ store.
          Hashmap.update w.retained_sub_msg topic packetid >>= λ r.
          ok (record w { publish_msg_store = store; retained_sub_msg = r.1 })
    ]

-- a message to be retained is stored with two receivers
unfoldable pub retain_message : World → Worker → Key → List ℕ → ℕ → ℕ → Run Worker
retain_message world w topic content qos packetid =
    Publishhashmap.add (world.session.table_ok w.effects) (world.session.copy_ok w.effects)
      w.publish_msg_store packetid content qos 2
    >>= λ r.
        let t = record w { publish_msg_store = r.1 } in
        if r.0 then keep_retained world t topic packetid else ok t

-- an item for the acknowledgement, if the queue takes the request to write it
unfoldable pub request_ack : World → Worker → ℕ → PacketState → ℕ → ℕ → Run Worker
request_ack world w sock state packetid qos =
    let (taken, t) = offer world w sock write in
    if taken
    then (cell t.sock_to_clientid sock >>= λ sockst. ok (
        with_cell t sock (record sockst {
          packid_state =
              add_packet_id (world.item_ok t.effects) sockst.packid_state state packetid qos true;
        })))
    else ok t

unfoldable pub acknowledge : World → Worker → ℕ → ℕ → ℕ → Run Worker
acknowledge world w sock packetid qos =
    if qos == 1
    then request_ack world w sock sendpuback packetid qos
    else (if qos == 2
        then request_ack world w sock sendpubrec packetid qos
        else ok (offer world w sock read).1)

unfoldable pub on_publish : World → Worker → ℕ → Incoming → Run Worker
on_publish world w sock p = do
  first ← byte p.buf 0
  let qos = packet_qos first
  if bit_and first 0x06 == 0x06 then drop_conn world w sock true else (do
    topic_len ← word p.buf p.cur_pos
    topic ← bytes p.buf (p.cur_pos + 2) topic_len
    packetid ← packet_id_at world w p.buf (p.cur_pos + 2 + topic_len) qos
    content ← bytes p.buf 0 p.packet_length
    t ← if has_flag first 0x01 then retain_message world w topic content qos packetid else ok w
    u ← acknowledge world t sock packetid qos
    publish_by_topic world u topic content qos packetid)
