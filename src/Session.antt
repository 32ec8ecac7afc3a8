-- ===== src/Session.antt =====
-- main/worker.cpp and main/includes/worker.hpp: the packets of one connection that wait for a step of
-- their delivery, and the handlers that take these steps. A handler ends in `stay`, the `continue` of
-- the source, or in `drop`, where the source calls `drop_conn`. What the handlers do to the outside is
-- a list of effects, newest first, and the environment answers by that list.
pub mod Items
pub mod Header
pub mod Advance
pub mod Acks
pub mod Write
pub mod Drain
pub mod Turns
pub mod Answers
pub mod Chain
pub mod Handshake
pub mod Delivered
use esp32_mqtts_broker.Prelude.{
  ℕ, zero, suc, ◌+◌, ◌-◌, ◌*◌, ◌/◌, ◌%◌, Bool, true, false, ◌&&◌, ◌||◌, not, Option, none, some,
  List, [], ◌∷◌, ◌++◌, ◌==◌, ltb, if◌then◌else◌, length, get_or, set, bit_and, bit_or,
}
use esp32_mqtts_broker.Run.{Run, ok, fault, null_pointer, out_of_range, ◌>>=◌}
use esp32_mqtts_broker.Publishhashmap
use esp32_mqtts_broker.Publishhashmap.{Publishhashmap, NodePubmap, slot_at}
use Items.{PacketState, PacketStateItem, same_state, find_item, item_at, wants_send}

-- `message::operation`
pub data Operation : Type 0 where
  write read delread delall : Operation

-- a message offered to the queue, bytes offered to a connection, each with the answer; a connection
-- whose TLS session is deleted and whose socket is closed
pub data Effect : Type 0 where
  queued : ℕ → Operation → Bool → Effect
  written : ℕ → List ℕ → Bool → Effect
  closed : ℕ → Effect

-- whether the queue takes a message, whether a write to the connection succeeds, and whether
-- memory is given, after the effects so far
pub record Env : Type 0 where
  pub queue_ok : List Effect → Bool
  pub write_ok : List Effect → Bool
  pub table_ok : List Effect → Bool
  pub copy_ok : List Effect → Bool

-- what the handlers of one connection read and change; `client_sock` is `sockst->client->sock`, or the
-- fault of reading it, and no handler changes it
pub record Session : Type 0 where
  pub sock : ℕ
  pub client_sock : Run (Option ℕ)
  pub items : List PacketStateItem
  pub store : Publishhashmap
  pub effects : List Effect

pub data Verdict : Type 0 where
  stay drop : Verdict

abbrev pub puback : ℕ
puback = 0x40

abbrev pub pubrec : ℕ
pubrec = 0x50

abbrev pub pubrel : ℕ
pubrel = 0x62

abbrev pub pubcomp : ℕ
pubcomp = 0x70

abbrev pub duplication_flag : ℕ
duplication_flag = 0x08

-- `esp_tls_conn_write`; the result is whether it is not negative
abbrev pub tls_write : Env → Session → List ℕ → Bool × Session
tls_write env s bytes =
    let sent = env.write_ok s.effects in
    (sent, record s { effects = written s.sock bytes sent ∷ s.effects })

unfoldable pub sendtoque : Env → Session → Operation → Bool × Session
sendtoque env s op =
    let taken = env.queue_ok s.effects in
    (taken, record s { effects = queued s.sock op taken ∷ s.effects })

abbrev pub with_item : Session → ℕ → PacketStateItem → Session
with_item s i item = record s { items = set s.items i item }

-- the first byte as `publish` sends it: `& ~0b1` if the retain flag is to go, then the quality of
-- service in bits 1 and 2
unfoldable pub publish_header : ℕ → ℕ → Bool → ℕ
publish_header byte qos delete_retain =
    let flagged = if delete_retain then bit_and byte 0xfe else byte in
    bit_or (bit_and flagged 0xf9) (bit_and qos 0b11 * 2)

-- the log message about a write that has failed, which names `sockst->client->sock`
unfoldable pub log_failure : Session → Bool → Run (Option ℕ)
log_failure s true = ok none
log_failure s false = s.client_sock

-- The bytes sent are those of the message but for the first. Where the source calls it the message is in the
-- store, so that the last branch, which adds it again, is not taken.
unfoldable pub publish : Env → Session → ℕ → PacketStateItem → List ℕ → ℕ → ℕ → Bool → Run Session
publish env s i item [] qos packet_id delete_retain = fault null_pointer
publish env s i item (first ∷ rest) qos packet_id delete_retain =
    let (sent, t) = tls_write env s (publish_header first qos delete_retain ∷ rest) in
    Publishhashmap.get t.store packet_id >>= λ node. log_failure t sent >>= λ logged.
    if qos == 0 || not sent
    then (Publishhashmap.release t.store packet_id >>= λ store.
        ok (record (with_item t i (record item { packet_id = 0 })) { store = store }))
    else (let state = if qos == 1 then PacketState.getpuback else PacketState.getpubrec in
        let u = with_item t i (record item { state = state }) in
        elim node [
          | some n ↦ ok u
          | none ↦
              Publishhashmap.add (env.table_ok u.effects) (env.copy_ok u.effects) u.store packet_id
                (bit_or first duplication_flag ∷ rest) qos 1
              >>= λ r. ok (record u { store = r.1 })
        ])

-- `publish(msg_info->data..., msg_info->qos, msg_info->pubpack_id, ...)`, or a dropped connection
-- where there is no message
unfoldable pub resend : Env → Session → ℕ → PacketStateItem → Option ℕ → Run (Verdict × Session)
resend env s i item none = ok (drop, s)
resend env s i item (some n) = slot_at s.store.slots n >>= λ node.
    publish env s i item node.content node.qos node.pubpack_id true >>= λ t. ok (stay, t)

-- the identifier of an acknowledgement, least significant byte first
abbrev pub packet_id_of : List ℕ → ℕ
packet_id_of buf = get_or buf 3 0 * 256 + get_or buf 2 0

-- `packet_length > 4 || buf[1] != 2`
abbrev pub is_malformed : List ℕ → ℕ → Bool
is_malformed buf packet_length = ltb 4 packet_length || not (get_or buf 1 0 == 2)

unfoldable pub on_puback : Env → Session → List ℕ → ℕ → Run (Verdict × Session)
on_puback env s buf packet_length =
    let id = packet_id_of buf in
    elim (find_item id PacketState.getpuback s.items) [
      | none ↦ ok (drop, s)
      | some i ↦
          let item = item_at s.items i in
          Publishhashmap.get s.store id >>= λ msg_info.
          if is_malformed buf packet_length
          then resend env s i item msg_info
          else (Publishhashmap.release s.store id >>= λ store.
              let t = record (with_item s i (record item { packet_id = 0 })) { store = store } in
              ok (stay, (sendtoque env t read).1))
    ]

unfoldable pub on_pubrec : Env → Session → List ℕ → ℕ → Run (Verdict × Session)
on_pubrec env s buf packet_length =
    let id = packet_id_of buf in
    elim (find_item id PacketState.getpubrec s.items) [
      | none ↦ ok (drop, s)
      | some i ↦
          let item = item_at s.items i in
          Publishhashmap.get s.store id >>= λ msg_info.
          if is_malformed buf packet_length
          then resend env s i item msg_info
          else (Publishhashmap.release s.store id >>= λ store.
              let next = record item { state = PacketState.sendpubrel } in
              let t = record (with_item s i next) { store = store } in
              ok (stay, (sendtoque env t write).1))
    ]

unfoldable pub on_pubcomp : Env → Session → List ℕ → ℕ → Verdict × Session
on_pubcomp env s buf packet_length =
    if is_malformed buf packet_length
    then (drop, s)
    else elim (find_item (packet_id_of buf) PacketState.getpubcomp s.items) [
      | none ↦ (drop, s)
      | some i ↦ (
        stay,
        (sendtoque env (with_item s i (record (item_at s.items i) { packet_id = 0 })) read).1,
      )
    ]

unfoldable pub on_pubrel : Env → Session → List ℕ → ℕ → Verdict × Session
on_pubrel env s buf packet_length =
    if is_malformed buf packet_length
    then (drop, s)
    else elim (find_item (packet_id_of buf) PacketState.getpubrel s.items) [
      | none ↦ (drop, s)
      | some i ↦
          let next = record (item_at s.items i) { state = PacketState.sendpubcomp } in
          (stay, (sendtoque env (with_item s i next) write).1)
    ]

-- the acknowledgement of an item: kind, length 2, identifier
abbrev pub ack : ℕ → ℕ → List ℕ
ack kind packet_id = kind ∷ 2 ∷ bit_and packet_id 0xff ∷ bit_and (packet_id / 256) 0xff ∷ []

-- the body of the loop of the write event for the item that it has found
unfoldable pub send_item : Env → Session → ℕ → PacketStateItem → PacketState → Run Session
send_item env s i item PacketState.sendpuback =
    ok (with_item (tls_write env s (ack puback item.packet_id)).1 i (record item { packet_id = 0 }))
send_item env s i item PacketState.sendpubrec = ok (
    with_item (tls_write env s (ack pubrec item.packet_id)).1 i
      (record item { state = PacketState.getpubrel }))
send_item env s i item PacketState.sendpubrel = ok (
    with_item (tls_write env s (ack pubrel item.packet_id)).1 i
      (record item { state = PacketState.getpubcomp }))
send_item env s i item PacketState.sendpubcomp =
    ok
      (with_item (tls_write env s (ack pubcomp item.packet_id)).1 i (record item { packet_id = 0 }))
send_item env s i item PacketState.sendpublish =
    Publishhashmap.get s.store item.packet_id >>= λ found. elim found [
      | none ↦ ok s
      | some n ↦ slot_at s.store.slots n >>= λ node.
          publish env s i item node.content item.qos node.pubpack_id item.delete_retain
    ]
send_item env s i item state = ok s

-- the loop of the write event: `ptr` is `packetid_ptr`, which keeps its value from round to round; the
-- result is `need_more_writes`
unfoldable pub write_loop :
    Env → Session → List PacketStateItem → ℕ → Option ℕ → Bool → Run (Bool × Session)
write_loop env s [] i ptr already_sent = ok (false, s)
write_loop env s (item ∷ rest) i ptr already_sent = elim (if wants_send item then some i else ptr) [
  | none ↦ write_loop env s rest (i + 1) none already_sent
  | some p ↦ elim already_sent [
    | true ↦ ok (true, s)
    | false ↦ send_item env s p (item_at s.items p) (item_at s.items p).state >>= λ t.
        write_loop env t rest (i + 1) (some p) true
  ]
]

unfoldable pub on_write : Env → Session → Run Session
on_write env s = write_loop env s s.items 0 none false >>= λ r.
    ok (sendtoque env r.1 (if r.0 then write else read)).1
