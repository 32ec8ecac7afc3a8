-- ===== src/Session/Turns.antt =====
-- One connection of main/worker.cpp with one packet under way: what each write event and each
-- acknowledgement does to it.
use esp32_mqtts_broker.Prelude.{
  ℕ, zero, suc, ◌+◌, ◌<◌, ◌≡◌, refl, ◌∙◌, Bool, true, false, ◌||◌, not, none, some, List, [], ◌∷◌,
  ◌++◌, arith, ◌==◌, ltb, if◌then◌else◌, length, set, get_or-set, length-set, ==_iff, inl, inr,
  Bool-cases,
}
use esp32_mqtts_broker.Run.{ok, ◌>>=◌, Returns}
use esp32_mqtts_broker.Publishhashmap.{Publishhashmap}
use esp32_mqtts_broker.Publishhashmap.Probe.{slot_at-get_or}
use esp32_mqtts_broker.Publishhashmap.Lookup.{IsTable, node_at, locate, get-locate, locate_sound}
use esp32_mqtts_broker.Session.{
  Session, Env, Effect, Operation, queued, written, closed, read, write, sendtoque, publish,
  publish_header, tls_write, with_item, send_item, on_write, log_failure, ack, pubrec, pubrel,
  pubcomp,
}
use esp32_mqtts_broker.Session.Items.{
  PacketState, PacketStateItem, getpuback, getpubrec, getpubrel, getpubcomp, sendpublish,
  sendpuback, sendpubrec, sendpubrel, sendpubcomp, item_at, no_item, wants_send, is_send,
  find_index, find_item, same_state,
}
use esp32_mqtts_broker.Session.Write.{sends, on_write-first}
use esp32_mqtts_broker.Session.Delivered.{message_item}

-- the bytes that were offered to connections, each with the socket, newest first
abbrev pub wire : List Effect → List (ℕ × List ℕ)
wire [] = []
wire (written sock bytes done ∷ effects) = (sock, bytes) ∷ wire effects
wire (queued sock op taken ∷ effects) = wire effects
wire (closed sock ∷ effects) = wire effects

-- packets for one socket
abbrev pub sent_to : ℕ → List (List ℕ) → List (ℕ × List ℕ)
sent_to sock [] = []
sent_to sock (bytes ∷ packets) = (sock, bytes) ∷ sent_to sock packets

-- the item `i` is the only one with the identifier `id`, and no other has something to send
pub record IsSole (items : List PacketStateItem) (i id : ℕ) : Type 0 where
  pub inside : i < length items
  pub others_idle : (j : ℕ) → wants_send (item_at items j) ≡ true → j ≡ i
  pub sole : (j : ℕ) → (item_at items j).packet_id ≡ id → j ≡ i

pub item_at-set :
    (items : List PacketStateItem) (i : ℕ) (b : PacketStateItem)
    → i < length items
    → item_at (set items i b) i ≡ b
item_at-set items i b h =
    let itself : (i == i) ≡ true = ground arith in get_or-set items i i b no_item h ∙ rw itself refl

item_at-set_ne :
    (items : List PacketStateItem) (i j : ℕ) (b : PacketStateItem)
    → i < length items
    → (i == j) ≡ false
    → item_at (set items i b) j ≡ item_at items j
item_at-set_ne items i j b h ne = get_or-set items i j b no_item h ∙ rw ne refl

pub IsSole-set :
    (items : List PacketStateItem) (i id : ℕ) (b : PacketStateItem)
    → IsSole items i id
    → IsSole (set items i b) i id
IsSole-set items i id b v = record {
  inside = omega (arith, length-set items i b, v.inside);
  others_idle = λ j h. elim (Bool-cases (i == j)) [
    | inl same ↦ ground arith
    | inr ne ↦ v.others_idle j (rw (item_at-set_ne items i j b v.inside ne) at h)
  ];
  sole = λ j h. elim (Bool-cases (i == j)) [
    | inl same ↦ ground arith
    | inr ne ↦ v.sole j (rw (item_at-set_ne items i j b v.inside ne) at h)
  ];
}

-- a test that one item passes finds it
find_only :
    (test : PacketStateItem → Bool) (items : List PacketStateItem) (i : ℕ)
    → i < length items
    → test (item_at items i) ≡ true
    → ((j : ℕ) → test (item_at items j) ≡ true → j ≡ i)
    → find_index test items ≡ some i
unfolding find_index
find_only test [] i h passes only = absurd (omega arith)
find_only test (item ∷ items) zero h passes only = rw passes refl
find_only test (item ∷ items) (suc i) h passes only = elim (Bool-cases (test item)) [
  | inl first ↦ absurd (omega (arith, only 0 first))
  | inr on ↦
      let later =
        find_only test items i (omega arith) passes (λ j p. omega (arith, only (suc j) p)) in
      rw (on, later) refl
]

same_state_refl : (a : PacketState) → same_state a a ≡ true
unfolding same_state
same_state_refl getpuback = refl
same_state_refl getpubrec = refl
same_state_refl getpubrel = refl
same_state_refl getpubcomp = refl
same_state_refl sendpublish = refl
same_state_refl sendpuback = refl
same_state_refl sendpubrec = refl
same_state_refl sendpubrel = refl
same_state_refl sendpubcomp = refl

pub find_item-sole :
    (items : List PacketStateItem) (i id : ℕ) (b : PacketStateItem)
    → IsSole items i id
    → item_at items i ≡ b
    → b.packet_id ≡ id
    → find_item id b.state items ≡ some i
unfolding find_item
find_item-sole items i id b v here named =
    find_only _ items i v.inside
      (let itself : (b.packet_id == id) ≡ true = ground arith in
        rw (here, itself, same_state_refl b.state) refl)
      (λ j p. v.sole j ((==_iff _ id).0 (ground arith)))

-- one turn of the packet: its item becomes `b`, the store `left`, and `bytes` are offered to
-- its connection, newest first
pub record Turn (s t : Session) (i : ℕ) (b : PacketStateItem) (left : Publishhashmap)
    (bytes : List (List ℕ)) : Type 0 where
  pub same_sock : t.sock ≡ s.sock
  pub same_client : t.client_sock ≡ s.client_sock
  pub items : t.items ≡ set s.items i b
  pub store : t.store ≡ left
  pub offered : wire t.effects ≡ sent_to s.sock bytes ++ wire s.effects

module _ (env : Env) (s : Session) (i id : ℕ) (sole : IsSole s.items i id) (pos : 0 < id) where
  -- the write event takes the item, if it has something to send
  pub on_write-takes :
      (b : PacketStateItem) (t : Session)
      → item_at s.items i ≡ b
      → b.packet_id ≡ id
      → is_send b.state ≡ true
      → send_item env s i b b.state ≡ ok t
      → (op : Operation) × (on_write env s ≡ ok (sendtoque env t op).1)
  unfolding sends
  on_write-takes b t here named sending run =
      let busy : (b.packet_id == 0) ≡ false = ground arith in
      let found : find_index wants_send s.items ≡ some i =
        find_only wants_send s.items i sole.inside (rw (here, busy, sending) refl)
          sole.others_idle in
      let zero_plus : 0 + i ≡ i = omega arith in
      let op = if ltb (i + 1) (length s.items) then write else read in
      (op, on_write-first env s ∙ rw (found, sends, zero_plus, here, run, ◌>>=◌, ◌>>=◌))

  -- a message of quality of service 1 or 2 is written, and waits for its acknowledgement
  pub Turn-publish :
      (qos n first : ℕ) (rest : List ℕ) (delete_retain : Bool)
      → 0 < qos
      → item_at s.items i ≡ message_item id qos delete_retain
      → IsTable s.store.power_of_cap s.store.slots
      → locate s.store id ≡ some n
      → (node_at s.store.slots n).content ≡ first ∷ rest
      → env.write_ok s.effects ≡ true
      → Returns (on_write env s) λ t.
        Turn s t i
          (record (message_item id qos delete_retain) {
            state = if qos == 1 then getpuback else getpubrec;
          })
          s.store
          ((publish_header first qos delete_retain ∷ rest) ∷ [])
  unfolding send_item publish is_send sendtoque log_failure
  Turn-publish qos n first rest delete_retain more here table found bytes sent =
      let item = message_item id qos delete_retain in
      let (slot, same) = locate_sound s.store table id n found in
      let u = (tls_write env s (publish_header first qos delete_retain ∷ rest)).1 in
      let t = with_item u i (record item { state = if qos == 1 then getpuback else getpubrec }) in
      let logged : log_failure u (env.write_ok s.effects) ≡ ok none = rw sent refl in
      let goes_on : (qos == 0 || not (env.write_ok s.effects)) ≡ false = ground arith in
      let run : send_item env s i item item.state ≡ ok t =
        rw
          (
            get-locate s.store table id,
            ◌>>=◌,
            found,
            slot_at-get_or s.store.slots n slot,
            ◌>>=◌,
            bytes,
            same,
            get-locate s.store table id,
            ◌>>=◌,
            logged,
            ◌>>=◌,
            goes_on,
            found,
          )
          refl in
      let (op, ends) = on_write-takes item t here refl refl run in
      (
        (sendtoque env t op).1,
        ends,
        record { same_sock = refl; same_client = refl; items = refl; store = refl; offered = refl },
      )

  Turn-ack :
      (b now : PacketStateItem) (bytes : List ℕ)
      → item_at s.items i ≡ b
      → b.packet_id ≡ id
      → is_send b.state ≡ true
      → send_item env s i b b.state ≡ ok (with_item (tls_write env s bytes).1 i now)
      → Returns (on_write env s) λ t. Turn s t i now s.store (bytes ∷ [])
  unfolding sendtoque
  Turn-ack b now bytes here named sending run =
      let t = with_item (tls_write env s bytes).1 i now in
      let (op, ends) = on_write-takes b t here named sending run in
      (
        (sendtoque env t op).1,
        ends,
        record { same_sock = refl; same_client = refl; items = refl; store = refl; offered = refl },
      )

  pub Turn-pubrel :
      (b : PacketStateItem)
      → item_at s.items i ≡ record b { packet_id = id; state = sendpubrel }
      → Returns (on_write env s) λ t.
        Turn s t i (record b { packet_id = id; state = getpubcomp }) s.store (ack pubrel id ∷ [])
  unfolding send_item is_send
  Turn-pubrel b here =
      Turn-ack (record b { packet_id = id; state = sendpubrel }) _ (ack pubrel id) here refl refl
        refl

  pub Turn-pubrec :
      (b : PacketStateItem)
      → item_at s.items i ≡ record b { packet_id = id; state = sendpubrec }
      → Returns (on_write env s) λ t.
        Turn s t i (record b { packet_id = id; state = getpubrel }) s.store (ack pubrec id ∷ [])
  unfolding send_item is_send
  Turn-pubrec b here =
      Turn-ack (record b { packet_id = id; state = sendpubrec }) _ (ack pubrec id) here refl refl
        refl

  pub Turn-pubcomp :
      (b : PacketStateItem)
      → item_at s.items i ≡ record b { packet_id = id; state = sendpubcomp }
      → Returns (on_write env s) λ t.
        Turn s t i (record b { packet_id = 0; state = sendpubcomp }) s.store (ack pubcomp id ∷ [])
  unfolding send_item is_send
  Turn-pubcomp b here =
      Turn-ack (record b { packet_id = id; state = sendpubcomp }) _ (ack pubcomp id) here refl refl
        refl
