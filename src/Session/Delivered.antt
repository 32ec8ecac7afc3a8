-- ===== src/Session/Delivered.antt =====
-- A message that was handed to a connection of main/worker.cpp, and the write event after it.
use esp32_mqtts_broker.Prelude.{
  ℕ, suc, ◌+◌, ◌<◌, ◌≡◌, refl, ◌∙◌, Bool, true, false, ◌||◌, not, none, some, List, [], ◌∷◌, arith,
  ◌==◌, ltb, if◌then◌else◌, length, inl, inr, Bool-cases, Option-cases,
}
use esp32_mqtts_broker.Run.{◌>>=◌, Returns}
use esp32_mqtts_broker.Publishhashmap.Probe.{slot_at-get_or}
use esp32_mqtts_broker.Publishhashmap.Lookup.{IsTable, node_at, locate, get-locate, locate_sound}
use esp32_mqtts_broker.Publishhashmap.Remove.{release-Returns}
use esp32_mqtts_broker.Session.{
  Session, Env, queued, written, read, write, Operation, sendtoque, publish, publish_header,
  tls_write, with_item, send_item, on_write,
}
use esp32_mqtts_broker.Session.Items.{
  PacketState, PacketStateItem, sendpublish, item_at, is_free_item, wants_send, is_send, find_index,
  add_packet_id,
}
use esp32_mqtts_broker.Session.Advance.{MayWrite, log_failure-Returns}
use esp32_mqtts_broker.Session.Write.{sends, on_write-first}

abbrev pub message_item : ℕ → ℕ → Bool → PacketStateItem
message_item id qos delete_retain = record {
  packet_id = id;
  state = sendpublish;
  qos = qos;
  delete_retain = delete_retain;
}

none_here :
    (item : PacketStateItem) (items : List PacketStateItem)
    → find_index wants_send (item ∷ items) ≡ none
    → (wants_send item ≡ false) × (find_index wants_send items ≡ none)
unfolding find_index
none_here item items h = elim (Bool-cases (wants_send item)) [
  | inl here ↦ cc (rw here at h)
  | inr on ↦ elim (Option-cases (find_index wants_send items)) [
    | inl e ↦ (on, e)
    | inr (j, e) ↦ cc (rw (on, e) at h)
  ]
]

-- where nothing else has something to send, a message that is added is what the write event finds
find_index-add_packet_id :
    (items : List PacketStateItem) (id qos : ℕ) (delete_retain : Bool)
    → 0 < id
    → find_index wants_send items ≡ none
    → (i : ℕ) × (find_index wants_send (add_packet_id true items sendpublish id qos delete_retain)
        ≡ some i)
      × (item_at (add_packet_id true items sendpublish id qos delete_retain) i
          ≡ message_item id qos delete_retain)
unfolding find_index add_packet_id is_send
find_index-add_packet_id [] id qos delete_retain pos nothing =
    let busy : (id == 0) ≡ false = ground arith in (0, rw busy refl, refl)
find_index-add_packet_id (item ∷ items) id qos delete_retain pos nothing =
    let busy : (id == 0) ≡ false = ground arith in
    elim (Bool-cases (is_free_item item)) [
      | inl free ↦ (0, rw (free, busy) refl, rw free refl)
      | inr taken ↦
          let (over, later) = none_here item items nothing in
          let (i, found, there) = find_index-add_packet_id items id qos delete_retain pos later in
          (suc i, rw (taken, find_index, over, found) refl, rw taken there)
    ]

-- a write of a message offers it to the connection, and does nothing else outside
publish-written :
    (env : Env) (s : Session) (i : ℕ) (item : PacketStateItem) (first : ℕ) (rest : List ℕ)
    (qos id : ℕ) (delete_retain : Bool)
    → IsTable s.store.power_of_cap s.store.slots
    → MayWrite env s
    → (n : ℕ) → locate s.store id ≡ some n
    → Returns (publish env s i item (first ∷ rest) qos id delete_retain) λ t.
      (t.effects
        ≡ written s.sock (publish_header first qos delete_retain ∷ rest) (env.write_ok s.effects)
          ∷ s.effects)
      × (t.sock ≡ s.sock)
unfolding publish
publish-written env s i item first rest qos id delete_retain table may n found =
    let (store, released_store, _) = release-Returns s.store id table in
    let t = (tls_write env s (publish_header first qos delete_retain ∷ rest)).1 in
    let (k, logged) = log_failure-Returns env s t may refl in
    elim (Bool-cases (qos == 0 || not (env.write_ok s.effects))) [
      | inl over ↦ (
        record (with_item t i (record item { packet_id = 0 })) { store = store },
        rw (get-locate s.store table id, ◌>>=◌, logged, ◌>>=◌, over, released_store, ◌>>=◌),
        (refl, refl),
      )
      | inr waits ↦ (
        with_item t i (record item {
          state = if qos == 1 then PacketState.getpuback else PacketState.getpubrec;
        }),
        rw (get-locate s.store table id, found, ◌>>=◌, logged, ◌>>=◌, waits),
        (refl, refl),
      )
    ]

send_item-written :
    (env : Env) (s : Session) (i : ℕ) (item : PacketStateItem) (id n qos first : ℕ) (rest : List ℕ)
    (delete_retain : Bool)
    → IsTable s.store.power_of_cap s.store.slots
    → MayWrite env s
    → locate s.store id ≡ some n
    → (node_at s.store.slots n).content ≡ first ∷ rest
    → item ≡ message_item id qos delete_retain
    → Returns (send_item env s i item item.state) λ t.
      (t.effects
        ≡ written s.sock (publish_header first qos delete_retain ∷ rest) (env.write_ok s.effects)
          ∷ s.effects)
      × (t.sock ≡ s.sock)
unfolding send_item
send_item-written env s i item id n qos first rest delete_retain table may found bytes e =
    let (slot, same) = locate_sound s.store table id n found in
    let (t, run, offered) =
      publish-written env s i (message_item id qos delete_retain) first rest qos id delete_retain
        table may n found in
    (
      t,
      rw
          (
            e,
            get-locate s.store table id,
            ◌>>=◌,
            found,
            slot_at-get_or s.store.slots n slot,
            ◌>>=◌,
            bytes,
            same,
          )
          run,
      offered,
    )

-- The liveness of a delivery. A connection has nothing to send, its vector of packets has room or gets
-- memory, and the next write succeeds or the client of the connection can be read; a message under an identifier other than 0 is found in the store and has bytes. If
-- the message is added to the connection's packets, the next write event ends normally, offers the
-- message to the connection, with the header of the quality of service that was asked for, and asks the queue
-- for one more event; it does nothing else outside.
pub on_write-delivers :
    (env : Env) (s : Session) (id n qos first : ℕ) (rest : List ℕ) (delete_retain : Bool)
    → IsTable s.store.power_of_cap s.store.slots
    → MayWrite env s
    → 0 < id
    → locate s.store id ≡ some n
    → (node_at s.store.slots n).content ≡ first ∷ rest
    → find_index wants_send s.items ≡ none
    → let t : Session = record s {
      items = add_packet_id true s.items sendpublish id qos delete_retain;
    } in
      Returns (on_write env t) λ u.
        (op : Operation) × (u.effects
          ≡ queued s.sock op (
              env.queue_ok (
                written s.sock
                  (publish_header first qos delete_retain ∷ rest)
                  (env.write_ok s.effects)
                ∷ s.effects))
            ∷ written s.sock
                (publish_header first qos delete_retain ∷ rest)
                (env.write_ok s.effects)
            ∷ s.effects)
unfolding sends sendtoque
on_write-delivers env s id n qos first rest delete_retain table may pos found bytes nothing =
    let t : Session = record s {
      items = add_packet_id true s.items sendpublish id qos delete_retain;
    } in
    let (i, here, item) = find_index-add_packet_id s.items id qos delete_retain pos nothing in
    let (u, run, (offered, sock)) =
      send_item-written env t i (item_at t.items i) id n qos first rest delete_retain table may
        found bytes item in
    let zero_plus : 0 + i ≡ i = omega arith in
    let op = if ltb (i + 1) (length t.items) then write else read in
    (
      (sendtoque env u op).1,
      on_write-first env t ∙ rw (here, sends, zero_plus, run, ◌>>=◌, ◌>>=◌),
      (op, rw (offered, sock) refl),
    )
