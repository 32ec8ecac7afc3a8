-- ===== src/Tests/Deliveries.antt =====
-- A connection with one packet under way, and the acknowledgements of the other side.
use esp32_mqtts_broker.Prelude.{some, List, ℕ, zero, suc, ◌<◌, ◌≡◌, refl, true, [], ◌∷◌, arith}
use esp32_mqtts_broker.Run.{ok, ◌>>=◌, Returns}
use esp32_mqtts_broker.Publishhashmap.{NodePubmap, Publishhashmap, empty_node, knuth_hash, release}
use esp32_mqtts_broker.Publishhashmap.Lookup.{IsTable, locate}
use esp32_mqtts_broker.Session.{read, write, ack, pubrec, pubrel, pubcomp}
use esp32_mqtts_broker.Session.Items.{
  PacketStateItem, no_item, wants_send, item_at, getpubcomp, sendpubrec, sendpubcomp,
}
use esp32_mqtts_broker.Session.Delivered.{message_item}
use esp32_mqtts_broker.Session.Turns.{wire, IsSole}
use esp32_mqtts_broker.Worker.Arriving.{Arrives}
use esp32_mqtts_broker.Worker.Exchange.{sender_messages, receiver_messages}
use esp32_mqtts_broker.Worker.State.{SockCid, Worker, mqtt, cell}
use esp32_mqtts_broker.Worker.{Arrival, on_message}
use esp32_mqtts_broker.Tests.Workers.{world, worker, ping}

abbrev greeting : NodePubmap
greeting = record {
  count = 2;
  qos = 2;
  pubpack_id = 1;
  content = 0x34 ∷ 5 ∷ 0 ∷ 1 ∷ b'a' ∷ 0 ∷ 1 ∷ [];
}

abbrev stored : Publishhashmap
stored = record { power_of_cap = 1; slots = empty_node ∷ greeting ∷ []; size = 1 }

stored-IsTable : IsTable 1 stored.slots
stored-IsTable = record { lower = omega arith; upper = omega arith; width = refl }

-- a connection whose second packet is `b`, and a worker with it alone
abbrev under_way : PacketStateItem → SockCid
under_way b = record {
  client = some 0;
  clientid = b'c' ∷ [];
  phs = mqtt;
  packid_state = no_item ∷ b ∷ [];
}

abbrev busy_worker : PacketStateItem → Worker
busy_worker b = record worker { sock_to_clientid = under_way b ∷ []; publish_msg_store = stored }

abbrev to_ack : PacketStateItem
to_ack = record { packet_id = 7; state = sendpubrec; qos = 2; delete_retain = true }

idle : (b : PacketStateItem) (j : ℕ) → wants_send (item_at (no_item ∷ b ∷ []) j) ≡ true → j ≡ 1
idle b zero h = cc h
idle b (suc zero) h = refl
idle b (suc (suc j)) h = cc h

only :
    (b : PacketStateItem) (id j : ℕ)
    → 0 < id
    → (item_at (no_item ∷ b ∷ []) j).packet_id ≡ id
    → j ≡ 1
only b id zero pos h = absurd (omega arith)
only b id (suc zero) pos h = refl
only b id (suc (suc j)) pos h = absurd (omega arith)

under_way-IsSole :
    (b : PacketStateItem) → 0 < b.packet_id → IsSole (under_way b).packid_state 1 b.packet_id
under_way-IsSole b pos = record {
  inside = omega arith;
  others_idle = idle b;
  sole = λ j h. only b b.packet_id j pos h;
}

-- the bytes that the connection gives
abbrev gives : List ℕ → Arrival
gives bytes = record ping { stream = bytes }

arrives : (kind low : ℕ) → Arrives kind low (gives (kind ∷ 2 ∷ low ∷ 0 ∷ []))
arrives kind low = record {
  low = low;
  high = 0;
  more = [];
  room = omega arith;
  stream = refl;
  about = omega arith;
}

sender_messages_example :
    let b = message_item 1 2 true in
    let w = busy_worker b in
    Returns
      (on_message world ping w (some 0) write >>= λ t.
        on_message world (gives (0x50 ∷ 2 ∷ 1 ∷ 0 ∷ [])) t (some 0) read >>= λ u.
        on_message world ping u (some 0) write >>= λ v.
        on_message world (gives (0x70 ∷ 2 ∷ 1 ∷ 0 ∷ [])) v (some 0) read)
      λ t.
        (release stored 1 ≡ ok t.publish_msg_store)
        × (wire t.effects ≡ (0, ack pubrel 1) ∷ (0, 0x34 ∷ 5 ∷ 0 ∷ 1 ∷ b'a' ∷ 0 ∷ 1 ∷ []) ∷ [])
        × (t.sock_to_clientid
            ≡ under_way (record (message_item 1 2 true) { packet_id = 0; state = getpubcomp }) ∷ [])
        × (t.clients ≡ w.clients)
        × (t.client_store ≡ w.client_store)
        × (t.retained_sub_msg ≡ w.retained_sub_msg)
sender_messages_example =
    let b = message_item 1 2 true in
    sender_messages world (busy_worker b) 0 (under_way b) (unfold cell in refl) refl (omega arith)
      ping (gives (0x50 ∷ 2 ∷ 1 ∷ 0 ∷ [])) ping (gives (0x70 ∷ 2 ∷ 1 ∷ 0 ∷ [])) 1 1 1 0x34
      (5 ∷ 0 ∷ 1 ∷ b'a' ∷ 0 ∷ 1 ∷ []) true (under_way-IsSole b (omega arith)) (omega arith) refl
      stored-IsTable (unfold locate knuth_hash in refl) refl (omega arith) refl (arrives 0x50 1)
      (arrives 0x70 1)

receiver_messages_example :
    let w = busy_worker to_ack in
    Returns
      (on_message world ping w (some 0) write >>= λ t.
        on_message world (gives (0x62 ∷ 2 ∷ 7 ∷ 0 ∷ [])) t (some 0) read >>= λ u.
        on_message world ping u (some 0) write)
      λ t.
        (t.publish_msg_store ≡ stored)
        × (wire t.effects ≡ (0, ack pubcomp 7) ∷ (0, ack pubrec 7) ∷ [])
        × (t.sock_to_clientid
            ≡ under_way (record to_ack { packet_id = 0; state = sendpubcomp }) ∷ [])
        × (t.clients ≡ w.clients)
        × (t.client_store ≡ w.client_store)
        × (t.retained_sub_msg ≡ w.retained_sub_msg)
receiver_messages_example =
    receiver_messages world (busy_worker to_ack) 0 (under_way to_ack) (unfold cell in refl) refl
      (omega arith) ping (gives (0x62 ∷ 2 ∷ 7 ∷ 0 ∷ [])) ping 1 7 to_ack
      (under_way-IsSole to_ack (omega arith)) (omega arith) refl (arrives 0x62 7)
