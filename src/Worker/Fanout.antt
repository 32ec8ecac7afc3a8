-- ===== src/Worker/Fanout.antt =====
-- main/worker.cpp: `publish_by_topic`, which gives a message to every client that subscribed to its
-- topic, and the counting of the receivers that a message still has.
use esp32_mqtts_broker.Prelude.{
  ℕ, ◌+◌, ◌-◌, ◌%◌, Bool, true, false, ◌&&◌, none, some, List, [], ◌∷◌, ◌==◌, ltb, flatten,
  if◌then◌else◌, set,
}
use esp32_mqtts_broker.Run.{Run, ok, fault, out_of_range, ◌>>=◌}
use esp32_mqtts_broker.Hashmap.Bucket.{Key}
use esp32_mqtts_broker.Hashmap.Lookup.{entries}
use esp32_mqtts_broker.Publishhashmap
use esp32_mqtts_broker.Publishhashmap.{Publishhashmap, NodePubmap, slot_at}
use esp32_mqtts_broker.Subscription.{empty_qos}
use esp32_mqtts_broker.Client.{Client, is_subscribed}
use esp32_mqtts_broker.Session.{read, write, delread}
use esp32_mqtts_broker.Session.Items.{sendpublish, add_packet_id}
use esp32_mqtts_broker.Worker.State.{Worker, World, cell, deref, with_cell, offer}

-- `++node->count`
abbrev pub count_up : Publishhashmap → ℕ → NodePubmap → Publishhashmap
count_up s n node = record s {
  slots = set s.slots n (record node { count = (node.count + 1) % 256 });
}

-- one more packet for a connection
unfoldable pub enqueue : World → Worker → ℕ → ℕ → ℕ → Bool → Run Worker
enqueue world w sock packet_id qos delete_retain = cell w.sock_to_clientid sock >>= λ sockst. ok (
    with_cell w sock (record sockst {
      packid_state =
          add_packet_id (world.item_ok w.effects) sockst.packid_state sendpublish packet_id qos
            delete_retain;
    }))

-- `add_packet_id`, then `++node->count`
unfoldable pub hand_over : World → Worker → ℕ → ℕ → ℕ → ℕ → Bool → Run Worker
hand_over world w sock packet_id qos n delete_retain =
    enqueue world w sock packet_id qos delete_retain >>= λ t.
    slot_at t.publish_msg_store.slots n >>= λ node.
    ok (record t { publish_msg_store = count_up t.publish_msg_store n node })

-- the part of a round for a client whose connection is `sock`
unfoldable pub notify : World → Worker → ℕ → ℕ → ℕ → ℕ → Run Worker
notify world w sock packet_id qos n =
    let (taken, t) = offer world (offer world w sock delread).1 sock write in
    if taken then hand_over world t sock packet_id qos n true else ok (offer world t sock read).1

abbrev pub is_offline : Client → Bool
is_offline client = elim client.sock [ none ↦ true | some sock ↦ false ]

-- one round of the loop; for a client without a connection the source takes element -1 of the array
unfoldable pub deliver : World → Key → ℕ → ℕ → ℕ → Worker → ℕ → Run Worker
deliver world topic qos packet_id n w c = deref w.clients c >>= λ client.
    if is_offline client && client.clean_session
    then ok w
    else (is_subscribed client topic >>= λ client_qos.
        if client_qos == empty_qos then ok w else (elim client.sock [
          | none ↦ fault out_of_range
          | some sock ↦
              notify world w sock packet_id (if ltb qos client_qos then qos else client_qos) n
        ]))

-- `for (auto &client : client_store)`
unfoldable pub deliver_all : World → Key → ℕ → ℕ → ℕ → Worker → List (Key × ℕ) → Run Worker
deliver_all world topic qos packet_id n w [] = ok w
deliver_all world topic qos packet_id n w ((id, c) ∷ clients) =
    deliver world topic qos packet_id n w c >>= λ t.
    deliver_all world topic qos packet_id n t clients

-- `if (--node->count == 0) erase(packet_id)`
unfoldable pub let_go : Publishhashmap → ℕ → ℕ → Run Publishhashmap
let_go s packet_id n = slot_at s.slots n >>= λ node.
    let count = (node.count + 256 - 1) % 256 in
    let less = record s { slots = set s.slots n (record node { count = count }) } in
    if count == 0 then Publishhashmap.erase less packet_id else ok less

unfoldable pub publish_by_topic : World → Worker → Key → List ℕ → ℕ → ℕ → Run Worker
unfolding flatten
publish_by_topic world w topic content qos packet_id =
    Publishhashmap.add (world.session.table_ok w.effects) (world.session.copy_ok w.effects)
      w.publish_msg_store packet_id content qos 1
    >>= λ r.
        let t = record w { publish_msg_store = r.1 } in
        Publishhashmap.get r.1 packet_id >>= λ found. elim found [
          | none ↦ ok t
          | some n ↦ deliver_all world topic qos packet_id n t (entries w.client_store) >>= λ u.
              let_go u.publish_msg_store packet_id n >>= λ store.
              ok (record u { publish_msg_store = store })
        ]
