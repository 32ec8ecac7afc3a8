-- ===== src/Worker/Published.antt =====
-- `publish_by_topic` of main/worker.cpp from the store's `add` to the last receiver.
use esp32_mqtts_broker.Prelude.{
  ℕ, ◌+◌, ◌-◌, ◌%◌, ◌<◌, ◌≡◌, refl, ap, ◌∙◌, Bool, true, false, some, List, arith, ◌==◌,
  if◌then◌else◌, length, size_mod, ◌⊎◌, inl, inr, Bool-cases,
}
use esp32_mqtts_broker.Run.{ok, ◌>>=◌, Returns, Yields-ok}
use esp32_mqtts_broker.Hashmap.Bucket.{Key}
use esp32_mqtts_broker.Hashmap.Lookup.{entries}
use esp32_mqtts_broker.Publishhashmap
use esp32_mqtts_broker.Publishhashmap.{
  Publishhashmap, NodePubmap, empty_node, knuth_hash, is_free, has_id, slot_at, erase,
}
use esp32_mqtts_broker.Publishhashmap.Probe.{slot_at-get_or}
use esp32_mqtts_broker.Publishhashmap.Lookup.{
  node_at, IsTable, target, locate, get-locate, locate_sound,
}
use esp32_mqtts_broker.Publishhashmap.Insert.{
  Stores, message_node, store-Stores, locate-store, IsTable-set,
}
use esp32_mqtts_broker.Publishhashmap.Remove.{without, locate-count, erase-locate}
use esp32_mqtts_broker.Session.{Effect}
use esp32_mqtts_broker.Worker.State.{Worker, World}
use esp32_mqtts_broker.Worker.Fanout.{deliver_all, let_go, publish_by_topic}
use esp32_mqtts_broker.Worker.Counting.{
  receivers, count_at, recount, Balanced, node_at-set, recount-recount,
}
use esp32_mqtts_broker.Worker.Receivers.{deliver_all-Balanced}
use esp32_mqtts_broker.Worker.Served.{AllServable, deliver_all-Keeps}

-- a message is there with the number of its receivers, or, without a receiver, it has left its slot;
-- `s` is the store in which it was put into slot `n`
pub data Settled (id n : ℕ) (s : Publishhashmap) (t : Worker) : Type 0 where
  waits :
      t.publish_msg_store ≡ recount s n (receivers id t % 256)
      → locate t.publish_msg_store id ≡ some n
      → 0 < receivers id t % 256
      → Settled id n s t
  gone :
      receivers id t % 256 ≡ 0 → t.publish_msg_store ≡ without (recount s n 0) n → Settled id n s t

-- `add` to a store that is not full
add_with_room :
    (table copy : Bool) (s : Publishhashmap) (id : ℕ) (content : List ℕ) (qos init_count : ℕ)
    → (s.size == length s.slots) ≡ false
    → Publishhashmap.add table copy s id content qos init_count
      ≡ Publishhashmap.store copy s id content qos init_count
unfolding Publishhashmap.add
add_with_room table copy s id content qos init_count room = rw room refl

-- the last line of `publish_by_topic`
let_go-count :
    (s : Publishhashmap) (id n c : ℕ)
    → IsTable s.power_of_cap s.slots
    → locate s id ≡ some n
    → (node_at s.slots n).count ≡ c
    → let less = (c + 256 - 1) % 256 in
      let_go s id n ≡ ok (if less == 0 then without (recount s n less) n else recount s n less)
unfolding let_go
let_go-count s id n c t found counted =
    let inside = (locate_sound s t id n found).0 in
    let less = (c + 256 - 1) % 256 in
    let still : locate (recount s n less) id ≡ some n = locate-count s id n less inside ∙ found in
    let erased : erase (recount s n less) id ≡ ok (without (recount s n less) n) =
      erase-locate (recount s n less) id (IsTable-set n _ t) ∙ rw still refl in
    elim (Bool-cases (less == 0)) [
      | inl last ↦ rw (slot_at-get_or s.slots n inside, ◌>>=◌, counted, last) erased
      | inr more ↦ rw (slot_at-get_or s.slots n inside, ◌>>=◌, counted, more) refl
    ]

module _ (id n : ℕ) (s : Publishhashmap) (t : IsTable s.power_of_cap s.slots)
    (found : locate s id ≡ some n) (once : (node_at s.slots n).count ≡ 1) where
  -- the count that is left is that of the packets
  less-receivers : (c r : ℕ) → (c + 0) % 256 ≡ (1 + r) % 256 → (c + 256 - 1) % 256 ≡ r % 256
  less-receivers c r h = omega arith

  let_go-Settled :
      (w u : Worker)
      → w.publish_msg_store ≡ s
      → receivers id w ≡ 0
      → Balanced id n w u
      → Returns
          (let_go u.publish_msg_store id n)
          λ store. Settled id n s (record u { publish_msg_store = store })
  let_go-Settled w u same fresh b =
      let c = count_at u n in
      let inside = (locate_sound s t id n found).0 in
      let left = receivers id u % 256 in
      let before : u.publish_msg_store ≡ recount s n c =
        b.only_count ∙ ap (λ v. recount v n c) same in
      let one : count_at w n ≡ 1 =
        ap (λ (v : Publishhashmap). (node_at v.slots n).count) same ∙ once in
      let less : (c + 256 - 1) % 256 ≡ left =
        less-receivers c (receivers id u) (omega (arith, b.balance, fresh, one)) in
      let again = recount-recount id n s c left inside in
      let still : locate (recount s n left) id ≡ some n = locate-count s id n left inside ∙ found in
      let counted : (node_at (recount s n c).slots n).count ≡ c =
        ap (λ (x : NodePubmap). x.count) (node_at-set s.slots n _ inside) in
      let run : let_go u.publish_msg_store id n
          ≡ ok (if left == 0 then without (recount s n left) n else recount s n left) =
        ap (λ v. let_go v id n) before
        ∙ let_go-count (recount s n c) id n c (IsTable-set n _ t)
            (locate-count s id n c inside ∙ found) counted
        ∙ ap
            (λ (d : ℕ). ok (
              if d == 0
              then without (recount (recount s n c) n d) n
              else recount (recount s n c) n d))
            less
        ∙ ap (λ (v : Publishhashmap). ok (if left == 0 then without v n else v)) again in
      elim (Bool-cases (left == 0)) [
        | inl none_left ↦
            let zero_left : left ≡ 0 = ground arith in
            (
              without (recount s n left) n,
              run ∙ rw none_left refl,
              gone zero_left (ap (λ v. without (recount s n v) n) zero_left),
            )
        | inr some_left ↦
            (recount s n left, run ∙ rw some_left refl, waits refl still (ground arith))
      ]

module _ (world : World) (grows : (effects : List Effect) → world.item_ok effects ≡ true) where
  -- A message with bytes is published under an identifier other than 0 to which no packet refers.
  -- The store is a table that is not full, with memory for the copy, and the identifier's home slot
  -- is free or holds another identifier; vectors of packets get memory. Every client of the client
  -- store is offline with a clean session, or is not subscribed to the topic, or has a connection. Then
  -- `publish_by_topic` returns, and the message is found with exactly as many receivers as packets
  -- refer to it, modulo 256, or, where that is 0, it has left its slot. No other slot has changed.
  pub publish_by_topic-Settled :
      (w : Worker) (topic : Key) (content : List ℕ) (qos id : ℕ)
      (t : IsTable w.publish_msg_store.power_of_cap w.publish_msg_store.slots)
      → (w.publish_msg_store.size == length w.publish_msg_store.slots) ≡ false
      → w.publish_msg_store.size + 1 < size_mod
      → world.session.copy_ok w.effects ≡ true
      → 0 < length content
      → 0 < id
      → (let home =
            node_at w.publish_msg_store.slots (knuth_hash w.publish_msg_store.power_of_cap id) in
          (is_free home ≡ true) ⊎ (has_id id home ≡ false))
      → receivers id w ≡ 0
      → AllServable topic (length w.sock_to_clientid) w.clients (entries w.client_store)
      → (r : Bool × Publishhashmap) × Stores w.publish_msg_store
          (target t id)
          (message_node id content qos 1)
          r
        × Returns (publish_by_topic world w topic content qos id) (Settled id (target t id) r.1)
  unfolding publish_by_topic
  publish_by_topic-Settled w topic content qos id t room small copy some_bytes pos home fresh all =
      let store = w.publish_msg_store in
      let n = target t id in
      let (r, run, stored) = store-Stores store t id content qos 1 some_bytes small in
      let added = record w { publish_msg_store = r.1 } in
      let found = locate-store store t id content qos 1 r stored home in
      let table : IsTable r.1.power_of_cap r.1.slots = rw stored.power stored.table in
      let itself : (n == n) ≡ true = ground arith in
      let once : (node_at r.1.slots n).count ≡ 1 = rw (stored.slots n, itself) refl in
      let inside = (locate_sound r.1 table id n found).0 in
      let clients = entries w.client_store in
      let (u, runs, _) = deliver_all-Keeps world topic qos id n added clients all inside in
      let b =
        Yields-ok (Balanced id n added) (deliver_all world topic qos id n added clients) u
          (deliver_all-Balanced world grows id pos n topic qos added clients inside) runs in
      let (left, last, settled) = let_go-Settled id n r.1 table found once added u refl fresh b in
      (
        r,
        stored,
        (
          record u { publish_msg_store = left },
          rw
              (
                add_with_room (world.session.table_ok w.effects) (world.session.copy_ok w.effects)
                    store id content qos 1 room,
                copy,
                run,
                ◌>>=◌,
                get-locate r.1 table id,
                found,
                ◌>>=◌,
                runs,
                ◌>>=◌,
                last,
              )
              refl,
          settled,
        ),
      )
