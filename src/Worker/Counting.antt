-- ===== src/Worker/Counting.antt =====
-- The packets that refer to a stored message, over all connections of main/worker.cpp, and the count in
-- the message while `publish_by_topic` hands it out.
use esp32_mqtts_broker.Prelude.{
  ℕ, zero, suc, ◌+◌, ◌%◌, ◌<◌, ◌≡◌, refl, sym, ap, ◌∙◌, Bool, true, false, ◌&&◌, List, [], ◌∷◌,
  arith, ◌==◌, if◌then◌else◌, set, length, inl, inr, Bool-cases,
}
use esp32_mqtts_broker.Run.{Yields, Yields-bind, Yields-map}
use esp32_mqtts_broker.Publishhashmap.{Publishhashmap, NodePubmap, slot_at}
use esp32_mqtts_broker.Publishhashmap.Lookup.{node_at}
use esp32_mqtts_broker.Session.{Effect}
use esp32_mqtts_broker.Session.Items.{
  PacketState, PacketStateItem, getpuback, getpubrec, getpubrel, getpubcomp, sendpublish,
  sendpuback, sendpubrec, sendpubrel, sendpubcomp, add_packet_id, is_free_item,
}
use esp32_mqtts_broker.Worker.State.{Worker, World, SockCid, cell}
use esp32_mqtts_broker.Worker.Fanout.{count_up, enqueue, hand_over}

-- whether a packet in this state still needs the stored message
abbrev pub needs_message : PacketState → Bool
needs_message sendpublish = true
needs_message getpuback = true
needs_message getpubrec = true
needs_message getpubrel = false
needs_message getpubcomp = false
needs_message sendpuback = false
needs_message sendpubrec = false
needs_message sendpubrel = false
needs_message sendpubcomp = false

abbrev pub holds : ℕ → PacketStateItem → ℕ
holds id item = if item.packet_id == id && needs_message item.state then 1 else 0

-- how many packets of a connection, and of all of them, refer to the message
unfoldable pub held : ℕ → List PacketStateItem → ℕ
held id [] = 0
held id (item ∷ items) = holds id item + held id items

unfoldable pub held_by_all : ℕ → List SockCid → ℕ
unfolding held
held_by_all id [] = 0
held_by_all id (c ∷ cs) = held id c.packid_state + held_by_all id cs

abbrev pub receivers : ℕ → Worker → ℕ
receivers id w = held_by_all id w.sock_to_clientid

held-add_packet_id :
    (items : List PacketStateItem) (id qos : ℕ) (delete_retain : Bool)
    → 0 < id
    → held id (add_packet_id true items sendpublish id qos delete_retain) ≡ suc (held id items)
unfolding held add_packet_id
held-add_packet_id [] id qos delete_retain pos = ground arith
held-add_packet_id (item ∷ items) id qos delete_retain pos = elim (Bool-cases (is_free_item item)) [
  | inl free ↦ ground arith
  | inr taken ↦ rw (taken, held) (ground (arith, held-add_packet_id items id qos delete_retain pos))
]

-- a cell gets other packets
cell-held :
    (id : ℕ) (cs : List SockCid) (sock : ℕ)
    → Yields (cell cs sock) λ sockst.
      (other : SockCid)
      → held_by_all id (set cs sock other) + held id sockst.packid_state
        ≡ held_by_all id cs + held id other.packid_state
unfolding cell held_by_all
cell-held id [] sock = tt
cell-held id (c ∷ cs) zero = λ other. omega arith
cell-held id (c ∷ cs) (suc sock) =
    Yields-map _ _ (cell cs sock) (cell-held id cs sock) (λ sockst h other. omega (arith, h other))

-- a store in which one message has another count
abbrev pub recount : Publishhashmap → ℕ → ℕ → Publishhashmap
recount s n count = record s {
  slots = set s.slots n (record (node_at s.slots n) { count = count });
}

abbrev pub count_at : Worker → ℕ → ℕ
count_at w n = (node_at w.publish_msg_store.slots n).count

-- only the count of slot `n` has changed, and as much as the packets that refer to `id`, modulo 256
pub record Balanced (id n : ℕ) (w t : Worker) : Type 0 where
  pub only_count : t.publish_msg_store ≡ recount w.publish_msg_store n (count_at t n)
  pub balance : (count_at t n + receivers id w) % 256 ≡ (count_at w n + receivers id t) % 256

pub set-set : (ns : List NodePubmap) (n : ℕ) (a b : NodePubmap) → set (set ns n a) n b ≡ set ns n b
set-set [] n a b = refl
set-set (x ∷ ns) zero a b = refl
set-set (x ∷ ns) (suc n) a b = ap (λ xs. x ∷ xs) (set-set ns n a b)

set_same : (ns : List NodePubmap) (n : ℕ) → set ns n (node_at ns n) ≡ ns
set_same [] n = refl
set_same (x ∷ ns) zero = refl
set_same (x ∷ ns) (suc n) = ap (λ xs. x ∷ xs) (set_same ns n)

slot_at-inside :
    (ns : List NodePubmap) (n : ℕ)
    → Yields (slot_at ns n) λ node. (node ≡ node_at ns n) × (n < length ns)
unfolding slot_at
slot_at-inside [] n = tt
slot_at-inside (x ∷ ns) zero = (refl, omega arith)
slot_at-inside (x ∷ ns) (suc n) =
    Yields-map _ _ (slot_at ns n) (slot_at-inside ns n) (λ node (e, h). (e, omega arith))

pub node_at-set :
    (ns : List NodePubmap) (n : ℕ) (a : NodePubmap) → n < length ns → node_at (set ns n a) n ≡ a
node_at-set [] n a h = absurd (omega arith)
node_at-set (x ∷ ns) zero a h = refl
node_at-set (x ∷ ns) (suc n) a h = node_at-set ns n a (omega arith)

module _ (id n : ℕ) where
  -- nothing has changed that counts
  pub Balanced-refl :
      (w t : Worker)
      → t.publish_msg_store ≡ w.publish_msg_store
      → receivers id t ≡ receivers id w
      → Balanced id n w t
  Balanced-refl w t store same = record {
    only_count =
        rw store (ap (λ slots. record w.publish_msg_store { slots = slots }) (sym (set_same _ n)));
    balance = rw (store, same) refl;
  }

  pub recount-recount :
      (s : Publishhashmap) (a b : ℕ)
      → n < length s.slots
      → recount (recount s n a) n b ≡ recount s n b
  recount-recount s a b inside =
      let node = record (node_at s.slots n) { count = a } in
      ap (λ slots. record s { slots = slots })
        (rw (node_at-set s.slots n node inside) (set-set s.slots n node _))

  pub Balanced-trans :
      (w t u : Worker)
      → n < length w.publish_msg_store.slots
      → Balanced id n w t
      → Balanced id n t u
      → Balanced id n w u
  Balanced-trans w t u inside b c = record {
    only_count =
        c.only_count
        ∙ ap (λ s. recount s n (count_at u n)) b.only_count
        ∙ recount-recount w.publish_msg_store (count_at t n) (count_at u n) inside;
    balance = omega (arith, b.balance, c.balance);
  }

module _ (world : World) (grows : (effects : List Effect) → world.item_ok effects ≡ true) (id : ℕ)
    (pos : 0 < id) where
  enqueue-held :
      (w : Worker) (sock qos : ℕ) (delete_retain : Bool)
      → Yields
          (enqueue world w sock id qos delete_retain)
          λ t. (t.publish_msg_store ≡ w.publish_msg_store) × (receivers id t ≡ suc (receivers id w))
  unfolding enqueue
  enqueue-held w sock qos delete_retain =
      Yields-bind _ _ (cell w.sock_to_clientid sock) _ (cell-held id w.sock_to_clientid sock)
        (λ sockst swap. (
          refl,
          rw (grows w.effects) (
              omega (
                arith,
                swap (record sockst {
                  packid_state =
                      add_packet_id true sockst.packid_state sendpublish id qos delete_retain;
                }),
                held-add_packet_id sockst.packid_state id qos delete_retain pos,
              )),
        ))

  -- one packet more, and one receiver more
  pub hand_over-Balanced :
      (w : Worker) (sock qos n : ℕ) (delete_retain : Bool)
      → Yields (hand_over world w sock id qos n delete_retain) (Balanced id n w)
  unfolding hand_over
  hand_over-Balanced w sock qos n delete_retain =
      Yields-bind _ _ (enqueue world w sock id qos delete_retain) _
        (enqueue-held w sock qos delete_retain)
        (λ t (store, more).
          Yields-bind _ _ (slot_at t.publish_msg_store.slots n) _
            (slot_at-inside t.publish_msg_store.slots n)
            (λ node (same, inside).
              let slots = t.publish_msg_store.slots in
              let u = record t { publish_msg_store = count_up t.publish_msg_store n node } in
              let next = (node.count + 1) % 256 in
              let counted : count_at u n ≡ next =
                ap (λ (x : NodePubmap). x.count)
                  (node_at-set slots n (record node { count = next }) inside) in
              let before : node.count ≡ count_at w n =
                ap (λ (x : NodePubmap). x.count) same
                ∙ ap (λ (s : Publishhashmap). (node_at s.slots n).count) store in
              record {
                only_count =
                    ap
                      (λ (x : NodePubmap). record t.publish_msg_store {
                        slots = set slots n (record x { count = next });
                      })
                      same
                    ∙ ap (recount t.publish_msg_store n) (sym counted)
                    ∙ ap (λ s. recount s n (count_at u n)) store;
                balance = omega (arith, counted, before, more);
              }))
