-- ===== src/Publishhashmap/Insert.antt =====
-- What `add` does to a store that is not full.
use esp32_mqtts_broker.Prelude.{
  ℕ, zero, suc, ◌+◌, ◌%◌, ◌<◌, ◌≡◌, ◌≢◌, refl, sym, ap, ◌∙◌, Bool, true, false, ◌&&◌, not, none,
  some, List, [], ◌∷◌, arith, ◌==◌, if◌then◌else◌, length, set, length-set, get_or-set, ◌⊎◌, inr,
  size_mod,
}
use esp32_mqtts_broker.Run.{ok, ◌>>=◌, Returns}
use esp32_mqtts_broker.Publishhashmap.{
  Publishhashmap, NodePubmap, empty_node, knuth_hash, is_free, has_id, store, add, get,
}
use esp32_mqtts_broker.Publishhashmap.Probe.{slot_at-get_or, next_slot}
use esp32_mqtts_broker.Publishhashmap.Lookup.{
  node_at, weight, live, IsTable, table_bounds, target, place-target, target-inside, locate,
  get-locate, next_slot-ne,
}

pub live-set :
    (ns : List NodePubmap) (i : ℕ) (x : NodePubmap)
    → i < length ns
    → live (set ns i x) + weight (node_at ns i) ≡ live ns + weight x
unfolding live
live-set [] i x h = absurd (omega arith)
live-set (n ∷ ns) zero x h = omega arith
live-set (n ∷ ns) (suc i) x h = omega (arith, live-set ns i x (omega arith))

pub IsTable-set :
    {power : ℕ} {ns : List NodePubmap} (i : ℕ) (x : NodePubmap)
    → IsTable power ns
    → IsTable power (set ns i x)
IsTable-set {power} {ns} i x t = record {
  lower = t.lower;
  upper = t.upper;
  width = length-set ns i x ∙ t.width;
}

-- a message as `add` writes it
abbrev pub message_node : ℕ → List ℕ → ℕ → ℕ → NodePubmap
message_node key bytes msg_qos init_count = record {
  count = init_count;
  qos = msg_qos;
  pubpack_id = key;
  content = bytes;
}

-- a message written to the slot `i`
pub record Stores (s : Publishhashmap) (i : ℕ) (node : NodePubmap) (r : Bool × Publishhashmap)
    : Type 0 where
  pub answer : r.0 ≡ true
  pub table : IsTable s.power_of_cap r.1.slots
  pub power : r.1.power_of_cap ≡ s.power_of_cap
  pub sized : r.1.size ≡ s.size + 1
  pub slots : (j : ℕ) → node_at r.1.slots j ≡ (if i == j then node else node_at s.slots j)
  pub lives : live r.1.slots + weight (node_at s.slots i) ≡ live s.slots + weight node

module _ (s : Publishhashmap) (t : IsTable s.power_of_cap s.slots) (key : ℕ) (bytes : List ℕ)
    (msg_qos init_count : ℕ) where
  -- On a well-formed table, with memory for the copy of a message that is not empty and a `size`
  -- below 2 ^ 32 - 1, the part of `add` behind the full-table test writes one slot, the target of
  -- the identifier, and no other, and counts one message more.
  pub store-Stores :
      0 < length bytes
      → s.size + 1 < size_mod
      → Returns
          (store true s key bytes msg_qos init_count)
          (Stores s (target t key) (message_node key bytes msg_qos init_count))
  unfolding store
  store-Stores some_bytes room =
      let i = target t key in
      let inside = target-inside t key in
      let node = message_node key bytes msg_qos init_count in
      let nonempty : (length bytes == 0) ≡ false = ground arith in
      (
        (true, record s { slots = set s.slots i node; size = (s.size + 1) % size_mod }),
        rw (place-target t key, ◌>>=◌, slot_at-get_or s.slots i inside, ◌>>=◌, nonempty),
        record {
          answer = refl;
          table = IsTable-set i node t;
          power = refl;
          sized = omega arith;
          slots = λ j. get_or-set s.slots i j node empty_node inside;
          lives = live-set s.slots i node inside;
        },
      )

  -- On a well-formed table, without memory for the copy or at an empty message, the store answers
  -- false, and the slot that it chose has lost its bytes: those of a message that waits there, if
  -- the home slot was taken and the next one too.
  pub store_refused :
      (alloc : Bool)
      → (alloc && not (length bytes == 0)) ≡ false
      → store alloc s key bytes msg_qos init_count
        ≡ ok (
          false,
          record s {
            slots =
                set s.slots
                  (target t key)
                  (record (node_at s.slots (target t key)) { content = [] });
          },
        )
  unfolding store
  store_refused alloc h = rw (
    place-target t key,
    ◌>>=◌,
    slot_at-get_or s.slots (target t key) (target-inside t key),
    ◌>>=◌,
    h,
  )

  -- On a well-formed table, the message that was stored is the one that is found, if its home slot
  -- was free or held another identifier.
  pub locate-store :
      (r : Bool × Publishhashmap)
      → Stores s (target t key) (message_node key bytes msg_qos init_count) r
      → ((is_free (node_at s.slots (knuth_hash s.power_of_cap key)) ≡ true)
          ⊎ (has_id key (node_at s.slots (knuth_hash s.power_of_cap key)) ≡ false))
      → locate r.1 key ≡ some (target t key)
  unfolding locate
  locate-store r w fresh =
      let id = knuth_hash s.power_of_cap key in
      let next = next_slot id (length s.slots) in
      let same : length r.1.slots ≡ length s.slots = w.table.width ∙ sym t.width in
      rw (w.power, same, w.slots id, w.slots next)
        (ground (arith, next_slot-ne id (length s.slots) (table_bounds t key).0))

  -- The collision that is not resolved. A well-formed table has room, the memory is there, and `size` is
  -- below 2 ^ 32 - 1. Let the home slot of a new identifier hold a message of some other identifier than
  -- `lost`, and the slot behind it the message `lost`, which has the same home. Then `add` of a message
  -- with bytes answers true and counts one message more, and the message `lost`, which `get` found
  -- before, is not found any longer: the new one is found in its slot, and no other slot has changed.
  pub add_overwrites :
      (table_alloc : Bool) (lost : ℕ)
      → let id = knuth_hash s.power_of_cap key in
        let next = next_slot id (length s.slots) in
        (s.size == length s.slots) ≡ false
        → 0 < length bytes
        → s.size + 1 < size_mod
        → is_free (node_at s.slots id) ≡ false
        → has_id key (node_at s.slots id) ≡ false
        → has_id lost (node_at s.slots id) ≡ false
        → has_id lost (node_at s.slots next) ≡ true
        → knuth_hash s.power_of_cap lost ≡ id
        → key ≢ lost
        → (get s lost ≡ ok (some next))
          × (Returns (add table_alloc true s key bytes msg_qos init_count) λ r.
              (r.0 ≡ true)
              × (r.1.size ≡ s.size + 1)
              × (get r.1 lost ≡ ok none)
              × (get r.1 key ≡ ok (some next))
              × ((j : ℕ)
                  → node_at r.1.slots j ≡ (
                      if next == j
                      then message_node key bytes msg_qos init_count
                      else node_at s.slots j)))
  unfolding add locate
  add_overwrites table_alloc lost light some_bytes room full fresh other there home_lost ne =
      let id = knuth_hash s.power_of_cap key in
      let next = next_slot id (length s.slots) in
      let (r, run, w) = store-Stores some_bytes room in
      let table : IsTable r.1.power_of_cap r.1.slots = rw w.power w.table in
      let same : length r.1.slots ≡ length s.slots = w.table.width ∙ sym t.width in
      let apart = next_slot-ne id (length s.slots) (table_bounds t key).0 in
      let at_next : target t key ≡ next = rw full refl in
      let before : locate s lost ≡ some next = rw home_lost (ground arith) in
      let after : locate r.1 lost ≡ none =
        rw (w.power, home_lost, same, w.slots id, w.slots next) (ground (arith, apart)) in
      (
        get-locate s t lost ∙ ap ok before,
        (
          r,
          rw light run,
          (
            w.answer,
            w.sized,
            get-locate r.1 table lost ∙ ap ok after,
            get-locate r.1 table key
                ∙ ap ok (locate-store r w (inr fresh))
                ∙ ap (λ k. ok (some k)) at_next,
            λ j.
                w.slots j
                ∙ ap
                    (λ k.
                      if k == j
                      then message_node key bytes msg_qos init_count
                      else node_at s.slots j)
                    at_next,
          ),
        ),
      )
