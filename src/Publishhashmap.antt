-- ===== src/Publishhashmap.antt =====
-- main/includes/Publishhashmap.hpp and main/Publishhashmap.cpp: the messages that wait for delivery, in
-- an open-addressed table. A pointer to a node is the index of its slot. `map.capacity` is the number
-- of slots, `map.size` the field `size`.
pub mod Hash
pub mod Probe
pub mod Lookup
pub mod Insert
pub mod Rehash
pub mod Full
pub mod Remove
use esp32_mqtts_broker.Prelude.{
  ℕ, zero, suc, ◌+◌, ◌-◌, ◌*◌, ◌/◌, ◌%◌, ◌^◌, Bool, true, false, ◌&&◌, not, Option, none, some,
  List, [], ◌∷◌, ◌==◌, if◌then◌else◌, length, set, take, replicate, size_mod,
}
use esp32_mqtts_broker.Run.{Run, ok, fault, out_of_range, out_of_fuel, ◌>>=◌}

pub record NodePubmap : Type 0 where
  pub count : ℕ
  pub qos : ℕ
  pub pubpack_id : ℕ
  pub content : List ℕ

pub record Publishhashmap : Type 0 where
  pub power_of_cap : ℕ
  pub slots : List NodePubmap
  pub size : ℕ

abbrev pub knuth : ℕ
knuth = 2654435769

-- the high `power` bits of the 32-bit product
unfoldable pub knuth_hash : ℕ → ℕ → ℕ
knuth_hash power x = x * knuth % size_mod / 2 ^ (32 - power)

abbrev pub empty_node : NodePubmap
empty_node = record { count = 0; qos = 0; pubpack_id = 0; content = [] }

-- the constructor at a capacity of `2 ^ power`, which `__builtin_ctz` takes back to `power`
unfoldable pub new_store : Bool → ℕ → Publishhashmap
new_store alloc power = record {
  power_of_cap = power;
  slots = if alloc then replicate (2 ^ power) empty_node else [];
  size = 0;
}

unfoldable pub slot_at : List NodePubmap → ℕ → Run NodePubmap
slot_at [] i = fault out_of_range
slot_at (n ∷ ns) zero = ok n
slot_at (n ∷ ns) (suc i) = slot_at ns i

-- `for (; cur_id != id; ++id)`, the loop of `get`, `add` and `rehash`, up to its test on the node;
-- the result is `(cur_id, id)`. It is `id` that the loop moves, not `cur_id`.
unfoldable pub probe : ℕ → (NodePubmap → Bool) → List NodePubmap → ℕ → ℕ → Run (ℕ × ℕ)
probe zero stop slots cur_id id = fault out_of_fuel
probe (suc fuel) stop slots cur_id id = elim (cur_id == id) [
  | true ↦ ok (cur_id, id)
  | false ↦
      let cur = if cur_id == length slots then 0 else cur_id in
      slot_at slots cur >>= λ node. elim (stop node) [
        | true ↦ ok (cur, id)
        | false ↦ probe fuel stop slots cur ((id + 1) % size_mod)
      ]
]

-- `id` takes every value of a `size_t` at most once before it meets `cur_id`
abbrev pub probe_fuel : ℕ
probe_fuel = size_mod + 1

abbrev pub is_free : NodePubmap → Bool
is_free node = node.count == 0

abbrev pub has_id : ℕ → NodePubmap → Bool
has_id key node = node.pubpack_id == key

-- the slot of the node, if it is found
unfoldable pub get : Publishhashmap → ℕ → Run (Option ℕ)
get s key =
    let id = knuth_hash s.power_of_cap key in
    slot_at s.slots id >>= λ node.
    if has_id key node
    then ok (some id)
    else (probe probe_fuel (has_id key) s.slots (id + 1) id >>= λ r.
        ok (if r.0 == r.1 then none else some r.0))

-- the slot that `add` and `rehash` write
unfoldable pub place : ℕ → List NodePubmap → ℕ → Run ℕ
place power slots key =
    let id = knuth_hash power key in
    slot_at slots id >>= λ node.
    if is_free node then ok id else (probe probe_fuel is_free slots (id + 1) id >>= λ r. ok r.0)

-- the loop of `rehash` over the nodes of the old table
rehash_nodes : ℕ → List NodePubmap → List NodePubmap → Run (List NodePubmap)
rehash_nodes power [] fresh = ok fresh
rehash_nodes power (node ∷ nodes) fresh = do
  moved ←
      if is_free node
      then ok fresh
      else (place power fresh node.pubpack_id >>= λ id. ok (set fresh id node))
  rehash_nodes power nodes moved

-- `none` if there is no memory for the larger table
unfoldable pub rehash : Bool → Publishhashmap → Run (Option Publishhashmap)
unfolding rehash_nodes
rehash alloc s =
    if alloc
    then (do
      moved ←
          rehash_nodes (s.power_of_cap + 1) (take s.size s.slots)
            (replicate (length s.slots * 2) empty_node)
      ok (some (record { power_of_cap = s.power_of_cap + 1; slots = moved; size = s.size })))
    else ok none

-- the part of `add` behind the test for a full table; `alloc` is the copy of the message
unfoldable pub store : Bool → Publishhashmap → ℕ → List ℕ → ℕ → ℕ → Run (Bool × Publishhashmap)
store alloc s key bytes msg_qos init_count = do
  id ← place s.power_of_cap s.slots key
  old ← slot_at s.slots id
  if alloc && not (length bytes == 0)
      then ok (
        true,
        record s {
          slots =
              set s.slots id
                (record { count = init_count; qos = msg_qos; pubpack_id = key; content = bytes });
          size = (s.size + 1) % size_mod;
        },
      )
      else ok (false, record s { slots = set s.slots id (record old { content = [] }) })

unfoldable pub add :
    (table_alloc copy_alloc : Bool)
    → Publishhashmap
    → ℕ
    → List ℕ
    → ℕ
    → ℕ
    → Run (Bool × Publishhashmap)
add table_alloc copy_alloc s key bytes msg_qos init_count =
    if s.size == length s.slots
    then (rehash table_alloc s >>= λ grown. elim grown [
      | none ↦ ok (false, s)
      | some t ↦ store copy_alloc t key bytes msg_qos init_count
    ])
    else store copy_alloc s key bytes msg_qos init_count

unfoldable pub erase : Publishhashmap → ℕ → Run Publishhashmap
erase s key = get s key >>= λ found. elim found [
  | none ↦ ok s
  | some id ↦
      ok (record s { slots = set s.slots id empty_node; size = (s.size + size_mod - 1) % size_mod })
]

-- the pattern of main/worker.cpp on a node found: `if (--node->count == 0) erase(packet_id)`
unfoldable pub release : Publishhashmap → ℕ → Run Publishhashmap
release s key = get s key >>= λ found. elim found [
  | none ↦ ok s
  | some id ↦ slot_at s.slots id >>= λ node.
      let count = (node.count + 256 - 1) % 256 in
      let less = record s { slots = set s.slots id (record node { count = count }) } in
      if count == 0 then erase less key else ok less
]
