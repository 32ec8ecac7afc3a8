-- ===== src/Hashmap.antt =====
-- main/includes/myhashmap.hpp: the chained table behind the client store, the retained messages, the
-- children of a subscription node and the users. `unique_ptr` values are whatever `T` stands for.
-- The vector `map` is its nodes (`map.capacity` of them) and `map.size`, which no operation sets.
pub mod Bucket
pub mod Place
pub mod Lookup
pub mod Modify
pub mod Insert
pub mod Link
pub mod Outcome
pub mod Iterate
pub mod Holders
use esp32_mqtts_broker.Prelude.{
  ℕ, zero, suc, ◌+◌, ◌-◌, ◌*◌, ◌/◌, ◌%◌, Bool, true, false, ◌&&◌, ◌||◌, Option, none, some, List,
  [], ◌∷◌, ◌++◌, bit_xor, ltb, ◌==◌, if◌then◌else◌, length, get_or, set, take, replicate, size_mod,
}
use esp32_mqtts_broker.Run.{Run, ok, fault, null_pointer, division_by_zero, ◌>>=◌}
use Bucket.{Key, Chain, equal, find, assign, unlink}

pub record Hashmap {ℓ} (T : Type ℓ) : Type ℓ where
  pub buckets : List (Chain T)
  pub size : ℕ
  pub count : ℕ

-- the results of the allocations that one `add` makes: the node, the key's copy, the new table
pub record Allocs : Type 0 where
  pub node : Bool
  pub key : Bool
  pub table : Bool

abbrev pub rehash_size_times : ℕ
rehash_size_times = 4

abbrev pub prime : ℕ
prime = 16777619

abbrev pub offset_basis : ℕ
offset_basis = 2166136261

fnv_round : Key → ℕ → ℕ → ℕ
fnv_round key i hash =
    let front = bit_xor hash (get_or key i 0) * prime % size_mod in
    bit_xor front (get_or key (length key - (i + 1)) 0) * prime % size_mod

fnv_rounds : ℕ → Key → ℕ → ℕ → ℕ
fnv_rounds zero key i hash = hash
fnv_rounds (suc n) key i hash = fnv_rounds n key (i + 1) (fnv_round key i hash)

-- only the first two and the last two bytes count, or the first and the last of a short key
unfoldable pub fnv1a_hash : Key → ℕ
unfolding fnv_round fnv_rounds
fnv1a_hash key =
    let max_iter = if ltb (length key) 4 then 1 else 2 in fnv_rounds max_iter key 0 offset_basis

-- the bucket of a key; `% 0` is undefined
unfoldable pub slot : Key → ℕ → Run ℕ
slot [] cap = ok 0
slot (x ∷ xs) zero = fault division_by_zero
slot (x ∷ xs) (suc n) = ok (fnv1a_hash (x ∷ xs) % suc n)

-- `map[id]`, where a table that was not allocated has no data
unfoldable pub at : {A : Type 0} → List A → ℕ → Run A
at [] i = fault null_pointer
at (x ∷ xs) zero = ok x
at (x ∷ xs) (suc i) = at xs i

abbrev pub is_empty {ℓ} : {A : Type ℓ} → List A → Bool
is_empty [] = true
is_empty (x ∷ xs) = false

module _ {T : Type 0} where
  -- the constructor; with no memory `map` stays empty
  unfoldable pub new_map : Bool → ℕ → Hashmap T
  new_map alloc cap = record {
    buckets = if alloc then replicate cap [] else [];
    size = 0;
    count = 0;
  }

  -- the end of a round of `rehash`: a node to the end of its new bucket; the hash reads a first
  -- byte even of an empty key
  move_node : List (Chain T) → Key × T → Run (List (Chain T))
  move_node fresh ([], v) = fault null_pointer
  move_node fresh (x ∷ xs, v) = do
    id ← slot (x ∷ xs) (length fresh)
    chain ← at fresh id
    ok (set fresh id (chain ++ (x ∷ xs, v) ∷ []))

  -- the inner loop takes the last node of the chain each time, and the first node at the end
  move_chain : Chain T → List (Chain T) → Run (List (Chain T))
  unfolding move_node
  move_chain [] fresh = ok fresh
  move_chain (e ∷ es) fresh = do moved ← move_chain es fresh; move_node moved e

  move_chains : List (Chain T) → List (Chain T) → Run (List (Chain T))
  unfolding move_chain
  move_chains [] fresh = ok fresh
  move_chains (c ∷ cs) fresh = do moved ← move_chain c fresh; move_chains cs moved

  -- `id < tmpmap.size` bounds the loop; the new vector has size 0
  unfoldable pub rehash : Bool → ℕ → Hashmap T → Run (Hashmap T)
  unfolding move_chains
  rehash alloc new_size m =
      if alloc
      then (do
        moved ← move_chains (take m.size m.buckets) (replicate new_size [])
        ok (record { buckets = moved; size = 0; count = m.count }))
      else ok m

  unfoldable pub get : Hashmap T → Key → Run (Option T)
  get m k = do id ← slot k (length m.buckets); chain ← at m.buckets id; ok (find k chain)

  -- the counting and the growing at the end of `add`
  unfoldable pub link : Bool → Hashmap T → ℕ → Chain T → Key → T → Run (Bool × Hashmap T)
  link alloc m id [] k v = ok (
    true,
    record m { buckets = set m.buckets id ((k, v) ∷ []); count = (m.count + 1) % size_mod },
  )
  link alloc m id (e ∷ es) k v =
      let count = (m.count + 1) % size_mod in
      let linked = record m { buckets = set m.buckets id (e ∷ es ++ (k, v) ∷ []); count = count } in
      if ltb (length m.buckets * rehash_size_times % size_mod) count
      then (do grown ← rehash alloc (count / 2) linked; ok (true, grown))
      else ok (true, linked)

  -- a node that is not allocated, or whose key is not, is given up: the table stays as it was
  unfoldable pub add : Allocs → Hashmap T → Key → T → Run (Bool × Hashmap T)
  add mem m k v = do
    id ← slot k (length m.buckets)
    if mem.node && (is_empty k || mem.key)
        then (do chain ← at m.buckets id; link mem.table m id chain k v)
        else ok (false, m)

  unfoldable pub update : Hashmap T → Key → T → Run (Bool × Hashmap T)
  update m k v = do
    id ← slot k (length m.buckets)
    chain ← at m.buckets id
    elim (find k chain) [
      | none ↦ ok (false, m)
      | some old ↦ ok (true, record m { buckets = set m.buckets id (assign k v chain) })
    ]

  -- the first node's key is read before any test for null
  unfoldable pub erase_in : Hashmap T → ℕ → Chain T → Key → Run (Hashmap T)
  erase_in m id [] k = fault null_pointer
  erase_in m id (e ∷ es) k = elim (find k (e ∷ es)) [
    | none ↦ ok m
    | some old ↦ ok (record m {
      buckets = set m.buckets id (unlink k (e ∷ es));
      count = (m.count + size_mod - 1) % size_mod;
    })
  ]

  unfoldable pub erase : Hashmap T → Key → Run (Hashmap T)
  erase m k = do id ← slot k (length m.buckets); chain ← at m.buckets id; erase_in m id chain k
