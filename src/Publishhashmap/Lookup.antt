-- ===== src/Publishhashmap/Lookup.antt =====
-- A well-formed message store, and what `get` finds in it.
use esp32_mqtts_broker.Prelude.{
  ℕ, ◌+◌, ◌^◌, ◌≤◌, ◌<◌, ◌≡◌, ◌≢◌, Bool, Option, none, some, List, [], ◌∷◌, arith, if◌then◌else◌,
  length, get_or, size_mod,
}
use esp32_mqtts_broker.Run.{ok, ◌>>=◌}
use esp32_mqtts_broker.Publishhashmap.{
  Publishhashmap, NodePubmap, empty_node, knuth_hash, probe, probe_fuel, is_free, has_id, get,
  place,
}
use esp32_mqtts_broker.Publishhashmap.Hash.{knuth_hash-lt, pow_bounds}
use esp32_mqtts_broker.Publishhashmap.Probe.{slot_at-get_or, next_slot, probe-next_slot}

-- the node in a slot
abbrev pub node_at : List NodePubmap → ℕ → NodePubmap
node_at ns i = get_or ns i empty_node

abbrev pub weight : NodePubmap → ℕ
weight node = if is_free node then 0 else 1

-- how many slots hold a message
unfoldable pub live : List NodePubmap → ℕ
live [] = 0
live (n ∷ ns) = weight n + live ns

-- a table of `2 ^ power` slots, at least two, within the address space
pub record IsTable (power : ℕ) (ns : List NodePubmap) : Type 0 where
  pub lower : 0 < power
  pub upper : power < 32
  pub width : length ns ≡ 2 ^ power

pub record IsValid (s : Publishhashmap) : Type 0 where
  pub table : IsTable s.power_of_cap s.slots
  pub counted : live s.slots ≤ s.size
  pub bounded : s.size ≤ length s.slots

pub next_slot-lt : (id cap : ℕ) → id < cap → next_slot id cap < cap
next_slot-lt id cap h = ground arith

pub next_slot-ne : (id cap : ℕ) → 1 < cap → next_slot id cap ≢ id
next_slot-ne id cap h = ground arith

module _ {power : ℕ} {ns : List NodePubmap} (t : IsTable power ns) (key : ℕ) where
  pub home-inside : knuth_hash power key < length ns
  home-inside = omega (arith, t.width, knuth_hash-lt power key (omega (arith, t.upper)))

  pub table_bounds : (1 < length ns) × (length ns < size_mod)
  table_bounds = rw t.width (pow_bounds power t.lower t.upper)

  pub probed :
      (stop : NodePubmap → Bool)
      → let id = knuth_hash power key in
        probe probe_fuel stop ns (id + 1) id
        ≡ ok (
          next_slot id (length ns),
          if stop (node_at ns (next_slot id (length ns))) then id else next_slot id (length ns),
        )
  probed stop =
      probe-next_slot stop ns table_bounds.0 table_bounds.1 probe_fuel (knuth_hash power key)
        (omega arith) home-inside

  -- where `add` puts a message: in its home slot if that is free, or else in the next slot,
  -- whatever that holds
  abbrev pub target : ℕ
  target =
      let id = knuth_hash power key in
      if is_free (node_at ns id) then id else next_slot id (length ns)

  pub place-target : place power ns key ≡ ok target
  unfolding place
  place-target =
      rw (slot_at-get_or ns (knuth_hash power key) home-inside, ◌>>=◌, probed is_free, ◌>>=◌)
        (ground arith)

  pub target-inside : target < length ns
  target-inside = ground (arith, home-inside, next_slot-lt (knuth_hash power key) (length ns))

-- the slot in which a message is looked for: the home slot, then the next slot, and no other
unfoldable pub locate : Publishhashmap → ℕ → Option ℕ
locate s key =
    let id = knuth_hash s.power_of_cap key in
    let next = next_slot id (length s.slots) in
    if has_id key (node_at s.slots id)
    then some id
    else (if has_id key (node_at s.slots next) then some next else none)

module _ (s : Publishhashmap) (t : IsTable s.power_of_cap s.slots) where
  -- On a well-formed store `get` ends normally, and finds a message only in its home slot or in the
  -- slot behind that.
  pub get-locate : (key : ℕ) → get s key ≡ ok (locate s key)
  unfolding get locate
  get-locate key =
      let id = knuth_hash s.power_of_cap key in
      let next = next_slot id (length s.slots) in
      rw (slot_at-get_or s.slots id (home-inside t key), ◌>>=◌, probed t key (has_id key), ◌>>=◌)
        (ground (arith, next_slot-ne id (length s.slots) (table_bounds t key).0))

  -- what `get` finds is a slot of the table, with the identifier that was asked for
  pub locate_sound :
      (key i : ℕ)
      → locate s key ≡ some i
      → (i < length s.slots) × ((node_at s.slots i).pubpack_id ≡ key)
  unfolding locate
  locate_sound key i h =
      let id = knuth_hash s.power_of_cap key in
      ground (arith, home-inside t key, next_slot-lt id (length s.slots))
