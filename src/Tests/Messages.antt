-- ===== src/Tests/Messages.antt =====
-- Stores of two slots. The identifiers 2, 4 and 5 have slot 0 as their home, 1 and 3 have slot 1.
use esp32_mqtts_broker.Prelude.{
  ℕ, zero, suc, ◌+◌, ◌<◌, ◌≡◌, refl, true, none, some, List, [], ◌∷◌, arith, ◌==◌, if◌then◌else◌,
}
use esp32_mqtts_broker.Run.{ok, Returns}
use esp32_mqtts_broker.Publishhashmap.{
  empty_node, get, NodePubmap, Publishhashmap, add, release, knuth_hash,
}
use esp32_mqtts_broker.Publishhashmap.Lookup.{IsTable, IsValid, node_at, live, locate, locate_sound}
use esp32_mqtts_broker.Publishhashmap.Insert.{add_overwrites, message_node}
use esp32_mqtts_broker.Publishhashmap.Full.{Kept, add-Kept}
use esp32_mqtts_broker.Publishhashmap.Remove.{one_less, release-IsValid}

abbrev publish_bytes : List ℕ
publish_bytes = 0x32 ∷ 3 ∷ 0 ∷ 1 ∷ b'a' ∷ []

abbrev message : ℕ → ℕ → NodePubmap
message id receivers = record {
  count = receivers;
  qos = 1;
  pubpack_id = id;
  content = publish_bytes;
}

-- both slots are taken
abbrev crowded : Publishhashmap
crowded = record { power_of_cap = 1; slots = message 2 2 ∷ message 4 1 ∷ []; size = 2 }

crowded-IsValid : IsValid crowded
crowded-IsValid = record {
  table = record { lower = omega arith; upper = omega arith; width = refl };
  counted = unfold live in omega arith;
  bounded = omega arith;
}

one_receiver :
    (i : ℕ)
    → i < 2
    → (0 < (node_at crowded.slots i).count) × ((node_at crowded.slots i).count < 256)
one_receiver zero h = (omega arith, omega arith)
one_receiver (suc zero) h = (omega arith, omega arith)
one_receiver (suc (suc i)) h = absurd (omega arith)

-- a store of four slots with room, where 2, 5 and 10 have slot 0 as their home
abbrev half_full : Publishhashmap
half_full = record {
  power_of_cap = 2;
  slots = message 2 2 ∷ message 5 1 ∷ empty_node ∷ empty_node ∷ [];
  size = 2;
}

half_full-IsTable : IsTable 2 half_full.slots
half_full-IsTable = record { lower = omega arith; upper = omega arith; width = refl }

add_overwrites_example :
    (get half_full 5 ≡ ok (some 1))
    × (Returns (add true true half_full 10 publish_bytes 1 1) λ r.
        (r.0 ≡ true)
        × (r.1.size ≡ 2 + 1)
        × (get r.1 5 ≡ ok none)
        × (get r.1 10 ≡ ok (some 1))
        × ((j : ℕ)
            → node_at r.1.slots j
              ≡ (if 1 == j then message_node 10 publish_bytes 1 1 else node_at half_full.slots j)))
unfolding knuth_hash
add_overwrites_example =
    add_overwrites half_full half_full-IsTable 10 publish_bytes 1 1 true 5 refl (omega arith)
      (omega arith) refl refl refl refl refl (λ e. omega (arith, e))

add-Kept_example : Returns (add true true crowded 5 publish_bytes 1 1) λ r. (r.0 ≡ true) × Kept 2 r
add-Kept_example = add-Kept true true crowded 5 publish_bytes 1 1 crowded-IsValid (omega arith)

release-IsValid_example : Returns (release crowded 4) λ r. IsValid r × (r ≡ one_less crowded 1)
unfolding locate knuth_hash
release-IsValid_example =
    release-IsValid crowded 4 crowded-IsValid
      (λ i e. one_receiver i (locate_sound crowded crowded-IsValid.table 4 i e).0)
