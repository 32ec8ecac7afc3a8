-- ===== src/Tests/Tables.antt =====
-- A table of one bucket, as a subscription node has it, at work.
use esp32_mqtts_broker.Prelude.{ℕ, ◌+◌, ◌≡◌, refl, true, none, [], ◌∷◌, arith, flatten}
use esp32_mqtts_broker.Run.{ok, Returns}
use esp32_mqtts_broker.Hashmap.{Hashmap, Allocs, get, add, erase, fnv1a_hash}
use esp32_mqtts_broker.Hashmap.Bucket.{Key, equal, find}
use esp32_mqtts_broker.Hashmap.Place.{home}
use esp32_mqtts_broker.Hashmap.Lookup.{IsValid, entries, get-find}
use esp32_mqtts_broker.Hashmap.Modify.{Erases, erase-Erases}
use esp32_mqtts_broker.Hashmap.Insert.{Adds, add-Adds, add_loses}

abbrev a : Key
a = b'a' ∷ []

abbrev c : Key
c = b'c' ∷ []

abbrev all_granted : Allocs
all_granted = record { node = true; key = true; table = true }

-- one bucket with the keys `a` and `b`
abbrev two : Hashmap ℕ
two = record { buckets = ((a, 1) ∷ (b'b' ∷ [], 2) ∷ []) ∷ []; size = 0; count = 2 }

two-IsValid : IsValid two
two-IsValid = record {
  roomy = omega arith;
  unsized = refl;
  placed = unfold home fnv1a_hash in ((refl, (refl, tt)), tt);
  counted = unfold flatten in omega arith;
  small = omega arith;
}

-- one bucket with four keys, which a fifth overloads
abbrev four : Hashmap ℕ
four = record {
  buckets = ((a, 1) ∷ (b'b' ∷ [], 2) ∷ (b'd' ∷ [], 3) ∷ (b'e' ∷ [], 4) ∷ []) ∷ [];
  size = 0;
  count = 4;
}

four-IsValid : IsValid four
four-IsValid = record {
  roomy = omega arith;
  unsized = refl;
  placed = unfold home fnv1a_hash in ((refl, (refl, (refl, (refl, tt)))), tt);
  counted = unfold flatten in omega arith;
  small = omega arith;
}

get-find_example : get two a ≡ ok (find a (entries two))
get-find_example = get-find two two-IsValid a

add-Adds_example : Returns (add all_granted two c 3) (Adds two c 3)
unfolding home fnv1a_hash
add-Adds_example = add-Adds all_granted two two-IsValid c 3 refl (omega arith) refl

add_loses_example : Returns (add all_granted four c 5) λ r.
    (r.0 ≡ true)
    × (r.1.count ≡ four.count + 1)
    × (entries r.1 ≡ [])
    × IsValid r.1
    × ((q : Key) → get r.1 q ≡ ok none)
unfolding home fnv1a_hash
add_loses_example = add_loses all_granted four four-IsValid c 5 refl refl (omega arith) refl

erase-Erases_example : Returns (erase two a) (Erases two a)
unfolding find flatten equal
erase-Erases_example = erase-Erases two a 1 two-IsValid refl
