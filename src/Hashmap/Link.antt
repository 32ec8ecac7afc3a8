-- ===== src/Hashmap/Link.antt =====
-- The end of `add`: the node linked into its bucket, and the rehash that it may start.
use esp32_mqtts_broker.Prelude.{
  ℕ, zero, suc, ◌+◌, ◌*◌, ◌/◌, ◌%◌, ◌<◌, ◌≡◌, refl, Bool, true, false, [], ◌∷◌, ◌++◌, flatten,
  arith, ltb, if◌then◌else◌, ◌&&◌, not, length, set, replicate, length-replicate, size_mod,
}
use esp32_mqtts_broker.Run.{ok, ◌>>=◌}
use esp32_mqtts_broker.Hashmap.Bucket.{Key, Chain}
use esp32_mqtts_broker.Hashmap.Place.{home, home-lt, Placed, length-flatten-set}
use esp32_mqtts_broker.Hashmap.Lookup.{IsValid, chain_of}
use esp32_mqtts_broker.Hashmap.{
  Hashmap, link, rehash, move_chains, is_empty, rehash_size_times, new_map,
}

Placed-replicate : (T : Type 0) (n i k : ℕ) → Placed {T = T} n i (replicate k [])
Placed-replicate T n i zero = tt
Placed-replicate T n i (suc k) = (tt, Placed-replicate T n (suc i) k)

module _ {T : Type 0} where
  pub flatten-replicate : (n : ℕ) → flatten {A = Key × T} (replicate n []) ≡ []
  unfolding flatten
  flatten-replicate zero = refl
  flatten-replicate (suc n) = flatten-replicate n

  -- a table of empty buckets, as `rehash` and the constructor make it
  abbrev pub cleared : ℕ → ℕ → Hashmap T
  cleared n count = record { buckets = replicate n []; size = 0; count = count }

  pub cleared-IsValid : (n count : ℕ) → 0 < n → count < size_mod → IsValid (cleared n count)
  cleared-IsValid n count pos small = record {
    roomy = rw (length-replicate {A = Chain T} n []) pos;
    unsized = refl;
    placed = rw (length-replicate {A = Chain T} n []) (Placed-replicate T n 0 n);
    counted = rw flatten-replicate (omega arith);
    small = small;
  }

  -- the constructor gives a valid empty table, if the memory is there
  pub new_map-IsValid : (n : ℕ) → 0 < n → IsValid (new_map {T = T} true n)
  unfolding new_map
  new_map-IsValid n pos = cleared-IsValid n 0 pos (omega arith)

  -- As `map.size` is 0 the loop of `rehash` has no round: no node reaches the new table.
  rehash-cleared : (n : ℕ) (m : Hashmap T) → m.size ≡ 0 → rehash true n m ≡ ok (cleared n m.count)
  unfolding rehash move_chains
  rehash-cleared n m e = rw (e, ◌>>=◌)

  -- the new node reaches a bucket with nodes, and the count then exceeds four times the capacity
  abbrev pub overloads : Hashmap T → Key → Bool
  overloads m k =
      not (is_empty (chain_of m k))
      && ltb (length m.buckets * rehash_size_times % size_mod) ((m.count + 1) % size_mod)

  abbrev pub linked : Hashmap T → Key → T → Hashmap T
  linked m k v = record m {
    buckets = set m.buckets (home k (length m.buckets)) (chain_of m k ++ (k, v) ∷ []);
    count = (m.count + 1) % size_mod;
  }

  pub link-linked :
      (alloc : Bool) (m : Hashmap T) (id : ℕ) (c : Chain T) (k : Key) (v : T)
      → (not (is_empty c)
          && ltb (length m.buckets * rehash_size_times % size_mod) ((m.count + 1) % size_mod))
        ≡ false
      → link alloc m id c k v
        ≡ ok (
          true,
          record m {
            buckets = set m.buckets id (c ++ (k, v) ∷ []);
            count = (m.count + 1) % size_mod;
          },
        )
  unfolding link
  link-linked alloc m id [] k v h = refl
  link-linked alloc m id (e ∷ es) k v h = rw h

  pub link-overloaded :
      (alloc : Bool) (m : Hashmap T) (id : ℕ) (c : Chain T) (k : Key) (v : T)
      → (not (is_empty c)
          && ltb (length m.buckets * rehash_size_times % size_mod) ((m.count + 1) % size_mod))
        ≡ true
      → m.size ≡ 0
      → link alloc m id c k v
        ≡ ok (
          true,
          if alloc
              then cleared ((m.count + 1) % size_mod / 2) ((m.count + 1) % size_mod)
              else record m {
                buckets = set m.buckets id (c ++ (k, v) ∷ []);
                count = (m.count + 1) % size_mod;
              },
        )
  unfolding link
  link-overloaded alloc m id [] k v h e = cc
  link-overloaded true m id (x ∷ xs) k v h e = rw (
    h,
    rehash-cleared ((m.count + 1) % size_mod / 2)
        (record m {
          buckets = set m.buckets id (x ∷ xs ++ (k, v) ∷ []);
          count = (m.count + 1) % size_mod;
        })
        e,
  )
  link-overloaded false m id (x ∷ xs) k v h e = unfold rehash in rw h

  length-nonempty : (c : Chain T) → is_empty c ≡ false → 0 < length c
  length-nonempty [] h = cc
  length-nonempty (e ∷ c) h = omega arith

  chain-nonempty :
      (m : Hashmap T) → IsValid m → (k : Key) → is_empty (chain_of m k) ≡ false → 0 < m.count
  chain-nonempty m valid k h = omega (
    arith,
    length-flatten-set [] m.buckets _ (home-lt k (length m.buckets) valid.roomy),
    length-nonempty (chain_of m k) h,
    valid.counted,
  )

  pub overload-pos :
      (m : Hashmap T)
      → IsValid m
      → (k : Key) → overloads m k ≡ true
      → m.count + 1 < size_mod
      → 0 < (m.count + 1) % size_mod / 2
  overload-pos m valid k h room = ground (arith, chain-nonempty m valid k)
