-- ===== src/Hashmap/Modify.antt =====
-- `update` and `erase` against the list of all nodes.
use esp32_mqtts_broker.Prelude.{
  ℕ, ◌+◌, ◌-◌, ◌%◌, ◌≤◌, ◌≡◌, refl, sym, ◌∙◌, Bool, true, false, none, some, [], ◌∷◌, arith,
  if◌then◌else◌, ◌&&◌, length, set, size_mod, inl, inr, Option-cases,
}
use esp32_mqtts_broker.Run.{ok, fault, null_pointer, ◌>>=◌, Returns}
use esp32_mqtts_broker.Hashmap.Bucket.{
  Key, Chain, equal, equal_iff, find, assign, unlink, occurrences, find-assign, find-unlink_ne,
  find-unlink_self, occurrences-unlink-le, length-assign, length-unlink,
}
use esp32_mqtts_broker.Hashmap.Place.{home, AllHome-assign, AllHome-unlink}
use esp32_mqtts_broker.Hashmap.Lookup.{
  entries, IsValid, chain_of, has, reads, counts, located, home_chain, rewrite,
}
use esp32_mqtts_broker.Hashmap.{Hashmap, update, erase, erase_in}

module _ {T : Type 0} where
  -- what `update` of `k` to `v` answers
  pub record Updates (m : Hashmap T) (k : Key) (v : T) (r : Bool × Hashmap T) : Type 0 where
    pub answer : r.0 ≡ has k (entries m)
    pub valid : IsValid r.1
    pub same_count : r.1.count ≡ m.count
    pub finds :
        (q : Key)
        → find q (entries r.1)
          ≡ (if has k (entries m) && equal k q then some v else find q (entries m))

  -- On a valid table `update` ends normally, answers whether the key is there, and changes what is
  -- found under that key only, to the new value if the key was there.
  pub update-Updates :
      (m : Hashmap T) (k : Key) (v : T) → IsValid m → Returns (update m k v) (Updates m k v)
  unfolding update
  update-Updates m k v valid = elim (Option-cases (find k (chain_of m k))) [
    | inl e ↦ (
      (false, m),
      rw ((located m valid k).0, ◌>>=◌, (located m valid k).1, ◌>>=◌, e),
      record {
        answer = ground (arith, reads m valid k);
        valid = valid;
        same_count = refl;
        finds = λ q. ground (arith, reads m valid k);
      },
    )
    | inr (old, e) ↦
        let c = chain_of m k in
        let w =
          rewrite m valid k (assign k v c) (AllHome-assign _ _ k v c (home_chain m valid k)) in
        (
          (true, record m { buckets = set m.buckets (home k (length m.buckets)) (assign k v c) }),
          rw ((located m valid k).0, ◌>>=◌, (located m valid k).1, ◌>>=◌, e),
          record {
            answer = ground (arith, reads m valid k);
            valid = record {
              roomy = omega (arith, w.width, valid.roomy);
              unsized = valid.unsized;
              placed = rw w.width w.placed;
              counted = omega (arith, w.sized, length-assign k v c, valid.counted);
              small = valid.small;
            };
            same_count = refl;
            finds = λ q. ground (
              arith,
              w.finds q,
              find-assign k q v c old e,
              reads m valid k,
              reads m valid q,
              equal_iff k q,
            );
          },
        )
  ]

  -- what `erase` of a present key leaves
  pub record Erases (m : Hashmap T) (k : Key) (r : Hashmap T) : Type 0 where
    pub valid : IsValid r
    pub fewer : length (entries r) + 1 ≡ length (entries m)
    pub counted : r.count + 1 ≡ m.count
    pub others : (q : Key) → equal k q ≡ false → find q (entries r) ≡ find q (entries m)
    pub occurs : (q : Key) → occurrences q (entries r) ≤ occurrences q (entries m)
    pub gone : occurrences k (entries m) ≤ 1 → find k (entries r) ≡ none

  erase_in-found :
      (m : Hashmap T) (id : ℕ) (c : Chain T) (k : Key) (v : T)
      → find k c ≡ some v
      → erase_in m id c k
        ≡ ok (record m {
          buckets = set m.buckets id (unlink k c);
          count = (m.count + size_mod - 1) % size_mod;
        })
  unfolding erase_in find
  erase_in-found m id [] k v h = cc
  erase_in-found m id (e ∷ c) k v h = rw (h, erase_in)

  erase_in-missing :
      (m : Hashmap T) (id : ℕ) (c : Chain T) (k : Key)
      → find k c ≡ none
      → erase_in m id c k ≡ (elim c [ [] ↦ fault null_pointer | e ∷ es ↦ ok m ])
  unfolding erase_in
  erase_in-missing m id [] k h = refl
  erase_in-missing m id (e ∷ c) k h = rw (h, erase_in)

  -- On a valid table that holds the key, `erase` ends normally: one node less, the count one less,
  -- other keys read as before, and the key itself is gone if it stood there once.
  pub erase-Erases :
      (m : Hashmap T) (k : Key) (v : T)
      → IsValid m
      → find k (entries m) ≡ some v
      → Returns (erase m k) (Erases m k)
  unfolding erase
  erase-Erases m k v valid here =
      let c = chain_of m k in
      let found : find k c ≡ some v = sym (reads m valid k) ∙ here in
      let w = rewrite m valid k (unlink k c) (AllHome-unlink _ _ k c (home_chain m valid k)) in
      let shorter = length-unlink k c v found in
      (
        record m {
          buckets = set m.buckets (home k (length m.buckets)) (unlink k c);
          count = (m.count + size_mod - 1) % size_mod;
        },
        rw ((located m valid k).0, ◌>>=◌, (located m valid k).1, ◌>>=◌)
            (erase_in-found m _ c k v found),
        record {
          valid = record {
            roomy = omega (arith, w.width, valid.roomy);
            unsized = valid.unsized;
            placed = rw w.width w.placed;
            counted = omega (arith, w.sized, shorter, valid.counted, valid.small);
            small = omega arith;
          };
          fewer = omega (arith, w.sized, shorter);
          counted = omega (arith, w.sized, shorter, valid.counted, valid.small);
          others = λ q ne.
              ground (arith, w.finds q, find-unlink_ne k q c ne, reads m valid q, equal_iff k q);
          occurs = λ q. ground (arith, w.occurs q, occurrences-unlink-le k q c, counts m valid q);
          gone = λ once. ground (arith, w.finds k, find-unlink_self k c, counts m valid k);
        },
      )

  -- On a valid table that lacks the key, `erase` changes nothing if the bucket of the key has some
  -- node, and reads through a null pointer if it has none.
  pub erase_missing :
      (m : Hashmap T) (k : Key)
      → IsValid m
      → find k (entries m) ≡ none
      → erase m k ≡ (elim (chain_of m k) [ [] ↦ fault null_pointer | e ∷ es ↦ ok m ])
  unfolding erase
  erase_missing m k valid missing =
      rw ((located m valid k).0, ◌>>=◌, (located m valid k).1, ◌>>=◌)
        (erase_in-missing m _ (chain_of m k) k (sym (reads m valid k) ∙ missing))
