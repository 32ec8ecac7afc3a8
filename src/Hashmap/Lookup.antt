-- ===== src/Hashmap/Lookup.antt =====
-- The table read as the list of all its nodes: `get`, `update` and `erase`.
use esp32_mqtts_broker.Prelude.{
  ◌+◌, ◌≤◌, ◌<◌, ◌≡◌, Bool, true, false, none, some, List, [], flatten, arith, ◌==◌, if◌then◌else◌,
  length, get_or, set, length-set, get_or-set, size_mod,
}
use esp32_mqtts_broker.Run.{ok, ◌>>=◌}
use esp32_mqtts_broker.Hashmap.Bucket.{Key, Chain, find, occurrences}
use esp32_mqtts_broker.Hashmap.Place.{
  home, home-lt, slot-home, at-get_or, AllHome, Placed, Placed-set, Placed-get_or, Placed-reads,
  length-flatten-set,
}
use esp32_mqtts_broker.Hashmap.{Hashmap, slot, at, get}

module _ {T : Type 0} where
  -- the abstract view: the nodes, in the order in which an iterator meets them
  abbrev pub entries : Hashmap T → Chain T
  entries m = flatten m.buckets

  -- `map.size` stays 0, nodes stand in their buckets, and `count` does not fall short of them
  pub record IsValid (m : Hashmap T) : Type 0 where
    pub roomy : 0 < length m.buckets
    pub unsized : m.size ≡ 0
    pub placed : Placed (length m.buckets) 0 m.buckets
    pub counted : length (entries m) ≤ m.count
    pub small : m.count < size_mod

  abbrev pub chain_of : Hashmap T → Key → Chain T
  chain_of m k = get_or m.buckets (home k (length m.buckets)) []

  abbrev pub has : Key → Chain T → Bool
  has k c = elim (find k c) [ none ↦ false | some v ↦ true ]

  module _ (m : Hashmap T) (valid : IsValid m) where
    pub reads : (q : Key) → find q (entries m) ≡ find q (chain_of m q)
    reads q =
        (Placed-reads _ 0 (home q (length m.buckets)) q m.buckets valid.placed (omega arith)).0

    pub counts : (q : Key) → occurrences q (entries m) ≡ occurrences q (chain_of m q)
    counts q =
        (Placed-reads _ 0 (home q (length m.buckets)) q m.buckets valid.placed (omega arith)).1

    pub located :
        (k : Key)
        → (slot k (length m.buckets) ≡ ok (home k (length m.buckets)))
          × (at m.buckets (home k (length m.buckets)) ≡ ok (chain_of m k))
    located k = (
      slot-home k (length m.buckets) valid.roomy,
      at-get_or m.buckets _ [] (home-lt k (length m.buckets) valid.roomy),
    )

    -- On a valid table `get` returns the first node of the key among all nodes of the table.
    pub get-find : (q : Key) → get m q ≡ ok (find q (entries m))
    unfolding get
    get-find q = rw (reads q, (located q).0, ◌>>=◌, (located q).1, ◌>>=◌)

    pub home_chain :
        (k : Key) → AllHome (length m.buckets) (home k (length m.buckets)) (chain_of m k)
    home_chain k =
        let e : 0 + home k (length m.buckets) ≡ home k (length m.buckets) = omega arith in
        rw e at (Placed-get_or _ 0 (home k (length m.buckets)) m.buckets valid.placed)

    -- what a table is after the bucket of `k` becomes `c`
    pub record Rewritten (k : Key) (c : Chain T) (bs : List (Chain T)) : Type 0 where
      pub width : length bs ≡ length m.buckets
      pub placed : Placed (length m.buckets) 0 bs
      pub sized : length (flatten bs) + length (chain_of m k) ≡ length (entries m) + length c
      pub finds :
          (q : Key)
          → find q (flatten bs) ≡ (
              if home k (length m.buckets) == home q (length m.buckets)
              then find q c
              else find q (entries m))
      pub occurs :
          (q : Key)
          → occurrences q (flatten bs) ≡ (
              if home k (length m.buckets) == home q (length m.buckets)
              then occurrences q c
              else occurrences q (entries m))

    pub rewrite :
        (k : Key) (c : Chain T)
        → AllHome (length m.buckets) (home k (length m.buckets)) c
        → Rewritten k c (set m.buckets (home k (length m.buckets)) c)
    rewrite k c fits =
        let n = length m.buckets in
        let bs = set m.buckets (home k n) c in
        let inside = home-lt k n valid.roomy in
        let e : home k n ≡ 0 + home k n = omega arith in
        let placed : Placed n 0 bs =
          Placed-set n 0 (home k n) m.buckets c valid.placed (rw e at fits) in
        record {
          width = length-set m.buckets (home k n) c;
          placed = placed;
          sized = omega (arith, length-flatten-set c m.buckets (home k n) inside);
          finds = λ q.
              let r = Placed-reads n 0 (home q n) q bs placed (omega arith) in
              rw (r.0, get_or-set m.buckets (home k n) (home q n) c [] inside, reads q)
                (ground arith);
          occurs = λ q.
              let r = Placed-reads n 0 (home q n) q bs placed (omega arith) in
              rw (r.1, get_or-set m.buckets (home k n) (home q n) c [] inside, counts q)
                (ground arith);
        }
