-- ===== src/Hashmap/Insert.antt =====
-- `add`, and the rehash that it starts.
use mathlib.Core.Option.{or_else}
use esp32_mqtts_broker.Prelude.{
  ◌+◌, ◌/◌, ◌%◌, ◌<◌, ◌≡◌, refl, ap, ◌∙◌, Bool, true, false, none, some, [], ◌∷◌, ◌++◌, arith,
  if◌then◌else◌, ◌&&◌, ◌||◌, length, length-append, size_mod,
}
use esp32_mqtts_broker.Run.{ok, ◌>>=◌, Returns}
use esp32_mqtts_broker.Hashmap.Bucket.{
  Key, equal, equal_iff, find, find-append, occurrences, occurrences-append,
}
use esp32_mqtts_broker.Hashmap.Place.{home, AllHome-append}
use esp32_mqtts_broker.Hashmap.Lookup.{
  entries, IsValid, chain_of, reads, counts, located, home_chain, rewrite, get-find,
}
use esp32_mqtts_broker.Hashmap.{Hashmap, Allocs, add, link, is_empty, get}
use esp32_mqtts_broker.Hashmap.Link.{
  flatten-replicate, cleared, cleared-IsValid, overloads, linked, link-linked, link-overloaded,
  overload-pos,
}

module _ {T : Type 0} where
  -- an `add` that put the node at the end of its bucket
  pub record Adds (m : Hashmap T) (k : Key) (v : T) (r : Bool × Hashmap T) : Type 0 where
    pub answer : r.0 ≡ true
    pub valid : IsValid r.1
    pub counted : r.1.count ≡ m.count + 1
    pub more : length (entries r.1) ≡ length (entries m) + 1
    pub finds :
        (q : Key)
        → find q (entries r.1) ≡ or_else (find q (entries m)) (if equal k q then some v else none)
    pub occurs :
        (q : Key)
        → occurrences q (entries r.1) ≡ occurrences q (entries m) + (if equal k q then 1 else 0)

  module _ (m : Hashmap T) (valid : IsValid m) (k : Key) (v : T)
      (room : m.count + 1 < size_mod) where
    pub linked-Adds : Adds m k v (true, linked m k v)
    unfolding or_else find occurrences
    linked-Adds =
        let c = chain_of m k in
        let w =
          rewrite m valid k (c ++ (k, v) ∷ [])
            (AllHome-append _ _ c ((k, v) ∷ []) (home_chain m valid k) (refl, tt)) in
        let longer = length-append c ((k, v) ∷ []) in
        record {
          answer = refl;
          valid = record {
            roomy = omega (arith, w.width, valid.roomy);
            unsized = valid.unsized;
            placed = rw w.width w.placed;
            counted = omega (arith, w.sized, longer, valid.counted);
            small = omega arith;
          };
          counted = omega arith;
          more = omega (arith, w.sized, longer);
          finds = λ q. ground (
            arith,
            w.finds q,
            find-append q c ((k, v) ∷ []),
            reads m valid k,
            reads m valid q,
            equal_iff k q,
          );
          occurs = λ q. ground (
            arith,
            w.occurs q,
            occurrences-append q c ((k, v) ∷ []),
            counts m valid k,
            counts m valid q,
            equal_iff k q,
          );
        }

  module _ (mem : Allocs) (m : Hashmap T) (valid : IsValid m) (k : Key) (v : T) where
    pub add-link : add mem m k v ≡ (
        if mem.node && (is_empty k || mem.key)
        then link mem.table m (home k (length m.buckets)) (chain_of m k) k v
        else ok (false, m))
    unfolding add
    add-link = rw ((located m valid k).0, ◌>>=◌, (located m valid k).1, ◌>>=◌)

    -- Without memory for the node or for the copy of its key, `add` answers false and leaves the
    -- table as it was.
    pub add_refused : (mem.node && (is_empty k || mem.key)) ≡ false → add mem m k v ≡ ok (false, m)
    add_refused h = rw (add-link, h)

    -- On a valid table of fewer than 2 ^ 32 - 1 nodes, with memory and no overload, `add` answers
    -- true, keeps the table valid, counts one node more, and puts the new node behind all that
    -- were found before: a key that was there reads as before, and the new key reads the new value
    -- only if it was not.
    pub add-Adds :
        (mem.node && (is_empty k || mem.key)) ≡ true
        → m.count + 1 < size_mod
        → overloads m k ≡ false
        → Returns (add mem m k v) (Adds m k v)
    add-Adds h room light = (
      (true, linked m k v),
      rw (add-link, h) (link-linked mem.table m _ (chain_of m k) k v light),
      linked-Adds m valid k v room,
    )

    -- On a valid table of fewer than 2 ^ 32 - 1 nodes, with memory for all three allocations and
    -- an overload, `add` still answers true, and the table that it leaves has no node at all, the
    -- new one included, while the count goes up by one: `get` finds nothing under any key.
    pub add_loses :
        (mem.node && (is_empty k || mem.key)) ≡ true
        → mem.table ≡ true
        → m.count + 1 < size_mod
        → overloads m k ≡ true
        → Returns (add mem m k v) λ r.
          (r.0 ≡ true)
          × (r.1.count ≡ m.count + 1)
          × (entries r.1 ≡ [])
          × IsValid r.1
          × ((q : Key) → get r.1 q ≡ ok none)
    unfolding find
    add_loses h table room heavy =
        let n = (m.count + 1) % size_mod in
        let next : Hashmap T = cleared (n / 2) n in
        let ok_next : IsValid next =
          cleared-IsValid (n / 2) n (overload-pos m valid k heavy room) (omega arith) in
        (
          (true, next),
          rw (
            add-link,
            h,
            link-overloaded mem.table m _ (chain_of m k) k v heavy valid.unsized,
            table,
          ),
          (
            refl,
            omega arith,
            flatten-replicate (n / 2),
            ok_next,
            λ q. get-find next ok_next q ∙ ap (λ c. ok (find q c)) (flatten-replicate (n / 2)),
          ),
        )
