-- ===== src/Hashmap/Iterate.antt =====
-- `Iterator`, `begin` and `end` of main/includes/myhashmap.hpp. An iterator is what is left of a bucket from
-- `m_ptr` on, where no node is the null pointer, and `cur_id`.
use esp32_mqtts_broker.Prelude.{
  ℕ, zero, suc, ◌+◌, ◌≤◌, ◌<◌, ◌≡◌, refl, sym, ap, ◌∙◌, false, List, [], ◌∷◌, ◌++◌, arith, flatten,
  ltb, if◌then◌else◌, length, drop,
}
use esp32_mqtts_broker.Run.{Run, ok, fault, out_of_range, out_of_fuel, ◌>>=◌}
use esp32_mqtts_broker.Hashmap.{Hashmap}
use esp32_mqtts_broker.Hashmap.Bucket.{Key, Chain}
use esp32_mqtts_broker.Hashmap.Lookup.{entries}
use esp32_mqtts_broker.Myvector.View.{length-drop}

module _ {T : Type 0} where
  -- `while (cur_id < map->capacity && map[cur_id] == nullptr) ++cur_id`, on the buckets from `cur_id` on
  unfoldable pub skip_empty : List (Chain T) → ℕ → Chain T × ℕ
  skip_empty [] cur_id = ([], cur_id)
  skip_empty ([] ∷ buckets) cur_id = skip_empty buckets (cur_id + 1)
  skip_empty ((node ∷ nodes) ∷ buckets) cur_id = (node ∷ nodes, cur_id)

  unfoldable pub begin : Hashmap T → Chain T × ℕ
  begin m = skip_empty m.buckets 0

  -- the next bucket that is not empty, or the end
  unfoldable pub next_bucket : Hashmap T → ℕ → Run (Chain T × ℕ)
  next_bucket m cur_id =
      if ltb (length m.buckets) cur_id
      then fault out_of_range
      else ok (skip_empty (drop cur_id m.buckets) cur_id)

  -- `operator++`
  unfoldable pub increment : Hashmap T → Chain T → ℕ → Run (Chain T × ℕ)
  increment m [] cur_id = next_bucket m (cur_id + 1)
  increment m (node ∷ []) cur_id = next_bucket m (cur_id + 1)
  increment m (node ∷ next ∷ nodes) cur_id = ok (next ∷ nodes, cur_id)

  -- the nodes that a loop `for (auto &x : map)` visits from an iterator on
  unfoldable pub visits : ℕ → Hashmap T → Chain T → ℕ → Run (Chain T)
  visits fuel m [] cur_id = ok []
  visits zero m (node ∷ nodes) cur_id = fault out_of_fuel
  visits (suc fuel) m (node ∷ nodes) cur_id =
      increment m (node ∷ nodes) cur_id >>= λ r. visits fuel m r.0 r.1 >>= λ rest. ok (node ∷ rest)

  drop-drop : (n k : ℕ) (xs : List (Chain T)) → n ≤ length xs → drop k (drop n xs) ≡ drop (n + k) xs
  drop-drop zero k xs h = let e : 0 + k ≡ k = omega arith in rw e refl
  drop-drop (suc n) k [] h = absurd (omega arith)
  drop-drop (suc n) k (x ∷ xs) h =
      let e : suc n + k ≡ suc (n + k) = omega arith in rw e (drop-drop n k xs (omega arith))

  -- where the search for a bucket ends
  data Lands (buckets : List (Chain T)) (id : ℕ) (r : Chain T × ℕ) : Type 0 where
    at_end : r.0 ≡ [] → flatten buckets ≡ [] → Lands buckets id r
    at_node :
        (k : ℕ) (node : Key × T) (nodes : Chain T)
        → r.1 ≡ id + k
        → k < length buckets
        → r.0 ≡ node ∷ nodes
        → (node ∷ nodes) ++ flatten (drop (suc k) buckets) ≡ flatten buckets
        → Lands buckets id r

  skip_empty-Lands : (buckets : List (Chain T)) (id : ℕ) → Lands buckets id (skip_empty buckets id)
  unfolding skip_empty flatten
  skip_empty-Lands [] id = at_end refl refl
  skip_empty-Lands ((node ∷ nodes) ∷ buckets) id =
      at_node 0 node nodes (omega arith) (omega arith) refl refl
  skip_empty-Lands ([] ∷ buckets) id = elim (skip_empty-Lands buckets (id + 1)) [
    | at_end e f ↦ at_end e f
    | at_node k node nodes place inside here rest ↦
        at_node (suc k) node nodes (omega (arith, place)) (omega arith) here rest
  ]

  -- the loop from a node on visits the rest of its bucket and the buckets behind
  visits-rest :
      (fuel : ℕ) (m : Hashmap T) (node : Key × T) (nodes : Chain T) (id : ℕ)
      → id < length m.buckets
      → length ((node ∷ nodes) ++ flatten (drop (suc id) m.buckets)) ≤ fuel
      → visits fuel m (node ∷ nodes) id ≡ ok ((node ∷ nodes) ++ flatten (drop (suc id) m.buckets))
  unfolding visits increment next_bucket
  visits-rest zero m node nodes id inside enough = absurd (omega arith)
  visits-rest (suc fuel) m node (next ∷ nodes) id inside enough =
      rw (visits-rest fuel m next nodes id inside (omega arith), ◌>>=◌) refl
  visits-rest (suc fuel) m node [] id inside enough =
      let place : id + 1 ≡ suc id = omega arith in
      let there : ltb (length m.buckets) (suc id) ≡ false = ground arith in
      let behind = drop (suc id) m.buckets in
      let long = length-drop (suc id) m.buckets (omega arith) in
      elim (skip_empty-Lands behind (suc id)) [
        | at_end e f ↦ rw (place, there, ◌>>=◌, e, f, ◌>>=◌) refl
        | at_node k first more at inner here rest ↦
            let id' = suc id + k in
            let same : (first ∷ more) ++ flatten (drop (suc id') m.buckets) ≡ flatten behind =
              let e : suc id' ≡ suc id + suc k = omega arith in
              ap (λ (i : ℕ). (first ∷ more) ++ flatten (drop i m.buckets)) e
              ∙ ap (λ (bs : List (Chain T)). (first ∷ more) ++ flatten bs)
                  (sym (drop-drop (suc id) (suc k) m.buckets (omega arith)))
              ∙ rest in
            let go =
              visits-rest fuel m first more id' (omega (arith, long))
                (omega (arith, ap length same)) in
            let gone : visits fuel m (first ∷ more) id' ≡ ok (flatten behind) = go ∙ ap ok same in
            rw (place, there, ◌>>=◌, here, at, gone, ◌>>=◌) refl
      ]

  -- A loop over a table visits the nodes of its buckets in order, each once, and ends: one round for each
  -- node is enough.
  pub visits-entries :
      (m : Hashmap T) (fuel : ℕ)
      → length (entries m) ≤ fuel
      → visits fuel m (begin m).0 (begin m).1 ≡ ok (entries m)
  unfolding begin flatten visits
  visits-entries m fuel enough = elim (skip_empty-Lands m.buckets 0) [
    | at_end e f ↦ rw (e, f) refl
    | at_node k first more at inner here rest ↦
        let zero_plus : 0 + k ≡ k = omega arith in
        let go = visits-rest fuel m first more k inner (omega (arith, ap length rest)) in
        rw (here, at, zero_plus) (go ∙ ap ok rest)
  ]
