-- ===== src/Subscription/Nested.antt =====
-- Topics of several levels. Once the scan has reached a `/` it does not move on, so that every further
-- round looks up the empty key.
use esp32_mqtts_broker.Prelude.{
  ℕ, zero, suc, ◌+◌, ◌≤◌, ◌<◌, ◌≡◌, refl, true, false, Option, [], ◌∷◌, arith, ltb, length, inl,
  inr, Option-cases, Bool-cases, size_mod,
}
use esp32_mqtts_broker.Run.{ok, ◌>>=◌, Returns}
use esp32_mqtts_broker.Hashmap
use esp32_mqtts_broker.Hashmap.Bucket.{Key}
use esp32_mqtts_broker.Hashmap.Place.{at-get_or}
use esp32_mqtts_broker.Hashmap.Lookup.{get-find}
use esp32_mqtts_broker.Subscription.{Tree, Memory, add_sub, is_subed_to, empty_qos, sub_error_code}
use esp32_mqtts_broker.Subscription.Levels.{level, has_slash, slash, after_level-slash, level-slash}
use esp32_mqtts_broker.Subscription.Shape.{IsTree, node_of, no_node, child_of}
use esp32_mqtts_broker.Subscription.Growth.{Step, child-Step}

-- the lookup that starts each round, on a well-shaped tree
module _ (tree : Tree) (t : IsTree tree) (cur : ℕ) (inside : cur < length tree) (key : Key) where
  pub node_here : Hashmap.at tree cur ≡ ok (node_of tree cur)
  node_here = at-get_or tree cur no_node inside

  pub get_here : Hashmap.get (node_of tree cur).child_nodes key ≡ ok (child_of tree cur key)
  get_here = get-find (node_of tree cur).child_nodes (t.nodes cur inside).table key

is_subed_to-slash :
    (fuel : ℕ) (tree : Tree) (cs : Key) (cur : ℕ)
    → IsTree tree
    → cur < length tree
    → length tree ≤ fuel + cur
    → is_subed_to fuel tree (slash ∷ cs) cur ≡ ok empty_qos
unfolding is_subed_to
is_subed_to-slash zero tree cs cur t inside enough = absurd (omega arith)
is_subed_to-slash (suc fuel) tree cs cur t inside enough =
    let (empty, same) = level-slash cs in
    elim (Option-cases (child_of tree cur [])) [
      | inl e ↦
          rw (node_here tree t cur inside [], ◌>>=◌, empty, get_here tree t cur inside [], ◌>>=◌, e)
      | inr (p, e) ↦
          let (lo, hi) = (t.nodes cur inside).younger [] p e in
          rw
            (
              node_here tree t cur inside [],
              ◌>>=◌,
              empty,
              get_here tree t cur inside [],
              ◌>>=◌,
              e,
              same,
            )
            (is_subed_to-slash fuel tree cs p t hi (omega arith))
    ]

-- A publish to a topic with a `/` finds no subscription, whatever has been subscribed to: on a
-- well-shaped tree the lookup ends, given more rounds than the tree has nodes, and answers that
-- there is none.
pub is_subed_to-nested :
    (tree : Tree) (topic : Key) (fuel : ℕ)
    → IsTree tree
    → has_slash topic ≡ true
    → length tree < fuel
    → is_subed_to fuel tree topic 0 ≡ ok empty_qos
unfolding is_subed_to
is_subed_to-nested tree [] fuel t s enough = unfold has_slash in cc
is_subed_to-nested tree (c ∷ cs) zero t s enough = absurd (omega arith)
is_subed_to-nested tree (c ∷ cs) (suc fuel) t s enough =
    let key = level (c ∷ cs) in
    let (rest, left) = after_level-slash (c ∷ cs) s in
    elim (Option-cases (child_of tree 0 key)) [
      | inl e ↦
          rw (node_here tree t 0 t.nonempty key, ◌>>=◌, get_here tree t 0 t.nonempty key, ◌>>=◌, e)
      | inr (p, e) ↦
          rw
            (
              node_here tree t 0 t.nonempty key,
              ◌>>=◌,
              get_here tree t 0 t.nonempty key,
              ◌>>=◌,
              e,
              left,
            )
            (is_subed_to-slash fuel tree rest p t ((t.nodes 0 t.nonempty).younger key p e).1
              (omega arith))
    ]

-- the allocator refuses subscription nodes from `limit` nodes on
abbrev pub Bounded : Memory → ℕ → Type 0
Bounded mem limit = (n : ℕ) → limit ≤ n → mem.subscription n ≡ false

module _ (mem : Memory) (limit : ℕ) (qos : ℕ) (tables : (n : ℕ) → mem.child_table n ≡ true)
    (bounded : Bounded mem limit) (small : limit + 1 < size_mod) where
  stays_below :
      (tree : Tree) (cur : ℕ) (r : Option ℕ × Tree)
      → length tree ≤ limit
      → Step mem tree cur r
      → length r.1 ≤ limit
  stays_below tree cur r below st = elim (Bool-cases (ltb (length tree) limit)) [
    | inl less ↦ ground (arith, st.shorter)
    | inr full ↦ ground (arith, st.shorter, st.longer, st.granted, bounded (length tree))
  ]

  add_sub-slash :
      (fuel : ℕ) (tree : Tree) (cs : Key) (cur : ℕ)
      → IsTree tree
      → cur < length tree
      → length tree ≤ limit
      → limit ≤ fuel + cur
      → Returns
          (add_sub fuel mem tree (slash ∷ cs) cur qos)
          λ r. (r.0 ≡ sub_error_code) × IsTree r.1
  unfolding add_sub
  add_sub-slash zero tree cs cur t inside below enough = absurd (omega arith)
  add_sub-slash (suc fuel) tree cs cur t inside below enough =
      let (empty, same) = level-slash cs in
      let (r, run, st) = child-Step mem tree t [] cur inside tables (omega arith) in
      let fits = stays_below tree cur r below st in
      elim (Option-cases r.0) [
        | inl e ↦ ((sub_error_code, r.1), rw (empty, run, ◌>>=◌, e), (refl, st.shape))
        | inr (p, e) ↦
            let (lo, hi) = st.forward p e in
            let (u, rest, final) = add_sub-slash fuel r.1 cs p st.shape hi fits (omega arith) in
            (u, rw (empty, run, ◌>>=◌, e, same) rest, final)
      ]

  -- A subscription to a topic with a `/` is never made: where memory is given for child tables and
  -- for at most `limit` nodes in all, `limit` below 2 ^ 32 - 1, `add_sub` on a well-shaped tree of
  -- at most `limit` nodes ends after at most `limit` + 1 rounds, and answers with the error code.
  -- The tree keeps its shape.
  pub add_sub-nested :
      (tree : Tree) (topic : Key) (fuel : ℕ)
      → IsTree tree
      → has_slash topic ≡ true
      → length tree ≤ limit
      → limit < fuel
      → Returns (add_sub fuel mem tree topic 0 qos) λ r. (r.0 ≡ sub_error_code) × IsTree r.1
  unfolding add_sub
  add_sub-nested tree [] fuel t s below enough = unfold has_slash in cc
  add_sub-nested tree (c ∷ cs) zero t s below enough = absurd (omega arith)
  add_sub-nested tree (c ∷ cs) (suc fuel) t s below enough =
      let key = level (c ∷ cs) in
      let (rest, left) = after_level-slash (c ∷ cs) s in
      let (r, run, st) = child-Step mem tree t key 0 t.nonempty tables (omega arith) in
      let fits = stays_below tree 0 r below st in
      elim (Option-cases r.0) [
        | inl e ↦ ((sub_error_code, r.1), rw (run, ◌>>=◌, e), (refl, st.shape))
        | inr (p, e) ↦
            let (lo, hi) = st.forward p e in
            let (u, later, final) = add_sub-slash fuel r.1 rest p st.shape hi fits (omega arith) in
            (u, rw (run, ◌>>=◌, e, left) later, final)
      ]
