-- ===== src/Subscription/Marks.antt =====
-- What a topic of one level is mapped to, and what a new quality of service in one node does to it.
use esp32_mqtts_broker.Prelude.{
  ℕ, ◌<◌, ◌≡◌, Option, none, some, arith, ◌==◌, if◌then◌else◌, length, set, length-set, get_or-set,
  inl, inr, Option-cases, ==_iff,
}
use esp32_mqtts_broker.Hashmap.Bucket.{Key, equal, equal_iff}
use esp32_mqtts_broker.Subscription.{Tree, empty_qos}
use esp32_mqtts_broker.Subscription.Shape.{IsTree, node_of, no_node, child_of}

-- what the root's child under a topic says
abbrev pub qos_at : Tree → Option ℕ → ℕ
qos_at tree none = empty_qos
qos_at tree (some p) = (node_of tree p).max_qos

abbrev pub qos_of : Tree → Key → ℕ
qos_of tree topic = qos_at tree (child_of tree 0 topic)

-- a node with another quality of service
abbrev pub marked : Tree → ℕ → ℕ → Tree
marked tree p qos = set tree p (record (node_of tree p) { max_qos = qos })

module _ (tree : Tree) (t : IsTree tree) (p qos : ℕ) (inside : p < length tree) where
  node_of-marked :
      (i : ℕ)
      → node_of (marked tree p qos) i
        ≡ (if p == i then record (node_of tree p) { max_qos = qos } else node_of tree i)
  node_of-marked i = get_or-set tree p i (record (node_of tree p) { max_qos = qos }) no_node inside

  child_nodes-marked :
      (i : ℕ) → (node_of (marked tree p qos) i).child_nodes ≡ (node_of tree i).child_nodes
  child_nodes-marked i = ground (arith, node_of-marked i)

  pub marked-IsTree : IsTree (marked tree p qos)
  marked-IsTree =
      let same = length-set tree p (record (node_of tree p) { max_qos = qos }) in
      record {
        nonempty = omega (arith, same, t.nonempty);
        nodes = λ i h.
            let old = t.nodes i (omega (arith, same)) in
            let e = child_nodes-marked i in
            record {
              table = rw e old.table;
              few = rw (e, same) old.few;
              younger = λ k q f. rw same (old.younger k q (rw e at f));
              apart = λ j k q f g. old.apart j k q (rw e at f) (rw e at g);
              once = λ k. rw e (old.once k);
            };
      }

  -- the mark on a child of the root shows under the name of that child and under no other
  pub qos_of-marked :
      (topic q : Key)
      → child_of tree 0 topic ≡ some p
      → qos_of (marked tree p qos) q ≡ (if equal topic q then qos else qos_of tree q)
  qos_of-marked topic q e =
      let root = t.nodes 0 t.nonempty in
      rw (child_nodes-marked 0, qos_of)
        (elim (Option-cases (child_of tree 0 q)) [
          | inl f ↦ rw f (ground (arith, equal_iff topic q))
          | inr (r, f) ↦
              rw (f, qos_at, node_of-marked r)
                (ground (arith, root.apart topic q p e, equal_iff topic q, ==_iff p r))
        ])
