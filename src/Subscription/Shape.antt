-- ===== src/Subscription/Shape.antt =====
-- The shape of a subscription tree that the operations keep.
use esp32_mqtts_broker.Prelude.{
  ℕ, zero, suc, ◌+◌, ◌≤◌, ◌<◌, ◌≡◌, refl, ◌∙◌, true, Option, none, some, [], ◌∷◌, ◌++◌, arith,
  flatten, ◌==◌, if◌then◌else◌, length, get_or, set, length-set, length-append, get_or-set, inl,
  inr, Bool-cases, ==_iff,
}
use esp32_mqtts_broker.Hashmap.{Hashmap, new_map}
use esp32_mqtts_broker.Hashmap.Bucket.{Key, equal, find, occurrences}
use esp32_mqtts_broker.Hashmap.Lookup.{entries, get-find}
use esp32_mqtts_broker.Hashmap.Lookup as Lookup
use esp32_mqtts_broker.Hashmap.Link.{new_map-IsValid}
use esp32_mqtts_broker.Subscription.{Subscription, Tree, new_subscription, empty_qos}

abbrev pub no_node : Subscription
no_node = record { max_qos = empty_qos; child_nodes = record { buckets = []; size = 0; count = 0 } }

abbrev pub node_of : Tree → ℕ → Subscription
node_of tree i = get_or tree i no_node

-- the children of a node, and the child under a key
abbrev pub child_of : Tree → ℕ → Key → Option ℕ
child_of tree i key = find key (entries (node_of tree i).child_nodes)

-- node `i` of a tree of `n` nodes: its children are younger, and no two keys share one
pub record IsNode (n i : ℕ) (node : Subscription) : Type 0 where
  pub table : Lookup.IsValid node.child_nodes
  pub few : node.child_nodes.count ≤ n
  pub younger : (k : Key) (p : ℕ) → find k (entries node.child_nodes) ≡ some p → (i < p) × (p < n)
  pub apart :
      (j k : Key) (p : ℕ)
      → find j (entries node.child_nodes) ≡ some p
      → find k (entries node.child_nodes) ≡ some p
      → equal j k ≡ true
  pub once : (k : Key) → occurrences k (entries node.child_nodes) ≤ 1

pub record IsTree (tree : Tree) : Type 0 where
  pub nonempty : 0 < length tree
  pub nodes : (i : ℕ) → i < length tree → IsNode (length tree) i (node_of tree i)

IsNode-grow : {n m i : ℕ} {node : Subscription} → n ≤ m → IsNode n i node → IsNode m i node
IsNode-grow h v = record {
  table = v.table;
  few = omega (arith, v.few);
  younger = λ k p e. let (lo, hi) = v.younger k p e in (lo, omega arith);
  apart = v.apart;
  once = v.once;
}

find-new_map : (k : Key) → find k (entries (new_map {T = ℕ} true 1)) ≡ none
unfolding find new_map flatten
find-new_map k = refl

pub new_subscription-IsNode : (n i : ℕ) → IsNode n i (new_subscription true)
new_subscription-IsNode n i = record {
  table = new_map-IsValid 1 (omega arith);
  few = unfold new_map in omega arith;
  younger = λ k p e. cc (find-new_map k);
  apart = λ j k p e f. cc (find-new_map j);
  once = λ k. unfold new_map occurrences flatten in omega arith;
}

get_or-snoc :
    (tree : Tree) (x : Subscription) (i : ℕ)
    → i < length tree + 1
    → node_of (tree ++ x ∷ []) i ≡ (if i == length tree then x else node_of tree i)
get_or-snoc [] x zero h = ground arith
get_or-snoc [] x (suc i) h = absurd (omega arith)
get_or-snoc (y ∷ tree) x zero h = ground arith
get_or-snoc (y ∷ tree) x (suc i) h = ground (arith, get_or-snoc tree x i)

-- a tree with one node more, and new children at `cur`
abbrev pub grown_tree : Tree → ℕ → Hashmap ℕ → Tree
grown_tree tree cur children =
    set (tree ++ new_subscription true ∷ []) cur
      (record (node_of tree cur) { child_nodes = children })

pub length-grown_tree :
    (tree : Tree) (cur : ℕ) (m : Hashmap ℕ) → length (grown_tree tree cur m) ≡ length tree + 1
length-grown_tree tree cur m =
    length-set (tree ++ new_subscription true ∷ []) cur _
    ∙ length-append tree (new_subscription true ∷ [])

module _ (tree : Tree) (t : IsTree tree) (cur : ℕ) (inside : cur < length tree)
    (m : Hashmap ℕ) where
  -- what stands in a grown tree
  pub node_of-grown :
      (i : ℕ)
      → i < length tree + 1
      → node_of (grown_tree tree cur m) i ≡ (
          if cur == i
          then record (node_of tree cur) { child_nodes = m }
          else (if i == length tree then new_subscription true else node_of tree i))
  node_of-grown i h =
      let long = length-append tree (new_subscription true ∷ []) in
      rw
        (
          get_or-set (tree ++ new_subscription true ∷ []) cur i
              (record (node_of tree cur) { child_nodes = m }) no_node (omega arith),
          get_or-snoc tree (new_subscription true) i h,
        )
        refl

  pub grown_tree-IsTree :
      IsNode (length tree + 1) cur (record (node_of tree cur) { child_nodes = m })
      → IsTree (grown_tree tree cur m)
  grown_tree-IsTree v = record {
    nonempty = omega (arith, length-grown_tree tree cur m);
    nodes = λ i h.
        let far : i < length tree + 1 = omega (arith, length-grown_tree tree cur m) in
        rw (length-grown_tree tree cur m, node_of-grown i far)
          (elim (Bool-cases (cur == i)) [
            | inl same ↦ rw (same, ← (==_iff cur i).0 same) v
            | inr other ↦ elim (Bool-cases (i == length tree)) [
              | inl last ↦ rw (other, last) (new_subscription-IsNode (length tree + 1) i)
              | inr old ↦
                  rw (other, old)
                    (IsNode-grow {n = length tree} (omega arith) (t.nodes i (ground arith)))
            ]
          ]);
  }
