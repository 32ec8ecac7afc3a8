-- ===== src/Subscription/Unsubscribe.antt =====
-- An unsubscribe from a topic of one level that the client is subscribed to.
use esp32_mqtts_broker.Prelude.{
  ℕ, suc, ◌<◌, ◌≡◌, refl, ap, true, false, none, some, [], arith, ◌==◌, ltb, if◌then◌else◌, length,
  set, length-set, get_or-set, inl, inr, Bool-cases, Option-cases,
}
use esp32_mqtts_broker.Run.{◌>>=◌, Returns}
use esp32_mqtts_broker.Hashmap.{Hashmap}
use esp32_mqtts_broker.Hashmap.Bucket.{Key, equal, equal_iff, find}
use esp32_mqtts_broker.Hashmap.Lookup.{entries}
use esp32_mqtts_broker.Hashmap.Modify.{Erases, erase-Erases}
use esp32_mqtts_broker.Subscription.{Tree, delete_sub, delete_last, erase_child, empty_qos}
use esp32_mqtts_broker.Subscription.Levels.{has_slash, level-plain}
use esp32_mqtts_broker.Subscription.Shape.{IsNode, IsTree, node_of, no_node, child_of}
use esp32_mqtts_broker.Subscription.Nested.{node_here, get_here}
use esp32_mqtts_broker.Subscription.Marks.{qos_at, qos_of, marked, marked-IsTree, qos_of-marked}

positive : (p : ℕ) → 0 < p → (0 == p) ≡ false
positive p h = ground arith

module _ (tree : Tree) (t : IsTree tree) (topic : Key) (kids : Hashmap ℕ)
    (er : Erases (node_of tree 0).child_nodes topic kids) where
  abbrev old : Hashmap ℕ
  old = (node_of tree 0).child_nodes

  root : IsNode (length tree) 0 (node_of tree 0)
  root = t.nodes 0 t.nonempty

  -- the tree whose root has lost the child
  abbrev pub cut : Tree
  cut = set tree 0 (record (node_of tree 0) { child_nodes = kids })

  finds : (q : Key) → find q (entries kids) ≡ (if equal topic q then none else find q (entries old))
  finds q = ground (arith, er.others q, er.gone (root.once topic), equal_iff topic q)

  kept : (q : Key) (p : ℕ) → find q (entries kids) ≡ some p → find q (entries old) ≡ some p
  kept q p e = ground (arith, finds q)

  node_of-cut :
      (i : ℕ)
      → node_of cut i
        ≡ (if 0 == i then record (node_of tree 0) { child_nodes = kids } else node_of tree i)
  node_of-cut i =
      get_or-set tree 0 i (record (node_of tree 0) { child_nodes = kids }) no_node t.nonempty

  cut-IsNode : (qos : ℕ) → IsNode (length tree) 0 (record { max_qos = qos; child_nodes = kids })
  cut-IsNode qos = record {
    table = er.valid;
    few = omega (arith, er.counted, root.few);
    younger = λ k p e. root.younger k p (kept k p e);
    apart = λ j k p e f. root.apart j k p (kept j p e) (kept k p f);
    once = λ k. omega (arith, er.occurs k, root.once k);
  }

  pub cut-IsTree : IsTree cut
  cut-IsTree =
      let same = length-set tree 0 (record (node_of tree 0) { child_nodes = kids }) in
      record {
        nonempty = omega (arith, same, t.nonempty);
        nodes = λ i h. rw same (elim (Bool-cases (0 == i)) [
          | inl zeroth ↦
              let e : node_of cut i ≡ record (node_of tree 0) { child_nodes = kids } =
                ground (arith, node_of-cut i) in
              let f : i ≡ 0 = ground arith in rw (e, f) (cut-IsNode (node_of tree 0).max_qos)
          | inr later ↦
              let e : node_of cut i ≡ node_of tree i = ground (arith, node_of-cut i) in
              rw e (t.nodes i (omega (arith, same)))
        ]);
      }

  pub qos_of-cut : (q : Key) → qos_of cut q ≡ (if equal topic q then empty_qos else qos_of tree q)
  qos_of-cut q =
      let bare : (node_of cut 0).child_nodes ≡ kids = ap (λ x. x.child_nodes) (node_of-cut 0) in
      rw (bare, finds q)
        (elim (Bool-cases (equal topic q)) [
          | inl same ↦ rw same refl
          | inr other ↦ elim (Option-cases (find q (entries old))) [
            | inl e ↦ rw (other, e) refl
            | inr (p, e) ↦
                let above : (0 == p) ≡ false = positive p (root.younger q p e).0 in
                rw (other, e, qos_at, node_of-cut p, above) refl
          ]
        ])

-- An unsubscribe from a topic of one level that is a child of the root ends normally on a well-shaped
-- tree: the tree keeps its shape, a lookup of the topic finds no subscription from then on, and
-- lookups of other topics answer as before.
pub delete_sub-plain :
    (tree : Tree) (topic : Key) (p fuel : ℕ)
    → IsTree tree
    → has_slash topic ≡ false
    → child_of tree 0 topic ≡ some p
    → Returns (delete_sub (suc fuel) tree topic 0 0 none) λ r.
      IsTree r × ((q : Key) → qos_of r q ≡ (if equal topic q then empty_qos else qos_of tree q))
unfolding delete_sub delete_last erase_child
delete_sub-plain tree topic p fuel t s e =
    let (whole, _) = level-plain topic s in
    let last : (length topic == length topic) ≡ true = ground arith in
    let inside = ((t.nodes 0 t.nonempty).younger topic p e).1 in
    let (kids, run, er) =
      erase-Erases (node_of tree 0).child_nodes topic p (t.nodes 0 t.nonempty).table e in
    elim (Bool-cases (ltb 0 (node_of tree p).child_nodes.count)) [
      | inl busy ↦ (
        marked tree p empty_qos,
        rw (
          whole,
          last,
          delete_sub,
          node_here tree t 0 t.nonempty topic,
          ◌>>=◌,
          get_here tree t 0 t.nonempty topic,
          ◌>>=◌,
          e,
          node_here tree t p inside [],
          ◌>>=◌,
          busy,
        ),
        (
          marked-IsTree tree t p empty_qos inside,
          λ q. qos_of-marked tree t p empty_qos inside topic q e,
        ),
      )
      | inr leaf ↦ (
        cut tree t topic kids er,
        rw (
          whole,
          last,
          delete_sub,
          node_here tree t 0 t.nonempty topic,
          ◌>>=◌,
          get_here tree t 0 t.nonempty topic,
          ◌>>=◌,
          e,
          node_here tree t p inside [],
          ◌>>=◌,
          leaf,
          erase_child,
          node_here tree t 0 t.nonempty topic,
          ◌>>=◌,
          run,
          ◌>>=◌,
        ),
        (cut-IsTree tree t topic kids er, qos_of-cut tree t topic kids er),
      )
    ]
