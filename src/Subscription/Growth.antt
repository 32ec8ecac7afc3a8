-- ===== src/Subscription/Growth.antt =====
-- What one round of `add_sub` does to the shape of the tree.
use esp32_mqtts_broker.Prelude.{
  ℕ, ◌+◌, ◌≤◌, ◌<◌, ◌≡◌, Bool, true, Option, none, some, arith, length, inl, inr, Option-cases,
  Bool-cases, size_mod,
}
use esp32_mqtts_broker.Run.{◌>>=◌, Returns}
use esp32_mqtts_broker.Hashmap.{Hashmap}
use esp32_mqtts_broker.Hashmap.Bucket.{Key, equal_iff, find, find-none}
use esp32_mqtts_broker.Hashmap.Place.{at-get_or}
use esp32_mqtts_broker.Hashmap.Lookup.{entries, get-find}
use esp32_mqtts_broker.Hashmap.Outcome.{Outcome, add-Outcome}
use esp32_mqtts_broker.Subscription.{Tree, Memory, make_child, child}
use esp32_mqtts_broker.Subscription.Shape.{
  no_node, node_of, child_of, IsNode, IsTree, grown_tree, length-grown_tree, grown_tree-IsTree,
}

-- what a round of `add_sub` may do: nothing, or make one child more
pub record Step (mem : Memory) (tree : Tree) (cur : ℕ) (r : Option ℕ × Tree) : Type 0 where
  pub shape : IsTree r.1
  pub longer : length tree ≤ length r.1
  pub shorter : length r.1 ≤ length tree + 1
  pub granted : length r.1 ≡ length tree + 1 → mem.subscription (length tree) ≡ true
  pub forward : (p : ℕ) → r.0 ≡ some p → (cur < p) × (p < length r.1)

module _ (mem : Memory) (tree : Tree) (t : IsTree tree) (key : Key) (cur : ℕ)
    (inside : cur < length tree) (tables : (n : ℕ) → mem.child_table n ≡ true)
    (room : length tree + 1 < size_mod) where
  -- the children of `cur` after an `add` of the new node
  abbrev AddedChildren : Hashmap ℕ → Type 0
  AddedChildren m = IsNode (length tree + 1) cur (record (node_of tree cur) { child_nodes = m })

  added-IsNode :
      (b : Bool) (r : Bool × Hashmap ℕ)
      → child_of tree cur key ≡ none
      → Outcome b (node_of tree cur).child_nodes key (length tree) r
      → AddedChildren r.1
  added-IsNode b r fresh o =
      let old = t.nodes cur inside in
      record {
        table = o.valid;
        few = omega (arith, o.counted, old.few);
        younger = λ k p e. elim (o.origin k p e) [
          | inl before ↦ let (lo, hi) = old.younger k p before in (lo, omega arith)
          | inr (_, new) ↦ (omega arith, omega arith)
        ];
        apart = λ j k p e f. elim (o.origin j p e) [
          | inl a ↦ elim (o.origin k p f) [
            | inl b ↦ old.apart j k p a b
            | inr (_, new) ↦ absurd (omega (arith, (old.younger j p a).1))
          ]
          | inr (same, new) ↦ elim (o.origin k p f) [
            | inl b ↦ absurd (omega (arith, (old.younger k p b).1))
            | inr (same', _) ↦ ground (arith, equal_iff key j, equal_iff key k, equal_iff j k)
          ]
        ];
        once = λ k. o.once k (
            ground (
              arith,
              old.once k,
              equal_iff key k,
              find-none key (entries (node_of tree cur).child_nodes) fresh,
            ));
      }

  pub make_child-Step :
      child_of tree cur key ≡ none
      → mem.subscription (length tree) ≡ true
      → Returns (make_child mem tree key cur (node_of tree cur)) (Step mem tree cur)
  unfolding make_child
  make_child-Step fresh granted =
      let old = t.nodes cur inside in
      let (r, run, o) =
        add-Outcome (mem.adding (length tree)) (node_of tree cur).child_nodes old.table key
          (length tree) (omega (arith, old.few)) in
      let fits = added-IsNode _ r fresh o in
      (
        (find key (entries r.1), grown_tree tree cur r.1),
        rw (tables (length tree), run, ◌>>=◌, get-find r.1 o.valid key, ◌>>=◌),
        record {
          shape = grown_tree-IsTree tree t cur inside r.1 fits;
          longer = omega (arith, length-grown_tree tree cur r.1);
          shorter = omega (arith, length-grown_tree tree cur r.1);
          granted = λ _. granted;
          forward = λ p e. omega (arith, fits.younger key p e, length-grown_tree tree cur r.1);
        },
      )

  -- On a well-shaped tree a round of `add_sub` ends normally and keeps the shape; the child that it
  -- goes on with is younger than the node that it comes from.
  pub child-Step : Returns (child mem tree key cur) (Step mem tree cur)
  unfolding child
  child-Step =
      let old = t.nodes cur inside in
      let here = at-get_or tree cur no_node inside in
      let looked = get-find (node_of tree cur).child_nodes old.table key in
      elim (Option-cases (child_of tree cur key)) [
        | inr (p, e) ↦ (
          (some p, tree),
          rw (here, ◌>>=◌, looked, ◌>>=◌, e),
          record {
            shape = t;
            longer = omega arith;
            shorter = omega arith;
            granted = λ e. absurd (omega arith);
            forward = λ q f. ground (arith, old.younger key p e);
          },
        )
        | inl fresh ↦ elim (Bool-cases (mem.subscription (length tree))) [
          | inl granted ↦
              let (r, run, st) = make_child-Step fresh granted in
              (r, rw (here, ◌>>=◌, looked, ◌>>=◌, fresh, granted) run, st)
          | inr refused ↦ (
            (none, tree),
            rw (here, ◌>>=◌, looked, ◌>>=◌, fresh, refused),
            record {
              shape = t;
              longer = omega arith;
              shorter = omega arith;
              granted = λ e. absurd (omega arith);
              forward = λ q f. cc;
            },
          )
        ]
      ]
