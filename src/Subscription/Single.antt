-- ===== src/Subscription/Single.antt =====
-- Topics of one level, which the tree maps to the quality of service that was asked for last.
use mathlib.Core.Option.{or_else}
use esp32_mqtts_broker.Prelude.{
  ℕ, suc, ◌+◌, ◌<◌, ◌≡◌, ◌≢◌, refl, sym, subst, ◌∙◌, true, false, ◌&&◌, ◌||◌, Option, none, some,
  [], ◌∷◌, arith, if◌then◌else◌, length, inl, inr, Option-cases, size_mod,
}
use esp32_mqtts_broker.Run.{ok, ◌>>=◌, Returns}
use esp32_mqtts_broker.Hashmap.{is_empty}
use esp32_mqtts_broker.Hashmap.Bucket.{Key, equal, equal_refl, find}
use esp32_mqtts_broker.Hashmap.Place.{at-get_or}
use esp32_mqtts_broker.Hashmap.Lookup.{entries, get-find}
use esp32_mqtts_broker.Hashmap.Insert.{add-Adds}
use esp32_mqtts_broker.Hashmap.Link.{overloads}
use esp32_mqtts_broker.Subscription.{Tree, Memory, child, make_child, add_sub, is_subed_to}
use esp32_mqtts_broker.Subscription.Levels.{has_slash, level-plain}
use esp32_mqtts_broker.Subscription.Shape.{
  IsTree, node_of, no_node, child_of, grown_tree, node_of-grown, length-grown_tree,
}
use esp32_mqtts_broker.Subscription.Growth.{child-Step}
use esp32_mqtts_broker.Subscription.Nested.{node_here, get_here}
use esp32_mqtts_broker.Subscription.Marks.{qos_at, qos_of, marked, marked-IsTree, qos_of-marked}

-- On a well-shaped tree the lookup of a topic of one level, which is not empty, ends after at most
-- two rounds, with what the root's child of that name says, or with the empty quality of service
-- if there is none.
pub is_subed_to-plain :
    (tree : Tree) (topic : Key) (fuel : ℕ)
    → IsTree tree
    → has_slash topic ≡ false
    → topic ≢ []
    → is_subed_to (suc (suc fuel)) tree topic 0 ≡ ok (qos_of tree topic)
unfolding is_subed_to
is_subed_to-plain tree [] fuel t s ne = absurd (ne refl)
is_subed_to-plain tree (c ∷ cs) fuel t s ne =
    let (whole, none_left) = level-plain (c ∷ cs) s in
    elim (Option-cases (child_of tree 0 (c ∷ cs))) [
      | inl e ↦ rw (
        node_here tree t 0 t.nonempty [],
        ◌>>=◌,
        whole,
        get_here tree t 0 t.nonempty (c ∷ cs),
        ◌>>=◌,
        e,
      )
      | inr (p, e) ↦
          let inside = ((t.nodes 0 t.nonempty).younger (c ∷ cs) p e).1 in
          rw (
            node_here tree t 0 t.nonempty [],
            ◌>>=◌,
            whole,
            get_here tree t 0 t.nonempty (c ∷ cs),
            ◌>>=◌,
            e,
            none_left,
            node_here tree t p inside [],
            ◌>>=◌,
          )
    ]

-- a fresh child: memory for it, and a table that does not overload
pub record Grants (mem : Memory) (tree : Tree) (topic : Key) : Type 0 where
  pub node : mem.subscription (length tree) ≡ true
  pub entry :
      ((mem.adding (length tree)).node && (is_empty topic || (mem.adding (length tree)).key)) ≡ true
  pub light : overloads (node_of tree 0).child_nodes topic ≡ false

-- a tree in which the root has a child under the topic, and reads as before under other names
pub record Has (tree : Tree) (topic : Key) (p : ℕ) (r : Tree) : Type 0 where
  pub shape : IsTree r
  pub there : child_of r 0 topic ≡ some p
  pub inside : p < length r
  pub others : (q : Key) → equal topic q ≡ false → qos_of r q ≡ qos_of tree q

module _ (mem : Memory) (tree : Tree) (t : IsTree tree) (topic : Key)
    (tables : (n : ℕ) → mem.child_table n ≡ true) (room : length tree + 1 < size_mod) where
  or_else-none : (o : Option ℕ) → or_else o none ≡ o
  unfolding or_else
  or_else-none none = refl
  or_else-none (some p) = refl

  ok_second : (a b : Option ℕ × Tree) → ok a ≡ ok b → a.1 ≡ b.1
  ok_second a b e = cc

  -- the child that is made
  made-Has :
      child_of tree 0 topic ≡ none
      → Grants mem tree topic
      → (r : Option ℕ × Tree) × (child mem tree topic 0 ≡ ok r)
        × (r.0 ≡ some (length tree))
        × Has tree topic (length tree) r.1
  made-Has fresh g =
      let n = length tree in
      let root = t.nodes 0 t.nonempty in
      let (r, run, a) =
        add-Adds (mem.adding n) (node_of tree 0).child_nodes root.table topic n g.entry
          (omega (arith, root.few)) g.light in
      let made : find topic (entries r.1) ≡ some n =
        a.finds topic ∙ unfold or_else in rw (fresh, equal_refl topic) in
      let runs : child mem tree topic 0 ≡ ok (find topic (entries r.1), grown_tree tree 0 r.1) =
        unfold child make_child in
        rw (
          node_here tree t 0 t.nonempty [],
          ◌>>=◌,
          get_here tree t 0 t.nonempty topic,
          ◌>>=◌,
          fresh,
          g.node,
          tables n,
          run,
          ◌>>=◌,
          get-find r.1 a.valid topic,
          ◌>>=◌,
        ) in
      let (r', run', st) = child-Step mem tree t topic 0 t.nonempty tables room in
      let same : r'.1 ≡ grown_tree tree 0 r.1 = ok_second _ _ (sym run' ∙ runs) in
      let root_now : node_of (grown_tree tree 0 r.1) 0
          ≡ record (node_of tree 0) { child_nodes = r.1 } =
        node_of-grown tree t 0 t.nonempty r.1 0 (omega arith) in
      (
        (find topic (entries r.1), grown_tree tree 0 r.1),
        runs,
        made,
        record {
          shape = subst IsTree same st.shape;
          there = rw root_now made;
          inside = omega (arith, length-grown_tree tree 0 r.1);
          others = λ q ne.
              let kept : find q (entries r.1) ≡ child_of tree 0 q =
                a.finds q ∙ unfold or_else in rw ne (or_else-none (child_of tree 0 q)) in
              rw (qos_of, root_now, kept)
                (elim (Option-cases (child_of tree 0 q)) [
                  | inl f ↦ rw f
                  | inr (p, f) ↦
                      let (lo, hi) = root.younger q p f in
                      rw (f, qos_at, node_of-grown tree t 0 t.nonempty r.1 p (omega arith))
                        (ground arith)
                ]);
        },
      )

  child-Has :
      (child_of tree 0 topic ≡ none → Grants mem tree topic)
      → (r : Option ℕ × Tree) × (p : ℕ) × (child mem tree topic 0 ≡ ok r)
        × (r.0 ≡ some p)
        × Has tree topic p r.1
  unfolding child
  child-Has grants = elim (Option-cases (child_of tree 0 topic)) [
    | inl fresh ↦ let (r, run, e, h) = made-Has fresh (grants fresh) in (r, length tree, run, e, h)
    | inr (p, e) ↦ (
      (some p, tree),
      p,
      rw (node_here tree t 0 t.nonempty [], ◌>>=◌, get_here tree t 0 t.nonempty topic, ◌>>=◌, e),
      refl,
      record {
        shape = t;
        there = e;
        inside = ((t.nodes 0 t.nonempty).younger topic p e).1;
        others = λ q ne. refl;
      },
    )
  ]

  runs_plain :
      (k : Key)
      → has_slash k ≡ false
      → k ≢ []
      → (r : Option ℕ × Tree) (p qos fuel : ℕ) → child mem tree k 0 ≡ ok r
      → r.0 ≡ some p
      → p < length r.1
      → add_sub (suc (suc fuel)) mem tree k 0 qos ≡ ok (qos, marked r.1 p qos)
  unfolding add_sub
  runs_plain [] s ne r p qos fuel run e inside = absurd (ne refl)
  runs_plain (c ∷ cs) s ne r p qos fuel run e inside =
      let (whole, none_left) = level-plain (c ∷ cs) s in
      rw (whole, run, ◌>>=◌, e, none_left, at-get_or r.1 p no_node inside)

  -- A subscription to a topic of one level, which is not empty, is made if the topic is there, or
  -- if memory allows a new node and the root's table is not overloaded; child tables get memory,
  -- and the tree has fewer than 2 ^ 32 - 1 nodes. On a well-shaped tree `add_sub` then ends after
  -- two rounds with the quality of service asked for, which a lookup of the topic finds from then
  -- on; lookups of other topics answer as before, whatever characters the topic has.
  pub add_sub-plain :
      (qos fuel : ℕ)
      → has_slash topic ≡ false
      → topic ≢ []
      → (child_of tree 0 topic ≡ none → Grants mem tree topic)
      → Returns (add_sub (suc (suc fuel)) mem tree topic 0 qos) λ r.
        (r.0 ≡ qos)
        × IsTree r.1
        × ((q : Key) → qos_of r.1 q ≡ (if equal topic q then qos else qos_of tree q))
  add_sub-plain qos fuel s ne grants =
      let (r, p, run, e, h) = child-Has grants in
      (
        (qos, marked r.1 p qos),
        runs_plain topic s ne r p qos fuel run e h.inside,
        (
          refl,
          marked-IsTree r.1 h.shape p qos h.inside,
          λ q.
              qos_of-marked r.1 h.shape p qos h.inside topic q h.there ∙ ground (arith, h.others q),
        ),
      )
