-- ===== src/Subscription/Remove.antt =====
-- `delete_sub`: what an unsubscribe does to the tree.
use esp32_mqtts_broker.Prelude.{
  ℕ, zero, suc, ◌<◌, ◌≡◌, refl, ◌∙◌, true, false, ◌||◌, not, Option, none, some, [], ◌∷◌, arith,
  ◌==◌, ltb, length, inl, inr, Option-cases, Bool-cases,
}
use esp32_mqtts_broker.Run.{ok, fault, null_pointer, out_of_fuel, ◌>>=◌}
use esp32_mqtts_broker.Hashmap.Bucket.{Key}
use esp32_mqtts_broker.Subscription.{Tree, delete_sub, delete_last, empty_qos}
use esp32_mqtts_broker.Subscription.Levels.{
  level, after_level, has_slash, slash, after_level-slash, level-slash, level-plain, length-level,
}
use esp32_mqtts_broker.Subscription.Shape.{IsTree, node_of, child_of}
use esp32_mqtts_broker.Subscription.Nested.{node_here, get_here}

module _ (tree : Tree) (t : IsTree tree) where
  -- a round at a topic that is left with a `/` and whose level is a child of the root
  round :
      (fuel : ℕ) (topic : Key) (parent p : ℕ) (del : Option Key)
      → (length topic == length (level topic)) ≡ false
      → child_of tree 0 (level topic) ≡ some p
      → (parent' : ℕ) × (del' : Option Key) × (delete_sub (suc fuel) tree topic 0 parent del
          ≡ delete_sub fuel tree (after_level topic) 0 parent' del')
  unfolding delete_sub
  round fuel topic parent p del more e =
      let inside = ((t.nodes 0 t.nonempty).younger (level topic) p e).1 in
      elim (Bool-cases
        (not ((node_of tree p).max_qos == empty_qos) || ltb 1 (node_of tree p).child_nodes.count)) [
          | inl kept ↦ (
            p,
            none,
            rw (
              more,
              delete_sub,
              node_here tree t 0 t.nonempty (level topic),
              ◌>>=◌,
              get_here tree t 0 t.nonempty (level topic),
              ◌>>=◌,
              e,
              node_here tree t p inside [],
              ◌>>=◌,
              kept,
            ),
          )
          | inr loose ↦ (
            parent,
            elim del [ none ↦ some (level topic) | some key ↦ some key ],
            rw (
              more,
              delete_sub,
              node_here tree t 0 t.nonempty (level topic),
              ◌>>=◌,
              get_here tree t 0 t.nonempty (level topic),
              ◌>>=◌,
              e,
              node_here tree t p inside [],
              ◌>>=◌,
              loose,
            ),
          )
        ]

  gives_up :
      (fuel : ℕ) (topic : Key) (parent : ℕ) (del : Option Key)
      → (length topic == length (level topic)) ≡ false
      → child_of tree 0 (level topic) ≡ none
      → delete_sub (suc fuel) tree topic 0 parent del ≡ ok tree
  unfolding delete_sub
  gives_up fuel topic parent del more e = rw (
    more,
    delete_sub,
    node_here tree t 0 t.nonempty (level topic),
    ◌>>=◌,
    get_here tree t 0 t.nonempty (level topic),
    ◌>>=◌,
    e,
  )

  hangs :
      (fuel : ℕ) (cs : Key) (parent p : ℕ) (del : Option Key)
      → child_of tree 0 [] ≡ some p
      → delete_sub fuel tree (slash ∷ cs) 0 parent del ≡ fault out_of_fuel
  hangs zero cs parent p del e = unfold delete_sub in refl
  hangs (suc fuel) cs parent p del e =
      let (empty, same) = level-slash cs in
      let (parent', del', step) =
        round fuel (slash ∷ cs) parent p del (rw empty (ground arith)) (rw empty e) in
      step ∙ rw same (hangs fuel cs parent' p del' e)

  -- An unsubscribe from a topic with a `/` removes nothing. On a well-shaped tree, if the root has
  -- no child for the first level, or none under the empty key, `delete_sub` ends after at most two
  -- rounds and leaves the tree as it was; if it has both, no number of rounds is enough.
  pub delete_sub-nested :
      (topic : Key) (fuel : ℕ)
      → has_slash topic ≡ true
      → 1 < fuel
      → delete_sub fuel tree topic 0 0 none ≡ (elim (child_of tree 0 (level topic)) [
        | none ↦ ok tree
        | some p ↦ elim (child_of tree 0 []) [ none ↦ ok tree | some q ↦ fault out_of_fuel ]
      ])
  delete_sub-nested topic zero s enough = absurd (omega arith)
  delete_sub-nested topic (suc zero) s enough = absurd (omega arith)
  delete_sub-nested topic (suc (suc fuel)) s enough =
      let more : (length topic == length (level topic)) ≡ false = length-level topic s in
      let (rest, left) = after_level-slash topic s in
      elim (Option-cases (child_of tree 0 (level topic))) [
        | inl e ↦ rw e (gives_up (suc fuel) topic 0 none more e)
        | inr (p, e) ↦
            let (parent, del, step) = round (suc fuel) topic 0 p none more e in
            let (empty, _) = level-slash rest in
            elim (Option-cases (child_of tree 0 [])) [
              | inl f ↦
                  rw (e, f)
                    (step
                      ∙ rw left (
                          gives_up fuel (slash ∷ rest) parent del (rw empty (ground arith))
                            (rw empty f)))
              | inr (q, f) ↦ rw (e, f) (step ∙ rw left (hangs (suc fuel) rest parent q del f))
            ]
      ]

  -- On a well-shaped tree, an unsubscribe from a topic of one level that is not a child of the
  -- root reads through a null pointer, at every number of rounds above 0.
  pub delete_sub-absent :
      (topic : Key) (fuel : ℕ)
      → has_slash topic ≡ false
      → child_of tree 0 topic ≡ none
      → delete_sub (suc fuel) tree topic 0 0 none ≡ fault null_pointer
  unfolding delete_sub delete_last
  delete_sub-absent topic fuel s e =
      let (whole, _) = level-plain topic s in
      let last : (length topic == length topic) ≡ true = ground arith in
      rw (
        whole,
        last,
        delete_sub,
        node_here tree t 0 t.nonempty topic,
        ◌>>=◌,
        get_here tree t 0 t.nonempty topic,
        ◌>>=◌,
        e,
      )
