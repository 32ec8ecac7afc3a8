-- ===== src/Subscription.antt =====
-- main/includes/Subscription.hpp and main/Subscription.cpp: the topics of one client as a tree. The
-- nodes of the tree stand in a list, and a pointer is an index: the root, `Client::m_subscriptions`, is
-- node 0, and a node is added at the end. A node that the source deletes stays, and nothing points to it.
pub mod Levels
pub mod Shape
pub mod Growth
pub mod Single
pub mod Marks
pub mod Nested
pub mod Remove
pub mod Unsubscribe
use esp32_mqtts_broker.Prelude.{
  ℕ, zero, suc, ◌+◌, ◌-◌, Bool, true, false, ◌&&◌, ◌||◌, not, Option, none, some, List, [], ◌∷◌,
  ◌++◌, ◌==◌, ltb, if◌then◌else◌, length, set,
}
use esp32_mqtts_broker.Run.{Run, ok, fault, null_pointer, out_of_fuel, ◌>>=◌}
use esp32_mqtts_broker.Hashmap
use esp32_mqtts_broker.Hashmap.{Hashmap, Allocs, new_map, at, is_empty}
use esp32_mqtts_broker.Hashmap.Bucket.{Key}
use Levels.{level, after_level}

abbrev pub empty_qos : ℕ
empty_qos = 255

abbrev pub sub_error_code : ℕ
sub_error_code = 0x80

pub record Subscription : Type 0 where
  pub max_qos : ℕ
  pub child_nodes : Hashmap ℕ

abbrev pub Tree : Type 0
Tree = List Subscription

-- the answers of the allocator during one call, by the number of nodes that there are
pub record Memory : Type 0 where
  pub subscription : ℕ → Bool
  pub child_table : ℕ → Bool
  pub adding : ℕ → Allocs

-- `Subscription()`, with `m_child_nodes(1)`
abbrev pub new_subscription : Bool → Subscription
new_subscription alloc = record { max_qos = empty_qos; child_nodes = new_map alloc 1 }

-- `del_subs` of main/Client.cpp, and the tree of a new client
abbrev pub new_tree : Bool → Tree
new_tree alloc = new_subscription alloc ∷ []

-- the part of a round of `add_sub` that makes a child of `cur` under the key
unfoldable pub make_child : Memory → Tree → Key → ℕ → Subscription → Run (Option ℕ × Tree)
make_child mem tree key cur node =
    let n = length tree in
    let grown = tree ++ new_subscription (mem.child_table n) ∷ [] in
    do
      (added, children) ← Hashmap.add (mem.adding n) node.child_nodes key n
      tmp ← Hashmap.get children key
      ok (tmp, set grown cur (record node { child_nodes = children }))

unfoldable pub child : Memory → Tree → Key → ℕ → Run (Option ℕ × Tree)
child mem tree key cur = do
  node ← at tree cur
  found ← Hashmap.get node.child_nodes key
  elim found [
    | some tmp ↦ ok (some tmp, tree)
    | none ↦
        if mem.subscription (length tree) then make_child mem tree key cur node else ok (none, tree)
  ]

-- `while (len > 0)`: `topic` is what is left between `topic_ptr` and the end
unfoldable pub add_sub : ℕ → Memory → Tree → Key → ℕ → ℕ → Run (ℕ × Tree)
add_sub zero mem tree topic cur qos = fault out_of_fuel
add_sub (suc fuel) mem tree [] cur qos =
    at tree cur >>= λ node. ok (qos, set tree cur (record node { max_qos = qos }))
add_sub (suc fuel) mem tree (c ∷ cs) cur qos = child mem tree (level (c ∷ cs)) cur >>= λ r.
    elim r.0 [
      | none ↦ ok (sub_error_code, r.1)
      | some tmp ↦ add_sub fuel mem r.1 (after_level (c ∷ cs)) tmp qos
    ]

unfoldable pub is_subed_to : ℕ → Tree → Key → ℕ → Run ℕ
is_subed_to zero tree topic cur = fault out_of_fuel
is_subed_to (suc fuel) tree [] cur = at tree cur >>= λ node. ok node.max_qos
is_subed_to (suc fuel) tree (c ∷ cs) cur = at tree cur >>= λ node.
    Hashmap.get node.child_nodes (level (c ∷ cs)) >>= λ found. elim found [
      | none ↦ ok empty_qos
      | some next ↦ is_subed_to fuel tree (after_level (c ∷ cs)) next
    ]

unfoldable pub erase_child : Tree → ℕ → Key → Run Tree
erase_child tree cur key = do
  node ← at tree cur
  children ← Hashmap.erase node.child_nodes key
  ok (set tree cur (record node { child_nodes = children }))

-- the last level: `gnode` is read without a test for null
unfoldable pub delete_last : Tree → Key → ℕ → ℕ → Option Key → Run Tree
delete_last tree topic cur del_parent del_topic = do
  node ← at tree cur
  found ← Hashmap.get node.child_nodes topic
  elim found [
    | none ↦ fault null_pointer
    | some g ↦ at tree g >>= λ gnode.
        if ltb 0 gnode.child_nodes.count
        then ok (set tree g (record gnode { max_qos = empty_qos }))
        else (elim del_topic [
          | some key ↦ erase_child tree del_parent key
          | none ↦ erase_child tree cur topic
        ])
  ]

-- the loop keeps `cur_node`: every level is looked for among the children of the same node
unfoldable pub delete_sub : ℕ → Tree → Key → ℕ → ℕ → Option Key → Run Tree
delete_sub zero tree topic cur del_parent del_topic = fault out_of_fuel
delete_sub (suc fuel) tree topic cur del_parent del_topic =
    elim (length topic == length (level topic)) [
      | true ↦ delete_last tree topic cur del_parent del_topic
      | false ↦ at tree cur >>= λ node. Hashmap.get node.child_nodes (level topic) >>= λ found.
          elim found [
            | none ↦ ok tree
            | some p ↦ at tree p >>= λ del_p_node.
                elim (not (del_p_node.max_qos == empty_qos) || ltb 1 del_p_node.child_nodes.count) [
                  | true ↦ delete_sub fuel tree (after_level topic) cur p none
                  | false ↦
                      delete_sub fuel tree (after_level topic) cur del_parent
                        (elim del_topic [ none ↦ some (level topic) | some key ↦ some key ])
                ]
          ]
    ]
