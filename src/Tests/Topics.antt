-- ===== src/Tests/Topics.antt =====
-- The tree of a client that has subscribed to the topic `a`.
use esp32_mqtts_broker.Prelude.{
  ℕ, zero, suc, ◌<◌, ◌≡◌, ◌≢◌, refl, true, none, [], ◌∷◌, arith, if◌then◌else◌, flatten, ltb, false,
  ◌≤◌,
}
use esp32_mqtts_broker.Run.{ok, Returns}
use esp32_mqtts_broker.Hashmap.{fnv1a_hash, new_map}
use esp32_mqtts_broker.Hashmap.Bucket.{Key, equal, equal_iff, find, occurrences}
use esp32_mqtts_broker.Hashmap.Place.{home}
use esp32_mqtts_broker.Hashmap.Lookup as Lookup
use esp32_mqtts_broker.Subscription.{
  Subscription, Tree, Memory, add_sub, delete_sub, empty_qos, sub_error_code,
}
use esp32_mqtts_broker.Subscription.Levels.{has_slash, level}
use esp32_mqtts_broker.Subscription.Shape.{IsNode, IsTree, node_of, new_subscription-IsNode}
use esp32_mqtts_broker.Subscription.Nested.{add_sub-nested}
use esp32_mqtts_broker.Subscription.Remove.{delete_sub-nested}
use esp32_mqtts_broker.Subscription.Unsubscribe.{delete_sub-plain}
use esp32_mqtts_broker.Subscription.Single.{Grants, add_sub-plain}
use esp32_mqtts_broker.Subscription.Marks.{qos_of}

abbrev pub a : Key
a = b'a' ∷ []

abbrev b : Key
b = b'b' ∷ []

abbrev a_b : Key
a_b = b'a' ∷ b'/' ∷ b'b' ∷ []

abbrev root : Subscription
root = record {
  max_qos = empty_qos;
  child_nodes = record { buckets = ((a, 1) ∷ []) ∷ []; size = 0; count = 1 };
}

abbrev leaf : Subscription
leaf = record { max_qos = 1; child_nodes = new_map true 1 }

abbrev pub subscribed : Tree
subscribed = root ∷ leaf ∷ []

root_table : Lookup.IsValid root.child_nodes
root_table = record {
  roomy = omega arith;
  unsized = refl;
  placed = unfold home fnv1a_hash in ((refl, tt), tt);
  counted = unfold flatten in omega arith;
  small = omega arith;
}

root-IsNode : IsNode 2 0 root
unfolding find occurrences flatten equal
root-IsNode = record {
  table = root_table;
  few = omega arith;
  younger = λ k p e. ground arith;
  apart = λ j k p e f. ground (arith, equal_iff j k, equal_iff j a, equal_iff k a);
  once = λ k. ground arith;
}

leaf-IsNode : IsNode 2 1 leaf
leaf-IsNode =
    let fresh = new_subscription-IsNode 2 1 in
    record {
      table = fresh.table;
      few = fresh.few;
      younger = fresh.younger;
      apart = fresh.apart;
      once = fresh.once;
    }

node_of-IsNode : (i : ℕ) → i < 2 → IsNode 2 i (node_of subscribed i)
node_of-IsNode zero h = root-IsNode
node_of-IsNode (suc zero) h = leaf-IsNode
node_of-IsNode (suc (suc i)) h = absurd (omega arith)

subscribed-IsTree : IsTree subscribed
subscribed-IsTree = record { nonempty = omega arith; nodes = node_of-IsNode }

-- memory for eight nodes
abbrev pub eight : Memory
eight = record {
  subscription = λ n. ltb n 8;
  child_table = λ n. true;
  adding = λ n. record { node = true; key = true; table = true };
}

eight_full : (n : ℕ) → 8 ≤ n → ltb n 8 ≡ false
eight_full n h = ground arith

add_sub-nested_example :
    Returns (add_sub 9 eight subscribed a_b 0 1) λ r. (r.0 ≡ sub_error_code) × IsTree r.1
unfolding has_slash
add_sub-nested_example =
    add_sub-nested eight 8 1 (λ n. refl) eight_full (omega arith) subscribed a_b 9 subscribed-IsTree
      refl (omega arith) (omega arith)

delete_sub-nested_example : delete_sub 2 subscribed a_b 0 0 none ≡ ok subscribed
unfolding has_slash level find flatten equal
delete_sub-nested_example = delete_sub-nested subscribed subscribed-IsTree a_b 2 refl (omega arith)

b_granted : Grants eight subscribed b
unfolding home fnv1a_hash
b_granted = record { node = refl; entry = refl; light = refl }

b_nonempty : b ≢ []
b_nonempty e = cc

add_sub-plain_example : Returns (add_sub 2 eight subscribed b 0 2) λ r.
    (r.0 ≡ 2)
    × IsTree r.1
    × ((q : Key) → qos_of r.1 q ≡ (if equal b q then 2 else qos_of subscribed q))
unfolding has_slash
add_sub-plain_example =
    add_sub-plain eight subscribed subscribed-IsTree b (λ n. refl) (omega arith) 2 0 refl b_nonempty
      (λ e. b_granted)

delete_sub-plain_example : Returns (delete_sub 1 subscribed a 0 0 none) λ r.
    IsTree r × ((q : Key) → qos_of r q ≡ (if equal a q then empty_qos else qos_of subscribed q))
unfolding has_slash find flatten equal
delete_sub-plain_example = delete_sub-plain subscribed a 1 0 subscribed-IsTree refl refl
