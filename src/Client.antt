-- ===== src/Client.antt =====
-- main/Client.cpp and main/includes/Client.hpp: one client, and its subscriptions. `sock` is `none`
-- where the source has -1.
use esp32_mqtts_broker.Prelude.{ℕ, ◌+◌, Bool, true, false, Option, none, [], size_mod}
use esp32_mqtts_broker.Run.{Run, ok, ◌>>=◌}
use esp32_mqtts_broker.Connect.{Will}
use esp32_mqtts_broker.Hashmap.Bucket.{Key}
use esp32_mqtts_broker.Subscription.{Tree, Memory, new_tree, add_sub, is_subed_to, delete_sub}

pub record Client : Type 0 where
  pub sock : Option ℕ
  pub clean_session : Bool
  pub has_qued_msgs : Bool
  pub will : Will
  pub m_subscriptions : Tree

abbrev pub no_will : Will
no_will = record { presence_flag = false; retain = false; qos = 0; topic = []; msg = [] }

-- the constructor; `alloc` is the memory for the root's table of children
abbrev pub new_client : Bool → Client
new_client alloc = record {
  sock = none;
  clean_session = true;
  has_qued_msgs = false;
  will = no_will;
  m_subscriptions = new_tree alloc;
}

-- more rounds than the nodes that the address space has room for
abbrev pub tree_fuel : ℕ
tree_fuel = size_mod + 1

abbrev pub del_subs : Bool → Client → Client
del_subs alloc client = record client { m_subscriptions = new_tree alloc }

unfoldable pub subscribe : Memory → Client → Key → ℕ → Run (ℕ × Client)
subscribe mem client topic qos = add_sub tree_fuel mem client.m_subscriptions topic 0 qos >>= λ r.
    ok (r.0, record client { m_subscriptions = r.1 })

unfoldable pub is_subscribed : Client → Key → Run ℕ
is_subscribed client topic = is_subed_to tree_fuel client.m_subscriptions topic 0

unfoldable pub unsubscribe : Client → Key → Run Client
unsubscribe client topic = delete_sub tree_fuel client.m_subscriptions topic 0 0 none >>= λ tree.
    ok (record client { m_subscriptions = tree })
