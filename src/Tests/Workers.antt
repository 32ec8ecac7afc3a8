-- ===== src/Tests/Workers.antt =====
-- A worker with the client `c` on socket 0, which subscribed to the topic `a`, and a free socket 1.
use esp32_mqtts_broker.Prelude.{
  ℕ, ◌≡◌, ◌≢◌, refl, Bool, true, false, none, some, List, [], ◌∷◌, arith, replicate, inl, flatten,
}
use esp32_mqtts_broker.Run.{ok, fault, out_of_range, Yields, Returns}
use esp32_mqtts_broker.Publishhashmap.{Publishhashmap, empty_node, knuth_hash}
use esp32_mqtts_broker.Publishhashmap.Lookup.{IsTable, target}
use esp32_mqtts_broker.Publishhashmap.Insert.{Stores, message_node}
use esp32_mqtts_broker.Connect.{byte, unclean_session}
use esp32_mqtts_broker.Client.{Client, is_subscribed, no_will}
use esp32_mqtts_broker.Subscription.{is_subed_to}
use esp32_mqtts_broker.Subscription.Levels.{level, after_level}
use esp32_mqtts_broker.Hashmap.{at, get, slot, fnv1a_hash}
use esp32_mqtts_broker.Hashmap.Bucket.{find, equal}
use esp32_mqtts_broker.Hashmap.Lookup.{entries}
use esp32_mqtts_broker.Hashmap.Iterate.{visits, begin, visits-entries}
use esp32_mqtts_broker.Frame.{Incoming, read_packet, read_length, read_body}
use esp32_mqtts_broker.Frame.Length.{encode_length}
use esp32_mqtts_broker.Myvector.{Myvector}
use esp32_mqtts_broker.Session.{read}
use esp32_mqtts_broker.Session.Items.{no_item}
use esp32_mqtts_broker.Worker.State.{
  World, Worker, SockCid, uninit, mqtt, done, cell, deref, offer, write_conn,
}
use esp32_mqtts_broker.Worker.Login.{on_phase, enter}
use esp32_mqtts_broker.Worker.Drop.{drop_conn}
use esp32_mqtts_broker.Worker.Fanout.{publish_by_topic, deliver}
use esp32_mqtts_broker.Worker.Subscribing.{subscribe_loop, on_unsubscribe}
use esp32_mqtts_broker.Worker.{
  Arrival, on_message, on_mqtt, on_read, on_packet, kind_of, dispatch, on_pingreq,
}
use esp32_mqtts_broker.Worker.Logins.{logins}
use esp32_mqtts_broker.Worker.Released.{drop_conn-Released}
use esp32_mqtts_broker.Worker.Identified.{IsPaired}
use esp32_mqtts_broker.Worker.Events.{on_message-IsPaired}
use esp32_mqtts_broker.Worker.Published.{Settled, publish_by_topic-Settled}
use esp32_mqtts_broker.Worker.Served.{AllServable, connected}
use esp32_mqtts_broker.Worker.Counting.{held, held_by_all}
use esp32_mqtts_broker.Worker.Topics.{on_unsubscribe_overruns}
use esp32_mqtts_broker.Worker.Rounds.{Place, Ends, subscribe_loop-Ends}
use esp32_mqtts_broker.Worker.Returning.{enter-Unreachable}
use esp32_mqtts_broker.Worker.Routed.{on_message-routes}
use esp32_mqtts_broker.Tests.Connections.{broker}
use esp32_mqtts_broker.Tests.Packets.{willing}
use esp32_mqtts_broker.Tests.Topics.{a, subscribed, eight}

abbrev pub world : World
world = record {
  session = willing;
  item_ok = λ effects. true;
  memory = λ effects. eight;
  adding = λ effects. record { node = true; key = true; table = true };
  client_ok = λ effects. true;
  tree_ok = λ effects. true;
  will_topic_ok = λ effects. true;
  will_msg_ok = λ effects. true;
  vector_ok = λ effects cells. true;
  esp_random = λ effects. 7;
  esp_tls_init = λ effects. true;
  handshake = λ effects. done;
  broker = λ effects. broker;
}

abbrev pub client : Client
client = record {
  sock = some 0;
  clean_session = true;
  has_qued_msgs = false;
  will = record { presence_flag = true; retain = false; qos = 1; topic = a; msg = 0x32 ∷ 9 ∷ [] };
  m_subscriptions = subscribed;
}

abbrev room : Publishhashmap
room = record { power_of_cap = 1; slots = empty_node ∷ empty_node ∷ []; size = 0 }

room-IsTable : IsTable 1 room.slots
room-IsTable = record { lower = omega arith; upper = omega arith; width = refl }

abbrev pub online : SockCid
online = record {
  client = some 0;
  clientid = b'c' ∷ [];
  phs = mqtt;
  packid_state = no_item ∷ no_item ∷ [];
}

abbrev pub unused : SockCid
unused = record { client = none; clientid = []; phs = uninit; packid_state = [] }

abbrev pub worker : Worker
worker = record {
  sock_to_clientid = online ∷ unused ∷ [];
  clients = some client ∷ [];
  client_store = record { buckets = ((b'c' ∷ [], 0) ∷ []) ∷ []; size = 0; count = 1 };
  publish_msg_store = room;
  retained_sub_msg = record { buckets = [] ∷ []; size = 0; count = 0 };
  effects = [];
}

-- a PINGREQ
abbrev pub ping : Arrival
ping = record {
  buf = replicate 8 0;
  garbage = replicate 4 0;
  stream = 0xc0 ∷ 0 ∷ [];
  pieces = λ missing. 1;
}

abbrev pub answered : Worker
answered = (offer world (write_conn world worker 0 (0xd0 ∷ 0 ∷ [])) 0 read).1

pub worker-IsPaired : IsPaired worker
unfolding IsPaired
worker-IsPaired = (refl, (refl, tt))

pub ping-runs : on_message world ping worker (some 0) read ≡ ok answered
unfolding on_message cell on_phase on_mqtt on_read read_packet read_length read_body on_packet byte
    kind_of dispatch on_pingreq
ping-runs = refl

on_message-IsPaired_example : IsPaired answered
on_message-IsPaired_example =
    on_message-IsPaired world ping worker answered (some 0) read worker-IsPaired ping-runs

drop_conn-Released_example :
    Yields
      (drop_conn world worker 0 true)
      λ t. logins t.sock_to_clientid ≡ (none, [], uninit) ∷ (none, [], uninit) ∷ []
drop_conn-Released_example = drop_conn-Released world worker 0 true

-- the client has asked for the topic at quality of service 1
asked : is_subscribed client a ≡ ok 1
unfolding is_subscribed is_subed_to level after_level at get find equal slot fnv1a_hash
asked = refl

served : AllServable a 2 worker.clients (entries worker.client_store)
unfolding AllServable flatten deref
served = ((client, refl, connected 1 0 asked refl (omega arith)), tt)

publish_by_topic-Settled_example :
    (r : Bool × Publishhashmap) × Stores room
      (target room-IsTable 5)
      (message_node 5 (0x32 ∷ 9 ∷ []) 1 1)
      r
    × Returns
        (publish_by_topic world worker a (0x32 ∷ 9 ∷ []) 1 5)
        (Settled 5 (target room-IsTable 5) r.1)
unfolding held_by_all held
publish_by_topic-Settled_example =
    publish_by_topic-Settled world (λ effects. refl) worker a (0x32 ∷ 9 ∷ []) 1 5 room-IsTable refl
      (omega arith) refl (omega arith) (omega arith) (inl (unfold knuth_hash in refl)) refl served

-- a SUBSCRIBE to `a`, at the length of its topic
abbrev topic_bytes : List ℕ
topic_bytes = 0 ∷ 1 ∷ b'a' ∷ 1 ∷ []

abbrev codes : Myvector ℕ
codes = record { cells = 0x90 ∷ 0 ∷ 0 ∷ 5 ∷ 1 ∷ []; capacity = 5; size = 5 }

abbrev first_topic : Place
first_topic = record { worker = worker; pos = 0; left = 4; suback = codes }

subscribe_loop-Ends_example :
    Ends world 0 topic_bytes (subscribe_loop 2 world worker 0 topic_bytes 0 4 codes) 2 first_topic
subscribe_loop-Ends_example =
    subscribe_loop-Ends world 0 topic_bytes 2 first_topic (omega arith) (omega arith)

abbrev unsubscribe_packet : Incoming
unsubscribe_packet = record {
  buf = 0xa2 ∷ 5 ∷ 0 ∷ 5 ∷ 0 ∷ 1 ∷ b'a' ∷ [];
  cur_pos = 2;
  additional_packet_len = 2;
  packet_length = 7;
}

on_unsubscribe_overruns_example :
    on_unsubscribe world (replicate 4 0) worker 0 unsubscribe_packet ≢ ok answered
on_unsubscribe_overruns_example =
    on_unsubscribe_overruns world (replicate 4 0) worker answered 0 unsubscribe_packet refl

visits-entries_example :
    visits 3 worker.client_store (begin worker.client_store).0 (begin worker.client_store).1
    ≡ ok ((b'c' ∷ [], 0) ∷ [])
unfolding flatten
visits-entries_example = visits-entries worker.client_store 3 (omega arith)

-- the client has lost socket 0, and names itself on socket 1
abbrev pub away : Client
away = record client { sock = none; clean_session = false }

abbrev pub waiting : Worker
waiting = record worker { clients = some away ∷ [] }

abbrev pub back : SockCid
back = record { client = none; clientid = b'c' ∷ []; phs = mqtt; packid_state = [] }

away_asked : is_subscribed away a ≡ ok 1
unfolding is_subscribed is_subed_to level after_level at get find equal slot fnv1a_hash
away_asked = refl

enter-Unreachable_example : Returns (enter world waiting 1 back unclean_session no_will) λ t.
    (cell t.sock_to_clientid 1 ≡ ok (record back { client = some 0 }))
    × (deliver world a 1 5 0 t 0 ≡ fault out_of_range)
enter-Unreachable_example =
    enter-Unreachable world waiting 1 0 back unclean_session no_will away a 1 5 0 1 (omega arith)
      (unfold get find equal slot fnv1a_hash at in refl) (unfold deref in refl) refl away_asked refl

on_message-routes_example : on_message world ping worker (some 0) read ≡ ok answered
unfolding dispatch kind_of on_pingreq encode_length
on_message-routes_example =
    on_message-routes world ping worker 0 online (unfold cell in refl) refl refl 0 0xc0 [] []
      (omega arith) (omega arith) refl refl
