-- ===== src/Lib.antt =====
-- A model of the broker's own logic, for MQTT 3.1.1 on the ESP32, and what it is proved to do.
--
-- The program runs in two tasks. main/main.cpp accepts connections and waits for sockets; it hands
-- each socket event as a `message` to the worker task of main/worker.cpp through a queue. The worker
-- does the TLS handshake, reads one packet of a connection, and answers it: it looks up clients,
-- subscriptions and waiting messages, writes to the connection, and puts a message back into the queue
-- that says which event it wants next. Clients, users and the children of a subscription node stand in
-- `myhashmap` tables, waiting messages in a `Publishhashmap`.
--
-- Which file models what:
--   Hashmap             main/includes/myhashmap.hpp: `fnv1a_hash`, the constructor, `get`, `add`,
--                       `update`, `erase` and the private `rehash`, under their names. Buckets are
--                       lists of nodes. Hashmap/Bucket has the walks along one bucket.
--   Publishhashmap      main/includes/Publishhashmap.hpp and main/Publishhashmap.cpp: `knuth_hash`,
--                       `get`, `add`, `erase`, `rehash`. `probe` is the loop that three of them share,
--                       `release` the counting down that main/worker.cpp writes out five times.
--   Subscription        main/Subscription.cpp and main/includes/Subscription.hpp: `add_sub`,
--                       `is_subed_to`, `delete_sub` on a list of nodes in which a pointer is an index;
--                       Subscription/Levels has the scan for `/`.
--   Frame               main/worker.cpp: the reading of one packet: header byte, remaining length, the
--                       test of the length, the rest in the pieces that the connection gives.
--   Connect             main/worker.cpp: `connect_mqtt` and `conn_ack`.
--   Session             main/worker.cpp and main/includes/worker.hpp: the packets of one connection on
--                       their way (`packid_state`), `add_packet_id`, `publish`, the handlers of PUBACK,
--                       PUBREC, PUBCOMP and PUBREL, and the write event.
--   Client              main/Client.cpp and main/includes/Client.hpp: one client and its subscriptions.
--   Worker              main/worker.cpp: the body of the loop of `worker`, with its children State (the
--                       state of the task and what it asks of the outside), Fanout
--                       (`publish_by_topic`), Drop (`drop_conn`), Login (handshake and CONNECT),
--                       Publishing (PUBLISH) and Subscribing (SUBSCRIBE, UNSUBSCRIBE). A `Client *` is an
--                       index, and a deleted client leaves a place that must not be read.
--   Server              main/main.cpp: `error_check`, the tries of the startup, and one round of the loop
--                       that waits for sockets.
--   Tasks               main/main.cpp and main/worker.cpp together: both tasks and the two queues between
--                       them, as a relation of steps that come in any order. A round of the server and
--                       the handling of one message are computed at once, with a parameter that says
--                       which messages the queue takes; the messages are then offered one by one, and
--                       only a full queue refuses one.
--   Wificonfig          main/wificonfig.cpp: `ip_conversion` and `event_handler`; Wificonfig/Setup has
--                       `wifi_init_sta`, and `app_main` of main/main.cpp, which calls it.
--   Myvector            main/myvector.ipp and main/includes/myvector.hpp: the vector with its array,
--                       capacity and size. Other components see its elements as a list.
--   UserCreds           main/user_creds.cpp: `add_user`, `change_password`, `delete_user`,
--                       `check_password`.
--   Prelude, Run        shared names, lists with native indices, facts on bytes; runs with faults.
--   Tests               concrete inputs.
-- Each component has its definitions in the file of its name, and its theorems in the modules below.
--
-- Numbers are unbounded with the wrap-around of their C++ type written out: `std::size_t` has 32
-- bits on this chip. Undefined behaviour, such as a read through a null pointer, is a fault of a
-- run, and a run that has no fault is a value. Log messages are left out, but for the one of
-- `publish` about a failed write, which reads through the client of the connection. The
-- allocator, the queue, the connection, SHA-256 and the random salt are parameters: arguments of
-- the operations that use them.
--
-- Fuel: `probe` gets 2 ^ 32 + 1 rounds, more than its counter has values; the walks of a subscription
-- tree go strictly from older to younger nodes, so that one round more than the nodes there can be is
-- enough, and a client's tree gets 2 ^ 32 + 1; the loop over the rest of a packet gets one round for each
-- byte, the loops over the topics of a SUBSCRIBE or UNSUBSCRIBE 1024, each of which takes at least two
-- bytes of the buffer. `delete_sub` has no such bound: it keeps its place in the tree.
--
-- Not modelled: sockets, queues and TLS themselves (ESP-IDF, lwIP, FreeRTOS), which are parameters by
-- their answers, and the waiting of a task: a step is taken when it can be. The tasks share nothing but
-- the two queues. The loop of `publish_by_topic` over the client store goes through the buckets in
-- order, as Hashmap/Iterate has it.
pub mod Prelude
pub mod Run
pub mod Myvector
pub mod Hashmap
pub mod Publishhashmap
pub mod Subscription
pub mod Frame
pub mod UserCreds
pub mod Connect
pub mod Client
pub mod Session
pub mod Worker
pub mod Server
pub mod Tasks
pub mod Wificonfig
pub mod Tests
