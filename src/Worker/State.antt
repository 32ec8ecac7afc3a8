-- ===== src/Worker/State.antt =====
-- main/worker.cpp and main/includes/worker.hpp: the state of the worker task, and what it asks of the
-- outside. A `Client *` is an index into the clients that were made, and a deleted client leaves
-- `none` behind. The pointer `tls` of a connection goes with its socket.
use esp32_mqtts_broker.Prelude.{
  ap, ℕ, zero, suc, Bool, Option, none, some, List, [], ◌∷◌, ◌≡◌, refl, set, get_or, length,
  replicate, ◌<◌, arith,
}
use esp32_mqtts_broker.Run.{Run, ok, fault, out_of_range, null_pointer, dangling_pointer, ◌>>=◌}
use esp32_mqtts_broker.Hashmap.{Hashmap, Allocs, new_map}
use esp32_mqtts_broker.Publishhashmap.{Publishhashmap, new_store}
use esp32_mqtts_broker.Subscription.{Memory}
use esp32_mqtts_broker.Connect.{Broker}
use esp32_mqtts_broker.Client.{Client}
use esp32_mqtts_broker.Session.{Env, Effect, Session, Operation, queued, written}
use esp32_mqtts_broker.Session.Items.{PacketStateItem}

-- `sock_cid::phase`
pub data Phase : Type 0 where
  uninit tls_handshake mqtt : Phase

-- `sock_cid`; `clientid` has `clientid_len` bytes
pub record SockCid : Type 0 where
  pub client : Option ℕ
  pub clientid : List ℕ
  pub phs : Phase
  pub packid_state : List PacketStateItem

-- `sock_to_clientid` and the three tables of the file; every client that was made, by its pointer;
-- what was done to the outside, newest first
pub record Worker : Type 0 where
  pub sock_to_clientid : List SockCid
  pub clients : List (Option Client)
  pub client_store : Hashmap ℕ
  pub publish_msg_store : Publishhashmap
  pub retained_sub_msg : Hashmap ℕ
  pub effects : List Effect

-- what a step of the TLS handshake answers; `unknown` is any other positive number
pub data TlsCode : Type 0 where
  failed done want_write want_read unknown : TlsCode

-- the answers of the outside after the effects so far: the queue, the connections and the copies of
-- messages (`session`), the growth of `packid_state`, subscriptions, the nodes of a table, a new
-- client and its tree, the topic and the message of a will, the cells of a vector, random numbers,
-- the TLS context and handshake, and what checks a CONNECT
pub record World : Type 0 where
  pub session : Env
  pub item_ok : List Effect → Bool
  pub memory : List Effect → Memory
  pub adding : List Effect → Allocs
  pub client_ok : List Effect → Bool
  pub tree_ok : List Effect → Bool
  pub will_topic_ok : List Effect → Bool
  pub will_msg_ok : List Effect → Bool
  pub vector_ok : List Effect → ℕ → Bool
  pub esp_random : List Effect → ℕ
  pub esp_tls_init : List Effect → Bool
  pub handshake : List Effect → TlsCode
  pub broker : List Effect → Broker

-- `sock_to_clientid[sock]`
unfoldable pub cell : List SockCid → ℕ → Run SockCid
cell [] sock = fault out_of_range
cell (c ∷ cs) zero = ok c
cell (c ∷ cs) (suc sock) = cell cs sock

-- `*client`
unfoldable pub deref : List (Option Client) → ℕ → Run Client
deref [] c = fault dangling_pointer
deref (none ∷ cs) zero = fault dangling_pointer
deref (some client ∷ cs) zero = ok client
deref (client ∷ cs) (suc c) = deref cs c

abbrev pub with_cell : Worker → ℕ → SockCid → Worker
with_cell w sock sockst = record w { sock_to_clientid = set w.sock_to_clientid sock sockst }

abbrev pub with_client : Worker → ℕ → Client → Worker
with_client w c client = record w { clients = set w.clients c (some client) }

abbrev pub with_effect : Worker → Effect → Worker
with_effect w e = record w { effects = e ∷ w.effects }

-- `sendtoque` for any socket
unfoldable pub offer : World → Worker → ℕ → Operation → Bool × Worker
offer world w sock op =
    let taken = world.session.queue_ok w.effects in (taken, with_effect w (queued sock op taken))

-- `esp_tls_conn_write`
unfoldable pub write_conn : World → Worker → ℕ → List ℕ → Worker
write_conn world w sock bytes =
    with_effect w (written sock bytes (world.session.write_ok w.effects))

-- `sockst->client->sock`, through a pointer that may be null or dangling
unfoldable pub client_sock : Worker → SockCid → Run (Option ℕ)
client_sock w sockst = elim sockst.client [
  | none ↦ fault null_pointer
  | some c ↦ deref w.clients c >>= λ client. ok client.sock
]

-- what the handlers of one connection work on, and their result put back
abbrev pub session_of : Worker → ℕ → SockCid → Session
session_of w sock sockst = record {
  sock = sock;
  client_sock = client_sock w sockst;
  items = sockst.packid_state;
  store = w.publish_msg_store;
  effects = w.effects;
}

abbrev pub with_session : Worker → ℕ → SockCid → Session → Worker
with_session w sock sockst s =
    record (with_cell w sock (record sockst { packid_state = s.items })) {
      publish_msg_store = s.store;
      effects = s.effects;
    }

abbrev pub no_cell : SockCid
no_cell = record { client = none; clientid = []; phs = uninit; packid_state = [] }

pub cell-get_or :
    (cs : List SockCid) (sock : ℕ) → sock < length cs → cell cs sock ≡ ok (get_or cs sock no_cell)
unfolding cell
cell-get_or [] sock h = absurd (omega arith)
cell-get_or (c ∷ cs) zero h = refl
cell-get_or (c ∷ cs) (suc sock) h = cell-get_or cs sock (omega arith)

pub cell-lt :
    (cs : List SockCid) (sock : ℕ) (sockst : SockCid) → cell cs sock ≡ ok sockst → sock < length cs
unfolding cell
cell-lt [] sock sockst h = cc
cell-lt (c ∷ cs) zero sockst h = omega arith
cell-lt (c ∷ cs) (suc sock) sockst h = omega (arith, cell-lt cs sock sockst h)

-- a cell that is written back as it is
pub cell-set_same :
    (cs : List SockCid) (sock : ℕ) (sockst : SockCid)
    → cell cs sock ≡ ok sockst
    → set cs sock sockst ≡ cs
unfolding cell
cell-set_same [] sock sockst h = cc
cell-set_same (c ∷ cs) zero sockst h = ap (λ d. d ∷ cs) (cc h)
cell-set_same (c ∷ cs) (suc sock) sockst h = ap (λ ds. c ∷ ds) (cell-set_same cs sock sockst h)

abbrev pub starting_client_store_size : ℕ
starting_client_store_size = 10

-- `INITIAL_PUBLISH_MSG_STORE_SIZE` is 2 to this power
abbrev pub initial_publish_msg_store_power : ℕ
initial_publish_msg_store_power = 5

-- the three tables of the file, each with the answer of the allocator, and `sock_to_clientid`;
-- `reserve` of `packid_state` adds no item
unfoldable pub new_worker : Bool → Bool → Bool → Worker
new_worker clients_ok messages_ok retained_ok = record {
  sock_to_clientid = replicate 64 no_cell;
  clients = [];
  client_store = new_map clients_ok starting_client_store_size;
  publish_msg_store = new_store messages_ok initial_publish_msg_store_power;
  retained_sub_msg = new_map retained_ok 1;
  effects = [];
}
