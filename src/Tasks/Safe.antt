-- ===== src/Tasks/Safe.antt =====
-- What holds of the two tasks in whatever order their steps come.
use esp32_mqtts_broker.Prelude.{
  ℕ, ◌≤◌, ◌<◌, ◌≡◌, refl, ap, true, false, some, List, [], ◌∷◌, arith, length, length-append,
  get_or,
}
use esp32_mqtts_broker.Run.{ok}
use esp32_mqtts_broker.Hashmap
use esp32_mqtts_broker.Client.{Client}
use esp32_mqtts_broker.Session.{Effect}
use esp32_mqtts_broker.Server.{Message, Posted, posted, refused, Server}
use esp32_mqtts_broker.Worker.{Arrival, on_message}
use esp32_mqtts_broker.Worker.State.{Worker, World, SockCid, cell, deref, cell-get_or, no_cell}
use esp32_mqtts_broker.Worker.Identified.{IsPaired}
use esp32_mqtts_broker.Worker.Events.{on_message-IsPaired}
use esp32_mqtts_broker.Worker.Stock.{IsOwned, SameStock-IsOwned, IsOwned-deref}
use esp32_mqtts_broker.Worker.Owned.{on_message-IsOwned}
use esp32_mqtts_broker.Tasks.{
  Tasks, Step, looks, posts_message, loses_message, turns_away, receives, handles, requests,
  gives_up, writes, closes, Reach, here, next, queue_length, send_to_back,
}
use esp32_mqtts_broker.Tasks.Bounded.{
  sockets, AllSmall, AllBelow, AllBelow-append, oldest_first-AllSmall, look-IsNarrow,
  on_operation-max_socket,
}

-- the server waits for sockets of the array only, and what it still posts is about them
pub record ServerSafe (server : Server) (posts : List Posted) : Type 0 where
  pub narrow : server.max_socket < sockets
  pub small : AllSmall posts

-- a queue of at most 50 messages, each about a socket of the array
pub record PendingSafe (queue : List Message) : Type 0 where
  pub fits : length queue ≤ queue_length
  pub below : AllBelow queue

-- 64 connections, each with a client exactly if it has a client identifier, and a client store
-- that holds no client twice and no deleted one
pub record WorkerSafe (w : Worker) : Type 0 where
  pub paired : IsPaired w
  pub owned : IsOwned sockets w

pub record IsSafe (s : Tasks) : Type 0 where
  pub server : ServerSafe s.server s.posts
  pub pending : PendingSafe s.pending_socks
  pub requested : length s.socks_for_fds ≤ queue_length
  pub worker : WorkerSafe s.worker

posted_one :
    (server : Server) (posts rest : List Posted) (p : Posted)
    → posts ≡ p ∷ rest
    → ServerSafe server posts
    → ServerSafe server (p ∷ rest)
posted_one server posts rest p e v = rw e at v

sent :
    (queue : List Message) (m : Message)
    → length queue < queue_length
    → m.socket < sockets
    → PendingSafe queue
    → PendingSafe (send_to_back queue m)
sent queue m room low v = record {
  fits = omega (arith, length-append queue (m ∷ []));
  below = AllBelow-append queue m v.below low;
}

taken :
    (queue rest : List Message) (m : Message)
    → queue ≡ m ∷ rest
    → PendingSafe queue
    → PendingSafe rest
taken queue rest m e v =
    let w : PendingSafe (m ∷ rest) = rw e at v in
    record { fits = omega (arith, w.fits); below = w.below.1 }

module _ (world : World) (a : Arrival) (w t : Worker) (m : Message) where
  handled :
      on_message world a (record w { effects = [] }) (some m.socket) m.op ≡ ok t
      → WorkerSafe w
      → WorkerSafe t
  unfolding IsPaired
  handled run v =
      let before = record w { effects = [] } in
      record {
        paired = on_message-IsPaired world a before t (some m.socket) m.op v.paired run;
        owned =
            on_message-IsOwned world sockets a before t (some m.socket) m.op
              (SameStock-IsOwned sockets w before v.owned refl) run;
      }

-- only what the worker has still to do is less
less_to_do : (s : Tasks) (rest : List Effect) → IsSafe s → IsSafe (record s { outbox = rest })
less_to_do s rest v = record {
  server = v.server;
  pending = v.pending;
  requested = v.requested;
  worker = v.worker;
}

Step-IsSafe : (s t : Tasks) → Step s t → IsSafe s → IsSafe t
Step-IsSafe s t (looks queue_ok r idle e) v =
    let n = look-IsNarrow queue_ok s.server r v.server.narrow in
    rw e (record {
      server = record { narrow = n.narrow; small = oldest_first-AllSmall _ [] n.small tt };
      pending = v.pending;
      requested = v.requested;
      worker = v.worker;
    })
Step-IsSafe s t (posts_message m rest head room e) v =
    let p = posted_one s.server s.posts rest (posted m true) head v.server in
    rw e (record {
      server = record { narrow = p.narrow; small = p.small.1 };
      pending = sent s.pending_socks m room p.small.0 v.pending;
      requested = v.requested;
      worker = v.worker;
    })
Step-IsSafe s t (loses_message m rest head full e) v =
    let p = posted_one s.server s.posts rest (posted m false) head v.server in
    rw e (record {
      server = record { narrow = p.narrow; small = p.small.1 };
      pending = v.pending;
      requested = v.requested;
      worker = v.worker;
    })
Step-IsSafe s t (turns_away sock rest head e) v =
    let p = posted_one s.server s.posts rest (refused sock) head v.server in
    rw e (record {
      server = record { narrow = p.narrow; small = p.small.1 };
      pending = v.pending;
      requested = v.requested;
      worker = v.worker;
    })
Step-IsSafe s t (receives m rest idle head e) v = rw e (record {
  server = record {
    narrow = rw (on_operation-max_socket s.server m.socket m.op) v.server.narrow;
    small = v.server.small;
  };
  pending = v.pending;
  requested = omega (arith, ap length head, v.requested);
  worker = v.worker;
})
Step-IsSafe s t (handles world a m rest w idle head run e) v = rw e (record {
  server = v.server;
  pending = taken s.pending_socks rest m head v.pending;
  requested = v.requested;
  worker = handled world a s.worker w m run v.worker;
})
Step-IsSafe s t (requests sock op rest head room e) v =
    let m : Message = record { socket = sock; op = op } in
    rw e (record {
      server = v.server;
      pending = v.pending;
      requested = omega (arith, length-append s.socks_for_fds (m ∷ []));
      worker = v.worker;
    })
Step-IsSafe s t (gives_up sock op rest head full e) v = rw e (less_to_do s rest v)
Step-IsSafe s t (writes sock bytes done rest head e) v = rw e (less_to_do s rest v)
Step-IsSafe s t (closes sock rest head e) v = rw e (less_to_do s rest v)

pub Reach-IsSafe : (s t : Tasks) → IsSafe s → Reach s t → IsSafe t
Reach-IsSafe s _ v here = v
Reach-IsSafe s t v (next {t = u} before step) = Step-IsSafe u t step (Reach-IsSafe s u v before)

-- Whatever the two tasks do, in whatever order their steps come, and however the outside answers:
-- let the server at the start wait for sockets below 64 only, let what it posts and the messages in
-- `pending_socks` be about such sockets, neither queue have more than 50 messages, and the worker have 64
-- connections, each with a client exactly if it has a client identifier, and a client store that
-- holds no client twice and no deleted one. Then all of this holds in every state that they reach; the
-- socket of the message that the worker takes next has its place in the array of connections, and
-- a client that the client store finds has not been deleted.
pub Reach-within :
    (s t : Tasks) (m : Message) (rest : List Message) (key : List ℕ) (c : ℕ)
    → IsSafe s
    → Reach s t
    → t.pending_socks ≡ m ∷ rest
    → Hashmap.get t.worker.client_store key ≡ ok (some c)
    → IsSafe t
      × ((sockst : SockCid) × (cell t.worker.sock_to_clientid m.socket ≡ ok sockst))
      × ((client : Client) × (deref t.worker.clients c ≡ ok client))
Reach-within s t m rest key c v reach head found =
    let safe = Reach-IsSafe s t v reach in
    let queue : PendingSafe (m ∷ rest) = rw head at safe.pending in
    let cs = t.worker.sock_to_clientid in
    let inside : m.socket < length cs = omega (arith, queue.below.0, safe.worker.owned.cells) in
    (
      safe,
      (get_or cs m.socket no_cell, cell-get_or cs m.socket inside),
      IsOwned-deref sockets t.worker key c safe.worker.owned found,
    )
