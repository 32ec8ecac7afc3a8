-- ===== src/Tasks.antt =====
-- main/main.cpp and main/worker.cpp together: the task of the server and the task of the worker, with
-- the two queues between them. A round of the server and the handling of a message by the worker are
-- computed at once, and what they do to the outside is then done step by step, so that the steps of
-- the two tasks come in any order; the tasks share nothing but the queues.
pub mod Bounded
pub mod Safe
pub mod Start
pub mod Delivery
pub mod Noticed
pub mod Offered
use esp32_mqtts_broker.Prelude.{ℕ, ◌<◌, ◌≡◌, Bool, true, false, some, List, [], ◌∷◌, ◌++◌, length}
use esp32_mqtts_broker.Run.{ok}
use esp32_mqtts_broker.Session.{Effect, Operation, queued, written, closed}
use esp32_mqtts_broker.Server.{
  Message, Posted, posted, refused, Server, Round, round, on_operation, new_server,
}
use esp32_mqtts_broker.Worker.{Arrival, on_message}
use esp32_mqtts_broker.Worker.State.{Worker, World, new_worker}

-- `xQueueCreate(50, sizeof(message))`
abbrev pub queue_length : ℕ
queue_length = 50

-- the two tasks, the two queues, oldest message first, and what each task still has to do, oldest
-- first
pub record Tasks : Type 0 where
  pub server : Server
  pub worker : Worker
  pub pending_socks : List Message
  pub socks_for_fds : List Message
  pub posts : List Posted
  pub outbox : List Effect

-- a list that was made newest first
unfoldable pub oldest_first : {A : Type 0} → List A → List A → List A
oldest_first [] done = done
oldest_first (x ∷ xs) done = oldest_first xs (x ∷ done)

-- `xQueueSendToBack`
abbrev pub send_to_back : List Message → Message → List Message
send_to_back queue m = queue ++ m ∷ []

-- the part of a round before the requests of the worker are received, from an empty record of what
-- was posted
abbrev pub look : (List Posted → Bool) → Server → Round → Server
look queue_ok s r = round queue_ok (record s { pending = [] }) (record r { requests = [] })

-- One step of one of the tasks. The answers of a queue that a task went on with are those that the
-- queue gives when the message is offered: a message is refused only if the queue is full.
-- The server may look at the sockets while requests wait, since these can have come after it has
-- found `socks_for_fds` empty.
pub data Step (s t : Tasks) : Type 0 where
  looks :
      (queue_ok : List Posted → Bool) (r : Round)
      → s.posts ≡ []
      → t ≡ (
          let server = look queue_ok s.server r in
          record s { server = server; posts = oldest_first server.pending [] })
      → Step s t
  posts_message :
      (m : Message) (rest : List Posted)
      → s.posts ≡ posted m true ∷ rest
      → length s.pending_socks < queue_length
      → t ≡ record s { posts = rest; pending_socks = send_to_back s.pending_socks m }
      → Step s t
  loses_message :
      (m : Message) (rest : List Posted)
      → s.posts ≡ posted m false ∷ rest
      → length s.pending_socks ≡ queue_length
      → t ≡ record s { posts = rest }
      → Step s t
  turns_away :
      (sock : ℕ) (rest : List Posted)
      → s.posts ≡ refused sock ∷ rest
      → t ≡ record s { posts = rest }
      → Step s t
  receives :
      (m : Message) (rest : List Message)
      → s.posts ≡ []
      → s.socks_for_fds ≡ m ∷ rest
      → t ≡ record s { server = on_operation s.server m.socket m.op; socks_for_fds = rest }
      → Step s t
  handles :
      (world : World) (a : Arrival) (m : Message) (rest : List Message) (w : Worker)
      → s.outbox ≡ []
      → s.pending_socks ≡ m ∷ rest
      → on_message world a (record s.worker { effects = [] }) (some m.socket) m.op ≡ ok w
      → t ≡ record s { worker = w; pending_socks = rest; outbox = oldest_first w.effects [] }
      → Step s t
  requests :
      (sock : ℕ) (op : Operation) (rest : List Effect)
      → s.outbox ≡ queued sock op true ∷ rest
      → length s.socks_for_fds < queue_length
      → t ≡ (
          let m : Message = record { socket = sock; op = op } in
          record s { outbox = rest; socks_for_fds = send_to_back s.socks_for_fds m })
      → Step s t
  gives_up :
      (sock : ℕ) (op : Operation) (rest : List Effect)
      → s.outbox ≡ queued sock op false ∷ rest
      → length s.socks_for_fds ≡ queue_length
      → t ≡ record s { outbox = rest }
      → Step s t
  writes :
      (sock : ℕ) (bytes : List ℕ) (done : Bool) (rest : List Effect)
      → s.outbox ≡ written sock bytes done ∷ rest
      → t ≡ record s { outbox = rest }
      → Step s t
  closes :
      (sock : ℕ) (rest : List Effect)
      → s.outbox ≡ closed sock ∷ rest
      → t ≡ record s { outbox = rest }
      → Step s t

pub data Reach (s : Tasks) : Tasks → Type 0 where
  here : Reach s s
  next : {t u : Tasks} → Reach s t → Step t u → Reach s u

-- the two tasks before their first round, with the socket that listens and the answers of the
-- allocator to the three tables of the worker
abbrev pub start : ℕ → Bool → Bool → Bool → Tasks
start listen_sock clients_ok messages_ok retained_ok = record {
  server = new_server listen_sock;
  worker = new_worker clients_ok messages_ok retained_ok;
  pending_socks = [];
  socks_for_fds = [];
  posts = [];
  outbox = [];
}
