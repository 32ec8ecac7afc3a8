-- ===== src/Tasks/Delivery.antt =====
-- What becomes of the requests of the worker of main/worker.cpp: the server of main/main.cpp receives
-- them, and watches the sockets that they name.
use esp32_mqtts_broker.Prelude.{
  ℕ, ◌<◌, ◌≡◌, refl, ◌∙◌, true, false, some, List, [], ◌∷◌, arith, length, ◌==◌,
}
use esp32_mqtts_broker.Run.{ok}
use esp32_mqtts_broker.Session.{read, Effect, queued, written, closed}
use esp32_mqtts_broker.Server.{Message, Server, on_operation, drain}
use esp32_mqtts_broker.Worker.{Arrival, on_message, dispatch, on_pingreq, kind_of}
use esp32_mqtts_broker.Worker.State.{Worker, World, SockCid, mqtt, cell, offer, write_conn}
use esp32_mqtts_broker.Frame.Length.{encode_length}
use esp32_mqtts_broker.Worker.Routed.{on_message-routes}
use esp32_mqtts_broker.Tasks.{
  Tasks, receives, handles, requests, writes, closes, Reach, here, next, oldest_first,
}

pub Reach-trans : (s t u : Tasks) → Reach s t → Reach t u → Reach s u
Reach-trans s t _ first here = first
Reach-trans s t u first (next {t = v} more last) = next (Reach-trans s t v first more) last

-- the server is between two rounds and has nothing to post
abbrev pub idle : Server → Worker → List Message → List Message → List Effect → Tasks
idle server worker pending_socks socks_for_fds outbox = record {
  server = server;
  worker = worker;
  pending_socks = pending_socks;
  socks_for_fds = socks_for_fds;
  posts = [];
  outbox = outbox;
}

-- the messages that a list of effects, oldest first, offers to `socks_for_fds`
unfoldable pub requests_of : List Effect → List Message
requests_of [] = []
requests_of (queued sock op taken ∷ es) = record { socket = sock; op = op } ∷ requests_of es
requests_of (written sock bytes done ∷ es) = requests_of es
requests_of (closed sock ∷ es) = requests_of es

-- the queue takes each of them
abbrev pub AllTaken : List Effect → Type 0
AllTaken [] = Unit
AllTaken (queued sock op taken ∷ es) = (taken ≡ true) × AllTaken es
AllTaken (written sock bytes done ∷ es) = AllTaken es
AllTaken (closed sock ∷ es) = AllTaken es

module _ (w : Worker) (pending : List Message) where
  -- the server receives what is in the queue
  drains :
      (server : Server) (queue : List Message) (outbox : List Effect)
      → Reach (idle server w pending queue outbox) (idle (drain server queue) w pending [] outbox)
  unfolding drain
  drains server [] outbox = here
  drains server (m ∷ queue) outbox =
      let heard = on_operation server m.socket m.op in
      Reach-trans _ (idle heard w pending queue outbox) _
        (next here (receives m queue refl refl refl)) (drains heard queue outbox)

  -- the server receives each request as soon as the worker makes it
  delivers :
      (server : Server) (outbox : List Effect)
      → AllTaken outbox
      → Reach
          (idle server w pending [] outbox)
          (idle (drain server (requests_of outbox)) w pending [] [])
  unfolding drain requests_of
  delivers server [] taken = here
  delivers server (queued sock op true ∷ es) (granted, taken) =
      let m : Message = record { socket = sock; op = op } in
      let heard = on_operation server sock op in
      let sent : Reach (idle server w pending [] (queued sock op true ∷ es))
          (idle server w pending (m ∷ []) es) =
        next here (requests sock op es refl (omega arith) refl) in
      Reach-trans _ (idle heard w pending [] es) _ (next sent (receives m [] refl refl refl))
        (delivers heard es taken)
  delivers server (queued sock op false ∷ es) (given, taken) = cc given
  delivers server (written sock bytes done ∷ es) taken =
      Reach-trans _ (idle server w pending [] es) _
        (next here (writes sock bytes done es refl refl)) (delivers server es taken)
  delivers server (closed sock ∷ es) taken =
      Reach-trans _ (idle server w pending [] es) _ (next here (closes sock es refl refl))
        (delivers server es taken)

-- The worker has nothing left to do, and the server is between two rounds. If the handling of the oldest
-- message returns, and the queue takes the requests that it makes, then there are steps of the two
-- tasks after which the server has received the requests that were waiting and then the new ones,
-- in their order, as one `drain` would, and both have nothing left to do.
pub handled-Reach :
    (world : World) (a : Arrival) (server : Server) (w t : Worker) (m : Message)
    (pending fds : List Message)
    → on_message world a (record w { effects = [] }) (some m.socket) m.op ≡ ok t
    → let outbox = oldest_first t.effects [] in
      AllTaken outbox
      → Reach
          (idle server w (m ∷ pending) fds [])
          (idle (drain (drain server fds) (requests_of outbox)) t pending [] [])
handled-Reach world a server w t m pending fds run taken =
    let outbox = oldest_first t.effects [] in
    Reach-trans _ (idle server t pending fds outbox) _
      (next here (handles world a m pending t refl refl run refl))
      (Reach-trans _ (idle (drain server fds) t pending [] outbox) _
        (drains t pending server fds outbox) (delivers t pending (drain server fds) outbox taken))

-- The life of a connection between two packets. The worker has nothing left to do, the server is between
-- two rounds, and the oldest message says that a socket can be read; its connection has finished the
-- handshake and has a client identifier, what it gives begins with a PINGREQ, `buf` is not empty,
-- and the queue takes one more request. Then there are steps of the two tasks after which a PINGRESP has been offered to the
-- connection, nothing else of the worker has changed, and the server watches the socket again, having
-- received all the requests that were waiting.
pub ping-Reach :
    (world : World) (a : Arrival) (server : Server) (w : Worker) (sock : ℕ) (sockst : SockCid)
    (more : List ℕ) (pending fds : List Message)
    → cell w.sock_to_clientid sock ≡ ok sockst
    → sockst.phs ≡ mqtt
    → 0 < length sockst.clientid
    → 0 < length a.buf
    → a.stream ≡ 0xc0 ∷ 0 ∷ more
    → world.session.queue_ok (written sock (0xd0 ∷ 0 ∷ []) (world.session.write_ok []) ∷ []) ≡ true
    → let t = on_operation (drain server fds) sock read in
      Reach (idle server w (record { socket = sock; op = read } ∷ pending) fds []) (
        idle t
          (record w {
            effects =
                queued sock read true
                ∷ written sock (0xd0 ∷ 0 ∷ []) (world.session.write_ok [])
                ∷ [];
          })
          pending
          []
          [])
      × (t.master_readfds sock ≡ true)
unfolding dispatch on_pingreq offer write_conn kind_of oldest_first drain requests_of on_operation
    encode_length
ping-Reach world a server w sock sockst more pending fds there shaken named room stream taken =
    let fresh = record w { effects = [] } in
    let known : (length sockst.clientid == 0) ≡ false = ground arith in
    let same : (sock == sock) ≡ true = ground arith in
    let routed =
      on_message-routes world a fresh sock sockst there shaken known 0 0xc0 [] more room
        (omega arith) refl stream in
    let run : on_message world a fresh (some sock) read
        ≡ ok (record w {
          effects =
              queued sock read true ∷ written sock (0xd0 ∷ 0 ∷ []) (world.session.write_ok []) ∷ [];
        }) =
      routed ∙ rw taken refl in
    (
      handled-Reach world a server w _ (record { socket = sock; op = read }) pending fds run
          (refl, tt),
      rw same refl,
    )
