-- ===== src/Tasks/Offered.antt =====
-- What becomes of a connection that can be read: the server of main/main.cpp tells the worker of
-- main/worker.cpp.
use esp32_mqtts_broker.Prelude.{
  ℕ, ◌+◌, ◌≤◌, ◌≡◌, refl, ◌∙◌, true, false, ◌&&◌, List, [], ◌∷◌, ◌++◌, arith, length, length-append,
  leb, ◌==◌,
}
use esp32_mqtts_broker.Hashmap.Holders.{one_if}
use esp32_mqtts_broker.Session.{Effect}
use esp32_mqtts_broker.Server.{Message, Posted, posted, refused, Server, Round}
use esp32_mqtts_broker.Server.Interest.{round-readfds, last_says}
use esp32_mqtts_broker.Worker.State.{Worker}
use esp32_mqtts_broker.Tasks.{
  Tasks, looks, posts_message, turns_away, Reach, here, next, queue_length, oldest_first,
  send_to_back, look,
}
use esp32_mqtts_broker.Tasks.Delivery.{Reach-trans, idle}
use esp32_mqtts_broker.Tasks.Noticed.{always, is_read, told, AllOffered, look-Tells}

-- how many messages of the queue say that a socket can be read
unfoldable pub reads_in : ℕ → List Message → ℕ
reads_in sock [] = 0
reads_in sock (m ∷ ms) = one_if (m.socket == sock && is_read m.op) + reads_in sock ms

reads_in-append :
    (sock : ℕ) (ms : List Message) (m : Message)
    → reads_in sock (ms ++ m ∷ []) ≡ reads_in sock ms + one_if (m.socket == sock && is_read m.op)
unfolding reads_in
reads_in-append sock [] m = omega arith
reads_in-append sock (x ∷ ms) m = omega (arith, reads_in-append sock ms m)

-- the order in which the messages are offered
record Turned (sock : ℕ) (ps done qs : List Posted) : Type 0 where
  counted : told sock qs ≡ told sock ps + told sock done
  offered : AllOffered ps → AllOffered done → AllOffered qs
  long : length qs ≡ length ps + length done

oldest_first-Turned :
    (sock : ℕ) (ps done : List Posted) → Turned sock ps done (oldest_first ps done)
unfolding oldest_first told
oldest_first-Turned sock [] done = record {
  counted = omega arith;
  offered = λ all rest. rest;
  long = omega arith;
}
oldest_first-Turned sock (posted m taken ∷ ps) done =
    let t = oldest_first-Turned sock ps (posted m taken ∷ done) in
    record {
      counted = omega (arith, t.counted);
      offered = λ all rest. t.offered all.1 (all.0, rest);
      long = omega (arith, t.long);
    }
oldest_first-Turned sock (refused other ∷ ps) done =
    let t = oldest_first-Turned sock ps (refused other ∷ done) in
    record {
      counted = omega (arith, t.counted);
      offered = λ all rest. t.offered all rest;
      long = omega (arith, t.long);
    }

module _ (server : Server) (w : Worker) (fds : List Message) (outbox : List Effect) (sock : ℕ) where
  abbrev posting : List Message → List Posted → Tasks
  posting queue ps = record (idle server w queue fds outbox) { posts = ps }

  -- the messages of a round are put into the queue
  offers :
      (queue : List Message) (ps : List Posted)
      → AllOffered ps
      → length queue + length ps ≤ queue_length
      → (q : List Message) × Reach (posting queue ps) (posting q [])
        × (reads_in sock q ≡ reads_in sock queue + told sock ps)
  unfolding told
  offers queue [] all room = (queue, here, omega arith)
  offers queue (posted m true ∷ ps) (granted, all) room =
      let more = send_to_back queue m in
      let (q, reach, counted) = offers more ps all (omega (arith, length-append queue (m ∷ []))) in
      (
        q,
        Reach-trans _ (posting more ps) _ (next here (posts_message m ps refl (omega arith) refl))
            reach,
        omega (arith, counted, reads_in-append sock queue m),
      )
  offers queue (posted m false ∷ ps) (given, all) room = cc given
  offers queue (refused other ∷ ps) all room =
      let (q, reach, counted) = offers queue ps all (omega arith) in
      (
        q,
        Reach-trans _ (posting queue ps) _ (next here (turns_away other ps refl refl)) reach,
        counted,
      )

-- An event on a connection reaches the worker. The server is between two rounds and watches a socket that
-- it knows and that is not the one that listens, and in the next round this socket can be read, whatever
-- happens on the others; `pending_socks` has room for all messages of the round. Then there are
-- steps after which the round is over, `pending_socks` has exactly one message more that says that
-- the socket can be read, and the server does not watch the socket any longer.
pub readable-Reach :
    (server : Server) (w : Worker) (pending fds : List Message) (outbox : List Effect) (r : Round)
    (sock : ℕ)
    → server.master_readfds sock ≡ true
    → r.readable sock ≡ true
    → (sock == server.listen_sock) ≡ false
    → leb sock server.max_socket ≡ true
    → let t = look always server r in
      length pending + length t.pending ≤ queue_length
      → (q : List Message) × Reach (idle server w pending fds outbox) (idle t w q fds outbox)
        × (reads_in sock q ≡ reads_in sock pending + 1)
        × (t.master_readfds sock ≡ false)
unfolding told last_says
readable-Reach server w pending fds outbox r sock watched ready connection known room =
    let t = look always server r in
    let tells = look-Tells server r sock watched ready connection known in
    let turned = oldest_first-Turned sock t.pending [] in
    let ps = oldest_first t.pending [] in
    let (q, reach, counted) =
      offers t w fds outbox sock pending ps (turned.offered (tells.offered tt) tt)
        (omega (arith, turned.long)) in
    (
      q,
      Reach-trans _ (record (idle t w pending fds outbox) { posts = ps }) _
          (next here (looks always r refl refl)) reach,
      omega (arith, counted, turned.counted, tells.counted),
      round-readfds always (record server { pending = [] }) (record r { requests = [] }) sock known
          ∙ rw (watched, ready, connection) refl,
    )
