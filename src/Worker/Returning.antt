-- ===== src/Worker/Returning.antt =====
-- What main/worker.cpp does with a client that was known, has no socket, and connects again.
use esp32_mqtts_broker.Prelude.{
  ℕ, zero, suc, ◌<◌, ◌≡◌, refl, ap, ◌∙◌, Bool, true, false, Option, none, some, List, [], ◌∷◌,
  arith, set, length, ◌==◌, if◌then◌else◌, Bool-cases, inl, inr,
}
use esp32_mqtts_broker.Run.{ok, fault, out_of_range, ◌>>=◌, Returns}
use esp32_mqtts_broker.Hashmap
use esp32_mqtts_broker.Hashmap.Bucket.{Key}
use esp32_mqtts_broker.Subscription.{empty_qos, is_subed_to}
use esp32_mqtts_broker.Connect.{ConnReturn, Will, connack}
use esp32_mqtts_broker.Client.{Client, is_subscribed, tree_fuel}
use esp32_mqtts_broker.Session.{read, write}
use esp32_mqtts_broker.Worker.State.{
  Worker, World, SockCid, cell, deref, offer, write_conn, with_cell, with_client,
}
use esp32_mqtts_broker.Worker.Fanout.{deliver}
use esp32_mqtts_broker.Worker.Login.{enter, resume, welcome, is_clean, stored_will}

pub cell-set :
    (cs : List SockCid) (sock : ℕ) (sockst : SockCid)
    → sock < length cs
    → cell (set cs sock sockst) sock ≡ ok sockst
unfolding cell
cell-set [] sock sockst h = absurd (omega arith)
cell-set (c ∷ cs) zero sockst h = refl
cell-set (c ∷ cs) (suc sock) sockst h = cell-set cs sock sockst (omega arith)

pub cell-set_ne :
    (cs : List SockCid) (sock other : ℕ) (sockst : SockCid)
    → (sock == other) ≡ false
    → cell (set cs sock sockst) other ≡ cell cs other
unfolding cell
cell-set_ne [] sock other sockst h = refl
cell-set_ne (c ∷ cs) zero zero sockst h = absurd (ground arith)
cell-set_ne (c ∷ cs) zero (suc other) sockst h = refl
cell-set_ne (c ∷ cs) (suc sock) zero sockst h = refl
cell-set_ne (c ∷ cs) (suc sock) (suc other) sockst h =
    cell-set_ne cs sock other sockst (ground arith)

pub deref-set :
    (cs : List (Option Client)) (c : ℕ) (client now : Client)
    → deref cs c ≡ ok client
    → deref (set cs c (some now)) c ≡ ok now
unfolding deref
deref-set [] c client now h = cc
deref-set (none ∷ cs) zero client now h = refl
deref-set (some x ∷ cs) zero client now h = refl
deref-set (none ∷ cs) (suc c) client now h = deref-set cs c client now h
deref-set (some x ∷ cs) (suc c) client now h = deref-set cs c client now h

-- what the answer to a CONNECT leaves of the client
pub record Answered (ret : ConnReturn) (client now : Client) : Type 0 where
  pub same_sock : now.sock ≡ client.sock
  pub cleanness : now.clean_session ≡ is_clean ret
  pub same_tree : now.m_subscriptions ≡ client.m_subscriptions

-- a worker `t` in which the client `c`, without a socket, has connected again on `sock`
pub record Resumed (w : Worker) (sock c : ℕ) (named : SockCid) (ret : ConnReturn) (client : Client)
    (t : Worker) : Type 0 where
  pub connected :
      t.sock_to_clientid ≡ set w.sock_to_clientid sock (record named { client = some c })
  pub same_store : t.client_store ≡ w.client_store
  pub now : Client
  pub there : deref t.clients c ≡ ok now
  pub answered : Answered ret client now

module _ (world : World) where
  welcome-Answered :
      (w : Worker) (sock c : ℕ) (sockst : SockCid) (ret : ConnReturn) (will : Will)
      (client : Client)
      → cell w.sock_to_clientid sock ≡ ok sockst
      → sockst.client ≡ some c
      → deref w.clients c ≡ ok client
      → Returns (welcome world w sock ret will) λ t.
        (t.sock_to_clientid ≡ w.sock_to_clientid)
        × (t.client_store ≡ w.client_store)
        × ((now : Client) × (deref t.clients c ≡ ok now) × Answered ret client now)
  unfolding welcome offer write_conn
  welcome-Answered w sock c sockst ret will client here logged there =
      let now = record client {
        clean_session = is_clean ret;
        will =
            stored_will (world.will_topic_ok w.effects) (world.will_msg_ok w.effects) client.will
              will;
        has_qued_msgs = false;
      } in
      let t = write_conn world (with_client w c now) sock (connack 0 true) in
      (
        (offer world t sock (if client.has_qued_msgs then write else read)).1,
        rw (here, ◌>>=◌, logged, there, ◌>>=◌) refl,
        (
          refl,
          refl,
          (
            now,
            deref-set w.clients c client now there,
            record { same_sock = refl; cleanness = refl; same_tree = refl },
          ),
        ),
      )

  -- a message for a client without a socket
  deliver-away :
      (w : Worker) (topic : Key) (qos packet_id n c asked : ℕ) (client : Client)
      → deref w.clients c ≡ ok client
      → client.sock ≡ none
      → is_subscribed client topic ≡ ok asked
      → (asked == empty_qos) ≡ false
      → deliver world topic qos packet_id n w c
        ≡ (if client.clean_session then ok w else fault out_of_range)
  unfolding deliver
  deliver-away w topic qos packet_id n c asked client there away subscribed some_qos =
      elim (Bool-cases client.clean_session) [
        | inl clean ↦ rw (there, ◌>>=◌, subscribed, away, clean) refl
        | inr kept ↦ rw (there, ◌>>=◌, subscribed, ◌>>=◌, some_qos, away, kept) refl
      ]

  pub enter-Resumed :
      (w : Worker) (sock c : ℕ) (named : SockCid) (ret : ConnReturn) (will : Will) (client : Client)
      → sock < length w.sock_to_clientid
      → Hashmap.get w.client_store named.clientid ≡ ok (some c)
      → deref w.clients c ≡ ok client
      → client.sock ≡ none
      → Returns (enter world w sock named ret will) (Resumed w sock c named ret client)
  unfolding enter resume
  enter-Resumed w sock c named ret will client inside known there away =
      let entered = record named { client = some c } in
      let u = with_cell w sock entered in
      let logged = cell-set w.sock_to_clientid sock entered inside in
      let (t, run, (cells, store, (now, now_there, a))) =
        welcome-Answered u sock c entered ret will client logged refl there in
      (
        t,
        rw (known, ◌>>=◌, there, ◌>>=◌, away, ◌>>=◌) run,
        record {
          connected = cells;
          same_store = store;
          now = now;
          there = now_there;
          answered = a;
        },
      )

  -- A client of the store that has no socket, and is subscribed to a topic, connects again on
  -- `sock`. The handler returns and the connection refers to the client; but the client still has
  -- no socket: of a message to the topic nothing is sent to it if it asked for a clean session, and
  -- otherwise the worker reads the cell of socket -1.
  pub enter-Unreachable :
      (w : Worker) (sock c : ℕ) (named : SockCid) (ret : ConnReturn) (will : Will) (client : Client)
      (topic : Key) (qos packet_id n asked : ℕ)
      → sock < length w.sock_to_clientid
      → Hashmap.get w.client_store named.clientid ≡ ok (some c)
      → deref w.clients c ≡ ok client
      → client.sock ≡ none
      → is_subscribed client topic ≡ ok asked
      → (asked == empty_qos) ≡ false
      → Returns (enter world w sock named ret will) λ t.
        (cell t.sock_to_clientid sock ≡ ok (record named { client = some c }))
        × (deliver world topic qos packet_id n t c
            ≡ (if is_clean ret then ok t else fault out_of_range))
  unfolding is_subscribed
  enter-Unreachable w sock c named ret will client topic qos packet_id n asked inside known there
        away subscribed some_qos =
      let (t, run, r) = enter-Resumed w sock c named ret will client inside known there away in
      (
        t,
        run,
        (
          ap (λ cs. cell cs sock) r.connected
              ∙ cell-set w.sock_to_clientid sock (record named { client = some c }) inside,
          deliver-away t topic qos packet_id n c asked r.now r.there (r.answered.same_sock ∙ away)
                (ap (λ tree. is_subed_to tree_fuel tree topic 0) r.answered.same_tree ∙ subscribed)
                some_qos
              ∙ ap (λ (clean : Bool). if clean then ok t else fault out_of_range)
                  r.answered.cleanness,
        ),
      )
