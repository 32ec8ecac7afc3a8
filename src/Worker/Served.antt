-- ===== src/Worker/Served.antt =====
-- When `publish_by_topic` of main/worker.cpp returns.
use esp32_mqtts_broker.Prelude.{
  ℕ, ◌<◌, ◌≡◌, refl, ◌∙◌, Bool, true, ◌&&◌, Option, some, List, [], ◌∷◌, arith, ◌==◌, ltb,
  if◌then◌else◌, length, length-set,
}
use esp32_mqtts_broker.Run.{ok, ◌>>=◌, Returns, Returns-bind, Returns-if, Returns-option}
use esp32_mqtts_broker.Hashmap.Bucket.{Key}
use esp32_mqtts_broker.Subscription.{empty_qos}
use esp32_mqtts_broker.Publishhashmap.{slot_at}
use esp32_mqtts_broker.Publishhashmap.Probe.{slot_at-get_or}
use esp32_mqtts_broker.Client.{Client, is_subscribed}
use esp32_mqtts_broker.Session.{write, delread}
use esp32_mqtts_broker.Worker.State.{Worker, World, cell, cell-get_or, deref, offer}
use esp32_mqtts_broker.Worker.Fanout.{enqueue, hand_over, notify, is_offline, deliver, deliver_all}

-- a client that the loop can serve: it is passed over, or it is not subscribed, or it has a
-- connection of the array
pub data Servable (topic : Key) (cells : ℕ) (client : Client) : Type 0 where
  passed : (is_offline client && client.clean_session) ≡ true → Servable topic cells client
  uninterested : is_subscribed client topic ≡ ok empty_qos → Servable topic cells client
  connected :
      (qos sock : ℕ)
      → is_subscribed client topic ≡ ok qos
      → client.sock ≡ some sock
      → sock < cells
      → Servable topic cells client

-- all clients that the table points to
unfoldable pub AllServable : Key → ℕ → List (Option Client) → List (Key × ℕ) → Type 0
AllServable topic cells clients [] = Unit
AllServable topic cells clients ((k, c) ∷ rest) =
    ((client : Client) × (deref clients c ≡ ok client) × Servable topic cells client)
    × AllServable topic cells clients rest

-- what a round does not change
pub record Keeps (w t : Worker) : Type 0 where
  pub clients : t.clients ≡ w.clients
  pub cells : length t.sock_to_clientid ≡ length w.sock_to_clientid
  pub slots : length t.publish_msg_store.slots ≡ length w.publish_msg_store.slots

Keeps-refl : (w : Worker) → Keeps w w
Keeps-refl w = record { clients = refl; cells = refl; slots = refl }

module _ (world : World) where
  hand_over-Keeps :
      (w : Worker) (sock id qos n : ℕ) (delete_retain : Bool)
      → sock < length w.sock_to_clientid
      → n < length w.publish_msg_store.slots
      → Returns (hand_over world w sock id qos n delete_retain) (Keeps w)
  unfolding hand_over enqueue
  hand_over-Keeps w sock id qos n delete_retain inside there =
      let enqueued =
        Returns-bind (λ c. Unit) (λ t. Keeps w t × (t.publish_msg_store ≡ w.publish_msg_store))
          (cell w.sock_to_clientid sock) _ (_, cell-get_or w.sock_to_clientid sock inside, tt)
          (λ c any. (
            _,
            refl,
            (
              record { clients = refl; cells = length-set w.sock_to_clientid sock _; slots = refl },
              refl,
            ),
          )) in
      Returns-bind _ (Keeps w) (enqueue world w sock id qos delete_retain) _ enqueued
        (λ t (k, same).
          let still : n < length t.publish_msg_store.slots = omega (arith, k.slots) in
          Returns-bind (λ node. Unit) (Keeps w) (slot_at t.publish_msg_store.slots n) _
            (_, slot_at-get_or t.publish_msg_store.slots n still, tt)
            (λ node any. (
              _,
              refl,
              record {
                clients = k.clients;
                cells = k.cells;
                slots = length-set t.publish_msg_store.slots n _ ∙ k.slots;
              },
            )))

  notify-Keeps :
      (w : Worker) (sock id qos n : ℕ)
      → sock < length w.sock_to_clientid
      → n < length w.publish_msg_store.slots
      → Returns (notify world w sock id qos n) (Keeps w)
  unfolding notify offer
  notify-Keeps w sock id qos n inside there =
      let asked = (offer world w sock delread).1 in
      let t = (offer world asked sock write).1 in
      let (u, run, k) = hand_over-Keeps t sock id qos n true inside there in
      Returns-if (Keeps w) (world.session.queue_ok asked.effects) _ _
        (u, run, record { clients = k.clients; cells = k.cells; slots = k.slots })
        (_, refl, record { clients = refl; cells = refl; slots = refl })

  deliver-Keeps :
      (topic : Key) (qos id n : ℕ) (w : Worker) (c : ℕ) (client : Client)
      → deref w.clients c ≡ ok client
      → Servable topic (length w.sock_to_clientid) client
      → n < length w.publish_msg_store.slots
      → Returns (deliver world topic qos id n w c) (Keeps w)
  unfolding deliver
  deliver-Keeps topic qos id n w c client there (passed away) inside =
      (w, rw (there, ◌>>=◌, away) refl, Keeps-refl w)
  deliver-Keeps topic qos id n w c client there (uninterested unasked) inside =
      Returns-bind (λ d. d ≡ client) (Keeps w) (deref w.clients c) _ (client, there, refl)
        (λ d same.
          Returns-if (Keeps w) (is_offline d && d.clean_session) _ _ (w, refl, Keeps-refl w)
            (Returns-bind (λ q. q ≡ empty_qos) (Keeps w) (is_subscribed d topic) _
              (empty_qos, rw same unasked, refl) (λ q e. (w, rw e refl, Keeps-refl w))))
  deliver-Keeps topic qos id n w c client there (connected asked sock yes_asked online known)
        inside =
      Returns-bind (λ d. d ≡ client) (Keeps w) (deref w.clients c) _ (client, there, refl)
        (λ d same.
          Returns-if (Keeps w) (is_offline d && d.clean_session) _ _ (w, refl, Keeps-refl w)
            (Returns-bind (λ q. Unit) (Keeps w) (is_subscribed d topic) _
              (asked, rw same yes_asked, tt)
              (λ q any.
                Returns-if (Keeps w) (q == empty_qos) _ _ (w, refl, Keeps-refl w)
                  (Returns-option (Keeps w) d.sock _ _ sock (rw same online)
                    (notify-Keeps w sock id (if ltb qos q then qos else q) n known inside)))))

  pub deliver_all-Keeps :
      (topic : Key) (qos id n : ℕ) (w : Worker) (clients : List (Key × ℕ))
      → AllServable topic (length w.sock_to_clientid) w.clients clients
      → n < length w.publish_msg_store.slots
      → Returns (deliver_all world topic qos id n w clients) (Keeps w)
  unfolding deliver_all AllServable
  deliver_all-Keeps topic qos id n w [] all inside = (w, refl, Keeps-refl w)
  deliver_all-Keeps topic qos id n w ((k, c) ∷ clients) ((client, there, servable), all) inside =
      Returns-bind (Keeps w) (Keeps w) (deliver world topic qos id n w c) _
        (deliver-Keeps topic qos id n w c client there servable inside)
        (λ t k.
          let (u, run, l) =
            deliver_all-Keeps topic qos id n t clients (rw (k.cells, k.clients) all)
              (omega (arith, k.slots)) in
          (
            u,
            run,
            record {
              clients = l.clients ∙ k.clients;
              cells = l.cells ∙ k.cells;
              slots = l.slots ∙ k.slots;
            },
          ))
