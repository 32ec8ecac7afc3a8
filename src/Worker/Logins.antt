-- ===== src/Worker/Logins.antt =====
-- Who is logged in on which connection, and the parts of main/worker.cpp that do not change it.
use esp32_mqtts_broker.Prelude.{
  ℕ, zero, suc, ◌≡◌, refl, ap, ◌∙◌, Bool, true, false, Option, none, some, List, [], ◌∷◌, ◌&&◌,
  ◌==◌, ltb, set, if◌then◌else◌,
}
use esp32_mqtts_broker.Run.{
  ok, Yields, Yields-bind, Yields-then, Yields-option, Yields-if, Yields-map,
}
use esp32_mqtts_broker.Hashmap.{Hashmap}
use esp32_mqtts_broker.Hashmap.Bucket.{Key}
use esp32_mqtts_broker.Hashmap.Lookup.{entries}
use esp32_mqtts_broker.Subscription.{empty_qos}
use esp32_mqtts_broker.Publishhashmap
use esp32_mqtts_broker.Publishhashmap.{Publishhashmap, slot_at}
use esp32_mqtts_broker.Client.{Client, is_subscribed}
use esp32_mqtts_broker.Session.{write, delread}
use esp32_mqtts_broker.Worker.State.{Worker, World, SockCid, Phase, cell, deref, offer}
use esp32_mqtts_broker.Worker.Fanout.{
  enqueue, hand_over, notify, is_offline, deliver, deliver_all, let_go, publish_by_topic,
}

-- who is logged in on a connection
abbrev pub login : SockCid → Option ℕ × List ℕ × Phase
login sockst = (sockst.client, sockst.clientid, sockst.phs)

abbrev pub logins : List SockCid → List (Option ℕ × List ℕ × Phase)
logins [] = []
logins (c ∷ cs) = login c ∷ logins cs

abbrev pub SameLogins : Worker → Worker → Type 0
SameLogins w t = logins t.sock_to_clientid ≡ logins w.sock_to_clientid

-- which clients are not deleted
abbrev pub is_live : Option Client → Bool
is_live none = false
is_live (some client) = true

abbrev pub lives : List (Option Client) → List Bool
lives [] = []
lives (client ∷ cs) = is_live client ∷ lives cs

-- who is logged in, and which clients there are
pub record Core : Type 0 where
  pub logged : List (Option ℕ × List ℕ × Phase)
  pub stored : Hashmap ℕ
  pub living : List Bool

-- what only `drop_conn` and CONNECT change
abbrev pub core : Worker → Core
core w = record {
  logged = logins w.sock_to_clientid;
  stored = w.client_store;
  living = lives w.clients;
}

abbrev pub Same : Worker → Worker → Type 0
Same w t = core t ≡ core w

pub Same-SameLogins : (w t : Worker) → Same w t → SameLogins w t
Same-SameLogins w t same = ap (λ (c : Core). c.logged) same

pub Same-cells :
    (w : Worker) (cs : List SockCid)
    → logins cs ≡ logins w.sock_to_clientid
    → Same w (record w { sock_to_clientid = cs })
Same-cells w cs e = ap (λ l. record (core w) { logged = l }) e

pub Same-clients :
    (w : Worker) (cs : List (Option Client))
    → lives cs ≡ lives w.clients
    → Same w (record w { clients = cs })
Same-clients w cs e = ap (λ l. record (core w) { living = l }) e

-- a client that is there is changed
pub deref-kept :
    (cs : List (Option Client)) (c : ℕ)
    → Yields (deref cs c) λ client. (now : Client) → lives (set cs c (some now)) ≡ lives cs
unfolding deref
deref-kept [] c = tt
deref-kept (none ∷ cs) zero = tt
deref-kept (some client ∷ cs) zero = λ now. refl
deref-kept (none ∷ cs) (suc c) =
    Yields-map _ _ (deref cs c) (deref-kept cs c)
      (λ client kept now. ap (λ l. false ∷ l) (kept now))
deref-kept (some x ∷ cs) (suc c) =
    Yields-map _ _ (deref cs c) (deref-kept cs c) (λ client kept now. ap (λ l. true ∷ l) (kept now))

pub logins-set :
    (cs : List SockCid) (sock : ℕ) (sockst : SockCid)
    → logins (set cs sock sockst) ≡ set (logins cs) sock (login sockst)
logins-set [] sock sockst = refl
logins-set (c ∷ cs) zero sockst = refl
logins-set (c ∷ cs) (suc sock) sockst = ap (λ l. login c ∷ l) (logins-set cs sock sockst)

-- a cell is read, and gets other items
pub cell-kept :
    (cs : List SockCid) (sock : ℕ)
    → Yields (cell cs sock) λ sockst.
      (other : SockCid) → login other ≡ login sockst → logins (set cs sock other) ≡ logins cs
unfolding cell
cell-kept [] sock = tt
cell-kept (c ∷ cs) zero = λ other e. ap (λ l. l ∷ logins cs) e
cell-kept (c ∷ cs) (suc sock) =
    Yields-map _ _ (cell cs sock) (cell-kept cs sock)
      (λ sockst kept other e. ap (λ l. login c ∷ l) (kept other e))

module _ (world : World) where
  enqueue-Same :
      (w : Worker) (sock packet_id qos : ℕ) (delete_retain : Bool)
      → Yields (enqueue world w sock packet_id qos delete_retain) (Same w)
  unfolding enqueue
  enqueue-Same w sock packet_id qos delete_retain =
      Yields-bind _ _ (cell w.sock_to_clientid sock) _ (cell-kept w.sock_to_clientid sock)
        (λ sockst kept. Same-cells w _ (kept _ refl))

  pub hand_over-Same :
      (w : Worker) (sock packet_id qos n : ℕ) (delete_retain : Bool)
      → Yields (hand_over world w sock packet_id qos n delete_retain) (Same w)
  unfolding hand_over
  hand_over-Same w sock packet_id qos n delete_retain =
      Yields-bind (Same w) _ (enqueue world w sock packet_id qos delete_retain) _
        (enqueue-Same w sock packet_id qos delete_retain)
        (λ t same. Yields-then _ (slot_at t.publish_msg_store.slots n) _ (λ node. same))

  notify-Same :
      (w : Worker) (sock packet_id qos n : ℕ)
      → Yields (notify world w sock packet_id qos n) (Same w)
  unfolding notify offer
  notify-Same w sock packet_id qos n =
      let t = (offer world (offer world w sock delread).1 sock write).1 in
      Yields-if (Same w) (world.session.queue_ok (offer world w sock delread).1.effects) _ _
        (hand_over-Same t sock packet_id qos n true) refl

  deliver-Same :
      (topic : Key) (qos packet_id n : ℕ) (w : Worker) (c : ℕ)
      → Yields (deliver world topic qos packet_id n w c) (Same w)
  unfolding deliver
  deliver-Same topic qos packet_id n w c = Yields-then (Same w) (deref w.clients c) _ (λ client.
      Yields-if (Same w) (is_offline client && client.clean_session) _ _ refl (
        Yields-then (Same w) (is_subscribed client topic) _ (λ client_qos.
          Yields-if (Same w) (client_qos == empty_qos) _ _ refl (
            Yields-option (Same w) client.sock _ _ tt (λ sock.
              notify-Same w sock packet_id (if ltb qos client_qos then qos else client_qos) n)))))

  deliver_all-Same :
      (topic : Key) (qos packet_id n : ℕ) (w : Worker) (clients : List (Key × ℕ))
      → Yields (deliver_all world topic qos packet_id n w clients) (Same w)
  unfolding deliver_all
  deliver_all-Same topic qos packet_id n w [] = refl
  deliver_all-Same topic qos packet_id n w ((id, c) ∷ clients) =
      Yields-bind (Same w) _ (deliver world topic qos packet_id n w c) _
        (deliver-Same topic qos packet_id n w c)
        (λ t same.
          Yields-map (Same t) (Same w) (deliver_all world topic qos packet_id n t clients)
            (deliver_all-Same topic qos packet_id n t clients) (λ u again. again ∙ same))

  pub publish_by_topic-Same :
      (w : Worker) (topic : Key) (content : List ℕ) (qos packet_id : ℕ)
      → Yields (publish_by_topic world w topic content qos packet_id) (Same w)
  unfolding publish_by_topic
  publish_by_topic-Same w topic content qos packet_id =
      let env = world.session in
      let clients = entries w.client_store in
      let adding =
        Publishhashmap.add (env.table_ok w.effects) (env.copy_ok w.effects) w.publish_msg_store
          packet_id content qos 1 in
      let added = λ (store : Publishhashmap). record w { publish_msg_store = store } in
      Yields-then (Same w) adding _ (λ r.
        Yields-then (Same w) (Publishhashmap.get r.1 packet_id) _ (λ found.
          Yields-option (Same w) found (ok (added r.1)) _ refl (λ n.
            Yields-bind (Same w) _ (deliver_all world topic qos packet_id n (added r.1) clients) _
              (deliver_all-Same topic qos packet_id n (added r.1) clients)
              (λ u same.
                Yields-then (Same w) (let_go u.publish_msg_store packet_id n) _ (λ store. same)))))
