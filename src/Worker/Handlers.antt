-- ===== src/Worker/Handlers.antt =====
-- The handlers of PUBLISH, SUBSCRIBE and UNSUBSCRIBE in main/worker.cpp do not change who is logged in.
use esp32_mqtts_broker.Prelude.{ℕ, zero, suc, ◌+◌, refl, ◌∙◌, false, ◌==◌, ltb, List, if◌then◌else◌}
use esp32_mqtts_broker.Run.{Yields, Yields-bind, Yields-then, Yields-option, Yields-if, Yields-map}
use esp32_mqtts_broker.Hashmap
use esp32_mqtts_broker.Hashmap.Bucket.{Key}
use esp32_mqtts_broker.Publishhashmap
use esp32_mqtts_broker.Publishhashmap.{slot_at}
use esp32_mqtts_broker.Connect.{byte, word, bytes}
use esp32_mqtts_broker.Client
use esp32_mqtts_broker.Client.{Client}
use esp32_mqtts_broker.Myvector.{Myvector}
use esp32_mqtts_broker.Session.{write}
use esp32_mqtts_broker.Session.Items.{PacketState, sendpuback, sendpubrec}
use esp32_mqtts_broker.Worker.State.{Worker, World, cell, deref, offer, with_client}
use esp32_mqtts_broker.Worker.Publishing.{keep_retained, retain_message, request_ack, acknowledge}
use esp32_mqtts_broker.Worker.Subscribing.{
  client_of, send_retained, subscribe_topic, subscribe_loop, unsubscribe_loop, minus_u16,
}
use esp32_mqtts_broker.Worker.Logins.{
  Same, Same-cells, Same-clients, cell-kept, deref-kept, hand_over-Same,
}

-- the client of a connection is there, and changing it changes no pointer
pub client_of-kept :
    (w : Worker) (sock : ℕ)
    → Yields (client_of w sock) λ found. (now : Client) → Same w (with_client w found.0 now)
unfolding client_of
client_of-kept w sock = Yields-then _ (cell w.sock_to_clientid sock) _ (λ sockst.
    Yields-option _ sockst.client _ _ tt (λ c.
      Yields-bind _ _ (deref w.clients c) _ (deref-kept w.clients c)
        (λ client kept now. Same-clients w _ (kept now))))

module _ (world : World) where
  keep_retained-Same :
      (w : Worker) (topic : Key) (packetid : ℕ)
      → Yields (keep_retained world w topic packetid) (Same w)
  unfolding keep_retained
  keep_retained-Same w topic packetid =
      Yields-then (Same w) (Hashmap.get w.retained_sub_msg topic) _ (λ found.
        Yields-option (Same w) found _ _
          (Yields-then (Same w)
            (Hashmap.add (world.adding w.effects) w.retained_sub_msg topic packetid) _ (λ r. refl))
          (λ old. Yields-then (Same w) (Publishhashmap.release w.publish_msg_store old) _ (λ store.
            Yields-then (Same w) (Hashmap.update w.retained_sub_msg topic packetid) _ (λ r. refl))))

  pub retain_message-Same :
      (w : Worker) (topic : Key) (content : List ℕ) (qos packetid : ℕ)
      → Yields (retain_message world w topic content qos packetid) (Same w)
  unfolding retain_message
  retain_message-Same w topic content qos packetid =
      let env = world.session in
      let adding =
        Publishhashmap.add (env.table_ok w.effects) (env.copy_ok w.effects) w.publish_msg_store
          packetid content qos 2 in
      Yields-then (Same w) adding _ (λ r.
        Yields-if (Same w) r.0 _ _
          (keep_retained-Same (record w { publish_msg_store = r.1 }) topic packetid) refl)

  request_ack-Same :
      (w : Worker) (sock : ℕ) (state : PacketState) (packetid qos : ℕ)
      → Yields (request_ack world w sock state packetid qos) (Same w)
  unfolding request_ack offer
  request_ack-Same w sock state packetid qos =
      Yields-if (Same w) (world.session.queue_ok w.effects) _ _
        (Yields-bind _ (Same w) (cell w.sock_to_clientid sock) _ (cell-kept w.sock_to_clientid sock)
          (λ sockst kept. Same-cells w _ (kept _ refl)))
        refl

  pub acknowledge-Same :
      (w : Worker) (sock packetid qos : ℕ) → Yields (acknowledge world w sock packetid qos) (Same w)
  unfolding acknowledge offer
  acknowledge-Same w sock packetid qos =
      Yields-if (Same w) (qos == 1) _ _ (request_ack-Same w sock sendpuback packetid qos)
        (Yields-if (Same w) (qos == 2) _ _ (request_ack-Same w sock sendpubrec packetid qos) refl)

  send_retained-Same :
      (w : Worker) (sock : ℕ) (topic : Key) (req_qos : ℕ)
      → Yields (send_retained world w sock topic req_qos) (Same w)
  unfolding send_retained offer
  send_retained-Same w sock topic req_qos =
      Yields-then (Same w) (Hashmap.get w.retained_sub_msg topic) _ (λ retained_msg.
        Yields-option (Same w) retained_msg _ _ refl (λ id.
          Yields-then (Same w) (Publishhashmap.get w.publish_msg_store id) _ (λ found.
            Yields-option (Same w) found _ _ refl (λ n.
              Yields-then (Same w) (slot_at w.publish_msg_store.slots n) _ (λ node.
                let t = (offer world w sock write).1 in
                Yields-if (Same w) (world.session.queue_ok w.effects) _ _
                  (hand_over-Same world t sock id
                    (if ltb req_qos node.qos then req_qos else node.qos) n false)
                  refl)))))

  subscribe_topic-Same :
      (w : Worker) (sock : ℕ) (suback : Myvector ℕ) (topic : Key) (qos : ℕ)
      → Yields (subscribe_topic world w sock suback topic qos) λ r. Same w r.0
  unfolding subscribe_topic
  subscribe_topic-Same w sock suback topic qos =
      let req_qos = if ltb 2 qos then 2 else qos in
      Yields-bind _ _ (client_of w sock) _ (client_of-kept w sock) (λ found kept.
        Yields-then _ (Client.subscribe (world.memory w.effects) found.1 topic req_qos) _ (λ r.
          let t = with_client w found.0 r.1 in
          Yields-bind (Same t) _ (send_retained world t sock topic req_qos) _
            (send_retained-Same t sock topic req_qos) (λ u same. same ∙ kept r.1)))

  pub subscribe_loop-Same :
      (fuel : ℕ) (w : Worker) (sock : ℕ) (buf : List ℕ) (pos left : ℕ) (suback : Myvector ℕ)
      → Yields (subscribe_loop fuel world w sock buf pos left suback) λ r. Same w r.0
  unfolding subscribe_loop
  subscribe_loop-Same fuel w sock buf pos zero suback = refl
  subscribe_loop-Same zero w sock buf pos (suc left) suback = tt
  subscribe_loop-Same (suc fuel) w sock buf pos (suc left) suback =
      Yields-then _ (word buf pos) _ (λ topic_len.
        Yields-then _ (bytes buf (pos + 2) topic_len) _ (λ topic.
          Yields-then _ (byte buf (pos + 2 + topic_len)) _ (λ qos.
            Yields-bind (λ r. Same w r.0) _ (subscribe_topic world w sock suback topic qos) _
              (subscribe_topic-Same w sock suback topic qos)
              (λ r same.
                let left_over = minus_u16 (minus_u16 (suc left) (topic_len + 2)) 1 in
                Yields-map (λ u. Same r.0 u.0) _
                  (subscribe_loop fuel world r.0 sock buf (pos + 3 + topic_len) left_over r.1)
                  (subscribe_loop-Same fuel r.0 sock buf (pos + 3 + topic_len) left_over r.1)
                  (λ u again. again ∙ same)))))

pub unsubscribe_loop-Same :
    (fuel : ℕ) (w : Worker) (sock : ℕ) (buf : List ℕ) (pos left : ℕ)
    → Yields (unsubscribe_loop fuel w sock buf pos left) (Same w)
unfolding unsubscribe_loop
unsubscribe_loop-Same fuel w sock buf pos zero = refl
unsubscribe_loop-Same zero w sock buf pos (suc left) = tt
unsubscribe_loop-Same (suc fuel) w sock buf pos (suc left) =
    Yields-then (Same w) (word buf pos) _ (λ topic_len.
      Yields-then (Same w) (bytes buf (pos + 2) topic_len) _ (λ topic.
        Yields-bind _ (Same w) (client_of w sock) _ (client_of-kept w sock) (λ found kept.
          Yields-then (Same w) (Client.unsubscribe found.1 topic) _ (λ client.
            let t = with_client w found.0 client in
            let next = pos + 2 + topic_len in
            let left_over = minus_u16 (suc left) (topic_len + 2) in
            Yields-map (Same t) (Same w) (unsubscribe_loop fuel t sock buf next left_over)
              (unsubscribe_loop-Same fuel t sock buf next left_over)
              (λ u same. same ∙ kept client)))))
