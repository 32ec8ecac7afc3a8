-- ===== src/Worker/Receivers.antt =====
-- `publish_by_topic` of main/worker.cpp: the count of a message and the packets that refer to it.
use esp32_mqtts_broker.Prelude.{
  ℕ, ◌<◌, ◌≡◌, refl, true, ◌&&◌, List, [], ◌∷◌, arith, ◌==◌, ltb, if◌then◌else◌, length, length-set,
}
use esp32_mqtts_broker.Run.{Yields, Yields-bind, Yields-then, Yields-option, Yields-if, Yields-map}
use esp32_mqtts_broker.Hashmap.Bucket.{Key}
use esp32_mqtts_broker.Subscription.{empty_qos}
use esp32_mqtts_broker.Client.{is_subscribed}
use esp32_mqtts_broker.Session.{Effect, write, delread}
use esp32_mqtts_broker.Worker.State.{Worker, World, deref, offer}
use esp32_mqtts_broker.Worker.Fanout.{hand_over, notify, is_offline, deliver, deliver_all}
use esp32_mqtts_broker.Worker.Counting.{Balanced, Balanced-refl, Balanced-trans, hand_over-Balanced}

module _ (world : World) (grows : (effects : List Effect) → world.item_ok effects ≡ true) (id : ℕ)
    (pos : 0 < id) (n : ℕ) where
  notify-Balanced :
      (w : Worker) (sock qos : ℕ) → Yields (notify world w sock id qos n) (Balanced id n w)
  unfolding notify offer
  notify-Balanced w sock qos =
      let asked = (offer world w sock delread).1 in
      let t = (offer world asked sock write).1 in
      Yields-if (Balanced id n w) (world.session.queue_ok asked.effects) _ _
        (Yields-map (Balanced id n t) (Balanced id n w) (hand_over world t sock id qos n true)
          (hand_over-Balanced world grows id pos t sock qos n true)
          (λ u b. record { only_count = b.only_count; balance = b.balance }))
        (Balanced-refl id n w _ refl refl)

  deliver-Balanced :
      (topic : Key) (qos : ℕ) (w : Worker) (c : ℕ)
      → Yields (deliver world topic qos id n w c) (Balanced id n w)
  unfolding deliver
  deliver-Balanced topic qos w c =
      let same = Balanced-refl id n w w refl refl in
      Yields-then (Balanced id n w) (deref w.clients c) _ (λ client.
        Yields-if (Balanced id n w) (is_offline client && client.clean_session) _ _ same (
          Yields-then (Balanced id n w) (is_subscribed client topic) _ (λ client_qos.
            Yields-if (Balanced id n w) (client_qos == empty_qos) _ _ same (
              Yields-option (Balanced id n w) client.sock _ _ tt (λ sock.
                notify-Balanced w sock (if ltb qos client_qos then qos else client_qos))))))

  slots-kept :
      (w t : Worker)
      → Balanced id n w t
      → length t.publish_msg_store.slots ≡ length w.publish_msg_store.slots
  slots-kept w t b = rw b.only_count (length-set w.publish_msg_store.slots n _)

  -- Where the vectors of packets get memory, handing out a message, under an identifier other than 0,
  -- to any number of clients changes nothing in the store but the message's count, and the count
  -- goes up by as much as the packets that refer to the message over all connections, modulo 256.
  pub deliver_all-Balanced :
      (topic : Key) (qos : ℕ) (w : Worker) (clients : List (Key × ℕ))
      → n < length w.publish_msg_store.slots
      → Yields (deliver_all world topic qos id n w clients) (Balanced id n w)
  unfolding deliver_all
  deliver_all-Balanced topic qos w [] inside = Balanced-refl id n w w refl refl
  deliver_all-Balanced topic qos w ((k, c) ∷ clients) inside =
      Yields-bind (Balanced id n w) _ (deliver world topic qos id n w c) _
        (deliver-Balanced topic qos w c)
        (λ t b.
          Yields-map (Balanced id n t) (Balanced id n w)
            (deliver_all world topic qos id n t clients)
            (deliver_all-Balanced topic qos t clients (omega (arith, slots-kept w t b)))
            (λ u d. Balanced-trans id n w t u inside b d))
