-- ===== src/Worker/Events.antt =====
-- Every event of main/worker.cpp, and the link of client and client identifier.
use esp32_mqtts_broker.Prelude.{
  ℕ, ◌+◌, ◌-◌, ◌%◌, ◌≡◌, refl, ◌∙◌, true, false, ◌==◌, Option, none, some, List, if◌then◌else◌,
  bit_and, set, u16_mod,
}
use esp32_mqtts_broker.Run.{
  Run, ok, fault, Yields, Yields-bind, Yields-then, Yields-option, Yields-if, Yields-map, Yields-ok,
  Yields-run,
}
use esp32_mqtts_broker.Myvector.{Myvector, empty_vector, reserve}
use esp32_mqtts_broker.Connect.{byte, word, bytes, has_flag}
use esp32_mqtts_broker.Frame.{Incoming, read_packet}
use esp32_mqtts_broker.Session
use esp32_mqtts_broker.Session.{
  Session, Verdict, stay, drop, Operation, read, write, delread, delall, on_puback, on_pubrec,
  on_pubcomp, on_pubrel,
}
use esp32_mqtts_broker.Worker.State.{
  Worker, World, SockCid, cell, with_client, with_session, session_of, offer, write_conn,
}
use esp32_mqtts_broker.Worker.Drop.{drop_conn}
use esp32_mqtts_broker.Worker.Login.{Next, over, below, on_phase}
use esp32_mqtts_broker.Worker.Publishing.{
  packet_qos, packet_id_at, retain_message, acknowledge, on_publish,
}
use esp32_mqtts_broker.Worker.Subscribing.{
  client_of, topic_fuel, length_fuel, subscribe_loop, suback_header, minus_u16, write_length,
  send_suback, on_subscribe, put, unsubscribe_loop, on_unsubscribe,
}
use esp32_mqtts_broker.Worker.Fanout.{publish_by_topic}
use esp32_mqtts_broker.Worker.{
  Arrival, settle, on_pingreq, on_disconnect, Kind, kind_of, publish_packet, puback_packet,
  pubrec_packet, pubcomp_packet, pubrel_packet, subscribe_packet, unsubscribe_packet,
  pingreq_packet, disconnect_packet, other_packet, dispatch, on_packet, on_read, on_write, on_mqtt,
  on_message, is_new,
}
use esp32_mqtts_broker.Worker.Logins.{
  Same, Same-cells, Same-SameLogins, login, logins, cell-kept, publish_by_topic-Same,
}
use esp32_mqtts_broker.Worker.Handlers.{
  client_of-kept, retain_message-Same, acknowledge-Same, subscribe_loop-Same, unsubscribe_loop-Same,
}
use esp32_mqtts_broker.Worker.Rule.{Inductive, NextHolds}
use esp32_mqtts_broker.Worker.Identified.{
  IsPaired, SameLogins-IsPaired, cell-Paired, drop_conn-IsPaired,
}
use esp32_mqtts_broker.Worker.Entered.{on_phase-Paired, on_connect-IsPaired}

module _ (world : World) (P : Worker → Type 0) (rule : Inductive world P) where
  on_publish-Keeps :
      (w : Worker) (sock : ℕ) (p : Incoming) → P w → Yields (on_publish world w sock p) P
  unfolding on_publish
  on_publish-Keeps w sock p all = Yields-then P (byte p.buf 0) _ (λ first.
      let qos = packet_qos first in
      Yields-if P (bit_and first 0x06 == 0x06) _ _ (rule.drops w sock true all) (
        Yields-then P (word p.buf p.cur_pos) _ (λ topic_len.
          Yields-then P (bytes p.buf (p.cur_pos + 2) topic_len) _ (λ topic.
            Yields-then P (packet_id_at world w p.buf (p.cur_pos + 2 + topic_len) qos) _
              (λ packetid. Yields-then P (bytes p.buf 0 p.packet_length) _ (λ content.
                Yields-bind (Same w) P
                  (if has_flag first 0x01
                    then retain_message world w topic content qos packetid
                    else ok w)
                  _
                  (Yields-if (Same w) (has_flag first 0x01) _ _
                    (retain_message-Same world w topic content qos packetid) refl)
                  (λ t kept.
                    Yields-bind (Same t) P (acknowledge world t sock packetid qos) _
                      (acknowledge-Same world t sock packetid qos)
                      (λ u still.
                        Yields-map (Same u) P (publish_by_topic world u topic content qos packetid)
                          (publish_by_topic-Same world u topic content qos packetid)
                          (λ v same. rule.same w v all (same ∙ still ∙ kept))))))))))

  send_suback-Keeps :
      (w : Worker) (sock : ℕ) (suback : Myvector ℕ)
      → P w
      → Yields (send_suback world w sock suback) P
  unfolding send_suback write_conn offer
  send_suback-Keeps w sock suback all =
      Yields-then P (write_length length_fuel world w suback 1 2 ((suback.size - 2) % u16_mod)) _
        (λ r. Yields-option P r _ _ (rule.drops w sock true all) (λ v. rule.same w _ all refl))

  on_subscribe-Keeps :
      (w : Worker) (sock : ℕ) (p : Incoming) → P w → Yields (on_subscribe world w sock p) P
  unfolding on_subscribe
  on_subscribe-Keeps w sock p all =
      let dropped = rule.drops w sock true all in
      let left = minus_u16 (minus_u16 p.packet_length p.additional_packet_len) 2 in
      Yields-then P (byte p.buf 0) _ (λ first.
        Yields-if P (bit_and first 0x0f == 0x02) _ _
          (Yields-then P (reserve (world.vector_ok w.effects 5) 0 empty_vector 5) _ (λ r.
            Yields-if P r.0 _ _
              (Yields-then P (byte p.buf p.cur_pos) _ (λ msb.
                Yields-then P (byte p.buf (p.cur_pos + 1)) _ (λ lsb.
                  let suback = suback_header world w r.1 msb lsb in
                  Yields-bind (λ u. Same w u.0) P
                    (subscribe_loop topic_fuel world w sock p.buf (p.cur_pos + 2) left suback) _
                    (subscribe_loop-Same world topic_fuel w sock p.buf (p.cur_pos + 2) left suback)
                    (λ (t, v) same. send_suback-Keeps t sock v (rule.same w t all same)))))
              dropped))
          dropped)

  on_unsubscribe-Keeps :
      (garbage : List ℕ) (w : Worker) (sock : ℕ) (p : Incoming)
      → P w
      → Yields (on_unsubscribe world garbage w sock p) P
  unfolding on_unsubscribe write_conn offer
  on_unsubscribe-Keeps garbage w sock p all = Yields-then P (byte p.buf 0) _ (λ first.
      Yields-bind P P (if bit_and first 0x0f == 0x02 then ok w else drop_conn world w sock true) _
        (Yields-if P (bit_and first 0x0f == 0x02) _ _ all (rule.drops w sock true all))
        (λ t paired. Yields-then P (byte p.buf p.cur_pos) _ (λ msb.
          Yields-then P (byte p.buf (p.cur_pos + 1)) _ (λ lsb.
            Yields-then P (put garbage 0 0xb0) _ (λ typed. Yields-then P (put typed 1 2) _ (λ sized.
              Yields-then P (put sized 3 msb) _ (λ half.
                Yields-then P (put half 4 lsb) _ (λ unsuback.
                  let left = minus_u16 (minus_u16 p.packet_length p.additional_packet_len) 2 in
                  Yields-bind (Same t) P
                    (unsubscribe_loop topic_fuel t sock p.buf (p.cur_pos + 2) left) _
                    (unsubscribe_loop-Same topic_fuel t sock p.buf (p.cur_pos + 2) left)
                    (λ u same. rule.same t _ paired same)))))))))

  module _ (w : Worker) (sock : ℕ) (sockst : SockCid) (all : P w)
      (kept : (other : SockCid)
        → login other ≡ login sockst
        → logins (set w.sock_to_clientid sock other) ≡ logins w.sock_to_clientid) where
    with_session-Keeps : (s : Session) → P (with_session w sock sockst s)
    with_session-Keeps s =
        rule.same w _ all (Same-cells w _ (kept (record sockst { packid_state = s.items }) refl))

    settle-Keeps :
        (handled : Run (Verdict × Session)) → Yields (settle world w sock sockst handled) P
    unfolding settle
    settle-Keeps (fault reason) = tt
    settle-Keeps (ok (stay, s)) = with_session-Keeps s
    settle-Keeps (ok (drop, s)) =
        rule.drops (with_session w sock sockst s) sock true (with_session-Keeps s)

    dispatch-Keeps :
        (garbage : List ℕ) (p : Incoming) (kind : Kind)
        → Yields (dispatch world garbage w sock sockst p kind) P
    unfolding dispatch on_pingreq on_disconnect write_conn offer
    dispatch-Keeps garbage p publish_packet = on_publish-Keeps w sock p all
    dispatch-Keeps garbage p puback_packet = settle-Keeps _
    dispatch-Keeps garbage p pubrec_packet = settle-Keeps _
    dispatch-Keeps garbage p pubcomp_packet = settle-Keeps _
    dispatch-Keeps garbage p pubrel_packet = settle-Keeps _
    dispatch-Keeps garbage p subscribe_packet = on_subscribe-Keeps w sock p all
    dispatch-Keeps garbage p unsubscribe_packet = on_unsubscribe-Keeps garbage w sock p all
    dispatch-Keeps garbage p pingreq_packet = rule.same w _ all refl
    dispatch-Keeps garbage p disconnect_packet =
        Yields-bind _ P (client_of w sock) _ (client_of-kept w sock) (λ found kept.
          let t = with_client w found.0 (record found.1 { clean_session = true }) in
          rule.drops t sock false (rule.same w t all (kept _)))
    dispatch-Keeps garbage p other_packet = all

  on_packet-Keeps :
      (garbage : List ℕ) (w : Worker) (sock : ℕ) (p : Incoming)
      → P w
      → Yields (on_packet world garbage w sock p) P
  unfolding on_packet
  on_packet-Keeps garbage w sock p all =
      Yields-bind _ P (cell w.sock_to_clientid sock) _ (cell-kept w.sock_to_clientid sock)
        (λ sockst kept. Yields-if P (is_new sockst) _ _ (rule.connects w sock p all) (
          Yields-then P (byte p.buf 0) _
            (λ first. dispatch-Keeps w sock sockst all kept garbage p (kind_of first))))

  on_mqtt-Keeps :
      (a : Arrival) (w : Worker) (sock : ℕ) (op : Operation)
      → P w
      → Yields (on_mqtt world a w sock op) P
  unfolding on_mqtt on_read on_write
  on_mqtt-Keeps a w sock read all = Yields-then P (read_packet a.pieces a.buf a.stream) _ (λ r.
      Yields-option P r _ _ (rule.drops w sock true all)
        (λ (p, rest). on_packet-Keeps a.garbage w sock p all))
  on_mqtt-Keeps a w sock write all =
      Yields-bind _ P (cell w.sock_to_clientid sock) _ (cell-kept w.sock_to_clientid sock)
        (λ sockst kept.
          Yields-then P (Session.on_write world.session (session_of w sock sockst)) _
            (λ s. with_session-Keeps w sock sockst all kept s))
  on_mqtt-Keeps a w sock delread all = all
  on_mqtt-Keeps a w sock delall all = all

  next-Keeps :
      (a : Arrival) (sock : ℕ) (op : Operation) (next : Next)
      → NextHolds P next
      → Yields (elim next [ over t ↦ ok t | below t ↦ on_mqtt world a t sock op ]) P
  next-Keeps a sock op (over t) paired = paired
  next-Keeps a sock op (below t) paired = on_mqtt-Keeps a t sock op paired

  message-Keeps :
      (a : Arrival) (w : Worker) (sock : Option ℕ) (op : Operation)
      → P w
      → Yields (on_message world a w sock op) P
  unfolding on_message
  message-Keeps a w none op all = all
  message-Keeps a w (some sock) op all =
      Yields-bind (λ sockst. cell w.sock_to_clientid sock ≡ ok sockst) P
        (cell w.sock_to_clientid sock) _
        (Yields-run _ (cell w.sock_to_clientid sock) (λ sockst e. e))
        (λ sockst e.
          Yields-bind (NextHolds P) P (on_phase world w sock sockst sockst.phs) _
            (rule.phases w sock sockst all e) (next-Keeps a sock op))

  -- the rule: an event that returns keeps the property
  pub on_message-Keeps :
      (a : Arrival) (w t : Worker) (sock : Option ℕ) (op : Operation)
      → P w
      → on_message world a w sock op ≡ ok t
      → P t
  on_message-Keeps a w t sock op all run =
      Yields-ok P (on_message world a w sock op) t (message-Keeps a w sock op all) run

module _ (world : World) where
  IsPaired-Inductive : Inductive world IsPaired
  IsPaired-Inductive = record {
    same = λ w t all same. SameLogins-IsPaired w t all (Same-SameLogins w t same);
    drops = drop_conn-IsPaired world;
    phases = λ w sock sockst all e. on_phase-Paired world w sock sockst sockst.phs all (
        Yields-ok _ (cell w.sock_to_clientid sock) sockst
          (cell-Paired w.sock_to_clientid sock (unfold IsPaired in all)) e);
    connects = on_connect-IsPaired world;
  }

  -- Whatever message the worker takes from its queue, whatever the connection gives and however the
  -- outside answers: if the handling of the message returns, every connection has a client exactly
  -- if it has a client identifier, as it was before.
  pub on_message-IsPaired :
      (a : Arrival) (w t : Worker) (sock : Option ℕ) (op : Operation)
      → IsPaired w
      → on_message world a w sock op ≡ ok t
      → IsPaired t
  on_message-IsPaired a w t sock op all run =
      on_message-Keeps world IsPaired IsPaired-Inductive a w t sock op all run
