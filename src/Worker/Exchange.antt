-- ===== src/Worker/Exchange.antt =====
-- The packets of one connection through the loop of `worker` in main/worker.cpp, message by message.
use esp32_mqtts_broker.Prelude.{
  bit_and, ◌*◌, ◌+◌, ◌/◌, ◌%◌, if◌then◌else◌, Option, Bool, ℕ, ◌<◌, ◌≡◌, refl, sym, ap, ◌∙◌, true,
  some, List, [], ◌∷◌, arith, length, set, set-set,
}
use esp32_mqtts_broker.Run.{Run, ok, ◌>>=◌, Returns}
use esp32_mqtts_broker.Publishhashmap.{release}
use esp32_mqtts_broker.Publishhashmap.Lookup.{IsTable, node_at, locate}
use esp32_mqtts_broker.Frame.Length.{encode_length}
use esp32_mqtts_broker.Frame.Packet.{whole}
use esp32_mqtts_broker.Session
use esp32_mqtts_broker.Session.{
  Session, Verdict, stay, read, write, publish_header, ack, pubrec, pubrel, pubcomp, is_malformed,
  packet_id_of,
}
use esp32_mqtts_broker.Session.Header.{publish_header-eq}
use esp32_mqtts_broker.Session.Items.{PacketStateItem, item_at, getpubcomp, sendpubrec, sendpubcomp}
use esp32_mqtts_broker.Session.Delivered.{message_item}
use esp32_mqtts_broker.Session.Turns.{wire, IsSole}
use esp32_mqtts_broker.Session.Handshake.{sender_runs, receiver_runs}
use esp32_mqtts_broker.Worker.{Arrival, on_message, on_mqtt, on_write, dispatch, kind_of, settle}
use esp32_mqtts_broker.Worker.State.{
  World, Worker, SockCid, mqtt, cell, cell-lt, cell-set_same, client_sock, session_of, with_session,
}
use esp32_mqtts_broker.Worker.Routed.{past_handshake, on_message-routes}
use esp32_mqtts_broker.Worker.Returning.{cell-set}
use esp32_mqtts_broker.Worker.Arriving.{Arrives, ack_buf, ack_bytes}

module _ (world : World) (w : Worker) (sock : ℕ) (sockst : SockCid)
    (at_cell : cell w.sock_to_clientid sock ≡ ok sockst) (shaken : sockst.phs ≡ mqtt)
    (named : 0 < length sockst.clientid) where
  -- the worker with the packets of the connection as in `s`
  abbrev during : Session → Worker
  during s = with_session w sock sockst s

  abbrev cell_of : Session → SockCid
  cell_of s = record sockst { packid_state = s.items }

  there : (s : Session) → cell (during s).sock_to_clientid sock ≡ ok (cell_of s)
  there s =
      cell-set w.sock_to_clientid sock (cell_of s) (cell-lt w.sock_to_clientid sock sockst at_cell)

  -- `s` is about the connection and its client
  abbrev IsOf : Session → Type 0
  IsOf s = (s.sock ≡ sock) × (s.client_sock ≡ client_sock w sockst)

  session : (s : Session) → IsOf s → session_of (during s) sock (cell_of s) ≡ s
  unfolding client_sock
  session s (e, c) =
      ap
        (λ (k : ℕ).
          let t : Session = record s { sock = k; client_sock = client_sock w sockst } in t)
        (sym e)
      ∙ ap (λ (k : Run (Option ℕ)). let t : Session = record s { client_sock = k } in t) (sym c)

  put_again : (s t : Session) → with_session (during s) sock (cell_of s) t ≡ during t
  put_again s t =
      ap (λ cs. let u : Worker = record (during t) { sock_to_clientid = cs } in u)
        (set-set w.sock_to_clientid sock (cell_of s) (cell_of t))

  -- a message that the connection can be written to
  message_write :
      (a : Arrival) (s t : Session)
      → IsOf s
      → Session.on_write world.session s ≡ ok t
      → on_message world a (during s) (some sock) write ≡ ok (during t)
  unfolding on_message on_mqtt on_write
  message_write a s t e run =
      let past =
        past_handshake world a (during s) sock (cell_of s) (there s) shaken (ground arith) in
      rw
        (
          there s,
          ◌>>=◌,
          past sockst.phs shaken,
          there s,
          ◌>>=◌,
          session s e,
          run,
          ◌>>=◌,
          put_again s t,
        )
        refl

  unchanged : during (session_of w sock sockst) ≡ w
  unchanged =
      ap (λ cs. let u : Worker = record w { sock_to_clientid = cs } in u)
        (cell-set_same w.sock_to_clientid sock sockst at_cell)

  -- a message that the connection can be read, when it gives an acknowledgement
  message_ack :
      (a : Arrival) (s : Session) (kind id : ℕ) (arrives : Arrives kind id a)
      → let p = whole a.buf (kind ∷ 2 ∷ []) (arrives.low ∷ arrives.high ∷ []) 2 in
        on_message world a (during s) (some sock) read
        ≡ dispatch world a.garbage (during s) sock (cell_of s) p (kind_of kind)
  unfolding encode_length
  message_ack a s kind id arrives =
      on_message-routes world a (during s) sock (cell_of s) (there s) shaken (ground arith) 2 kind
        (arrives.low ∷ arrives.high ∷ []) arrives.more (omega (arith, arrives.room)) (omega arith)
        refl arrives.stream

  -- a handler that does not drop the connection
  settled :
      (s t : Session) (handled : Run (Verdict × Session))
      → handled ≡ ok (stay, t)
      → settle world (during s) sock (cell_of s) handled ≡ ok (during t)
  unfolding settle
  settled s t handled run = rw (run, ◌>>=◌, put_again s t) refl

  message_pubrec :
      (a : Arrival) (s t : Session) (id : ℕ) (arrives : Arrives 0x50 id a)
      → IsOf s
      → Session.on_pubrec world.session s (ack_buf a 0x50 id arrives) 4 ≡ ok (stay, t)
      → on_message world a (during s) (some sock) read ≡ ok (during t)
  unfolding dispatch kind_of
  message_pubrec a s t id arrives e run =
      message_ack a s 0x50 id arrives
      ∙ settled s t _ (
          ap (λ u. Session.on_pubrec world.session u (ack_buf a 0x50 id arrives) 4) (session s e)
          ∙ run)

  message_pubcomp :
      (a : Arrival) (s t : Session) (id : ℕ) (arrives : Arrives 0x70 id a)
      → IsOf s
      → Session.on_pubcomp world.session s (ack_buf a 0x70 id arrives) 4 ≡ (stay, t)
      → on_message world a (during s) (some sock) read ≡ ok (during t)
  unfolding dispatch kind_of
  message_pubcomp a s t id arrives e run =
      message_ack a s 0x70 id arrives
      ∙ settled s t _ (
          ap ok (
            ap (λ u. Session.on_pubcomp world.session u (ack_buf a 0x70 id arrives) 4) (session s e)
            ∙ run))

  message_pubrel :
      (a : Arrival) (s t : Session) (id : ℕ) (arrives : Arrives 0x62 id a)
      → IsOf s
      → Session.on_pubrel world.session s (ack_buf a 0x62 id arrives) 4 ≡ (stay, t)
      → on_message world a (during s) (some sock) read ≡ ok (during t)
  unfolding dispatch kind_of
  message_pubrel a s t id arrives e run =
      message_ack a s 0x62 id arrives
      ∙ settled s t _ (
          ap ok (
            ap (λ u. Session.on_pubrel world.session u (ack_buf a 0x62 id arrives) 4) (session s e)
            ∙ run))

  -- The delivery of a message with quality of service 2, as the loop of the worker does it. A connection has
  -- finished its handshake and has a client identifier; one of its packets is a message under an
  -- identifier other than 0, which waits to be sent, is found in a store that is a table, and has
  -- bytes, the first of which is below 256; no other packet has that identifier or has something to
  -- send, and the write succeeds. The connection can be written to, then gives a PUBREC about the
  -- message, can be written to again, and gives a PUBCOMP about it; `buf` has four bytes at least. The
  -- handling of the four messages about this returns. Two packets have been offered, both on the
  -- socket of this connection: the message, whose first byte has the type and the duplicate flag
  -- of the stored one, quality of service 2, and the stored retain flag unless that is to go, and
  -- after it one PUBREL with the identifier. Nothing has been offered to another connection. The
  -- message has one receiver less in the store, the packet is free, and all other connections and
  -- packets are as before.
  pub sender_messages :
      (a b c d : Arrival) (i id n first : ℕ) (rest : List ℕ) (delete_retain : Bool)
      → IsSole sockst.packid_state i id
      → 0 < id
      → item_at sockst.packid_state i ≡ message_item id 2 delete_retain
      → IsTable w.publish_msg_store.power_of_cap w.publish_msg_store.slots
      → locate w.publish_msg_store id ≡ some n
      → (node_at w.publish_msg_store.slots n).content ≡ first ∷ rest
      → first < 256
      → world.session.write_ok w.effects ≡ true
      → Arrives 0x50 id b
      → Arrives 0x70 id d
      → Returns
          (on_message world a w (some sock) write >>= λ t.
            on_message world b t (some sock) read >>= λ u.
            on_message world c u (some sock) write >>= λ v. on_message world d v (some sock) read)
          λ t.
            (release w.publish_msg_store id ≡ ok t.publish_msg_store)
            × (wire t.effects
                ≡ (sock, 0x62 ∷ 2 ∷ bit_and id 0xff ∷ bit_and (id / 256) 0xff ∷ [])
                  ∷ (
                    sock,
                    (first / 8 * 8 + 2 * 2 + (if delete_retain then 0 else first % 2)) ∷ rest,
                  )
                  ∷ wire w.effects)
            × (t.sock_to_clientid
                ≡ set w.sock_to_clientid sock (record sockst {
                  packid_state =
                      set sockst.packid_state i (record (message_item id 2 delete_retain) {
                        packet_id = 0;
                        state = getpubcomp;
                      });
                }))
            × (t.clients ≡ w.clients)
            × (t.client_store ≡ w.client_store)
            × (t.retained_sub_msg ≡ w.retained_sub_msg)
  sender_messages a b c d i id n first rest delete_retain sole pos here table found bytes small sent
        rec comp =
      let s = session_of w sock sockst in
      let h =
        sender_runs world.session s i id sole pos n first rest delete_retain (ack_buf b 0x50 id rec)
          (ack_buf d 0x70 id comp) 4 4 here table found bytes sent
          (ack_bytes b.buf 0x50 rec.low rec.high id rec.room rec.about)
          (ack_bytes d.buf 0x70 comp.low comp.high id comp.room comp.about) in
      let one : on_message world a w (some sock) write ≡ ok (during h.waits) =
        ap (λ u. on_message world a u (some sock) write) (sym unchanged)
        ∙ message_write a s h.waits (refl, refl) h.writes in
      let two =
        message_pubrec b h.waits h.answered id rec (h.waits_sock, h.waits_client) h.gets_pubrec in
      let three =
        message_write c h.answered h.released (h.answered_sock, h.answered_client)
          h.writes_pubrel in
      let four =
        message_pubcomp d h.released h.done id comp (h.released_sock, h.released_client)
          h.gets_pubcomp in
      (
        during h.done,
        rw (one, ◌>>=◌, two, ◌>>=◌, three, ◌>>=◌) four,
        (
          h.less,
          h.whole.offered
              ∙ ap
                  (λ header.
                    (sock, 0x62 ∷ 2 ∷ bit_and id 0xff ∷ bit_and (id / 256) 0xff ∷ [])
                    ∷ (sock, header ∷ rest)
                    ∷ wire w.effects)
                  (publish_header-eq first 2 delete_retain small (omega arith)),
          ap (λ items. set w.sock_to_clientid sock (record sockst { packid_state = items }))
              h.whole.items,
          refl,
          refl,
          refl,
        ),
      )

  -- The acceptance of a message with quality of service 2, as the loop of the worker does it. A connection
  -- has finished its handshake and has a client identifier; one of its packets, under an identifier
  -- other than 0, waits to be acknowledged by a PUBREC; no other packet has that identifier or has
  -- something to send. The connection can be written to, then gives a PUBREL for the packet, and can
  -- be written to again; `buf` has four bytes at least. The handling of the three messages about this
  -- returns. Two packets have been offered, both on the socket of this connection, one PUBREC and after it
  -- one PUBCOMP, and nothing to another connection; the packet is free, and all other connections and
  -- packets, and the waiting messages, are as before.
  pub receiver_messages :
      (a b c : Arrival) (i id : ℕ) (item : PacketStateItem)
      → IsSole sockst.packid_state i id
      → 0 < id
      → item_at sockst.packid_state i ≡ record item { packet_id = id; state = sendpubrec }
      → Arrives 0x62 id b
      → Returns
          (on_message world a w (some sock) write >>= λ t.
            on_message world b t (some sock) read >>= λ u. on_message world c u (some sock) write)
          λ t.
            (t.publish_msg_store ≡ w.publish_msg_store)
            × (wire t.effects
                ≡ (sock, 0x70 ∷ 2 ∷ bit_and id 0xff ∷ bit_and (id / 256) 0xff ∷ [])
                  ∷ (sock, 0x50 ∷ 2 ∷ bit_and id 0xff ∷ bit_and (id / 256) 0xff ∷ [])
                  ∷ wire w.effects)
            × (t.sock_to_clientid
                ≡ set w.sock_to_clientid sock (record sockst {
                  packid_state =
                      set sockst.packid_state i
                        (record item { packet_id = 0; state = sendpubcomp });
                }))
            × (t.clients ≡ w.clients)
            × (t.client_store ≡ w.client_store)
            × (t.retained_sub_msg ≡ w.retained_sub_msg)
  receiver_messages a b c i id item sole pos here rel =
      let s = session_of w sock sockst in
      let h =
        receiver_runs world.session s i id sole pos item (ack_buf b 0x62 id rel) 4 here
          (ack_bytes b.buf 0x62 rel.low rel.high id rel.room rel.about) in
      let one : on_message world a w (some sock) write ≡ ok (during h.waits) =
        ap (λ u. on_message world a u (some sock) write) (sym unchanged)
        ∙ message_write a s h.waits (refl, refl) h.writes_pubrec in
      let two =
        message_pubrel b h.waits h.answered id rel (h.waits_sock, h.waits_client) h.gets_pubrel in
      let three =
        message_write c h.answered h.done (h.answered_sock, h.answered_client) h.writes_pubcomp in
      (
        during h.done,
        rw (one, ◌>>=◌, two, ◌>>=◌) three,
        (
          h.whole.store,
          h.whole.offered,
          ap (λ items. set w.sock_to_clientid sock (record sockst { packid_state = items }))
              h.whole.items,
          refl,
          refl,
          refl,
        ),
      )
