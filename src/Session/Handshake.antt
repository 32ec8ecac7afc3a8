-- ===== src/Session/Handshake.antt =====
-- The handshakes of MQTT's qualities of service in main/worker.cpp, from the message to the last
-- acknowledgement.
use esp32_mqtts_broker.Prelude.{
  ℕ, ◌<◌, ◌≡◌, refl, sym, ap, ◌∙◌, Bool, true, some, List, [], ◌∷◌, arith, set,
}
use esp32_mqtts_broker.Run.{ok, ◌>>=◌, Returns, Returns-bind}
use esp32_mqtts_broker.Publishhashmap.{release}
use esp32_mqtts_broker.Publishhashmap.Lookup.{IsTable, node_at, locate}
use esp32_mqtts_broker.Publishhashmap.Remove.{release-Returns}
use esp32_mqtts_broker.Session.{
  Session, Env, stay, on_puback, on_pubrec, on_pubcomp, on_pubrel, on_write, publish_header, ack,
  pubrec, pubrel, pubcomp,
}
use esp32_mqtts_broker.Session.Items.{
  PacketStateItem, getpuback, getpubcomp, sendpubrec, sendpubcomp, item_at,
}
use esp32_mqtts_broker.Session.Delivered.{message_item}
use esp32_mqtts_broker.Session.Turns.{
  wire, IsSole, Turn, Turn-publish, Turn-pubrel, Turn-pubrec, Turn-pubcomp,
}
use esp32_mqtts_broker.Session.Answers.{
  on_puback-Turn, on_pubrec-Turn, on_pubcomp-Turn, on_pubrel-Turn,
}
use esp32_mqtts_broker.Session.Chain.{after-IsSole, after_item, Turn-trans, Acks}

-- the handshake of a message of quality of service 2, run by run
pub record Sent (env : Env) (s : Session) (i id first : ℕ) (rest : List ℕ) (delete_retain : Bool)
    (rec comp : List ℕ) (rec_len comp_len : ℕ) : Type 0 where
  pub waits : Session
  pub answered : Session
  pub released : Session
  pub done : Session
  pub writes : on_write env s ≡ ok waits
  pub gets_pubrec : on_pubrec env waits rec rec_len ≡ ok (stay, answered)
  pub writes_pubrel : on_write env answered ≡ ok released
  pub gets_pubcomp : on_pubcomp env released comp comp_len ≡ (stay, done)
  pub waits_sock : waits.sock ≡ s.sock
  pub waits_client : waits.client_sock ≡ s.client_sock
  pub answered_sock : answered.sock ≡ s.sock
  pub answered_client : answered.client_sock ≡ s.client_sock
  pub released_sock : released.sock ≡ s.sock
  pub released_client : released.client_sock ≡ s.client_sock
  pub less : release s.store id ≡ ok done.store
  pub whole :
      Turn s done i
        (record (message_item id 2 delete_retain) { packet_id = 0; state = getpubcomp })
        done.store
        (ack pubrel id ∷ (publish_header first 2 delete_retain ∷ rest) ∷ [])

-- the other side of it, run by run
pub record Accepted (env : Env) (s : Session) (i id : ℕ) (b : PacketStateItem) (rel : List ℕ)
    (len : ℕ) : Type 0 where
  pub waits : Session
  pub answered : Session
  pub done : Session
  pub writes_pubrec : on_write env s ≡ ok waits
  pub gets_pubrel : on_pubrel env waits rel len ≡ (stay, answered)
  pub writes_pubcomp : on_write env answered ≡ ok done
  pub waits_sock : waits.sock ≡ s.sock
  pub waits_client : waits.client_sock ≡ s.client_sock
  pub answered_sock : answered.sock ≡ s.sock
  pub answered_client : answered.client_sock ≡ s.client_sock
  pub whole :
      Turn s done i
        (record b { packet_id = 0; state = sendpubcomp })
        s.store
        (ack pubcomp id ∷ ack pubrec id ∷ [])

module _ (env : Env) (s : Session) (i id : ℕ) (sole : IsSole s.items i id) (pos : 0 < id) where
  -- the write event, a PUBREC, the next write event and a PUBCOMP, one after another
  pub sender_runs :
      (n first : ℕ) (rest : List ℕ) (delete_retain : Bool) (rec comp : List ℕ)
      (rec_len comp_len : ℕ)
      → item_at s.items i ≡ message_item id 2 delete_retain
      → IsTable s.store.power_of_cap s.store.slots
      → locate s.store id ≡ some n
      → (node_at s.store.slots n).content ≡ first ∷ rest
      → env.write_ok s.effects ≡ true
      → Acks id rec rec_len
      → Acks id comp comp_len
      → Sent env s i id first rest delete_retain rec comp rec_len comp_len
  sender_runs n first rest delete_retain rec comp rec_len comp_len here table found bytes sent
        is_rec is_comp =
      let item = message_item id 2 delete_retain in
      let (store, less, _) = release-Returns s.store id table in
      let (t, writes, one) =
        Turn-publish env s i id sole pos 2 n first rest delete_retain (omega arith) here table found
          bytes sent in
      let sole_t = after-IsSole s t i id _ s.store _ one sole in
      let item_t = after_item s t i id _ s.store _ one sole in
      let table_t : IsTable t.store.power_of_cap t.store.slots = rw one.store table in
      let (r, taken, (stays, two)) =
        on_pubrec-Turn env t i id sole_t rec rec_len is_rec.good is_rec.about item store item_t
          table_t (rw one.store less) in
      let u = r.1 in
      let pair = Turn-trans s t i id _ s.store _ one sole u _ store [] two in
      let sole_u = after-IsSole s u i id _ store _ pair sole in
      let item_u = after_item s u i id _ store _ pair sole in
      let (v, writes_pubrel, three) = Turn-pubrel env u i id sole_u pos item item_u in
      let sole_v = after-IsSole u v i id _ u.store _ three sole_u in
      let item_v = after_item u v i id _ u.store _ three sole_u in
      let (ends, four) =
        on_pubcomp-Turn env v i id sole_v comp comp_len is_comp.good is_comp.about item item_v in
      let last = (on_pubcomp env v comp comp_len).1 in
      let half = Turn-trans s u i id _ store _ pair sole v _ u.store _ three in
      let full = Turn-trans s v i id _ u.store _ half sole last _ v.store [] four in
      record {
        waits = t;
        answered = u;
        released = v;
        done = last;
        writes = writes;
        gets_pubrec = taken ∙ ap (λ kept. ok (kept, u)) stays;
        writes_pubrel = writes_pubrel;
        gets_pubcomp = ap (λ kept. (kept, last)) ends;
        waits_sock = one.same_sock;
        waits_client = one.same_client;
        answered_sock = pair.same_sock;
        answered_client = pair.same_client;
        released_sock = half.same_sock;
        released_client = half.same_client;
        less = less ∙ ap ok (sym (full.store ∙ three.store ∙ pair.store));
        whole = record {
          same_sock = full.same_sock;
          same_client = full.same_client;
          items = full.items;
          store = refl;
          offered = full.offered;
        };
      }

  -- A message of quality of service 1 is found in a store that is a table, has bytes, and waits to be
  -- sent to a connection that has nothing else to send and no other packet with its identifier; the
  -- write succeeds. The write event and a well-formed PUBACK for it end normally and drop nothing; the message has been offered once, with quality of
  -- service 1 in its header, the packet is free, and the message has exactly one receiver less.
  pub sender_ack :
      (n first : ℕ) (rest : List ℕ) (delete_retain : Bool) (got : List ℕ) (len : ℕ)
      → item_at s.items i ≡ message_item id 1 delete_retain
      → IsTable s.store.power_of_cap s.store.slots
      → locate s.store id ≡ some n
      → (node_at s.store.slots n).content ≡ first ∷ rest
      → env.write_ok s.effects ≡ true
      → Acks id got len
      → Returns (on_write env s >>= λ t. on_puback env t got len) λ r.
        (r.0 ≡ stay)
        × (release s.store id ≡ ok r.1.store)
        × (wire r.1.effects
            ≡ (s.sock, publish_header first 1 delete_retain ∷ rest) ∷ wire s.effects)
        × (r.1.items
            ≡ set s.items i
                (record (message_item id 1 delete_retain) { packet_id = 0; state = getpuback }))
  sender_ack n first rest delete_retain got len here table found bytes sent is_ack =
      let item = message_item id 1 delete_retain in
      let (store, less, _) = release-Returns s.store id table in
      Returns-bind _ _ (on_write env s) _
        (Turn-publish env s i id sole pos 1 n first rest delete_retain (omega arith) here table
          found bytes sent)
        (λ t one.
          let sole_t = after-IsSole s t i id _ s.store _ one sole in
          let item_t = after_item s t i id _ s.store _ one sole in
          let table_t : IsTable t.store.power_of_cap t.store.slots = rw one.store table in
          let (r, taken, (stays, two)) =
            on_puback-Turn env t i id sole_t got len is_ack.good is_ack.about item store item_t
              table_t (rw one.store less) in
          let both = Turn-trans s t i id _ s.store _ one sole r.1 _ store [] two in
          (r, taken, (stays, less ∙ ap ok (sym both.store), both.offered, both.items)))

  -- the write event, a PUBREL and the next write event, one after another
  pub receiver_runs :
      (b : PacketStateItem) (rel : List ℕ) (len : ℕ)
      → item_at s.items i ≡ record b { packet_id = id; state = sendpubrec }
      → Acks id rel len
      → Accepted env s i id b rel len
  receiver_runs b rel len here is_rel =
      let (t, writes_pubrec, one) = Turn-pubrec env s i id sole pos b here in
      let sole_t = after-IsSole s t i id _ s.store _ one sole in
      let item_t = after_item s t i id _ s.store _ one sole in
      let (stays, two) =
        on_pubrel-Turn env t i id sole_t rel len is_rel.good is_rel.about b item_t in
      let u = (on_pubrel env t rel len).1 in
      let pair = Turn-trans s t i id _ s.store _ one sole u _ t.store [] two in
      let sole_u = after-IsSole s u i id _ t.store _ pair sole in
      let item_u = after_item s u i id _ t.store _ pair sole in
      let (v, writes_pubcomp, three) = Turn-pubcomp env u i id sole_u pos b item_u in
      let full = Turn-trans s u i id _ t.store _ pair sole v _ u.store _ three in
      record {
        waits = t;
        answered = u;
        done = v;
        writes_pubrec = writes_pubrec;
        gets_pubrel = ap (λ kept. (kept, u)) stays;
        writes_pubcomp = writes_pubcomp;
        waits_sock = one.same_sock;
        waits_client = one.same_client;
        answered_sock = pair.same_sock;
        answered_client = pair.same_client;
        whole = record {
          same_sock = full.same_sock;
          same_client = full.same_client;
          items = full.items;
          store = full.store ∙ pair.store ∙ one.store;
          offered = full.offered;
        };
      }
