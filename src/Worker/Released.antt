-- ===== src/Worker/Released.antt =====
-- What `drop_conn` of main/worker.cpp leaves of a connection.
use esp32_mqtts_broker.Prelude.{ℕ, ◌%◌, ◌≡◌, refl, ◌∙◌, Bool, ◌&&◌, none, [], set, u16_mod}
use esp32_mqtts_broker.Run.{
  ok, Yields, Yields-bind, Yields-then, Yields-option, Yields-if, Yields-map,
}
use esp32_mqtts_broker.Hashmap
use esp32_mqtts_broker.Hashmap.Bucket.{Key}
use esp32_mqtts_broker.Session.{closed, delall}
use esp32_mqtts_broker.Worker.State.{
  Worker, World, SockCid, uninit, cell, deref, with_client, with_effect, offer,
}
use esp32_mqtts_broker.Worker.Fanout.{publish_by_topic}
use esp32_mqtts_broker.Worker.Drop.{
  publish_will, erase_client, leave, sign_off, uninitialised, drop_conn,
}
use esp32_mqtts_broker.Worker.Logins.{
  Same, SameLogins, Same-SameLogins, logins, logins-set, Same-clients, deref-kept,
  publish_by_topic-Same,
}

module _ (world : World) where
  pub publish_will-Same :
      (w : Worker) (c : ℕ) (sendwill : Bool) → Yields (publish_will world w c sendwill) (Same w)
  unfolding publish_will
  publish_will-Same w c sendwill =
      Yields-bind _ (Same w) (deref w.clients c) _ (deref-kept w.clients c) (λ client kept.
        let will = client.will in
        let gone = record client { sock = none } in
        let away = with_client w c gone in
        let id = world.esp_random w.effects % u16_mod in
        Yields-if (Same w) (will.presence_flag && sendwill) _ _
          (Yields-bind (Same away) _ (publish_by_topic world away will.topic will.msg will.qos id) _
            (publish_by_topic-Same world away will.topic will.msg will.qos id)
            (λ t same. Yields-bind _ _ (deref t.clients c) _ (deref-kept t.clients c) (λ now still.
              Same-clients t _ (still (record now { sock = client.sock }))
              ∙ same
              ∙ Same-clients w _ (kept gone))))
          refl)

  erase_client-SameLogins : (w : Worker) (id : Key) → Yields (erase_client w id) (SameLogins w)
  unfolding erase_client
  erase_client-SameLogins w id =
      Yields-then (SameLogins w) (Hashmap.get w.client_store id) _ (λ found.
        Yields-then (SameLogins w) (Hashmap.erase w.client_store id) _ (λ store.
          Yields-option (SameLogins w) found (ok (record w { client_store = store })) _ refl
            (λ c. refl)))

  leave-SameLogins : (w : Worker) (c : ℕ) (id : Key) → Yields (leave w c id) (SameLogins w)
  unfolding leave
  leave-SameLogins w c id = Yields-then (SameLogins w) (deref w.clients c) _ (λ client.
      Yields-if (SameLogins w) client.clean_session _ _ (erase_client-SameLogins w id) refl)

  sign_off-SameLogins :
      (w : Worker) (sockst : SockCid) (sendwill : Bool)
      → Yields (sign_off world w sockst sendwill) (SameLogins w)
  unfolding sign_off
  sign_off-SameLogins w sockst sendwill =
      Yields-option (SameLogins w) sockst.client (ok w) _ refl (λ c.
        Yields-bind (Same w) _ (publish_will world w c sendwill) _ (publish_will-Same w c sendwill)
          (λ t same.
            Yields-map (SameLogins t) (SameLogins w) (leave t c sockst.clientid)
              (leave-SameLogins t c sockst.clientid) (λ u again. again ∙ Same-SameLogins w t same)))

  -- When `drop_conn` returns, its connection has no client, no client identifier and no phase, and
  -- every other connection has the client, the identifier and the phase that it had, whether the
  -- client's will was published or not.
  pub drop_conn-Released :
      (w : Worker) (sock : ℕ) (sendwill : Bool)
      → Yields
          (drop_conn world w sock sendwill)
          λ t. logins t.sock_to_clientid ≡ set (logins w.sock_to_clientid) sock (none, [], uninit)
  unfolding drop_conn offer
  drop_conn-Released w sock sendwill = Yields-then _ (cell w.sock_to_clientid sock) _ (λ sockst.
      let shut = with_effect (offer world w sock delall).1 (closed sock) in
      Yields-bind (SameLogins w) _ (sign_off world shut sockst sendwill) _
        (sign_off-SameLogins shut sockst sendwill)
        (λ t same.
          Yields-then _ (cell t.sock_to_clientid sock) _
            (λ now. logins-set t.sock_to_clientid sock (uninitialised now) ∙ rw same refl)))
