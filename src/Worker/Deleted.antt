-- ===== src/Worker/Deleted.antt =====
-- `drop_conn` and the handshake of main/worker.cpp delete no client that the client store holds.
use esp32_mqtts_broker.Prelude.{ℕ, ◌≡◌, refl, Bool, true, Option, none, some, arith, set}
use esp32_mqtts_broker.Run.{
  ok, Yields, Yields-bind, Yields-then, Yields-option, Yields-if, Yields-run, Yields-ok,
}
use esp32_mqtts_broker.Hashmap
use esp32_mqtts_broker.Hashmap.{Hashmap}
use esp32_mqtts_broker.Hashmap.Bucket.{Key}
use esp32_mqtts_broker.Hashmap.Holders.{erase-holders}
use esp32_mqtts_broker.Client.{Client}
use esp32_mqtts_broker.Session.{closed, delall}
use esp32_mqtts_broker.Worker.State.{
  Worker, World, SockCid, Phase, uninit, tls_handshake, mqtt, TlsCode, failed, done, want_write,
  want_read, unknown, cell, deref, with_cell, with_client, with_effect, offer,
}
use esp32_mqtts_broker.Worker.Drop.{
  erase_client, leave, sign_off, uninitialised, drop_conn, publish_will,
}
use esp32_mqtts_broker.Worker.Login.{continue_handshake, on_phase}
use esp32_mqtts_broker.Worker.Logins.{lives, deref-kept}
use esp32_mqtts_broker.Worker.Released.{publish_will-Same}
use esp32_mqtts_broker.Worker.Rule.{NextHolds}
use esp32_mqtts_broker.Worker.Stock.{
  IsOwned, SameStock-IsOwned, Same-SameStock, with_cell-SameStock, with_client-SameStock,
  alive-le-one, alive-set-none,
}

module _ (n : ℕ) (w : Worker) (o : IsOwned n w) where
  -- the node of a key is erased, and the client that it held deleted
  erased :
      (id : Key) (store : Hashmap ℕ) (found : Option ℕ)
      → Hashmap.get w.client_store id ≡ ok found
      → Hashmap.erase w.client_store id ≡ ok store
      → let t = record w { client_store = store } in
        Yields
          (elim found [ none ↦ ok t | some c ↦ ok (record t { clients = set t.clients c none }) ])
          (IsOwned n)
  erased id store none got run = record {
    cells = o.cells;
    owned = λ d.
        let less = Yields-ok _ _ store (erase-holders d w.client_store id none got) run in
        omega (arith, less, o.owned d);
  }
  erased id store (some c) got run = record {
    cells = o.cells;
    owned = λ d.
        let less = Yields-ok _ _ store (erase-holders d w.client_store id (some c) got) run in
        let one = alive-le-one d (lives w.clients) in
        ground (arith, less, o.owned d, one, alive-set-none d c w.clients);
  }

module _ (world : World) (n : ℕ) where
  pub same_cell :
      (w : Worker) (sock : ℕ) (sockst : SockCid) → IsOwned n w → IsOwned n (with_cell w sock sockst)
  same_cell w sock sockst o = SameStock-IsOwned n w _ o (with_cell-SameStock w sock sockst)

  pub same_client :
      (w : Worker) (c : ℕ) (client : Client)
      → IsOwned n w
      → lives (set w.clients c (some client)) ≡ lives w.clients
      → IsOwned n (with_client w c client)
  same_client w c client o kept =
      SameStock-IsOwned n w (with_client w c client) o (with_client-SameStock w c client kept)

  erase_client-IsOwned :
      (w : Worker) (id : Key) → IsOwned n w → Yields (erase_client w id) (IsOwned n)
  unfolding erase_client
  erase_client-IsOwned w id o =
      Yields-bind (λ found. Hashmap.get w.client_store id ≡ ok found) (IsOwned n)
        (Hashmap.get w.client_store id) _ (Yields-run _ (Hashmap.get w.client_store id) (λ f e. e))
        (λ found got.
          Yields-bind (λ store. Hashmap.erase w.client_store id ≡ ok store) (IsOwned n)
            (Hashmap.erase w.client_store id) _
            (Yields-run _ (Hashmap.erase w.client_store id) (λ s e. e))
            (λ store run. erased n w o id store found got run))

  leave-IsOwned : (w : Worker) (c : ℕ) (id : Key) → IsOwned n w → Yields (leave w c id) (IsOwned n)
  unfolding leave
  leave-IsOwned w c id o =
      Yields-bind _ (IsOwned n) (deref w.clients c) _ (deref-kept w.clients c) (λ client kept.
        Yields-if (IsOwned n) client.clean_session _ _ (erase_client-IsOwned w id o)
          (same_client w c _ o (kept (record client { sock = none }))))

  sign_off-IsOwned :
      (w : Worker) (sockst : SockCid) (sendwill : Bool)
      → IsOwned n w
      → Yields (sign_off world w sockst sendwill) (IsOwned n)
  unfolding sign_off
  sign_off-IsOwned w sockst sendwill o = Yields-option (IsOwned n) sockst.client (ok w) _ o (λ c.
      Yields-bind _ (IsOwned n) (publish_will world w c sendwill) _
        (publish_will-Same world w c sendwill)
        (λ t same.
          leave-IsOwned t c sockst.clientid (SameStock-IsOwned n w t o (Same-SameStock w t same))))

  pub drop_conn-IsOwned :
      (w : Worker) (sock : ℕ) (sendwill : Bool)
      → IsOwned n w
      → Yields (drop_conn world w sock sendwill) (IsOwned n)
  unfolding drop_conn offer
  drop_conn-IsOwned w sock sendwill o =
      Yields-then (IsOwned n) (cell w.sock_to_clientid sock) _ (λ sockst.
        let shut = with_effect (offer world w sock delall).1 (closed sock) in
        Yields-bind (IsOwned n) _ (sign_off world shut sockst sendwill) _
          (sign_off-IsOwned shut sockst sendwill (SameStock-IsOwned n w shut o refl))
          (λ t kept.
            Yields-then (IsOwned n) (cell t.sock_to_clientid sock) _
              (λ now. same_cell t sock (uninitialised now) kept)))

  continue_handshake-IsOwned :
      (w : Worker) (sock : ℕ) (sockst : SockCid) (code : TlsCode)
      → IsOwned n w
      → Yields (continue_handshake world w sock sockst code) (NextHolds (IsOwned n))
  unfolding continue_handshake offer
  continue_handshake-IsOwned w sock sockst failed o =
      Yields-bind (IsOwned n) _ (drop_conn world w sock true) _ (drop_conn-IsOwned w sock true o)
        (λ t kept. kept)
  continue_handshake-IsOwned w sock sockst done o =
      SameStock-IsOwned n w _ o (with_cell-SameStock w sock _)
  continue_handshake-IsOwned w sock sockst want_write o =
      SameStock-IsOwned n w _ o (with_cell-SameStock w sock _)
  continue_handshake-IsOwned w sock sockst want_read o =
      SameStock-IsOwned n w _ o (with_cell-SameStock w sock _)
  continue_handshake-IsOwned w sock sockst unknown o = o

  pub on_phase-IsOwned :
      (w : Worker) (sock : ℕ) (sockst : SockCid) (phs : Phase)
      → IsOwned n w
      → Yields (on_phase world w sock sockst phs) (NextHolds (IsOwned n))
  unfolding on_phase
  on_phase-IsOwned w sock sockst uninit o =
      Yields-if (NextHolds (IsOwned n)) (world.esp_tls_init w.effects) _ _
        (continue_handshake-IsOwned w sock sockst (world.handshake w.effects) o)
        (SameStock-IsOwned n w _ o refl)
  on_phase-IsOwned w sock sockst tls_handshake o =
      continue_handshake-IsOwned w sock sockst (world.handshake w.effects) o
  on_phase-IsOwned w sock sockst mqtt o = o
