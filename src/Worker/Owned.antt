-- ===== src/Worker/Owned.antt =====
-- The client store of main/worker.cpp holds no deleted client, after whatever event.
use esp32_mqtts_broker.Prelude.{
  ℕ, ◌≡◌, refl, Bool, true, Option, none, some, List, [], ◌∷◌, ◌++◌, arith, length, set,
}
use esp32_mqtts_broker.Run.{
  ok, Yields, Yields-bind, Yields-then, Yields-option, Yields-if, Yields-run, Yields-ok,
}
use esp32_mqtts_broker.Hashmap
use esp32_mqtts_broker.Hashmap.{Hashmap}
use esp32_mqtts_broker.Hashmap.Bucket.{Key}
use esp32_mqtts_broker.Hashmap.Holders.{add-holders}
use esp32_mqtts_broker.Connect.{
  ConnReturn, disconnect, clean_session, unclean_session, Connection, Will, connect_mqtt,
}
use esp32_mqtts_broker.Client.{Client, new_client, no_will, del_subs}
use esp32_mqtts_broker.Frame.{Incoming}
use esp32_mqtts_broker.Session.{closed, delall, Operation}
use esp32_mqtts_broker.Worker.{Arrival, on_message}
use esp32_mqtts_broker.Worker.State.{
  Worker, World, SockCid, cell, deref, with_cell, with_client, with_effect, offer, write_conn,
}
use esp32_mqtts_broker.Worker.Drop.{uninitialised, drop_conn}
use esp32_mqtts_broker.Worker.Login.{
  write_all, register, take_over, resume, welcome, enter, on_connect,
}
use esp32_mqtts_broker.Worker.Logins.{lives, deref-kept}
use esp32_mqtts_broker.Worker.Rule.{Inductive}
use esp32_mqtts_broker.Worker.Events.{on_message-Keeps}
use esp32_mqtts_broker.Worker.Deleted.{same_cell, same_client, drop_conn-IsOwned, on_phase-IsOwned}
use esp32_mqtts_broker.Worker.Stock.{
  IsOwned, SameStock, SameStock-IsOwned, Same-SameStock, with_cell-SameStock, with_client-SameStock,
  alive-append,
}

-- a client is made, and stored if there is memory for its node
module _ (n : ℕ) (w : Worker) (o : IsOwned n w) where
  registered :
      (mem : Hashmap.Allocs) (id : Key) (client : Client) (r : Bool × Hashmap ℕ)
      → Hashmap.add mem w.client_store id (length w.clients) ≡ ok r
      → IsOwned n (record w { client_store = r.1; clients = w.clients ++ some client ∷ [] })
  registered mem id client r run = record {
    cells = o.cells;
    owned = λ d.
        let more = Yields-ok _ _ r (add-holders d mem w.client_store id (length w.clients)) run in
        omega (arith, more, o.owned d, alive-append d w.clients client);
  }

abbrev Made : ℕ → Option Worker → Type 0
Made n none = Unit
Made n (some u) = IsOwned n u

module _ (world : World) (n : ℕ) where
  write_all-SameStock :
      (w : Worker) (sock : ℕ) (written : List (List ℕ))
      → SameStock w (write_all world w sock written)
  unfolding write_all write_conn
  write_all-SameStock w sock [] = refl
  write_all-SameStock w sock (bytes ∷ older) = write_all-SameStock w sock older

  welcome-IsOwned :
      (w : Worker) (sock : ℕ) (ret : ConnReturn) (will : Will)
      → IsOwned n w
      → Yields (welcome world w sock ret will) (IsOwned n)
  unfolding welcome write_conn offer
  welcome-IsOwned w sock ret will o =
      Yields-then (IsOwned n) (cell w.sock_to_clientid sock) _ (λ sockst.
        Yields-option (IsOwned n) sockst.client _ _ tt (λ c.
          Yields-bind _ (IsOwned n) (deref w.clients c) _ (deref-kept w.clients c)
            (λ client kept. SameStock-IsOwned n w _ o (with_client-SameStock w c _ (kept _)))))

  take_over-IsOwned :
      (w : Worker) (c : ℕ) (client : Client) (old : ℕ)
      → IsOwned n w
      → ((now : Client) → lives (set w.clients c (some now)) ≡ lives w.clients)
      → Yields (take_over world w c client old) (IsOwned n)
  unfolding take_over offer
  take_over-IsOwned w c client old o kept =
      Yields-then (IsOwned n) (cell w.sock_to_clientid old) _ (λ previously_connected.
        let t = (offer world w old delall).1 in
        let reset = with_cell t old (uninitialised previously_connected) in
        let u = with_effect reset (closed old) in
        let still : IsOwned n u = SameStock-IsOwned n w u o (with_cell-SameStock w old _) in
        Yields-if (IsOwned n) client.clean_session
          (ok (with_client u c (del_subs (world.tree_ok w.effects) client))) (ok u)
          (same_client world n u c _ still (kept _)) still)

  register-IsOwned :
      (w : Worker) (sock : ℕ) (named : SockCid)
      → IsOwned n w
      → Yields (register world w sock named) (Made n)
  unfolding register
  register-IsOwned w sock named o =
      let client = new_client (world.tree_ok w.effects) in
      let adding =
        Hashmap.add (world.adding w.effects) w.client_store named.clientid (length w.clients) in
      Yields-if (Made n) (world.client_ok w.effects) _ _
        (Yields-bind (λ r. adding ≡ ok r) (Made n) adding _ (Yields-run _ adding (λ r e. e))
          (λ r run.
            let t = record w { client_store = r.1; clients = w.clients ++ some client ∷ [] } in
            let made : IsOwned n t = registered n w o _ named.clientid client r run in
            Yields-if (Made n) r.0 _ _
              (Yields-then (Made n) (Hashmap.get r.1 named.clientid) _ (λ found.
                Yields-option (Made n) found _ _ tt (λ p.
                  Yields-bind _ (Made n) (deref t.clients p) _ (deref-kept t.clients p) (λ now kept.
                    same_cell world n (with_client t p _) sock _
                      (same_client world n t p _ made (kept _))))))
              tt))
        tt

  resume-IsOwned :
      (w : Worker) (sock : ℕ) (named : SockCid) (c : ℕ)
      → IsOwned n w
      → Yields (resume world w sock named c) (IsOwned n)
  unfolding resume
  resume-IsOwned w sock named c o =
      let t = with_cell w sock (record named { client = some c }) in
      let still = same_cell world n w sock (record named { client = some c }) o in
      Yields-bind _ (IsOwned n) (deref t.clients c) _ (deref-kept t.clients c) (λ client kept.
        Yields-option (IsOwned n) client.sock _ _ still
          (λ old. take_over-IsOwned t c client old still kept))

  Made-IsOwned :
      (w : Worker) (sock : ℕ) (ret : ConnReturn) (will : Will) (made : Option Worker)
      → IsOwned n w
      → Made n made
      → Yields
          (elim made [
            | none ↦ drop_conn world w sock true
            | some u ↦ welcome world u sock ret will
          ])
          (IsOwned n)
  Made-IsOwned w sock ret will none o m = drop_conn-IsOwned world n w sock true o
  Made-IsOwned w sock ret will (some u) o m = welcome-IsOwned u sock ret will m

  enter-IsOwned :
      (w : Worker) (sock : ℕ) (named : SockCid) (ret : ConnReturn) (will : Will)
      → IsOwned n w
      → Yields (enter world w sock named ret will) (IsOwned n)
  unfolding enter
  enter-IsOwned w sock named ret will o =
      Yields-then (IsOwned n) (Hashmap.get w.client_store named.clientid) _ (λ found.
        Yields-option (IsOwned n) found _ _
          (Yields-bind (Made n) (IsOwned n) (register world w sock named) _
            (register-IsOwned w sock named o) (λ made m. Made-IsOwned w sock ret will made o m))
          (λ c.
            Yields-bind (IsOwned n) (IsOwned n) (resume world w sock named c) _
              (resume-IsOwned w sock named c o) (λ u kept. welcome-IsOwned u sock ret will kept)))

  answered-IsOwned :
      (w : Worker) (sock : ℕ) (named : SockCid) (ret : ConnReturn) (will : Will)
      → IsOwned n w
      → Yields
          (elim ret [
            | disconnect ↦ drop_conn world w sock true
            | r ↦ enter world w sock named r will
          ])
          (IsOwned n)
  answered-IsOwned w sock named disconnect will o = drop_conn-IsOwned world n w sock true o
  answered-IsOwned w sock named clean_session will o =
      enter-IsOwned w sock named clean_session will o
  answered-IsOwned w sock named unclean_session will o =
      enter-IsOwned w sock named unclean_session will o

  on_connect-IsOwned :
      (w : Worker) (sock : ℕ) (p : Incoming)
      → IsOwned n w
      → Yields (on_connect world w sock p) (IsOwned n)
  unfolding on_connect
  on_connect-IsOwned w sock p o =
      Yields-then (IsOwned n) (cell w.sock_to_clientid sock) _ (λ sockst.
        let s : Connection = record { clientid = sockst.clientid; will = no_will; written = [] } in
        Yields-then (IsOwned n) (connect_mqtt (world.broker w.effects) p.buf p.cur_pos s) _ (λ r.
          let named : SockCid = record sockst { clientid = r.1.clientid } in
          let cell_set = with_cell w sock named in
          answered-IsOwned (write_all world cell_set sock r.1.written) sock named r.0 r.1.will (
            SameStock-IsOwned n cell_set _ (same_cell world n w sock named o)
              (write_all-SameStock cell_set sock r.1.written))))

  IsOwned-Inductive : Inductive world (IsOwned n)
  IsOwned-Inductive = record {
    same = λ w t o same. SameStock-IsOwned n w t o (Same-SameStock w t same);
    drops = drop_conn-IsOwned world n;
    phases = λ w sock sockst o e. on_phase-IsOwned world n w sock sockst sockst.phs o;
    connects = on_connect-IsOwned;
  }

  -- Whatever message the worker takes from its queue, whatever the connection gives and however the
  -- outside answers: if the handling of the message returns, there are as many connections as
  -- before; and if no client stood twice in the client store, and no deleted one in it, then it is
  -- so again: what `erase_client` deletes, no other node holds, also where a rehash has lost nodes.
  pub on_message-IsOwned :
      (a : Arrival) (w t : Worker) (sock : Option ℕ) (op : Operation)
      → IsOwned n w
      → on_message world a w sock op ≡ ok t
      → IsOwned n t
  on_message-IsOwned a w t sock op o run =
      on_message-Keeps world (IsOwned n) IsOwned-Inductive a w t sock op o run
