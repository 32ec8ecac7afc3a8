-- ===== src/Worker/Entered.antt =====
-- The handshake and the CONNECT of main/worker.cpp, and the link of client and client identifier.
use esp32_mqtts_broker.Prelude.{
  ℕ, ◌<◌, ◌≡◌, ◌≢◌, refl, ◌∙◌, true, not, Option, none, some, List, [], ◌∷◌, ◌++◌, set, length,
  arith,
}
use esp32_mqtts_broker.Run.{
  ok, Yields, Yields-bind, Yields-then, Yields-option, Yields-if, Yields-run,
}
use esp32_mqtts_broker.Hashmap
use esp32_mqtts_broker.Hashmap.{is_empty}
use esp32_mqtts_broker.Connect.{
  ConnReturn, disconnect, clean_session, unclean_session, Connection, Will, connect_mqtt,
}
use esp32_mqtts_broker.Connect.Accepted.{connect_mqtt-Accepted}
use esp32_mqtts_broker.Client.{Client, new_client, no_will, del_subs}
use esp32_mqtts_broker.Frame.{Incoming}
use esp32_mqtts_broker.Session.{closed, delall}
use esp32_mqtts_broker.Worker.State.{
  Worker, World, SockCid, Phase, uninit, tls_handshake, mqtt, TlsCode, failed, done, want_write,
  want_read, unknown, cell, deref, with_cell, with_client, with_effect, offer, write_conn,
}
use esp32_mqtts_broker.Worker.Drop.{drop_conn, uninitialised}
use esp32_mqtts_broker.Worker.Login.{
  continue_handshake, on_phase, write_all, register, take_over, resume, welcome, enter, on_connect,
}
use esp32_mqtts_broker.Worker.Logins.{SameLogins, login, logins, logins-set}
use esp32_mqtts_broker.Worker.Rule.{NextHolds}
use esp32_mqtts_broker.Worker.Identified.{
  Paired, AllPaired-set_again, IsPaired, SameLogins-IsPaired, with_cell-IsPaired,
  drop_conn-IsPaired, drop_named,
}

abbrev pub Made : Option Worker → Type 0
Made none = Unit
Made (some u) = IsPaired u

-- what a CONNECT that is accepted brings
abbrev pub Names : ConnReturn × Connection → Type 0
Names r = r.0 ≢ disconnect → 0 < length r.1.clientid

full : (xs : List ℕ) → 0 < length xs → true ≡ not (is_empty xs)
full [] h = absurd (omega arith)
full (x ∷ xs) h = refl

module _ (world : World) where
  continue_handshake-Paired :
      (w : Worker) (sock : ℕ) (sockst : SockCid) (code : TlsCode)
      → IsPaired w
      → Paired (login sockst)
      → Yields (continue_handshake world w sock sockst code) (NextHolds IsPaired)
  unfolding continue_handshake offer IsPaired
  continue_handshake-Paired w sock sockst failed all p =
      Yields-bind IsPaired _ (drop_conn world w sock true) _
        (drop_conn-IsPaired world w sock true all) (λ t paired. paired)
  continue_handshake-Paired w sock sockst done all p =
      with_cell-IsPaired w sock (record sockst { phs = mqtt }) all p
  continue_handshake-Paired w sock sockst want_write all p =
      with_cell-IsPaired w sock (record sockst { phs = tls_handshake }) all p
  continue_handshake-Paired w sock sockst want_read all p =
      with_cell-IsPaired w sock (record sockst { phs = tls_handshake }) all p
  continue_handshake-Paired w sock sockst unknown all p = all

  pub on_phase-Paired :
      (w : Worker) (sock : ℕ) (sockst : SockCid) (phs : Phase)
      → IsPaired w
      → Paired (login sockst)
      → Yields (on_phase world w sock sockst phs) (NextHolds IsPaired)
  unfolding on_phase
  on_phase-Paired w sock sockst uninit all p =
      Yields-if (NextHolds IsPaired) (world.esp_tls_init w.effects) _ _
        (continue_handshake-Paired w sock sockst (world.handshake w.effects) all p)
        (SameLogins-IsPaired w (with_effect w (closed sock)) all refl)
  on_phase-Paired w sock sockst tls_handshake all p =
      continue_handshake-Paired w sock sockst (world.handshake w.effects) all p
  on_phase-Paired w sock sockst mqtt all p = all

  write_all-SameLoginsLogins :
      (w : Worker) (sock : ℕ) (written : List (List ℕ))
      → SameLogins w (write_all world w sock written)
  unfolding write_all write_conn
  write_all-SameLoginsLogins w sock [] = refl
  write_all-SameLoginsLogins w sock (bytes ∷ older) = write_all-SameLoginsLogins w sock older

  welcome-IsPaired :
      (w : Worker) (sock : ℕ) (ret : ConnReturn) (will : Will)
      → IsPaired w
      → Yields (welcome world w sock ret will) IsPaired
  unfolding welcome write_conn offer
  welcome-IsPaired w sock ret will all =
      Yields-then IsPaired (cell w.sock_to_clientid sock) _ (λ sockst.
        Yields-option IsPaired sockst.client _ _ tt (λ c.
          Yields-then IsPaired (deref w.clients c) _ (λ client. SameLogins-IsPaired w _ all refl)))

  take_over-IsPaired :
      (w : Worker) (c : ℕ) (client : Client) (old : ℕ)
      → IsPaired w
      → Yields (take_over world w c client old) IsPaired
  unfolding take_over offer
  take_over-IsPaired w c client old all =
      Yields-then IsPaired (cell w.sock_to_clientid old) _ (λ previously_connected.
        let t = (offer world w old delall).1 in
        let reset = with_cell t old (uninitialised previously_connected) in
        let u = with_effect reset (closed old) in
        let paired : IsPaired u =
          SameLogins-IsPaired reset u
            (with_cell-IsPaired t old (uninitialised previously_connected)
              (SameLogins-IsPaired w t all refl) refl)
            refl in
        Yields-if IsPaired client.clean_session
          (ok (with_client u c (del_subs (world.tree_ok w.effects) client))) (ok u)
          (SameLogins-IsPaired u _ paired refl) paired)

  module _ (w : Worker) (sock : ℕ) (named : SockCid) (all : IsPaired w)
      (some_name : true ≡ not (is_empty named.clientid)) (v : Worker)
      (same : SameLogins (with_cell w sock named) v) where
    -- the connection gets its client
    partner :
        (t : Worker) (c : ℕ)
        → logins t.sock_to_clientid
          ≡ set (logins v.sock_to_clientid) sock (some c, named.clientid, named.phs)
        → IsPaired t
    unfolding IsPaired
    partner t c e =
        let before : logins v.sock_to_clientid
            ≡ set (logins w.sock_to_clientid) sock (login named) =
          same ∙ logins-set w.sock_to_clientid sock named in
        rw (e, before)
          (AllPaired-set_again (logins w.sock_to_clientid) sock (login named)
            (some c, named.clientid, named.phs) all some_name)

    register-IsPaired : Yields (register world v sock named) Made
    unfolding register
    register-IsPaired =
        let client = new_client (world.tree_ok v.effects) in
        let adding =
          Hashmap.add (world.adding v.effects) v.client_store named.clientid (length v.clients) in
        Yields-if Made (world.client_ok v.effects) _ _
          (Yields-then Made adding _ (λ r.
            Yields-if Made r.0 _ _
              (Yields-then Made (Hashmap.get r.1 named.clientid) _ (λ found.
                Yields-option Made found _ _ tt (λ p.
                  Yields-then Made (deref (v.clients ++ some client ∷ []) p) _
                    (λ now. partner _ p (logins-set v.sock_to_clientid sock _)))))
              tt))
          tt

    Made-IsPaired :
        (ret : ConnReturn) (will : Will) (made : Option Worker)
        → Made made
        → Yields
            (elim made [
              | none ↦ drop_conn world v sock true
              | some u ↦ welcome world u sock ret will
            ])
            IsPaired
    Made-IsPaired ret will none m = drop_named world w v sock named all same
    Made-IsPaired ret will (some u) m = welcome-IsPaired u sock ret will m

    resume-IsPaired : (c : ℕ) → Yields (resume world v sock named c) IsPaired
    unfolding resume
    resume-IsPaired c =
        let t = with_cell v sock (record named { client = some c }) in
        let paired : IsPaired t = partner t c (logins-set v.sock_to_clientid sock _) in
        Yields-then IsPaired (deref t.clients c) _ (λ client.
          Yields-option IsPaired client.sock _ _ paired
            (λ old. take_over-IsPaired t c client old paired))

    enter-IsPaired :
        (ret : ConnReturn) (will : Will) → Yields (enter world v sock named ret will) IsPaired
    unfolding enter
    enter-IsPaired ret will =
        Yields-then IsPaired (Hashmap.get v.client_store named.clientid) _ (λ found.
          Yields-option IsPaired found _ _
            (Yields-bind Made IsPaired (register world v sock named) _ register-IsPaired
              (Made-IsPaired ret will))
            (λ c.
              Yields-bind IsPaired IsPaired (resume world v sock named c) _ (resume-IsPaired c)
                (λ u paired. welcome-IsPaired u sock ret will paired)))

  answered-IsPaired :
      (w : Worker) (sock : ℕ) (sockst : SockCid)
      → IsPaired w
      → (ret : ConnReturn) (conn : Connection) → Names (ret, conn)
      → let named : SockCid = record sockst { clientid = conn.clientid } in
        let t = write_all world (with_cell w sock named) sock conn.written in
        Yields
          (elim ret [
            | disconnect ↦ drop_conn world t sock true
            | r ↦ enter world t sock named r conn.will
          ])
          IsPaired
  answered-IsPaired w sock sockst all disconnect conn names =
      let named : SockCid = record sockst { clientid = conn.clientid } in
      drop_named world w _ sock named all
        (write_all-SameLoginsLogins (with_cell w sock named) sock conn.written)
  answered-IsPaired w sock sockst all clean_session conn names =
      let named : SockCid = record sockst { clientid = conn.clientid } in
      enter-IsPaired w sock named all (full conn.clientid (names λ e. cc)) _
        (write_all-SameLoginsLogins (with_cell w sock named) sock conn.written) clean_session
        conn.will
  answered-IsPaired w sock sockst all unclean_session conn names =
      let named : SockCid = record sockst { clientid = conn.clientid } in
      enter-IsPaired w sock named all (full conn.clientid (names λ e. cc)) _
        (write_all-SameLoginsLogins (with_cell w sock named) sock conn.written) unclean_session
        conn.will

  -- A CONNECT, whether it is accepted or not, leaves every connection with a client exactly if it
  -- has a client identifier.
  pub on_connect-IsPaired :
      (w : Worker) (sock : ℕ) (p : Incoming)
      → IsPaired w
      → Yields (on_connect world w sock p) IsPaired
  unfolding on_connect
  on_connect-IsPaired w sock p all =
      Yields-then IsPaired (cell w.sock_to_clientid sock) _ (λ sockst.
        let b = world.broker w.effects in
        let s : Connection = record { clientid = sockst.clientid; will = no_will; written = [] } in
        Yields-bind Names IsPaired (connect_mqtt b p.buf p.cur_pos s) _
          (Yields-run Names (connect_mqtt b p.buf p.cur_pos s)
            (λ r e ne. (connect_mqtt-Accepted b p.buf p.cur_pos s r e ne).identified.0))
          (λ r names. answered-IsPaired w sock sockst all r.0 r.1 names))
