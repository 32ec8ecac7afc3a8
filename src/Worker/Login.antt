-- ===== src/Worker/Login.antt =====
-- main/worker.cpp: the TLS handshake of a connection, and what the worker does with a CONNECT.
use esp32_mqtts_broker.Prelude.{
  ℕ, Bool, true, false, Option, none, some, List, [], ◌∷◌, ◌++◌, if◌then◌else◌, length,
}
use esp32_mqtts_broker.Run.{Run, ok, fault, null_pointer, ◌>>=◌}
use esp32_mqtts_broker.Hashmap
use esp32_mqtts_broker.Connect.{
  ConnReturn, disconnect, clean_session, unclean_session, Will, connack, connect_mqtt,
}
use esp32_mqtts_broker.Client.{Client, new_client, no_will, del_subs}
use esp32_mqtts_broker.Frame.{Incoming}
use esp32_mqtts_broker.Session.{closed, read, write, delall}
use esp32_mqtts_broker.Worker.State.{
  Worker, World, SockCid, Phase, uninit, tls_handshake, mqtt, TlsCode, failed, done, want_write,
  want_read, unknown, cell, deref, with_cell, with_client, with_effect, offer, write_conn,
}
use esp32_mqtts_broker.Worker.Drop.{drop_conn, uninitialised}

-- how a phase ends: with `continue`, or by going on to what comes below in the loop
pub data Next : Type 0 where
  over below : Worker → Next

abbrev pub in_phase : Worker → ℕ → SockCid → Phase → Worker
in_phase w sock sockst phs = with_cell w sock (record sockst { phs = phs })

-- `esp_tls_server_session_continue_async` and the tests on its answer; `phs` is the phase while the
-- handshake lasts
unfoldable pub continue_handshake : World → Worker → ℕ → SockCid → TlsCode → Run Next
continue_handshake world w sock sockst failed = drop_conn world w sock true >>= λ t. ok (over t)
continue_handshake world w sock sockst done =
    ok (over (in_phase (offer world w sock read).1 sock sockst mqtt))
continue_handshake world w sock sockst want_write =
    ok (over (in_phase (offer world w sock write).1 sock sockst tls_handshake))
continue_handshake world w sock sockst want_read =
    ok (over (in_phase (offer world w sock read).1 sock sockst tls_handshake))
continue_handshake world w sock sockst unknown = ok (below w)

-- the phases before MQTT; without a TLS context the socket is closed
unfoldable pub on_phase : World → Worker → ℕ → SockCid → Phase → Run Next
on_phase world w sock sockst uninit =
    if world.esp_tls_init w.effects
    then continue_handshake world w sock sockst (world.handshake w.effects)
    else ok (over (with_effect w (closed sock)))
on_phase world w sock sockst tls_handshake =
    continue_handshake world w sock sockst (world.handshake w.effects)
on_phase world w sock sockst mqtt = ok (below w)

-- what `connect_mqtt` wrote, newest first
unfoldable pub write_all : World → Worker → ℕ → List (List ℕ) → Worker
write_all world w sock [] = w
write_all world w sock (bytes ∷ older) = write_conn world (write_all world w sock older) sock bytes

-- a client that is not in the store: `sockst->client` is null if `add` loses it
unfoldable pub register : World → Worker → ℕ → SockCid → Run (Option Worker)
register world w sock sockst =
    if world.client_ok w.effects
    then (let c = length w.clients in
        let client = new_client (world.tree_ok w.effects) in
        Hashmap.add (world.adding w.effects) w.client_store sockst.clientid c >>= λ r.
        if r.0
        then (Hashmap.get r.1 sockst.clientid >>= λ found. elim found [
          | none ↦ fault null_pointer
          | some p ↦
              let t = record w { client_store = r.1; clients = w.clients ++ some client ∷ [] } in
              deref t.clients p >>= λ now. ok (
                some (
                  with_cell (with_client t p (record now { sock = some sock })) sock
                    (record sockst { client = some p })))
        ])
        else ok none)
    else ok none

-- the connection that the client had before is closed
unfoldable pub take_over : World → Worker → ℕ → Client → ℕ → Run Worker
take_over world w c client old =
    let t = (offer world w old delall).1 in
    cell t.sock_to_clientid old >>= λ previously_connected.
    let u = with_effect (with_cell t old (uninitialised previously_connected)) (closed old) in
    if client.clean_session
    then ok (with_client u c (del_subs (world.tree_ok w.effects) client))
    else ok u

-- a client that is in the store
unfoldable pub resume : World → Worker → ℕ → SockCid → ℕ → Run Worker
resume world w sock sockst c =
    let t = with_cell w sock (record sockst { client = some c }) in
    deref t.clients c >>= λ client. elim client.sock [
      | none ↦ ok t
      | some old ↦ take_over world t c client old
    ]

-- `will = will`, whose two vectors keep what they have where a copy gets no memory
abbrev pub stored_will : Bool → Bool → Will → Will → Will
stored_will topic_ok msg_ok old will = record will {
  topic = if topic_ok then will.topic else old.topic;
  msg = if msg_ok then will.msg else old.msg;
}

abbrev pub is_clean : ConnReturn → Bool
is_clean disconnect = false
is_clean clean_session = true
is_clean unclean_session = false

-- the answer to a CONNECT that was accepted; the flag of `conn_ack` is the constant `clean_session`
unfoldable pub welcome : World → Worker → ℕ → ConnReturn → Will → Run Worker
welcome world w sock ret will = cell w.sock_to_clientid sock >>= λ sockst. elim sockst.client [
  | none ↦ fault null_pointer
  | some c ↦ deref w.clients c >>= λ client.
      let t =
        write_conn world
          (with_client w c (record client {
            clean_session = is_clean ret;
            will =
                stored_will (world.will_topic_ok w.effects) (world.will_msg_ok w.effects)
                  client.will will;
            has_qued_msgs = false;
          }))
          sock (connack 0 true) in
      ok (offer world t sock (if client.has_qued_msgs then write else read)).1
]

-- the client of a connection that has just named itself
unfoldable pub enter : World → Worker → ℕ → SockCid → ConnReturn → Will → Run Worker
enter world w sock named ret will = Hashmap.get w.client_store named.clientid >>= λ found.
    elim found [
      | none ↦ register world w sock named >>= λ made. elim made [
        | none ↦ drop_conn world w sock true
        | some u ↦ welcome world u sock ret will
      ]
      | some c ↦ resume world w sock named c >>= λ u. welcome world u sock ret will
    ]

-- the branch of a connection that has no client identifier yet
unfoldable pub on_connect : World → Worker → ℕ → Incoming → Run Worker
on_connect world w sock p = cell w.sock_to_clientid sock >>= λ sockst.
    connect_mqtt (world.broker w.effects) p.buf p.cur_pos
      (record { clientid = sockst.clientid; will = no_will; written = [] })
    >>= λ r.
        let named = record sockst { clientid = r.1.clientid } in
        let t = write_all world (with_cell w sock named) sock r.1.written in
        elim r.0 [
          | disconnect ↦ drop_conn world t sock true
          | ret ↦ enter world t sock named ret r.1.will
        ]
