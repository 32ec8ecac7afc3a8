-- ===== src/Worker/Shared.antt =====
-- Two connections of one client in main/worker.cpp, and the pointer that one of them is left with.
use esp32_mqtts_broker.Prelude.{
  ℕ, zero, suc, ◌<◌, ◌≡◌, refl, ap, ◌∙◌, Bool, true, false, ◌&&◌, Option, none, some, List, [], ◌∷◌,
  arith, set, length, length-set, ◌==◌,
}
use esp32_mqtts_broker.Run.{ok, fault, dangling_pointer, ◌>>=◌, Returns}
use esp32_mqtts_broker.Hashmap
use esp32_mqtts_broker.Hashmap.{Hashmap}
use esp32_mqtts_broker.Hashmap.Bucket.{find}
use esp32_mqtts_broker.Hashmap.Lookup.{entries, IsValid, get-find}
use esp32_mqtts_broker.Hashmap.Modify.{erase-Erases}
use esp32_mqtts_broker.Connect.{ConnReturn, Will}
use esp32_mqtts_broker.Client.{Client}
use esp32_mqtts_broker.Session.{closed, delall}
use esp32_mqtts_broker.Worker.{on_disconnect}
use esp32_mqtts_broker.Worker.State.{
  Worker, World, SockCid, cell, deref, with_client, with_cell, with_effect, offer,
}
use esp32_mqtts_broker.Worker.Drop.{
  drop_conn, sign_off, publish_will, leave, erase_client, uninitialised,
}
use esp32_mqtts_broker.Worker.Login.{enter}
use esp32_mqtts_broker.Worker.Subscribing.{client_of}
use esp32_mqtts_broker.Worker.Returning.{cell-set, cell-set_ne, deref-set, enter-Resumed}

deref-deleted :
    (cs : List (Option Client)) (c : ℕ) (client : Client)
    → deref cs c ≡ ok client
    → deref (set cs c none) c ≡ fault dangling_pointer
unfolding deref
deref-deleted [] c client h = cc
deref-deleted (none ∷ cs) zero client h = refl
deref-deleted (some x ∷ cs) zero client h = refl
deref-deleted (none ∷ cs) (suc c) client h = deref-deleted cs c client h
deref-deleted (some x ∷ cs) (suc c) client h = deref-deleted cs c client h

and_false : (b : Bool) → (b && false) ≡ false
and_false true = refl
and_false false = refl

module _ (world : World) where
  -- a client that asked for a clean session is deleted when it signs off without its will
  sign_off-deletes :
      (w : Worker) (c : ℕ) (sockst : SockCid) (client : Client) (store : Hashmap ℕ)
      → deref w.clients c ≡ ok client
      → client.clean_session ≡ true
      → Hashmap.get w.client_store sockst.clientid ≡ ok (some c)
      → Hashmap.erase w.client_store sockst.clientid ≡ ok store
      → sign_off world w (record sockst { client = some c }) false
        ≡ ok (record w { client_store = store; clients = set w.clients c none })
  unfolding sign_off publish_will leave erase_client
  sign_off-deletes w c sockst client store there clean found erased =
      rw
        (
          there,
          ◌>>=◌,
          and_false client.will.presence_flag,
          ◌>>=◌,
          there,
          ◌>>=◌,
          clean,
          found,
          ◌>>=◌,
          erased,
          ◌>>=◌,
        )
        refl

  disconnect-dangles :
      (w : Worker) (sock other c : ℕ) (first second : SockCid) (client : Client) (store : Hashmap ℕ)
      → (sock == other) ≡ false
      → cell w.sock_to_clientid sock ≡ ok (record first { client = some c })
      → cell w.sock_to_clientid other ≡ ok second
      → deref w.clients c ≡ ok client
      → Hashmap.get w.client_store first.clientid ≡ ok (some c)
      → Hashmap.erase w.client_store first.clientid ≡ ok store
      → Returns (on_disconnect world w sock) λ t.
        (cell t.sock_to_clientid other ≡ ok second) × (deref t.clients c ≡ fault dangling_pointer)
  unfolding on_disconnect drop_conn client_of offer
  disconnect-dangles w sock other c first second client store apart here there exists found erased =
      let clean = record client { clean_session = true } in
      let t = with_client w c clean in
      let shut = with_effect (offer world t sock delall).1 (closed sock) in
      let now = deref-set w.clients c client clean exists in
      let gone = record shut { client_store = store; clients = set shut.clients c none } in
      let leaves = sign_off-deletes shut c first clean store now refl found erased in
      (
        with_cell gone sock (uninitialised (record first { client = some c })),
        rw (here, ◌>>=◌, exists, ◌>>=◌, leaves, ◌>>=◌, here, ◌>>=◌) refl,
        (
          cell-set_ne w.sock_to_clientid sock other _ apart ∙ there,
          deref-deleted shut.clients c clean now,
        ),
      )

  -- A client is in the client store, a valid table, under the name that it gives, and has no socket. It
  -- connects on `sock` and then, without leaving, on another socket `other`, both of which have
  -- their place in the array, and disconnects from `sock`. All three handlers return; the connection on
  -- `other` still refers to the client, which is deleted.
  pub second_connection-dangles :
      (w : Worker) (sock other c : ℕ) (first second : SockCid) (ret again : ConnReturn)
      (will new_will : Will) (client : Client)
      → (sock == other) ≡ false
      → sock < length w.sock_to_clientid
      → other < length w.sock_to_clientid
      → first.clientid ≡ second.clientid
      → IsValid w.client_store
      → find first.clientid (entries w.client_store) ≡ some c
      → deref w.clients c ≡ ok client
      → client.sock ≡ none
      → Returns
          (enter world w sock first ret will >>= λ t.
            enter world t other second again new_will >>= λ u. on_disconnect world u sock)
          λ v.
            (cell v.sock_to_clientid other ≡ ok (record second { client = some c }))
            × (deref v.clients c ≡ fault dangling_pointer)
  second_connection-dangles w sock other c first second ret again will new_will client apart inside
        near same valid found there away =
      let got = get-find w.client_store valid first.clientid ∙ ap ok found in
      let (t, run, r) = enter-Resumed world w sock c first ret will client inside got there away in
      let one = record first { client = some c } in
      let two = record second { client = some c } in
      let wide : length t.sock_to_clientid ≡ length w.sock_to_clientid =
        ap length r.connected ∙ length-set w.sock_to_clientid sock one in
      let (u, runs, q) =
        enter-Resumed world t other c second again new_will r.now (omega arith)
          (rw (r.same_store, ← same) got) r.there (r.answered.same_sock ∙ away) in
      let apart_too : (other == sock) ≡ false = ground arith in
      let here : cell u.sock_to_clientid sock ≡ ok one =
        ap (λ cs. cell cs sock) q.connected
        ∙ cell-set_ne t.sock_to_clientid other sock two apart_too
        ∙ ap (λ cs. cell cs sock) r.connected
        ∙ cell-set w.sock_to_clientid sock one inside in
      let near_too : cell u.sock_to_clientid other ≡ ok two =
        ap (λ cs. cell cs other) q.connected
        ∙ cell-set t.sock_to_clientid other two (omega arith) in
      let store_same = q.same_store ∙ r.same_store in
      let (store, erased, _) = erase-Erases w.client_store first.clientid c valid found in
      let (v, ends, dangles) =
        disconnect-dangles u sock other c first two q.now store apart here near_too q.there
          (rw store_same got) (rw store_same erased) in
      (v, rw (run, ◌>>=◌, runs, ◌>>=◌) ends, dangles)
