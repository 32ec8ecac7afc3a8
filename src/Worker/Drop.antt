-- ===== src/Worker/Drop.antt =====
-- main/worker.cpp: `drop_conn`.
use esp32_mqtts_broker.Prelude.{ℕ, ◌%◌, Bool, ◌&&◌, none, some, [], if◌then◌else◌, set, u16_mod}
use esp32_mqtts_broker.Run.{Run, ok, ◌>>=◌}
use esp32_mqtts_broker.Hashmap
use esp32_mqtts_broker.Hashmap.{Hashmap}
use esp32_mqtts_broker.Hashmap.Bucket.{Key}
use esp32_mqtts_broker.Session.{closed, delall}
use esp32_mqtts_broker.Worker.State.{
  Worker, World, SockCid, uninit, cell, deref, with_cell, with_client, with_effect, offer,
}
use esp32_mqtts_broker.Worker.Fanout.{publish_by_topic}

-- the bytes of the will are stored as if they were a whole packet
unfoldable pub publish_will : World → Worker → ℕ → Bool → Run Worker
publish_will world w c sendwill = deref w.clients c >>= λ client.
    let will = client.will in
    if will.presence_flag && sendwill
    then (publish_by_topic world (with_client w c (record client { sock = none })) will.topic
          will.msg will.qos (world.esp_random w.effects % u16_mod)
        >>= λ t.
            deref t.clients c >>= λ now. ok (with_client t c (record now { sock = client.sock })))
    else ok w

-- `client_store.erase`, which deletes the client as well
unfoldable pub erase_client : Worker → Key → Run Worker
erase_client w id = Hashmap.get w.client_store id >>= λ found.
    Hashmap.erase w.client_store id >>= λ store.
    let t = record w { client_store = store } in
    elim found [ none ↦ ok t | some c ↦ ok (record t { clients = set t.clients c none }) ]

-- a client with a clean session is forgotten, another one is offline
unfoldable pub leave : Worker → ℕ → Key → Run Worker
leave w c id = deref w.clients c >>= λ client.
    if client.clean_session
    then erase_client w id
    else ok (with_client w c (record client { sock = none }))

unfoldable pub sign_off : World → Worker → SockCid → Bool → Run Worker
sign_off world w sockst sendwill = elim sockst.client [
  | none ↦ ok w
  | some c ↦ publish_will world w c sendwill >>= λ t. leave t c sockst.clientid
]

-- the last lines of `drop_conn`, which keep `packid_state`
abbrev pub uninitialised : SockCid → SockCid
uninitialised sockst = record sockst { client = none; clientid = []; phs = uninit }

unfoldable pub drop_conn : World → Worker → ℕ → Bool → Run Worker
drop_conn world w sock sendwill = cell w.sock_to_clientid sock >>= λ sockst.
    sign_off world (with_effect (offer world w sock delall).1 (closed sock)) sockst sendwill
    >>= λ t. cell t.sock_to_clientid sock >>= λ now. ok (with_cell t sock (uninitialised now))
