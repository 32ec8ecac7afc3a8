-- ===== src/Tests/Systems.antt =====
-- The two tasks with the worker of `Tests.Workers`, whose array has all its 64 connections, and a client
-- that connects twice.
use esp32_mqtts_broker.Prelude.{
  ◌+◌, List, ◌==◌, ℕ, zero, suc, ◌≤◌, ◌≡◌, refl, true, false, some, [], ◌∷◌, arith, replicate,
  flatten,
}
use esp32_mqtts_broker.Run.{ok, fault, dangling_pointer, ◌>>=◌, Returns}
use esp32_mqtts_broker.Hashmap.{fnv1a_hash}
use esp32_mqtts_broker.Hashmap.Bucket.{find, equal}
use esp32_mqtts_broker.Hashmap.Place.{home}
use esp32_mqtts_broker.Hashmap.Lookup.{IsValid}
use esp32_mqtts_broker.Hashmap.Holders.{holders}
use esp32_mqtts_broker.Connect.{clean_session, unclean_session}
use esp32_mqtts_broker.Client.{no_will}
use esp32_mqtts_broker.Session.{read, write}
use esp32_mqtts_broker.Server.{
  Message, Server, Round, posted, drain, on_operation, round, scan, on_socket, on_accept,
  on_readable, on_writable, post, new_server,
}
use esp32_mqtts_broker.Worker.{on_disconnect}
use esp32_mqtts_broker.Worker.State.{Worker, cell, deref, offer, write_conn}
use esp32_mqtts_broker.Worker.Login.{enter}
use esp32_mqtts_broker.Worker.Stock.{IsOwned, alive}
use esp32_mqtts_broker.Worker.Owned.{on_message-IsOwned}
use esp32_mqtts_broker.Worker.Shared.{second_connection-dangles}
use esp32_mqtts_broker.Tasks.{
  Tasks, Reach, here, next, looks, posts_message, start, look, oldest_first,
}
use esp32_mqtts_broker.Tasks.Safe.{IsSafe}
use esp32_mqtts_broker.Tasks.Start.{Reach-start}
use esp32_mqtts_broker.Tasks.Delivery.{idle, ping-Reach}
use esp32_mqtts_broker.Tasks.Noticed.{always}
use esp32_mqtts_broker.Tasks.Offered.{reads_in, readable-Reach}
use esp32_mqtts_broker.Tests.Workers.{
  world, worker, online, unused, ping, answered, ping-runs, waiting, away, back,
}

one_owner : (c : ℕ) → holders c ((b'c' ∷ [], 0) ∷ []) ≤ alive c (true ∷ [])
unfolding holders
one_owner zero = omega arith
one_owner (suc c) = ground arith

worker-IsOwned : IsOwned 2 worker
unfolding flatten
worker-IsOwned = record { cells = refl; owned = one_owner }

on_message-IsOwned_example : IsOwned 2 answered
on_message-IsOwned_example =
    on_message-IsOwned world 2 ping worker answered (some 0) read worker-IsOwned ping-runs

abbrev all_cells : Worker
all_cells = record worker { sock_to_clientid = online ∷ replicate 63 unused }

abbrev about_zero : Message
about_zero = record { socket = 0; op = read }

-- the server is about to post a message
abbrev posting : Tasks
posting = record {
  server = record {
    listen_sock = 54;
    max_socket = 55;
    master_readfds = λ sock. false;
    master_writefds = λ sock. false;
    pending = [];
  };
  worker = all_cells;
  pending_socks = [];
  socks_for_fds = [];
  posts = posted about_zero true ∷ [];
  outbox = [];
}

clients-IsValid : IsValid worker.client_store
clients-IsValid = record {
  roomy = omega arith;
  unsized = refl;
  placed = unfold home fnv1a_hash in ((refl, tt), tt);
  counted = unfold flatten in omega arith;
  small = omega arith;
}

second_connection-dangles_example :
    Returns
      (enter world waiting 0 back unclean_session no_will >>= λ t.
        enter world t 1 back clean_session no_will >>= λ u. on_disconnect world u 0)
      λ v.
        (cell v.sock_to_clientid 1 ≡ ok (record back { client = some 0 }))
        × (deref v.clients 0 ≡ fault dangling_pointer)
second_connection-dangles_example =
    second_connection-dangles world waiting 0 1 0 back back unclean_session clean_session no_will
      no_will away refl (omega arith) (omega arith) refl clients-IsValid
      (unfold find equal flatten in refl) (unfold deref in refl) refl

-- the socket that listens is 54, and a connection comes on socket 55
abbrev incoming : Round
incoming = record {
  readable = λ sock. sock == 54;
  writable = λ sock. false;
  new_sock = some 55;
  requests = [];
}

abbrev booted : Tasks
booted = start 54 true true true

abbrev noticed : Tasks
noticed =
    let server = look (λ posted. true) booted.server incoming in
    record booted { server = server; posts = oldest_first server.pending [] }

abbrev about_new : Message
about_new = record { socket = 55; op = write }

noticed_posts : noticed.posts ≡ posted about_new true ∷ []
unfolding oldest_first round scan on_socket on_accept on_readable on_writable post new_server drain
noticed_posts = refl

Reach-start_example : IsSafe (record noticed { pending_socks = about_new ∷ []; posts = [] })
Reach-start_example =
    Reach-start 54 true true true (record noticed { pending_socks = about_new ∷ []; posts = [] })
      (omega arith)
      (next (next here (looks (λ posted. true) incoming refl refl))
        (posts_message about_new [] noticed_posts (omega arith) refl))

abbrev watching : Server
watching = posting.server

ping-Reach_example :
    let t = on_operation (drain watching []) 0 read in
    Reach (idle watching worker (about_zero ∷ []) [] []) (idle t answered [] [] [])
    × (t.master_readfds 0 ≡ true)
unfolding offer write_conn cell
ping-Reach_example =
    ping-Reach world ping watching worker 0 online [] [] [] refl refl (omega arith) (omega arith)
      refl refl

-- the connection on socket 0 is watched, and can be read
abbrev watching_zero : Server
watching_zero = record watching { master_readfds = λ sock. sock == 0 }

abbrev ready_zero : Round
ready_zero = record incoming { readable = λ sock. sock == 0 }

readable-Reach_example :
    let t = look always watching_zero ready_zero in
    (q : List Message) × Reach (idle watching_zero worker [] [] []) (idle t worker q [] [])
    × (reads_in 0 q ≡ 0 + 1)
    × (t.master_readfds 0 ≡ false)
unfolding round scan on_socket on_accept on_readable on_writable post drain reads_in
readable-Reach_example =
    readable-Reach watching_zero worker [] [] [] ready_zero 0 refl refl refl refl (omega arith)
