-- ===== src/Tasks/Start.antt =====
-- The two tasks from the moment that `app_main` of main/main.cpp has created them.
use esp32_mqtts_broker.Prelude.{
  ℕ, zero, suc, ◌<◌, ◌≡◌, refl, Bool, true, false, arith, replicate, flatten,
}
use esp32_mqtts_broker.Hashmap.{new_map}
use esp32_mqtts_broker.Hashmap.Lookup.{entries}
use esp32_mqtts_broker.Hashmap.Link.{flatten-replicate}
use esp32_mqtts_broker.Hashmap.Holders.{holders}
use esp32_mqtts_broker.Server.{new_server}
use esp32_mqtts_broker.Worker.State.{new_worker, no_cell}
use esp32_mqtts_broker.Worker.Logins.{logins}
use esp32_mqtts_broker.Worker.Identified.{IsPaired, AllPaired}
use esp32_mqtts_broker.Tasks.{Tasks, Reach, start}
use esp32_mqtts_broker.Tasks.Bounded.{sockets}
use esp32_mqtts_broker.Tasks.Safe.{IsSafe, WorkerSafe, Reach-IsSafe}

pub AllPaired-replicate : (n : ℕ) → AllPaired (logins (replicate n no_cell))
AllPaired-replicate zero = tt
AllPaired-replicate (suc n) = (refl, AllPaired-replicate n)

-- a table that was just made holds nothing, also where it got no memory
new_map-holders : (alloc : Bool) (n c : ℕ) → holders c (entries (new_map {T = ℕ} alloc n)) ≡ 0
unfolding new_map holders flatten
new_map-holders true n c = rw (flatten-replicate {T = ℕ} n) refl
new_map-holders false n c = refl

new_worker-Safe :
    (clients_ok messages_ok retained_ok : Bool)
    → WorkerSafe (new_worker clients_ok messages_ok retained_ok)
unfolding new_worker IsPaired
new_worker-Safe clients_ok messages_ok retained_ok = record {
  paired = AllPaired-replicate 64;
  owned = record { cells = refl; owned = λ c. omega (arith, new_map-holders clients_ok 10 c) };
}

start-IsSafe :
    (listen_sock : ℕ) (clients_ok messages_ok retained_ok : Bool)
    → listen_sock < sockets
    → IsSafe (start listen_sock clients_ok messages_ok retained_ok)
unfolding new_server
start-IsSafe listen_sock clients_ok messages_ok retained_ok low = record {
  server = record { narrow = omega arith; small = tt };
  pending = record { fits = omega arith; below = tt };
  requested = omega arith;
  worker = new_worker-Safe clients_ok messages_ok retained_ok;
}

-- Let the socket that listens be below 64. In every state that the two tasks reach from their start, in
-- whatever order their steps come, however the outside answers, and whichever tables got no memory
-- at the start, the following holds. The server waits for sockets below 64 only, and what it
-- posts and the messages in `pending_socks` are about such sockets; neither queue has more than
-- 50 messages; the worker has 64 connections, each with a client exactly if it has a client
-- identifier, and a client store that holds no client twice and no deleted one.
pub Reach-start :
    (listen_sock : ℕ) (clients_ok messages_ok retained_ok : Bool) (t : Tasks)
    → listen_sock < sockets
    → Reach (start listen_sock clients_ok messages_ok retained_ok) t
    → IsSafe t
Reach-start listen_sock clients_ok messages_ok retained_ok t low =
    Reach-IsSafe (start listen_sock clients_ok messages_ok retained_ok) t
      (start-IsSafe listen_sock clients_ok messages_ok retained_ok low)
