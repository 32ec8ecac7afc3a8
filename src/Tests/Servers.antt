-- ===== src/Tests/Servers.antt =====
-- The server with the port on socket 54, and one connection on socket 55; a vector of three numbers; a
-- chip that starts.
use esp32_mqtts_broker.Prelude.{
  ℕ, ◌≡◌, refl, true, false, ◌&&◌, ◌||◌, not, none, some, [], ◌∷◌, ◌==◌, leb, ltb, arith,
  if◌then◌else◌, ◌↔◌, List,
}
use esp32_mqtts_broker.Run.{ok, Returns}
use esp32_mqtts_broker.Wificonfig.{ip_conversion, sta_start, sta_disconnected, got_ip, WifiEvent}
use esp32_mqtts_broker.Wificonfig.Setup.{BootCalls, wifi_init_sta, app_main, running, accepted}
use esp32_mqtts_broker.Wificonfig.Verdict.{counting, configured, all_made, verdict, app_main-runs}
use esp32_mqtts_broker.Wificonfig.Address.{decimal, ip_conversion-dotted}
use esp32_mqtts_broker.Myvector.{Myvector, insert}
use esp32_mqtts_broker.Myvector.View.{view, IsValid}
use esp32_mqtts_broker.Myvector.Edits.{insert-view}
use esp32_mqtts_broker.Session.{write}
use esp32_mqtts_broker.Server.{Server, Round, round, startup}
use esp32_mqtts_broker.Server.Startup.{every_call, startup-every_call}
use esp32_mqtts_broker.Server.Interest.{or_before, last_says, round-readfds}

abbrev server : Server
server = record {
  listen_sock = 54;
  max_socket = 55;
  master_readfds = λ sock. sock == 54 || sock == 55;
  master_writefds = λ sock. false;
  pending = [];
}

-- the connection can be read, the queue is full, and the worker asks for socket 55 to be written
abbrev busy : Round
busy = record {
  readable = λ sock. sock == 55;
  writable = λ sock. false;
  new_sock = none;
  requests = record { socket = 55; op = write } ∷ [];
}

round-readfds_example :
    (round (λ posted. false) server busy).master_readfds 55
    ≡ or_before
        (last_says 55 busy.requests)
        (server.master_readfds 55 && (55 == 54 || not (busy.readable 55)))
round-readfds_example = round-readfds (λ posted. false) server busy 55 refl

startup-every_call_example :
    startup ((λ tries. ltb tries 10) ∷ []) (some 0)
    ≡ (if every_call ((λ tries. ltb tries 10) ∷ []) then some 0 else none)
startup-every_call_example = startup-every_call ((λ tries. ltb tries 10) ∷ [])

abbrev three : Myvector ℕ
three = record { cells = 1 ∷ 2 ∷ 3 ∷ []; capacity = 3; size = 3 }

three-IsValid : IsValid three
three-IsValid = record { cells_there = refl; fits = omega arith }

insert-view_example :
    ((insert true 0 three 1 4).0 ≡ (not (leb 3 1) && (true || ltb 3 3)))
    × IsValid (insert true 0 three 1 4).1
    × (view (insert true 0 three 1 4).1
        ≡ (if (insert true 0 three 1 4).0 then 1 ∷ 4 ∷ 2 ∷ 3 ∷ [] else 1 ∷ 2 ∷ 3 ∷ []))
insert-view_example = insert-view true 0 three 1 4 three-IsValid (omega arith)

ip_conversion-dotted_example :
    ip_conversion
      (b'1' ∷ b'9' ∷ b'2' ∷ b'.' ∷ b'1' ∷ b'6' ∷ b'8' ∷ b'.' ∷ b'1' ∷ b'.' ∷ b'1' ∷ b'0' ∷ [])
    ≡ ok 0x0a01a8c0
unfolding decimal
ip_conversion-dotted_example =
    ip_conversion-dotted 192 168 1 10 (omega arith) (omega arith) (omega arith) (omega arith)

abbrev healthy : BootCalls
healthy = record {
  nvs_flash_init = true;
  esp_netif_init = true;
  esp_event_loop_create_default = true;
  pending_socks = true;
  socks_for_fds = true;
}

abbrev joining : List WifiEvent
joining = sta_start ∷ sta_disconnected ∷ got_ip ∷ []

app_main-runs_example : Returns (wifi_init_sta true (λ call. true) (counting 0 0) joining) λ init.
    (app_main healthy init ≡ running) ↔ (
      ((all_made healthy && (true && accepted (λ call. true) configured)) ≡ true)
      × (verdict 10 joining ≡ some true))
app_main-runs_example = app_main-runs healthy true (λ call. true) joining
