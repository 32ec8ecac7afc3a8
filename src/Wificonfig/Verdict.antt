-- ===== src/Wificonfig/Verdict.antt =====
-- When `wifi_init_sta` of main/wificonfig.cpp has connected, and when the tasks are made.
use esp32_mqtts_broker.Prelude.{
  ℕ, zero, suc, ◌+◌, ◌≡◌, ◌↔◌, refl, ap, ◌∙◌, Bool, true, false, ◌&&◌, ◌||◌, Option, none, some,
  List, [], ◌∷◌, arith, ltb, if◌then◌else◌,
}
use esp32_mqtts_broker.Run.{ok, Returns}
use esp32_mqtts_broker.Wificonfig.{
  Station, WifiEvent, sta_start, sta_disconnected, got_ip, another, event_handler, init_ok,
  ip_conversion, convert, shift_in, example_esp_maximum_retry,
}
use esp32_mqtts_broker.Wificonfig.Setup.{
  SetupCall, setup_calls, accepted, wait_bits, Init, aborted, waiting, returned, wifi_init_sta,
  BootCalls, running, app_main,
}

-- What the events decide when `left` tries are left: an address connects, and one loss of the
-- connection more than there are tries fails.
unfoldable pub verdict : ℕ → List WifiEvent → Option Bool
verdict left [] = none
verdict left (got_ip ∷ events) = some true
verdict zero (sta_disconnected ∷ events) = some false
verdict (suc left) (sta_disconnected ∷ events) = verdict left events
verdict left (sta_start ∷ events) = verdict left events
verdict left (another ∷ events) = verdict left events

-- a station that has counted `retries` losses and has no bit set
abbrev pub counting : ℕ → ℕ → Station
counting retries connects = record {
  s_retry_num = retries;
  connected_bit = false;
  fail_bit = false;
  connects = connects;
}

abbrev bits_of : Option Station → Option Bool
bits_of none = none
bits_of (some s) = some (init_ok s)

set_bits :
    (s : Station) (events : List WifiEvent)
    → (s.connected_bit || s.fail_bit) ≡ true
    → wait_bits s events ≡ some s
unfolding wait_bits
set_bits s [] h = rw h refl
set_bits s (event ∷ events) h = rw h refl

wait_bits-verdict :
    (left retries connects : ℕ) (events : List WifiEvent)
    → left + retries ≡ example_esp_maximum_retry
    → bits_of (wait_bits (counting retries connects) events) ≡ verdict left events
unfolding wait_bits verdict event_handler
wait_bits-verdict left retries connects [] e = refl
wait_bits-verdict left retries connects (got_ip ∷ events) e =
    let s = event_handler (counting retries connects) got_ip in ap bits_of (set_bits s events refl)
wait_bits-verdict zero retries connects (sta_disconnected ∷ events) e =
    let full : ltb retries 10 ≡ false = ground arith in
    rw full
      (ap bits_of (set_bits (record (counting retries connects) { fail_bit = true }) events refl))
wait_bits-verdict (suc left) retries connects (sta_disconnected ∷ events) e =
    let more : ltb retries 10 ≡ true = ground arith in
    rw more (wait_bits-verdict left (retries + 1) (connects + 1) events (omega arith))
wait_bits-verdict left retries connects (sta_start ∷ events) e =
    wait_bits-verdict left retries (connects + 1) events e
wait_bits-verdict left retries connects (another ∷ events) e =
    wait_bits-verdict left retries connects events e

-- the addresses in network order: 192.168.1.10, 255.255.255.0, 192.168.1.1
abbrev pub configured : List SetupCall
configured = setup_calls 0x0a01a8c0 0x00ffffff 0x0101a8c0

abbrev decided : Option Bool → Init
decided none = waiting
decided (some connected) = returned connected

decide :
    (o : Option Station)
    → (elim o [ none ↦ waiting | some t ↦ returned (init_ok t) ]) ≡ decided (bits_of o)
decide none = refl
decide (some t) = refl

same_branches : {A : Type 0} (test : Bool) (x : A) → (if test then x else x) ≡ x
same_branches true x = refl
same_branches false x = refl

init-verdict :
    (created : Bool) (succeeds : SetupCall → Bool) (events : List WifiEvent)
    → wifi_init_sta created succeeds (counting 0 0) events
      ≡ ok
          (if created && accepted succeeds configured then decided (verdict 10 events) else aborted)
unfolding wifi_init_sta ip_conversion convert shift_in
init-verdict true succeeds events =
    ap (λ (i : Init). ok (if accepted succeeds configured then i else aborted))
      (decide (wait_bits (counting 0 0) events) ∙ ap decided (wait_bits-verdict 10 0 0 events refl))
init-verdict false succeeds events = ap ok (same_branches (accepted succeeds configured) aborted)

-- every call that `app_main` looks at succeeds
abbrev pub all_made : BootCalls → Bool
all_made calls =
    calls.nvs_flash_init
    && calls.esp_netif_init
    && calls.esp_event_loop_create_default
    && (calls.pending_socks && calls.socks_for_fds)

runs_if :
    (calls : BootCalls) (setup : Bool) (o : Option Bool)
    → (app_main calls (if setup then decided o else aborted) ≡ running)
      ↔ (((all_made calls && setup) ≡ true) × (o ≡ some true))
unfolding app_main
runs_if calls false o = (λ h. ground arith, λ h. ground arith)
runs_if calls true none = (λ h. ground arith, λ h. ground arith)
runs_if calls true (some true) = (λ h. ground arith, λ h. ground arith)
runs_if calls true (some false) = (λ h. ground arith, λ h. ground arith)

-- Whatever the calls of ESP-IDF answer, and whatever events the station gets: the three addresses are
-- converted, `wifi_init_sta` ends, aborts or waits on, and `app_main` comes to create the two tasks
-- exactly if the event group is made, every call that it or `wifi_init_sta` looks at succeeds, both queues
-- are made, and the station gets an address before it has lost its connection eleven times.
pub app_main-runs :
    (calls : BootCalls) (created : Bool) (succeeds : SetupCall → Bool) (events : List WifiEvent)
    → Returns (wifi_init_sta created succeeds (counting 0 0) events) λ init.
      (app_main calls init ≡ running) ↔ (
        ((all_made calls && (created && accepted succeeds configured)) ≡ true)
        × (verdict 10 events ≡ some true))
app_main-runs calls created succeeds events = (
  if created && accepted succeeds configured then decided (verdict 10 events) else aborted,
  init-verdict created succeeds events,
  runs_if calls (created && accepted succeeds configured) (verdict 10 events),
)
