-- ===== src/Wificonfig/Setup.antt =====
-- main/wificonfig.cpp: `wifi_init_sta`, and `app_main` of main/main.cpp, which calls it. The calls of
-- ESP-IDF are parameters by their answers.
use esp32_mqtts_broker.Prelude.{
  ℕ, Bool, true, ◌&&◌, ◌||◌, Option, none, some, List, [], ◌∷◌, if◌then◌else◌,
}
use esp32_mqtts_broker.Run.{Run, ok, ◌>>=◌}
use esp32_mqtts_broker.Wificonfig.{Station, WifiEvent, event_handler, init_ok, ip_conversion}

-- the calls that `ESP_ERROR_CHECK` looks at, with the address, the mask and the gateway
-- (a null `sta_netif` is an invalid argument of `esp_netif_dhcpc_stop`, which then does not succeed)
pub data SetupCall : Type 0 where
  esp_wifi_init esp_netif_dhcpc_stop register_any_id register_got_ip : SetupCall
  esp_wifi_set_mode esp_wifi_set_config esp_wifi_start : SetupCall
  esp_netif_set_ip_info : ℕ → ℕ → ℕ → SetupCall

abbrev pub setup_calls : ℕ → ℕ → ℕ → List SetupCall
setup_calls ip netmask gw =
    esp_wifi_init
    ∷ esp_netif_dhcpc_stop
    ∷ esp_netif_set_ip_info ip netmask gw
    ∷ register_any_id
    ∷ register_got_ip
    ∷ esp_wifi_set_mode
    ∷ esp_wifi_set_config
    ∷ esp_wifi_start
    ∷ []

-- the calls up to the first that fails, after which the chip aborts
unfoldable pub accepted : (SetupCall → Bool) → List SetupCall → Bool
accepted succeeds [] = true
accepted succeeds (call ∷ calls) = succeeds call && accepted succeeds calls

-- "192.168.1.10", "255.255.255.0" and "192.168.1.1"
abbrev pub ip_addr : List ℕ
ip_addr = b'1' ∷ b'9' ∷ b'2' ∷ b'.' ∷ b'1' ∷ b'6' ∷ b'8' ∷ b'.' ∷ b'1' ∷ b'.' ∷ b'1' ∷ b'0' ∷ []

abbrev pub netmask_addr : List ℕ
netmask_addr =
    b'2' ∷ b'5' ∷ b'5' ∷ b'.' ∷ b'2' ∷ b'5' ∷ b'5' ∷ b'.' ∷ b'2' ∷ b'5' ∷ b'5' ∷ b'.' ∷ b'0' ∷ []

abbrev pub gateway_addr : List ℕ
gateway_addr = b'1' ∷ b'9' ∷ b'2' ∷ b'.' ∷ b'1' ∷ b'6' ∷ b'8' ∷ b'.' ∷ b'1' ∷ b'.' ∷ b'1' ∷ []

-- `xEventGroupWaitBits` for any of the two bits, while the events come; `none` if it waits on
unfoldable pub wait_bits : Station → List WifiEvent → Option Station
wait_bits s [] = if s.connected_bit || s.fail_bit then some s else none
wait_bits s (event ∷ events) =
    let rest = wait_bits (event_handler s event) events in
    if s.connected_bit || s.fail_bit then some s else rest

-- how `wifi_init_sta` ends
pub data Init : Type 0 where
  aborted waiting : Init
  returned : Bool → Init

-- `created` is whether `xEventGroupCreate` gives a group. This is not tested, and the chip aborts
-- where a group that is null is used: in `event_handler`, or at the latest in `xEventGroupWaitBits`.
unfoldable pub wifi_init_sta : Bool → (SetupCall → Bool) → Station → List WifiEvent → Run Init
wifi_init_sta created succeeds s events = do
  ip ← ip_conversion ip_addr
  netmask ← ip_conversion netmask_addr
  gw ← ip_conversion gateway_addr
  ok (
      if accepted succeeds (setup_calls ip netmask gw)
      then (if created
          then (elim (wait_bits s events) [ none ↦ waiting | some t ↦ returned (init_ok t) ])
          else aborted)
      else aborted)

-- the answers of the calls in `app_main`; `pending_socks` and `socks_for_fds` say whether the queue was made
pub record BootCalls : Type 0 where
  pub nvs_flash_init : Bool
  pub esp_netif_init : Bool
  pub esp_event_loop_create_default : Bool
  pub pending_socks : Bool
  pub socks_for_fds : Bool

-- how far the chip comes: `running` is the creation of the two tasks
pub data Boot : Type 0 where
  abort connecting restart running : Boot

unfoldable pub app_main : BootCalls → Init → Boot
app_main calls init =
    if calls.nvs_flash_init && calls.esp_netif_init && calls.esp_event_loop_create_default
    then (elim init [
      | aborted ↦ abort
      | waiting ↦ connecting
      | returned esp_ok ↦
          if esp_ok
          then (if calls.pending_socks && calls.socks_for_fds then running else restart)
          else abort
    ])
    else abort
