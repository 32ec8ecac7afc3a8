-- ===== src/Wificonfig.antt =====
-- main/wificonfig.cpp: the addresses of the station, and the events of its connection. Setup has
-- `wifi_init_sta`, which sets the station up.
pub mod Shift
pub mod Address
pub mod Events
pub mod Setup
pub mod Verdict
use esp32_mqtts_broker.Prelude.{
  ℕ, ◌+◌, ◌-◌, ◌*◌, ◌%◌, ◌^◌, Bool, true, false, List, [], ◌∷◌, ◌==◌, ltb, if◌then◌else◌, bit_or,
  size_mod,
}
use esp32_mqtts_broker.Run.{Run, ok, fault, out_of_range, ◌>>=◌}

-- the variables of `ip_conversion`
pub record Conversion : Type 0 where
  pub converted : ℕ
  pub curval : ℕ
  pub shift : ℕ

-- `converted |= (curval << shift)`; a shift by 32 or more is undefined
unfoldable pub shift_in : Conversion → Run ℕ
shift_in s =
    if ltb s.shift 32
    then ok (bit_or s.converted (s.curval * 2 ^ s.shift % size_mod))
    else fault out_of_range

-- one character
unfoldable pub convert : Conversion → List ℕ → Run Conversion
convert s [] = ok s
convert s (c ∷ ip) = elim (c == b'.') [
  | true ↦ shift_in s >>= λ converted.
      convert (record { converted = converted; curval = 0; shift = (s.shift + 8) % 256 }) ip
  | false ↦ convert (record s { curval = (s.curval * 10 + (c + size_mod - b'0')) % size_mod }) ip
]

unfoldable pub ip_conversion : List ℕ → Run ℕ
ip_conversion ip = convert (record { converted = 0; curval = 0; shift = 0 }) ip >>= λ s. shift_in s

abbrev pub example_esp_maximum_retry : ℕ
example_esp_maximum_retry = 10

-- the events that `event_handler` tells apart
pub data WifiEvent : Type 0 where
  sta_start sta_disconnected got_ip another : WifiEvent

-- the counter, the two bits of the event group, and how often `esp_wifi_connect` was called
pub record Station : Type 0 where
  pub s_retry_num : ℕ
  pub connected_bit : Bool
  pub fail_bit : Bool
  pub connects : ℕ

unfoldable pub event_handler : Station → WifiEvent → Station
event_handler s sta_start = record s { connects = s.connects + 1 }
event_handler s sta_disconnected =
    if ltb s.s_retry_num example_esp_maximum_retry
    then record s { connects = s.connects + 1; s_retry_num = s.s_retry_num + 1 }
    else record s { fail_bit = true }
event_handler s got_ip = record s { s_retry_num = 0; connected_bit = true }
event_handler s another = s

-- the end of `wifi_init_sta`: whether it returns `ESP_OK`
abbrev pub init_ok : Station → Bool
init_ok s = s.connected_bit
