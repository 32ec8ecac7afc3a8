-- ===== src/Session/Header.antt =====
-- The first byte that `publish` of main/worker.cpp sends, bit by bit.
use esp32_mqtts_broker.Prelude.{
  ℕ, ◌+◌, ◌*◌, ◌/◌, ◌%◌, ◌<◌, ◌≡◌, refl, Bool, true, false, ◌==◌, ==_iff, if◌then◌else◌,
  every_under, every_under_sound,
}
use esp32_mqtts_broker.Session.{publish_header}

-- the type and the duplicate flag as they were, the quality of service, the retain flag
abbrev header_of : ℕ → ℕ → Bool → ℕ
header_of byte qos delete_retain = byte / 8 * 8 + qos * 2 + (if delete_retain then 0 else byte % 2)

header_table :
    (delete_retain : Bool)
    → every_under
        (λ qos.
          every_under
            (λ byte. publish_header byte qos delete_retain == header_of byte qos delete_retain)
            256)
        3
      ≡ true
unfolding publish_header every_under
header_table true = refl
header_table false = refl

-- The first byte of a message that is sent keeps the packet type and the duplicate flag of the stored
-- one, carries the quality of service asked for, and the stored retain flag unless that is to go; for
-- every byte and the three qualities of service.
pub publish_header-eq :
    (byte qos : ℕ) (delete_retain : Bool)
    → byte < 256
    → qos < 3
    → publish_header byte qos delete_retain
      ≡ byte / 8 * 8 + qos * 2 + (if delete_retain then 0 else byte % 2)
publish_header-eq byte qos delete_retain small level = (==_iff _ _).0 (
    every_under_sound _ 256 (every_under_sound _ 3 (header_table delete_retain) qos level) byte
      small)
