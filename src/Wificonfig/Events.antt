-- ===== src/Wificonfig/Events.antt =====
-- The events of the station in main/wificonfig.cpp.
use esp32_mqtts_broker.Prelude.{
  ℕ, ◌+◌, ◌≡◌, refl, ◌∙◌, Bool, true, false, ◌||◌, List, [], ◌∷◌, arith, ltb, leb, if◌then◌else◌,
  Bool-cases, inl, inr,
}
use esp32_mqtts_broker.Wificonfig.{
  WifiEvent, sta_start, sta_disconnected, got_ip, another, Station, event_handler,
}

-- the events in order
unfoldable pub handle : Station → List WifiEvent → Station
handle s [] = s
handle s (e ∷ events) = handle (event_handler s e) events

-- how many disconnections there were since the last address, `before` of them earlier
unfoldable pub lost_since : ℕ → List WifiEvent → ℕ
lost_since before [] = before
lost_since before (sta_start ∷ events) = lost_since before events
lost_since before (sta_disconnected ∷ events) = lost_since (before + 1) events
lost_since before (got_ip ∷ events) = lost_since 0 events
lost_since before (another ∷ events) = lost_since before events

-- whether an address came
unfoldable pub has_address : List WifiEvent → Bool
has_address [] = false
has_address (sta_start ∷ events) = has_address events
has_address (sta_disconnected ∷ events) = has_address events
has_address (got_ip ∷ events) = true
has_address (another ∷ events) = has_address events

-- whether there were at some time more than ten disconnections since the last address
unfoldable pub gave_up : ℕ → List WifiEvent → Bool
gave_up before [] = false
gave_up before (sta_start ∷ events) = gave_up before events
gave_up before (sta_disconnected ∷ events) = leb 10 before || gave_up (before + 1) events
gave_up before (got_ip ∷ events) = gave_up 0 events
gave_up before (another ∷ events) = gave_up before events

abbrev pub at_most_ten : ℕ → ℕ
at_most_ten n = if ltb n 10 then n else 10

-- the station after some events
pub record Counts (before : ℕ) (events : List WifiEvent) (s t : Station) : Type 0 where
  pub retries : t.s_retry_num ≡ at_most_ten (lost_since before events)
  pub connected : t.connected_bit ≡ (s.connected_bit || has_address events)
  pub failed : t.fail_bit ≡ (s.fail_bit || gave_up before events)

-- After any events, from a station that has counted `before` disconnections, the counter is the number of
-- disconnections since the last address, or ten if there are more; the connected bit is set
-- exactly if an address came, and the fail bit exactly if at some time more than ten
-- disconnections came without an address between them, where they were not set before.
pub handle-Counts :
    (before : ℕ) (s : Station) (events : List WifiEvent)
    → s.s_retry_num ≡ at_most_ten before
    → Counts before events s (handle s events)
unfolding handle lost_since has_address gave_up event_handler
handle-Counts before s [] e = record {
  retries = e;
  connected = ground arith;
  failed = ground arith;
}
handle-Counts before s (sta_start ∷ events) e =
    let c = handle-Counts before (event_handler s sta_start) events e in
    record { retries = c.retries; connected = c.connected; failed = c.failed }
handle-Counts before s (sta_disconnected ∷ events) e = elim (Bool-cases (ltb s.s_retry_num 10)) [
  | inl again ↦
      let t = record s { connects = s.connects + 1; s_retry_num = s.s_retry_num + 1 } in
      let c = handle-Counts (before + 1) t events (ground arith) in
      rw again
        (record { retries = c.retries; connected = c.connected; failed = c.failed ∙ ground arith })
  | inr over ↦
      let t = record s { fail_bit = true } in
      let c = handle-Counts (before + 1) t events (ground arith) in
      rw over
        (record { retries = c.retries; connected = c.connected; failed = c.failed ∙ ground arith })
]
handle-Counts before s (got_ip ∷ events) e =
    let c = handle-Counts 0 (event_handler s got_ip) events refl in
    record { retries = c.retries; connected = c.connected ∙ ground arith; failed = c.failed }
handle-Counts before s (another ∷ events) e =
    let c = handle-Counts before s events e in
    record { retries = c.retries; connected = c.connected; failed = c.failed }
