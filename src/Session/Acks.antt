-- ===== src/Session/Acks.antt =====
-- The handlers of PUBACK, PUBREC, PUBREL and PUBCOMP in main/worker.cpp as steps of one item.
use esp32_mqtts_broker.Prelude.{ℕ, ◌<◌, refl, List, inl, inr, Bool-cases, Option-cases}
use esp32_mqtts_broker.Run.{◌>>=◌, Returns}
use esp32_mqtts_broker.Publishhashmap.Lookup.{get-locate}
use esp32_mqtts_broker.Publishhashmap.Remove.{release-Returns}
use esp32_mqtts_broker.Session.Items.{
  getpuback, getpubrec, getpubrel, getpubcomp, sendpubrel, sendpubcomp, item_at, find_item,
  find_item_sound,
}
use esp32_mqtts_broker.Session.{
  Session, Env, stay, drop, on_puback, on_pubrec, on_pubcomp, on_pubrel, sendtoque, is_malformed,
  packet_id_of, with_item, read, write,
}
use esp32_mqtts_broker.Session.Advance.{
  acked, received, completed, released, Moves, still, stepped, IsReady, MayWrite, freed, in_state,
  resend-Moves,
}

module _ (env : Env) (s : Session) (ready : IsReady s.store) (may : MayWrite env s) where
  -- On a store whose messages have bytes, if the next write succeeds or the client can be read, a PUBACK, well formed or not, ends normally for an
  -- identifier other than 0, and takes one step of one item or none.
  pub on_puback-Moves :
      (buf : List ℕ) (packet_length : ℕ)
      → 0 < packet_id_of buf
      → Returns (on_puback env s buf packet_length) λ r. Moves s r.1
  unfolding on_puback sendtoque
  on_puback-Moves buf packet_length pos =
      let id = packet_id_of buf in
      elim (Option-cases (find_item id getpuback s.items)) [
        | inl e ↦ ((drop, s), rw (e, on_puback), still refl)
        | inr (i, e) ↦
            let (inside, _, state) = find_item_sound id getpuback s.items i e in
            elim (Bool-cases (is_malformed buf packet_length)) [
              | inl bad ↦
                  let (r, run, m) = resend-Moves env s ready may id i pos inside (inl state) in
                  (r, rw (e, on_puback, get-locate s.store ready.table id, ◌>>=◌, bad) run, m)
              | inr good ↦
                  let (store, run, _) = release-Returns s.store id ready.table in
                  let t = record (with_item s i (freed (item_at s.items i))) { store = store } in
                  (
                    (stay, (sendtoque env t read).1),
                    rw (e, on_puback, get-locate s.store ready.table id, ◌>>=◌, good, run, ◌>>=◌),
                    stepped i (freed (item_at s.items i))
                        (record { inside = inside; step = acked state refl; items = refl }),
                  )
            ]
      ]

  -- On a store whose messages have bytes, if the next write succeeds or the client can be read, a PUBREC, well formed or not, ends normally for an
  -- identifier other than 0, and takes one step of one item or none.
  pub on_pubrec-Moves :
      (buf : List ℕ) (packet_length : ℕ)
      → 0 < packet_id_of buf
      → Returns (on_pubrec env s buf packet_length) λ r. Moves s r.1
  unfolding on_pubrec sendtoque
  on_pubrec-Moves buf packet_length pos =
      let id = packet_id_of buf in
      elim (Option-cases (find_item id getpubrec s.items)) [
        | inl e ↦ ((drop, s), rw (e, on_pubrec), still refl)
        | inr (i, e) ↦
            let (inside, _, state) = find_item_sound id getpubrec s.items i e in
            let next = in_state (item_at s.items i) sendpubrel in
            elim (Bool-cases (is_malformed buf packet_length)) [
              | inl bad ↦
                  let (r, run, m) = resend-Moves env s ready may id i pos inside (inr state) in
                  (r, rw (e, on_pubrec, get-locate s.store ready.table id, ◌>>=◌, bad) run, m)
              | inr good ↦
                  let (store, run, _) = release-Returns s.store id ready.table in
                  let t = record (with_item s i next) { store = store } in
                  (
                    (stay, (sendtoque env t write).1),
                    rw (e, on_pubrec, get-locate s.store ready.table id, ◌>>=◌, good, run, ◌>>=◌),
                    stepped i next
                        (record { inside = inside; step = received state refl; items = refl }),
                  )
            ]
      ]

module _ (env : Env) (s : Session) (buf : List ℕ) (packet_length : ℕ) where
  -- A PUBCOMP takes one step of one item, which completes its delivery, or none.
  pub on_pubcomp-Moves : Moves s (on_pubcomp env s buf packet_length).1
  unfolding on_pubcomp sendtoque
  on_pubcomp-Moves = elim (Bool-cases (is_malformed buf packet_length)) [
    | inl bad ↦ rw bad (still refl)
    | inr good ↦ elim (Option-cases (find_item (packet_id_of buf) getpubcomp s.items)) [
      | inl e ↦ rw (good, on_pubcomp, e) (still refl)
      | inr (i, e) ↦
          let (inside, _, state) = find_item_sound (packet_id_of buf) getpubcomp s.items i e in
          rw (good, on_pubcomp, e)
            (stepped i (freed (item_at s.items i))
              (record { inside = inside; step = completed state refl; items = refl }))
    ]
  ]

  -- A PUBREL takes one step of one item, which lets the receiver's delivery go on, or none.
  pub on_pubrel-Moves : Moves s (on_pubrel env s buf packet_length).1
  unfolding on_pubrel sendtoque
  on_pubrel-Moves = elim (Bool-cases (is_malformed buf packet_length)) [
    | inl bad ↦ rw bad (still refl)
    | inr good ↦ elim (Option-cases (find_item (packet_id_of buf) getpubrel s.items)) [
      | inl e ↦ rw (good, on_pubrel, e) (still refl)
      | inr (i, e) ↦
          let (inside, _, state) = find_item_sound (packet_id_of buf) getpubrel s.items i e in
          rw (good, on_pubrel, e)
            (stepped i (in_state (item_at s.items i) sendpubcomp)
              (record { inside = inside; step = released state refl; items = refl }))
    ]
  ]
