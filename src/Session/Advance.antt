-- ===== src/Session/Advance.antt =====
-- The state machine of a packet on its way through main/worker.cpp, and the write of a message as a
-- step of it.
use esp32_mqtts_broker.Prelude.{
  ℕ, ◌<◌, ◌≡◌, refl, ◌∙◌, Bool, true, false, ◌||◌, not, Option, none, some, List, ◌∷◌, arith, ◌==◌,
  length, set, ◌⊎◌, inl, inr, Bool-cases, Option-cases,
}
use esp32_mqtts_broker.Run.{ok, ◌>>=◌, Returns}
use esp32_mqtts_broker.Publishhashmap.{Publishhashmap}
use esp32_mqtts_broker.Publishhashmap.Probe.{slot_at-get_or}
use esp32_mqtts_broker.Publishhashmap.Lookup.{IsTable, node_at, locate, get-locate, locate_sound}
use esp32_mqtts_broker.Publishhashmap.Remove.{release-Returns}
use esp32_mqtts_broker.Session.Items.{
  PacketState, PacketStateItem, getpuback, getpubrec, getpubrel, getpubcomp, sendpublish,
  sendpuback, sendpubrec, sendpubrel, sendpubcomp, item_at,
}
use esp32_mqtts_broker.Session.{
  Session, Env, stay, drop, publish, resend, with_item, tls_write, publish_header, log_failure,
}

abbrev pub freed : PacketStateItem → PacketStateItem
freed item = record item { packet_id = 0 }

abbrev pub in_state : PacketStateItem → PacketState → PacketStateItem
in_state item state = record item { state = state }

-- what is left of an item after its message was written, at the quality of service `qos`
pub data Published (qos : ℕ) (a b : PacketStateItem) : Type 0 where
  finished : b ≡ freed a → Published qos a b
  awaits_ack : qos ≡ 1 → b ≡ in_state a getpuback → Published qos a b
  awaits_rec : 1 < qos → b ≡ in_state a getpubrec → Published qos a b

-- one step of MQTT's delivery of a packet: of the sender from `sendpublish` on, of the receiver from
-- `sendpuback` or `sendpubrec` on
pub data Advance (a b : PacketStateItem) : Type 0 where
  published : {qos : ℕ} → a.state ≡ sendpublish → Published qos a b → Advance a b
  published_again :
      {qos : ℕ} → (a.state ≡ getpuback) ⊎ (a.state ≡ getpubrec) → Published qos a b → Advance a b
  acked : a.state ≡ getpuback → b ≡ freed a → Advance a b
  received : a.state ≡ getpubrec → b ≡ in_state a sendpubrel → Advance a b
  sent_rel : a.state ≡ sendpubrel → b ≡ in_state a getpubcomp → Advance a b
  completed : a.state ≡ getpubcomp → b ≡ freed a → Advance a b
  sent_ack : a.state ≡ sendpuback → b ≡ freed a → Advance a b
  sent_rec : a.state ≡ sendpubrec → b ≡ in_state a getpubrel → Advance a b
  released : a.state ≡ getpubrel → b ≡ in_state a sendpubcomp → Advance a b
  sent_comp : a.state ≡ sendpubcomp → b ≡ freed a → Advance a b

-- one item has taken a step, the others stand as they were
pub record Stepped (s t : Session) (i : ℕ) (b : PacketStateItem) : Type 0 where
  pub inside : i < length s.items
  pub step : Advance (item_at s.items i) b
  pub items : t.items ≡ set s.items i b

-- at most one item has taken a step
pub data Moves (s t : Session) : Type 0 where
  still : t.items ≡ s.items → Moves s t
  stepped : (i : ℕ) (b : PacketStateItem) → Stepped s t i b → Moves s t

-- a store in which every message that can be found under an identifier other than 0 has bytes
pub record IsReady (s : Publishhashmap) : Type 0 where
  pub table : IsTable s.power_of_cap s.slots
  pub filled :
      (key i : ℕ)
      → 0 < key
      → locate s key ≡ some i
      → (first : ℕ) × (rest : List ℕ) × ((node_at s.slots i).content ≡ first ∷ rest)

-- the next write succeeds, or the client of the connection can be read when it fails
abbrev pub MayWrite : Env → Session → Type 0
MayWrite env s = (env.write_ok s.effects ≡ true) ⊎ ((sock : Option ℕ) × (s.client_sock ≡ ok sock))

pub log_failure-Returns :
    (env : Env) (s t : Session)
    → MayWrite env s
    → t.client_sock ≡ s.client_sock
    → (sock : Option ℕ) × (log_failure t (env.write_ok s.effects) ≡ ok sock)
unfolding log_failure
log_failure-Returns env s t (inl sent) same = (none, rw sent refl)
log_failure-Returns env s t (inr (sock, there)) same = elim (Bool-cases (env.write_ok s.effects)) [
  | inl sent ↦ (none, rw sent refl)
  | inr failed ↦ (sock, rw failed (same ∙ there))
]

more_than_one :
    (qos : ℕ) (sent : Bool) → (qos == 0 || not sent) ≡ false → (qos == 1) ≡ false → 1 < qos
more_than_one qos sent h k = ground arith

-- The write of a message that is in the store.
pub publish-Published :
    (env : Env) (s : Session) (i : ℕ) (item : PacketStateItem) (first : ℕ) (rest : List ℕ)
    (qos id n : ℕ) (delete_retain : Bool)
    → IsReady s.store
    → MayWrite env s
    → locate s.store id ≡ some n
    → Returns
        (publish env s i item (first ∷ rest) qos id delete_retain)
        λ t. (b : PacketStateItem) × Published qos item b × (t.items ≡ set s.items i b)
unfolding publish
publish-Published env s i item first rest qos id n delete_retain ready may found =
    let t = (tls_write env s (publish_header first qos delete_retain ∷ rest)).1 in
    let (store, released_store, _) = release-Returns s.store id ready.table in
    let (k, logged) = log_failure-Returns env s t may refl in
    elim (Bool-cases (qos == 0 || not (env.write_ok s.effects))) [
      | inl over ↦ (
        record (with_item t i (freed item)) { store = store },
        rw (get-locate s.store ready.table id, ◌>>=◌, logged, ◌>>=◌, over, released_store, ◌>>=◌),
        (freed item, finished refl, refl),
      )
      | inr waits ↦ elim (Bool-cases (qos == 1)) [
        | inl one ↦ (
          with_item t i (in_state item getpuback),
          rw (get-locate s.store ready.table id, found, ◌>>=◌, logged, ◌>>=◌, waits, one),
          (in_state item getpuback, awaits_ack (ground arith) refl, refl),
        )
        | inr two ↦ (
          with_item t i (in_state item getpubrec),
          rw (get-locate s.store ready.table id, found, ◌>>=◌, logged, ◌>>=◌, waits, two),
          (
            in_state item getpubrec,
            awaits_rec (more_than_one qos (env.write_ok s.effects) waits two) refl,
            refl,
          ),
        )
      ]
    ]

module _ (env : Env) (s : Session) (ready : IsReady s.store) (may : MayWrite env s) where
  -- a message that is found is written again, from the slot in which it was found
  pub resend-Moves :
      (id i : ℕ)
      → 0 < id
      → i < length s.items
      → ((item_at s.items i).state ≡ getpuback) ⊎ ((item_at s.items i).state ≡ getpubrec)
      → Returns (resend env s i (item_at s.items i) (locate s.store id)) λ r. Moves s r.1
  unfolding resend
  resend-Moves id i pos inside waits = elim (Option-cases (locate s.store id)) [
    | inl e ↦ ((drop, s), rw e, still refl)
    | inr (n, e) ↦
        let node = node_at s.store.slots n in
        let (slot, same) = locate_sound s.store ready.table id n e in
        let (first, rest, bytes) = ready.filled id n pos e in
        let (t, run, (b, p, items)) =
          publish-Published env s i (item_at s.items i) first rest node.qos node.pubpack_id n true
            ready may (rw same e) in
        (
          (stay, t),
          rw (e, slot_at-get_or s.store.slots n slot, ◌>>=◌, bytes, run, ◌>>=◌),
          stepped i b (record { inside = inside; step = published_again waits p; items = items }),
        )
  ]
