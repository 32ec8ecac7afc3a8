-- ===== src/Session/Drain.antt =====
-- A run of write events of main/worker.cpp on one connection that has acknowledgements to send.
use esp32_mqtts_broker.Prelude.{
  ℕ, zero, suc, ◌+◌, ◌<◌, ◌≡◌, refl, ap, ◌∙◌, Bool, true, false, ◌&&◌, not, none, List, [], ◌∷◌,
  arith, ltb, if◌then◌else◌, set, length, inl, inr, Bool-cases, Option-cases,
}
use esp32_mqtts_broker.Run.{Run, ok, ◌>>=◌, Returns}
use esp32_mqtts_broker.Session.{
  Session, Env, Effect, queued, written, closed, read, write, sendtoque, send_item, on_write,
}
use esp32_mqtts_broker.Session.Items.{
  PacketState, PacketStateItem, getpuback, getpubrec, getpubrel, getpubcomp, sendpublish,
  sendpuback, sendpubrec, sendpubrel, sendpubcomp, item_at, wants_send, is_send, find_index,
  find_index_sound,
}
use esp32_mqtts_broker.Session.Write.{sends, on_write-first}

-- write events, one after the other
unfoldable pub writes : ℕ → Env → Session → Run Session
writes zero env s = ok s
writes (suc k) env s = on_write env s >>= λ t. writes k env t

abbrev pub one_if : Bool → ℕ
one_if test = if test then 1 else 0

-- how many packets have something to send
unfoldable pub backlog : List PacketStateItem → ℕ
backlog [] = 0
backlog (item ∷ items) = one_if (wants_send item) + backlog items

abbrev pub is_publish : PacketState → Bool
is_publish sendpublish = true
is_publish getpuback = false
is_publish getpubrec = false
is_publish getpubrel = false
is_publish getpubcomp = false
is_publish sendpuback = false
is_publish sendpubrec = false
is_publish sendpubrel = false
is_publish sendpubcomp = false

-- none of them is a message
unfoldable pub only_acks : List PacketStateItem → Bool
only_acks [] = true
only_acks (item ∷ items) = not (wants_send item && is_publish item.state) && only_acks items

-- how often something was offered to a connection
unfoldable pub sent : List Effect → ℕ
sent [] = 0
sent (queued sock op taken ∷ effects) = sent effects
sent (written sock bytes ok_bytes ∷ effects) = suc (sent effects)
sent (closed sock ∷ effects) = sent effects

backlog-none :
    (items : List PacketStateItem) → find_index wants_send items ≡ none → backlog items ≡ 0
unfolding backlog find_index
backlog-none [] h = refl
backlog-none (item ∷ items) h = elim (Bool-cases (wants_send item)) [
  | inl here ↦ ground arith
  | inr on ↦ elim (Option-cases (find_index wants_send items)) [
    | inl e ↦ rw on (omega (arith, backlog-none items e))
    | inr (j, e) ↦ ground arith
  ]
]

-- a packet that wanted to be sent does not any more
backlog-set :
    (items : List PacketStateItem) (i : ℕ) (b : PacketStateItem)
    → i < length items
    → wants_send (item_at items i) ≡ true
    → wants_send b ≡ false
    → suc (backlog (set items i b)) ≡ backlog items
unfolding backlog
backlog-set [] i b inside wanted over = absurd (omega arith)
backlog-set (item ∷ items) zero b inside wanted over = rw (over, wanted) (omega arith)
backlog-set (item ∷ items) (suc i) b inside wanted over =
    omega (arith, backlog-set items i b (omega arith) wanted over)

only_acks-set :
    (items : List PacketStateItem) (i : ℕ) (b : PacketStateItem)
    → only_acks items ≡ true
    → wants_send b ≡ false
    → only_acks (set items i b) ≡ true
unfolding only_acks
only_acks-set [] i b acks over = acks
only_acks-set (item ∷ items) zero b acks over = rw over (ground arith)
only_acks-set (item ∷ items) (suc i) b acks over = ground (arith, only_acks-set items i b)

only_acks-at :
    (items : List PacketStateItem) (i : ℕ)
    → only_acks items ≡ true
    → i < length items
    → wants_send (item_at items i) ≡ true
    → is_publish (item_at items i).state ≡ false
unfolding only_acks
only_acks-at [] i acks inside wanted = absurd (omega arith)
only_acks-at (item ∷ items) zero acks inside wanted = ground arith
only_acks-at (item ∷ items) (suc i) acks inside wanted = ground (arith, only_acks-at items i)

-- what the write of an acknowledgement leaves
pub record Acked (s : Session) (i : ℕ) (t : Session) : Type 0 where
  pub item : PacketStateItem
  pub items : t.items ≡ set s.items i item
  pub over : wants_send item ≡ false
  pub wrote : sent t.effects ≡ suc (sent s.effects)

wants-is_send :
    (item : PacketStateItem) (state : PacketState)
    → item.state ≡ state
    → wants_send item ≡ true
    → is_send state ≡ true
wants-is_send item state e wanted = ground (arith, ap is_send e)

module _ (env : Env) where
  send_item-Acked :
      (s : Session) (i : ℕ) (item : PacketStateItem) (state : PacketState)
      → item.state ≡ state
      → wants_send item ≡ true
      → is_publish state ≡ false
      → Returns (send_item env s i item state) (Acked s i)
  unfolding send_item sent is_send
  send_item-Acked s i item sendpublish e wanted no_publish = cc
  send_item-Acked s i item sendpuback e wanted no_publish = (
    _,
    refl,
    record { item = record item { packet_id = 0 }; items = refl; over = refl; wrote = refl },
  )
  send_item-Acked s i item sendpubrec e wanted no_publish = (
    _,
    refl,
    record {
      item = record item { state = getpubrel };
      items = refl;
      over = ground arith;
      wrote = refl;
    },
  )
  send_item-Acked s i item sendpubrel e wanted no_publish = (
    _,
    refl,
    record {
      item = record item { state = getpubcomp };
      items = refl;
      over = ground arith;
      wrote = refl;
    },
  )
  send_item-Acked s i item sendpubcomp e wanted no_publish = (
    _,
    refl,
    record { item = record item { packet_id = 0 }; items = refl; over = refl; wrote = refl },
  )
  send_item-Acked s i item getpuback e wanted no_publish =
      cc (wants-is_send item getpuback e wanted)
  send_item-Acked s i item getpubrec e wanted no_publish =
      cc (wants-is_send item getpubrec e wanted)
  send_item-Acked s i item getpubrel e wanted no_publish =
      cc (wants-is_send item getpubrel e wanted)
  send_item-Acked s i item getpubcomp e wanted no_publish =
      cc (wants-is_send item getpubcomp e wanted)

  -- one write event: the backlog goes down by one, and one acknowledgement is written
  on_write-Acked :
      (s : Session) (k : ℕ)
      → backlog s.items ≡ suc k
      → only_acks s.items ≡ true
      → Returns (on_write env s) λ t.
        (backlog t.items ≡ k) × (only_acks t.items ≡ true) × (sent t.effects ≡ suc (sent s.effects))
  unfolding sends sendtoque sent
  on_write-Acked s k more acks = elim (Option-cases (find_index wants_send s.items)) [
    | inl e ↦ absurd (omega (arith, backlog-none s.items e))
    | inr (i, e) ↦
        let (inside, wanted) = find_index_sound wants_send s.items i e in
        let item = item_at s.items i in
        let (t, run, a) =
          send_item-Acked s i item item.state refl wanted
            (only_acks-at s.items i acks inside wanted) in
        let zero_plus : 0 + i ≡ i = omega arith in
        let op = if ltb (i + 1) (length s.items) then write else read in
        (
          (sendtoque env t op).1,
          on_write-first env s ∙ rw (e, sends, zero_plus, run, ◌>>=◌, ◌>>=◌),
          (
            rw a.items (omega (arith, backlog-set s.items i a.item inside wanted a.over)),
            rw a.items (only_acks-set s.items i a.item acks a.over),
            a.wrote,
          ),
        )
  ]

  -- On a connection whose packets have nothing to send but acknowledgements, as many write events
  -- as there are of these end normally and write exactly that many packets; then no packet has
  -- anything to send.
  pub writes-drain :
      (k : ℕ) (s : Session)
      → backlog s.items ≡ k
      → only_acks s.items ≡ true
      → Returns (writes k env s) λ t. (backlog t.items ≡ 0) × (sent t.effects ≡ sent s.effects + k)
  unfolding writes
  writes-drain zero s none_left acks = (s, refl, (none_left, omega arith))
  writes-drain (suc k) s more acks =
      let (t, first, (left, still, one)) = on_write-Acked s k more acks in
      let (u, rest, (none_left, all)) = writes-drain k t left still in
      (u, rw (first, ◌>>=◌) rest, (none_left, omega (arith, all, one)))
