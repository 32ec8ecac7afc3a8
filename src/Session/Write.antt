-- ===== src/Session/Write.antt =====
-- The write event: which item it takes, and what it does to it.
use mathlib.Core.Path.{fun_ext}
use esp32_mqtts_broker.Prelude.{
  ℕ, suc, ◌+◌, ◌<◌, ◌≡◌, refl, ap, ◌∙◌, Bool, true, false, Option, none, some, List, [], ◌∷◌, arith,
  ltb, if◌then◌else◌, length, inl, inr, Bool-cases, Option-cases,
}
use esp32_mqtts_broker.Run.{Run, ok, ◌>>=◌, Returns}
use esp32_mqtts_broker.Publishhashmap.Probe.{slot_at-get_or}
use esp32_mqtts_broker.Publishhashmap.Lookup.{node_at, locate, get-locate, locate_sound}
use esp32_mqtts_broker.Session.Items.{
  PacketState, PacketStateItem, getpuback, getpubrec, getpubrel, getpubcomp, sendpublish,
  sendpuback, sendpubrec, sendpubrel, sendpubcomp, item_at, wants_send, find_index,
  find_index_sound,
}
use esp32_mqtts_broker.Session.{
  Session, Env, Operation, read, write, sendtoque, send_item, write_loop, on_write,
}
use esp32_mqtts_broker.Session.Advance.{
  published, sent_rel, sent_ack, sent_rec, sent_comp, Moves, still, stepped, IsReady, MayWrite,
  publish-Published,
}

wants-pos : (item : PacketStateItem) → wants_send item ≡ true → 0 < item.packet_id
wants-pos item h = ground arith

module _ (env : Env) where
  Moves-sendtoque : (s t : Session) (op : Operation) → Moves s t → Moves s (sendtoque env t op).1
  unfolding sendtoque
  Moves-sendtoque s t op (still e) = still e
  Moves-sendtoque s t op (stepped i b st) =
      stepped i b (record { inside = st.inside; step = st.step; items = st.items })

  -- the rounds behind the first that sends: the pointer is still set, so a further item ends the loop
  write_loop-after :
      (s : Session) (rest : List PacketStateItem) (i p : ℕ)
      → write_loop env s rest i (some p) true ≡ ok (ltb 0 (length rest), s)
  unfolding write_loop
  write_loop-after s [] i p = refl
  write_loop-after s (item ∷ rest) i p = ground arith

  -- the item `k` behind `i` is sent, if there is one; then the loop ends at once or at its next round
  unfoldable pub sends : Session → ℕ → ℕ → Option ℕ → Run (Bool × Session)
  sends s i len none = ok (false, s)
  sends s i len (some k) =
      send_item env s (i + k) (item_at s.items (i + k)) (item_at s.items (i + k)).state >>= λ t.
      ok (ltb (k + 1) len, t)

  ltb_shift : (a b : ℕ) → ltb (a + 1) (suc b) ≡ ltb a b
  ltb_shift a b = ground arith

  sends-shift :
      (s : Session) (i len : ℕ) (o : Option ℕ)
      → sends s (i + 1) len o ≡ sends s i (suc len) (elim o [ none ↦ none | some k ↦ some (suc k) ])
  unfolding sends
  sends-shift s i len none = refl
  sends-shift s i len (some k) =
      let e : i + 1 + k ≡ i + suc k = omega arith in
      let f : k + 1 ≡ suc k = omega arith in rw (e, ltb_shift (suc k) len, f)

  sent_rest :
      (rest : List PacketStateItem) (i : ℕ) (t : Session)
      → write_loop env t rest (i + 1) (some i) true ≡ ok (ltb (0 + 1) (suc (length rest)), t)
  sent_rest rest i t = write_loop-after t rest (i + 1) i ∙ rw (ltb_shift 0 (length rest))

  -- the rounds of the loop from the item `i` on
  write_loop-first :
      (s : Session) (rest : List PacketStateItem) (i : ℕ)
      → write_loop env s rest i none false ≡ sends s i (length rest) (find_index wants_send rest)
  unfolding write_loop sends find_index
  write_loop-first s [] i = refl
  write_loop-first s (item ∷ rest) i = elim (Bool-cases (wants_send item)) [
    | inl here ↦
        let e : i + 0 ≡ i = omega arith in
        rw (here, write_loop, find_index, e)
          (ap (λ f. send_item env s i (item_at s.items i) (item_at s.items i).state >>= f)
            (fun_ext (sent_rest rest i)))
    | inr on ↦
        rw (on, write_loop, find_index)
          (write_loop-first s rest (i + 1)
            ∙ sends-shift s i (length rest) (find_index wants_send rest))
  ]

  -- The write event takes the first item that has something to send, and no other; it asks for a
  -- further write event exactly if some item, pending or free, stands behind that one.
  pub on_write-first :
      (s : Session)
      → on_write env s ≡ (
          sends s 0 (length s.items) (find_index wants_send s.items) >>= λ r.
          ok (sendtoque env r.1 (if r.0 then write else read)).1)
  unfolding on_write
  on_write-first s = rw (write_loop-first s s.items 0)

  -- the item that the write event has found takes its step
  send_item-Moves :
      (s : Session) (i : ℕ) (state : PacketState)
      → IsReady s.store
      → MayWrite env s
      → i < length s.items
      → (item_at s.items i).state ≡ state
      → 0 < (item_at s.items i).packet_id
      → Returns (send_item env s i (item_at s.items i) state) (Moves s)
  unfolding send_item
  send_item-Moves s i sendpuback ready may inside e pos =
      (_, refl, stepped i _ (record { inside = inside; step = sent_ack e refl; items = refl }))
  send_item-Moves s i sendpubrec ready may inside e pos =
      (_, refl, stepped i _ (record { inside = inside; step = sent_rec e refl; items = refl }))
  send_item-Moves s i sendpubrel ready may inside e pos =
      (_, refl, stepped i _ (record { inside = inside; step = sent_rel e refl; items = refl }))
  send_item-Moves s i sendpubcomp ready may inside e pos =
      (_, refl, stepped i _ (record { inside = inside; step = sent_comp e refl; items = refl }))
  send_item-Moves s i sendpublish ready may inside e pos =
      let item = item_at s.items i in
      elim (Option-cases (locate s.store item.packet_id)) [
        | inl f ↦ (s, rw (get-locate s.store ready.table item.packet_id, ◌>>=◌, f), still refl)
        | inr (n, f) ↦
            let node = node_at s.store.slots n in
            let (slot, same) = locate_sound s.store ready.table item.packet_id n f in
            let (first, rest, bytes) = ready.filled item.packet_id n pos f in
            let (t, run, (b, p, items)) =
              publish-Published env s i item first rest item.qos node.pubpack_id n
                item.delete_retain ready may (rw same f) in
            (
              t,
              rw
                  (
                    get-locate s.store ready.table item.packet_id,
                    ◌>>=◌,
                    f,
                    slot_at-get_or s.store.slots n slot,
                    ◌>>=◌,
                    bytes,
                  )
                  run,
              stepped i b (record { inside = inside; step = published e p; items = items }),
            )
      ]
  send_item-Moves s i getpuback ready may inside e pos = (s, refl, still refl)
  send_item-Moves s i getpubrec ready may inside e pos = (s, refl, still refl)
  send_item-Moves s i getpubrel ready may inside e pos = (s, refl, still refl)
  send_item-Moves s i getpubcomp ready may inside e pos = (s, refl, still refl)

  -- On a store whose messages have bytes, and when the next write succeeds or the client of the connection is
  -- neither null nor deleted, a write event ends normally, and takes one step of one packet of the
  -- connection or none; all other packets stand as they were.
  pub on_write-Moves :
      (s : Session) → IsReady s.store → MayWrite env s → Returns (on_write env s) (Moves s)
  unfolding sends sendtoque
  on_write-Moves s ready may = elim (Option-cases (find_index wants_send s.items)) [
    | inl e ↦ ((sendtoque env s read).1, on_write-first s ∙ rw (e, ◌>>=◌), still refl)
    | inr (i, e) ↦
        let (inside, wanted) = find_index_sound wants_send s.items i e in
        let item = item_at s.items i in
        let (t, run, m) =
          send_item-Moves s i item.state ready may inside refl (wants-pos item wanted) in
        let zero_plus : 0 + i ≡ i = omega arith in
        let op = if ltb (i + 1) (length s.items) then write else read in
        (
          (sendtoque env t op).1,
          on_write-first s ∙ rw (e, sends, zero_plus, run, ◌>>=◌, ◌>>=◌),
          Moves-sendtoque s t op m,
        )
  ]
