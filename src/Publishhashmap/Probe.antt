-- ===== src/Publishhashmap/Probe.antt =====
-- What the probing loop of main/Publishhashmap.cpp does: it looks at the slot behind the home slot.
use esp32_mqtts_broker.Prelude.{
  ℕ, zero, suc, ◌+◌, ◌-◌, ◌%◌, ◌≤◌, ◌<◌, ◌≡◌, ◌≢◌, refl, ◌∙◌, Bool, true, false, List, [], ◌∷◌,
  arith, ◌==◌, if◌then◌else◌, length, get_or, Bool-cases, ==_iff, inl, inr, size_mod,
}
use esp32_mqtts_broker.Run.{ok}
use esp32_mqtts_broker.Publishhashmap.{NodePubmap, empty_node, slot_at, probe}

pub slot_at-get_or :
    (ns : List NodePubmap) (i : ℕ) → i < length ns → slot_at ns i ≡ ok (get_or ns i empty_node)
unfolding slot_at
slot_at-get_or [] i h = absurd (omega arith)
slot_at-get_or (n ∷ ns) zero h = refl
slot_at-get_or (n ∷ ns) (suc i) h = slot_at-get_or ns i (omega arith)

-- the slot behind `id`, where the first slot stands behind the last
abbrev pub next_slot : ℕ → ℕ → ℕ
next_slot id cap = if (id + 1) == cap then 0 else id + 1

module _ (stop : NodePubmap → Bool) (ns : List NodePubmap) (fits : 1 < length ns)
    (small : length ns < size_mod) where
  -- one round at a slot inside the table that does not stop the loop
  round_passes :
      (fuel cur id : ℕ)
      → cur ≢ id
      → cur < length ns
      → stop (get_or ns cur empty_node) ≡ false
      → probe (suc fuel) stop ns cur id ≡ probe fuel stop ns cur ((id + 1) % size_mod)
  unfolding probe
  round_passes fuel cur id ne inside go = ground (arith, slot_at-get_or ns cur inside)

  meets : (fuel cur : ℕ) → 0 < fuel → probe fuel stop ns cur cur ≡ ok (cur, cur)
  unfolding probe
  meets zero cur h = absurd (omega arith)
  meets (suc fuel) cur h = ground arith

  -- one round at a slot that stops the loop
  round_stops :
      (fuel cur id : ℕ)
      → cur ≢ id
      → cur < length ns
      → stop (get_or ns cur empty_node) ≡ true
      → probe (suc fuel) stop ns cur id ≡ ok (cur, id)
  unfolding probe
  round_stops fuel cur id ne inside go = ground (arith, slot_at-get_or ns cur inside)

  -- a round that starts behind the last slot looks at the first
  round_wraps :
      (fuel id : ℕ)
      → length ns ≢ id
      → probe (suc fuel) stop ns (length ns) id ≡ (
          if stop (get_or ns 0 empty_node)
          then ok (0, id)
          else probe fuel stop ns 0 ((id + 1) % size_mod))
  unfolding probe
  round_wraps fuel id ne = ground (arith, slot_at-get_or ns 0 (omega arith))

  -- with `cur_id` at 0 the index `id` climbs to the end of `size_t`
  climbs :
      (k fuel id : ℕ)
      → id + k ≡ size_mod
      → 0 < k
      → 0 < id
      → k < fuel
      → stop (get_or ns 0 empty_node) ≡ false
      → probe fuel stop ns 0 id ≡ ok (0, 0)
  climbs zero fuel id e kpos pos enough go = absurd (omega arith)
  climbs (suc k) zero id e kpos pos enough go = absurd (omega arith)
  climbs (suc zero) (suc fuel) id e kpos pos enough go =
      let wrapped : (id + 1) % size_mod ≡ 0 = omega arith in
      round_passes fuel 0 id (omega arith) (omega arith) go
      ∙ rw wrapped (meets fuel 0 (omega arith))
  climbs (suc (suc k)) (suc fuel) id e kpos pos enough go =
      let kept : (id + 1) % size_mod ≡ id + 1 = omega arith in
      round_passes fuel 0 id (omega arith) (omega arith) go
      ∙ rw kept
          (climbs (suc k) fuel (id + 1) (omega arith) (omega arith) (omega arith) (omega arith) go)

  wrapped_rest :
      (fuel id : ℕ)
      → id < length ns
      → size_mod ≤ fuel
      → (if stop (get_or ns 0 empty_node)
          then ok (0, id)
          else probe fuel stop ns 0 ((id + 1) % size_mod))
        ≡ ok (0, if stop (get_or ns 0 empty_node) then id else 0)
  wrapped_rest fuel id inside enough = elim (Bool-cases (stop (get_or ns 0 empty_node))) [
    | inl s ↦ rw s
    | inr s ↦
        let kept : (id + 1) % size_mod ≡ id + 1 = omega arith in
        rw (s, kept)
          (climbs (size_mod - (id + 1)) fuel (id + 1) (omega arith) (omega arith) (omega arith)
            (omega arith) s)
  ]

  -- The loop started at a home slot `id` of a table of at least two and fewer than 2 ^ 32 slots
  -- ends, given more than 2 ^ 32 rounds, with `cur_id` at the next slot; it looks at no other, and
  -- `id` tells whether that slot stopped it.
  pub probe-next_slot :
      (fuel id : ℕ)
      → size_mod < fuel
      → id < length ns
      → probe fuel stop ns (id + 1) id
        ≡ ok (
          next_slot id (length ns),
          if stop (get_or ns (next_slot id (length ns)) empty_node)
              then id
              else next_slot id (length ns),
        )
  probe-next_slot zero id enough inside = absurd (omega arith)
  probe-next_slot (suc fuel) id enough inside =
      let n = length ns in
      elim (Bool-cases ((id + 1) == n)) [
        | inl last ↦
            let e : id + 1 ≡ n = (==_iff (id + 1) n).0 last in
            rw (last, e)
              (round_wraps fuel id (omega arith) ∙ wrapped_rest fuel id (omega arith) (omega arith))
        | inr inner ↦ rw inner (elim (Bool-cases (stop (get_or ns (id + 1) empty_node))) [
          | inl s ↦ rw s (round_stops fuel (id + 1) id (omega arith) (ground arith) s)
          | inr s ↦
              let kept : (id + 1) % size_mod ≡ id + 1 = omega arith in
              rw s (
                round_passes fuel (id + 1) id (omega arith) (ground arith) s
                ∙ rw kept (meets fuel (id + 1) (omega arith)))
        ])
      ]
