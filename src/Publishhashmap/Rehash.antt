-- ===== src/Publishhashmap/Rehash.antt =====
-- The rehash of a full message store.
use native.Mathlib.Nat.{pow-suc}
use esp32_mqtts_broker.Prelude.{
  ℕ, zero, suc, ◌+◌, ◌*◌, ◌^◌, ◌≤◌, ◌<◌, ◌≡◌, refl, sym, ◌∙◌, true, some, List, [], ◌∷◌, arith,
  length, set, take, replicate, length-replicate, Bool-cases, inl, inr,
}
use esp32_mqtts_broker.Run.{ok, ◌>>=◌, Returns}
use esp32_mqtts_broker.Publishhashmap.{
  Publishhashmap, NodePubmap, empty_node, is_free, rehash, rehash_nodes,
}
use esp32_mqtts_broker.Publishhashmap.Lookup.{
  live, IsTable, IsValid, target, place-target, target-inside,
}
use esp32_mqtts_broker.Publishhashmap.Insert.{live-set, IsTable-set}

live-replicate : (n : ℕ) → live (replicate n empty_node) ≡ 0
unfolding live
live-replicate zero = refl
live-replicate (suc n) = omega (arith, live-replicate n)

live-take : (n : ℕ) (ns : List NodePubmap) → live (take n ns) ≤ live ns
unfolding live
live-take zero ns = omega arith
live-take (suc n) [] = omega arith
live-take (suc n) (x ∷ ns) = omega (arith, live-take n ns)

doubled : (power n : ℕ) → n ≡ 2 ^ power → n * 2 ≡ 2 ^ (power + 1)
doubled power n e =
    let one : power + 1 ≡ suc power = omega arith in rw (one, pow-suc 2 power) (omega (arith, e))

-- `rehash` keeps what the invariant needs
rehash_nodes-live :
    (power : ℕ) (ns fresh : List NodePubmap)
    → IsTable power fresh
    → Returns (rehash_nodes power ns fresh) λ r. IsTable power r × (live r ≤ live fresh + live ns)
unfolding rehash_nodes live
rehash_nodes-live power [] fresh t = (fresh, refl, (t, omega arith))
rehash_nodes-live power (n ∷ ns) fresh t = elim (Bool-cases (is_free n)) [
  | inl free ↦
      let (r, run, u) = rehash_nodes-live power ns fresh t in
      (r, rw (free, ◌>>=◌) run, (u.0, ground arith))
  | inr full ↦
      let i = target t n.pubpack_id in
      let (r, run, u) = rehash_nodes-live power ns (set fresh i n) (IsTable-set i n t) in
      (
        r,
        rw (full, place-target t n.pubpack_id, ◌>>=◌) run,
        (u.0, ground (arith, live-set fresh i n (target-inside t n.pubpack_id))),
      )
]

pub rehash-IsValid :
    (s : Publishhashmap)
    → IsValid s
    → s.power_of_cap < 31
    → (u : Publishhashmap) × (rehash true s ≡ ok (some u))
      × IsValid u
      × (u.size ≡ s.size)
      × (length u.slots ≡ length s.slots * 2)
unfolding rehash
rehash-IsValid s v small =
    let power = s.power_of_cap + 1 in
    let wide : length (replicate (length s.slots * 2) empty_node) ≡ length s.slots * 2 =
      length-replicate (length s.slots * 2) empty_node in
    let fresh : IsTable power (replicate (length s.slots * 2) empty_node) = record {
      lower = omega arith;
      upper = omega arith;
      width = wide ∙ doubled s.power_of_cap (length s.slots) v.table.width;
    } in
    let (r, run, u) = rehash_nodes-live power (take s.size s.slots) _ fresh in
    let twice : length r ≡ length s.slots * 2 = u.0.width ∙ sym fresh.width ∙ wide in
    (
      record { power_of_cap = power; slots = r; size = s.size },
      rw (run, ◌>>=◌),
      record {
        table = u.0;
        counted =
            omega (
              arith,
              u.1,
              live-replicate (length s.slots * 2),
              live-take s.size s.slots,
              v.counted,
            );
        bounded = omega (arith, twice, v.bounded);
      },
      refl,
      twice,
    )
