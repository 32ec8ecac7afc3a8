-- ===== src/Publishhashmap/Full.antt =====
-- The whole of `add`: the full-table test, the rehash, the store.
use esp32_mqtts_broker.Prelude.{
  ℕ, ◌+◌, ◌<◌, ◌≡◌, refl, sym, ◌∙◌, Bool, true, false, ◌&&◌, ◌||◌, not, List, [], arith, ◌==◌,
  if◌then◌else◌, length, set, length-set, Bool-cases, ==_iff, inl, inr, size_mod,
}
use esp32_mqtts_broker.Run.{◌>>=◌, Returns}
use esp32_mqtts_broker.Publishhashmap.{Publishhashmap, store, add, rehash}
use esp32_mqtts_broker.Publishhashmap.Lookup.{node_at, IsValid, table_bounds, target, target-inside}
use esp32_mqtts_broker.Publishhashmap.Insert.{live-set, IsTable-set, store-Stores, store_refused}
use esp32_mqtts_broker.Publishhashmap.Rehash.{rehash-IsValid}

-- what `add` may answer and leave: the store stays well formed, and `size` goes up exactly when the
-- answer is true
pub record Kept (size : ℕ) (r : Bool × Publishhashmap) : Type 0 where
  pub valid : IsValid r.1
  pub sized : r.1.size ≡ (if r.0 then size + 1 else size)

granted_filled : (alloc : Bool) (n : ℕ) → (alloc && not (n == 0)) ≡ true → (alloc ≡ true) × (0 < n)
granted_filled alloc n h = ground arith

store-Kept :
    (alloc : Bool) (s : Publishhashmap) (key : ℕ) (bytes : List ℕ) (msg_qos init_count : ℕ)
    → IsValid s
    → s.size < length s.slots
    → Returns
        (store alloc s key bytes msg_qos init_count)
        λ r. (r.0 ≡ (alloc && not (length bytes == 0))) × Kept s.size r
store-Kept alloc s key bytes msg_qos init_count v room =
    let t = v.table in
    elim (Bool-cases (alloc && not (length bytes == 0))) [
      | inr h ↦
          let i = target t key in
          let bare = record (node_at s.slots i) { content = [] } in
          (
            (false, record s { slots = set s.slots i bare }),
            store_refused s t key bytes msg_qos init_count alloc h,
            (
              sym h,
              record {
                valid = record {
                  table = IsTable-set i bare t;
                  counted = omega (arith, live-set s.slots i bare (target-inside t key), v.counted);
                  bounded = omega (arith, length-set s.slots i bare, v.bounded);
                };
                sized = refl;
              },
            ),
          )
      | inl h ↦
          let (granted, filled) = granted_filled alloc (length bytes) h in
          let small : s.size + 1 < size_mod = omega (arith, table_bounds t key) in
          let (r, run, w) = store-Stores s t key bytes msg_qos init_count filled small in
          let same : length r.1.slots ≡ length s.slots = w.table.width ∙ sym t.width in
          (
            r,
            rw granted run,
            (
              w.answer ∙ sym h,
              record {
                valid = record {
                  table = rw w.power w.table;
                  counted = ground (arith, w.lives, w.sized, v.counted);
                  bounded = omega (arith, same, w.sized);
                };
                sized = ground (arith, w.sized, w.answer);
              },
            ),
          )
    ]

or_true : (a b : Bool) → ((a || true) && b) ≡ b
or_true true b = refl
or_true false b = refl

-- Below 2 ^ 31 slots, `add` on a well-formed store ends normally whatever memory there is: the store
-- stays well formed, `size` goes up exactly when the answer is true, and the answer is true exactly
-- when the message is not empty, could be copied, and a full table could be doubled.
pub add-Kept :
    (table_alloc copy_alloc : Bool)
    → (s : Publishhashmap) (key : ℕ) (bytes : List ℕ) (msg_qos init_count : ℕ) → IsValid s
    → s.power_of_cap < 31
    → Returns (add table_alloc copy_alloc s key bytes msg_qos init_count) λ r.
      (r.0 ≡ (
        (table_alloc || not (s.size == length s.slots)) && (copy_alloc && not (length bytes == 0))))
      × Kept s.size r
unfolding add rehash
add-Kept table_alloc copy_alloc s key bytes msg_qos init_count v small =
    elim (Bool-cases (s.size == length s.slots)) [
      | inr room ↦
          let (r, run, (answer, kept)) =
            store-Kept copy_alloc s key bytes msg_qos init_count v (ground arith) in
          (r, rw room run, (rw room (answer ∙ sym (or_true table_alloc _)), kept))
      | inl full ↦ elim (Bool-cases table_alloc) [
        | inr refused ↦ (
          (false, s),
          rw (full, refused, ◌>>=◌),
          (rw (full, refused), record { valid = v; sized = refl }),
        )
        | inl granted ↦
            let (u, run, valid, sized, wide) = rehash-IsValid s v small in
            let (r, stored, (answer, kept)) =
              store-Kept copy_alloc u key bytes msg_qos init_count valid (
                omega (
                  arith,
                  sized,
                  wide,
                  (==_iff s.size (length s.slots)).0 full,
                  table_bounds v.table key,
                )) in
            (
              r,
              rw (full, granted, run, ◌>>=◌) stored,
              (rw (full, granted) answer, rw sized at kept),
            )
      ]
    ]
