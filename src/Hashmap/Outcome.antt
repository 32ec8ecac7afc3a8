-- ===== src/Hashmap/Outcome.antt =====
-- Every outcome of `add` together.
use mathlib.Core.Option.{or_else}
use esp32_mqtts_broker.Prelude.{
  ◌+◌, ◌≤◌, ◌<◌, ◌≡◌, sym, ap, ◌∙◌, Bool, true, false, some, [], arith, if◌then◌else◌, ◌&&◌, ◌||◌,
  ◌⊎◌, inl, inr, Bool-cases, size_mod,
}
use esp32_mqtts_broker.Run.{Returns}
use esp32_mqtts_broker.Hashmap.Bucket.{Key, equal, find, occurrences}
use esp32_mqtts_broker.Hashmap.Lookup.{entries, IsValid, chain_of}
use esp32_mqtts_broker.Hashmap.Insert.{
  Adds, linked-Adds, add-link, add_refused, add-Adds, add_loses,
}
use esp32_mqtts_broker.Hashmap.Link.{linked, link-overloaded, overloads}
use esp32_mqtts_broker.Hashmap.{Hashmap, Allocs, add, is_empty}

occurrences-nil : (T : Type 0) (q : Key) → occurrences {T = T} q [] ≤ 1
unfolding occurrences
occurrences-nil T q = omega arith

module _ {T : Type 0} where
  find-nil : (q : Key) (p : T) → find q [] ≡ some p → ⊥
  unfolding find
  find-nil q p e = cc

  -- what holds of every `add`, with the answer that it must give
  pub record Outcome (answers : Bool) (m : Hashmap T) (k : Key) (v : T) (r : Bool × Hashmap T)
      : Type 0 where
    pub answer : r.0 ≡ answers
    pub valid : IsValid r.1
    pub counted : r.1.count ≤ m.count + 1
    pub origin :
        (q : Key) (p : T)
        → find q (entries r.1) ≡ some p
        → (find q (entries m) ≡ some p) ⊎ ((equal k q ≡ true) × (p ≡ v))
    pub once :
        (q : Key)
        → occurrences q (entries m) + (if equal k q then 1 else 0) ≤ 1
        → occurrences q (entries r.1) ≤ 1

  module _ (mem : Allocs) (m : Hashmap T) (valid : IsValid m) (k : Key) (v : T) where
    unchanged-Outcome : {b : Bool} → b ≡ false → Outcome b m k v (false, m)
    unchanged-Outcome h = record {
      answer = sym h;
      valid = valid;
      counted = omega arith;
      origin = λ q p e. inl e;
      once = λ q u. omega (arith, u);
    }

    Adds-Outcome : {b : Bool} → b ≡ true → (r : Bool × Hashmap T) → Adds m k v r → Outcome b m k v r
    unfolding or_else
    Adds-Outcome h r a = record {
      answer = a.answer ∙ sym h;
      valid = a.valid;
      counted = omega (arith, a.counted);
      origin = λ q p e. ground (arith, a.finds q);
      once = λ q u. rw (a.occurs q) u;
    }

    -- Whatever memory there is, `add` ends normally on a valid table of fewer than 2 ^ 32 - 1
    -- nodes, answers whether the node and its key could be allocated, leaves a valid table, counts
    -- one node more at most, shows nothing that was not there before but the new value under the
    -- new key, and never has a key twice unless that key was added while there.
    pub add-Outcome :
        m.count + 1 < size_mod
        → Returns (add mem m k v) (Outcome (mem.node && (is_empty k || mem.key)) m k v)
    add-Outcome room = elim (Bool-cases (mem.node && (is_empty k || mem.key))) [
      | inr h ↦ ((false, m), add_refused mem m valid k v h, unchanged-Outcome h)
      | inl h ↦ elim (Bool-cases (overloads m k)) [
        | inr light ↦
            let (r, run, a) = add-Adds mem m valid k v h room light in (r, run, Adds-Outcome h r a)
        | inl heavy ↦ elim (Bool-cases mem.table) [
          | inl table ↦
              let (r, run, a) = add_loses mem m valid k v h table room heavy in
              (
                r,
                run,
                record {
                  answer = a.0 ∙ sym h;
                  valid = a.3;
                  counted = omega (arith, a.1);
                  origin = λ q p e. absurd (find-nil q p (sym (ap (find q) a.2) ∙ e));
                  once = λ q u. rw a.2 (occurrences-nil T q);
                },
              )
          | inr table ↦ (
            (true, linked m k v),
            rw (
              add-link mem m valid k v,
              h,
              link-overloaded mem.table m _ (chain_of m k) k v heavy valid.unsized,
              table,
            ),
            Adds-Outcome h (true, linked m k v) (linked-Adds m valid k v room),
          )
        ]
      ]
    ]
