-- ===== src/Publishhashmap/Remove.antt =====
-- Taking a message off the store: `erase`, and the counting down of its receivers.
use esp32_mqtts_broker.Prelude.{
  ℕ, ◌+◌, ◌-◌, ◌%◌, ◌<◌, ◌≡◌, refl, ◌∙◌, none, some, arith, ◌==◌, if◌then◌else◌, length, set,
  length-set, set-set, get_or-set, Bool-cases, Option-cases, inl, inr, size_mod,
}
use esp32_mqtts_broker.Run.{ok, ◌>>=◌, Returns}
use esp32_mqtts_broker.Publishhashmap.{Publishhashmap, empty_node, knuth_hash, erase, release}
use esp32_mqtts_broker.Publishhashmap.Probe.{slot_at-get_or, next_slot}
use esp32_mqtts_broker.Publishhashmap.Lookup.{
  node_at, IsTable, IsValid, table_bounds, locate, get-locate, locate_sound,
}
use esp32_mqtts_broker.Publishhashmap.Insert.{live-set, IsTable-set}

-- a change of a counter alone does not move any identifier
pub locate-count :
    (s : Publishhashmap) (key i count : ℕ)
    → i < length s.slots
    → locate (record s { slots = set s.slots i (record (node_at s.slots i) { count = count }) }) key
      ≡ locate s key
unfolding locate
locate-count s key i count inside =
    let id = knuth_hash s.power_of_cap key in
    let next = next_slot id (length s.slots) in
    let node = record (node_at s.slots i) { count = count } in
    rw
      (
        length-set s.slots i node,
        get_or-set s.slots i id node empty_node inside,
        get_or-set s.slots i next node empty_node inside,
      )
      (ground arith)

-- `s` without the message in the slot `i`
abbrev pub without : Publishhashmap → ℕ → Publishhashmap
without s i = record s {
  slots = set s.slots i empty_node;
  size = (s.size + size_mod - 1) % size_mod;
}

-- On a well-formed table, `erase` of an identifier that is not found changes nothing; one that is
-- found has its slot cleared, and the size goes down.
pub erase-locate :
    (s : Publishhashmap) (key : ℕ)
    → IsTable s.power_of_cap s.slots
    → erase s key ≡ ok (elim (locate s key) [ none ↦ s | some i ↦ without s i ])
unfolding erase
erase-locate s key t = elim (Option-cases (locate s key)) [
  | inl e ↦ rw (get-locate s t key, e, ◌>>=◌)
  | inr (i, e) ↦ rw (get-locate s t key, e, ◌>>=◌)
]

-- one receiver less, at a message found in the slot `i`
abbrev pub one_less : Publishhashmap → ℕ → Publishhashmap
one_less s i =
    let node = node_at s.slots i in
    if node.count == 1
    then without s i
    else record s { slots = set s.slots i (record node { count = node.count - 1 }) }

release-count :
    (s : Publishhashmap) (key i : ℕ)
    → IsTable s.power_of_cap s.slots
    → locate s key ≡ some i
    → 0 < (node_at s.slots i).count
    → (node_at s.slots i).count < 256
    → release s key ≡ ok (one_less s i)
unfolding release
release-count s key i t e lo hi =
    let node = node_at s.slots i in
    let inside = (locate_sound s t key i e).0 in
    let less = record s { slots = set s.slots i (record node { count = node.count - 1 }) } in
    let down : (node.count + 256 - 1) % 256 ≡ node.count - 1 = omega arith in
    let still : locate less key ≡ some i = locate-count s key i (node.count - 1) inside ∙ e in
    let erased : erase less key ≡ ok (without s i) =
      erase-locate less key (IsTable-set i _ t)
      ∙ rw (still, set-set s.slots i (record node { count = node.count - 1 }) empty_node) refl in
    rw (get-locate s t key, e, ◌>>=◌, slot_at-get_or s.slots i inside, ◌>>=◌, down, erased)
      (ground arith)

one_less-IsValid :
    (s : Publishhashmap) (i : ℕ)
    → IsValid s
    → i < length s.slots
    → 0 < (node_at s.slots i).count
    → IsValid (one_less s i)
one_less-IsValid s i v inside lo =
    let node = node_at s.slots i in
    let fewer = record node { count = node.count - 1 } in
    elim (Bool-cases (node.count == 1)) [
      | inl last ↦ rw last (record {
        table = IsTable-set i empty_node v.table;
        counted = ground (arith, live-set s.slots i empty_node inside, table_bounds v.table 0);
        bounded = ground (
          arith,
          length-set s.slots i empty_node,
          live-set s.slots i empty_node inside,
          table_bounds v.table 0,
        );
      })
      | inr more ↦ rw more (record {
        table = IsTable-set i fewer v.table;
        counted = ground (arith, live-set s.slots i fewer inside);
        bounded = omega (arith, length-set s.slots i fewer, v.bounded);
      })
    ]

-- Counting one receiver down on a well-formed store ends normally and leaves it well formed. An
-- identifier that is not found changes nothing. A message with several receivers stays, with one
-- receiver less; with the last receiver it leaves its slot, and the size goes down by one. The
-- message must have a receiver, and a counter fits a byte.
pub release-IsValid :
    (s : Publishhashmap) (key : ℕ)
    → IsValid s
    → ((i : ℕ)
        → locate s key ≡ some i
        → (0 < (node_at s.slots i).count) × ((node_at s.slots i).count < 256))
    → Returns
        (release s key)
        λ r. IsValid r × (r ≡ (elim (locate s key) [ none ↦ s | some i ↦ one_less s i ]))
release-IsValid s key v counts = elim (Option-cases (locate s key)) [
  | inl e ↦ (s, unfold release in rw (get-locate s v.table key, e, ◌>>=◌), (v, rw e))
  | inr (i, e) ↦
      let (lo, hi) = counts i e in
      (
        one_less s i,
        release-count s key i v.table e lo hi,
        (one_less-IsValid s i v (locate_sound s v.table key i e).0 lo, rw e),
      )
]

-- counting down ends normally on every table
pub release-Returns :
    (s : Publishhashmap) (key : ℕ)
    → IsTable s.power_of_cap s.slots
    → Returns (release s key) λ r. IsTable r.power_of_cap r.slots
unfolding release
release-Returns s key t = elim (Option-cases (locate s key)) [
  | inl e ↦ (s, rw (get-locate s t key, e, ◌>>=◌), t)
  | inr (i, e) ↦
      let node = node_at s.slots i in
      let inside = (locate_sound s t key i e).0 in
      let count = (node.count + 256 - 1) % 256 in
      let less = record s { slots = set s.slots i (record node { count = count }) } in
      let kept : locate less key ≡ some i = locate-count s key i count inside ∙ e in
      let erased : erase less key ≡ ok (without less i) =
        erase-locate less key (IsTable-set i _ t) ∙ rw kept refl in
      elim (Bool-cases (count == 0)) [
        | inl last ↦ (
          without less i,
          rw (get-locate s t key, e, ◌>>=◌, slot_at-get_or s.slots i inside, ◌>>=◌, last) erased,
          IsTable-set i empty_node (IsTable-set i _ t),
        )
        | inr more ↦ (
          less,
          rw (get-locate s t key, e, ◌>>=◌, slot_at-get_or s.slots i inside, ◌>>=◌, more),
          IsTable-set i _ t,
        )
      ]
]
