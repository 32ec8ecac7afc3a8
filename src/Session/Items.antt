-- ===== src/Session/Items.antt =====
-- The vector `packid_state` of main/includes/worker.hpp: its items, the searches in it, and
-- `add_packet_id` of main/worker.cpp.
use mathlib.Core.List.{Perm}
use mathlib.Core.List.Perm
use esp32_mqtts_broker.Prelude.{
  ℕ, suc, ◌<◌, ◌≡◌, Bool, true, false, ◌&&◌, not, Option, none, some, List, [], ◌∷◌, arith, ◌==◌,
  if◌then◌else◌, length, get_or, ◌⊎◌, inl, inr, Bool-cases, Option-cases, ==_iff,
}

pub data PacketState : Type 0 where
  getpuback getpubrec getpubrel getpubcomp : PacketState
  sendpublish sendpuback sendpubrec sendpubrel sendpubcomp : PacketState

-- an item whose `packet_id` is 0 is free
pub record PacketStateItem : Type 0 where
  pub packet_id : ℕ
  pub state : PacketState
  pub qos : ℕ
  pub delete_retain : Bool

pub PacketState-discrete : Discrete PacketState
PacketState-discrete = hlevel

code : PacketState → ℕ
code getpuback = 0
code getpubrec = 1
code getpubrel = 2
code getpubcomp = 3
code sendpublish = 4
code sendpuback = 5
code sendpubrec = 6
code sendpubrel = 7
code sendpubcomp = 8

-- `==` of the enumeration
unfoldable pub same_state : PacketState → PacketState → Bool
unfolding code
same_state a b = code a == code b

-- `sendpuback`, `sendpubcomp`, `sendpubrec`, `sendpubrel` or `sendpublish`
unfoldable pub is_send : PacketState → Bool
is_send getpuback = false
is_send getpubrec = false
is_send getpubrel = false
is_send getpubcomp = false
is_send sendpublish = true
is_send sendpuback = true
is_send sendpubrec = true
is_send sendpubrel = true
is_send sendpubcomp = true

abbrev pub no_item : PacketStateItem
no_item = record { packet_id = 0; state = getpuback; qos = 0; delete_retain = false }

abbrev pub item_at : List PacketStateItem → ℕ → PacketStateItem
item_at items i = get_or items i no_item

abbrev pub is_free_item : PacketStateItem → Bool
is_free_item item = item.packet_id == 0

-- what the write event looks for
abbrev pub wants_send : PacketStateItem → Bool
wants_send item = not (item.packet_id == 0) && is_send item.state

-- the index of the first item that passes a test
unfoldable pub find_index : (PacketStateItem → Bool) → List PacketStateItem → Option ℕ
find_index test [] = none
find_index test (item ∷ items) =
    if test item
    then some 0
    else (elim (find_index test items) [ none ↦ none | some i ↦ some (suc i) ])

-- the loop of the acknowledgement handlers
unfoldable pub find_item : ℕ → PacketState → List PacketStateItem → Option ℕ
unfolding find_index same_state
find_item id state items =
    find_index (λ item. item.packet_id == id && same_state item.state state) items

-- the item goes to the first free place, or to the end if the vector has room or gets it
unfoldable pub add_packet_id :
    Bool → List PacketStateItem → PacketState → ℕ → ℕ → Bool → List PacketStateItem
add_packet_id alloc [] state id qos delete_retain =
    if alloc
    then record { packet_id = id; state = state; qos = qos; delete_retain = delete_retain } ∷ []
    else []
add_packet_id alloc (item ∷ items) state id qos delete_retain =
    if is_free_item item
    then record { packet_id = id; state = state; qos = qos; delete_retain = delete_retain } ∷ items
    else item ∷ add_packet_id alloc items state id qos delete_retain

-- the items that are not free
unfoldable pub pending : List PacketStateItem → List PacketStateItem
pending [] = []
pending (item ∷ items) = if is_free_item item then pending items else item ∷ pending items

-- An identifier other than 0 is added to the pending items, each of which stays as it is, if the
-- vector has a free place or room for one more.
pub pending-add_packet_id :
    (alloc : Bool) (items : List PacketStateItem) (state : PacketState) (id qos : ℕ)
    (delete_retain : Bool)
    → 0 < id
    → (alloc ≡ true) ⊎ (length (pending items) < length items)
    → Perm (pending (add_packet_id alloc items state id qos delete_retain)) (
        record { packet_id = id; state = state; qos = qos; delete_retain = delete_retain }
        ∷ pending items)
unfolding pending add_packet_id
pending-add_packet_id alloc [] state id qos delete_retain pos room = elim room [
  | inl yes_room ↦ let busy : (id == 0) ≡ false = ground arith in rw (yes_room, busy) (Perm.refl _)
  | inr h ↦ absurd (omega arith)
]
pending-add_packet_id alloc (item ∷ items) state id qos delete_retain pos room =
    let busy : (id == 0) ≡ false = ground arith in
    elim (Bool-cases (is_free_item item)) [
      | inl free ↦ rw (free, busy, pending) (Perm.refl _)
      | inr taken ↦
          rw (taken, pending, taken)
            (Perm.trans
              (Perm.cons item (
                pending-add_packet_id alloc items state id qos delete_retain pos
                  (elim room [ inl e ↦ inl e | inr h ↦ inr (ground arith) ])))
              (Perm.swap _ item (pending items)))
    ]

-- what `find_index` finds passes the test, and stands in the list
pub find_index_sound :
    (test : PacketStateItem → Bool) (items : List PacketStateItem) (i : ℕ)
    → find_index test items ≡ some i
    → (i < length items) × (test (item_at items i) ≡ true)
unfolding find_index
find_index_sound test [] i h = cc
find_index_sound test (item ∷ items) i h = elim (Bool-cases (test item)) [
  | inl here ↦ ground arith
  | inr on ↦ elim (Option-cases (find_index test items)) [
    | inl e ↦ ground arith
    | inr (j, e) ↦ ground (arith, find_index_sound test items j e)
  ]
]

pub same_state_sound : (a b : PacketState) → same_state a b ≡ true → a ≡ b
unfolding same_state
same_state_sound getpuback b h = ground arith
same_state_sound getpubrec b h = ground arith
same_state_sound getpubrel b h = ground arith
same_state_sound getpubcomp b h = ground arith
same_state_sound sendpublish b h = ground arith
same_state_sound sendpuback b h = ground arith
same_state_sound sendpubrec b h = ground arith
same_state_sound sendpubrel b h = ground arith
same_state_sound sendpubcomp b h = ground arith

and_left : (a b : Bool) → (a && b) ≡ true → a ≡ true
and_left a b h = ground arith

and_right : (a b : Bool) → (a && b) ≡ true → b ≡ true
and_right a b h = ground arith

-- an item that an acknowledgement handler finds has the identifier and the state that it asked for
pub find_item_sound :
    (id : ℕ) (state : PacketState) (items : List PacketStateItem) (i : ℕ)
    → find_item id state items ≡ some i
    → (i < length items) × ((item_at items i).packet_id ≡ id) × ((item_at items i).state ≡ state)
unfolding find_item
find_item_sound id state items i h =
    let (inside, passed) = find_index_sound _ items i h in
    (
      inside,
      (==_iff (item_at items i).packet_id id).0 (and_left _ _ passed),
      same_state_sound (item_at items i).state state (and_right _ _ passed),
    )
