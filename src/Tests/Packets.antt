-- ===== src/Tests/Packets.antt =====
-- A connection with packets in several states, and a store with one message.
use esp32_mqtts_broker.Prelude.{
  some, inl, ℕ, zero, suc, ◌+◌, ◌<◌, ◌≡◌, refl, true, List, [], ◌∷◌, arith,
}
use esp32_mqtts_broker.Run.{ok, fault, out_of_range, Returns}
use esp32_mqtts_broker.Frame.{Reading, read_length}
use esp32_mqtts_broker.Frame.Length.{read_length_overruns}
use esp32_mqtts_broker.Publishhashmap.{NodePubmap, Publishhashmap, empty_node}
use esp32_mqtts_broker.Publishhashmap.Lookup.{IsTable, node_at, locate_sound}
use esp32_mqtts_broker.Session.{Session, Env, on_write}
use esp32_mqtts_broker.Session.Items.{
  PacketStateItem, PacketState, sendpubcomp, sendpublish, sendpuback, no_item, is_send,
}
use esp32_mqtts_broker.Session.Advance.{Moves, IsReady}
use esp32_mqtts_broker.Session.Drain.{writes, backlog, only_acks, sent, writes-drain}
use esp32_mqtts_broker.Session.Write.{on_write-Moves}

abbrev message : NodePubmap
message = record {
  count = 1;
  qos = 1;
  pubpack_id = 1;
  content = 0x32 ∷ 5 ∷ 0 ∷ 1 ∷ b'a' ∷ 0 ∷ 1 ∷ [];
}

abbrev one_message : Publishhashmap
one_message = record { power_of_cap = 1; slots = empty_node ∷ message ∷ []; size = 1 }

store_table : IsTable 1 one_message.slots
store_table = record { lower = omega arith; upper = omega arith; width = refl }

filled_at :
    (key i : ℕ)
    → 0 < key
    → i < 2
    → (node_at one_message.slots i).pubpack_id ≡ key
    → (first : ℕ) × (rest : List ℕ) × ((node_at one_message.slots i).content ≡ first ∷ rest)
filled_at key zero pos h e = absurd (omega (arith, e))
filled_at key (suc zero) pos h e = (0x32, 5 ∷ 0 ∷ 1 ∷ b'a' ∷ 0 ∷ 1 ∷ [], refl)
filled_at key (suc (suc i)) pos h e = absurd (omega arith)

store-IsReady : IsReady one_message
store-IsReady = record {
  table = store_table;
  filled = λ key i pos e.
      let (inside, same) = locate_sound one_message store_table key i e in
      filled_at key i pos inside same;
}

-- the environment takes everything
abbrev pub willing : Env
willing = record {
  queue_ok = λ effects. true;
  write_ok = λ effects. true;
  table_ok = λ effects. true;
  copy_ok = λ effects. true;
}

abbrev pub item : ℕ → PacketState → PacketStateItem
item id state = record { packet_id = id; state = state; qos = 1; delete_retain = true }

abbrev session : PacketState → Session
session state = record {
  sock = 54;
  client_sock = ok (some 54);
  items = item 7 sendpuback ∷ item 1 state ∷ no_item ∷ [];
  store = one_message;
  effects = [];
}

-- an acknowledgement of the packet 1
abbrev ack_of_one : List ℕ
ack_of_one = 0x40 ∷ 2 ∷ 1 ∷ 0 ∷ []

on_write-Moves_example :
    Returns (on_write willing (session sendpublish)) (Moves (session sendpublish))
on_write-Moves_example = on_write-Moves willing (session sendpublish) store-IsReady (inl refl)

-- bytes that all announce another one, before the last three places of the buffer
abbrev at_end : Reading
at_end = record {
  buf = [];
  pos = 1021;
  packet_length = 0;
  multiplier = 0;
  additional_packet_len = 0;
}

read_length_overruns_example : read_length (255 ∷ 255 ∷ 255 ∷ 255 ∷ []) at_end ≡ fault out_of_range
read_length_overruns_example =
    read_length_overruns (255 ∷ 255 ∷ 255 ∷ 255 ∷ []) [] at_end
      (
        omega arith,
        omega arith,
        (omega arith, omega arith, (omega arith, omega arith, (omega arith, omega arith, tt))),
      )
      (omega arith) (omega arith)

abbrev acks : Session
acks = record {
  sock = 54;
  client_sock = ok (some 54);
  items = item 7 sendpuback ∷ no_item ∷ item 9 sendpubcomp ∷ [];
  store = one_message;
  effects = [];
}

writes-drain_example :
    Returns (writes 2 willing acks) λ t. (backlog t.items ≡ 0) × (sent t.effects ≡ 0 + 2)
unfolding backlog only_acks sent is_send
writes-drain_example = writes-drain willing 2 acks refl refl
