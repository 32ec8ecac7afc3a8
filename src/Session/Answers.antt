-- ===== src/Session/Answers.antt =====
-- One connection of main/worker.cpp with one packet under way: what its acknowledgements do to it.
use esp32_mqtts_broker.Prelude.{ℕ, ◌≡◌, refl, ap, ◌∙◌, false, some, List, []}
use esp32_mqtts_broker.Run.{ok, ◌>>=◌, Returns}
use esp32_mqtts_broker.Publishhashmap.{Publishhashmap, release}
use esp32_mqtts_broker.Publishhashmap.Lookup.{IsTable, get-locate}
use esp32_mqtts_broker.Session.{
  Session, Env, read, write, sendtoque, with_item, stay, on_puback, on_pubrec, on_pubcomp,
  on_pubrel, is_malformed, packet_id_of,
}
use esp32_mqtts_broker.Session.Items.{
  PacketState, PacketStateItem, getpuback, getpubrec, getpubrel, getpubcomp, sendpubrel,
  sendpubcomp, item_at, find_item,
}
use esp32_mqtts_broker.Session.Turns.{IsSole, Turn, find_item-sole}

module _ (env : Env) (s : Session) (i id : ℕ) (sole : IsSole s.items i id) where
  module _ (buf : List ℕ) (packet_length : ℕ) (good : is_malformed buf packet_length ≡ false)
      (about : packet_id_of buf ≡ id) where
    found_in :
        (b : PacketStateItem) (state : PacketState)
        → item_at s.items i ≡ record b { packet_id = id; state = state }
        → find_item (packet_id_of buf) state s.items ≡ some i
    found_in b state here =
        ap (λ k. find_item k state s.items) about
        ∙ find_item-sole s.items i id (record b { packet_id = id; state = state }) sole here refl

    -- PUBACK and PUBREC take the message off the store for this receiver
    pub on_puback-Turn :
        (b : PacketStateItem) (store : Publishhashmap)
        → item_at s.items i ≡ record b { packet_id = id; state = getpuback }
        → IsTable s.store.power_of_cap s.store.slots
        → release s.store id ≡ ok store
        → Returns (on_puback env s buf packet_length) λ r.
          (r.0 ≡ stay) × Turn s r.1 i (record b { packet_id = 0; state = getpuback }) store []
    unfolding on_puback sendtoque
    on_puback-Turn b store here table less =
        let t = record (with_item s i (record b { packet_id = 0; state = getpuback })) {
          store = store;
        } in
        (
          (stay, (sendtoque env t read).1),
          rw
              (
                found_in b getpuback here,
                on_puback,
                about,
                get-locate s.store table id,
                ◌>>=◌,
                good,
                less,
                ◌>>=◌,
                here,
              )
              refl,
          (
            refl,
            record {
              same_sock = refl;
              same_client = refl;
              items = refl;
              store = refl;
              offered = refl;
            },
          ),
        )

    pub on_pubrec-Turn :
        (b : PacketStateItem) (store : Publishhashmap)
        → item_at s.items i ≡ record b { packet_id = id; state = getpubrec }
        → IsTable s.store.power_of_cap s.store.slots
        → release s.store id ≡ ok store
        → Returns (on_pubrec env s buf packet_length) λ r.
          (r.0 ≡ stay) × Turn s r.1 i (record b { packet_id = id; state = sendpubrel }) store []
    unfolding on_pubrec sendtoque
    on_pubrec-Turn b store here table less =
        let t = record (with_item s i (record b { packet_id = id; state = sendpubrel })) {
          store = store;
        } in
        (
          (stay, (sendtoque env t write).1),
          rw
              (
                found_in b getpubrec here,
                on_pubrec,
                about,
                get-locate s.store table id,
                ◌>>=◌,
                good,
                less,
                ◌>>=◌,
                here,
              )
              refl,
          (
            refl,
            record {
              same_sock = refl;
              same_client = refl;
              items = refl;
              store = refl;
              offered = refl;
            },
          ),
        )

    pub on_pubcomp-Turn :
        (b : PacketStateItem)
        → item_at s.items i ≡ record b { packet_id = id; state = getpubcomp }
        → let r = on_pubcomp env s buf packet_length in
          (r.0 ≡ stay) × Turn s r.1 i (record b { packet_id = 0; state = getpubcomp }) s.store []
    unfolding on_pubcomp sendtoque
    on_pubcomp-Turn b here =
        rw (good, found_in b getpubcomp here, here)
          (
            refl,
            record {
              same_sock = refl;
              same_client = refl;
              items = refl;
              store = refl;
              offered = refl;
            },
          )

    pub on_pubrel-Turn :
        (b : PacketStateItem)
        → item_at s.items i ≡ record b { packet_id = id; state = getpubrel }
        → let r = on_pubrel env s buf packet_length in
          (r.0 ≡ stay) × Turn s r.1 i (record b { packet_id = id; state = sendpubcomp }) s.store []
    unfolding on_pubrel sendtoque
    on_pubrel-Turn b here =
        rw (good, found_in b getpubrel here, here)
          (
            refl,
            record {
              same_sock = refl;
              same_client = refl;
              items = refl;
              store = refl;
              offered = refl;
            },
          )
