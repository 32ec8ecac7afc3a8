-- ===== src/Session/Chain.antt =====
-- Turns of one packet of main/worker.cpp after one another.
use mathlib.Core.List.{append_assoc}
use esp32_mqtts_broker.Prelude.{
  ℕ, ◌≡◌, refl, sym, ap, ◌∙◌, false, List, [], ◌∷◌, ◌++◌, set, set-set,
}
use esp32_mqtts_broker.Publishhashmap.{Publishhashmap}
use esp32_mqtts_broker.Session.{Session, is_malformed, packet_id_of}
use esp32_mqtts_broker.Session.Items.{PacketStateItem, item_at}
use esp32_mqtts_broker.Session.Turns.{wire, sent_to, IsSole, IsSole-set, item_at-set, Turn}

sent_to-append :
    (sock : ℕ) (more bytes : List (List ℕ))
    → sent_to sock (more ++ bytes) ≡ sent_to sock more ++ sent_to sock bytes
sent_to-append sock [] bytes = refl
sent_to-append sock (packet ∷ more) bytes =
    ap (λ ps. (sock, packet) ∷ ps) (sent_to-append sock more bytes)

module _ (s t : Session) (i id : ℕ) (a : PacketStateItem) (left : Publishhashmap)
    (bytes : List (List ℕ)) (turn : Turn s t i a left bytes) (sole : IsSole s.items i id) where
  -- after a turn the packet is still the only one, in its new state
  pub after-IsSole : IsSole t.items i id
  after-IsSole = rw turn.items (IsSole-set s.items i id a sole)

  pub after_item : item_at t.items i ≡ a
  after_item = ap (λ items. item_at items i) turn.items ∙ item_at-set s.items i a sole.inside

  -- two turns after one another
  pub Turn-trans :
      (u : Session) (b : PacketStateItem) (next : Publishhashmap) (more : List (List ℕ))
      → Turn t u i b next more
      → Turn s u i b next (more ++ bytes)
  Turn-trans u b next more later = record {
    same_sock = later.same_sock ∙ turn.same_sock;
    same_client = later.same_client ∙ turn.same_client;
    items = later.items ∙ ap (λ items. set items i b) turn.items ∙ set-set s.items i a b;
    store = later.store;
    offered =
        later.offered
        ∙ ap (λ k. sent_to k more ++ wire t.effects) turn.same_sock
        ∙ ap (λ w. sent_to s.sock more ++ w) turn.offered
        ∙ sym (append_assoc (sent_to s.sock more) (sent_to s.sock bytes) (wire s.effects))
        ∙ ap (λ ps. ps ++ wire s.effects) (sym (sent_to-append s.sock more bytes));
  }

-- an acknowledgement that is well formed and about the packet `id`
pub record Acks (id : ℕ) (buf : List ℕ) (packet_length : ℕ) : Type 0 where
  pub good : is_malformed buf packet_length ≡ false
  pub about : packet_id_of buf ≡ id
