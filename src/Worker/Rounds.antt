-- ===== src/Worker/Rounds.antt =====
-- How the loop over the topics of a SUBSCRIBE in main/worker.cpp ends.
use esp32_mqtts_broker.Prelude.{
  ℕ, zero, suc, ◌+◌, ◌*◌, ◌≤◌, ◌<◌, ◌≡◌, refl, sym, subst, ◌∙◌, List, arith, length,
}
use esp32_mqtts_broker.Run.{
  Run, Fault, ok, fault, ◌>>=◌, bind-cong, Yields, Yields-then, Yields-bind,
}
use esp32_mqtts_broker.Myvector.{Myvector}
use esp32_mqtts_broker.Connect.{byte, word, bytes}
use esp32_mqtts_broker.Worker.State.{Worker, World}
use esp32_mqtts_broker.Worker.Subscribing.{subscribe_topic, subscribe_loop, minus_u16}
use esp32_mqtts_broker.Worker.Topics.{byte-inside}

-- the loop between two rounds: the worker, `cur_pos`, `packet_length` and the answers so far
pub record Place : Type 0 where
  pub worker : Worker
  pub pos : ℕ
  pub left : ℕ
  pub suback : Myvector ℕ

bind_assoc :
    {A B C : Type 0} (m : Run A) (f : A → Run B) (g : B → Run C)
    → ((m >>= f) >>= g) ≡ (m >>= λ a. f a >>= g)
bind_assoc (ok a) f g = refl
bind_assoc (fault e) f g = refl

module _ (world : World) (sock : ℕ) (buf : List ℕ) where
  -- one round: a length, a topic of that length and its quality of service are read, and the client
  -- subscribes
  unfoldable pub one_topic : Place → Run Place
  one_topic p = do
    topic_len ← word buf p.pos
    topic ← bytes buf (p.pos + 2) topic_len
    qos ← byte buf (p.pos + 2 + topic_len)
    r ← subscribe_topic world p.worker sock p.suback topic qos
    ok (record {
      worker = r.0;
      pos = p.pos + 3 + topic_len;
      left = minus_u16 (minus_u16 p.left (topic_len + 2)) 1;
      suback = r.1;
    })

  -- How a loop of such rounds ends that gives `run`: when nothing is left, or with the fault of a round. At
  -- most `rounds` rounds come before that; each reads at least three bytes, all within `buf`.
  pub data Ends (run : Run (Worker × Myvector ℕ)) : ℕ → Place → Type 0 where
    finished : {n : ℕ} {p : Place} → p.left ≡ 0 → run ≡ ok (p.worker, p.suback) → Ends run n p
    breaks :
        {n : ℕ} {p : Place} (e : Fault)
        → 0 < p.left
        → one_topic p ≡ fault e
        → run ≡ fault e
        → Ends run n p
    goes_on :
        {n : ℕ} {p : Place} (q : Place)
        → 0 < p.left
        → one_topic p ≡ ok q
        → p.pos + 3 ≤ q.pos
        → q.pos ≤ length buf
        → Ends run n q
        → Ends run (suc n) p

  unfoldable loop_at : ℕ → Place → Run (Worker × Myvector ℕ)
  loop_at fuel p = subscribe_loop fuel world p.worker sock buf p.pos p.left p.suback

  -- the loop is a round and then the loop
  loop_round :
      (fuel left : ℕ) (p : Place)
      → p.left ≡ suc left
      → loop_at (suc fuel) p ≡ (one_topic p >>= loop_at fuel)
  unfolding loop_at one_topic subscribe_loop
  loop_round fuel left p e = rw e (
      sym (
        bind_assoc (word buf p.pos) _ (loop_at fuel)
        ∙ bind-cong (word buf p.pos) _ _ (λ topic_len a.
          bind_assoc (bytes buf (p.pos + 2) topic_len) _ (loop_at fuel)
          ∙ bind-cong (bytes buf (p.pos + 2) topic_len) _ _ (λ topic b.
            bind_assoc (byte buf (p.pos + 2 + topic_len)) _ (loop_at fuel)
            ∙ bind-cong (byte buf (p.pos + 2 + topic_len)) _ _ (λ qos c.
              bind_assoc (subscribe_topic world p.worker sock p.suback topic qos) _
                (loop_at fuel))))))

  one_topic-inside :
      (p : Place) → Yields (one_topic p) λ q. (p.pos + 3 ≤ q.pos) × (q.pos ≤ length buf)
  unfolding one_topic
  one_topic-inside p = Yields-then _ (word buf p.pos) _ (λ topic_len.
      Yields-then _ (bytes buf (p.pos + 2) topic_len) _ (λ topic.
        Yields-bind _ _ (byte buf (p.pos + 2 + topic_len)) _
          (byte-inside buf (p.pos + 2 + topic_len))
          (λ qos last.
            Yields-then _ (subscribe_topic world p.worker sock p.suback topic qos) _
              (λ r. (omega arith, omega arith)))))

  after_round :
      (fuel left : ℕ) (p : Place) (m : Run Place)
      → p.left ≡ suc left
      → one_topic p ≡ m
      → Yields m (λ q. (p.pos + 3 ≤ q.pos) × (q.pos ≤ length buf))
      → ((q : Place) → p.pos + 3 ≤ q.pos → q.pos ≤ length buf → Ends (loop_at fuel q) fuel q)
      → Ends (loop_at (suc fuel) p) (suc fuel) p
  after_round fuel left p (fault e) more run h go =
      breaks e (omega arith) run (loop_round fuel left p more ∙ rw (run, ◌>>=◌) refl)
  after_round fuel left p (ok q) more run (on, inside) go =
      let same : loop_at (suc fuel) p ≡ loop_at fuel q =
        loop_round fuel left p more ∙ rw (run, ◌>>=◌) refl in
      goes_on q (omega arith) run on inside (subst (λ r. Ends r fuel q) (sym same) (go q on inside))

  ends :
      (fuel left : ℕ) (p : Place)
      → p.left ≡ left
      → p.pos ≤ length buf
      → length buf < p.pos + 3 * fuel
      → Ends (loop_at fuel p) fuel p
  unfolding loop_at subscribe_loop
  ends zero left p e inside enough = absurd (omega arith)
  ends (suc fuel) zero p e inside enough = finished e (rw e refl)
  ends (suc fuel) (suc left) p e inside enough =
      after_round fuel left p (one_topic p) e refl (one_topic-inside p)
        (λ q on within. ends fuel q.left q refl within (omega arith))

  -- The loop over the topics of a SUBSCRIBE ends: with enough fuel for the three bytes that a topic has at
  -- least to fit into what is left of `buf`, whatever lengths the packet claims, its run is that of
  -- a loop of fewer rounds than fuel, which ends when nothing of the packet is left, or with the
  -- fault of a round. Every round that returns has read its topic within `buf`.
  pub subscribe_loop-Ends :
      (fuel : ℕ) (p : Place)
      → p.pos ≤ length buf
      → length buf < p.pos + 3 * fuel
      → Ends (subscribe_loop fuel world p.worker sock buf p.pos p.left p.suback) fuel p
  unfolding loop_at subscribe_loop
  subscribe_loop-Ends fuel p inside enough = ends fuel p.left p refl inside enough
