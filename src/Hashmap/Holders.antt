-- ===== src/Hashmap/Holders.antt =====
-- How many nodes of a table of numbers hold a number: what `add` and `erase` do to it, whether or not
-- the table is one that these operations make.
use esp32_mqtts_broker.Prelude.{
  ℕ, zero, suc, ◌+◌, ◌/◌, ◌%◌, ◌≤◌, ◌*◌, ◌≡◌, refl, ap, Bool, true, false, ◌&&◌, ◌||◌, Option, none,
  some, List, [], ◌∷◌, ◌++◌, flatten, arith, ◌==◌, ltb, length, set, Option-cases, inl, inr, take,
  replicate, size_mod,
}
use esp32_mqtts_broker.Run.{
  ok, ◌>>=◌, bind-ok, Yields, Yields-bind, Yields-then, Yields-if, Yields-map, Yields-ok,
}
use esp32_mqtts_broker.Hashmap.Bucket.{Key, Chain, find, unlink}
use esp32_mqtts_broker.Hashmap.Lookup.{entries}
use esp32_mqtts_broker.Hashmap.Link.{flatten-replicate}
use esp32_mqtts_broker.Hashmap.{
  Hashmap, Allocs, slot, at, get, add, link, rehash, move_node, move_chain, move_chains, erase,
  erase_in, is_empty,
}

abbrev pub one_if : Bool → ℕ
one_if true = 1
one_if false = 0

unfoldable pub holders : ℕ → Chain ℕ → ℕ
holders d [] = 0
holders d ((k, v) ∷ c) = one_if (v == d) + holders d c

abbrev pub found_is : Option ℕ → ℕ → ℕ
found_is none d = 0
found_is (some v) d = one_if (v == d)

holders-nil : (d : ℕ) → holders d [] ≡ 0
unfolding holders
holders-nil d = refl

holders-append : (d : ℕ) (a b : Chain ℕ) → holders d (a ++ b) ≡ holders d a + holders d b
unfolding holders
holders-append d [] b = omega arith
holders-append d ((k, v) ∷ a) b = omega (arith, holders-append d a b)

holders-unlink :
    (d : ℕ) (k : Key) (c : Chain ℕ) → holders d (unlink k c) + found_is (find k c) d ≡ holders d c
unfolding holders unlink find
holders-unlink d k [] = omega arith
holders-unlink d k ((j, v) ∷ c) = ground (arith, holders-unlink d k c)

-- a bucket is read, and becomes `c`
holders-set :
    (d : ℕ) (bs : List (Chain ℕ)) (id : ℕ)
    → Yields (at bs id) λ old.
      (c : Chain ℕ)
      → holders d (flatten (set bs id c)) + holders d old ≡ holders d (flatten bs) + holders d c
unfolding at flatten
holders-set d [] id = tt
holders-set d (b ∷ bs) zero =
    λ c. omega (arith, holders-append d c (flatten bs), holders-append d b (flatten bs))
holders-set d (b ∷ bs) (suc id) = Yields-map _ _ (at bs id) (holders-set d bs id) (λ old e c.
    omega (arith, e c, holders-append d b (flatten (set bs id c)), holders-append d b (flatten bs)))

holders-take :
    (d n : ℕ) (bs : List (Chain ℕ)) → holders d (flatten (take n bs)) ≤ holders d (flatten bs)
unfolding flatten holders
holders-take d zero bs = omega arith
holders-take d (suc n) [] = omega arith
holders-take d (suc n) (b ∷ bs) = omega (
  arith,
  holders-take d n bs,
  holders-append d b (flatten (take n bs)),
  holders-append d b (flatten bs),
)

-- a table whose nodes were brought into another one
abbrev Moved : ℕ → Chain ℕ → List (Chain ℕ) → List (Chain ℕ) → Type 0
Moved d c fresh moved = holders d (flatten moved) ≡ holders d (flatten fresh) + holders d c

module _ (d : ℕ) where
  move_node-Moved :
      (fresh : List (Chain ℕ)) (k : Key) (v : ℕ)
      → Yields (move_node fresh (k, v)) (Moved d ((k, v) ∷ []) fresh)
  unfolding move_node holders
  move_node-Moved fresh [] v = tt
  move_node-Moved fresh (x ∷ xs) v = Yields-then _ (slot (x ∷ xs) (length fresh)) _ (λ id.
      Yields-bind _ _ (at fresh id) _ (holders-set d fresh id) (λ old e.
        let one : Chain ℕ = (x ∷ xs, v) ∷ [] in
        omega (arith, e (old ++ one), holders-append d old one)))

  move_chain-Moved :
      (c : Chain ℕ) (fresh : List (Chain ℕ)) → Yields (move_chain c fresh) (Moved d c fresh)
  unfolding move_chain holders
  move_chain-Moved [] fresh = omega arith
  move_chain-Moved ((k, v) ∷ c) fresh =
      Yields-bind (Moved d c fresh) _ (move_chain c fresh) _ (move_chain-Moved c fresh) (λ moved e.
        Yields-map (Moved d ((k, v) ∷ []) moved) _ (move_node moved (k, v))
          (move_node-Moved moved k v) (λ all now. omega (arith, e, now)))

  move_chains-Moved :
      (cs fresh : List (Chain ℕ)) → Yields (move_chains cs fresh) (Moved d (flatten cs) fresh)
  unfolding move_chains flatten holders
  move_chains-Moved [] fresh = omega arith
  move_chains-Moved (c ∷ cs) fresh =
      Yields-bind (Moved d c fresh) _ (move_chain c fresh) _ (move_chain-Moved c fresh) (λ moved e.
        Yields-map (Moved d (flatten cs) moved) _ (move_chains cs moved)
          (move_chains-Moved cs moved)
          (λ all now. omega (arith, e, now, holders-append d c (flatten cs))))

  -- nodes that stay behind in `rehash` are lost
  rehash-le :
      (alloc : Bool) (new_size : ℕ) (m : Hashmap ℕ)
      → Yields (rehash alloc new_size m) λ r. holders d (entries r) ≤ holders d (entries m)
  unfolding rehash holders
  rehash-le false new_size m = omega arith
  rehash-le true new_size m =
      let fresh : List (Chain ℕ) = replicate new_size [] in
      Yields-bind (Moved d (flatten (take m.size m.buckets)) fresh) _
        (move_chains (take m.size m.buckets) fresh) _
        (move_chains-Moved (take m.size m.buckets) fresh)
        (λ moved e.
          let none_yet : holders d (flatten fresh) ≡ 0 =
            ap (holders d) (flatten-replicate new_size) in
          omega (arith, e, none_yet, holders-take d m.size m.buckets))

  abbrev AtMost : Hashmap ℕ → ℕ → Bool × Hashmap ℕ → Type 0
  AtMost m v r = holders d (entries r.1) ≤ holders d (entries m) + one_if (v == d)

  link-AtMost :
      (alloc : Bool) (m : Hashmap ℕ) (id : ℕ) (c : Chain ℕ) (k : Key) (v : ℕ)
      → (holders d (flatten (set m.buckets id (c ++ (k, v) ∷ []))) + holders d c
          ≡ holders d (entries m) + holders d (c ++ (k, v) ∷ []))
      → Yields (link alloc m id c k v) (AtMost m v)
  unfolding link holders
  link-AtMost alloc m id [] k v e = omega arith
  link-AtMost alloc m id (x ∷ c) k v e =
      let count = (m.count + 1) % size_mod in
      let linked : Hashmap ℕ = record m {
        buckets = set m.buckets id (x ∷ c ++ (k, v) ∷ []);
        count = count;
      } in
      let more : holders d (entries linked) ≤ holders d (entries m) + one_if (v == d) =
        omega (arith, e, holders-append d (x ∷ c) ((k, v) ∷ [])) in
      Yields-if (AtMost m v) (ltb (length m.buckets * 4 % size_mod) count) _ _
        (Yields-bind _ (AtMost m v) (rehash alloc (count / 2) linked) _
          (rehash-le alloc (count / 2) linked) (λ grown less. omega (arith, less, more)))
        more

  -- `add` adds no holder of a number but the new node
  pub add-holders :
      (mem : Allocs) (m : Hashmap ℕ) (k : Key) (v : ℕ) → Yields (add mem m k v) (AtMost m v)
  unfolding add
  add-holders mem m k v = Yields-then _ (slot k (length m.buckets)) _ (λ id.
      Yields-if (AtMost m v) (mem.node && (is_empty k || mem.key)) _ _
        (Yields-bind _ (AtMost m v) (at m.buckets id) _ (holders-set d m.buckets id)
          (λ c e. link-AtMost mem.table m id c k v (e (c ++ (k, v) ∷ []))))
        (omega arith))

  erase_in-holders :
      (m : Hashmap ℕ) (id : ℕ) (c : Chain ℕ) (k : Key)
      → ((now : Chain ℕ)
          → holders d (flatten (set m.buckets id now)) + holders d c
            ≡ holders d (entries m) + holders d now)
      → Yields
          (erase_in m id c k)
          λ r. holders d (entries r) + found_is (find k c) d ≡ holders d (entries m)
  unfolding erase_in
  erase_in-holders m id [] k e = tt
  erase_in-holders m id (x ∷ c) k e = elim (Option-cases (find k (x ∷ c))) [
    | inl gone ↦ rw (erase_in, gone) (omega arith)
    | inr (old, here) ↦
        let less = holders-unlink d k (x ∷ c) in
        rw (erase_in, here) (omega (arith, e (unlink k (x ∷ c)), rw here at less))
  ]

  -- `erase` takes one holder of the number that `get` finds
  pub erase-holders :
      (m : Hashmap ℕ) (k : Key) (found : Option ℕ)
      → get m k ≡ ok found
      → Yields (erase m k) λ r. holders d (entries r) + found_is found d ≡ holders d (entries m)
  unfolding erase get
  erase-holders m k found e =
      let (id, hashed, rest) =
        bind-ok (slot k (length m.buckets)) (λ id. at m.buckets id >>= λ chain. ok (find k chain))
          found e in
      let (chain, there, last) =
        bind-ok (at m.buckets id) (λ chain. ok (find k chain)) found rest in
      let it : find k chain ≡ found = cc in
      let less =
        erase_in-holders m id chain k
          (Yields-ok _ (at m.buckets id) chain (holders-set d m.buckets id) there) in
      rw (hashed, ◌>>=◌, there, ◌>>=◌) (rw it at less)

holders-find : (d : ℕ) (k : Key) (c : Chain ℕ) → find k c ≡ some d → 1 ≤ holders d c
unfolding find holders
holders-find d k [] e = cc
holders-find d k ((j, v) ∷ c) e = ground (arith, holders-find d k c)

-- what `get` finds has a holder
pub get-holders :
    (d : ℕ) (m : Hashmap ℕ) (k : Key) → get m k ≡ ok (some d) → 1 ≤ holders d (entries m)
unfolding get
get-holders d m k e =
    let (id, hashed, rest) =
      bind-ok (slot k (length m.buckets)) (λ id. at m.buckets id >>= λ chain. ok (find k chain))
        (some d) e in
    let (chain, there, last) =
      bind-ok (at m.buckets id) (λ chain. ok (find k chain)) (some d) rest in
    let it : find k chain ≡ some d = cc in
    omega (
      arith,
      holders-find d k chain it,
      Yields-ok _ (at m.buckets id) chain (holders-set d m.buckets id) there [],
      holders-nil d,
    )
