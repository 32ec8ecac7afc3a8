-- ===== src/Hashmap/Place.antt =====
-- Where the nodes of a table stand, and what a write to one bucket does to the nodes of all.
use mathlib.Core.Option.{or_else}
use esp32_mqtts_broker.Prelude.{
  ℕ, zero, suc, ◌+◌, ◌%◌, ◌<◌, ◌≡◌, ◌≢◌, refl, List, [], ◌∷◌, ◌++◌, flatten, arith, length, get_or,
  set, length-append,
}
use esp32_mqtts_broker.Run.{ok}
use esp32_mqtts_broker.Hashmap.Bucket.{
  Key, Chain, equal_iff, find, find-append, assign, unlink, occurrences, occurrences-append,
  occurrences-zero,
}
use esp32_mqtts_broker.Hashmap.{slot, at, fnv1a_hash}

-- the bucket of a key in a table of `n` buckets
unfoldable pub home : Key → ℕ → ℕ
home [] n = 0
home (x ∷ xs) n = fnv1a_hash (x ∷ xs) % n

pub home-lt : (k : Key) (n : ℕ) → 0 < n → home k n < n
unfolding home
home-lt [] n h = h
home-lt (x ∷ xs) n h = omega arith

pub slot-home : (k : Key) (n : ℕ) → 0 < n → slot k n ≡ ok (home k n)
unfolding slot home
slot-home [] n h = refl
slot-home (x ∷ xs) zero h = absurd (omega arith)
slot-home (x ∷ xs) (suc n) h = refl

pub at-get_or :
    {A : Type 0} (table : List A) (id : ℕ) (other : A)
    → id < length table
    → at table id ≡ ok (get_or table id other)
unfolding at
at-get_or [] id other inside = absurd (omega arith)
at-get_or (c ∷ table) zero other inside = refl
at-get_or (c ∷ table) (suc id) other inside = at-get_or table id other (omega arith)

-- what a new chain in one bucket does to the number of all nodes
pub length-flatten-set :
    {A : Type 0} (c : List A) (table : List (List A)) (id : ℕ)
    → id < length table
    → length c + length (flatten table)
      ≡ length (get_or table id []) + length (flatten (set table id c))
unfolding flatten
length-flatten-set c [] id inside = absurd (omega arith)
length-flatten-set c (old ∷ table) zero inside =
    omega (arith, length-append c (flatten table), length-append old (flatten table))
length-flatten-set c (old ∷ table) (suc id) inside = omega (
  arith,
  length-flatten-set c table id (omega arith),
  length-append old (flatten table),
  length-append old (flatten (set table id c)),
)

module _ {T : Type 0} where
  -- every key of the chain belongs to bucket `i` of `n`
  abbrev pub AllHome : ℕ → ℕ → Chain T → Type 0
  AllHome n i [] = Unit {0}
  AllHome n i ((k, v) ∷ c) = (home k n ≡ i) × AllHome n i c

  -- the chains stand in the buckets `i`, `i + 1`, ... of `n`
  abbrev pub Placed : ℕ → ℕ → List (Chain T) → Type 0
  Placed n i [] = Unit {0}
  Placed n i (c ∷ cs) = AllHome n i c × Placed n (suc i) cs

  pub AllHome-append :
      (n i : ℕ) (a b : Chain T) → AllHome n i a → AllHome n i b → AllHome n i (a ++ b)
  AllHome-append n i [] b ha hb = hb
  AllHome-append n i ((k, v) ∷ a) b ha hb = (ha.0, AllHome-append n i a b ha.1 hb)

  pub AllHome-assign :
      (n i : ℕ) (k : Key) (v : T) (c : Chain T) → AllHome n i c → AllHome n i (assign k v c)
  unfolding assign
  AllHome-assign n i k v [] h = tt
  AllHome-assign n i k v ((j, w) ∷ c) h = ground (arith, AllHome-assign n i k v c h.1)

  pub AllHome-unlink : (n i : ℕ) (k : Key) (c : Chain T) → AllHome n i c → AllHome n i (unlink k c)
  unfolding unlink
  AllHome-unlink n i k [] h = tt
  AllHome-unlink n i k ((j, w) ∷ c) h = ground (arith, AllHome-unlink n i k c h.1)

  pub Placed-set :
      (n i j : ℕ) (cs : List (Chain T)) (c : Chain T)
      → Placed n i cs
      → AllHome n (i + j) c
      → Placed n i (set cs j c)
  Placed-set n i j [] c p h = tt
  Placed-set n i zero (x ∷ cs) c p h = let e : i + 0 ≡ i = omega arith in (rw e at h, p.1)
  Placed-set n i (suc j) (x ∷ cs) c p h =
      let e : i + suc j ≡ suc i + j = omega arith in
      (p.0, Placed-set n (suc i) j cs c p.1 (rw e at h))

  pub Placed-get_or :
      (n i j : ℕ) (cs : List (Chain T)) → Placed n i cs → AllHome n (i + j) (get_or cs j [])
  Placed-get_or n i j [] p = tt
  Placed-get_or n i zero (x ∷ cs) p = let e : i + 0 ≡ i = omega arith in rw e p.0
  Placed-get_or n i (suc j) (x ∷ cs) p =
      let e : i + suc j ≡ suc i + j = omega arith in rw e (Placed-get_or n (suc i) j cs p.1)

  AllHome-absent :
      (n i : ℕ) (q : Key) (c : Chain T) → AllHome n i c → home q n ≢ i → occurrences q c ≡ 0
  unfolding occurrences
  AllHome-absent n i q [] h ne = refl
  AllHome-absent n i q ((j, w) ∷ c) h ne =
      ground (arith, AllHome-absent n i q c h.1 ne, equal_iff j q)

  Placed-absent :
      (n i : ℕ) (q : Key) (cs : List (Chain T))
      → Placed n i cs
      → home q n < i
      → occurrences q (flatten cs) ≡ 0
  unfolding flatten occurrences
  Placed-absent n i q [] p h = refl
  Placed-absent n i q (c ∷ cs) p h = omega (
    arith,
    occurrences-append q c (flatten cs),
    AllHome-absent n i q c p.0 (omega arith),
    Placed-absent n (suc i) q cs p.1 (omega arith),
  )

  -- the nodes of a key stand in its own bucket only
  pub Placed-reads :
      (n i j : ℕ) (q : Key) (cs : List (Chain T))
      → Placed n i cs
      → home q n ≡ i + j
      → (find q (flatten cs) ≡ find q (get_or cs j []))
        × (occurrences q (flatten cs) ≡ occurrences q (get_or cs j []))
  unfolding flatten or_else
  Placed-reads n i j q [] p h = (refl, refl)
  Placed-reads n i zero q (c ∷ cs) p h =
      let later = Placed-absent n (suc i) q cs p.1 (omega arith) in
      simp (find-append, occurrences-append, later, occurrences-zero q (flatten cs) later)
        (ground arith)
  Placed-reads n i (suc j) q (c ∷ cs) p h =
      let here = AllHome-absent n i q c p.0 (omega arith) in
      let (found, counted) = Placed-reads n (suc i) j q cs p.1 (omega arith) in
      simp (find-append, occurrences-append, here, occurrences-zero q c here) (found, omega arith)
