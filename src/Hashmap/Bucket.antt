-- ===== src/Hashmap/Bucket.antt =====
-- One bucket of `myhashmap`: the list of nodes that `next` links, and `myvector<char>::equal`.
use mathlib.Core.Option.{or_else}
use esp32_mqtts_broker.Prelude.{
  ℕ, ◌+◌, ◌≤◌, ◌≡◌, refl, subst, ◌↔◌, Bool, true, false, ◌&&◌, Option, none, some, List, [], ◌∷◌,
  ◌++◌, arith, ◌==◌, if◌then◌else◌, length,
}

abbrev pub Key : Type 0
Key = List ℕ

abbrev pub Chain {ℓ} : Type ℓ → Type ℓ
Chain T = List (Key × T)

-- `std::equal(ptr, ptr + len, data.get())`
std_equal : Key → Key → Bool
std_equal [] ys = true
std_equal (x ∷ xs) [] = false
std_equal (x ∷ xs) (y ∷ ys) = x == y && std_equal xs ys

unfoldable pub equal : Key → Key → Bool
unfolding std_equal
equal xs ys = length xs == length ys && std_equal ys xs

pub equal_sound : (xs ys : Key) → equal xs ys ≡ true → xs ≡ ys
unfolding equal
equal_sound [] [] h = refl
equal_sound [] (y ∷ ys) h = ground arith
equal_sound (x ∷ xs) [] h = ground arith
equal_sound (x ∷ xs) (y ∷ ys) h = ground (arith, equal_sound xs ys)

pub equal_refl : (xs : Key) → equal xs xs ≡ true
unfolding equal
equal_refl [] = refl
equal_refl (x ∷ xs) = ground (arith, equal_refl xs)

pub equal_iff : (xs ys : Key) → (equal xs ys ≡ true) ↔ (xs ≡ ys)
equal_iff xs ys = (equal_sound xs ys, λ e. subst (λ z. equal xs z ≡ true) e (equal_refl xs))

module _ {ℓ} {T : Type ℓ} where
  -- the walk of `get` along `next`, to the first node with the key
  unfoldable pub find : Key → Chain T → Option T
  find k [] = none
  find k ((j, v) ∷ c) = if equal j k then some v else find k c

  -- `ptr->data = data` at the first node with the key
  unfoldable pub assign : Key → T → Chain T → Chain T
  assign k v [] = []
  assign k v ((j, w) ∷ c) = if equal j k then (j, v) ∷ c else (j, w) ∷ assign k v c

  -- the first node with the key taken out
  unfoldable pub unlink : Key → Chain T → Chain T
  unlink k [] = []
  unlink k ((j, w) ∷ c) = if equal j k then c else (j, w) ∷ unlink k c

  pub find-append : (q : Key) (a b : Chain T) → find q (a ++ b) ≡ or_else (find q a) (find q b)
  unfolding find or_else
  find-append q [] b = refl
  find-append q ((j, v) ∷ a) b = rw (find-append q a b) (ground arith)

  pub length-assign : (k : Key) (v : T) (c : Chain T) → length (assign k v c) ≡ length c
  unfolding assign
  length-assign k v [] = refl
  length-assign k v ((j, w) ∷ c) = ground (arith, length-assign k v c)

  pub length-unlink :
      (k : Key) (c : Chain T) (v : T) → find k c ≡ some v → length (unlink k c) + 1 ≡ length c
  unfolding find unlink
  length-unlink k [] v h = cc
  length-unlink k ((j, w) ∷ c) v h = ground (arith, length-unlink k c v)

  pub find-assign :
      (k q : Key) (v : T) (c : Chain T) (old : T)
      → find k c ≡ some old
      → find q (assign k v c) ≡ (if equal k q then some v else find q c)
  unfolding find assign
  find-assign k q v [] old h = cc
  find-assign k q v ((j, w) ∷ c) old h =
      ground (arith, find-assign k q v c old, equal_iff j k, equal_iff j q, equal_iff k q)

  pub find-unlink_ne :
      (k q : Key) (c : Chain T) → equal k q ≡ false → find q (unlink k c) ≡ find q c
  unfolding find unlink
  find-unlink_ne k q [] h = refl
  find-unlink_ne k q ((j, w) ∷ c) h =
      ground (arith, find-unlink_ne k q c, equal_iff j k, equal_iff j q, equal_iff k q)

  -- how many nodes have the key
  unfoldable pub occurrences : Key → Chain T → ℕ
  occurrences k [] = 0
  occurrences k ((j, w) ∷ c) = (if equal j k then 1 else 0) + occurrences k c

  pub occurrences-zero : (k : Key) (c : Chain T) → occurrences k c ≡ 0 → find k c ≡ none
  unfolding find occurrences
  occurrences-zero k [] h = refl
  occurrences-zero k ((j, w) ∷ c) h = ground (arith, occurrences-zero k c)

  pub find-none : (k : Key) (c : Chain T) → find k c ≡ none → occurrences k c ≡ 0
  unfolding find occurrences
  find-none k [] h = refl
  find-none k ((j, w) ∷ c) h = ground (arith, find-none k c)

  pub find-unlink_self : (k : Key) (c : Chain T) → occurrences k c ≤ 1 → find k (unlink k c) ≡ none
  unfolding find unlink occurrences
  find-unlink_self k [] h = refl
  find-unlink_self k ((j, w) ∷ c) h = ground (arith, find-unlink_self k c, occurrences-zero k c)

  pub occurrences-append :
      (q : Key) (a b : Chain T) → occurrences q (a ++ b) ≡ occurrences q a + occurrences q b
  unfolding occurrences
  occurrences-append q [] b = omega arith
  occurrences-append q ((j, w) ∷ a) b = omega (arith, occurrences-append q a b)

  pub occurrences-assign :
      (k q : Key) (v : T) (c : Chain T) → occurrences q (assign k v c) ≡ occurrences q c
  unfolding assign occurrences
  occurrences-assign k q v [] = refl
  occurrences-assign k q v ((j, w) ∷ c) = ground (arith, occurrences-assign k q v c)

  pub occurrences-unlink-le :
      (k q : Key) (c : Chain T) → occurrences q (unlink k c) ≤ occurrences q c
  unfolding unlink occurrences
  occurrences-unlink-le k q [] = omega arith
  occurrences-unlink-le k q ((j, w) ∷ c) = ground (arith, occurrences-unlink-le k q c)
