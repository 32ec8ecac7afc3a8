-- ===== src/Myvector/View.antt =====
-- The elements of a vector as a list.
use esp32_mqtts_broker.Prelude.{
  ℕ, zero, suc, ◌+◌, ◌≤◌, ◌<◌, ◌≡◌, refl, ap, List, [], ◌∷◌, ◌++◌, arith, length, set, take, drop,
}
use esp32_mqtts_broker.Myvector.{Myvector}

module _ {T : Type 0} where
  abbrev pub view : Myvector T → List T
  view v = take v.size v.cells

  -- the array has as many cells as the capacity says, and room for the elements
  pub record IsValid (v : Myvector T) : Type 0 where
    pub cells_there : length v.cells ≡ v.capacity
    pub fits : v.size ≤ v.capacity

  pub length-take : (n : ℕ) (xs : List T) → n ≤ length xs → length (take n xs) ≡ n
  length-take zero xs h = refl
  length-take (suc n) [] h = absurd (omega arith)
  length-take (suc n) (x ∷ xs) h = ap suc (length-take n xs (omega arith))

  pub length-drop : (n : ℕ) (xs : List T) → n ≤ length xs → length (drop n xs) + n ≡ length xs
  length-drop zero xs h = omega arith
  length-drop (suc n) [] h = absurd (omega arith)
  length-drop (suc n) (x ∷ xs) h = omega (arith, length-drop n xs (omega arith))

  -- the first cells of an array whose front is known
  pub take-append_front : (xs ys : List T) (n : ℕ) → n ≡ length xs → take n (xs ++ ys) ≡ xs
  take-append_front [] ys zero h = refl
  take-append_front [] ys (suc n) h = absurd (omega arith)
  take-append_front (x ∷ xs) ys zero h = absurd (omega arith)
  take-append_front (x ∷ xs) ys (suc n) h =
      ap (λ zs. x ∷ zs) (take-append_front xs ys n (omega arith))

  pub take-set_last :
      (xs : List T) (n : ℕ) (v : T)
      → n < length xs
      → take (suc n) (set xs n v) ≡ take n xs ++ v ∷ []
  take-set_last [] n v h = absurd (omega arith)
  take-set_last (x ∷ xs) zero v h = refl
  take-set_last (x ∷ xs) (suc n) v h = ap (λ zs. x ∷ zs) (take-set_last xs n v (omega arith))
