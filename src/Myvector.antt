-- ===== src/Myvector.antt =====
-- main/includes/myvector.hpp and main/myvector.ipp: the vector. `cells` is the array behind `data`, and
-- is empty where `data` is null; `blank` is what a new cell holds, `alloc` the answer of `alloc_v`.
pub mod View
pub mod Edits
use esp32_mqtts_broker.Prelude.{
  ℕ, ◌+◌, ◌-◌, ◌%◌, Bool, true, false, ◌&&◌, List, [], ◌∷◌, ◌++◌, ◌==◌, ltb, leb, if◌then◌else◌,
  length, set, take, drop, replicate, size_mod,
}
use esp32_mqtts_broker.Run.{Run, ok, fault, out_of_range}
use esp32_mqtts_broker.Hashmap.Bucket.{equal}

pub record Myvector (T : Type 0) : Type 0 where
  pub cells : List T
  pub capacity : ℕ
  pub size : ℕ

abbrev pub capacity_resize : ℕ
capacity_resize = 2

module _ {T : Type 0} where
  abbrev pub empty_vector : Myvector T
  empty_vector = record { cells = []; capacity = 0; size = 0 }

  -- the constructors from a range and from a list, of fewer than 2 ^ 31 elements
  unfoldable pub of_list : Bool → List T → Myvector T
  of_list alloc [] = empty_vector
  of_list alloc (x ∷ xs) =
      if alloc
      then record { cells = x ∷ xs; capacity = length (x ∷ xs); size = length (x ∷ xs) }
      else empty_vector

  -- `std::move` of the old elements behind the end of a smaller array is undefined
  unfoldable pub reserve : Bool → T → Myvector T → ℕ → Run (Bool × Myvector T)
  reserve alloc blank v cap =
      if alloc
      then (if ltb cap v.size
          then fault out_of_range
          else ok (
            true,
            record v {
              cells = take v.size v.cells ++ replicate (cap - v.size) blank;
              capacity = cap;
            },
          ))
      else ok (false, v)

  -- the constructor from a value and a count
  unfoldable pub filled : Bool → T → ℕ → Myvector T
  filled alloc val count =
      if alloc
      then record { cells = replicate count val; capacity = count; size = count }
      else empty_vector

  -- the move assignment and the constructor from a reference: the new vector, and what is left
  abbrev pub moved : Myvector T → Myvector T × Myvector T
  moved v = (v, empty_vector)

  -- the copy assignment, which keeps the old elements where there is no memory
  unfoldable pub assigned : Bool → Myvector T → Myvector T → Myvector T
  assigned alloc old v =
      if alloc
      then record { cells = take v.size v.cells; capacity = v.size; size = v.size }
      else old

  -- a larger array with the elements of `v`
  abbrev pub grown : T → Myvector T → List T → Myvector T
  grown blank v elements = record v {
    cells = elements ++ replicate (v.capacity + capacity_resize - length elements) blank;
    capacity = (v.capacity + capacity_resize) % size_mod;
  }

  abbrev pub is_full : Myvector T → Bool
  is_full v = ltb v.capacity ((v.size + 1) % size_mod)

  -- `data[size++] = val`
  abbrev pub put_last : T → Myvector T → Myvector T
  put_last val v = record v { cells = set v.cells v.size val; size = (v.size + 1) % size_mod }

  unfoldable pub push_back : Bool → T → Myvector T → T → Myvector T
  push_back alloc blank v val =
      if is_full v
      then (if alloc then put_last val (grown blank v (take v.size v.cells)) else v)
      else put_last val v

  unfoldable pub shrink_to_fit : Bool → Myvector T → Myvector T
  shrink_to_fit alloc v =
      if alloc then record v { cells = take v.size v.cells; capacity = v.size } else v

  unfoldable pub fill : Myvector T → T → Myvector T
  fill v val = record v { cells = replicate v.capacity val; size = v.capacity }

  -- the elements with `val` in front of the one at `pos`
  abbrev pub inserted : ℕ → T → List T → List T
  inserted pos val xs = take pos xs ++ (val ∷ drop pos xs)

  unfoldable pub insert : Bool → T → Myvector T → ℕ → T → Bool × Myvector T
  insert alloc blank v pos val =
      if leb v.size pos
      then (false, v)
      else (let elements = inserted pos val (take v.size v.cells) in
          let size = (v.size + 1) % size_mod in
          if is_full v
          then (if alloc
              then (true, record (grown blank v elements) { size = size })
              else (false, v))
          else (true, record v { cells = elements ++ drop (v.size + 1) v.cells; size = size }))

-- `equal`, and `==` on two vectors
abbrev pub equal_to : Myvector ℕ → List ℕ → Bool
equal_to v xs = v.size == length xs && equal (take v.size v.cells) xs
