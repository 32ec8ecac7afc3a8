-- ===== src/Myvector/Edits.antt =====
-- What the operations of main/myvector.ipp do to the elements.
use esp32_mqtts_broker.Prelude.{
  ℕ, suc, ◌+◌, ◌-◌, ◌%◌, ◌≤◌, ◌<◌, ◌≡◌, refl, sym, ◌∙◌, Bool, true, false, ◌&&◌, ◌||◌, not, List,
  [], ◌∷◌, ◌++◌, arith, ltb, leb, if◌then◌else◌, length, ltb→lt, take, drop, replicate,
  length-append, length-replicate, length-set, size_mod, Bool-cases, inl, inr,
}
use esp32_mqtts_broker.Myvector.{Myvector, grown, put_last, push_back, inserted, insert}
use esp32_mqtts_broker.Myvector.View.{
  view, IsValid, length-take, length-drop, take-append_front, take-set_last,
}

full_test :
    (size cap : ℕ)
    → size ≤ cap
    → cap + 2 < size_mod
    → ltb cap ((size + 1) % size_mod) ≡ not (ltb size cap)
full_test size cap h small = ground arith

or_true : (b : Bool) → (b || true) ≡ true
or_true b = ground arith

or_false : (b : Bool) → (b || false) ≡ b
or_false b = ground arith

before : (pos size n : ℕ) → leb size pos ≡ false → size ≡ n → pos ≤ n
before pos size n h e = ground arith

module _ {T : Type 0} where
  -- an array that is longer
  grown-IsValid :
      (blank : T) (v : Myvector T) (elements : List T)
      → length elements ≤ v.capacity + 2
      → v.capacity + 2 < size_mod
      → length (grown blank v elements).cells ≡ (grown blank v elements).capacity
  grown-IsValid blank v elements h room = omega (
    arith,
    length-append elements (replicate (v.capacity + 2 - length elements) blank),
    length-replicate (v.capacity + 2 - length elements) blank,
  )

  put_last-view :
      (v : Myvector T) (val : T)
      → length v.cells ≡ v.capacity
      → v.size < v.capacity
      → v.capacity < size_mod
      → IsValid (put_last val v) × (view (put_last val v) ≡ view v ++ val ∷ [])
  put_last-view v val there room small =
      let next : (v.size + 1) % size_mod ≡ suc v.size = omega arith in
      (
        record { cells_there = length-set v.cells v.size val ∙ there; fits = omega arith },
        rw next (take-set_last v.cells v.size val (omega arith)),
      )

  -- an array with two more cells and one more element
  grow_last :
      (blank : T) (v : Myvector T) (val : T)
      → IsValid v
      → v.capacity + 2 < size_mod
      → let longer = grown blank v (view v) in
        IsValid (put_last val longer) × (view (put_last val longer) ≡ view v ++ val ∷ [])
  grow_last blank v val ok_v small =
      let longer = grown blank v (view v) in
      let long = length-take v.size v.cells (omega (arith, ok_v.cells_there, ok_v.fits)) in
      let (valid, seen) =
        put_last-view longer val
          (grown-IsValid blank v (view v) (omega (arith, long, ok_v.fits)) small)
          (omega (arith, ok_v.fits)) (omega arith) in
      let same : view longer ≡ view v = take-append_front (view v) _ v.size (sym long) in
      (valid, seen ∙ rw same refl)

  -- On a valid vector `push_back` puts the element behind the others, if there is room or memory for
  -- two more cells, and changes nothing otherwise; the vector stays valid. The capacity is below
  -- 2 ^ 32 - 2.
  pub push_back-view :
      (alloc : Bool) (blank : T) (v : Myvector T) (val : T)
      → IsValid v
      → v.capacity + 2 < size_mod
      → IsValid (push_back alloc blank v val)
        × (view (push_back alloc blank v val)
            ≡ (if alloc || ltb v.size v.capacity then view v ++ val ∷ [] else view v))
  unfolding push_back
  push_back-view alloc blank v val ok_v small =
      let test = full_test v.size v.capacity ok_v.fits small in
      elim (Bool-cases (ltb v.size v.capacity)) [
        | inl room ↦
            let below : v.size < v.capacity = ltb→lt v.size v.capacity room in
            rw (test, room, or_true alloc)
              (put_last-view v val ok_v.cells_there below (omega arith))
        | inr full ↦ elim (Bool-cases alloc) [
          | inl yes_memory ↦ rw (test, full, yes_memory) (grow_last blank v val ok_v small)
          | inr no_memory ↦ rw (test, full, no_memory) (ok_v, refl)
        ]
      ]

  length-inserted :
      (pos : ℕ) (val : T) (xs : List T)
      → pos ≤ length xs
      → length (inserted pos val xs) ≡ length xs + 1
  length-inserted pos val xs h = omega (
    arith,
    length-append (take pos xs) (val ∷ drop pos xs),
    length-take pos xs h,
    length-drop pos xs h,
  )

  -- On a valid vector `insert` answers true exactly if the position is that of an element and there is
  -- room or memory for two more cells; then the element stands in front of the one that was there,
  -- and else nothing changes. The vector stays valid. The capacity is below 2 ^ 32 - 2.
  pub insert-view :
      (alloc : Bool) (blank : T) (v : Myvector T) (pos : ℕ) (val : T)
      → IsValid v
      → v.capacity + 2 < size_mod
      → let r = insert alloc blank v pos val in
        (r.0 ≡ (not (leb v.size pos) && (alloc || ltb v.size v.capacity)))
        × IsValid r.1
        × (view r.1 ≡ (if r.0 then inserted pos val (view v) else view v))
  unfolding insert
  insert-view alloc blank v pos val ok_v small =
      let test = full_test v.size v.capacity ok_v.fits small in
      let next : (v.size + 1) % size_mod ≡ v.size + 1 = omega arith in
      let elements = inserted pos val (view v) in
      let long = length-take v.size v.cells (omega (arith, ok_v.cells_there, ok_v.fits)) in
      elim (Bool-cases (leb v.size pos)) [
        | inl behind ↦ rw behind (refl, ok_v, refl)
        | inr inside ↦
            let more = length-inserted pos val (view v) (before pos v.size _ inside (sym long)) in
            let shown = λ (ys : List T).
              take-append_front elements ys (v.size + 1) (omega (arith, more, long)) in
            elim (Bool-cases (ltb v.size v.capacity)) [
              | inl room ↦
                  let below : v.size < v.capacity = ltb→lt v.size v.capacity room in
                  let rest = length-drop (v.size + 1) v.cells (omega (arith, ok_v.cells_there)) in
                  let cells = length-append elements (drop (v.size + 1) v.cells) in
                  rw (inside, test, room, or_true alloc, next)
                    (
                      refl,
                      record {
                        cells_there = omega (arith, cells, more, long, rest, ok_v.cells_there);
                        fits = omega arith;
                      },
                      shown (drop (v.size + 1) v.cells),
                    )
              | inr full ↦ elim (Bool-cases alloc) [
                | inl yes_memory ↦
                    rw (inside, test, full, yes_memory, next)
                      (
                        refl,
                        record {
                          cells_there =
                              grown-IsValid blank v elements (omega (arith, more, long, ok_v.fits))
                                small;
                          fits = omega (arith, ok_v.fits);
                        },
                        shown _,
                      )
                | inr no_memory ↦ rw (inside, test, full, no_memory) (refl, ok_v, refl)
              ]
            ]
      ]
