-- ===== src/Subscription/Levels.antt =====
-- The scan for `/` that starts each round of the loops of main/Subscription.cpp.
use esp32_mqtts_broker.Prelude.{
  ℕ, ◌≡◌, refl, ap, Bool, true, false, ◌||◌, [], ◌∷◌, ◌++◌, arith, ◌==◌, if◌then◌else◌, length,
  length-append, Bool-cases, ==_iff, inl, inr,
}
use esp32_mqtts_broker.Hashmap.Bucket.{Key}

abbrev pub slash : ℕ
slash = b'/'

-- what stands before the first `/`
unfoldable pub level : Key → Key
level [] = []
level (c ∷ cs) = if c == slash then [] else c ∷ level cs

-- what is left from the first `/` on, the `/` included
unfoldable pub after_level : Key → Key
after_level [] = []
after_level (c ∷ cs) = if c == slash then c ∷ cs else after_level cs

unfoldable pub has_slash : Key → Bool
has_slash [] = false
has_slash (c ∷ cs) = c == slash || has_slash cs

pub level-after_level : (t : Key) → level t ++ after_level t ≡ t
unfolding level after_level
level-after_level [] = refl
level-after_level (c ∷ cs) = ground (arith, level-after_level cs)

-- a topic of one level
pub level-plain : (t : Key) → has_slash t ≡ false → (level t ≡ t) × (after_level t ≡ [])
unfolding level after_level has_slash
level-plain [] h = (refl, refl)
level-plain (c ∷ cs) h = ground (arith, level-plain cs)

-- of a topic of several levels the scan leaves one that starts with `/`
pub after_level-slash : (t : Key) → has_slash t ≡ true → (cs : Key) × (after_level t ≡ slash ∷ cs)
unfolding after_level has_slash
after_level-slash [] h = cc
after_level-slash (c ∷ cs) h = elim (Bool-cases (c == slash)) [
  | inl here ↦ (cs, rw (here, (==_iff c slash).0 here))
  | inr on ↦ let (rest, e) = after_level-slash cs (rw on at h) in (rest, rw on e)
]

-- from where the scan does not move: no character stands before the `/`
pub level-slash : (cs : Key) → (level (slash ∷ cs) ≡ []) × (after_level (slash ∷ cs) ≡ slash ∷ cs)
unfolding level after_level
level-slash cs = (refl, refl)

pub length-level : (t : Key) → has_slash t ≡ true → (length t == length (level t)) ≡ false
length-level t h =
    let (rest, e) = after_level-slash t h in
    ground
      (arith, ap length (level-after_level t), length-append (level t) (after_level t), ap length e)
