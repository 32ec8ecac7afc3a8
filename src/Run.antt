-- ===== src/Run.antt =====
-- Runs of the C++ code: a value, or a fault where the source has undefined behaviour (on the ESP32
-- an exception that restarts the chip, or a corrupted heap). `out_of_fuel` is the model's own: a loop
-- that was given too few rounds.
use esp32_mqtts_broker.Prelude.{
  ◌≡◌, refl, ap, ◌∙◌, Bool, true, false, if◌then◌else◌, Option, none, some,
}

pub data Fault : Type 0 where
  null_pointer dangling_pointer division_by_zero out_of_range out_of_fuel : Fault

pub data Run {ℓ} (A : Type ℓ) : Type ℓ where
  fault : Fault → Run A
  ok : A → Run A

module _ {ℓ κ} {A : Type ℓ} where
  infixl 5 ◌>>=◌
  abbrev pub ◌>>=◌ : {B : Type κ} → Run A → (A → Run B) → Run B
  fault reason >>= next = fault reason
  ok value >>= next = next value

  -- the run has no fault, and its value has the property
  abbrev pub Returns : Run A → (A → Type κ) → Type (ℓ ⊔ κ)
  Returns run Holds = (value : A) × (run ≡ ok value) × Holds value

  -- a run that ends has gone through its first part
  pub bind-ok :
      {B : Type κ} (m : Run A) (f : A → Run B) (b : B)
      → (m >>= f) ≡ ok b
      → (a : A) × (m ≡ ok a) × (f a ≡ ok b)
  bind-ok (ok a) f b h = (a, refl, h)
  bind-ok (fault e) f b h = cc

-- if the run has no fault, its value has the property
abbrev pub Yields : {A : Type 0} → Run A → (A → Type 0) → Type 0
Yields (fault reason) Holds = Unit
Yields (ok value) Holds = Holds value

pub Yields-ok :
    {A : Type 0} (Holds : A → Type 0) (m : Run A) (value : A)
    → Yields m Holds
    → m ≡ ok value
    → Holds value
Yields-ok Holds m value h e = rw e at h

pub Yields-map :
    {A : Type 0} (Holds After : A → Type 0) (m : Run A)
    → Yields m Holds
    → ((a : A) → Holds a → After a)
    → Yields m After
Yields-map Holds After (fault reason) h f = tt
Yields-map Holds After (ok value) h f = f value h

pub Yields-run :
    {A : Type 0} (Holds : A → Type 0) (m : Run A) → ((a : A) → m ≡ ok a → Holds a) → Yields m Holds
Yields-run Holds (fault reason) h = tt
Yields-run Holds (ok value) h = h value refl

pub Returns-if :
    {A : Type 0} (Holds : A → Type 0) (test : Bool) (m n : Run A)
    → Returns m Holds
    → Returns n Holds
    → Returns (if test then m else n) Holds
Returns-if Holds true m n h g = h
Returns-if Holds false m n h g = g

pub Yields-if :
    {A : Type 0} (Holds : A → Type 0) (test : Bool) (m n : Run A)
    → Yields m Holds
    → Yields n Holds
    → Yields (if test then m else n) Holds
Yields-if Holds true m n h g = h
Yields-if Holds false m n h g = g

module _ {A B : Type 0} where
  pub Yields-bind :
      (Holds : A → Type 0) (After : B → Type 0) (m : Run A) (f : A → Run B)
      → Yields m Holds
      → ((a : A) → Holds a → Yields (f a) After)
      → Yields (m >>= f) After
  Yields-bind Holds After (fault reason) f h next = tt
  Yields-bind Holds After (ok value) f h next = next value h

  -- nothing is asked of the first part
  pub Yields-then :
      (After : B → Type 0) (m : Run A) (f : A → Run B)
      → ((a : A) → Yields (f a) After)
      → Yields (m >>= f) After
  Yields-then After (fault reason) f next = tt
  Yields-then After (ok value) f next = next value

  pub Yields-option :
      (After : B → Type 0) (o : Option A) (m : Run B) (f : A → Run B)
      → Yields m After
      → ((a : A) → Yields (f a) After)
      → Yields (elim o [ none ↦ m | some a ↦ f a ]) After
  Yields-option After none m f h g = h
  Yields-option After (some a) m f h g = g a

  -- two continuations that agree on the value of the first part
  pub bind-cong :
      (m : Run A) (f g : A → Run B) → ((a : A) → m ≡ ok a → f a ≡ g a) → (m >>= f) ≡ (m >>= g)
  bind-cong (fault reason) f g same = refl
  bind-cong (ok value) f g same = same value refl

  pub Returns-bind :
      (Holds : A → Type 0) (After : B → Type 0) (m : Run A) (f : A → Run B)
      → Returns m Holds
      → ((a : A) → Holds a → Returns (f a) After)
      → Returns (m >>= f) After
  Returns-bind Holds After m f (a, run, h) next =
      let (b, rest, g) = next a h in (b, ap (λ r. r >>= f) run ∙ rest, g)

  pub Returns-option :
      (After : B → Type 0) (o : Option A) (m : Run B) (f : A → Run B) (a : A)
      → o ≡ some a
      → Returns (f a) After
      → Returns (elim o [ none ↦ m | some a ↦ f a ]) After
  Returns-option After o m f a e h = rw e h
