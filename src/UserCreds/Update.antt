-- ===== src/UserCreds/Update.antt =====
-- What a new user and a changed password mean for later checks.
use mathlib.Core.Option.{or_else}
use esp32_mqtts_broker.Prelude.{
  ℕ, zero, suc, ◌+◌, ◌<◌, ◌≡◌, refl, sym, ap, ◌∙◌, Bool, true, false, ◌&&◌, ◌||◌, Option, none,
  some, List, [], ◌∷◌, ◌++◌, arith, ◌==◌, if◌then◌else◌, length, get_or, get_or-set, length-set,
  length-append, inl, inr, Bool-cases, Option-cases, size_mod, ◌⊎◌, ==_iff,
}
use esp32_mqtts_broker.Run.{ok, ◌>>=◌, Returns}
use esp32_mqtts_broker.Hashmap.{Hashmap, Allocs, is_empty}
use esp32_mqtts_broker.Hashmap.Bucket.{Key, equal, equal_iff, equal_refl, find}
use esp32_mqtts_broker.Hashmap.Place.{at-get_or}
use esp32_mqtts_broker.Hashmap.Lookup.{entries, get-find}
use esp32_mqtts_broker.Hashmap.Insert.{Adds, add-Adds}
use esp32_mqtts_broker.Hashmap.Link.{overloads}
use esp32_mqtts_broker.UserCreds.{
  UserCreds, Password, Sha256, salted_hash, lookup_user, check_password, add_user, change_password,
  with_password,
}
use esp32_mqtts_broker.UserCreds.Check.{
  IsValid, user_of, password_at, no_password, accepts, check_password-unknown,
  check_password-accepts,
}

get_or-append :
    (ps : List Password) (x : Password) (i : ℕ)
    → i < length ps
    → get_or (ps ++ x ∷ []) i no_password ≡ get_or ps i no_password
get_or-append [] x i h = absurd (omega arith)
get_or-append (p ∷ ps) x zero h = refl
get_or-append (p ∷ ps) x (suc i) h = get_or-append ps x i (omega arith)

get_or-last :
    (ps : List Password) (x : Password) → get_or (ps ++ x ∷ []) (length ps) no_password ≡ x
get_or-last [] x = refl
get_or-last (p ∷ ps) x = get_or-last ps x

-- a user whose entry and password are the same in both is checked alike
check-same :
    (sha : Sha256) (alloc : Bool) (c d : UserCreds) (q : Key) (pass : List ℕ)
    → IsValid c
    → IsValid d
    → user_of d q ≡ user_of c q
    → ((p : ℕ) → user_of c q ≡ some p → password_at d p ≡ password_at c p)
    → check_password sha alloc d q pass ≡ check_password sha alloc c q pass
check-same sha alloc c d q pass v w entry stored = elim (Option-cases (user_of c q)) [
  | inl e ↦
      check_password-unknown sha alloc d w q pass (entry ∙ e)
      ∙ sym (check_password-unknown sha alloc c v q pass e)
  | inr (p, e) ↦
      check_password-accepts sha alloc d w q pass p (entry ∙ e)
      ∙ ap (λ x. ok (accepts sha alloc x pass)) (stored p e)
      ∙ sym (check_password-accepts sha alloc c v q pass p e)
]

-- the credentials after an operation on one user, as later checks see them
pub record Sets (c : UserCreds) (name : Key) (stored : Password) (d : UserCreds) : Type 0 where
  pub valid : IsValid d
  pub checked :
      (sha : Sha256) (alloc : Bool) (pass : List ℕ)
      → check_password sha alloc d name pass ≡ ok (accepts sha alloc stored pass)
  pub others :
      (q : Key) (sha : Sha256) (alloc : Bool) (pass : List ℕ)
      → equal name q ≡ false
      → check_password sha alloc d q pass ≡ check_password sha alloc c q pass

module _ (c : UserCreds) (v : IsValid c) (name : Key) where
  or_else-none : (o : Option ℕ) → or_else o none ≡ o
  unfolding or_else
  or_else-none none = refl
  or_else-none (some p) = refl

  inserted_entry :
      (r : Bool × Hashmap ℕ)
      → Adds c.users name (length c.passwords) r
      → (q : Key) (p : ℕ) → find q (entries r.1) ≡ some p
      → (user_of c q ≡ some p) ⊎ ((equal name q ≡ true) × (p ≡ length c.passwords))
  unfolding or_else
  inserted_entry r a q p e = ground (arith, a.finds q)

  inserted-Sets :
      (stored : Password) (r : Bool × Hashmap ℕ)
      → user_of c name ≡ none
      → Adds c.users name (length c.passwords) r
      → Sets c name stored (record { passwords = c.passwords ++ stored ∷ []; users = r.1 })
  inserted-Sets stored r fresh a =
      let n = length c.passwords in
      let d : UserCreds = record { passwords = c.passwords ++ stored ∷ []; users = r.1 } in
      let long = length-append c.passwords (stored ∷ []) in
      let here : user_of d name ≡ some n =
        a.finds name ∙ unfold or_else in rw (fresh, equal_refl name) in
      let valid : IsValid d = record {
        table = a.valid;
        pointers = λ q p e. elim (inserted_entry r a q p e) [
          | inl old ↦ omega (arith, v.pointers q p old)
          | inr (_, new) ↦ omega arith
        ];
        apart = λ j k p e f. elim (inserted_entry r a j p e) [
          | inl x ↦ elim (inserted_entry r a k p f) [
            | inl y ↦ v.apart j k p x y
            | inr (_, new) ↦ absurd (omega (arith, v.pointers j p x))
          ]
          | inr (same, new) ↦ elim (inserted_entry r a k p f) [
            | inl y ↦ absurd (omega (arith, v.pointers k p y))
            | inr (same', _) ↦ ground (arith, equal_iff name j, equal_iff name k, equal_iff j k)
          ]
        ];
      } in
      record {
        valid = valid;
        checked = λ sha alloc pass.
            check_password-accepts sha alloc d valid name pass n here
            ∙ ap (λ x. ok (accepts sha alloc x pass)) (get_or-last c.passwords stored);
        others = λ q sha alloc pass ne.
            check-same sha alloc c d q pass v valid
              (a.finds q ∙ unfold or_else in rw ne (or_else-none (user_of c q)))
              (λ p e. get_or-append c.passwords stored p (v.pointers q p e));
      }

  -- On well-formed credentials, a user that was not registered, where there is memory, the hash
  -- calls succeed and the table is neither overloaded nor at 2 ^ 32 - 1 nodes, passes later checks
  -- by the salted hash of the password given, and all other users are checked as before.
  pub add_user-Sets :
      (sha : Sha256) (mem : Allocs) (salt pass hash : List ℕ)
      → user_of c name ≡ none
      → (mem.node && (is_empty name || mem.key)) ≡ true
      → c.users.count + 1 < size_mod
      → overloads c.users name ≡ false
      → salted_hash sha pass salt ≡ some hash
      → Returns (add_user sha true mem salt c name pass) λ r.
        (r.0 ≡ true) × Sets c name (record { protection = true; salt = salt; hash = hash }) r.1
  unfolding add_user
  add_user-Sets sha mem salt pass hash fresh granted room light hashed =
      let stored : Password = record { protection = true; salt = salt; hash = hash } in
      let (r, run, a) = add-Adds mem c.users v.table name (length c.passwords) granted room light in
      (
        (r.0, record { passwords = c.passwords ++ stored ∷ []; users = r.1 }),
        rw (hashed, run, ◌>>=◌),
        (a.answer, inserted-Sets stored r fresh a),
      )

  abbrev pub rehashed : List ℕ → Password → Option (List ℕ) → Password
  rehashed salt old none = record old { salt = salt; protection = true }
  rehashed salt old (some hash) = record { protection = true; salt = salt; hash = hash }

  abbrev pub succeeded : Option (List ℕ) → Bool
  succeeded none = false
  succeeded (some hash) = true

  -- what a change leaves of a stored password
  abbrev pub changed : Sha256 → List ℕ → Password → List ℕ → Password
  changed sha salt old pass =
      if length pass == 0
      then record old { protection = false }
      else rehashed salt old (salted_hash sha pass salt)

  replaced-Sets :
      (p : ℕ) (stored : Password)
      → user_of c name ≡ some p
      → Sets c name stored (with_password c p stored)
  replaced-Sets p stored e =
      let d = with_password c p stored in
      let inside = v.pointers name p e in
      let valid : IsValid d = record {
        table = v.table;
        pointers = λ q i f. omega (arith, v.pointers q i f, length-set c.passwords p stored);
        apart = v.apart;
      } in
      record {
        valid = valid;
        checked = λ sha alloc pass.
            check_password-accepts sha alloc d valid name pass p e
            ∙ ap (λ x. ok (accepts sha alloc x pass))
                (get_or-set c.passwords p p stored no_password inside ∙ ground arith);
        others = λ q sha alloc pass ne. check-same sha alloc c d q pass v valid refl (λ i f.
            get_or-set c.passwords p i stored no_password inside
            ∙ ground (arith, v.apart name q p e, ==_iff p i));
      }

  -- On well-formed credentials, a change of a registered user's password ends normally. An empty
  -- password takes the protection away, any other one is hashed with the new salt. If a hash call
  -- fails the answer is false, and the user is left with the new salt beside the old hash. All
  -- other users are checked as before.
  pub change_password-Sets :
      (sha : Sha256) (salt pass : List ℕ) (p : ℕ)
      → user_of c name ≡ some p
      → Returns (change_password sha salt c name pass) λ r.
        (r.0 ≡ (length pass == 0 || succeeded (salted_hash sha pass salt)))
        × Sets c name (changed sha salt (password_at c p) pass) r.1
  unfolding change_password lookup_user
  change_password-Sets sha salt pass p e =
      let old = password_at c p in
      let slot = at-get_or c.passwords p no_password (v.pointers name p e) in
      elim (Bool-cases (length pass == 0)) [
        | inl empty ↦ (
          (true, with_password c p (record old { protection = false })),
          rw (get-find c.users v.table name, e, ◌>>=◌, slot, ◌>>=◌, empty),
          (rw empty, rw empty (replaced-Sets p (record old { protection = false }) e)),
        )
        | inr filled ↦ elim (Option-cases (salted_hash sha pass salt)) [
          | inl failed ↦ (
            (false, with_password c p (rehashed salt old none)),
            rw (get-find c.users v.table name, e, ◌>>=◌, slot, ◌>>=◌, filled, failed),
            (rw (filled, failed), rw (filled, failed) (replaced-Sets p (rehashed salt old none) e)),
          )
          | inr (hash, done) ↦ (
            (true, with_password c p (rehashed salt old (some hash))),
            rw (get-find c.users v.table name, e, ◌>>=◌, slot, ◌>>=◌, filled, done),
            (
              rw (filled, done),
              rw (filled, done) (replaced-Sets p (rehashed salt old (some hash)) e),
            ),
          )
        ]
      ]
