-- ===== src/UserCreds/Check.antt =====
-- Who passes `check_password`.
use esp32_mqtts_broker.Prelude.{
  ℕ, ◌<◌, ◌≡◌, Bool, true, false, ◌&&◌, not, Option, none, some, List, [], arith, ◌==◌,
  if◌then◌else◌, length, get_or,
}
use esp32_mqtts_broker.Run.{ok, fault, null_pointer, ◌>>=◌}
use esp32_mqtts_broker.Hashmap.Bucket.{Key, equal, find}
use esp32_mqtts_broker.Hashmap.Place.{at-get_or}
use esp32_mqtts_broker.Hashmap.Lookup.{entries, get-find}
use esp32_mqtts_broker.Hashmap.Lookup as Lookup
use esp32_mqtts_broker.UserCreds.{
  UserCreds, Password, Sha256, salted_hash, lookup_user, check_password,
}

abbrev pub no_password : Password
no_password = record { protection = false; salt = []; hash = [] }

-- the entry of a user, and its password
abbrev pub user_of : UserCreds → Key → Option ℕ
user_of c name = find name (entries c.users)

abbrev pub password_at : UserCreds → ℕ → Password
password_at c p = get_or c.passwords p no_password

-- the table is well formed, its pointers are valid, and no two users share a password
pub record IsValid (c : UserCreds) : Type 0 where
  pub table : Lookup.IsValid c.users
  pub pointers : (name : Key) (p : ℕ) → user_of c name ≡ some p → p < length c.passwords
  pub apart : (a b : Key) (p : ℕ) → user_of c a ≡ some p → user_of c b ≡ some p → equal a b ≡ true

-- the specification of a check against a stored password
abbrev pub accepts : Sha256 → Bool → Password → List ℕ → Bool
accepts sha alloc stored pass =
    if length pass == 0
    then not stored.protection
    else alloc && (elim (salted_hash sha pass stored.salt) [
      | none ↦ false
      | some hash ↦ equal hash stored.hash
    ])

module _ (sha : Sha256) (alloc : Bool) (c : UserCreds) (v : IsValid c) (name : Key)
    (pass : List ℕ) where
  -- On well-formed credentials, a check of a user that is not registered reads through a null
  -- pointer.
  pub check_password-unknown :
      user_of c name ≡ none → check_password sha alloc c name pass ≡ fault null_pointer
  unfolding check_password lookup_user
  check_password-unknown e = rw (get-find c.users v.table name, e, ◌>>=◌)

  -- On well-formed credentials, a check of a registered user answers by the stored password alone:
  -- the empty password passes exactly if there is no protection, any other if its salted hash is
  -- the stored one and neither memory nor a hash call fails.
  pub check_password-accepts :
      (p : ℕ)
      → user_of c name ≡ some p
      → check_password sha alloc c name pass ≡ ok (accepts sha alloc (password_at c p) pass)
  unfolding check_password lookup_user
  check_password-accepts p e =
      rw
        (
          get-find c.users v.table name,
          e,
          ◌>>=◌,
          at-get_or c.passwords p no_password (v.pointers name p e),
          ◌>>=◌,
        )
        (ground arith)
