-- ===== src/UserCreds.antt =====
-- main/includes/user_creds.hpp and main/user_creds.cpp. A `Password *` is an index into the list of the
-- passwords that were allocated. SHA-256, the random salt and the allocator are parameters.
pub mod Check
pub mod Update
use esp32_mqtts_broker.Prelude.{
  ℕ, Bool, true, false, ◌&&◌, not, Option, none, some, List, [], ◌∷◌, ◌++◌, ◌==◌, if◌then◌else◌,
  length, set,
}
use esp32_mqtts_broker.Run.{Run, ok, fault, null_pointer, ◌>>=◌}
use esp32_mqtts_broker.Hashmap
use esp32_mqtts_broker.Hashmap.{Hashmap, Allocs, at}
use esp32_mqtts_broker.Hashmap.Bucket.{Key, equal}

pub record Password : Type 0 where
  pub protection : Bool
  pub salt : List ℕ
  pub hash : List ℕ

pub record UserCreds : Type 0 where
  pub passwords : List Password
  pub users : Hashmap ℕ

-- mbedtls: whether the four calls return 0, and the digest of all that was fed in
pub record Sha256 : Type 0 where
  pub starts : Bool
  pub update_pass : Bool
  pub update_salt : Bool
  pub finish : Bool
  pub digest : List ℕ → List ℕ

-- the sequence of calls that hashes a password with a salt; `none` is an error of one of them
unfoldable pub salted_hash : Sha256 → List ℕ → List ℕ → Option (List ℕ)
salted_hash sha pass salt =
    if sha.starts && (sha.update_pass && (sha.update_salt && sha.finish))
    then some (sha.digest (pass ++ salt))
    else none

-- what `new Password` holds: `protection` is false, the arrays are not initialised
abbrev pub new_password : List ℕ → List ℕ → Password
new_password salt hash = record { protection = false; salt = salt; hash = hash }

abbrev pub insert_user : Allocs → UserCreds → Key → Password → Run (Bool × UserCreds)
insert_user mem c name password = Hashmap.add mem c.users name (length c.passwords) >>= λ r.
    ok (r.0, record { passwords = c.passwords ++ password ∷ []; users = r.1 })

-- a user without a password
unfoldable pub add_user_open : Bool → Allocs → Password → UserCreds → Key → Run (Bool × UserCreds)
add_user_open alloc mem fresh c name =
    if alloc then insert_user mem c name (record fresh { protection = false }) else ok (false, c)

-- a user with a password, and the salt that was drawn
unfoldable pub add_user :
    Sha256 → Bool → Allocs → List ℕ → UserCreds → Key → List ℕ → Run (Bool × UserCreds)
add_user sha alloc mem salt c name pass =
    if alloc
    then (elim (salted_hash sha pass salt) [
      | none ↦ ok (false, c)
      | some hash ↦ insert_user mem c name (record { protection = true; salt = salt; hash = hash })
    ])
    else ok (false, c)

-- `*data.get(...)`: the result of `get` is read before any test
unfoldable pub lookup_user : UserCreds → Key → Run ℕ
lookup_user c name =
    Hashmap.get c.users name >>= λ found. elim found [ none ↦ fault null_pointer | some p ↦ ok p ]

abbrev pub with_password : UserCreds → ℕ → Password → UserCreds
with_password c p password = record c { passwords = set c.passwords p password }

-- the salt and the protection change before the hash is known
unfoldable pub change_password : Sha256 → List ℕ → UserCreds → Key → List ℕ → Run (Bool × UserCreds)
change_password sha salt c name pass = lookup_user c name >>= λ p. at c.passwords p >>= λ old.
    if length pass == 0
    then ok (true, with_password c p (record old { protection = false }))
    else (elim (salted_hash sha pass salt) [
      | none ↦ ok (false, with_password c p (record old { salt = salt; protection = true }))
      | some hash ↦
          ok (true, with_password c p (record { salt = salt; protection = true; hash = hash }))
    ])

unfoldable pub delete_user : UserCreds → Key → Run UserCreds
delete_user c name = Hashmap.erase c.users name >>= λ users. ok (record c { users = users })

unfoldable pub check_password : Sha256 → Bool → UserCreds → Key → List ℕ → Run Bool
check_password sha alloc c name pass = lookup_user c name >>= λ p.
    at c.passwords p >>= λ correct_pass.
    if length pass == 0
    then ok (not correct_pass.protection)
    else (if alloc
        then (elim (salted_hash sha pass correct_pass.salt) [
          | none ↦ ok false
          | some hash ↦ ok (equal hash correct_pass.hash)
        ])
        else ok false)
