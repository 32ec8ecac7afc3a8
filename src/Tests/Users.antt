-- ===== src/Tests/Users.antt =====
-- The credentials of one user with a password.
use esp32_mqtts_broker.Prelude.{ℕ, ◌≡◌, refl, true, false, List, [], ◌∷◌, arith, flatten, length}
use esp32_mqtts_broker.Run.{ok, Returns}
use esp32_mqtts_broker.Hashmap.{fnv1a_hash}
use esp32_mqtts_broker.Hashmap.Bucket.{Key, equal, equal_iff, find}
use esp32_mqtts_broker.Hashmap.Place.{home}
use esp32_mqtts_broker.Hashmap.Lookup as Lookup
use esp32_mqtts_broker.UserCreds.{
  UserCreds, Password, Sha256, salted_hash, check_password, add_user, change_password,
}
use esp32_mqtts_broker.UserCreds.Check.{IsValid, check_password-accepts}
use esp32_mqtts_broker.UserCreds.Update.{Sets, add_user-Sets, change_password-Sets}

abbrev pub ann : Key
ann = b'a' ∷ b'n' ∷ b'n' ∷ []

abbrev bob : Key
bob = b'b' ∷ b'o' ∷ b'b' ∷ []

-- a digest for the examples: the bytes fed in, with their number in front
abbrev pub counting : Sha256
counting = record {
  starts = true;
  update_pass = true;
  update_salt = true;
  finish = true;
  digest = λ bytes. length bytes ∷ bytes;
}

abbrev pub secret : List ℕ
secret = b's' ∷ []

abbrev of_ann : Password
of_ann = record { protection = true; salt = 7 ∷ []; hash = 2 ∷ b's' ∷ 7 ∷ [] }

abbrev pub creds : UserCreds
creds = record {
  passwords = of_ann ∷ [];
  users = record { buckets = ((ann, 0) ∷ []) ∷ []; size = 0; count = 1 };
}

users_table : Lookup.IsValid creds.users
users_table = record {
  roomy = omega arith;
  unsized = refl;
  placed = unfold home fnv1a_hash in ((refl, tt), tt);
  counted = unfold flatten in omega arith;
  small = omega arith;
}

creds-IsValid : IsValid creds
unfolding find flatten
creds-IsValid = record {
  table = users_table;
  pointers = λ name p e. ground arith;
  apart = λ j k p e f.
      ground
        (arith, equal_iff j k, equal_iff ann j, equal_iff ann k, equal_iff j ann, equal_iff k ann);
}

check_password-accepts_example : check_password counting true creds ann secret ≡ ok true
unfolding find flatten equal salted_hash
check_password-accepts_example =
    check_password-accepts counting true creds creds-IsValid ann secret 0 refl

add_user-Sets_example :
    Returns
      (add_user counting true
        (record { node = true; key = true; table = true })
        (9 ∷ [])
        creds
        bob
        secret)
      λ r.
        (r.0 ≡ true)
        × Sets creds bob (record { protection = true; salt = 9 ∷ []; hash = 2 ∷ b's' ∷ 9 ∷ [] }) r.1
unfolding find flatten equal salted_hash home fnv1a_hash
add_user-Sets_example =
    add_user-Sets creds creds-IsValid bob counting
      (record { node = true; key = true; table = true }) (9 ∷ []) secret (2 ∷ b's' ∷ 9 ∷ []) refl
      refl (omega arith) refl refl

change_password-Sets_example :
    Returns
      (change_password counting (9 ∷ []) creds ann [])
      λ r. (r.0 ≡ true) × Sets creds ann (record of_ann { protection = false }) r.1
unfolding find flatten equal
change_password-Sets_example =
    change_password-Sets creds creds-IsValid ann counting (9 ∷ []) [] 0 refl
