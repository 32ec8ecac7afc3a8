-- ===== src/Connect/Login.antt =====
-- A CONNECT with a user name and a password, laid out as MQTT 3.1.1 says, in a packet of at most 129
-- bytes, whose length has one byte.
use esp32_mqtts_broker.Prelude.{
  ℕ, suc, ◌+◌, ◌*◌, ◌/◌, ◌%◌, ◌≤◌, ◌<◌, ◌≡◌, refl, sym, ap, ◌∙◌, Bool, true, false, ◌||◌, not, List,
  [], ◌∷◌, ◌++◌, arith, ltb, leb, if◌then◌else◌, length, length-append, take, drop,
}
use esp32_mqtts_broker.Run.{Run, ok, fault, ◌>>=◌}
use esp32_mqtts_broker.UserCreds.{check_password}
use esp32_mqtts_broker.Connect.{
  ConnReturn, disconnect, clean_session, unclean_session, Connection, Broker, byte, word, bytes,
  matches, has_flag, refuse_unless, will_flags, read_will, password_field, check_user,
  connect_payload, connect_mqtt,
}

-- a string with its length in front
abbrev pub field : List ℕ → List ℕ
field text = length text / 256 ∷ length text % 256 ∷ text

byte-append : (xs ys : List ℕ) (i : ℕ) → byte (xs ++ ys) (length xs + i) ≡ byte ys i
unfolding byte
byte-append [] ys i = let e : 0 + i ≡ i = omega arith in rw e refl
byte-append (x ∷ xs) ys i =
    let e : suc (length xs) + i ≡ suc (length xs + i) = omega arith in rw e (byte-append xs ys i)

drop-append : (xs ys : List ℕ) → drop (length xs) (xs ++ ys) ≡ ys
drop-append [] ys = refl
drop-append (x ∷ xs) ys = drop-append xs ys

take-append : (xs ys : List ℕ) → take (length xs) (xs ++ ys) ≡ xs
take-append [] ys = refl
take-append (x ∷ xs) ys = ap (λ t. x ∷ t) (take-append xs ys)

-- the last test as an answer
refused_or :
    (checked : Run Bool) (t : Connection) (session : ConnReturn)
    → (checked >>= λ correct. refuse_unless correct t (ok (session, t)))
      ≡ (checked >>= λ correct. ok (if correct then session else disconnect, t))
unfolding refuse_unless
refused_or (ok true) t session = refl
refused_or (ok false) t session = refl
refused_or (fault e) t session = refl

goes_on : (s : Connection) (next : Run (ConnReturn × Connection)) → refuse_unless true s next ≡ next
unfolding refuse_unless
goes_on s next = refl

otherwise : {A : Type 0} (test : Bool) (x y : A) → test ≡ false → (if test then x else y) ≡ y
otherwise true x y h = cc
otherwise false x y h = refl

read_will-without :
    (b : Broker) (buf : List ℕ) (pos : ℕ) (s : Connection)
    (next : ℕ → Connection → Run (ConnReturn × Connection))
    → s.will.presence_flag ≡ false
    → read_will b buf pos s next ≡ next pos s
unfolding read_will
read_will-without b buf pos s next h = otherwise s.will.presence_flag _ (next pos s) h

-- a field is read back behind whatever stands before it
word-field :
    (xs text ys : List ℕ) (pos : ℕ)
    → pos ≡ length xs
    → word (xs ++ (field text ++ ys)) pos ≡ ok (length text)
unfolding word
word-field xs text ys pos e =
    let all = field text ++ ys in
    let high : byte (xs ++ all) pos ≡ ok (length text / 256) =
      ap (byte (xs ++ all)) (omega arith) ∙ byte-append xs all 0 ∙ unfold byte in refl in
    let low : byte (xs ++ all) (pos + 1) ≡ ok (length text % 256) =
      ap (byte (xs ++ all)) (omega arith) ∙ byte-append xs all 1 ∙ unfold byte in refl in
    rw (high, ◌>>=◌, low, ◌>>=◌) (ap ok (omega arith))

bytes-middle :
    (xs text ys : List ℕ) (pos : ℕ)
    → pos ≡ length xs
    → bytes (xs ++ (text ++ ys)) pos (length text) ≡ ok text
unfolding bytes
bytes-middle xs text ys pos e =
    let rest : drop pos (xs ++ (text ++ ys)) ≡ text ++ ys =
      ap (λ p. drop p (xs ++ (text ++ ys))) e ∙ drop-append xs (text ++ ys) in
    let fits : leb (pos + length text) (length (xs ++ (text ++ ys))) ≡ true =
      ground (arith, length-append xs (text ++ ys), length-append text ys) in
    rw (fits, rest, take-append text ys) refl

append_assoc : (xs ys zs : List ℕ) → (xs ++ ys) ++ zs ≡ xs ++ (ys ++ zs)
append_assoc [] ys zs = refl
append_assoc (x ∷ xs) ys zs = ap (λ t. x ∷ t) (append_assoc xs ys zs)

bytes-field :
    (xs text ys : List ℕ) (pos : ℕ)
    → pos ≡ length xs
    → bytes (xs ++ (field text ++ ys)) (pos + 2) (length text) ≡ ok text
bytes-field xs text ys pos e =
    let head = length text / 256 ∷ length text % 256 ∷ [] in
    ap (λ buf. bytes buf (pos + 2) (length text)) (sym (append_assoc xs head (text ++ ys)))
    ∙ bytes-middle (xs ++ head) text ys (pos + 2) (omega (arith, length-append xs head))

module _ (b : Broker) (first size k1 k2 flags : ℕ) (clientid name pass rest : List ℕ) where
  -- the packet up to the length of the client identifier
  abbrev pub front : List ℕ
  front =
      first
      ∷ size
      ∷ 0
      ∷ 4
      ∷ b'M'
      ∷ b'Q'
      ∷ b'T'
      ∷ b'T'
      ∷ 4
      ∷ flags
      ∷ k1
      ∷ k2
      ∷ length clientid / 256
      ∷ length clientid % 256
      ∷ []

  abbrev pub login : List ℕ
  login = front ++ (clientid ++ (field name ++ (field pass ++ rest)))

  abbrev pub session_of : ConnReturn
  session_of = if has_flag flags 0x02 then clean_session else unclean_session

  -- the answer as the check of the credentials decides it
  abbrev pub decided : Connection → Run (ConnReturn × Connection)
  decided t = check_password b.sha b.check_alloc b.creds name pass >>= λ correct_pass.
      ok (if correct_pass then session_of else disconnect, t)

  -- where the user name begins, and where the password begins
  abbrev name_place : ℕ
  name_place = 10 + 4 + length clientid

  abbrev pass_place : ℕ
  pass_place = name_place + 2 + length name

  login-name : login ≡ (front ++ clientid) ++ (field name ++ (field pass ++ rest))
  login-name = sym (append_assoc front clientid (field name ++ (field pass ++ rest)))

  login-pass : login ≡ ((front ++ clientid) ++ field name) ++ (field pass ++ rest)
  login-pass = login-name ∙ sym (append_assoc (front ++ clientid) (field name) (field pass ++ rest))

  name-starts : name_place ≡ length (front ++ clientid)
  name-starts = omega (arith, length-append front clientid)

  pass-starts : pass_place ≡ length ((front ++ clientid) ++ field name)
  pass-starts = omega (arith, name-starts, length-append (front ++ clientid) (field name))

  check_user-login :
      (t : Connection)
      → has_flag flags 0x80 ≡ true
      → has_flag flags 0x40 ≡ true
      → check_user b login flags name_place t (ok (session_of, t)) ≡ decided t
  unfolding check_user password_field
  check_user-login t user password =
      let name_len =
        ap (λ buf. word buf name_place) login-name
        ∙ word-field (front ++ clientid) name (field pass ++ rest) name_place name-starts in
      let name_read =
        ap (λ buf. bytes buf (name_place + 2) (length name)) login-name
        ∙ bytes-field (front ++ clientid) name (field pass ++ rest) name_place name-starts in
      let pass_len =
        ap (λ buf. word buf pass_place) login-pass
        ∙ word-field ((front ++ clientid) ++ field name) pass rest pass_place pass-starts in
      let pass_read =
        ap (λ buf. bytes buf (pass_place + 2) (length pass)) login-pass
        ∙ bytes-field ((front ++ clientid) ++ field name) pass rest pass_place pass-starts in
      rw (user, name_len, ◌>>=◌, name_read, ◌>>=◌, password, pass_len, ◌>>=◌, pass_read, ◌>>=◌)
        (refused_or (check_password b.sha b.check_alloc b.creds name pass) t session_of)

  payload-login :
      (s : Connection)
      → 0 < length clientid
      → length clientid ≤ 23
      → s.will.presence_flag ≡ false
      → has_flag flags 0x80 ≡ true
      → has_flag flags 0x40 ≡ true
      → connect_payload b login flags 10 s ≡ decided (record s { clientid = clientid })
  unfolding connect_payload word byte
  payload-login s lo hi no_will user password =
      let n = length clientid in
      let len_read : n / 256 * 256 + n % 256 ≡ n = omega arith in
      let fits : not (ltb n 1 || ltb 23 n) ≡ true = ground arith in
      let id_read = bytes-middle front clientid (field name ++ (field pass ++ rest)) 14 refl in
      rw (len_read, fits, id_read, ◌>>=◌)
        (goes_on s _
          ∙ read_will-without b login name_place (record s { clientid = clientid }) _ no_will
          ∙ check_user-login (record s { clientid = clientid }) user password)

-- A CONNECT for MQTT 3.1.1 that brings a client identifier of 1 to 23 bytes, a user name and a
-- password, and no will, is answered as the check of the credentials decides: with the session that
-- the clean-session flag asks for if it passes, with a disconnect if it fails; a fault of the check
-- is one of the whole. The fixed header has two bytes and clear flags, the lengths in the packet are
-- those of what follows, and bytes behind the packet do not matter.
pub connect_mqtt-login :
    (b : Broker) (size k1 k2 : ℕ) (clientid name pass rest : List ℕ) (clean : Bool) (s : Connection)
    → 0 < length clientid
    → length clientid ≤ 23
    → s.will.presence_flag ≡ false
    → let flags : ℕ = if clean then 0xc2 else 0xc0 in
      connect_mqtt b (login b 0x10 size k1 k2 flags clientid name pass rest) 2 s ≡ (
        check_password b.sha b.check_alloc b.creds name pass >>= λ correct_pass. ok (
          if correct_pass then (if clean then clean_session else unclean_session) else disconnect,
          record s { clientid = clientid },
        ))
unfolding connect_mqtt byte word matches refuse_unless will_flags
connect_mqtt-login b size k1 k2 clientid name pass rest true s lo hi no_will =
    payload-login b 0x10 size k1 k2 0xc2 clientid name pass rest s lo hi no_will refl refl
connect_mqtt-login b size k1 k2 clientid name pass rest false s lo hi no_will =
    payload-login b 0x10 size k1 k2 0xc0 clientid name pass rest s lo hi no_will refl refl
