-- ===== src/Connect/Accepted.antt =====
-- Which CONNECT packets get a session.
use esp32_mqtts_broker.Prelude.{
  ℕ, zero, suc, [], ◌∷◌, leb→le, ◌+◌, ◌≤◌, ◌<◌, ◌≡◌, ◌≢◌, refl, sym, ap, subst, ◌∙◌, Bool, true,
  false, ◌||◌, not, List, arith, ltb, leb, if◌then◌else◌, length, take, drop, ◌⊎◌, inl, inr,
  Bool-cases, ==_iff,
}
use esp32_mqtts_broker.Run.{bind-ok, Run, ok, fault}
use esp32_mqtts_broker.Hashmap.Bucket.{Key}
use esp32_mqtts_broker.UserCreds.{check_password}
use esp32_mqtts_broker.Connect.{
  ConnReturn, disconnect, clean_session, unclean_session, Connection, Broker, byte, word, bytes,
  matches, mqtt_name, has_flag, refuse_unless, will_flags, read_will, password_field, check_user,
  connect_payload, connect_mqtt,
}

abbrev Answer : Type 0
Answer = ConnReturn × Connection

answer_of : Run Answer → ConnReturn
answer_of (ok r) = r.0
answer_of (fault e) = disconnect

-- an answer other than `disconnect` has passed the test
refuse_unless-passed :
    (test : Bool) (s : Connection) (next : Run Answer) (r : Answer)
    → refuse_unless test s next ≡ ok r
    → r.0 ≢ disconnect
    → (test ≡ true) × (next ≡ ok r)
unfolding refuse_unless answer_of
refuse_unless-passed true s next r h ne = (refl, h)
refuse_unless-passed false s next r h ne = absurd (ne (sym (ap answer_of h)))

length-take-drop :
    (pos len : ℕ) (buf : List ℕ) → pos + len ≤ length buf → length (take len (drop pos buf)) ≡ len
length-take-drop zero zero buf h = refl
length-take-drop zero (suc len) [] h = absurd (omega arith)
length-take-drop zero (suc len) (b ∷ buf) h = ap suc (length-take-drop zero len buf (omega arith))
length-take-drop (suc pos) len [] h = absurd (omega arith)
length-take-drop (suc pos) len (b ∷ buf) h = length-take-drop pos len buf (omega arith)

value_or : {A : Type 0} → A → Run A → A
value_or other (ok value) = value
value_or other (fault e) = other

length-bytes :
    (buf : List ℕ) (pos len : ℕ) (bs : List ℕ) → bytes buf pos len ≡ ok bs → length bs ≡ len
unfolding bytes value_or
length-bytes buf pos len bs h = elim (Bool-cases (leb (pos + len) (length buf))) [
  | inl inside ↦
      sym (ap (λ x. length (value_or bs x)) (rw inside at h))
      ∙ length-take-drop pos len buf (leb→le (pos + len) (length buf) inside)
  | inr outside ↦ cc (rw outside at h)
]

-- a text with its length in front of it
pub record FieldAt (buf : List ℕ) (pos : ℕ) (text : List ℕ) : Type 0 where
  pub counted : word buf pos ≡ ok (length text)
  pub read : bytes buf (pos + 2) (length text) ≡ ok text

field_at :
    (buf : List ℕ) (pos start len : ℕ) (text : List ℕ)
    → start ≡ pos + 2
    → word buf pos ≡ ok len
    → bytes buf start len ≡ ok text
    → FieldAt buf pos text
field_at buf pos start len text behind counted got =
    let e = length-bytes buf start len text got in
    record {
      counted = counted ∙ ap ok (sym e);
      read = ap (λ p. bytes buf p (length text)) (sym behind) ∙ ap (bytes buf start) e ∙ got;
    }

-- the password at `pos`, which is empty without its flag
abbrev pub PassAt : List ℕ → ℕ → ℕ → List ℕ → Type 0
PassAt buf flags pos pass =
    ((has_flag flags 0x40 ≡ true) × FieldAt buf pos pass)
    ⊎ ((has_flag flags 0x40 ≡ false) × (length pass ≡ 0))

-- the user name at `pos` and the password behind it have passed
-- the check of the credentials
pub record Checked (b : Broker) (buf : List ℕ) (flags pos : ℕ) : Type 0 where
  pub name : Key
  pub pass : List ℕ
  pub name_at : FieldAt buf pos name
  pub pass_at : PassAt buf flags (pos + 2 + length name) pass
  pub passed : check_password b.sha b.check_alloc b.creds name pass ≡ ok true

pass_of :
    (buf : List ℕ) (flags pos : ℕ) (field : ℕ × ℕ) (pass : List ℕ)
    → password_field buf flags pos ≡ ok field
    → bytes buf field.1 field.0 ≡ ok pass
    → PassAt buf flags pos pass
unfolding password_field value_or
pass_of buf flags pos field pass found got = elim (Bool-cases (has_flag flags 0x40)) [
  | inr without ↦
      let e : (0, pos) ≡ field = ap (value_or field) (rw without at found) in
      inr (
        without,
        length-bytes buf field.1 0 pass (ap (λ n. bytes buf field.1 n) (ap (λ f. f.0) e) ∙ got),
      )
  | inl present ↦
      let (len, counted, last) = bind-ok (word buf pos) _ field (rw present at found) in
      let e : (len, pos + 2) ≡ field = ap (value_or field) last in
      inl (
        present,
        field_at buf pos (pos + 2) len pass refl counted
            (ap (λ (f : ℕ × ℕ). bytes buf f.1 f.0) e ∙ got),
      )
]

check_user-Checked :
    (b : Broker) (buf : List ℕ) (flags pos : ℕ) (s : Connection) (next : Run Answer) (r : Answer)
    → check_user b buf flags pos s next ≡ ok r
    → r.0 ≢ disconnect
    → ((has_flag flags 0x80 ≡ false) ⊎ Checked b buf flags pos) × (next ≡ ok r)
unfolding check_user
check_user-Checked b buf flags pos s next r h ne = elim (Bool-cases (has_flag flags 0x80)) [
  | inr anonymous ↦ (inl anonymous, rw anonymous at h)
  | inl named ↦
      let (len, counted, h1) = bind-ok (word buf pos) _ r (rw named at h) in
      let (name, got, h2) = bind-ok (bytes buf (pos + 2) len) _ r h1 in
      let (field, found, h3) = bind-ok (password_field buf flags (pos + 2 + len)) _ r h2 in
      let (pass, pass_got, h4) = bind-ok (bytes buf field.1 field.0) _ r h3 in
      let (correct, checked, h5) =
        bind-ok (check_password b.sha b.check_alloc b.creds name pass) _ r h4 in
      let (passed, rest) = refuse_unless-passed correct s next r h5 ne in
      let size = length-bytes buf (pos + 2) len name got in
      (
        inr (record {
          name = name;
          pass = pass;
          name_at = field_at buf pos (pos + 2) len name refl counted got;
          pass_at =
              subst (λ k. PassAt buf flags (pos + 2 + k) pass) (sym size)
                (pass_of buf flags (pos + 2 + len) field pass found pass_got);
          passed = rw passed at checked;
        }),
        rest,
      )
]

else_branch :
    {A : Type 0} (test : Bool) (x y z : A) → test ≡ false → (if test then x else y) ≡ z → y ≡ z
else_branch true x y z h e = cc
else_branch false x y z h e = e

-- topic and message of the will stand at `pos`, if there is one, and `place` is behind them
pub data WillAt (buf : List ℕ) (pos : ℕ) (flag : Bool) (place : ℕ) : Type 0 where
  no_will_there : flag ≡ false → place ≡ pos → WillAt buf pos flag place
  will_there :
      (topic msg : List ℕ)
      → FieldAt buf pos topic
      → flag ≡ true
      → FieldAt buf (pos + 2 + length topic) msg
      → place ≡ pos + 4 + length topic + length msg
      → WillAt buf pos flag place

-- the rest of the packet is read with the client identifier as it was
read_will-next :
    (b : Broker) (buf : List ℕ) (pos : ℕ) (s : Connection) (next : ℕ → Connection → Run Answer)
    (r : Answer)
    → read_will b buf pos s next ≡ ok r
    → r.0 ≢ disconnect
    → (place : ℕ) × (t : Connection) × WillAt buf pos s.will.presence_flag place
      × (t.clientid ≡ s.clientid)
      × (next place t ≡ ok r)
unfolding read_will
read_will-next b buf pos s next r h ne = elim (Bool-cases s.will.presence_flag) [
  | inr lacks ↦ (
    pos,
    s,
    no_will_there lacks refl,
    refl,
    else_branch s.will.presence_flag _ (next pos s) (ok r) lacks h,
  )
  | inl has ↦
      let (topic_len, topic_counted, h1) = bind-ok (word buf pos) _ r (rw has at h) in
      let (topic, topic_got, h2) = bind-ok (bytes buf (pos + 2) topic_len) _ r h1 in
      let (_, h3) = refuse_unless-passed _ _ _ r h2 ne in
      let (msg_len, msg_counted, h4) = bind-ok (word buf (pos + 2 + topic_len)) _ r h3 in
      let (msg, msg_got, h5) = bind-ok (bytes buf (pos + 4 + topic_len) msg_len) _ r h4 in
      let (_, h6) = refuse_unless-passed _ _ _ r h5 ne in
      let topic_size = length-bytes buf (pos + 2) topic_len topic topic_got in
      let msg_size = length-bytes buf (pos + 4 + topic_len) msg_len msg msg_got in
      let end : pos + 4 + topic_len + msg_len ≡ pos + 4 + length topic + length msg =
        omega (arith, topic_size, msg_size) in
      let msg_at : FieldAt buf (pos + 2 + topic_len) msg =
        field_at buf (pos + 2 + topic_len) (pos + 4 + topic_len) msg_len msg (omega arith)
          msg_counted msg_got in
      (
        pos + 4 + topic_len + msg_len,
        _,
        will_there topic msg
            (field_at buf pos (pos + 2) topic_len topic refl topic_counted topic_got) has
            (subst (λ k. FieldAt buf (pos + 2 + k) msg) (sym topic_size) msg_at) end,
        refl,
        h6,
      )
]

will_flags-presence :
    (flags : ℕ) (s : Connection)
    → (will_flags flags s).will.presence_flag ≡ (has_flag flags 0x04 || s.will.presence_flag)
unfolding will_flags
will_flags-presence flags s = elim (Bool-cases (has_flag flags 0x04)) [
  | inl has ↦ rw has refl
  | inr lacks ↦ rw lacks refl
]

-- What is known of a packet that gets a session. The client identifier stands behind the ten bytes of
-- the variable header, then the will, if its flag is set or `s` has one, and at `place` user name
-- and password.
pub record Accepted (b : Broker) (buf : List ℕ) (cur_pos : ℕ) (s : Connection) (r : Answer)
    : Type 0 where
  pub flags : ℕ
  pub place : ℕ
  pub named : matches buf (cur_pos + 2) mqtt_name ≡ ok true
  pub level : byte buf (cur_pos + 6) ≡ ok 4
  pub flags_read : byte buf (cur_pos + 7) ≡ ok flags
  pub reserved : has_flag flags 0x01 ≡ false
  pub identified : (0 < length r.1.clientid) × (length r.1.clientid ≤ 23)
  pub identifier : FieldAt buf (cur_pos + 10) r.1.clientid
  pub will :
      WillAt buf
        (cur_pos + 12 + length r.1.clientid)
        (has_flag flags 0x04 || s.will.presence_flag)
        place
  pub user : (has_flag flags 0x80 ≡ false) ⊎ Checked b buf flags place
  pub session : r.0 ≡ (if has_flag flags 0x02 then clean_session else unclean_session)

within :
    (len size : ℕ) → not (ltb len 1 || ltb 23 len) ≡ true → size ≡ len → (0 < size) × (size ≤ 23)
within len size h e = ground arith

payload-accepted :
    (b : Broker) (buf : List ℕ) (flags pos : ℕ) (s : Connection) (r : Answer)
    → connect_payload b buf flags pos s ≡ ok r
    → r.0 ≢ disconnect
    → ((0 < length r.1.clientid) × (length r.1.clientid ≤ 23))
      × FieldAt buf (pos + 2) r.1.clientid
      × ((place : ℕ) × WillAt buf (pos + 4 + length r.1.clientid) s.will.presence_flag place
          × ((has_flag flags 0x80 ≡ false) ⊎ Checked b buf flags place))
      × (r.0 ≡ (if has_flag flags 0x02 then clean_session else unclean_session))
unfolding connect_payload value_or
payload-accepted b buf flags pos s r h ne =
    let (keepalive, _, h1) = bind-ok (word buf pos) _ r h in
    let (len, counted, h2) = bind-ok (word buf (pos + 2)) _ r h1 in
    let (fits, h3) = refuse_unless-passed _ _ _ r h2 ne in
    let (clientid, copied_id, h4) = bind-ok (bytes buf (pos + 4) len) _ r h3 in
    let (place, t, will, same, h5) = read_will-next b buf _ _ _ r h4 ne in
    let (user, h6) = check_user-Checked b buf flags place t _ r h5 ne in
    let size = length-bytes buf (pos + 4) len clientid copied_id in
    let got = ap (value_or r) h6 in
    let id : clientid ≡ r.1.clientid = sym same ∙ ap (λ x. x.1.clientid) got in
    let read_length : length r.1.clientid ≡ len = ap length (sym id) ∙ size in
    (
      within len _ fits read_length,
      subst (FieldAt buf (pos + 2)) id
          (field_at buf (pos + 2) (pos + 4) len clientid (omega arith) counted copied_id),
      (
        place,
        subst (λ k. WillAt buf (pos + 4 + k) s.will.presence_flag place) (sym read_length) will,
        user,
      ),
      sym (ap (λ x. x.0) got),
    )

-- A CONNECT that gets a session names the protocol MQTT at level 4, leaves the reserved flag clear and
-- brings a client identifier of 1 to 23 bytes, which is the one that the connection keeps. It has no user
-- name, or the user name and the password that the packet brings have passed the check of the
-- credentials: the two fields behind the client identifier and the will, where the password is empty if
-- its flag is clear. The clean-session flag decides which session it gets.
pub connect_mqtt-Accepted :
    (b : Broker) (buf : List ℕ) (cur_pos : ℕ) (s : Connection) (r : ConnReturn × Connection)
    → connect_mqtt b buf cur_pos s ≡ ok r
    → r.0 ≢ disconnect
    → Accepted b buf cur_pos s r
unfolding connect_mqtt
connect_mqtt-Accepted b buf cur_pos s r h ne =
    let (first, _, h1) = bind-ok (byte buf 0) _ r h in
    let (_, h2) = refuse_unless-passed _ _ _ r h1 ne in
    let (name_len, _, h3) = bind-ok (word buf cur_pos) _ r h2 in
    let (_, h4) = refuse_unless-passed _ _ _ r h3 ne in
    let (name, matched, h5) = bind-ok (matches buf (cur_pos + 2) mqtt_name) _ r h4 in
    let (equal, h6) = refuse_unless-passed _ _ _ r h5 ne in
    let (level, level_read, h7) = bind-ok (byte buf (cur_pos + 6)) _ r h6 in
    let (four, h8) = refuse_unless-passed _ _ _ r h7 ne in
    let (flags, flags_read, h9) = bind-ok (byte buf (cur_pos + 7)) _ r h8 in
    let (clear, h10) = refuse_unless-passed _ _ _ r h9 ne in
    let (_, h11) = refuse_unless-passed _ _ _ r h10 ne in
    let (identified, identifier, (place, will, user), session) =
      payload-accepted b buf flags (cur_pos + 8) _ r h11 ne in
    let tenth : cur_pos + 8 + 2 ≡ cur_pos + 10 = omega arith in
    let twelfth : cur_pos + 8 + 4 ≡ cur_pos + 12 = omega arith in
    record {
      flags = flags;
      named = rw equal at matched;
      level = rw ((==_iff level 4).0 four) at level_read;
      flags_read = flags_read;
      reserved = ground arith;
      place = place;
      identified = identified;
      identifier = subst (λ p. FieldAt buf p r.1.clientid) tenth identifier;
      will =
          subst
            (λ p.
              WillAt buf (p + length r.1.clientid) (has_flag flags 0x04 || s.will.presence_flag)
                place)
            twelfth
            (subst (λ flag. WillAt buf (cur_pos + 8 + 4 + length r.1.clientid) flag place)
              (will_flags-presence flags s) will);
      user = user;
      session = session;
    }
