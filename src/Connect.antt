-- ===== src/Connect.antt =====
-- main/worker.cpp: `connect_mqtt`, which reads a CONNECT packet field by field, and `conn_ack`.
-- `buf` is the whole buffer, and a pointer into it is an index; a read behind its end is a fault.
pub mod Accepted
pub mod Login
use esp32_mqtts_broker.Prelude.{
  ℕ, zero, suc, ◌+◌, ◌*◌, ◌/◌, ◌%◌, Bool, true, false, ◌&&◌, ◌||◌, not, List, [], ◌∷◌, ◌++◌, ◌==◌,
  ltb, leb, if◌then◌else◌, length, take, drop, bit_and, u16_mod,
}
use esp32_mqtts_broker.Run.{Run, ok, fault, out_of_range, ◌>>=◌}
use esp32_mqtts_broker.Hashmap.Bucket.{Key}
use esp32_mqtts_broker.UserCreds.{UserCreds, Sha256, check_password}

-- `mqtt_conn_return`
pub data ConnReturn : Type 0 where
  disconnect clean_session unclean_session : ConnReturn

-- `Client::Will`
pub record Will : Type 0 where
  pub presence_flag : Bool
  pub retain : Bool
  pub qos : ℕ
  pub topic : List ℕ
  pub msg : List ℕ

-- what `connect_mqtt` changes: the client identifier, the will, what is written to the connection
pub record Connection : Type 0 where
  pub clientid : List ℕ
  pub will : Will
  pub written : List (List ℕ)

-- the credentials, and what they are checked with; the allocator's answers for the two vectors of
-- a will
pub record Broker : Type 0 where
  pub sha : Sha256
  pub check_alloc : Bool
  pub creds : UserCreds
  pub topic_alloc : Bool
  pub msg_alloc : Bool

abbrev pub connack : ℕ → Bool → List ℕ
connack return_code session_present_flag =
    0x20 ∷ 2 ∷ (if session_present_flag then 0 else 1) ∷ return_code ∷ []

abbrev pub conn_ack : Connection → ℕ → Bool → Connection
conn_ack s return_code session_present_flag = record s {
  written = connack return_code session_present_flag ∷ s.written;
}

unfoldable pub byte : List ℕ → ℕ → Run ℕ
byte [] pos = fault out_of_range
byte (b ∷ buf) zero = ok b
byte (b ∷ buf) (suc pos) = byte buf pos

-- `ntohs(*(uint16_t *)pos)`
unfoldable pub word : List ℕ → ℕ → Run ℕ
word buf pos = do high ← byte buf pos; low ← byte buf (pos + 1); ok (high * 256 + low)

unfoldable pub bytes : List ℕ → ℕ → ℕ → Run (List ℕ)
bytes buf pos len =
    if leb (pos + len) (length buf) then ok (take len (drop pos buf)) else fault out_of_range

-- the comparison of the protocol name, which stops at the first byte that differs
unfoldable pub matches : List ℕ → ℕ → List ℕ → Run Bool
matches buf pos [] = ok true
matches buf pos (c ∷ name) =
    byte buf pos >>= λ b. elim (b == c) [ true ↦ matches buf (pos + 1) name | false ↦ ok false ]

abbrev pub mqtt_name : List ℕ
mqtt_name = b'M' ∷ b'Q' ∷ b'T' ∷ b'T' ∷ []

abbrev pub has_flag : ℕ → ℕ → Bool
has_flag flags mask = not (bit_and flags mask == 0)

-- an early `return disconnect`
unfoldable pub refuse_unless :
    Bool → Connection → Run (ConnReturn × Connection) → Run (ConnReturn × Connection)
refuse_unless true s next = next
refuse_unless false s next = ok (disconnect, s)

-- the will's flags; a quality of service of 3 becomes 2
unfoldable pub will_flags : ℕ → Connection → Connection
will_flags flags s =
    if has_flag flags 0x04
    then (let qos = bit_and (flags / 8) 3 in
        record s {
          will = record s.will {
            presence_flag = true;
            retain = has_flag flags 0x20;
            qos = if ltb 2 qos then 2 else qos;
          };
        })
    else s

-- one vector of the will: what it holds after the copy, and whether its size is the length read
abbrev pub copied : Bool → List ℕ → List ℕ
copied alloc field_bytes = if alloc then field_bytes else []

abbrev pub is_copied : Bool → List ℕ → Bool
is_copied alloc field_bytes = length (copied alloc field_bytes) == length field_bytes

-- topic and message of the will, and then the rest of the packet
unfoldable pub read_will :
    Broker
    → List ℕ
    → ℕ
    → Connection
    → (ℕ → Connection → Run (ConnReturn × Connection))
    → Run (ConnReturn × Connection)
read_will b buf pos s next =
    if s.will.presence_flag
    then (do
      topic_len ← word buf pos
      topic ← bytes buf (pos + 2) topic_len
      let t = record s { will = record s.will { topic = copied b.topic_alloc topic } }
      refuse_unless (is_copied b.topic_alloc topic) t (do
        msg_len ← word buf (pos + 2 + topic_len)
        msg ← bytes buf (pos + 4 + topic_len) msg_len
        let u = record t { will = record t.will { msg = copied b.msg_alloc msg } }
        refuse_unless (is_copied b.msg_alloc msg) u (next (pos + 4 + topic_len + msg_len) u)))
    else next pos s

-- the length of the password, which is 0 without the password flag, and where the password stands
unfoldable pub password_field : List ℕ → ℕ → ℕ → Run (ℕ × ℕ)
password_field buf flags pos =
    if has_flag flags 0x40 then (word buf pos >>= λ len. ok (len, pos + 2)) else ok (0, pos)

-- user name and password; without the user name flag nothing is checked
unfoldable pub check_user :
    Broker
    → List ℕ
    → ℕ
    → ℕ
    → Connection
    → Run (ConnReturn × Connection)
    → Run (ConnReturn × Connection)
check_user b buf flags pos s next =
    if has_flag flags 0x80
    then (do
      username_len ← word buf pos
      username ← bytes buf (pos + 2) username_len
      (pass_len, pass_pos) ← password_field buf flags (pos + 2 + username_len)
      pass ← bytes buf pass_pos pass_len
      correct_pass ← check_password b.sha b.check_alloc b.creds username pass
      refuse_unless correct_pass s next)
    else next

-- the part from the keep-alive time on, which is read and not used
unfoldable pub connect_payload :
    Broker → List ℕ → ℕ → ℕ → Connection → Run (ConnReturn × Connection)
connect_payload b buf flags pos s = do
  keepalv_sec ← word buf pos
  clientid_len ← word buf (pos + 2)
  refuse_unless (not (ltb clientid_len 1 || ltb 23 clientid_len)) s (do
    clientid ← bytes buf (pos + 4) clientid_len
    read_will b buf (pos + 4 + clientid_len) (record s { clientid = clientid })
        λ place t.
          check_user b buf flags place t
            (ok (if has_flag flags 0x02 then clean_session else unclean_session, t)))

-- the type of the packet is only logged if it is wrong
unfoldable pub connect_mqtt : Broker → List ℕ → ℕ → Connection → Run (ConnReturn × Connection)
connect_mqtt b buf cur_pos s = do
  first ← byte buf 0
  refuse_unless (bit_and first 0x0f == 0) s (do
    name_len ← word buf cur_pos
    refuse_unless (name_len == 4) s (do
      named ← matches buf (cur_pos + 2) mqtt_name
      refuse_unless named s (do
        level ← byte buf (cur_pos + 6)
        refuse_unless (level == 4) (conn_ack s 0x01 true) (do
          flags ← byte buf (cur_pos + 7)
          refuse_unless (not (has_flag flags 0x01)) s (
              refuse_unless
                (has_flag flags 0x04
                  || not (has_flag flags 0x08 || (has_flag flags 0x10 || has_flag flags 0x20)))
                s (connect_payload b buf flags (cur_pos + 8) (will_flags flags s)))))))
