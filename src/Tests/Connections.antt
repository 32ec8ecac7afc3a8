-- ===== src/Tests/Connections.antt =====
-- CONNECT packets of the client `c`, with and without a user.
use esp32_mqtts_broker.Prelude.{ℕ, ◌≡◌, ◌≢◌, refl, true, false, List, [], ◌∷◌, arith, if◌then◌else◌}
use esp32_mqtts_broker.Run.{ok, ◌>>=◌}
use esp32_mqtts_broker.UserCreds.{check_password}
use esp32_mqtts_broker.Connect.{
  Broker, Connection, disconnect, clean_session, connect_mqtt, connect_payload, read_will,
  check_user, byte, word, bytes, matches, refuse_unless, will_flags,
}
use esp32_mqtts_broker.Connect.Accepted.{Accepted, connect_mqtt-Accepted}
use esp32_mqtts_broker.Connect.Login.{connect_mqtt-login}
use esp32_mqtts_broker.Tests.Users.{ann, counting, creds, secret}

abbrev pub broker : Broker
broker = record {
  sha = counting;
  check_alloc = true;
  creds = creds;
  topic_alloc = true;
  msg_alloc = true;
}

abbrev fresh : Connection
fresh = record {
  clientid = [];
  will = record { presence_flag = false; retain = false; qos = 0; topic = []; msg = [] };
  written = [];
}

abbrev anonymous : List ℕ
anonymous = 0x10 ∷ 13 ∷ 0 ∷ 4 ∷ b'M' ∷ b'Q' ∷ b'T' ∷ b'T' ∷ 4 ∷ 0x02 ∷ 0 ∷ 60 ∷ 0 ∷ 1 ∷ b'c' ∷ []

answered :
    connect_mqtt broker anonymous 2 fresh
    ≡ ok (clean_session, record fresh { clientid = b'c' ∷ [] })
unfolding connect_mqtt connect_payload read_will check_user byte word bytes matches refuse_unless
    will_flags
answered = refl

differs : clean_session ≢ disconnect
differs e = cc

connect_mqtt-Accepted_example :
    Accepted broker anonymous 2 fresh (clean_session, record fresh { clientid = b'c' ∷ [] })
connect_mqtt-Accepted_example = connect_mqtt-Accepted broker anonymous 2 fresh _ answered differs

connect_mqtt-login_example :
    connect_mqtt broker
      (0x10 ∷ 21 ∷ 0 ∷ 4 ∷ b'M' ∷ b'Q' ∷ b'T' ∷ b'T' ∷ 4 ∷ 0xc2 ∷ 0 ∷ 60 ∷ 0 ∷ 1 ∷ b'c' ∷ 0 ∷ 3
        ∷ b'a' ∷ b'n' ∷ b'n' ∷ 0 ∷ 1 ∷ b's' ∷ [])
      2
      fresh
    ≡ (check_password counting true creds ann secret >>= λ correct_pass.
        ok (
          if correct_pass then clean_session else disconnect,
          record fresh { clientid = b'c' ∷ [] },
        ))
connect_mqtt-login_example =
    connect_mqtt-login broker 21 0 60 (b'c' ∷ []) ann secret [] true fresh (omega arith)
      (omega arith) refl
