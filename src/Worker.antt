-- ===== src/Worker.antt =====
-- main/worker.cpp: the body of the loop of `worker`: the phase of a connection, the type of the packet
-- that was read, and the write event.
pub mod State
pub mod Fanout
pub mod Drop
pub mod Login
pub mod Publishing
pub mod Subscribing
pub mod Logins
pub mod Released
pub mod Rule
pub mod Stock
pub mod Deleted
pub mod Owned
pub mod Handlers
pub mod Identified
pub mod Entered
pub mod Events
pub mod Counting
pub mod Receivers
pub mod Returning
pub mod Shared
pub mod Routed
pub mod Arriving
pub mod Exchange
pub mod Published
pub mod Served
pub mod Topics
pub mod Rounds
pub mod Suback
use esp32_mqtts_broker.Prelude.{
  ℕ, Bool, true, false, Option, none, some, List, [], ◌∷◌, ◌==◌, if◌then◌else◌, bit_and, length,
}
use esp32_mqtts_broker.Run.{Run, ok, fault, ◌>>=◌}
use esp32_mqtts_broker.Frame.{Incoming, read_packet}
use esp32_mqtts_broker.Connect.{byte}
use esp32_mqtts_broker.Client.{Client}
use esp32_mqtts_broker.Session
use esp32_mqtts_broker.Session.{
  Session, Verdict, stay, drop, Operation, read, write, delread, delall, puback, pubrec, pubrel,
  pubcomp, on_puback, on_pubrec, on_pubcomp, on_pubrel,
}
use State.{Worker, World, SockCid, cell, with_client, with_session, session_of, offer, write_conn}
use Drop.{drop_conn}
use Login.{Next, over, below, on_phase, on_connect}
use Publishing.{on_publish}
use Subscribing.{client_of, on_subscribe, on_unsubscribe}

-- what comes from outside with one message: the contents of `buf` and of an array on the stack, what
-- the connection gives, and in which pieces
pub record Arrival : Type 0 where
  pub buf : List ℕ
  pub garbage : List ℕ
  pub stream : List ℕ
  pub pieces : ℕ → ℕ

-- a handler of one connection: `continue`, or `drop_conn` first
unfoldable pub settle : World → Worker → ℕ → SockCid → Run (Verdict × Session) → Run Worker
settle world w sock sockst handled = handled >>= λ r.
    let t = with_session w sock sockst r.1 in
    elim r.0 [ stay ↦ ok t | drop ↦ drop_conn world t sock true ]

unfoldable pub on_pingreq : World → Worker → ℕ → Run Worker
on_pingreq world w sock = ok (offer world (write_conn world w sock (0xd0 ∷ 0 ∷ [])) sock read).1

-- the client is forgotten without its will
unfoldable pub on_disconnect : World → Worker → ℕ → Run Worker
on_disconnect world w sock = client_of w sock >>= λ found.
    drop_conn world (with_client w found.0 (record found.1 { clean_session = true })) sock false

-- the types of packets, by the tests of the source in its order; a packet of another type is left
pub data Kind : Type 0 where
  publish_packet puback_packet pubrec_packet pubcomp_packet pubrel_packet : Kind
  subscribe_packet unsubscribe_packet pingreq_packet disconnect_packet other_packet : Kind

unfoldable pub kind_of : ℕ → Kind
kind_of first =
    let kind = bit_and first 0xf0 in
    if kind == 0x30
    then publish_packet
    else (if first == puback
        then puback_packet
        else (if first == pubrec
            then pubrec_packet
            else (if first == pubcomp
                then pubcomp_packet
                else (if first == pubrel
                    then pubrel_packet
                    else (if kind == 0x80
                        then subscribe_packet
                        else (if kind == 0xa0
                            then unsubscribe_packet
                            else (if kind == 0xc0
                                then pingreq_packet
                                else (if kind == 0xe0
                                    then disconnect_packet
                                    else other_packet))))))))

unfoldable pub dispatch : World → List ℕ → Worker → ℕ → SockCid → Incoming → Kind → Run Worker
dispatch world garbage w sock sockst p publish_packet = on_publish world w sock p
dispatch world garbage w sock sockst p puback_packet =
    settle world w sock sockst
      (on_puback world.session (session_of w sock sockst) p.buf p.packet_length)
dispatch world garbage w sock sockst p pubrec_packet =
    settle world w sock sockst
      (on_pubrec world.session (session_of w sock sockst) p.buf p.packet_length)
dispatch world garbage w sock sockst p pubcomp_packet =
    settle world w sock sockst
      (ok (on_pubcomp world.session (session_of w sock sockst) p.buf p.packet_length))
dispatch world garbage w sock sockst p pubrel_packet =
    settle world w sock sockst
      (ok (on_pubrel world.session (session_of w sock sockst) p.buf p.packet_length))
dispatch world garbage w sock sockst p subscribe_packet = on_subscribe world w sock p
dispatch world garbage w sock sockst p unsubscribe_packet = on_unsubscribe world garbage w sock p
dispatch world garbage w sock sockst p pingreq_packet = on_pingreq world w sock
dispatch world garbage w sock sockst p disconnect_packet = on_disconnect world w sock
dispatch world garbage w sock sockst p other_packet = ok w

abbrev is_new : SockCid → Bool
is_new sockst = length sockst.clientid == 0

unfoldable pub on_packet : World → List ℕ → Worker → ℕ → Incoming → Run Worker
on_packet world garbage w sock p = cell w.sock_to_clientid sock >>= λ sockst.
    if is_new sockst
    then on_connect world w sock p
    else (byte p.buf 0 >>= λ first. dispatch world garbage w sock sockst p (kind_of first))

unfoldable pub on_read : World → Arrival → Worker → ℕ → Run Worker
on_read world a w sock = read_packet a.pieces a.buf a.stream >>= λ r. elim r [
  | none ↦ drop_conn world w sock true
  | some (p, rest) ↦ on_packet world a.garbage w sock p
]

unfoldable pub on_write : World → Worker → ℕ → Run Worker
on_write world w sock = cell w.sock_to_clientid sock >>= λ sockst.
    Session.on_write world.session (session_of w sock sockst) >>= λ s.
    ok (with_session w sock sockst s)

-- the part of the loop for a connection whose handshake is done
unfoldable pub on_mqtt : World → Arrival → Worker → ℕ → Operation → Run Worker
on_mqtt world a w sock read = on_read world a w sock
on_mqtt world a w sock write = on_write world w sock
on_mqtt world a w sock delread = ok w
on_mqtt world a w sock delall = ok w

-- one message from `pending_socks`; a socket of -1 is `none`
unfoldable pub on_message : World → Arrival → Worker → Option ℕ → Operation → Run Worker
on_message world a w none op = ok w
on_message world a w (some sock) op = cell w.sock_to_clientid sock >>= λ sockst.
    on_phase world w sock sockst sockst.phs >>= λ next. elim next [
      | over t ↦ ok t
      | below t ↦ on_mqtt world a t sock op
    ]
