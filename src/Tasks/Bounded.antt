-- ===== src/Tasks/Bounded.antt =====
-- The sockets in the queue of main/main.cpp stay within the array of main/worker.cpp.
use esp32_mqtts_broker.Prelude.{
  ℕ, zero, suc, ◌+◌, ◌≤◌, ◌<◌, ◌≡◌, refl, Bool, true, false, ◌&&◌, Option, none, some, List, [],
  ◌∷◌, ◌++◌, arith, ltb, ◌==◌, if◌then◌else◌, Bool-cases, inl, inr,
}
use esp32_mqtts_broker.Session.{Operation, read, write, delread, delall}
use esp32_mqtts_broker.Server.{
  Message, FdSet, Posted, posted, refused, Server, post, on_accept, on_readable, on_writable,
  on_socket, scan, on_operation, Round, round, drain,
}
use esp32_mqtts_broker.Tasks.{oldest_first, look}

-- `std::array<sock_cid, 64>`
abbrev pub sockets : ℕ
sockets = 64

abbrev pub Small : Posted → Type 0
Small (posted m taken) = m.socket < sockets
Small (refused sock) = Unit

abbrev pub AllSmall : List Posted → Type 0
AllSmall [] = Unit
AllSmall (p ∷ ps) = Small p × AllSmall ps

abbrev pub AllBelow : List Message → Type 0
AllBelow [] = Unit
AllBelow (m ∷ ms) = (m.socket < sockets) × AllBelow ms

pub AllBelow-append :
    (ms : List Message) (m : Message) → AllBelow ms → m.socket < sockets → AllBelow (ms ++ m ∷ [])
AllBelow-append [] m all h = (h, tt)
AllBelow-append (x ∷ ms) m (a, all) h = (a, AllBelow-append ms m all h)

pub oldest_first-AllSmall :
    (ps done : List Posted) → AllSmall ps → AllSmall done → AllSmall (oldest_first ps done)
unfolding oldest_first
oldest_first-AllSmall [] done all rest = rest
oldest_first-AllSmall (p ∷ ps) done (a, all) rest =
    oldest_first-AllSmall ps (p ∷ done) all (a, rest)

-- the server waits for sockets of the array only, and posts nothing about another one
pub record IsNarrow (s : Server) : Type 0 where
  pub narrow : s.max_socket < sockets
  pub small : AllSmall s.pending

module _ (queue_ok : List Posted → Bool) where
  post-IsNarrow :
      (s : Server) (sock : ℕ) (op : Operation)
      → sock < sockets
      → IsNarrow s
      → IsNarrow (post queue_ok s sock op)
  unfolding post
  post-IsNarrow s sock op h v = record { narrow = v.narrow; small = (h, v.small) }

  on_accept-IsNarrow :
      (s : Server) (new_sock : Option ℕ) → IsNarrow s → IsNarrow (on_accept queue_ok s new_sock)
  unfolding on_accept
  on_accept-IsNarrow s none v = v
  on_accept-IsNarrow s (some new_sock) v = elim (Bool-cases (ltb 63 new_sock)) [
    | inl many ↦ rw many (record { narrow = v.narrow; small = (tt, v.small) })
    | inr fits ↦
        let low : new_sock < sockets = ground arith in
        elim (Bool-cases (ltb s.max_socket new_sock)) [
          | inl more ↦
              rw (fits, more)
                (post-IsNarrow (record s { max_socket = new_sock }) new_sock write low
                  (record { narrow = low; small = v.small }))
          | inr known ↦ rw (fits, known) (post-IsNarrow s new_sock write low v)
        ]
  ]

  on_readable-IsNarrow :
      (s : Server) (sock : ℕ) (ready : Bool)
      → sock < sockets
      → IsNarrow s
      → IsNarrow (on_readable queue_ok s sock ready)
  unfolding on_readable post
  on_readable-IsNarrow s sock false h v = v
  on_readable-IsNarrow s sock true h v = record { narrow = v.narrow; small = (h, v.small) }

  on_writable-IsNarrow :
      (s : Server) (sock : ℕ) (ready : Bool)
      → sock < sockets
      → IsNarrow s
      → IsNarrow (on_writable queue_ok s sock ready)
  unfolding on_writable post
  on_writable-IsNarrow s sock false h v = v
  on_writable-IsNarrow s sock true h v = record { narrow = v.narrow; small = (h, v.small) }

  module _ (readfds writefds : FdSet) where
    -- a socket of the array is looked at
    on_socket-IsNarrow :
        (s : Server) (sock : ℕ)
        → sock < sockets
        → IsNarrow s
        → IsNarrow (on_socket queue_ok readfds writefds s sock)
    unfolding on_socket
    on_socket-IsNarrow s sock h v = elim (Bool-cases (sock == s.listen_sock)) [
      | inl listens ↦ rw (on_socket, listens) v
      | inr connection ↦
          rw (on_socket, connection)
            (on_writable-IsNarrow (on_readable queue_ok s sock (readfds sock)) sock (writefds sock)
              h (on_readable-IsNarrow s sock (readfds sock) h v))
    ]

    scan-IsNarrow :
        (s : Server) (count : ℕ)
        → count ≤ sockets
        → IsNarrow s
        → IsNarrow (scan queue_ok readfds writefds s count)
    unfolding scan
    scan-IsNarrow s zero h v = v
    scan-IsNarrow s (suc count) h v =
        on_socket-IsNarrow (scan queue_ok readfds writefds s count) count (omega arith)
          (scan-IsNarrow s count (omega arith) v)

  accepted-IsNarrow :
      (test : Bool) (s : Server) (new_sock : Option ℕ)
      → IsNarrow s
      → IsNarrow (if test then on_accept queue_ok s new_sock else s)
  accepted-IsNarrow true s new_sock v = on_accept-IsNarrow s new_sock v
  accepted-IsNarrow false s new_sock v = v

  -- a round posts messages about sockets of the array only
  pub look-IsNarrow :
      (s : Server) (r : Round) → s.max_socket < sockets → IsNarrow (look queue_ok s r)
  unfolding round drain
  look-IsNarrow s r narrow =
      let before : Server = record s { pending = [] } in
      let readfds : FdSet = λ sock. s.master_readfds sock && r.readable sock in
      let writefds : FdSet = λ sock. s.master_writefds sock && r.writable sock in
      let v : IsNarrow before = record { narrow = narrow; small = tt } in
      let t = if readfds s.listen_sock then on_accept queue_ok before r.new_sock else before in
      let w = accepted-IsNarrow (readfds s.listen_sock) before r.new_sock v in
      scan-IsNarrow readfds writefds t (t.max_socket + 1) (omega (arith, w.narrow)) w

pub on_operation-max_socket :
    (s : Server) (sock : ℕ) (op : Operation) → (on_operation s sock op).max_socket ≡ s.max_socket
unfolding on_operation
on_operation-max_socket s sock read = refl
on_operation-max_socket s sock write = refl
on_operation-max_socket s sock delread = refl
on_operation-max_socket s sock delall = refl
