-- ===== src/Server/Interest.antt =====
-- Which sockets the loop of main/main.cpp waits for.
use esp32_mqtts_broker.Prelude.{
  ℕ, zero, suc, ◌+◌, ◌≡◌, refl, ap, ◌∙◌, Bool, true, false, ◌&&◌, ◌||◌, not, Option, none, some,
  List, [], ◌∷◌, arith, ◌==◌, ltb, leb, if◌then◌else◌, Bool-cases, ==_iff, inl, inr,
}
use esp32_mqtts_broker.Session.{Operation, read, write, delread, delall}
use esp32_mqtts_broker.Server.{
  Message, FdSet, Posted, Server, post, on_accept, on_readable, on_writable, on_socket, scan,
  on_operation, drain, Round, round,
}

-- what an operation says about the read interest in its socket
abbrev pub op_says : Operation → Option Bool
op_says read = some true
op_says write = none
op_says delread = some false
op_says delall = some false

-- what a request says about the read interest in a socket, and what the last of several says
abbrev pub says : ℕ → Message → Option Bool
says sock m = if sock == m.socket then op_says m.op else none

unfoldable pub last_says : ℕ → List Message → Option Bool
last_says sock [] = none
last_says sock (m ∷ messages) = elim (last_says sock messages) [
  | none ↦ says sock m
  | some wanted ↦ some wanted
]

abbrev pub or_before : Option Bool → Bool → Bool
or_before none before = before
or_before (some wanted) before = wanted

on_operation-readfds :
    (s : Server) (socket : ℕ) (op : Operation) (sock : ℕ)
    → (on_operation s socket op).master_readfds sock
      ≡ or_before (if sock == socket then op_says op else none) (s.master_readfds sock)
unfolding on_operation
on_operation-readfds s socket read sock = ground arith
on_operation-readfds s socket write sock = ground arith
on_operation-readfds s socket delread sock = ground arith
on_operation-readfds s socket delall sock = ground arith

or_before-last :
    (later : Option Bool) (first : Option Bool) (before : Bool)
    → or_before later (or_before first before)
      ≡ or_before (elim later [ none ↦ first | some wanted ↦ some wanted ]) before
or_before-last none first before = refl
or_before-last (some wanted) first before = refl

drain-readfds :
    (s : Server) (messages : List Message) (sock : ℕ)
    → (drain s messages).master_readfds sock
      ≡ or_before (last_says sock messages) (s.master_readfds sock)
unfolding drain last_says
drain-readfds s [] sock = refl
drain-readfds s (m ∷ messages) sock =
    drain-readfds (on_operation s m.socket m.op) messages sock
    ∙ ap (or_before (last_says sock messages)) (on_operation-readfds s m.socket m.op sock)
    ∙ or_before-last (last_says sock messages) (says sock m) (s.master_readfds sock)

module _ (queue_ok : List Posted → Bool) (readfds writefds : FdSet) where
  on_writable-same :
      (s : Server) (sock : ℕ) (ready : Bool)
      → let t = on_writable queue_ok s sock ready in
        (t.master_readfds ≡ s.master_readfds) × (t.listen_sock ≡ s.listen_sock)
  unfolding on_writable post
  on_writable-same s sock false = (refl, refl)
  on_writable-same s sock true = (refl, refl)

  on_readable-fds :
      (s : Server) (sock other : ℕ) (ready : Bool)
      → let t = on_readable queue_ok s sock ready in
        (t.master_readfds other ≡ (s.master_readfds other && not (ready && other == sock)))
        × (t.listen_sock ≡ s.listen_sock)
  unfolding on_readable post
  on_readable-fds s sock other false = (ground arith, refl)
  on_readable-fds s sock other true = (ground arith, refl)

  on_socket-fds :
      (s : Server) (sock other : ℕ)
      → let t = on_socket queue_ok readfds writefds s sock in
        (t.master_readfds other ≡ (
          s.master_readfds other
          && not (readfds other && (other == sock && not (other == s.listen_sock)))))
        × (t.listen_sock ≡ s.listen_sock)
  unfolding on_socket
  on_socket-fds s sock other = elim (Bool-cases (sock == s.listen_sock)) [
    | inl listens ↦ rw (on_socket, listens) (ground arith, refl)
    | inr connection ↦
        let (cleared, still) = on_readable-fds s sock other (readfds sock) in
        let (same, kept) =
          on_writable-same (on_readable queue_ok s sock (readfds sock)) sock (writefds sock) in
        rw (on_socket, connection)
          (
            ap (λ (fds : FdSet). fds other) same ∙ cleared ∙ elim (Bool-cases (other == sock)) [
              | inl here ↦
                  let it : other ≡ sock = (==_iff other sock).0 here in rw (← it) (ground arith)
              | inr there ↦ ground arith
            ],
            kept ∙ still,
          )
  ]

  pub scan-fds :
      (s : Server) (count other : ℕ)
      → let t = scan queue_ok readfds writefds s count in
        (t.master_readfds other ≡ (
          s.master_readfds other
          && not (readfds other && (ltb other count && not (other == s.listen_sock)))))
        × (t.listen_sock ≡ s.listen_sock)
  unfolding scan
  scan-fds s zero other = (ground arith, refl)
  scan-fds s (suc count) other =
      let (before, listens) = scan-fds s count other in
      let t = scan queue_ok readfds writefds s count in
      let (now, still) = on_socket-fds t count other in
      (rw (now, before, listens) (ground arith), still ∙ listens)

-- a server after `accept`
pub record Accepts (s t : Server) : Type 0 where
  pub reads : t.master_readfds ≡ s.master_readfds
  pub listens : t.listen_sock ≡ s.listen_sock
  pub wider : (sock : ℕ) → leb sock s.max_socket ≡ true → ltb sock (t.max_socket + 1) ≡ true

Accepts-refl : (s : Server) → Accepts s s
Accepts-refl s = record { reads = refl; listens = refl; wider = λ sock h. ground arith }

pub on_accept-Accepts :
    (queue_ok : List Posted → Bool) (s : Server) (new_sock : Option ℕ)
    → Accepts s (on_accept queue_ok s new_sock)
unfolding on_accept post
on_accept-Accepts queue_ok s none = Accepts-refl s
on_accept-Accepts queue_ok s (some new_sock) = elim (Bool-cases (ltb 63 new_sock)) [
  | inl many ↦ rw many (record { reads = refl; listens = refl; wider = λ sock h. ground arith })
  | inr fits ↦ elim (Bool-cases (ltb s.max_socket new_sock)) [
    | inl more ↦
        rw (fits, more) (record { reads = refl; listens = refl; wider = λ sock h. ground arith })
    | inr known ↦
        rw (fits, known) (record { reads = refl; listens = refl; wider = λ sock h. ground arith })
  ]
]

pub either : (test : Bool) (s t : Server) → Accepts s t → Accepts s (if test then t else s)
either true s t a = a
either false s t a = Accepts-refl s

module _ (queue_ok : List Posted → Bool) (s : Server) (r : Round) where
  -- the server when the sockets are looked at
  accepted : Server
  accepted =
      if s.master_readfds s.listen_sock && r.readable s.listen_sock
      then on_accept queue_ok s r.new_sock
      else s

  accepted-Accepts : Accepts s accepted
  unfolding accepted
  accepted-Accepts =
      either _ s (on_accept queue_ok s r.new_sock) (on_accept-Accepts queue_ok s r.new_sock)

  -- Of the sockets that the server knows, the port stays in the set of those waited for, and a
  -- connection leaves it exactly when it can be read; then the last request of the worker about the
  -- socket decides. Whether the queue took the message about the connection does not matter.
  pub round-readfds :
      (sock : ℕ)
      → leb sock s.max_socket ≡ true
      → (round queue_ok s r).master_readfds sock
        ≡ or_before
            (last_says sock r.requests)
            (s.master_readfds sock && (sock == s.listen_sock || not (r.readable sock)))
  unfolding round accepted
  round-readfds sock known =
      let readfds : FdSet = λ other. s.master_readfds other && r.readable other in
      let writefds : FdSet = λ other. s.master_writefds other && r.writable other in
      let a = accepted-Accepts in
      let t = scan queue_ok readfds writefds accepted (accepted.max_socket + 1) in
      let looked = (scan-fds queue_ok readfds writefds accepted (accepted.max_socket + 1) sock).0 in
      drain-readfds t r.requests sock
      ∙ ap (or_before (last_says sock r.requests))
          (looked ∙ rw (a.reads, a.listens, a.wider sock known) (ground arith))
