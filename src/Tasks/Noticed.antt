-- ===== src/Tasks/Noticed.antt =====
-- What a round of main/main.cpp posts about the connections that can be read.
use esp32_mqtts_broker.Prelude.{
  ℕ, zero, suc, ◌+◌, ◌≡◌, refl, ap, ◌∙◌, Bool, true, false, ◌&&◌, not, Option, none, some, List, [],
  ◌∷◌, arith, ltb, leb, ◌==◌, if◌then◌else◌, Bool-cases, inl, inr, ==_iff,
}
use esp32_mqtts_broker.Hashmap.Holders.{one_if}
use esp32_mqtts_broker.Session.{Operation, read, write, delread, delall}
use esp32_mqtts_broker.Server.{
  FdSet, Posted, posted, refused, Server, post, on_accept, on_readable, on_writable, on_socket,
  scan, Round, round, drain,
}
use esp32_mqtts_broker.Server.Interest.{scan-fds, on_accept-Accepts, either}
use esp32_mqtts_broker.Tasks.{look}

-- the queue takes every message
abbrev pub always : List Posted → Bool
always ps = true

abbrev pub is_read : Operation → Bool
is_read read = true
is_read write = false
is_read delread = false
is_read delall = false

-- how many messages among those posted say that a socket can be read
unfoldable pub told : ℕ → List Posted → ℕ
told sock [] = 0
told sock (posted m taken ∷ ps) = one_if (m.socket == sock && is_read m.op) + told sock ps
told sock (refused other ∷ ps) = told sock ps

abbrev pub AllOffered : List Posted → Type 0
AllOffered [] = Unit
AllOffered (posted m taken ∷ ps) = (taken ≡ true) × AllOffered ps
AllOffered (refused other ∷ ps) = AllOffered ps

-- what was posted since `ps`: all was offered, and `n` times that `sock` can be read
pub record Tells (sock n : ℕ) (ps qs : List Posted) : Type 0 where
  pub counted : told sock qs ≡ told sock ps + n
  pub offered : AllOffered ps → AllOffered qs

Tells-refl : (sock : ℕ) (ps : List Posted) → Tells sock 0 ps ps
Tells-refl sock ps = record { counted = omega arith; offered = λ all. all }

Tells-trans :
    (sock n k : ℕ) (ps qs rs : List Posted)
    → Tells sock n ps qs
    → Tells sock k qs rs
    → Tells sock (n + k) ps rs
Tells-trans sock n k ps qs rs first more = record {
  counted = omega (arith, first.counted, more.counted);
  offered = λ all. more.offered (first.offered all);
}

on_accept-Tells :
    (s : Server) (new_sock : Option ℕ) (sock : ℕ)
    → Tells sock 0 s.pending (on_accept always s new_sock).pending
unfolding on_accept post told
on_accept-Tells s none sock = Tells-refl sock s.pending
on_accept-Tells s (some new_sock) sock = elim (Bool-cases (ltb 63 new_sock)) [
  | inl many ↦ rw many (record { counted = omega arith; offered = λ all. all })
  | inr fits ↦ elim (Bool-cases (ltb s.max_socket new_sock)) [
    | inl more ↦ rw (fits, more) (record { counted = ground arith; offered = λ all. (refl, all) })
    | inr known ↦ rw (fits, known) (record { counted = ground arith; offered = λ all. (refl, all) })
  ]
]

on_readable-Tells :
    (s : Server) (at sock : ℕ) (ready : Bool)
    → Tells sock (one_if (ready && at == sock)) s.pending (on_readable always s at ready).pending
unfolding on_readable post told
on_readable-Tells s at sock false = Tells-refl sock s.pending
on_readable-Tells s at sock true = record { counted = ground arith; offered = λ all. (refl, all) }

on_writable-Tells :
    (s : Server) (at sock : ℕ) (ready : Bool)
    → Tells sock 0 s.pending (on_writable always s at ready).pending
unfolding on_writable post told
on_writable-Tells s at sock false = Tells-refl sock s.pending
on_writable-Tells s at sock true = record { counted = ground arith; offered = λ all. (refl, all) }

module _ (readfds writefds : FdSet) (sock : ℕ) where
  on_socket-Tells :
      (s : Server) (at : ℕ)
      → Tells sock
          (one_if (not (at == s.listen_sock) && (readfds at && at == sock)))
          s.pending
          (on_socket always readfds writefds s at).pending
  unfolding on_socket
  on_socket-Tells s at = elim (Bool-cases (at == s.listen_sock)) [
    | inl listens ↦ rw (on_socket, listens) (Tells-refl sock s.pending)
    | inr connection ↦
        let t = on_readable always s at (readfds at) in
        let n = one_if (readfds at && at == sock) in
        rw (on_socket, connection)
          (let both =
              Tells-trans sock n 0 s.pending t.pending _ (on_readable-Tells s at sock (readfds at))
                (on_writable-Tells t at sock (writefds at)) in
            record { counted = omega (arith, both.counted); offered = both.offered })
  ]

  one_more :
      (count listen : ℕ)
      → one_if (readfds sock && (ltb sock count && not (sock == listen)))
          + one_if (not (count == listen) && (readfds count && count == sock))
        ≡ one_if (readfds sock && (ltb sock (suc count) && not (sock == listen)))
  one_more count listen = elim (Bool-cases (count == sock)) [
    | inl equal ↦ let it : count ≡ sock = (==_iff count sock).0 equal in rw it (ground arith)
    | inr there ↦ ground arith
  ]

  scan-Tells :
      (s : Server) (count : ℕ)
      → Tells sock
          (one_if (readfds sock && (ltb sock count && not (sock == s.listen_sock))))
          s.pending
          (scan always readfds writefds s count).pending
  unfolding scan
  scan-Tells s zero = record { counted = ground arith; offered = λ all. all }
  scan-Tells s (suc count) =
      let t = scan always readfds writefds s count in
      let same = (scan-fds always readfds writefds s count sock).1 in
      let both =
        Tells-trans sock _ _ s.pending t.pending _ (scan-Tells s count) (on_socket-Tells t count) in
      record {
        counted =
            both.counted
            ∙ rw same (ap (λ n. told sock s.pending + n) (one_more count s.listen_sock));
        offered = both.offered;
      }

either-Tells :
    (test : Bool) (s : Server) (new_sock : Option ℕ) (sock : ℕ)
    → Tells sock 0 s.pending (if test then on_accept always s new_sock else s).pending
either-Tells true s new_sock sock = on_accept-Tells s new_sock sock
either-Tells false s new_sock sock = Tells-refl sock s.pending

module _ (server : Server) (r : Round) (sock : ℕ) (watched : server.master_readfds sock ≡ true)
    (ready : r.readable sock ≡ true) (connection : (sock == server.listen_sock) ≡ false)
    (known : leb sock server.max_socket ≡ true) where
  -- a round posts once that the socket can be read
  pub look-Tells : Tells sock 1 [] (look always server r).pending
  unfolding round drain
  look-Tells =
      let before : Server = record server { pending = [] } in
      let readfds : FdSet = λ other. server.master_readfds other && r.readable other in
      let writefds : FdSet = λ other. server.master_writefds other && r.writable other in
      let test = readfds server.listen_sock in
      let t = if test then on_accept always before r.new_sock else before in
      let a =
        either test before (on_accept always before r.new_sock)
          (on_accept-Accepts always before r.new_sock) in
      let first = either-Tells test before r.new_sock sock in
      let more = scan-Tells readfds writefds sock t (t.max_socket + 1) in
      let once : one_if
            (readfds sock && (ltb sock (t.max_socket + 1) && not (sock == t.listen_sock)))
          ≡ 1 =
        rw (a.listens, a.wider sock known, watched, ready, connection) refl in
      let both = Tells-trans sock 0 _ [] t.pending _ first more in
      record {
        counted = both.counted ∙ ap (λ n. told sock [] + (0 + n)) once;
        offered = both.offered;
      }
