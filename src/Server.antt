-- ===== src/Server.antt =====
-- main/main.cpp: the task that opens the port and waits for sockets. A set of descriptors is a function;
-- the calls of lwIP are parameters by their answers.
pub mod Startup
pub mod Interest
use esp32_mqtts_broker.Prelude.{
  ℕ, zero, suc, ◌+◌, Bool, true, false, ◌&&◌, ◌||◌, not, Option, none, some, List, [], ◌∷◌, ◌==◌,
  ltb, leb, if◌then◌else◌, ◌%◌, u16_mod,
}
use esp32_mqtts_broker.Session.{Operation, read, write, delread, delall}

abbrev pub max_errors_before_restart : ℕ
max_errors_before_restart = 10

-- `error_check`: the number of errors to go on with, or a restart of the chip
unfoldable pub error_check : ℕ → Option ℕ
error_check error_count = if leb max_errors_before_restart error_count then none else some 0

-- the loop that tries a call again, at most `left` times more; `fails` says how the call ends by
-- the number of errors before it
unfoldable pub retry : ℕ → (ℕ → Bool) → ℕ → ℕ
retry zero fails error_count = error_count
retry (suc left) fails error_count =
    let rest = retry left fails (error_count + 1) in
    if fails error_count && ltb error_count max_errors_before_restart then rest else error_count

-- a call with its loop and its check
unfoldable pub attempt : (ℕ → Bool) → Option ℕ → Option ℕ
attempt fails none = none
attempt fails (some error_count) = error_check (retry max_errors_before_restart fails error_count)

-- `socket`, `fcntl` twice, `bind` and `listen`, in this order
unfoldable pub startup : List (ℕ → Bool) → Option ℕ → Option ℕ
startup [] count = count
startup (fails ∷ calls) count = startup calls (attempt fails count)

-- `message`
pub record Message : Type 0 where
  pub socket : ℕ
  pub op : Operation

abbrev pub FdSet : Type 0
FdSet = ℕ → Bool

abbrev pub fd_set : ℕ → FdSet → FdSet
fd_set sock fds other = other == sock || fds other

abbrev pub fd_clr : ℕ → FdSet → FdSet
fd_clr sock fds other = not (other == sock) && fds other

-- a message offered to `pending_socks`, and a socket closed at once
pub data Posted : Type 0 where
  posted : Message → Bool → Posted
  refused : ℕ → Posted

-- the variables of the loop, and what was posted, newest first
pub record Server : Type 0 where
  pub listen_sock : ℕ
  pub max_socket : ℕ
  pub master_readfds : FdSet
  pub master_writefds : FdSet
  pub pending : List Posted

unfoldable pub post : (List Posted → Bool) → Server → ℕ → Operation → Server
post queue_ok s sock op = record s {
  pending = posted (record { socket = sock; op = op }) (queue_ok s.pending) ∷ s.pending;
}

-- the answer of `accept`, where `none` is -1
unfoldable pub on_accept : (List Posted → Bool) → Server → Option ℕ → Server
on_accept queue_ok s none = s
on_accept queue_ok s (some new_sock) =
    if ltb 63 new_sock
    then record s { pending = refused new_sock ∷ s.pending }
    else (let t = if ltb s.max_socket new_sock then record s { max_socket = new_sock } else s in
        post queue_ok t new_sock write)

-- a socket that can be read, or written to: the queue is told, and the interest ends
unfoldable pub on_readable : (List Posted → Bool) → Server → ℕ → Bool → Server
on_readable queue_ok s sock false = s
on_readable queue_ok s sock true =
    let t = post queue_ok s sock read in record t { master_readfds = fd_clr sock t.master_readfds }

unfoldable pub on_writable : (List Posted → Bool) → Server → ℕ → Bool → Server
on_writable queue_ok s sock false = s
on_writable queue_ok s sock true =
    let t = post queue_ok s sock write in
    record t { master_writefds = fd_clr sock t.master_writefds }

-- one round of the loop over the sockets
unfoldable pub on_socket : (List Posted → Bool) → FdSet → FdSet → Server → ℕ → Server
on_socket queue_ok readfds writefds s sock =
    if sock == s.listen_sock
    then s
    else on_writable queue_ok (on_readable queue_ok s sock (readfds sock)) sock (writefds sock)

-- the rounds for the sockets below `count`
unfoldable pub scan : (List Posted → Bool) → FdSet → FdSet → Server → ℕ → Server
scan queue_ok readfds writefds s zero = s
scan queue_ok readfds writefds s (suc count) =
    on_socket queue_ok readfds writefds (scan queue_ok readfds writefds s count) count

-- a message from `socks_for_fds`
unfoldable pub on_operation : Server → ℕ → Operation → Server
on_operation s sock read = record s { master_readfds = fd_set sock s.master_readfds }
on_operation s sock write = record s { master_writefds = fd_set sock s.master_writefds }
on_operation s sock delread = record s { master_readfds = fd_clr sock s.master_readfds }
on_operation s sock delall = record s {
  master_readfds = fd_clr sock s.master_readfds;
  master_writefds = fd_clr sock s.master_writefds;
}

-- the loop over `socks_for_fds`, oldest message first
unfoldable pub drain : Server → List Message → Server
drain s [] = s
drain s (m ∷ messages) = drain (on_operation s m.socket m.op) messages

-- what comes from outside in one round of `while (true)`: the sockets that can be read and written,
-- of which `select` leaves those asked for, the new socket, and the requests of the worker
pub record Round : Type 0 where
  pub readable : FdSet
  pub writable : FdSet
  pub new_sock : Option ℕ
  pub requests : List Message

unfoldable pub round : (List Posted → Bool) → Server → Round → Server
round queue_ok s r =
    let readfds : FdSet = λ sock. s.master_readfds sock && r.readable sock in
    let writefds : FdSet = λ sock. s.master_writefds sock && r.writable sock in
    let t = if readfds s.listen_sock then on_accept queue_ok s r.new_sock else s in
    drain (scan queue_ok readfds writefds t (t.max_socket + 1)) r.requests

-- before the first round: the listening socket is watched; `max_socket` is a `uint16_t`
unfoldable pub new_server : ℕ → Server
new_server listen_sock = record {
  listen_sock = listen_sock;
  max_socket = listen_sock % u16_mod;
  master_readfds = fd_set listen_sock λ sock. false;
  master_writefds = λ sock. false;
  pending = [];
}
