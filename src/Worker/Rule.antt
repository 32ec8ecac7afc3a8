-- ===== src/Worker/Rule.antt =====
-- The rule by which a property of the worker of main/worker.cpp is shown to hold after every event.
use esp32_mqtts_broker.Prelude.{ℕ, ◌≡◌, Bool}
use esp32_mqtts_broker.Run.{ok, Yields}
use esp32_mqtts_broker.Frame.{Incoming}
use esp32_mqtts_broker.Worker.State.{Worker, World, SockCid, cell}
use esp32_mqtts_broker.Worker.Drop.{drop_conn}
use esp32_mqtts_broker.Worker.Login.{Next, over, below, on_phase, on_connect}
use esp32_mqtts_broker.Worker.Logins.{Same}

abbrev pub NextHolds : (Worker → Type 0) → Next → Type 0
NextHolds P (over t) = P t
NextHolds P (below t) = P t

-- what has to be shown of a property: it is about who is logged in and which clients there are, and
-- `drop_conn`, the handshake and CONNECT keep it
pub record Inductive (world : World) (P : Worker → Type 0) : Type 0 where
  pub same : (w t : Worker) → P w → Same w t → P t
  pub drops :
      (w : Worker) (sock : ℕ) (sendwill : Bool) → P w → Yields (drop_conn world w sock sendwill) P
  pub phases :
      (w : Worker) (sock : ℕ) (sockst : SockCid)
      → P w
      → cell w.sock_to_clientid sock ≡ ok sockst
      → Yields (on_phase world w sock sockst sockst.phs) (NextHolds P)
  pub connects : (w : Worker) (sock : ℕ) (p : Incoming) → P w → Yields (on_connect world w sock p) P
