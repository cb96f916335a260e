-- ===== src/Client/Manager/Stop.antt =====
-- Stopping a worker that has returned (`_run`, `stop` of client/outwarp/tunnel.py).
use out_warp.Prelude.{◌≡◌, none}
use out_warp.Client.KillSwitch.{disconnected}
use out_warp.Client.Tunnel.State.{Tunnel}
use out_warp.Client.Tunnel.Connect.Rest.{IsAtRest}
use out_warp.Client.Manager.{Manager}

-- Nothing of a connection is there, and the worker's state is that of a fresh one.
pub record IsStopped (m : Manager) : Type 0 where
  pub at_rest : IsAtRest m.tunnel
  pub state : m.state ≡ disconnected
  pub attempt : m.attempt ≡ 0
  pub last_error : m.last_error ≡ none
