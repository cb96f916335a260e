-- ===== src/Client/Tunnel/Connect/Established.antt =====
-- A connection that succeeds (`connect` of client/outwarp/tunnel.py).
use mathlib.Core.List.{◌++◌ as append}
use out_warp.Prelude.{ℕ, ◌≡◌, ◌⊎◌, String, Bool, true, some, List, [], ◌∷◌}
use out_warp.Client.Fallback.{ConnectionStrategy, strategy_to_command}
use out_warp.Client.Routing.{mem, dialled}
use out_warp.Client.Tunnel.State.{ClientConfig, Process, Tunnel, Outcome, returned, World}
use out_warp.Client.Tunnel.Rung.{forward_spec}
use out_warp.Client.Tunnel.Rung.Evidence.{IsTrusted, HasTraffic}

-- The connection that is up: a rung that is trusted and carries traffic, its process alone, and an
-- interface that leaves the address that the process dials outside the tunnel.
pub record IsEstablished (cfg : ClientConfig) (allow_tls_intercept : Bool) (w : World) (u : Tunnel)
    : Type 0 where
  pub index : ℕ
  pub strategy : ConnectionStrategy
  pub active : u.active_strategy ≡ some strategy
  pub trusted : IsTrusted cfg allow_tls_intercept (w.rung index) strategy
  pub traffic : HasTraffic cfg (w.rung index)
  pub bin : String
  pub process : Process
  pub runs : u.proc ≡ some process
  pub alone : u.processes ≡ process ∷ []
  pub command : process.command ≡ strategy_to_command strategy bin (forward_spec cfg)
  pub installed : u.wg_installed ≡ true
  pub outside : List String
  pub interface : u.interface ≡ some outside
  pub escapes : (dialled strategy ≡ "") ⊎ (mem (dialled strategy) outside ≡ true)

-- What a call that returns shows.
ShowsLink : ClientConfig → Bool → World → Tunnel → Outcome × Tunnel → Type 0
ShowsLink cfg allow w u r = r ≡ (returned, u) → IsEstablished cfg allow w u
