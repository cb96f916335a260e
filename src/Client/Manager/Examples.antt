-- ===== src/Client/Manager/Examples.antt =====
-- Runs of the worker, and its theorems at them.
use out_warp.Prelude.{
  zero, suc, ℕ, ◌≡◌, refl, true, false, Option, none, some, [], ◌∷◌, arith, any, inl,
}
use out_warp.Prelude.Text.{split, has_no, show, read_digits}
use out_warp.Prelude.Dict
use out_warp.Server.ClientNames.{strip}
use out_warp.Server.IpPool.Address.{parse_network, parse_address}
use out_warp.Client.Sticky
use out_warp.Client.Bypass
use out_warp.Client.Bypass.{resolve_bypass_networks}
use out_warp.Client.Fallback
use out_warp.Client.Fallback.{
  build_ladder, all_rungs, resolve_provisioned, same_key, reorder_for_sticky,
}
use out_warp.Client.Routing
use out_warp.Client.Routing.{escape_set, ladder_addresses, rung_addresses}
use out_warp.Client.Tunnel.Transport.{find_wstunnel, first_existing}
use out_warp.Client.Tunnel.Rung.{ensure_wstunnel}
use out_warp.Client.Tunnel.Connect.{connect}
use out_warp.Client.KillSwitch.{TunnelState, disconnected, failed, resolved_allowlist}
use out_warp.Client.Tunnel.Connect.Examples.{title, config, disk, at_rest, world}
use out_warp.Client.Manager.{
  Setting, Manager, Watch, Round, run, pick_delay, run_with, run_loop, one_round, after_failure,
  back_off, set_state, reconcile_kill_switch, signature_of, network_signature, is_expired,
}
use out_warp.Client.Manager.Ends.{run-ends}
use out_warp.Client.Manager.Path.{Walk, run-Walk}
use out_warp.Client.Manager.Guard.{Works, AllGuarded, run-AllGuarded}

abbrev setting : Setting
setting = record {
  title = title;
  config = config;
  expires_at = "2027-01-01";
  today = "2026-11-26";
  max_attempts = 2;
  delays_seconds = 1 ∷ 5 ∷ [];
  gateway = "10.0.0.1";
  nameserver = "";
  names = record { is_ipv6 = λ s. false; getaddrinfo = λ s. none };
  system_proxy = "";
  engages = true;
  releases = true;
}

abbrev idle : Manager
idle = record {
  tunnel = at_rest;
  sticky = record { entries = []; loaded = true; file = none; writable = false };
  state = disconnected;
  last_error = none;
  attempt = 0;
  auto_reconnect = true;
  kill_switch_enabled = true;
  rules = none;
  changes = [];
}

abbrev seen_up : Watch
seen_up = record {
  stop_before = false;
  exited = false;
  interface_up = true;
  stable = false;
  stop_in_wait = false;
}

-- A connection that comes up, is seen twice and then dies; every later one fails.
abbrev round : ℕ → Round
round i = record {
  stop_before = false;
  world = elim i [ zero ↦ world (some 6) | suc j ↦ world (some 5) ];
  stop_at_failure = false;
  watches = seen_up ∷ seen_up ∷ [];
  stop_after_watch = false;
  uninstalls = true;
  stop_in_backoff = false;
}

delays : (pick_delay (1 ∷ 5 ∷ []) 1 ≡ 1) × (pick_delay (1 ∷ 5 ∷ []) 9 ≡ 5) × (pick_delay [] 3 ≡ 5)
unfolding pick_delay
delays = (refl, refl, refl)

run-ends_example : (m1 : Manager) × (run setting disk round 2 idle ≡ some m1)
unfolding any
run-ends_example = run-ends setting disk round 2 idle (λ i. refl) (omega arith) (omega arith)

-- Without a key every attempt fails, and the second is the last.
abbrev keyless : Setting
keyless = record setting { config = record config { client_private_key = "" } }

abbrev state_and_attempt : Option Manager → Option (TunnelState × ℕ)
state_and_attempt none = none
state_and_attempt (some m) = some (m.state, m.attempt)

gives_up :
    state_and_attempt (run keyless disk round 2 (record idle { kill_switch_enabled = false }))
    ≡ some (failed, 2)
unfolding run run_with run_loop one_round after_failure back_off set_state reconcile_kill_switch
    signature_of network_signature is_expired Sticky.get Sticky.load show Dict.lookup find_wstunnel
    first_existing ensure_wstunnel connect
gives_up = refl

ends : (m1 : Manager) × (run setting disk round 2 idle ≡ some m1)
unfolding any
ends = run-ends setting disk round 2 idle (λ i. refl) (omega arith) (omega arith)

abbrev last : Manager
last = ends.0

run-Walk_example : Walk disconnected last.state last.changes
run-Walk_example = run-Walk setting disk round 2 idle last (inl refl) refl ends.1

setting-Works : Works setting
unfolding resolved_allowlist resolve_bypass_networks Bypass.add_entry Bypass.add_net strip
    parse_network parse_address build_ladder all_rungs resolve_provisioned same_key Fallback.dedup
    escape_set Routing.dedup ladder_addresses rung_addresses any split has_no read_digits
setting-Works = record { engages = refl; releases = refl; reaches = λ dns. refl }

run-AllGuarded_example : AllGuarded last.changes
run-AllGuarded_example =
    run-AllGuarded setting disk round 2 idle last setting-Works refl tt (inl refl) ends.1
