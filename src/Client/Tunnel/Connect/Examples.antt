-- ===== src/Client/Tunnel/Connect/Examples.antt =====
-- Runs of a connection, and its theorems at them.
use out_warp.Prelude.{ℕ, ◌≡◌, refl, String, true, false, Option, none, some, [], ◌∷◌}
use out_warp.Prelude.Dict
use out_warp.Client.Fallback
use out_warp.Client.Fallback.{ConnectionStrategy, Profile, strategy_to_command, command_tail, url}
use out_warp.Client.Routing.{proxy_host, after_last}
use out_warp.Client.Routing
use out_warp.Client.Tunnel.Transport.{Disk, find_wstunnel, first_existing}
use out_warp.Client.Tunnel.State.{
  not_started, ClientConfig, Tunnel, accepted, refused, started, RungWorld, World,
}
use out_warp.Client.Tunnel.Rung.{
  failed, ensure_wstunnel, try_strategy, pin_gate, start_wstunnel, after_start, spawn_and_verify,
}
use out_warp.Client.Tunnel.Connect.{connect}
use out_warp.Client.Tunnel.Connect.Rest.{IsAtRest}

abbrev pub title : String → String
title s = s

abbrev profile : Profile
profile = record {
  endpoint = "192.0.2.1";
  port = 443;
  http_upgrade_path_prefix = "secret";
  fallback_ports = [];
  hostile_mode = "off";
  tls_verify = "pin";
  strategies = [];
}

abbrev pub config : ClientConfig
config = record {
  profile = profile;
  fallback_enabled = true;
  client_private_key = "key";
  local_port = 51820;
  remote_host = "127.0.0.1";
  remote_port = 51820;
  spki_sha256 = "";
  cert_fingerprint_sha256 = "ab";
  bypass_ips = [];
  require_ping = true;
}

abbrev pub disk : Disk
disk = record {
  override = "";
  frozen_candidates = [];
  standard = "/bin/wstunnel";
  on_path = none;
  path_exists = λ p. true;
}

abbrev pub at_rest : Tunnel
at_rest = record {
  wstunnel_bin = none;
  wstunnel_injected = false;
  proc = none;
  wg_installed = false;
  preferred_strategy_id = "";
  active_strategy = none;
  allow_tls_intercept = false;
  last_hostile_detection = none;
  phase = "";
  dns = record { memory = []; loaded = true; file = none; writable = true };
  processes = [];
  next_pid = 1;
  interface = none;
}

abbrev pub at_rest-IsAtRest : IsAtRest at_rest
at_rest-IsAtRest = record {
  no_proc = refl;
  none_runs = refl;
  no_strategy = refl;
  not_installed = refl;
  no_interface = refl;
}

-- A rung that shows a handshake at its first poll, or never one.
abbrev rung_world : Option ℕ → RungWorld
rung_world seen = record {
  cancelled_before = false;
  verify_tls_ca = refused;
  verify_tls_spki = λ pin. refused;
  verify_tls_fingerprint = λ pin. accepted;
  baseline = some 5;
  cancelled_at_spawn = false;
  disk = disk;
  spawn = started;
  disk_after = disk;
  polls = record { cancelled = false; exited = false; handshake = seen } ∷ [];
  cancelled_after_wait = false;
  exited_after_wait = false;
  pings = λ n. record { cancelled = false; answered = true };
  cancelled_after_pings = false;
}

abbrev pub world : Option ℕ → World
world seen = record {
  disk = disk;
  system_proxy = "";
  hostile_probe = none;
  tcp_probe = λ host port. true;
  resolver = record {
    is_ip_address = λ host. true;
    query = λ server host. "";
    getaddrinfo = λ host. none;
  };
  cancelled_first = false;
  installs = true;
  uninstalls = true;
  rung = λ idx. rung_world seen;
}

abbrev connected : Tunnel
connected = (connect title config (world (some 6)) at_rest).1

abbrev failed_tunnel : Tunnel
failed_tunnel = (connect title config (world (some 5)) at_rest).1

abbrev via_proxy : ConnectionStrategy
via_proxy = record {
  id = "direct-proxy";
  label = "Via HTTP proxy";
  endpoint = "192.0.2.1";
  port = 443;
  path_prefix = "secret";
  scheme = "wss";
  force_hostile = true;
  sni_override = "";
  host_header = "";
  user_agent = "";
  proxy = "proxy.local:3128";
  pin_mode = "pin";
  bypass_ips = [];
  connect_host = "";
}

-- wstunnel is there at the first check and gone when the rung starts.
removed_in_ladder :
    (try_strategy config
      (record (rung_world (some 6)) { disk = record disk { path_exists = λ p. false } })
      via_proxy
      at_rest).0
    ≡ failed not_started
unfolding try_strategy pin_gate spawn_and_verify after_start start_wstunnel ensure_wstunnel
    find_wstunnel first_existing
removed_in_ladder = refl
