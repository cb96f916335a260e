-- ===== src/Client/Tunnel/State.antt =====
-- The state of a `Tunnel`, what it reads of the profile, and what it meets outside, of
-- client/outwarp/tunnel.py.
use out_warp.Prelude.{ℕ, String, Bool, Option, List}
use out_warp.Client.DnsCache.{DnsCache}
use out_warp.Client.Fallback.{ConnectionStrategy, Profile}
use out_warp.Client.Tunnel.Resolve.{Resolver}
use out_warp.Client.Tunnel.Transport.{Disk, NotFound}

-- The fields of a ClientConfig that a connection reads, besides those of the ladder.
pub record ClientConfig : Type 0 where
  pub profile : Profile
  pub fallback_enabled : Bool
  pub client_private_key : String
  pub local_port : ℕ
  pub remote_host : String
  pub remote_port : ℕ
  pub spki_sha256 : String
  pub cert_fingerprint_sha256 : String
  pub bypass_ips : List String
  pub require_ping : Bool

pub record Process : Type 0 where
  pub pid : ℕ
  pub command : List String

-- `processes` are the wstunnel processes that run, and `interface` the addresses that the installed
-- WireGuard configuration leaves outside the tunnel, `none` where none is installed.
pub record Tunnel : Type 0 where
  pub wstunnel_bin : Option String
  pub wstunnel_injected : Bool
  pub proc : Option Process
  pub wg_installed : Bool
  pub preferred_strategy_id : String
  pub active_strategy : Option ConnectionStrategy
  pub allow_tls_intercept : Bool
  pub last_hostile_detection : Option Bool
  pub phase : String
  pub dns : DnsCache
  pub processes : List Process
  pub next_pid : ℕ
  pub interface : Option (List String)

pub data Reason : Type 0 where
  not_trusted : Reason
  fingerprint_mismatch : Reason
  probe_failed : Reason
  not_started : Reason
  cancelled_in_rung : Reason
  no_handshake_exited : Reason
  no_handshake : Reason
  no_traffic : Reason

pub data Failure : Type 0 where
  no_key : Failure
  transport_removed : String → Failure
  transport_not_found : NotFound → Failure
  transport_blocked : String → Failure
  no_strategy : Failure
  unreachable : List ConnectionStrategy → Failure
  cancelled : Failure
  not_installed : Failure
  all_failed : List Reason → Failure

-- What a call of `connect` comes to.
pub data Outcome : Type 0 where
  returned : Outcome
  raised : Failure → Outcome

-- The answer of a certificate check: it returns, raises CertificateNotTrustedError or
-- FingerprintMismatchError, or any other NetworkError.
pub data TlsAnswer : Type 0 where
  accepted : TlsAnswer
  refused : TlsAnswer
  probe_error : TlsAnswer

-- FileNotFoundError, and any other OSError with its `winerror`, 0 where it has none.
pub data OsError : Type 0 where
  file_not_found : OsError
  winerror : ℕ → OsError

-- `Popen` returns, or raises an OSError or any other exception.
pub data Spawn : Type 0 where
  started : Spawn
  os_error : OsError → Spawn
  other_error : Spawn

-- One round of the wait for a handshake. The flag of `cancel` is read where the source reads it.
pub record Poll : Type 0 where
  pub cancelled : Bool
  pub exited : Bool
  pub handshake : Option ℕ

pub record Ping : Type 0 where
  pub cancelled : Bool
  pub answered : Bool

-- What is met while one rung is tried. `polls` are the rounds before the deadline; `pings` are
-- numbered by the attempts that are left. `disk` is read before the process is started, `disk_after`
-- when that has failed.
pub record RungWorld : Type 0 where
  pub cancelled_before : Bool
  pub verify_tls_ca : TlsAnswer
  pub verify_tls_spki : String → TlsAnswer
  pub verify_tls_fingerprint : String → TlsAnswer
  pub baseline : Option ℕ
  pub cancelled_at_spawn : Bool
  pub disk : Disk
  pub spawn : Spawn
  pub disk_after : Disk
  pub polls : List Poll
  pub cancelled_after_wait : Bool
  pub exited_after_wait : Bool
  pub pings : ℕ → Ping
  pub cancelled_after_pings : Bool

-- What is met by one call of `connect`. `hostile_probe` is `none` where the detection raises;
-- `installs` and `uninstalls` say whether the platform's call succeeds.
pub record World : Type 0 where
  pub disk : Disk
  pub system_proxy : String
  pub hostile_probe : Option Bool
  pub tcp_probe : String → ℕ → Bool
  pub resolver : Resolver
  pub cancelled_first : Bool
  pub installs : Bool
  pub uninstalls : Bool
  pub rung : ℕ → RungWorld
