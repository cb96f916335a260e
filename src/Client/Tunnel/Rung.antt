-- ===== src/Client/Tunnel/Rung.antt =====
-- One rung of the ladder: the pin check, the wstunnel process and the proof of traffic
-- (`_try_strategy` of client/outwarp/tunnel.py and what it calls). A process that is stopped is gone.
pub mod Laws
pub mod Evidence
use Prim.Native.String.{◌++◌}
use out_warp.Prelude.{
  ℕ, zero, suc, ◌+◌, String, Bool, true, false, not, ◌&&◌, ◌||◌, Option, none, some, List, [], ◌∷◌,
  Result, ok, err, ltb, ◌==◌, str_eq, if◌then◌else◌, filter,
}
use out_warp.Prelude.Text.{show}
use out_warp.Client.Fallback.{ConnectionStrategy, strategy_to_command}
use out_warp.Client.Tunnel.Transport.{Disk, find_wstunnel}
use out_warp.Client.Tunnel.State.{
  ClientConfig, Process, Tunnel, Failure, transport_removed, transport_not_found, transport_blocked,
  cancelled, Reason, not_trusted, fingerprint_mismatch, probe_failed, not_started,
  cancelled_in_rung, no_handshake_exited, no_handshake, no_traffic, TlsAnswer, accepted, refused,
  probe_error, OsError, file_not_found, winerror, Spawn, started, os_error, other_error, Poll, Ping,
  RungWorld,
}

abbrev pub forward_spec : ClientConfig → String
forward_spec cfg =
    "udp://127.0.0.1:"
    ++ show cfg.local_port
    ++ ":"
    ++ cfg.remote_host
    ++ ":"
    ++ show cfg.remote_port
    ++ "?timeout_sec=0"

-- the path at hand, where it may be used as it is
abbrev usable_bin : Disk → Tunnel → Option String
usable_bin d t = elim t.wstunnel_bin [
  | none ↦ none
  | some p ↦ if t.wstunnel_injected || d.path_exists p then some p else none
]

unfoldable pub ensure_wstunnel : Disk → Tunnel → Result Failure String × Tunnel
ensure_wstunnel d t = elim (usable_bin d t) [
  | some p ↦ (ok p, t)
  | none ↦ elim (find_wstunnel d) [
    | ok p ↦ (ok p, record t { wstunnel_bin = some p })
    | err e ↦ elim t.wstunnel_bin [
      | some p ↦ (err (transport_removed p), t)
      | none ↦ (err (transport_not_found e), t)
    ]
  ]
]

unfoldable pub is_blocked_binary_error : OsError → Bool
is_blocked_binary_error file_not_found = true
is_blocked_binary_error (winerror n) = n == 2 || n == 3 || n == 225 || n == 1260 || n == 4551

unfoldable pub is_attemptable : (String → ℕ → Bool) → ConnectionStrategy → Bool
is_attemptable tcp_probe s =
    if not (str_eq s.proxy "") || not (str_eq s.scheme "wss")
    then true
    else tcp_probe s.endpoint s.port

abbrev ca_reason : TlsAnswer → Option Reason
ca_reason accepted = none
ca_reason refused = some not_trusted
ca_reason probe_error = some probe_failed

abbrev pin_reason : Bool → TlsAnswer → Option Reason
pin_reason tolerated accepted = none
pin_reason tolerated refused = if tolerated then none else some fingerprint_mismatch
pin_reason tolerated probe_error = some probe_failed

-- the answer for the pin of the profile
abbrev pub pin_answer : ClientConfig → RungWorld → TlsAnswer
pin_answer cfg w =
    if str_eq cfg.spki_sha256 ""
    then w.verify_tls_fingerprint cfg.cert_fingerprint_sha256
    else w.verify_tls_spki cfg.spki_sha256

-- The reason against the rung, `none` where the check passes.
unfoldable pub check_pin : ClientConfig → Bool → RungWorld → ConnectionStrategy → Option Reason
check_pin cfg allow_tls_intercept w s =
    if str_eq s.pin_mode "ca"
    then ca_reason w.verify_tls_ca
    else pin_reason (str_eq s.pin_mode "tolerate" || allow_tls_intercept) (pin_answer cfg w)

abbrev pub is_direct_wss : ConnectionStrategy → Bool
is_direct_wss s = str_eq s.scheme "wss" && str_eq s.proxy ""

-- the pin check of a rung that is dialled directly over TLS
unfoldable pub pin_gate : ClientConfig → Bool → RungWorld → ConnectionStrategy → Option Reason
unfolding check_pin
pin_gate cfg allow_tls_intercept w s =
    if is_direct_wss s && not (str_eq s.pin_mode "none")
    then check_pin cfg allow_tls_intercept w s
    else none

-- `hs is not None and (baseline is None or hs > baseline)`
abbrev pub is_newer : Option ℕ → Option ℕ → Bool
is_newer baseline none = false
is_newer none (some hs) = true
is_newer (some b) (some hs) = ltb b hs

-- The rounds until the deadline.
unfoldable pub await_handshake : Option ℕ → List Poll → Bool
await_handshake baseline [] = false
await_handshake baseline (p ∷ ps) =
    let later = await_handshake baseline ps in
    if p.cancelled || p.exited then false else if is_newer baseline p.handshake then true else later

unfoldable pub await_ping : (ℕ → Ping) → ℕ → Bool
await_ping pings zero = false
await_ping pings (suc n) =
    let later = await_ping pings n in
    if (pings n).cancelled then false else if (pings n).answered then true else later

abbrev pub ping_attempts : ℕ
ping_attempts = 4

abbrev spawned : List String → Tunnel → Tunnel
spawned command t =
    let p : Process = record { pid = t.next_pid; command = command } in
    record t { proc = some p; processes = p ∷ t.processes; next_pid = t.next_pid + 1 }

-- What starting wstunnel comes to.
pub data Start : Type 0 where
  running : Start
  rung_failed : Start
  binary_blocked : Start

unfoldable pub start_wstunnel :
    ClientConfig → RungWorld → ConnectionStrategy → Tunnel → Start × Tunnel
unfolding ensure_wstunnel is_blocked_binary_error
start_wstunnel cfg w s t =
    let (found, t1) = ensure_wstunnel w.disk t in
    elim found [
      | err e ↦ (rung_failed, t1)
      | ok bin ↦ elim w.spawn [
        | started ↦ (running, spawned (strategy_to_command s bin (forward_spec cfg)) t1)
        | os_error e ↦ (if is_blocked_binary_error e then binary_blocked else rung_failed, t1)
        | other_error ↦ (rung_failed, t1)
      ]
    ]

-- `terminate`, or `kill` where that takes too long
unfoldable pub stop_wstunnel : Tunnel → Tunnel
stop_wstunnel t = elim t.proc [
  | none ↦ t
  | some p ↦ record t {
    proc = none;
    processes = filter (λ (q : Process). not (q.pid == p.pid)) t.processes;
  }
]

-- The reason against a rung whose process runs, `none` where it carries traffic.
unfoldable pub verify_rung : ClientConfig → RungWorld → Option Reason
unfolding await_handshake await_ping
verify_rung cfg w =
    if await_handshake w.baseline w.polls
    then (if cfg.require_ping && not (await_ping w.pings ping_attempts)
        then some (if w.cancelled_after_pings then cancelled_in_rung else no_traffic)
        else none)
    else some (
        if w.cancelled_after_wait
        then cancelled_in_rung
        else if w.exited_after_wait
        then no_handshake_exited
        else no_handshake)

pub data RungOutcome : Type 0 where
  carried : RungOutcome
  failed : Reason → RungOutcome
  aborted : Failure → RungOutcome

abbrev outcome_of : Option Reason → RungOutcome
outcome_of none = carried
outcome_of (some reason) = failed reason

abbrev blocked_failure : Result Failure String × Tunnel → RungOutcome × Tunnel
blocked_failure (ok bin, t) = (aborted (transport_blocked bin), t)
blocked_failure (err e, t) = (aborted e, t)

-- what the start of the process comes to
unfoldable pub after_start : ClientConfig → RungWorld → Start × Tunnel → RungOutcome × Tunnel
unfolding verify_rung
after_start cfg w (rung_failed, t) = (failed not_started, t)
after_start cfg w (binary_blocked, t) = blocked_failure (ensure_wstunnel w.disk_after t)
after_start cfg w (running, t) = (outcome_of (verify_rung cfg w), t)

-- from the check of the cancellation that stands before the process is started
unfoldable pub spawn_and_verify :
    ClientConfig → RungWorld → ConnectionStrategy → Tunnel → RungOutcome × Tunnel
unfolding start_wstunnel after_start
spawn_and_verify cfg w s t =
    if w.cancelled_at_spawn
    then (aborted cancelled, t)
    else after_start cfg w (start_wstunnel cfg w s t)

unfoldable pub try_strategy :
    ClientConfig → RungWorld → ConnectionStrategy → Tunnel → RungOutcome × Tunnel
unfolding pin_gate spawn_and_verify
try_strategy cfg w s t = elim (pin_gate cfg t.allow_tls_intercept w s) [
  | some reason ↦ (failed reason, t)
  | none ↦ spawn_and_verify cfg w s t
]
