-- ===== src/Client/Tunnel/Rung/Laws.antt =====
-- What one rung does to the process and to the rest of the tunnel (`_try_strategy`, `_stop_wstunnel`
-- of client/outwarp/tunnel.py).
use out_warp.Prelude.{
  ◌≡◌, refl, String, Option, none, some, List, [], ◌∷◌, arith, filter, if◌then◌else◌, Bool-cases,
  Result-cases, inl, inr,
}
use out_warp.Client.Fallback.{ConnectionStrategy, strategy_to_command}
use out_warp.Client.Tunnel.Transport.{Disk}
use out_warp.Client.Tunnel.State.{ClientConfig, Process, Tunnel, RungWorld}
use out_warp.Client.Tunnel.Rung.{
  ensure_wstunnel, start_wstunnel, stop_wstunnel, spawn_and_verify, try_strategy, after_start,
  Start, rung_failed, binary_blocked, verify_rung, pin_gate, RungOutcome, carried, running,
  forward_spec,
}

abbrev pub own : Option Process → List Process
own none = []
own (some p) = p ∷ []

-- No process but the tunnel's own runs, and no interface that the tunnel does not know of is there.
pub record IsTidy (t : Tunnel) : Type 0 where
  pub tracked : t.processes ≡ own t.proc
  pub known : (if t.wg_installed then none else t.interface) ≡ none

pub record HasNoProcess (t : Tunnel) : Type 0 where
  pub no_proc : t.proc ≡ none
  pub none_runs : t.processes ≡ []

-- What the tries of a rung leave alone.
pub record SameLink (t u : Tunnel) : Type 0 where
  pub wg_installed : u.wg_installed ≡ t.wg_installed
  pub interface : u.interface ≡ t.interface
  pub allow_tls_intercept : u.allow_tls_intercept ≡ t.allow_tls_intercept

ensure_wstunnel-SameLink :
    (d : Disk) (t : Tunnel)
    → SameLink t (ensure_wstunnel d t).1
      × ((ensure_wstunnel d t).1.processes ≡ t.processes)
      × ((ensure_wstunnel d t).1.proc ≡ t.proc)
unfolding ensure_wstunnel
ensure_wstunnel-SameLink d t = ground arith

pub stop_wstunnel-no_process :
    (t : Tunnel) → t.processes ≡ own t.proc → HasNoProcess (stop_wstunnel t)
unfolding stop_wstunnel filter
stop_wstunnel-no_process t h = ground (arith, h)

pub stop_wstunnel-HasNoProcess : (t : Tunnel) → IsTidy t → HasNoProcess (stop_wstunnel t)
stop_wstunnel-HasNoProcess t h = stop_wstunnel-no_process t h.tracked

pub stop_wstunnel-SameLink : (t : Tunnel) → SameLink t (stop_wstunnel t)
unfolding stop_wstunnel
stop_wstunnel-SameLink t = ground arith

-- A rung that was tried has at most its own process left.
pub record IsTried (t u : Tunnel) : Type 0 where
  pub wg_installed : u.wg_installed ≡ t.wg_installed
  pub interface : u.interface ≡ t.interface
  pub allow_tls_intercept : u.allow_tls_intercept ≡ t.allow_tls_intercept
  pub tracked : u.processes ≡ own u.proc

after_start-IsTried :
    (cfg : ClientConfig) (w : RungWorld) (t : Tunnel) (r : Start × Tunnel)
    → IsTried t r.1
    → IsTried t (after_start cfg w r).1
unfolding after_start
after_start-IsTried cfg w t (rung_failed, u) h = h
after_start-IsTried cfg w t (binary_blocked, u) h =
    ground (arith, ensure_wstunnel-SameLink w.disk_after u)
after_start-IsTried cfg w t (running, u) h = h

record HasStarted (cfg : ClientConfig) (w : RungWorld) (r : Start × Tunnel)
    (outcome : RungOutcome × Tunnel) : Type 0 where
  verified : verify_rung cfg w ≡ none
  started : r.0 ≡ running
  same : outcome.1 ≡ r.1

after_start-HasStarted :
    (cfg : ClientConfig) (w : RungWorld) (r : Start × Tunnel)
    → (after_start cfg w r).0 ≡ carried
    → HasStarted cfg w r (after_start cfg w r)
unfolding after_start
after_start-HasStarted cfg w (rung_failed, u) h = absurd (ground (arith, h))
after_start-HasStarted cfg w (binary_blocked, u) h = absurd (ground (arith, h))
after_start-HasStarted cfg w (running, u) h = ground (arith, h)

module _ (cfg : ClientConfig) (w : RungWorld) (s : ConnectionStrategy) (t : Tunnel) where
  start_wstunnel-IsTried : HasNoProcess t → IsTried t (start_wstunnel cfg w s t).1
  unfolding start_wstunnel ensure_wstunnel
  start_wstunnel-IsTried h = ground (arith, h.none_runs, h.no_proc)

  spawn_and_verify-IsTried : HasNoProcess t → IsTried t (spawn_and_verify cfg w s t).1
  unfolding spawn_and_verify
  spawn_and_verify-IsTried h = elim (Bool-cases w.cancelled_at_spawn) [
    | inl c ↦ rw c (ground (arith, h.none_runs, h.no_proc))
    | inr c ↦
        rw c (after_start-IsTried cfg w t (start_wstunnel cfg w s t) (start_wstunnel-IsTried h))
  ]

  pub try_strategy-IsTried : HasNoProcess t → IsTried t (try_strategy cfg w s t).1
  unfolding try_strategy
  try_strategy-IsTried h = ground (arith, spawn_and_verify-IsTried h)

  -- The process of a rung that carries.
  pub record IsCarrying (u : Tunnel) : Type 0 where
    pub pin_holds : pin_gate cfg t.allow_tls_intercept w s ≡ none
    pub verified : verify_rung cfg w ≡ none
    pub bin : String
    pub process : Process
    pub runs : u.proc ≡ some process
    pub command : process.command ≡ strategy_to_command s bin (forward_spec cfg)

  started_process :
      (start_wstunnel cfg w s t).0 ≡ running
      → (bin : String) × (p : Process) × ((start_wstunnel cfg w s t).1.proc ≡ some p)
        × (p.command ≡ strategy_to_command s bin (forward_spec cfg))
  unfolding start_wstunnel
  started_process h = elim (Result-cases (ensure_wstunnel w.disk t).0) [
    | inl (e, absent) ↦ absurd (ground (arith, h, absent))
    | inr (bin, found) ↦ (
      bin,
      record {
        pid = (ensure_wstunnel w.disk t).1.next_pid;
        command = strategy_to_command s bin (forward_spec cfg);
      },
      ground (arith, h, found),
      refl,
    )
  ]

  carried_start :
      (spawn_and_verify cfg w s t).0 ≡ carried
      → HasStarted cfg w (start_wstunnel cfg w s t) (spawn_and_verify cfg w s t)
  unfolding spawn_and_verify
  carried_start h = elim (Bool-cases w.cancelled_at_spawn) [
    | inl c ↦ absurd (let e = (rw c at h) in cc)
    | inr c ↦ simp c (after_start-HasStarted cfg w (start_wstunnel cfg w s t) (simp c at h))
  ]

  pin_passed :
      (try_strategy cfg w s t).0 ≡ carried
      → (pin_gate cfg t.allow_tls_intercept w s ≡ none)
        × ((try_strategy cfg w s t) ≡ spawn_and_verify cfg w s t)
  unfolding try_strategy
  pin_passed h = ground (arith, h)

  pub try_strategy-IsCarrying :
      (try_strategy cfg w s t).0 ≡ carried → IsCarrying (try_strategy cfg w s t).1
  try_strategy-IsCarrying h =
      let (pin, went) = pin_passed h in
      let start = carried_start (rw (← went) h) in
      let (bin, p, runs, command) = started_process start.started in
      record {
        pin_holds = pin;
        verified = start.verified;
        bin = bin;
        process = p;
        runs = rw (went, start.same) runs;
        command = command;
      }
