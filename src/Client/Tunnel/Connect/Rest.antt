-- ===== src/Client/Tunnel/Connect/Rest.antt =====
-- A connection that fails takes everything down again (`connect`, `disconnect` of
-- client/outwarp/tunnel.py).
use mathlib.Core.List.{◌++◌ as append}
use out_warp.Prelude.{
  ℕ, suc, ◌≡◌, refl, String, Bool, true, false, none, some, List, [], ◌∷◌, arith, str_eq, filter,
  if◌then◌else◌, if_cases, Result-cases, inl, inr,
}
use out_warp.Client.Fallback.{ConnectionStrategy}
use out_warp.Client.Tunnel.Resolve.{with_addresses}
use out_warp.Client.Tunnel.Transport.{Disk}
use out_warp.Client.Tunnel.State.{
  ClientConfig, Tunnel, Reason, Failure, Outcome, returned, raised, RungWorld, World,
}
use out_warp.Client.Tunnel.Rung.{
  ensure_wstunnel, is_attemptable, stop_wstunnel, RungOutcome, carried, failed, aborted,
  try_strategy,
}
use out_warp.Client.Tunnel.Rung.Laws.{
  IsTidy, HasNoProcess, IsTried, stop_wstunnel-HasNoProcess, stop_wstunnel-SameLink,
  try_strategy-IsTried,
}
use out_warp.Client.Tunnel.Connect.{
  connect, disconnect, uninstall_wg, walk, settle, install_wg, bring_up, resolve_and_bring_up,
  climb, is_empty, begin, or_disconnect, detect_hostile, with_ids,
}

-- Nothing of a connection is there.
pub record IsAtRest (t : Tunnel) : Type 0 where
  pub no_proc : t.proc ≡ none
  pub none_runs : t.processes ≡ []
  pub no_strategy : t.active_strategy ≡ none
  pub not_installed : t.wg_installed ≡ false
  pub no_interface : t.interface ≡ none

uninstall_wg-IsAtRest :
    (t : Tunnel)
    → HasNoProcess t
    → t.active_strategy ≡ none
    → (if t.wg_installed then none else t.interface) ≡ none
    → IsAtRest (uninstall_wg true t)
unfolding uninstall_wg
uninstall_wg-IsAtRest t h s k = ground (arith, h.no_proc, h.none_runs)

stopped-no_strategy :
    (t : Tunnel) → t.active_strategy ≡ none → (stop_wstunnel t).active_strategy ≡ none
unfolding stop_wstunnel
stopped-no_strategy t h = ground (arith, h)

-- Disconnecting a tidy tunnel takes everything down.
pub disconnect-IsAtRest : (t : Tunnel) → IsTidy t → IsAtRest (disconnect true t)
unfolding disconnect
disconnect-IsAtRest t h =
    uninstall_wg-IsAtRest (stop_wstunnel t0) (stop_wstunnel-HasNoProcess t0 tidy)
      (stopped-no_strategy t0 refl)
      (rw (stop_wstunnel-SameLink t0).wg_installed
        (rw (stop_wstunnel-SameLink t0).interface h.known))
  where
    t0 : Tunnel
    t0 = record t { active_strategy = none }

    tidy : IsTidy t0
    tidy = record { tracked = h.tracked; known = h.known }

pub settle_cases :
    (P : Outcome × Tunnel → Type 0) (s : ConnectionStrategy) (next : Reason → Outcome × Tunnel)
    (o : RungOutcome) (t : Tunnel)
    → (o ≡ carried → P (returned, record t { active_strategy = some s; phase = "ws" }))
    → ((r : Reason) → P (next r))
    → ((e : Failure) → P (raised e, t))
    → P (settle s next o t)
unfolding settle
settle_cases P s next carried t a b c = a refl
settle_cases P s next (failed r) t a b c = b r
settle_cases P s next (aborted e) t a b c = c e

-- No rung leaves a process that the tunnel does not own.
walk-IsTidy :
    (cfg : ClientConfig) (world : ℕ → RungWorld) (idx : ℕ) (rungs : List ConnectionStrategy)
    (failures : List Reason) (t : Tunnel)
    → HasNoProcess t
    → (if t.wg_installed then none else t.interface) ≡ none
    → IsTidy (walk cfg world idx rungs failures t).1
unfolding walk
walk-IsTidy cfg world idx [] failures t h k = record {
  tracked = rw (h.no_proc, h.none_runs);
  known = k;
}
walk-IsTidy cfg world idx (s ∷ rungs) failures t h k =
    if_cases (λ (r : Outcome × Tunnel). IsTidy r.1) (world idx).cancelled_before _ _
      (λ _. record { tracked = rw (h.no_proc, h.none_runs); known = k })
      (λ _.
        settle_cases (λ (r : Outcome × Tunnel). IsTidy r.1) s _ _ t1
          (λ _. record { tracked = tried.tracked; known = known1 })
          (λ r.
            walk-IsTidy cfg world (suc idx) rungs (append failures (r ∷ [])) (stop_wstunnel t1)
              (stop_wstunnel-HasNoProcess t1 tidy)
              (rw (stop_wstunnel-SameLink t1).wg_installed
                (rw (stop_wstunnel-SameLink t1).interface known1)))
          (λ e. tidy))
  where
    t1 : Tunnel
    t1 = (try_strategy cfg (world idx) s t).1

    tried : IsTried t t1
    tried = try_strategy-IsTried cfg (world idx) s t h

    known1 : (if t1.wg_installed then none else t1.interface) ≡ none
    known1 = rw (tried.wg_installed, tried.interface) k

    tidy : IsTidy t1
    tidy = record { tracked = tried.tracked; known = known1 }

-- The end of a call: a failure leaves nothing, and a success leaves a tidy tunnel.
pub EndsWell : Outcome × Tunnel → Type 0
EndsWell (returned, t) = IsTidy t
EndsWell (raised e, t) = IsAtRest t

raised-EndsWell : (e : Failure) (t : Tunnel) → IsAtRest t → EndsWell (raised e, t)
unfolding EndsWell
raised-EndsWell e t h = h

pub raised-IsAtRest : (e : Failure) (t : Tunnel) → EndsWell (raised e, t) → IsAtRest t
unfolding EndsWell
raised-IsAtRest e t h = h

pub returned-IsTidy : (t : Tunnel) → EndsWell (returned, t) → IsTidy t
unfolding EndsWell
returned-IsTidy t h = h

or_disconnect-EndsWell :
    (uninstalls : Bool) (r : Outcome × Tunnel)
    → uninstalls ≡ true
    → IsTidy r.1
    → EndsWell (or_disconnect uninstalls r)
unfolding EndsWell
or_disconnect-EndsWell uninstalls (returned, t) u h = h
or_disconnect-EndsWell uninstalls (raised e, t) u h = rw u (disconnect-IsAtRest t h)

bring_up-IsTidy :
    (cfg : ClientConfig) (w : World) (ladder attemptable : List ConnectionStrategy) (t : Tunnel)
    → IsAtRest t
    → IsTidy (bring_up cfg w ladder attemptable t).1
unfolding bring_up install_wg
bring_up-IsTidy cfg w ladder attemptable t h =
    if_cases (λ (r : Outcome × Tunnel). IsTidy r.1) w.cancelled_first _ _
      (λ _. record {
        tracked = rw (h.no_proc, h.none_runs);
        known = ground (arith, h.no_interface);
      })
      (λ _.
        if_cases (λ (r : Outcome × Tunnel). IsTidy r.1) w.installs _ _
          (λ _.
            walk-IsTidy cfg w.rung 0 attemptable [] _
              (record { no_proc = h.no_proc; none_runs = h.none_runs }) refl)
          (λ _. record {
            tracked = rw (h.no_proc, h.none_runs);
            known = ground (arith, h.no_interface);
          }))

pub detect_hostile-IsAtRest :
    (cfg : ClientConfig) (w : World) (t : Tunnel) → IsAtRest t → IsAtRest (detect_hostile cfg w t)
unfolding detect_hostile
detect_hostile-IsAtRest cfg w t h = ground (arith, h.no_proc, h.none_runs, h.no_interface)

resolve_and_bring_up-EndsWell :
    (cfg : ClientConfig) (w : World) (ladder attemptable : List ConnectionStrategy) (t : Tunnel)
    → w.uninstalls ≡ true
    → IsAtRest t
    → EndsWell (resolve_and_bring_up cfg w ladder attemptable t)
unfolding resolve_and_bring_up
resolve_and_bring_up-EndsWell cfg w ladder attemptable t u h =
    let resolved = with_addresses w.resolver ladder t.dns in
    or_disconnect-EndsWell w.uninstalls _ u (
      bring_up-IsTidy cfg w resolved.0 (with_ids attemptable resolved.0)
        (record t { dns = resolved.1 })
        (record {
          no_proc = h.no_proc;
          none_runs = h.none_runs;
          no_strategy = h.no_strategy;
          not_installed = h.not_installed;
          no_interface = h.no_interface;
        }))

climb-EndsWell :
    (cfg : ClientConfig) (w : World) (ladder : List ConnectionStrategy) (t : Tunnel)
    → w.uninstalls ≡ true
    → IsAtRest t
    → EndsWell (climb cfg w ladder t)
unfolding climb
climb-EndsWell cfg w ladder t u h =
    if_cases EndsWell (is_empty ladder) _ _ (λ _. raised-EndsWell _ _ h)
      (λ _.
        if_cases EndsWell (is_empty (filter (is_attemptable w.tcp_probe) ladder)) _ _
          (λ _. raised-EndsWell _ _ there)
          (λ _. resolve_and_bring_up-EndsWell cfg w ladder _ _ u there))
  where
    there : IsAtRest (detect_hostile cfg w t)
    there = detect_hostile-IsAtRest cfg w t h

pub found-IsAtRest : (d : Disk) (t : Tunnel) → IsAtRest t → IsAtRest (begin (ensure_wstunnel d t).1)
unfolding ensure_wstunnel
found-IsAtRest d t h = ground (arith, h.no_proc, h.none_runs, h.no_interface)

pub not_found-IsAtRest : (d : Disk) (t : Tunnel) → IsAtRest t → IsAtRest (ensure_wstunnel d t).1
unfolding ensure_wstunnel
not_found-IsAtRest d t h = ground (arith, h.no_proc, h.none_runs, h.no_interface)

pub connect-EndsWell :
    (title : String → String) (cfg : ClientConfig) (w : World) (t : Tunnel)
    → w.uninstalls ≡ true
    → IsAtRest t
    → EndsWell (connect title cfg w t)
unfolding connect
connect-EndsWell title cfg w t u h =
    if_cases EndsWell (str_eq cfg.client_private_key "") _ _ (λ _. raised-EndsWell _ _ h)
      (λ _. elim (Result-cases (ensure_wstunnel w.disk t).0) [
        | inl (e, absent) ↦ simp absent (raised-EndsWell _ _ (not_found-IsAtRest w.disk t h))
        | inr (p, found) ↦ simp found (climb-EndsWell cfg w _ _ u (found-IsAtRest w.disk t h))
      ])
