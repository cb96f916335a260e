-- ===== src/Client/Tunnel/Connect.antt =====
-- `connect` and `disconnect` of client/outwarp/tunnel.py: the walk over the rungs of the ladder.
-- `title` stands for `str.title`. The phases go to the caller; `phase` is the last one.
pub mod Rest
pub mod Carried
pub mod Established
pub mod Examples
use mathlib.Core.List.{◌++◌ as append}
use out_warp.Prelude.{
  ℕ, zero, suc, ◌+◌, String, Bool, true, false, not, ◌&&◌, ◌||◌, Option, none, some, List, [], ◌∷◌,
  map, any, Result, ok, err, str_eq, if◌then◌else◌, filter,
}
use out_warp.Client.DnsCache.{DnsCache}
use out_warp.Client.Fallback.{ConnectionStrategy, build_ladder, reorder_for_sticky}
use out_warp.Client.Routing.{escape_set}
use out_warp.Client.Tunnel.Resolve.{with_addresses}
use out_warp.Client.Tunnel.State.{
  ClientConfig, Tunnel, Reason, Failure, no_key, no_strategy, unreachable, cancelled, not_installed,
  all_failed, Outcome, returned, raised, RungWorld, World,
}
use out_warp.Client.Tunnel.Rung.{
  ensure_wstunnel, is_attemptable, stop_wstunnel, RungOutcome, carried, failed, aborted,
  try_strategy,
}

-- A call to uninstall that fails leaves the interface, and is not repeated.
unfoldable pub uninstall_wg : Bool → Tunnel → Tunnel
uninstall_wg uninstalls t =
    if t.wg_installed
    then record t { wg_installed = false; interface = if uninstalls then none else t.interface }
    else t

unfoldable pub disconnect : Bool → Tunnel → Tunnel
unfolding uninstall_wg stop_wstunnel
disconnect uninstalls t =
    uninstall_wg uninstalls (stop_wstunnel (record t { active_strategy = none }))

unfoldable pub is_active : (exited interface_up : Bool) → Tunnel → Bool
is_active exited interface_up t = elim t.proc [
  | none ↦ false
  | some _ ↦ if exited then false else interface_up
]

-- what the outcome of a rung comes to; `next` tries the later rungs
unfoldable pub settle :
    ConnectionStrategy → (Reason → Outcome × Tunnel) → RungOutcome → Tunnel → Outcome × Tunnel
settle s next carried t = (returned, record t { active_strategy = some s; phase = "ws" })
settle s next (failed reason) t = next reason
settle s next (aborted e) t = (raised e, t)

-- The loop over the rungs: `idx` is the number of this one, `failures` the reasons against those
-- before.
unfoldable pub walk :
    ClientConfig
    → (ℕ → RungWorld)
    → ℕ
    → List ConnectionStrategy
    → List Reason
    → Tunnel
    → Outcome × Tunnel
unfolding settle
walk cfg world idx [] failures t = (raised (all_failed failures), t)
walk cfg world idx (s ∷ rungs) failures t =
    let (outcome, t1) = try_strategy cfg (world idx) s t in
    let next = λ (reason : Reason).
      walk cfg world (suc idx) rungs (append failures (reason ∷ [])) (stop_wstunnel t1) in
    if (world idx).cancelled_before then (raised cancelled, t) else settle s next outcome t1

-- `build_wg_conf` with the addresses of the ladder, and `install_wg_tunnel`
unfoldable pub install_wg : ClientConfig → List ConnectionStrategy → Tunnel → Tunnel
install_wg cfg ladder t = record t {
  wg_installed = true;
  interface = some (
      append (escape_set cfg.bypass_ips cfg.profile.endpoint [])
        (escape_set cfg.bypass_ips cfg.profile.endpoint ladder));
}

-- the body of the `try`
unfoldable pub bring_up :
    ClientConfig
    → World
    → (ladder attemptable : List ConnectionStrategy) → Tunnel
    → Outcome × Tunnel
unfolding walk install_wg
bring_up cfg w ladder attemptable t =
    if w.cancelled_first
    then (raised cancelled, t)
    else if w.installs
    then walk cfg w.rung 0 attemptable [] (install_wg cfg ladder (record t { phase = "wg" }))
    else (raised not_installed, record t { phase = "wg" })

-- `except Exception: self.disconnect(); raise`
abbrev pub or_disconnect : Bool → Outcome × Tunnel → Outcome × Tunnel
or_disconnect uninstalls (returned, t) = (returned, t)
or_disconnect uninstalls (raised e, t) = (raised e, disconnect uninstalls t)

abbrev first_only : List ConnectionStrategy → List ConnectionStrategy
first_only [] = []
first_only (s ∷ _) = s ∷ []

-- the rungs to try, in order
unfoldable pub rungs_to_try :
    (String → String) → ClientConfig → String → String → List ConnectionStrategy
rungs_to_try title cfg system_proxy preferred =
    let ladder = build_ladder title cfg.profile system_proxy in
    reorder_for_sticky (if cfg.fallback_enabled then ladder else first_only ladder) preferred

unfoldable pub detect_hostile : ClientConfig → World → Tunnel → Tunnel
detect_hostile cfg w t =
    if str_eq cfg.profile.hostile_mode "auto"
    then elim w.hostile_probe [
      | none ↦ t
      | some found ↦ record t { last_hostile_detection = some found }
    ]
    else t

-- `[r for r in ladder if r.id in ids]`
unfoldable pub with_ids :
    List ConnectionStrategy → List ConnectionStrategy → List ConnectionStrategy
with_ids attemptable ladder =
    filter (λ r. any (λ (a : ConnectionStrategy). str_eq a.id r.id) attemptable) ladder

-- from the resolution of the addresses
unfoldable pub resolve_and_bring_up :
    ClientConfig
    → World
    → (ladder attemptable : List ConnectionStrategy) → Tunnel
    → Outcome × Tunnel
unfolding bring_up disconnect with_ids
resolve_and_bring_up cfg w ladder attemptable t =
    let (resolved, dns) = with_addresses w.resolver ladder t.dns in
    or_disconnect w.uninstalls
      (bring_up cfg w resolved (with_ids attemptable resolved) (record t { dns = dns }))

abbrev pub is_empty : List ConnectionStrategy → Bool
is_empty [] = true
is_empty (_ ∷ _) = false

-- from the ladder
unfoldable pub climb : ClientConfig → World → List ConnectionStrategy → Tunnel → Outcome × Tunnel
unfolding resolve_and_bring_up detect_hostile
climb cfg w ladder t =
    let attemptable = filter (is_attemptable w.tcp_probe) ladder in
    if is_empty ladder
    then (raised no_strategy, t)
    else if is_empty attemptable
    then (raised (unreachable ladder), detect_hostile cfg w t)
    else resolve_and_bring_up cfg w ladder attemptable (detect_hostile cfg w t)

abbrev pub begin : Tunnel → Tunnel
begin t = record t { active_strategy = none; phase = "resolve" }

unfoldable pub connect : (String → String) → ClientConfig → World → Tunnel → Outcome × Tunnel
unfolding climb rungs_to_try
connect title cfg w t =
    let (found, t1) = ensure_wstunnel w.disk t in
    if str_eq cfg.client_private_key "" then (raised no_key, t) else elim found [
      | err e ↦ (raised e, t1)
      | ok _ ↦
          climb cfg w (rungs_to_try title cfg w.system_proxy t.preferred_strategy_id) (begin t1)
    ]
