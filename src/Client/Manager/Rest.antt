-- ===== src/Client/Manager/Rest.antt =====
-- What a run leaves of its connections, and what `stop` takes down (client/outwarp/tunnel.py).
use mathlib.Core.Path.{subst}
use out_warp.Prelude.{
  ℕ, ◌+◌, ◌≡◌, refl, sym, ap, ◌∙◌, Bool, true, false, not, ◌&&◌, ◌||◌, none, some, List, [], ◌∷◌,
  String, arith, leb, if◌then◌else◌, if_cases,
}
use out_warp.Client.KillSwitch.{TunnelState, connected, reconnecting, failed}
use out_warp.Client.Tunnel.State.{Tunnel, Failure, Outcome, returned, raised}
use out_warp.Client.Tunnel.Rung.Laws.{IsTidy, own}
use out_warp.Client.Tunnel.Connect.{disconnect}
use out_warp.Client.Tunnel.Connect.Rest.{
  IsAtRest, EndsWell, connect-EndsWell, raised-IsAtRest, returned-IsTidy, disconnect-IsAtRest,
}
use out_warp.Client.Manager.{
  Setting, Manager, Watch, Round, WatchEnd, stopped, down, Next, halt, again, watch_over, back_off,
  after_failure, after_watch, after_success, after_connect, one_round, set_state,
  reconcile_kill_switch, set_phase, set_error, set_attempt, attempt_state, is_transport_unavailable,
  clean_up, remember_winner, connect_failed, closed_unexpectedly,
}

-- The same process, interface and rung.
pub record SameLink (t u : Tunnel) : Type 0 where
  pub proc : u.proc ≡ t.proc
  pub processes : u.processes ≡ t.processes
  pub active_strategy : u.active_strategy ≡ t.active_strategy
  pub wg_installed : u.wg_installed ≡ t.wg_installed
  pub interface : u.interface ≡ t.interface

SameLink-IsTidy : (t u : Tunnel) → SameLink t u → IsTidy t → IsTidy u
SameLink-IsTidy t u e h = record {
  tracked = e.processes ∙ h.tracked ∙ ap own (sym e.proc);
  known = rw (e.wg_installed, e.interface) h.known;
}

SameLink-IsAtRest : (t u : Tunnel) → SameLink t u → IsAtRest t → IsAtRest u
SameLink-IsAtRest t u e h = record {
  no_proc = e.proc ∙ h.no_proc;
  none_runs = e.processes ∙ h.none_runs;
  no_strategy = e.active_strategy ∙ h.no_strategy;
  not_installed = e.wg_installed ∙ h.not_installed;
  no_interface = e.interface ∙ h.no_interface;
}

pub IsAtRest-IsTidy : (t : Tunnel) → IsAtRest t → IsTidy t
IsAtRest-IsTidy t h = record {
  tracked = rw (h.none_runs, h.no_proc) refl;
  known = ground (arith, h.no_interface);
}

set_state-SameLink :
    (c : Setting) (s : TunnelState) (m : Manager) → SameLink m.tunnel (set_state c s m).tunnel
unfolding set_state reconcile_kill_switch
set_state-SameLink c s m = ground arith

watch_over-SameLink :
    (ws : List Watch) (reset : Bool) (n : ℕ) (m : Manager)
    → SameLink m.tunnel (watch_over ws reset n m).2.tunnel
unfolding watch_over
watch_over-SameLink [] reset n m = record {
  proc = refl;
  processes = refl;
  active_strategy = refl;
  wg_installed = refl;
  interface = refl;
}
watch_over-SameLink (w ∷ ws) reset n m = ground (
  arith,
  watch_over-SameLink ws (reset || w.stable) (if not reset && w.stable then 0 else n)
      (if not reset && w.stable then set_attempt 0 m else m),
)

won-SameLink :
    (signature : String) (m : Manager) → SameLink m.tunnel (remember_winner signature m).tunnel
unfolding remember_winner
won-SameLink signature m = ground arith

-- The platform uninstalls whatever it is asked to.
pub record Uninstalls (r : Round) : Type 0 where
  pub at_connect : r.world.uninstalls ≡ true
  pub at_cleanup : r.uninstalls ≡ true

-- A worker that returns leaves a tidy tunnel, and one that goes on a tunnel at rest.
pub EndsTidy : Next → Type 0
EndsTidy (halt m) = IsTidy m.tunnel
EndsTidy (again n m) = IsAtRest m.tunnel

halt-EndsTidy : (m : Manager) → IsTidy m.tunnel → EndsTidy (halt m)
unfolding EndsTidy
halt-EndsTidy m h = h

again-EndsTidy : (n : ℕ) (m : Manager) → IsAtRest m.tunnel → EndsTidy (again n m)
unfolding EndsTidy
again-EndsTidy n m h = h

pub set_state-IsTidy :
    (c : Setting) (s : TunnelState) (m : Manager)
    → IsTidy m.tunnel
    → IsTidy (set_state c s m).tunnel
set_state-IsTidy c s m h = SameLink-IsTidy _ _ (set_state-SameLink c s m) h

pub set_state-IsAtRest :
    (c : Setting) (s : TunnelState) (m : Manager)
    → IsAtRest m.tunnel
    → IsAtRest (set_state c s m).tunnel
set_state-IsAtRest c s m h = SameLink-IsAtRest _ _ (set_state-SameLink c s m) h

pub fail-EndsTidy :
    (c : Setting) (m : Manager) → IsAtRest m.tunnel → EndsTidy (halt (set_state c failed m))
fail-EndsTidy c m h = halt-EndsTidy _ (set_state-IsTidy c failed m (IsAtRest-IsTidy m.tunnel h))

pub EndsTidy-halt : (m : Manager) → EndsTidy (halt m) → IsTidy m.tunnel
unfolding EndsTidy
EndsTidy-halt m h = h

pub EndsTidy-again : (n : ℕ) (m : Manager) → EndsTidy (again n m) → IsAtRest m.tunnel
unfolding EndsTidy
EndsTidy-again n m h = h

module _ (c : Setting) (r : Round) (u : Uninstalls r) where
  back_off-EndsTidy : (n : ℕ) (m : Manager) → IsAtRest m.tunnel → EndsTidy (back_off c r n m)
  unfolding back_off
  back_off-EndsTidy n m h =
      if_cases EndsTidy (leb c.max_attempts n) _ _ (λ _. fail-EndsTidy c (set_attempt n m) h)
        (λ _.
          if_cases EndsTidy r.stop_in_backoff _ _
            (λ _. halt-EndsTidy (set_attempt n m) (IsAtRest-IsTidy m.tunnel h))
            (λ _. again-EndsTidy n (set_attempt n m) h))

  after_failure-EndsTidy :
      (n : ℕ) (e : Failure) (m : Manager) → IsAtRest m.tunnel → EndsTidy (after_failure c r n e m)
  unfolding after_failure
  after_failure-EndsTidy n e m h =
      if_cases EndsTidy (is_transport_unavailable e) _ _
        (λ _. fail-EndsTidy c (set_error (some (connect_failed e)) m) h)
        (λ _.
          if_cases EndsTidy r.stop_at_failure _ _
            (λ _. halt-EndsTidy m (IsAtRest-IsTidy m.tunnel h))
            (λ _. back_off-EndsTidy (n + 1) (set_error (some (connect_failed e)) m) h))

  clean_up-IsAtRest : (m : Manager) → IsTidy m.tunnel → IsAtRest (clean_up c r m).tunnel
  unfolding clean_up
  clean_up-IsAtRest m h =
      let flipped : Manager = set_state c reconnecting (set_error (some closed_unexpectedly) m) in
      subst (λ (b : Bool). IsAtRest (disconnect b flipped.tunnel)) (sym u.at_cleanup)
        (disconnect-IsAtRest flipped.tunnel
          (set_state-IsTidy c reconnecting (set_error (some closed_unexpectedly) m) h))

  after_watch-EndsTidy :
      (w : WatchEnd × ℕ × Manager) → IsTidy w.2.tunnel → EndsTidy (after_watch c r w)
  unfolding after_watch
  after_watch-EndsTidy (stopped, n, m) h = halt-EndsTidy m h
  after_watch-EndsTidy (down, n, m) h =
      if_cases EndsTidy r.stop_after_watch _ _ (λ _. halt-EndsTidy m h)
        (λ _.
          if_cases EndsTidy m.auto_reconnect _ _
            (λ _. back_off-EndsTidy (n + 1) (clean_up c r m) (clean_up-IsAtRest m h))
            (λ _. fail-EndsTidy c (clean_up c r m) (clean_up-IsAtRest m h)))

  after_success-EndsTidy :
      (signature : String) (n : ℕ) (m : Manager)
      → IsTidy m.tunnel
      → EndsTidy (after_success c signature r n m)
  unfolding after_success
  after_success-EndsTidy signature n m h = after_watch-EndsTidy _ (
      SameLink-IsTidy _ _ (watch_over-SameLink r.watches false n up)
        (set_state-IsTidy c connected done (SameLink-IsTidy _ _ kept h)))
    where
      done : Manager
      done = set_phase "done" (set_error none (remember_winner signature m))

      up : Manager
      up = set_state c connected done

      won : SameLink m.tunnel (remember_winner signature m).tunnel
      won = won-SameLink signature m

      kept : SameLink m.tunnel done.tunnel
      kept = record {
        proc = won.proc;
        processes = won.processes;
        active_strategy = won.active_strategy;
        wg_installed = won.wg_installed;
        interface = won.interface;
      }

  after_connect-EndsTidy :
      (signature : String) (n : ℕ) (m : Manager) (o : Outcome × Tunnel)
      → EndsWell o
      → EndsTidy (after_connect c signature r n m o)
  after_connect-EndsTidy signature n m (raised e, t) h =
      after_failure-EndsTidy n e (record m { tunnel = t }) (raised-IsAtRest e t h)
  after_connect-EndsTidy signature n m (returned, t) h =
      after_success-EndsTidy signature n (record m { tunnel = t }) (returned-IsTidy t h)

  pub one_round-EndsTidy :
      (signature : String) (n : ℕ) (m : Manager)
      → IsAtRest m.tunnel
      → EndsTidy (one_round c signature r n m)
  unfolding one_round
  one_round-EndsTidy signature n m h =
      if_cases EndsTidy r.stop_before _ _ (λ _. halt-EndsTidy m (IsAtRest-IsTidy m.tunnel h))
        (λ _. after_connect-EndsTidy signature n begun _ (
          connect-EndsWell c.title c.config r.world begun.tunnel u.at_connect (
            set_state-IsAtRest c (attempt_state n) (set_phase "" m) (record {
              no_proc = h.no_proc;
              none_runs = h.none_runs;
              no_strategy = h.no_strategy;
              not_installed = h.not_installed;
              no_interface = h.no_interface;
            }))))
    where
      begun : Manager
      begun = set_state c (attempt_state n) (set_phase "" m)
