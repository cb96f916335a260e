-- ===== src/Client/Manager/Defs.antt =====
-- The worker of `TunnelManager` of client/outwarp/tunnel.py, as rounds over what it meets, and `stop`.
use out_warp.Prelude.{
  ℕ, zero, suc, ◌+◌, String, Bool, true, false, not, ◌&&◌, ◌||◌, Option, none, some, List, [], ◌∷◌,
  Result, ok, err, leb, ◌==◌, str_eq, if◌then◌else◌,
}
use out_warp.Client.Fallback.{ConnectionStrategy}
use out_warp.Client.KillSwitch.{
  TunnelState, disconnected, connecting, connected, reconnecting, failed,
}
use out_warp.Client.Sticky
use out_warp.Client.Sticky.{StickyStore}
use out_warp.Client.Tunnel.State.{
  Tunnel, Failure, transport_removed, transport_not_found, transport_blocked, Outcome, returned,
  raised, World,
}
use out_warp.Client.Tunnel.Transport.{Disk}
use out_warp.Client.Tunnel.Rung.{ensure_wstunnel}
use out_warp.Client.Tunnel.Connect.{connect, disconnect, is_active}
use out_warp.Client.Manager.State.{
  Setting, Manager, set_state, set_phase, set_error, set_attempt, signature_of, is_expired, expired,
  connect_failed, closed_unexpectedly,
}

-- A round of the watch over a tunnel that is up. `stable` says that the stability window is over.
pub record Watch : Type 0 where
  pub stop_before : Bool
  pub exited : Bool
  pub interface_up : Bool
  pub stable : Bool
  pub stop_in_wait : Bool

-- What is met from one attempt to the next. The end of `watches` is a round that finds the tunnel
-- down; `uninstalls` is for the cleanup after that.
pub record Round : Type 0 where
  pub stop_before : Bool
  pub world : World
  pub stop_at_failure : Bool
  pub watches : List Watch
  pub stop_after_watch : Bool
  pub uninstalls : Bool
  pub stop_in_backoff : Bool

pub data WatchEnd : Type 0 where
  stopped : WatchEnd
  down : WatchEnd

-- The end of the watch, with the count of failed attempts and the manager.
unfoldable pub watch_over : List Watch → Bool → ℕ → Manager → WatchEnd × ℕ × Manager
watch_over [] stability_reset attempt m = (down, attempt, m)
watch_over (w ∷ ws) stability_reset attempt m =
    let resets = not stability_reset && w.stable in
    let later =
      watch_over ws (stability_reset || w.stable) (if resets then 0 else attempt)
        (if resets then set_attempt 0 m else m) in
    if w.stop_before
    then (stopped, attempt, m)
    else if not (is_active w.exited w.interface_up m.tunnel)
    then (down, attempt, m)
    else if w.stop_in_wait
    then (stopped, if resets then 0 else attempt, if resets then set_attempt 0 m else m)
    else later

-- What a round comes to: the worker returns, or goes on with a count of failed attempts.
pub data Next : Type 0 where
  halt : Manager → Next
  again : ℕ → Manager → Next

-- the count of a failure and the wait before the next attempt
unfoldable pub back_off : Setting → Round → ℕ → Manager → Next
unfolding set_state
back_off c r attempt m =
    let m1 = set_attempt attempt m in
    if leb c.max_attempts attempt
    then halt (set_state c failed m1)
    else if r.stop_in_backoff
    then halt m1
    else again attempt m1

abbrev pub is_transport_unavailable : Failure → Bool
is_transport_unavailable (transport_removed _) = true
is_transport_unavailable (transport_not_found _) = true
is_transport_unavailable (transport_blocked _) = true
is_transport_unavailable _ = false

unfoldable pub after_failure : Setting → Round → ℕ → Failure → Manager → Next
unfolding back_off
after_failure c r attempt e m =
    if is_transport_unavailable e
    then halt (set_state c failed (set_error (some (connect_failed e)) m))
    else if r.stop_at_failure
    then halt m
    else back_off c r (attempt + 1) (set_error (some (connect_failed e)) m)

-- the cleanup after a tunnel that died
unfoldable pub clean_up : Setting → Round → Manager → Manager
clean_up c r m =
    let m1 = set_state c reconnecting (set_error (some closed_unexpectedly) m) in
    record m1 { tunnel = disconnect r.uninstalls m1.tunnel }

unfoldable pub after_watch : Setting → Round → WatchEnd × ℕ × Manager → Next
unfolding clean_up back_off
after_watch c r (stopped, attempt, m) = halt m
after_watch c r (down, attempt, m) =
    if r.stop_after_watch
    then halt m
    else if m.auto_reconnect
    then back_off c r (attempt + 1) (clean_up c r m)
    else halt (set_state c failed (clean_up c r m))

abbrev active_strategy_id : Option ConnectionStrategy → String
active_strategy_id none = ""
active_strategy_id (some s) = s.id

-- the rung that won is remembered, and preferred from now on
unfoldable pub remember_winner : String → Manager → Manager
remember_winner signature m =
    let won = active_strategy_id m.tunnel.active_strategy in
    if str_eq won "" then m else record m {
      sticky = Sticky.set signature won m.sticky;
      tunnel = record m.tunnel { preferred_strategy_id = won };
    }

unfoldable pub after_success : Setting → String → Round → ℕ → Manager → Next
unfolding after_watch remember_winner
after_success c signature r attempt m = after_watch c r (
    watch_over r.watches false attempt
      (set_state c connected (set_phase "done" (set_error none (remember_winner signature m)))))

abbrev pub after_connect : Setting → String → Round → ℕ → Manager → Outcome × Tunnel → Next
after_connect c signature r attempt m (raised e, t) =
    after_failure c r attempt e (record m { tunnel = t })
after_connect c signature r attempt m (returned, t) =
    after_success c signature r attempt (record m { tunnel = t })

abbrev pub attempt_state : ℕ → TunnelState
attempt_state attempt = if attempt == 0 then connecting else reconnecting

-- one pass of the loop
unfoldable pub one_round : Setting → String → Round → ℕ → Manager → Next
unfolding after_failure after_success
one_round c signature r attempt m =
    let m1 = set_state c (attempt_state attempt) (set_phase "" m) in
    if r.stop_before
    then halt m
    else after_connect c signature r attempt m1 (connect c.title c.config r.world m1.tunnel)

-- The loop of the worker from round `i` on; `none` where it is still going when the fuel is used up.
unfoldable pub run_loop : Setting → String → (ℕ → Round) → ℕ → ℕ → ℕ → Manager → Option Manager
unfolding one_round
run_loop c signature rounds zero i attempt m = none
run_loop c signature rounds (suc fuel) i attempt m =
    elim (one_round c signature (rounds i) attempt m) [
      | halt m1 ↦ some m1
      | again attempt1 m1 ↦ run_loop c signature rounds fuel (suc i) attempt1 m1
    ]

-- the seed of the ladder
abbrev pub seeded : Manager → String × StickyStore → Manager
seeded m (id, sticky) = record m {
  sticky = sticky;
  tunnel = record m.tunnel { preferred_strategy_id = id };
}

-- from the check of the transport
unfoldable pub run_with :
    Setting → (ℕ → Round) → ℕ → Manager → Result Failure String × Tunnel → Option Manager
unfolding run_loop signature_of
run_with c rounds fuel m (err e, t) =
    some (set_state c failed (set_error (some (connect_failed e)) (record m { tunnel = t })))
run_with c rounds fuel m (ok _, t) =
    let m1 = record m { tunnel = t } in
    run_loop c (signature_of c) rounds fuel 0 0 (seeded m1 (Sticky.get (signature_of c) m1.sticky))

-- `_run`, for at most `fuel` rounds
unfoldable pub run : Setting → Disk → (ℕ → Round) → ℕ → Manager → Option Manager
unfolding run_with is_expired
run c disk rounds fuel m0 =
    let m = set_attempt 0 m0 in
    if is_expired c.expires_at c.today
    then some (set_state c failed (set_error (some (expired c.expires_at)) m))
    else run_with c rounds fuel m (ensure_wstunnel disk m.tunnel)

-- `stop`, once the worker has returned
unfoldable pub stop : Setting → Bool → Manager → Manager
unfolding set_state
stop c uninstalls m = set_state c disconnected (
    set_phase ""
      (set_attempt 0 (set_error none (record m { tunnel = disconnect uninstalls m.tunnel }))))
