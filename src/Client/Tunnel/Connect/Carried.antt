-- ===== src/Client/Tunnel/Connect/Carried.antt =====
-- What a connection that succeeds has brought up (`connect` of client/outwarp/tunnel.py).
use mathlib.Core.Path.{subst}
use mathlib.Core.List.{◌++◌ as append}
use out_warp.Prelude.{
  ℕ, suc, ◌+◌, ◌≡◌, refl, ap, ◌∙◌, String, Bool, some, List, [], ◌∷◌, arith, get_elem?, if_cases,
}
use out_warp.Client.Fallback.{ConnectionStrategy, strategy_to_command}
use out_warp.Client.Tunnel.State.{
  ClientConfig, Process, Tunnel, Reason, Failure, cancelled, all_failed, Outcome, returned, raised,
  RungWorld,
}
use out_warp.Client.Tunnel.Rung.{stop_wstunnel, carried, try_strategy, forward_spec}
use out_warp.Client.Tunnel.Rung.Laws.{
  HasNoProcess, SameLink, IsTried, own, stop_wstunnel-no_process, stop_wstunnel-SameLink,
  try_strategy-IsTried, try_strategy-IsCarrying,
}
use out_warp.Client.Tunnel.Connect.{walk}
use out_warp.Client.Tunnel.Connect.Rest.{settle_cases}
use out_warp.Client.Tunnel.Rung.Evidence.{
  IsTrusted, HasTraffic, pin_gate-IsTrusted, verify_rung-HasTraffic,
}

-- The rung that carried: its place, its process and why it was taken.
pub record IsWalked (cfg : ClientConfig) (world : ℕ → RungWorld) (idx : ℕ)
    (rungs : List ConnectionStrategy) (t u : Tunnel) : Type 0 where
  pub index : ℕ
  pub strategy : ConnectionStrategy
  pub found : get_elem? rungs index ≡ some strategy
  pub active : u.active_strategy ≡ some strategy
  pub trusted : IsTrusted cfg t.allow_tls_intercept (world (idx + index)) strategy
  pub traffic : HasTraffic cfg (world (idx + index))
  pub bin : String
  pub process : Process
  pub runs : u.proc ≡ some process
  pub alone : u.processes ≡ process ∷ []
  pub command : process.command ≡ strategy_to_command strategy bin (forward_spec cfg)
  pub wg_installed : u.wg_installed ≡ t.wg_installed
  pub interface : u.interface ≡ t.interface

carried-IsWalked :
    (cfg : ClientConfig) (world : ℕ → RungWorld) (idx : ℕ) (s : ConnectionStrategy)
    (rungs : List ConnectionStrategy) (t : Tunnel)
    → HasNoProcess t
    → (try_strategy cfg (world idx) s t).0 ≡ carried
    → IsWalked cfg world idx
        (s ∷ rungs)
        t
        (record (try_strategy cfg (world idx) s t).1 { active_strategy = some s; phase = "ws" })
carried-IsWalked cfg world idx s rungs t h ok_now =
    let c = try_strategy-IsCarrying cfg (world idx) s t ok_now in
    let tried = try_strategy-IsTried cfg (world idx) s t h in
    let here : idx + 0 ≡ idx = omega arith in
    record {
      index = 0;
      strategy = s;
      found = refl;
      active = refl;
      trusted = rw here (pin_gate-IsTrusted cfg t.allow_tls_intercept (world idx) s c.pin_holds);
      traffic = rw here (verify_rung-HasTraffic cfg (world idx) c.verified);
      bin = c.bin;
      process = c.process;
      runs = c.runs;
      alone = tried.tracked ∙ ap own c.runs;
      command = c.command;
      wg_installed = tried.wg_installed;
      interface = tried.interface;
    }

later-IsWalked :
    (cfg : ClientConfig) (world : ℕ → RungWorld) (idx : ℕ) (s : ConnectionStrategy)
    (rungs : List ConnectionStrategy) (t t1 u : Tunnel)
    → t1.allow_tls_intercept ≡ t.allow_tls_intercept
    → t1.wg_installed ≡ t.wg_installed
    → t1.interface ≡ t.interface
    → IsWalked cfg world (suc idx) rungs t1 u
    → IsWalked cfg world idx (s ∷ rungs) t u
later-IsWalked cfg world idx s rungs t t1 u a b c k =
    let there : suc idx + k.index ≡ idx + suc k.index = omega arith in
    record {
      index = suc k.index;
      strategy = k.strategy;
      found = k.found;
      active = k.active;
      trusted =
          subst (λ (x : Bool). IsTrusted cfg x (world (idx + suc k.index)) k.strategy) a
            (subst (λ (n : ℕ). IsTrusted cfg t1.allow_tls_intercept (world n) k.strategy) there
              k.trusted);
      traffic = subst (λ (n : ℕ). HasTraffic cfg (world n)) there k.traffic;
      bin = k.bin;
      process = k.process;
      runs = k.runs;
      alone = k.alone;
      command = k.command;
      wg_installed = k.wg_installed ∙ b;
      interface = k.interface ∙ c;
    }

pub not_returned :
    (f : Failure) (t : Tunnel) {u : Tunnel}
    → ◌≡◌ {A = Outcome × Tunnel} (raised f, t) (returned, u)
    → ⊥
not_returned f t e = let e0 = ap (λ (r : Outcome × Tunnel). r.0) e in cc

pub walk-IsWalked :
    (cfg : ClientConfig) (world : ℕ → RungWorld) (idx : ℕ) (rungs : List ConnectionStrategy)
    (failures : List Reason) (t u : Tunnel)
    → HasNoProcess t
    → walk cfg world idx rungs failures t ≡ (returned, u)
    → IsWalked cfg world idx rungs t u
unfolding walk
walk-IsWalked cfg world idx [] failures t u h e = absurd (not_returned (all_failed failures) t e)
walk-IsWalked cfg world idx (s ∷ rungs) failures t u h returns =
    if_cases P (world idx).cancelled_before _ _ (λ _ e. absurd (not_returned cancelled t e))
      (λ _.
        settle_cases P s _ _ t1
          (λ ok_now e.
            subst (λ (v : Tunnel). IsWalked cfg world idx (s ∷ rungs) t v)
              (ap (λ (r : Outcome × Tunnel). r.1) e)
              (carried-IsWalked cfg world idx s rungs t h ok_now))
          (λ r e.
            later-IsWalked cfg world idx s rungs t (stop_wstunnel t1) u
              (stopped.allow_tls_intercept ∙ tried.allow_tls_intercept)
              (stopped.wg_installed ∙ tried.wg_installed) (stopped.interface ∙ tried.interface)
              (walk-IsWalked cfg world (suc idx) rungs (append failures (r ∷ [])) (stop_wstunnel t1)
                u stops e))
          (λ f e. absurd (not_returned f t1 e)))
      returns
  where
    P : Outcome × Tunnel → Type 0
    P r = r ≡ (returned, u) → IsWalked cfg world idx (s ∷ rungs) t u

    t1 : Tunnel
    t1 = (try_strategy cfg (world idx) s t).1

    tried : IsTried t t1
    tried = try_strategy-IsTried cfg (world idx) s t h

    stopped : SameLink t1 (stop_wstunnel t1)
    stopped = stop_wstunnel-SameLink t1

    stops : HasNoProcess (stop_wstunnel t1)
    stops = stop_wstunnel-no_process t1 tried.tracked
