-- ===== src/Client/Tunnel/Rung/Evidence.antt =====
-- Why a rung that carries is trusted, and what showed its traffic (`_check_pin`, `_await_handshake` and
-- `_await_ping` of client/outwarp/tunnel.py).
use out_warp.Prelude.{
  ℕ, zero, suc, ◌<◌, ◌≡◌, ◌≢◌, ◌⊎◌, refl, Bool, true, false, ◌||◌, Option, none, some, List, [],
  ◌∷◌, arith, str_eq, eq_iff, str-ne, get_elem?, Bool-cases, inl, inr,
}
use out_warp.Client.Fallback.{ConnectionStrategy}
use out_warp.Client.Tunnel.State.{
  ClientConfig, RungWorld, TlsAnswer, accepted, refused, probe_error, Poll, Ping,
}
use out_warp.Client.Tunnel.Rung.{
  pin_gate, check_pin, pin_answer, is_direct_wss, verify_rung, await_handshake, await_ping,
  ping_attempts, is_newer,
}

-- Why a rung may be trusted with the traffic.
pub data IsTrusted (cfg : ClientConfig) (allow_tls_intercept : Bool) (w : RungWorld)
    (s : ConnectionStrategy) : Type 0 where
  not_direct : is_direct_wss s ≡ false → IsTrusted cfg allow_tls_intercept w s
  pin_off : s.pin_mode ≡ "none" → IsTrusted cfg allow_tls_intercept w s
  by_ca : s.pin_mode ≡ "ca" → w.verify_tls_ca ≡ accepted → IsTrusted cfg allow_tls_intercept w s
  by_pin : s.pin_mode ≢ "ca" → pin_answer cfg w ≡ accepted → IsTrusted cfg allow_tls_intercept w s
  tolerated :
      s.pin_mode ≢ "ca"
      → (s.pin_mode ≡ "tolerate") ⊎ (allow_tls_intercept ≡ true)
      → pin_answer cfg w ≡ refused
      → IsTrusted cfg allow_tls_intercept w s

TlsAnswer-cases : (a : TlsAnswer) → (a ≡ accepted) ⊎ ((a ≡ refused) ⊎ (a ≡ probe_error))
TlsAnswer-cases accepted = inl refl
TlsAnswer-cases refused = inr (inl refl)
TlsAnswer-cases probe_error = inr (inr refl)

check_pin-IsTrusted :
    (cfg : ClientConfig) (allow : Bool) (w : RungWorld) (s : ConnectionStrategy)
    → check_pin cfg allow w s ≡ none
    → IsTrusted cfg allow w s
unfolding check_pin
check_pin-IsTrusted cfg allow w s h = elim (Bool-cases (str_eq s.pin_mode "ca")) [
  | inl ca ↦ by_ca ((eq_iff s.pin_mode "ca").0 ca) (ground (arith, h, ca))
  | inr pin ↦ elim (TlsAnswer-cases (pin_answer cfg w)) [
    | inl good ↦ by_pin (str-ne s.pin_mode "ca" pin) good
    | inr (inl bad) ↦
        tolerated (str-ne s.pin_mode "ca" pin)
          (elim (Bool-cases (str_eq s.pin_mode "tolerate")) [
            | inl mild ↦ inl ((eq_iff s.pin_mode "tolerate").0 mild)
            | inr strict ↦ inr (ground (arith, h, pin, bad, strict))
          ])
          bad
    | inr (inr silent) ↦ absurd (ground (arith, h, pin, silent))
  ]
]

pub pin_gate-IsTrusted :
    (cfg : ClientConfig) (allow : Bool) (w : RungWorld) (s : ConnectionStrategy)
    → pin_gate cfg allow w s ≡ none
    → IsTrusted cfg allow w s
unfolding pin_gate
pin_gate-IsTrusted cfg allow w s h = elim (Bool-cases (is_direct_wss s)) [
  | inr other ↦ not_direct other
  | inl direct ↦ elim (Bool-cases (str_eq s.pin_mode "none")) [
    | inl off ↦ pin_off ((eq_iff s.pin_mode "none").0 off)
    | inr on ↦ check_pin-IsTrusted cfg allow w s (simp (direct, on) at h)
  ]
]

-- A fresh handshake was seen, and a ping was answered where one is asked for.
pub record HasTraffic (cfg : ClientConfig) (w : RungWorld) : Type 0 where
  pub round : ℕ
  pub poll : Poll
  pub seen : get_elem? w.polls round ≡ some poll
  pub fresh : is_newer w.baseline poll.handshake ≡ true
  pub answered :
      (cfg.require_ping ≡ false) ⊎ ((n : ℕ) × (n < ping_attempts) × ((w.pings n).answered ≡ true))

await_handshake-seen :
    (baseline : Option ℕ) (polls : List Poll)
    → await_handshake baseline polls ≡ true
    → (i : ℕ) × (p : Poll) × (get_elem? polls i ≡ some p) × (is_newer baseline p.handshake ≡ true)
unfolding await_handshake
await_handshake-seen baseline [] h = absurd (ground (arith, h))
await_handshake-seen baseline (p ∷ ps) h = elim (Bool-cases (p.cancelled || p.exited)) [
  | inl over ↦ absurd (let e = (simp over at h) in cc)
  | inr on ↦ elim (Bool-cases (is_newer baseline p.handshake)) [
    | inl new ↦ (0, p, refl, new)
    | inr old ↦
        let (i, q, there, new) = await_handshake-seen baseline ps (ground (arith, h)) in
        (suc i, q, there, new)
  ]
]

await_ping-answered :
    (pings : ℕ → Ping) (n : ℕ)
    → await_ping pings n ≡ true
    → (k : ℕ) × (k < n) × ((pings k).answered ≡ true)
unfolding await_ping
await_ping-answered pings zero h = absurd (ground (arith, h))
await_ping-answered pings (suc n) h = elim (Bool-cases (pings n).answered) [
  | inl yes_now ↦ (n, omega arith, yes_now)
  | inr not_now ↦
      let (k, below, there) = await_ping-answered pings n (ground (arith, h)) in
      (k, omega arith, there)
]

pub verify_rung-HasTraffic :
    (cfg : ClientConfig) (w : RungWorld) → verify_rung cfg w ≡ none → HasTraffic cfg w
unfolding verify_rung
verify_rung-HasTraffic cfg w h =
    let (i, p, there, new) = await_handshake-seen w.baseline w.polls (ground (arith, h)) in
    record {
      round = i;
      poll = p;
      seen = there;
      fresh = new;
      answered = elim (Bool-cases cfg.require_ping) [
        | inr off ↦ inl off
        | inl on ↦ inr (await_ping-answered w.pings ping_attempts (ground (arith, h)))
      ];
    }
