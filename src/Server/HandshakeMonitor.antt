-- ===== src/Server/HandshakeMonitor.antt =====
-- server/outwarp_server/handshake_monitor.py: which handshake transitions are logged. `live` maps the
-- public keys of the interface's peers to their latest handshake, `none` for a peer that had none.
use out_warp.Prelude.{
  ℕ, ◌+◌, ◌≡◌, refl, String, Bool, true, false, Option, none, some, List, [], ◌∷◌, ◌++◌, arith, leb,
  str_eq, eq_iff, if◌then◌else◌, Bool-cases, inl, inr,
}
use text.Mathlib.TextPositions.{eq_refl}
use out_warp.Prelude.Dict
use out_warp.Prelude.Dict.{Dict, lookup-insert}

pub record Seen : Type 0 where
  pub handshake : Option ℕ
  pub fresh : Bool

pub data Event : Type 0 where
  absent no_handshake last_handshake completed lost : (name : String) → Event

abbrev pub stale_after : ℕ
stale_after = 300

abbrev pub Peers : Type 0
Peers = Dict (Option ℕ)

abbrev handshake_of : Option (Option ℕ) → Option ℕ
handshake_of none = none
handshake_of (some handshake) = handshake

-- `now - hs <= STALE_AFTER_S`, with `hs` moved to the other side
abbrev is_fresh : ℕ → Option ℕ → Bool
is_fresh now none = false
is_fresh now (some hs) = leb now (hs + stale_after)

-- what a poll records of a key
abbrev pub seen_now : Peers → ℕ → String → Seen
seen_now live now key =
    let hs = handshake_of (Dict.lookup key live) in
    record { handshake = hs; fresh = is_fresh now hs }

abbrev log_initial : String → Option (Option ℕ) → List Event
log_initial name none = absent name ∷ []
log_initial name (some none) = no_handshake name ∷ []
log_initial name (some (some hs)) = last_handshake name ∷ []

abbrev was_fresh : Option Seen → Bool
was_fresh none = false
was_fresh (some s) = s.fresh

abbrev log_change : String → (fresh : Bool) → Option Seen → List Event
log_change name true prev = if was_fresh prev then [] else completed name ∷ []
log_change name false prev = if was_fresh prev then lost name ∷ [] else []

-- the loop over the clients, names with keys
unfoldable pub poll_clients :
    Peers → ℕ → (first : Bool) → List (String × String) → Dict Seen → List Event × Dict Seen
poll_clients live now first [] seen = ([], seen)
poll_clients live now first ((name, key) ∷ clients) seen =
    let (events, after) =
      poll_clients live now first clients (Dict.insert key (seen_now live now key) seen) in
    (
      (if first
            then log_initial name (Dict.lookup key live)
            else log_change name (seen_now live now key).fresh (Dict.lookup key seen))
          ++ events,
      after,
    )

abbrev is_nil {ℓ} : {A : Type ℓ} → List A → Bool
is_nil [] = true
is_nil (x ∷ xs) = false

unfoldable pub poll : Peers → ℕ → List (String × String) → Dict Seen → List Event × Dict Seen
poll [] now clients seen = ([], seen)
poll (p ∷ live) now clients seen = poll_clients (p ∷ live) now (is_nil seen) clients seen

module _ (live : Peers) (now : ℕ) where
  abbrev AllSeen : List (String × String) → Dict Seen → Type 0
  AllSeen [] seen = Unit
  AllSeen ((name, key) ∷ clients) seen =
      (Dict.lookup key seen ≡ some (seen_now live now key)) × AllSeen clients seen

  AllSeen-insert :
      (key : String) (clients : List (String × String)) (seen : Dict Seen)
      → AllSeen clients seen
      → AllSeen clients (Dict.insert key (seen_now live now key) seen)
  AllSeen-insert key [] seen a = tt
  AllSeen-insert key ((name, k) ∷ clients) seen a = (
    elim (Bool-cases (str_eq key k)) [
      | inl same ↦
          rw (lookup-insert key k (seen_now live now key) seen, same, (eq_iff key k).0 same) refl
      | inr other ↦ rw (lookup-insert key k (seen_now live now key) seen, other) a.0
    ],
    AllSeen-insert key clients seen a.1,
  )

  -- A key stays recorded through the rest of the loop.
  poll_clients-keeps :
      (first : Bool) (key : String) (clients : List (String × String)) (seen : Dict Seen)
      → Dict.lookup key seen ≡ some (seen_now live now key)
      → Dict.lookup key (poll_clients live now first clients seen).1 ≡ some (seen_now live now key)
  unfolding poll_clients
  poll_clients-keeps first key [] seen h = h
  poll_clients-keeps first key ((name, k) ∷ clients) seen h =
      poll_clients-keeps first key clients (Dict.insert k (seen_now live now k) seen)
        (AllSeen-insert k ((name, key) ∷ []) seen (h, tt)).0

  poll_clients-AllSeen :
      (first : Bool) (clients : List (String × String)) (seen : Dict Seen)
      → AllSeen clients (poll_clients live now first clients seen).1
  unfolding poll_clients
  poll_clients-AllSeen first [] seen = tt
  poll_clients-AllSeen first ((name, key) ∷ clients) seen =
      let after = Dict.insert key (seen_now live now key) seen in
      (
        poll_clients-keeps first key clients after
            (rw (lookup-insert key key (seen_now live now key) seen, eq_refl key) refl),
        poll_clients-AllSeen first clients after,
      )

  poll_clients-silent :
      (clients : List (String × String)) (seen : Dict Seen)
      → AllSeen clients seen
      → (poll_clients live now false clients seen).0 ≡ []
  unfolding poll_clients
  poll_clients-silent [] seen a = refl
  poll_clients-silent ((name, key) ∷ clients) seen a =
      let rest = poll_clients-silent clients _ (AllSeen-insert key clients seen a.1) in
      ground (arith, a.0, rest)

AllSeen-nonempty :
    (live : Peers) (now : ℕ) (clients : List (String × String)) (seen : Dict Seen)
    → AllSeen live now clients seen
    → (poll_clients live now (is_nil seen) clients seen).0 ≡ []
unfolding poll_clients Dict.lookup
AllSeen-nonempty live now [] seen a = refl
AllSeen-nonempty live now (c ∷ clients) [] a = absurd (ground (arith, a.0))
AllSeen-nonempty live now (c ∷ clients) (x ∷ seen) a =
    poll_clients-silent live now (c ∷ clients) (x ∷ seen) a

-- A poll that sees the same peers at the same time as the one before logs nothing.
pub poll_then_poll :
    (live : Peers) (now : ℕ) (clients : List (String × String)) (seen : Dict Seen)
    → (poll live now clients (poll live now clients seen).1).0 ≡ []
unfolding poll
poll_then_poll [] now clients seen = refl
poll_then_poll (p ∷ live) now clients seen =
    AllSeen-nonempty (p ∷ live) now clients _
      (poll_clients-AllSeen (p ∷ live) now (is_nil seen) clients seen)
