-- ===== src/Server/RateLimit/Count.antt =====
-- Counting the times of failures, and what pruning does to the count (`RateLimiter` of
-- server/outwarp_server/web_auth.py).
use out_warp.Prelude.{
  ℕ, ◌+◌, ◌≤◌, ◌<◌, ◌≡◌, refl, String, ◌&&◌, List, [], ◌∷◌, ◌++◌, arith, ltb, leb, length, filter,
  Bool-cases, inl, inr, if◌then◌else◌,
}
use out_warp.Server.RateLimit.{RateLimiter, hits_of, recent}

-- How many of `ts` lie in `s ≤ t < e`, and how many from `s` on.
unfoldable pub count_in : ℕ → ℕ → List ℕ → ℕ
count_in s e [] = 0
count_in s e (t ∷ ts) = (if leb s t && ltb t e then 1 else 0) + count_in s e ts

unfoldable pub count_from : ℕ → List ℕ → ℕ
count_from s [] = 0
count_from s (t ∷ ts) = (if leb s t then 1 else 0) + count_from s ts

pub count_from-le-length : (s : ℕ) (ts : List ℕ) → count_from s ts ≤ length ts
unfolding count_from
count_from-le-length s [] = omega arith
count_from-le-length s (t ∷ ts) = ground (arith, count_from-le-length s ts)

abbrev pub AllLe : ℕ → List ℕ → Type 0
AllLe n [] = Unit
AllLe n (t ∷ ts) = (t ≤ n) × AllLe n ts

pub AllLe-mono : (m n : ℕ) (ts : List ℕ) → m ≤ n → AllLe m ts → AllLe n ts
AllLe-mono m n [] h a = tt
AllLe-mono m n (t ∷ ts) h a = (omega arith, AllLe-mono m n ts h a.1)

pub count_from-AllLe : (s n : ℕ) (ts : List ℕ) → n < s → AllLe n ts → count_from s ts ≡ 0
unfolding count_from
count_from-AllLe s n [] h a = refl
count_from-AllLe s n (t ∷ ts) h a = ground (arith, count_from-AllLe s n ts h a.1)

abbrev prune : ℕ → ℕ → List ℕ → List ℕ
prune now window = filter (λ t. ltb now (t + window))

-- Pruning and adding `now` keeps the entries at most `now`, and from `s` on drops none that is inside
-- the window.
AllLe-prune : (now window n : ℕ) (ts : List ℕ) → AllLe n ts → AllLe n (prune now window ts)
unfolding filter
AllLe-prune now window n [] a = tt
AllLe-prune now window n (t ∷ ts) a = elim (Bool-cases (ltb now (t + window))) [
  | inl e ↦ rw e (a.0, AllLe-prune now window n ts a.1)
  | inr e ↦ rw e (AllLe-prune now window n ts a.1)
]

AllLe-snoc : (n m : ℕ) (ts : List ℕ) → AllLe n ts → m ≤ n → AllLe n (ts ++ m ∷ [])
AllLe-snoc n m [] a h = (h, tt)
AllLe-snoc n m (t ∷ ts) a h = (a.0, AllLe-snoc n m ts a.1 h)

count_from-prune :
    (s now window : ℕ) (ts : List ℕ)
    → now < s + window
    → count_from s (prune now window ts) ≡ count_from s ts
unfolding count_from filter
count_from-prune s now window [] h = refl
count_from-prune s now window (t ∷ ts) h = ground (arith, count_from-prune s now window ts h)

count_from-snoc :
    (s m : ℕ) (ts : List ℕ)
    → count_from s (ts ++ m ∷ []) ≡ count_from s ts + (if leb s m then 1 else 0)
unfolding count_from
count_from-snoc s m [] = ground arith
count_from-snoc s m (t ∷ ts) = ground (arith, count_from-snoc s m ts)

pub recent_past :
    (from t : ℕ) (ip : String) (l : RateLimiter)
    → from ≤ t
    → AllLe from (hits_of l ip)
    → AllLe t (recent t ip l)
unfolding recent
recent_past from t ip l h past =
    AllLe-snoc t t _ (AllLe-mono from t _ h (AllLe-prune t l.window from _ past)) (omega arith)

pub recent_count :
    (s t : ℕ) (ip : String) (l : RateLimiter)
    → t < s + l.window
    → count_from s (recent t ip l) ≡ count_from s (hits_of l ip) + (if leb s t then 1 else 0)
unfolding recent
recent_count s t ip l h = rw (
  count_from-snoc s t (prune t l.window (hits_of l ip)),
  count_from-prune s t l.window (hits_of l ip) h,
)
