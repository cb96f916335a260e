-- ===== src/Prelude/Options.antt =====
-- `do` blocks over values that may be missing.
use out_warp.Prelude.{Option, none, some}

infixl 5 ◌>>=◌
abbrev pub ◌>>=◌ {ℓ κ} :
    {Value : Type ℓ} {Next : Type κ} → Option Value → (Value → Option Next) → Option Next
none >>= next = none
some value >>= next = next value
