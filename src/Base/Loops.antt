-- ===== src/Base/Loops.antt =====
-- Counted loops, and their invariant rule.
use Prim.Native.Nat.{ℕ, zero, suc, ◌+◌, ◌<◌}
use mathlib.Core.Path.{◌≡◌}
use native.Mathlib.Omega.{arith}

-- `n` rounds, with the index counted up from `i`.
unfoldable pub for_range {ℓ} : {S : Type ℓ} → ℕ → ℕ → (ℕ → S → S) → S → S
for_range (suc rounds) index step state = for_range rounds (index + 1) step (step index state)
for_range zero index step state = state

-- What holds before the first round, and is kept by each round whose index is below the end, holds
-- after the last one.
pub for_range_inv {ℓ κ} :
    {S : Type ℓ} (Holds : ℕ → S → Type κ) (step : ℕ → S → S) (rounds index end : ℕ)
    → index + rounds ≡ end
    → ((v : ℕ) (state : S) → v < end → Holds v state → Holds (v + 1) (step v state))
    → (state : S) → Holds index state
    → Holds end (for_range rounds index step state)
unfolding for_range
for_range_inv Holds step (suc rounds) index end total kept state first =
    let next = kept index state (omega arith) first in
    for_range_inv Holds step rounds (index + 1) end (omega arith) kept (step index state) next
for_range_inv Holds step zero index end total kept state first =
    let ended : index ≡ end = omega arith in rw (← ended) first
