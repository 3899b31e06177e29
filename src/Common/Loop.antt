-- ===== src/Common/Loop.antt =====
-- Counted loops.
use Prim.Native.Nat.{ℕ, zero, suc, ◌+◌}

-- for (k = from; k < from + rounds; k++) state = step k state
unfoldable pub for_range {ℓ} : {A : Type ℓ} → ℕ → ℕ → (ℕ → A → A) → A → A
for_range zero from step state = state
for_range (suc rounds) from step state = for_range rounds (from + 1) step (step from state)
