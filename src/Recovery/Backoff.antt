-- ===== src/Recovery/Backoff.antt =====
-- The backoff of a retry is the doubling of a minute, cut at half an hour.
use Prim.Native.Nat.{min}
use native.Mathlib.Nat.{pow-suc}
use hibernator.Prelude.{ℕ, zero, suc, ◌*◌, ◌^◌, ◌≤◌, ◌≡◌, refl, ap, arith}
use hibernator.Prelude.Int.{pos, wrap64, ◌*ℤ◌}
use hibernator.Time.{second, minute}
use hibernator.Recovery.{calculate_backoff}

power-large : (n : ℕ) → 32 ≤ 2 ^ suc (suc (suc (suc (suc n))))
power-large zero = omega arith
power-large (suc n) = rw (pow-suc 2 (suc (suc (suc (suc (suc n)))))) (omega (arith, power-large n))

-- For every attempt count that is not negative, `CalculateBackoff`, with its arithmetic in `int64`,
-- is min(60s * 2 ^ attempt, 30m).
pub calculate_backoff-eq :
    (n : ℕ) → calculate_backoff (pos n) ≡ pos (min (60 * second * 2 ^ n) (30 * minute))
unfolding calculate_backoff wrap64 ◌*ℤ◌
calculate_backoff-eq zero = refl
calculate_backoff-eq (suc zero) = refl
calculate_backoff-eq (suc (suc zero)) = refl
calculate_backoff-eq (suc (suc (suc zero))) = refl
calculate_backoff-eq (suc (suc (suc (suc zero)))) = refl
calculate_backoff-eq (suc (suc (suc (suc (suc n))))) =
    ap pos (min_large (2 ^ suc (suc (suc (suc (suc n))))) (power-large n))
  where
    min_large : (m : ℕ) → 32 ≤ m → 30 * minute ≡ min (60 * second * m) (30 * minute)
    min_large m h = omega arith
