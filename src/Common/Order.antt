-- ===== src/Common/Order.antt =====
-- `<` on the native numbers is well founded, and powers of two.
use Prim.Native.Nat.{ℕ, zero, suc, ◌+◌, ◌*◌, ◌^◌, ◌≤◌, ◌<◌}
use mathlib.Core.Path.{◌≡◌, ap}
use mathlib.Core.WellFounded.{Acc, WellFounded}
use native.Mathlib.Nat.{pow-suc}
use native.Mathlib.Omega.{arith}

Acc-below : (k n : ℕ) → n < k → Acc ◌<◌ n
Acc-below zero n h = elim h [ ]
Acc-below (suc k) n h = Acc.intro n (λ m hm. Acc-below k m (omega arith))

unfoldable pub lt_wf : WellFounded ◌<◌
unfolding Acc-below
lt_wf = record { apply = λ n. Acc-below (suc n) n (omega arith) }

pub two_pow_pos : (k : ℕ) → 1 ≤ 2 ^ k
two_pow_pos zero = omega arith
two_pow_pos (suc k) = omega (arith, pow-suc 2 k, two_pow_pos k)

-- 2 ^ (a + b) is the product.
pub two_pow_add : (a b : ℕ) → 2 ^ (a + b) ≡ 2 ^ a * 2 ^ b
two_pow_add zero b = omega (arith, ap (λ (t : ℕ). 2 ^ t) (zero_left b))
  where
    zero_left : (b : ℕ) → 0 + b ≡ b
    zero_left b = omega arith
two_pow_add (suc a) b = omega (
  arith,
  ap (λ (t : ℕ). 2 ^ t) (suc_left a b),
  pow-suc 2 (a + b),
  two_pow_add a b,
  ap (λ (t : ℕ). t * 2 ^ b) (pow-suc 2 a),
)
  where
    suc_left : (a b : ℕ) → suc a + b ≡ suc (a + b)
    suc_left a b = omega arith
