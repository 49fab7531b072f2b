-- ===== src/Common/Bits.antt =====
-- `|` and `&` on numbers of any size, as arithmetic: the fields and masks that the code uses.
use Prim.Native.Nat.{ℕ, zero, suc, ◌+◌, ◌*◌, ◌/◌, ◌%◌, ◌^◌, ◌≤◌, ◌<◌, min, max, bit_and, bit_or}
use Prim.Native.Nat.{digits, bitwise, bit_and-bitwise, bit_or-bitwise}
use mathlib.Core.Path.{◌≡◌, refl, ap}
use native.Mathlib.Nat.{pow-suc}
use native.Mathlib.Omega.{arith}

-- Both operations recur on the binary digits `x` of the first number, with a fuel that need only
-- reach `x`.
module _ (rest : ℕ → ℕ) (digit : ℕ → ℕ → ℕ) where
  enough :
      (x y fuel more : ℕ)
      → x ≤ fuel
      → fuel ≤ more
      → digits rest digit more x y ≡ digits rest digit fuel x y
  enough zero y zero zero le le' = refl
  enough zero y zero (suc more) le le' = refl
  enough zero y (suc fuel) zero le le' = absurd (omega (arith, le'))
  enough zero y (suc fuel) (suc more) le le' = refl
  enough (suc x) y zero more le le' = absurd (omega (arith, le))
  enough (suc x) y (suc fuel) zero le le' = absurd (omega (arith, le'))
  enough (suc x) y (suc fuel) (suc more) le le' =
      let half = suc x / 2 in
      omega (arith, enough half (y / 2) fuel more (omega arith) (omega arith))

  halve :
      (x y : ℕ)
      → digits rest digit (suc x) (suc x) y
        ≡ digits rest digit (suc x / 2) (suc x / 2) (y / 2) * 2 + digit (suc x % 2) (y % 2)
  halve x y =
      let half = suc x / 2 in omega (arith, enough half (y / 2) half x (omega arith) (omega arith))

bit_and_step : (x y : ℕ) → bit_and x y ≡ bit_and (x / 2) (y / 2) * 2 + min (x % 2) (y % 2)
bit_and_step x y = rw (bit_and-bitwise x y, bit_and-bitwise (x / 2) (y / 2)) (from x)
  where
    from :
        (w : ℕ)
        → bitwise (λ _. zero) min w y
          ≡ bitwise (λ _. zero) min (w / 2) (y / 2) * 2 + min (w % 2) (y % 2)
    from zero = omega arith
    from (suc w) = halve (λ _. zero) min w y

bit_or_step : (x y : ℕ) → bit_or x y ≡ bit_or (x / 2) (y / 2) * 2 + max (x % 2) (y % 2)
bit_or_step x y = rw (bit_or-bitwise x y, bit_or-bitwise (x / 2) (y / 2)) (from x)
  where
    from :
        (w : ℕ)
        → bitwise (λ v. v) max w y ≡ bitwise (λ v. v) max (w / 2) (y / 2) * 2 + max (w % 2) (y % 2)
    from zero = omega arith
    from (suc w) = halve (λ v. v) max w y

zero-bit_or : (y : ℕ) → bit_or 0 y ≡ y
zero-bit_or y = rw (bit_or-bitwise 0 y)

next_power : (k q : ℕ) → q * 2 ^ suc k ≡ q * 2 ^ k * 2
next_power k q = omega (arith, ap (◌*◌ q) (pow-suc 2 k))

-- `r | (q << k)` is a sum when `r` fits `k` bits.
pub bit_or_fields : (k r q : ℕ) → r < 2 ^ k → bit_or r (q * 2 ^ k) ≡ r + q * 2 ^ k
bit_or_fields zero r q fits = let e : r ≡ 0 = omega arith in omega (arith, e, zeros r e)
  where
    zeros : (r : ℕ) → r ≡ 0 → bit_or r (q * 2 ^ 0) ≡ q * 2 ^ 0
    zeros zero e = zero-bit_or (q * 2 ^ 0)
    zeros (suc r) e = absurd (omega arith)
bit_or_fields (suc k) r q fits = ground (
  arith,
  bit_or_step r (q * 2 ^ suc k),
  next_power k q,
  pow-suc 2 k,
  bit_or_fields k (r / 2) q (omega (arith, pow-suc 2 k)),
)

-- Nothing is left of a number under the empty mask, by complete induction.
no_mask : (bound x : ℕ) → x < bound → bit_and x 0 ≡ 0
no_mask zero x lt = absurd (omega arith)
no_mask (suc bound) zero lt = refl
no_mask (suc bound) (suc x) lt =
    let half = no_mask bound (suc x / 2) (omega arith) in
    omega (arith, half, bit_and_step (suc x) 0)

bit_and_one : (x : ℕ) → bit_and x 1 ≡ x % 2
bit_and_one x =
    let none = no_mask (suc x) (x / 2) (omega arith) in omega (arith, none, bit_and_step x 1)

bit_and_7 : (x : ℕ) → bit_and x 7 ≡ x % 8
bit_and_7 x =
    let last = bit_and_one (x / 2 / 2) in
    omega (arith, last, bit_and_step (x / 2) 3, bit_and_step x 7)

-- `a & 0x7f`
pub bit_and_7f : (a : ℕ) → bit_and a 0x7f ≡ a % 128
bit_and_7f a = omega (
  arith,
  bit_and_step a 127,
  bit_and_step (a / 2) 63,
  bit_and_step (a / 2 / 2) 31,
  bit_and_step (a / 2 / 2 / 2) 15,
  bit_and_7 (a / 2 / 2 / 2 / 2),
)

-- `a | 0x80` sets the eighth bit of a number of seven bits.
pub bit_or_80 : (a : ℕ) → a < 128 → bit_or a 0x80 ≡ a + 128
bit_or_80 a h = bit_or_fields 7 a 1 h

bit_and_1_shifted : (a : ℕ) → bit_and a 8 ≡ a / 8 % 2 * 8
bit_and_1_shifted a = omega (
  arith,
  bit_and_step a 8,
  bit_and_step (a / 2) 4,
  bit_and_step (a / 2 / 2) 2,
  bit_and_one (a / 2 / 2 / 2),
)

-- `a & 0x80` is the eighth bit, in its place.
pub bit_and_80 : (a : ℕ) → a < 256 → bit_and a 0x80 ≡ a / 128 * 128
bit_and_80 a h = omega (
  arith,
  bit_and_step a 128,
  bit_and_step (a / 2) 64,
  bit_and_step (a / 2 / 2) 32,
  bit_and_step (a / 2 / 2 / 2) 16,
  bit_and_1_shifted (a / 2 / 2 / 2 / 2),
)
