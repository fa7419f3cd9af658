-- ===== src/Prelude/Bits.antt =====
-- `&` with a mask of low bits, and with the predecessor, as arithmetic. Each law is proved of the
-- recursion on binary digits that `bit_and` stands for, by induction on its fuel.
use Prim.Native.Nat.{
  ℕ, zero, suc, ◌+◌, ◌-◌, ◌*◌, ◌/◌, ◌%◌, ◌^◌, ◌≤◌, ◌<◌, min, bit_and, digits, bit_and-bitwise,
}
use mathlib.Core.Path.{◌≡◌, refl, sym, ap, ◌∙◌}
use mathlib.Core.Logic.{◌↔◌}
use native.Mathlib.Decide.{ℕ_discrete}
use native.Mathlib.Nat.{
  pow-suc, one-le-pow, mod-lt, zero-mod, mod_self, pow-zero, pow-succ', mul-one, div-one, zero-div,
  div-div-eq-div-mul, div-add-mod, add-mul-mod_self_left, mod-eq_of_lt,
}
use native.Mathlib.Omega.{arith}

-- The digits of `a & b`, as far as `n` halvings of `a` go.
abbrev conj : ℕ → ℕ → ℕ → ℕ
conj n a b = digits (λ c. zero) min n a b

-- The remainder of `a` by `2 ^ suc k`, from that of `a / 2` by `2 ^ k`.
mod-pow-suc : (k a : ℕ) → a % 2 ^ suc k ≡ a / 2 % 2 ^ k * 2 + a % 2
mod-pow-suc k a =
    let r : ℕ = a / 2 % 2 ^ k * 2 + a % 2 in
    let q : ℕ = a / 2 / 2 ^ k in
    let small : r < 2 ^ suc k =
      omega (arith, pow-suc 2 k, mod-lt (a / 2) (one-le-pow k 2 (omega arith))) in
    let split : a ≡ r + 2 ^ suc k * q =
      omega (arith, div-add-mod (a / 2) (2 ^ k), ap (λ (t : ℕ). t * q) (pow-suc 2 k)) in
    ap (λ t. t % 2 ^ suc k) split ∙ add-mul-mod_self_left r (2 ^ suc k) q ∙ mod-eq_of_lt small

half_mask : (k : ℕ) → (2 ^ suc k - 1) / 2 ≡ 2 ^ k - 1
half_mask k = omega (arith, pow-suc 2 k, one-le-pow k 2 (omega arith))

conj-low_mask : (n k a : ℕ) → a ≤ n → conj n a (2 ^ k - 1) ≡ a % 2 ^ k
conj-low_mask zero k zero h = omega (arith, zero-mod (2 ^ k))
conj-low_mask zero k (suc a) h = absurd (omega arith)
conj-low_mask (suc n) k zero h = omega (arith, zero-mod (2 ^ k))
conj-low_mask (suc n) zero (suc a) h = omega (arith, conj-low_mask n zero (suc a / 2) (omega arith))
conj-low_mask (suc n) (suc k) (suc a) h = omega (
  arith,
  mod-pow-suc k (suc a),
  pow-suc 2 k,
  one-le-pow k 2 (omega arith),
  ap (conj n (suc a / 2)) (half_mask k),
  conj-low_mask n k (suc a / 2) (omega arith),
)

-- `a & (2 ^ k - 1)` is the remainder by `2 ^ k`.
pub bit_and-low_mask : (k a : ℕ) → bit_and a (2 ^ k - 1) ≡ a % 2 ^ k
bit_and-low_mask k a = bit_and-bitwise a (2 ^ k - 1) ∙ conj-low_mask a k a (omega arith)

double_mask : (x k : ℕ) → x * 2 ^ suc k ≡ 2 * (x * 2 ^ k)
double_mask x k = omega (arith, ap (λ (t : ℕ). x * t) (pow-suc 2 k))

div-pow-suc : (k a : ℕ) → a / 2 ^ suc k ≡ a / 2 / 2 ^ k
div-pow-suc k a = rw (pow-succ' 2 k, ← div-div-eq-div-mul a 2 (2 ^ k))

zero_fields : (k m : ℕ) → 0 / 2 ^ k % 2 ^ m * 2 ^ k ≡ 0
zero_fields k m = rw (zero-div, zero-mod) (omega arith)

conj-high_mask : (n k m a : ℕ) → a ≤ n → conj n a ((2 ^ m - 1) * 2 ^ k) ≡ a / 2 ^ k % 2 ^ m * 2 ^ k
conj-high_mask n zero m a h = rw (pow-zero, mul-one, mul-one, div-one) (conj-low_mask n m a h)
conj-high_mask zero (suc k) m zero h = sym (zero_fields (suc k) m)
conj-high_mask zero (suc k) m (suc a) h = absurd (omega arith)
conj-high_mask (suc n) (suc k) m zero h = sym (zero_fields (suc k) m)
conj-high_mask (suc n) (suc k) m (suc a) h =
    let half : (2 ^ m - 1) * 2 ^ suc k / 2 ≡ (2 ^ m - 1) * 2 ^ k =
      omega (arith, double_mask (2 ^ m - 1) k) in
    let even : (2 ^ m - 1) * 2 ^ suc k % 2 ≡ 0 = omega (arith, double_mask (2 ^ m - 1) k) in
    rw (half, even, div-pow-suc k (suc a), double_mask (suc a / 2 / 2 ^ k % 2 ^ m) k)
      (omega (arith, conj-high_mask n k m (suc a / 2) (omega arith)))

-- `a & ((2 ^ m - 1) << k)` keeps the `m` bits from the `k`-th on.
pub bit_and-high_mask : (k m a : ℕ) → bit_and a ((2 ^ m - 1) * 2 ^ k) ≡ a / 2 ^ k % 2 ^ m * 2 ^ k
bit_and-high_mask k m a =
    bit_and-bitwise a ((2 ^ m - 1) * 2 ^ k) ∙ conj-high_mask a k m a (omega arith)

conj_self : (n a : ℕ) → a ≤ n → conj n a a ≡ a
conj_self zero zero h = refl
conj_self zero (suc a) h = absurd (omega arith)
conj_self (suc n) zero h = refl
conj_self (suc n) (suc a) h = omega (arith, conj_self n (suc a / 2) (omega arith))

-- `suc m / 2` and `m / 2` differ by one if `suc m` is even, and are one number if it is odd.
conj-pred_even :
    (n m : ℕ) → suc m % 2 ≡ 0 → conj (suc n) (suc m) m ≡ conj n (suc m / 2) (suc m / 2 - 1) * 2
conj-pred_even n m even =
    let e : m / 2 ≡ suc m / 2 - 1 = omega arith in omega (arith, ap (conj n (suc m / 2)) e)

conj-pred_odd : (n m : ℕ) → suc m / 2 ≤ n → suc m % 2 ≡ 1 → conj (suc n) (suc m) m ≡ suc m / 2 * 2
conj-pred_odd n m h odd =
    let e : m / 2 ≡ suc m / 2 = omega arith in
    omega (arith, ap (conj n (suc m / 2)) e, conj_self n (suc m / 2) h)

pow_of_conj-pred : (n a : ℕ) → a ≤ n → 0 < a → conj n a (a - 1) ≡ 0 → (k : ℕ) × (a ≡ 2 ^ k)
pow_of_conj-pred n zero h pos e = absurd (omega arith)
pow_of_conj-pred zero (suc m) h pos e = absurd (omega arith)
pow_of_conj-pred (suc n) (suc m) h pos e = elim (ℕ_discrete (suc m % 2) 0) [
  | yes even ↦
      let (k, p) =
        pow_of_conj-pred n (suc m / 2) (omega arith) (omega arith)
          (omega (arith, conj-pred_even n m even, pred_suc m e)) in
      (suc k, omega (arith, pow-suc 2 k))
  | no odd ↦ (0, omega (arith, conj-pred_odd n m (omega arith) (omega arith), pred_suc m e))
]
  where
    pred_suc : (m : ℕ) → conj (suc n) (suc m) (suc m - 1) ≡ 0 → conj (suc n) (suc m) m ≡ 0
    pred_suc m e = let p : suc m - 1 ≡ m = omega arith in rw p at e

-- `a & (a - 1)` is 0 at the powers of two, and at 0 only besides.
pub bit_and-pred_iff : (a : ℕ) → 0 < a → (bit_and a (a - 1) ≡ 0) ↔ ((k : ℕ) × (a ≡ 2 ^ k))
bit_and-pred_iff a pos = (
  λ e. pow_of_conj-pred a a (omega arith) pos (sym (bit_and-bitwise a (a - 1)) ∙ e),
  λ (k, e). rw e (bit_and-low_mask k (2 ^ k) ∙ mod_self (2 ^ k)),
)
