-- ===== src/Prelude/Smear.antt =====
-- `|` by its lowest digit, and the idiom that copies the highest one of a number to all places below:
-- `n |= n >> 1; n |= n >> 2; n |= n >> 4;` and so on.
use Prim.Native.Nat.{
  ℕ, zero, suc, ◌+◌, ◌-◌, ◌*◌, ◌/◌, ◌%◌, ◌^◌, ◌≤◌, ◌<◌, max, bit_or, digits, bit_or-bitwise,
}
use mathlib.Core.Path.{◌≡◌, refl, sym, ap, ap₂, ◌∙◌}
use mathlib.Core.Logic.{◌≢◌}
use native.Mathlib.Decide.{ℕ_discrete, dec_lt}
use native.Mathlib.Nat.{
  pow-suc, one-le-pow, div-div-eq-div-mul, pow-succ', div-one, pow-zero, div-add-mod, zero-div,
  max-le, mul_assoc, mul-mod_right, mod-eq_of_lt, pow-le-pow_right,
}
use native.Mathlib.Omega.{arith}

-- The digits of `a | b`, as far as `n` halvings of `a` go.
abbrev disj : ℕ → ℕ → ℕ → ℕ
disj n a b = digits (λ c. c) max n a b

disj_fuel : (n m a b : ℕ) → a ≤ n → a ≤ m → disj n a b ≡ disj m a b
disj_fuel zero zero a b p q = refl
disj_fuel zero (suc m) zero b p q = refl
disj_fuel zero (suc m) (suc a) b p q = absurd (omega arith)
disj_fuel (suc n) zero zero b p q = refl
disj_fuel (suc n) zero (suc a) b p q = absurd (omega arith)
disj_fuel (suc n) (suc m) zero b p q = refl
disj_fuel (suc n) (suc m) (suc a) b p q =
    omega (arith, disj_fuel n m (suc a / 2) (b / 2) (omega arith) (omega arith))

zero-bit_or : (b : ℕ) → bit_or 0 b ≡ b
zero-bit_or b = bit_or-bitwise 0 b

bit_or_step : (a b : ℕ) → bit_or a b ≡ bit_or (a / 2) (b / 2) * 2 + max (a % 2) (b % 2)
bit_or_step zero b = omega (arith, zero-bit_or b, zero-bit_or (b / 2))
bit_or_step (suc a) b = omega (
  arith,
  bit_or-bitwise (suc a) b,
  bit_or-bitwise (suc a / 2) (b / 2),
  disj_fuel a (suc a / 2) (suc a / 2) (b / 2) (omega arith) (omega arith),
)

-- `n |= n >> s;`
unfoldable pub smear : ℕ → ℕ → ℕ
smear s n = bit_or n (n / 2 ^ s)

div-div_comm : (a b c : ℕ) → a / b / c ≡ a / c / b
div-div_comm a b c =
    div-div-eq-div-mul a b c ∙ ap (λ t. a / t) (omega arith) ∙ sym (div-div-eq-div-mul a c b)

-- A function of numbers that spreads the digits down over `m` places: it commutes with the halving,
-- and its lowest digit is one where one of the `m` lowest digits is.
pub record Spreads (m : ℕ) (f : ℕ → ℕ) : Type 0 where
  pub none : f 0 ≡ 0
  pub halves : (a : ℕ) → f a / 2 ≡ f (a / 2)
  pub lowest : (a : ℕ) → a % 2 ^ m ≢ 0 → f a % 2 ≡ 1

pub self-Spreads : Spreads 1 (λ a. a)
self-Spreads = record { none = refl; halves = λ a. refl; lowest = λ a h. omega arith }

shifted : {m : ℕ} {f : ℕ → ℕ} → Spreads m f → (k a : ℕ) → f a / 2 ^ k ≡ f (a / 2 ^ k)
shifted {f} s zero a = rw (pow-zero, div-one, div-one) refl
shifted {f} s (suc k) a =
    rw
      (
        pow-succ' 2 k,
        ← div-div-eq-div-mul (f a) 2 (2 ^ k),
        s.halves a,
        shifted s k (a / 2),
        div-div-eq-div-mul a 2 (2 ^ k),
      )
      refl

pow-add : (a b : ℕ) → 2 ^ (a + b) ≡ 2 ^ a * 2 ^ b
pow-add a zero = let z : a + 0 ≡ a = omega arith in rw (z, pow-zero) (omega arith)
pow-add a (suc b) =
    let next : a + suc b ≡ suc (a + b) = omega arith in
    rw (next, pow-suc 2 (a + b), pow-add a b, pow-suc 2 b, mul_assoc (2 ^ a) (2 ^ b) 2) refl

-- Where both halves of some digits are zero, all are.
zero-mod_both : (m a : ℕ) → a % 2 ^ m ≡ 0 → a / 2 ^ m % 2 ^ m ≡ 0 → a % 2 ^ (m + m) ≡ 0
zero-mod_both m a h k =
    let p = 2 ^ m in
    let q = a / p / p in
    let inner : p * q ≡ a / p = omega (arith, div-add-mod (a / p) p, k) in
    let outer : p * (a / p) ≡ a = omega (arith, div-add-mod a p, h) in
    let split : p * p * q ≡ a = mul_assoc p p q ∙ ap (λ t. p * t) inner ∙ outer in
    let square : 2 ^ (m + m) ≡ p * p = pow-add m m in rw (square, ← split) (mul-mod_right (p * p) q)

smear-Spreads : (m : ℕ) (f : ℕ → ℕ) → Spreads m f → Spreads (m + m) (λ a. smear m (f a))
unfolding smear
smear-Spreads m f s = record {
  none = rw (s.none, zero-div, zero-bit_or) refl;
  halves = λ a.
      let e = bit_or_step (f a) (f a / 2 ^ m) in
      let r = max-le {a = f a % 2} {b = f a / 2 ^ m % 2} {k = 1} (omega arith) (omega arith) in
      let half : bit_or (f a) (f a / 2 ^ m) / 2 ≡ bit_or (f a / 2) (f a / 2 ^ m / 2) =
        omega (arith, e, r) in
      half
      ∙ ap₂ bit_or (s.halves a) (div-div_comm (f a) (2 ^ m) 2 ∙ ap (λ t. t / 2 ^ m) (s.halves a));
  lowest = λ a h.
      let e = bit_or_step (f a) (f a / 2 ^ m) in
      elim (ℕ_discrete (a % 2 ^ m) 0) [
        | yes z ↦
            let up = s.lowest (a / 2 ^ m) (λ k. h (zero-mod_both m a z k)) in
            omega (arith, e, up, shifted s m a)
        | no ne ↦ omega (arith, e, s.lowest a ne)
      ];
}

has_digit : (m k a : ℕ) → k < m → 2 ^ k ≤ a → a < 2 ^ suc k → a % 2 ^ m ≢ 0
has_digit m k a small h l =
    let fits : a < 2 ^ m =
      omega (arith, pow-le-pow_right {n = 2} (omega arith) {i = suc k} {j = m} (omega arith)) in
    rw (mod-eq_of_lt fits) (λ z. omega (arith, one-le-pow k 2 (omega arith)))

-- After `m` places the digits from the highest one down are all ones.
pub Spreads-ones :
    {m : ℕ} {f : ℕ → ℕ}
    → Spreads m f
    → (k a : ℕ) → k < m
    → 2 ^ k ≤ a
    → a < 2 ^ suc k
    → f a ≡ 2 ^ suc k - 1
Spreads-ones {m} {f} s zero a small h l =
    let one : a ≡ 1 = omega arith in
    let half : f (a / 2) ≡ 0 = ap f (omega arith) ∙ s.none in
    omega (arith, s.halves a, half, s.lowest a (has_digit m 0 a small h l))
Spreads-ones {m} {f} s (suc k) a small h l =
    let half =
      Spreads-ones s k (a / 2) (omega arith) (omega (arith, pow-suc 2 k))
        (omega (arith, pow-suc 2 (suc k))) in
    omega (
      arith,
      s.halves a,
      half,
      s.lowest a (has_digit m (suc k) a small h l),
      pow-suc 2 (suc k),
      one-le-pow (suc k) 2 (omega arith),
    )

pub exponent-lt : (a b : ℕ) → 2 ^ a < 2 ^ b → a < b
exponent-lt a b h = elim (dec_lt a b) [
  | yes l ↦ l
  | no ge ↦
      absurd (omega (arith, pow-le-pow_right {n = 2} (omega arith) {i = b} {j = a} (omega arith)))
]

-- Every number but 0 has a highest digit.
pub highest_digit : (n a : ℕ) → a ≤ n → 0 < a → (k : ℕ) × (2 ^ k ≤ a) × (a < 2 ^ suc k)
highest_digit zero a h pos = absurd (omega arith)
highest_digit (suc n) a h pos = elim (ℕ_discrete a 1) [
  | yes one ↦ (0, omega arith, omega arith)
  | no more ↦
      let (k, low, high) = highest_digit n (a / 2) (omega arith) (omega arith) in
      (suc k, omega (arith, pow-suc 2 k), omega (arith, pow-suc 2 (suc k)))
]

-- The idiom over 64 places.
unfoldable pub smear_all : ℕ → ℕ
unfolding smear
smear_all n = smear 32 (smear 16 (smear 8 (smear 4 (smear 2 (smear 1 n)))))

pub smear_all-Spreads : Spreads 64 smear_all
unfolding smear_all
smear_all-Spreads = smear-Spreads 32 _ (
    smear-Spreads 16 _
      (smear-Spreads 8 _ (smear-Spreads 4 _ (smear-Spreads 2 _ (smear-Spreads 1 _ self-Spreads)))))
