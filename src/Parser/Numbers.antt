-- ===== src/Parser/Numbers.antt =====
-- The numbers of a FIX field, against the decimal notation that they are in.
use native.Mathlib.Nat.{pow-suc, one-le-pow, mul-le-mul_left}
use market_data_feed_handler.Prelude.{
  ℕ, ◌+◌, ◌-◌, ◌*◌, ◌^◌, ◌≤◌, ◌<◌, ◌≡◌, refl, ◌∙◌, ap, Bool, true, false, Bool-cases, inl, inr,
  none, some, List, [], ◌∷◌, ◌++◌, ◌==◌, leb, length, arith,
}
use market_data_feed_handler.Prelude.Int.{ℤ, pos}
use market_data_feed_handler.Parser.{int64_max, is_digit, digits_loop, negate, parse_int}

abbrev pub AreDigits : List ℕ → Type 0
AreDigits [] = Unit
AreDigits (d ∷ ds) = (d < 10) × AreDigits ds

-- The characters of some digits.
abbrev pub written : List ℕ → List ℕ
written [] = []
written (d ∷ ds) = (48 + d) ∷ written ds

-- The value of digits, the highest first.
abbrev pub value : List ℕ → ℕ
value [] = 0
value (d ∷ ds) = d * 10 ^ length ds + value ds

-- What stands behind a number: nothing, or a character that is no digit.
abbrev pub Ends : List ℕ → Type 0
Ends [] = Unit
Ends (c ∷ s) = is_digit c ≡ false

abbrev pub sign : Bool → List ℕ
sign true = 45 ∷ []
sign false = []

abbrev pub signed : Bool → ℕ → ℤ
signed true n = negate n
signed false n = pos n

-- The loop's result, from `r` on.
digits_loop-written :
    (ds s : List ℕ) (r : ℕ)
    → AreDigits ds
    → Ends s
    → r * 10 ^ length ds + value ds ≤ int64_max
    → digits_loop r (written ds ++ s) ≡ some (r * 10 ^ length ds + value ds)
unfolding digits_loop
digits_loop-written [] [] r a e h = ap (λ n. some n) (omega arith)
digits_loop-written [] (c ∷ s) r a e h = rw e (ap (λ n. some n) (omega arith))
digits_loop-written (d ∷ ds) s r (l, a) ends h =
    let c : 48 + d - 48 ≡ d = omega arith in
    let digit : is_digit (48 + d) ≡ true = ground arith in
    let e : r * 10 ^ length (d ∷ ds) + value (d ∷ ds) ≡ (r * 10 + d) * 10 ^ length ds + value ds =
      omega (arith, ap (λ t. r * t) (pow-suc 10 (length ds))) in
    let fits : leb (r * 10 + d) int64_max ≡ true =
      ground (arith, mul-le-mul_left (r * 10 + d) (one-le-pow (length ds) 10 (omega arith))) in
    rw (c, digit, fits, e) (digits_loop-written ds s (r * 10 + d) a ends (rw (← e) h))

digits-written :
    (ds s : List ℕ)
    → AreDigits ds
    → Ends s
    → value ds ≤ int64_max
    → digits_loop 0 (written ds ++ s) ≡ some (value ds)
digits-written ds s a e h =
    digits_loop-written ds s 0 a e (omega (arith, h)) ∙ ap (λ n. some n) (omega arith)

-- Of a number in decimal notation with at least one digit, with a minus sign or without, whose absolute
-- value is at most 2^63 - 1, `parse_int` gives the value, whatever follows that is no digit.
pub parse_int-written :
    (minus : Bool) (d : ℕ) (ds s : List ℕ)
    → AreDigits (d ∷ ds)
    → Ends s
    → value (d ∷ ds) ≤ int64_max
    → parse_int (sign minus ++ (written (d ∷ ds) ++ s)) ≡ some (signed minus (value (d ∷ ds)))
unfolding parse_int
parse_int-written true d ds s a e h = rw (digits-written (d ∷ ds) s a e h) refl
parse_int-written false d ds s a e h =
    let no_minus : (48 + d == 45) ≡ false = ground arith in
    rw (no_minus, digits-written (d ∷ ds) s a e h) refl

digits_loop-overflow :
    (ds s : List ℕ) (r : ℕ)
    → AreDigits ds
    → r ≤ int64_max
    → int64_max < r * 10 ^ length ds + value ds
    → digits_loop r (written ds ++ s) ≡ none
unfolding digits_loop
digits_loop-overflow [] s r a small h = absurd (omega (arith, small, h))
digits_loop-overflow (d ∷ ds) s r (l, a) small h =
    let c : 48 + d - 48 ≡ d = omega arith in
    let digit : is_digit (48 + d) ≡ true = ground arith in
    let e : r * 10 ^ length (d ∷ ds) + value (d ∷ ds) ≡ (r * 10 + d) * 10 ^ length ds + value ds =
      omega (arith, ap (λ t. r * t) (pow-suc 10 (length ds))) in
    elim (Bool-cases (leb (r * 10 + d) int64_max)) [
      | inl fits ↦
          rw (c, digit, fits) (digits_loop-overflow ds s (r * 10 + d) a (ground arith) (rw e at h))
      | inr over ↦ rw (c, digit, over) refl
    ]

-- Of a number in decimal notation, with a minus sign or without, whose absolute value is 2^63 or more,
-- `parse_int` overflows, so that the least `int64_t` is not read either.
pub parse_int-overflow :
    (minus : Bool) (d : ℕ) (ds s : List ℕ)
    → AreDigits (d ∷ ds)
    → int64_max < value (d ∷ ds)
    → parse_int (sign minus ++ (written (d ∷ ds) ++ s)) ≡ none
unfolding parse_int
parse_int-overflow true d ds s a h =
    rw (digits_loop-overflow (d ∷ ds) s 0 a (omega arith) (omega (arith, h))) refl
parse_int-overflow false d ds s a h =
    let no_minus : (48 + d == 45) ≡ false = ground arith in
    rw (no_minus, digits_loop-overflow (d ∷ ds) s 0 a (omega arith) (omega (arith, h))) refl
