-- ===== src/Parser/Price.antt =====
-- What `parse_price` makes of a price in decimal notation.
use native.Mathlib.Nat.{pow-suc, one-le-pow, mul-le-mul_left}
use market_data_feed_handler.Prelude.{
  ℕ, zero, suc, ◌+◌, ◌-◌, ◌*◌, ◌^◌, ◌≤◌, ◌<◌, ◌≡◌, ◌≢◌, refl, sym, ap, Bool, true, false, some,
  List, [], ◌∷◌, ◌++◌, ltb, leb, length, length-append, arith, u64, u64_mod, append-nil,
  append_assoc,
}
use market_data_feed_handler.Prelude.Int.{ℤ, pos, ◌+ℤ◌, ◌*ℤ◌}
use market_data_feed_handler.Parser.Text.{
  take, find_char, Without, find_char-Without, Without-append, take-append, drop-append,
}
use market_data_feed_handler.Parser.{
  soh, int64_max, int64, parse_int, scale, parse_fraction, parse_price,
}
use market_data_feed_handler.Parser.Numbers.{
  AreDigits, written, value, sign, signed, parse_int-written,
}

length-written : (ds : List ℕ) → length (written ds) ≡ length ds
length-written [] = refl
length-written (d ∷ ds) = ap suc (length-written ds)

-- Digits hold no other character.
pub written-Without : (c : ℕ) (ds : List ℕ) → c < 48 → Without c (written ds)
written-Without c [] h = tt
written-Without c (d ∷ ds) h = (λ e. absurd (omega arith), written-Without c ds h)

sign-Without : (c : ℕ) (minus : Bool) → c ≢ 45 → Without c (sign minus)
sign-Without c true ne = (λ e. ne (sym e), tt)
sign-Without c false ne = tt

signed_times : (minus : Bool) (n k : ℕ) → signed minus n *ℤ pos k ≡ signed minus (n * k)
unfolding ◌*ℤ◌
signed_times true zero k = ground arith
signed_times true (suc n) k = ground arith
signed_times false n k = ground arith

int64-signed :
    (minus : Bool) (n : ℕ) → n ≤ int64_max → int64 (signed minus n) ≡ some (signed minus n)
int64-signed true zero h = refl
int64-signed true (suc n) h = let e : leb n int64_max ≡ true = ground arith in rw e refl
int64-signed false n h = let e : leb n int64_max ≡ true = ground arith in rw e refl

int64-plus :
    (minus : Bool) (n f : ℕ)
    → n + f ≤ int64_max
    → int64 (signed minus n +ℤ pos f) ≡ some (signed minus n +ℤ pos f)
unfolding ◌+ℤ◌
int64-plus true zero f h = ground arith
int64-plus true (suc n) f h = ground arith
int64-plus false n f h = ground arith

scale-pos : (n v : ℕ) → v * 10 ^ n ≤ int64_max → scale n (pos v) ≡ some (pos (v * 10 ^ n))
unfolding scale
scale-pos zero v h = ap (λ t. some (pos t)) (omega arith)
scale-pos (suc n) v h =
    let e : v * 10 * 10 ^ n ≡ v * 10 ^ suc n = omega (arith, ap (λ t. v * t) (pow-suc 10 n)) in
    let small : v * 10 ≤ int64_max =
      omega (arith, mul-le-mul_left (v * 10) (one-le-pow n 10 (omega arith))) in
    rw (signed_times false v 10, int64-signed false (v * 10) small, ← e)
      (scale-pos n (v * 10) (rw e h))

-- A number with nothing behind it.
parse_int-alone :
    (minus : Bool) (d : ℕ) (ds : List ℕ)
    → AreDigits (d ∷ ds)
    → value (d ∷ ds) ≤ int64_max
    → parse_int (sign minus ++ written (d ∷ ds)) ≡ some (signed minus (value (d ∷ ds)))
parse_int-alone minus d ds a h = rw append-nil at (parse_int-written minus d ds [] a tt h)

parse_fraction-written :
    (before s : List ℕ) (f : ℕ) (fs : List ℕ)
    → AreDigits (f ∷ fs)
    → value (f ∷ fs) * 10 ^ (8 - length (f ∷ fs)) ≤ int64_max
    → parse_fraction
        (before ++ (46 ∷ (written (f ∷ fs) ++ s)))
        (length before + 1)
        (length (f ∷ fs))
      ≡ some (pos (value (f ∷ fs) * 10 ^ (8 - length (f ∷ fs))))
unfolding parse_fraction
parse_fraction-written before s f fs a h =
    let some_digit : ltb 0 (length (f ∷ fs)) ≡ true = ground arith in
    let n = length-written fs in
    let inside : ltb (length (f ∷ fs)) (length (before ++ (46 ∷ (written (f ∷ fs) ++ s)))) ≡ true =
      ground (
        arith,
        length-append before (46 ∷ (written (f ∷ fs) ++ s)),
        length-append (written (f ∷ fs)) s,
      ) in
    let fits : value (f ∷ fs) ≤ int64_max = omega (
      arith,
      mul-le-mul_left (value (f ∷ fs)) (one-le-pow (8 - length (f ∷ fs)) 10 (omega arith)),
    ) in
    let digits : take (length (f ∷ fs)) (written (f ∷ fs) ++ s) ≡ written (f ∷ fs) =
      take-append (written (f ∷ fs)) s (length (f ∷ fs)) (length-written (f ∷ fs)) in
    rw
      (
        some_digit,
        inside,
        drop-append before (written (f ∷ fs) ++ s) 46,
        digits,
        parse_int-alone false f fs a fits,
      )
      (scale-pos (8 - length (f ∷ fs)) (value (f ∷ fs)) h)

-- The parts that `parse_price` puts together.
price_of_parts :
    (str : List ℕ) {dot_pos end_pos frac_len : ℕ} {whole frac scaled price : ℤ}
    → find_char 46 str ≡ some dot_pos
    → find_char soh str ≡ some end_pos
    → u64 (end_pos + u64_mod - (dot_pos + 1)) ≡ frac_len
    → parse_int (take dot_pos str) ≡ some whole
    → parse_fraction str (dot_pos + 1) frac_len ≡ some frac
    → int64 (whole *ℤ pos 100_000_000) ≡ some scaled
    → int64 (scaled +ℤ frac) ≡ some price
    → parse_price str ≡ some price
unfolding parse_price
price_of_parts str dot end len i f m p = rw (parse_price, dot, end, len, i, f, m) p

-- A price with a fraction of fewer than 2^64 digits, in decimal notation and before a separator:
-- `parse_price` gives the whole
-- part in units of 10^-8, with its sign, plus the fraction in these units, whatever the sign is, where
-- the absolute value of the one and the other together are at most 2^63 - 1. A fraction of more than eight digits counts as the number that its digits are.
pub parse_price-written :
    (minus : Bool) (d : ℕ) (ds : List ℕ) (f : ℕ) (fs s : List ℕ)
    → AreDigits (d ∷ ds)
    → AreDigits (f ∷ fs)
    → length (f ∷ fs) < u64_mod
    → value (d ∷ ds) * 100_000_000 + value (f ∷ fs) * 10 ^ (8 - length (f ∷ fs)) ≤ int64_max
    → parse_price ((sign minus ++ written (d ∷ ds)) ++ (46 ∷ (written (f ∷ fs) ++ (soh ∷ s))))
      ≡ some (
          signed minus (value (d ∷ ds) * 100_000_000)
          +ℤ pos (value (f ∷ fs) * 10 ^ (8 - length (f ∷ fs))))
unfolding parse_price
parse_price-written minus d ds f fs s a b short fits =
    let whole = sign minus ++ written (d ∷ ds) in
    let tail = written (f ∷ fs) ++ (soh ∷ s) in
    let dot : find_char 46 (whole ++ (46 ∷ tail)) ≡ some (length whole) =
      find_char-Without 46 whole tail (
        Without-append 46 (sign minus) (written (d ∷ ds)) (sign-Without 46 minus (omega arith))
          (written-Without 46 (d ∷ ds) (omega arith))) in
    let before : Without soh (whole ++ (46 ∷ written (f ∷ fs))) =
      Without-append soh whole (46 ∷ written (f ∷ fs))
        (Without-append soh (sign minus) (written (d ∷ ds)) (sign-Without soh minus (omega arith))
          (written-Without soh (d ∷ ds) (omega arith)))
        (omega arith, written-Without soh (f ∷ fs) (omega arith)) in
    let end =
      rw append_assoc at (find_char-Without soh (whole ++ (46 ∷ written (f ∷ fs))) s before) in
    price_of_parts (whole ++ (46 ∷ tail)) {whole = signed minus (value (d ∷ ds))}
      {scaled = signed minus (value (d ∷ ds) * 100_000_000)} dot end
      (omega (arith, length-append whole (46 ∷ written (f ∷ fs)), length-written fs))
      (rw (take-append whole (46 ∷ tail) (length whole) refl)
        (parse_int-alone minus d ds a (omega arith)))
      (parse_fraction-written whole (soh ∷ s) f fs b (omega arith))
      (rw (signed_times minus (value (d ∷ ds)) 100_000_000)
        (int64-signed minus (value (d ∷ ds) * 100_000_000) (omega arith)))
      (int64-plus minus (value (d ∷ ds) * 100_000_000) _ fits)
