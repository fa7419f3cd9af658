-- ===== src/Timestamp/Format.antt =====
-- `format_timestamp` of include/market_data/utils/timestamp.hpp. What `strftime` writes of the whole
-- seconds, through `localtime_r`, is an argument. A character is a number below 256.
use native.Mathlib.Nat.{pow-suc, div-div-eq-div-mul}
use market_data_feed_handler.Prelude.{
  ℕ, zero, suc, ◌+◌, ◌/◌, ◌%◌, ◌^◌, ◌≤◌, ◌≡◌, refl, ◌∙◌, sym, ap, ap₂, ◌↔◌, List, [], ◌∷◌, ◌++◌,
  arith, length, length-append,
}
use market_data_feed_handler.Parser.Text.{take}

-- `%0<width>llu` of a number that has no more digits.
unfoldable pub padded : (width n : ℕ) → List ℕ
padded zero n = []
padded (suc width) n = (48 + n / 10 ^ width % 10) ∷ padded width n

-- `snprintf` writes no more than 79 characters into `result`.
unfoldable pub format_timestamp : (ℕ → List ℕ) → ℕ → List ℕ
unfolding padded
format_timestamp strftime timestamp_ns =
    let seconds = timestamp_ns / 1000000000 in
    let nanos = timestamp_ns % 1000000000 in take 79 (strftime seconds ++ (46 ∷ padded 9 nanos))

head_or : {A : Type 0} → A → List A → A
head_or x [] = x
head_or x (y ∷ ys) = y

tail_or : {A : Type 0} → List A → List A
tail_or [] = []
tail_or (y ∷ ys) = ys

cons_heads : {x y : ℕ} {xs ys : List ℕ} → x ∷ xs ≡ y ∷ ys → (x ≡ y) × (xs ≡ ys)
unfolding head_or tail_or
cons_heads {x} e = (ap (head_or x) e, ap tail_or e)

take_all : (n : ℕ) (s : List ℕ) → length s ≤ n → take n s ≡ s
take_all zero [] h = refl
take_all zero (c ∷ s) h = absurd (omega arith)
take_all (suc n) [] h = refl
take_all (suc n) (c ∷ s) h = ap (λ t. c ∷ t) (take_all n s (omega arith))

append_cancel :
    (s s' t t' : List ℕ) → length s ≡ length s' → s ++ t ≡ s' ++ t' → (s ≡ s') × (t ≡ t')
append_cancel [] [] t t' l e = (refl, e)
append_cancel [] (c ∷ s') t t' l e = absurd (omega arith)
append_cancel (c ∷ s) [] t t' l e = absurd (omega arith)
append_cancel (c ∷ s) (c' ∷ s') t t' l e =
    let (f, g) = cons_heads e in
    let (h, k) = append_cancel s s' t t' (omega arith) g in (ap₂ (λ x xs. x ∷ xs) f h, k)

length-padded : (width n : ℕ) → length (padded width n) ≡ width
unfolding padded
length-padded zero n = refl
length-padded (suc width) n = omega (arith, length-padded width n)

-- Two numbers that agree without their last `width` digits, and in those, are the same.
padded_injective :
    (width n m : ℕ) → n / 10 ^ width ≡ m / 10 ^ width → padded width n ≡ padded width m → n ≡ m
unfolding padded
padded_injective zero n m e f = omega (arith, e)
padded_injective (suc width) n m e f =
    let (d, rest) = cons_heads f in
    let split : (k : ℕ) → k / 10 ^ (suc width) ≡ k / 10 ^ width / 10 =
      λ k. ap (λ t. k / t) (pow-suc 10 width) ∙ sym (div-div-eq-div-mul k (10 ^ width) 10) in
    padded_injective width n m (omega (arith, split n, split m, e, d)) rest

-- The whole text fits into `result`.
format_timestamp_whole :
    (strftime : ℕ → List ℕ) (n : ℕ)
    → length (strftime (n / 1000000000)) ≤ 63
    → format_timestamp strftime n ≡ strftime (n / 1000000000) ++ (46 ∷ padded 9 (n % 1000000000))
unfolding format_timestamp
format_timestamp_whole strftime n fits = take_all 79 _ (
    omega (
      arith,
      length-append (strftime (n / 1000000000)) (46 ∷ padded 9 (n % 1000000000)),
      length-padded 9 (n % 1000000000),
      fits,
    ))

-- Two time stamps, whose seconds `strftime` writes in texts of one length that fit its buffer of 64
-- characters, have the same text exactly where those texts and the nanoseconds are the same.
pub format_timestamp_iff :
    (strftime : ℕ → List ℕ) (a b : ℕ)
    → length (strftime (a / 1000000000)) ≤ 63
    → length (strftime (a / 1000000000)) ≡ length (strftime (b / 1000000000))
    → (format_timestamp strftime a ≡ format_timestamp strftime b) ↔ (
        (strftime (a / 1000000000) ≡ strftime (b / 1000000000)) × (a % 1000000000 ≡ b % 1000000000))
format_timestamp_iff strftime a b fits sized =
    rw
      (
        format_timestamp_whole strftime a fits,
        format_timestamp_whole strftime b (omega (arith, fits, sized)),
      )
      (
        (λ e.
            let (s, t) = append_cancel _ _ _ _ sized e in
            (
              s,
              padded_injective 9 (a % 1000000000) (b % 1000000000) (omega arith) (cons_heads t).1,
            )),
        (λ (s, n). ap₂ (λ u k. u ++ (46 ∷ padded 9 k)) s n),
      )
