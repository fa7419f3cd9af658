-- ===== src/Parser/Text.antt =====
-- The operations of `std::string_view` that include/market_data/protocol/protocol_parser.hpp uses. A
-- character is a number below 256, and `none` is `npos`.
use market_data_feed_handler.Prelude.{
  ℕ, zero, suc, ◌+◌, ◌≡◌, ◌≢◌, refl, ap, arith, Bool, true, false, ◌&&◌, Option, none, some, List,
  [], ◌∷◌, ◌++◌, ◌==◌, ==_refl, ==_ne, if◌then◌else◌, length,
}

abbrev pub take : ℕ → List ℕ → List ℕ
take zero s = []
take (suc n) [] = []
take (suc n) (c ∷ s) = c ∷ take n s

abbrev pub drop : ℕ → List ℕ → List ℕ
drop zero s = s
drop (suc n) [] = []
drop (suc n) (c ∷ s) = drop n s

abbrev pub starts_with : List ℕ → List ℕ → Bool
starts_with [] s = true
starts_with (p ∷ pattern) [] = false
starts_with (p ∷ pattern) (c ∷ s) = (p == c) && starts_with pattern s

abbrev pub later : Option ℕ → Option ℕ
later none = none
later (some i) = some (suc i)

-- `find` of a character, which is also `memchr`.
abbrev pub find_char : ℕ → List ℕ → Option ℕ
find_char c [] = none
find_char c (x ∷ s) = let rest = later (find_char c s) in if x == c then some 0 else rest

-- `find` of a text that is not empty.
abbrev pub find : List ℕ → List ℕ → Option ℕ
find pattern [] = none
find pattern (x ∷ s) =
    let rest = later (find pattern s) in if starts_with pattern (x ∷ s) then some 0 else rest

-- A text without the character `c`.
abbrev pub Without : ℕ → List ℕ → Type 0
Without c [] = Unit
Without c (x ∷ s) = (x ≢ c) × Without c s

pub find_char-Without :
    (c : ℕ) (s t : List ℕ) → Without c s → find_char c (s ++ (c ∷ t)) ≡ some (length s)
find_char-Without c [] t w = rw (==_refl c) refl
find_char-Without c (x ∷ s) t (ne, w) = rw (==_ne x c ne, find_char-Without c s t w) refl

pub Without-append : (c : ℕ) (s t : List ℕ) → Without c s → Without c t → Without c (s ++ t)
Without-append c [] t w v = v
Without-append c (x ∷ s) t (ne, w) v = (ne, Without-append c s t w v)

pub take-append : (s t : List ℕ) (n : ℕ) → length s ≡ n → take n (s ++ t) ≡ s
take-append s t n e = rw (← e) (go s)
  where
    go : (r : List ℕ) → take (length r) (r ++ t) ≡ r
    go [] = refl
    go (x ∷ r) = ap (λ l. x ∷ l) (go r)

pub drop-append : (s t : List ℕ) (c : ℕ) → drop (length s + 1) (s ++ (c ∷ t)) ≡ t
drop-append [] t c = refl
drop-append (x ∷ s) t c =
    let e : suc (length s) + 1 ≡ suc (length s + 1) = omega arith in rw e (drop-append s t c)
