-- ===== src/Core/Tests.antt =====
-- Concrete inputs of the helpers and of `Symbol`.
use market_data_feed_handler.Prelude.{
  ℕ, ◌*◌, ◌^◌, ◌≤◌, u64, ◌≡◌, refl, true, false, List, [], ◌∷◌, arith,
}
use market_data_feed_handler.Core.Common.{
  is_power_of_2, next_power_of_2, next_power_of_2_least, tsc_word,
}
use market_data_feed_handler.Core.Symbol.{Symbol, of_text, eq, ne, padded}

-- The capacities of `MarketEventBuffer` and `LargeEventBuffer`: the second fails the assertion.
capacities :
    (is_power_of_2 (1024 * 1024) ≡ true)
    × (is_power_of_2 (10 * 1024 * 1024) ≡ false)
    × (is_power_of_2 0 ≡ false)
unfolding is_power_of_2
capacities = (refl, refl, refl)

next_power_of_2_least_example :
    (k : ℕ) × (next_power_of_2 5 ≡ u64 (2 ^ k))
    × (k ≤ 64)
    × (5 ≤ 2 ^ k)
    × ((j : ℕ) → 5 ≤ 2 ^ j → k ≤ j)
next_power_of_2_least_example = next_power_of_2_least 5 (omega arith)

-- "AAPL" and "MSFT".
abbrev aapl : List ℕ
aapl = 65 ∷ 65 ∷ 80 ∷ 76 ∷ []

abbrev msft : List ℕ
msft = 77 ∷ 83 ∷ 70 ∷ 84 ∷ []

symbols_differ :
    ((of_text aapl).bytes ≡ 65 ∷ 65 ∷ 80 ∷ 76 ∷ 0 ∷ 0 ∷ 0 ∷ 0 ∷ [])
    × (eq (of_text aapl) (of_text aapl) ≡ true)
    × (ne (of_text aapl) (of_text msft) ≡ true)
unfolding of_text ne
symbols_differ = (refl, refl, refl)

abbrev first : Symbol
first = record { bytes = padded 8 aapl }

abbrev second : Symbol
second = record { bytes = padded 8 msft }

registers : tsc_word 1 5 ≡ 4_294_967_301
unfolding tsc_word
registers = refl
