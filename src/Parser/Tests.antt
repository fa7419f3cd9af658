-- ===== src/Parser/Tests.antt =====
-- Fields, messages and numbers as they come over the wire.
use market_data_feed_handler.Prelude.{
  none, ◌-◌, ◌*◌, ◌^◌, ℕ, ◌≤◌, ◌<◌, ◌≡◌, ◌↔◌, ◌⊎◌, refl, true, some, List, [], ◌∷◌, ◌++◌, arith,
  length, replicate,
}
use market_data_feed_handler.Core.Event.{default_event}
use market_data_feed_handler.Prelude.Int.{pos, negsuc, ◌+ℤ◌}
use market_data_feed_handler.Parser.Price.{parse_price-written}
use market_data_feed_handler.Parser.{
  parse_price, soh, parse_int, parse_fix, parse_binary, message_length,
}
use market_data_feed_handler.Parser.Numbers.{
  sign, signed, written, value, parse_int-written, parse_int-overflow,
}
use market_data_feed_handler.Parser.Fix.{begin_string, parse_fix-begin_string}
use market_data_feed_handler.Parser.Binary.{parse_binary-consumed}

-- -1024 before a separator
parse_int-written_example :
    parse_int (sign true ++ (written (1 ∷ 0 ∷ 2 ∷ 4 ∷ []) ++ (soh ∷ 56 ∷ [])))
    ≡ some (signed true (value (1 ∷ 0 ∷ 2 ∷ 4 ∷ [])))
parse_int-written_example =
    parse_int-written true 1 (0 ∷ 2 ∷ 4 ∷ []) (soh ∷ 56 ∷ []) (omega arith) refl (omega arith)

-- -2^63
parse_int-overflow_example :
    parse_int (
      sign true
      ++ (written (9 ∷ 2 ∷ 2 ∷ 3 ∷ 3 ∷ 7 ∷ 2 ∷ 0 ∷ 3 ∷ 6 ∷ 8 ∷ 5 ∷ 4 ∷ 7 ∷ 7 ∷ 5 ∷ 8 ∷ 0 ∷ 8 ∷ [])
          ++ []))
    ≡ none
parse_int-overflow_example =
    parse_int-overflow true 9
      (2 ∷ 2 ∷ 3 ∷ 3 ∷ 7 ∷ 2 ∷ 0 ∷ 3 ∷ 6 ∷ 8 ∷ 5 ∷ 4 ∷ 7 ∷ 7 ∷ 5 ∷ 8 ∷ 0 ∷ 8 ∷ []) [] (omega arith)
      (omega arith)

-- -1.5 before a separator
parse_price-written_example :
    parse_price ((sign true ++ written (1 ∷ [])) ++ (46 ∷ (written (5 ∷ []) ++ (soh ∷ []))))
    ≡ some (signed true (value (1 ∷ []) * 100_000_000) +ℤ pos (value (5 ∷ []) * 10 ^ (8 - 1)))
parse_price-written_example =
    parse_price-written true 1 [] 5 [] [] (omega arith) (omega arith) (omega arith) (omega arith)

-- It is -0.5 for the parser.
minus_one_and_a_half :
    signed true (value (1 ∷ []) * 100_000_000) +ℤ pos (value (5 ∷ []) * 10 ^ (8 - 1))
    ≡ negsuc 49_999_999
unfolding ◌+ℤ◌
minus_one_and_a_half = refl

-- `8=FIX.4.2`, the separator, and `34=7`, and zeros
parse_fix-begin_string_example :
    parse_fix 1 50 (begin_string ++ (soh ∷ (51 ∷ 52 ∷ 61 ∷ 55 ∷ replicate 20 48))) default_event
    ≡ some (10, record default_event { venue_id = 1; receive_timestamp = 50 })
parse_fix-begin_string_example =
    parse_fix-begin_string 1 50 (51 ∷ 52 ∷ 61 ∷ 55 ∷ replicate 20 48) default_event (omega arith)

-- A header that announces five bytes, and one byte behind it
parse_binary-consumed_example :
    let bytes : List ℕ = 5 ∷ 0 ∷ 1 ∷ 0 ∷ 9 ∷ [] in
    ((parse_binary 1 50 bytes default_event).0 ≤ length bytes)
    × (((parse_binary 1 50 bytes default_event).0 ≡ 0) ↔ (
        (length bytes < 4) ⊎ ((length bytes < message_length bytes) ⊎ (message_length bytes ≡ 0))))
parse_binary-consumed_example = parse_binary-consumed 1 50 (5 ∷ 0 ∷ 1 ∷ 0 ∷ 9 ∷ []) default_event
