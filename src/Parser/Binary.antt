-- ===== src/Parser/Binary.antt =====
-- What the binary parser consumes.
use market_data_feed_handler.Prelude.{ℕ, ◌≤◌, ◌<◌, ◌≡◌, ◌↔◌, ◌⊎◌, List, length, arith}
use market_data_feed_handler.Core.Event.{MarketEvent}
use market_data_feed_handler.Parser.{message_length, parse_binary}

-- The parser consumes no more than there is. It returns 0 for an incomplete header, for a message
-- that is not all there, and for a complete one whose header announces the length 0; in no other case.
pub parse_binary-consumed :
    (venue_id tsc : ℕ) (bytes : List ℕ) (event : MarketEvent)
    → ((parse_binary venue_id tsc bytes event).0 ≤ length bytes)
      × (((parse_binary venue_id tsc bytes event).0 ≡ 0) ↔ (
          (length bytes < 4)
          ⊎ ((length bytes < message_length bytes) ⊎ (message_length bytes ≡ 0))))
unfolding parse_binary
parse_binary-consumed venue_id tsc bytes event = ground arith
