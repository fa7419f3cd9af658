-- ===== src/Core/Event.antt =====
-- include/market_data/core/market_event.hpp. An unsigned field is its value, an `int64_t` the
-- integer that it stands for.
use market_data_feed_handler.Prelude.{ℕ, Bool}
use market_data_feed_handler.Prelude.Int.{ℤ, pos}
use market_data_feed_handler.Core.Symbol.{Symbol, blank}

-- `enum class EventType : uint8_t`. A cast from `uint8_t` may give a value with no enumerator.
pub data EventType : Type 0 where
  unknown trade quote book_update heartbeat gap_detected connection_status : EventType
  unlisted : ℕ → EventType

-- `enum class Side : uint8_t`
pub data Side : Type 0 where
  unknown bid ask both : Side

pub record MarketEvent : Type 0 where
  pub exchange_timestamp : ℕ
  pub receive_timestamp : ℕ
  pub symbol : Symbol
  pub sequence_number : ℕ
  pub price : ℤ
  pub quantity : ℤ
  pub venue_id : ℕ
  pub order_id : ℕ
  pub trade_id : ℕ
  pub event_type : EventType
  pub side : Side
  pub book_level : ℕ
  pub flags : ℕ

-- `MarketEvent()`
abbrev pub default_event : MarketEvent
default_event = record {
  exchange_timestamp = 0;
  receive_timestamp = 0;
  symbol = blank;
  sequence_number = 0;
  price = pos 0;
  quantity = pos 0;
  venue_id = 0;
  order_id = 0;
  trade_id = 0;
  event_type = EventType.unknown;
  side = Side.unknown;
  book_level = 0;
  flags = 0;
}

pub record ConnectionStatus : Type 0 where
  pub venue_id : ℕ
  pub connected : Bool
  pub timestamp : ℕ
  pub last_sequence : ℕ
