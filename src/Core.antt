-- ===== src/Core.antt =====
-- include/market_data/core: the machine-level helpers, the ticker symbol and the market event.
pub mod Common
pub mod Symbol
pub mod Event
mod Tests
