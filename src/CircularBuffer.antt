-- ===== src/CircularBuffer.antt =====
-- `CircularBuffer` of include/market_data/lockfree/circular_buffer.hpp, one call at a time: an
-- operation takes the buffer and returns it with the result. `capacity` is the template argument
-- `Capacity`; a `size_t` is its value. Producer and consumer at the same time: see `Spsc`.
pub mod Queue
pub mod Window
pub mod Invariant
pub mod Refine
pub mod Watermarks
pub mod Spsc
mod Tests
use market_data_feed_handler.Prelude.{
  ℕ, ◌+◌, ◌-◌, ◌*◌, ◌/◌, Bool, true, false, List, bit_and, ◌==◌, ltb, leb, if◌then◌else◌, get_or,
  set, u64, u64_mod,
}

pub record CircularBuffer (A : Type 0) : Type 0 where
  pub write_index : ℕ
  pub read_index : ℕ
  pub buffer : List A
  pub high_watermark : ℕ
  pub low_watermark : ℕ

-- `static_cast<size_t>(Capacity * 0.9)`: the `double` nearest to 0.9 is 8106479329266893 / 2^53, and
-- its product with a power of two is exact.
abbrev pub nine_tenths : ℕ → ℕ
nine_tenths capacity = capacity * 8106479329266893 / 9007199254740992

-- `static_cast<size_t>(Capacity * 0.1)`, with 3602879701896397 / 2^55 for 0.1.
abbrev pub one_tenth : ℕ → ℕ
one_tenth capacity = capacity * 3602879701896397 / 36028797018963968

module _ {A : Type 0} (capacity : ℕ) where
  -- `CircularBuffer()`. The elements of `storage` are not initialised.
  unfoldable pub init : List A → CircularBuffer A
  init storage = record {
    write_index = 0;
    read_index = 0;
    buffer = storage;
    high_watermark = nine_tenths capacity;
    low_watermark = one_tenth capacity;
  }

-- `(index + 1) & (Capacity - 1)`
unfoldable pub increment : ℕ → ℕ → ℕ
increment capacity index = bit_and (u64 (index + 1)) (capacity - 1)

module _ {A : Type 0} (capacity : ℕ) where
  unfoldable pub try_push : CircularBuffer A → A → Bool × CircularBuffer A
  try_push b item =
      let current_write = b.write_index in
      let next_write = increment capacity current_write in
      if next_write == b.read_index
      then (false, b)
      else (true, record b { buffer = set b.buffer current_write item; write_index = next_write })

  -- The result is what the call returns, what stands in `item` then, and the buffer.
  unfoldable pub try_pop : CircularBuffer A → A → Bool × A × CircularBuffer A
  try_pop b item =
      let current_read = b.read_index in
      if current_read == b.write_index then (false, item, b) else (
        true,
        get_or b.buffer current_read item,
        record b { read_index = increment capacity current_read },
      )

  unfoldable pub try_peek : CircularBuffer A → A → Bool × A
  try_peek b item =
      let current_read = b.read_index in
      if current_read == b.write_index
      then (false, item)
      else (true, get_or b.buffer current_read item)

  -- `(write >= read) ? (write - read) : (Capacity - read + write)`, in `size_t`.
  unfoldable pub size : CircularBuffer A → ℕ
  size b =
      let write = b.write_index in
      let read = b.read_index in
      if leb read write then write - read else u64 (u64 (capacity + u64_mod - read) + write)

  unfoldable pub full : CircularBuffer A → Bool
  full b = let next_write = increment capacity b.write_index in next_write == b.read_index

  unfoldable pub high_watermark_exceeded : CircularBuffer A → Bool
  high_watermark_exceeded b = leb b.high_watermark (size b)

  unfoldable pub below_low_watermark : CircularBuffer A → Bool
  below_low_watermark b = leb (size b) b.low_watermark

module _ {A : Type 0} where
  unfoldable pub empty : CircularBuffer A → Bool
  empty b = b.read_index == b.write_index

  unfoldable pub set_watermarks : CircularBuffer A → ℕ → ℕ → CircularBuffer A
  set_watermarks b low high = record b { low_watermark = low; high_watermark = high }

  unfoldable pub reset : CircularBuffer A → CircularBuffer A
  reset b = record b { write_index = 0; read_index = 0 }
