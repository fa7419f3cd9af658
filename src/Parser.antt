-- ===== src/Parser.antt =====
-- include/market_data/protocol/protocol_parser.hpp. The reading of the time stamp counter is an input.
-- `none` is an overflow of a signed number, for which C++ defines no result.
pub mod Text
pub mod Numbers
pub mod Price
pub mod Fix
pub mod Binary
mod Tests
use mathlib.Core.Option
use market_data_feed_handler.Prelude.{
  ℕ, zero, suc, ◌+◌, ◌-◌, ◌*◌, ◌^◌, Bool, true, false, ◌&&◌, Option, none, some, List, [], ◌∷◌,
  ◌++◌, ◌==◌, ltb, leb, if◌then◌else◌, length, replicate, get_or, u64, u64_mod, min,
}
use market_data_feed_handler.Prelude.Int.{ℤ, pos, negsuc, ◌+ℤ◌, ◌*ℤ◌}
use market_data_feed_handler.Core.Symbol.{Symbol}
use market_data_feed_handler.Core.Event.{MarketEvent, EventType}
use market_data_feed_handler.Parser.Text.{take, drop, find_char, find}

-- The field separator `\x01`.
abbrev pub soh : ℕ
soh = 1

abbrev pub and_then : {A B : Type 0} → Option A → (A → Option B) → Option B
and_then none f = none
and_then (some x) f = f x

abbrev pub int64_max : ℕ
int64_max = 2 ^ 63 - 1

-- An `int64_t` result, where there is one.
abbrev pub int64 : ℤ → Option ℤ
int64 (pos n) = if leb n int64_max then some (pos n) else none
int64 (negsuc n) = if leb n int64_max then some (negsuc n) else none

-- The conversion to `uint64_t`.
abbrev pub to_u64 : ℤ → ℕ
to_u64 (pos n) = n
to_u64 (negsuc n) = u64_mod - 1 - n

abbrev pub is_digit : ℕ → Bool
is_digit c = leb 48 c && leb c 57

-- The loop of `parse_int`, from the result so far.
unfoldable pub digits_loop : ℕ → List ℕ → Option ℕ
digits_loop result [] = some result
digits_loop result (c ∷ s) =
    let next = result * 10 + (c - 48) in
    let rest = digits_loop next s in
    if is_digit c then if leb next int64_max then rest else none else some result

abbrev pub negate : ℕ → ℤ
negate zero = pos 0
negate (suc n) = negsuc n

unfoldable pub parse_int : List ℕ → Option ℤ
parse_int [] = some (pos 0)
parse_int (c ∷ s) =
    if c == 45
    then Option.map negate (digits_loop 0 s)
    else Option.map (λ n. pos n) (digits_loop 0 (c ∷ s))

-- `for (i = frac_len; i < 8; ++i) frac_part *= 10;`, with the rounds that are left.
unfoldable pub scale : ℕ → ℤ → Option ℤ
scale zero x = some x
scale (suc n) x = and_then (int64 (x *ℤ pos 10)) (scale n)

-- The fractional part. `frac_len` is a difference of two `size_t`.
unfoldable pub parse_fraction : List ℕ → ℕ → ℕ → Option ℤ
parse_fraction str frac_start frac_len =
    if ltb 0 frac_len && ltb frac_len (length str)
    then and_then (parse_int (take frac_len (drop frac_start str))) (scale (8 - frac_len))
    else some (pos 0)

unfoldable pub parse_price : List ℕ → Option ℤ
parse_price str = elim (find_char 46 str) [
  | none ↦ and_then (parse_int str) (λ n. int64 (n *ℤ pos 100_000_000))
  | some dot_pos ↦
      let frac_start = dot_pos + 1 in
      let frac_len : ℕ = elim (find_char soh str) [
        | none ↦ u64 (length str + u64_mod - frac_start)
        | some end_pos ↦ u64 (end_pos + u64_mod - frac_start)
      ] in
      and_then (parse_int (take dot_pos str)) (λ integer_part.
        and_then (parse_fraction str frac_start frac_len) (λ frac_part.
          and_then (int64 (integer_part *ℤ pos 100_000_000))
            (λ scaled. int64 (scaled +ℤ frac_part))))
]

unfoldable pub parse_quantity : List ℕ → Option ℤ
parse_quantity str = parse_price str

-- `switch (msgtype)`
unfoldable pub message_type : ℕ → EventType
message_type c =
    if c == 68
    then EventType.trade
    else if c == 87
    then EventType.book_update
    else if c == 48
    then EventType.heartbeat
    else EventType.unknown

-- `memset` and `memcpy` of the symbol.
unfoldable pub copy_symbol : List ℕ → Symbol
copy_symbol str = record {
  bytes = take (min (length str) 8) str ++ replicate (8 - min (length str) 8) 0;
}

-- One step of the parser for each tag: 35=, 55=, 44=, 38= and 34=.
unfoldable pub set_type : List ℕ → MarketEvent → MarketEvent
set_type msg event = elim (find (51 ∷ 53 ∷ 61 ∷ []) msg) [
  | none ↦ event
  | some p ↦ record event { event_type = message_type (get_or msg (p + 3) 0) }
]

unfoldable pub set_symbol : List ℕ → MarketEvent → MarketEvent
set_symbol msg event = elim (find (53 ∷ 53 ∷ 61 ∷ []) msg) [
  | none ↦ event
  | some p ↦ elim (find_char soh (drop (p + 3) msg)) [
    | none ↦ event
    | some symbol_size ↦ record event { symbol = copy_symbol (take symbol_size (drop (p + 3) msg)) }
  ]
]

unfoldable pub set_price : List ℕ → MarketEvent → Option MarketEvent
set_price msg event = elim (find (52 ∷ 52 ∷ 61 ∷ []) msg) [
  | none ↦ some event
  | some p ↦ Option.map (λ x. record event { price = x }) (parse_price (drop (p + 3) msg))
]

unfoldable pub set_quantity : List ℕ → MarketEvent → Option MarketEvent
set_quantity msg event = elim (find (51 ∷ 56 ∷ 61 ∷ []) msg) [
  | none ↦ some event
  | some p ↦ Option.map (λ x. record event { quantity = x }) (parse_quantity (drop (p + 3) msg))
]

unfoldable pub set_sequence : List ℕ → MarketEvent → Option MarketEvent
set_sequence msg event = elim (find (51 ∷ 52 ∷ 61 ∷ []) msg) [
  | none ↦ some event
  | some p ↦
      Option.map (λ x. record event { sequence_number = to_u64 x }) (parse_int (drop (p + 3) msg))
]

-- `parse` from the message's text on.
unfoldable pub parse_message : ℕ → ℕ → List ℕ → MarketEvent → Option MarketEvent
parse_message venue_id tsc msg event =
    let stamped = record event { venue_id = venue_id; receive_timestamp = tsc } in
    and_then (set_price msg (set_symbol msg (set_type msg stamped)))
      (λ priced. and_then (set_quantity msg priced) (set_sequence msg))

-- `FIXParser::parse`: the bytes consumed, and the event.
unfoldable pub parse_fix : ℕ → ℕ → List ℕ → MarketEvent → Option (ℕ × MarketEvent)
parse_fix venue_id tsc bytes event =
    if ltb (length bytes) 20 then some (0, event) else elim (find_char soh bytes) [
      | none ↦ some (0, event)
      | some end ↦
          Option.map (λ parsed. (end + 1, parsed))
            (parse_message venue_id tsc (take (end + 1) bytes) event)
    ]

-- `static_cast<EventType>`
unfoldable pub to_event_type : ℕ → EventType
to_event_type n =
    get_or
      (EventType.unknown ∷ EventType.trade ∷ EventType.quote ∷ EventType.book_update
        ∷ EventType.heartbeat ∷ EventType.gap_detected ∷ EventType.connection_status ∷ [])
      n (EventType.unlisted n)

-- `message_length`, of the first two bytes, the lower first.
unfoldable pub message_length : List ℕ → ℕ
message_length bytes = get_or bytes 0 0 + 256 * get_or bytes 1 0

-- `BinaryParser::parse`
unfoldable pub parse_binary : ℕ → ℕ → List ℕ → MarketEvent → ℕ × MarketEvent
parse_binary venue_id tsc bytes event =
    if ltb (length bytes) 4
    then (0, event)
    else if ltb (length bytes) (message_length bytes)
    then (0, event)
    else (
      message_length bytes,
      record event {
        venue_id = venue_id;
        receive_timestamp = tsc;
        event_type = to_event_type (get_or bytes 2 0);
      },
    )

-- `ParserFactory::ParserType`, with a value that is no enumerator.
pub data ParserType : Type 0 where
  fix binary other : ParserType

-- A parser with its venue.
pub data ProtocolParser : Type 0 where
  fix_parser binary_parser : ℕ → ProtocolParser

-- `ParserFactory::create`; `none` is `nullptr`.
unfoldable pub create : ParserType → ℕ → Option ProtocolParser
create fix venue_id = some (fix_parser venue_id)
create binary venue_id = some (binary_parser venue_id)
create other venue_id = none

-- The virtual call of `parse`.
unfoldable pub parse : ProtocolParser → ℕ → List ℕ → MarketEvent → Option (ℕ × MarketEvent)
unfolding parse_fix parse_binary
parse (fix_parser venue_id) tsc bytes event = parse_fix venue_id tsc bytes event
parse (binary_parser venue_id) tsc bytes event = some (parse_binary venue_id tsc bytes event)

-- The virtual call of `name`: "FIX" and "Binary".
unfoldable pub name : ProtocolParser → List ℕ
name (fix_parser venue_id) = 70 ∷ 73 ∷ 88 ∷ []
name (binary_parser venue_id) = 66 ∷ 105 ∷ 110 ∷ 97 ∷ 114 ∷ 121 ∷ []
