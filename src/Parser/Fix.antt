-- ===== src/Parser/Fix.antt =====
-- Where a FIX message ends for the parser.
use mathlib.Core.Option
use market_data_feed_handler.Prelude.{
  ℕ, suc, ◌+◌, ◌≤◌, ◌≡◌, refl, ap, false, some, List, [], ◌∷◌, ◌++◌, ltb, length, length-append,
  arith,
}
use market_data_feed_handler.Core.Event.{MarketEvent}
use market_data_feed_handler.Parser.Text.{take, Without, find_char-Without}
use market_data_feed_handler.Parser.{
  soh, parse_message, parse_fix, set_type, set_symbol, set_price, set_quantity, set_sequence,
}

take-upto : (s t : List ℕ) (c : ℕ) → take (length s + 1) (s ++ (c ∷ t)) ≡ s ++ (c ∷ [])
take-upto [] t c = refl
take-upto (x ∷ s) t c =
    let e : suc (length s) + 1 ≡ suc (length s + 1) = omega arith in
    rw e (ap (λ r. x ∷ r) (take-upto s t c))

-- In a buffer of at least 20 bytes the parser reads the bytes up to the first separator, and those
-- alone; it consumes just them.
parse_fix-first_field :
    (venue_id tsc : ℕ) (field rest : List ℕ) (event : MarketEvent)
    → Without soh field
    → 19 ≤ length field + length rest
    → parse_fix venue_id tsc (field ++ (soh ∷ rest)) event
      ≡ Option.map
          (λ parsed. (length field + 1, parsed))
          (parse_message venue_id tsc (field ++ (soh ∷ [])) event)
unfolding parse_fix
parse_fix-first_field venue_id tsc field rest event w h =
    let long : ltb (length (field ++ (soh ∷ rest))) 20 ≡ false =
      ground (arith, length-append field (soh ∷ rest)) in
    rw (long, find_char-Without soh field rest w, take-upto field rest soh) refl

-- `8=FIX.4.2`
abbrev pub begin_string : List ℕ
begin_string = 56 ∷ 61 ∷ 70 ∷ 73 ∷ 88 ∷ 46 ∷ 52 ∷ 46 ∷ 50 ∷ []

begin_string-Without : Without soh begin_string
begin_string-Without = omega arith

-- Of a message in the documented format, which begins with `8=FIX.4.2` and the separator, the parser
-- takes nothing, whatever the ten or more bytes are that follow: it consumes ten bytes and sets the
-- venue and the receive time.
pub parse_fix-begin_string :
    (venue_id tsc : ℕ) (rest : List ℕ) (event : MarketEvent)
    → 10 ≤ length rest
    → parse_fix venue_id tsc (begin_string ++ (soh ∷ rest)) event
      ≡ some (10, record event { venue_id = venue_id; receive_timestamp = tsc })
unfolding parse_message set_type set_symbol set_price set_quantity set_sequence
parse_fix-begin_string venue_id tsc rest event h =
    rw
      (parse_fix-first_field venue_id tsc begin_string rest event begin_string-Without
        (omega arith))
      refl
