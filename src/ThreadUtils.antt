-- ===== src/ThreadUtils.antt =====
-- `safe_stoi`, `parse_cpu_list` and the checks of arguments of
-- include/market_data/threading/thread_utils.hpp. A character is a number below 256. What the
-- operating system answers is an argument.
pub mod CpuList
pub mod Setup
pub mod Configured
pub mod Placement
mod Tests
use mathlib.Core.Option
use market_data_feed_handler.Prelude.{
  ℕ, zero, suc, ◌+◌, ◌-◌, ◌*◌, ◌^◌, Bool, true, false, ◌&&◌, ◌||◌, Option, none, some, List, [],
  ◌∷◌, ◌++◌, ◌==◌, ltb, leb, if◌then◌else◌,
}
use market_data_feed_handler.Prelude.Int.{ℤ, pos, negsuc, pos_part, neg_part, sub_ℕ, ◌+ℤ◌}
use market_data_feed_handler.Parser.{is_digit, negate, and_then}
use market_data_feed_handler.Parser.Text.{take, drop, find_char}

abbrev pub int_max : ℕ
int_max = 2 ^ 31 - 1

-- A string up to its first 0, as `c_str()` shows it.
abbrev pub c_string : List ℕ → List ℕ
c_string [] = []
c_string (c ∷ s) = let rest = c_string s in if c == 0 then [] else c ∷ rest

-- `isspace`
abbrev pub is_space : ℕ → Bool
is_space c = (c == 32) || (leb 9 c && leb c 13)

abbrev pub skip_spaces : List ℕ → List ℕ
skip_spaces [] = []
skip_spaces (c ∷ s) = let rest = skip_spaces s in if is_space c then rest else c ∷ s

-- The number that some digits continue, and what stands behind them.
abbrev pub read_digits : ℕ → List ℕ → ℕ × List ℕ
read_digits n [] = (n, [])
read_digits n (c ∷ s) =
    let rest = read_digits (n * 10 + (c - 48)) s in if is_digit c then rest else (n, c ∷ s)

-- A number that begins with a digit.
abbrev pub read_number : Bool → List ℕ → Option (ℤ × List ℕ)
read_number minus [] = none
read_number minus (c ∷ s) =
    let (n, rest) = read_digits 0 (c ∷ s) in
    if is_digit c then some (if minus then negate n else pos n, rest) else none

-- `strtol` in base 10, of a `long` of 64 bits: the number, and what stands behind it, where `none`
-- is no conversion. The clamp to the range of `long` is left to the caller's test, which all numbers
-- outside fail as the clamped ones do.
abbrev pub strtol : List ℕ → Option (ℤ × List ℕ)
strtol str = elim (skip_spaces str) [
  | [] ↦ none
  | c ∷ s ↦
      if c == 45
      then read_number true s
      else if c == 43
      then read_number false s
      else read_number false (c ∷ s)
]

-- `val < INT_MIN || val > INT_MAX`
abbrev pub outside_int : ℤ → Bool
outside_int (pos n) = ltb int_max n
outside_int (negsuc n) = ltb int_max n

-- `safe_stoi`; `none` is its result `false`.
unfoldable pub safe_stoi : List ℕ → Option ℤ
safe_stoi [] = none
safe_stoi (c ∷ str) = elim (strtol (c_string (c ∷ str))) [
  | none ↦ none
  | some (val, []) ↦ if outside_int val then none else some val
  | some (val, x ∷ rest) ↦ none
]

abbrev pub le_int : ℤ → ℤ → Bool
le_int (pos a) (pos b) = leb a b
le_int (pos a) (negsuc b) = false
le_int (negsuc a) (pos b) = true
le_int (negsuc a) (negsuc b) = leb b a

-- `n` numbers from `i` on.
abbrev pub count_up : ℕ → ℤ → List ℤ
count_up zero i = []
count_up (suc n) i = i ∷ count_up n (i +ℤ pos 1)

-- `for (i = start; i <= end; ++i) cpus.push_back(i);`, with what it appends. `none` is the overflow
-- of `i`, for which C++ defines no result.
unfoldable pub push_range : ℤ → ℤ → Option (List ℤ)
push_range start end =
    let distance = sub_ℕ (pos_part end + neg_part start) (neg_part end + pos_part start) in
    let full = some (count_up (pos_part distance + 1) start) in
    if le_int (pos int_max) end then none else full

-- The body of the loop of `parse_cpu_list`: what a token appends.
unfoldable pub parse_token : List ℕ → Option (List ℤ)
parse_token token = elim (find_char 45 token) [
  | none ↦ elim (safe_stoi token) [ none ↦ some [] | some cpu ↦ some (cpu ∷ []) ]
  | some dash_pos ↦ elim (safe_stoi (take dash_pos token)) [
    | none ↦ some []
    | some start ↦ elim (safe_stoi (drop (dash_pos + 1) token)) [
      | none ↦ some []
      | some end ↦ if le_int start end then push_range start end else some []
    ]
  ]
]

abbrev pub prepend : ℕ → List (List ℕ) → List (List ℕ)
prepend c [] = (c ∷ []) ∷ []
prepend c (token ∷ tokens) = (c ∷ token) ∷ tokens

-- The tokens that `std::getline` reads, up to `,` each or the end.
unfoldable pub tokens : List ℕ → List (List ℕ)
tokens [] = []
tokens (c ∷ s) = let rest = tokens s in if c == 44 then [] ∷ rest else prepend c rest

unfoldable pub parse_tokens : List (List ℕ) → Option (List ℤ)
parse_tokens [] = some []
parse_tokens (token ∷ rest) =
    and_then (parse_token token) (λ cpus. Option.map (λ more. cpus ++ more) (parse_tokens rest))

unfoldable pub parse_cpu_list : List ℕ → Option (List ℤ)
parse_cpu_list str = parse_tokens (tokens str)

-- `pin_to_cpu`, with the return code of the system's call.
unfoldable pub pin_to_cpu : ℤ → ℤ → ℕ → Bool
pin_to_cpu num_cpus cpu_id rc =
    if le_int cpu_id (negsuc 0) || le_int num_cpus cpu_id then false else rc == 0

unfoldable pub set_realtime_priority : ℤ → ℕ → Bool
set_realtime_priority priority rc =
    if le_int priority (pos 0) || le_int (pos 100) priority then false else rc == 0

-- The name that `set_thread_name` and `set_current_thread_name` (in `Setup`) hand to the system.
unfoldable pub truncated : List ℕ → List ℕ
truncated name = take 15 name
