-- ===== src/ThreadUtils/Setup.antt =====
-- How the threads are set up: the functions of include/market_data/threading/thread_utils.hpp that
-- call the operating system, whose answers are arguments, and the choice of CPUs and of the duration
-- in `main` of src/main.cpp.
use mathlib.Core.Option
use market_data_feed_handler.Prelude.{
  ℕ, Bool, ◌&&◌, ◌||◌, false, Option, none, some, List, [], ◌∷◌, ◌==◌, if◌then◌else◌,
}
use market_data_feed_handler.Prelude.Int.{ℤ, pos, negsuc, pos_part}
use market_data_feed_handler.ThreadUtils.{
  le_int, truncated, parse_cpu_list, c_string, strtol, outside_int,
}

-- As `pin_to_cpu`, of the thread that calls.
unfoldable pub pin_current_thread_to_cpu : ℤ → ℤ → ℕ → Bool
pin_current_thread_to_cpu num_cpus cpu_id rc =
    if le_int cpu_id (negsuc 0) || le_int num_cpus cpu_id then false else rc == 0

-- As `set_realtime_priority`, of the thread that calls.
unfoldable pub set_current_thread_realtime : ℤ → ℕ → Bool
set_current_thread_realtime priority rc =
    if le_int priority (pos 0) || le_int (pos 100) priority then false else rc == 0

-- With the system's call, which gets the name.
unfoldable pub set_thread_name : (List ℕ → ℕ) → List ℕ → Bool
set_thread_name pthread_setname name = pthread_setname (truncated name) == 0

unfoldable pub set_current_thread_name : (List ℕ → ℕ) → List ℕ → Bool
set_current_thread_name pthread_setname name = pthread_setname (truncated name) == 0

-- `has_realtime_capabilities`, with what the system's call returns and the policy that it reports.
unfoldable pub has_realtime_capabilities : (sched_fifo rc policy : ℕ) → Bool
has_realtime_capabilities sched_fifo rc policy = (rc == 0) && (policy == sched_fifo)

-- `spin_wait`: how often it calls `cpu_pause`.
unfoldable pub spin_wait : ℤ → ℕ
spin_wait iterations = pos_part iterations

-- A text up to its first line break.
unfoldable pub first_line : List ℕ → List ℕ
first_line [] = []
first_line (c ∷ s) = let rest = first_line s in if c == 10 then [] else c ∷ rest

-- `std::getline`, which fails on a file without characters.
unfoldable pub get_line : List ℕ → Option (List ℕ)
get_line [] = none
get_line (c ∷ s) = some (first_line (c ∷ s))

-- `get_isolated_cpus`, of a file that can be opened or not. `none` is an overflow in
-- `parse_cpu_list`.
unfoldable pub get_isolated_cpus : Option (List ℕ) → Option (List ℤ)
get_isolated_cpus none = some []
get_isolated_cpus (some file) = elim (get_line file) [
  | none ↦ some []
  | some line ↦ parse_cpu_list line
]

-- `producer_cpu` and `consumer_cpu` of `main`.
unfoldable pub producer_cpu : List ℤ → ℤ
producer_cpu [] = pos 0
producer_cpu (cpu ∷ cpus) = cpu

unfoldable pub consumer_cpu : ℤ → List ℤ → ℤ
consumer_cpu num_cpus (cpu ∷ cpu' ∷ cpus) = cpu'
consumer_cpu num_cpus _ = if le_int num_cpus (pos 1) then pos 0 else pos 1

-- The CPUs that `main` hands to the two threads.
unfoldable pub place : ℤ → Option (List ℕ) → Option (ℤ × ℤ)
place num_cpus file =
    Option.map (λ cpus. (producer_cpu cpus, consumer_cpu num_cpus cpus)) (get_isolated_cpus file)

-- `duration_seconds` of `main`, with the program's name and its arguments: `atoi`, which gives 0 for
-- a text without a number, or ten seconds. `none` is a number outside `int`, for which C defines no
-- result.
unfoldable pub duration_seconds : List (List ℕ) → Option ℤ
duration_seconds (program ∷ argument ∷ more) = elim (strtol (c_string argument)) [
  | none ↦ some (pos 0)
  | some (val, rest) ↦ if outside_int val then none else some val
]
duration_seconds _ = some (pos 10)
