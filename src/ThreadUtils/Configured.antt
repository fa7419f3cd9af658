-- ===== src/ThreadUtils/Configured.antt =====
-- `get_num_cpus` and `ConfiguredThread` of include/market_data/threading/thread_utils.hpp, on
-- `std::thread`: an object of it stands for a thread or for none, and the threads are numbered as they
-- start.
pub mod Joined
use market_data_feed_handler.Prelude.{
  ℕ, ◌+◌, ◌-◌, ◌%◌, ◌^◌, ◌<◌, ◌≡◌, Bool, ◌||◌, Option, none, some, List, [], ◌∷◌, ◌++◌, ltb, length,
  get_or, set, if◌then◌else◌,
}
use market_data_feed_handler.Prelude.Int.{ℤ, pos, negsuc}
use market_data_feed_handler.ThreadUtils.{le_int, truncated}

-- `static_cast<int>` of a `long`: the value modulo 2^32, in the range of `int`.
abbrev pub to_int : ℤ → ℤ
to_int (pos n) = let r = n % 2 ^ 32 in if ltb r (2 ^ 31) then pos r else negsuc (2 ^ 32 - 1 - r)
to_int (negsuc n) = let r = n % 2 ^ 32 in if ltb r (2 ^ 31) then negsuc r else pos (2 ^ 32 - 1 - r)

-- `get_num_cpus`, with what `sysconf` returns.
unfoldable pub get_num_cpus : ℤ → ℤ
get_num_cpus sysconf = to_int sysconf

-- The member `thread_`.
pub record ConfiguredThread : Type 0 where
  pub thread : Option ℕ

-- What a `ConfiguredThread` asks of the system, about a thread.
pub data Call : Type 0 where
  setaffinity : (thread : ℕ) (cpu : ℤ) → Call
  setname : (thread : ℕ) (name : List ℕ) → Call
  setschedparam : (thread : ℕ) (priority : ℤ) → Call
  join_thread : (thread : ℕ) → Call

-- The calls of `pin_to_cpu`, `set_thread_name` and `set_realtime_priority`, whose results the
-- constructor ignores.
abbrev pub pin_calls : ℤ → ℕ → ℤ → List Call
pin_calls num_cpus thread cpu_id =
    if le_int cpu_id (negsuc 0) || le_int num_cpus cpu_id
    then []
    else setaffinity thread cpu_id ∷ []

abbrev pub priority_calls : ℕ → ℤ → List Call
priority_calls thread priority =
    if le_int priority (pos 0) || le_int (pos 100) priority
    then []
    else setschedparam thread priority ∷ []

-- The constructor, once `std::thread` has started `thread`, with its calls, the latest first.
unfoldable pub configure : ℤ → ℕ → ℤ → List ℕ → ℤ → ConfiguredThread × List Call
configure num_cpus thread cpu_id name priority = (
  record { thread = some thread },
  priority_calls thread priority
      ++ (setname thread (truncated name) ∷ pin_calls num_cpus thread cpu_id),
)

abbrev pub empty_thread : ConfiguredThread
empty_thread = record { thread = none }

unfoldable pub join_of : Option ℕ → ConfiguredThread × List Call
join_of none = (empty_thread, [])
join_of (some thread) = (empty_thread, join_thread thread ∷ [])

-- `join`
unfoldable pub join : ConfiguredThread → ConfiguredThread × List Call
join t = join_of t.thread

-- The destructor, which joins too.
unfoldable pub destruct : ConfiguredThread → ConfiguredThread × List Call
destruct t = join_of t.thread

-- The move constructor: the new object, and what is left of the old one.
unfoldable pub move : ConfiguredThread → ConfiguredThread × ConfiguredThread
move t = (t, empty_thread)

-- The move assignment. `none` is `std::terminate()`, which `std::thread` calls where the target stands
-- for a thread.
unfoldable pub move_assign :
    ConfiguredThread → ConfiguredThread → Option (ConfiguredThread × ConfiguredThread)
move_assign target source = elim (target.thread) [
  | none ↦ some (source, empty_thread)
  | some thread ↦ none
]

-- `get_id`; `none` is the number of no thread.
unfoldable pub get_id : ConfiguredThread → Option ℕ
get_id t = t.thread

-- A program's objects, the calls so far, the latest first, and how many threads it has started.
pub record System : Type 0 where
  pub objects : List ConfiguredThread
  pub calls : List Call
  pub started : ℕ

abbrev pub at : System → ℕ → ConfiguredThread
at s i = get_or s.objects i empty_thread

-- What a program may do with its objects.
pub data Step (num_cpus : ℤ) (s : System) : System → Type 0 where
  construct_object :
      (cpu_id : ℤ) (name : List ℕ) (priority : ℤ)
      → Step num_cpus s (record {
        objects = (configure num_cpus s.started cpu_id name priority).0 ∷ s.objects;
        calls = (configure num_cpus s.started cpu_id name priority).1 ++ s.calls;
        started = s.started + 1;
      })
  join_at :
      (i : ℕ)
      → i < length s.objects
      → Step num_cpus s (record s {
        objects = set s.objects i (join (at s i)).0;
        calls = (join (at s i)).1 ++ s.calls;
      })
  destruct_at :
      (i : ℕ)
      → i < length s.objects
      → Step num_cpus s (record s {
        objects = set s.objects i (destruct (at s i)).0;
        calls = (destruct (at s i)).1 ++ s.calls;
      })
  move_from :
      (i : ℕ)
      → i < length s.objects
      → Step num_cpus s
          (record s { objects = (move (at s i)).0 ∷ set s.objects i (move (at s i)).1 })
  assign :
      (i j : ℕ) {target source : ConfiguredThread}
      → i < length s.objects
      → j < length s.objects
      → move_assign (at s i) (at s j) ≡ some (target, source)
      → Step num_cpus s (record s { objects = set (set s.objects i target) j source })

abbrev pub start : System
start = record { objects = []; calls = []; started = 0 }

pub data Reach (num_cpus : ℤ) : System → Type 0 where
  here : Reach num_cpus start
  next : {s t : System} → Reach num_cpus s → Step num_cpus s t → Reach num_cpus t
