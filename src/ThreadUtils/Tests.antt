-- ===== src/ThreadUtils/Tests.antt =====
-- Numbers and lists of CPUs as the kernel writes them.
use market_data_feed_handler.Prelude.Int.{ℤ, pos}
use market_data_feed_handler.ThreadUtils.Setup.{place}
use market_data_feed_handler.ThreadUtils.Placement.{place-same_iff}
use market_data_feed_handler.Prelude.{
  ◌+◌, ◌≤◌, ◌<◌, ◌++◌, ◌↔◌, ◌≡◌, refl, none, some, [], ◌∷◌, arith,
}
use market_data_feed_handler.ThreadUtils.{parse_cpu_list}
use market_data_feed_handler.ThreadUtils.Setup.{duration_seconds}
use market_data_feed_handler.ThreadUtils.Configured.{
  get_num_cpus, configure, join, destruct, move, move_assign, System, construct_object, join_at,
  destruct_at, move_from, assign, Reach, here, next, empty_thread,
}
use market_data_feed_handler.ThreadUtils.Configured.Joined.{owners, joins, Reach-joined_once}
use market_data_feed_handler.ThreadUtils.CpuList.{
  single, range, list_text, all_cpus, parse_cpu_list-list_text,
}

-- 2-4,10
parse_cpu_list-list_text_example :
    parse_cpu_list (list_text (range 2 [] 4 []) (single 1 (0 ∷ []) ∷ []))
    ≡ some (all_cpus (range 2 [] 4 [] ∷ single 1 (0 ∷ []) ∷ []))
parse_cpu_list-list_text_example =
    parse_cpu_list-list_text (range 2 [] 4 []) (single 1 (0 ∷ []) ∷ []) (omega arith)

-- 1, which both threads get.
place-same_iff_example :
    (cpus : ℤ × ℤ) × (place (pos 4) (some (list_text (single 1 []) [] ++ (10 ∷ []))) ≡ some cpus)
    × ((cpus.0 ≡ cpus.1) ↔ (all_cpus (single 1 [] ∷ []) ≡ pos 1 ∷ []))
place-same_iff_example = place-same_iff 4 (single 1 []) [] [] (omega arith) (omega arith) tt

-- "60", and "x".
durations :
    (duration_seconds ([] ∷ (54 ∷ 48 ∷ []) ∷ []) ≡ some (pos 60))
    × (duration_seconds ([] ∷ (120 ∷ []) ∷ []) ≡ some (pos 0))
    × (duration_seconds ([] ∷ []) ≡ some (pos 10))
unfolding duration_seconds
durations = (refl, refl, refl)

-- 2^32 + 2 CPUs.
num_cpus : get_num_cpus (pos 4_294_967_298) ≡ pos 2
unfolding get_num_cpus
num_cpus = refl

-- Two threads: the first one's object is moved, the second is joined, and the first is moved again,
-- into an object without a thread, and destroyed there.
threads_run : (s : System) × Reach (pos 4) s × (s.started ≡ 2)
unfolding configure join destruct move move_assign
threads_run = (
  _,
  next
      (next
        (next
          (next
            (next (next here (construct_object (pos 1) [] (pos 99)))
              (construct_object (pos 9) [] (pos 50)))
            (move_from 1 (omega arith)))
          (join_at 1 (omega arith)))
        (assign 2 0 (omega arith) (omega arith) refl))
      (destruct_at 2 (omega arith)),
  refl,
)

-- An assignment to an object that stands for a thread terminates.
terminated : move_assign (record { thread = some 3 }) empty_thread ≡ none
unfolding move_assign
terminated = refl

Reach-joined_once_example :
    let s = threads_run.0 in
    (0 < s.started → owners 0 s.objects + joins 0 s.calls ≡ 1)
    × (s.started ≤ 0 → owners 0 s.objects + joins 0 s.calls ≡ 0)
Reach-joined_once_example = Reach-joined_once 0 threads_run.1
