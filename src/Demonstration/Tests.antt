-- ===== src/Demonstration/Tests.antt =====
-- The demonstration as the program runs it.
use market_data_feed_handler.Prelude.{◌≡◌, refl, true, some, List, arith, replicate}
use market_data_feed_handler.Prelude.Int.{ℤ, pos}
use market_data_feed_handler.Core.Common.{is_power_of_2}
use market_data_feed_handler.CircularBuffer.Invariant.{IsCapacity}
use market_data_feed_handler.Demonstration.{test_circular_buffer, test_mpmc_queue}
use market_data_feed_handler.Demonstration.Instances.{test_lockfree_structures_lem}

sixteen-IsCapacity : IsCapacity 16
unfolding is_power_of_2
sixteen-IsCapacity = record { power = refl; fits = omega arith }

abbrev storage : List ℤ
storage = replicate 16 (pos 7)

test_lockfree_structures_lem_example :
    (test_circular_buffer 16 10 (pos 7) storage
      ≡ some (record { size = 10; popped = 10; is_empty = true }))
    × (test_mpmc_queue 1024 100 (pos 7)
        ≡ some (record { size = 100; popped = 100; is_empty = true }))
test_lockfree_structures_lem_example =
    test_lockfree_structures_lem 16 1024 10 100 (pos 7) (pos 7) storage sixteen-IsCapacity refl
      (omega arith) (omega arith)
