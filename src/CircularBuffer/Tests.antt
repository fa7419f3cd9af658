-- ===== src/CircularBuffer/Tests.antt =====
-- The tests of tests/test_circular_buffer.cpp at a capacity of four, and the theorems at such buffers.
use market_data_feed_handler.Prelude.{
  ℕ, ◌+◌, ◌≤◌, ◌<◌, ◌≡◌, refl, ◌≢◌, true, false, List, [], ◌∷◌, ◌++◌, arith,
}
use market_data_feed_handler.Core.Common.{is_power_of_2}
use market_data_feed_handler.CircularBuffer.{CircularBuffer, init, increment}
use market_data_feed_handler.CircularBuffer.Queue
use market_data_feed_handler.CircularBuffer.Queue.{
  Op, put, take, look, ask_size, ask_empty, ask_full, clear, Reply, done, got, count,
}
use market_data_feed_handler.CircularBuffer.Invariant.{IsCapacity, IsValid}
use market_data_feed_handler.CircularBuffer.Refine.{contents, run, run_refines}
use market_data_feed_handler.CircularBuffer.Spsc.{
  Producer, Consumer, System, push_load, push_free, push_write, push_publish, pop_load, pop_ready,
  Reach, here, next,
}
use market_data_feed_handler.CircularBuffer.Spsc.Safety.{Reach-fifo, no_data_race}

abbrev storage : List ℕ
storage = 0 ∷ 0 ∷ 0 ∷ 0 ∷ []

four-IsCapacity : IsCapacity 4
unfolding is_power_of_2
four-IsCapacity = record { power = refl; fits = omega arith }

-- 8, then 9, round the end of the storage.
abbrev wrapped : CircularBuffer ℕ
wrapped = record {
  write_index = 1;
  read_index = 3;
  buffer = 9 ∷ 0 ∷ 0 ∷ 8 ∷ [];
  high_watermark = 3;
  low_watermark = 0;
}

wrapped-IsValid : IsValid 4 wrapped
wrapped-IsValid = omega arith

abbrev script : List (Op ℕ)
script =
    put 5
    ∷ ask_full
    ∷ put 6
    ∷ take 0
    ∷ look 0
    ∷ take 0
    ∷ ask_size
    ∷ take 0
    ∷ take 77
    ∷ ask_empty
    ∷ []

script_replies :
    run 4 wrapped script
    ≡ done true
      ∷ done true
      ∷ done false
      ∷ got true 8
      ∷ got true 9
      ∷ got true 9
      ∷ count 1
      ∷ got true 5
      ∷ got false 77
      ∷ done true
      ∷ []
unfolding run increment
script_replies = refl

run_refines_example : run 4 wrapped script ≡ Queue.run 4 (8 ∷ 9 ∷ []) script
run_refines_example = run_refines four-IsCapacity 0 script wrapped-IsValid

-- 7 is pushed; then the producer is about to write 8, and the consumer about to read 7.
abbrev racing : System ℕ
racing = record {
  shared = record (init 4 storage) { buffer = 7 ∷ 0 ∷ 0 ∷ 0 ∷ []; write_index = 1 };
  producer = Producer.granted 8 1;
  consumer = Consumer.granted 0 0;
  pushed = 7 ∷ [];
  popped = [];
}

abbrev loading : System ℕ
loading = record racing { producer = Producer.started 8 1; consumer = Consumer.started 0 0 }

loading_reached : Reach 4 storage loading
unfolding init increment
loading_reached =
    next
      (next
        (next
          (next (next (next here (push_load 7 refl)) (push_free refl (omega arith)))
            (push_write refl))
          (push_publish refl))
        (push_load 8 refl))
      (pop_load 0 refl)

racing_reached : Reach 4 storage racing
unfolding init increment
racing_reached =
    next (next loading_reached (push_free refl (omega arith))) (pop_ready refl (omega arith))

Reach-fifo_example : (7 ∷ [] ≡ [] ++ contents 4 0 racing.shared) × (1 + 1 ≤ 0 + 4)
Reach-fifo_example = Reach-fifo four-IsCapacity refl 0 racing_reached

no_data_race_example : (◌≢◌ {A = ℕ} 1 0) × (1 < 4) × (0 < 4)
no_data_race_example = no_data_race four-IsCapacity refl 0 racing_reached refl refl
