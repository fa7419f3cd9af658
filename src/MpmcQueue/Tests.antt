-- ===== src/MpmcQueue/Tests.antt =====
-- Queues of three nodes, a new one and one that another thread has left with its tail behind.
use market_data_feed_handler.Prelude.{
  ℕ, ◌≡◌, refl, true, false, some, List, [], ◌∷◌, ◌==◌, if◌then◌else◌, arith,
}
use market_data_feed_handler.MpmcQueue.{MpmcQueue, create}
use market_data_feed_handler.MpmcQueue.Refine.{Represents}
use market_data_feed_handler.CircularBuffer.Queue
use market_data_feed_handler.MpmcQueue.Calls.{
  Op, enqueue, dequeue, dequeue_bulk, ask_size, ask_empty, done, got, got_bulk, count, run,
  run_specified, create-run, drain, specified,
}

abbrev script : List (Op ℕ)
script =
    enqueue 1 2 5
    ∷ enqueue 0 0 6
    ∷ enqueue 0 0 7
    ∷ ask_size
    ∷ dequeue 2 1 0
    ∷ enqueue 0 0 8
    ∷ dequeue_bulk (λ i. i) (λ i. 1) (0 ∷ 0 ∷ 77 ∷ [])
    ∷ ask_empty
    ∷ []

script_replies :
    run_specified 3 [] script
    ≡ done true
      ∷ done true
      ∷ done false
      ∷ count 2
      ∷ got true 5
      ∷ done true
      ∷ got_bulk 2 (6 ∷ 8 ∷ 77 ∷ [])
      ∷ done true
      ∷ []
unfolding run_specified specified Queue.push Queue.pop drain
script_replies = refl

create-run_example : run 3 (create 3 0) script ≡ some (run_specified 3 [] script)
create-run_example = create-run 3 0 script (omega arith)

-- Node 2, with the element 9, is linked, and `tail_` is still at the dummy.
abbrev left_behind : MpmcQueue ℕ
left_behind = record {
  head = 1;
  tail = 1;
  free_list = 3;
  next = λ a. if a == 1 then 2 else 0;
  data_at = λ a. if a == 2 then 9 else 0;
}

left_behind-Represents : Represents 3 left_behind (9 ∷ [])
left_behind-Represents = record {
  before = [];
  lag = 1 ∷ [];
  last = 2;
  free = 3 ∷ [];
  inv = record {
    queue = (refl, omega arith, (refl, omega arith, refl));
    tail = (refl, omega arith, (refl, omega arith, refl));
    free_nodes = (refl, omega arith, refl);
    once = λ a. ground arith;
    total = refl;
  };
  holds = refl;
}
