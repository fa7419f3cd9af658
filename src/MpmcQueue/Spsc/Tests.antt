-- ===== src/MpmcQueue/Spsc/Tests.antt =====
-- One producer and one consumer on a queue of three nodes, and two producers on such a queue.
use market_data_feed_handler.Prelude.{
  ℕ, ◌+◌, ◌≤◌, ◌≡◌, refl, ◌≢◌, true, List, [], ◌∷◌, ◌++◌, arith, ◌==◌, length,
}
use market_data_feed_handler.MpmcQueue.{create, fill, size, empty}
use market_data_feed_handler.MpmcQueue.Threads
use market_data_feed_handler.MpmcQueue.Threads.{
  Producer, Consumer, Enqueue, Dequeue, System, enqueue, dequeue, start,
}
use market_data_feed_handler.MpmcQueue.Spsc.{Reach, here, next, reclaimed}
use market_data_feed_handler.MpmcQueue.Spsc.Safety.{Reach-put, Reach-apart, Reach-refused}
use market_data_feed_handler.MpmcQueue.Aba.Lost.{create-loses}

abbrev first : System ℕ
first = start 3 0

-- The producer has put 7 into the queue, and the consumer is about to read it, while the producer
-- has taken the next node.
reading_run :
    (s : System ℕ) × Reach first s
    × (s.producers 0 ≡ Producer.granted 8 2)
    × (s.consumers 0 ≡ Consumer.reading 0 1 3)
unfolding create fill
reading_run = (
  _,
  next
      (next
        (next
          (next
            (next
              (next
                (next
                  (next
                    (next
                      (next
                        (next
                          (next
                            (next
                              (next
                                (next
                                  (next (next (here) (enqueue (Enqueue.load_free 7 (omega arith))))
                                    (enqueue Enqueue.load_next))
                                  (enqueue (Enqueue.pop refl)))
                                (enqueue Enqueue.write))
                              (enqueue Enqueue.clear))
                            (enqueue Enqueue.load_tail))
                          (enqueue Enqueue.load_tail_next))
                        (enqueue (Enqueue.check_link refl refl)))
                      (enqueue (Enqueue.link refl)))
                    (enqueue (Enqueue.swing refl)))
                  (dequeue (Dequeue.load_head 0)))
                (dequeue Dequeue.load_tail))
              (dequeue Dequeue.load_next))
            (dequeue (Dequeue.check_read refl (omega arith) (omega arith))))
          (enqueue (Enqueue.load_free 8 (omega arith))))
        (enqueue Enqueue.load_next))
      (enqueue (Enqueue.pop refl)),
  refl,
  refl,
)

-- The producer has put 7 and 8 into the queue, whose free list is empty then.
full_run :
    (s : System ℕ) × Reach first s × (s.producers 0 ≡ Producer.idle) × (s.queue.free_list ≡ 0)
unfolding create fill
full_run = (
  _,
  next
      (next
        (next
          (next
            (next
              (next
                (next
                  (next
                    (next
                      (next
                        (next
                          (next
                            (next
                              (next
                                (next
                                  (next
                                    (next
                                      (next
                                        (next
                                          (next (here)
                                            (enqueue (Enqueue.load_free 7 (omega arith))))
                                          (enqueue Enqueue.load_next))
                                        (enqueue (Enqueue.pop refl)))
                                      (enqueue Enqueue.write))
                                    (enqueue Enqueue.clear))
                                  (enqueue Enqueue.load_tail))
                                (enqueue Enqueue.load_tail_next))
                              (enqueue (Enqueue.check_link refl refl)))
                            (enqueue (Enqueue.link refl)))
                          (enqueue (Enqueue.swing refl)))
                        (enqueue (Enqueue.load_free 8 (omega arith))))
                      (enqueue Enqueue.load_next))
                    (enqueue (Enqueue.pop refl)))
                  (enqueue Enqueue.write))
                (enqueue Enqueue.clear))
              (enqueue Enqueue.load_tail))
            (enqueue Enqueue.load_tail_next))
          (enqueue (Enqueue.check_link refl refl)))
        (enqueue (Enqueue.link refl)))
      (enqueue (Enqueue.swing refl)),
  refl,
  refl,
)

Reach-put_example :
    let s = reading_run.0 in
    (items : List ℕ) × (s.put ≡ s.taken ++ items)
    × (size 3 s.queue ≡ length items)
    × (empty s.queue ≡ (length items == 0))
    × (length items + 1 ≤ 3)
Reach-put_example = Reach-put 0 (omega arith) reading_run.1

Reach-apart_example : ◌≢◌ {A = ℕ} 2 3
Reach-apart_example = Reach-apart 0 (omega arith) reading_run.1 reading_run.2 reading_run.3

Reach-refused_example :
    let s = full_run.0 in size 3 s.queue + 1 + length (reclaimed (s.consumers 0)) ≡ 3
Reach-refused_example = Reach-refused 0 (omega arith) full_run.1 full_run.2 full_run.3

create-loses_example :
    (s : System ℕ) × Threads.Reach (start 3 0) s
    × (s.put ≡ 5 ∷ 6 ∷ 7 ∷ 8 ∷ [])
    × (s.taken ≡ 5 ∷ 6 ∷ [])
    × (empty s.queue ≡ true)
    × (s.producers 0 ≡ Producer.idle)
    × (s.producers 1 ≡ Producer.idle)
    × (s.consumers 0 ≡ Consumer.idle)
create-loses_example = create-loses 3 0 5 6 7 8 (omega arith)
