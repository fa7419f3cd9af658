-- ===== src/Feed/Invariant.antt =====
-- The numbers and counts of the feed, in the states that its threads reach.
use market_data_feed_handler.Prelude.{
  ℕ, ◌+◌, ◌≡◌, refl, ◌∙◌, sym, ap, List, [], ◌∷◌, arith, length, length-append, u64,
}
use market_data_feed_handler.Core.Event.{MarketEvent, default_event}
use market_data_feed_handler.CircularBuffer
use market_data_feed_handler.CircularBuffer.{CircularBuffer, try_push, try_pop}
use market_data_feed_handler.CircularBuffer.Invariant.{
  IsCapacity, IsValid, init-IsValid, try_push-IsValid, try_pop-IsValid,
}
use market_data_feed_handler.CircularBuffer.Refine.{contents, try_push_refines, try_pop_refines}
use market_data_feed_handler.Metrics
use market_data_feed_handler.Metrics.{
  MetricsCollector, record_message_received, record_message_processed, record_sequence_gap,
  record_queue_full,
}
use market_data_feed_handler.Feed.{
  make_event, record_end_to_end, measured, System, Step, make, push, push_full, give_up, keep_on,
  count_full, count_received, stop, enter, look, enter_again, leave, consume, spin, measure,
  find_gap, find_none, count_processed, signal_shutdown, start, Reach, here, next,
}
use market_data_feed_handler.Feed.Numbers.{
  Numbered, Numbers, Seen, in_hand, uncounted, Counts, Numbered-append, Numbered-congruent, not_gap,
  append_of_push, cons_of_pop,
}

-- A reachable state, with some number of events counted as processed.
pub record Inv (capacity : ℕ) (s : System) : Type 0 where
  pub done : ℕ
  pub valid : IsValid capacity s.buffer
  pub counts : Counts done (contents capacity default_event s.buffer) s

-- A step that leaves the buffer and the counts of messages as they are.
held :
    {capacity : ℕ} {s t : System} (i : Inv capacity s)
    → t.buffer ≡ s.buffer
    → t.sequence ≡ s.sequence
    → t.consumer.processed ≡ s.consumer.processed
    → t.metrics.messages_received ≡ s.metrics.messages_received
    → t.metrics.messages_processed ≡ s.metrics.messages_processed
    → t.metrics.sequence_gaps ≡ s.metrics.sequence_gaps
    → in_hand t.standing ≡ in_hand s.standing
    → uncounted t.producer ≡ uncounted s.producer
    → Numbers
        (i.done + in_hand s.standing + length (contents capacity default_event s.buffer))
        s.sequence
        t.producer
    → Seen i.done t.consumer t.standing
    → Inv capacity t
held i b n c r m g h u numbers seen = record {
  done = i.done;
  valid = rw b i.valid;
  counts = record {
    numbered = rw (b, h) i.counts.numbered;
    numbers = rw (b, h, n) numbers;
    processed = c ∙ i.counts.processed;
    last = seen;
    received = rw (b, h, u, r) i.counts.received;
    counted = m ∙ i.counts.counted;
    gapless = g ∙ i.counts.gapless;
  };
}

module _ {capacity frequency : ℕ} (c : IsCapacity capacity) where
  pub Step-Inv : {s t : System} → Inv capacity s → Step capacity frequency s t → Inv capacity t
  unfolding make_event record_queue_full record_message_received record_message_processed
      record_end_to_end
  Step-Inv {s} i (make now_ns tsc p g) =
      let n = rw p at i.counts.numbers in
      let r = rw p at i.counts.received in
      record {
        done = i.done;
        valid = i.valid;
        counts = record {
          numbered = i.counts.numbered;
          numbers = (n, ground arith);
          processed = i.counts.processed;
          last = i.counts.last;
          received = r;
          counted = i.counts.counted;
          gapless = i.counts.gapless;
        };
      }
  Step-Inv {s} i (push {event} p ok) =
      let n = rw p at i.counts.numbers in
      let r = rw p at i.counts.received in
      let q =
        append_of_push capacity _ _ event _ (try_push_refines c default_event event i.valid) ok in
      let l : length (contents capacity default_event (try_push capacity s.buffer event).1)
          ≡ length (contents capacity default_event s.buffer) + 1 =
        rw q (length-append (contents capacity default_event s.buffer) (event ∷ [])) in
      record {
        done = i.done;
        valid = try_push-IsValid c event i.valid;
        counts = record {
          numbered = rw q (Numbered-append _ _ event i.counts.numbered n.0);
          numbers = rw l (omega (arith, n.1));
          processed = i.counts.processed;
          last = i.counts.last;
          received = rw l (ground arith);
          counted = i.counts.counted;
          gapless = i.counts.gapless;
        };
      }
  Step-Inv i (push_full p ok) =
      held i refl refl refl refl refl refl refl (ap uncounted (sym p)) (rw p at i.counts.numbers)
        i.counts.last
  Step-Inv i (give_up p g) =
      held i refl refl refl refl refl refl refl (ap uncounted (sym p)) tt i.counts.last
  Step-Inv i (keep_on p g) =
      held i refl refl refl refl refl refl refl (ap uncounted (sym p)) (rw p at i.counts.numbers)
        i.counts.last
  Step-Inv i (count_full p) =
      held i refl refl refl refl refl refl refl (ap uncounted (sym p)) (rw p at i.counts.numbers)
        i.counts.last
  Step-Inv {s} i (count_received p) =
      let n = rw p at i.counts.numbers in
      let r = rw p at i.counts.received in
      record {
        done = i.done;
        valid = i.valid;
        counts = record {
          numbered = i.counts.numbered;
          numbers = n;
          processed = i.counts.processed;
          last = i.counts.last;
          received = ground arith;
          counted = i.counts.counted;
          gapless = i.counts.gapless;
        };
      }
  Step-Inv i (stop p g) =
      held i refl refl refl refl refl refl refl (ap uncounted (sym p)) tt i.counts.last
  Step-Inv i (enter p g) =
      held i refl refl refl refl refl refl (ap in_hand (sym p)) refl i.counts.numbers
        (rw p at i.counts.last)
  Step-Inv i (look p g) =
      held i refl refl refl refl refl refl (ap in_hand (sym p)) refl i.counts.numbers
        (rw p at i.counts.last)
  Step-Inv i (enter_again p e) =
      held i refl refl refl refl refl refl (ap in_hand (sym p)) refl i.counts.numbers
        (rw p at i.counts.last)
  Step-Inv i (leave p e) =
      held i refl refl refl refl refl refl (ap in_hand (sym p)) refl i.counts.numbers
        (rw p at i.counts.last)
  Step-Inv {s} i (consume item p ok) =
      let rest = contents capacity default_event (try_pop capacity s.buffer item).2 in
      let q = cons_of_pop _ _ item _ _ (try_pop_refines c default_event item i.valid) ok in
      let none_in_hand : i.done + in_hand s.standing ≡ i.done = rw p (omega arith) in
      let n = rw (none_in_hand, q) at i.counts.numbered in
      let l : i.done + in_hand s.standing + length (contents capacity default_event s.buffer)
          ≡ i.done + 1 + length rest =
        rw (p, q) (omega arith) in
      record {
        done = i.done;
        valid = try_pop-IsValid c item i.valid;
        counts = record {
          numbered = n.1;
          numbers = rw l at i.counts.numbers;
          processed = i.counts.processed;
          last = (n.0, rw p at i.counts.last);
          received = rw l at i.counts.received;
          counted = i.counts.counted;
          gapless = i.counts.gapless;
        };
      }
  Step-Inv i (spin item p ok) =
      held i refl refl refl refl refl refl (ap in_hand (sym p)) refl i.counts.numbers
        (rw p at i.counts.last)
  Step-Inv i (measure failures current_tsc p e) =
      held i refl refl refl refl refl refl (ap in_hand (sym p)) refl i.counts.numbers
        (rw p at i.counts.last)
  Step-Inv {s} i (find_gap {event} p g) =
      let seen : Seen i.done s.consumer (measured event) = rw p at i.counts.last in
      let none = not_gap s.consumer event i.done seen.0 i.counts.processed seen.1 in
      absurd (ground (arith, g, none))
  Step-Inv {s} i (find_none {event} p g) =
      let seen : Seen i.done s.consumer (measured event) = rw p at i.counts.last in
      held i refl refl refl refl refl refl (ap in_hand (sym p)) refl i.counts.numbers seen.0
  Step-Inv {s} i (count_processed p) =
      let seen : s.consumer.last_sequence ≡ u64 i.done = rw p at i.counts.last in
      let one : i.done + in_hand s.standing ≡ i.done + 1 + 0 = rw p (omega arith) in
      record {
        done = i.done + 1;
        valid = i.valid;
        counts = record {
          numbered = rw one at i.counts.numbered;
          numbers = rw one at i.counts.numbers;
          processed = omega (arith, i.counts.processed);
          last = λ _. omega (arith, seen);
          received = rw one at i.counts.received;
          counted = omega (arith, i.counts.counted);
          gapless = i.counts.gapless;
        };
      }
  Step-Inv i (signal_shutdown g) =
      held i refl refl refl refl refl refl refl refl i.counts.numbers i.counts.last

  pub Reach-Inv :
      (storage : List MarketEvent) (raw : MetricsCollector) {s : System}
      → length storage ≡ capacity
      → Reach capacity frequency (start capacity storage (Metrics.reset raw)) s
      → Inv capacity s
  unfolding Metrics.reset CircularBuffer.init
  Reach-Inv storage raw h here = record {
    done = 0;
    valid = init-IsValid c storage h;
    counts = record {
      numbered = tt;
      numbers = refl;
      processed = refl;
      last = λ t. absurd (omega arith);
      received = refl;
      counted = refl;
      gapless = refl;
    };
  }
  Reach-Inv storage raw h (next r step) = Step-Inv (Reach-Inv storage raw h r) step

  -- In every state that the two threads reach from the start of the program, in any interleaving, for
  -- a valid capacity: no sequence gap has been recorded; the consumer's count and the metric of
  -- processed messages agree; the received messages, with one that is pushed and not yet counted,
  -- are the processed ones, one that the consumer has in hand, and those in the buffer, modulo 2^64;
  -- and the events in the buffer carry consecutive numbers, from those on that are processed or in
  -- hand.
  pub Reach-gapless :
      (storage : List MarketEvent) (raw : MetricsCollector) {s : System}
      → length storage ≡ capacity
      → Reach capacity frequency (start capacity storage (Metrics.reset raw)) s
      → (s.metrics.sequence_gaps ≡ 0)
        × (s.metrics.messages_processed ≡ s.consumer.processed)
        × (u64 (s.metrics.messages_received + uncounted s.producer)
            ≡ u64 (
                s.metrics.messages_processed
                + in_hand s.standing
                + length (contents capacity default_event s.buffer)))
        × Numbered
            (s.metrics.messages_processed + in_hand s.standing)
            (contents capacity default_event s.buffer)
  Reach-gapless storage raw h r =
      let i = Reach-Inv storage raw h r in
      let k = i.counts in
      (
        k.gapless,
        k.counted ∙ sym k.processed,
        omega (arith, k.received, k.counted),
        Numbered-congruent (i.done + _) _ _ (omega (arith, k.counted)) k.numbered,
      )
