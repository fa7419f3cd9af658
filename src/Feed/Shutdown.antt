-- ===== src/Feed/Shutdown.antt =====
-- The end of the feed's two threads, once `main` has set `g_shutdown`.
use market_data_feed_handler.Prelude.{
  ℕ, ◌+◌, ◌≤◌, ◌<◌, ◌≡◌, refl, ◌∙◌, ap, arith, Bool, true, false, List, [], ◌∷◌, length,
  length-append, ◌==◌, u64,
}
use market_data_feed_handler.Core.Event.{MarketEvent, default_event}
use market_data_feed_handler.CircularBuffer
use market_data_feed_handler.CircularBuffer.{CircularBuffer, try_push, try_pop, empty}
use market_data_feed_handler.CircularBuffer.Queue
use market_data_feed_handler.CircularBuffer.Invariant.{init-IsValid, IsCapacity, IsValid}
use market_data_feed_handler.CircularBuffer.Refine.{
  contents, length-contents, try_push_refines, try_pop_refines, size_refines,
}
use market_data_feed_handler.Metrics
use market_data_feed_handler.Metrics.{MetricsCollector}
use market_data_feed_handler.Feed.{
  Producer, idle, ready, refused, waiting_on, pushed, stopped, Standing, at_flag, at_buffer,
  in_body, popped, measured, checked, ended, System, Step, make, push, push_full, give_up, keep_on,
  count_full, count_received, stop, enter, look, enter_again, leave, consume, spin, measure,
  find_gap, find_none, count_processed, signal_shutdown, start, Reach, here, next, make_event,
}
use market_data_feed_handler.Feed.Numbers.{append_of_push, cons_of_pop}
use market_data_feed_handler.Feed.Invariant.{Reach-Inv, Reach-gapless}

-- How many events wait in the buffer.
abbrev pub waiting : ℕ → CircularBuffer MarketEvent → ℕ
waiting capacity b = length (contents capacity default_event b)

nil_of_pop :
    (q q' : List MarketEvent) (item out : MarketEvent) (ok : Bool)
    → (ok, out, q') ≡ Queue.pop q item
    → ok ≡ false
    → length q ≡ 0
unfolding Queue.pop
nil_of_pop [] q' item out ok e f = refl
nil_of_pop (x ∷ q) q' item out ok e f =
    let t : ok ≡ true = ap (λ p. p.0) e in absurd (ground (arith, t, f))

module _ {capacity : ℕ} (c : IsCapacity capacity) {b : CircularBuffer MarketEvent}
    (v : IsValid capacity b) where
  pub waiting-pushed :
      (event : MarketEvent)
      → (try_push capacity b event).0 ≡ true
      → waiting capacity (try_push capacity b event).1 ≡ waiting capacity b + 1
  waiting-pushed event ok =
      rw (append_of_push capacity _ _ event _ (try_push_refines c default_event event v) ok)
        (length-append (contents capacity default_event b) (event ∷ []))

  push_accepted :
      (event : MarketEvent)
      → waiting capacity b + 1 < capacity
      → (try_push capacity b event).0 ≡ true
  unfolding Queue.push
  push_accepted event room =
      let other : (waiting capacity b + 1 == capacity) ≡ false = ground arith in
      rw other at (ap (λ p. p.0) (try_push_refines c default_event event v))

  pub waiting-popped :
      (item : MarketEvent)
      → (try_pop capacity b item).0 ≡ true
      → waiting capacity b ≡ waiting capacity (try_pop capacity b item).2 + 1
  waiting-popped item ok =
      ap length (cons_of_pop _ _ item _ _ (try_pop_refines c default_event item v) ok) ∙ omega arith

  pub waiting-none :
      (item : MarketEvent) → (try_pop capacity b item).0 ≡ false → waiting capacity b ≡ 0
  waiting-none item ok = nil_of_pop _ _ item _ _ (try_pop_refines c default_event item v) ok

  pub waiting-empty : empty b ≡ (waiting capacity b == 0)
  waiting-empty = (size_refines c default_event v).1

  pub waiting_bound : waiting capacity b < capacity
  waiting_bound =
      rw (length-contents capacity default_event b) (ground (arith, v.write_in, v.read_in))

-- How many events the producer still pushes, once `g_shutdown` is set.
abbrev pub unpushed : Producer → ℕ
unpushed (ready event) = 1
unpushed (refused event) = 1
unpushed (waiting_on event) = 1
unpushed _ = 0

-- What a thread that has read `g_shutdown` knows.
abbrev Knows : Standing → Bool → ℕ → Type 0
Knows at_buffer shutdown n = shutdown ≡ true
Knows ended shutdown n = (shutdown ≡ true) × (n ≤ 1)
Knows _ shutdown n = Unit

abbrev Ends : ℕ → System → Type 0
Ends capacity s = Knows s.standing s.shutdown (unpushed s.producer + waiting capacity s.buffer)

Knows-mono :
    (t : Standing) (shutdown : Bool) (n m : ℕ) → m ≤ n → Knows t shutdown n → Knows t shutdown m
Knows-mono at_flag shutdown n m h k = tt
Knows-mono at_buffer shutdown n m h k = k
Knows-mono in_body shutdown n m h k = tt
Knows-mono (popped event) shutdown n m h k = tt
Knows-mono (measured event) shutdown n m h k = tt
Knows-mono checked shutdown n m h k = tt
Knows-mono ended shutdown n m h (k, l) = (k, omega arith)

-- Before `g_shutdown` is set.
Knows-early :
    (t : Standing) (shutdown : Bool) (n m : ℕ)
    → shutdown ≡ false
    → Knows t shutdown n
    → Knows t shutdown m
Knows-early at_flag shutdown n m e k = tt
Knows-early at_buffer shutdown n m e k = k
Knows-early in_body shutdown n m e k = tt
Knows-early (popped event) shutdown n m e k = tt
Knows-early (measured event) shutdown n m e k = tt
Knows-early checked shutdown n m e k = tt
Knows-early ended shutdown n m e (k, l) = absurd (ground (arith, e, k))

Knows-signalled : (t : Standing) (shutdown : Bool) (n : ℕ) → Knows t shutdown n → Knows t true n
Knows-signalled at_flag shutdown n k = tt
Knows-signalled at_buffer shutdown n k = refl
Knows-signalled in_body shutdown n k = tt
Knows-signalled (popped event) shutdown n k = tt
Knows-signalled (measured event) shutdown n k = tt
Knows-signalled checked shutdown n k = tt
Knows-signalled ended shutdown n (k, l) = (refl, l)

unpushed_bound : (p : Producer) → unpushed p ≤ 1
unpushed_bound idle = omega arith
unpushed_bound (ready event) = omega arith
unpushed_bound (refused event) = omega arith
unpushed_bound (waiting_on event) = omega arith
unpushed_bound pushed = omega arith
unpushed_bound stopped = omega arith

module _ {capacity frequency : ℕ} (c : IsCapacity capacity) where
  Step-Ends :
      {s t : System}
      → IsValid capacity s.buffer
      → Ends capacity s
      → Step capacity frequency s t
      → Ends capacity t
  Step-Ends {s} v k (make now_ns tsc p g) = Knows-early s.standing s.shutdown _ _ g k
  Step-Ends {s} v k (push {event} p ok) =
      Knows-mono s.standing s.shutdown _ _ (rw p (omega (arith, waiting-pushed c v event ok))) k
  Step-Ends {s} v k (push_full p ok) = Knows-mono s.standing s.shutdown _ _ (rw p (omega arith)) k
  Step-Ends {s} v k (give_up p g) = Knows-mono s.standing s.shutdown _ _ (omega arith) k
  Step-Ends {s} v k (keep_on p g) = Knows-mono s.standing s.shutdown _ _ (rw p (omega arith)) k
  Step-Ends {s} v k (count_full p) = Knows-mono s.standing s.shutdown _ _ (rw p (omega arith)) k
  Step-Ends {s} v k (count_received p) = Knows-mono s.standing s.shutdown _ _ (omega arith) k
  Step-Ends {s} v k (stop p g) = Knows-mono s.standing s.shutdown _ _ (omega arith) k
  Step-Ends {s} v k (enter p g) = tt
  Step-Ends {s} v k (look p g) = g
  Step-Ends {s} v k (enter_again p e) = tt
  Step-Ends {s} v k (leave p e) =
      let none : waiting capacity s.buffer ≡ 0 = ground (arith, e, waiting-empty c v) in
      let k' : s.shutdown ≡ true = rw p at k in (k', omega (arith, none, unpushed_bound s.producer))
  Step-Ends {s} v k (consume item p ok) = tt
  Step-Ends {s} v k (measure failures current_tsc p e) = tt
  Step-Ends {s} v k (find_gap p g) = tt
  Step-Ends {s} v k (find_none p g) = tt
  Step-Ends {s} v k (count_processed p) = tt
  Step-Ends {s} v k (spin item p ok) = tt
  Step-Ends {s} v k (signal_shutdown g) = Knows-signalled s.standing s.shutdown _ k

  Reach-Ends :
      (storage : List MarketEvent) (raw : MetricsCollector) {s : System}
      → length storage ≡ capacity
      → Reach capacity frequency (start capacity storage (Metrics.reset raw)) s
      → Ends capacity s
  Reach-Ends storage raw h here = tt
  Reach-Ends storage raw h (next r step) =
      Step-Ends (Reach-Inv c storage raw h r).valid (Reach-Ends storage raw h r) step

  -- When both threads have ended, in whatever interleaving, at most one event is left in the buffer,
  -- and the received messages are the processed ones and those that are left, modulo 2^64.
  pub Reach-ended :
      (storage : List MarketEvent) (raw : MetricsCollector) {s : System}
      → length storage ≡ capacity
      → Reach capacity frequency (start capacity storage (Metrics.reset raw)) s
      → s.producer ≡ stopped
      → s.standing ≡ ended
      → (waiting capacity s.buffer ≤ 1)
        × (u64 s.metrics.messages_received
            ≡ u64 (s.metrics.messages_processed + waiting capacity s.buffer))
  Reach-ended storage raw {s} h r p t =
      let k : (s.shutdown ≡ true) × (unpushed stopped + waiting capacity s.buffer ≤ 1) =
        rw (p, t) at (Reach-Ends storage raw h r) in
      let g = rw (p, t) at (Reach-gapless c storage raw h r).2 in
      (omega (arith, k.1), omega (arith, g))

  -- One event can be left, for every capacity from two on: the consumer finds the buffer empty after
  -- `g_shutdown` is set and ends, and the producer, which has made an event before, pushes it then. It
  -- is counted as received, and nobody processes it.
  pub start-leaves_one :
      (storage : List MarketEvent) (raw : MetricsCollector)
      → length storage ≡ capacity
      → 2 ≤ capacity
      → (s : System) × Reach capacity frequency (start capacity storage (Metrics.reset raw)) s
        × (s.producer ≡ stopped)
        × (s.standing ≡ ended)
        × (s.metrics.messages_received ≡ 1)
        × (s.metrics.messages_processed ≡ 0)
        × (waiting capacity s.buffer ≡ 1)
  unfolding CircularBuffer.init Metrics.reset empty Metrics.record_message_received
  start-leaves_one storage raw h two =
      let first = start capacity storage (Metrics.reset raw) in
      let event = make_event 0 0 0 in
      let b = first.buffer in
      let v : IsValid capacity b = init-IsValid c storage h in
      let none : waiting capacity b ≡ 0 = rw (length-contents capacity default_event b) refl in
      let ok : (try_push capacity b event).0 ≡ true =
        push_accepted c v event (omega (arith, none, two)) in
      let made : Reach capacity frequency first _ = next here (make 0 0 refl refl) in
      let left : Reach capacity frequency first _ =
        next (next (next made (signal_shutdown refl)) (look refl refl)) (leave refl refl) in
      let pushed_late : Reach capacity frequency first _ =
        next (next (next left (push refl ok)) (count_received refl)) (stop refl refl) in
      (_, pushed_late, refl, refl, refl, refl, waiting-pushed c v event ok ∙ omega (arith, none))
