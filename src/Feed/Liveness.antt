-- ===== src/Feed/Liveness.antt =====
-- The feed's threads come to their end: how many steps are left once `g_shutdown` is set.
use market_data_feed_handler.Prelude.{
  ℕ, ◌+◌, ◌*◌, ◌≤◌, ◌≡◌, ◌≢◌, refl, ◌∙◌, sym, arith, true, false, Bool-cases, inl, inr, some, ◌==◌,
  List, length, ◌⊎◌, if◌then◌else◌, zero, suc,
}
use market_data_feed_handler.Core.Event.{MarketEvent, default_event}
use market_data_feed_handler.CircularBuffer.{try_push, try_pop, empty}
use market_data_feed_handler.CircularBuffer.Invariant.{
  IsCapacity, IsValid, try_push-IsValid, try_pop-IsValid,
}
use market_data_feed_handler.Metrics
use market_data_feed_handler.Metrics.{MetricsCollector}
use market_data_feed_handler.Timestamp.{tsc_to_ns}
use market_data_feed_handler.Feed.{
  Producer, idle, ready, refused, waiting_on, pushed, stopped, Standing, at_flag, at_buffer,
  in_body, popped, measured, checked, ended, System, Step, make, push, push_full, give_up, keep_on,
  count_full, count_received, stop, enter, look, enter_again, leave, consume, spin, measure,
  find_gap, find_none, count_processed, signal_shutdown, start, Reach, here, next, is_gap,
  measure_latency,
}
use market_data_feed_handler.Feed.Invariant.{Reach-Inv}
use market_data_feed_handler.Feed.Shutdown.{
  waiting, waiting-pushed, waiting-popped, waiting-none, waiting-empty, waiting_bound,
}

-- A bound on the steps that a producer still makes, and on what they cost the consumer.
abbrev to_push : Producer → ℕ
to_push idle = 1
to_push (ready event) = 9
to_push (refused event) = 1
to_push (waiting_on event) = 10
to_push pushed = 2
to_push stopped = 0

-- The consumer's steps besides those that take an event; a body that finds nothing is one more.
abbrev to_look : Standing → ℕ → ℕ
to_look at_flag n = 2
to_look at_buffer n = 1
to_look in_body n = if n == 0 then 3 else 0
to_look (popped event) n = 5
to_look (measured event) n = 4
to_look checked n = 3
to_look ended n = 0

-- What is left to do once `g_shutdown` is set.
abbrev pub left : ℕ → System → ℕ
left capacity s =
    let n = waiting capacity s.buffer in to_push s.producer + 6 * n + to_look s.standing n

module _ {capacity frequency : ℕ} where
  -- The number of steps of a run.
  abbrev pub steps : {s t : System} → Reach capacity frequency s t → ℕ
  steps here = 0
  steps (next r step) = steps r + 1

to_push_bound : (p : Producer) → to_push p ≤ 10
to_push_bound idle = omega arith
to_push_bound (ready event) = omega arith
to_push_bound (refused event) = omega arith
to_push_bound (waiting_on event) = omega arith
to_push_bound pushed = omega arith
to_push_bound stopped = omega arith

to_look_bound : (t : Standing) (n : ℕ) → to_look t n ≤ 5
to_look_bound at_flag n = omega arith
to_look_bound at_buffer n = omega arith
to_look_bound in_body n = ground arith
to_look_bound (popped event) n = omega arith
to_look_bound (measured event) n = omega arith
to_look_bound checked n = omega arith
to_look_bound ended n = omega arith

to_look-pushed : (t : Standing) (n : ℕ) → to_look t (n + 1) ≤ to_look t n
to_look-pushed at_flag n = omega arith
to_look-pushed at_buffer n = omega arith
to_look-pushed in_body n = ground arith
to_look-pushed (popped event) n = omega arith
to_look-pushed (measured event) n = omega arith
to_look-pushed checked n = omega arith
to_look-pushed ended n = omega arith

measure_latency-some :
    (current_tsc : ℕ) {frequency : ℕ} (event : MarketEvent)
    → frequency ≢ 0
    → (latency_ns : ℕ) × (measure_latency frequency current_tsc event ≡ some latency_ns)
unfolding measure_latency tsc_to_ns
measure_latency-some current_tsc {frequency} event ne =
    let some_frequency : (frequency == 0) ≡ false = ground arith in rw some_frequency (_, refl)

left_bound :
    {capacity : ℕ}
    → IsCapacity capacity
    → (s : System) → IsValid capacity s.buffer
    → left capacity s ≤ 6 * capacity + 9
left_bound {capacity} c s v = omega (
  arith,
  waiting_bound c v,
  to_push_bound s.producer,
  to_look_bound s.standing (waiting capacity s.buffer),
)

module _ {capacity frequency : ℕ} (c : IsCapacity capacity) where
  Step-left :
      {s t : System}
      → IsValid capacity s.buffer
      → s.shutdown ≡ true
      → Step capacity frequency s t
      → IsValid capacity t.buffer × (t.shutdown ≡ true) × (left capacity t + 1 ≤ left capacity s)
  Step-left {s} v d (make now_ns tsc p g) = absurd (ground (arith, d, g))
  Step-left {s} v d (push {event} p ok) =
      let n = waiting-pushed c v event ok in
      let l = to_look-pushed s.standing (waiting capacity s.buffer) in
      (try_push-IsValid c event v, d, rw (p, n) (omega (arith, l)))
  Step-left {s} v d (push_full p ok) = (v, d, rw p (omega arith))
  Step-left {s} v d (give_up p g) = (v, d, rw p (omega arith))
  Step-left {s} v d (keep_on p g) = absurd (ground (arith, d, g))
  Step-left {s} v d (count_full p) = (v, d, rw p (omega arith))
  Step-left {s} v d (count_received p) = (v, d, rw p (omega arith))
  Step-left {s} v d (stop p g) = (v, d, rw p (omega arith))
  Step-left {s} v d (enter p g) = absurd (ground (arith, d, g))
  Step-left {s} v d (look p g) = (v, d, rw p (omega arith))
  Step-left {s} v d (enter_again p e) =
      let some_wait : (waiting capacity s.buffer == 0) ≡ false = sym (waiting-empty c v) ∙ e in
      (v, d, rw (p, some_wait) (omega arith))
  Step-left {s} v d (leave p e) = (v, d, rw p (omega arith))
  Step-left {s} v d (consume item p ok) =
      let n = waiting-popped c v item ok in
      let some_wait : (waiting capacity s.buffer == 0) ≡ false = ground (arith, n) in
      (try_pop-IsValid c item v, d, rw (p, some_wait) (omega (arith, n)))
  Step-left {s} v d (measure failures current_tsc p e) = (v, d, rw p (omega arith))
  Step-left {s} v d (find_gap p g) = (v, d, rw p (omega arith))
  Step-left {s} v d (find_none p g) = (v, d, rw p (omega arith))
  Step-left {s} v d (count_processed p) = (v, d, rw p (omega arith))
  Step-left {s} v d (spin item p ok) =
      let n = waiting-none c v item ok in (v, d, rw (p, n) (omega arith))
  Step-left {s} v d (signal_shutdown g) = absurd (ground (arith, d, g))

  Reach-left :
      {s t : System}
      → IsValid capacity s.buffer
      → s.shutdown ≡ true
      → (r : Reach capacity frequency s t)
      → IsValid capacity t.buffer
        × (t.shutdown ≡ true)
        × (left capacity t + steps r ≤ left capacity s)
  Reach-left v d here = (v, d, omega arith)
  Reach-left v d (next r step) =
      let (v', d', b) = Reach-left v d r in
      let (v'', d'', b') = Step-left v' d' step in (v'', d'', omega (arith, b, b'))

  -- A thread that has not ended can go on.
  Step-progress :
      frequency ≢ 0
      → (s : System) → s.shutdown ≡ true
      → ((s.producer ≡ stopped) × (s.standing ≡ ended))
        ⊎ ((t : System) × Step capacity frequency s t)
  Step-progress ne s d = produce s.producer refl
    where
      consume_next :
          s.producer ≡ stopped
          → (p : Standing) → s.standing ≡ p
          → ((s.producer ≡ stopped) × (s.standing ≡ ended))
            ⊎ ((t : System) × Step capacity frequency s t)
      consume_next h at_flag e = inr (_, look e d)
      consume_next h at_buffer e = elim (Bool-cases (empty s.buffer)) [
        | inl h ↦ inr (_, leave e h)
        | inr h ↦ inr (_, enter_again e h)
      ]
      consume_next h in_body e = elim (Bool-cases (try_pop capacity s.buffer default_event).0) [
        | inl some_event ↦ inr (_, consume default_event e some_event)
        | inr h ↦ inr (_, spin default_event e h)
      ]
      consume_next h (popped event) e =
          let (ns, f) = measure_latency-some 0 event ne in inr (_, measure 0 0 e f)
      consume_next h (measured event) e = elim (Bool-cases (is_gap s.consumer event)) [
        | inl g ↦ inr (_, find_gap e g)
        | inr g ↦ inr (_, find_none e g)
      ]
      consume_next h checked e = inr (_, count_processed e)
      consume_next h ended e = inl (h, e)

      produce :
          (p : Producer)
          → s.producer ≡ p
          → ((s.producer ≡ stopped) × (s.standing ≡ ended))
            ⊎ ((t : System) × Step capacity frequency s t)
      produce idle e = inr (_, stop e d)
      produce (ready event) e = elim (Bool-cases (try_push capacity s.buffer event).0) [
        | inl h ↦ inr (_, push e h)
        | inr h ↦ inr (_, push_full e h)
      ]
      produce (refused event) e = inr (_, give_up e d)
      produce (waiting_on event) e = inr (_, count_full e)
      produce pushed e = inr (_, count_received e)
      produce stopped e = consume_next e s.standing refl

  ends_within :
      frequency ≢ 0
      → (bound : ℕ) {first s : System} → Reach capacity frequency first s
      → IsValid capacity s.buffer
      → s.shutdown ≡ true
      → left capacity s ≤ bound
      → (t : System) × Reach capacity frequency first t
        × (t.producer ≡ stopped)
        × (t.standing ≡ ended)
  ends_within ne zero {s} r v d h = elim (Step-progress ne s d) [
    | inl e ↦ (s, r, e.0, e.1)
    | inr (t, step) ↦ let (v', d', l) = Step-left v d step in absurd (omega (arith, h, l))
  ]
  ends_within ne (suc bound) {s} r v d h = elim (Step-progress ne s d) [
    | inl e ↦ (s, r, e.0, e.1)
    | inr (t, step) ↦
        let (v', d', l) = Step-left v d step in
        ends_within ne bound (next r step) v' d' (omega (arith, h, l))
  ]

  module _ (storage : List MarketEvent) (raw : MetricsCollector) {s : System}
      (h : length storage ≡ capacity)
      (r : Reach capacity frequency (start capacity storage (Metrics.reset raw)) s)
      (down : s.shutdown ≡ true) where
    -- Once `g_shutdown` is set, for a valid capacity, the threads make at most `6 * capacity + 9` more steps, in whatever
    -- interleaving, so that neither of them runs for ever. A step is one call of `try_push`, `try_pop`,
    -- `empty` or the histogram's `record`, one addition to a counter, one load of `g_shutdown`, or a gap
    -- check that finds none.
    pub Reach-stops :
        {t : System} (more : Reach capacity frequency s t) → steps more ≤ 6 * capacity + 9
    Reach-stops more =
        let v = (Reach-Inv c storage raw h r).valid in
        omega (arith, (Reach-left v down more).2, left_bound c s v)

    -- Nor does either of them wait for ever: from every state that is reached, once `g_shutdown` is
    -- set and where the clock's frequency is not 0, both can go on to their end.
    pub Reach-ends :
        frequency ≢ 0
        → (t : System) × Reach capacity frequency s t
          × (t.producer ≡ stopped)
          × (t.standing ≡ ended)
    Reach-ends ne =
        ends_within ne (left capacity s) here (Reach-Inv c storage raw h r).valid down (omega arith)
