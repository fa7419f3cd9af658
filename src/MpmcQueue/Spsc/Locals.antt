-- ===== src/MpmcQueue/Spsc/Locals.antt =====
-- What the producer knows of the queue, and the tail, under the stores of the consumer.
use market_data_feed_handler.Prelude.{
  ℕ, ◌+◌, ◌≡◌, sym, ◌∙◌, ◌≢◌, ◌⊎◌, inl, inr, List, ◌∷◌, arith, ==_ne,
}
use market_data_feed_handler.Chain.{Links, store, occurs}
use market_data_feed_handler.MpmcQueue.{MpmcQueue}
use market_data_feed_handler.MpmcQueue.Threads.{Producer}
use market_data_feed_handler.MpmcQueue.Spsc.{owned, IsFilled, ProducerKnows, TailKnows}
use market_data_feed_handler.MpmcQueue.Spsc.Nodes.{occurs-apart}

pub em_eq : (a b : ℕ) → (a ≡ b) ⊎ (a ≢ b)
em_eq a b = ground arith

-- A filled node stays one under a store elsewhere.
pub IsFilled-store :
    {A : Type 0} (next : Links) (data_at : ℕ → A) (x : A) (node a v : ℕ)
    → a ≢ node
    → IsFilled next data_at x node
    → IsFilled (store next a v) data_at x node
IsFilled-store next data_at x node a v ne (d, z) = (d, rw (==_ne a node ne) z)

module _ {A : Type 0} (q : MpmcQueue A) (before : List ℕ) (last : ℕ) (free : List ℕ) where
  -- What the producer knows outlives the stores of the consumer. A tail that has a successor is one
  -- that the producer is about to move.
  pub help-Knows :
      (p : Producer A) (n : ℕ)
      → q.next q.tail ≡ n
      → n ≢ 0
      → q.next last ≡ 0
      → TailKnows q.tail q.next before last p
      → TailKnows n q.next before last p × ProducerKnows n q.next q.data_at free p
  help-Knows (Producer.swinging x node tail) n e ne z (f, inl t) = absurd (ne (sym e ∙ rw t z))
  help-Knows (Producer.swinging x node tail) n e ne z (f, inr (t, o, l)) =
      ((f, inl (sym e ∙ l)), tt)
  help-Knows Producer.idle n e ne z t = absurd (ne (sym e ∙ rw t z))
  help-Knows (Producer.again x) n e ne z t = absurd (ne (sym e ∙ rw t z))
  help-Knows (Producer.popping x node) n e ne z t = absurd (ne (sym e ∙ rw t z))
  help-Knows (Producer.popped x node m) n e ne z t = absurd (ne (sym e ∙ rw t z))
  help-Knows (Producer.granted x node) n e ne z t = absurd (ne (sym e ∙ rw t z))
  help-Knows (Producer.written x node) n e ne z t = absurd (ne (sym e ∙ rw t z))
  help-Knows (Producer.trying x node) n e ne z t = absurd (ne (sym e ∙ rw t z))
  help-Knows (Producer.at_tail x node tail) n e ne z t = absurd (ne (sym e ∙ rw t z))
  help-Knows (Producer.at_next x node tail m) n e ne z t = absurd (ne (sym e ∙ rw t z))
  help-Knows (Producer.linking x node tail) n e ne z t = absurd (ne (sym e ∙ rw t z))
  help-Knows (Producer.helping x node tail m) n e ne z t = absurd (ne (sym e ∙ rw t z))

  pub store-Knows :
      (p : Producer A) (a v : ℕ)
      → occurs a before + occurs a (last ∷ free) + occurs a (owned p) ≡ 0
      → ProducerKnows q.tail q.next q.data_at free p
      → ProducerKnows q.tail (store q.next a v) q.data_at free p
  store-Knows Producer.idle a v out k = tt
  store-Knows (Producer.again x) a v out k = tt
  store-Knows (Producer.popping x node) a v out k = k
  store-Knows (Producer.popped x node n) a v out (o, e) =
      (o, rw (==_ne a node (occurs-apart node a free o (ground (arith, out)))) e)
  store-Knows (Producer.granted x node) a v out k = k
  store-Knows (Producer.written x node) a v out k = k
  store-Knows (Producer.trying x node) a v out (ne, f) =
      (ne, IsFilled-store q.next q.data_at x node a v (ground (arith, out)) f)
  store-Knows (Producer.at_tail x node tail) a v out (ne, f, t) =
      (ne, IsFilled-store q.next q.data_at x node a v (ground (arith, out)) f, t)
  store-Knows (Producer.at_next x node tail n) a v out (ne, f, t, z) =
      (ne, IsFilled-store q.next q.data_at x node a v (ground (arith, out)) f, t, z)
  store-Knows (Producer.linking x node tail) a v out (ne, f, t) =
      (ne, IsFilled-store q.next q.data_at x node a v (ground (arith, out)) f, t)
  store-Knows (Producer.helping x node tail n) a v out k = k
  store-Knows (Producer.swinging x node tail) a v out k = tt

  pub store-Tail :
      (p : Producer A) (a v : ℕ)
      → occurs a before ≡ 0
      → TailKnows q.tail q.next before last p
      → TailKnows q.tail (store q.next a v) before last p
  store-Tail Producer.idle a v out k = k
  store-Tail (Producer.again x) a v out k = k
  store-Tail (Producer.popping x node) a v out k = k
  store-Tail (Producer.popped x node n) a v out k = k
  store-Tail (Producer.granted x node) a v out k = k
  store-Tail (Producer.written x node) a v out k = k
  store-Tail (Producer.trying x node) a v out k = k
  store-Tail (Producer.at_tail x node tail) a v out k = k
  store-Tail (Producer.at_next x node tail n) a v out k = k
  store-Tail (Producer.linking x node tail) a v out k = k
  store-Tail (Producer.helping x node tail n) a v out k = k
  store-Tail (Producer.swinging x node tail) a v out (e, inl t) = (e, inl t)
  store-Tail (Producer.swinging x node tail) a v out (e, inr (t, o, l)) =
      (e, inr (t, o, rw (==_ne a q.tail (occurs-apart q.tail a before o out)) l))

  pub push-Knows :
      (p : Producer A) (a : ℕ)
      → ProducerKnows q.tail q.next q.data_at free p
      → ProducerKnows q.tail q.next q.data_at (a ∷ free) p
  push-Knows Producer.idle a k = tt
  push-Knows (Producer.again x) a k = tt
  push-Knows (Producer.popping x node) a k = omega (arith, k)
  push-Knows (Producer.popped x node n) a (o, e) = (omega (arith, o), e)
  push-Knows (Producer.granted x node) a k = k
  push-Knows (Producer.written x node) a k = k
  push-Knows (Producer.trying x node) a k = k
  push-Knows (Producer.at_tail x node tail) a k = k
  push-Knows (Producer.at_next x node tail n) a k = k
  push-Knows (Producer.linking x node tail) a k = k
  push-Knows (Producer.helping x node tail n) a k = k
  push-Knows (Producer.swinging x node tail) a k = tt

  pub take-Tail :
      (p : Producer A) (h : ℕ)
      → h ≢ q.tail
      → TailKnows q.tail q.next (h ∷ before) last p
      → TailKnows q.tail q.next before last p
  take-Tail Producer.idle h ne k = k
  take-Tail (Producer.again x) h ne k = k
  take-Tail (Producer.popping x node) h ne k = k
  take-Tail (Producer.popped x node n) h ne k = k
  take-Tail (Producer.granted x node) h ne k = k
  take-Tail (Producer.written x node) h ne k = k
  take-Tail (Producer.trying x node) h ne k = k
  take-Tail (Producer.at_tail x node tail) h ne k = k
  take-Tail (Producer.at_next x node tail n) h ne k = k
  take-Tail (Producer.linking x node tail) h ne k = k
  take-Tail (Producer.helping x node tail n) h ne k = k
  take-Tail (Producer.swinging x node tail) h ne (e, inl t) = (e, inl t)
  take-Tail (Producer.swinging x node tail) h ne (e, inr (t, o, l)) =
      (e, inr (t, ground (arith, ne), l))
