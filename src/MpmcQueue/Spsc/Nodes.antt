-- ===== src/MpmcQueue/Spsc/Nodes.antt =====
-- The nodes of a queue, and what the consumer knows of them, under the stores of the producer.
use market_data_feed_handler.Prelude.{
  ℕ, ◌≤◌, ◌≡◌, refl, ◌≢◌, ◌⊎◌, inl, inr, false, List, [], ◌∷◌, ◌++◌, arith, ◌==◌, ==_refl, ==_ne,
}
use market_data_feed_handler.Chain.{Links, store, occurs, Chain}
use market_data_feed_handler.MpmcQueue.{MpmcQueue}
use market_data_feed_handler.MpmcQueue.Steps.{Chain-occurs}
use market_data_feed_handler.MpmcQueue.Threads.{Consumer}
use market_data_feed_handler.MpmcQueue.Spsc.{reclaimed, ConsumerKnows}

-- A chain ends at its last node.
pub Chain-ends :
    (next : Links) (p : ℕ) (xs : List ℕ) (t : ℕ) → Chain next p (xs ++ (t ∷ [])) → next t ≡ 0
Chain-ends next p [] t (e, ne, c) = c
Chain-ends next p (x ∷ xs) t (e, ne, c) = Chain-ends next (next x) xs t c

-- So does what follows a chain's first node, if that is not null.
pub Chain-second :
    (next : Links) (p : ℕ) (xs : List ℕ) (t : ℕ)
    → Chain next p (xs ++ (t ∷ []))
    → next p ≢ 0
    → 1 ≤ occurs (next p) (xs ++ (t ∷ []))
Chain-second next p [] t (e, ne, c) n = absurd (n (rw e c))
Chain-second next p (x ∷ xs) t (e, ne, c) n =
    let o = rw (← e) at (Chain-occurs next (next x) xs t c) in omega (arith, o)

pub occurs-apart : (a b : ℕ) (xs : List ℕ) → 1 ≤ occurs a xs → occurs b xs ≡ 0 → b ≢ a
occurs-apart a b xs h out e = omega (arith, rw e at out)

-- Its first node is not its last, unless it is the only one.
pub Chain-first_apart :
    (next : Links) (p : ℕ) (xs : List ℕ) (t : ℕ)
    → occurs t xs ≡ 0
    → Chain next p (xs ++ (t ∷ []))
    → (t ≢ p) ⊎ ((next p ≡ 0) × (xs ≡ []))
Chain-first_apart next p [] t out (e, ne, c) = inr (rw e c, refl)
Chain-first_apart next p (x ∷ xs) t out (e, ne, c) = inl (λ f. ground (arith, ==_refl x))

module _ {A : Type 0} (q : MpmcQueue A) where
  -- What the consumer knows outlives the stores of the producer.
  pub data-Knows :
      (c : Consumer A) (a : ℕ) (v : A)
      → (q.next q.head ≢ 0 → a ≢ q.next q.head)
      → ConsumerKnows q.head q.tail q.next q.data_at c
      → ConsumerKnows q.head q.tail q.next (store q.data_at a v) c
  data-Knows Consumer.idle a v o k = k
  data-Knows (Consumer.at_head item head) a v o k = k
  data-Knows (Consumer.at_tail item head tail) a v o k = k
  data-Knows (Consumer.at_next item head tail n) a v o k = k
  data-Knows (Consumer.helping item tail n) a v o k = k
  data-Knows (Consumer.reading item head n) a v o k = k
  data-Knows (Consumer.swinging item head n) a v o (e, ne, nn, s, d) =
      let apart : a ≢ n = λ f. o (omega arith) (omega arith) in
      (e, ne, nn, s, rw (==_ne a n apart) d)
  data-Knows (Consumer.again item) a v o k = k
  data-Knows (Consumer.freeing node) a v o k = k
  data-Knows (Consumer.storing node old_head) a v o k = k
  data-Knows (Consumer.pushing node old_head) a v o k = k

  pub next-Knows :
      (c : Consumer A) (a v : ℕ)
      → (a ≢ q.head) ⊎ (q.next q.head ≡ 0)
      → occurs a (reclaimed c) ≡ 0
      → ConsumerKnows q.head q.tail q.next q.data_at c
      → ConsumerKnows q.head q.tail (store q.next a v) q.data_at c
  next-Knows Consumer.idle a v o out k = k
  next-Knows (Consumer.at_head item head) a v o out k = k
  next-Knows (Consumer.at_tail item head tail) a v o out k = k
  next-Knows (Consumer.at_next item head tail n) a v (inl o) out (e, f, g) =
      (e, f, rw (==_ne a q.head o) g)
  next-Knows (Consumer.at_next item head tail n) a v (inr z) out (e, f, g) =
      (e, f, inl (ground arith))
  next-Knows (Consumer.helping item tail n) a v (inl o) out (e, ne, s) =
      (e, ne, rw (==_ne a q.head o) s)
  next-Knows (Consumer.helping item tail n) a v (inr z) out (e, ne, s) = absurd (omega arith)
  next-Knows (Consumer.reading item head n) a v (inl o) out (e, ne, nn, s) =
      (e, ne, nn, rw (==_ne a q.head o) s)
  next-Knows (Consumer.reading item head n) a v (inr z) out (e, ne, nn, s) = absurd (omega arith)
  next-Knows (Consumer.swinging item head n) a v (inl o) out (e, ne, nn, s, d) =
      (e, ne, nn, rw (==_ne a q.head o) s, d)
  next-Knows (Consumer.swinging item head n) a v (inr z) out (e, ne, nn, s, d) =
      absurd (omega arith)
  next-Knows (Consumer.again item) a v o out k = k
  next-Knows (Consumer.freeing node) a v o out k = k
  next-Knows (Consumer.storing node old_head) a v o out k = k
  next-Knows (Consumer.pushing node old_head) a v o out (ne, e) =
      let apart : (a == node) ≡ false = ground arith in (ne, rw apart e)

  pub tail-Knows :
      (c : Consumer A) (t' : ℕ)
      → (q.head ≢ q.tail → q.head ≢ t')
      → ConsumerKnows q.head q.tail q.next q.data_at c
      → ConsumerKnows q.head t' q.next q.data_at c
  tail-Knows Consumer.idle t' o k = k
  tail-Knows (Consumer.at_head item head) t' o k = k
  tail-Knows (Consumer.at_tail item head tail) t' o (e, inl f) = (e, inl f)
  tail-Knows (Consumer.at_tail item head tail) t' o (e, inr f) = (e, inr (o f))
  tail-Knows (Consumer.at_next item head tail n) t' o (e, inl f, g) = (e, inl f, g)
  tail-Knows (Consumer.at_next item head tail n) t' o (e, inr f, g) = (e, inr (o f), g)
  tail-Knows (Consumer.helping item tail n) t' o k = k
  tail-Knows (Consumer.reading item head n) t' o (e, ne, f, g) = (e, o ne, f, g)
  tail-Knows (Consumer.swinging item head n) t' o (e, ne, f, g, d) = (e, o ne, f, g, d)
  tail-Knows (Consumer.again item) t' o k = k
  tail-Knows (Consumer.freeing node) t' o k = k
  tail-Knows (Consumer.storing node old_head) t' o k = k
  tail-Knows (Consumer.pushing node old_head) t' o k = k
