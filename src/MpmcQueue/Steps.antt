-- ===== src/MpmcQueue/Steps.antt =====
-- What an enqueue, a dequeue and a helper's step make of the nodes of a queue.
use market_data_feed_handler.Prelude.{
  ℕ, suc, ◌+◌, ◌-◌, ◌≤◌, ◌≡◌, refl, ◌∙◌, ap, false, List, [], ◌∷◌, ◌++◌, map, arith, ◌==◌, ==_refl,
  length, length-append, append-nil,
}
use market_data_feed_handler.Chain.{
  Links, store, occurs, occurs-append, Chain, Chain-store, Chain-cons,
}
use market_data_feed_handler.MpmcQueue.{MpmcQueue, reclaim_node}
use market_data_feed_handler.MpmcQueue.Invariant.{
  nodes, Inv, elements, map-store, Chain-link, reclaim_node_lem,
}

pub Chain-occurs :
    (next : Links) (p : ℕ) (xs : List ℕ) (t : ℕ)
    → Chain next p (xs ++ (t ∷ []))
    → 1 ≤ occurs p (xs ++ (t ∷ []))
Chain-occurs next p [] t (e, ne, c) = rw (e, ==_refl t) (omega arith)
Chain-occurs next p (x ∷ xs) t (e, ne, c) = rw (e, ==_refl x) (omega arith)

pub occurs-nodes :
    (a : ℕ) (before lag : List ℕ) (last : ℕ)
    → occurs a (nodes before lag last) ≡ occurs a before + occurs a lag + occurs a (last ∷ [])
occurs-nodes a before lag last =
    omega (arith, occurs-append a (before ++ lag) (last ∷ []), occurs-append a before lag)

module _ {A : Type 0} where
  pub elements-snoc :
      (data_at : ℕ → A) (xs : List ℕ) (t a : ℕ)
      → elements data_at ((xs ++ (t ∷ [])) ++ (a ∷ []))
        ≡ elements data_at (xs ++ (t ∷ [])) ++ (data_at a ∷ [])
  elements-snoc data_at [] t a = refl
  elements-snoc data_at (x ∷ xs) t a = map-snoc xs
    where
      map-snoc :
          (ys : List ℕ)
          → map data_at ((ys ++ (t ∷ [])) ++ (a ∷ []))
            ≡ map data_at (ys ++ (t ∷ [])) ++ (data_at a ∷ [])
      map-snoc [] = refl
      map-snoc (y ∷ ys) = ap (λ l. data_at y ∷ l) (map-snoc ys)

  pub elements-store :
      (data_at : ℕ → A) (a : ℕ) (v : A) (xs : List ℕ)
      → occurs a xs ≡ 0
      → elements (store data_at a v) xs ≡ elements data_at xs
  elements-store data_at a v [] out = refl
  elements-store data_at a v (x ∷ xs) out = map-store data_at a v xs (ground arith)

  pub length-elements :
      (data_at : ℕ → A) (xs : List ℕ) → length (elements data_at xs) ≡ length xs - 1
  length-elements data_at [] = refl
  length-elements data_at (x ∷ xs) = length-map xs ∙ omega arith
    where
      length-map : (ys : List ℕ) → length (map data_at ys) ≡ length ys
      length-map [] = refl
      length-map (y ∷ ys) = ap suc (length-map ys)

  -- The state after an element has been put into the free node `f`.
  abbrev pub enqueued : MpmcQueue A → ℕ → ℕ → A → MpmcQueue A
  enqueued q last f item = record q {
    tail = f;
    free_list = q.next f;
    next = store (store q.next f 0) last f;
    data_at = store q.data_at f item;
  }

  module _ {max_nodes : ℕ} where
    pub enqueued-Inv :
        (q : MpmcQueue A) (before lag : List ℕ) (last f : ℕ) (free : List ℕ) (item : A)
        → Inv max_nodes q before lag last (f ∷ free)
        → Inv max_nodes (enqueued q last f item) (nodes before lag last) [] f free
    enqueued-Inv q before lag last f free item i =
        let (e, ne, c) = i.free_nodes in
        let self = ==_refl f in
        let other = ==_refl last in
        let new : occurs f (nodes before lag last) ≡ 0 =
          rw (occurs-nodes f before lag last) (ground (arith, i.once f)) in
        let out : occurs last (before ++ lag) ≡ 0 =
          rw (occurs-append last before lag) (ground (arith, i.once last)) in
        record {
          queue = rw append-nil (
              Chain-link (store q.next f 0) q.head (before ++ lag) last f ne (rw self refl) out new
                (Chain-store q.next q.head (nodes before lag last) f 0 new i.queue));
          tail = (
            refl,
            ne,
            (let apart : (last == f) ≡ false = ground (arith, i.once f) in rw (apart, self) refl),
          );
          free_nodes =
              Chain-store (store q.next f 0) (q.next f) free last f (ground (arith, i.once last))
                (Chain-store q.next (q.next f) free f 0 (ground (arith, i.once f)) c);
          once = λ a. rw (occurs-nodes a before lag last) (ground (arith, i.once a));
          total =
              omega (
                arith,
                i.total,
                length-append (before ++ lag) (last ∷ []),
                length-append before lag,
              );
        }

    -- A dequeue from a queue whose tail is not the dummy.
    pub dequeued-Inv :
        (failures : ℕ) (q : MpmcQueue A) (h : ℕ) (before lag : List ℕ) (last : ℕ) (free : List ℕ)
        → Inv max_nodes q (h ∷ before) lag last free
        → Inv max_nodes
            (reclaim_node failures (record q { head = q.next q.head }) q.head)
            before
            lag
            last
            (h ∷ free)
    dequeued-Inv failures q h before lag last free i =
        let (e, ne, c) = i.queue in
        let self = ==_refl h in
        let out : occurs h (nodes before lag last) ≡ 0 =
          rw (occurs-nodes h before lag last) (ground (arith, i.once h)) in
        let out_tail : occurs h (lag ++ (last ∷ [])) ≡ 0 =
          rw (occurs-append h lag (last ∷ [])) (ground (arith, i.once h)) in
        rw (reclaim_node_lem failures (record q { head = q.next q.head }) q.head (rw e ne), e)
          (record {
            queue = Chain-store q.next (q.next h) (nodes before lag last) h q.free_list out c;
            tail = Chain-store q.next q.tail (lag ++ (last ∷ [])) h q.free_list out_tail i.tail;
            free_nodes =
                Chain-cons q.next q.free_list free h ne (ground (arith, i.once h)) i.free_nodes;
            once = λ a. ground (arith, i.once a);
            total = omega (arith, i.total);
          })

    -- The helper's step moves the tail.
    pub helped-Inv :
        (q : MpmcQueue A) (x : ℕ) (lag : List ℕ) (last : ℕ) (free : List ℕ)
        → Inv max_nodes q [] (x ∷ lag) last free
        → Inv max_nodes (record q { tail = q.next q.head }) (x ∷ []) lag last free
    helped-Inv q x lag last free i = record {
      queue = i.queue;
      tail = rw (i.queue.0) i.queue.2;
      free_nodes = i.free_nodes;
      once = λ a. ground (arith, i.once a);
      total = omega (arith, i.total);
    }
