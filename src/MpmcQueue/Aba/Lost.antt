-- ===== src/MpmcQueue/Aba/Lost.antt =====
-- A producer's exchange of `free_list_` that succeeds on a node that has been through the queue meanwhile.
use market_data_feed_handler.Prelude.{
  ℕ, ◌≡◌, refl, ◌≢◌, sym, ◌∙◌, ap, true, List, [], ◌∷◌, ◌++◌, arith, ◌==◌, ==_refl, ==_ne, false,
  append_assoc, ◌≤◌, ◌-◌, length, length-append,
}
use market_data_feed_handler.Chain.{Links}
use market_data_feed_handler.MpmcQueue.{MpmcQueue, create, empty}
use market_data_feed_handler.MpmcQueue.Steps.{length-elements}
use market_data_feed_handler.MpmcQueue.Create.{create-Represents}
use market_data_feed_handler.MpmcQueue.Threads.{Producer, Consumer, System, start, Reach, here}
use market_data_feed_handler.MpmcQueue.Spsc.{Inv}
use market_data_feed_handler.MpmcQueue.Spsc.Safety.{at_rest-Holds}
use market_data_feed_handler.MpmcQueue.Aba.{
  Enqueues, Dequeues, linked, unlinked, pop_loaded, popped_linked, idle_linked, idle_unlinked,
  produce, consume,
}

grow : {A : Type 0} (l m n : List A) {t u : List A} → t ≡ l ++ m → u ≡ t ++ n → u ≡ l ++ (m ++ n)
grow l m n e f = f ∙ ap (λ v. v ++ n) e ∙ append_assoc l m n

-- The dummy `d` of an empty queue, and the first two nodes `a` and `b` of its free list.
pub record HasPair (next : Links) (d a b : ℕ) : Type 0 where
  pub last : next d ≡ 0
  pub link : next a ≡ b
  pub first : a ≢ 0
  pub second : b ≢ 0
  pub d_a : d ≢ a
  pub d_b : d ≢ b
  pub a_b : a ≢ b

module _ {A : Type 0} (x y z w : A) (data_at : ℕ → A) {n : Links} {d a b : ℕ}
    (h : HasPair n d a b) where
  abbrev new : MpmcQueue A
  new = record { head = d; tail = d; free_list = a; next = n; data_at = data_at }

  abbrev after_x : MpmcQueue A
  after_x = linked new x a b

  abbrev after_y : MpmcQueue A
  after_y = linked after_x y b (after_x.next b)

  abbrev taken_x : MpmcQueue A
  taken_x = unlinked after_y a

  abbrev taken_y : MpmcQueue A
  taken_y = unlinked taken_x b

  abbrev after_z : MpmcQueue A
  after_z = linked taken_y z a b

  abbrev after_w : MpmcQueue A
  after_w = linked after_z w b a

  d_a : (d == a) ≡ false
  d_a = ==_ne d a h.d_a

  a_d : (a == d) ≡ false
  a_d = ==_ne a d (λ e. h.d_a (sym e))

  d_b : (d == b) ≡ false
  d_b = ==_ne d b h.d_b

  b_d : (b == d) ≡ false
  b_d = ==_ne b d (λ e. h.d_b (sym e))

  a_b : (a == b) ≡ false
  a_b = ==_ne a b h.a_b

  b_a : (b == a) ≡ false
  b_a = ==_ne b a (λ e. h.a_b (sym e))

  load : Enqueues new Producer.idle [] new (Producer.popped z a b)
  load = pop_loaded z h.first h.link

  put_x : Enqueues new Producer.idle (x ∷ []) after_x Producer.idle
  put_x = idle_linked x h.first h.link h.last (λ e. h.d_a (sym e))

  put_y : Enqueues after_x Producer.idle (y ∷ []) after_y Producer.idle
  put_y = idle_linked {q = after_x} y h.second refl (rw (d_a, ==_refl a) refl) (λ e. h.a_b (sym e))

  take_x : Dequeues after_y Consumer.idle (x ∷ []) taken_x Consumer.idle
  take_x =
      idle_unlinked {q = after_y} x h.d_b (rw (a_d, b_d, ==_refl d) refl) h.first
        (rw (b_a, ==_refl a) refl)

  take_y : Dequeues taken_x Consumer.idle (y ∷ []) taken_y Consumer.idle
  take_y =
      idle_unlinked {q = taken_x} x h.a_b (rw (d_a, ==_refl a) refl) h.second (rw (==_refl b) refl)

  put_z : Enqueues taken_y (Producer.popped z a b) (z ∷ []) after_z Producer.idle
  put_z = popped_linked {q = taken_y} z refl (rw (a_b, d_b, ==_refl b) refl) h.a_b

  put_w : Enqueues after_z Producer.idle (w ∷ []) after_w Producer.idle
  put_w =
      idle_linked {q = after_z} w h.second (rw (==_refl b) refl) (rw (b_a, ==_refl a) refl)
        (λ e. h.a_b (sym e))

  lost : empty after_w ≡ true
  unfolding empty
  lost = rw (a_b, ==_refl b) refl

  -- The schedule, from any state whose queue is `new` and where the producers 0 and 1 and the consumer
  -- 0 stand still.
  lose :
      {s : System A}
      → s.queue ≡ new
      → s.producers 0 ≡ Producer.idle
      → s.producers 1 ≡ Producer.idle
      → s.consumers 0 ≡ Consumer.idle
      → (u : System A) × Reach s u
        × (u.put ≡ s.put ++ (x ∷ y ∷ z ∷ w ∷ []))
        × (u.taken ≡ s.taken ++ (x ∷ y ∷ []))
        × (u.queue ≡ after_w)
        × (u.producers 0 ≡ Producer.idle)
        × (u.producers 1 ≡ Producer.idle)
        × (u.consumers 0 ≡ Consumer.idle)
  lose {s} q p0 p1 c0 =
      let begin : Reach s s = here in
      let e1 : Enqueues s.queue Producer.idle [] new (Producer.popped z a b) = rw q load in
      let (s1, r1, f1) = produce 0 begin p0 e1 in
      let e2 : Enqueues s1.queue Producer.idle (x ∷ []) after_x Producer.idle = rw f1.queue put_x in
      let (s2, r2, f2) = produce 1 r1 (f1.others 1 (omega arith) ∙ p1) e2 in
      let e3 : Enqueues s2.queue Producer.idle (y ∷ []) after_y Producer.idle = rw f2.queue put_y in
      let (s3, r3, f3) = produce 1 r2 f2.stands e3 in
      let e4 : Dequeues s3.queue Consumer.idle (x ∷ []) taken_x Consumer.idle =
        rw f3.queue take_x in
      let same = f3.consumers ∙ f2.consumers ∙ f1.consumers in
      let (s4, r4, f4) = consume 0 r3 (ap (λ t. t 0) same ∙ c0) e4 in
      let e5 : Dequeues s4.queue Consumer.idle (y ∷ []) taken_y Consumer.idle =
        rw f4.queue take_y in
      let (s5, r5, f5) = consume 0 r4 f4.stands e5 in
      let stands = f5.producers ∙ f4.producers in
      let e6 : Enqueues s5.queue (Producer.popped z a b) (z ∷ []) after_z Producer.idle =
        rw f5.queue put_z in
      let waiting =
        ap (λ t. t 0) stands ∙ f3.others 0 (omega arith) ∙ f2.others 0 (omega arith) ∙ f1.stands in
      let (s6, r6, f6) = produce 0 r5 waiting e6 in
      let e7 : Enqueues s6.queue Producer.idle (w ∷ []) after_w Producer.idle = rw f6.queue put_w in
      let (s7, r7, f7) =
        produce 1 r6 (f6.others 1 (omega arith) ∙ ap (λ t. t 1) stands ∙ f3.stands) e7 in
      (
        s7,
        r7,
        grow s.put (x ∷ y ∷ z ∷ []) (w ∷ [])
            (grow s.put (x ∷ y ∷ []) (z ∷ [])
              (f5.put
                ∙ f4.put
                ∙ grow s.put (x ∷ []) (y ∷ []) (grow s.put [] (x ∷ []) f1.put f2.put) f3.put)
              f6.put)
            f7.put,
        f7.taken
            ∙ f6.taken
            ∙ grow s.taken (x ∷ []) (y ∷ [])
                (f4.taken ∙ ap (λ l. l ++ (x ∷ [])) (f3.taken ∙ f2.taken ∙ f1.taken)) f5.taken,
        f7.queue,
        f7.others 0 (omega arith) ∙ f6.stands,
        f7.stands,
        ap (λ t. t 0) (f7.consumers ∙ f6.consumers) ∙ f5.stands,
      )

module _ {A : Type 0} (max_nodes : ℕ) (initial : A) where
  -- More than one producer can lose elements: for every new queue of at least three nodes there is an
  -- interleaving of two producers and a consumer after which all three are idle, four elements have
  -- been put in and reported as such, two have been taken out, and the queue is empty.
  pub create-loses :
      (x y z w : A)
      → 3 ≤ max_nodes
      → (s : System A) × Reach (start max_nodes initial) s
        × (s.put ≡ x ∷ y ∷ z ∷ w ∷ [])
        × (s.taken ≡ x ∷ y ∷ [])
        × (empty s.queue ≡ true)
        × (s.producers 0 ≡ Producer.idle)
        × (s.producers 1 ≡ Producer.idle)
        × (s.consumers 0 ≡ Consumer.idle)
  create-loses x y z w three =
      let h = at_rest-Holds (create-Represents max_nodes initial (omega (arith, three))) in
      go h.before h.free h.inv (
        ap length h.holds
        ∙ length-elements (create max_nodes initial).data_at (h.before ++ (h.last ∷ [])))
    where
      go :
          (before free : List ℕ) {last : ℕ}
          → Inv max_nodes (create max_nodes initial) Producer.idle Consumer.idle before last free
          → 0 ≡ length (before ++ (last ∷ [])) - 1
          → (s : System A) × Reach (start max_nodes initial) s
            × (s.put ≡ x ∷ y ∷ z ∷ w ∷ [])
            × (s.taken ≡ x ∷ y ∷ [])
            × (empty s.queue ≡ true)
            × (s.producers 0 ≡ Producer.idle)
            × (s.producers 1 ≡ Producer.idle)
            × (s.consumers 0 ≡ Consumer.idle)
      go [] (a ∷ b ∷ free) {last} i none =
          let q = create max_nodes initial in
          let pair : HasPair q.next last a b = record {
            last = i.queue.2;
            link = i.free_nodes.2.0;
            first = i.free_nodes.1;
            second = i.free_nodes.2.1;
            d_a = ground (arith, i.once a);
            d_b = ground (arith, i.once b);
            a_b = ground (arith, i.once a);
          } in
          let is_new : ◌≡◌ {A = MpmcQueue A}
              (record {
                head = q.head;
                tail = q.tail;
                free_list = q.free_list;
                next = q.next;
                data_at = q.data_at;
              })
              (new x y z w q.data_at pair) =
            rw (i.queue.0, i.tail, i.free_nodes.0) refl in
          let (s, r, put, taken, e, i0, i1, c0) =
            lose x y z w q.data_at pair {s = start max_nodes initial} is_new refl refl refl in
          (s, r, put, taken, rw e (lost x y z w q.data_at pair), i0, i1, c0)
      go [] [] i none = absurd (omega (arith, i.total, three))
      go [] (a ∷ []) i none = absurd (omega (arith, i.total, three))
      go (b ∷ before) free {last} i none =
          absurd (omega (arith, none, length-append before (last ∷ [])))
