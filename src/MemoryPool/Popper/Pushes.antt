-- ===== src/MemoryPool/Popper/Pushes.antt =====
-- The steps of `push_free_list`, of any number of threads, beside one that pops.
use native.Mathlib.Decide.{ℕ_discrete}
use market_data_feed_handler.Prelude.{
  ℕ, ◌+◌, ◌≤◌, ◌<◌, ◌≡◌, refl, sym, ◌∙◌, ◌≢◌, ap, List, ◌∷◌, arith, ==_ne, ==_refl,
}
use market_data_feed_handler.Chain.{Links, store, occurs, Chain-store}
use market_data_feed_handler.MemoryPool.Invariant.{erase}
use market_data_feed_handler.MemoryPool.Client.{occurs-erase}
use market_data_feed_handler.MemoryPool.Threads.{
  Thread, idle, pop_loaded, pop_ready, push_loaded, push_linked, System,
}
use market_data_feed_handler.MemoryPool.Popper.{
  returning, OnePops, Knows, Inv, store_all, AreApart, store_apart, quiet_apart, Knows-erase,
  Knows-store, Knows-push,
}

-- An object that a client holds is not the one that another thread is giving back.
held_other :
    (links : Links) (free held all : List ℕ) (a : ℕ) (x : Thread)
    → a ≢ 0
    → 0 < occurs a held
    → Knows links free held all x
    → a ≢ returning x
held_other links free held all a idle ne h k = ne
held_other links free held all a (pop_loaded node) ne h k = ne
held_other links free held all a (pop_ready node n) ne h k = ne
held_other links free held all a (push_loaded node o) ne h (_, out, _) =
    λ e. omega (arith, out, rw e at h)
held_other links free held all a (push_linked node o) ne h (_, out, _, _) =
    λ e. omega (arith, out, rw e at h)

-- A thread that gives the same object back as before keeps it apart.
same_apart :
    (threads : ℕ → Thread) (t : ℕ) (x : Thread)
    → AreApart threads
    → returning x ≡ returning (threads t)
    → AreApart (store threads t x)
same_apart threads t x apart e =
    store_apart threads t x apart
      (λ u ne some same. apart t u ne (λ z. some (e ∙ z)) (sym e ∙ same))

module _ (all : List ℕ) (distinct : (a : ℕ) → occurs a all ≤ 1) (proper : occurs 0 all ≡ 0) where
  proper_held : {s : System} → Inv all s → (a : ℕ) → 0 < occurs a s.held → a ≢ 0
  proper_held inv a h e = omega (arith, inv.within 0, proper, rw e at h)

  -- The head of the list is null or free, and `node` is taken from the client that gives it back.
  pub give_back :
      {s : System} (t node : ℕ) (inv : Inv all s)
      → 0 < occurs node s.held
      → OnePops (record s {
        threads = store s.threads t (push_loaded node s.free_list);
        held = erase node s.held;
      })
      → Inv all (record s {
        threads = store s.threads t (push_loaded node s.free_list);
        held = erase node s.held;
      })
  give_back {s} t node inv h one =
      let ne : node ≢ 0 = proper_held inv node h in
      let taken : occurs node inv.free + occurs node (erase node s.held) ≡ 0 =
        ground (arith, occurs-erase node node s.held h, inv.within node, distinct node) in
      let whole : 1 ≤ occurs node all = omega (arith, inv.within node) in
      record {
        free = inv.free;
        chain = inv.chain;
        within = λ a. omega (arith, inv.within a, occurs-erase node a s.held h);
        known =
            store_all (Knows s.links inv.free (erase node s.held) all) s.threads t
              (push_loaded node s.free_list) (ne, taken, whole)
              (λ u other.
                Knows-erase s.links inv.free s.held all node (s.threads u) h (inv.known u));
        apart = store_apart s.threads t (push_loaded node s.free_list) inv.apart (λ u other some.
            held_other s.links inv.free s.held all node (s.threads u) ne h (inv.known u));
        one = one;
      }

  pub link :
      {s : System} (t node old_head : ℕ) (inv : Inv all s)
      → s.threads t ≡ push_loaded node old_head
      → OnePops (record s {
        links = store s.links node old_head;
        threads = store s.threads t (push_linked node old_head);
      })
      → Inv all (record s {
        links = store s.links node old_head;
        threads = store s.threads t (push_linked node old_head);
      })
  link {s} t node old_head inv p one =
      let (ne, out, whole) : (node ≢ 0)
          × (occurs node inv.free + occurs node s.held ≡ 0)
          × (1 ≤ occurs node all) =
        rw p at (inv.known t) in
      let mine : returning (s.threads t) ≡ node = ap returning p in
      let out_of_free : occurs node inv.free ≡ 0 = omega (arith, out) in
      let links = store s.links node old_head in
      record {
        free = inv.free;
        chain = Chain-store s.links s.free_list inv.free node old_head out_of_free inv.chain;
        within = inv.within;
        known =
            store_all (Knows links inv.free s.held all) s.threads t (push_linked node old_head)
              (ne, out, whole, rw (==_refl node) refl)
              (λ u other.
                Knows-store s.links inv.free s.held all node old_head (s.threads u) out_of_free
                  (λ some same. inv.apart t u other (λ z. ne (sym mine ∙ z)) (mine ∙ same))
                  (inv.known u));
        apart = same_apart s.threads t (push_linked node old_head) inv.apart (sym mine);
        one = one;
      }

  pub put :
      {s : System} (t node old_head : ℕ) (inv : Inv all s)
      → s.threads t ≡ push_linked node old_head
      → s.free_list ≡ old_head
      → OnePops (record s { free_list = node; threads = store s.threads t idle })
      → Inv all (record s { free_list = node; threads = store s.threads t idle })
  put {s} t node old_head inv p e one =
      let (ne, out, whole, l) : (node ≢ 0)
          × (occurs node inv.free + occurs node s.held ≡ 0)
          × (1 ≤ occurs node all)
          × (s.links node ≡ old_head) =
        rw p at (inv.known t) in
      let mine : returning (s.threads t) ≡ node = ap returning p in
      record {
        free = node ∷ inv.free;
        chain = (refl, ne, rw (l ∙ sym e) inv.chain);
        within = λ a. elim (ℕ_discrete node a) [
          | yes f ↦
              let out_here : occurs a inv.free + occurs a s.held ≡ 0 = rw f at out in
              let whole_here : 1 ≤ occurs a all = rw f at whole in
              rw (f, ==_refl a) (omega (arith, out_here, whole_here))
          | no nf ↦ rw (==_ne node a nf) (omega (arith, inv.within a))
        ];
        known =
            store_all (Knows s.links (node ∷ inv.free) s.held all) s.threads t idle tt (λ u other.
              Knows-push s.links inv.free s.held all node (s.threads u)
                (λ some same. inv.apart t u other (λ z. ne (sym mine ∙ z)) (mine ∙ same))
                (inv.known u));
        apart = quiet_apart s.threads t idle inv.apart refl;
        one = one;
      }

  pub again :
      {s : System} (t node old_head : ℕ) (inv : Inv all s)
      → s.threads t ≡ push_linked node old_head
      → OnePops (record s { threads = store s.threads t (push_loaded node s.free_list) })
      → Inv all (record s { threads = store s.threads t (push_loaded node s.free_list) })
  again {s} t node old_head inv p one =
      let (ne, out, whole, l) : (node ≢ 0)
          × (occurs node inv.free + occurs node s.held ≡ 0)
          × (1 ≤ occurs node all)
          × (s.links node ≡ old_head) =
        rw p at (inv.known t) in
      record {
        free = inv.free;
        chain = inv.chain;
        within = inv.within;
        known =
            store_all (Knows s.links inv.free s.held all) s.threads t (push_loaded node s.free_list)
              (ne, out, whole) (λ u other. inv.known u);
        apart =
            same_apart s.threads t (push_loaded node s.free_list) inv.apart (sym (ap returning p));
        one = one;
      }

  pub overwrite :
      {s : System} (object value : ℕ) (inv : Inv all s)
      → 0 < occurs object s.held
      → OnePops (record s { links = store s.links object value })
      → Inv all (record s { links = store s.links object value })
  overwrite {s} object value inv h one =
      let out : occurs object inv.free ≡ 0 = omega (arith, inv.within object, distinct object) in
      let ne : object ≢ 0 = proper_held inv object h in
      record {
        free = inv.free;
        chain = Chain-store s.links s.free_list inv.free object value out inv.chain;
        within = inv.within;
        known = λ u.
            Knows-store s.links inv.free s.held all object value (s.threads u) out
              (λ some.
                held_other s.links inv.free s.held all object (s.threads u) ne h (inv.known u))
              (inv.known u);
        apart = inv.apart;
        one = one;
      }
