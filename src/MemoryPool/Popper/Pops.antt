-- ===== src/MemoryPool/Popper/Pops.antt =====
-- The steps of `pop_free_list`, with thread 0 alone in it.
use native.Mathlib.Decide.{ℕ_discrete}
use market_data_feed_handler.Prelude.{
  ℕ, ◌+◌, ◌≤◌, ◌≡◌, refl, sym, ◌∙◌, ◌≢◌, ap, true, false, List, [], ◌∷◌, arith,
}
use market_data_feed_handler.Chain.{Links, store, occurs, Chain, Chain-first}
use market_data_feed_handler.MemoryPool.Threads.{Thread, idle, pop_loaded, pop_ready, System}
use market_data_feed_handler.MemoryPool.Popper.{
  returning, is_popping, OnePops, Knows, Inv, store_all, quiet_apart, Knows-pop,
}

module _ (all : List ℕ) where
  -- A step that moves a thread which gives nothing back, and that leaves the memory as it is.
  pub quiet :
      {s : System} (t : ℕ) (x : Thread) (inv : Inv all s)
      → returning x ≡ 0
      → Knows s.links inv.free s.held all x
      → OnePops (record s { threads = store s.threads t x })
      → Inv all (record s { threads = store s.threads t x })
  quiet {s} t x inv z k one = record {
    free = inv.free;
    chain = inv.chain;
    within = inv.within;
    known = store_all (Knows s.links inv.free s.held all) s.threads t x k (λ u ne. inv.known u);
    apart = quiet_apart s.threads t x inv.apart z;
    one = one;
  }

  pub load :
      {s : System} (t : ℕ) (inv : Inv all s)
      → s.free_list ≢ 0
      → OnePops (record s { threads = store s.threads t (pop_loaded s.free_list) })
      → Inv all (record s { threads = store s.threads t (pop_loaded s.free_list) })
  load {s} t inv ne one =
      quiet t (pop_loaded s.free_list) inv refl
        (Chain-first s.links s.free_list inv.free inv.chain ne) one

  -- The object that the compare-exchange of a pop takes is the first of the free ones.
  uncons :
      (links : Links) (p node : ℕ) (free : List ℕ)
      → Chain links p free
      → p ≡ node
      → 1 ≤ occurs node free
      → (rest : List ℕ) × (free ≡ node ∷ rest) × Chain links (links node) rest
  uncons links p node [] c e h = absurd (omega (arith, h))
  uncons links p node (x ∷ rest) (f, ne, c) e h =
      let g : x ≡ node = sym f ∙ e in (rest, rw g refl, rw g at c)

  popper_first : {s : System} → Inv all s → (t : ℕ) → is_popping (s.threads t) ≡ true → t ≡ 0
  popper_first {s} inv t e = elim (ℕ_discrete t 0) [
    | yes z ↦ z
    | no nz ↦ absurd (ground (arith, e, inv.one t nz))
  ]

  pub swap :
      {s : System} (t node n : ℕ) (inv : Inv all s)
      → s.threads t ≡ pop_ready node n
      → s.free_list ≡ node
      → OnePops (record s { free_list = n; threads = store s.threads t idle; held = node ∷ s.held })
      → Inv all (record s { free_list = n; threads = store s.threads t idle; held = node ∷ s.held })
  swap {s} t node n inv p e one =
      let (k, l) : (1 ≤ occurs node inv.free) × (s.links node ≡ n) = rw p at (inv.known t) in
      let (rest, f, c) = uncons s.links s.free_list node inv.free inv.chain e k in
      let other : (u : ℕ) → t ≢ u → is_popping (s.threads u) ≡ false = λ u ne.
        elim (ℕ_discrete u 0) [
          | yes z ↦ absurd (ne (popper_first inv t (ap is_popping p) ∙ sym z))
          | no nz ↦ inv.one u nz
        ] in
      let known : (u : ℕ) → Knows s.links (node ∷ rest) s.held all (s.threads u) =
        λ u. rw f at (inv.known u) in
      let within : (a : ℕ) → occurs a (node ∷ rest) + occurs a s.held ≤ occurs a all =
        λ a. rw f at (inv.within a) in
      record {
        free = rest;
        chain = rw l at c;
        within = λ a. omega (arith, within a);
        known =
            store_all (Knows s.links rest (node ∷ s.held) all) s.threads t idle tt
              (λ u ne. Knows-pop s.links rest s.held all node (s.threads u) (other u ne) (known u));
        apart = quiet_apart s.threads t idle inv.apart refl;
        one = one;
      }
