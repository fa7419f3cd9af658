-- ===== src/MemoryPool/Popper/Safety.antt =====
-- No object has two owners in a pool of which one thread allocates.
use market_data_feed_handler.Prelude.{
  ℕ, ◌+◌, ◌*◌, ◌≤◌, ◌<◌, ◌≡◌, refl, ◌≢◌, Bool, Option, some, List, arith, u64_mod,
}
use market_data_feed_handler.Chain.{Links, occurs}
use market_data_feed_handler.MemoryPool.{MemoryPool, slot_size, construct}
use market_data_feed_handler.MemoryPool.Invariant.{slots, occurs-slots_le, occurs-slots_zero}
use market_data_feed_handler.MemoryPool.Construct.{construct-Inv}
use market_data_feed_handler.MemoryPool.Threads.{
  idle, pop_ready, System, Step, pop_none, pop_load, pop_next, pop_swap, pop_again, pop_give_up,
  push_load, push_link, push_swap, push_again, write, start,
}
use market_data_feed_handler.MemoryPool.Popper.{OnePops, Reach, here, next, Inv}
use market_data_feed_handler.MemoryPool.Popper.Pops.{quiet, load, swap}
use market_data_feed_handler.MemoryPool.Popper.Pushes.{give_back, link, put, again, overwrite}

module _ (all : List ℕ) (distinct : (a : ℕ) → occurs a all ≤ 1) (proper : occurs 0 all ≡ 0) where
  Step-Inv : (t : ℕ) {s u : System} → Inv all s → Step t s u → OnePops u → Inv all u
  Step-Inv t inv (pop_none p e) one = inv
  Step-Inv t inv (pop_load p ne) one = load all t inv ne one
  Step-Inv t {s} inv (pop_next {node} p) one =
      let k : 1 ≤ occurs node inv.free = rw p at (inv.known t) in
      quiet all t (pop_ready node (s.links node)) inv refl (k, refl) one
  Step-Inv t inv (pop_swap {node} {next = n} p e) one = swap all t node n inv p e one
  Step-Inv t inv (pop_again p ne) one = load all t inv ne one
  Step-Inv t inv (pop_give_up p e) one = quiet all t idle inv refl tt one
  Step-Inv t inv (push_load node p h) one = give_back all distinct proper t node inv h one
  Step-Inv t inv (push_link {node} {old_head} p) one =
      link all distinct proper t node old_head inv p one
  Step-Inv t inv (push_swap {node} {old_head} p e) one =
      put all distinct proper t node old_head inv p e one
  Step-Inv t inv (push_again {node} {old_head} p) one =
      again all distinct proper t node old_head inv p one
  Step-Inv t inv (write object value h) one = overwrite all distinct proper object value inv h one

  Reach-Inv : {s u : System} → Inv all s → Reach s u → Inv all u
  Reach-Inv inv here = inv
  Reach-Inv inv (next t r step one) = Step-Inv t (Reach-Inv inv r) step one

-- No object has two owners in a pool of which one thread alone allocates, in whatever order the
-- accesses of that thread, and of any number of threads that give objects back, interleave: a client's
-- object is a slot of the pool and is held once, and no null pointer is held. Clients may write
-- into their objects. `malloc`'s block and the pool fit the address space, and `mmap` does not return
-- null.
pub Reach-one_popper :
    (size n malloc failures : ℕ) (huge : Bool) (mmap : Option ℕ) (links : Links) {p : MemoryPool}
    {s : System}
    → n * slot_size size + 64 < u64_mod
    → malloc + 64 ≤ u64_mod
    → 0 < size
    → mmap ≢ some 0
    → construct size n failures huge malloc mmap links ≡ some p
    → Reach (start p) s
    → (a : ℕ)
    → (occurs a s.held ≤ 1)
      × (occurs a s.held ≤ occurs a (slots p.memory (slot_size size) n))
      × (occurs 0 s.held ≡ 0)
Reach-one_popper size n malloc failures huge mmap links {p} fits inside pos ne e r a =
    let (free, inv) = construct-Inv size n malloc fits inside failures huge mmap links pos ne e in
    let all = slots p.memory (slot_size size) n in
    let distinct : (b : ℕ) → occurs b all ≤ 1 =
      occurs-slots_le p.memory (slot_size size) inv.spaced n in
    let proper : occurs 0 all ≡ 0 =
      occurs-slots_zero p.memory (slot_size size) inv.spaced inv.based n in
    let first : Inv all (start p) = record {
      free = free;
      chain = inv.chain;
      within = λ b. omega (arith, inv.whole b);
      known = λ t. tt;
      apart = λ t u ne some. absurd (some refl);
      one = λ t ne. refl;
    } in
    let last = Reach-Inv all distinct proper first r in
    omega (arith, last.within a, last.within 0, distinct a, proper)
