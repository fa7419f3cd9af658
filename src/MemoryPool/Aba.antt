-- ===== src/MemoryPool/Aba.antt =====
-- Two threads on the free list: a node that has left the list and come back between a thread's load
-- of `node->next` and its compare-exchange.
use market_data_feed_handler.Prelude.{
  ℕ, ◌+◌, ◌*◌, ◌≤◌, ◌<◌, ◌≡◌, refl, ◌≢◌, Bool, true, false, ltb, ◌==◌, Option, some, List, [], ◌∷◌,
  arith, ==_refl, ==_ne, u64_mod,
}
use market_data_feed_handler.Chain.{Links, occurs}
use market_data_feed_handler.MemoryPool.{MemoryPool, slot_size, construct}
use market_data_feed_handler.MemoryPool.Invariant.{Inv, once}
use market_data_feed_handler.MemoryPool.Construct.{construct-Inv}
use market_data_feed_handler.MemoryPool.Threads.{
  System, Step, pop_none, pop_load, pop_next, pop_swap, pop_again, pop_give_up, push_load,
  push_link, push_swap, push_again, write, start, Reach, here, next,
}

-- What the two threads do: thread 0 is in `allocate` alone, and thread 1 in `allocate` and in
-- `deallocate`.
abbrev pub in_role : {t : ℕ} {s u : System} → Step t s u → Bool
in_role {t} (pop_none p e) = ltb t 2
in_role {t} (pop_load p e) = ltb t 2
in_role {t} (pop_next p) = ltb t 2
in_role {t} (pop_swap p e) = ltb t 2
in_role {t} (pop_again p e) = ltb t 2
in_role {t} (pop_give_up p e) = ltb t 2
in_role {t} (push_load node p h) = t == 1
in_role {t} (push_link p) = t == 1
in_role {t} (push_swap p e) = t == 1
in_role {t} (push_again p) = t == 1
in_role (write object value h) = false

-- A run of these two threads.
abbrev pub AreInRole : {s u : System} → Reach s u → Type 0
AreInRole here = Unit
AreInRole (next t r step) = (in_role step ≡ true) × AreInRole r

-- From a free list of two nodes at least: thread 0 loads the first node and its successor; thread 1
-- allocates both nodes, and gives back the first; thread 0's compare-exchange succeeds and puts the
-- second, which thread 1 holds, at the head of the list; and thread 0 allocates it too.
pub granted_twice :
    (p : MemoryPool)
    → p.free_list ≢ 0
    → p.links p.free_list ≢ 0
    → p.links p.free_list ≢ p.free_list
    → (s : System) × ((r : Reach (start p) s) × AreInRole r)
      × (2 ≤ occurs (p.links p.free_list) s.held)
granted_twice p ne ne' apart =
    let a = p.free_list in
    let b = p.links a in
    let first : Reach (start p) _ =
      next 1
        (next 1
          (next 1 (next 0 (next 0 here (pop_load refl ne)) (pop_next refl)) (pop_load refl ne))
          (pop_next refl))
        (pop_swap refl refl) in
    let second : Reach (start p) _ =
      next 1 (next 1 (next 1 first (pop_load refl ne')) (pop_next refl)) (pop_swap refl refl) in
    let back : Reach (start p) _ =
      next 1 (next 1 (next 1 second (push_load a refl (ground arith))) (push_link refl))
        (push_swap refl refl) in
    let swapped : Reach (start p) _ = next 0 back (pop_swap refl refl) in
    (
      _,
      (
        next 0 (next 0 (next 0 swapped (pop_load refl ne')) (pop_next refl)) (pop_swap refl refl),
        (
          refl,
          (
            refl,
            (
              refl,
              (
                refl,
                (
                  refl,
                  (
                    refl,
                    (refl, (refl, (refl, (refl, (refl, (refl, (refl, (refl, (refl, tt))))))))),
                  ),
                ),
              ),
            ),
          ),
        ),
      ),
      rw (==_ne (p.links a) a apart, ==_refl a) (ground arith),
    )

-- No lock keeps a slot from having two owners: for every constructed pool of at least two slots there
-- is an interleaving of the accesses of two threads, the one in `allocate` alone and the other in
-- calls of `allocate` and `deallocate`, in which an object is held twice. `malloc`'s block and the
-- pool fit the address space, and `mmap` does not return null.
pub construct-granted_twice :
    (size n malloc failures : ℕ) (huge : Bool) (mmap : Option ℕ) (links : Links) {p : MemoryPool}
    → n * slot_size size + 64 < u64_mod
    → malloc + 64 ≤ u64_mod
    → 0 < size
    → mmap ≢ some 0
    → 2 ≤ n
    → construct size n failures huge malloc mmap links ≡ some p
    → (s : System) × ((r : Reach (start p) s) × AreInRole r)
      × ((object : ℕ) × (2 ≤ occurs object s.held))
construct-granted_twice size n malloc failures huge mmap links {p} fits inside pos ne two e =
    let (free, inv) = construct-Inv size n malloc fits inside failures huge mmap links pos ne e in
    go free inv
  where
    go :
        (free : List ℕ)
        → Inv size n p free []
        → (s : System) × ((r : Reach (start p) s) × AreInRole r)
          × ((object : ℕ) × (2 ≤ occurs object s.held))
    go [] i = absurd (omega (arith, i.sized))
    go (x ∷ []) i = absurd (omega (arith, i.sized))
    go (x ∷ y ∷ free) i =
        let (e, ne, (f, nf, c)) = i.chain in
        let apart : y ≢ x = ground (arith, once i x) in
        let (s, r, h) = granted_twice p (omega arith) (rw (e, f) nf) (rw (e, f) apart) in
        (s, r, (p.links p.free_list, h))
