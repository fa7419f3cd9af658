-- ===== src/MpmcQueue/Invariant.antt =====
-- The nodes of a queue: those before the tail, those from the tail on, and the free ones.
use mathlib.Core.Path.{fun_ext}
use market_data_feed_handler.Prelude.{
  Bool-cases, inl, inr, ℕ, zero, suc, ◌+◌, ◌-◌, ◌≤◌, ◌<◌, ◌≡◌, refl, ◌≢◌, ap, true, false, some,
  List, [], ◌∷◌, ◌++◌, map, arith, ◌==◌, ==_refl, ==_ne, if◌then◌else◌, length,
}
use market_data_feed_handler.Chain.{Links, store, occurs, Chain}
use market_data_feed_handler.MpmcQueue.{MpmcQueue, allocate_node, reclaim_node, link, unlink}

-- The nodes of the queue, from the dummy on.
abbrev pub nodes : List ℕ → List ℕ → ℕ → List ℕ
nodes before lag last = (before ++ lag) ++ (last ∷ [])

-- `tail_` stands at the first node of `lag ++ (last ∷ [])`: `lag` is empty where it has been moved on
-- to the last node, and `before` where the dummy is the tail.
pub record Inv {A : Type 0} (max_nodes : ℕ) (q : MpmcQueue A) (before lag : List ℕ) (last : ℕ)
    (free : List ℕ) : Type 0 where
  pub queue : Chain q.next q.head (nodes before lag last)
  pub tail : Chain q.next q.tail (lag ++ (last ∷ []))
  pub free_nodes : Chain q.next q.free_list free
  pub once : (a : ℕ) → occurs a before + occurs a lag + occurs a (last ∷ free) ≤ 1
  pub total : length before + length lag + length (last ∷ free) ≡ max_nodes

-- The elements of the nodes after the first, which is the dummy.
abbrev pub elements : {A : Type 0} → (ℕ → A) → List ℕ → List A
elements data_at [] = []
elements data_at (x ∷ xs) = map data_at xs

-- A store of data outside some nodes.
pub map-store :
    {A : Type 0} (data_at : ℕ → A) (a : ℕ) (v : A) (xs : List ℕ)
    → occurs a xs ≡ 0
    → map (store data_at a v) xs ≡ map data_at xs
map-store data_at a v [] out = refl
map-store data_at a v (x ∷ xs) out =
    let other : (a == x) ≡ false = ground arith in
    rw other (ap (λ t. data_at x ∷ t) (map-store data_at a v xs (ground arith)))

-- A chain that has a last node begins somewhere.
pub Chain-begins :
    (next : Links) (p : ℕ) (xs : List ℕ) (t : ℕ) → Chain next p (xs ++ (t ∷ [])) → p ≢ 0
Chain-begins next p [] t (e, ne, c) = omega arith
Chain-begins next p (x ∷ xs) t (e, ne, c) = omega arith

-- The elements, by the address of the first node.
pub elements-begins :
    {A : Type 0} (data_at : ℕ → A) (next : Links) (p : ℕ) (xs : List ℕ) (t : ℕ)
    → Chain next p (xs ++ (t ∷ []))
    → map data_at (xs ++ (t ∷ [])) ≡ data_at p ∷ elements data_at (xs ++ (t ∷ []))
elements-begins data_at next p [] t (e, ne, c) = rw e refl
elements-begins data_at next p (x ∷ xs) t (e, ne, c) = rw e refl

-- The link of a new last node.
pub Chain-link :
    (next : Links) (p : ℕ) (xs : List ℕ) (t a : ℕ)
    → a ≢ 0
    → next a ≡ 0
    → occurs t xs ≡ 0
    → occurs a (xs ++ (t ∷ [])) ≡ 0
    → Chain next p (xs ++ (t ∷ []))
    → Chain (store next t a) p ((xs ++ (t ∷ [])) ++ (a ∷ []))
Chain-link next p [] t a ne z out new (f, g, h) =
    let other : (t == a) ≡ false = ground arith in (f, g, (rw (==_refl t) refl, ne, rw other z))
Chain-link next p (x ∷ xs) t a ne z out new (f, g, h) =
    let other : (t == x) ≡ false = ground arith in
    (f, g, rw other (Chain-link next (next x) xs t a ne z (ground arith) (ground arith) h))

store-store :
    {A : Type 0} (next : ℕ → A) (p : ℕ) (v : A) → store (store next p v) p v ≡ store next p v
store-store next p v =
    fun_ext (λ a. elim (Bool-cases (p == a)) [ inl h ↦ rw h refl | inr h ↦ rw h refl ])

module _ {A : Type 0} where
  -- What the loops compute, whatever the number of failures, with the fuel that this takes.
  pub allocate_node_lem :
      (failures : ℕ) (q : MpmcQueue A)
      → allocate_node failures q ≡ (
          if q.free_list == 0
          then (0, q)
          else (q.free_list, record q { free_list = q.next q.free_list }))
  unfolding allocate_node
  allocate_node_lem zero q = refl
  allocate_node_lem (suc n) q =
      rw (allocate_node_lem n q)
        (elim (Bool-cases (q.free_list == 0)) [ inl h ↦ rw h refl | inr h ↦ rw h refl ])

  pub reclaim_node_lem :
      (failures : ℕ) (q : MpmcQueue A) (node : ℕ)
      → node ≢ 0
      → reclaim_node failures q node
        ≡ record q { next = store q.next node q.free_list; free_list = node }
  unfolding reclaim_node
  reclaim_node_lem zero q node ne = rw (==_ne node 0 ne) refl
  reclaim_node_lem (suc n) q node ne = rw (==_ne node 0 ne) (
      rw (reclaim_node_lem n (record q { next = store q.next node q.free_list }) node ne)
        (ap (λ l. record q { next = l; free_list = node }) (store-store q.next node q.free_list)))

  link_last :
      (fuel failures : ℕ) (q : MpmcQueue A) (node : ℕ)
      → q.next q.tail ≡ 0
      → failures < fuel
      → link fuel failures q node ≡ some (record q { next = store q.next q.tail node; tail = node })
  unfolding link
  link_last zero failures q node z h = absurd (omega arith)
  link_last (suc fuel) zero q node z h = rw z refl
  link_last (suc fuel) (suc n) q node z h =
      let s : (suc n == 0) ≡ false = ground arith in
      let m : suc n - 1 ≡ n = omega arith in rw (z, s, m) (link_last fuel n q node z (omega arith))

  pub link_lem :
      (fuel failures : ℕ) (q : MpmcQueue A) (node : ℕ) (lag : List ℕ) (t : ℕ)
      → Chain q.next q.tail (lag ++ (t ∷ []))
      → length lag + failures < fuel
      → link fuel failures q node ≡ some (record q { next = store q.next t node; tail = node })
  unfolding link
  link_lem zero failures q node lag t c h = absurd (omega arith)
  link_lem (suc fuel) failures q node [] t (e, ne, z) h =
      rw (← e) (link_last (suc fuel) failures q node (rw e z) (omega arith))
  link_lem (suc fuel) failures q node (x ∷ lag) t (e, ne, c) h =
      rw (==_ne (q.next q.tail) 0 (rw e (Chain-begins q.next (q.next x) lag t c))) (
        link_lem fuel failures (record q { tail = q.next q.tail }) node lag t (rw e c)
          (omega arith))

  pub unlink_lem :
      (fuel failures failures_reclaim : ℕ) (q : MpmcQueue A) (item : A)
      → q.head ≢ q.tail
      → q.next q.head ≢ 0
      → failures < fuel
      → unlink fuel failures failures_reclaim q item
        ≡ some (
          true,
          q.data_at (q.next q.head),
          reclaim_node failures_reclaim (record q { head = q.next q.head }) q.head,
        )
  unfolding unlink
  unlink_lem zero failures r q item ne z h = absurd (omega arith)
  unlink_lem (suc fuel) zero r q item ne z h =
      rw (==_ne q.head q.tail ne, ==_ne (q.next q.head) 0 z) refl
  unlink_lem (suc fuel) (suc n) r q item ne z h =
      let s : (suc n == 0) ≡ false = ground arith in
      let m : suc n - 1 ≡ n = omega arith in
      rw (==_ne q.head q.tail ne, ==_ne (q.next q.head) 0 z, s, m)
        (unlink_lem fuel n r q (q.data_at (q.next q.head)) ne z (omega arith))
