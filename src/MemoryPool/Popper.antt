-- ===== src/MemoryPool/Popper.antt =====
-- The free list where thread 0 alone allocates, and any number of threads give objects back.
pub mod Pops
pub mod Pushes
pub mod Safety
use native.Mathlib.Decide.{ℕ_discrete}
use market_data_feed_handler.Prelude.{
  ℕ, suc, ◌+◌, ◌*◌, ◌≤◌, ◌<◌, ◌≡◌, refl, sym, ◌∙◌, ◌≢◌, Bool, true, false, Option, some, List, [],
  ◌∷◌, arith, ◌==◌, ==_ne, ==_refl, if◌then◌else◌, length, u64_mod,
}
use market_data_feed_handler.Chain.{Links, store, occurs, Chain, Chain-store, Chain-first}
use market_data_feed_handler.MemoryPool.{MemoryPool, slot_size, construct}
use market_data_feed_handler.MemoryPool.Invariant.{slots, erase, occurs-slots_le, once, not_null}
use market_data_feed_handler.MemoryPool.Invariant as Sequential
use market_data_feed_handler.MemoryPool.Construct.{construct-Inv}
use market_data_feed_handler.MemoryPool.Client.{occurs-erase}
use market_data_feed_handler.MemoryPool.Threads.{
  Thread, idle, pop_loaded, pop_ready, push_loaded, push_linked, System, Step, pop_none, pop_load,
  pop_next, pop_swap, pop_again, pop_give_up, push_load, push_link, push_swap, push_again, write,
  start,
}

-- The object that a thread is giving back, or null.
abbrev pub returning : Thread → ℕ
returning (push_loaded node old_head) = node
returning (push_linked node old_head) = node
returning _ = 0

abbrev pub is_popping : Thread → Bool
is_popping (pop_loaded node) = true
is_popping (pop_ready node next) = true
is_popping _ = false

-- No other thread than 0 is in `pop_free_list`.
abbrev pub OnePops : System → Type 0
OnePops s = (t : ℕ) → t ≢ 0 → is_popping (s.threads t) ≡ false

pub data Reach (first : System) : System → Type 0 where
  here : Reach first first
  next : {s u : System} (t : ℕ) → Reach first s → Step t s u → OnePops u → Reach first u

-- What a thread knows. The node of a pop is still free, and the one of a push is neither free nor held.
abbrev pub Knows : Links → (free held all : List ℕ) → Thread → Type 0
Knows links free held all idle = Unit
Knows links free held all (pop_loaded node) = 1 ≤ occurs node free
Knows links free held all (pop_ready node n) = (1 ≤ occurs node free) × (links node ≡ n)
Knows links free held all (push_loaded node old_head) =
    (node ≢ 0) × (occurs node free + occurs node held ≡ 0) × (1 ≤ occurs node all)
Knows links free held all (push_linked node old_head) =
    (node ≢ 0)
    × (occurs node free + occurs node held ≡ 0)
    × (1 ≤ occurs node all)
    × (links node ≡ old_head)

pub record Inv (all : List ℕ) (s : System) : Type 0 where
  pub free : List ℕ
  pub chain : Chain s.links s.free_list free
  pub within : (a : ℕ) → occurs a free + occurs a s.held ≤ occurs a all
  pub known : (t : ℕ) → Knows s.links free s.held all (s.threads t)
  pub apart :
      (t u : ℕ)
      → t ≢ u
      → returning (s.threads t) ≢ 0
      → returning (s.threads t) ≢ returning (s.threads u)
  pub one : OnePops s

-- A property of all threads, after one of them has moved.
pub store_all :
    (P : Thread → Type 0) (threads : ℕ → Thread) (t : ℕ) (x : Thread)
    → P x
    → ((u : ℕ) → t ≢ u → P (threads u))
    → (u : ℕ) → P (store threads t x u)
store_all P threads t x p others u = elim (ℕ_discrete t u) [
  | yes e ↦ rw (e, ==_refl u) p
  | no ne ↦ rw (==_ne t u ne) (others u ne)
]

abbrev pub AreApart : (ℕ → Thread) → Type 0
AreApart threads =
    (t u : ℕ) → t ≢ u → returning (threads t) ≢ 0 → returning (threads t) ≢ returning (threads u)

pub store_apart :
    (threads : ℕ → Thread) (t : ℕ) (x : Thread)
    → AreApart threads
    → ((u : ℕ) → t ≢ u → returning x ≢ 0 → returning x ≢ returning (threads u))
    → AreApart (store threads t x)
store_apart threads t x apart new v u ne = elim (ℕ_discrete t v) [
  | yes e ↦ let other : t ≢ u = λ f. ne (sym e ∙ f) in rw (e, ==_refl v, ==_ne v u ne) (new u other)
  | no nv ↦ elim (ℕ_discrete t u) [
    | yes f ↦
        rw (==_ne t v nv, f, ==_refl u) (λ some same. new v nv (λ z. some (same ∙ z)) (sym same))
    | no nu ↦ rw (==_ne t v nv, ==_ne t u nu) (apart v u ne)
  ]
]

-- What a thread knows survives the steps of the others.
pub Knows-erase :
    (links : Links) (free held all : List ℕ) (object : ℕ) (x : Thread)
    → 0 < occurs object held
    → Knows links free held all x
    → Knows links free (erase object held) all x
Knows-erase links free held all object idle h k = tt
Knows-erase links free held all object (pop_loaded node) h k = k
Knows-erase links free held all object (pop_ready node n) h k = k
Knows-erase links free held all object (push_loaded node o) h (ne, out, mine) =
    (ne, omega (arith, occurs-erase object node held h), mine)
Knows-erase links free held all object (push_linked node o) h (ne, out, mine, l) =
    (ne, omega (arith, occurs-erase object node held h), mine, l)

pub Knows-store :
    (links : Links) (free held all : List ℕ) (a v : ℕ) (x : Thread)
    → occurs a free ≡ 0
    → (returning x ≢ 0 → a ≢ returning x)
    → Knows links free held all x
    → Knows (store links a v) free held all x
Knows-store links free held all a v idle out other k = tt
Knows-store links free held all a v (pop_loaded node) out other k = k
Knows-store links free held all a v (pop_ready node n) out other (k, l) =
    let ne : a ≢ node = λ e. omega (arith, k, rw e at out) in (k, rw (==_ne a node ne) l)
Knows-store links free held all a v (push_loaded node o) out other k = k
Knows-store links free held all a v (push_linked node o) out other (ne, k, mine, l) =
    (ne, k, mine, rw (==_ne a node (other ne)) l)

pub Knows-push :
    (links : Links) (free held all : List ℕ) (a : ℕ) (x : Thread)
    → (returning x ≢ 0 → a ≢ returning x)
    → Knows links free held all x
    → Knows links (a ∷ free) held all x
Knows-push links free held all a idle other k = tt
Knows-push links free held all a (pop_loaded node) other k = omega (arith, k)
Knows-push links free held all a (pop_ready node n) other (k, l) = (omega (arith, k), l)
Knows-push links free held all a (push_loaded node o) other (ne, k, mine) =
    (ne, rw (==_ne a node (other ne)) (omega (arith, k)), mine)
Knows-push links free held all a (push_linked node o) other (ne, k, mine, l) =
    (ne, rw (==_ne a node (other ne)) (omega (arith, k)), mine, l)

pub Knows-pop :
    (links : Links) (free held all : List ℕ) (a : ℕ) (x : Thread)
    → is_popping x ≡ false
    → Knows links (a ∷ free) held all x
    → Knows links free (a ∷ held) all x
Knows-pop links free held all a idle quiet k = tt
Knows-pop links free held all a (pop_loaded node) quiet k = absurd (ground arith)
Knows-pop links free held all a (pop_ready node n) quiet k = absurd (ground arith)
Knows-pop links free held all a (push_loaded node o) quiet (ne, k, mine) =
    (ne, omega (arith, k), mine)
Knows-pop links free held all a (push_linked node o) quiet (ne, k, mine, l) =
    (ne, omega (arith, k), mine, l)

-- A thread that gives nothing back keeps the others apart.
pub quiet_apart :
    (threads : ℕ → Thread) (t : ℕ) (x : Thread)
    → AreApart threads
    → returning x ≡ 0
    → AreApart (store threads t x)
quiet_apart threads t x apart z = store_apart threads t x apart (λ u ne some. absurd (some z))
