-- ===== src/Chain.antt =====
-- Null-terminated chains of nodes in memory, which both the memory pool and the queue link through
-- their `next` pointers. An address is a number, and 0 is `nullptr`; the memory of the `next` fields
-- is a function of the node's address.
use market_data_feed_handler.Prelude.{
  ℕ, zero, suc, ◌+◌, ◌≤◌, ◌≡◌, refl, ◌≢◌, ap, false, List, [], ◌∷◌, ◌++◌, arith, ◌==◌, ==_refl,
  ==_ne, if◌then◌else◌, length,
}

abbrev pub Links : Type 0
Links = ℕ → ℕ

-- The memory after a store to one `next` field.
abbrev pub store : {A : Type 0} → (ℕ → A) → ℕ → A → ℕ → A
store next p v q = if p == q then v else next q

-- How often an address stands in a list.
abbrev pub occurs : ℕ → List ℕ → ℕ
occurs a [] = 0
occurs a (x ∷ xs) = (if x == a then 1 else 0) + occurs a xs

-- From `p` the pointers lead through the nodes `xs` to null.
abbrev pub Chain : Links → ℕ → List ℕ → Type 0
Chain next p [] = p ≡ 0
Chain next p (x ∷ xs) = (p ≡ x) × (x ≢ 0) × Chain next (next x) xs

-- The nodes determine where a chain begins.
pub Chain-head :
    (next next' : Links) (p q : ℕ) (xs : List ℕ) → Chain next p xs → Chain next' q xs → p ≡ q
Chain-head next next' p q [] c c' = omega arith
Chain-head next next' p q (x ∷ xs) c c' = omega arith

-- A store outside the chain leaves it as it is.
pub Chain-store :
    (next : Links) (p : ℕ) (xs : List ℕ) (a v : ℕ)
    → occurs a xs ≡ 0
    → Chain next p xs
    → Chain (store next a v) p xs
Chain-store next p [] a v out c = c
Chain-store next p (x ∷ xs) a v out (e, ne, c) =
    let other : (a == x) ≡ false = ground arith in
    (e, ne, rw other (Chain-store next (next x) xs a v (ground arith) c))

-- A node in front of a chain.
pub Chain-cons :
    (next : Links) (p : ℕ) (xs : List ℕ) (a : ℕ)
    → a ≢ 0
    → occurs a xs ≡ 0
    → Chain next p xs
    → Chain (store next a p) a (a ∷ xs)
Chain-cons next p xs a ne out c = (refl, ne, rw (==_refl a) (Chain-store next p xs a p out c))

-- A chain that is not null begins at one of its nodes.
pub Chain-first : (next : Links) (p : ℕ) (xs : List ℕ) → Chain next p xs → p ≢ 0 → 1 ≤ occurs p xs
Chain-first next p [] c ne = absurd (ne c)
Chain-first next p (x ∷ xs) (e, nx, c) ne = rw (e, ==_refl x) (omega arith)

-- The walk along a chain that counts its nodes, with at most `limit` of them:
-- `while (node && count < limit) { ++count; node = node->next; }`.
unfoldable pub walk : Links → ℕ → ℕ → ℕ
walk next zero node = 0
walk next (suc limit) node =
    let more = suc (walk next limit (next node)) in if node == 0 then 0 else more

pub walk-length :
    (next : Links) (limit p : ℕ) (xs : List ℕ)
    → Chain next p xs
    → length xs ≤ limit
    → walk next limit p ≡ length xs
unfolding walk
walk-length next zero p [] c h = refl
walk-length next zero p (x ∷ xs) c h = absurd (omega arith)
walk-length next (suc limit) p [] c h = rw c
walk-length next (suc limit) p (x ∷ xs) (e, ne, c) h =
    rw (e, ==_ne x 0 ne) (ap suc (walk-length next limit (next x) xs c (omega arith)))

pub occurs-append : (a : ℕ) (xs ys : List ℕ) → occurs a (xs ++ ys) ≡ occurs a xs + occurs a ys
occurs-append a [] ys = omega arith
occurs-append a (x ∷ xs) ys = omega (arith, occurs-append a xs ys)
