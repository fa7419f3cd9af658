-- ===== src/CircularBuffer/Window.antt =====
-- The elements between two indices of a ring of `capacity` slots.
use market_data_feed_handler.Prelude.{
  ℕ, zero, suc, ◌+◌, ◌-◌, ◌<◌, ◌≡◌, refl, ap, ap₂, List, [], ◌∷◌, ◌++◌, arith, ◌==◌, leb,
  if◌then◌else◌, length, get_or, set, get_or-set_self, get_or-set_ne,
}

-- The index after `i`.
abbrev pub after : ℕ → ℕ → ℕ
after capacity i = if i + 1 == capacity then 0 else i + 1

-- The steps from `read` to `write`.
abbrev pub span : ℕ → ℕ → ℕ → ℕ
span capacity read write = if leb read write then write - read else capacity - read + write

module _ {A : Type 0} (capacity : ℕ) (d : A) where
  -- The `n` elements from index `h` on.
  abbrev pub window : List A → ℕ → ℕ → List A
  window buf h zero = []
  window buf h (suc n) = get_or buf h d ∷ window buf (after capacity h) n

  pub length-window : (buf : List A) (h n : ℕ) → length (window buf h n) ≡ n
  length-window buf h zero = refl
  length-window buf h (suc n) = ap suc (length-window buf (after capacity h) n)

  pub window_of_pos :
      (buf : List A) (h n : ℕ)
      → 0 < n
      → window buf h n ≡ get_or buf h d ∷ window buf (after capacity h) (n - 1)
  window_of_pos buf h zero p = absurd (omega arith)
  window_of_pos buf h (suc n) p = ap (λ k. window buf h (suc k)) (omega arith)

  -- The slot `n` steps behind `h` is written: a window of `n` elements does not see it, and one of
  -- `n + 1` elements has the new element last.
  pub window-set :
      (buf : List A) (h n w : ℕ) (x : A)
      → length buf ≡ capacity
      → h < capacity
      → w < capacity
      → span capacity h w ≡ n
      → window (set buf w x) h (suc n) ≡ window buf h n ++ (x ∷ [])
  window-set buf h zero w x l ph pw e =
      let same : h ≡ w = ground arith in rw (same, get_or-set_self buf w x d (omega arith))
  window-set buf h (suc n) w x l ph pw e =
      ap₂ ◌∷◌ (get_or-set_ne buf w h x d (ground arith))
        (window-set buf (after capacity h) n w x l (ground arith) pw (ground arith))

  -- A window that ends at `w` does not see a write to that slot.
  pub window-set_outside :
      (buf : List A) (h n w : ℕ) (x : A)
      → h < capacity
      → w < capacity
      → span capacity h w ≡ n
      → window (set buf w x) h n ≡ window buf h n
  window-set_outside buf h zero w x ph pw e = refl
  window-set_outside buf h (suc n) w x ph pw e =
      ap₂ ◌∷◌ (get_or-set_ne buf w h x d (ground arith))
        (window-set_outside buf (after capacity h) n w x (ground arith) pw (ground arith))

  -- One more element is the one in the slot behind the window.
  pub window-suc :
      (buf : List A) (h n w : ℕ)
      → h < capacity
      → w < capacity
      → span capacity h w ≡ n
      → window buf h (suc n) ≡ window buf h n ++ (get_or buf w d ∷ [])
  window-suc buf h zero w ph pw e =
      let same : h ≡ w = ground arith in ap (λ i. get_or buf i d ∷ []) same
  window-suc buf h (suc n) w ph pw e =
      ap (λ t. get_or buf h d ∷ t)
        (window-suc buf (after capacity h) n w (ground arith) pw (ground arith))
