-- ===== src/Core/Symbol.antt =====
-- `Symbol` and `SymbolHash` of include/market_data/core/common.hpp. A byte is a number below 256.
use mathlib.Core.List.{append_assoc}
use market_data_feed_handler.Prelude.{
  ℕ, zero, suc, ◌+◌, ◌*◌, ◌<◌, ◌≡◌, refl, ap, ap₂, ◌↔◌, Bool, true, not, List, [], ◌∷◌, ◌++◌, arith,
  ◌==◌, if◌then◌else◌, length, set, replicate, Bool-cases, inl, inr, length-append,
}

pub record Symbol : Type 0 where
  pub bytes : List ℕ

-- `Symbol()`: eight zero bytes.
abbrev pub blank : Symbol
blank = record { bytes = replicate 8 0 }

-- `for (i = 0; i < 8 && str[i]; ++i) data[i] = str[i];`, with the rounds that are left, the index,
-- the text from `str + i` on, and `data`. Behind the text stands its terminating 0.
copy_loop : ℕ → ℕ → List ℕ → List ℕ → List ℕ
copy_loop zero i str bytes = bytes
copy_loop (suc n) i [] bytes = bytes
copy_loop (suc n) i (c ∷ str) bytes =
    let rest = copy_loop n (i + 1) str (set bytes i c) in if c == 0 then bytes else rest

-- `Symbol(const char*)`
unfoldable pub of_text : List ℕ → Symbol
unfolding copy_loop
of_text str = record { bytes = copy_loop 8 0 str (replicate 8 0) }

-- Eight bytes read as a `uint64_t`, the lowest first.
abbrev pub word : List ℕ → ℕ
word [] = 0
word (b ∷ bs) = b + 256 * word bs

-- `operator==` compares the two words.
unfoldable pub eq : Symbol → Symbol → Bool
eq a b = word a.bytes == word b.bytes

-- `operator!=`
unfoldable pub ne : Symbol → Symbol → Bool
unfolding eq
ne a b = not (eq a b)

-- `SymbolHash`
unfoldable pub hash : Symbol → ℕ
hash a = word a.bytes

abbrev pub AreBytes : List ℕ → Type 0
AreBytes [] = Unit
AreBytes (b ∷ bs) = (b < 256) × AreBytes bs

-- A symbol holds eight bytes.
pub record IsValid (s : Symbol) : Type 0 where
  pub eight : length s.bytes ≡ 8
  pub bytes : AreBytes s.bytes

-- The first `n` characters of a text, up to its terminating 0, and zeros behind them.
abbrev pub padded : ℕ → List ℕ → List ℕ
padded zero str = []
padded (suc n) [] = replicate (suc n) 0
padded (suc n) (c ∷ str) = if c == 0 then replicate (suc n) 0 else c ∷ padded n str

set-append :
    (pre post : List ℕ) (b c : ℕ) → set (pre ++ (b ∷ post)) (length pre) c ≡ pre ++ (c ∷ post)
set-append [] post b c = refl
set-append (x ∷ pre) post b c = ap (λ t. x ∷ t) (set-append pre post b c)

copy_loop-padded :
    (n : ℕ) (pre str : List ℕ)
    → copy_loop n (length pre) str (pre ++ replicate n 0) ≡ pre ++ padded n str
unfolding copy_loop
copy_loop-padded zero pre str = refl
copy_loop-padded (suc n) pre [] = refl
copy_loop-padded (suc n) pre (c ∷ str) = elim (Bool-cases (c == 0)) [
  | inl stop ↦ rw stop
  | inr go ↦
      rw (go, set-append pre (replicate n 0) 0 c) (step (copy_loop-padded n (pre ++ (c ∷ [])) str))
]
  where
    step :
        copy_loop n (length (pre ++ (c ∷ []))) str ((pre ++ (c ∷ [])) ++ replicate n 0)
          ≡ (pre ++ (c ∷ [])) ++ padded n str
        → copy_loop n (length pre + 1) str (pre ++ (c ∷ replicate n 0)) ≡ pre ++ (c ∷ padded n str)
    step ih = rw (length-append, append_assoc, append_assoc) at ih

-- The constructor keeps the text up to its end or its eighth character, and fills up with zeros.
pub of_text-padded : (str : List ℕ) → (of_text str).bytes ≡ padded 8 str
unfolding of_text
of_text-padded str = copy_loop-padded 8 [] str

word-injective :
    (a b : List ℕ) → length a ≡ length b → AreBytes a → AreBytes b → word a ≡ word b → a ≡ b
word-injective [] [] l p q e = refl
word-injective [] (y ∷ b) l p q e = absurd (omega arith)
word-injective (x ∷ a) [] l p q e = absurd (omega arith)
word-injective (x ∷ a) (y ∷ b) l p q e =
    ap₂ ◌∷◌ (omega arith) (word-injective a b (omega arith) p.1 q.1 (omega arith))

-- `==` on symbols is equality of their eight bytes, and so is equality of hashes.
pub eq_iff :
    (a b : Symbol)
    → IsValid a
    → IsValid b
    → ((eq a b ≡ true) ↔ (a.bytes ≡ b.bytes)) × ((hash a ≡ hash b) ↔ (a.bytes ≡ b.bytes))
unfolding eq hash
eq_iff a b p q = ((λ e. same (ground arith), λ e. rw e (ground arith)), (same, λ e. ap word e))
  where
    same : word a.bytes ≡ word b.bytes → a.bytes ≡ b.bytes
    same = word-injective a.bytes b.bytes (omega arith) p.bytes q.bytes
