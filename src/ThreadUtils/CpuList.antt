-- ===== src/ThreadUtils/CpuList.antt =====
-- The lists of CPUs in the kernel's notation, such as `2-7,10-15`.
use native.Mathlib.Nat.{pow-suc}
use market_data_feed_handler.Prelude.{
  ℕ, ◌+◌, ◌-◌, ◌*◌, ◌^◌, ◌≤◌, ◌<◌, ◌≡◌, refl, ◌∙◌, ap, true, false, Option, none, some, List, [],
  ◌∷◌, ◌++◌, ◌==◌, ==_ne, ltb, leb, if◌then◌else◌, length, arith, Bool-cases, inl, inr,
}
use market_data_feed_handler.Prelude.Int.{ℤ, pos}
use market_data_feed_handler.Parser.{is_digit}
use market_data_feed_handler.Parser.Text.{
  find_char, Without, Without-append, find_char-Without, take-append, drop-append,
}
use market_data_feed_handler.Parser.Numbers.{AreDigits, written, value}
use market_data_feed_handler.Parser.Price.{written-Without}
use market_data_feed_handler.ThreadUtils.{
  int_max, c_string, read_digits, strtol, safe_stoi, push_range, count_up, parse_token, tokens,
  parse_tokens, parse_cpu_list, is_space,
}

read_digits-written :
    (ds : List ℕ) (n : ℕ)
    → AreDigits ds
    → read_digits n (written ds) ≡ (n * 10 ^ length ds + value ds, [])
read_digits-written [] n a = ap (λ m. (m, [])) (omega arith)
read_digits-written (d ∷ ds) n (l, a) =
    let c : 48 + d - 48 ≡ d = omega arith in
    let digit : is_digit (48 + d) ≡ true = ground arith in
    let e : (n * 10 + d) * 10 ^ length ds + value ds ≡ n * 10 ^ length (d ∷ ds) + value (d ∷ ds) =
      omega (arith, ap (λ t. n * t) (pow-suc 10 (length ds))) in
    rw (c, digit, read_digits-written ds (n * 10 + d) a) (ap (λ m. (m, [])) e)

c_string-written : (ds : List ℕ) → c_string (written ds) ≡ written ds
c_string-written [] = refl
c_string-written (d ∷ ds) =
    let e : (48 + d == 0) ≡ false = ground arith in rw (e, c_string-written ds) refl

strtol-written :
    (d : ℕ) (ds : List ℕ)
    → AreDigits (d ∷ ds)
    → strtol (written (d ∷ ds)) ≡ some (pos (value (d ∷ ds)), [])
strtol-written d ds a =
    let space : is_space (48 + d) ≡ false = ground arith in
    let minus : (48 + d == 45) ≡ false = ground arith in
    let plus : (48 + d == 43) ≡ false = ground arith in
    let digit : is_digit (48 + d) ≡ true = ground arith in
    let e : 0 * 10 ^ length (d ∷ ds) + value (d ∷ ds) ≡ value (d ∷ ds) = omega arith in
    let r : read_digits 0 (written (d ∷ ds)) ≡ (value (d ∷ ds), []) =
      read_digits-written (d ∷ ds) 0 a ∙ ap (λ m. (m, [])) e in
    let result : (r : ℕ × List ℕ) → Option (ℤ × List ℕ) = λ r. some (pos r.0, r.1) in
    rw (strtol, space, minus, plus, digit) (rw digit at (ap result r))

-- A number in decimal notation that fits an `int` is read as it is; a greater one is refused.
pub safe_stoi-written :
    (d : ℕ) (ds : List ℕ)
    → AreDigits (d ∷ ds)
    → safe_stoi (written (d ∷ ds))
      ≡ (if ltb int_max (value (d ∷ ds)) then none else some (pos (value (d ∷ ds))))
unfolding safe_stoi
safe_stoi-written d ds a = rw (safe_stoi, c_string-written (d ∷ ds), strtol-written d ds a) refl

-- An entry of a list: a number, or a range of two.
pub data Entry : Type 0 where
  single : (d : ℕ) (ds : List ℕ) → Entry
  range : (d : ℕ) (ds : List ℕ) (e : ℕ) (es : List ℕ) → Entry

abbrev pub entry_text : Entry → List ℕ
entry_text (single d ds) = written (d ∷ ds)
entry_text (range d ds e es) = written (d ∷ ds) ++ (45 ∷ written (e ∷ es))

abbrev pub list_text : Entry → List Entry → List ℕ
list_text x [] = entry_text x
list_text x (y ∷ ys) = entry_text x ++ (44 ∷ list_text y ys)

-- Digits, with numbers that fit an `int`, the end of a range being less than the greatest.
abbrev pub IsReadable : Entry → Type 0
IsReadable (single d ds) = AreDigits (d ∷ ds) × (value (d ∷ ds) ≤ int_max)
IsReadable (range d ds e es) =
    AreDigits (d ∷ ds)
    × AreDigits (e ∷ es)
    × (value (d ∷ ds) ≤ int_max)
    × (value (e ∷ es) < int_max)

abbrev pub AreReadable : List Entry → Type 0
AreReadable [] = Unit
AreReadable (x ∷ xs) = IsReadable x × AreReadable xs

-- The CPUs that an entry names: none, where the end of a range is before its start.
abbrev pub cpus_of : Entry → List ℤ
cpus_of (single d ds) = pos (value (d ∷ ds)) ∷ []
cpus_of (range d ds e es) = count_up (value (e ∷ es) + 1 - value (d ∷ ds)) (pos (value (d ∷ ds)))

abbrev pub all_cpus : List Entry → List ℤ
all_cpus [] = []
all_cpus (x ∷ xs) = cpus_of x ++ all_cpus xs

stoi_fits :
    (d : ℕ) (ds : List ℕ)
    → AreDigits (d ∷ ds)
    → value (d ∷ ds) ≤ int_max
    → safe_stoi (written (d ∷ ds)) ≡ some (pos (value (d ∷ ds)))
stoi_fits d ds a h =
    let fits : ltb int_max (value (d ∷ ds)) ≡ false = ground arith in
    safe_stoi-written d ds a ∙ rw fits refl

push_range-pos :
    (a b : ℕ)
    → b < int_max
    → (if leb a b then push_range (pos a) (pos b) else some [])
      ≡ some (count_up (b + 1 - a) (pos a))
unfolding push_range
push_range-pos a b h = elim (Bool-cases (leb a b)) [
  | inl t ↦
      let big : leb int_max b ≡ false = ground arith in
      let z : b + 0 ≡ b = omega arith in
      let z' : 0 + a ≡ a = omega arith in
      let le : a ≤ b = ground arith in
      let n : b - a + 1 ≡ b + 1 - a = omega arith in rw (t, push_range, big, z, z', t, n) refl
  | inr t ↦ let lt : b < a = ground arith in let n : b + 1 - a ≡ 0 = omega arith in rw (t, n) refl
]

find_char-none : (c : ℕ) (s : List ℕ) → Without c s → find_char c s ≡ none
find_char-none c [] w = refl
find_char-none c (x ∷ s) (ne, w) = rw (==_ne x c ne, find_char-none c s w) refl

parse_token-entry : (x : Entry) → IsReadable x → parse_token (entry_text x) ≡ some (cpus_of x)
unfolding parse_token
parse_token-entry (single d ds) (a, h) =
    rw
      (
        parse_token,
        find_char-none 45 (written (d ∷ ds)) (written-Without 45 (d ∷ ds) (omega arith)),
        stoi_fits d ds a h,
      )
      refl
parse_token-entry (range d ds e es) (a, b, h, k) =
    rw
      (
        parse_token,
        find_char-Without 45 (written (d ∷ ds)) (written (e ∷ es))
            (written-Without 45 (d ∷ ds) (omega arith)),
        take-append (written (d ∷ ds)) (45 ∷ written (e ∷ es)) (length (written (d ∷ ds))) refl,
        stoi_fits d ds a h,
        drop-append (written (d ∷ ds)) (written (e ∷ es)) 45,
        stoi_fits e es b (omega arith),
      )
      (push_range-pos (value (d ∷ ds)) (value (e ∷ es)) k)

tokens-more : (t s : List ℕ) → Without 44 t → tokens (t ++ (44 ∷ s)) ≡ t ∷ tokens s
unfolding tokens
tokens-more [] s w = refl
tokens-more (x ∷ t) s (ne, w) = rw (==_ne x 44 ne, tokens-more t s w) refl

tokens-last : (x : ℕ) (t : List ℕ) → Without 44 (x ∷ t) → tokens (x ∷ t) ≡ (x ∷ t) ∷ []
unfolding tokens
tokens-last x [] (ne, w) = rw (==_ne x 44 ne) refl
tokens-last x (y ∷ t) (ne, w) = rw (==_ne x 44 ne, tokens-last y t w) refl

comma-free : (x : Entry) → Without 44 (entry_text x)
comma-free (single d ds) = written-Without 44 (d ∷ ds) (omega arith)
comma-free (range d ds e es) =
    Without-append 44 (written (d ∷ ds)) (45 ∷ written (e ∷ es))
      (written-Without 44 (d ∷ ds) (omega arith))
      (omega arith, written-Without 44 (e ∷ es) (omega arith))

tokens-entry : (x : Entry) → tokens (entry_text x) ≡ entry_text x ∷ []
tokens-entry (single d ds) = tokens-last (48 + d) (written ds) (comma-free (single d ds))
tokens-entry (range d ds e es) = tokens-last (48 + d) _ (comma-free (range d ds e es))

-- A list of numbers and ranges, with commas between them, that fit an `int`, the ends of ranges less
-- than the greatest one, is read as the CPUs that its entries name, in order.
pub parse_cpu_list-list_text :
    (x : Entry) (xs : List Entry)
    → AreReadable (x ∷ xs)
    → parse_cpu_list (list_text x xs) ≡ some (all_cpus (x ∷ xs))
unfolding parse_cpu_list parse_tokens
parse_cpu_list-list_text x [] (r, rs) =
    rw (parse_cpu_list, tokens-entry x) (rw (parse_token-entry x r) refl)
parse_cpu_list-list_text x (y ∷ ys) (r, rs) =
    rw (parse_cpu_list, tokens-more (entry_text x) (list_text y ys) (comma-free x))
      (rw (parse_token-entry x r, parse_cpu_list-list_text y ys rs) refl)
