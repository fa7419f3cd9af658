-- ===== src/ThreadUtils/Placement.antt =====
-- Whether the two threads of the feed get CPUs of their own.
use market_data_feed_handler.Prelude.{
  ℕ, ◌<◌, ◌≡◌, refl, ◌≢◌, ◌↔◌, ap, false, some, List, [], ◌∷◌, ◌++◌, arith, ==_ne, leb,
}
use market_data_feed_handler.Prelude.Int.{ℤ, pos}
use market_data_feed_handler.Parser.Text.{Without, Without-append}
use market_data_feed_handler.Parser.Numbers.{written}
use market_data_feed_handler.Parser.Price.{written-Without}
use market_data_feed_handler.ThreadUtils.CpuList.{
  Entry, single, range, entry_text, list_text, AreReadable, all_cpus, parse_cpu_list-list_text,
}
use market_data_feed_handler.ThreadUtils.Setup.{
  first_line, get_line, get_isolated_cpus, producer_cpu, consumer_cpu, place,
}

entry_text-Without : (x : Entry) → Without 10 (entry_text x)
entry_text-Without (single d ds) = written-Without 10 (d ∷ ds) (omega arith)
entry_text-Without (range d ds e es) =
    Without-append 10 (written (d ∷ ds)) (45 ∷ written (e ∷ es))
      (written-Without 10 (d ∷ ds) (omega arith))
      (omega arith, written-Without 10 (e ∷ es) (omega arith))

list_text-Without : (x : Entry) (xs : List Entry) → Without 10 (list_text x xs)
list_text-Without x [] = entry_text-Without x
list_text-Without x (y ∷ ys) =
    Without-append 10 (entry_text x) (44 ∷ list_text y ys) (entry_text-Without x)
      (omega arith, list_text-Without y ys)

first_line-Without : (s rest : List ℕ) → Without 10 s → first_line (s ++ (10 ∷ rest)) ≡ s
unfolding first_line
first_line-Without [] rest w = refl
first_line-Without (c ∷ s) rest (ne, w) = rw (==_ne c 10 ne, first_line-Without s rest w) refl

get_line-Without : (s rest : List ℕ) → Without 10 s → get_line (s ++ (10 ∷ rest)) ≡ some s
unfolding get_line
get_line-Without [] rest w = ap some (first_line-Without [] rest w)
get_line-Without (c ∷ s) rest w = ap some (first_line-Without (c ∷ s) rest w)

-- The kernel's list of isolated CPUs is read as what its entries name.
get_isolated_cpus-list_text :
    (x : Entry) (xs : List Entry) (rest : List ℕ)
    → AreReadable (x ∷ xs)
    → get_isolated_cpus (some (list_text x xs ++ (10 ∷ rest))) ≡ some (all_cpus (x ∷ xs))
unfolding get_isolated_cpus
get_isolated_cpus-list_text x xs rest r =
    rw (get_isolated_cpus, get_line-Without (list_text x xs) rest (list_text-Without x xs))
      (parse_cpu_list-list_text x xs r)

-- The first two CPUs are not the same.
abbrev pub AreApart : List ℤ → Type 0
AreApart (cpu ∷ cpu' ∷ cpus) = cpu ≢ cpu'
AreApart _ = Unit

producer_cpu-same_iff :
    (num_cpus : ℕ) (cpus : List ℤ)
    → 1 < num_cpus
    → AreApart cpus
    → (producer_cpu cpus ≡ consumer_cpu (pos num_cpus) cpus) ↔ (cpus ≡ pos 1 ∷ [])
unfolding producer_cpu consumer_cpu
producer_cpu-same_iff n [] many apart =
    let more : leb n 1 ≡ false = ground arith in rw more (λ e. cc, λ e. cc)
producer_cpu-same_iff n (cpu ∷ []) many apart =
    let more : leb n 1 ≡ false = ground arith in rw more (λ e. cc, λ e. cc)
producer_cpu-same_iff n (cpu ∷ cpu' ∷ cpus) many apart = (λ e. absurd (apart e), λ e. cc)

-- Of a readable list of isolated CPUs whose first two differ, on a machine with more CPUs than one,
-- `main` reads two CPUs, and they are the same exactly where CPU 1 is the only isolated one: then both
-- threads are pinned to it.
pub place-same_iff :
    (num_cpus : ℕ) (x : Entry) (xs : List Entry) (rest : List ℕ)
    → 1 < num_cpus
    → AreReadable (x ∷ xs)
    → AreApart (all_cpus (x ∷ xs))
    → (cpus : ℤ × ℤ) × (place (pos num_cpus) (some (list_text x xs ++ (10 ∷ rest))) ≡ some cpus)
      × ((cpus.0 ≡ cpus.1) ↔ (all_cpus (x ∷ xs) ≡ pos 1 ∷ []))
unfolding place
place-same_iff num_cpus x xs rest many r apart =
    rw (place, get_isolated_cpus-list_text x xs rest r)
      (_, refl, producer_cpu-same_iff num_cpus (all_cpus (x ∷ xs)) many apart)
