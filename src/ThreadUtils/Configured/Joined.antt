-- ===== src/ThreadUtils/Configured/Joined.antt =====
-- Every thread that a `ConfiguredThread` starts is joined, once.
use market_data_feed_handler.Prelude.{
  ℕ, zero, suc, ◌+◌, ◌≤◌, ◌<◌, ◌≡◌, refl, sym, ap, ◌||◌, Option, none, some, List, [], ◌∷◌, ◌++◌,
  arith, ◌==◌, ltb, length, length-set, get_or, set, if◌then◌else◌, Bool-cases, inl, inr,
}
use market_data_feed_handler.Prelude.Int.{ℤ, pos, negsuc}
use market_data_feed_handler.ThreadUtils.{le_int}
use market_data_feed_handler.ThreadUtils.Configured.{
  ConfiguredThread, Call, join_thread, configure, empty_thread, join_of, join, destruct, move,
  move_assign, System, at, Step, construct_object, join_at, destruct_at, move_from, assign, Reach,
  here, next,
}

-- Whether an object stands for a thread, as a number.
abbrev stands_for : ℕ → Option ℕ → ℕ
stands_for id none = 0
stands_for id (some thread) = if thread == id then 1 else 0

abbrev pub owners : ℕ → List ConfiguredThread → ℕ
owners id [] = 0
owners id (t ∷ ts) = stands_for id t.thread + owners id ts

abbrev is_join : ℕ → Call → ℕ
is_join id (join_thread thread) = if thread == id then 1 else 0
is_join id _ = 0

-- How often a thread has been joined.
abbrev pub joins : ℕ → List Call → ℕ
joins id [] = 0
joins id (c ∷ calls) = is_join id c + joins id calls

joins-append : (id : ℕ) (xs ys : List Call) → joins id (xs ++ ys) ≡ joins id xs + joins id ys
joins-append id [] ys = omega arith
joins-append id (x ∷ xs) ys = omega (arith, joins-append id xs ys)

owners-set :
    (id : ℕ) (ts : List ConfiguredThread) (i : ℕ) (t : ConfiguredThread)
    → i < length ts
    → owners id (set ts i t) + stands_for id (get_or ts i empty_thread).thread
      ≡ owners id ts + stands_for id t.thread
owners-set id [] i t h = absurd (omega arith)
owners-set id (x ∷ ts) zero t h = omega arith
owners-set id (x ∷ ts) (suc i) t h = omega (arith, owners-set id ts i t (omega arith))

-- The constructor starts a thread and joins none.
joins-configure :
    (num_cpus : ℤ) (thread : ℕ) (cpu_id : ℤ) (name : List ℕ) (priority : ℤ) (id : ℕ)
    → joins id (configure num_cpus thread cpu_id name priority).1 ≡ 0
unfolding configure
joins-configure num_cpus thread cpu_id name priority id =
    elim (Bool-cases (le_int priority (pos 0) || le_int (pos 100) priority)) [
      | inl p ↦ elim (Bool-cases (le_int cpu_id (negsuc 0) || le_int num_cpus cpu_id)) [
        | inl c ↦ rw (p, c) refl
        | inr c ↦ rw (p, c) refl
      ]
      | inr p ↦ elim (Bool-cases (le_int cpu_id (negsuc 0) || le_int num_cpus cpu_id)) [
        | inl c ↦ rw (p, c) refl
        | inr c ↦ rw (p, c) refl
      ]
    ]

-- A join gives up the thread.
joins-join_of :
    (id : ℕ) (t : Option ℕ)
    → stands_for id (join_of t).0.thread + joins id (join_of t).1 ≡ stands_for id t
unfolding join_of
joins-join_of id none = refl
joins-join_of id (some thread) = omega arith

-- A thread that has started is owned by an object or has been joined, once.
abbrev Inv : System → Type 0
Inv s = (id : ℕ) → owners id s.objects + joins id s.calls ≡ (if ltb id s.started then 1 else 0)

-- `join` and the destructor.
Inv-join_of :
    (s : System) (i : ℕ)
    → i < length s.objects
    → Inv s
    → Inv (record s {
      objects = set s.objects i (join_of (at s i).thread).0;
      calls = (join_of (at s i).thread).1 ++ s.calls;
    })
Inv-join_of s i h inv id = omega (
  arith,
  inv id,
  owners-set id s.objects i (join_of (at s i).thread).0 h,
  joins-join_of id (at s i).thread,
  joins-append id (join_of (at s i).thread).1 s.calls,
)

-- What an assignment needs, and what it does.
assigned_of :
    (target : Option ℕ) (source : ConfiguredThread) {t u : ConfiguredThread}
    → (elim target as (λ o. Option (ConfiguredThread × ConfiguredThread)) [
      | none ↦ some (source, empty_thread)
      | some thread ↦ none
    ])
      ≡ some (t, u)
    → (target ≡ none) × (t ≡ source) × (u ≡ empty_thread)
assigned_of none source e = (
  refl,
  sym (ap (λ o. elim o [ none ↦ source | some p ↦ p.0 ]) e),
  sym (ap (λ o. elim o [ none ↦ empty_thread | some p ↦ p.1 ]) e),
)
assigned_of (some thread) source e = cc

move_assign-some :
    (target source : ConfiguredThread) {t u : ConfiguredThread}
    → move_assign target source ≡ some (t, u)
    → (target.thread ≡ none) × (t ≡ source) × (u ≡ empty_thread)
unfolding move_assign
move_assign-some target source e = assigned_of target.thread source e

get_or-set_moved :
    (ts : List ConfiguredThread) (i j : ℕ)
    → get_or (set ts i (get_or ts j empty_thread)) j empty_thread ≡ get_or ts j empty_thread
get_or-set_moved [] i j = refl
get_or-set_moved (t ∷ ts) zero zero = refl
get_or-set_moved (t ∷ ts) zero (suc j) = refl
get_or-set_moved (t ∷ ts) (suc i) zero = refl
get_or-set_moved (t ∷ ts) (suc i) (suc j) = get_or-set_moved ts i j

Step-Inv : {num_cpus : ℤ} {s t : System} → Inv s → Step num_cpus s t → Inv t
unfolding join destruct move configure
Step-Inv {num_cpus} {s} inv (construct_object cpu_id name priority) id = ground (
  arith,
  inv id,
  joins-configure num_cpus s.started cpu_id name priority id,
  joins-append id (configure num_cpus s.started cpu_id name priority).1 s.calls,
)
Step-Inv {s} inv (join_at i h) id = Inv-join_of s i h inv id
Step-Inv {s} inv (destruct_at i h) id = Inv-join_of s i h inv id
Step-Inv {s} inv (move_from i h) id =
    omega (arith, inv id, owners-set id s.objects i empty_thread h)
Step-Inv {s} inv (assign i j h l e) id =
    let (empty, t, u) = move_assign-some (at s i) (at s j) e in
    let source' = at s j in
    let none_owned : stands_for id (at s i).thread ≡ 0 = rw empty refl in
    rw (t, u)
      (omega (
        arith,
        inv id,
        none_owned,
        owners-set id s.objects i source' h,
        owners-set id (set s.objects i source') j empty_thread
            (rw (length-set s.objects i source') l),
        ap (λ x. stands_for id x.thread) (get_or-set_moved s.objects i j),
      ))

Reach-Inv : {num_cpus : ℤ} {s : System} → Reach num_cpus s → Inv s
Reach-Inv here id = ground arith
Reach-Inv (next r step) id = Step-Inv (Reach-Inv r) step id

-- However a program constructs, moves, joins, assigns and destroys such objects, as long as no
-- assignment terminates it: a thread that has started is owned by one object and not joined, or by
-- none and joined once, and no other thread is owned or joined. So once no object stands for a thread,
-- every thread that has started has been joined exactly once.
pub Reach-joined_once :
    {num_cpus : ℤ} {s : System} (id : ℕ)
    → Reach num_cpus s
    → (id < s.started → owners id s.objects + joins id s.calls ≡ 1)
      × (s.started ≤ id → owners id s.objects + joins id s.calls ≡ 0)
Reach-joined_once id r = let i = Reach-Inv r id in (λ h. ground arith, λ h. ground arith)
