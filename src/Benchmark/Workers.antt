-- ===== src/Benchmark/Workers.antt =====
-- benchmark.go: the states of all the workers of a benchmark, and what they are merged into.
--
-- `events i j` is what worker `j` of connection `i` records, in its order; the workers have each a
-- state of their own, so that their order among each other does not matter.
use Prim.Native.Nat.mul
use native.Mathlib.Nat.{zero-mul}
use yab.Prelude.{
  ℕ, zero, suc, ◌+◌, ◌*◌, ◌<◌, List, [], ◌∷◌, ◌++◌, Option, none, some, ◌⊎◌, inl, inr, ◌≡◌, refl,
  sym, ap, ◌∙◌, subst, arith, length, get_elem?, length-append, ap₂,
}
use yab.Benchmark.{state_index}
use yab.BenchState.{BenchmarkState, new_benchmark_state}
use yab.BenchState.Event.{Event, replay, merge_all, Counts, states_of, concat}
use yab.BenchState.Merge.{merge_all-replay}

-- The states of one connection, from worker `j` on.
unfoldable pub fill_row : {A : Type 0} → (ℕ → A) → ℕ → ℕ → List A
fill_row f j zero = []
fill_row f j (suc n) = f j ∷ fill_row f (suc j) n

-- The states of all connections, from connection `i` on, `concurrency` for each.
unfoldable pub fill_states : {A : Type 0} → (ℕ → ℕ → A) → ℕ → ℕ → ℕ → List A
unfolding fill_row
fill_states f concurrency i zero = []
fill_states f concurrency i (suc n) =
    fill_row (f i) 0 concurrency ++ fill_states f concurrency (suc i) n

-- `overall`; `none`: there is no first state, and the access to it panics.
abbrev pub overall : List BenchmarkState → Option BenchmarkState
overall [] = none
overall (s ∷ states) = some (merge_all s states)

-- `runBenchmark` from the start of its workers to the merged state
unfoldable pub run_workers : (ℕ → ℕ → List Event) → ℕ → ℕ → Option BenchmarkState
unfolding fill_states
run_workers events connections concurrency =
    overall (fill_states (λ i j. replay (events i j) new_benchmark_state) concurrency 0 connections)

module _ {A : Type 0} where
  fill_row-length : (f : ℕ → A) (j n : ℕ) → length (fill_row f j n) ≡ n
  unfolding fill_row
  fill_row-length f j zero = refl
  fill_row-length f j (suc n) = ap suc (fill_row-length f (suc j) n)

  fill_states-length : (f : ℕ → ℕ → A) (c i n : ℕ) → length (fill_states f c i n) ≡ n * c
  unfolding fill_states
  fill_states-length f c i zero = omega (arith, zero-mul c)
  fill_states-length f c i (suc n) = omega (
    arith,
    length-append (fill_row (f i) 0 c) (fill_states f c (suc i) n),
    fill_row-length (f i) 0 c,
    fill_states-length f c (suc i) n,
    mul.suc n c,
  )

  get_elem?-left :
      (xs ys : List A) (k : ℕ) → k < length xs → get_elem? (xs ++ ys) k ≡ get_elem? xs k
  get_elem?-left [] ys k h = absurd (omega (arith, h))
  get_elem?-left (x ∷ xs) ys zero h = refl
  get_elem?-left (x ∷ xs) ys (suc k) h = get_elem?-left xs ys k (omega (arith, h))

  get_elem?-right : (xs ys : List A) (k : ℕ) → get_elem? (xs ++ ys) (length xs + k) ≡ get_elem? ys k
  get_elem?-right [] ys k = ap (get_elem? ys) (omega arith)
  get_elem?-right (x ∷ xs) ys k =
      let shifted : suc (length xs) + k ≡ suc (length xs + k) = omega arith in
      ap (get_elem? (x ∷ (xs ++ ys))) shifted ∙ get_elem?-right xs ys k

  fill_row-get_elem? :
      (f : ℕ → A) (j n k : ℕ) → k < n → get_elem? (fill_row f j n) k ≡ some (f (j + k))
  unfolding fill_row
  fill_row-get_elem? f j zero k h = absurd (omega (arith, h))
  fill_row-get_elem? f j (suc n) zero h = ap (λ m. some (f m)) (omega arith)
  fill_row-get_elem? f j (suc n) (suc k) h =
      fill_row-get_elem? f (suc j) n k (omega (arith, h)) ∙ ap (λ m. some (f m)) (omega arith)

  -- The state of a worker stands at the index that it uses.
  fill_states-state_index :
      (f : ℕ → ℕ → A) (c i n k j : ℕ)
      → k < n
      → j < c
      → get_elem? (fill_states f c i n) (state_index c k j) ≡ some (f (i + k) j)
  unfolding fill_states
  fill_states-state_index f c i zero k j h l = absurd (omega (arith, h))
  fill_states-state_index f c i (suc n) zero j h l =
      ap (get_elem? (fill_row (f i) 0 c ++ fill_states f c (suc i) n)) (omega (arith, zero-mul c))
      ∙ get_elem?-left (fill_row (f i) 0 c) (fill_states f c (suc i) n) j
          (omega (arith, l, fill_row-length (f i) 0 c))
      ∙ fill_row-get_elem? (f i) 0 c j l
      ∙ ap₂ (λ a b. some (f a b)) (omega arith) (omega arith)
  fill_states-state_index f c i (suc n) (suc k) j h l =
      ap (get_elem? (fill_row (f i) 0 c ++ fill_states f c (suc i) n))
        (omega (arith, mul.suc k c, fill_row-length (f i) 0 c))
      ∙ get_elem?-right (fill_row (f i) 0 c) (fill_states f c (suc i) n) (state_index c k j)
      ∙ fill_states-state_index f c (suc i) n k j (omega (arith, h)) l
      ∙ ap (λ m. some (f m j)) (omega arith)

states_of-append : (xs ys : List (List Event)) → states_of (xs ++ ys) ≡ states_of xs ++ states_of ys
states_of-append [] ys = refl
states_of-append (x ∷ xs) ys = ap (λ l. replay x new_benchmark_state ∷ l) (states_of-append xs ys)

module _ (events : ℕ → ℕ → List Event) where
  states_of-fill_row :
      (i j n : ℕ)
      → states_of (fill_row (events i) j n)
        ≡ fill_row (λ k. replay (events i k) new_benchmark_state) j n
  unfolding fill_row
  states_of-fill_row i j zero = refl
  states_of-fill_row i j (suc n) =
      ap (λ l. replay (events i j) new_benchmark_state ∷ l) (states_of-fill_row i (suc j) n)

  states_of-fill_states :
      (c i n : ℕ)
      → states_of (fill_states events c i n)
        ≡ fill_states (λ k j. replay (events k j) new_benchmark_state) c i n
  unfolding fill_states
  states_of-fill_states c i zero = refl
  states_of-fill_states c i (suc n) =
      states_of-append (fill_row (events i) 0 c) (fill_states events c (suc i) n)
      ∙ ap₂ (λ a b. a ++ b) (states_of-fill_row i 0 c) (states_of-fill_states c (suc i) n)

  overall-Counts :
      (ws : List (List Event)) (n : ℕ)
      → length ws ≡ n
      → ((n ≡ 0) × (overall (states_of ws) ≡ none))
        ⊎ ((s : BenchmarkState) × (overall (states_of ws) ≡ some s) × Counts (concat ws) s)
  overall-Counts [] n e = inl (sym e, refl)
  overall-Counts (w ∷ ws) n e =
      inr (merge_all (replay w new_benchmark_state) (states_of ws), refl, merge_all-replay w ws)

  -- Either the product of connections and concurrency is 0, and the benchmark panics, since there
  -- is no state to merge into; or the merged state counts every call of every worker once: the
  -- requests, the errors under each text, the successes, the latencies and the stream messages are
  -- those of all the workers' calls together.
  pub run_workers-Counts :
      (connections concurrency : ℕ)
      → ((connections * concurrency ≡ 0) × (run_workers events connections concurrency ≡ none))
        ⊎ ((s : BenchmarkState) × (run_workers events connections concurrency ≡ some s)
            × Counts (concat (fill_states events concurrency 0 connections)) s)
  unfolding run_workers
  run_workers-Counts n c =
      subst
        (λ states.
          ((n * c ≡ 0) × (overall states ≡ none))
          ⊎ ((s : BenchmarkState) × (overall states ≡ some s)
              × Counts (concat (fill_states events c 0 n)) s))
        (states_of-fill_states c 0 n)
        (overall-Counts (fill_states events c 0 n) (n * c) (fill_states-length events c 0 n))
