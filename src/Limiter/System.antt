-- ===== src/Limiter/System.antt =====
-- Goroutines in `More` and goroutines in `Stop`, over one `Run`, interleaved in any order.
use yab.Prelude.{ℕ, zero, suc, ◌+◌, ◌==◌, nat_comparable, if◌then◌else◌}
use yab.Limiter.{
  Run, Pc, outside, Answer, yes_more, no_more, Moved, more_step, StopPc, stop_outside, stop_step,
}

abbrev pub update {ℓ} : {A : Type ℓ} → (ℕ → A) → ℕ → A → ℕ → A
update f i a j = if i == j then a else f j

-- `granted` and `refused` count the calls of `More` that returned true and false, and `grants` those
-- of each goroutine that returned true. They are no part of the program.
pub record System : Type 0 where
  pub run : Run
  pub pc : ℕ → Pc
  pub stop_pc : ℕ → StopPc
  pub granted : ℕ
  pub refused : ℕ
  pub grants : ℕ → ℕ

abbrev pub grant : Answer → ℕ
grant yes_more = 1
grant _ = 0

abbrev pub refuse : Answer → ℕ
refuse no_more = 1
refuse _ = 0

-- Goroutine `i` makes a step of `More`.
abbrev pub after_more : System → ℕ → Moved → System
after_more s i m = record s {
  run = m.run;
  pc = update s.pc i m.pc;
  granted = s.granted + grant m.answer;
  refused = s.refused + refuse m.answer;
  grants = update s.grants i (s.grants i + grant m.answer);
}

-- Goroutine `j` makes a step of `Stop`.
abbrev pub after_stop : System → ℕ → Run × StopPc → System
after_stop s j (r, p) = record s { run = r; stop_pc = update s.stop_pc j p }

pub data Step (s : System) : System → Type 0 where
  work : (i : ℕ) → Step s (after_more s i (more_step s.run (s.pc i)))
  stop : (j : ℕ) → Step s (after_stop s j (stop_step s.run (s.stop_pc j)))

-- `Reach s n t`: from `s` to `t` in `n` steps.
pub data Reach (s : System) : ℕ → System → Type 0 where
  here : Reach s zero s
  later : {n : ℕ} {t u : System} → Reach s n t → Step t u → Reach s (suc n) u

abbrev pub start : Run → System
start r = record {
  run = r;
  pc = λ i. outside;
  stop_pc = λ j. stop_outside;
  granted = 0;
  refused = 0;
  grants = λ i. 0;
}
