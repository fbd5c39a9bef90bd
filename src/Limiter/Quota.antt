-- ===== src/Limiter/Quota.antt =====
-- How many calls of `More` a limited run grants, over all interleavings of its goroutines.
use yab.Prelude.{ℕ, suc, ◌+◌, ◌-◌, ◌^◌, ◌≤◌, ◌<◌, false, ◌≡◌, ◌≢◌, refl, arith, nat_comparable}
use yab.Prelude.Int.{ℤ, pos, ◌-ℤ◌, ◌<ℤ◌, pos_part, neg_part, int_comparable}
use yab.Limiter.{
  new, dec64, Pc, outside, load_left, take_unlimited, take_limited, before_dec, more_step, StopPc,
  stop_outside, swapped, left_stored, unlimited_stored, stop_step,
}
use yab.Limiter.System.{System, Step, work, stop, Reach, here, later, start, after_more, after_stop}

-- Far from the least int64 `Dec` subtracts one.
pub dec64_parts :
    (x : ℤ)
    → neg_part x < 2 ^ 63
    → (pos_part (dec64 x) ≡ pos_part x - 1)
      × (neg_part (dec64 x) + pos_part x ≡ neg_part x + 1 + pos_part (dec64 x))
unfolding dec64 ◌-ℤ◌
dec64_parts x h = ground arith

-- What holds after `n` steps of a run for `quota` requests.
pub record Inv (quota n : ℕ) (s : System) : Type 0 where
  pub limited : s.run.unlimited ≡ false
  pub no_free : (i : ℕ) → s.pc i ≢ take_unlimited
  pub low : neg_part s.run.requests_left ≤ n
  pub within : s.granted + pos_part s.run.requests_left ≤ quota
  pub quiet : s.run.cancelled ≡ false → (j : ℕ) → s.stop_pc j ≡ stop_outside
  pub exact : s.run.cancelled ≡ false → s.granted + pos_part s.run.requests_left ≡ quota
  pub spent : s.run.cancelled ≡ false → 0 < s.refused → s.run.requests_left <ℤ pos 0

module _ {quota n : ℕ} {s : System} (i : ℕ) (small : n < 2 ^ 63) (v : Inv quota n s) where
  moved-Inv : (p : Pc) → s.pc i ≡ p → Inv quota (suc n) (after_more s i (more_step s.run p))
  unfolding more_step
  moved-Inv outside e = record {
    limited = v.limited;
    no_free = λ k. ground (arith, v.no_free k, v.limited);
    low = omega (arith, v.low);
    within = ground (arith, v.within);
    quiet = λ c j. v.quiet c j;
    exact = λ c. ground (arith, v.exact c);
    spent = λ c h. v.spent c (ground arith);
  }
  moved-Inv take_unlimited e = absurd (v.no_free i e)
  moved-Inv load_left e = record {
    limited = v.limited;
    no_free = λ k. ground (arith, v.no_free k);
    low = omega (arith, v.low);
    within = ground (arith, v.within);
    quiet = λ c j. v.quiet c j;
    exact = λ c. ground (arith, v.exact c);
    spent = λ c h. v.spent c (ground arith);
  }
  moved-Inv take_limited e = record {
    limited = v.limited;
    no_free = λ k. ground (arith, v.no_free k);
    low = omega (arith, v.low);
    within = ground (arith, v.within);
    quiet = λ c j. v.quiet c j;
    exact = λ c. ground (arith, v.exact c);
    spent = λ c h. v.spent c (ground arith);
  }
  moved-Inv before_dec e =
      let (p, q) = dec64_parts s.run.requests_left (omega (arith, v.low)) in
      record {
        limited = v.limited;
        no_free = λ k. ground (arith, v.no_free k);
        low = omega (arith, v.low, p, q);
        within = ground (arith, v.within, p, q);
        quiet = λ c j. v.quiet c j;
        exact = λ c. ground (arith, v.exact c, p, q);
        spent = λ c h. ground (arith, v.spent c, p, q);
      }

  stopped-Inv :
      (p : StopPc) → s.stop_pc i ≡ p → Inv quota (suc n) (after_stop s i (stop_step s.run p))
  unfolding stop_step
  stopped-Inv stop_outside e = record {
    limited = ground (arith, v.limited);
    no_free = v.no_free;
    low = ground (arith, v.low);
    within = ground (arith, v.within);
    quiet = λ c j. ground (arith, v.quiet);
    exact = λ c. ground (arith, v.exact);
    spent = λ c h. ground (arith, v.spent);
  }
  stopped-Inv swapped e = record {
    limited = v.limited;
    no_free = v.no_free;
    low = omega arith;
    within = omega (arith, v.within);
    quiet = λ c j. ground (arith, v.quiet c i);
    exact = λ c. ground (arith, v.quiet c i);
    spent = λ c h. ground (arith, v.quiet c i);
  }
  stopped-Inv left_stored e = record {
    limited = refl;
    no_free = v.no_free;
    low = omega (arith, v.low);
    within = v.within;
    quiet = λ c j. ground (arith, v.quiet c i);
    exact = v.exact;
    spent = v.spent;
  }
  stopped-Inv unlimited_stored e = record {
    limited = v.limited;
    no_free = v.no_free;
    low = omega (arith, v.low);
    within = v.within;
    quiet = λ c j. ground (arith, v.quiet c i);
    exact = v.exact;
    spent = v.spent;
  }

Step-Inv :
    {quota n : ℕ} {s t : System} → n < 2 ^ 63 → Inv quota n s → Step s t → Inv quota (suc n) t
Step-Inv {s} small v (work i) = moved-Inv i small v (s.pc i) refl
Step-Inv {s} small v (stop j) = stopped-Inv j small v (s.stop_pc j) refl

Reach-Inv :
    {quota : ℕ} {s : System} {n : ℕ} {t : System}
    → Inv quota 0 s
    → n < 2 ^ 63
    → Reach s n t
    → Inv quota n t
Reach-Inv v small here = v
Reach-Inv v small (later r st) = Step-Inv (omega arith) (Reach-Inv v (omega arith) r) st

start-Inv : (quota : ℕ) → 0 < quota → Inv quota 0 (start (new (pos quota)))
start-Inv quota h = record {
  limited = ground arith;
  no_free = λ i. cc;
  low = omega arith;
  within = omega arith;
  quiet = λ c j. refl;
  exact = λ c. omega arith;
  spent = λ c k. omega arith;
}

-- In a run for `quota` requests, at most `quota` calls of `More` return true, whatever the order in
-- which the goroutines make their steps, with `Stop` or without, for fewer than 2 ^ 63 steps.
pub granted-le-quota :
    (quota n : ℕ) (t : System)
    → 0 < quota
    → n < 2 ^ 63
    → Reach (start (new (pos quota))) n t
    → t.granted ≤ quota
granted-le-quota quota n t h small r = omega (arith, (Reach-Inv (start-Inv quota h) small r).within)

-- If nothing has called `Stop` and some call of `More` has returned false, then exactly `quota` calls
-- have returned true, for fewer than 2 ^ 63 steps.
pub granted-eq-quota :
    (quota n : ℕ) (t : System)
    → 0 < quota
    → n < 2 ^ 63
    → Reach (start (new (pos quota))) n t
    → t.run.cancelled ≡ false
    → 0 < t.refused
    → t.granted ≡ quota
granted-eq-quota quota n t h small r c k =
    let v = Reach-Inv (start-Inv quota h) small r in ground (arith, v.exact c, v.spent c k)
