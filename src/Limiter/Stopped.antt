-- ===== src/Limiter/Stopped.antt =====
-- What `Stop` does to the channel, and to the calls of `More` behind it.
use native.Mathlib.Nat.{zero-add, suc-add}
use yab.Prelude.{
  ℕ, suc, ◌+◌, ◌^◌, ◌≤◌, ◌<◌, true, false, ◌≡◌, ◌≢◌, refl, arith, nat_comparable, ◌⊎◌,
}
use yab.Prelude.Int.{pos, pos_part, neg_part}
use yab.Limiter.{
  new, Pc, outside, take_unlimited, before_dec, more_step, StopPc, stop_outside, swapped,
  left_stored, unlimited_stored, stop_step,
}
use yab.Limiter.System.{System, Step, work, stop, Reach, here, later, start, after_more, after_stop}
use yab.Limiter.Quota.{dec64_parts}

abbrev HasStoredLeft : StopPc → Type 0
HasStoredLeft p = (p ≡ left_stored) ⊎ (p ≡ unlimited_stored)

-- What holds after `n` steps of any run.
record Inv (n : ℕ) (s : System) : Type 0 where
  low : neg_part s.run.requests_left ≤ n
  left_out : (j : ℕ) → HasStoredLeft (s.stop_pc j) → pos_part s.run.requests_left ≡ 0
  limited : (j : ℕ) → s.stop_pc j ≡ unlimited_stored → s.run.unlimited ≡ false
  done_left : s.run.closed ≡ true → pos_part s.run.requests_left ≡ 0
  done_limited : s.run.closed ≡ true → s.run.unlimited ≡ false
  quiet : s.run.cancelled ≡ false → (j : ℕ) → s.stop_pc j ≡ stop_outside
  unclosed : s.run.cancelled ≡ false → s.run.closed ≡ false
  alone : (i j : ℕ) → s.stop_pc i ≢ stop_outside → s.stop_pc j ≢ stop_outside → i ≡ j
  once : (j : ℕ) → s.stop_pc j ≢ stop_outside → s.run.closed ≡ false

module _ {n : ℕ} {s : System} (i : ℕ) (small : n < 2 ^ 63) (v : Inv n s) where
  -- A step of `More` changes `requestsLeft` at most, and does not raise it.
  moved-Inv : (p : Pc) → Inv (suc n) (after_more s i (more_step s.run p))
  unfolding more_step
  moved-Inv before_dec =
      let (p, q) = dec64_parts s.run.requests_left (omega (arith, v.low)) in
      record {
        low = omega (arith, v.low, p, q);
        left_out = λ j h. omega (arith, v.left_out j h, p);
        limited = v.limited;
        done_left = λ c. omega (arith, v.done_left c, p);
        done_limited = v.done_limited;
        quiet = v.quiet;
        unclosed = v.unclosed;
        alone = v.alone;
        once = v.once;
      }
  moved-Inv _ = record {
    low = omega (arith, v.low);
    left_out = v.left_out;
    limited = v.limited;
    done_left = v.done_left;
    done_limited = v.done_limited;
    quiet = v.quiet;
    unclosed = v.unclosed;
    alone = v.alone;
    once = v.once;
  }

  stopped-Inv : (p : StopPc) → s.stop_pc i ≡ p → Inv (suc n) (after_stop s i (stop_step s.run p))
  unfolding stop_step
  stopped-Inv stop_outside e = record {
    low = ground (arith, v.low);
    left_out = λ j h. ground (arith, v.left_out j);
    limited = λ j h. ground (arith, v.limited j);
    done_left = λ c. ground (arith, v.done_left);
    done_limited = λ c. ground (arith, v.done_limited);
    quiet = λ c j. ground (arith, v.quiet);
    unclosed = λ c. ground (arith, v.unclosed);
    alone = λ k j h g. ground (
      arith,
      v.alone k j,
      λ (c : s.run.cancelled ≡ false). v.quiet c k,
      λ (c : s.run.cancelled ≡ false). v.quiet c j,
    );
    once = λ j h. ground (arith, v.once j, v.unclosed);
  }
  stopped-Inv swapped e = record {
    low = omega arith;
    left_out = λ j h. omega arith;
    limited = λ j h. ground (arith, v.limited j);
    done_left = λ c. omega arith;
    done_limited = v.done_limited;
    quiet = λ c j. ground (arith, v.quiet c i);
    unclosed = v.unclosed;
    alone = λ k j h g. ground (arith, v.alone k j, v.alone i j, v.alone k i);
    once = λ j h. ground (arith, v.once i);
  }
  stopped-Inv left_stored e = record {
    low = omega (arith, v.low);
    left_out = λ j h. ground (arith, v.left_out i);
    limited = λ j h. refl;
    done_left = v.done_left;
    done_limited = λ c. refl;
    quiet = λ c j. ground (arith, v.quiet c i);
    unclosed = v.unclosed;
    alone = λ k j h g. ground (arith, v.alone k j, v.alone i j, v.alone k i);
    once = λ j h. ground (arith, v.once i);
  }
  stopped-Inv unlimited_stored e = record {
    low = omega (arith, v.low);
    left_out = λ j h. ground (arith, v.left_out i);
    limited = λ j h. ground (arith, v.limited i);
    done_left = λ c. ground (arith, v.left_out i);
    done_limited = λ c. ground (arith, v.limited i);
    quiet = λ c j. ground (arith, v.quiet c i);
    unclosed = λ c. ground (arith, v.quiet c i);
    alone = λ k j h g. ground (arith, v.alone k j, v.alone i j, v.alone k i);
    once = λ j h. ground (arith, v.alone i j);
  }

Step-Inv : {n : ℕ} {s t : System} → n < 2 ^ 63 → Inv n s → Step s t → Inv (suc n) t
Step-Inv {s} small v (work i) = moved-Inv i small v (s.pc i)
Step-Inv {s} small v (stop j) = stopped-Inv j small v (s.stop_pc j) refl

Reach-Inv : {s : System} {n : ℕ} {t : System} → Inv 0 s → n < 2 ^ 63 → Reach s n t → Inv n t
Reach-Inv v small here = v
Reach-Inv v small (later r st) = Step-Inv (omega arith) (Reach-Inv v (omega arith) r) st

start-Inv : (max_requests : ℕ) → Inv 0 (start (new (pos max_requests)))
start-Inv max_requests = record {
  low = omega arith;
  left_out = λ j h. ground arith;
  limited = λ j h. cc;
  done_left = λ c. cc;
  done_limited = λ c. cc;
  quiet = λ c j. refl;
  unclosed = λ c. refl;
  alone = λ i j h k. absurd (h refl);
  once = λ j h. refl;
}

-- When a goroutine is about to close the channel in `Stop`, it is open: it is closed once, so `Stop`
-- does not panic, however many goroutines call it. This is for fewer than 2 ^ 63 steps.
pub stop_closes_once :
    (max_requests n j : ℕ) (s : System)
    → n < 2 ^ 63
    → Reach (start (new (pos max_requests))) n s
    → s.stop_pc j ≡ unlimited_stored
    → s.run.closed ≡ false
stop_closes_once max_requests n j s small r e =
    (Reach-Inv (start-Inv max_requests) small r).once j (λ h. cc)

-- Goroutine `i` after a `Stop` that was complete when `i` was outside of `More`.
record Shut (i : ℕ) (grants n : ℕ) (s : System) : Type 0 where
  inv : Inv n s
  is_closed : s.run.closed ≡ true
  not_free : s.pc i ≢ take_unlimited
  same : s.grants i ≡ grants

module _ {i g n : ℕ} {s : System} (small : n < 2 ^ 63) (v : Shut i g n s) where
  work-Shut : (k : ℕ) (p : Pc) → s.pc k ≡ p → Shut i g (suc n) (after_more s k (more_step s.run p))
  unfolding more_step
  work-Shut k before_dec e =
      let (p, q) = dec64_parts s.run.requests_left (omega (arith, v.inv.low)) in
      let z = v.inv.done_left v.is_closed in
      record {
        inv = moved-Inv k small v.inv before_dec;
        is_closed = v.is_closed;
        not_free = ground (arith, v.not_free);
        same = ground (arith, v.same, p, q, z);
      }
  work-Shut k take_unlimited e = record {
    inv = moved-Inv k small v.inv take_unlimited;
    is_closed = v.is_closed;
    not_free = ground (arith, v.not_free);
    same = ground (arith, v.same, v.not_free);
  }
  work-Shut k p e = record {
    inv = moved-Inv k small v.inv p;
    is_closed = v.is_closed;
    not_free = ground (arith, v.not_free, v.inv.done_limited v.is_closed);
    same = ground (arith, v.same);
  }

  stop-Shut :
      (k : ℕ) (p : StopPc) → s.stop_pc k ≡ p → Shut i g (suc n) (after_stop s k (stop_step s.run p))
  unfolding stop_step
  stop-Shut k p e = record {
    inv = stopped-Inv k small v.inv p e;
    is_closed = still_closed p;
    not_free = v.not_free;
    same = v.same;
  }
    where
      still_closed : (q : StopPc) → (stop_step s.run q).0.closed ≡ true
      still_closed stop_outside = ground (arith, v.is_closed)
      still_closed swapped = v.is_closed
      still_closed left_stored = v.is_closed
      still_closed unlimited_stored = refl

Step-Shut : {i g n : ℕ} {s t : System} → n < 2 ^ 63 → Shut i g n s → Step s t → Shut i g (suc n) t
Step-Shut {s} small v (work k) = work-Shut small v k (s.pc k) refl
Step-Shut {s} small v (stop k) = stop-Shut small v k (s.stop_pc k) refl

Reach-Shut :
    {i g n : ℕ} {s : System} {m : ℕ} {t : System}
    → Shut i g n s
    → m + n < 2 ^ 63
    → Reach s m t
    → Shut i g (m + n) t
Reach-Shut {n} v small here = rw zero-add v
Reach-Shut {n} v small (later {n = m} r st) =
    rw suc-add (Step-Shut (omega arith) (Reach-Shut v (omega arith) r) st)

-- After a `Stop` that is complete, a goroutine that is outside of `More` is granted nothing more,
-- whatever it and the others do: its later calls of `More` return false. This is for runs with a
-- limit and without, and fewer than 2 ^ 63 steps.
pub stop_no_more_grants :
    (max_requests n m i : ℕ) (s t : System)
    → n < 2 ^ 63
    → m + n < 2 ^ 63
    → Reach (start (new (pos max_requests))) n s
    → s.run.closed ≡ true
    → s.pc i ≡ outside
    → Reach s m t
    → t.grants i ≡ s.grants i
stop_no_more_grants max_requests n m i s t small_n small r c e later_steps =
    (Reach-Shut
      (record {
        inv = Reach-Inv (start-Inv max_requests) small_n r;
        is_closed = c;
        not_free = λ (h : s.pc i ≡ take_unlimited). cc (e, h);
        same = refl;
      })
      small later_steps).same
