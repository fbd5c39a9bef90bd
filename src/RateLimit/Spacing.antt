-- ===== src/RateLimit/Spacing.antt =====
-- How far apart the limiter lets requests start. A request starts at the time that `Take` leaves in
-- `last`: the time of the call, or the end of its sleep.
use yab.Prelude.{
  inl, inr, ℕ, ◌*◌, ◌/◌, true, false, some, List, [], ◌∷◌, ◌≡◌, refl, ap, ◌∙◌, ◌++◌, arith, length,
}
use yab.Prelude.Int.{ℤ, pos, ◌+ℤ◌, ◌-ℤ◌, ◌≤ℤ◌, ltb_ℤ, ltb_ℤ-cases, int_laws, pos_part, neg_part}
use yab.RateLimit.{TimePeriod, new, second, take, take_again, take_all, timer}

-- Between calls that were not cancelled nothing is left to sleep, and the credit is bounded.
pub record IsBounded (t : TimePeriod) : Type 0 where
  pub slack_neg : t.max_slack ≤ℤ pos 0
  pub no_debt : t.sleep_for ≤ℤ pos 0
  pub credit : t.max_slack ≤ℤ t.sleep_for

ltb_ℤ-le : (a : ℤ) → a ≤ℤ pos 0 → ltb_ℤ (pos 0) a ≡ false
ltb_ℤ-le a h = elim (ltb_ℤ-cases (pos 0) a) [ inl (e, k) ↦ absurd (omega arith) | inr (e, k) ↦ e ]

-- One call after a request that started at `last`: the next one starts no earlier than the budget
-- allows, where unused budget counts only down to the slack.
record Spaced (t : TimePeriod) (last cur : ℤ) : Type 0 where
  next : ℤ
  u : TimePeriod
  taken : take_again t last cur timer ≡ (u, true)
  last_is : u.last ≡ some next
  bounded : IsBounded u
  per : u.per_request ≡ t.per_request
  slack : u.max_slack ≡ t.max_slack
  waits : cur ≤ℤ next
  spaced : last +ℤ t.sleep_for +ℤ pos t.per_request ≤ℤ next +ℤ u.sleep_for

take_again-Spaced : (t : TimePeriod) (last cur : ℤ) → IsBounded t → Spaced t last cur
unfolding take_again
take_again-Spaced t last cur b =
    let wanted = t.sleep_for +ℤ (pos t.per_request -ℤ (cur -ℤ last)) in
    elim (ltb_ℤ-cases wanted t.max_slack) [
      | inl (e, h) ↦ record {
        next = cur;
        u = record t { last = some cur; sleep_for = t.max_slack };
        taken = rw e (rw (ltb_ℤ-le t.max_slack b.slack_neg));
        last_is = refl;
        bounded = record { slack_neg = b.slack_neg; no_debt = b.slack_neg; credit = omega arith };
        per = refl;
        slack = refl;
        waits = omega arith;
        spaced = omega int_laws;
      }
      | inr (e, h) ↦ elim (ltb_ℤ-cases (pos 0) wanted) [
        | inl (f, k) ↦ record {
          next = cur +ℤ wanted;
          u = record t { last = some (cur +ℤ wanted); sleep_for = pos 0 };
          taken = rw e (rw f);
          last_is = refl;
          bounded = record { slack_neg = b.slack_neg; no_debt = omega arith; credit = b.slack_neg };
          per = refl;
          slack = refl;
          waits = omega int_laws;
          spaced = omega int_laws;
        }
        | inr (f, k) ↦ record {
          next = cur;
          u = record t { last = some cur; sleep_for = wanted };
          taken = rw e (rw f);
          last_is = refl;
          bounded = record { slack_neg = b.slack_neg; no_debt = k; credit = h };
          per = refl;
          slack = refl;
          waits = omega arith;
          spaced = omega int_laws;
        }
      ]
    ]

-- A limiter of this rate, in use: its last request started at `last`.
pub record InUse (per : ℕ) (slack : ℤ) (t : TimePeriod) (last : ℤ) : Type 0 where
  pub bounded : IsBounded t
  pub last_is : t.last ≡ some last
  pub per_is : t.per_request ≡ per
  pub slack_is : t.max_slack ≡ slack

record SpacedAll (per : ℕ) (slack : ℤ) (t : TimePeriod) (last : ℤ) (curs : List ℤ) : Type 0 where
  next : ℤ
  in_use : InUse per slack (take_all t curs) next
  spaced : last +ℤ t.sleep_for +ℤ pos (length curs * per) ≤ℤ next +ℤ (take_all t curs).sleep_for

take_timer :
    {per : ℕ} {slack : ℤ} (t : TimePeriod) (last cur : ℤ) (i : InUse per slack t last)
    (u : TimePeriod)
    → take_again t last cur timer ≡ (u, true)
    → (take t cur timer).0 ≡ u
unfolding take
take_timer t last cur i u e = rw i.last_is (rw e)

take_all-cons :
    (t : TimePeriod) (cur : ℤ) (curs : List ℤ)
    → take_all t (cur ∷ curs) ≡ take_all (take t cur timer).0 curs
unfolding take_all
take_all-cons t cur curs = refl

take_all-Spaced :
    {per : ℕ} {slack : ℤ} (curs : List ℤ) (t : TimePeriod) (last : ℤ)
    → InUse per slack t last
    → SpacedAll per slack t last curs
take_all-Spaced [] t last i = record {
  next = last;
  in_use = unfold take_all in i;
  spaced = unfold take_all in omega int_laws;
}
take_all-Spaced {per} {slack} (cur ∷ curs) t last i =
    let s = take_again-Spaced t last cur i.bounded in
    let j : InUse per slack s.u s.next = record {
      bounded = s.bounded;
      last_is = s.last_is;
      per_is = s.per ∙ i.per_is;
      slack_is = s.slack ∙ i.slack_is;
    } in
    let r = take_all-Spaced curs s.u s.next j in
    let e =
      take_all-cons t cur curs ∙ ap (λ v. take_all v curs) (take_timer t last cur i s.u s.taken) in
    record {
      next = r.next;
      in_use = rw e r.in_use;
      spaced = rw e (omega (int_laws, r.spaced, s.spaced, i.per_is));
    }

abbrev pub per_request : ℕ → ℕ
per_request rps = second / rps

abbrev pub credit : ℕ → ℕ
credit rps = 10 * second / rps

-- The limiter after its first call.
abbrev started : ℕ → ℤ → TimePeriod
started rps c = record (new rps) { last = some c }

take_all-started :
    (rps : ℕ) (c : ℤ) (cs : List ℤ) → take_all (new rps) (c ∷ cs) ≡ take_all (started rps c) cs
unfolding take_all take new
take_all-started rps c cs = refl

started-InUse :
    (rps : ℕ) (c : ℤ) → InUse (per_request rps) (pos 0 -ℤ pos (credit rps)) (started rps c) c
unfolding new
started-InUse rps c = record {
  bounded = record { slack_neg = omega int_laws; no_debt = omega arith; credit = omega int_laws };
  last_is = refl;
  per_is = refl;
  slack_is = refl;
}

started-sleep_for : (rps : ℕ) (c : ℤ) → (started rps c).sleep_for ≡ pos 0
unfolding new
started-sleep_for rps c = refl

-- Over a whole run the rate holds: `n` calls after the first one, none cancelled, the last request
-- starts at least `n` times the interval `second / rps` after the first, whenever the calls come.
pub take_all-rate :
    (rps : ℕ) (first : ℤ) (curs : List ℤ)
    → (last : ℤ) × ((take_all (new rps) (first ∷ curs)).last ≡ some last)
      × (first +ℤ pos (length curs * (second / rps)) ≤ℤ last)
take_all-rate rps first curs =
    let r = take_all-Spaced curs (started rps first) first (started-InUse rps first) in
    let z = started-sleep_for rps first in
    (
      r.next,
      rw take_all-started r.in_use.last_is,
      omega (int_laws, r.spaced, r.in_use.bounded.no_debt, ap pos_part z, ap neg_part z),
    )

take_all-append :
    (t : TimePeriod) (xs ys : List ℤ) → take_all t (xs ++ ys) ≡ take_all (take_all t xs) ys
unfolding take_all
take_all-append t [] ys = refl
take_all-append t (x ∷ xs) ys = take_all-append (take t x timer).0 xs ys

-- Over any part of a run the rate holds up to the slack: from one request to the `n`-th after it
-- pass at least `n` intervals, less the slack of `10 * second / rps`.
pub take_all-burst :
    (rps : ℕ) (first : ℤ) (before after : List ℤ)
    → (a b : ℤ) × ((take_all (new rps) (first ∷ before)).last ≡ some a)
      × ((take_all (new rps) (first ∷ (before ++ after))).last ≡ some b)
      × (a +ℤ pos (length after * (second / rps)) ≤ℤ b +ℤ pos (10 * second / rps))
take_all-burst rps first before after =
    let u = started rps first in
    let r = take_all-Spaced before u first (started-InUse rps first) in
    let s = take_all-Spaced after (take_all u before) r.next r.in_use in
    let k = r.in_use.slack_is in
    (
      r.next,
      s.next,
      rw take_all-started r.in_use.last_is,
      rw take_all-started (rw take_all-append s.in_use.last_is),
      omega (
        int_laws,
        s.spaced,
        s.in_use.bounded.no_debt,
        r.in_use.bounded.credit,
        ap pos_part k,
        ap neg_part k,
      ),
    )
