-- ===== src/Stream/Waiter.antt =====
-- `intervalWaiter` of handler.go, which keeps a gap between the messages of a stream.
--
-- Times are nanoseconds of a clock that does not go back, and the interval is not negative. What the
-- clock says is an input: `now` at the beginning of a wait, `woken` behind its `select`. `time.After`
-- is a parameter of which the code relies on this: it does not fire early.
use yab.Prelude.{
  ℕ, suc, ◌+◌, ◌-◌, ◌*◌, ◌≤◌, Bool, true, List, [], ◌∷◌, Option, none, some, ◌≡◌, refl, ap,
  Bool-cases, length, arith, leb, if◌then◌else◌, leb→le, inl, inr,
}

-- No time is the zero `time.Time`, from which the difference is the longest duration there is.
pub record IntervalWaiter : Type 0 where
  pub interval : ℕ
  pub last_allowed : Option ℕ

abbrev pub new_interval_waiter : ℕ → IntervalWaiter
new_interval_waiter interval = record { interval = interval; last_allowed = none }

-- The test of `wait`: the gap is long enough.
unfoldable pub is_due : ℕ → Option ℕ → ℕ → Bool
is_due interval none now = true
is_due interval (some last) now = leb interval (now - last)

-- How long the `select` of `wait` waits, unless the context is done.
unfoldable pub remaining : ℕ → Option ℕ → ℕ → ℕ
remaining interval none now = 0
remaining interval (some last) now = interval - (now - last)

-- The time that `wait` stores.
unfoldable pub allowed_at : IntervalWaiter → (now woken : ℕ) → ℕ
unfolding is_due
allowed_at s now woken = if is_due s.interval s.last_allowed now then now else woken

unfoldable pub wait : IntervalWaiter → (now woken : ℕ) → IntervalWaiter
unfolding allowed_at
wait s now woken = record s { last_allowed = some (allowed_at s now woken) }

-- The times of a list of waits, each with what its clock says.
unfoldable pub wait_all : IntervalWaiter → List (ℕ × ℕ) → List ℕ
unfolding wait
wait_all s [] = []
wait_all s ((now, woken) ∷ cs) = allowed_at s now woken ∷ wait_all (wait s now woken) cs

abbrev NotBack : Option ℕ → ℕ → Type 0
NotBack none now = Unit
NotBack (some last) now = last ≤ now

-- The clock does not go back, and no wait is over before its time, which holds while the context is
-- not done.
unfoldable pub Clock : IntervalWaiter → List (ℕ × ℕ) → Type 0
unfolding remaining wait
Clock s [] = Unit
Clock s ((now, woken) ∷ cs) =
    NotBack s.last_allowed now
    × (now + remaining s.interval s.last_allowed now ≤ woken)
    × Clock (wait s now woken) cs

abbrev pub last_of : ℕ → List ℕ → ℕ
last_of a [] = a
last_of a (b ∷ bs) = last_of b bs

wait_all-length : (cs : List (ℕ × ℕ)) (s : IntervalWaiter) → length (wait_all s cs) ≡ length cs
unfolding wait_all wait
wait_all-length [] s = refl
wait_all-length ((now, woken) ∷ cs) s =
    ap suc (wait_all-length cs (record s { last_allowed = some (allowed_at s now woken) }))

allowed_at-gap :
    (interval last now woken : ℕ)
    → last ≤ now
    → now + remaining interval (some last) now ≤ woken
    → last + interval
      ≤ allowed_at (record { interval = interval; last_allowed = some last }) now woken
unfolding allowed_at is_due remaining
allowed_at-gap interval last now woken forth late = elim (Bool-cases (leb interval (now - last))) [
  | inl e ↦ rw e (omega (arith, forth, leb→le interval (now - last) e))
  | inr e ↦ rw e (omega (arith, forth, late))
]

wait_all-after :
    (cs : List (ℕ × ℕ)) (interval last : ℕ)
    → Clock (record { interval = interval; last_allowed = some last }) cs
    → last + interval * length cs
      ≤ last_of last (wait_all (record { interval = interval; last_allowed = some last }) cs)
unfolding Clock wait_all wait
wait_all-after [] interval last clock = omega arith
wait_all-after ((now, woken) ∷ cs) interval last (forth, late, clock) =
    let a = allowed_at (record { interval = interval; last_allowed = some last }) now woken in
    omega
      (arith, allowed_at-gap interval last now woken forth late, wait_all-after cs interval a clock)

-- While the context is not done, n messages behind the first are allowed no earlier than n intervals
-- after it.
pub wait_all-Clock :
    (interval now woken : ℕ) (cs : List (ℕ × ℕ))
    → Clock (new_interval_waiter interval) ((now, woken) ∷ cs)
    → (first : ℕ) × (later : List ℕ) × (wait_all (new_interval_waiter interval) ((now, woken) ∷ cs)
        ≡ first ∷ later)
      × (length later ≡ length cs)
      × (first + interval * length cs ≤ last_of first later)
unfolding Clock wait_all wait
wait_all-Clock interval now woken cs (forth, late, clock) =
    let a = allowed_at (new_interval_waiter interval) now woken in
    let s : IntervalWaiter = record { interval = interval; last_allowed = some a } in
    (a, wait_all s cs, refl, wait_all-length cs s, wait_all-after cs interval a clock)
