-- ===== src/Benchmark/Starts.antt =====
-- When a run makes a first call, and when and with which maximum of requests its benchmark starts.
use yab.Prelude.{true, false, ◌⊎◌, inl, inr, ◌≡◌, ◌≢◌, refl, arith, Bool-cases, ◌==◌}
use yab.Prelude.Int.{ℤ, pos, ◌≤ℤ◌, ◌<ℤ◌, ltb_ℤ-cases, beq_ℤ, beq_ℤ_iff, int_comparable}
use yab.Options.{BenchmarkOptions}
use yab.Benchmark.{
  validate, enabled, should_make_initial_request, capped_max_requests, Start, disabled, run_with,
  start_benchmark,
}

-- A duration or a maximum of requests is given, so that a benchmark is asked for.
abbrev pub IsAsked : BenchmarkOptions → Type 0
IsAsked o = (o.max_duration ≢ pos 0) ⊎ (o.max_requests ≢ pos 0)

abbrev pub IsUnasked : BenchmarkOptions → Type 0
IsUnasked o = (o.max_duration ≡ pos 0) × (o.max_requests ≡ pos 0)

-- There is a first call unless a benchmark without warm-up is asked for.
abbrev pub IsFirstMade : BenchmarkOptions → Type 0
IsFirstMade o = IsUnasked o ⊎ (o.warmup_requests ≢ pos 0)

abbrev pub IsFirstSkipped : BenchmarkOptions → Type 0
IsFirstSkipped o = IsAsked o × (o.warmup_requests ≡ pos 0)

-- The maximum of requests where the rate and the duration allow for `most`: with both above 0 it is
-- `most`, if that is less than the maximum given or none is given, and else the maximum given.
abbrev pub IsCapped : BenchmarkOptions → ℤ → ℤ → Type 0
IsCapped o most n =
    ((pos 0 <ℤ o.rps)
      × (pos 0 <ℤ o.max_duration)
      × ((((most <ℤ o.max_requests) ⊎ (o.max_requests ≡ pos 0)) × (n ≡ most))
          ⊎ ((o.max_requests ≤ℤ most) × (o.max_requests ≢ pos 0) × (n ≡ o.max_requests))))
    ⊎ (((o.rps ≤ℤ pos 0) ⊎ (o.max_duration ≤ℤ pos 0)) × (n ≡ o.max_requests))

-- A benchmark is asked for by a duration and a maximum that are not negative, and is capped.
abbrev pub IsStarted : (ℤ → ℤ → ℤ) → BenchmarkOptions → ℤ → Type 0
IsStarted rps_max o n =
    (pos 0 ≤ℤ o.max_duration)
    × (pos 0 ≤ℤ o.max_requests)
    × IsAsked o
    × IsCapped o (rps_max o.rps o.max_duration) n

pub asked_and_unasked : (o : BenchmarkOptions) → IsAsked o → IsUnasked o → ⊥
asked_and_unasked o (inl h) (e, f) = h e
asked_and_unasked o (inr h) (e, f) = h f

beq_ℤ-ne : (a b : ℤ) → beq_ℤ a b ≡ false → a ≢ b
beq_ℤ-ne a b h e = absurd (ground (arith, h, (beq_ℤ_iff a b).1 e))

enabled-IsAsked : (o : BenchmarkOptions) → enabled o ≡ true → IsAsked o
unfolding enabled
enabled-IsAsked o h = elim (Bool-cases (o.max_duration == pos 0)) [
  | inl e ↦ elim (Bool-cases (o.max_requests == pos 0)) [
    | inl f ↦ absurd (ground (arith, h, e, f))
    | inr f ↦ inr (beq_ℤ-ne o.max_requests (pos 0) f)
  ]
  | inr e ↦ inl (beq_ℤ-ne o.max_duration (pos 0) e)
]

enabled-IsUnasked : (o : BenchmarkOptions) → enabled o ≡ false → IsUnasked o
unfolding enabled
enabled-IsUnasked o h = elim (Bool-cases (o.max_duration == pos 0)) [
  | inl e ↦ elim (Bool-cases (o.max_requests == pos 0)) [
    | inl f ↦ ((beq_ℤ_iff o.max_duration (pos 0)).0 e, (beq_ℤ_iff o.max_requests (pos 0)).0 f)
    | inr f ↦ absurd (ground (arith, h, e, f))
  ]
  | inr e ↦ absurd (ground (arith, h, e))
]

pub IsAsked-enabled : (o : BenchmarkOptions) → IsAsked o → enabled o ≡ true
unfolding enabled
IsAsked-enabled o h = elim (Bool-cases (enabled o)) [
  | inl e ↦ e
  | inr e ↦ absurd (asked_and_unasked o h (enabled-IsUnasked o e))
]

pub should_make_initial_request-IsFirstMade :
    (o : BenchmarkOptions) → should_make_initial_request o ≡ true → IsFirstMade o
unfolding should_make_initial_request
should_make_initial_request-IsFirstMade o h = elim (Bool-cases (enabled o)) [
  | inl e ↦ elim (Bool-cases (o.warmup_requests == pos 0)) [
    | inl f ↦ absurd (ground (arith, h, e, f))
    | inr f ↦ inr (beq_ℤ-ne o.warmup_requests (pos 0) f)
  ]
  | inr e ↦ inl (enabled-IsUnasked o e)
]

pub should_make_initial_request-IsFirstSkipped :
    (o : BenchmarkOptions) → should_make_initial_request o ≡ false → IsFirstSkipped o
unfolding should_make_initial_request
should_make_initial_request-IsFirstSkipped o h = elim (Bool-cases (enabled o)) [
  | inl e ↦ elim (Bool-cases (o.warmup_requests == pos 0)) [
    | inl f ↦ (enabled-IsAsked o e, (beq_ℤ_iff o.warmup_requests (pos 0)).0 f)
    | inr f ↦ absurd (ground (arith, h, e, f))
  ]
  | inr e ↦ absurd (ground (arith, h, e))
]

module _ (rps_max : ℤ → ℤ → ℤ) (o : BenchmarkOptions) where
  capped_max_requests-IsCapped :
      IsCapped o (rps_max o.rps o.max_duration) (capped_max_requests rps_max o)
  unfolding capped_max_requests
  capped_max_requests-IsCapped =
      let most = rps_max o.rps o.max_duration in
      elim (ltb_ℤ-cases (pos 0) o.rps) [
        | inr (e, p) ↦ rw (capped_max_requests, e) (inr (inl p, refl))
        | inl (e, p) ↦ elim (ltb_ℤ-cases (pos 0) o.max_duration) [
          | inr (f, q) ↦ rw (capped_max_requests, e, f) (inr (inr q, refl))
          | inl (f, q) ↦ elim (ltb_ℤ-cases most o.max_requests) [
            | inl (g, l) ↦ rw (capped_max_requests, e, f, g) (inl (p, q, inl (inl l, refl)))
            | inr (g, l) ↦ elim (Bool-cases (o.max_requests == pos 0)) [
              | inl z ↦
                  rw (capped_max_requests, e, f, g, z)
                    (inl (p, q, inl (inr ((beq_ℤ_iff o.max_requests (pos 0)).0 z), refl)))
              | inr z ↦
                  rw (capped_max_requests, e, f, g, z)
                    (inl (p, q, inr (l, beq_ℤ-ne o.max_requests (pos 0) z, refl)))
            ]
          ]
        ]
      ]

  abbrev maximum : Start → ℤ
  maximum (run_with n) = n
  maximum _ = pos 0

  pub start_benchmark-IsStarted :
      (n : ℤ) → start_benchmark rps_max o ≡ run_with n → IsStarted rps_max o n
  unfolding start_benchmark validate
  start_benchmark-IsStarted n h = elim (ltb_ℤ-cases o.max_duration (pos 0)) [
    | inl (e, p) ↦ absurd (ground (arith, h, e))
    | inr (e, p) ↦ elim (ltb_ℤ-cases o.max_requests (pos 0)) [
      | inl (f, q) ↦ absurd (ground (arith, h, e, f))
      | inr (f, q) ↦ elim (Bool-cases (enabled o)) [
        | inr g ↦ absurd (ground (arith, h, e, f, g))
        | inl g ↦
            let same : capped_max_requests rps_max o ≡ n = ground (arith, h, e, f, g) in
            (p, q, enabled-IsAsked o g, rw (← same) capped_max_requests-IsCapped)
      ]
    ]
  ]

  pub start_benchmark-IsUnasked : start_benchmark rps_max o ≡ disabled → IsUnasked o
  unfolding start_benchmark validate
  start_benchmark-IsUnasked h = elim (Bool-cases (enabled o)) [
    | inr g ↦ enabled-IsUnasked o g
    | inl g ↦ absurd (ground (arith, h, g))
  ]
