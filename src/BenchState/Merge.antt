-- ===== src/BenchState/Merge.antt =====
-- The states of the workers, merged, against the list of all that the workers recorded.
use yab.Prelude.{
  ℕ, ◌+◌, List, [], ◌∷◌, ◌++◌, ◌≡◌, refl, sym, ap, ◌∙◌, Text, arith, ◌==◌, nat_comparable,
  text_comparable, if◌then◌else◌, length, length-append, append-nil, append_assoc, text_beq_iff,
}
use yab.Prelude.Assoc.{Assoc}
use yab.BenchState.{
  BenchmarkState, new_benchmark_state, error_to_message, add_count, merge_errors, merge,
}
use yab.BenchState.Event.{
  Event, failed, answered, streamed, record_event, replay, merge_all, count, failures_of, failures,
  latencies_of, messages_sent, messages_received, Counts, states_of, concat,
}

count-add_count :
    (k j : Text) (v : ℕ) (m : Assoc Text ℕ)
    → count k (add_count j v m) ≡ count k m + (if j == k then v else 0)
unfolding add_count
count-add_count k j v [] = omega arith
count-add_count k j v ((i, w) ∷ m) =
    ground (arith, count-add_count k j v m, text_beq_iff i j, text_beq_iff i k, text_beq_iff j k)

count-merge_errors :
    (k : Text) (m es : Assoc Text ℕ) → count k (merge_errors m es) ≡ count k m + count k es
unfolding merge_errors
count-merge_errors k m [] = omega arith
count-merge_errors k m ((j, v) ∷ es) =
    omega (arith, count-merge_errors k (add_count j v m) es, count-add_count k j v m)

failures_of-append :
    (k : Text) (xs ys : List Event) → failures_of k (xs ++ ys) ≡ failures_of k xs + failures_of k ys
failures_of-append k [] ys = omega arith
failures_of-append k (x ∷ xs) ys = omega (arith, failures_of-append k xs ys)

failures-append : (xs ys : List Event) → failures (xs ++ ys) ≡ failures xs + failures ys
failures-append [] ys = omega arith
failures-append (failed _ ∷ xs) ys = omega (arith, failures-append xs ys)
failures-append (_ ∷ xs) ys = failures-append xs ys

latencies_of-append :
    (xs ys : List Event) → latencies_of (xs ++ ys) ≡ latencies_of xs ++ latencies_of ys
latencies_of-append [] ys = refl
latencies_of-append (failed _ ∷ xs) ys = latencies_of-append xs ys
latencies_of-append (answered d ∷ xs) ys = ap (◌∷◌ d) (latencies_of-append xs ys)
latencies_of-append (streamed d _ _ ∷ xs) ys = ap (◌∷◌ d) (latencies_of-append xs ys)

messages_sent-append :
    (xs ys : List Event) → messages_sent (xs ++ ys) ≡ messages_sent xs + messages_sent ys
messages_sent-append [] ys = omega arith
messages_sent-append (streamed _ _ _ ∷ xs) ys = omega (arith, messages_sent-append xs ys)
messages_sent-append (_ ∷ xs) ys = messages_sent-append xs ys

messages_received-append :
    (xs ys : List Event)
    → messages_received (xs ++ ys) ≡ messages_received xs + messages_received ys
messages_received-append [] ys = omega arith
messages_received-append (streamed _ _ _ ∷ xs) ys = omega (arith, messages_received-append xs ys)
messages_received-append (_ ∷ xs) ys = messages_received-append xs ys

merge-Counts :
    {xs ys : List Event} {s t : BenchmarkState}
    → Counts xs s
    → Counts ys t
    → Counts (xs ++ ys) (merge s t)
unfolding merge
merge-Counts {xs} {ys} {s} {t} a b = record {
  errors = λ k. omega (
    arith,
    count-merge_errors k s.errors t.errors,
    failures_of-append k xs ys,
    a.errors k,
    b.errors k,
  );
  total_errors = omega (arith, failures-append xs ys);
  total_success = omega (
    arith,
    ap length (latencies_of-append xs ys),
    length-append (latencies_of xs) (latencies_of ys),
  );
  total_requests = omega (arith, length-append xs ys);
  latencies = rw (a.latencies, b.latencies) (sym (latencies_of-append xs ys));
  sent = omega (arith, messages_sent-append xs ys);
  received = omega (arith, messages_received-append xs ys);
}

new-Counts : Counts [] new_benchmark_state
new-Counts = record {
  errors = λ k. refl;
  total_errors = refl;
  total_success = refl;
  total_requests = refl;
  latencies = refl;
  sent = refl;
  received = refl;
}

record_event-Counts :
    {xs : List Event} {s : BenchmarkState} (e : Event)
    → Counts xs s
    → Counts (xs ++ e ∷ []) (record_event e s)
unfolding record_event
record_event-Counts {xs} {s} (failed err) c = record {
  errors = λ k. omega (
    arith,
    count-add_count k (error_to_message err) 1 s.errors,
    failures_of-append k xs (failed err ∷ []),
    c.errors k,
  );
  total_errors = omega (arith, failures-append xs (failed err ∷ []));
  total_success =
      omega (
        arith,
        ap length (latencies_of-append xs (failed err ∷ []) ∙ append-nil (latencies_of xs)),
      );
  total_requests = omega (arith, length-append xs (failed err ∷ []));
  latencies = c.latencies ∙ sym (latencies_of-append xs (failed err ∷ []) ∙ append-nil _);
  sent = omega (arith, messages_sent-append xs (failed err ∷ []));
  received = omega (arith, messages_received-append xs (failed err ∷ []));
}
record_event-Counts {xs} {s} (answered d) c = record {
  errors = λ k. omega (arith, failures_of-append k xs (answered d ∷ []), c.errors k);
  total_errors = omega (arith, failures-append xs (answered d ∷ []));
  total_success = omega (
    arith,
    ap length (latencies_of-append xs (answered d ∷ [])),
    length-append (latencies_of xs) (d ∷ []),
  );
  total_requests = omega (arith, length-append xs (answered d ∷ []));
  latencies = rw c.latencies (sym (latencies_of-append xs (answered d ∷ [])));
  sent = omega (arith, messages_sent-append xs (answered d ∷ []));
  received = omega (arith, messages_received-append xs (answered d ∷ []));
}
record_event-Counts {xs} {s} (streamed d m n) c = record {
  errors = λ k. omega (arith, failures_of-append k xs (streamed d m n ∷ []), c.errors k);
  total_errors = omega (arith, failures-append xs (streamed d m n ∷ []));
  total_success = omega (
    arith,
    ap length (latencies_of-append xs (streamed d m n ∷ [])),
    length-append (latencies_of xs) (d ∷ []),
  );
  total_requests = omega (arith, length-append xs (streamed d m n ∷ []));
  latencies = rw c.latencies (sym (latencies_of-append xs (streamed d m n ∷ [])));
  sent = omega (arith, messages_sent-append xs (streamed d m n ∷ []));
  received = omega (arith, messages_received-append xs (streamed d m n ∷ []));
}

replay-Counts :
    (es : List Event) {xs : List Event} {s : BenchmarkState}
    → Counts xs s
    → Counts (xs ++ es) (replay es s)
unfolding replay
replay-Counts [] {xs} c = rw append-nil c
replay-Counts (e ∷ es) {xs} {s} c =
    rw (← append_assoc xs (e ∷ []) es) (replay-Counts es (record_event-Counts e c))

merge_all-Counts :
    (ws : List (List Event)) {xs : List Event} {s : BenchmarkState}
    → Counts xs s
    → Counts (xs ++ concat ws) (merge_all s (states_of ws))
unfolding merge_all
merge_all-Counts [] {xs} c = rw append-nil c
merge_all-Counts (w ∷ ws) {xs} {s} c =
    rw (← append_assoc xs w (concat ws))
      (merge_all-Counts ws (merge-Counts c (replay-Counts w new-Counts)))

-- However the calls of a benchmark are spread over its workers, the merged state counts every call
-- once: the requests, the errors under each text, the successes, the latencies in the order of the
-- workers, and the stream messages are those of all the workers' calls together.
pub merge_all-replay :
    (first : List Event) (others : List (List Event))
    → Counts
        (first ++ concat others)
        (merge_all (replay first new_benchmark_state) (states_of others))
merge_all-replay first others = merge_all-Counts others (replay-Counts first new-Counts)
