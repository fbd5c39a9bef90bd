-- ===== src/Tests/BenchState.antt =====
-- bench_state.go: texts of errors and small benchmarks, and the theorems at them.
use yab.Prelude.{◌≡◌, refl, codes}
use yab.BenchState.{error_to_message}

two_ports : error_to_message (codes "dial 10.0.0.1:80") ≡ codes "dial X.X.X.X:X"
unfolding error_to_message
two_ports = refl
