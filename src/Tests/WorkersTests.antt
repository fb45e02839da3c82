-- ===== src/Tests/WorkersTests.antt =====
-- The settings and the workers of the load generator: tests, and the theorems at concrete runs.
use kubedns_shepherd.Base.{
  ℤ, pos, ℕ, ◌+◌, ◌≤◌, ◌*◌, ◌<◌, true, Text, codes, text_eq, ok, Result, ◌≡◌, ◌≢◌, ◌⊎◌, ◌↔◌, refl,
  arith, if◌then◌else◌,
}
use kubedns_shepherd.Loadgen.Workers.{
  value, exit_2, below_one, env_positive_int, env_string, pool, waiting, returned, State, state,
  Step, send, fail, close, leave, return, Steps, start, step, exit_code,
}
use kubedns_shepherd.Loadgen.Workers.Runs.{Finished, IsComplete, Steps_ends, env_positive_int_lem}

-- One query and two workers, one of which leaves before the other has looked the name up.
abbrev one_failure : Steps 2 1 6 (state returned 0 0 0 2 0 1)
one_failure =
    step
      (step
        (step (step (step (step start (send 0 1 0 0 0 0)) (close 1 1 0 0 0)) (leave 0 0 1 0 0 0))
          (fail waiting 0 0 0 1 0 0))
        (leave 0 0 0 1 0 1))
      (return 0 0 0 2 0 1 refl)

exit_tests : (exit_code (pool 0 0 0 1) ≡ 1) × (exit_code (pool 0 0 7 0) ≡ 0)
unfolding exit_code
exit_tests = (refl, refl)

Steps_ends_example :
    (6 ≤ 2 * 1 + 2 + 2)
    × (Finished (state returned 0 0 0 2 0 1)
        ⊎ ((q : State) × Step 2 (state returned 0 0 0 2 0 1) q))
    × (Finished (state returned 0 0 0 2 0 1) → IsComplete 2 1 (state returned 0 0 0 2 0 1))
Steps_ends_example =
    Steps_ends 2 1 6 (state returned 0 0 0 2 0 1) (omega arith) (omega arith) one_failure

abbrev getenv : Text → Text
getenv name = if text_eq name (codes "QUERIES") then codes "0" else codes ""

abbrev atoi : Text → Result Text ℤ
atoi s = ok (pos 0)

env_tests :
    (env_positive_int getenv atoi (codes "QUERIES") (pos 250) ≡ exit_2)
    × (env_positive_int getenv atoi (codes "CONCURRENCY") (pos 1) ≡ value (pos 1))
    × (env_string getenv (codes "TARGET") (codes "a") ≡ codes "a")
unfolding env_positive_int env_string text_eq
env_tests = (refl, refl, refl)

env_positive_int_lem_example :
    ((i : ℤ)
      → env_positive_int getenv atoi (codes "QUERIES") (pos 250) ≡ value i
      → (m : ℕ) × (i ≡ pos m) × (0 < m))
    × ((env_positive_int getenv atoi (codes "QUERIES") (pos 250) ≡ exit_2) ↔ (
        (getenv (codes "QUERIES") ≢ codes "")
        × ((i : ℤ) → atoi (getenv (codes "QUERIES")) ≡ ok i → below_one i ≡ true)))
env_positive_int_lem_example = env_positive_int_lem getenv atoi (codes "QUERIES") 250 (omega arith)
