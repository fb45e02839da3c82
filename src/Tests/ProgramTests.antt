-- ===== src/Tests/ProgramTests.antt =====
-- `main` of the load generator: a run that succeeds, and the theorem at it.
use kubedns_shepherd.Base.{
  pos, ℕ, ◌≤◌, [], codes, text_eq, ok, Run, done, ◌≡◌, ◌↔◌, refl, arith, if◌then◌else◌,
}
use kubedns_shepherd.Loadgen.Workers.{
  value, pool, state, sending, returned, Steps, start, step, send, succeed, close, leave, return,
  exit_code, env_positive_int,
}
use kubedns_shepherd.Loadgen.Program.{Machine, Ended, run_main}
use kubedns_shepherd.Loadgen.Program.Work.{set, Succeeds}
use kubedns_shepherd.Loadgen.Program.Exit.{run_main-zero_iff}

-- One query; the numbers of type `float64` are all alike.
abbrev machine : Machine
machine = record {
  Float = Unit {0};
  getenv = λ name. if text_eq name (codes "QUERIES") then codes "1" else codes "";
  atoi = λ text. ok (pos 1);
  quote = λ text. text;
  read_file = λ name. ok (codes "nameserver 10.96.0.10");
  duration_seconds = tt;
  per_second = λ queries seconds. tt;
  encode = λ summary. ok (codes "{}");
}

abbrev one_success : Steps 1 1 5 (state returned 0 0 0 1 1 0)
one_success =
    step
      (step
        (step (step (step start (send 0 0 0 0 0 0)) (succeed sending 0 0 0 0 0 0))
          (close 1 0 0 1 0))
        (leave 0 0 0 0 1 0))
      (return 0 0 0 1 1 0 refl)

code_of : Run Ended → ℕ
code_of (done e) = e.code
code_of _ = 3

run_main_test : code_of (run_main machine (pool 0 0 1 0) []) ≡ 0
unfolding code_of run_main exit_code env_positive_int text_eq
run_main_test = refl

value-injective : {i j : ℕ} → value (pos i) ≡ value (pos j) → i ≡ j
value-injective h = cc

one_query : (q : ℕ) → set machine (codes "QUERIES") 250 ≡ value (pos q) → 1 ≡ q
unfolding env_positive_int text_eq
one_query q h = value-injective h

one_worker : (c : ℕ) → set machine (codes "CONCURRENCY") 1 ≡ value (pos c) → 1 ≡ c
unfolding env_positive_int text_eq
one_worker c h = value-injective h

run_main-zero_iff_example :
    (e : Ended) × (run_main machine (pool 0 0 1 0) [] ≡ done e)
    × (e.code ≤ 2)
    × ((e.code ≡ 0) ↔ Succeeds machine (pool 0 0 1 0) [] e)
run_main-zero_iff_example =
    run_main-zero_iff machine (pool 0 0 1 0) []
      (λ q c queries concurrency.
        rw⁻¹ (one_query q queries, one_worker c concurrency)
          (omega arith, 5, state returned 0 0 0 1 1 0, one_success, refl, refl))
      tt
