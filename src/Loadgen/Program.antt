-- ===== src/Loadgen/Program.antt =====
-- `main` of docs/dns-demo/loadgen/main.go, around its workers: what it prints and the code that it
-- exits with. What it calls of the standard library enters as parameters, and so does how the
-- workers leave the two counters and which calls pass the connections.
pub mod Work
pub mod Exit
use kubedns_shepherd.Base.{
  ℤ, pos, ℕ, List, [], ◌∷◌, ◌++◌, Text, codes, Result, ok, err, Run, done, panic, ◌>>=◌,
}
use kubedns_shepherd.Loadgen.Tracker.{Call, new_tracker, record_calls}
use kubedns_shepherd.Loadgen.Snapshot.{CandidateResult, Snapshot, snapshot}
use kubedns_shepherd.Loadgen.Workers.{
  Setting, value, exit_2, env_string, env_positive_int, Pool, pool, exit_code,
}

-- `result`; its two numbers of type `float64` are of some type.
pub record RunResult (Float : Type 0) : Type 0 where
  pub target : Text
  pub queries : ℤ
  pub concurrency : ℤ
  pub successes : ℕ
  pub failures : ℕ
  pub dns_requests : ℕ
  pub dns_responses : ℕ
  pub nxdomain_responses : ℕ
  pub candidates : List CandidateResult
  pub duration_seconds : Float
  pub queries_per_second : Float

-- What `main` calls: `os.Getenv`, `strconv.Atoi`, `%q`, `os.ReadFile`, `time.Since`, the division of
-- `float64`, and the encoder of JSON.
pub record Machine : Type 1 where
  pub Float : Type 0
  pub getenv : Text → Text
  pub atoi : Text → Result Text ℤ
  pub quote : Text → Text
  pub read_file : Text → Result Text Text
  pub duration_seconds : Float
  pub per_second : ℤ → Float → Float
  pub encode : RunResult Float → Result Text Text

pub data Line : Type 0 where
  stdout : Text → Line
  stderr : Text → Line

-- The end of the process.
pub record Ended : Type 0 where
  pub code : ℕ
  pub output : List Line

abbrev pub print_before : List Line → Ended → Ended
print_before lines e = record e { output = lines ++ e.output }

abbrev pub fails_with : ℕ → Text → Ended
fails_with code message = record { code = code; output = stderr message ∷ [] }

abbrev pub resolv_conf : Text
resolv_conf = codes "/etc/resolv.conf"

abbrev pub echoed : Text → List Line
echoed conf =
    stdout (codes "--- /etc/resolv.conf ---\n")
    ∷ stdout conf
    ∷ stdout (codes "--- end /etc/resolv.conf ---\n")
    ∷ []

module _ (m : Machine) where
  open m use {Float, getenv, atoi, quote, read_file, duration_seconds, per_second, encode}

  unfoldable pub summary : Text → ℤ → ℤ → Pool → Snapshot → RunResult Float
  summary target queries concurrency (pool unsent busy successes failures) tracked = record {
    target = target;
    queries = queries;
    concurrency = concurrency;
    successes = successes;
    failures = failures;
    dns_requests = tracked.requests;
    dns_responses = tracked.responses;
    nxdomain_responses = tracked.nxdomain;
    candidates = tracked.candidates;
    duration_seconds = duration_seconds;
    queries_per_second = per_second queries duration_seconds;
  }

  -- From `fmt.Println("--- result ---")` on.
  unfoldable pub report : Pool → Result Text Text → Ended
  unfolding exit_code
  report counts (err e) =
      print_before (stdout (codes "--- result ---\n") ∷ [])
        (fails_with 1 (codes "Could not encode result: " ++ (e ++ codes "\n")))
  report counts (ok encoded) = record {
    code = exit_code counts;
    output = stdout (codes "--- result ---\n") ∷ stdout encoded ∷ [];
  }

  -- Behind `os.ReadFile`; the workers leave the counters as they are in `counts`, and `calls` have
  -- passed the connections.
  unfoldable pub work : Text → ℤ → ℤ → Pool → List Call → Result Text Text → Run Ended
  unfolding report summary record_calls snapshot
  work target queries concurrency counts calls (err e) =
      done (fails_with 1 (codes "Could not read /etc/resolv.conf: " ++ (e ++ codes "\n")))
  work target queries concurrency counts calls (ok conf) = do
    tracker ← record_calls new_tracker calls
    tracked ← snapshot tracker
    done (
        print_before (echoed conf)
          (report counts (encode (summary target queries concurrency counts tracked))))

  -- A setting, and what comes behind it; `os.Exit(2)` ends the process.
  abbrev pub after_setting : Text → (ℤ → Run Ended) → Setting → Run Ended
  after_setting name continue exit_2 = done (
      fails_with 2 (
        name ++ (codes " must be a positive integer, got " ++ (quote (getenv name) ++ codes "\n"))))
  after_setting name continue (value i) = continue i

  abbrev pub setting : Text → ℕ → (ℤ → Run Ended) → Run Ended
  setting name fallback continue =
      after_setting name continue (env_positive_int getenv atoi name (pos fallback))

  -- `main`
  unfoldable pub run_main : Pool → List Call → Run Ended
  unfolding work
  run_main counts calls =
      let target = env_string getenv (codes "TARGET") (codes "api.prod.external.test") in
      setting (codes "QUERIES") 250 λ queries. setting (codes "CONCURRENCY") 1 λ concurrency.
        setting (codes "LOOKUP_TIMEOUT_SECONDS") 2
          λ timeout. work target queries concurrency counts calls (read_file resolv_conf)
