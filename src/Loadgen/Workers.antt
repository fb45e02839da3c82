-- ===== src/Loadgen/Workers.antt =====
-- `main` of docs/dns-demo/loadgen/main.go: its settings, which are read from the environment, and its
-- workers, which take the jobs from an unbuffered channel until it is closed. `os.Getenv` and `strconv.Atoi` are
-- parameters.
pub mod Runs
use kubedns_shepherd.Base.{
  ℤ, pos, negsuc, ℕ, zero, suc, ◌≡◌, Bool, true, Text, codes, text_eq, Result, ok, err, ltb,
  if◌then◌else◌,
}
use kubedns_shepherd.Loadgen.Tracker.{increment}

-- What a setting gives: a value, or the end of the process with the code 2.
pub data Setting : Type 0 where
  value : ℤ → Setting
  exit_2 : Setting

abbrev pub below_one : ℤ → Bool
below_one (pos n) = ltb n 1
below_one (negsuc n) = true

-- `envString`
unfoldable pub env_string : (Text → Text) → Text → Text → Text
unfolding text_eq
env_string getenv name fallback = if text_eq (getenv name) (codes "") then fallback else getenv name

module _ (getenv : Text → Text) (atoi : Text → Result Text ℤ) where
  abbrev pub checked : Result Text ℤ → Setting
  checked (err e) = exit_2
  checked (ok parsed) = if below_one parsed then exit_2 else value parsed

  -- `envPositiveInt`
  unfoldable pub env_positive_int : Text → ℤ → Setting
  unfolding text_eq
  env_positive_int name fallback =
      if text_eq (getenv name) (codes "") then value fallback else checked (atoi (getenv name))

-- What is printed of the workers in the end: the jobs that are not sent, the workers that look a name
-- up, and the two counters.
pub data Pool : Type 0 where
  pool : (unsent busy successes failures : ℕ) → Pool

-- Where `main` is: in the loop that sends the jobs, behind `close(jobs)` in `workers.Wait()`, or
-- behind it.
pub data Phase : Type 0 where
  sending : Phase
  waiting : Phase
  returned : Phase

-- The phase of `main`, the jobs that are not sent yet, the workers that wait for a job, that look a
-- name up, and that have left, and the two counters.
pub data State : Type 0 where
  state : Phase → (unsent idle busy left successes failures : ℕ) → State

abbrev pub counts_of : State → Pool
counts_of (state phase unsent idle busy left s f) = pool unsent busy s f

pub data Step (concurrency : ℕ) : State → State → Type 0 where
  -- The channel has no buffer, so that a send waits for a worker.
  send :
      (unsent idle busy left s f : ℕ)
      → Step concurrency
          (state sending (suc unsent) (suc idle) busy left s f)
          (state sending unsent idle (suc busy) left s f)
  -- A worker counts the result of its lookup, and waits for the next job.
  succeed :
      (phase : Phase) (unsent idle busy left s f : ℕ)
      → Step concurrency
          (state phase unsent idle (suc busy) left s f)
          (state phase unsent (suc idle) busy left (increment s) f)
  fail :
      (phase : Phase) (unsent idle busy left s f : ℕ)
      → Step concurrency
          (state phase unsent idle (suc busy) left s f)
          (state phase unsent (suc idle) busy left s (increment f))
  -- `close(jobs)`
  close :
      (idle busy left s f : ℕ)
      → Step concurrency
          (state sending zero idle busy left s f)
          (state waiting zero idle busy left s f)
  -- The `range` of a worker over the closed channel ends.
  leave :
      (unsent idle busy left s f : ℕ)
      → Step concurrency
          (state waiting unsent (suc idle) busy left s f)
          (state waiting unsent idle busy (suc left) s f)
  -- `workers.Wait()` returns once every function of `workers.Go` has returned.
  return :
      (unsent idle busy left s f : ℕ)
      → left ≡ concurrency
      → Step concurrency
          (state waiting unsent idle busy left s f)
          (state returned unsent idle busy left s f)

-- So many steps from the loop that sends the jobs, in front of which the workers are started.
pub data Steps (concurrency queries : ℕ) : ℕ → State → Type 0 where
  start : Steps concurrency queries 0 (state sending queries concurrency 0 0 0 0)
  step :
      {n : ℕ} {p q : State}
      → Steps concurrency queries n p
      → Step concurrency p q
      → Steps concurrency queries (suc n) q

-- The exit code behind the summary.
unfoldable pub exit_code : Pool → ℕ
exit_code (pool unsent busy s f) = if ltb 0 f then 1 else 0
