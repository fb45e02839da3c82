-- ===== src/Loadgen/Program/Work.antt =====
-- What `main` of docs/dns-demo/loadgen/main.go does once its settings are read.
use kubedns_shepherd.Base.{
  ℤ, pos, ℕ, zero, suc, ◌+◌, ◌≤◌, List, In, In-append_right, Text, codes, Result, ok, err,
  Result-cases, Run, done, ◌≡◌, ◌≢◌, ◌⊎◌, ◌↔◌, inl, inr, refl, sym, ap, ◌∙◌, arith,
}
use kubedns_shepherd.Loadgen.Tracker.{Tracker, Call, new_tracker, record_calls}
use kubedns_shepherd.Loadgen.Snapshot.{Snapshot, snapshot}
use kubedns_shepherd.Loadgen.Workers.{
  Setting, value, exit_2, env_string, env_positive_int, Pool, pool, exit_code,
}
use kubedns_shepherd.Loadgen.Program.{
  Machine, Line, stdout, Ended, resolv_conf, fails_with, print_before, echoed, summary, report,
  work,
}

-- Every query is counted.
abbrev pub IsCounted : ℕ → Pool → Type 0
IsCounted queries (pool unsent busy s f) = (unsent ≡ 0) × (busy ≡ 0) × (s + f ≡ queries)

value_pos-injective : {i j : ℕ} → value (pos i) ≡ value (pos j) → i ≡ j
value_pos-injective h = cc

done-injective : {A : Type 0} {a b : A} → done a ≡ done b → a ≡ b
done-injective h = cc

pub exit_2-ne_value : {i : ℤ} → exit_2 ≢ value i
exit_2-ne_value h = cc

err-ne_ok : {E A : Type 0} {e : E} {a : A} → err e ≢ ok a
err-ne_ok h = cc

abbrev failures_of : Pool → ℕ
failures_of (pool unsent busy s f) = f

pub Setting-cases : (s : Setting) → (s ≡ exit_2) ⊎ ((i : ℤ) × (s ≡ value i))
Setting-cases exit_2 = inl refl
Setting-cases (value i) = inr (i, refl)

exit_code-zero :
    (queries : ℕ) (counts : Pool)
    → IsCounted queries counts
    → (exit_code counts ≤ 1) × ((exit_code counts ≡ 0) ↔ (counts ≡ pool 0 0 queries 0))
unfolding exit_code
exit_code-zero queries (pool unsent busy s zero) (a, b, c) =
    (omega arith, (λ h. rw (a, b, sym c) (ap (λ k. pool 0 0 k 0) (omega arith)), λ h. refl))
exit_code-zero queries (pool unsent busy s (suc f)) (a, b, c) =
    (grind arith, (λ h. absurd (ground (arith, h)), λ h. absurd (omega (arith, ap failures_of h))))

module _ (m : Machine) where
  open m use {getenv, atoi, read_file, encode}

  abbrev pub set : Text → ℕ → Setting
  set name fallback = env_positive_int getenv atoi name (pos fallback)

  abbrev pub target : Text
  target = env_string getenv (codes "TARGET") (codes "api.prod.external.test")

  -- The settings are positive, the file is read, the result is encoded and printed, and every lookup
  -- has succeeded.
  pub record Succeeds (counts : Pool) (calls : List Call) (e : Ended) : Type 0 where
    pub queries : ℕ
    pub concurrency : ℕ
    pub timeout : ℕ
    pub queries_set : set (codes "QUERIES") 250 ≡ value (pos queries)
    pub concurrency_set : set (codes "CONCURRENCY") 1 ≡ value (pos concurrency)
    pub timeout_set : set (codes "LOOKUP_TIMEOUT_SECONDS") 2 ≡ value (pos timeout)
    pub conf : Text
    pub conf_read : read_file resolv_conf ≡ ok conf
    pub tracker : Tracker
    pub tracks : record_calls new_tracker calls ≡ done tracker
    pub tracked : Snapshot
    pub snapshots : snapshot tracker ≡ done tracked
    pub encoded : Text
    pub encodes :
        encode (summary m target (pos queries) (pos concurrency) (pool 0 0 queries 0) tracked)
        ≡ ok encoded
    pub counted : counts ≡ pool 0 0 queries 0
    pub printed : In (stdout encoded) e.output

  module _ (counts : Pool) (calls : List Call) (tracker : Tracker)
      (tracks : record_calls new_tracker calls ≡ done tracker) (tracked : Snapshot)
      (snapshots : snapshot tracker ≡ done tracked) where
    -- The process ends, and with the code 0 exactly if it succeeds.
    pub record Exits (run : Run Ended) : Type 0 where
      pub ended : Ended
      pub runs : run ≡ done ended
      pub small : ended.code ≤ 2
      pub zero_iff : (ended.code ≡ 0) ↔ Succeeds counts calls ended

    -- An error ends the process with a code, and contradicts success.
    pub fails-Exits :
        (code : ℕ) (message : Text)
        → code ≢ 0
        → code ≤ 2
        → (¬ Succeeds counts calls (fails_with code message))
        → Exits (done (fails_with code message))
    fails-Exits code message h small never = record {
      ended = fails_with code message;
      runs = refl;
      small = small;
      zero_iff = (λ z. absurd (h z), λ s. absurd (never s));
    }

    module _ (q c t : ℕ) (queries_set : set (codes "QUERIES") 250 ≡ value (pos q))
        (concurrency_set : set (codes "CONCURRENCY") 1 ≡ value (pos c))
        (timeout_set : set (codes "LOOKUP_TIMEOUT_SECONDS") 2 ≡ value (pos t))
        (is_counted : IsCounted q counts) where
      -- There is one result that can be encoded.
      summary-eq :
          {e : Ended} (s : Succeeds counts calls e)
          → summary m target (pos s.queries) (pos s.concurrency) (pool 0 0 s.queries 0) s.tracked
            ≡ summary m target (pos q) (pos c) counts tracked
      summary-eq s =
          let same_queries = value_pos-injective (sym s.queries_set ∙ queries_set) in
          let same_concurrency = value_pos-injective (sym s.concurrency_set ∙ concurrency_set) in
          let same_tracker = done-injective (sym s.tracks ∙ tracks) in
          let same_tracked =
            done-injective (sym s.snapshots ∙ ap snapshot same_tracker ∙ snapshots) in
          rw (s.counted, same_queries, same_concurrency, same_tracked) refl

      report-Exits :
          (conf : Text) (prefix : List Line)
          → read_file resolv_conf ≡ ok conf
          → (r : Result Text Text) → encode (summary m target (pos q) (pos c) counts tracked) ≡ r
          → Exits (done (print_before prefix (report m counts r)))
      unfolding report
      report-Exits conf prefix found (err e) refused = record {
        ended = _;
        runs = refl;
        small = omega arith;
        zero_iff = (
          λ z. absurd (omega (arith, z)),
          λ s. absurd (err-ne_ok (sym refused ∙ sym (ap encode (summary-eq s)) ∙ s.encodes)),
        );
      }
      report-Exits conf prefix found (ok encoded) encodes =
          let (small, iff) = exit_code-zero q counts is_counted in
          record {
            ended = _;
            runs = refl;
            small = omega (arith, small);
            zero_iff = (
              λ z. record {
                queries = q;
                concurrency = c;
                timeout = t;
                queries_set = queries_set;
                concurrency_set = concurrency_set;
                timeout_set = timeout_set;
                conf = conf;
                conf_read = found;
                tracker = tracker;
                tracks = tracks;
                tracked = tracked;
                snapshots = snapshots;
                encoded = encoded;
                encodes =
                    ap (λ x. encode (summary m target (pos q) (pos c) x tracked)) (sym (iff.0 z))
                    ∙ encodes;
                counted = iff.0 z;
                printed = In-append_right (stdout encoded) prefix _ (inr (inl refl));
              },
              λ s. iff.1 (
                  s.counted
                  ∙ ap (λ k. pool 0 0 k 0) (value_pos-injective (sym s.queries_set ∙ queries_set))),
            );
          }

      pub work-Exits : Exits (work m target (pos q) (pos c) counts calls (read_file resolv_conf))
      unfolding work
      work-Exits = elim (Result-cases (read_file resolv_conf)) [
        | inr (e, unread) ↦
            rw (unread, work)
              (fails-Exits 1 _ (omega arith) (omega arith)
                (λ s. err-ne_ok (sym unread ∙ s.conf_read)))
        | inl (conf, found) ↦
            rw (found, work)
              (rw tracks (rw snapshots (report-Exits conf (echoed conf) found _ refl)))
      ]
