-- ===== src/Loadgen/Program/Exit.antt =====
-- With which code `main` of docs/dns-demo/loadgen/main.go exits.
use kubedns_shepherd.Base.{
  pos, subst, ℕ, ◌^◌, ◌<◌, ◌≤◌, List, All, Text, codes, done, ◌≡◌, ◌⊎◌, ◌↔◌, inl, inr, sym, ap, ◌∙◌,
  arith,
}
use kubedns_shepherd.Loadgen.Tracker.{Tracker, Call, new_tracker, record_calls}
use kubedns_shepherd.Loadgen.Tracker.Calls.{IsRead}
use kubedns_shepherd.Loadgen.Snapshot.{Snapshot, snapshot}
use kubedns_shepherd.Loadgen.Snapshot.Summary.{snapshot_of_calls}
use kubedns_shepherd.Loadgen.Workers.{value, exit_2, Pool, State, state, counts_of, Steps}
use kubedns_shepherd.Loadgen.Workers.Runs.{Finished, Steps_ends, env_positive_int_lem}
use kubedns_shepherd.Loadgen.Program.{Machine, Ended, run_main}
use kubedns_shepherd.Loadgen.Program.Work.{
  IsCounted, Setting-cases, exit_2-ne_value, set, Succeeds, Exits, fails-Exits, work-Exits,
}

module _ (m : Machine) where
  open m use {getenv, atoi}

  -- A setting ends the process with the code 2, or is positive.
  setting-cases :
      (name : Text) (n : ℕ)
      → 0 < n
      → (set m name n ≡ exit_2) ⊎ ((k : ℕ) × (set m name n ≡ value (pos k)) × (0 < k))
  setting-cases name n h = elim (Setting-cases (set m name n)) [
    | inl e ↦ inl e
    | inr (i, e) ↦
        let (k, same, positive) = (env_positive_int_lem getenv atoi name n h).0 i e in
        inr (k, e ∙ ap value same, positive)
  ]

  Steps-IsCounted :
      (c q n : ℕ) (end : State)
      → 0 < c
      → q < 2 ^ 63
      → Steps c q n end
      → Finished end
      → IsCounted q (counts_of end)
  Steps-IsCounted c q n (state phase unsent idle busy left s f) some_worker small steps finished =
      let (_, _, sent, free, sum) =
        (Steps_ends c q n (state phase unsent idle busy left s f) some_worker small steps).2
          finished in
      (sent, free, sum)

  module _ (counts : Pool) (calls : List Call)
      (workers : (q c : ℕ)
        → set m (codes "QUERIES") 250 ≡ value (pos q)
        → set m (codes "CONCURRENCY") 1 ≡ value (pos c)
        → (q < 2 ^ 63)
          × (n : ℕ) × (end : State) × Steps c q n end
          × Finished end
          × (counts_of end ≡ counts))
      (tracker : Tracker) (tracks : record_calls new_tracker calls ≡ done tracker)
      (tracked : Snapshot) (snapshots : snapshot tracker ≡ done tracked) where
    main-Exits : Exits m counts calls tracker tracks tracked snapshots (run_main m counts calls)
    unfolding run_main
    main-Exits = elim (setting-cases (codes "QUERIES") 250 (omega arith)) [
      | inl e ↦ rw e (
          fails-Exits m counts calls tracker tracks tracked snapshots 2 _ (omega arith)
            (omega arith) (λ s. exit_2-ne_value (sym e ∙ s.queries_set)))
      | inr (q, queries_set, _) ↦
          rw queries_set elim (setting-cases (codes "CONCURRENCY") 1 (omega arith)) [
            | inl e ↦ rw e (
                fails-Exits m counts calls tracker tracks tracked snapshots 2 _ (omega arith)
                  (omega arith) (λ s. exit_2-ne_value (sym e ∙ s.concurrency_set)))
            | inr (c, concurrency_set, positive) ↦
                rw concurrency_set
                  elim (setting-cases (codes "LOOKUP_TIMEOUT_SECONDS") 2 (omega arith)) [
                    | inl e ↦ rw e (
                        fails-Exits m counts calls tracker tracks tracked snapshots 2 _
                          (omega arith) (omega arith)
                          (λ s. exit_2-ne_value (sym e ∙ s.timeout_set)))
                    | inr (t, timeout_set, _) ↦
                        let (small, n, end, steps, finished, same) =
                          workers q c queries_set concurrency_set in
                        rw timeout_set (
                          work-Exits m counts calls tracker tracks tracked snapshots q c t
                            queries_set concurrency_set timeout_set
                            (subst (IsCounted q) same
                              (Steps-IsCounted c q n end positive small steps finished)))
                  ]
          ]
    ]

  -- Let the two counters be what a run of the workers leaves in which `workers.Wait()` returns, with
  -- fewer than 2^63 queries, and let no read return more than its buffer holds. Then `main` ends, with a code of at most 2; and the code is 0 exactly if the
  -- settings are positive, the resolver's file is read, and the result is encoded and printed, with
  -- every query a success and none a failure.
  pub run_main-zero_iff :
      (counts : Pool) (calls : List Call)
      → ((q c : ℕ)
          → set m (codes "QUERIES") 250 ≡ value (pos q)
          → set m (codes "CONCURRENCY") 1 ≡ value (pos c)
          → (q < 2 ^ 63)
            × (n : ℕ) × (end : State) × Steps c q n end
            × Finished end
            × (counts_of end ≡ counts))
      → All IsRead calls
      → (e : Ended) × (run_main m counts calls ≡ done e)
        × (e.code ≤ 2)
        × ((e.code ≡ 0) ↔ Succeeds m counts calls e)
  unfolding run_main
  run_main-zero_iff counts calls workers reads =
      let (tracker, tracked, tracks, snapshots, _) = snapshot_of_calls calls reads in
      let x = main-Exits counts calls workers tracker tracks tracked snapshots in
      (x.ended, x.runs, x.small, x.zero_iff)
