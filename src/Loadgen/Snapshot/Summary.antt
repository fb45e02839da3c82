-- ===== src/Loadgen/Snapshot/Summary.antt =====
-- What the load generator reports behind any sequence of calls.
use kubedns_shepherd.Base.{
  ℕ, ◌+◌, ◌%◌, ◌^◌, List, [], ◌∷◌, ◌++◌, none, some, Text, text_eq, text_eq_iff, text_eq_refl,
  lookup, done, All, All-of_In, In, ◌==◌, ==_iff, ◌≡◌, refl, sym, ap, ◌∙◌, subst, arith, Bool-cases,
  inl, inr, if◌then◌else◌,
}
use kubedns_shepherd.Loadgen.Tracker.{Stats, Tracker, new_tracker, Call, record_calls}
use kubedns_shepherd.Loadgen.Tracker.Balance.{HasZero, DistinctKeys, total, Balanced}
use kubedns_shepherd.Loadgen.Tracker.Calls.{IsRead, record_calls-Balanced}
use kubedns_shepherd.Loadgen.Snapshot.{CandidateResult, Snapshot, cut, results, sort, snapshot}
use kubedns_shepherd.Loadgen.Snapshot.Sorting.{
  Alike, Sorted, Unalike, All-sort, sort-Sorted, sum, sum-sort, In-sort,
}

-- The key and the counters that a result stands for.
abbrev pub result_key : CandidateResult → Text
result_key r = r.name ++ (0 ∷ r.type)

abbrev pub result_stats : CandidateResult → Stats
result_stats r = record { requests = r.requests; responses = r.responses; rcodes = r.rcodes }

-- The results of the loop, one for each candidate.
data Listed : List (Text × Stats) → List CandidateResult → Type 0 where
  finished : Listed [] []
  listed :
      {m : List (Text × Stats)} {rs : List CandidateResult} (r : CandidateResult)
      → Listed m rs
      → Listed ((result_key r, result_stats r) ∷ m) (r ∷ rs)

cut_of_HasZero :
    (key : Text)
    → HasZero key
    → (name : Text) × (type : Text) × (cut key ≡ some (name, type)) × (key ≡ name ++ (0 ∷ type))
unfolding cut
cut_of_HasZero [] h = absurd h
cut_of_HasZero (c ∷ s) h = elim (Bool-cases (c == 0)) [
  | inl e ↦ ([], s, rw e refl, ap (λ d. d ∷ s) ((==_iff c 0).0 e))
  | inr e ↦
      let (name, type, found, same) =
        cut_of_HasZero s (subst (λ b. if b then Unit {0} else HasZero s) e h) in
      (c ∷ name, type, rw (e, found) refl, ap (◌∷◌ c) same)
]

results-Listed :
    (m : List (Text × Stats))
    → All (λ (key, stats). HasZero key) m
    → (rs : List CandidateResult) × (results m ≡ done rs) × Listed m rs
unfolding results
results-Listed [] h = ([], refl, finished)
results-Listed ((key, stats) ∷ m) (h, hs) =
    let (name, type, found, same) = cut_of_HasZero key h in
    let (rs, e, rest) = results-Listed m hs in
    let r : CandidateResult = record {
      name = name;
      type = type;
      requests = stats.requests;
      responses = stats.responses;
      rcodes = stats.rcodes;
    } in
    (
      r ∷ rs,
      rw (found, e) refl,
      subst (λ k. Listed ((k, stats) ∷ m) (r ∷ rs)) (sym same) (listed r rest),
    )

Listed-other :
    {m : List (Text × Stats)} {rs : List CandidateResult} (r : CandidateResult)
    → Listed m rs
    → lookup (result_key r) m ≡ none
    → All (λ s. ¬ Alike r s) rs
unfolding lookup
Listed-other r finished h = tt
Listed-other r (listed {m} s rest) h = elim (Bool-cases (text_eq (result_key s) (result_key r))) [
  | inl e ↦ absurd (ground (arith, h, e))
  | inr e ↦ (
    λ (names, types). ground (
      arith,
      e,
      text_eq_iff (result_key s) (result_key r),
      ap (λ n. n ++ (0 ∷ s.type)) (sym names) ∙ ap (λ t. r.name ++ (0 ∷ t)) (sym types),
    ),
    Listed-other r rest (ground (arith, h, e)),
  )
]

Listed-Unalike :
    {m : List (Text × Stats)} {rs : List CandidateResult}
    → Listed m rs
    → DistinctKeys m
    → Unalike rs
Listed-Unalike finished h = tt
Listed-Unalike (listed r rest) (h, hs) = (Listed-other r rest h, Listed-Unalike rest hs)

Listed-total :
    {m : List (Text × Stats)} {rs : List CandidateResult} (f : Stats → ℕ)
    → Listed m rs
    → total f m ≡ sum (λ r. f (result_stats r)) rs
Listed-total f finished = refl
Listed-total f (listed r rest) = ap (λ n. f (result_stats r) + n) (Listed-total f rest)

-- The candidate of a result is in the map.
Listed-lookup :
    {m : List (Text × Stats)} {rs : List CandidateResult}
    → Listed m rs
    → DistinctKeys m
    → (r : CandidateResult) → In r rs
    → lookup (result_key r) m ≡ some (result_stats r)
unfolding lookup
Listed-lookup finished d r h = absurd h
Listed-lookup (listed s rest) d r (inl e) = rw e (rw (text_eq_refl (result_key s)) refl)
Listed-lookup (listed {m} s rest) (d, ds) r (inr h) =
    elim (Bool-cases (text_eq (result_key s) (result_key r))) [
      | inl e ↦
          let same = (text_eq_iff (result_key s) (result_key r)).0 e in
          let missing = subst (λ k. lookup k m ≡ none) same d in
          absurd (ground (arith, missing, Listed-lookup rest ds r h))
      | inr e ↦ rw e (Listed-lookup rest ds r h)
    ]

-- A candidate of the map has a result.
lookup-Listed :
    {m : List (Text × Stats)} {rs : List CandidateResult}
    → Listed m rs
    → (key : Text) {stats : Stats} → lookup key m ≡ some stats
    → (r : CandidateResult) × In r rs × (result_key r ≡ key) × (result_stats r ≡ stats)
unfolding lookup
lookup-Listed finished key h = absurd (ground (arith, h))
lookup-Listed (listed r rest) key {stats} h = elim (Bool-cases (text_eq (result_key r) key)) [
  | inl e ↦ (r, inl refl, (text_eq_iff (result_key r) key).0 e, ground (arith, h, e))
  | inr e ↦
      let (s, found, same, counters) =
        lookup-Listed rest key {stats = stats} (ground (arith, h, e)) in
      (s, inr found, same, counters)
]

-- What is reported of a tracker: its counters, and the candidates of the map, each once and in the
-- order of their names and types, whose sums are the counters, as `uint64`s.
pub record Summary (t : Tracker) (out : Snapshot) : Type 0 where
  pub requests : out.requests ≡ t.requests
  pub responses : out.responses ≡ t.responses
  pub nxdomain : out.nxdomain ≡ t.nxdomain
  pub sorted : Sorted out.candidates
  pub sound : All (λ r. lookup (result_key r) t.candidates ≡ some (result_stats r)) out.candidates
  pub complete :
      (key : Text) {stats : Stats}
      → lookup key t.candidates ≡ some stats
      → (r : CandidateResult) × In r out.candidates
        × (result_key r ≡ key)
        × (result_stats r ≡ stats)
  pub all_requests : out.requests ≡ sum (λ r. r.requests) out.candidates % 2 ^ 64
  pub all_responses : out.responses ≡ sum (λ r. r.responses) out.candidates % 2 ^ 64

snapshot-Summary :
    (t : Tracker) → Balanced t → (out : Snapshot) × (snapshot t ≡ done out) × Summary t out
unfolding snapshot
snapshot-Summary t b =
    let (rs, e, entries) = results-Listed t.candidates b.zeros in
    (
      record {
        requests = t.requests;
        responses = t.responses;
        nxdomain = t.nxdomain;
        candidates = sort rs;
      },
      rw e refl,
      record {
        requests = refl;
        responses = refl;
        nxdomain = refl;
        sorted = sort-Sorted rs (Listed-Unalike entries b.distinct);
        sound = All-sort _ rs (All-of_In _ rs (Listed-lookup entries b.distinct));
        complete = λ key {stats} h.
            let (r, found, same, counters) = lookup-Listed entries key {stats = stats} h in
            (r, In-sort r rs found, same, counters);
        all_requests = omega (
          arith,
          b.requests,
          sum-sort (λ r. r.requests) rs,
          Listed-total (λ stats. stats.requests) entries,
        );
        all_responses = omega (
          arith,
          b.responses,
          sum-sort (λ r. r.responses) rs,
          Listed-total (λ stats. stats.responses) entries,
        );
      },
    )

-- Behind any sequence of calls of the tracked connections, if no read returns more than its buffer
-- holds, `snapshot` returns the counters and one result for each candidate of the tracker, strictly
-- sorted by name and then type, with the candidate's counters; and the requests and the responses of
-- the results sum up to the counters, as `uint64`s.
pub snapshot_of_calls :
    (calls : List Call)
    → All IsRead calls
    → (t : Tracker) × (out : Snapshot) × (record_calls new_tracker calls ≡ done t)
      × (snapshot t ≡ done out)
      × Summary t out
snapshot_of_calls calls h =
    let (t, e, b) = record_calls-Balanced calls h in
    let (out, e', s) = snapshot-Summary t b in (t, out, e, e', s)
