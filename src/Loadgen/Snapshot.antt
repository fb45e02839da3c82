-- ===== src/Loadgen/Snapshot.antt =====
-- `snapshot` of docs/dns-demo/loadgen/main.go. `slices.SortFunc` is insertion here: the keys are
-- distinct, so the order that the comparison asks for is the only one. `range` over the map visits the
-- candidates in some order, here that of the list.
pub mod Sorting
pub mod Summary
use kubedns_shepherd.Base.{
  ℕ, zero, suc, Bool, true, false, List, [], ◌∷◌, ◌++◌, Option, none, some, Text, text_eq, Run,
  done, panic, ◌>>=◌, ltb, ◌==◌, if◌then◌else◌,
}
use kubedns_shepherd.Loadgen.Tracker.{Stats, Tracker}

-- `dnsCandidateResult`
pub record CandidateResult : Type 0 where
  pub name : Text
  pub type : Text
  pub requests : ℕ
  pub responses : ℕ
  pub rcodes : List (Text × ℕ)

-- The results of `strings.Compare`: -1, 0 and 1.
pub data Order : Type 0 where
  less : Order
  same : Order
  greater : Order

-- `strings.Compare`
unfoldable pub compare_text : Text → Text → Order
compare_text [] [] = same
compare_text [] (y ∷ ys) = less
compare_text (x ∷ xs) [] = greater
compare_text (x ∷ xs) (y ∷ ys) =
    let rest = compare_text xs ys in if ltb x y then less else if ltb y x then greater else rest

-- The comparison of two results.
unfoldable pub compare_results : CandidateResult → CandidateResult → Order
unfolding compare_text text_eq
compare_results a b =
    if text_eq a.name b.name then compare_text a.type b.type else compare_text a.name b.name

unfoldable pub insert : CandidateResult → List CandidateResult → List CandidateResult
unfolding compare_results
insert r [] = r ∷ []
insert r (s ∷ ss) =
    let rest = insert r ss in elim (compare_results r s) [ greater ↦ s ∷ rest | _ ↦ r ∷ s ∷ ss ]

-- `slices.SortFunc`
unfoldable pub sort : List CandidateResult → List CandidateResult
unfolding insert
sort [] = []
sort (r ∷ rs) = insert r (sort rs)

abbrev pub cons_before : ℕ → Option (Text × Text) → Option (Text × Text)
cons_before c none = none
cons_before c (some (before, after)) = some (c ∷ before, after)

-- `strings.SplitN(key, "\x00", 2)`, where there are two parts.
unfoldable pub cut : Text → Option (Text × Text)
cut [] = none
cut (c ∷ s) = let rest = cons_before c (cut s) in if c == 0 then some ([], s) else rest

-- `parts[1]` is out of range where there is one part.
abbrev pub of_parts : Option (Text × Text) → Stats → Run CandidateResult
of_parts none stats = panic
of_parts (some (name, type)) stats = done (record {
  name = name;
  type = type;
  requests = stats.requests;
  responses = stats.responses;
  rcodes = stats.rcodes;
})

-- The loop over the candidates.
unfoldable pub results : List (Text × Stats) → Run (List CandidateResult)
unfolding cut
results [] = done []
results ((key, stats) ∷ m) = do r ← of_parts (cut key) stats; rs ← results m; done (r ∷ rs)

-- The results of `snapshot`.
pub record Snapshot : Type 0 where
  pub requests : ℕ
  pub responses : ℕ
  pub nxdomain : ℕ
  pub candidates : List CandidateResult

unfoldable pub snapshot : Tracker → Run Snapshot
unfolding results sort
snapshot t = results t.candidates >>= λ rs. done (record {
  requests = t.requests;
  responses = t.responses;
  nxdomain = t.nxdomain;
  candidates = sort rs;
})
