-- ===== src/Loadgen/Tracker/Balance.antt =====
-- The counters of the tracker against the sums over its candidates.
use kubedns_shepherd.Base.{
  ℕ, ◌+◌, ◌%◌, ◌^◌, true, false, not, List, [], ◌∷◌, ◌++◌, Option, none, some, Text, text_eq,
  text_eq_iff, lookup, assign, lookup-assign_ne, if◌then◌else◌, ◌≡◌, refl, sym, ap, ◌∙◌, arith, All,
  ◌==◌, Bool-cases, inl, inr,
}
use kubedns_shepherd.Loadgen.Wire.{DnsMessage}
use kubedns_shepherd.Loadgen.Tracker.{
  Stats, Tracker, new_tracker, new_stats, or_new, increment, count_rcode, key_of, count_request,
  count_response, candidate, add_request, add_response,
}

-- The key holds a zero byte.
abbrev pub HasZero : Text → Type 0
HasZero [] = ⊥
HasZero (c ∷ s) = if c == 0 then Unit else HasZero s

-- No key stands twice.
abbrev pub DistinctKeys : List (Text × Stats) → Type 0
DistinctKeys [] = Unit
DistinctKeys ((key, stats) ∷ m) = (lookup key m ≡ none) × DistinctKeys m

-- A sum over the candidates.
abbrev pub total : (Stats → ℕ) → List (Text × Stats) → ℕ
total f [] = 0
total f ((key, stats) ∷ m) = f stats + total f m

-- The counters are the sums over the candidates, as `uint64`s.
pub record Balanced (t : Tracker) : Type 0 where
  pub zeros : All (λ (key, stats). HasZero key) t.candidates
  pub distinct : DistinctKeys t.candidates
  pub requests : t.requests ≡ total (λ stats. stats.requests) t.candidates % 2 ^ 64
  pub responses : t.responses ≡ total (λ stats. stats.responses) t.candidates % 2 ^ 64

key_of-HasZero : (name qtype : Text) → HasZero (name ++ (0 ∷ qtype))
key_of-HasZero [] qtype = tt
key_of-HasZero (c ∷ name) qtype =
    elim (c == 0) as (λ b. if b then Unit else HasZero (name ++ (0 ∷ qtype))) [
      | true ↦ tt
      | false ↦ key_of-HasZero name qtype
    ]

All-assign :
    (P : Text × Stats → Type 0) (key : Text) (stats : Stats) (m : List (Text × Stats))
    → P (key, stats)
    → All P m
    → All P (assign key stats m)
unfolding assign
All-assign P key stats [] p h = (p, tt)
All-assign P key stats ((k, v) ∷ m) p (h, hs) =
    elim (text_eq k key)
      as (λ b. All P (if b then (key, stats) ∷ m else (k, v) ∷ assign key stats m)) [
        | true ↦ (p, hs)
        | false ↦ (h, All-assign P key stats m p hs)
      ]

assign-DistinctKeys :
    (key : Text) (stats : Stats) (m : List (Text × Stats))
    → DistinctKeys m
    → DistinctKeys (assign key stats m)
unfolding assign lookup
assign-DistinctKeys key stats [] h = (refl, tt)
assign-DistinctKeys key stats ((k, v) ∷ m) (h, hs) = elim (Bool-cases (text_eq k key)) [
  | inl e ↦ rw e (ap (λ j. lookup j m) (sym ((text_eq_iff k key).0 e)) ∙ h, hs)
  | inr e ↦ rw e (
    lookup-assign_ne key k stats m (ground (arith, text_eq_iff k key, e)) ∙ h,
    assign-DistinctKeys key stats m hs,
  )
]

total-assign :
    (f : Stats → ℕ) (key : Text) (stats : Stats) (m : List (Text × Stats))
    → f new_stats ≡ 0
    → total f (assign key stats m) + f (or_new (lookup key m)) ≡ total f m + f stats
unfolding assign lookup
total-assign f key stats [] h = omega (arith, h)
total-assign f key stats ((k, v) ∷ m) h = elim (Bool-cases (text_eq k key)) [
  | inl e ↦ rw e (omega arith)
  | inr e ↦ rw e (omega (arith, total-assign f key stats m h))
]

pub Balanced-new_tracker : Balanced new_tracker
Balanced-new_tracker = record { zeros = tt; distinct = tt; requests = refl; responses = refl }

Balanced-add_request : (t : Tracker) (m : DnsMessage) → Balanced t → Balanced (add_request t m)
unfolding add_request candidate
Balanced-add_request t m b = record {
  zeros = All-assign _ (key_of m) _ t.candidates (key_of-HasZero m.name m.qtype) b.zeros;
  distinct = assign-DistinctKeys (key_of m) _ t.candidates b.distinct;
  requests = omega (
    arith,
    b.requests,
    total-assign (λ stats. stats.requests) (key_of m)
        (record (candidate t m) { requests = increment (candidate t m).requests }) t.candidates
        refl,
  );
  responses = omega (
    arith,
    b.responses,
    total-assign (λ stats. stats.responses) (key_of m)
        (record (candidate t m) { requests = increment (candidate t m).requests }) t.candidates
        refl,
  );
}

Balanced-add_response : (t : Tracker) (m : DnsMessage) → Balanced t → Balanced (add_response t m)
unfolding add_response candidate
Balanced-add_response t m b =
    let stats : Stats = record (candidate t m) {
      responses = increment (candidate t m).responses;
      rcodes = count_rcode m.rcode (candidate t m).rcodes;
    } in
    record {
      zeros = All-assign _ (key_of m) _ t.candidates (key_of-HasZero m.name m.qtype) b.zeros;
      distinct = assign-DistinctKeys (key_of m) _ t.candidates b.distinct;
      requests = omega (
        arith,
        b.requests,
        total-assign (λ stats. stats.requests) (key_of m) stats t.candidates refl,
      );
      responses = omega (
        arith,
        b.responses,
        total-assign (λ stats. stats.responses) (key_of m) stats t.candidates refl,
      );
    }

pub Balanced-count_request :
    (t : Tracker) (message : Option DnsMessage) → Balanced t → Balanced (count_request t message)
Balanced-count_request t none b = b
Balanced-count_request t (some m) b =
    elim m.response as (λ c. Balanced (if c then t else add_request t m)) [
      | true ↦ b
      | false ↦ Balanced-add_request t m b
    ]

pub Balanced-count_response :
    (t : Tracker) (message : Option DnsMessage) → Balanced t → Balanced (count_response t message)
Balanced-count_response t none b = b
Balanced-count_response t (some m) b =
    elim m.response as (λ c. Balanced (if not c then t else add_response t m)) [
      | true ↦ Balanced-add_response t m b
      | false ↦ b
    ]
