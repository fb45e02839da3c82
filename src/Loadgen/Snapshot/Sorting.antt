-- ===== src/Loadgen/Snapshot/Sorting.antt =====
-- The comparison of `snapshot` is a strict order, and the candidates are sorted by it.
use kubedns_shepherd.Base.{
  ℕ, List, [], ◌∷◌, Text, text_eq, text_eq_iff, All, In, ◌≡◌, ◌≢◌, ◌⊎◌, ◌+◌, subst, refl, sym,
  arith, Bool-cases, inl, inr,
}
use kubedns_shepherd.Loadgen.Snapshot.{
  CandidateResult, Order, less, same, greater, compare_text, compare_results, insert, sort,
}

compare_text_same : (a b : Text) → compare_text a b ≡ same → a ≡ b
unfolding compare_text
compare_text_same [] [] h = refl
compare_text_same [] (y ∷ b) h = ground (arith, h)
compare_text_same (x ∷ a) [] h = ground (arith, h)
compare_text_same (x ∷ a) (y ∷ b) h = ground (arith, h, compare_text_same a b)

compare_text_refl : (a : Text) → compare_text a a ≡ same
unfolding compare_text
compare_text_refl [] = refl
compare_text_refl (x ∷ a) = ground (arith, compare_text_refl a)

compare_text_ne : (a b : Text) → compare_text a b ≡ less → a ≢ b
unfolding compare_text
compare_text_ne a b h e =
    ground (arith, subst (λ x. compare_text a x ≡ less) (sym e) h, compare_text_refl a)

compare_text_flip : (a b : Text) → compare_text a b ≡ greater → compare_text b a ≡ less
unfolding compare_text
compare_text_flip [] [] h = ground (arith, h)
compare_text_flip [] (y ∷ b) h = ground (arith, h)
compare_text_flip (x ∷ a) [] h = refl
compare_text_flip (x ∷ a) (y ∷ b) h = ground (arith, h, compare_text_flip a b)

compare_text_trans :
    (a b c : Text) → compare_text a b ≡ less → compare_text b c ≡ less → compare_text a c ≡ less
unfolding compare_text
compare_text_trans [] [] [] h k = ground (arith, h)
compare_text_trans [] (y ∷ b) [] h k = ground (arith, k)
compare_text_trans [] b (z ∷ c) h k = refl
compare_text_trans (x ∷ a) [] c h k = ground (arith, h)
compare_text_trans (x ∷ a) (y ∷ b) [] h k = ground (arith, k)
compare_text_trans (x ∷ a) (y ∷ b) (z ∷ c) h k = ground (arith, h, k, compare_text_trans a b c)

-- One result is before another one.
abbrev pub Before : CandidateResult → CandidateResult → Type 0
Before a b = compare_results a b ≡ less

Before-trans : (a b c : CandidateResult) → Before a b → Before b c → Before a c
unfolding compare_results
Before-trans a b c h k = ground (
  arith,
  text_eq_iff a.name b.name,
  text_eq_iff b.name c.name,
  text_eq_iff a.name c.name,
  compare_text_trans a.name b.name c.name,
  compare_text_ne a.name c.name,
  compare_text_trans a.type b.type c.type,
)

Before-flip : (a b : CandidateResult) → compare_results a b ≡ greater → Before b a
unfolding compare_results
Before-flip a b h = ground (
  arith,
  text_eq_iff a.name b.name,
  text_eq_iff b.name a.name,
  compare_text_flip a.name b.name,
  compare_text_flip a.type b.type,
)

-- Two results are alike if they are for one name and one type.
abbrev pub Alike : CandidateResult → CandidateResult → Type 0
Alike a b = (a.name ≡ b.name) × (a.type ≡ b.type)

compare_results_same : (a b : CandidateResult) → compare_results a b ≡ same → Alike a b
unfolding compare_results
compare_results_same a b h = elim (Bool-cases (text_eq a.name b.name)) [
  | inl e ↦
      ((text_eq_iff a.name b.name).0 e, compare_text_same a.type b.type (ground (arith, h, e)))
  | inr e ↦
      absurd (ground (arith, h, e, compare_text_same a.name b.name, text_eq_iff a.name b.name))
]

-- Each result is before all that follow it.
abbrev pub Sorted : List CandidateResult → Type 0
Sorted [] = Unit
Sorted (r ∷ rs) = All (Before r) rs × Sorted rs

-- No two results are for one name and type.
abbrev pub Unalike : List CandidateResult → Type 0
Unalike [] = Unit
Unalike (r ∷ rs) = All (λ s. ¬ Alike r s) rs × Unalike rs

All-insert :
    (P : CandidateResult → Type 0) (r : CandidateResult) (ss : List CandidateResult)
    → P r
    → All P ss
    → All P (insert r ss)
unfolding insert
All-insert P r [] p h = (p, tt)
All-insert P r (s ∷ ss) p (h, hs) =
    elim (compare_results r s)
      as (λ o. All P (elim o [ greater ↦ s ∷ insert r ss | _ ↦ r ∷ s ∷ ss ])) [
        | less ↦ (p, (h, hs))
        | same ↦ (p, (h, hs))
        | greater ↦ (h, All-insert P r ss p hs)
      ]

pub All-sort :
    (P : CandidateResult → Type 0) (rs : List CandidateResult) → All P rs → All P (sort rs)
unfolding sort
All-sort P [] h = tt
All-sort P (r ∷ rs) (h, hs) = All-insert P r (sort rs) h (All-sort P rs hs)

Order-cases : (o : Order) → (o ≡ less) ⊎ ((o ≡ same) ⊎ (o ≡ greater))
Order-cases less = inl refl
Order-cases same = inr (inl refl)
Order-cases greater = inr (inr refl)

All-Before :
    (r s : CandidateResult) (ss : List CandidateResult)
    → Before r s
    → All (Before s) ss
    → All (Before r) ss
All-Before r s [] h k = tt
All-Before r s (t ∷ ss) h (k, ks) = (Before-trans r s t h k, All-Before r s ss h ks)

insert-Sorted :
    (r : CandidateResult) (ss : List CandidateResult)
    → All (λ s. ¬ Alike r s) ss
    → Sorted ss
    → Sorted (insert r ss)
unfolding insert
insert-Sorted r [] other h = (tt, tt)
insert-Sorted r (s ∷ ss) (other, others) (h, hs) = elim (Order-cases (compare_results r s)) [
  | inl e ↦ rw (e, Sorted) ((e, All-Before r s ss e h), (h, hs))
  | inr (inl e) ↦ absurd (other (compare_results_same r s e))
  | inr (inr e) ↦
      rw (e, Sorted)
        (All-insert (Before s) r ss (Before-flip r s e) h, insert-Sorted r ss others hs)
]

pub sort-Sorted : (rs : List CandidateResult) → Unalike rs → Sorted (sort rs)
unfolding sort
sort-Sorted [] h = tt
sort-Sorted (r ∷ rs) (h, hs) =
    insert-Sorted r (sort rs) (All-sort (λ s. ¬ Alike r s) rs h) (sort-Sorted rs hs)

-- A sum over the results.
abbrev pub sum : (CandidateResult → ℕ) → List CandidateResult → ℕ
sum f [] = 0
sum f (r ∷ rs) = f r + sum f rs

sum-insert :
    (f : CandidateResult → ℕ) (r : CandidateResult) (ss : List CandidateResult)
    → sum f (insert r ss) ≡ f r + sum f ss
unfolding insert
sum-insert f r [] = refl
sum-insert f r (s ∷ ss) =
    elim (compare_results r s)
      as (λ o.
        sum f (elim o [ greater ↦ s ∷ insert r ss | _ ↦ r ∷ s ∷ ss ]) ≡ f r + sum f (s ∷ ss)) [
          | less ↦ refl
          | same ↦ refl
          | greater ↦ omega (arith, sum-insert f r ss)
        ]

pub sum-sort : (f : CandidateResult → ℕ) (rs : List CandidateResult) → sum f (sort rs) ≡ sum f rs
unfolding sort
sum-sort f [] = refl
sum-sort f (r ∷ rs) = omega (arith, sum-insert f r (sort rs), sum-sort f rs)

In-insert_self : (r : CandidateResult) (ss : List CandidateResult) → In r (insert r ss)
unfolding insert
In-insert_self r [] = inl refl
In-insert_self r (s ∷ ss) =
    elim (compare_results r s)
      as (λ o. In r (elim o [ greater ↦ s ∷ insert r ss | _ ↦ r ∷ s ∷ ss ])) [
        | less ↦ inl refl
        | same ↦ inl refl
        | greater ↦ inr (In-insert_self r ss)
      ]

In-insert_other : (r a : CandidateResult) (ss : List CandidateResult) → In a ss → In a (insert r ss)
unfolding insert
In-insert_other r a [] h = absurd h
In-insert_other r a (s ∷ ss) h =
    elim (compare_results r s)
      as (λ o. In a (elim o [ greater ↦ s ∷ insert r ss | _ ↦ r ∷ s ∷ ss ])) [
        | less ↦ inr h
        | same ↦ inr h
        | greater ↦ elim h [ inl e ↦ inl e | inr k ↦ inr (In-insert_other r a ss k) ]
      ]

pub In-sort : (a : CandidateResult) (rs : List CandidateResult) → In a rs → In a (sort rs)
unfolding sort
In-sort a [] h = absurd h
In-sort a (r ∷ rs) (inl e) =
    subst (λ b. In b (insert r (sort rs))) (sym e) (In-insert_self r (sort rs))
In-sort a (r ∷ rs) (inr h) = In-insert_other r a (sort rs) (In-sort a rs h)
