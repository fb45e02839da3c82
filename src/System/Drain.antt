-- ===== src/System/Drain.antt =====
-- The cache on its own takes over all that it is behind by, and what is due stays due.
use kubedns_shepherd.Base.{
  ℕ, Bool, true, false, ◌||◌, List, [], ◌∷◌, Option, ◌≡◌, ◌⊎◌, inl, inr, refl, sym, ◌∙◌, ap,
}
use kubedns_shepherd.Api.{DnsClass}
use kubedns_shepherd.Controller.Cluster.{Cluster, RestConfig}
use kubedns_shepherd.System.{State, event, sync}
use kubedns_shepherd.System.Pending.{loud}
use kubedns_shepherd.System.Quiet.{OwnSteps, next}

-- The name is in the queue, or comes there with the versions that are pending, or no status has been
-- lost.
abbrev pub IsDue : State → Type 0
IsDue s = ((s.queued || loud s.cached s.pending) ≡ true) ⊎ (s.lost ≡ false)

or_swap : (q e l : Bool) → (q || (e || l)) ≡ true → ((e || q) || l) ≡ true
or_swap true true l h = refl
or_swap true false l h = refl
or_swap false true l h = refl
or_swap false false l h = h

pub IsDue-kept : (t : State) → t.pending ≡ [] → t.queued ≡ false → IsDue t → t.lost ≡ false
IsDue-kept t known quiet (inr kept) = kept
IsDue-kept t known quiet (inl due) =
    let never : (false || loud t.cached []) ≡ true =
      ap (λ q. q || loud t.cached []) (sym quiet)
      ∙ ap (λ xs. t.queued || loud t.cached xs) (sym known)
      ∙ due in
    cc

module _ (cluster : Cluster) (config : RestConfig) where
  -- The cache has taken over all that was pending.
  pub record Drained (s : State) : Type 0 where
    pub count : ℕ
    pub last : State
    pub steps : OwnSteps cluster config s count last
    pub known : last.pending ≡ []
    pub stored : last.stored ≡ s.stored
    pub due : IsDue last

  sync-IsDue :
      (s : State) (v : Option DnsClass) (vs : List (Option DnsClass))
      → s.pending ≡ v ∷ vs
      → IsDue s
      → IsDue (record s { cached = v; pending = vs; queued = event s.cached v || s.queued })
  sync-IsDue s v vs e (inr kept) = inr kept
  sync-IsDue s v vs e (inl due) = inl (
      or_swap s.queued (event s.cached v) (loud v vs)
        (ap (λ xs. s.queued || loud s.cached xs) (sym e) ∙ due))

  pub drain :
      {s : State} (xs : List (Option DnsClass)) {t : State} {n : ℕ}
      → OwnSteps cluster config s n t
      → t.pending ≡ xs
      → t.stored ≡ s.stored
      → IsDue t
      → Drained s
  drain [] {t} {n} q e same due = record {
    count = n;
    last = t;
    steps = q;
    known = e;
    stored = same;
    due = due;
  }
  drain (v ∷ vs) {t} q e same due =
      drain vs (next q (sync v vs e) tt) refl same (sync-IsDue t v vs e due)
