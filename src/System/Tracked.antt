-- ===== src/System/Tracked.antt =====
-- What the controller still has to do, from the stored class back to its cache: the invariant that a
-- class is either up to date or comes to the queue.
use kubedns_shepherd.Base.{
  ℕ, false, ◌||◌, List, [], ◌∷◌, ◌++◌, Option, none, some, some-injective, ◌≡◌, ◌≢◌, refl, sym, ◌∙◌,
  ap, subst, arith,
}
use kubedns_shepherd.Api.{DnsClass, state_ready}
use kubedns_shepherd.Webhook.{default}
use kubedns_shepherd.Controller.Cluster.{Cluster, RestConfig, Documented}
use kubedns_shepherd.Controller.Predicate.{create_event, update_event}
use kubedns_shepherd.System.{
  State, event, created, updated, fails, written, Step, create, update, delete, sync, read, write,
  lose, restart, Reachable, start, step,
}
use kubedns_shepherd.System.Written.{reconciled-ready}
use kubedns_shepherd.System.Pending.{
  or_false, latest, loud, IsFair, AreFair, latest-append, loud-append, AreFair-append, latest-loud,
  latest-spec, IsFair-none,
}

module _ (cluster : Cluster) (config : RestConfig) (documented : Documented cluster) where
  -- The cache is behind by the versions that are pending. The status that is stored is that of the
  -- spec that is stored, or there is something left to do; and a reconciliation in progress works on
  -- the spec that is stored, or there will be another.
  pub record Tracked (s : State) : Type 0 where
    pub tied : latest s.cached s.pending ≡ s.stored
    pub fair : AreFair s.cached s.pending
    pub at_rest :
        (c : DnsClass)
        → s.stored ≡ some c
        → s.reading ≡ none
        → s.queued ≡ false
        → loud s.cached s.pending ≡ false
        → s.lost ≡ false
        → (s.observed ≡ some c.spec) × (c.status.state ≡ state_ready)
    pub at_work :
        (c r : DnsClass)
        → s.stored ≡ some c
        → s.reading ≡ some r
        → s.queued ≡ false
        → loud s.cached s.pending ≡ false
        → r.spec ≡ c.spec

  same_spec :
      (old new : DnsClass) (generation : ℕ)
      → (generation ≡ old.generation → (default new).spec ≡ old.spec)
      → update_event old (updated old new generation) ≡ false
      → old.spec ≡ (default new).spec
  unfolding update_event
  same_spec old new generation counted e = sym (counted (ground arith))

  create-Tracked :
      {s : State} (c : DnsClass)
      → Tracked s
      → s.stored ≡ none
      → Tracked (record s {
        stored = some (created c);
        pending = s.pending ++ (some (created c) ∷ []);
        observed = none;
      })
  unfolding create_event
  create-Tracked {s} c i absent =
      let new = some (created c) in
      let noise : loud s.cached (s.pending ++ (new ∷ [])) ≢ false = λ h.
        let last = (loud-append s.cached new s.pending h).1 in
        let loud_last : event none new ≡ false =
          subst (λ x. event x new ≡ false) (i.tied ∙ absent) last in
        cc in
      record {
        tied = latest-append s.cached new s.pending;
        fair = AreFair-append s.cached new s.pending i.fair (rw (i.tied ∙ absent) tt);
        at_rest = λ d e idle rest quiet kept. absurd (noise quiet);
        at_work = λ d r e busy rest quiet. absurd (noise quiet);
      }

  update-Tracked :
      {s : State} (old new : DnsClass) (generation : ℕ)
      → Tracked s
      → s.stored ≡ some old
      → (generation ≡ old.generation → (default new).spec ≡ old.spec)
      → Tracked (record s {
        stored = some (updated old new generation);
        pending = s.pending ++ (some (updated old new generation) ∷ []);
      })
  update-Tracked {s} old new generation i held counted =
      let next = some (updated old new generation) in
      let last = i.tied ∙ held in
      let quiet_update : loud s.cached (s.pending ++ (next ∷ [])) ≡ false
          → (loud s.cached s.pending ≡ false)
            × (update_event old (updated old new generation) ≡ false) =
        λ h.
          let (a, b) = loud-append s.cached next s.pending h in
          (a, subst (λ x. event x next ≡ false) last b) in
      record {
        tied = latest-append s.cached next s.pending;
        fair =
            AreFair-append s.cached next s.pending i.fair
              (subst (λ x. IsFair x next) (sym last) (same_spec old new generation counted));
        at_rest = λ d e idle rest quiet kept.
            let (before, event) = quiet_update quiet in
            let (observed, ready) = i.at_rest old held idle rest before kept in
            subst (λ x. (s.observed ≡ some x.spec) × (x.status.state ≡ state_ready))
              (some-injective e)
              (observed ∙ ap some (same_spec old new generation counted event), ready);
        at_work = λ d r e busy rest quiet.
            let (before, event) = quiet_update quiet in
            i.at_work old r held busy rest before
            ∙ same_spec old new generation counted event
            ∙ ap (λ x. x.spec) (some-injective e);
      }

  sync-Tracked :
      {s : State} (v : Option DnsClass) (vs : List (Option DnsClass))
      → Tracked s
      → s.pending ≡ v ∷ vs
      → Tracked (record s { cached = v; pending = vs; queued = event s.cached v || s.queued })
  sync-Tracked {s} v vs i next =
      let quiet : (event s.cached v || s.queued) ≡ false
          → loud v vs ≡ false
          → (s.queued ≡ false) × (loud s.cached s.pending ≡ false) =
        λ h k.
          let (a, b) = or_false (event s.cached v) s.queued h in (b, rw next (rw (a, k) refl)) in
      record {
        tied = ap (latest s.cached) (sym next) ∙ i.tied;
        fair = (subst (AreFair s.cached) next i.fair).1;
        at_rest = λ d e idle rest silent kept.
            let (q, l) = quiet rest silent in i.at_rest d e idle q l kept;
        at_work =
            λ d r e busy rest silent. let (q, l) = quiet rest silent in i.at_work d r e busy q l;
      }

  step-Tracked : {s t : State} → Tracked s → Step cluster config s t → Tracked t
  step-Tracked i (create c absent accepted) = create-Tracked c i absent
  step-Tracked i (update old new generation held accepted counted) =
      update-Tracked old new generation i held counted
  step-Tracked {s} i (delete c held) = record {
    tied = latest-append s.cached none s.pending;
    fair = AreFair-append s.cached none s.pending i.fair (IsFair-none (latest s.cached s.pending));
    at_rest = λ d e. cc;
    at_work = λ d r e. cc;
  }
  step-Tracked i (sync v vs next) = sync-Tracked v vs i next
  step-Tracked {s} i (read queued idle) = record {
    tied = i.tied;
    fair = i.fair;
    at_rest = λ d e unread rest quiet. absurd (
        latest-loud d s.pending (ap (λ x. latest x s.pending) (sym unread) ∙ i.tied ∙ e)
          (ap (λ x. loud x s.pending) (sym unread) ∙ quiet));
    at_work = λ d r e busy rest quiet.
        latest-spec r d s.pending (subst (λ x. AreFair x s.pending) busy i.fair)
          (ap (λ x. latest x s.pending) (sym busy) ∙ i.tied ∙ e)
          (ap (λ x. loud x s.pending) (sym busy) ∙ quiet);
  }
  step-Tracked {s} i (lose c w reading) = record {
    tied = i.tied;
    fair = i.fair;
    at_rest = λ d e idle rest quiet kept. ground (arith, rest, kept);
    at_work = λ d r e busy. cc;
  }
  step-Tracked i restart = record {
    tied = refl;
    fair = tt;
    at_rest = λ d e idle rest. cc;
    at_work = λ d r e busy. cc;
  }
  step-Tracked {s} i (write c dc w reading known held latest_version) = record {
    tied = refl;
    fair =
        (subst (λ x. IsFair x (some (written cluster config c dc w))) (sym known) (λ h. refl), tt);
    at_rest = λ d e idle rest quiet kept.
        let (ok, unqueued) = or_false (fails cluster config c w) s.queued rest in
        let same = i.at_work dc c held reading unqueued (rw latest_version refl) in
        subst (λ x. (some c.spec ≡ some x.spec) × (x.status.state ≡ state_ready)) (some-injective e)
          (ap some same, reconciled-ready cluster config documented c w ok);
    at_work = λ d r e busy. cc;
  }

  pub Reachable-Tracked : {s : State} → Reachable cluster config s → Tracked s
  Reachable-Tracked start = record {
    tied = refl;
    fair = tt;
    at_rest = λ c e. cc;
    at_work = λ c r e. cc;
  }
  Reachable-Tracked (step r s) = step-Tracked (Reachable-Tracked r) s
