-- ===== src/System/Rest.antt =====
-- The controller on its own comes to rest, and then the class is served.
use kubedns_shepherd.Base.{
  ℕ, suc, ◌+◌, ◌*◌, ◌≤◌, true, false, ◌||◌, [], none, some, length, Option-cases, Bool-cases, ◌≡◌,
  ◌≢◌, inl, inr, refl, sym, ◌∙◌, ap,
}
use kubedns_shepherd.Api.{DnsClass, DnsClassSpec, dns_none, state_ready}
use kubedns_shepherd.Webhook.Validate.{IsValid}
use kubedns_shepherd.Controller.Cluster.{Cluster, RestConfig, Documented}
use kubedns_shepherd.System.{State, event, fails, written, sync, read, write, Reachable}
use kubedns_shepherd.System.Pending.{latest}
use kubedns_shepherd.System.Tracked.{Reachable-Tracked}
use kubedns_shepherd.System.Settled.{Reachable-settled}
use kubedns_shepherd.System.Drain.{IsDue, IsDue-kept, drain}
use kubedns_shepherd.System.Quiet.{
  OwnSteps, rest, next, OwnSteps-Reachable, written_quiet, OwnSteps-bounded,
}

module _ (cluster : Cluster) (config : RestConfig) where
  open cluster use {World}

  -- The controller is at rest, and the class that is stored has the spec.
  pub record IsAtRest (s : State) (spec : DnsClassSpec) : Type 0 where
    pub class : DnsClass
    pub stored : s.stored ≡ some class
    pub same : class.spec ≡ spec
    pub known : s.pending ≡ []
    pub idle : s.reading ≡ none
    pub quiet : s.queued ≡ false
    pub kept : s.lost ≡ false

  record Rests (s : State) (spec : DnsClassSpec) : Type 0 where
    pub count : ℕ
    pub last : State
    pub steps : OwnSteps cluster config s count last
    pub rests : IsAtRest last spec

  -- The cache holds the class that is stored.
  record IsKnown (t : State) (c : DnsClass) : Type 0 where
    pub stored : t.stored ≡ some c
    pub cached : t.cached ≡ some c
    pub pending : t.pending ≡ []

  module _ (w : World) (succeeds : (c : DnsClass) → fails cluster config c w ≡ false) where
    -- What the writing of a status and its arrival in the cache lead to.
    abbrev after : State → DnsClass → DnsClass → State
    after t c r = record t {
      stored = some (written cluster config r c w);
      cached = some (written cluster config r c w);
      pending = [];
      observed = some (r.spec);
      reading = none;
      queued =
          event t.cached (some (written cluster config r c w))
          || (fails cluster config r w || t.queued);
      lost = false;
    }

    write_sync :
        {s t : State} {n : ℕ} (c r : DnsClass)
        → OwnSteps cluster config s n t
        → IsKnown t c
        → t.reading ≡ some r
        → OwnSteps cluster config s (suc (suc n)) (after t c r)
    write_sync c r q k busy =
        next (next q (write r c w busy k.cached k.stored k.pending) (succeeds r))
          (sync (some (written cluster config r c w)) [] refl) tt

    after-queued : (t : State) (c r : DnsClass) → IsKnown t c → (after t c r).queued ≡ t.queued
    after-queued t c r k = rw (k.cached, written_quiet cluster config r c w, succeeds r) refl

    written-Rests :
        {s t : State} {n : ℕ} (c r : DnsClass)
        → OwnSteps cluster config s n t
        → IsKnown t c
        → t.reading ≡ some r
        → t.queued ≡ false
        → Rests s c.spec
    written-Rests {t} {n} c r q k busy quiet = record {
      count = suc (suc n);
      last = after t c r;
      steps = write_sync c r q k busy;
      rests = record {
        class = written cluster config r c w;
        stored = refl;
        same = refl;
        known = refl;
        idle = refl;
        quiet = after-queued t c r k ∙ quiet;
        kept = refl;
      };
    }

    read-Rests :
        {s t : State} {n : ℕ} (c : DnsClass)
        → OwnSteps cluster config s n t
        → IsKnown t c
        → t.reading ≡ none
        → t.queued ≡ true
        → Rests s c.spec
    read-Rests c q k idle queued =
        written-Rests c c (next q (read queued idle) tt)
          (record { stored = k.stored; cached = k.cached; pending = k.pending }) k.cached refl

    again-Rests :
        {s t : State} {n : ℕ} (c r : DnsClass)
        → OwnSteps cluster config s n t
        → IsKnown t c
        → t.reading ≡ some r
        → t.queued ≡ true
        → Rests s c.spec
    again-Rests {t} c r q k busy queued =
        read-Rests (written cluster config r c w) (write_sync c r q k busy)
          (record { stored = refl; cached = refl; pending = refl }) refl
          (after-queued t c r k ∙ queued)

    due-Rests :
        {s t : State} {n : ℕ} (c : DnsClass)
        → OwnSteps cluster config s n t
        → IsKnown t c
        → IsDue t
        → Rests s c.spec
    due-Rests {t} {n} c q k due = elim (Bool-cases t.queued) [
      | inl queued ↦ elim (Option-cases t.reading) [
        | inl idle ↦ read-Rests c q k idle queued
        | inr (r, busy) ↦ again-Rests c r q k busy queued
      ]
      | inr quiet ↦ elim (Option-cases t.reading) [
        | inl idle ↦ record {
          count = n;
          last = t;
          steps = q;
          rests = record {
            class = c;
            stored = k.stored;
            same = refl;
            known = k.pending;
            idle = idle;
            quiet = quiet;
            kept = IsDue-kept t k.pending quiet due;
          };
        }
        | inr (r, busy) ↦ written-Rests c r q k busy quiet
      ]
    ]

  -- Let a state be reached by any number of steps, in any order, with a class stored, and let its
  -- name be in the queue, or an event be among the versions that the cache is behind by, or no
  -- status have been lost. If nothing else happens, and in the world in which the controller works
  -- no reconciliation fails, then some own steps of the controller and its cache, at most four for
  -- each version that the cache is behind by and five more, lead to a state in which the cache is
  -- not behind, the controller is at rest, and the class has the same spec, is valid and ready, its
  -- status was computed from that spec, and with the policy `None` it has discovered fields.
  pub OwnSteps-settle :
      (documented : Documented cluster) (w : World)
      → ((r : DnsClass) → fails cluster config r w ≡ false)
      → {s : State} {c : DnsClass} → Reachable cluster config s
      → s.stored ≡ some c
      → IsDue s
      → (n : ℕ) × (t : State) × (d : DnsClass) × OwnSteps cluster config s n t
        × (n ≤ 4 * length s.pending + 5)
        × (t.stored ≡ some d)
        × (t.pending ≡ [])
        × (t.reading ≡ none)
        × (t.queued ≡ false)
        × (d.spec ≡ c.spec)
        × IsValid d.spec
        × (d.status.state ≡ state_ready)
        × (t.observed ≡ some d.spec)
        × (d.spec.dns_policy ≡ dns_none → d.status.discovered_fields ≢ none)
  OwnSteps-settle documented w succeeds {s} {c} reachable held due =
      let d = drain cluster config s.pending rest refl refl due in
      let tied =
        (Reachable-Tracked cluster config documented
          (OwnSteps-Reachable cluster config reachable d.steps)).tied in
      let held = d.stored ∙ held in
      let cached = ap (latest d.last.cached) (sym d.known) ∙ tied ∙ held in
      let r =
        due-Rests w succeeds c d.steps
          (record { stored = held; cached = cached; pending = d.known }) d.due in
      let at_rest = r.rests in
      let (valid, ready, observed, fields) =
        Reachable-settled cluster config documented
          (OwnSteps-Reachable cluster config reachable r.steps) at_rest.stored at_rest.known
          at_rest.idle at_rest.quiet at_rest.kept in
      (
        r.count,
        r.last,
        at_rest.class,
        r.steps,
        (OwnSteps-bounded cluster config r.steps).1,
        at_rest.stored,
        at_rest.known,
        at_rest.idle,
        at_rest.quiet,
        at_rest.same,
        valid,
        ready,
        observed,
        fields,
      )
