-- ===== src/System/Settled.antt =====
-- What holds of a class once the controller is at rest: its cache holds the version that is stored,
-- the name is not in the queue, no reconciliation is in progress, and no status has been lost.
use kubedns_shepherd.Base.{[], false, none, some, some-injective, ◌≡◌, ◌≢◌, refl, sym, ◌∙◌, ap}
use kubedns_shepherd.Api.{DnsClass, dns_none, state_ready}
use kubedns_shepherd.Webhook.Validate.{IsValid}
use kubedns_shepherd.Controller.Cluster.{Cluster, RestConfig, Documented}
use kubedns_shepherd.System.{State, Reachable}
use kubedns_shepherd.System.Serving.{Reachable-Invariant}
use kubedns_shepherd.System.Tracked.{Reachable-Tracked}

module _ (cluster : Cluster) (config : RestConfig) (documented : Documented cluster) where
  -- In every state that any number of steps leads to: if the cache holds the version that is stored,
  -- the name of the class is not in the queue, no reconciliation is in progress, and no status has
  -- been lost, then the class that is stored is
  -- valid and ready, its status was computed from the spec that it has, and with the policy `None`
  -- it has discovered fields.
  pub Reachable-settled :
      {s : State} {c : DnsClass}
      → Reachable cluster config s
      → s.stored ≡ some c
      → s.pending ≡ []
      → s.reading ≡ none
      → s.queued ≡ false
      → s.lost ≡ false
      → IsValid c.spec
        × (c.status.state ≡ state_ready)
        × (s.observed ≡ some c.spec)
        × (c.spec.dns_policy ≡ dns_none → c.status.discovered_fields ≢ none)
  Reachable-settled {s} {c} reachable held settled idle rest kept =
      let (observed, ready) =
        (Reachable-Tracked cluster config documented reachable).at_rest c held idle rest
          (rw settled refl) kept in
      let invariant = Reachable-Invariant cluster config documented reachable in
      let (spec, known, served) = invariant.served c held ready in
      let same : spec ≡ c.spec = some-injective (sym known ∙ observed) in
      (
        invariant.valid c held,
        ready,
        observed,
        λ policy. served ready (ap (λ x. x.dns_policy) same ∙ policy),
      )
