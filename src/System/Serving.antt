-- ===== src/System/Serving.antt =====
-- What the pod webhook can rely on, whatever the webhooks and the controller did before.
use kubedns_shepherd.Base.{
  List, none, some, codes, ok-injective, ok, In, All, In-All, some-injective, panic, ◌≡◌, ◌≢◌, refl,
  sym, ap, ◌∙◌, subst, inl, inr,
}
use kubedns_shepherd.Api.{DnsClass, DnsClassSpec, dns_none, state_ready}
use kubedns_shepherd.Templates.{TemplateEngine}
use kubedns_shepherd.Webhook.{default, validate_create, validate_update}
use kubedns_shepherd.Webhook.Validate.{IsValid, validate-none_iff}
use kubedns_shepherd.Controller.Cluster.{Cluster, RestConfig, Documented}
use kubedns_shepherd.Pods.{Pod, PodMutator, handle}
use kubedns_shepherd.Pods.Select.{First, here, there}
use kubedns_shepherd.Pods.Handle.{handle-panic_iff}
use kubedns_shepherd.System.{
  State, Step, create, update, delete, sync, read, write, lose, restart, Reachable, start, step,
}
use kubedns_shepherd.System.Written.{Served, reconciled-Served}

First-In : {pod : Pod} {c : DnsClass} {classes : List DnsClass} → First pod c classes → In c classes
First-In (here e eligible) = inl (sym e)
First-In (there other rest) = inr (First-In rest)

empty_state-ne : codes "" ≢ state_ready
empty_state-ne h = cc

module _ (cluster : Cluster) (config : RestConfig) (documented : Documented cluster) where
  -- The stored class is valid, and if it is ready, the spec that its status was computed from is
  -- served.
  pub record Invariant (s : State) : Type 0 where
    pub valid : (c : DnsClass) → s.stored ≡ some c → IsValid c.spec
    pub served :
        (c : DnsClass)
        → s.stored ≡ some c
        → c.status.state ≡ state_ready
        → (spec : DnsClassSpec) × (s.observed ≡ some spec) × Served cluster config documented spec c

  step-Invariant : {s t : State} → Invariant s → Step cluster config s t → Invariant t
  unfolding validate_create validate_update
  step-Invariant i (create c absent accepted) = record {
    valid = λ d e.
        subst (λ x. IsValid x.spec) (some-injective e) ((validate-none_iff (default c)).0 accepted);
    served = λ d e ready.
        absurd (
          empty_state-ne
            (subst (λ x. x.status.state ≡ state_ready) (sym (some-injective e)) ready));
  }
  step-Invariant {s} i (update old new generation held accepted counted) = record {
    valid = λ d e.
        subst (λ x. IsValid x.spec) (some-injective e)
          ((validate-none_iff (default new)).0 accepted);
    served = λ d e.
        subst
          (λ x.
            x.status.state ≡ state_ready
            → (spec : DnsClassSpec) × (s.observed ≡ some spec)
              × Served cluster config documented spec x)
          (some-injective e) (i.served old held);
  }
  step-Invariant i (delete c held) = record { valid = λ d e. cc; served = λ d e. cc }
  step-Invariant i (sync v vs next) = record { valid = i.valid; served = i.served }
  step-Invariant i (read queued idle) = record { valid = i.valid; served = i.served }
  step-Invariant i (lose c w reading) = record { valid = i.valid; served = i.served }
  step-Invariant i restart = record { valid = i.valid; served = i.served }
  step-Invariant i (write c dc w reading known held latest) = record {
    valid = λ d e. subst (λ x. IsValid x.spec) (some-injective e) (i.valid dc held);
    served = λ d e ready. (
      c.spec,
      refl,
      subst (λ x. Served cluster config documented c.spec x) (some-injective e)
          (reconciled-Served cluster config documented c w),
    );
  }

  -- In every state that any number of steps leads to, the stored class has passed the validator, and
  -- if it is ready, its status was computed from some spec, and, if that spec's policy is `None`, has
  -- discovered fields.
  pub Reachable-Invariant : {s : State} → Reachable cluster config s → Invariant s
  Reachable-Invariant start = record { valid = λ c e. cc; served = λ c e. cc }
  Reachable-Invariant (step r s) = step-Invariant (Reachable-Invariant r) s

  -- A class as some state stores it, whose status was computed from the spec that it has.
  pub record Current (c : DnsClass) : Type 0 where
    pub state : State
    pub reachable : Reachable cluster config state
    pub stored : state.stored ≡ some c
    pub observed : state.observed ≡ some (c.spec)

  Current-discovered :
      {c : DnsClass}
      → Current c
      → c.status.state ≡ state_ready
      → c.spec.dns_policy ≡ dns_none
      → c.status.discovered_fields ≢ none
  Current-discovered {c} k ready policy =
      let (spec, observed, served) = (Reachable-Invariant k.reachable).served c k.stored ready in
      let same = some-injective (sym observed ∙ k.observed) in
      served ready (ap (λ x. x.dns_policy) same ∙ policy)

  -- Let each class that the pod webhook lists be stored in some state that creations, updates,
  -- deletions, changes of the cache, reads and writes of the status and restarts of the controller lead
  -- to, in any order, and let its status have been
  -- computed from the spec that it has. Then the pod webhook does not panic, on any request.
  pub handle-ne_panic :
      (engine : TemplateEngine) (p : PodMutator) (classes : List DnsClass)
      → p.list ≡ ok classes
      → All Current classes
      → (req : p.Request) → handle engine p req ≢ panic
  handle-ne_panic engine p classes listed current req h =
      let crash = (handle-panic_iff engine p req).0 h in
      let same = ok-injective listed crash.selected.listed in
      let known =
        In-All Current classes crash.class current
          (subst (In crash.class) (sym same) (First-In crash.selected.first)) in
      Current-discovered known crash.ready crash.policy crash.discovered
