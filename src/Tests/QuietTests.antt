-- ===== src/Tests/QuietTests.antt =====
-- The controller on its own, at rest, and in front of the pod webhook.
use kubedns_shepherd.Base.{
  ℕ, none-ne_some, sym, ◌∙◌, ◌+◌, ◌≤◌, Option-cases, inl, inr, [], ◌∷◌, none, some, text_eq, lookup,
  done, codes, true, false, ◌≡◌, ◌≢◌, refl,
}
use kubedns_shepherd.Api.{DnsClass, dns_none, dns_cluster_first, state_ready}
use kubedns_shepherd.Api.Keys.{extract_template_keys_regex}
use kubedns_shepherd.Templates.Engine.{field_engine}
use kubedns_shepherd.Pods.{set_policy, get_dns_class, handle}
use kubedns_shepherd.Controller.Predicate.{create_event, update_event}
use kubedns_shepherd.Controller.Discovery.{extract_field, discover_fields, is_undiscovered}
use kubedns_shepherd.System.{State, reconciled, fails, sync, read, write, lose, Reachable, step}
use kubedns_shepherd.System.Settled.{Reachable-settled}
use kubedns_shepherd.System.Quiet.{OwnSteps, rest, next, budget, OwnSteps-bounded}
use kubedns_shepherd.System.Rest.{OwnSteps-settle}
use kubedns_shepherd.Webhook.Validate.{IsValid}
use kubedns_shepherd.Controller.Reconcile.{reconcile_class, with_initial_state}
use kubedns_shepherd.Controller.Reconcile.Failures.{reconcile_class-err}
use kubedns_shepherd.System.Patched.{handle-patched_of_Settled}
use kubedns_shepherd.Tests.SystemTests.{
  served, served_state, born_state, born_Reachable, created_state, created_Reachable,
  served_Reachable,
}
use kubedns_shepherd.Pods.{patched}
use kubedns_shepherd.Pods.Select.{First, get_dns_class-ok_iff}
use kubedns_shepherd.Templates.Engine.{field_engine-RendersFields}
use kubedns_shepherd.Tests.PodsTests.{mutator, templates, templates-IsSimple}
use kubedns_shepherd.Tests.Fixtures.{
  discovered, new_class, fake, fake-Documented, rest_config, cluster_with, pod,
}

-- The status of a class that is reconciled, but not written: nothing brings it back.
lost-Reachable : Reachable fake rest_config (record {
  stored = some new_class;
  cached = some new_class;
  pending = [];
  observed = none;
  reading = none;
  queued = false;
  lost = true;
})
unfolding fails text_eq extract_template_keys_regex is_undiscovered discover_fields lookup
lost-Reachable =
    step (step created_Reachable (read refl refl)) (lose new_class (cluster_with new_class) refl)

Reachable-settled_example :
    IsValid served.spec
    × (served.status.state ≡ state_ready)
    × (served_state.observed ≡ some served.spec)
    × (served.spec.dns_policy ≡ dns_none → served.status.discovered_fields ≢ none)
Reachable-settled_example =
    Reachable-settled fake rest_config fake-Documented served_Reachable refl refl refl refl refl

OwnSteps-bounded_example :
    (3 + budget fake rest_config served_state ≤ budget fake rest_config created_state) × (3 ≤ 5)
unfolding fails text_eq extract_template_keys_regex is_undiscovered discover_fields lookup
    update_event
OwnSteps-bounded_example =
    OwnSteps-bounded fake rest_config {s = created_state} {t = served_state} (
      next
        (next (next rest (read refl refl) tt)
          (write new_class new_class (cluster_with new_class) refl refl refl refl) refl)
        (sync (some served) [] refl) tt)

-- Both fields are found in this world.
found_fails : (r : DnsClass) → fails fake rest_config r (cluster_with new_class) ≡ false
unfolding fails text_eq lookup extract_field
found_fails r =
    let c = with_initial_state fake rest_config r in
    elim (Option-cases ((reconcile_class fake rest_config c (cluster_with new_class)).0.error)) [
      | inl e ↦ rw e
      | inr (e, q) ↦
          let (_, m) =
            (reconcile_class-err fake rest_config c (cluster_with new_class)).0
              (λ n. none-ne_some (sym n ∙ q)) in
          elim m.fails [ inl (k, f) ↦ absurd f | inr (k, f) ↦ absurd f ]
    ]

OwnSteps-settle_example :
    (n : ℕ) × (t : State) × (d : DnsClass) × OwnSteps fake rest_config born_state n t
    × (n ≤ 9)
    × (t.stored ≡ some d)
    × (t.pending ≡ [])
    × (t.reading ≡ none)
    × (t.queued ≡ false)
    × (d.spec ≡ new_class.spec)
    × IsValid d.spec
    × (d.status.state ≡ state_ready)
    × (t.observed ≡ some d.spec)
    × (d.spec.dns_policy ≡ dns_none → d.status.discovered_fields ≢ none)
unfolding create_event
OwnSteps-settle_example =
    OwnSteps-settle fake rest_config fake-Documented (cluster_with new_class) found_fails
      born_Reachable refl (inl refl)

served-First : First pod served (served ∷ [])
unfolding reconciled text_eq extract_template_keys_regex is_undiscovered discover_fields lookup
    get_dns_class
served-First = (get_dns_class-ok_iff pod (served ∷ []) served).0 refl

handle-patched_of_Settled_example :
    handle field_engine (mutator (served ∷ [])) pod ≡ done (patched (dns_cluster_first, dns_none))
unfolding reconciled text_eq extract_template_keys_regex is_undiscovered discover_fields lookup
    set_policy
handle-patched_of_Settled_example =
    handle-patched_of_Settled fake rest_config fake-Documented field_engine
      field_engine-RendersFields (mutator (served ∷ [])) pod pod served (served ∷ []) discovered
      templates (codes "10.96.0.10" ∷ []) dns_none refl refl served-First
      (record {
        state = served_state;
        reachable = served_Reachable;
        stored = refl;
        known = refl;
        idle = refl;
        quiet = refl;
        kept = refl;
      })
      refl refl templates-IsSimple refl (λ e. cc) (λ e. cc) refl refl
