-- ===== src/Tests/SystemTests.antt =====
-- The life of a class: a run to a ready class, and the theorems at it.
use kubedns_shepherd.Base.{
  [], ◌∷◌, none, some, text_eq, lookup, panic, true, false, arith, ◌≡◌, ◌≢◌, refl,
}
use kubedns_shepherd.Api.{DnsClass, dns_cluster_first, state_ready}
use kubedns_shepherd.Api.Keys.{extract_template_keys_regex}
use kubedns_shepherd.Templates.Engine.{field_engine}
use kubedns_shepherd.Webhook.{default, validate_create, validate_update}
use kubedns_shepherd.Pods.{configure_dns_for_pod, handle}
use kubedns_shepherd.Controller.Predicate.{create_event, update_event}
use kubedns_shepherd.Controller.Discovery.{discover_fields, is_undiscovered}
use kubedns_shepherd.System.{
  State, reconciled, fails, create, update, sync, read, write, Reachable, start, step,
}
use kubedns_shepherd.System.Serving.{Invariant, Current, Reachable-Invariant, handle-ne_panic}
use kubedns_shepherd.Tests.PodsTests.{mutator}
use kubedns_shepherd.Tests.Fixtures.{
  new_class, spec, fake, fake-Documented, rest_config, cluster_with, pod,
}

-- Created, read, and reconciled.
abbrev pub served : DnsClass
served = record new_class {
  status = (reconciled fake rest_config new_class (cluster_with new_class)).status;
}

abbrev pub served_state : State
served_state = record {
  stored = some served;
  cached = some served;
  pending = [];
  observed = some spec;
  reading = none;
  queued = false;
  lost = false;
}

accepted_new : validate_create (default new_class) ≡ none
unfolding validate_create default extract_template_keys_regex text_eq
accepted_new = refl

default_new : default new_class ≡ new_class
unfolding default text_eq
default_new = refl

-- The cache does not hold the new class yet.
abbrev pub born_state : State
born_state = record {
  stored = some new_class;
  cached = none;
  pending = some new_class ∷ [];
  observed = none;
  reading = none;
  queued = false;
  lost = false;
}

pub born_Reachable : Reachable fake rest_config born_state
unfolding default text_eq
born_Reachable = step start (create new_class refl accepted_new)

abbrev pub created_state : State
created_state = record {
  stored = some new_class;
  cached = some new_class;
  pending = [];
  observed = none;
  reading = none;
  queued = true;
  lost = false;
}

pub created_Reachable : Reachable fake rest_config created_state
unfolding default text_eq create_event
created_Reachable = step born_Reachable (sync (some new_class) [] refl)

pub served_Reachable : Reachable fake rest_config served_state
unfolding fails text_eq extract_template_keys_regex is_undiscovered discover_fields lookup
    update_event
served_Reachable =
    step
      (step (step created_Reachable (read refl refl))
        (write new_class new_class (cluster_with new_class) refl refl refl refl))
      (sync (some served) [] refl)

served_test : served.status.state ≡ state_ready
unfolding reconciled text_eq extract_template_keys_regex is_undiscovered discover_fields lookup
served_test = refl

-- A class that is ready for another policy, and then updated to `None`: until it is reconciled, the
-- code panics for its pods.
abbrev other_class : DnsClass
other_class = record new_class {
  spec = record spec { dns_policy = dns_cluster_first; dns_config = none };
}

abbrev other_served : DnsClass
other_served = record other_class {
  status = (reconciled fake rest_config other_class (cluster_with other_class)).status;
}

abbrev stale : DnsClass
stale = record new_class { generation = 2; status = other_served.status }

stale-Reachable : Reachable fake rest_config (record {
  stored = some stale;
  cached = some stale;
  pending = [];
  observed = some (other_class.spec);
  reading = none;
  queued = true;
  lost = false;
})
unfolding default text_eq validate_create validate_update extract_template_keys_regex create_event
    update_event fails
stale-Reachable =
    step
      (step
        (step
          (step
            (step
              (step (step start (create other_class refl refl)) (sync (some other_class) [] refl))
              (read refl refl))
            (write other_class other_class (cluster_with other_class) refl refl refl refl))
          (sync (some other_served) [] refl))
        (update other_served new_class 2 refl refl (λ h. absurd (omega (arith, h)))))
      (sync (some stale) [] refl)

stale_test :
    (stale.status.state ≡ state_ready) × (configure_dns_for_pod field_engine pod stale ≡ panic)
unfolding reconciled text_eq configure_dns_for_pod
stale_test = (refl, refl)

Reachable-Invariant_example : Invariant fake rest_config fake-Documented served_state
Reachable-Invariant_example = Reachable-Invariant fake rest_config fake-Documented served_Reachable

abbrev served_Current : Current fake rest_config fake-Documented served
served_Current = record {
  state = served_state;
  reachable = served_Reachable;
  stored = refl;
  observed = refl;
}

handle-ne_panic_example : handle field_engine (mutator (served ∷ [])) pod ≢ panic
handle-ne_panic_example =
    handle-ne_panic fake rest_config fake-Documented field_engine (mutator (served ∷ []))
      (served ∷ []) refl (served_Current, tt) pod
