-- ===== src/Tests/WebhookTests.antt =====
-- The DNSClass webhook: tests, and the theorems at concrete classes.
use kubedns_shepherd.Base.{[], ◌∷◌, none, some, codes, text_eq, ◌≡◌, ◌≢◌, ◌↔◌, refl}
use kubedns_shepherd.Api.{DnsClass, dns_default, dns_none}
use kubedns_shepherd.Api.Keys.{extract_template_keys_regex}
use kubedns_shepherd.Webhook.{
  default, default_dns_policies, validate, all_errors, check_policies, check_policy, check_config,
  check_keys,
}
use kubedns_shepherd.Webhook.Validate.{IsValid, validate-none_iff}
use kubedns_shepherd.Webhook.Defaults.{IsAdmissible, validate-default-none_iff, default_lem}
use kubedns_shepherd.Tests.Fixtures.{new_class, spec}

-- Neither policies nor a policy.
abbrev bare_class : DnsClass
bare_class = record new_class {
  spec = record spec { allowed_dns_policies = none; dns_policy = codes "" };
}

-- A `dnsConfig` beside the policy `Default`.
abbrev clashing_class : DnsClass
clashing_class = record new_class { spec = record spec { dns_policy = dns_default } }

default_test :
    (default bare_class).spec
    ≡ record spec { allowed_dns_policies = some default_dns_policies; dns_policy = dns_none }
unfolding default text_eq
default_test = refl

accepted : validate new_class ≡ none
unfolding validate extract_template_keys_regex text_eq
accepted = refl

refused :
    all_errors clashing_class
    ≡ record {
      path = codes "spec" ∷ codes "dnsPolicy" ∷ [];
      value = codes "example";
      detail = codes "DNSConfig cannot be set when DNSPolicy is Default";
    }
      ∷ []
unfolding all_errors check_policies check_policy check_config check_keys extract_template_keys_regex
    text_eq
refused = refl

validate-none_iff_example : (validate new_class ≡ none) ↔ IsValid spec
validate-none_iff_example = validate-none_iff new_class

-- The direction that says something of an accepted class.
new_class-IsValid : IsValid spec
new_class-IsValid = (validate-none_iff new_class).0 accepted

validate-default-none_iff_example :
    (validate (default bare_class) ≡ none) ↔ IsAdmissible bare_class.spec
validate-default-none_iff_example = validate-default-none_iff bare_class

default_lem_example :
    (bare_class.spec.allowed_dns_policies ≡ none
      → (default bare_class).spec.allowed_dns_policies
        ≡ some (codes "ClusterFirst" ∷ codes "ClusterFirstWithHostNet" ∷ codes "None" ∷ []))
    × (bare_class.spec.dns_policy ≡ codes "" → (default bare_class).spec.dns_policy ≡ codes "None")
    × (bare_class.spec.allowed_dns_policies ≢ none
        → (default bare_class).spec.allowed_dns_policies ≡ bare_class.spec.allowed_dns_policies)
    × (bare_class.spec.dns_policy ≢ codes ""
        → (default bare_class).spec.dns_policy ≡ bare_class.spec.dns_policy)
    × (default bare_class ≡ record bare_class {
      spec = record (bare_class.spec) {
        allowed_dns_policies = (default bare_class).spec.allowed_dns_policies;
        dns_policy = (default bare_class).spec.dns_policy;
      };
    })
    × (default (default bare_class) ≡ default bare_class)
default_lem_example = default_lem bare_class
