-- ===== src/Tests/ControllerTests.antt =====
-- The controller: tests on the in-memory cluster, and the theorems at concrete inputs.
use kubedns_shepherd.Base.{
  true, List, [], ◌∷◌, Option, none, some, Text, codes, text_eq, Result, ok, err, lookup, assign,
  join, decimal, ◌≡◌, ◌≢◌, ◌↔◌, ◌⊎◌, refl,
}
use kubedns_shepherd.Api.{DnsClass, dns_none, state_ready, state_error}
use kubedns_shepherd.Api.Keys.{extract_template_keys_regex}
use kubedns_shepherd.Api.Keys.Extract.{OccursIn, searches_of}
use kubedns_shepherd.Webhook.{validate}
use kubedns_shepherd.Webhook.Validate.{IsValid, validate-none_iff}
use kubedns_shepherd.Controller.Cluster.{Value, string, array, null, nil, cons}
use kubedns_shepherd.Controller.Discovery.{
  Extracted, text, texts, typed_field, string_slice, discover, discover_fields, is_undiscovered,
  not_a_string,
}
use kubedns_shepherd.Controller.Discovery.Extract.{HoldsText, HoldsTexts, typed_field_iff}
use kubedns_shepherd.Controller.Discovery.Fields.{Failed, domain_or, nameservers_or, discover_lem}
use kubedns_shepherd.Controller.Status.{update_status, write_status}
use kubedns_shepherd.Controller.Status.Written.{Written, write_status-Written}
use kubedns_shepherd.Controller.Status.Reports.{Reports, update_status-Reports}
use kubedns_shepherd.Controller.Reconcile.{reconcile, started}
use kubedns_shepherd.Controller.Reconcile.Results.{Verdict, reconcile-Verdict}
use kubedns_shepherd.Controller.Reconcile.Failures.{
  Missing, domain_reply, nameservers_reply, reconcile-err_iff, reconcile-err_of_IsValid_iff,
}
use kubedns_shepherd.Tests.Fixtures.{
  discovered, spec, new_class, ready_class, fake, fake-Documented, Failure, said, Store,
  rest_config, cluster_with, cluster_without,
}

abbrev run : Store → Option Failure × Store
run = reconcile fake rest_config (codes "example") (codes "")

abbrev state_of : Option DnsClass → Text
state_of none = codes ""
state_of (some c) = c.status.state

becomes_ready :
    ((run (cluster_with new_class)).0 ≡ none)
    × (state_of (run (cluster_with new_class)).1.stored ≡ state_ready)
unfolding reconcile text_eq extract_template_keys_regex lookup assign update_status is_undiscovered
    discover_fields
becomes_ready = (refl, refl)

fails_without_domain :
    ((run (cluster_without new_class)).0
      ≡ some (
          said
            (codes "discovery failed for the following fields: clusterDomain field is not found")))
    × (state_of (run (cluster_without new_class)).1.stored ≡ state_error)
unfolding reconcile text_eq extract_template_keys_regex lookup assign update_status is_undiscovered
    discover_fields join
fails_without_domain = (refl, refl)

reconcile-Verdict_example :
    (c' : DnsClass) × (w' : Store) × ((run (cluster_with new_class)).1
      ≡ (write_status fake c' w').1)
    × (c' ≡ record new_class { status = c'.status })
    × Verdict fake rest_config fake-Documented new_class (run (cluster_with new_class)).0 c'
reconcile-Verdict_example =
    reconcile-Verdict fake rest_config fake-Documented (codes "example") (codes "")
      (cluster_with new_class) (cluster_with new_class) new_class refl

reconcile-err_iff_example : ((run (cluster_without new_class)).0 ≢ none) ↔ (
    (dns_none ≡ dns_none)
    × Missing new_class
        (domain_reply fake rest_config
          (started fake rest_config new_class (cluster_without new_class))).0
        (nameservers_reply fake rest_config
          (started fake rest_config new_class (cluster_without new_class))).0)
reconcile-err_iff_example =
    reconcile-err_iff fake rest_config (codes "example") (codes "") (cluster_without new_class)
      (cluster_without new_class) new_class refl

accepted : validate new_class ≡ none
unfolding validate extract_template_keys_regex text_eq
accepted = refl

spec-IsValid : IsValid spec
spec-IsValid = (validate-none_iff new_class).0 accepted

reconcile-err_of_IsValid_iff_example : ((run (cluster_without new_class)).0 ≢ none) ↔ (
    (dns_none ≡ dns_none)
    × OccursIn (codes "clusterDomain") (searches_of spec.dns_config)
    × Failed
        (domain_reply fake rest_config
          (started fake rest_config new_class (cluster_without new_class))).0)
reconcile-err_of_IsValid_iff_example =
    reconcile-err_of_IsValid_iff fake rest_config (codes "example") (codes "")
      (cluster_without new_class) (cluster_without new_class) new_class refl spec-IsValid

write_status-Written_example :
    Written fake ready_class
      (cluster_with new_class)
      (write_status fake ready_class (cluster_with new_class))
write_status-Written_example =
    write_status-Written fake fake-Documented ready_class (cluster_with new_class)

update_status-Reports_example :
    (c' : DnsClass) × (w' : Store) × (update_status fake none
        (codes "Ready")
        ready_class
        (cluster_with new_class)
      ≡ write_status fake c' w')
    × Reports fake fake-Documented ready_class none (codes "Ready") c'
update_status-Reports_example =
    update_status-Reports fake fake-Documented none (codes "Ready") ready_class
      (cluster_with new_class)

abbrev no_domain : Result Text Extracted
no_domain = err (codes "gone")

abbrev found_nameservers : Result Text Extracted
found_nameservers = ok (texts (codes "10.0.0.1" ∷ []))

discover_lem_example :
    ((discover no_domain found_nameservers discovered).discovered.cluster_domain
      ≡ domain_or no_domain discovered.cluster_domain)
    × ((discover no_domain found_nameservers discovered).discovered.nameservers
        ≡ nameservers_or found_nameservers discovered.nameservers)
    × ((key : Text)
        → (is_undiscovered (discover no_domain found_nameservers discovered).undiscovered key
            ≡ true)
          ↔ (((key ≡ codes "clusterDomain") × Failed no_domain)
              ⊎ ((key ≡ codes "nameservers") × Failed found_nameservers)))
    × (((discover no_domain found_nameservers discovered).undiscovered ≡ none)
        ↔ ((¬ Failed no_domain) × (¬ Failed found_nameservers)))
discover_lem_example = discover_lem no_domain found_nameservers discovered

abbrev kubelet_fields : List (Text × Value)
kubelet_fields =
    (codes "clusterDomain", string (codes "cluster.local"))
    ∷ (codes "clusterDNS", array (cons (string (codes "10.0.0.1")) (cons null nil)))
    ∷ []

slice_test :
    typed_field kubelet_fields (codes "clusterDNS") (codes "[]string")
    ≡ err (codes "element at index 1 in clusterDNS is not a string")
unfolding typed_field text_eq lookup decimal
slice_test = refl

typed_field_iff_example :
    ((typed_field kubelet_fields (codes "clusterDomain") (codes "string")
        ≡ ok (text (codes "cluster.local")))
      ↔ HoldsText kubelet_fields (codes "clusterDomain") (text (codes "cluster.local")))
    × ((typed_field kubelet_fields (codes "clusterDomain") (codes "[]string")
          ≡ ok (text (codes "cluster.local")))
        ↔ HoldsTexts kubelet_fields (codes "clusterDomain") (text (codes "cluster.local")))
    × ((target : Text)
        → target ≢ codes "string"
        → target ≢ codes "[]string"
        → typed_field kubelet_fields (codes "clusterDomain") target
          ≢ ok (text (codes "cluster.local")))
typed_field_iff_example =
    typed_field_iff kubelet_fields (codes "clusterDomain") (text (codes "cluster.local"))

odd_slice :
    string_slice (codes "clusterDNS") 0 (string (codes "10.0.0.1") ∷ null ∷ [])
    ≡ err (not_a_string 1 (codes "clusterDNS"))
unfolding string_slice
odd_slice = refl
