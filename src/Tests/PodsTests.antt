-- ===== src/Tests/PodsTests.antt =====
-- The pod webhook: tests, and the theorems at concrete classes and pods.
use kubedns_shepherd.Base.{
  List, [], ◌∷◌, map, assign, lookup, none, some, Text, codes, text_eq, ok, err, done, panic, All,
  ◌≡◌, ◌↔◌, refl, arith,
}
use kubedns_shepherd.Api.{DnsClass, dns_none, dns_cluster_first, PodDnsConfig}
use kubedns_shepherd.Api.Keys.{
  match_key, match_field, match_word, closes, span_word, skip_spaces, is_word, is_space,
}
use kubedns_shepherd.Webhook.Validate.{IsValid, validate-none_iff}
use kubedns_shepherd.Webhook.{validate}
use kubedns_shepherd.Api.Keys.{extract_template_keys_regex}
use kubedns_shepherd.Templates.{Piece, literal, field, IsSimple}
use kubedns_shepherd.Templates.Engine.{field_engine, field_engine-RendersFields, parse_pieces}
use kubedns_shepherd.Pods.{
  Pod, PodMutator, patched, select_class, get_dns_class, set_policy, configure_dns_for_pod, handle,
  err_no_dns_class,
}
use kubedns_shepherd.Pods.Select.{First, get_dns_class-ok_iff}
use kubedns_shepherd.Pods.Configure.{Outcome, configure_dns_for_pod-Outcome}
use kubedns_shepherd.Pods.Rendering.{fill, configure_dns_for_pod_of_IsValid}
use kubedns_shepherd.Pods.Handle.{Selects, Mutates, Crashes, handle-patched_iff, handle-panic_iff}
use kubedns_shepherd.Tests.Fixtures.{spec, discovered, new_class, ready_class, stale_class, pod}

abbrev system_pod : Pod
system_pod = record pod { namespace = codes "kube-system" }

selected : get_dns_class (ok (ready_class ∷ [])) pod ≡ ok ready_class
unfolding get_dns_class select_class text_eq
selected = refl

not_selected : get_dns_class (ok (ready_class ∷ [])) system_pod ≡ err err_no_dns_class
unfolding get_dns_class select_class text_eq
not_selected = refl

get_dns_class-ok_iff_example :
    (get_dns_class (ok (new_class ∷ ready_class ∷ [])) pod ≡ ok new_class)
    ↔ First pod new_class (new_class ∷ ready_class ∷ [])
get_dns_class-ok_iff_example = get_dns_class-ok_iff pod (new_class ∷ ready_class ∷ []) new_class

-- The two templates of the fixture.
abbrev pub templates : List (List Piece)
templates =
    (field (codes " ") (codes "podNamespace") (codes " ")
      ∷ literal (codes ".svc.")
      ∷ field [] (codes "clusterDomain") []
      ∷ [])
    ∷ (literal (codes "local") ∷ [])
    ∷ []

abbrev resolved : PodDnsConfig
resolved = record {
  nameservers = some (codes "10.96.0.10" ∷ []);
  searches = some (codes "default.svc.cluster.local" ∷ codes "local" ∷ []);
  options = none;
}

abbrev configured : Pod
configured = record {
  namespace = codes "default";
  annotations = some ((codes "kubedns-shepherd.io/dns-class-name", codes "example") ∷ []);
  dns_policy = dns_none;
  dns_config = some resolved;
  other = codes "containers";
}

configured_test : configure_dns_for_pod field_engine pod ready_class ≡ done (configured, none)
unfolding configure_dns_for_pod parse_pieces match_key match_field match_word closes span_word
    skip_spaces is_word is_space text_eq assign lookup
configured_test = refl

panic_test : configure_dns_for_pod field_engine pod stale_class ≡ panic
unfolding configure_dns_for_pod text_eq
panic_test = refl

accepted : validate ready_class ≡ none
unfolding validate extract_template_keys_regex text_eq
accepted = refl

spec-IsValid : IsValid spec
spec-IsValid = (validate-none_iff ready_class).0 accepted

pub templates-IsSimple : All (All IsSimple) templates
unfolding is_word
templates-IsSimple = ground arith

configure_dns_for_pod_of_IsValid_example :
    configure_dns_for_pod field_engine pod ready_class
    ≡ done (
      set_policy
          (record pod {
            dns_config = some (record {
              nameservers = some (codes "10.96.0.10" ∷ []);
              searches = some (map (fill (codes "default") (codes "cluster.local")) templates);
              options = none;
            });
          })
          ready_class,
      none,
    )
configure_dns_for_pod_of_IsValid_example =
    configure_dns_for_pod_of_IsValid field_engine field_engine-RendersFields pod ready_class
      discovered templates (codes "10.96.0.10" ∷ []) spec-IsValid refl refl templates-IsSimple refl
      (λ e. cc) (λ e. cc) refl

configure_dns_for_pod-Outcome_example :
    Outcome field_engine pod ready_class (configure_dns_for_pod field_engine pod ready_class)
configure_dns_for_pod-Outcome_example = configure_dns_for_pod-Outcome field_engine pod ready_class

-- A request is a pod; the marshaled pod is its policy, and the patch is the pair of the two texts.
abbrev pub mutator : List DnsClass → PodMutator
mutator classes = record {
  Request = Pod;
  Patch = Text × Text;
  raw = λ p. p.dns_policy;
  decode = ok;
  list = ok classes;
  marshal = λ p. ok p.dns_policy;
  patch_response_from_raw = λ old new. (old, new);
}

handle_test :
    handle field_engine (mutator (ready_class ∷ [])) pod
    ≡ done (patched (dns_cluster_first, dns_none))
unfolding handle match_key match_field match_word closes span_word skip_spaces is_word is_space
    text_eq assign lookup parse_pieces
handle_test = refl

handle-patched_iff_example :
    (handle field_engine (mutator (ready_class ∷ [])) pod
      ≡ done (patched (dns_cluster_first, dns_none)))
    ↔ Mutates field_engine (mutator (ready_class ∷ [])) pod (dns_cluster_first, dns_none)
handle-patched_iff_example =
    handle-patched_iff field_engine (mutator (ready_class ∷ [])) pod (dns_cluster_first, dns_none)

handle-panic_iff_example :
    (handle field_engine (mutator (stale_class ∷ [])) pod ≡ panic)
    ↔ Crashes field_engine (mutator (stale_class ∷ [])) pod
handle-panic_iff_example = handle-panic_iff field_engine (mutator (stale_class ∷ [])) pod

found : get_dns_class (ok (new_class ∷ [])) pod ≡ ok new_class
unfolding get_dns_class select_class text_eq
found = refl

new_class-selected : Selects field_engine (mutator (new_class ∷ [])) pod pod new_class
new_class-selected = record {
  classes = new_class ∷ [];
  decoded = refl;
  listed = refl;
  first = (get_dns_class-ok_iff pod (new_class ∷ []) new_class).0 found;
}
