-- ===== src/Tests/Fixtures.antt =====
-- The classes, the pods and the in-memory cluster of the tests.
use kubedns_shepherd.Base.{
  pos, ℕ, suc, Bool, true, false, List, [], ◌∷◌, Option, none, some, Text, codes, text_eq,
  text_eq_iff, text_eq_refl, Result, ok, err, ◌≡◌, ◌≢◌, refl, arith, inl, inr, Bool-cases,
  if◌then◌else◌,
}
use kubedns_shepherd.Api.{
  Condition, Metadata, DnsClass, DnsClassSpec, DiscoveredFields, PodDnsConfig, dns_none,
  dns_cluster_first, state_ready,
}
use kubedns_shepherd.Pods.{Pod}
use kubedns_shepherd.Controller.Cluster.{
  Cluster, RestConfig, Members, string, array, object, nil, cons, end, member, find_condition,
  Documented, last,
}

abbrev pub search_text : Text
search_text = codes "{{ .podNamespace }}.svc.{{.clusterDomain}}"

abbrev pub config : PodDnsConfig
config = record {
  nameservers = none;
  searches = some (search_text ∷ codes "local" ∷ []);
  options = none;
}

abbrev pub spec : DnsClassSpec
spec = record {
  allowed_namespaces = none;
  disabled_namespaces = some (codes "kube-system" ∷ []);
  allowed_dns_policies = some (dns_cluster_first ∷ dns_none ∷ []);
  dns_policy = dns_none;
  dns_config = some config;
}

abbrev pub discovered : DiscoveredFields
discovered = record {
  nameservers = some (codes "10.96.0.10" ∷ []);
  cluster_domain = codes "cluster.local";
}

abbrev pub metadata : Metadata
metadata = record {
  deletion_timestamp = none;
  deletion_grace_period_seconds = some (pos 30);
  labels = some ((codes "app", codes "dns") ∷ []);
  annotations = none;
  owner_references = some (
      record {
        api_version = codes "apps/v1";
        kind = codes "Deployment";
        name = codes "owner";
        uid = codes "7";
        controller = some true;
        block_owner_deletion = none;
      }
      ∷ []);
  finalizers = some (codes "config.kubedns-shepherd.io/finalizer" ∷ []);
  managed_fields = some (
      record {
        manager = codes "kubectl";
        operation = codes "Apply";
        api_version = codes "config.kubedns-shepherd.io/v1alpha1";
        time = some (codes "2025-01-01T00:00:00Z");
        fields_type = codes "FieldsV1";
        fields_v1 = some (some (codes "{}"));
        subresource = codes "";
      }
      ∷ []);
}

abbrev pub new_class : DnsClass
new_class = record {
  group_kind = record { group = codes "config.kubedns-shepherd.io"; kind = codes "DNSClass" };
  name = codes "example";
  namespace = codes "";
  generation = 1;
  metadata = metadata;
  spec = spec;
  status = record { conditions = []; state = codes ""; discovered_fields = none };
}

abbrev pub ready_class : DnsClass
ready_class = record new_class {
  status = record { conditions = []; state = state_ready; discovered_fields = some discovered };
}

-- Ready, but for another policy than the one that the spec now has.
abbrev pub stale_class : DnsClass
stale_class = record new_class {
  status = record { conditions = []; state = state_ready; discovered_fields = none };
}

abbrev pub pod : Pod
pod = record {
  namespace = codes "default";
  annotations = none;
  dns_policy = dns_cluster_first;
  dns_config = none;
  other = codes "containers";
}

-- `meta.SetStatusCondition` as it is documented; the time is always the new one.
abbrev pub set_condition : List Condition → Condition → List Condition
set_condition [] c = c ∷ []
set_condition (d ∷ ds) c = if text_eq d.type c.type then c ∷ ds else d ∷ set_condition ds c

set_condition_self :
    (cs : List Condition) (c : Condition) → find_condition c.type (set_condition cs c) ≡ some c
unfolding find_condition
set_condition_self [] c = rw (text_eq_refl c.type)
set_condition_self (d ∷ ds) c = elim (Bool-cases (text_eq d.type c.type)) [
  | inl e ↦ rw e (rw (text_eq_refl c.type) refl)
  | inr e ↦ rw (e, e) (set_condition_self ds c)
]

set_condition_other :
    (cs : List Condition) (c : Condition) (t : Text)
    → t ≢ c.type
    → find_condition t (set_condition cs c) ≡ find_condition t cs
unfolding find_condition
set_condition_other [] c t h = ground (arith, text_eq_iff c.type t)
set_condition_other (d ∷ ds) c t h = ground (
  arith,
  text_eq_iff c.type t,
  text_eq_iff d.type c.type,
  text_eq_iff d.type t,
  set_condition_other ds c t,
)

pub data Failure : Type 0 where
  not_found : Failure
  said : Text → Failure

pub record Store : Type 0 where
  pub stored : Option DnsClass
  pub clock : ℕ
  pub domain : Bool

abbrev pub kubelet : Bool → Members
kubelet true =
    member (codes "clusterDomain") (string (codes "cluster.local"))
      (member (codes "clusterDNS") (array (cons (string (codes "10.96.0.10")) nil)) end)
kubelet false = member (codes "clusterDNS") (array (cons (string (codes "10.96.0.10")) nil)) end

abbrev read : Store → Result Failure DnsClass
read s = elim s.stored [ none ↦ err not_found | some c ↦ ok c ]

abbrev text_of : Failure → Text
text_of not_found = codes "not found"
text_of (said m) = m

abbrev is_missing : Failure → Bool
is_missing not_found = true
is_missing (said m) = false

-- One class, one node, no conflicts; without a domain the kubelet's configuration lacks it.
abbrev pub fake : Cluster
fake = record {
  World = Store;
  Error = Failure;
  RestClient = Unit {0};
  error_text = text_of;
  new_error = said;
  wrap = λ e m. e;
  is_not_found = is_missing;
  is_conflict = λ e. false;
  get = λ name namespace w. (read w, w);
  update = λ c w. (none, record w { stored = some c });
  retry_on_conflict = λ f w. f w;
  eventf = λ c type reason action note w. w;
  now = λ w. (w.clock, record w { clock = suc w.clock });
  set_status_condition = set_condition;
  list_nodes = λ w. (ok (codes "node-1" ∷ []), w);
  rest_client_for = λ config. ok tt;
  raw = λ client url w. (ok (if w.domain then codes "with" else codes "without"), w);
  unmarshal = λ text.
      ok (member (codes "kubeletconfig") (object (kubelet (text_eq text (codes "with")))) end);
}

pub fake-Documented : Documented fake
fake-Documented = record {
  error_text-new_error = λ m. refl;
  retried = λ f w. last refl;
  set_self = λ cs c. (
    c,
    set_condition_self cs c,
    record { type = refl; status = refl; message = refl; reason = refl },
  );
  set_other = set_condition_other;
}

abbrev pub rest_config : RestConfig
rest_config = record { group_version = none; negotiated_serializer = none }

-- The cluster with one class, with and without a cluster domain.
abbrev pub cluster_with : DnsClass → Store
cluster_with c = record { stored = some c; clock = 0; domain = true }

abbrev pub cluster_without : DnsClass → Store
cluster_without c = record { stored = some c; clock = 0; domain = false }
