-- ===== src/Memory/Configure.antt =====
-- `configureDNSForPod` of internal/webhook/pods/pods_webhook.go on memory: the class is passed by
-- value, but the config of its spec is written through the pointer, and the pod is given that
-- pointer.
use kubedns_shepherd.Base.{
  ℕ, Bool, true, false, ◌&&◌, List, [], Option, none, some, Text, codes, text_eq, length, Result,
  ok, err, Run, done, panic, assign, if◌then◌else◌,
}
use kubedns_shepherd.Api.{DnsPolicy, dns_none}
use kubedns_shepherd.Templates.{TemplateEngine}
use kubedns_shepherd.Pods.{annotations_or_new, dns_class_name, parameter_map, render_searches}
use kubedns_shepherd.Memory.{
  Pointer, Memory, ConfigValue, FieldsValue, ClassValue, allocate, load, deref, store,
}
use kubedns_shepherd.Memory.Kinds.{texts, config, fields}

-- `corev1.Pod`; the pod's own map of annotations is held by value.
pub record PodValue : Type 0 where
  pub namespace : Text
  pub annotations : Option (List (Text × Text))
  pub dns_policy : DnsPolicy
  pub dns_config : Pointer
  pub other : Text

abbrev pub is_nil_pointer : Pointer → Bool
is_nil_pointer none = true
is_nil_pointer (some a) = false

-- The elements that `range` visits.
abbrev pub strings : Pointer → Memory → List Text
strings p m = elim (deref texts p m) [ none ↦ [] | some xs ↦ xs ]

abbrev pub empty_config : ConfigValue
empty_config = record { nameservers = none; searches = none; options = none }

-- `if dnsClass.Spec.DNSConfig == nil { dnsClass.Spec.DNSConfig = &corev1.PodDNSConfig{} }`: the
-- address that the spec then holds.
unfoldable pub config_address : Pointer → Memory → ℕ × Memory
config_address none m = (length m, (allocate config (empty_config, m)).1)
config_address (some a) m = (a, m)

-- The end, on every path without an error.
unfoldable pub set_policy_value : PodValue → ClassValue → PodValue
set_policy_value pod dns_class = record pod {
  dns_policy = dns_class.spec.dns_policy;
  annotations =
      some (assign dns_class_name dns_class.object_meta.name (annotations_or_new pod.annotations));
}

-- From `dnsClass.Spec.DNSConfig.Searches = searches` on.
unfoldable pub set_config_value :
    Pointer
    → ℕ
    → ConfigValue
    → FieldsValue
    → PodValue
    → ClassValue
    → Memory
    → (PodValue × Option Text) × Memory
unfolding set_policy_value store
set_config_value searches a held discovered pod dns_class m =
    let configured = record held { searches = searches } in
    let m1 = store config a configured m in
    let pod' = record pod { dns_config = some a } in
    if is_nil_pointer configured.nameservers && is_nil_pointer discovered.nameservers
    then ((pod', some (codes "no nameservers found")), m1)
    else (
      (set_policy_value pod' dns_class, none),
      if is_nil_pointer configured.nameservers
          then store config a (record configured { nameservers = discovered.nameservers }) m1
          else m1,
    )

module _ (engine : TemplateEngine) where
  -- Behind the loop over the searches.
  unfoldable pub with_searches :
      Result Text (List Text)
      → ℕ
      → ConfigValue
      → FieldsValue
      → PodValue
      → ClassValue
      → Memory
      → (PodValue × Option Text) × Memory
  unfolding allocate set_config_value
  with_searches (err e) a held discovered pod dns_class m = ((pod, some e), m)
  with_searches (ok searches) a held discovered pod dns_class m =
      let (p, m1) = allocate texts (searches, m) in
      set_config_value p a held discovered pod dns_class m1

  -- The branch for the policy `None`. A nil pointer panics where it is read.
  unfoldable pub configure_none_value :
      Option FieldsValue → PodValue → ClassValue → Memory → Run ((PodValue × Option Text) × Memory)
  unfolding config_address with_searches render_searches parameter_map
  configure_none_value none pod dns_class m = panic
  configure_none_value (some discovered) pod dns_class m =
      let (a, m1) = config_address dns_class.spec.dns_config m in
      elim (load config m1 a) [
        | none ↦ panic
        | some held ↦ done (
            with_searches
              (render_searches engine (parameter_map pod.namespace discovered.cluster_domain) []
                (strings held.searches m1))
              a held discovered pod dns_class m1)
      ]

  -- `configureDNSForPod`
  unfoldable pub configure_value :
      PodValue → ClassValue → Memory → Run ((PodValue × Option Text) × Memory)
  unfolding configure_none_value set_policy_value
  configure_value pod dns_class m =
      if text_eq dns_class.spec.dns_policy dns_none
      then configure_none_value (deref fields dns_class.status.discovered_fields m) pod dns_class m
      else done ((set_policy_value pod dns_class, none), m)
