-- ===== src/Pods.antt =====
-- internal/webhook/pods/pods_webhook.go: the mutating webhook of pods. What it calls outside of the
-- repository (the client, the decoder, `json.Marshal`, the patch) enters as parameters, and so does
-- the template engine. The log lines are left out, with the owner references that only they read.
pub mod Select
pub mod Searches
pub mod Configure
pub mod Rendering
pub mod Handle
use kubedns_shepherd.Base.{
  ℕ, Bool, true, false, not, ◌&&◌, ◌||◌, List, [], ◌∷◌, ◌++◌, Option, none, some, Text, codes,
  text_eq, contains, items, Slice, Result, ok, err, Run, done, panic, lookup, assign, if◌then◌else◌,
}
use kubedns_shepherd.Api.{
  DnsPolicy, dns_none, state_ready, PodDnsConfig, DnsClass, DiscoveredFields,
}
use kubedns_shepherd.Templates.{Params, TemplateEngine}

abbrev pub dns_class_name : Text
dns_class_name = codes "kubedns-shepherd.io/dns-class-name"

abbrev pub err_pod_decode : Text
err_pod_decode = codes "failed to decode pod object"

abbrev pub err_no_dns_class : Text
err_no_dns_class = codes "no matching DNSClass found"

abbrev pub err_not_available_dns_class : Text
err_not_available_dns_class = codes "DNSClass not currently available"

abbrev pub err_dns_config : Text
err_dns_config = codes "DNSClass config failed to apply"

abbrev pub err_marshal : Text
err_marshal = codes "json marshal failed"

-- `corev1.Pod`, with the fields that the code reads or writes; `other` holds all else.
pub record Pod : Type 0 where
  pub namespace : Text
  pub annotations : Option (List (Text × Text))
  pub dns_policy : DnsPolicy
  pub dns_config : Option PodDnsConfig
  pub other : Text

abbrev pub annotations_or_new : Option (List (Text × Text)) → List (Text × Text)
annotations_or_new none = []
annotations_or_new (some annotations) = annotations

-- `updateAnnotation`
unfoldable pub update_annotation : Pod → Text → Text → Pod
update_annotation obj key value = record obj {
  annotations = some (assign key value (annotations_or_new obj.annotations));
}

abbrev is_empty : List Text → Bool
is_empty [] = true
is_empty (x ∷ xs) = false

-- The loop of `getDNSClass` over the listed classes.
unfoldable pub select_class : List DnsClass → Pod → Result Text DnsClass
select_class [] pod = err err_no_dns_class
select_class (item ∷ rest) pod =
    let next = select_class rest pod in
    if contains (items item.spec.disabled_namespaces) pod.namespace
    then next
    else if not (contains (items item.spec.allowed_dns_policies) pod.dns_policy)
    then next
    else if is_empty (items item.spec.allowed_namespaces)
        || contains (items item.spec.allowed_namespaces) pod.namespace
    then ok item
    else next

-- `getDNSClass`; the reply is that of `p.List`.
unfoldable pub get_dns_class : Result Text (List DnsClass) → Pod → Result Text DnsClass
unfolding select_class contains
get_dns_class (err e) pod = err e
get_dns_class (ok classes) pod = select_class classes pod

abbrev put_unless_empty : Text → Text → Params → Params
put_unless_empty key value params =
    if not (text_eq value (codes "")) then assign key value params else params

-- `parameterMap`
unfoldable pub parameter_map : Text → Text → Params
parameter_map namespace cluster_domain =
    put_unless_empty (codes "clusterDomain") cluster_domain
      (put_unless_empty (codes "podNamespace") namespace [])

abbrev pub empty_config : PodDnsConfig
empty_config = record { nameservers = none; searches = none; options = none }

abbrev pub config_or_new : Option PodDnsConfig → PodDnsConfig
config_or_new none = empty_config
config_or_new (some config) = config

abbrev pub is_nil : Slice Text → Bool
is_nil none = true
is_nil (some xs) = false

abbrev pub or_else : Slice Text → Slice Text → Slice Text
or_else none ys = ys
or_else (some xs) ys = some xs

-- The end of `configureDNSForPod`, on every path without an error.
unfoldable pub set_policy : Pod → DnsClass → Pod
unfolding update_annotation
set_policy pod dns_class =
    update_annotation (record pod { dns_policy = dns_class.spec.dns_policy }) dns_class_name
      dns_class.name

module _ (engine : TemplateEngine) where
  open engine use {parse, execute}

  -- The body of the loop over the searches.
  unfoldable pub render_search : Params → Text → Result Text Text
  render_search params search = elim (parse search) [
    | err e ↦ err (codes "failed to parse search template: " ++ e)
    | ok template ↦ elim (execute template params) [
      | err e ↦
          err
            (codes "failed to execute DNS template for search '" ++ (search ++ (codes "': " ++ e)))
      | ok output ↦ ok output
    ]
  ]

  -- The loop; `searches` holds what has been rendered.
  unfoldable pub render_searches : Params → List Text → List Text → Result Text (List Text)
  render_searches params searches [] = ok searches
  render_searches params searches (search ∷ rest) = elim (render_search params search) [
    | err e ↦ err e
    | ok output ↦ render_searches params (searches ++ (output ∷ [])) rest
  ]

  -- From `dnsClass.Spec.DNSConfig.Searches = searches` on: the pod holds the config of the class,
  -- by the same pointer, also where the missing nameservers are an error.
  unfoldable pub set_config :
      List Text → PodDnsConfig → DiscoveredFields → Pod → DnsClass → Pod × Option Text
  unfolding set_policy
  set_config searches config discovered pod dns_class =
      let configured = record config { searches = some searches } in
      let pod' = record pod { dns_config = some configured } in
      if is_nil configured.nameservers && is_nil discovered.nameservers
      then (pod', some (codes "no nameservers found"))
      else (
        set_policy
            (record pod {
              dns_config = some (record configured {
                nameservers = or_else configured.nameservers discovered.nameservers;
              });
            })
            dns_class,
        none,
      )

  -- The branch for the policy `None`. The code reads `DiscoveredFields.ClusterDomain` through a
  -- pointer that it has not compared with nil.
  unfoldable pub configure_none : Option DiscoveredFields → Pod → DnsClass → Run (Pod × Option Text)
  unfolding render_searches render_search set_config parameter_map
  configure_none none pod dns_class = panic
  configure_none (some discovered) pod dns_class =
      let config = config_or_new dns_class.spec.dns_config in
      elim (render_searches (parameter_map pod.namespace discovered.cluster_domain) []
        (items config.searches)) [
          | err e ↦ done (pod, some e)
          | ok searches ↦ done (set_config searches config discovered pod dns_class)
        ]

  -- `configureDNSForPod`: the pod as it is left, and the error.
  unfoldable pub configure_dns_for_pod : Pod → DnsClass → Run (Pod × Option Text)
  unfolding configure_none set_policy
  configure_dns_for_pod pod dns_class =
      if text_eq dns_class.spec.dns_policy dns_none
      then configure_none dns_class.status.discovered_fields pod dns_class
      else done (set_policy pod dns_class, none)

-- `admission.Response`: `Allowed` with a message, or the value of `PatchResponseFromRaw`.
pub data Response (Patch : Type 0) : Type 0 where
  allowed : Text → Response Patch
  patched : Patch → Response Patch

-- What the handler calls: `p.Decode`, `p.List`, `json.Marshal` and `PatchResponseFromRaw`.
pub record PodMutator : Type 1 where
  pub Request : Type 0
  pub Patch : Type 0
  pub raw : Request → Text
  pub decode : Request → Result Text Pod
  pub list : Result Text (List DnsClass)
  pub marshal : Pod → Result Text Text
  pub patch_response_from_raw : Text → Text → Patch

module _ (engine : TemplateEngine) (p : PodMutator) where
  open p use {Request, Patch, raw, decode, list, marshal, patch_response_from_raw}

  unfoldable pub respond : Request → DnsClass → Run (Pod × Option Text) → Run (Response Patch)
  respond req dnsclass panic = panic
  respond req dnsclass (done (pod, some e)) =
      done (allowed (dnsclass.name ++ (codes " " ++ err_dns_config)))
  respond req dnsclass (done (pod, none)) = elim (marshal pod) [
    | err e ↦ done (allowed err_marshal)
    | ok marshaled_pod ↦ done (patched (patch_response_from_raw (raw req) marshaled_pod))
  ]

  -- `PodMutator.Handle`
  unfoldable pub handle : Request → Run (Response Patch)
  unfolding respond configure_dns_for_pod get_dns_class
  handle req = elim (decode req) [
    | err e ↦ done (allowed err_pod_decode)
    | ok pod ↦ elim (get_dns_class list pod) [
      | err e ↦ done (allowed e)
      | ok dnsclass ↦
          if not (text_eq dnsclass.status.state state_ready)
          then done (allowed (dnsclass.name ++ (codes " " ++ err_not_available_dns_class)))
          else respond req dnsclass (configure_dns_for_pod engine pod dnsclass)
    ]
  ]
