-- ===== src/Pods/Configure.antt =====
-- `configureDNSForPod`: what a pod is given, and on which inputs the code fails.
use kubedns_shepherd.Base.{
  Bool, if◌then◌else◌, true, false, ◌&&◌, Option-cases, List, [], Option, none, some, Text, codes,
  text_eq, text_eq_iff, items, Slice, ok, Result-cases, Run, done, panic, lookup,
  lookup-assign_self, lookup-assign_ne, ◌≡◌, ◌≢◌, ◌↔◌, ◌⊎◌, refl, arith, ap, inl, inr, Bool-cases,
  ◌∙◌, subst,
}
use kubedns_shepherd.Api.{DnsClass, PodDnsConfig, DiscoveredFields, dns_none}
use kubedns_shepherd.Templates.{TemplateEngine}
use kubedns_shepherd.Pods.{
  Pod, annotations_or_new, config_or_new, or_else, is_nil, dns_class_name, parameter_map,
  set_policy, render_searches, set_config, configure_none, configure_dns_for_pod,
}
use kubedns_shepherd.Pods.Searches.{Rendered, Unrendered, render_searches-ok, render_searches-err}

-- The pod carries the policy and the name of the class; its other annotations, its namespace and
-- the fields that the code does not know are those of `pod`.
pub record Applied (pod : Pod) (c : DnsClass) (p : Pod) : Type 0 where
  pub policy : p.dns_policy ≡ c.spec.dns_policy
  pub named : lookup dns_class_name (annotations_or_new p.annotations) ≡ some c.name
  pub kept :
      (key : Text)
      → dns_class_name ≢ key
      → lookup key (annotations_or_new p.annotations)
        ≡ lookup key (annotations_or_new pod.annotations)
  pub namespace : p.namespace ≡ pod.namespace
  pub other : p.other ≡ pod.other

pub set_policy-Applied :
    (pod : Pod) (config : Option PodDnsConfig) (c : DnsClass)
    → Applied pod c (set_policy (record pod { dns_config = config }) c)
unfolding set_policy
set_policy-Applied pod config c = record {
  policy = refl;
  named = lookup-assign_self dns_class_name c.name (annotations_or_new pod.annotations);
  kept = λ key h. lookup-assign_ne dns_class_name key c.name (annotations_or_new pod.annotations) h;
  namespace = refl;
  other = refl;
}

pub or_else-none : (xs ys : Slice Text) → or_else xs ys ≡ none → (is_nil xs && is_nil ys) ≡ true
or_else-none none ys h = rw h
or_else-none (some xs) ys h = cc

pub or_else-some :
    (xs ys : Slice Text) {zs : List Text}
    → or_else xs ys ≡ some zs
    → (is_nil xs && is_nil ys) ≡ false
or_else-some none ys h = rw h
or_else-some (some xs) ys h = refl

module _ (engine : TemplateEngine) where
  -- The resolver configuration that the pod is given for the policy `None`: the searches of the
  -- class with their fields filled in, its options, and its nameservers or else the discovered
  -- ones.
  pub record Configured (pod : Pod) (c : DnsClass) (p : Pod) : Type 0 where
    pub discovered : DiscoveredFields
    pub is_discovered : c.status.discovered_fields ≡ some discovered
    pub outputs : List Text
    pub rendered :
        Rendered engine
          (parameter_map pod.namespace discovered.cluster_domain)
          (items (config_or_new c.spec.dns_config).searches)
          outputs
    pub nameservers : Slice Text
    pub chosen :
        nameservers ≡ or_else (config_or_new c.spec.dns_config).nameservers discovered.nameservers
    pub not_nil : nameservers ≢ none
    pub config :
        p.dns_config
        ≡ some (record {
          nameservers = nameservers;
          searches = some outputs;
          options = (config_or_new c.spec.dns_config).options;
        })

  -- The outcome of `configureDNSForPod`, for each result.
  abbrev pub Outcome : Pod → DnsClass → Run (Pod × Option Text) → Type 0
  Outcome pod c panic = (c.spec.dns_policy ≡ dns_none) × (c.status.discovered_fields ≡ none)
  Outcome pod c (done (p, none)) =
      Applied pod c p
      × (c.spec.dns_policy ≡ dns_none → Configured pod c p)
      × (c.spec.dns_policy ≢ dns_none → p.dns_config ≡ pod.dns_config)
  Outcome pod c (done (p, some e)) =
      (c.spec.dns_policy ≡ dns_none)
      × (d : DiscoveredFields) × (c.status.discovered_fields ≡ some d)
      × (((p ≡ pod)
            × Unrendered engine (parameter_map pod.namespace d.cluster_domain)
                (items (config_or_new c.spec.dns_config).searches))
          ⊎ ((e ≡ codes "no nameservers found")
              × (or_else (config_or_new c.spec.dns_config).nameservers d.nameservers ≡ none)))

  set_config-Outcome :
      (pod : Pod) (c : DnsClass) (d : DiscoveredFields) (outs : List Text)
      → c.spec.dns_policy ≡ dns_none
      → c.status.discovered_fields ≡ some d
      → Rendered engine
          (parameter_map pod.namespace d.cluster_domain)
          (items (config_or_new c.spec.dns_config).searches)
          outs
      → Outcome pod c (done (set_config engine outs (config_or_new c.spec.dns_config) d pod c))
  unfolding set_config
  set_config-Outcome pod c d outs policy found rendered =
      let config = config_or_new c.spec.dns_config in
      elim (Option-cases (or_else config.nameservers d.nameservers)) [
        | inl e ↦
            rw (or_else-none config.nameservers d.nameservers e) (policy, d, found, inr (refl, e))
        | inr (ns, e) ↦ rw (or_else-some config.nameservers d.nameservers e) (
          set_policy-Applied pod _ c,
          λ _. record {
            discovered = d;
            is_discovered = found;
            outputs = outs;
            rendered = rendered;
            nameservers = or_else config.nameservers d.nameservers;
            chosen = refl;
            not_nil = λ n. cc;
            config = unfold set_policy in refl;
          },
          λ other. absurd (other policy),
        )
      ]

  configure_none-Outcome :
      (pod : Pod) (c : DnsClass)
      → c.spec.dns_policy ≡ dns_none
      → (o : Option DiscoveredFields) → c.status.discovered_fields ≡ o
      → Outcome pod c (configure_none engine o pod c)
  unfolding configure_none
  configure_none-Outcome pod c policy none e = (policy, e)
  configure_none-Outcome pod c policy (some d) e =
      let searches = items (config_or_new c.spec.dns_config).searches in
      let params = parameter_map pod.namespace d.cluster_domain in
      elim (Result-cases (render_searches engine params [] searches)) [
        | inr (why, q) ↦
            rw (q, configure_none)
              (policy, d, e, inl (refl, render_searches-err engine params [] searches q))
        | inl (outs, q) ↦
            let (outputs, same, rendered) = render_searches-ok engine params [] searches q in
            rw (q, configure_none) (set_config-Outcome pod c d outs policy e (rw same rendered))
      ]

  -- The result of `configureDNSForPod`. Without an error the pod carries the policy and the name of
  -- the class and is else unchanged, but for the policy `None`, where it has the class's resolver
  -- configuration with every search rendered, and the class's nameservers or else the discovered
  -- ones. An error comes only with the policy `None`: a search cannot be rendered, and the pod is
  -- unchanged, or there are no nameservers. It panics only with the policy `None` and no
  -- discovered fields.
  pub configure_dns_for_pod-Outcome :
      (pod : Pod) (c : DnsClass) → Outcome pod c (configure_dns_for_pod engine pod c)
  unfolding configure_dns_for_pod
  configure_dns_for_pod-Outcome pod c = elim (Bool-cases (text_eq c.spec.dns_policy dns_none)) [
    | inl e ↦
        rw e (configure_none-Outcome pod c ((text_eq_iff _ _).0 e) c.status.discovered_fields refl)
    | inr e ↦ rw e (
      set_policy-Applied pod pod.dns_config c,
      λ p. absurd (ground (arith, text_eq_iff c.spec.dns_policy dns_none)),
      λ _. unfold set_policy in refl,
    )
  ]

  -- `configureDNSForPod` panics exactly if the policy of the class is `None` and its status has no
  -- discovered fields, whatever the pod is: it then reads `ClusterDomain` through a nil pointer.
  pub configure_dns_for_pod-panic_iff :
      (pod : Pod) (c : DnsClass)
      → (configure_dns_for_pod engine pod c ≡ panic)
        ↔ ((c.spec.dns_policy ≡ dns_none) × (c.status.discovered_fields ≡ none))
  unfolding configure_dns_for_pod text_eq
  configure_dns_for_pod-panic_iff pod c =
      (λ h. subst (Outcome pod c) h (configure_dns_for_pod-Outcome pod c), λ h. rw (h.0, h.1) refl)

  -- The code's path without an error, for the policy `None`.
  pub configure_dns_for_pod_rendered :
      (pod : Pod) (c : DnsClass) {d : DiscoveredFields} {outs nameservers : List Text}
      → c.spec.dns_policy ≡ dns_none
      → c.status.discovered_fields ≡ some d
      → render_searches engine
          (parameter_map pod.namespace d.cluster_domain)
          []
          (items (config_or_new c.spec.dns_config).searches)
        ≡ ok outs
      → or_else (config_or_new c.spec.dns_config).nameservers d.nameservers ≡ some nameservers
      → configure_dns_for_pod engine pod c
        ≡ done (
          set_policy
              (record pod {
                dns_config = some (record {
                  nameservers = some nameservers;
                  searches = some outs;
                  options = (config_or_new c.spec.dns_config).options;
                });
              })
              c,
          none,
        )
  unfolding configure_dns_for_pod configure_none set_config
  configure_dns_for_pod_rendered pod c {d} {outs} policy found rendered chosen =
      ap
        (λ (b : Bool).
          if b
          then configure_none engine c.status.discovered_fields pod c
          else done (set_policy pod c, none))
        ((text_eq_iff c.spec.dns_policy dns_none).1 policy)
      ∙ ap (λ o. configure_none engine o pod c) found
      ∙ rw (rendered, configure_none)
          (rw (or_else-some (config_or_new c.spec.dns_config).nameservers d.nameservers chosen)
            (rw chosen refl))
