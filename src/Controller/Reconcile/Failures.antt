-- ===== src/Controller/Reconcile/Failures.antt =====
-- When a reconciliation fails: a placeholder of the class names a field that was not discovered.
use kubedns_shepherd.Base.{
  Bool, true, List, [], ◌∷◌, Option, none, Text, codes, text_eq, text_eq_iff, Result, ok, In, ◌≡◌,
  ◌≢◌, ◌↔◌, ◌⊎◌, refl, sym, ap, ◌∙◌, arith, inl, inr, Bool-cases, subst,
}
use kubedns_shepherd.Api.{DnsClass, DiscoveredFields, dns_none}
use kubedns_shepherd.Api.Keys.{extract_template_keys_regex}
use kubedns_shepherd.Api.Keys.Extract.{OccursIn, searches_of, extract_keys_lem}
use kubedns_shepherd.Webhook.{valid_template_keys}
use kubedns_shepherd.Webhook.Validate.{IsValid}
use kubedns_shepherd.Controller.Cluster.{Cluster, RestConfig}
use kubedns_shepherd.Controller.Discovery.{
  Extracted, Discovery, discover, discover_fields, extract_field, is_undiscovered,
}
use kubedns_shepherd.Controller.Discovery.Fields.{Failed, discover_lem}
use kubedns_shepherd.Controller.Reconcile.{
  any_undiscovered, finish, check_discovery, reconcile_class, with_initial_state, started, deferred,
  reconcile_found, reconcile, fields_or_new,
}

pub record Undiscovered (undiscovered : Option (List (Text × Bool))) (keys : List Text)
    : Type 0 where
  pub key : Text
  pub listed : In key keys
  pub missing : is_undiscovered undiscovered key ≡ true

any_undiscovered_sound :
    (u : Option (List (Text × Bool))) (keys : List Text)
    → any_undiscovered u keys ≡ true
    → Undiscovered u keys
unfolding any_undiscovered
any_undiscovered_sound u [] h = cc
any_undiscovered_sound u (k ∷ keys) h = elim (Bool-cases (is_undiscovered u k)) [
  | inl e ↦ record { key = k; listed = inl refl; missing = e }
  | inr e ↦
      let r = any_undiscovered_sound u keys (rw e at h) in
      record { key = r.key; listed = inr r.listed; missing = r.missing }
]

any_undiscovered_complete :
    (u : Option (List (Text × Bool))) (keys : List Text) (key : Text)
    → In key keys
    → is_undiscovered u key ≡ true
    → any_undiscovered u keys ≡ true
unfolding any_undiscovered
any_undiscovered_complete u [] key i m = absurd i
any_undiscovered_complete u (k ∷ keys) key (inl e) m = rw (ap (is_undiscovered u) (sym e) ∙ m)
any_undiscovered_complete u (k ∷ keys) key (inr i) m = elim (Bool-cases (is_undiscovered u k)) [
  | inl e ↦ rw e
  | inr e ↦ rw e (any_undiscovered_complete u keys key i m)
]

-- A placeholder names a field whose extraction failed.
pub record Missing (c : DnsClass) (domain nameservers : Result Text Extracted) : Type 0 where
  pub key : Text
  pub occurs : OccursIn key (searches_of c.spec.dns_config)
  pub fails :
      ((key ≡ codes "clusterDomain") × Failed domain)
      ⊎ ((key ≡ codes "nameservers") × Failed nameservers)

any_undiscovered-Missing :
    (c : DnsClass) (domain nameservers : Result Text Extracted) (d : DiscoveredFields)
    → (any_undiscovered (discover domain nameservers d).undiscovered (extract_template_keys_regex c)
        ≡ true)
      ↔ Missing c domain nameservers
unfolding extract_template_keys_regex
any_undiscovered-Missing c domain nameservers d = (
  λ h.
      let u = any_undiscovered_sound _ _ h in
      record {
        key = u.key;
        occurs = (extract_keys_lem u.key c.spec.dns_config).0.0 u.listed;
        fails = ((discover_lem domain nameservers d).2 u.key).0 u.missing;
      },
  λ m.
      any_undiscovered_complete _ _ m.key ((extract_keys_lem m.key c.spec.dns_config).0.1 m.occurs)
        (((discover_lem domain nameservers d).2 m.key).1 m.fails),
)

-- `nameservers` is no key that a valid class may use.
no_nameservers : (key : Text) → key ≡ codes "nameservers" → ¬ In key valid_template_keys
no_nameservers key e (inl a) = cc
no_nameservers key e (inr (inl a)) = cc
no_nameservers key e (inr (inr v)) = v

module _ (cluster : Cluster) (config : RestConfig) where
  open cluster use {World, Error, get}

  -- The two extractions of a reconciliation, one after the other.
  abbrev pub domain_reply : World → Result Text Extracted × World
  domain_reply = extract_field cluster config (codes "clusterDomain") (codes "string")

  abbrev pub nameservers_reply : World → Result Text Extracted × World
  nameservers_reply w =
      extract_field cluster config (codes "clusterDNS") (codes "[]string") (domain_reply w).1

  check_discovery-err :
      (d : Discovery) (c : DnsClass) (w : World)
      → ((check_discovery cluster config d c w).0.error ≢ none)
        ↔ (any_undiscovered d.undiscovered (extract_template_keys_regex c) ≡ true)
  unfolding check_discovery finish
  check_discovery-err d c w =
      elim (Bool-cases (any_undiscovered d.undiscovered (extract_template_keys_regex c))) [
        | inl e ↦ rw e (λ h. refl, λ h n. cc)
        | inr e ↦ rw e (λ h. absurd (h refl), λ h. cc)
      ]

  pub reconcile_class-err :
      (c : DnsClass) (w : World)
      → ((reconcile_class cluster config c w).0.error ≢ none)
        ↔ ((c.spec.dns_policy ≡ dns_none) × Missing c (domain_reply w).0 (nameservers_reply w).0)
  unfolding reconcile_class discover_fields
  reconcile_class-err c w = elim (Bool-cases (text_eq c.spec.dns_policy dns_none)) [
    | inl e ↦
        let old = fields_or_new c.status.discovered_fields in
        let (to, from) =
          check_discovery-err (discover (domain_reply w).0 (nameservers_reply w).0 old) c
            (nameservers_reply w).1 in
        let (into, back) =
          any_undiscovered-Missing c (domain_reply w).0 (nameservers_reply w).0 old in
        rw e (λ h. ((text_eq_iff _ _).0 e, into (to h)), λ m. from (back m.1))
    | inr e ↦ rw e (
        unfold finish in
        (
          λ h. absurd (h refl),
          λ m. absurd (ground (arith, text_eq_iff c.spec.dns_policy dns_none)),
        ))
  ]

  -- A reconciliation of a class that is read returns an error exactly if the policy is `None` and
  -- one of its placeholders names a field that could not be extracted: `clusterDomain` and the
  -- cluster domain, or `nameservers` and the nameservers.
  pub reconcile-err_iff :
      (name namespace : Text) (w w₁ : World) (c : DnsClass)
      → get name namespace w ≡ (ok c, w₁)
      → ((reconcile cluster config name namespace w).0 ≢ none) ↔ (
          (c.spec.dns_policy ≡ dns_none)
          × Missing c
              (domain_reply (started cluster config c w₁)).0
              (nameservers_reply (started cluster config c w₁)).0)
  unfolding reconcile reconcile_found deferred
  reconcile-err_iff name namespace w w₁ c read =
      let start = with_initial_state cluster config c in
      let (to, from) = reconcile_class-err start (started cluster config c w₁) in
      rw (read, reconcile_found)
        (
          λ h. let (p, m) = to h in (p, record { key = m.key; occurs = m.occurs; fails = m.fails }),
          λ h. from (h.0, record { key = h.1.key; occurs = h.1.occurs; fails = h.1.fails }),
        )

  -- A reconciliation of a valid class returns an error exactly if the policy is `None`, a placeholder
  -- names `clusterDomain`, and the cluster domain could not be extracted: nameservers that cannot be
  -- extracted are no error.
  pub reconcile-err_of_IsValid_iff :
      (name namespace : Text) (w w₁ : World) (c : DnsClass)
      → get name namespace w ≡ (ok c, w₁)
      → IsValid c.spec
      → ((reconcile cluster config name namespace w).0 ≢ none) ↔ (
          (c.spec.dns_policy ≡ dns_none)
          × OccursIn (codes "clusterDomain") (searches_of c.spec.dns_config)
          × Failed (domain_reply (started cluster config c w₁)).0)
  reconcile-err_of_IsValid_iff name namespace w w₁ c read v =
      let (to, from) = reconcile-err_iff name namespace w w₁ c read in
      (
        λ h.
            let (p, m) = to h in
            elim m.fails [
              | inl domain ↦ (
                p,
                subst (λ k. OccursIn k (searches_of c.spec.dns_config)) domain.0 m.occurs,
                domain.1,
              )
              | inr servers ↦ absurd (no_nameservers m.key servers.0 (v.keys m.key m.occurs))
            ],
        λ h.
            from
              (h.0, record { key = codes "clusterDomain"; occurs = h.1; fails = inl (refl, h.2) }),
      )
