-- ===== src/Webhook/Validate.antt =====
-- The validator against a description of the specs that it accepts.
use kubedns_shepherd.Base.{
  List, [], ◌∷◌, ◌++◌, none, Text, text_eq_iff, contains_iff, items, In, All, All-of_In, In-All,
  ◌≡◌, ◌≢◌, ◌↔◌, refl, arith,
}
use kubedns_shepherd.Api.{DnsPolicy, dns_none, DnsClassSpec, DnsClass}
use kubedns_shepherd.Api.Keys.{extract_keys, extract_template_keys_regex}
use kubedns_shepherd.Api.Keys.Extract.{OccursIn, searches_of, extract_keys_lem}
use kubedns_shepherd.Webhook.{
  valid_dns_policies, valid_template_keys, FieldError, check_policies, check_policy, check_config,
  check_keys, all_errors, report, validate,
}

-- A valid spec: the policies are Kubernetes' own, a `dnsConfig` goes only with the policy `None`,
-- and the placeholders in the searches name known keys.
pub record IsValid (spec : DnsClassSpec) : Type 0 where
  pub allowed : All (λ p. In p valid_dns_policies) (items spec.allowed_dns_policies)
  pub policy : In spec.dns_policy valid_dns_policies
  pub config : spec.dns_policy ≢ dns_none → spec.dns_config ≡ none
  pub keys : (k : Text) → OccursIn k (searches_of spec.dns_config) → In k valid_template_keys

append-eq-nil : {A : Type 0} (xs ys : List A) → (xs ++ ys ≡ []) ↔ ((xs ≡ []) × (ys ≡ []))
append-eq-nil [] ys = (λ h. (refl, h), λ h. h.1)
append-eq-nil (x ∷ xs) ys = (λ h. cc, λ h. cc)

check_policies-nil :
    (c : DnsClass) (ps : List DnsPolicy)
    → (check_policies c ps ≡ []) ↔ All (λ p. In p valid_dns_policies) ps
unfolding check_policies
check_policies-nil c [] = (λ h. tt, λ h. refl)
check_policies-nil c (p ∷ ps) = (
  λ h. ground (arith, check_policies-nil c ps, contains_iff valid_dns_policies p),
  λ h. ground (arith, check_policies-nil c ps, contains_iff valid_dns_policies p),
)

check_keys-nil :
    (c : DnsClass) (ks : List Text)
    → (check_keys c ks ≡ []) ↔ All (λ k. In k valid_template_keys) ks
unfolding check_keys
check_keys-nil c [] = (λ h. tt, λ h. refl)
check_keys-nil c (k ∷ ks) = (
  λ h. ground (arith, check_keys-nil c ks, contains_iff valid_template_keys k),
  λ h. ground (arith, check_keys-nil c ks, contains_iff valid_template_keys k),
)

check_policy-nil : (c : DnsClass) → (check_policy c ≡ []) ↔ In c.spec.dns_policy valid_dns_policies
unfolding check_policy
check_policy-nil c = (
  λ h. ground (arith, contains_iff valid_dns_policies c.spec.dns_policy),
  λ h. ground (arith, contains_iff valid_dns_policies c.spec.dns_policy),
)

check_config-nil :
    (c : DnsClass)
    → (check_config c ≡ []) ↔ (c.spec.dns_policy ≢ dns_none → c.spec.dns_config ≡ none)
unfolding check_config
check_config-nil c = ground (arith, text_eq_iff c.spec.dns_policy dns_none)

keys-nil :
    (c : DnsClass)
    → (check_keys c (extract_template_keys_regex c) ≡ [])
      ↔ ((k : Text) → OccursIn k (searches_of c.spec.dns_config) → In k valid_template_keys)
unfolding extract_template_keys_regex
keys-nil c =
    let (to, from) = check_keys-nil c (extract_keys c.spec.dns_config) in
    (
      λ h k o.
          In-All _ (extract_keys c.spec.dns_config) k (to h)
            ((extract_keys_lem k c.spec.dns_config).0.1 o),
      λ h. from (
          All-of_In _ (extract_keys c.spec.dns_config)
            (λ k i. h k ((extract_keys_lem k c.spec.dns_config).0.0 i))),
    )

report-none : (c : DnsClass) (es : List FieldError) → (report c es ≡ none) ↔ (es ≡ [])
unfolding report
report-none c [] = (λ h. refl, λ h. refl)
report-none c (e ∷ es) = (λ h. cc, λ h. cc)

-- The validator accepts a DNSClass exactly if its spec is valid: each allowed policy and the
-- policy itself is one of the four of Kubernetes, a `dnsConfig` is set only with the policy `None`,
-- and every placeholder that occurs in a search names `podNamespace` or `clusterDomain`.
pub validate-none_iff : (c : DnsClass) → (validate c ≡ none) ↔ IsValid c.spec
unfolding validate all_errors
validate-none_iff c = (
  λ h.
      let (ps, h1) = (append-eq-nil _ _).0 ((report-none c _).0 h) in
      let (p, h2) = (append-eq-nil _ _).0 h1 in
      let (d, k) = (append-eq-nil _ _).0 h2 in
      record {
        allowed = (check_policies-nil c _).0 ps;
        policy = (check_policy-nil c).0 p;
        config = (check_config-nil c).0 d;
        keys = (keys-nil c).0 k;
      },
  λ v. (report-none c _).1 (
      (append-eq-nil _ _).1 (
        (check_policies-nil c _).1 v.allowed,
        (append-eq-nil _ _).1 (
          (check_policy-nil c).1 v.policy,
          (append-eq-nil _ _).1 ((check_config-nil c).1 v.config, (keys-nil c).1 v.keys),
        ),
      )),
)
