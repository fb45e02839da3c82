-- ===== src/Webhook/Defaults.antt =====
-- The defaulter, alone and in front of the validator, as the API server calls them.
use kubedns_shepherd.Base.{
  List, Option, none, some, Text, codes, [], ◌∷◌, text_eq, text_eq_iff, text_eq_refl, items, In,
  All, ◌≡◌, ◌≢◌, ◌↔◌, ◌⊎◌, refl, arith, inl, inr, Bool-cases, if◌then◌else◌,
}
use kubedns_shepherd.Api.{DnsPolicy, dns_none, PodDnsConfig, DnsClassSpec, DnsClass}
use kubedns_shepherd.Api.Keys.Extract.{OccursIn, searches_of}
use kubedns_shepherd.Webhook.{
  valid_dns_policies, default_policies, valid_template_keys, default, validate,
}
use kubedns_shepherd.Webhook.Validate.{IsValid, validate-none_iff}

-- The policy behind the defaulter.
abbrev policy_or_none : DnsPolicy → DnsPolicy
policy_or_none p = if text_eq p (codes "") then dns_none else p

policy_or_none-eq : (p : DnsPolicy) → p ≢ codes "" → policy_or_none p ≡ p
policy_or_none-eq p h = ground (arith, text_eq_iff p (codes ""))

policy_or_none-ne : (p : DnsPolicy) → policy_or_none p ≢ codes ""
policy_or_none-ne p = ground (arith, text_eq_iff p (codes ""))

-- A spec that is accepted once the defaults are filled in: as a valid one, but the policies may be
-- unset, and a `dnsConfig` may stand beside an unset policy.
pub record IsAdmissible (spec : DnsClassSpec) : Type 0 where
  pub allowed : All (λ p. In p valid_dns_policies) (items spec.allowed_dns_policies)
  pub policy : (spec.dns_policy ≡ codes "") ⊎ In spec.dns_policy valid_dns_policies
  pub config : spec.dns_policy ≢ codes "" → spec.dns_policy ≢ dns_none → spec.dns_config ≡ none
  pub keys : (k : Text) → OccursIn k (searches_of spec.dns_config) → In k valid_template_keys

All-default_policies :
    (ps : Option (List DnsPolicy))
    → All (λ p. In p valid_dns_policies) (items (default_policies ps))
      ↔ All (λ p. In p valid_dns_policies) (items ps)
All-default_policies none =
    (λ h. tt, λ h. (inr (inl refl), (inr (inr (inl refl)), (inr (inr (inr (inl refl))), tt))))
All-default_policies (some ps) = (λ h. h, λ h. h)

In-policy_or_none :
    (p : DnsPolicy)
    → In (policy_or_none p) valid_dns_policies ↔ ((p ≡ codes "") ⊎ In p valid_dns_policies)
In-policy_or_none p = elim (Bool-cases (text_eq p (codes ""))) [
  | inl e ↦ rw e (λ h. inl ((text_eq_iff _ _).0 e), λ h. inr (inr (inr (inl refl))))
  | inr e ↦
      rw e (
        λ h. inr h,
        λ h. elim h [ inl empty ↦ ground (arith, text_eq_iff p (codes "")) | inr i ↦ i ],
      )
]

config_iff :
    (p : DnsPolicy) (config : Option PodDnsConfig)
    → (policy_or_none p ≢ dns_none → config ≡ none) ↔ (p ≢ codes "" → p ≢ dns_none → config ≡ none)
config_iff p config = ground (arith, text_eq_iff p (codes ""))

IsValid-default : (c : DnsClass) → IsValid (default c).spec ↔ IsAdmissible c.spec
unfolding default
IsValid-default c = (
  λ v. record {
    allowed = (All-default_policies c.spec.allowed_dns_policies).0 v.allowed;
    policy = (In-policy_or_none c.spec.dns_policy).0 v.policy;
    config = (config_iff c.spec.dns_policy c.spec.dns_config).0 v.config;
    keys = v.keys;
  },
  λ a. record {
    allowed = (All-default_policies c.spec.allowed_dns_policies).1 a.allowed;
    policy = (In-policy_or_none c.spec.dns_policy).1 a.policy;
    config = (config_iff c.spec.dns_policy c.spec.dns_config).1 a.config;
    keys = a.keys;
  },
)

-- Behind the defaulter the validator accepts a DNSClass exactly if its spec is valid up to the
-- unset fields: an unset list of policies and an unset policy are accepted, the latter with a
-- `dnsConfig` too.
pub validate-default-none_iff : (c : DnsClass) → (validate (default c) ≡ none) ↔ IsAdmissible c.spec
validate-default-none_iff c =
    let (to, from) = validate-none_iff (default c) in
    let (into, back) = IsValid-default c in (λ h. into (to h), λ a. from (back a))

default_policies_idem :
    (ps : Option (List DnsPolicy)) → default_policies (default_policies ps) ≡ default_policies ps
default_policies_idem none = refl
default_policies_idem (some ps) = refl

kept_policies : (ps : Option (List DnsPolicy)) → ps ≢ none → default_policies ps ≡ ps
kept_policies none h = absurd (h refl)
kept_policies (some ps) h = refl

-- The defaulter sets unset policies to `ClusterFirst`, `ClusterFirstWithHostNet` and `None`, and an
-- empty policy to `None`; it keeps policies that are set, also an empty list of them, and a policy
-- that is not empty; it changes no other field; and it changes nothing when it runs a second time.
pub default_lem :
    (c : DnsClass)
    → (c.spec.allowed_dns_policies ≡ none
        → (default c).spec.allowed_dns_policies
          ≡ some (codes "ClusterFirst" ∷ codes "ClusterFirstWithHostNet" ∷ codes "None" ∷ []))
      × (c.spec.dns_policy ≡ codes "" → (default c).spec.dns_policy ≡ codes "None")
      × (c.spec.allowed_dns_policies ≢ none
          → (default c).spec.allowed_dns_policies ≡ c.spec.allowed_dns_policies)
      × (c.spec.dns_policy ≢ codes "" → (default c).spec.dns_policy ≡ c.spec.dns_policy)
      × (default c ≡ record c {
        spec = record (c.spec) {
          allowed_dns_policies = (default c).spec.allowed_dns_policies;
          dns_policy = (default c).spec.dns_policy;
        };
      })
      × (default (default c) ≡ default c)
unfolding default
default_lem c = (
  λ h. rw h refl,
  λ h. rw (h, text_eq_refl (codes "")) refl,
  kept_policies c.spec.allowed_dns_policies,
  policy_or_none-eq c.spec.dns_policy,
  refl,
  cc (
    default_policies_idem c.spec.allowed_dns_policies,
    policy_or_none-eq (policy_or_none c.spec.dns_policy) (policy_or_none-ne c.spec.dns_policy),
  ),
)
