-- ===== src/Webhook.antt =====
-- internal/webhook/v1alpha1/dnsclass_webhook.go: the defaulter and the validator of DNSClass. The
-- log lines are left out, and so are the warnings, which are nil on every path.
pub mod Validate
pub mod Defaults
use kubedns_shepherd.Base.{
  Bool, not, ◌&&◌, List, [], ◌∷◌, ◌++◌, Option, none, some, Text, codes, text_eq, contains, join,
  items, if◌then◌else◌,
}
use kubedns_shepherd.Api.{
  DnsPolicy, dns_default, dns_cluster_first, dns_cluster_first_with_host_net, dns_none, GroupKind,
  DnsClass, DnsClassSpec,
}
use kubedns_shepherd.Api.Keys.{extract_template_keys_regex}

abbrev pub valid_dns_policies : List DnsPolicy
valid_dns_policies =
    dns_default ∷ dns_cluster_first ∷ dns_cluster_first_with_host_net ∷ dns_none ∷ []

abbrev pub default_dns_policies : List DnsPolicy
default_dns_policies = dns_cluster_first ∷ dns_cluster_first_with_host_net ∷ dns_none ∷ []

abbrev pub valid_template_keys : List Text
valid_template_keys = codes "podNamespace" ∷ codes "clusterDomain" ∷ []

abbrev default_policies : Option (List DnsPolicy) → Option (List DnsPolicy)
default_policies none = some default_dns_policies
default_policies (some policies) = some policies

-- `DNSClassCustomDefaulter.Default`, which returns nil.
unfoldable pub default : DnsClass → DnsClass
default dnsclass = record dnsclass {
  spec = record (dnsclass.spec) {
    allowed_dns_policies = default_policies dnsclass.spec.allowed_dns_policies;
    dns_policy =
        if text_eq dnsclass.spec.dns_policy (codes "") then dns_none else dnsclass.spec.dns_policy;
  };
}

-- `field.Invalid`: the path's elements, the value and the detail.
pub record FieldError : Type 0 where
  pub path : List Text
  pub value : Text
  pub detail : Text

-- `%v` of a slice of strings.
unfoldable pub show_list : List Text → Text
show_list xs = codes "[" ++ (join (codes " ") xs ++ codes "]")

abbrev policy_path : List Text
policy_path = codes "spec" ∷ codes "dnsPolicy" ∷ []

abbrev searches_path : List Text
searches_path = codes "spec" ∷ codes "dnsConfig" ∷ codes "searches" ∷ []

abbrev invalid : List Text → DnsClass → Text → FieldError
invalid path dnsclass detail = record { path = path; value = dnsclass.name; detail = detail }

abbrev allowed_detail : DnsPolicy → Text
allowed_detail policy =
    codes "invalid DNS policy: "
    ++ (policy ++ (codes ". Allowed policies: " ++ show_list valid_dns_policies))

abbrev policy_detail : DnsPolicy → Text
policy_detail policy =
    codes "invalid DNSPolicy: "
    ++ (policy ++ (codes ". Allowed policies: " ++ show_list valid_dns_policies))

abbrev config_detail : DnsPolicy → Text
config_detail policy = codes "DNSConfig cannot be set when DNSPolicy is " ++ policy

abbrev key_detail : Text → Text
key_detail key =
    codes "invalid template key: "
    ++ (key ++ (codes " in searches. Allowed keys: " ++ show_list valid_template_keys))

-- The loop over `AllowedDNSPolicies`.
unfoldable pub check_policies : DnsClass → List DnsPolicy → List FieldError
check_policies dnsclass [] = []
check_policies dnsclass (policy ∷ rest) =
    let more = check_policies dnsclass rest in
    if not (contains valid_dns_policies policy)
    then invalid policy_path dnsclass (allowed_detail policy) ∷ more
    else more

-- The loop over the template keys.
unfoldable pub check_keys : DnsClass → List Text → List FieldError
check_keys dnsclass [] = []
check_keys dnsclass (key ∷ rest) =
    let more = check_keys dnsclass rest in
    if not (contains valid_template_keys key)
    then invalid searches_path dnsclass (key_detail key) ∷ more
    else more

abbrev is_set {ℓ} : {A : Type ℓ} → Option A → Bool
is_set none = Bool.false
is_set (some a) = Bool.true

unfoldable pub check_policy : DnsClass → List FieldError
check_policy dnsclass =
    let policy = dnsclass.spec.dns_policy in
    if not (contains valid_dns_policies policy)
    then invalid policy_path dnsclass (policy_detail policy) ∷ []
    else []

unfoldable pub check_config : DnsClass → List FieldError
check_config dnsclass =
    let policy = dnsclass.spec.dns_policy in
    if not (text_eq policy dns_none) && is_set dnsclass.spec.dns_config
    then invalid policy_path dnsclass (config_detail policy) ∷ []
    else []

-- `allErrs` behind the four checks, in the order of the code.
unfoldable pub all_errors : DnsClass → List FieldError
all_errors dnsclass =
    check_policies dnsclass (items dnsclass.spec.allowed_dns_policies)
    ++ (check_policy dnsclass
        ++ (check_config dnsclass ++ check_keys dnsclass (extract_template_keys_regex dnsclass)))

-- `apierrors.NewInvalid`.
pub record Invalid : Type 0 where
  pub group_kind : GroupKind
  pub name : Text
  pub errors : List FieldError

unfoldable pub report : DnsClass → List FieldError → Option Invalid
report dnsclass [] = none
report dnsclass (e ∷ es) =
    some (record { group_kind = dnsclass.group_kind; name = dnsclass.name; errors = e ∷ es })

-- `DNSClassCustomValidator.validate`; `none` is the nil error.
unfoldable pub validate : DnsClass → Option Invalid
unfolding report all_errors check_policies check_policy check_config check_keys contains text_eq
validate dnsclass = report dnsclass (all_errors dnsclass)

unfoldable pub validate_create : DnsClass → Option Invalid
unfolding validate
validate_create obj = validate obj

unfoldable pub validate_update : DnsClass → DnsClass → Option Invalid
unfolding validate
validate_update old_obj new_obj = validate new_obj

unfoldable pub validate_delete : DnsClass → Option Invalid
validate_delete obj = none
