-- ===== src/Api.antt =====
-- The DNSClass resource of api/v1alpha1/dnsclass_types.go, with the parts of the Kubernetes types
-- that the code reads or writes. Strings are byte lists, a nil slice or pointer is `none`.
pub mod Keys
pub mod Scheme
use kubedns_shepherd.Base.{Text, codes, List, Option, Slice, ℕ, ℤ, Bool}

-- `corev1.DNSPolicy` is a string type, so a value need not be one of its constants.
abbrev pub DnsPolicy : Type 0
DnsPolicy = Text

abbrev pub dns_default : DnsPolicy
dns_default = codes "Default"

abbrev pub dns_cluster_first : DnsPolicy
dns_cluster_first = codes "ClusterFirst"

abbrev pub dns_cluster_first_with_host_net : DnsPolicy
dns_cluster_first_with_host_net = codes "ClusterFirstWithHostNet"

abbrev pub dns_none : DnsPolicy
dns_none = codes "None"

abbrev pub state_init : Text
state_init = codes "initializing"

abbrev pub state_ready : Text
state_ready = codes "ready"

abbrev pub state_error : Text
state_error = codes "error"

-- `corev1.PodDNSConfigOption`.
pub record DnsOption : Type 0 where
  pub name : Text
  pub value : Option Text

-- `corev1.PodDNSConfig`.
pub record PodDnsConfig : Type 0 where
  pub nameservers : Slice Text
  pub searches : Slice Text
  pub options : Slice DnsOption

pub record DnsClassSpec : Type 0 where
  pub allowed_namespaces : Slice Text
  pub disabled_namespaces : Slice Text
  pub allowed_dns_policies : Slice DnsPolicy
  pub dns_policy : DnsPolicy
  pub dns_config : Option PodDnsConfig

pub record DiscoveredFields : Type 0 where
  pub nameservers : Slice Text
  pub cluster_domain : Text

-- `metav1.Condition`; the time is a number.
pub record Condition : Type 0 where
  pub type : Text
  pub status : Text
  pub message : Text
  pub reason : Text
  pub last_transition_time : ℕ

pub record DnsClassStatus : Type 0 where
  pub conditions : List Condition
  pub state : Text
  pub discovered_fields : Option DiscoveredFields

-- `GroupVersionKind().GroupKind()` of the type's metadata.
pub record GroupKind : Type 0 where
  pub group : Text
  pub kind : Text

-- `metav1.OwnerReference`
pub record OwnerReference : Type 0 where
  pub api_version : Text
  pub kind : Text
  pub name : Text
  pub uid : Text
  pub controller : Option Bool
  pub block_owner_deletion : Option Bool

-- `metav1.ManagedFieldsEntry`
pub record ManagedFieldsEntry : Type 0 where
  pub manager : Text
  pub operation : Text
  pub api_version : Text
  pub time : Option Text
  pub fields_type : Text
  -- A pointer to a struct that holds a slice of bytes.
  pub fields_v1 : Option (Option Text)
  pub subresource : Text

-- The fields of `metav1.ObjectMeta` that are pointers, slices or maps; a time is some text.
pub record Metadata : Type 0 where
  pub deletion_timestamp : Option Text
  pub deletion_grace_period_seconds : Option ℤ
  pub labels : Option (List (Text × Text))
  pub annotations : Option (List (Text × Text))
  pub owner_references : Slice OwnerReference
  pub finalizers : Slice Text
  pub managed_fields : Slice ManagedFieldsEntry

pub record DnsClass : Type 0 where
  pub group_kind : GroupKind
  pub name : Text
  pub namespace : Text
  pub generation : ℕ
  pub metadata : Metadata
  pub spec : DnsClassSpec
  pub status : DnsClassStatus

-- The resource version and the count are those of the list's metadata.
pub record DnsClassList : Type 0 where
  pub type_meta : GroupKind
  pub resource_version : Text
  pub remaining_item_count : Option ℤ
  pub items : Slice DnsClass
