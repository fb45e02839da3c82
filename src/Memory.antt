-- ===== src/Memory.antt =====
-- The deep copies of api/v1alpha1/zz_generated.deepcopy.go on a memory of cells. A pointer is an
-- address or nil, and so is a slice, which is the address of its elements. A struct that holds
-- another by value holds it here. The copy of a struct is returned where the code writes it through
-- `out`, and a cell is allocated once its value is known: no address is read before.
pub mod Kinds
pub mod Copies
pub mod Stands
pub mod Copied
pub mod Local
pub mod DeepCopy
pub mod Isolated
pub mod Configure
pub mod Store
pub mod Refines
pub mod Configured
pub mod Writes
pub mod Cache
pub mod Handled
use kubedns_shepherd.Base.{
  List, [], ◌∷◌, ◌++◌, Option, none, some, Text, Bool, ℤ, ℕ, zero, suc, length, get_elem?, ◌≡◌,
}
use kubedns_shepherd.Api.{DnsPolicy, Condition, GroupKind}

abbrev pub Pointer : Type 0
Pointer = Option ℕ

-- `corev1.PodDNSConfigOption`, whose value is a pointer to a string.
pub record OptionValue : Type 0 where
  pub name : Text
  pub value : Pointer

-- `corev1.PodDNSConfig`
pub record ConfigValue : Type 0 where
  pub nameservers : Pointer
  pub searches : Pointer
  pub options : Pointer

pub record FieldsValue : Type 0 where
  pub nameservers : Pointer
  pub cluster_domain : Text

pub record SpecValue : Type 0 where
  pub allowed_namespaces : Pointer
  pub disabled_namespaces : Pointer
  pub allowed_dns_policies : Pointer
  pub dns_policy : DnsPolicy
  pub dns_config : Pointer

pub record StatusValue : Type 0 where
  pub conditions : Pointer
  pub state : Text
  pub discovered_fields : Pointer

-- `metav1.OwnerReference`
pub record OwnerValue : Type 0 where
  pub api_version : Text
  pub kind : Text
  pub name : Text
  pub uid : Text
  pub controller : Pointer
  pub block_owner_deletion : Pointer

-- `metav1.ManagedFieldsEntry`
pub record ManagedValue : Type 0 where
  pub manager : Text
  pub operation : Text
  pub api_version : Text
  pub time : Pointer
  pub fields_type : Text
  pub fields_v1 : Pointer
  pub subresource : Text

-- `metav1.ObjectMeta`: the fields that the code reads, and all that are pointers, slices or maps.
pub record ObjectMeta : Type 0 where
  pub name : Text
  pub namespace : Text
  pub generation : ℕ
  pub deletion_timestamp : Pointer
  pub deletion_grace_period_seconds : Pointer
  pub labels : Pointer
  pub annotations : Pointer
  pub owner_references : Pointer
  pub finalizers : Pointer
  pub managed_fields : Pointer

-- `metav1.ListMeta`, likewise.
pub record ListMeta : Type 0 where
  pub resource_version : Text
  pub remaining_item_count : Pointer

pub record ClassValue : Type 0 where
  pub type_meta : GroupKind
  pub object_meta : ObjectMeta
  pub spec : SpecValue
  pub status : StatusValue

pub record ListValue : Type 0 where
  pub type_meta : GroupKind
  pub list_meta : ListMeta
  pub items : Pointer

pub data Cell : Type 0 where
  text : Text → Cell
  texts : List Text → Cell
  options : List OptionValue → Cell
  config : ConfigValue → Cell
  fields : FieldsValue → Cell
  conditions : List Condition → Cell
  spec : SpecValue → Cell
  status : StatusValue → Cell
  class : ClassValue → Cell
  classes : List ClassValue → Cell
  class_list : ListValue → Cell
  flag : Bool → Cell
  number : ℤ → Cell
  string_map : List (Text × Text) → Cell
  owners : List OwnerValue → Cell
  managed : List ManagedValue → Cell
  -- `metav1.FieldsV1`, by its one field.
  fields_v1 : Pointer → Cell

-- A new cell comes behind the others.
abbrev pub Memory : Type 0
Memory = List Cell

-- The cells of one Go type.
pub record Kind (V : Type 0) : Type 0 where
  pub cell : V → Cell
  pub view : Cell → Option V
  pub view-cell : (v : V) → view (cell v) ≡ some v

module _ {V : Type 0} (k : Kind V) where
  abbrev pub held : Option Cell → Option V
  held none = none
  held (some c) = k.view c

  abbrev pub load : Memory → ℕ → Option V
  load m a = held (get_elem? m a)

  -- `new`, and `make` with its elements
  unfoldable pub allocate : V × Memory → Pointer × Memory
  allocate (v, m) = (some (length m), m ++ (k.cell v ∷ []))

  -- `if in != nil { *out = new(…); (*in).DeepCopyInto(*out) }`
  unfoldable pub copy_pointer : (V → Memory → V × Memory) → Pointer → Memory → Pointer × Memory
  unfolding allocate
  copy_pointer copy none m = (none, m)
  copy_pointer copy (some a) m = elim (load m a) [ none ↦ (none, m) | some v ↦ allocate (copy v m) ]

  -- The value that a pointer leads to; that of nil is `none`.
  abbrev pub deref : Pointer → Memory → Option V
  deref none m = none
  deref (some a) m = load m a

  -- `*p = v`
  unfoldable pub store : ℕ → V → Memory → Memory
  store a v [] = []
  store zero v (c ∷ m) = k.cell v ∷ m
  store (suc a) v (c ∷ m) = c ∷ store a v m

-- `copy(*out, *in)` of elements that hold no pointer.
abbrev pub plain : {V : Type 0} → V → Memory → V × Memory
plain v m = (v, m)

-- `for i := range *in { (*in)[i].DeepCopyInto(&(*out)[i]) }`
unfoldable pub copy_each :
    {V : Type 0} → (V → Memory → V × Memory) → List V → Memory → List V × Memory
copy_each copy [] m = ([], m)
copy_each copy (v ∷ vs) m =
    let (v', m1) = copy v m in let (vs', m2) = copy_each copy vs m1 in (v' ∷ vs', m2)
