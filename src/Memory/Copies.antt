-- ===== src/Memory/Copies.antt =====
-- The functions of api/v1alpha1/zz_generated.deepcopy.go: `DeepCopyInto`, `DeepCopy` and
-- `DeepCopyObject` of each type. The deep copies of the Kubernetes types that they call are
-- parameters.
use kubedns_shepherd.Base.{none, some}
use kubedns_shepherd.Api.{Condition}
use kubedns_shepherd.Memory.{
  Pointer, Memory, ConfigValue, FieldsValue, SpecValue, StatusValue, ObjectMeta, ListMeta,
  ClassValue, ListValue, copy_pointer, plain, copy_each,
}
use kubedns_shepherd.Memory.Kinds.{
  texts, config, fields, conditions, spec, status, class, classes, class_list,
}

-- `v1.PodDNSConfig.DeepCopyInto`, and those of `metav1.Condition`, which holds no pointer,
-- `metav1.ObjectMeta` and `metav1.ListMeta`.
pub record Kubernetes : Type 0 where
  pub copy_config : ConfigValue → Memory → ConfigValue × Memory
  pub copy_condition : Condition → Memory → Condition × Memory
  pub copy_object_meta : ObjectMeta → Memory → ObjectMeta × Memory
  pub copy_list_meta : ListMeta → Memory → ListMeta × Memory

-- The block for a slice of strings: `make`, then `copy`.
abbrev pub copy_texts : Pointer → Memory → Pointer × Memory
copy_texts = copy_pointer texts plain

-- `DiscoveredFields.DeepCopyInto`
unfoldable pub copy_fields : FieldsValue → Memory → FieldsValue × Memory
copy_fields v m =
    let (nameservers, m1) = copy_texts v.nameservers m in
    (record v { nameservers = nameservers }, m1)

-- `DiscoveredFields.DeepCopy`
unfoldable pub new_fields : Pointer → Memory → Pointer × Memory
new_fields = copy_pointer fields copy_fields

-- A `runtime.Object`: an interface is nil, or it holds a pointer, which may itself be nil.
pub data RuntimeObject : Type 0 where
  nil : RuntimeObject
  dns_class : Pointer → RuntimeObject
  dns_class_list : Pointer → RuntimeObject

module _ (kubernetes : Kubernetes) where
  open kubernetes use {copy_config, copy_condition, copy_object_meta, copy_list_meta}

  -- `DNSClassStatus.DeepCopyInto`
  unfoldable pub copy_status : StatusValue → Memory → StatusValue × Memory
  copy_status v m =
      let (held, m1) = copy_pointer conditions (copy_each copy_condition) v.conditions m in
      let (discovered, m2) = copy_pointer fields copy_fields v.discovered_fields m1 in
      (record v { conditions = held; discovered_fields = discovered }, m2)

  -- `DNSClassStatus.DeepCopy`
  unfoldable pub new_status : Pointer → Memory → Pointer × Memory
  new_status = copy_pointer status copy_status

  -- `DNSClassSpec.DeepCopyInto`
  unfoldable pub copy_spec : SpecValue → Memory → SpecValue × Memory
  copy_spec v m =
      let (allowed, m1) = copy_texts v.allowed_namespaces m in
      let (disabled, m2) = copy_texts v.disabled_namespaces m1 in
      let (policies, m3) = copy_texts v.allowed_dns_policies m2 in
      let (dns_config, m4) = copy_pointer config copy_config v.dns_config m3 in
      (
        record v {
          allowed_namespaces = allowed;
          disabled_namespaces = disabled;
          allowed_dns_policies = policies;
          dns_config = dns_config;
        },
        m4,
      )

  -- `DNSClassSpec.DeepCopy`
  unfoldable pub new_spec : Pointer → Memory → Pointer × Memory
  new_spec = copy_pointer spec copy_spec

  -- `DNSClass.DeepCopyInto`
  unfoldable pub copy_class : ClassValue → Memory → ClassValue × Memory
  copy_class v m =
      let (meta, m1) = copy_object_meta v.object_meta m in
      let (copied_spec, m2) = copy_spec v.spec m1 in
      let (copied_status, m3) = copy_status v.status m2 in
      (record v { object_meta = meta; spec = copied_spec; status = copied_status }, m3)

  -- `DNSClass.DeepCopy`
  unfoldable pub new_class : Pointer → Memory → Pointer × Memory
  new_class = copy_pointer class copy_class

  -- `DNSClassList.DeepCopyInto`
  unfoldable pub copy_list : ListValue → Memory → ListValue × Memory
  copy_list v m =
      let (meta, m1) = copy_list_meta v.list_meta m in
      let (items, m2) = copy_pointer classes (copy_each copy_class) v.items m1 in
      (record v { list_meta = meta; items = items }, m2)

  -- `DNSClassList.DeepCopy`
  unfoldable pub new_list : Pointer → Memory → Pointer × Memory
  new_list = copy_pointer class_list copy_list

  -- `DNSClass.DeepCopyObject`: a nil pointer becomes a nil interface.
  unfoldable pub class_object : Pointer → Memory → RuntimeObject × Memory
  class_object p m =
      let (copied, m1) = new_class p m in
      (elim copied [ none ↦ nil | some c ↦ dns_class (some c) ], m1)

  -- `DNSClassList.DeepCopyObject`
  unfoldable pub list_object : Pointer → Memory → RuntimeObject × Memory
  list_object p m =
      let (copied, m1) = new_list p m in
      (elim copied [ none ↦ nil | some c ↦ dns_class_list (some c) ], m1)
