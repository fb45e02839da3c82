-- ===== src/Memory/Stands.antt =====
-- What a value in memory stands for: the pure value that is found by following its pointers. A
-- relation reads cells only, so it holds in each memory that agrees on them.
use kubedns_shepherd.Base.{
  ℕ, List, [], ◌∷◌, ◌++◌, Option, none, some, Text, Slice, items, length, get_elem?, ◌≡◌, ◌≤◌, ◌<◌,
}
use kubedns_shepherd.Api.{
  Condition, DnsClass, DnsClassList, DnsClassSpec, DnsClassStatus, DiscoveredFields, DnsOption,
  PodDnsConfig, OwnerReference, ManagedFieldsEntry,
}
use kubedns_shepherd.Memory.{
  Pointer, Memory, Kind, load, OptionValue, ConfigValue, FieldsValue, SpecValue, StatusValue,
  OwnerValue, ManagedValue, ObjectMeta, ListMeta, ClassValue, ListValue,
}
use kubedns_shepherd.Memory.Kinds.{
  text, texts, options, config, fields, conditions, classes, flag, number, string_map, owners,
  managed, fields_v1,
}

abbrev pub Relation : Type 0 → Type 0 → Type 1
Relation V A = Memory → V → A → Type 0

-- `n` holds the cells of `m` from `lo` to `hi`.
abbrev pub AgreeOn : ℕ → ℕ → Memory → Memory → Type 0
AgreeOn lo hi m n = (a : ℕ) → lo ≤ a → a < hi → get_elem? n a ≡ get_elem? m a

-- `n` holds all the cells of `m`, in their places.
pub record Extends (m n : Memory) : Type 0 where
  pub tail : Memory
  pub appended : n ≡ m ++ tail

abbrev pub Same : {A : Type 0} → Relation A A
Same m v x = v ≡ x

module _ {V A : Type 0} where
  -- The pointer is nil, or it points to a cell whose value stands for `x`.
  abbrev pub At : Kind V → Relation V A → Relation Pointer (Option A)
  At k S m none none = Unit
  At k S m (some a) (some x) = (v : V) × (load k m a ≡ some v) × S m v x
  At k S m none (some x) = ⊥
  At k S m (some a) none = ⊥

  abbrev pub Each : Relation V A → Relation (List V) (List A)
  Each S m [] [] = Unit
  Each S m (v ∷ vs) (x ∷ xs) = S m v x × Each S m vs xs
  Each S m [] (x ∷ xs) = ⊥
  Each S m (v ∷ vs) [] = ⊥

abbrev pub Strings : Relation Pointer (Slice Text)
Strings = At texts Same

abbrev pub StandsOption : Relation OptionValue DnsOption
StandsOption m v o = (v.name ≡ o.name) × At text Same m v.value o.value

abbrev pub StandsConfig : Relation ConfigValue PodDnsConfig
StandsConfig m v c =
    Strings m v.nameservers c.nameservers
    × Strings m v.searches c.searches
    × At options (Each StandsOption) m v.options c.options

abbrev pub StandsFields : Relation FieldsValue DiscoveredFields
StandsFields m v d = Strings m v.nameservers d.nameservers × (v.cluster_domain ≡ d.cluster_domain)

abbrev pub StandsStatus : Relation StatusValue DnsClassStatus
StandsStatus m v s =
    ((slice : Slice Condition) × At conditions (Each Same) m v.conditions slice
      × (items slice ≡ s.conditions))
    × (v.state ≡ s.state)
    × At fields StandsFields m v.discovered_fields s.discovered_fields

abbrev pub StandsSpec : Relation SpecValue DnsClassSpec
StandsSpec m v s =
    Strings m v.allowed_namespaces s.allowed_namespaces
    × Strings m v.disabled_namespaces s.disabled_namespaces
    × Strings m v.allowed_dns_policies s.allowed_dns_policies
    × (v.dns_policy ≡ s.dns_policy)
    × At config StandsConfig m v.dns_config s.dns_config

abbrev pub StandsOwner : Relation OwnerValue OwnerReference
StandsOwner m v o =
    (v.api_version ≡ o.api_version)
    × (v.kind ≡ o.kind)
    × (v.name ≡ o.name)
    × (v.uid ≡ o.uid)
    × At flag Same m v.controller o.controller
    × At flag Same m v.block_owner_deletion o.block_owner_deletion

abbrev pub StandsManaged : Relation ManagedValue ManagedFieldsEntry
StandsManaged m v e =
    (v.manager ≡ e.manager)
    × (v.operation ≡ e.operation)
    × (v.api_version ≡ e.api_version)
    × At text Same m v.time e.time
    × (v.fields_type ≡ e.fields_type)
    × At fields_v1 (At text Same) m v.fields_v1 e.fields_v1
    × (v.subresource ≡ e.subresource)

-- The metadata of a class.
abbrev pub StandsMeta : Relation ObjectMeta DnsClass
StandsMeta m v c =
    (v.name ≡ c.name)
    × (v.namespace ≡ c.namespace)
    × (v.generation ≡ c.generation)
    × At text Same m v.deletion_timestamp c.metadata.deletion_timestamp
    × At number Same m v.deletion_grace_period_seconds c.metadata.deletion_grace_period_seconds
    × At string_map Same m v.labels c.metadata.labels
    × At string_map Same m v.annotations c.metadata.annotations
    × At owners (Each StandsOwner) m v.owner_references c.metadata.owner_references
    × Strings m v.finalizers c.metadata.finalizers
    × At managed (Each StandsManaged) m v.managed_fields c.metadata.managed_fields

abbrev pub StandsListMeta : Relation ListMeta DnsClassList
StandsListMeta m v l =
    (v.resource_version ≡ l.resource_version)
    × At number Same m v.remaining_item_count l.remaining_item_count

abbrev pub StandsClass : Relation ClassValue DnsClass
StandsClass m v c =
    (v.type_meta ≡ c.group_kind)
    × StandsMeta m v.object_meta c
    × StandsSpec m v.spec c.spec
    × StandsStatus m v.status c.status

abbrev pub StandsList : Relation ListValue DnsClassList
StandsList m v l =
    (v.type_meta ≡ l.type_meta)
    × StandsListMeta m v.list_meta l
    × At classes (Each StandsClass) m v.items l.items

-- The relation reads the cells of the memory, and no others.
abbrev pub Local : {V A : Type 0} → Relation V A → Type 0
Local {V} {A} S = (m n : Memory) (v : V) (x : A) → AgreeOn 0 (length m) m n → S m v x → S n v x
