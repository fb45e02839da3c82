-- ===== src/Memory/Local.antt =====
-- The relations of Memory/Stands read the cells of the memory, and no others.
use kubedns_shepherd.Memory.Kinds.{
  text, texts, options, config, fields, conditions, classes, flag, number, string_map, owners,
  managed, fields_v1,
}
use kubedns_shepherd.Memory.Stands.{
  At, StandsOwner, StandsManaged, StandsMeta, StandsListMeta, Same, Each, Local, Strings,
  StandsOption, StandsConfig, StandsFields, StandsStatus, StandsSpec, StandsClass, StandsList,
}
use kubedns_shepherd.Memory.Copied.{Same-Local, At-Local, Each-Local}

pub Strings-Local : Local Strings
Strings-Local = At-Local texts Same Same-Local

pub StandsOption-Local : Local StandsOption
StandsOption-Local m n v o agree (name, value) =
    (name, At-Local text Same Same-Local m n v.value o.value agree value)

pub StandsConfig-Local : Local StandsConfig
StandsConfig-Local m n v c agree (nameservers, searches, held) = (
  Strings-Local m n v.nameservers c.nameservers agree nameservers,
  Strings-Local m n v.searches c.searches agree searches,
  At-Local options (Each StandsOption) (Each-Local StandsOption StandsOption-Local) m n v.options
      c.options agree held,
)

pub StandsFields-Local : Local StandsFields
StandsFields-Local m n v d agree (nameservers, domain) =
    (Strings-Local m n v.nameservers d.nameservers agree nameservers, domain)

pub StandsStatus-Local : Local StandsStatus
StandsStatus-Local m n v s agree ((slice, held, same), state, discovered) = (
  (
    slice,
    At-Local conditions (Each Same) (Each-Local Same Same-Local) m n v.conditions slice agree held,
    same,
  ),
  state,
  At-Local fields StandsFields StandsFields-Local m n v.discovered_fields s.discovered_fields agree
      discovered,
)

pub StandsSpec-Local : Local StandsSpec
StandsSpec-Local m n v s agree (allowed, disabled, policies, policy, held) = (
  Strings-Local m n v.allowed_namespaces s.allowed_namespaces agree allowed,
  Strings-Local m n v.disabled_namespaces s.disabled_namespaces agree disabled,
  Strings-Local m n v.allowed_dns_policies s.allowed_dns_policies agree policies,
  policy,
  At-Local config StandsConfig StandsConfig-Local m n v.dns_config s.dns_config agree held,
)

pub StandsOwner-Local : Local StandsOwner
StandsOwner-Local m n v o agree (version, kind, name, uid, controller, block) = (
  version,
  kind,
  name,
  uid,
  At-Local flag Same Same-Local m n v.controller o.controller agree controller,
  At-Local flag Same Same-Local m n v.block_owner_deletion o.block_owner_deletion agree block,
)

pub FieldsV1-Local : Local (At fields_v1 (At text Same))
FieldsV1-Local = At-Local fields_v1 (At text Same) (At-Local text Same Same-Local)

pub StandsManaged-Local : Local StandsManaged
StandsManaged-Local m n v e agree (manager, operation, version, time, kind, held, subresource) = (
  manager,
  operation,
  version,
  At-Local text Same Same-Local m n v.time e.time agree time,
  kind,
  FieldsV1-Local m n v.fields_v1 e.fields_v1 agree held,
  subresource,
)

pub owners-Local : Local (At owners (Each StandsOwner))
owners-Local = At-Local owners (Each StandsOwner) (Each-Local StandsOwner StandsOwner-Local)

pub managed-Local : Local (At managed (Each StandsManaged))
managed-Local = At-Local managed (Each StandsManaged) (Each-Local StandsManaged StandsManaged-Local)

pub StandsMeta-Local : Local StandsMeta
StandsMeta-Local m n v c agree
      (name, namespace, generation, deleted, grace, labels, annotations, owned, finalizers, held) =
    (
      name,
      namespace,
      generation,
      At-Local text Same Same-Local m n v.deletion_timestamp c.metadata.deletion_timestamp agree
          deleted,
      At-Local number Same Same-Local m n v.deletion_grace_period_seconds
          c.metadata.deletion_grace_period_seconds agree grace,
      At-Local string_map Same Same-Local m n v.labels c.metadata.labels agree labels,
      At-Local string_map Same Same-Local m n v.annotations c.metadata.annotations agree
          annotations,
      owners-Local m n v.owner_references c.metadata.owner_references agree owned,
      Strings-Local m n v.finalizers c.metadata.finalizers agree finalizers,
      managed-Local m n v.managed_fields c.metadata.managed_fields agree held,
    )

pub StandsListMeta-Local : Local StandsListMeta
StandsListMeta-Local m n v l agree (version, count) = (
  version,
  At-Local number Same Same-Local m n v.remaining_item_count l.remaining_item_count agree count,
)

pub StandsClass-Local : Local StandsClass
StandsClass-Local m n v c agree (type_meta, object_meta, spec, status) = (
  type_meta,
  StandsMeta-Local m n v.object_meta c agree object_meta,
  StandsSpec-Local m n v.spec c.spec agree spec,
  StandsStatus-Local m n v.status c.status agree status,
)

pub StandsList-Local : Local StandsList
StandsList-Local m n v l agree (type_meta, list_meta, held) = (
  type_meta,
  StandsListMeta-Local m n v.list_meta l agree list_meta,
  At-Local classes (Each StandsClass) (Each-Local StandsClass StandsClass-Local) m n v.items l.items
      agree held,
)
