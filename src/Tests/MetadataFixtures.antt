-- ===== src/Tests/MetadataFixtures.antt =====
-- Deep copies of the Kubernetes metadata, field by field.
use kubedns_shepherd.Base.{Option, Text, ℤ, List, Slice}
use kubedns_shepherd.Api.{OwnerReference, ManagedFieldsEntry}
use kubedns_shepherd.Memory.{
  Pointer, Memory, OwnerValue, ManagedValue, ObjectMeta, ListMeta, copy_pointer, copy_each, plain,
}
use kubedns_shepherd.Memory.Kinds.{
  text, texts, flag, number, string_map, owners, managed, fields_v1,
}
use kubedns_shepherd.Memory.Stands.{
  Relation, Same, At, Each, Local, Strings, StandsOwner, StandsManaged, StandsMeta, StandsListMeta,
}
use kubedns_shepherd.Memory.Copied.{
  IsDeepCopy, Same-Local, plain-IsDeepCopy, At-Local, copy_pointer-IsDeepCopy, copy_each-IsDeepCopy,
}
use kubedns_shepherd.Memory.Local.{
  Strings-Local, StandsOwner-Local, StandsManaged-Local, owners-Local, managed-Local,
  FieldsV1-Local,
}
use kubedns_shepherd.Tests.PairFixtures.{copy_both, Both, Both-Local, copy_both-IsDeepCopy}

abbrev copy_flag : Pointer → Memory → Pointer × Memory
copy_flag = copy_pointer flag plain

abbrev copy_time : Pointer → Memory → Pointer × Memory
copy_time = copy_pointer text plain

abbrev copy_number : Pointer → Memory → Pointer × Memory
copy_number = copy_pointer number plain

abbrev copy_map : Pointer → Memory → Pointer × Memory
copy_map = copy_pointer string_map plain

abbrev copy_fields_v1 : Pointer → Memory → Pointer × Memory
copy_fields_v1 = copy_pointer fields_v1 (copy_pointer text plain)

copy_flag-IsDeepCopy : IsDeepCopy (At flag Same) copy_flag
copy_flag-IsDeepCopy = copy_pointer-IsDeepCopy flag Same plain-IsDeepCopy

copy_time-IsDeepCopy : IsDeepCopy (At text Same) copy_time
copy_time-IsDeepCopy = copy_pointer-IsDeepCopy text Same plain-IsDeepCopy

copy_number-IsDeepCopy : IsDeepCopy (At number Same) copy_number
copy_number-IsDeepCopy = copy_pointer-IsDeepCopy number Same plain-IsDeepCopy

copy_map-IsDeepCopy : IsDeepCopy (At string_map Same) copy_map
copy_map-IsDeepCopy = copy_pointer-IsDeepCopy string_map Same plain-IsDeepCopy

copy_finalizers-IsDeepCopy : IsDeepCopy Strings (copy_pointer texts plain)
copy_finalizers-IsDeepCopy = copy_pointer-IsDeepCopy texts Same plain-IsDeepCopy

copy_fields_v1-IsDeepCopy : IsDeepCopy (At fields_v1 (At text Same)) copy_fields_v1
copy_fields_v1-IsDeepCopy = copy_pointer-IsDeepCopy fields_v1 (At text Same) copy_time-IsDeepCopy

flag-Local : Local (At flag Same)
flag-Local = At-Local flag Same Same-Local

time-Local : Local (At text Same)
time-Local = At-Local text Same Same-Local

number-Local : Local (At number Same)
number-Local = At-Local number Same Same-Local

map-Local : Local (At string_map Same)
map-Local = At-Local string_map Same Same-Local

-- `OwnerReference.DeepCopyInto`
abbrev copy_owner : OwnerValue → Memory → OwnerValue × Memory
copy_owner v m =
    let (p, m1) = copy_both copy_flag copy_flag (v.controller, v.block_owner_deletion) m in
    (record v { controller = p.0; block_owner_deletion = p.1 }, m1)

owner_pointers-IsDeepCopy :
    IsDeepCopy (Both (At flag Same) (At flag Same)) (copy_both copy_flag copy_flag)
owner_pointers-IsDeepCopy =
    copy_both-IsDeepCopy (At flag Same) (At flag Same) flag-Local flag-Local copy_flag-IsDeepCopy
      copy_flag-IsDeepCopy

copy_owner-IsDeepCopy : IsDeepCopy StandsOwner copy_owner
copy_owner-IsDeepCopy = record {
  extends = λ v m. owner_pointers-IsDeepCopy.extends (v.controller, v.block_owner_deletion) m;
  copied = λ v m o (version, kind, name, uid, controller, block) n agree.
      let both =
        owner_pointers-IsDeepCopy.copied (v.controller, v.block_owner_deletion) m
          (o.controller, o.block_owner_deletion) (controller, block) n agree in
      (version, kind, name, uid, both.0, both.1);
}

-- `ManagedFieldsEntry.DeepCopyInto`
abbrev copy_managed : ManagedValue → Memory → ManagedValue × Memory
copy_managed v m =
    let (p, m1) = copy_both copy_time copy_fields_v1 (v.time, v.fields_v1) m in
    (record v { time = p.0; fields_v1 = p.1 }, m1)

managed_pointers-IsDeepCopy :
    IsDeepCopy
      (Both (At text Same) (At fields_v1 (At text Same)))
      (copy_both copy_time copy_fields_v1)
managed_pointers-IsDeepCopy =
    copy_both-IsDeepCopy (At text Same) (At fields_v1 (At text Same)) time-Local FieldsV1-Local
      copy_time-IsDeepCopy copy_fields_v1-IsDeepCopy

copy_managed-IsDeepCopy : IsDeepCopy StandsManaged copy_managed
copy_managed-IsDeepCopy = record {
  extends = λ v m. managed_pointers-IsDeepCopy.extends (v.time, v.fields_v1) m;
  copied = λ v m e (manager, operation, version, time, kind, held, subresource) n agree.
      let both =
        managed_pointers-IsDeepCopy.copied (v.time, v.fields_v1) m (e.time, e.fields_v1)
          (time, held) n agree in
      (manager, operation, version, both.0, kind, both.1, subresource);
}

abbrev copy_owners : Pointer → Memory → Pointer × Memory
copy_owners = copy_pointer owners (copy_each copy_owner)

copy_owners-IsDeepCopy : IsDeepCopy (At owners (Each StandsOwner)) copy_owners
copy_owners-IsDeepCopy =
    copy_pointer-IsDeepCopy owners (Each StandsOwner)
      (copy_each-IsDeepCopy StandsOwner StandsOwner-Local copy_owner-IsDeepCopy)

abbrev copy_entries : Pointer → Memory → Pointer × Memory
copy_entries = copy_pointer managed (copy_each copy_managed)

copy_entries-IsDeepCopy : IsDeepCopy (At managed (Each StandsManaged)) copy_entries
copy_entries-IsDeepCopy =
    copy_pointer-IsDeepCopy managed (Each StandsManaged)
      (copy_each-IsDeepCopy StandsManaged StandsManaged-Local copy_managed-IsDeepCopy)

copy_deletion-IsDeepCopy :
    IsDeepCopy (Both (At text Same) (At number Same)) (copy_both copy_time copy_number)
copy_deletion-IsDeepCopy =
    copy_both-IsDeepCopy (At text Same) (At number Same) time-Local number-Local
      copy_time-IsDeepCopy copy_number-IsDeepCopy

copy_maps-IsDeepCopy :
    IsDeepCopy (Both (At string_map Same) (At string_map Same)) (copy_both copy_map copy_map)
copy_maps-IsDeepCopy =
    copy_both-IsDeepCopy (At string_map Same) (At string_map Same) map-Local map-Local
      copy_map-IsDeepCopy copy_map-IsDeepCopy

copy_first-IsDeepCopy :
    IsDeepCopy
      (Both (Both (At text Same) (At number Same)) (Both (At string_map Same) (At string_map Same)))
      (copy_both (copy_both copy_time copy_number) (copy_both copy_map copy_map))
copy_first-IsDeepCopy =
    copy_both-IsDeepCopy (Both (At text Same) (At number Same))
      (Both (At string_map Same) (At string_map Same))
      (Both-Local (At text Same) (At number Same) time-Local number-Local)
      (Both-Local (At string_map Same) (At string_map Same) map-Local map-Local)
      copy_deletion-IsDeepCopy copy_maps-IsDeepCopy

copy_slices-IsDeepCopy :
    IsDeepCopy
      (Both (At owners (Each StandsOwner)) (Both Strings (At managed (Each StandsManaged))))
      (copy_both copy_owners (copy_both (copy_pointer texts plain) copy_entries))
copy_slices-IsDeepCopy =
    copy_both-IsDeepCopy (At owners (Each StandsOwner))
      (Both Strings (At managed (Each StandsManaged))) owners-Local
      (Both-Local Strings (At managed (Each StandsManaged)) Strings-Local managed-Local)
      copy_owners-IsDeepCopy
      (copy_both-IsDeepCopy Strings (At managed (Each StandsManaged)) Strings-Local managed-Local
        copy_finalizers-IsDeepCopy copy_entries-IsDeepCopy)

abbrev First :
    Relation
      ((Pointer × Pointer) × (Pointer × Pointer))
      ((Option Text × Option ℤ) × (Option (List (Text × Text)) × Option (List (Text × Text))))
First = Both (Both (At text Same) (At number Same)) (Both (At string_map Same) (At string_map Same))

abbrev Slices :
    Relation
      (Pointer × (Pointer × Pointer))
      (Slice OwnerReference × (Slice Text × Slice ManagedFieldsEntry))
Slices = Both (At owners (Each StandsOwner)) (Both Strings (At managed (Each StandsManaged)))

First-Local : Local First
First-Local =
    Both-Local (Both (At text Same) (At number Same))
      (Both (At string_map Same) (At string_map Same))
      (Both-Local (At text Same) (At number Same) time-Local number-Local)
      (Both-Local (At string_map Same) (At string_map Same) map-Local map-Local)

Slices-Local : Local Slices
Slices-Local =
    Both-Local (At owners (Each StandsOwner)) (Both Strings (At managed (Each StandsManaged)))
      owners-Local
      (Both-Local Strings (At managed (Each StandsManaged)) Strings-Local managed-Local)

abbrev References : Type 0
References = ((Pointer × Pointer) × (Pointer × Pointer)) × (Pointer × (Pointer × Pointer))

abbrev copy_references : References → Memory → References × Memory
copy_references =
    copy_both (copy_both (copy_both copy_time copy_number) (copy_both copy_map copy_map))
      (copy_both copy_owners (copy_both (copy_pointer texts plain) copy_entries))

copy_references-IsDeepCopy : IsDeepCopy (Both First Slices) copy_references
copy_references-IsDeepCopy =
    copy_both-IsDeepCopy First Slices First-Local Slices-Local copy_first-IsDeepCopy
      copy_slices-IsDeepCopy

abbrev references : ObjectMeta → References
references v = (
  ((v.deletion_timestamp, v.deletion_grace_period_seconds), (v.labels, v.annotations)),
  (v.owner_references, (v.finalizers, v.managed_fields)),
)

-- `ObjectMeta.DeepCopyInto`
abbrev pub copy_metadata : ObjectMeta → Memory → ObjectMeta × Memory
copy_metadata v m =
    let (p, m1) = copy_references (references v) m in
    (
      record v {
        deletion_timestamp = p.0.0.0;
        deletion_grace_period_seconds = p.0.0.1;
        labels = p.0.1.0;
        annotations = p.0.1.1;
        owner_references = p.1.0;
        finalizers = p.1.1.0;
        managed_fields = p.1.1.1;
      },
      m1,
    )

pub copy_metadata-IsDeepCopy : IsDeepCopy StandsMeta copy_metadata
copy_metadata-IsDeepCopy = record {
  extends = λ v m. copy_references-IsDeepCopy.extends (references v) m;
  copied =
      λ v m c
          (
            name, namespace, generation, deleted, grace, labels, annotations, owned, finalizers,
            held,
          )
          n agree.
        let d = c.metadata in
        let all =
          copy_references-IsDeepCopy.copied (references v) m
            (
              ((d.deletion_timestamp, d.deletion_grace_period_seconds), (d.labels, d.annotations)),
              (d.owner_references, (d.finalizers, d.managed_fields)),
            )
            (((deleted, grace), (labels, annotations)), (owned, (finalizers, held))) n agree in
        (
          name, namespace, generation, all.0.0.0, all.0.0.1, all.0.1.0, all.0.1.1, all.1.0,
          all.1.1.0, all.1.1.1,
        );
}

-- `ListMeta.DeepCopyInto`
abbrev pub copy_list_metadata : ListMeta → Memory → ListMeta × Memory
copy_list_metadata v m =
    let (count, m1) = copy_number v.remaining_item_count m in
    (record v { remaining_item_count = count }, m1)

pub copy_list_metadata-IsDeepCopy : IsDeepCopy StandsListMeta copy_list_metadata
copy_list_metadata-IsDeepCopy = record {
  extends = λ v m. copy_number-IsDeepCopy.extends v.remaining_item_count m;
  copied = λ v m l (version, count) n agree. (
    version,
    copy_number-IsDeepCopy.copied v.remaining_item_count m l.remaining_item_count count n agree,
  );
}
