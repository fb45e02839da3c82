-- ===== src/Tests/MemoryFixtures.antt =====
-- A class in memory, and deep copies of the Kubernetes types.
use kubedns_shepherd.Base.{[], ◌∷◌, none, some, true, pos, codes, refl}
use kubedns_shepherd.Api.{GroupKind, dns_none, dns_cluster_first, state_ready}
use kubedns_shepherd.Memory.{
  Memory, Cell, OptionValue, ConfigValue, ClassValue, ListValue, copy_pointer, copy_each, plain,
}
use kubedns_shepherd.Memory.Kinds.{text, texts, options}
use kubedns_shepherd.Memory.Copies.{Kubernetes, copy_texts}
use kubedns_shepherd.Memory.Stands.{
  Extends, Same, At, Each, Strings, StandsOption, StandsConfig, StandsMeta, StandsClass,
}
use kubedns_shepherd.Memory.Copied.{
  Extends-refl, Extends-trans, IsDeepCopy, Lives-within, At-Local, Each-Local, plain-IsDeepCopy,
  copy_pointer-IsDeepCopy, copy_each-IsDeepCopy,
}
use kubedns_shepherd.Memory.Local.{Strings-Local, StandsOption-Local}
use kubedns_shepherd.Memory.DeepCopy.{Documented}
use kubedns_shepherd.Tests.MetadataFixtures.{
  copy_metadata, copy_list_metadata, copy_metadata-IsDeepCopy, copy_list_metadata-IsDeepCopy,
}
use kubedns_shepherd.Tests.Fixtures.{search_text, ready_class}

abbrev pub copy_option : OptionValue → Memory → OptionValue × Memory
copy_option v m =
    let (value, m1) = copy_pointer text plain v.value m in (record v { value = value }, m1)

abbrev pub copy_dns_config : ConfigValue → Memory → ConfigValue × Memory
copy_dns_config v m =
    let (nameservers, m1) = copy_texts v.nameservers m in
    let (searches, m2) = copy_texts v.searches m1 in
    let (held, m3) = copy_pointer options (copy_each copy_option) v.options m2 in
    (record { nameservers = nameservers; searches = searches; options = held }, m3)

abbrev pub kubernetes : Kubernetes
kubernetes = record {
  copy_config = copy_dns_config;
  copy_condition = plain;
  copy_object_meta = copy_metadata;
  copy_list_meta = copy_list_metadata;
}

copy_value-IsDeepCopy : IsDeepCopy (At text Same) (copy_pointer text plain)
copy_value-IsDeepCopy = copy_pointer-IsDeepCopy text Same plain-IsDeepCopy

copy_option-IsDeepCopy : IsDeepCopy StandsOption copy_option
copy_option-IsDeepCopy = record {
  extends = λ v m. copy_value-IsDeepCopy.extends v.value m;
  copied = λ v m o (name, value) n agree.
      (name, copy_value-IsDeepCopy.copied v.value m o.value value n agree);
}

copy_options-IsDeepCopy :
    IsDeepCopy (At options (Each StandsOption)) (copy_pointer options (copy_each copy_option))
copy_options-IsDeepCopy =
    copy_pointer-IsDeepCopy options (Each StandsOption)
      (copy_each-IsDeepCopy StandsOption StandsOption-Local copy_option-IsDeepCopy)

copy_strings-IsDeepCopy : IsDeepCopy Strings copy_texts
copy_strings-IsDeepCopy = copy_pointer-IsDeepCopy texts Same plain-IsDeepCopy

pub copy_dns_config-IsDeepCopy : IsDeepCopy StandsConfig copy_dns_config
copy_dns_config-IsDeepCopy = record {
  extends = λ v m. Extends-trans (copy_strings-IsDeepCopy.extends v.nameservers m) (
      Extends-trans (copy_strings-IsDeepCopy.extends v.searches _)
        (copy_options-IsDeepCopy.extends v.options _));
  copied = λ v m x (nameservers, searches, held).
      let c = copy_strings-IsDeepCopy in
      let (p1, m1) = copy_texts v.nameservers m in
      let (p2, m2) = copy_texts v.searches m1 in
      let (p3, m3) = copy_pointer options (copy_each copy_option) v.options m2 in
      let e1 : Extends m m1 = c.extends v.nameservers m in
      let e2 : Extends m1 m2 = c.extends v.searches m1 in
      let e3 : Extends m2 m3 = copy_options-IsDeepCopy.extends v.options m2 in
      λ n agree. (
        Lives-within Strings c Strings-Local (Extends-refl m) nameservers (Extends-trans e2 e3) n
            agree,
        Lives-within Strings c Strings-Local e1 searches e3 n agree,
        Lives-within (At options (Each StandsOption)) copy_options-IsDeepCopy
            (At-Local options (Each StandsOption) (Each-Local StandsOption StandsOption-Local))
            (Extends-trans e1 e2) held (Extends-refl m3) n agree,
      );
}

abbrev pub documented : Documented kubernetes
documented = record {
  config = copy_dns_config-IsDeepCopy;
  condition = plain-IsDeepCopy;
  object_meta = copy_metadata-IsDeepCopy;
  list_meta = copy_list_metadata-IsDeepCopy;
}

-- The class of the other tests, as the cache holds it.
abbrev pub kind : GroupKind
kind = record { group = codes "config.kubedns-shepherd.io"; kind = codes "DNSClass" }

abbrev pub held : ClassValue
held = record {
  type_meta = kind;
  object_meta = record {
    name = codes "example";
    namespace = codes "";
    generation = 1;
    deletion_timestamp = none;
    deletion_grace_period_seconds = some 10;
    labels = some 11;
    annotations = none;
    owner_references = some 12;
    finalizers = some 14;
    managed_fields = some 15;
  };
  spec = record {
    allowed_namespaces = none;
    disabled_namespaces = some 0;
    allowed_dns_policies = some 1;
    dns_policy = dns_none;
    dns_config = some 3;
  };
  status = record { conditions = none; state = state_ready; discovered_fields = some 5 };
}

abbrev pub held_list : ListValue
held_list = record {
  type_meta = kind;
  list_meta = record { resource_version = codes "17"; remaining_item_count = some 19 };
  items = some 7;
}

abbrev pub cells : Memory
cells =
    Cell.texts (codes "kube-system" ∷ [])
    ∷ Cell.texts (dns_cluster_first ∷ dns_none ∷ [])
    ∷ Cell.texts (search_text ∷ codes "local" ∷ [])
    ∷ Cell.config (record { nameservers = none; searches = some 2; options = none })
    ∷ Cell.texts (codes "10.96.0.10" ∷ [])
    ∷ Cell.fields (record { nameservers = some 4; cluster_domain = codes "cluster.local" })
    ∷ Cell.class held
    ∷ Cell.classes (held ∷ [])
    ∷ Cell.class_list held_list
    ∷ Cell.spec held.spec
    ∷ Cell.number (pos 30)
    ∷ Cell.string_map ((codes "app", codes "dns") ∷ [])
    ∷ Cell.owners (
        record {
          api_version = codes "apps/v1";
          kind = codes "Deployment";
          name = codes "owner";
          uid = codes "7";
          controller = some 13;
          block_owner_deletion = none;
        }
        ∷ [])
    ∷ Cell.flag true
    ∷ Cell.texts (codes "config.kubedns-shepherd.io/finalizer" ∷ [])
    ∷ Cell.managed (
        record {
          manager = codes "kubectl";
          operation = codes "Apply";
          api_version = codes "config.kubedns-shepherd.io/v1alpha1";
          time = some 16;
          fields_type = codes "FieldsV1";
          fields_v1 = some 17;
          subresource = codes "";
        }
        ∷ [])
    ∷ Cell.text (codes "2025-01-01T00:00:00Z")
    ∷ Cell.fields_v1 (some 18)
    ∷ Cell.text (codes "{}")
    ∷ Cell.number (pos 3)
    ∷ []

held-StandsMeta : StandsMeta cells held.object_meta ready_class
held-StandsMeta = (
  refl,
  refl,
  refl,
  tt,
  (pos 30, refl, refl),
  (_, refl, refl),
  tt,
  (_, refl, ((refl, refl, refl, refl, (true, refl, refl), tt), tt)),
  (_, refl, refl),
  (
    _,
    refl,
    ((refl, refl, refl, (_, refl, refl), refl, (some 18, refl, (_, refl, refl)), refl), tt),
  ),
)

pub held-StandsClass : StandsClass cells held ready_class
held-StandsClass = (
  refl,
  held-StandsMeta,
  (
    tt,
    (codes "kube-system" ∷ [], refl, refl),
    (dns_cluster_first ∷ dns_none ∷ [], refl, refl),
    refl,
    (
      record { nameservers = none; searches = some 2; options = none },
      refl,
      (tt, (search_text ∷ codes "local" ∷ [], refl, refl), tt),
    ),
  ),
  (
    (none, tt, refl),
    refl,
    (
      record { nameservers = some 4; cluster_domain = codes "cluster.local" },
      refl,
      ((codes "10.96.0.10" ∷ [], refl, refl), refl),
    ),
  ),
)
