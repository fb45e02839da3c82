-- ===== src/Memory/DeepCopy.antt =====
-- The functions of api/v1alpha1/zz_generated.deepcopy.go are deep copies, of each type.
use kubedns_shepherd.Memory.{copy_pointer, copy_each, Memory, SpecValue, StatusValue, ClassValue}
use kubedns_shepherd.Memory.Kinds.{
  texts, config, fields, conditions, spec, status, class, classes, class_list,
}
use kubedns_shepherd.Memory.Copies.{
  Kubernetes, copy_texts, copy_fields, copy_status, copy_spec, copy_class, copy_list, new_fields,
  new_status, new_spec, new_class, new_list,
}
use kubedns_shepherd.Memory.Stands.{
  Extends, Same, At, Each, Strings, StandsConfig, StandsFields, StandsStatus, StandsSpec,
  StandsMeta, StandsListMeta, StandsClass, StandsList,
}
use kubedns_shepherd.Memory.Copied.{
  Extends-refl, Extends-trans, IsDeepCopy, Lives-within, Same-Local, plain-IsDeepCopy, At-Local,
  Each-Local, copy_pointer-IsDeepCopy, copy_each-IsDeepCopy,
}
use kubedns_shepherd.Memory.Local.{
  Strings-Local, StandsConfig-Local, StandsFields-Local, StandsStatus-Local, StandsSpec-Local,
  StandsClass-Local, StandsMeta-Local, StandsListMeta-Local,
}

-- What the generated code of Kubernetes promises.
pub record Documented (kubernetes : Kubernetes) : Type 0 where
  pub config : IsDeepCopy StandsConfig kubernetes.copy_config
  pub condition : IsDeepCopy Same kubernetes.copy_condition
  pub object_meta : IsDeepCopy StandsMeta kubernetes.copy_object_meta
  pub list_meta : IsDeepCopy StandsListMeta kubernetes.copy_list_meta

copy_texts-IsDeepCopy : IsDeepCopy Strings copy_texts
copy_texts-IsDeepCopy = copy_pointer-IsDeepCopy texts Same plain-IsDeepCopy

pub copy_fields-IsDeepCopy : IsDeepCopy StandsFields copy_fields
unfolding copy_fields
copy_fields-IsDeepCopy = record {
  extends = λ v m. copy_texts-IsDeepCopy.extends v.nameservers m;
  copied = λ v m d (nameservers, domain) n agree.
      (copy_texts-IsDeepCopy.copied v.nameservers m d.nameservers nameservers n agree, domain);
}

module _ (kubernetes : Kubernetes) (documented : Documented kubernetes) where
  open kubernetes use {copy_config, copy_condition, copy_object_meta, copy_list_meta}

  copy_held-IsDeepCopy : IsDeepCopy (At config StandsConfig) (copy_pointer config copy_config)
  copy_held-IsDeepCopy = copy_pointer-IsDeepCopy config StandsConfig documented.config

  copy_conditions-IsDeepCopy :
      IsDeepCopy (At conditions (Each Same)) (copy_pointer conditions (copy_each copy_condition))
  copy_conditions-IsDeepCopy =
      copy_pointer-IsDeepCopy conditions (Each Same)
        (copy_each-IsDeepCopy Same Same-Local documented.condition)

  copy_discovered-IsDeepCopy : IsDeepCopy (At fields StandsFields) (copy_pointer fields copy_fields)
  copy_discovered-IsDeepCopy = copy_pointer-IsDeepCopy fields StandsFields copy_fields-IsDeepCopy

  copy_spec-Extends : (v : SpecValue) (m : Memory) → Extends m (copy_spec kubernetes v m).1
  unfolding copy_spec
  copy_spec-Extends v m =
      let c = copy_texts-IsDeepCopy in
      Extends-trans (c.extends v.allowed_namespaces m) (
        Extends-trans (c.extends v.disabled_namespaces _) (
          Extends-trans (c.extends v.allowed_dns_policies _)
            (copy_held-IsDeepCopy.extends v.dns_config _)))

  pub copy_spec-IsDeepCopy : IsDeepCopy StandsSpec (copy_spec kubernetes)
  unfolding copy_spec
  copy_spec-IsDeepCopy = record {
    extends = copy_spec-Extends;
    copied = λ v m s (allowed, disabled, policies, policy, held).
        let c = copy_texts-IsDeepCopy in
        let h = copy_held-IsDeepCopy in
        let (p1, m1) = copy_texts v.allowed_namespaces m in
        let (p2, m2) = copy_texts v.disabled_namespaces m1 in
        let (p3, m3) = copy_texts v.allowed_dns_policies m2 in
        let (p4, m4) = copy_pointer config copy_config v.dns_config m3 in
        let e1 : Extends m m1 = c.extends v.allowed_namespaces m in
        let e2 : Extends m1 m2 = c.extends v.disabled_namespaces m1 in
        let e3 : Extends m2 m3 = c.extends v.allowed_dns_policies m2 in
        let e4 : Extends m3 m4 = h.extends v.dns_config m3 in
        λ n agree. (
          Lives-within Strings c Strings-Local (Extends-refl m) allowed
              (Extends-trans e2 (Extends-trans e3 e4)) n agree,
          Lives-within Strings c Strings-Local e1 disabled (Extends-trans e3 e4) n agree,
          Lives-within Strings c Strings-Local (Extends-trans e1 e2) policies e4 n agree,
          policy,
          Lives-within (At config StandsConfig) h (At-Local config StandsConfig StandsConfig-Local)
              (Extends-trans e1 (Extends-trans e2 e3)) held (Extends-refl m4) n agree,
        );
  }

  copy_status-Extends : (v : StatusValue) (m : Memory) → Extends m (copy_status kubernetes v m).1
  unfolding copy_status
  copy_status-Extends v m =
      Extends-trans (copy_conditions-IsDeepCopy.extends v.conditions m)
        (copy_discovered-IsDeepCopy.extends v.discovered_fields _)

  pub copy_status-IsDeepCopy : IsDeepCopy StandsStatus (copy_status kubernetes)
  unfolding copy_status
  copy_status-IsDeepCopy = record {
    extends = copy_status-Extends;
    copied = λ v m s ((slice, held, same), state, discovered).
        let c = copy_conditions-IsDeepCopy in
        let d = copy_discovered-IsDeepCopy in
        let (p1, m1) = copy_pointer conditions (copy_each copy_condition) v.conditions m in
        let (p2, m2) = copy_pointer fields copy_fields v.discovered_fields m1 in
        let e1 : Extends m m1 = c.extends v.conditions m in
        let e2 : Extends m1 m2 = d.extends v.discovered_fields m1 in
        λ n agree. (
          (
            slice,
            Lives-within (At conditions (Each Same)) c
                (At-Local conditions (Each Same) (Each-Local Same Same-Local)) (Extends-refl m) held
                e2 n agree,
            same,
          ),
          state,
          Lives-within (At fields StandsFields) d (At-Local fields StandsFields StandsFields-Local)
              e1 discovered (Extends-refl m2) n agree,
        );
  }

  copy_class-Extends : (v : ClassValue) (m : Memory) → Extends m (copy_class kubernetes v m).1
  unfolding copy_class
  copy_class-Extends v m =
      Extends-trans (documented.object_meta.extends v.object_meta m)
        (Extends-trans (copy_spec-Extends v.spec _) (copy_status-Extends v.status _))

  pub copy_class-IsDeepCopy : IsDeepCopy StandsClass (copy_class kubernetes)
  unfolding copy_class
  copy_class-IsDeepCopy = record {
    extends = copy_class-Extends;
    copied = λ v m x (type_meta, object_meta, of_spec, of_status).
        let (meta, m1) = copy_object_meta v.object_meta m in
        let (s, m2) = copy_spec kubernetes v.spec m1 in
        let (t, m3) = copy_status kubernetes v.status m2 in
        let e1 : Extends m m1 = documented.object_meta.extends v.object_meta m in
        let e2 : Extends m1 m2 = copy_spec-Extends v.spec m1 in
        let e3 : Extends m2 m3 = copy_status-Extends v.status m2 in
        λ n agree. (
          type_meta,
          Lives-within StandsMeta documented.object_meta StandsMeta-Local {x = x} (Extends-refl m)
              object_meta (Extends-trans e2 e3) n agree,
          Lives-within StandsSpec copy_spec-IsDeepCopy StandsSpec-Local e1 of_spec e3 n agree,
          Lives-within StandsStatus copy_status-IsDeepCopy StandsStatus-Local (Extends-trans e1 e2)
              of_status (Extends-refl m3) n agree,
        );
  }

  copy_items-IsDeepCopy :
      IsDeepCopy
        (At classes (Each StandsClass))
        (copy_pointer classes (copy_each (copy_class kubernetes)))
  copy_items-IsDeepCopy =
      copy_pointer-IsDeepCopy classes (Each StandsClass)
        (copy_each-IsDeepCopy StandsClass StandsClass-Local copy_class-IsDeepCopy)

  pub copy_list-IsDeepCopy : IsDeepCopy StandsList (copy_list kubernetes)
  unfolding copy_list
  copy_list-IsDeepCopy = record {
    extends = λ v m.
        Extends-trans (documented.list_meta.extends v.list_meta m)
          (copy_items-IsDeepCopy.extends v.items _);
    copied = λ v m l (type_meta, list_meta, held).
        let (meta, m1) = copy_list_meta v.list_meta m in
        let (items, m2) = copy_pointer classes (copy_each (copy_class kubernetes)) v.items m1 in
        let e1 : Extends m m1 = documented.list_meta.extends v.list_meta m in
        let e2 : Extends m1 m2 = copy_items-IsDeepCopy.extends v.items m1 in
        λ n agree. (
          type_meta,
          Lives-within StandsListMeta documented.list_meta StandsListMeta-Local {x = l}
              (Extends-refl m) list_meta e2 n agree,
          Lives-within (At classes (Each StandsClass)) copy_items-IsDeepCopy
              (At-Local classes (Each StandsClass) (Each-Local StandsClass StandsClass-Local)) e1
              held (Extends-refl m2) n agree,
        );
  }

  pub new_class-IsDeepCopy : IsDeepCopy (At class StandsClass) (new_class kubernetes)
  unfolding new_class
  new_class-IsDeepCopy = copy_pointer-IsDeepCopy class StandsClass copy_class-IsDeepCopy

  pub new_list-IsDeepCopy : IsDeepCopy (At class_list StandsList) (new_list kubernetes)
  unfolding new_list
  new_list-IsDeepCopy = copy_pointer-IsDeepCopy class_list StandsList copy_list-IsDeepCopy

  pub new_spec-IsDeepCopy : IsDeepCopy (At spec StandsSpec) (new_spec kubernetes)
  unfolding new_spec
  new_spec-IsDeepCopy = copy_pointer-IsDeepCopy spec StandsSpec copy_spec-IsDeepCopy

  pub new_status-IsDeepCopy : IsDeepCopy (At status StandsStatus) (new_status kubernetes)
  unfolding new_status
  new_status-IsDeepCopy = copy_pointer-IsDeepCopy status StandsStatus copy_status-IsDeepCopy

pub new_fields-IsDeepCopy : IsDeepCopy (At fields StandsFields) new_fields
unfolding new_fields
new_fields-IsDeepCopy = copy_pointer-IsDeepCopy fields StandsFields copy_fields-IsDeepCopy

-- Let the deep copies of the Kubernetes types be deep copies. Then so is `DeepCopy` of `DNSClass`,
-- of `DNSClassList`, of `DNSClassSpec`, of `DNSClassStatus` and of `DiscoveredFields`: the old cells
-- are kept, and the copy of a nil pointer is nil, and of any other pointer one that stands for the
-- same by new cells only.
pub copies-IsDeepCopy :
    (kubernetes : Kubernetes) (documented : Documented kubernetes)
    → IsDeepCopy (At class StandsClass) (new_class kubernetes)
      × IsDeepCopy (At class_list StandsList) (new_list kubernetes)
      × IsDeepCopy (At spec StandsSpec) (new_spec kubernetes)
      × IsDeepCopy (At status StandsStatus) (new_status kubernetes)
      × IsDeepCopy (At fields StandsFields) new_fields
copies-IsDeepCopy kubernetes documented = (
  new_class-IsDeepCopy kubernetes documented,
  new_list-IsDeepCopy kubernetes documented,
  new_spec-IsDeepCopy kubernetes documented,
  new_status-IsDeepCopy kubernetes documented,
  new_fields-IsDeepCopy,
)
