-- ===== src/Tests/MemoryTests.antt =====
-- A class in memory, with its copies, and the theorems at it.
use kubedns_shepherd.Base.{
  List, [], ◌∷◌, Option, none, some, pos, Text, codes, Run, done, panic, text_eq, lookup, assign,
  ◌≡◌, refl,
}
use kubedns_shepherd.Api.{DnsClassList, dns_cluster_first}
use kubedns_shepherd.Templates.Engine.{field_engine, parse_pieces}
use kubedns_shepherd.Api.Keys.{
  match_key, match_field, match_word, closes, span_word, skip_spaces, is_word, is_space,
}
use kubedns_shepherd.Pods.{render_search, configure_dns_for_pod}
use kubedns_shepherd.Memory.{copy_pointer, Memory, ClassValue, copy_each}
use kubedns_shepherd.Memory.Kinds.{fields, spec, status, class, class_list}
use kubedns_shepherd.Memory.Copies.{
  copy_spec, copy_status, copy_fields, class_object, list_object, new_class, new_list, new_spec,
  new_status, new_fields, copy_class,
}
use kubedns_shepherd.Memory.Stands.{
  At, Each, StandsFields, StandsSpec, StandsStatus, StandsClass, StandsList,
}
use kubedns_shepherd.Memory.Copied.{IsDeepCopy}
use kubedns_shepherd.Memory.DeepCopy.{copies-IsDeepCopy}
use kubedns_shepherd.Memory.Isolated.{Isolated, StandsObject, StandsListObject, objects-Isolated}
use kubedns_shepherd.Memory.Configure.{PodValue, strings, configure_value}
use kubedns_shepherd.Memory.Refines.{StandsResult}
use kubedns_shepherd.Memory.Cache.{listed}
use kubedns_shepherd.Memory.Handled.{Handled, start, configure, Handled-StandsResult}
use kubedns_shepherd.Tests.MemoryFixtures.{
  kubernetes, documented, kind, held, held_list, cells, held-StandsClass,
}
use kubedns_shepherd.Tests.Fixtures.{ready_class, pod}

abbrev listed_class : DnsClassList
listed_class = record {
  type_meta = kind;
  resource_version = codes "17";
  remaining_item_count = some (pos 3);
  items = some (ready_class ∷ []);
}

abbrev held_pod : PodValue
held_pod = record {
  namespace = codes "default";
  annotations = none;
  dns_policy = dns_cluster_first;
  dns_config = none;
  other = codes "containers";
}

-- On a cached class itself, the code would put the searches of one pod into the cache.
abbrev searches_of : Run ((PodValue × Option Text) × Memory) → List Text
searches_of panic = []
searches_of (done (r, m)) = strings (some 20) m

aliased_test :
    searches_of (configure_value field_engine held_pod held cells)
    ≡ codes "default.svc.cluster.local" ∷ codes "local" ∷ []
unfolding configure_value text_eq lookup render_search parse_pieces match_key match_field
    skip_spaces is_space match_word span_word is_word closes assign
aliased_test = refl

objects-Isolated_example :
    Isolated
      (At class StandsClass)
      StandsObject
      cells
      (class_object kubernetes (some 6) cells).1
      (some 6)
      (class_object kubernetes (some 6) cells).0
      (some ready_class)
    × Isolated
        (At class_list StandsList)
        StandsListObject
        cells
        (list_object kubernetes (some 8) cells).1
        (some 8)
        (list_object kubernetes (some 8) cells).0
        (some listed_class)
objects-Isolated_example =
    objects-Isolated kubernetes documented (some 6) (some 8) cells (some ready_class)
      (some listed_class) (held, refl, held-StandsClass)
      (
        held_list,
        refl,
        (refl, (refl, (pos 3, refl, refl)), (held ∷ [], refl, (held-StandsClass, tt))),
      )

copies-IsDeepCopy_example :
    IsDeepCopy (At class StandsClass) (new_class kubernetes)
    × IsDeepCopy (At class_list StandsList) (new_list kubernetes)
    × IsDeepCopy (At spec StandsSpec) (new_spec kubernetes)
    × IsDeepCopy (At status StandsStatus) (new_status kubernetes)
    × IsDeepCopy (At fields StandsFields) new_fields
copies-IsDeepCopy_example = copies-IsDeepCopy kubernetes documented

abbrev copies : List ClassValue × Memory
copies = listed kubernetes (held ∷ []) cells

-- The copy of the class.
abbrev copied_class : ClassValue
copied_class = (copy_class kubernetes held cells).0

-- The pod is configured once, and then again.
abbrev first_run : Run ((PodValue × Option Text) × Memory)
first_run = configure_value field_engine held_pod copied_class copies.1

abbrev pod_of : Run ((PodValue × Option Text) × Memory) → PodValue × Option Text
pod_of panic = (held_pod, none)
pod_of (done (r, m)) = r

abbrev memory_of : Run ((PodValue × Option Text) × Memory) → Memory
memory_of panic = []
memory_of (done (r, m)) = m

first_run-done : first_run ≡ done (pod_of first_run, memory_of first_run)
unfolding configure_value text_eq lookup render_search parse_pieces match_key match_field
    skip_spaces is_space match_word span_word is_word closes assign copy_class copy_spec copy_status
    copy_pointer copy_each copy_fields
first_run-done = refl

abbrev second : List ClassValue × Memory
second = listed kubernetes (held ∷ []) (memory_of first_run)

abbrev second_class : ClassValue
second_class = (copy_class kubernetes held (memory_of first_run)).0

first_Handled : Handled kubernetes field_engine (held ∷ []) cells (memory_of first_run)
unfolding copy_each
first_Handled = configure start 0 copied_class held_pod (pod_of first_run) refl first_run-done

Handled-StandsResult_example :
    Each StandsClass (memory_of first_run) (held ∷ []) (ready_class ∷ [])
    × StandsResult
        (configure_value field_engine held_pod second_class second.1)
        (configure_dns_for_pod field_engine pod ready_class)
unfolding copy_each
Handled-StandsResult_example =
    Handled-StandsResult kubernetes field_engine (held ∷ []) documented (ready_class ∷ [])
      (held-StandsClass, tt) first_Handled 0 second_class ready_class refl refl held_pod pod
      ((refl, refl, refl, refl), tt)
