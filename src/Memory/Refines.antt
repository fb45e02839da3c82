-- ===== src/Memory/Refines.antt =====
-- `configureDNSForPod` on memory does what it does on values, and it writes to no cell that was
-- there before but the config of the class.
use kubedns_shepherd.Base.{
  ℕ, true, false, List, Option, none, some, Text, items, Slice, Run, done, panic, ◌≡◌, refl,
  Bool-cases, inl, inr,
}
use kubedns_shepherd.Api.{DnsClass, PodDnsConfig, DiscoveredFields}
use kubedns_shepherd.Templates.{TemplateEngine}
use kubedns_shepherd.Pods.{Pod, is_nil, or_else, set_policy, set_config}
use kubedns_shepherd.Memory.{Pointer, Memory, ConfigValue, FieldsValue, ClassValue, load, store}
use kubedns_shepherd.Memory.Kinds.{config}
use kubedns_shepherd.Memory.Stands.{Relation, At, Strings, StandsConfig, StandsFields}
use kubedns_shepherd.Memory.Copied.{load-lt}
use kubedns_shepherd.Memory.Configure.{
  PodValue, is_nil_pointer, strings, set_policy_value, set_config_value,
}
use kubedns_shepherd.Memory.Store.{load-store, store-KeepsOthers, StandsConfig-Kept, Strings-Kept}

-- The pod's fields, but for its config.
abbrev pub SamePod : PodValue → Pod → Type 0
SamePod v p =
    (v.namespace ≡ p.namespace)
    × (v.annotations ≡ p.annotations)
    × (v.dns_policy ≡ p.dns_policy)
    × (v.other ≡ p.other)

abbrev pub StandsPod : Relation PodValue Pod
StandsPod m v p = SamePod v p × At config StandsConfig m v.dns_config p.dns_config

-- The same result, on memory and on values.
abbrev pub StandsResult : Run ((PodValue × Option Text) × Memory) → Run (Pod × Option Text) → Type 0
StandsResult panic panic = Unit
StandsResult (done ((v, e), m)) (done (p, e')) = StandsPod m v p × (e ≡ e')
StandsResult panic (done r) = ⊥
StandsResult (done r) panic = ⊥

Strings-is_nil :
    (m : Memory) (p : Pointer) (s : Slice Text) → Strings m p s → is_nil_pointer p ≡ is_nil s
Strings-is_nil m none none h = refl
Strings-is_nil m (some a) (some xs) h = refl
Strings-is_nil m none (some xs) h = absurd h
Strings-is_nil m (some a) none h = absurd h

pub Strings-strings :
    (m : Memory) (p : Pointer) (s : Slice Text) → Strings m p s → strings p m ≡ items s
Strings-strings m none none h = refl
Strings-strings m (some a) (some xs) (ys, found, same) = rw (found, strings) same
Strings-strings m none (some xs) h = absurd h
Strings-strings m (some a) none h = absurd h

or_else-nil : (s t : Slice Text) → is_nil s ≡ true → or_else s t ≡ t
or_else-nil none t h = refl
or_else-nil (some xs) t h = cc

or_else-ne_nil : (s t : Slice Text) → is_nil s ≡ false → or_else s t ≡ s
or_else-ne_nil none t h = cc
or_else-ne_nil (some xs) t h = refl

-- A config in memory that is written over by another.
stored-Stands :
    (m : Memory) (a : ℕ) (held v : ConfigValue) (c : PodDnsConfig)
    → load config m a ≡ some held
    → StandsConfig m v c
    → let n = store config a v m in (load config n a ≡ some v) × StandsConfig n v c
stored-Stands m a held v c found stands = (
  load-store config a v m (load-lt config StandsConfig m a found),
  StandsConfig-Kept m _ v c (store-KeepsOthers a v m found) stands,
)

-- What the code reads of the class behind the branch.
abbrev pub SameHead : ClassValue → DnsClass → Type 0
SameHead v c = (v.spec.dns_policy ≡ c.spec.dns_policy) × (v.object_meta.name ≡ c.name)

pub set_policy-SamePod :
    (v : PodValue) (p : Pod) (w : ClassValue) (c : DnsClass)
    → SamePod v p
    → SameHead w c
    → SamePod (set_policy_value v w) (set_policy p c)
unfolding set_policy_value set_policy
set_policy-SamePod v p w c (namespace, annotations, policy, other) (head, name) =
    (namespace, rw (annotations, name) refl, head, other)

module _ (engine : TemplateEngine) (m : Memory) (a : ℕ) (held : ConfigValue) (c : PodDnsConfig)
    (found : load config m a ≡ some held) (stands : StandsConfig m held c) (d : FieldsValue)
    (d' : DiscoveredFields) (discovered : StandsFields m d d') (v : PodValue) (p : Pod)
    (pod : SamePod v p) (w : ClassValue) (w' : DnsClass) (head : SameHead w w') (searches : Pointer)
    (xs : List Text) (rendered : Strings m searches (some xs)) where
  pub set_config-StandsResult :
      StandsResult
        (done (set_config_value searches a held d v w m))
        (done (set_config engine xs c d' p w'))
  unfolding set_config_value set_config
  set_config-StandsResult =
      let nil_held = Strings-is_nil m held.nameservers c.nameservers stands.0 in
      let nil_found = Strings-is_nil m d.nameservers d'.nameservers discovered.0 in
      let configured = record held { searches = searches } in
      let (first, s1) =
        stored-Stands m a held configured (record c { searches = some xs }) found
          (stands.0, rendered, stands.2) in
      let m1 = store config a configured m in
      let (second, s2) =
        stored-Stands m1 a configured (record configured { nameservers = d.nameservers })
          (record c { searches = some xs; nameservers = d'.nameservers }) first
          (
            Strings-Kept m m1 d.nameservers d'.nameservers (store-KeepsOthers a configured m found)
                discovered.0,
            s1.1,
            s1.2,
          ) in
      let changed = set_policy-SamePod v p w w' pod head in
      rw (nil_held, nil_found)
        elim (Bool-cases (is_nil c.nameservers)) [
          | inl e ↦ rw e elim (Bool-cases (is_nil d'.nameservers)) [
            | inl f ↦ rw f ((pod, (configured, first, s1)), refl)
            | inr f ↦ rw f (
              (
                changed,
                rw (or_else-nil c.nameservers d'.nameservers e)
                    (record configured { nameservers = d.nameservers }, second, s2),
              ),
              refl,
            )
          ]
          | inr e ↦ rw e (
            (changed, rw (or_else-ne_nil c.nameservers d'.nameservers e) (configured, first, s1)),
            refl,
          )
        ]
