-- ===== src/Memory/Configured.antt =====
-- The branches of `configureDNSForPod` on memory, and the whole of it.
use kubedns_shepherd.Base.{
  ℕ, List, [], ◌∷◌, ◌++◌, Option, none, some, Text, text_eq, items, length, Result, ok, err, done,
  ◌≡◌, refl, ◌∙◌, ap, Bool-cases, inl, inr,
}
use kubedns_shepherd.Api.{DnsClass, PodDnsConfig, DiscoveredFields, dns_none}
use kubedns_shepherd.Templates.{TemplateEngine}
use kubedns_shepherd.Pods.{
  Pod, config_or_new, set_config, configure_none, configure_dns_for_pod, parameter_map,
  render_searches,
}
use kubedns_shepherd.Memory.{
  Pointer, Memory, ConfigValue, FieldsValue, ClassValue, allocate, load, deref,
}
use kubedns_shepherd.Memory.Kinds.{texts, config, fields}
use kubedns_shepherd.Memory.Stands.{
  AgreeOn, Extends, Same, At, StandsConfig, StandsFields, StandsClass,
}
use kubedns_shepherd.Memory.Copied.{
  Extends-refl, Extends-AgreeOn, load_new, load-agree, At-Local, allocated-Extends,
}
use kubedns_shepherd.Memory.Local.{StandsConfig-Local, StandsFields-Local}
use kubedns_shepherd.Memory.Configure.{
  PodValue, empty_config, config_address, with_searches, configure_none_value, configure_value,
}
use kubedns_shepherd.Memory.Refines.{
  SamePod, StandsPod, StandsResult, Strings-strings, SameHead, set_policy-SamePod,
  set_config-StandsResult,
}

config_address-Stands :
    (p : Pointer) (m : Memory) (o : Option PodDnsConfig)
    → At config StandsConfig m p o
    → let (a, m1) = config_address p m in
      Extends m m1
      × (held : ConfigValue) × (load config m1 a ≡ some held)
      × StandsConfig m1 held (config_or_new o)
unfolding config_address allocate
config_address-Stands none m none s = (
  allocated-Extends config StandsConfig empty_config m,
  empty_config,
  load_new config StandsConfig m _ empty_config (λ a low high. refl),
  (tt, tt, tt),
)
config_address-Stands (some a) m (some c) (held, found, s) = (Extends-refl m, held, found, s)
config_address-Stands none m (some c) s = absurd s
config_address-Stands (some a) m none s = absurd s

module _ (engine : TemplateEngine) (v : PodValue) (p : Pod) (pod : SamePod v p) (w : ClassValue)
    (c : DnsClass) (head : SameHead w c) where
  same_rendered :
      {n n' k k' : Text} {xs ys : List Text}
      → n ≡ n'
      → k ≡ k'
      → xs ≡ ys
      → render_searches engine (parameter_map n k) [] xs
        ≡ render_searches engine (parameter_map n' k') [] ys
  same_rendered e f g = cc

  with_searches-StandsResult :
      (m : Memory) (a : ℕ) (held : ConfigValue) (o : PodDnsConfig)
      → load config m a ≡ some held
      → StandsConfig m held o
      → (d : FieldsValue) (d' : DiscoveredFields) → StandsFields m d d'
      → At config StandsConfig m v.dns_config p.dns_config
      → (r : Result Text (List Text))
      → StandsResult
          (done (with_searches engine r a held d v w m))
          (elim r [ err e ↦ done (p, some e) | ok xs ↦ done (set_config engine xs o d' p c) ])
  unfolding with_searches allocate
  with_searches-StandsResult m a held o found stands d d' discovered before (err e) =
      ((pod, before), refl)
  with_searches-StandsResult m a held o found stands d d' discovered before (ok xs) =
      let m1 = m ++ (texts.cell xs ∷ []) in
      let same : AgreeOn 0 (length m) m m1 =
        Extends-AgreeOn 0 (allocated-Extends texts Same xs m) in
      set_config-StandsResult engine m1 a held o (load-agree config StandsConfig m m1 a same found)
        (StandsConfig-Local m m1 held o same stands) d d'
        (StandsFields-Local m m1 d d' same discovered) v p pod w c head (some (length m)) xs
        (xs, load_new texts Same m m1 xs (λ b low high. refl), refl)

  configure_none-StandsResult :
      (m : Memory)
      → At config StandsConfig m v.dns_config p.dns_config
      → At config StandsConfig m w.spec.dns_config c.spec.dns_config
      → (q : Pointer) (o : Option DiscoveredFields) → At fields StandsFields m q o
      → StandsResult
          (configure_none_value engine (deref fields q m) v w m)
          (configure_none engine o p c)
  unfolding configure_none_value configure_none
  configure_none-StandsResult m before held none none s = tt
  configure_none-StandsResult m before held none (some d') s = absurd s
  configure_none-StandsResult m before held (some b) none s = absurd s
  configure_none-StandsResult m before held (some b) (some d') (d, found, s) =
      let (a, m1) = config_address w.spec.dns_config m in
      let (more, config', loaded, stands) =
        config_address-Stands w.spec.dns_config m c.spec.dns_config held in
      let same : AgreeOn 0 (length m) m m1 = Extends-AgreeOn 0 more in
      let o = config_or_new c.spec.dns_config in
      let r =
        render_searches engine (parameter_map p.namespace d'.cluster_domain) []
          (items o.searches) in
      let e = same_rendered pod.0 s.1 (Strings-strings m1 config'.searches o.searches stands.1) in
      let result =
        with_searches-StandsResult m1 a config' o loaded stands d d'
          (StandsFields-Local m m1 d d' same s)
          (At-Local config StandsConfig StandsConfig-Local m m1 v.dns_config p.dns_config same
            before)
          r in
      rw (found, configure_none_value) (rw loaded (rw e result))

-- On a memory in which the class and the pod are found, `configureDNSForPod` returns the pod and the
-- error that it returns on values, and it panics where it does so on values; also where the
-- config of the pod is that of the class, or shares its strings.
pub configure_value-StandsResult :
    (engine : TemplateEngine) (m : Memory) (v : PodValue) (p : Pod) (w : ClassValue) (c : DnsClass)
    → StandsPod m v p
    → StandsClass m w c
    → StandsResult (configure_value engine v w m) (configure_dns_for_pod engine p c)
unfolding configure_value configure_dns_for_pod
configure_value-StandsResult engine m v p w c (pod, before) (_, meta, spec, status) =
    let head : SameHead w c = (spec.3, meta.0) in
    let same = ap (λ x. text_eq x dns_none) (spec.3) in
    elim (Bool-cases (text_eq c.spec.dns_policy dns_none)) [
      | inl e ↦
          rw (same ∙ e, e)
            (configure_none-StandsResult engine v p pod w c head m before spec.4
              w.status.discovered_fields c.status.discovered_fields status.2)
      | inr e ↦ rw (same ∙ e, e) ((set_policy-SamePod v p w c pod head, before), refl)
    ]
