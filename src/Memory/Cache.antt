-- ===== src/Memory/Cache.antt =====
-- The webhook configures a pod with a class that the client has listed. The client of the manager
-- lists deep copies of the classes that it caches, so that the writes of `configureDNSForPod` do not
-- reach the cache.
use kubedns_shepherd.Base.{
  some-injective, none-ne_some, ℕ, zero, suc, List, [], ◌∷◌, Option, none, some, length, get_elem?,
  ◌≡◌, ◌≢◌, ◌<◌, refl, sym, ◌∙◌, ap, arith,
}
use kubedns_shepherd.Api.{DnsClass, PodDnsConfig}
use kubedns_shepherd.Templates.{TemplateEngine}
use kubedns_shepherd.Pods.{Pod, configure_dns_for_pod}
use kubedns_shepherd.Memory.{Pointer, Memory, ClassValue, load, store, copy_each}
use kubedns_shepherd.Memory.Kinds.{text, config}
use kubedns_shepherd.Memory.Copies.{Kubernetes, copy_class}
use kubedns_shepherd.Memory.Stands.{Relation, At, Each, StandsConfig, StandsClass}
use kubedns_shepherd.Memory.Copied.{
  Lives, IsDeepCopy, Extends-le, Extends-AgreeOn, copy_each-IsDeepCopy, Each-Local,
}
use kubedns_shepherd.Memory.Local.{StandsClass-Local}
use kubedns_shepherd.Memory.DeepCopy.{Documented, copy_class-IsDeepCopy}
use kubedns_shepherd.Memory.Store.{get_elem?-store_ne}
use kubedns_shepherd.Memory.Configure.{PodValue, configure_value}
use kubedns_shepherd.Memory.Refines.{StandsPod, StandsResult}
use kubedns_shepherd.Memory.Configured.{configure_value-StandsResult}
use kubedns_shepherd.Memory.Writes.{Leaves, Leaves-map, configure_value-ChangesOnly}

Each-get :
    {V A : Type 0} (S : Relation V A) (m : Memory) (vs : List V) (xs : List A) (i : ℕ) {v : V}
    {x : A}
    → Each S m vs xs
    → get_elem? vs i ≡ some v
    → get_elem? xs i ≡ some x
    → S m v x
Each-get S m [] [] i s e f = absurd (none-ne_some e)
Each-get S m (v ∷ vs) (x ∷ xs) zero (s, rest) e f = rw⁻¹ (some-injective e, some-injective f) s
Each-get S m (v ∷ vs) (x ∷ xs) (suc i) (s, rest) e f = Each-get S m vs xs i rest e f
Each-get S m [] (x ∷ xs) i s e f = absurd s
Each-get S m (v ∷ vs) [] i s e f = absurd s

-- A cell that holds a text holds no config.
text_stored : (a : ℕ) (m : Memory) → load config (store text a [] m) a ≡ none
unfolding store
text_stored a [] = refl
text_stored zero (c ∷ m) = refl
text_stored (suc a) (c ∷ m) = text_stored a m

no_config :
    (m : Memory) (a : ℕ) (p : Pointer) (o : Option PodDnsConfig)
    → load config m a ≡ none
    → p ≡ some a
    → ¬ At config StandsConfig m p o
no_config m a none o absent e s = none-ne_some e
no_config m a (some b) none absent e s = s
no_config m a (some b) (some c) absent e (held, found, s) =
    none-ne_some (sym absent ∙ ap (load config m) (sym (some-injective e)) ∙ found)

-- A class that lives by the cells from `lo` on has its config there.
Lives-config :
    (lo : ℕ) (m : Memory) (w : ClassValue) (c : DnsClass) (a : ℕ)
    → Lives StandsClass lo m w c
    → a < lo
    → w.spec.dns_config ≢ some a
Lives-config lo m w c a lives low e =
    let n = store text a [] m in
    let (_, _, spec, _) =
      lives n (λ b l u. get_elem?-store_ne text a b [] m (λ q. omega (arith, low, l, q))) in
    no_config n a w.spec.dns_config c.spec.dns_config (text_stored a m) e spec.4

-- What the client lists, and the memory that it leaves.
abbrev pub listed : Kubernetes → List ClassValue → Memory → List ClassValue × Memory
listed kubernetes cached m = copy_each (copy_class kubernetes) cached m

module _ (kubernetes : Kubernetes) (documented : Documented kubernetes) (engine : TemplateEngine)
    (m : Memory) (cached : List ClassValue) (classes : List DnsClass)
    (stands : Each StandsClass m cached classes) (i : ℕ) (w : ClassValue) (c : DnsClass)
    (found : get_elem? ((listed kubernetes cached m).0) i ≡ some w)
    (is_class : get_elem? classes i ≡ some c) where
  copies : IsDeepCopy (Each StandsClass) (copy_each (copy_class kubernetes))
  copies =
      copy_each-IsDeepCopy StandsClass StandsClass-Local
        (copy_class-IsDeepCopy kubernetes documented)

  listed_Lives : Lives StandsClass (length m) ((listed kubernetes cached m).1) w c
  listed_Lives o agree =
      Each-get StandsClass o ((listed kubernetes cached m).0) classes i
        (copies.copied cached m classes stands o agree) found is_class

  -- On a listed copy the code does what it does on values.
  pub listed-StandsResult :
      (v : PodValue) (p : Pod)
      → StandsPod ((listed kubernetes cached m).1) v p
      → StandsResult
          (configure_value engine v w ((listed kubernetes cached m).1))
          (configure_dns_for_pod engine p c)
  listed-StandsResult v p pod =
      configure_value-StandsResult engine ((listed kubernetes cached m).1) v p w c pod
        (listed_Lives ((listed kubernetes cached m).1) (λ a l u. refl))

  -- And it leaves the cached classes as they are.
  pub listed-Leaves :
      (v : PodValue)
      → Leaves
          (λ n. Each StandsClass n cached classes)
          (configure_value engine v w ((listed kubernetes cached m).1))
  listed-Leaves v =
      Leaves-map _ _ (configure_value engine v w ((listed kubernetes cached m).1))
        (λ n changes.
          Each-Local StandsClass StandsClass-Local m n cached classes
            (λ a l u.
              changes a (omega (arith, u, Extends-le (copies.extends cached m)))
                (Lives-config (length m) ((listed kubernetes cached m).1) w c a listed_Lives u)
              ∙ Extends-AgreeOn 0 (copies.extends cached m) a l u)
            stands)
        (configure_value-ChangesOnly engine v w ((listed kubernetes cached m).1))
