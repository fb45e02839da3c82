-- ===== src/Memory/Handled.antt =====
-- The pod webhook on memory, for one pod after the other: the memory grows by what is decoded and
-- copied, and the cached classes stay what they are.
use kubedns_shepherd.Base.{
  ℕ, zero, suc, List, [], ◌∷◌, Option, some, Text, get_elem?, done, ◌≡◌, refl, subst, none-ne_some,
}
use kubedns_shepherd.Api.{DnsClass}
use kubedns_shepherd.Templates.{TemplateEngine}
use kubedns_shepherd.Pods.{Pod, configure_dns_for_pod}
use kubedns_shepherd.Memory.{Memory, ClassValue}
use kubedns_shepherd.Memory.Copies.{Kubernetes}
use kubedns_shepherd.Memory.Stands.{Relation, Extends, Each, StandsClass}
use kubedns_shepherd.Memory.Copied.{Extends-AgreeOn, copy_each-IsDeepCopy, Each-Local}
use kubedns_shepherd.Memory.Local.{StandsClass-Local}
use kubedns_shepherd.Memory.DeepCopy.{Documented, copy_class-IsDeepCopy}
use kubedns_shepherd.Memory.Configure.{PodValue, configure_value}
use kubedns_shepherd.Memory.Refines.{StandsPod, StandsResult}
use kubedns_shepherd.Memory.Writes.{Leaves}
use kubedns_shepherd.Memory.Cache.{listed, listed-StandsResult, listed-Leaves}

Each-at :
    {V A : Type 0} (S : Relation V A) (m : Memory) (vs : List V) (xs : List A) (i : ℕ) {v : V}
    → Each S m vs xs
    → get_elem? vs i ≡ some v
    → (x : A) × (get_elem? xs i ≡ some x)
Each-at S m [] xs i s e = absurd (none-ne_some e)
Each-at S m (v ∷ vs) [] i s e = absurd s
Each-at S m (v ∷ vs) (x ∷ xs) zero s e = (x, refl)
Each-at S m (v ∷ vs) (x ∷ xs) (suc i) (s, rest) e = Each-at S m vs xs i rest e

module _ (kubernetes : Kubernetes) (engine : TemplateEngine) (cached : List ClassValue) where
  -- What the handling of any number of pods makes of a memory.
  pub data Handled (m : Memory) : Memory → Type 0 where
    start : Handled m m
    -- A pod is decoded: new cells are filled.
    decode : {n o : Memory} → Handled m n → Extends n o → Handled m o
    -- The classes are listed, and the pod is configured with one of the copies.
    configure :
        {n o : Memory}
        → Handled m n
        → (i : ℕ) (w : ClassValue) (v : PodValue) (r : PodValue × Option Text)
        → get_elem? ((listed kubernetes cached n).0) i ≡ some w
        → configure_value engine v w ((listed kubernetes cached n).1) ≡ done (r, o)
        → Handled m o

  module _ (documented : Documented kubernetes) (classes : List DnsClass) where
    Handled-Each :
        {m n : Memory}
        → Each StandsClass m cached classes
        → Handled m n
        → Each StandsClass n cached classes
    Handled-Each s start = s
    Handled-Each s (decode {n} {o} h more) =
        Each-Local StandsClass StandsClass-Local n o cached classes (Extends-AgreeOn 0 more)
          (Handled-Each s h)
    Handled-Each s (configure {n} h i w v r found ran) =
        let before = Handled-Each s h in
        let listed_classes =
          (copy_each-IsDeepCopy StandsClass StandsClass-Local
              (copy_class-IsDeepCopy kubernetes documented)).copied
            cached n classes before ((listed kubernetes cached n).1) (λ a l u. refl) in
        let (c, is_class) =
          Each-at StandsClass ((listed kubernetes cached n).1) ((listed kubernetes cached n).0)
            classes i listed_classes found in
        subst (Leaves (λ k. Each StandsClass k cached classes)) ran (
          listed-Leaves kubernetes documented engine n cached classes before i w c found is_class v)

    -- Let the cached classes be found in memory, and let the client list deep copies of them, as that
    -- of the manager does. Then, however many pods have been decoded and configured before, with
    -- whatever classes, each cached class is still what it was, and `configureDNSForPod` on the copy
    -- of any of them gives the next pod what it gives it on values, although the code writes through
    -- the pointers of the class.
    pub Handled-StandsResult :
        {m n : Memory}
        → Each StandsClass m cached classes
        → Handled m n
        → (i : ℕ) (w : ClassValue) (c : DnsClass)
        → get_elem? ((listed kubernetes cached n).0) i ≡ some w
        → get_elem? classes i ≡ some c
        → (v : PodValue) (p : Pod) → StandsPod ((listed kubernetes cached n).1) v p
        → Each StandsClass n cached classes
          × StandsResult
              (configure_value engine v w ((listed kubernetes cached n).1))
              (configure_dns_for_pod engine p c)
    Handled-StandsResult {m} {n} s h i w c found is_class v p pod =
        let before = Handled-Each s h in
        (
          before,
          listed-StandsResult kubernetes documented engine n cached classes before i w c found
              is_class v p pod,
        )
