-- ===== src/Memory/Writes.antt =====
-- Which cells `configureDNSForPod` writes to.
use kubedns_shepherd.Base.{
  ℕ, List, [], ◌∷◌, ◌++◌, Option, none, some, Text, text_eq, length, get_elem?, length-append,
  get_elem?-append_left, Result, ok, err, Run, done, panic, ◌≡◌, ◌≢◌, ◌≤◌, ◌<◌, refl, ◌∙◌, ap,
  arith, Bool-cases, Option-cases, inl, inr,
}
use kubedns_shepherd.Api.{dns_none}
use kubedns_shepherd.Templates.{TemplateEngine}
use kubedns_shepherd.Memory.{
  Pointer, Memory, ConfigValue, FieldsValue, ClassValue, allocate, load, deref, store,
}
use kubedns_shepherd.Memory.Kinds.{texts, config, fields}
use kubedns_shepherd.Memory.Configure.{
  PodValue, is_nil_pointer, empty_config, config_address, set_config_value, with_searches,
  configure_none_value, configure_value,
}
use kubedns_shepherd.Memory.Store.{length-store, get_elem?-store_ne}

-- No cell is lost, and of the first `size` cells only the one at `a` may have changed.
pub record ChangesAt (size a : ℕ) (m n : Memory) : Type 0 where
  pub kept : length m ≤ length n
  pub same : (b : ℕ) → b < size → a ≢ b → get_elem? n b ≡ get_elem? m b

ChangesAt-refl : (size a : ℕ) (m : Memory) → ChangesAt size a m m
ChangesAt-refl size a m = record { kept = omega arith; same = λ b low other. refl }

ChangesAt-trans :
    {size a : ℕ} {m n o : Memory}
    → ChangesAt size a m n
    → ChangesAt size a n o
    → ChangesAt size a m o
ChangesAt-trans c d = record {
  kept = omega (arith, c.kept, d.kept);
  same = λ b low other. d.same b low other ∙ c.same b low other;
}

store-ChangesAt :
    (size a : ℕ) (v : ConfigValue) (m : Memory) → ChangesAt size a m (store config a v m)
store-ChangesAt size a v m = record {
  kept = omega (arith, length-store config a v m);
  same = λ b low other. get_elem?-store_ne config a b v m other;
}

append-ChangesAt : (size a : ℕ) (m tail : Memory) → size ≤ length m → ChangesAt size a m (m ++ tail)
append-ChangesAt size a m tail h = record {
  kept = omega (arith, length-append m tail);
  same = λ b low other. get_elem?-append_left m tail b (omega (arith, h));
}

set_config-ChangesAt :
    (size : ℕ) (searches : Pointer) (a : ℕ) (held : ConfigValue) (d : FieldsValue) (v : PodValue)
    (w : ClassValue) (m : Memory)
    → ChangesAt size a m (set_config_value searches a held d v w m).1
unfolding set_config_value
set_config-ChangesAt size searches a held d v w m =
    elim (Bool-cases (is_nil_pointer held.nameservers)) [
      | inl e ↦ rw e elim (Bool-cases (is_nil_pointer d.nameservers)) [
        | inl f ↦ rw f (store-ChangesAt size a _ m)
        | inr f ↦ rw f (ChangesAt-trans (store-ChangesAt size a _ m) (store-ChangesAt size a _ _))
      ]
      | inr e ↦ rw e (store-ChangesAt size a _ m)
    ]

with_searches-ChangesAt :
    (engine : TemplateEngine) (size : ℕ) (r : Result Text (List Text)) (a : ℕ) (held : ConfigValue)
    (d : FieldsValue) (v : PodValue) (w : ClassValue) (m : Memory)
    → size ≤ length m
    → ChangesAt size a m (with_searches engine r a held d v w m).1
unfolding with_searches allocate
with_searches-ChangesAt engine size (err e) a held d v w m h = ChangesAt-refl size a m
with_searches-ChangesAt engine size (ok xs) a held d v w m h =
    ChangesAt-trans (append-ChangesAt size a m (texts.cell xs ∷ []) h)
      (set_config-ChangesAt size (some (length m)) a held d v w (m ++ (texts.cell xs ∷ [])))

-- Of the cells of `m` only the config at `p` may have changed.
abbrev pub ChangesOnly : Pointer → Memory → Memory → Type 0
ChangesOnly p m n = (b : ℕ) → b < length m → p ≢ some b → get_elem? n b ≡ get_elem? m b

config_address-ChangesAt :
    (p : Pointer) (m : Memory) → let (a, m1) = config_address p m in ChangesAt (length m) a m m1
unfolding config_address allocate
config_address-ChangesAt none m =
    append-ChangesAt (length m) (length m) m (config.cell empty_config ∷ []) (omega arith)
config_address-ChangesAt (some a) m = ChangesAt-refl (length m) a m

ChangesAt-ChangesOnly :
    (p : Pointer) (m n : Memory)
    → ChangesAt (length m) (config_address p m).0 m n
    → ChangesOnly p m n
unfolding config_address
ChangesAt-ChangesOnly none m n c b low other = c.same b low (omega arith)
ChangesAt-ChangesOnly (some a) m n c b low other = c.same b low (λ e. other (ap some e))

-- The memory that a run leaves, if it comes to an end.
abbrev pub Leaves : {R : Type 0} → (Memory → Type 0) → Run (R × Memory) → Type 0
Leaves P panic = Unit
Leaves P (done (r, n)) = P n

pub Leaves-map :
    {R : Type 0} (P Q : Memory → Type 0) (r : Run (R × Memory))
    → ((n : Memory) → P n → Q n)
    → Leaves P r
    → Leaves Q r
Leaves-map P Q panic f h = tt
Leaves-map P Q (done (r, n)) f h = f n h

module _ (engine : TemplateEngine) (v : PodValue) (w : ClassValue) (m : Memory) where
  configure_none-ChangesOnly :
      (d : Option FieldsValue)
      → Leaves (ChangesOnly w.spec.dns_config m) (configure_none_value engine d v w m)
  unfolding configure_none_value
  configure_none-ChangesOnly none = tt
  configure_none-ChangesOnly (some d) =
      let (a, m1) = config_address w.spec.dns_config m in
      let first = config_address-ChangesAt w.spec.dns_config m in
      elim (Option-cases (load config m1 a)) [
        | inl e ↦ rw (e, configure_none_value) tt
        | inr (held, e) ↦
            rw (e, configure_none_value)
              (ChangesAt-ChangesOnly w.spec.dns_config m _ (
                ChangesAt-trans first
                  (with_searches-ChangesAt engine (length m) _ a held d v w m1 (first.kept))))
      ]

  -- `configureDNSForPod` writes to no cell that was there before, but to the config that the spec of
  -- the class points to.
  pub configure_value-ChangesOnly :
      Leaves (ChangesOnly w.spec.dns_config m) (configure_value engine v w m)
  unfolding configure_value
  configure_value-ChangesOnly = elim (Bool-cases (text_eq w.spec.dns_policy dns_none)) [
    | inl e ↦ rw e (configure_none-ChangesOnly (deref fields w.status.discovered_fields m))
    | inr e ↦ rw e λ b low other. refl
  ]
