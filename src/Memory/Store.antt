-- ===== src/Memory/Store.antt =====
-- What a write to a config leaves as it is, and what it changes.
use kubedns_shepherd.Base.{
  none-ne_some, ℕ, zero, suc, [], ◌∷◌, none, some, length, get_elem?, ◌≡◌, ◌≢◌, ◌<◌, refl, sym, ◌∙◌,
  ap, arith, Option-cases, inl, inr,
}
use kubedns_shepherd.Memory.{Memory, Cell, Kind, load, held, store, ConfigValue}
use kubedns_shepherd.Memory.Kinds.{text, texts, options, config}
use kubedns_shepherd.Memory.Stands.{
  Relation, Same, At, Each, Strings, StandsOption, StandsConfig, StandsFields,
}

module _ {V : Type 0} (k : Kind V) where
  pub length-store : (a : ℕ) (v : V) (m : Memory) → length (store k a v m) ≡ length m
  unfolding store
  length-store a v [] = refl
  length-store zero v (c ∷ m) = refl
  length-store (suc a) v (c ∷ m) = ap suc (length-store a v m)

  pub get_elem?-store_ne :
      (a b : ℕ) (v : V) (m : Memory) → a ≢ b → get_elem? (store k a v m) b ≡ get_elem? m b
  unfolding store
  get_elem?-store_ne a b v [] h = refl
  get_elem?-store_ne zero zero v (c ∷ m) h = absurd (h refl)
  get_elem?-store_ne zero (suc b) v (c ∷ m) h = refl
  get_elem?-store_ne (suc a) zero v (c ∷ m) h = refl
  get_elem?-store_ne (suc a) (suc b) v (c ∷ m) h = get_elem?-store_ne a b v m (λ e. h (ap suc e))

  pub load-store : (a : ℕ) (v : V) (m : Memory) → a < length m → load k (store k a v m) a ≡ some v
  unfolding store
  load-store a v [] h = absurd (omega arith)
  load-store zero v (c ∷ m) h = k.view-cell v
  load-store (suc a) v (c ∷ m) h = load-store a v m (omega arith)

-- `n` holds each cell of `m` that is no config.
abbrev pub KeepsOthers : Memory → Memory → Type 0
KeepsOthers m n =
    (b : ℕ) (c : Cell) → get_elem? m b ≡ some c → config.view c ≡ none → get_elem? n b ≡ some c

pub store-KeepsOthers :
    (a : ℕ) (v : ConfigValue) (m : Memory) {w : ConfigValue}
    → load config m a ≡ some w
    → KeepsOthers m (store config a v m)
unfolding store
store-KeepsOthers a v [] found b c here other = here
store-KeepsOthers zero v (d ∷ m) found zero c here other =
    absurd (none-ne_some (sym other ∙ ap (held config) (sym here) ∙ found))
store-KeepsOthers zero v (d ∷ m) found (suc b) c here other = here
store-KeepsOthers (suc a) v (d ∷ m) found zero c here other = here
store-KeepsOthers (suc a) v (d ∷ m) found (suc b) c here other =
    store-KeepsOthers a v m found b c here other

-- The cells of the kind are no configs.
abbrev IsOther : {V : Type 0} → Kind V → Type 0
IsOther {V} k = (c : Cell) (v : V) → k.view c ≡ some v → config.view c ≡ none

text-IsOther : IsOther text
text-IsOther (Cell.config w) v h = absurd (none-ne_some h)
text-IsOther _ v h = refl

abbrev Kept : {V A : Type 0} → Relation V A → Type 0
Kept {V} {A} S = (m n : Memory) (v : V) (x : A) → KeepsOthers m n → S m v x → S n v x

texts-IsOther : IsOther texts
texts-IsOther (Cell.config w) v h = absurd (none-ne_some h)
texts-IsOther _ v h = refl

options-IsOther : IsOther options
options-IsOther (Cell.config w) v h = absurd (none-ne_some h)
options-IsOther _ v h = refl

Same-Kept : {A : Type 0} → Kept (Same {A = A})
Same-Kept m n v x keeps e = e

module _ {V A : Type 0} (k : Kind V) (other : IsOther k) (S : Relation V A) (kept : Kept S) where
  pub load-kept :
      (m n : Memory) (a : ℕ) {v : V} → KeepsOthers m n → load k m a ≡ some v → load k n a ≡ some v
  load-kept m n a {v} keeps e = elim (Option-cases (get_elem? m a)) [
    | inl absent ↦ absurd (none-ne_some (sym (ap (held k) absent) ∙ e))
    | inr (c, found) ↦
        let viewed : k.view c ≡ some v = sym (ap (held k) found) ∙ e in
        ap (held k) (keeps a c found (other c v viewed)) ∙ viewed
  ]

  At-Kept : Kept (At k S)
  At-Kept m n none none keeps s = tt
  At-Kept m n (some a) (some x) keeps (v, found, s) =
      (v, load-kept m n a keeps found, kept m n v x keeps s)
  At-Kept m n none (some x) keeps s = s
  At-Kept m n (some a) none keeps s = s

pub Strings-Kept : Kept Strings
Strings-Kept = At-Kept texts texts-IsOther Same Same-Kept

StandsOption-Kept : Kept StandsOption
StandsOption-Kept m n v o keeps (name, value) =
    (name, At-Kept text text-IsOther Same Same-Kept m n v.value o.value keeps value)

Each-Kept : Kept (Each StandsOption)
Each-Kept m n [] [] keeps s = tt
Each-Kept m n (v ∷ vs) (x ∷ xs) keeps (s, rest) =
    (StandsOption-Kept m n v x keeps s, Each-Kept m n vs xs keeps rest)
Each-Kept m n [] (x ∷ xs) keeps s = s
Each-Kept m n (v ∷ vs) [] keeps s = s

-- A config holds no pointer to a config: it stands for the same after a write to one.
pub StandsConfig-Kept : Kept StandsConfig
StandsConfig-Kept m n v c keeps (nameservers, searches, held) = (
  Strings-Kept m n v.nameservers c.nameservers keeps nameservers,
  Strings-Kept m n v.searches c.searches keeps searches,
  At-Kept options options-IsOther (Each StandsOption) Each-Kept m n v.options c.options keeps held,
)

pub StandsFields-Kept : Kept StandsFields
StandsFields-Kept m n v d keeps (nameservers, domain) =
    (Strings-Kept m n v.nameservers d.nameservers keeps nameservers, domain)
