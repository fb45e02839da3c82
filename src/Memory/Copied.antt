-- ===== src/Memory/Copied.antt =====
-- What makes a function on memory a deep copy, and the lemmas by which the functions of
-- api/v1alpha1/zz_generated.deepcopy.go are shown to be ones: for a pointer, for the elements of a
-- slice, and for a value without pointers.
use kubedns_shepherd.Base.{
  none-ne_some, ℕ, suc, List, [], ◌∷◌, ◌++◌, Option, none, some, length, get_elem?, length-append,
  get_elem?-append, get_elem?-append_left, get_elem?-lt, append-nil, append_assoc, ◌≡◌, ◌≤◌, ◌<◌,
  refl, sym, ◌∙◌, ap, arith, Option-cases, inl, inr,
}
use kubedns_shepherd.Memory.{
  Pointer, Memory, Kind, load, held, allocate, copy_pointer, plain, copy_each,
}
use kubedns_shepherd.Memory.Stands.{Relation, AgreeOn, Extends, Same, At, Each, Local}

pub Extends-refl : (m : Memory) → Extends m m
Extends-refl m = record { tail = []; appended = sym (append-nil m) }

pub Extends-trans : {m n o : Memory} → Extends m n → Extends n o → Extends m o
Extends-trans {m} e f = record {
  tail = e.tail ++ f.tail;
  appended = f.appended ∙ ap (λ x. x ++ f.tail) e.appended ∙ append_assoc m e.tail f.tail;
}

pub Extends-le : {m n : Memory} → Extends m n → length m ≤ length n
Extends-le {m} e = omega (arith, ap length e.appended, length-append m e.tail)

pub Extends-AgreeOn : {m n : Memory} (lo : ℕ) → Extends m n → AgreeOn lo (length m) m n
Extends-AgreeOn {m} lo e a low high =
    ap (λ x. get_elem? x a) e.appended ∙ get_elem?-append_left m e.tail a high

module _ {V A : Type 0} (S : Relation V A) where
  -- `v` stands for `x` by the cells of `m` from `lo` on alone.
  abbrev pub Lives : ℕ → Memory → V → A → Type 0
  Lives lo m v x = (n : Memory) → AgreeOn lo (length m) m n → S n v x

  -- The copy stands for what the original stands for, by new cells only; the old cells are kept.
  pub record IsDeepCopy (copy : V → Memory → V × Memory) : Type 0 where
    pub extends : (v : V) (m : Memory) → Extends m (copy v m).1
    pub copied :
        (v : V) (m : Memory) (x : A) → S m v x → Lives (length m) (copy v m).1 (copy v m).0 x

  -- More cells below and behind do no harm.
  pub Lives-widen :
      (lo low : ℕ) {m n : Memory} {v : V} {x : A}
      → Lives lo m v x
      → low ≤ lo
      → Extends m n
      → Lives low n v x
  Lives-widen lo low {m} {n} lives h ext o agree = lives o (λ a l u.
      agree a (omega arith) (omega (arith, Extends-le ext)) ∙ Extends-AgreeOn lo ext a l u)

  pub Local-Extends : {m n : Memory} {v : V} {x : A} → Local S → Extends m n → S m v x → S n v x
  Local-Extends local ext s = local _ _ _ _ (Extends-AgreeOn 0 ext) s

  -- One copy of several: `f` starts behind other copies, and others follow it.
  pub Lives-within :
      {f : V → Memory → V × Memory}
      → IsDeepCopy f
      → Local S
      → {m n o : Memory} {v : V} {x : A} → Extends m n
      → S m v x
      → Extends (f v n).1 o
      → Lives (length m) o (f v n).0 x
  Lives-within d local {m} {n} {o} {v} {x} before s after =
      Lives-widen (length n) (length m) (d.copied v n x (Local-Extends local before s))
        (Extends-le before) after

pub Same-Local : {A : Type 0} → Local (Same {A = A})
Same-Local m n v x agree e = e

pub plain-IsDeepCopy : {A : Type 0} → IsDeepCopy (Same {A = A}) plain
plain-IsDeepCopy = record { extends = λ v m. Extends-refl m; copied = λ v m x e n agree. e }

module _ {V A : Type 0} (k : Kind V) (S : Relation V A) where
  pub load-agree :
      (m n : Memory) (a : ℕ) {v : V}
      → AgreeOn 0 (length m) m n
      → load k m a ≡ some v
      → load k n a ≡ some v
  load-agree m n a {v} agree e = elim (Option-cases (get_elem? m a)) [
    | inl absent ↦ absurd (none-ne_some (sym (ap (held k) absent) ∙ e))
    | inr (c, found) ↦ ap (held k) (agree a (omega arith) (get_elem?-lt m a found)) ∙ e
  ]

  pub load-lt : (m : Memory) (a : ℕ) {v : V} → load k m a ≡ some v → a < length m
  load-lt m a e = elim (Option-cases (get_elem? m a)) [
    | inl absent ↦ absurd (none-ne_some (sym (ap (held k) absent) ∙ e))
    | inr (c, found) ↦ get_elem?-lt m a found
  ]

  pub At-Local : Local S → Local (At k S)
  At-Local local m n none none agree s = tt
  At-Local local m n (some a) (some x) agree (v, found, s) =
      (v, load-agree m n a agree found, local m n v x agree s)
  At-Local local m n none (some x) agree s = s
  At-Local local m n (some a) none agree s = s

  pub load_new :
      (m n : Memory) (v : V)
      → AgreeOn (length m) (suc (length m)) (m ++ (k.cell v ∷ [])) n
      → load k n (length m) ≡ some v
  load_new m n v agree =
      ap (held k) (
        agree (length m) (omega arith) (omega arith)
        ∙ get_elem?-append m (k.cell v ∷ []) 0 (length m) (omega arith))
      ∙ k.view-cell v

  pub allocated-Extends : (v : V) (m : Memory) → Extends m (m ++ (k.cell v ∷ []))
  allocated-Extends v m = record { tail = k.cell v ∷ []; appended = refl }

  module _ {copy : V → Memory → V × Memory} (d : IsDeepCopy S copy) where
    copy_pointer-Extends : (p : Pointer) (m : Memory) → Extends m (copy_pointer k copy p m).1
    unfolding copy_pointer allocate
    copy_pointer-Extends none m = Extends-refl m
    copy_pointer-Extends (some a) m = elim (Option-cases (load k m a)) [
      | inl e ↦ rw (e, copy_pointer) (Extends-refl m)
      | inr (v, e) ↦
          rw (e, copy_pointer)
            (Extends-trans (d.extends v m) (allocated-Extends (copy v m).0 (copy v m).1))
    ]

    copy_pointer-Lives :
        (p : Pointer) (m : Memory) (x : Option A)
        → At k S m p x
        → Lives (At k S) (length m) (copy_pointer k copy p m).1 (copy_pointer k copy p m).0 x
    unfolding copy_pointer allocate
    copy_pointer-Lives none m none s = λ n agree. tt
    copy_pointer-Lives none m (some x) s = absurd s
    copy_pointer-Lives (some a) m none s = absurd s
    copy_pointer-Lives (some a) m (some x) (v, found, s) =
        let (v', m1) = copy v m in
        rw (found, copy_pointer)
          λ n agree. (
            v',
            load_new m1 n v' (λ b low high.
                agree b (omega (arith, Extends-le (d.extends v m), low))
                  (omega (arith, high, length-append m1 (k.cell v' ∷ [])))),
            Lives-widen S (length m) (length m) (d.copied v m x s) (omega arith)
                (allocated-Extends v' m1) n agree,
          )

    pub copy_pointer-IsDeepCopy : IsDeepCopy (At k S) (copy_pointer k copy)
    copy_pointer-IsDeepCopy = record { extends = copy_pointer-Extends; copied = copy_pointer-Lives }

module _ {V A : Type 0} (S : Relation V A) (local : Local S) where
  pub Each-Local : Local (Each S)
  Each-Local m n [] [] agree s = tt
  Each-Local m n (v ∷ vs) (x ∷ xs) agree (s, rest) =
      (local m n v x agree s, Each-Local m n vs xs agree rest)
  Each-Local m n [] (x ∷ xs) agree s = s
  Each-Local m n (v ∷ vs) [] agree s = s

  module _ {copy : V → Memory → V × Memory} (d : IsDeepCopy S copy) where
    copy_each-Extends : (vs : List V) (m : Memory) → Extends m (copy_each copy vs m).1
    unfolding copy_each
    copy_each-Extends [] m = Extends-refl m
    copy_each-Extends (v ∷ vs) m = Extends-trans (d.extends v m) (copy_each-Extends vs (copy v m).1)

    copy_each-Lives :
        (vs : List V) (m : Memory) (xs : List A)
        → Each S m vs xs
        → Lives (Each S) (length m) (copy_each copy vs m).1 (copy_each copy vs m).0 xs
    unfolding copy_each
    copy_each-Lives [] m [] s n agree = tt
    copy_each-Lives [] m (x ∷ xs) s n agree = s
    copy_each-Lives (v ∷ vs) m [] s n agree = absurd s
    copy_each-Lives (v ∷ vs) m (x ∷ xs) (s, rest) n agree =
        let (v', m1) = copy v m in
        let first = d.extends v m in
        (
          Lives-widen S (length m) (length m) (d.copied v m x s) (omega arith)
              (copy_each-Extends vs m1) n agree,
          copy_each-Lives vs m1 xs (Local-Extends (Each S) Each-Local first rest) n
              (λ a low high. agree a (omega (arith, Extends-le first, low)) high),
        )

    pub copy_each-IsDeepCopy : IsDeepCopy (Each S) (copy_each copy)
    copy_each-IsDeepCopy = record { extends = copy_each-Extends; copied = copy_each-Lives }
