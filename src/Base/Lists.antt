-- ===== src/Base/Lists.antt =====
-- Lists measured by native numbers, and predicates on lists by recursion.
use Prim.Native.Nat.{ℕ, zero, suc, ◌+◌, ◌≤◌, ◌<◌}
use mathlib.Core.Path.{◌≡◌, refl, ap}
use mathlib.Core.Logic.{◌⊎◌, inl, inr}
use mathlib.Core.List.{List, [], ◌∷◌, ◌++◌}
use mathlib.Core.Option.{Option, none, some}
use native.Mathlib.Omega.{arith}

module _ {ℓ} {A : Type ℓ} where
  abbrev pub length : List A → ℕ
  length [] = 0
  length (x ∷ xs) = suc (length xs)

  abbrev pub get_elem? : List A → ℕ → Option A
  get_elem? [] i = none
  get_elem? (x ∷ xs) zero = some x
  get_elem? (x ∷ xs) (suc i) = get_elem? xs i

  abbrev pub take : ℕ → List A → List A
  take zero xs = []
  take (suc n) [] = []
  take (suc n) (x ∷ xs) = x ∷ take n xs

  abbrev pub drop : ℕ → List A → List A
  drop zero xs = xs
  drop (suc n) [] = []
  drop (suc n) (x ∷ xs) = drop n xs

  pub length-append : (xs ys : List A) → length (xs ++ ys) ≡ length xs + length ys
  length-append [] ys = omega arith
  length-append (x ∷ xs) ys = omega (arith, length-append xs ys)

  pub get_elem?-append :
      (front back : List A) (i j : ℕ)
      → j ≡ length front + i
      → get_elem? (front ++ back) j ≡ get_elem? back i
  get_elem?-append [] back i j h = ap (get_elem? back) (omega arith)
  get_elem?-append (c ∷ front) back i zero h = absurd (omega arith)
  get_elem?-append (c ∷ front) back i (suc j) h = get_elem?-append front back i j (omega arith)

  pub get_elem?-append_left :
      (front back : List A) (i : ℕ)
      → i < length front
      → get_elem? (front ++ back) i ≡ get_elem? front i
  get_elem?-append_left [] back i h = absurd (omega arith)
  get_elem?-append_left (c ∷ front) back zero h = refl
  get_elem?-append_left (c ∷ front) back (suc i) h =
      get_elem?-append_left front back i (omega arith)

  -- A place that holds an element lies within the list.
  pub get_elem?-lt : (xs : List A) (i : ℕ) {a : A} → get_elem? xs i ≡ some a → i < length xs
  get_elem?-lt [] i h = absurd (ground (arith, h))
  get_elem?-lt (x ∷ xs) zero h = omega arith
  get_elem?-lt (x ∷ xs) (suc i) h = omega (arith, get_elem?-lt xs i h)

  pub drop-append :
      (front back : List A) (i j : ℕ) → j ≡ length front + i → drop j (front ++ back) ≡ drop i back
  drop-append [] back i j h = ap (λ k. drop k back) (omega arith)
  drop-append (c ∷ front) back i zero h = absurd (omega arith)
  drop-append (c ∷ front) back i (suc j) h = drop-append front back i j (omega arith)

  pub take-append :
      (front back : List A) (j : ℕ) → j ≡ length front → take j (front ++ back) ≡ front
  take-append [] back zero h = refl
  take-append [] back (suc j) h = absurd (omega arith)
  take-append (c ∷ front) back zero h = absurd (omega arith)
  take-append (c ∷ front) back (suc j) h = ap (◌∷◌ c) (take-append front back j (omega arith))

  -- A list around one of its places, and a list that is cut in two.
  pub splits_at :
      (xs : List A) (i : ℕ) {a : A}
      → get_elem? xs i ≡ some a
      → (xs ≡ take i xs ++ (a ∷ drop (suc i) xs)) × (length (take i xs) ≡ i)
  splits_at [] i h = absurd (ground (arith, h))
  splits_at (x ∷ xs) zero h = (ap (λ y. y ∷ xs) (ground (arith, h)), refl)
  splits_at (x ∷ xs) (suc i) h = let (e, l) = splits_at xs i h in (ap (◌∷◌ x) e, omega (arith, l))

  pub take-drop :
      (xs : List A) (n : ℕ)
      → n ≤ length xs
      → (xs ≡ take n xs ++ drop n xs) × (length (take n xs) ≡ n)
  take-drop xs zero h = (refl, refl)
  take-drop [] (suc n) h = absurd (omega arith)
  take-drop (x ∷ xs) (suc n) h =
      let (e, l) = take-drop xs n (omega arith) in (ap (◌∷◌ x) e, omega (arith, l))

  pub length-drop : (xs : List A) (n : ℕ) → n ≤ length xs → length (drop n xs) + n ≡ length xs
  length-drop xs zero h = omega arith
  length-drop [] (suc n) h = absurd (omega arith)
  length-drop (x ∷ xs) (suc n) h = omega (arith, length-drop xs n (omega arith))

module _ {ℓ κ} {A : Type ℓ} (P : A → Type κ) where
  -- Every element satisfies `P`.
  abbrev pub All : List A → Type κ
  All [] = Unit
  All (x ∷ xs) = P x × All xs

  pub All-append : (xs ys : List A) → All xs → All ys → All (xs ++ ys)
  All-append [] ys hx hy = hy
  All-append (x ∷ xs) ys hx hy = (hx.0, All-append xs ys hx.1 hy)

  pub All-append_left : (xs ys : List A) → All (xs ++ ys) → All xs
  All-append_left [] ys h = tt
  All-append_left (x ∷ xs) ys h = (h.0, All-append_left xs ys h.1)

  pub All-append_right : (xs ys : List A) → All (xs ++ ys) → All ys
  All-append_right [] ys h = h
  All-append_right (x ∷ xs) ys h = All-append_right xs ys h.1

module _ {A : Type 0} where
  -- `a` stands in the list.
  abbrev pub In : A → List A → Type 0
  In a [] = ⊥
  In a (x ∷ xs) = (a ≡ x) ⊎ In a xs

  pub In-append_left : (a : A) (xs ys : List A) → In a xs → In a (xs ++ ys)
  In-append_left a [] ys h = absurd h
  In-append_left a (x ∷ xs) ys (inl e) = inl e
  In-append_left a (x ∷ xs) ys (inr h) = inr (In-append_left a xs ys h)

  pub In-append_right : (a : A) (xs ys : List A) → In a ys → In a (xs ++ ys)
  In-append_right a [] ys h = h
  In-append_right a (x ∷ xs) ys h = inr (In-append_right a xs ys h)

  pub In-append_cases : (a : A) (xs ys : List A) → In a (xs ++ ys) → In a xs ⊎ In a ys
  In-append_cases a [] ys h = inr h
  In-append_cases a (x ∷ xs) ys (inl e) = inl (inl e)
  In-append_cases a (x ∷ xs) ys (inr h) = elim (In-append_cases a xs ys h) [
    | inl l ↦ inl (inr l)
    | inr r ↦ inr r
  ]

module _ {κ} {A : Type 0} (P : A → Type κ) where
  pub All-of_In : (xs : List A) → ((a : A) → In a xs → P a) → All P xs
  All-of_In [] h = tt
  All-of_In (x ∷ xs) h = (h x (inl refl), All-of_In xs (λ a i. h a (inr i)))

  pub In-All : (xs : List A) (a : A) → All P xs → In a xs → P a
  In-All [] a h i = absurd i
  In-All (x ∷ xs) a h (inl e) = rw e (h.0)
  In-All (x ∷ xs) a h (inr i) = In-All xs a h.1 i
