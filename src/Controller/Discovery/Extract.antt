-- ===== src/Controller/Discovery/Extract.antt =====
-- `extractField`: which values of the kubelet's configuration it accepts, and which element of a
-- slice it refuses.
use kubedns_shepherd.Base.{
  ℕ, suc, ◌+◌, List, [], ◌∷◌, ◌++◌, map, some, Text, codes, text_eq, lookup, Result, ok, err,
  Result-cases, Option-cases, length, ◌≡◌, ◌≢◌, ◌↔◌, text_eq_iff, refl, sym, ap, ◌∙◌, arith, inl,
  inr,
}
use kubedns_shepherd.Controller.Cluster.{
  Value, Values, null, boolean, number, string, array, object, elements,
}
use kubedns_shepherd.Controller.Discovery.{
  Extracted, text, texts, string_field, string_slice, slice_field, as_texts, cons_text,
  not_a_string, typed_field,
}

-- The field holds a string, which is returned.
pub record HoldsText (fields : List (Text × Value)) (name : Text) (v : Extracted) : Type 0 where
  pub value : Text
  pub held : lookup name fields ≡ some (string value)
  pub returned : v ≡ text value

-- The field holds an array of strings, which are returned in order.
pub record HoldsTexts (fields : List (Text × Value)) (name : Text) (v : Extracted) : Type 0 where
  pub values : Values
  pub strings : List Text
  pub held : lookup name fields ≡ some (array values)
  pub all_strings : elements values ≡ map string strings
  pub returned : v ≡ texts strings

string_field-ok :
    (name : Text) (value : Value) {v : Extracted}
    → string_field name value ≡ ok v
    → (s : Text) × (value ≡ string s) × (v ≡ text s)
unfolding string_field
string_field-ok name (string s) h = (s, refl, cc)
string_field-ok name _ h = cc

cons_text-ok :
    (s : Text) (r : Result Text (List Text)) {out : List Text}
    → cons_text s r ≡ ok out
    → (rest : List Text) × (r ≡ ok rest) × (out ≡ s ∷ rest)
cons_text-ok s (ok rest) h = (rest, refl, cc)
cons_text-ok s (err e) h = cc

string_slice-ok :
    (name : Text) (i : ℕ) (vs : List Value) {out : List Text}
    → string_slice name i vs ≡ ok out
    → vs ≡ map string out
unfolding string_slice
string_slice-ok name i [] h = cc
string_slice-ok name i (string s ∷ vs) h =
    let (rest, e, same) = cons_text-ok s (string_slice name (suc i) vs) h in
    rw same (ap (◌∷◌ (string s)) (string_slice-ok name (suc i) vs e))
string_slice-ok name i (_ ∷ vs) h = cc

string_slice-map :
    (name : Text) (i : ℕ) (xs : List Text) → string_slice name i (map string xs) ≡ ok xs
unfolding string_slice
string_slice-map name i [] = refl
string_slice-map name i (x ∷ xs) = rw (string_slice-map name (suc i) xs)

slice_field-ok :
    (name : Text) (value : Value) {v : Extracted}
    → slice_field name value ≡ ok v
    → (vs : Values) × (xs : List Text) × (value ≡ array vs)
      × (elements vs ≡ map string xs)
      × (v ≡ texts xs)
unfolding slice_field
slice_field-ok name (array vs) h = elim (Result-cases (string_slice name 0 (elements vs))) [
  | inl (xs, e) ↦ (vs, xs, refl, string_slice-ok name 0 (elements vs) e, ground arith)
  | inr (why, e) ↦ absurd (ground arith)
]
slice_field-ok name _ h = cc

-- With the target type `string` exactly a field that holds a string is returned, as a string.
typed_field-string_iff :
    (fields : List (Text × Value)) (name : Text) (v : Extracted)
    → (typed_field fields name (codes "string") ≡ ok v) ↔ HoldsText fields name v
unfolding typed_field text_eq
typed_field-string_iff fields name v = (
  λ h. elim (Option-cases (lookup name fields)) [
    | inl e ↦ absurd (ground arith)
    | inr (value, e) ↦
        let (s, is, same) = string_field-ok name value (rw (e, typed_field) at h) in
        record { value = s; held = e ∙ ap some is; returned = same }
  ],
  λ t. rw (t.held, typed_field) (unfold string_field in ap ok (sym t.returned)),
)

-- With the target type `[]string` exactly a field that holds an array of strings is returned, as
-- the slice of these strings.
typed_field-slice_iff :
    (fields : List (Text × Value)) (name : Text) (v : Extracted)
    → (typed_field fields name (codes "[]string") ≡ ok v) ↔ HoldsTexts fields name v
unfolding typed_field text_eq
typed_field-slice_iff fields name v = (
  λ h. elim (Option-cases (lookup name fields)) [
    | inl e ↦ absurd (ground arith)
    | inr (value, e) ↦
        let (vs, xs, is, strings, same) = slice_field-ok name value (rw (e, typed_field) at h) in
        record {
          values = vs;
          strings = xs;
          held = e ∙ ap some is;
          all_strings = strings;
          returned = same;
        }
  ],
  λ t.
      rw (t.held, typed_field)
        (unfold slice_field in
          ap (λ vs. as_texts (string_slice name 0 vs)) t.all_strings
          ∙ ap as_texts (string_slice-map name 0 t.strings)
          ∙ ap ok (sym t.returned)),
)

abbrev IsString : Value → Type 0
IsString (string s) = Unit
IsString _ = ⊥

-- The first element that is no string, at the index that the message names.
pub record FirstOdd (name : Text) (i : ℕ) (vs : List Value) (e : Text) : Type 0 where
  pub before : List Text
  pub odd : Value
  pub after : List Value
  pub splits : vs ≡ map string before ++ (odd ∷ after)
  pub not_string : ¬ IsString odd
  pub message : e ≡ not_a_string (i + length before) name

FirstOdd-here :
    (name : Text) (i : ℕ) (v : Value) (vs : List Value) {e : Text}
    → ¬ IsString v
    → not_a_string i name ≡ e
    → FirstOdd name i (v ∷ vs) e
FirstOdd-here name i v vs n m = record {
  before = [];
  odd = v;
  after = vs;
  splits = refl;
  not_string = n;
  message = sym m ∙ ap (λ k. not_a_string k name) (omega arith);
}

cons_text-err :
    (s : Text) (r : Result Text (List Text)) {e : Text} → cons_text s r ≡ err e → r ≡ err e
cons_text-err s (ok rest) h = cc
cons_text-err s (err e) h = cc

-- The loop over a slice stops at the first element that is no string, and names its index.
pub string_slice-err :
    (name : Text) (i : ℕ) (vs : List Value) {e : Text}
    → string_slice name i vs ≡ err e
    → FirstOdd name i vs e
unfolding string_slice
string_slice-err name i [] h = cc
string_slice-err name i (string s ∷ vs) h =
    let o = string_slice-err name (suc i) vs (cons_text-err s (string_slice name (suc i) vs) h) in
    record {
      before = s ∷ o.before;
      odd = o.odd;
      after = o.after;
      splits = ap (◌∷◌ (string s)) o.splits;
      not_string = o.not_string;
      message = o.message ∙ ap (λ k. not_a_string k name) (omega arith);
    }
string_slice-err name i (null ∷ vs) h = FirstOdd-here name i null vs (λ n. n) (cc)
string_slice-err name i (boolean b ∷ vs) h = FirstOdd-here name i (boolean b) vs (λ n. n) (cc)
string_slice-err name i (number n ∷ vs) h = FirstOdd-here name i (number n) vs (λ n. n) (cc)
string_slice-err name i (array xs ∷ vs) h = FirstOdd-here name i (array xs) vs (λ n. n) (cc)
string_slice-err name i (object m ∷ vs) h = FirstOdd-here name i (object m) vs (λ n. n) (cc)

typed_field-other :
    (fields : List (Text × Value)) (name target : Text) (v : Extracted)
    → target ≢ codes "string"
    → target ≢ codes "[]string"
    → typed_field fields name target ≢ ok v
unfolding typed_field
typed_field-other fields name target v h k e = elim (Option-cases (lookup name fields)) [
  | inl q ↦ absurd (ground arith)
  | inr (value, q) ↦
      absurd
        (ground (arith, text_eq_iff target (codes "string"), text_eq_iff target (codes "[]string")))
]

-- Which fields of the kubelet's configuration are returned. With the target type `string` exactly a
-- field that holds a string, as a string; with the target type `[]string` exactly a field that holds
-- an array of strings, as the slice of these strings; and with any other target type none.
pub typed_field_iff :
    (fields : List (Text × Value)) (name : Text) (v : Extracted)
    → ((typed_field fields name (codes "string") ≡ ok v) ↔ HoldsText fields name v)
      × ((typed_field fields name (codes "[]string") ≡ ok v) ↔ HoldsTexts fields name v)
      × ((target : Text)
          → target ≢ codes "string"
          → target ≢ codes "[]string"
          → typed_field fields name target ≢ ok v)
typed_field_iff fields name v = (
  typed_field-string_iff fields name v,
  typed_field-slice_iff fields name v,
  λ target h k. typed_field-other fields name target v h k,
)
