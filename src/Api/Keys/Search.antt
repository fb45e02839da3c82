-- ===== src/Api/Keys/Search.antt =====
-- `FindAllStringSubmatch` against a search that looks at every position, and against the
-- placeholders that stand in the text.
use kubedns_shepherd.Base.{
  ℕ, zero, suc, ◌≤◌, ◌<◌, List, [], ◌∷◌, ◌++◌, none, some, Text, All, In, length, length-append,
  ◌≡◌, ◌≢◌, refl, sym, subst, ◌∙◌, arith, ap, inl, inr, Option-cases,
}
use kubedns_shepherd.Api.Keys.{is_space, is_word, match_key, find_from, find_all}
use kubedns_shepherd.Api.Keys.Placeholder.{
  Spaces, Word, Placeholder, match_key_complete, match_key_sound, match_key-none_of_ne,
  match_key-none_of_second,
}

-- The search with no fuel, which goes on at the next byte behind a match too.
pub find_each : Text → List Text
find_each [] = []
find_each (c ∷ s) = elim (match_key (c ∷ s)) [
  | none ↦ find_each s
  | some (key, rest) ↦ key ∷ find_each s
]

find_each-none : (c : ℕ) (s : Text) → match_key (c ∷ s) ≡ none → find_each (c ∷ s) ≡ find_each s
unfolding find_each
find_each-none c s h = rw (h, find_each)

find_each-some :
    (c : ℕ) (s : Text) {key rest : Text}
    → match_key (c ∷ s) ≡ some (key, rest)
    → find_each (c ∷ s) ≡ key ∷ find_each s
unfolding find_each
find_each-some c s h = rw (h, find_each)

find_each-cons : (c : ℕ) (s : Text) → c ≢ b'{' → find_each (c ∷ s) ≡ find_each s
find_each-cons c s h = find_each-none c s (match_key-none_of_ne c s h)

abbrev NoBrace : Text → Type 0
NoBrace = All (λ c. c ≢ b'{')

find_each-append : (xs ys : Text) → NoBrace xs → find_each (xs ++ ys) ≡ find_each ys
find_each-append [] ys h = refl
find_each-append (x ∷ xs) ys (p, h) = find_each-cons x (xs ++ ys) p ∙ find_each-append xs ys h

Spaces-NoBrace : (xs : Text) → Spaces xs → NoBrace xs
unfolding is_space
Spaces-NoBrace [] h = tt
Spaces-NoBrace (x ∷ xs) (p, h) = (ground arith, Spaces-NoBrace xs h)

Word-NoBrace : (xs : Text) → Word xs → NoBrace xs
unfolding is_word
Word-NoBrace [] h = tt
Word-NoBrace (x ∷ xs) (p, h) = (ground arith, Word-NoBrace xs h)

module _ (before key after rest : Text) where
  abbrev body : Text
  body = before ++ (b'.' ∷ (key ++ (after ++ (b'}' ∷ b'}' ∷ rest))))

  module _ (spaces : Spaces before) (word : Word key) (more : Spaces after) where
    find_each-body : find_each body ≡ find_each rest
    find_each-body =
        find_each-append before _ (Spaces-NoBrace before spaces)
        ∙ find_each-cons b'.' _ (omega arith)
        ∙ find_each-append key _ (Word-NoBrace key word)
        ∙ find_each-append after _ (Spaces-NoBrace after more)
        ∙ find_each-cons b'}' _ (omega arith)
        ∙ find_each-cons b'}' _ (omega arith)

-- The second brace starts no match.
second_brace :
    (before key after rest : Text)
    → Spaces before
    → match_key (b'{' ∷ body before key after rest) ≡ none
unfolding is_space
second_brace [] key after rest h = match_key-none_of_second b'{' b'.' _ (omega arith)
second_brace (c ∷ before) key after rest (p, h) = match_key-none_of_second b'{' c _ (ground arith)

-- Nothing else is found inside of a match.
find_each-Placeholder :
    {key s rest : Text} → Placeholder key s rest → find_each s ≡ key ∷ find_each rest
find_each-Placeholder {key} {s} {rest} p =
    ap find_each p.shape
    ∙ find_each-some b'{' _ (ap match_key (sym p.shape) ∙ match_key_complete p)
    ∙ ap (◌∷◌ key) (
        find_each-none b'{' _ (second_brace p.before key p.after rest p.before_spaces)
        ∙ find_each-body p.before key p.after rest p.before_spaces p.key_word p.after_spaces)

pub length-Placeholder : {key s rest : Text} → Placeholder key s rest → length rest < length s
length-Placeholder {key} {s} {rest} p = omega (
  arith,
  ap length p.shape,
  length-append p.before (b'.' ∷ (key ++ (p.after ++ (b'}' ∷ b'}' ∷ rest)))),
  length-append key (p.after ++ (b'}' ∷ b'}' ∷ rest)),
  length-append p.after (b'}' ∷ b'}' ∷ rest),
)

find_from-eq-find_each : (fuel : ℕ) (s : Text) → length s ≤ fuel → find_from fuel s ≡ find_each s
unfolding find_from
find_from-eq-find_each zero [] h = unfold find_each in refl
find_from-eq-find_each zero (c ∷ s) h = absurd (omega arith)
find_from-eq-find_each (suc fuel) [] h = unfold find_each in refl
find_from-eq-find_each (suc fuel) (c ∷ s) h = elim (Option-cases (match_key (c ∷ s))) [
  | inl e ↦
      rw (e, find_from) (find_from-eq-find_each fuel s (omega arith)) ∙ sym (find_each-none c s e)
  | inr ((key, rest), e) ↦
      let p = match_key_sound (c ∷ s) e in
      rw (e, find_from)
        (ap (◌∷◌ key) (find_from-eq-find_each fuel rest (omega (arith, length-Placeholder p))))
      ∙ sym (find_each-Placeholder p)
]

-- The search of `FindAllStringSubmatch`, which goes on behind each match and runs on the length of
-- the text, finds what a search of all positions finds.
pub find_all-eq-find_each : (s : Text) → find_all s ≡ find_each s
unfolding find_all
find_all-eq-find_each s = find_from-eq-find_each (length s) s (omega arith)

-- A placeholder for `key` stands somewhere in `s`.
pub record Occurs (key s : Text) : Type 0 where
  pub front : Text
  pub back : Text
  pub rest : Text
  pub splits : s ≡ front ++ back
  pub placeholder : Placeholder key back rest

Occurs-cons : {key s : Text} (c : ℕ) → Occurs key s → Occurs key (c ∷ s)
Occurs-cons c o = record {
  front = c ∷ o.front;
  back = o.back;
  rest = o.rest;
  splits = ap (◌∷◌ c) o.splits;
  placeholder = o.placeholder;
}

Occurs-here : {key s rest : Text} → Placeholder key s rest → Occurs key s
Occurs-here {s} {rest} p = record {
  front = [];
  back = s;
  rest = rest;
  splits = refl;
  placeholder = p;
}

pub In-find_each_sound : {key : Text} (s : Text) → In key (find_each s) → Occurs key s
unfolding find_each
In-find_each_sound [] h = absurd h
In-find_each_sound {key} (c ∷ s) h = elim (Option-cases (match_key (c ∷ s))) [
  | inl e ↦ Occurs-cons c (In-find_each_sound s (subst (In key) (find_each-none c s e) h))
  | inr ((k, rest), e) ↦ elim (subst (In key) (find_each-some c s e) h) [
    | inl same ↦
        Occurs-here (subst (λ x. Placeholder x (c ∷ s) rest) (sym same) (match_key_sound (c ∷ s) e))
    | inr later ↦ Occurs-cons c (In-find_each_sound s later)
  ]
]

In-find_each-cons :
    (key : Text) (c : ℕ) (s : Text) → In key (find_each s) → In key (find_each (c ∷ s))
In-find_each-cons key c s h = elim (Option-cases (match_key (c ∷ s))) [
  | inl e ↦ rw (find_each-none c s e) h
  | inr ((k, rest), e) ↦ rw (find_each-some c s e) (inr h)
]

In-find_each-append :
    (key : Text) (front back : Text) → In key (find_each back) → In key (find_each (front ++ back))
In-find_each-append key [] back h = h
In-find_each-append key (c ∷ front) back h =
    In-find_each-cons key c (front ++ back) (In-find_each-append key front back h)

pub In-find_each_complete : {key s : Text} → Occurs key s → In key (find_each s)
In-find_each_complete {key} o =
    rw o.splits
      (In-find_each-append key o.front o.back (rw (find_each-Placeholder o.placeholder) (inl refl)))
