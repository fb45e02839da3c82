-- ===== src/Api/Keys/Placeholder.antt =====
-- What the regular expression of `ExtractTemplateKeysRegex` matches, written down independently
-- of the matcher, and the matcher on such a text.
use kubedns_shepherd.Base.{
  ℕ, true, false, [], ◌∷◌, ◌++◌, Option, none, some, Text, All, ◌≡◌, ◌≢◌, refl, arith, ap, subst,
  inl, inr, Bool-cases,
}
use kubedns_shepherd.Api.Keys.{
  is_space, is_word, skip_spaces, span_word, closes, match_word, match_field, match_key, with_group,
}

abbrev pub Spaces : Text → Type 0
Spaces = All (λ c. is_space c ≡ true)

abbrev pub Word : Text → Type 0
Word = All (λ c. is_word c ≡ true)

-- `s` begins with a placeholder for `key`, and `rest` stands behind it.
pub record Placeholder (key s rest : Text) : Type 0 where
  pub before : Text
  pub after : Text
  pub before_spaces : Spaces before
  pub after_spaces : Spaces after
  pub key_word : Word key
  pub key_ne_nil : key ≢ []
  pub shape : s ≡ b'{' ∷ b'{' ∷ (before ++ (b'.' ∷ (key ++ (after ++ (b'}' ∷ b'}' ∷ rest)))))

-- A byte that ends a run of spaces, or a run of word bytes.
skip_spaces-append :
    (ws : Text) (c : ℕ) (s : Text)
    → Spaces ws
    → is_space c ≡ false
    → skip_spaces (ws ++ (c ∷ s)) ≡ c ∷ s
unfolding skip_spaces
skip_spaces-append [] c s h e = rw e
skip_spaces-append (w ∷ ws) c s (p, h) e = rw p (skip_spaces-append ws c s h e)

span_word-append :
    (word : Text) (c : ℕ) (s : Text)
    → Word word
    → is_word c ≡ false
    → span_word (word ++ (c ∷ s)) ≡ (word, c ∷ s)
unfolding span_word
span_word-append [] c s h e = rw e
span_word-append (w ∷ ws) c s (p, h) e = rw (p, span_word-append ws c s h e)

-- Behind the word stands a space or `}`.
span_word-after :
    (key after rest : Text)
    → Word key
    → Spaces after
    → span_word (key ++ (after ++ (b'}' ∷ b'}' ∷ rest))) ≡ (key, after ++ (b'}' ∷ b'}' ∷ rest))
unfolding is_word is_space
span_word-after key [] rest k h = span_word-append key b'}' (b'}' ∷ rest) k refl
span_word-after key (w ∷ ws) rest k (p, h) =
    span_word-append key w (ws ++ (b'}' ∷ b'}' ∷ rest)) k (ground arith)

match_word-append :
    (key after rest : Text)
    → key ≢ []
    → Spaces after
    → match_word (key, after ++ (b'}' ∷ b'}' ∷ rest)) ≡ some (key, rest)
unfolding match_word closes is_space
match_word-append [] after rest ne h = absurd (ne refl)
match_word-append (c ∷ key) after rest ne h =
    rw (skip_spaces-append after b'}' (b'}' ∷ rest) h refl)

-- The matcher accepts every placeholder.
pub match_key_complete :
    {key s rest : Text} → Placeholder key s rest → match_key s ≡ some (key, rest)
unfolding match_key match_field is_space
match_key_complete {key} {s} {rest} p =
    rw (p.shape, skip_spaces-append p.before b'.' _ p.before_spaces refl)
      (rw (span_word-after key p.after rest p.key_word p.after_spaces)
        (match_word-append key p.after rest p.key_ne_nil p.after_spaces))

-- The spaces that `skip_spaces` skips.
skip_spaces-split : (s : Text) → (ws : Text) × Spaces ws × (s ≡ ws ++ skip_spaces s)
unfolding skip_spaces
skip_spaces-split [] = ([], tt, refl)
skip_spaces-split (c ∷ s) = elim (Bool-cases (is_space c)) [
  | inl e ↦ let (ws, h, p) = skip_spaces-split s in (c ∷ ws, (e, h), rw e (ap (◌∷◌ c) p))
  | inr e ↦ ([], tt, rw e)
]

span_word-split : (s : Text) → Word (span_word s).0 × (s ≡ (span_word s).0 ++ (span_word s).1)
unfolding span_word
span_word-split [] = (tt, refl)
span_word-split (c ∷ s) = ground (arith, span_word-split s)

closes-shape : (s : Text) {rest : Text} → closes s ≡ some rest → s ≡ b'}' ∷ b'}' ∷ rest
unfolding closes
closes-shape [] h = cc
closes-shape (c ∷ []) h = cc
closes-shape (c ∷ d ∷ s) h = ground arith

with_group-eq :
    (key : Text) (o : Option Text) {k r : Text}
    → with_group key o ≡ some (k, r)
    → (key ≡ k) × (o ≡ some r)
with_group-eq key none h = cc
with_group-eq key (some r) h = (cc, cc)

-- The group and the end of a match of `([a-zA-Z0-9_]+)\s*}}`.
match_word-shape :
    (word rest : Text) {key r : Text}
    → match_word (word, rest) ≡ some (key, r)
    → (word ≡ key) × (key ≢ []) × (closes (skip_spaces rest) ≡ some r)
unfolding match_word
match_word-shape [] rest h = cc
match_word-shape (c ∷ word) rest h =
    let (e, o) = with_group-eq (c ∷ word) (closes (skip_spaces rest)) h in
    (e, rw (← e) (λ n. cc), o)

match_field-shape :
    (s : Text) {key r : Text}
    → match_field s ≡ some (key, r)
    → (t : Text) × (s ≡ b'.' ∷ t) × (match_word (span_word t) ≡ some (key, r))
unfolding match_field
match_field-shape [] h = cc
match_field-shape (c ∷ s) h = (s, ground arith, ground arith)

match_key-shape :
    (s : Text) {key r : Text}
    → match_key s ≡ some (key, r)
    → (t : Text) × (s ≡ b'{' ∷ b'{' ∷ t) × (match_field (skip_spaces t) ≡ some (key, r))
unfolding match_key
match_key-shape [] h = cc
match_key-shape (c ∷ []) h = cc
match_key-shape (c ∷ d ∷ s) h = (s, ground arith, ground arith)

-- The matcher accepts nothing else.
pub match_key_sound :
    (s : Text) {key rest : Text} → match_key s ≡ some (key, rest) → Placeholder key s rest
match_key_sound s {key} {rest} h =
    let (t, shape, field) = match_key-shape s h in
    let (before, spaces, split) = skip_spaces-split t in
    let (u, dot, group) = match_field-shape (skip_spaces t) field in
    let (word, parts) = span_word-split u in
    let (same, ne, end) = match_word-shape (span_word u).0 (span_word u).1 group in
    let (after, more, gap) = skip_spaces-split (span_word u).1 in
    record {
      before = before;
      after = after;
      before_spaces = spaces;
      after_spaces = more;
      key_word = subst Word same word;
      key_ne_nil = ne;
      shape = cc (closes-shape (skip_spaces (span_word u).1) end);
    }

-- Nothing is matched where the text does not begin with two braces.
pub match_key-none_of_ne : (c : ℕ) (s : Text) → c ≢ b'{' → match_key (c ∷ s) ≡ none
unfolding match_key
match_key-none_of_ne c [] h = refl
match_key-none_of_ne c (d ∷ s) h = ground arith

pub match_key-none_of_second : (c d : ℕ) (s : Text) → d ≢ b'{' → match_key (c ∷ d ∷ s) ≡ none
unfolding match_key
match_key-none_of_second c d s h = ground arith
