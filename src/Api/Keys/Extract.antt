-- ===== src/Api/Keys/Extract.antt =====
-- What `ExtractTemplateKeysRegex` returns for a whole DNSClass.
use kubedns_shepherd.Base.{
  List, [], ◌∷◌, ◌++◌, Option, none, some, Text, In, items, ◌≡◌, ◌↔◌, ◌⊎◌, subst, sym, inl, inr,
  Bool-cases, contains, contains_iff, contains-false, In-append_left, In-append_right,
  In-append_cases, if◌then◌else◌,
}
use kubedns_shepherd.Api.{PodDnsConfig}
use kubedns_shepherd.Api.Keys.{find_all, add_keys, add_searches, extract_keys}
use kubedns_shepherd.Api.Keys.Search.{
  find_all-eq-find_each, Occurs, In-find_each_sound, In-find_each_complete,
}

-- No element stands twice.
abbrev pub Distinct : List Text → Type 0
Distinct [] = Unit
Distinct (x ∷ xs) = (¬ In x xs) × Distinct xs

Distinct-concat : (xs : List Text) (a : Text) → Distinct xs → ¬ In a xs → Distinct (xs ++ (a ∷ []))
Distinct-concat [] a d n = (λ h. h, tt)
Distinct-concat (x ∷ xs) a (p, d) n = (
  λ h. elim (In-append_cases x xs (a ∷ []) h) [
    | inl old ↦ p old
    | inr (inl e) ↦ n (inl (sym e))
    | inr (inr void) ↦ void
  ],
  Distinct-concat xs a d (λ h. n (inr h)),
)

abbrev added : List Text → Text → List Text
added keys m = if contains keys m then keys else keys ++ (m ∷ [])

In-added : (k : Text) (keys : List Text) (m : Text) → In k (added keys m) ↔ ((k ≡ m) ⊎ In k keys)
In-added k keys m = elim (Bool-cases (contains keys m)) [
  | inl e ↦
      rw e
        (λ h. inr h, λ h. elim h [ inl same ↦ rw same ((contains_iff keys m).0 e) | inr old ↦ old ])
  | inr e ↦ rw e (
    λ h. elim (In-append_cases k keys (m ∷ []) h) [
      | inl old ↦ inr old
      | inr (inl same) ↦ inl same
      | inr (inr void) ↦ absurd void
    ],
    λ h. elim h [
      | inl same ↦ In-append_right k keys (m ∷ []) (inl same)
      | inr old ↦ In-append_left k keys (m ∷ []) old
    ],
  )
]

Distinct-added : (keys : List Text) (m : Text) → Distinct keys → Distinct (added keys m)
Distinct-added keys m d = elim (Bool-cases (contains keys m)) [
  | inl e ↦ rw e d
  | inr e ↦ rw e (Distinct-concat keys m d ((contains-false keys m).0 e))
]

In-add_keys : (k : Text) (keys ms : List Text) → In k (add_keys keys ms) ↔ (In k keys ⊎ In k ms)
unfolding add_keys
In-add_keys k keys [] = (inl, λ h. elim h [ inl old ↦ old | inr void ↦ absurd void ])
In-add_keys k keys (m ∷ ms) = (
  λ h. elim ((In-add_keys k (added keys m) ms).0 h) [
    | inl old ↦ elim ((In-added k keys m).0 old) [ inl e ↦ inr (inl e) | inr o ↦ inl o ]
    | inr new ↦ inr (inr new)
  ],
  λ h. (In-add_keys k (added keys m) ms).1 (elim h [
    | inl old ↦ inl ((In-added k keys m).1 (inr old))
    | inr (inl e) ↦ inl ((In-added k keys m).1 (inl e))
    | inr (inr new) ↦ inr new
  ]),
)

Distinct-add_keys : (keys ms : List Text) → Distinct keys → Distinct (add_keys keys ms)
unfolding add_keys
Distinct-add_keys keys [] d = d
Distinct-add_keys keys (m ∷ ms) d = Distinct-add_keys (added keys m) ms (Distinct-added keys m d)

-- A placeholder for `k` occurs in one of the searches.
pub data OccursIn (k : Text) : List Text → Type 0 where
  here : {s : Text} {rest : List Text} → Occurs k s → OccursIn k (s ∷ rest)
  there : {s : Text} {rest : List Text} → OccursIn k rest → OccursIn k (s ∷ rest)

not-OccursIn-nil : {k : Text} → ¬ OccursIn k []
not-OccursIn-nil h = elim h [ ]

In-add_searches :
    (k : Text) (keys searches : List Text)
    → In k (add_searches keys searches) ↔ (In k keys ⊎ OccursIn k searches)
unfolding add_searches
In-add_searches k keys [] =
    (inl, λ h. elim h [ inl old ↦ old | inr o ↦ absurd (not-OccursIn-nil o) ])
In-add_searches k keys (s ∷ rest) =
    let (to, from) = In-add_searches k (add_keys keys (find_all s)) rest in
    let (into, back) = In-add_keys k keys (find_all s) in
    (λ h. first into (to h), λ h. from (second back h))
  where
    first :
        (In k (add_keys keys (find_all s)) → In k keys ⊎ In k (find_all s))
        → In k (add_keys keys (find_all s)) ⊎ OccursIn k rest
        → In k keys ⊎ OccursIn k (s ∷ rest)
    first into (inr later) = inr (there later)
    first into (inl now) = elim (into now) [
      | inl old ↦ inl old
      | inr new ↦ inr (here (In-find_each_sound s (subst (In k) (find_all-eq-find_each s) new)))
    ]

    second :
        (In k keys ⊎ In k (find_all s) → In k (add_keys keys (find_all s)))
        → In k keys ⊎ OccursIn k (s ∷ rest)
        → In k (add_keys keys (find_all s)) ⊎ OccursIn k rest
    second back (inl old) = inl (back (inl old))
    second back (inr (here o)) =
        inl (back (inr (subst (In k) (sym (find_all-eq-find_each s)) (In-find_each_complete o))))
    second back (inr (there later)) = inr later

Distinct-add_searches :
    (keys searches : List Text) → Distinct keys → Distinct (add_searches keys searches)
unfolding add_searches
Distinct-add_searches keys [] d = d
Distinct-add_searches keys (s ∷ rest) d =
    Distinct-add_searches (add_keys keys (find_all s)) rest (Distinct-add_keys keys (find_all s) d)

-- The searches of a class, none without a `dnsConfig`.
abbrev pub searches_of : Option PodDnsConfig → List Text
searches_of none = []
searches_of (some config) = items config.searches

-- The keys are exactly those of the placeholders that occur in a search, with none twice.
pub extract_keys_lem :
    (k : Text) (config : Option PodDnsConfig)
    → (In k (extract_keys config) ↔ OccursIn k (searches_of config))
      × Distinct (extract_keys config)
unfolding extract_keys
extract_keys_lem k none = ((λ h. absurd h, λ h. absurd (not-OccursIn-nil h)), tt)
extract_keys_lem k (some config) =
    let (to, from) = In-add_searches k [] (items config.searches) in
    (
      (λ h. elim (to h) [ inl void ↦ absurd void | inr o ↦ o ], λ o. from (inr o)),
      Distinct-add_searches [] (items config.searches) tt,
    )
