-- ===== src/Api/Scheme/Registered.antt =====
-- Which types the scheme of the manager knows.
use kubedns_shepherd.Base.{List, [], ◌∷◌, none, Text, codes, done, In, ◌≡◌, inl, inr, refl}
use kubedns_shepherd.Api.Scheme.{
  GroupVersion, SchemeLibrary, scheme_group_version, add_to_scheme, init_scheme,
}

-- What a scheme knows, and what the two calls add to it, as their documentation has it: each of the
-- named types, and what was known before.
pub record Documented (library : SchemeLibrary) : Type 1 where
  pub Recognizes : library.Scheme → GroupVersion → Text → Type 0
  pub known :
      (v : GroupVersion) (kinds : List Text) (s : library.Scheme) (kind : Text)
      → In kind kinds
      → Recognizes (library.add_known_types v kinds s) v kind
  pub known_kept :
      (v w : GroupVersion) (kinds : List Text) (s : library.Scheme) (kind : Text)
      → Recognizes s w kind
      → Recognizes (library.add_known_types v kinds s) w kind
  pub version_kept :
      (v w : GroupVersion) (s : library.Scheme) (kind : Text)
      → Recognizes s w kind
      → Recognizes (library.add_to_group_version v s) w kind

-- Let the types of client-go be added without an error. Then the `init` of the manager does not
-- panic, and its scheme knows `DNSClass` and `DNSClassList` in the group version
-- config.kubedns-shepherd.io/v1alpha1, which `SchemeBuilder` is given only behind the binding of
-- `AddToScheme`, and all the types that were known before.
pub init_scheme_recognizes :
    (library : SchemeLibrary) (documented : Documented library) (s : library.Scheme)
    → library.add_client_go (library.new_scheme) ≡ (none, s)
    → (t : library.Scheme) × (init_scheme library ≡ done t)
      × documented.Recognizes t scheme_group_version (codes "DNSClass")
      × documented.Recognizes t scheme_group_version (codes "DNSClassList")
      × ((v : GroupVersion) (kind : Text)
          → documented.Recognizes s v kind
          → documented.Recognizes t v kind)
unfolding init_scheme add_to_scheme
init_scheme_recognizes library documented s added =
    let kinds : List Text = codes "DNSClass" ∷ codes "DNSClassList" ∷ [] in
    let versioned = library.add_to_group_version scheme_group_version s in
    (
      library.add_known_types scheme_group_version kinds versioned,
      rw (added, init_scheme) refl,
      documented.known scheme_group_version kinds versioned (codes "DNSClass") (inl refl),
      documented.known scheme_group_version kinds versioned (codes "DNSClassList") (inr (inl refl)),
      λ v kind before.
          documented.known_kept scheme_group_version v kinds versioned kind
            (documented.version_kept scheme_group_version v s kind before),
    )
