-- ===== src/Tests/SchemeTests.antt =====
-- The registration with a scheme that is the list of its types.
use kubedns_shepherd.Base.{
  List, [], ◌∷◌, ◌++◌, map, none, Text, codes, done, In, In-append_left, In-append_right, ◌≡◌, refl,
  inl, inr, ap,
}
use kubedns_shepherd.Api.Scheme.{GroupVersion, SchemeLibrary, scheme_group_version, init_scheme}
use kubedns_shepherd.Api.Scheme.Registered.{Documented, init_scheme_recognizes}

abbrev Types : Type 0
Types = List (GroupVersion × Text)

abbrev Knows : Types → GroupVersion → Text → Type 0
Knows s v kind = In {A = GroupVersion × Text} (v, kind) s

abbrev core_version : GroupVersion
core_version = record { group = codes ""; version = codes "v1" }

abbrev library : SchemeLibrary
library = record {
  Scheme = Types;
  Error = Text;
  new_scheme = [];
  add_to_group_version = λ v s. (v, codes "WatchEvent") ∷ s;
  add_known_types = λ v kinds s. map (λ kind. (v, kind)) kinds ++ s;
  add_client_go = λ s. (none, (core_version, codes "Pod") ∷ s);
}

In-named :
    (v : GroupVersion) (kinds : List Text) (kind : Text)
    → In kind kinds
    → Knows (map (λ k. (v, k)) kinds) v kind
In-named v (k ∷ kinds) kind (inl e) = inl (ap (λ x. (v, x)) e)
In-named v (k ∷ kinds) kind (inr h) = inr (In-named v kinds kind h)
In-named v [] kind h = h

abbrev documented : Documented library
documented = record {
  Recognizes = Knows;
  known = λ v kinds s kind h.
      In-append_left (v, kind) (map (λ k. (v, k)) kinds) s (In-named v kinds kind h);
  known_kept = λ v w kinds s kind h. In-append_right (w, kind) (map (λ k. (v, k)) kinds) s h;
  version_kept = λ v w s kind h. inr h;
}

init_scheme_recognizes_example :
    (t : Types) × (init_scheme library ≡ done t)
    × Knows t scheme_group_version (codes "DNSClass")
    × Knows t scheme_group_version (codes "DNSClassList")
    × ((v : GroupVersion) (kind : Text)
        → Knows ((core_version, codes "Pod") ∷ []) v kind
        → Knows t v kind)
init_scheme_recognizes_example =
    init_scheme_recognizes library documented ((core_version, codes "Pod") ∷ []) refl
