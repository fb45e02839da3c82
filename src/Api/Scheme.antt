-- ===== src/Api/Scheme.antt =====
-- The registration of the resource with a scheme: api/v1alpha1/groupversion_info.go, the `init` of
-- api/v1alpha1/dnsclass_types.go and that of cmd/main.go. `SchemeBuilder` is a variable that holds
-- functions, and `AddToScheme` is bound to its address, so that a call finds what is registered by
-- then.
pub mod Registered
use kubedns_shepherd.Base.{
  List, [], ◌∷◌, ◌++◌, Option, none, some, Text, codes, Run, done, panic, ◌>>=◌,
}

-- `schema.GroupVersion`
pub record GroupVersion : Type 0 where
  pub group : Text
  pub version : Text

-- `runtime.Scheme` with what the code calls: `metav1.AddToGroupVersion`, `AddKnownTypes`, of whose
-- arguments only the names of the types are read, and `clientgoscheme.AddToScheme`.
pub record SchemeLibrary : Type 1 where
  pub Scheme : Type 0
  pub Error : Type 0
  pub new_scheme : Scheme
  pub add_to_group_version : GroupVersion → Scheme → Scheme
  pub add_known_types : GroupVersion → List Text → Scheme → Scheme
  pub add_client_go : Scheme → Option Error × Scheme

abbrev pub scheme_group_version : GroupVersion
scheme_group_version = record {
  group = codes "config.kubedns-shepherd.io";
  version = codes "v1alpha1";
}

module _ (library : SchemeLibrary) where
  open library use {Scheme, Error, new_scheme, add_to_group_version, add_known_types, add_client_go}

  -- A `func(*runtime.Scheme) error`.
  abbrev pub Registration : Type 0
  Registration = Scheme → Option Error × Scheme

  -- `runtime.NewSchemeBuilder`, with the function that the package gives it.
  abbrev pub scheme_builder : List Registration
  scheme_builder = (λ s. (none, add_to_group_version scheme_group_version s)) ∷ []

  -- `init`: `Register` appends to the builder.
  abbrev pub registered : List Registration → List Registration
  registered builder =
      builder
      ++ ((λ s. (
        none,
        add_known_types scheme_group_version (codes "DNSClass" ∷ codes "DNSClassList" ∷ []) s,
      ))
          ∷ [])

  abbrev pub unless_error : Option Error × Scheme → Registration → Option Error × Scheme
  unless_error (some e, s) next = (some e, s)
  unless_error (none, s) next = next s

  -- `AddToScheme`: the functions in order, up to the first error.
  unfoldable pub add_to_scheme : List Registration → Registration
  add_to_scheme [] s = (none, s)
  add_to_scheme (f ∷ builder) s = unless_error (f s) (add_to_scheme builder)

  -- `utilruntime.Must`
  abbrev pub must : Option Error × Scheme → Run Scheme
  must (none, s) = done s
  must (some e, s) = panic

  -- The `init` of cmd/main.go, which runs behind that of the package.
  unfoldable pub init_scheme : Run Scheme
  unfolding add_to_scheme
  init_scheme = do
    s ← must (add_client_go new_scheme)
    must (add_to_scheme (registered scheme_builder) s)
