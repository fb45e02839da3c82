-- ===== src/Controller/Discovery.antt =====
-- `fetchNodeProxyConfigz`, `extractField` and `discoverFields` of
-- internal/controller/dnsclass_controller.go.
pub mod Extract
pub mod Fields
use kubedns_shepherd.Base.{
  ℕ, suc, Bool, true, false, List, [], ◌∷◌, ◌++◌, Option, none, some, Text, codes, text_eq, join,
  Result, ok, err, lookup, assign, decimal, Slice, if◌then◌else◌,
}
use kubedns_shepherd.Api.{DiscoveredFields}
use kubedns_shepherd.Controller.Cluster.{
  Value, null, boolean, number, string, array, object, Members, elements, entries, RestConfig,
  Cluster,
}

-- A call that may change the world and may fail.
abbrev pub Call : Type 0 → Type 0 → Type 0
Call W A = W → Result Text A × W

abbrev continue {ℓ} :
    {W A : Type 0} {B : Type ℓ}
    → Result Text A × W
    → (A → W → Result Text B × W)
    → Result Text B × W
continue (ok a, w) f = f a w
continue (err e, w) f = (err e, w)

infixl 5 ◌>>=◌
abbrev pub ◌>>=◌ : {W A B : Type 0} → Call W A → (A → Call W B) → Call W B
◌>>=◌ m f w = continue (m w) f

abbrev pub lift : {W A : Type 0} → Result Text A → Call W A
lift r w = (r, w)

-- `fmt.Errorf("…: %w", err)`
abbrev pub context : {A : Type 0} → Text → Result Text A → Result Text A
context text (ok a) = ok a
context text (err e) = err (text ++ e)

abbrev pub with_context : {W A : Type 0} → Text → Call W A → Call W A
with_context text m w = let r = m w in (context text r.0, r.1)

unfoldable pub first_node : List Text → Result Text Text
first_node [] = err (codes "no nodes available to fetch config")
first_node (node ∷ nodes) = ok node

abbrev or_default {ℓ} : {A : Type ℓ} → A → Option A → A
or_default a none = a
or_default a (some b) = b

-- The copy of the configuration, with the two defaults; the first pair is group and version.
unfoldable pub copy_config : RestConfig → RestConfig
copy_config config = record {
  group_version = some (or_default (codes "", codes "v1") config.group_version);
  negotiated_serializer =
      some (or_default (codes "WithoutConversionCodecFactory") config.negotiated_serializer);
}

unfoldable pub kubelet_config : Option Value → Result Text (List (Text × Value))
kubelet_config (some (object members)) = ok (entries members)
kubelet_config _ = err (codes "kubeletconfig field is not a map or is not found")

abbrev pub configz_url : Text → Text
configz_url node = codes "/api/v1/nodes/" ++ (node ++ codes "/proxy/configz")

-- What `extractField` returns in its `any`.
pub data Extracted : Type 0 where
  text : Text → Extracted
  texts : List Text → Extracted

unfoldable pub string_field : Text → Value → Result Text Extracted
string_field field_name (string value) = ok (text value)
string_field field_name _ = err (field_name ++ codes " field is not a string")

abbrev pub not_a_string : ℕ → Text → Text
not_a_string i field_name =
    codes "element at index "
    ++ (decimal i ++ (codes " in " ++ (field_name ++ codes " is not a string")))

abbrev cons_text : Text → Result Text (List Text) → Result Text (List Text)
cons_text str (ok rest) = ok (str ∷ rest)
cons_text str (err e) = err e

-- The loop over the slice, from index `i` on.
unfoldable pub string_slice : Text → ℕ → List Value → Result Text (List Text)
string_slice field_name i [] = ok []
string_slice field_name i (string str ∷ vs) = cons_text str (string_slice field_name (suc i) vs)
string_slice field_name i (_ ∷ vs) = err (not_a_string i field_name)

abbrev as_texts : Result Text (List Text) → Result Text Extracted
as_texts (ok xs) = ok (texts xs)
as_texts (err e) = err e

unfoldable pub slice_field : Text → Value → Result Text Extracted
unfolding string_slice
slice_field field_name (array vs) = as_texts (string_slice field_name 0 (elements vs))
slice_field field_name _ = err (field_name ++ codes " field is not a slice")

-- `extractField` behind the fetch: the look-up and the `switch` on the target type.
unfoldable pub typed_field : List (Text × Value) → Text → Text → Result Text Extracted
unfolding string_field slice_field
typed_field fields field_name target_type = elim (lookup field_name fields) [
  | none ↦ err (field_name ++ codes " field is not found")
  | some field_value ↦
      if text_eq target_type (codes "string")
      then string_field field_name field_value
      else if text_eq target_type (codes "[]string")
      then slice_field field_name field_value
      else err (codes "unsupported target type: " ++ target_type)
]

-- The type assertions of `discoverFields`. The wrong kind would panic; it does not arise, as
-- `typed_field_iff` of Controller/Discovery/Extract shows.
abbrev as_string : Extracted → Text
as_string (text value) = value
as_string (texts values) = []

abbrev as_slice : Extracted → Slice Text
as_slice (text value) = none
as_slice (texts values) = some values

-- `fields` and `messageSlice` of `discoverFields`, and the discovered fields that it writes to.
pub record Found : Type 0 where
  pub discovered : DiscoveredFields
  pub fields : List (Text × Bool)
  pub messages : List Text

unfoldable pub note_domain : Result Text Extracted → Found → Found
note_domain (err e) s = record s {
  fields = assign (codes "clusterDomain") true s.fields;
  messages = s.messages ++ (e ∷ []);
}
note_domain (ok v) s = record s {
  discovered = record (s.discovered) { cluster_domain = as_string v };
}

unfoldable pub note_nameservers : Result Text Extracted → Found → Found
note_nameservers (err e) s = record s {
  fields = assign (codes "nameservers") true s.fields;
  messages = s.messages ++ (e ∷ []);
}
note_nameservers (ok v) s = record s {
  discovered = record (s.discovered) { nameservers = as_slice v };
}

-- The result: the discovered fields, the undiscovered ones (nil if there are none) and the message.
pub record Discovery : Type 0 where
  pub discovered : DiscoveredFields
  pub undiscovered : Option (List (Text × Bool))
  pub message : Text

-- `undiscoveredFields[key]`; a nil map and a missing key read as false.
abbrev or_false : Option Bool → Bool
or_false none = false
or_false (some b) = b

unfoldable pub is_undiscovered : Option (List (Text × Bool)) → Text → Bool
is_undiscovered none key = false
is_undiscovered (some fields) key = or_false (lookup key fields)

unfoldable pub conclude : Found → List Text → Discovery
conclude s [] = record { discovered = s.discovered; undiscovered = none; message = codes "" }
conclude s (m ∷ ms) = record {
  discovered = s.discovered;
  undiscovered = some s.fields;
  message = codes "discovery failed for the following fields: " ++ join (codes "; ") (m ∷ ms);
}

-- `discoverFields` on the replies of the two extractions.
unfoldable pub discover :
    Result Text Extracted → Result Text Extracted → DiscoveredFields → Discovery
unfolding note_domain note_nameservers conclude
discover domain nameservers discovered =
    let start : Found = record { discovered = discovered; fields = []; messages = [] } in
    let s = note_nameservers nameservers (note_domain domain start) in conclude s s.messages

module _ (cluster : Cluster) (config : RestConfig) where
  open cluster use {World, list_nodes, rest_client_for, raw, unmarshal}

  -- `fetchNodeProxyConfigz`
  unfoldable pub fetch_node_proxy_configz : Call World (List (Text × Value))
  unfolding first_node copy_config kubelet_config
  fetch_node_proxy_configz = do
    nodes ← with_context (codes "failed to list nodes: ") list_nodes
    selected_node ← lift (first_node nodes)
    rest_client ←
        lift
          (context (codes "failed to create REST client: ") (rest_client_for (copy_config config)))
    raw_data ←
        with_context (codes "failed to get raw data from node " ++ (selected_node ++ codes ": "))
          (raw rest_client (configz_url selected_node))
    fields ← lift (context (codes "failed to unmarshal config: ") (unmarshal raw_data))
    lift (kubelet_config (lookup (codes "kubeletconfig") (entries fields)))

  -- `extractField`
  unfoldable pub extract_field : Text → Text → Call World Extracted
  unfolding fetch_node_proxy_configz typed_field
  extract_field field_name target_type = do
    fields ← fetch_node_proxy_configz
    lift (typed_field fields field_name target_type)

  -- `discoverFields`
  unfoldable pub discover_fields : DiscoveredFields → World → Discovery × World
  unfolding extract_field discover
  discover_fields discovered w =
      let (domain, w₁) = extract_field (codes "clusterDomain") (codes "string") w in
      let (nameservers, w₂) = extract_field (codes "clusterDNS") (codes "[]string") w₁ in
      (discover domain nameservers discovered, w₂)
