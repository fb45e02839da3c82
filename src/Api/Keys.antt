-- ===== src/Api/Keys.antt =====
-- `ExtractTemplateKeysRegex` of api/v1alpha1/dnsclass_types.go. The regular expression
-- `{{\s*\.([a-zA-Z0-9_]+)\s*}}` is matched by hand, piece by piece: each repetition is followed by
-- a byte outside of its class, so the greedy choice is the only one.
pub mod Placeholder
pub mod Search
pub mod Extract
use kubedns_shepherd.Base.{
  ℕ, zero, suc, Bool, ◌&&◌, ◌||◌, List, [], ◌∷◌, ◌++◌, Option, none, some, Text, contains, items,
  length, leb, ◌==◌, if◌then◌else◌,
}
use kubedns_shepherd.Api.{DnsClass, PodDnsConfig}

-- `\s` of RE2.
unfoldable pub is_space : ℕ → Bool
is_space c = c == b'\t' || c == b'\n' || c == 12 || c == b'\r' || c == b' '

abbrev within : ℕ → ℕ → ℕ → Bool
within lo hi c = leb lo c && leb c hi

-- `[a-zA-Z0-9_]`.
unfoldable pub is_word : ℕ → Bool
is_word c = within b'a' b'z' c || within b'A' b'Z' c || within b'0' b'9' c || c == b'_'

-- `\s*`: what is left behind it.
unfoldable pub skip_spaces : Text → Text
skip_spaces [] = []
skip_spaces (c ∷ s) = if is_space c then skip_spaces s else c ∷ s

-- `[a-zA-Z0-9_]*`: the bytes taken, and what is left.
unfoldable pub span_word : Text → Text × Text
span_word [] = ([], [])
span_word (c ∷ s) =
    let rest = span_word s in if is_word c then (c ∷ rest.0, rest.1) else ([], c ∷ s)

-- `}}`: what is left behind it.
unfoldable pub closes : Text → Option Text
closes (c ∷ d ∷ s) = if c == b'}' && d == b'}' then some s else none
closes _ = none

abbrev pub with_group : Text → Option Text → Option (Text × Text)
with_group key none = none
with_group key (some rest) = some (key, rest)

-- `([a-zA-Z0-9_]+)\s*}}`: the group, and what is left behind the match.
unfoldable pub match_word : Text × Text → Option (Text × Text)
match_word ([], rest) = none
match_word (c ∷ word, rest) = with_group (c ∷ word) (closes (skip_spaces rest))

-- `\.` and the rest.
unfoldable pub match_field : Text → Option (Text × Text)
match_field [] = none
match_field (c ∷ s) = if c == b'.' then match_word (span_word s) else none

-- The whole expression, anchored at the start of the text.
unfoldable pub match_key : Text → Option (Text × Text)
match_key (c ∷ d ∷ s) = if c == b'{' && d == b'{' then match_field (skip_spaces s) else none
match_key _ = none

-- The groups of `FindAllStringSubmatch`: the expression is tried at each position in turn, and
-- behind a match the search goes on where the match ends. The fuel bounds the rounds.
unfoldable pub find_from : ℕ → Text → List Text
find_from zero s = []
find_from (suc fuel) [] = []
find_from (suc fuel) (c ∷ s) = elim (match_key (c ∷ s)) [
  | none ↦ find_from fuel s
  | some (key, rest) ↦ key ∷ find_from fuel rest
]

unfoldable pub find_all : Text → List Text
unfolding find_from match_key match_field match_word closes span_word skip_spaces is_word is_space
find_all s = find_from (length s) s

-- The inner loop: `append` unless the key is there.
unfoldable pub add_keys : List Text → List Text → List Text
add_keys keys [] = keys
add_keys keys (m ∷ ms) = add_keys (if contains keys m then keys else keys ++ (m ∷ [])) ms

-- The loop over the searches.
unfoldable pub add_searches : List Text → List Text → List Text
unfolding add_keys find_all contains
add_searches keys [] = keys
add_searches keys (search ∷ rest) = add_searches (add_keys keys (find_all search)) rest

unfoldable pub extract_keys : Option PodDnsConfig → List Text
unfolding add_searches
extract_keys none = []
extract_keys (some config) = add_searches [] (items config.searches)

unfoldable pub extract_template_keys_regex : DnsClass → List Text
unfolding extract_keys
extract_template_keys_regex r = extract_keys r.spec.dns_config
