-- ===== src/Tests/KeysTests.antt =====
-- Template keys: tests, and the theorems at concrete searches.
use kubedns_shepherd.Base.{[], ◌∷◌, some, codes, text_eq, In, ◌≡◌, ◌↔◌, refl}
use kubedns_shepherd.Api.Keys.{find_all, extract_template_keys_regex, extract_keys}
use kubedns_shepherd.Api.Keys.Search.{find_each, find_all-eq-find_each}
use kubedns_shepherd.Api.Keys.Extract.{OccursIn, searches_of, Distinct, extract_keys_lem}
use kubedns_shepherd.Tests.Fixtures.{config, new_class}

find_all_tests :
    (find_all (codes "a {{ .x }}{{.y_2}}.b") ≡ codes "x" ∷ codes "y_2" ∷ [])
    × (find_all (codes "{{{ .x }} {{ x }} {{ .x } } {{ . }}") ≡ codes "x" ∷ [])
    × (find_all (codes "{{ .x | len }} {{- .y }}") ≡ [])
unfolding find_all
find_all_tests = (refl, refl, refl)

extract_test :
    extract_template_keys_regex new_class ≡ codes "podNamespace" ∷ codes "clusterDomain" ∷ []
unfolding extract_template_keys_regex text_eq
extract_test = refl

find_all-eq-find_each_example :
    find_all (codes "{{ .x }}{{.x}}") ≡ find_each (codes "{{ .x }}{{.x}}")
find_all-eq-find_each_example = find_all-eq-find_each (codes "{{ .x }}{{.x}}")

extract_keys_lem_example :
    (In (codes "clusterDomain") (extract_keys (some config))
      ↔ OccursIn (codes "clusterDomain") (searches_of (some config)))
    × Distinct (extract_keys (some config))
extract_keys_lem_example = extract_keys_lem (codes "clusterDomain") (some config)
