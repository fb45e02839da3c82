-- ===== src/Controller/Discovery/Fields.antt =====
-- `discoverFields`: what is written to the discovered fields, and what is reported as undiscovered.
use kubedns_shepherd.Base.{
  true, [], none, some, Text, codes, text_eq_iff, lookup, lookup-assign, assign, Result, ok, err,
  Slice, ◌≡◌, ◌↔◌, ◌⊎◌, refl, arith, inl, inr,
}
use kubedns_shepherd.Api.{DiscoveredFields}
use kubedns_shepherd.Controller.Discovery.{
  Extracted, as_string, as_slice, is_undiscovered, discover,
}

abbrev pub Failed : Result Text Extracted → Type 0
Failed (ok v) = ⊥
Failed (err e) = Unit

abbrev pub domain_or : Result Text Extracted → Text → Text
domain_or (ok v) old = as_string v
domain_or (err e) old = old

abbrev pub nameservers_or : Result Text Extracted → Slice Text → Slice Text
nameservers_or (ok v) old = as_slice v
nameservers_or (err e) old = old

one_key : (key k : Text) → (is_undiscovered (some (assign k true [])) key ≡ true) ↔ (key ≡ k)
unfolding is_undiscovered lookup assign
one_key key k = ground (arith, text_eq_iff k key)

two_keys :
    (key : Text)
    → (is_undiscovered
          (some (assign (codes "nameservers") true (assign (codes "clusterDomain") true [])))
          key
        ≡ true)
      ↔ ((key ≡ codes "clusterDomain") ⊎ (key ≡ codes "nameservers"))
unfolding is_undiscovered
two_keys key =
    rw (lookup-assign, lookup-assign)
      (unfold lookup in
        ground
          (arith, text_eq_iff (codes "nameservers") key, text_eq_iff (codes "clusterDomain") key))

-- Each field is overwritten by an extraction that succeeds and keeps its value otherwise. The key
-- `clusterDomain` is reported exactly if the domain's extraction failed, `nameservers` exactly if
-- that of the nameservers did, and no other key is; nil is returned exactly if both succeeded.
pub discover_lem :
    (domain nameservers : Result Text Extracted) (d : DiscoveredFields)
    → ((discover domain nameservers d).discovered.cluster_domain
        ≡ domain_or domain d.cluster_domain)
      × ((discover domain nameservers d).discovered.nameservers
          ≡ nameservers_or nameservers d.nameservers)
      × ((key : Text)
          → (is_undiscovered (discover domain nameservers d).undiscovered key ≡ true) ↔ (
              ((key ≡ codes "clusterDomain") × Failed domain)
              ⊎ ((key ≡ codes "nameservers") × Failed nameservers)))
      × (((discover domain nameservers d).undiscovered ≡ none)
          ↔ ((¬ Failed domain) × (¬ Failed nameservers)))
unfolding discover
discover_lem (ok v) (ok u) d =
    (refl, refl, λ key. unfold is_undiscovered in ground arith, ground arith)
discover_lem (err e) (ok u) d = (
  refl,
  refl,
  λ key.
      let (to, from) = one_key key (codes "clusterDomain") in
      (λ e. inl (to e, tt), λ o. elim o [ inl p ↦ from p.0 | inr p ↦ absurd p.1 ]),
  ground arith,
)
discover_lem (ok v) (err g) d = (
  refl,
  refl,
  λ key.
      let (to, from) = one_key key (codes "nameservers") in
      (λ e. inr (to e, tt), λ o. elim o [ inl p ↦ absurd p.1 | inr p ↦ from p.0 ]),
  ground arith,
)
discover_lem (err e) (err g) d = (
  refl,
  refl,
  λ key.
      let (to, from) = two_keys key in
      (
        λ e. elim (to e) [ inl p ↦ inl (p, tt) | inr p ↦ inr (p, tt) ],
        λ o. from (elim o [ inl p ↦ inl p.0 | inr p ↦ inr p.0 ]),
      ),
  ground arith,
)
