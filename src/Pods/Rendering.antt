-- ===== src/Pods/Rendering.antt =====
-- From the validator to the pod: the searches of a valid class, whose templates hold text and
-- fields only, are all rendered.
use kubedns_shepherd.Base.{
  true, List, [], ◌∷◌, ◌++◌, map, Option, none, some, Text, codes, text_eq, text_eq_iff, items, ok,
  done, lookup, assign, In, All, ◌≡◌, ◌≢◌, refl, sym, arith, ap, inl, inr, subst, ◌∙◌, append_assoc,
  append-nil, if◌then◌else◌,
}
use kubedns_shepherd.Api.{DnsClass, PodDnsConfig, DiscoveredFields, dns_none}
use kubedns_shepherd.Api.Keys.{is_space}
use kubedns_shepherd.Api.Keys.Placeholder.{Spaces}
use kubedns_shepherd.Api.Keys.Search.{Occurs}
use kubedns_shepherd.Api.Keys.Extract.{OccursIn, here, there, searches_of}
use kubedns_shepherd.Webhook.{valid_template_keys}
use kubedns_shepherd.Webhook.Validate.{IsValid}
use kubedns_shepherd.Templates.{
  Params, TemplateEngine, Piece, literal, field, print_piece, print, is_blank, IsSimple, render,
  Agrees, RendersFields,
}
use kubedns_shepherd.Pods.{
  Pod, config_or_new, or_else, parameter_map, set_policy, render_search, render_searches,
  configure_dns_for_pod, put_unless_empty,
}
use kubedns_shepherd.Pods.Configure.{configure_dns_for_pod_rendered}

-- The text of a template for the two known keys.
abbrev pub fill_piece : Text → Text → Piece → Text
fill_piece namespace domain (literal text) = text
fill_piece namespace domain (field before key after) =
    if text_eq key (codes "podNamespace") then namespace else domain

abbrev pub fill : Text → Text → List Piece → Text
fill namespace domain [] = []
fill namespace domain (p ∷ ps) = fill_piece namespace domain p ++ fill namespace domain ps

put_unless_empty-eq :
    (key value : Text) (params : Params)
    → value ≢ codes ""
    → put_unless_empty key value params ≡ assign key value params
put_unless_empty-eq key value params h = ground (arith, text_eq_iff value (codes ""))

parameter_map-eq :
    (namespace domain : Text)
    → namespace ≢ codes ""
    → domain ≢ codes ""
    → parameter_map namespace domain
      ≡ assign (codes "clusterDomain") domain (assign (codes "podNamespace") namespace [])
unfolding parameter_map
parameter_map-eq ns domain h k =
    put_unless_empty-eq (codes "clusterDomain") domain _ k
    ∙ ap (assign (codes "clusterDomain") domain)
        (put_unless_empty-eq (codes "podNamespace") ns [] h)

-- Both parameters are there if neither value is empty.
lookup-parameter_map :
    (namespace domain key : Text)
    → namespace ≢ codes ""
    → domain ≢ codes ""
    → In key valid_template_keys
    → lookup key (parameter_map namespace domain)
      ≡ some (if text_eq key (codes "podNamespace") then namespace else domain)
unfolding lookup assign text_eq
lookup-parameter_map ns domain key h k (inl e) = rw (parameter_map-eq ns domain h k) (rw e refl)
lookup-parameter_map ns domain key h k (inr (inl e)) =
    rw (parameter_map-eq ns domain h k) (rw e refl)
lookup-parameter_map ns domain key h k (inr (inr v)) = absurd v

blank_Spaces : (xs : Text) → All (λ c. is_blank c ≡ true) xs → Spaces xs
unfolding is_space
blank_Spaces [] h = tt
blank_Spaces (x ∷ xs) (p, h) = (ground arith, blank_Spaces xs h)

Occurs-append : {key : Text} (front s : Text) → Occurs key s → Occurs key (front ++ s)
Occurs-append front s o = record {
  front = front ++ o.front;
  back = o.back;
  rest = o.rest;
  splits = ap (λ t. front ++ t) o.splits ∙ sym (append_assoc front o.front o.back);
  placeholder = o.placeholder;
}

Occurs-field :
    (before key after rest : Text)
    → IsSimple (field before key after)
    → Occurs key (print_piece (field before key after) ++ rest)
Occurs-field before [] after rest (b, i, a) = absurd i
Occurs-field before (c ∷ key) after rest (b, i, a) = record {
  front = [];
  back = print_piece (field before (c ∷ key) after) ++ rest;
  rest = rest;
  splits = refl;
  placeholder = record {
    before = before;
    after = after;
    before_spaces = blank_Spaces before b;
    after_spaces = blank_Spaces after a;
    key_word = i.0;
    key_ne_nil = λ e. cc;
    shape = simp append_assoc;
  };
}

render-fill :
    (namespace domain : Text)
    → namespace ≢ codes ""
    → domain ≢ codes ""
    → (ps : List Piece) → All IsSimple ps
    → ((k : Text) → Occurs k (print ps) → In k valid_template_keys)
    → render (parameter_map namespace domain) ps ≡ some (fill namespace domain ps)
render-fill ns domain h k [] simple known = refl
render-fill ns domain h k (literal text ∷ ps) (s, simple) known =
    rw (render-fill ns domain h k ps simple (λ key o. known key (Occurs-append text (print ps) o)))
render-fill ns domain h k (field before key after ∷ ps) (s, simple) known =
    rw
      (lookup-parameter_map ns domain key h k
        (known key (Occurs-field before key after (print ps) s)))
      (rw (
        render-fill ns domain h k ps simple
          (λ j o. known j (Occurs-append (print_piece (field before key after)) (print ps) o))))

module _ (engine : TemplateEngine) (lawful : RendersFields engine) (namespace domain : Text) where
  module _ (h : namespace ≢ codes "") (k : domain ≢ codes "") where
    render_search-fill :
        (ps : List Piece)
        → All IsSimple ps
        → ((key : Text) → Occurs key (print ps) → In key valid_template_keys)
        → render_search engine (parameter_map namespace domain) (print ps)
          ≡ ok (fill namespace domain ps)
    unfolding render_search
    render_search-fill ps simple known =
        let (t, parses, executes) = lawful.renders ps simple in
        let agrees : engine.execute t (parameter_map namespace domain)
            ≡ ok (fill namespace domain ps) =
          subst (λ o. Agrees o (engine.execute t (parameter_map namespace domain)))
            (render-fill namespace domain h k ps simple known)
            (executes (parameter_map namespace domain)) in
        rw (parses, render_search) (rw (agrees, render_search) refl)

    render_searches-fill :
        (acc : List Text) (templates : List (List Piece))
        → All (All IsSimple) templates
        → ((key : Text) → OccursIn key (map print templates) → In key valid_template_keys)
        → render_searches engine (parameter_map namespace domain) acc (map print templates)
          ≡ ok (acc ++ map (fill namespace domain) templates)
    unfolding render_searches
    render_searches-fill acc [] simple known = ap ok (sym (append-nil acc))
    render_searches-fill acc (ps ∷ templates) (s, simple) known =
        rw (render_search-fill ps s (λ key o. known key (here o)), render_searches)
          (render_searches-fill (acc ++ (fill namespace domain ps ∷ [])) templates simple
              (λ key o. known key (there o))
            ∙ ap ok (append_assoc acc (fill namespace domain ps ∷ []) _))

searches_of-eq :
    (config : Option PodDnsConfig) → searches_of config ≡ items (config_or_new config).searches
searches_of-eq none = refl
searches_of-eq (some config) = refl

-- Let the engine fill in the fields of simple templates, and let a valid class with the policy
-- `None` have only such templates as searches. If a cluster domain has been discovered, the pod's
-- namespace is not empty, and there are nameservers, then the pod is configured without an error:
-- its searches are the templates with the namespace and the domain filled in, its nameservers those
-- of the class or else the discovered ones, its options those of the class.
pub configure_dns_for_pod_of_IsValid :
    (engine : TemplateEngine) (lawful : RendersFields engine) (pod : Pod) (c : DnsClass)
    (d : DiscoveredFields) (templates : List (List Piece)) (nameservers : List Text)
    → IsValid c.spec
    → c.spec.dns_policy ≡ dns_none
    → items (config_or_new c.spec.dns_config).searches ≡ map print templates
    → All (All IsSimple) templates
    → c.status.discovered_fields ≡ some d
    → d.cluster_domain ≢ codes ""
    → pod.namespace ≢ codes ""
    → or_else (config_or_new c.spec.dns_config).nameservers d.nameservers ≡ some nameservers
    → configure_dns_for_pod engine pod c
      ≡ done (
        set_policy
            (record pod {
              dns_config = some (record {
                nameservers = some nameservers;
                searches = some (map (fill pod.namespace d.cluster_domain) templates);
                options = (config_or_new c.spec.dns_config).options;
              });
            })
            c,
        none,
      )
configure_dns_for_pod_of_IsValid engine lawful pod c d templates ns v policy same simple found dom
      nsp chosen =
    let known : (key : Text) → OccursIn key (map print templates) → In key valid_template_keys =
      λ key o.
        v.keys key (subst (OccursIn key) (sym (searches_of-eq c.spec.dns_config ∙ same)) o) in
    configure_dns_for_pod_rendered engine pod c policy found
      (ap (render_searches engine (parameter_map pod.namespace d.cluster_domain) []) same
        ∙ render_searches-fill engine lawful pod.namespace d.cluster_domain nsp dom [] templates
            simple known)
      chosen
