-- ===== src/System/Patched.antt =====
-- From the webhooks of the class and the controller to the pod: a pod that is created once the
-- controller is at rest is given what the class says.
use kubedns_shepherd.Base.{
  false, List, [], map, none, some, Text, codes, items, ok, done, All, ◌≡◌, ◌≢◌, ◌∙◌, ap, refl,
}
use kubedns_shepherd.Api.{DnsClass, DiscoveredFields, dns_none}
use kubedns_shepherd.Templates.{TemplateEngine, Piece, print, IsSimple, RendersFields}
use kubedns_shepherd.Controller.Cluster.{Cluster, RestConfig, Documented}
use kubedns_shepherd.Pods.{
  Pod, PodMutator, config_or_new, or_else, set_policy, patched, respond, handle,
}
use kubedns_shepherd.Pods.Select.{First}
use kubedns_shepherd.Pods.Rendering.{fill, configure_dns_for_pod_of_IsValid}
use kubedns_shepherd.Pods.Handle.{handle_ready}
use kubedns_shepherd.System.{State, Reachable}
use kubedns_shepherd.System.Settled.{Reachable-settled}

-- The pod with the resolver configuration that the class has for it.
abbrev pub configured : Pod → DnsClass → DiscoveredFields → List (List Piece) → List Text → Pod
configured pod c d templates nameservers =
    set_policy
      (record pod {
        dns_config = some (record {
          nameservers = some nameservers;
          searches = some (map (fill pod.namespace d.cluster_domain) templates);
          options = (config_or_new c.spec.dns_config).options;
        });
      })
      c

module _ (cluster : Cluster) (config : RestConfig) where
  -- A class that some state stores in which the cache is not behind and the controller is at rest.
  pub record Settled (c : DnsClass) : Type 0 where
    pub state : State
    pub reachable : Reachable cluster config state
    pub stored : state.stored ≡ some c
    pub known : state.pending ≡ []
    pub idle : state.reading ≡ none
    pub quiet : state.queued ≡ false
    pub kept : state.lost ≡ false

  -- Let a pod's request be decoded, and let the first class that is eligible for the pod be stored,
  -- behind any steps of the API server and the controller, with the controller at rest, its cache not
  -- behind and no status lost. Let its
  -- policy be `None`, its searches be templates of text and fields, and the engine fill in the
  -- fields; let there be nameservers, let the discovered cluster domain and the pod's namespace not
  -- be empty, and let the configured pod be marshaled. Then the webhook patches the pod: to the class's options, its nameservers or else
  -- the discovered ones, and its templates with the namespace and the domain filled in.
  pub handle-patched_of_Settled :
      (documented : Documented cluster) (engine : TemplateEngine) (lawful : RendersFields engine)
      (p : PodMutator) (req : p.Request) (pod : Pod) (c : DnsClass) (classes : List DnsClass)
      (d : DiscoveredFields) (templates : List (List Piece)) (nameservers : List Text)
      (bytes : Text)
      → p.decode req ≡ ok pod
      → p.list ≡ ok classes
      → First pod c classes
      → Settled c
      → c.spec.dns_policy ≡ dns_none
      → items (config_or_new c.spec.dns_config).searches ≡ map print templates
      → All (All IsSimple) templates
      → c.status.discovered_fields ≡ some d
      → d.cluster_domain ≢ codes ""
      → pod.namespace ≢ codes ""
      → or_else (config_or_new c.spec.dns_config).nameservers d.nameservers ≡ some nameservers
      → p.marshal (configured pod c d templates nameservers) ≡ ok bytes
      → handle engine p req ≡ done (patched (p.patch_response_from_raw (p.raw req) bytes))
  unfolding respond
  handle-patched_of_Settled documented engine lawful p req pod c classes d templates nameservers
        bytes decoded listed first k policy same simple found domain namespace chosen marshals =
      let (valid, ready, _, _) =
        Reachable-settled cluster config documented k.reachable k.stored k.known k.idle k.quiet
          k.kept in
      handle_ready engine p req
        (record { classes = classes; decoded = decoded; listed = listed; first = first }) ready
      ∙ ap (respond engine p req c) (
          configure_dns_for_pod_of_IsValid engine lawful pod c d templates nameservers valid policy
            same simple found domain namespace chosen)
      ∙ rw (marshals, respond) refl
