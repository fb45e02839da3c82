-- ===== src/Pods/Handle.antt =====
-- `PodMutator.Handle`: when a pod is changed, when it is let through as it is, and when the handler
-- panics.
use kubedns_shepherd.Base.{
  List, Option, none, some, Text, codes, text_eq, text_eq_iff, ok, Result-cases, Run, done, panic,
  ◌++◌, ◌≡◌, ◌≢◌, ◌↔◌, refl, sym, arith, ap, inl, inr, Bool-cases, ◌∙◌, subst,
}
use kubedns_shepherd.Api.{DnsClass, dns_none, state_ready}
use kubedns_shepherd.Templates.{TemplateEngine}
use kubedns_shepherd.Pods.{
  Pod, PodMutator, Response, allowed, patched, get_dns_class, configure_dns_for_pod, respond,
  handle, err_not_available_dns_class,
}
use kubedns_shepherd.Pods.Select.{First, get_dns_class-ok_iff}
use kubedns_shepherd.Pods.Configure.{configure_dns_for_pod-panic_iff}

module _ (engine : TemplateEngine) (p : PodMutator) where
  open p use {Request, Patch, raw, decode, list, marshal, patch_response_from_raw}

  -- The request holds a pod, and the first class that is eligible for it is `c`.
  pub record Selects (req : Request) (pod : Pod) (c : DnsClass) : Type 0 where
    pub classes : List DnsClass
    pub decoded : decode req ≡ ok pod
    pub listed : list ≡ ok classes
    pub first : First pod c classes

  Selects-get :
      {req : Request} {pod : Pod} {c : DnsClass} → Selects req pod c → get_dns_class list pod ≡ ok c
  Selects-get {pod} {c} s = rw (s.listed) ((get_dns_class-ok_iff pod s.classes c).1 s.first)

  get-Selects :
      (req : Request) (pod : Pod) (c : DnsClass)
      → decode req ≡ ok pod
      → get_dns_class list pod ≡ ok c
      → Selects req pod c
  get-Selects req pod c d g = elim (Result-cases list) [
    | inr (e, l) ↦ absurd (unfold get_dns_class in ground arith)
    | inl (classes, l) ↦ record {
      classes = classes;
      decoded = d;
      listed = l;
      first = (get_dns_class-ok_iff pod classes c).0 (rw l at g);
    }
  ]

  -- The handler on a request whose class is ready.
  pub handle_ready :
      (req : Request) {pod : Pod} {c : DnsClass}
      → Selects req pod c
      → c.status.state ≡ state_ready
      → handle engine p req ≡ respond engine p req c (configure_dns_for_pod engine pod c)
  unfolding handle
  handle_ready req {pod} {c} s ready =
      ground (arith, s.decoded, Selects-get s, text_eq_iff c.status.state state_ready)

  -- The request's pod is changed to what `configureDNSForPod` makes of it.
  pub record Mutates (req : Request) (patch : Patch) : Type 0 where
    pub pod : Pod
    pub class : DnsClass
    pub selected : Selects req pod class
    pub ready : class.status.state ≡ state_ready
    pub configured : Pod
    pub configures : configure_dns_for_pod engine pod class ≡ done (configured, none)
    pub bytes : Text
    pub marshals : marshal configured ≡ ok bytes
    pub patch_is : patch ≡ patch_response_from_raw (raw req) bytes

  -- The class that is selected is ready, has the policy `None` and no discovered fields.
  pub record Crashes (req : Request) : Type 0 where
    pub pod : Pod
    pub class : DnsClass
    pub selected : Selects req pod class
    pub ready : class.status.state ≡ state_ready
    pub policy : class.spec.dns_policy ≡ dns_none
    pub discovered : class.status.discovered_fields ≡ none

  abbrev Verdict : Request → Run (Response Patch) → Type 0
  Verdict req panic = Crashes req
  Verdict req (done (allowed message)) = Unit
  Verdict req (done (patched patch)) = Mutates req patch

  respond-Verdict :
      (req : Request) (pod : Pod) (c : DnsClass) (run : Run (Pod × Option Text))
      → Selects req pod c
      → c.status.state ≡ state_ready
      → configure_dns_for_pod engine pod c ≡ run
      → Verdict req (respond engine p req c run)
  unfolding respond
  respond-Verdict req pod c panic s ready e =
      let (policy, nothing) = (configure_dns_for_pod-panic_iff engine pod c).0 e in
      record {
        pod = pod;
        class = c;
        selected = s;
        ready = ready;
        policy = policy;
        discovered = nothing;
      }
  respond-Verdict req pod c (done (q, some why)) s ready e = tt
  respond-Verdict req pod c (done (q, none)) s ready e = elim (Result-cases (marshal q)) [
    | inr (why, m) ↦ rw (m, respond) tt
    | inl (bytes, m) ↦
        rw (m, respond)
          (record {
            pod = pod;
            class = c;
            selected = s;
            ready = ready;
            configured = q;
            configures = e;
            bytes = bytes;
            marshals = m;
            patch_is = refl;
          })
  ]

  handle-Verdict : (req : Request) → Verdict req (handle engine p req)
  unfolding handle
  handle-Verdict req = elim (Result-cases (decode req)) [
    | inr (why, d) ↦ rw (d, handle) tt
    | inl (pod, d) ↦ elim (Result-cases (get_dns_class list pod)) [
      | inr (why, g) ↦ rw (d, handle) (rw (g, handle) tt)
      | inl (c, g) ↦ elim (Bool-cases (text_eq c.status.state state_ready)) [
        | inr s ↦ rw (d, handle) (rw (g, handle) (rw s tt))
        | inl s ↦
            rw (d, handle)
              (rw (g, handle)
                (rw s (
                  respond-Verdict req pod c (configure_dns_for_pod engine pod c)
                    (get-Selects req pod c d g) ((text_eq_iff _ _).0 s) refl)))
      ]
    ]
  ]

  -- A pod is patched exactly if it can be decoded, the classes can be listed, the first eligible
  -- class is ready and configures the pod without an error, and the pod can be marshaled; the patch
  -- is then the one from the raw object to the configured pod. In every other case that ends
  -- without a panic the pod is let through as it is.
  pub handle-patched_iff :
      (req : Request) (patch : Patch)
      → (handle engine p req ≡ done (patched patch)) ↔ Mutates req patch
  handle-patched_iff req patch = (
    λ h. subst (Verdict req) h (handle-Verdict req),
    λ m.
        handle_ready req m.selected m.ready
        ∙ ap (respond engine p req m.class) m.configures
        ∙ unfold respond in
          (rw (m.marshals, respond) (ap (λ x. done (patched x)) (sym m.patch_is))),
  )

  -- The handler panics exactly if the first eligible class is ready, has the policy `None` and has
  -- no discovered fields.
  pub handle-panic_iff : (req : Request) → (handle engine p req ≡ panic) ↔ Crashes req
  handle-panic_iff req = (
    λ h. subst (Verdict req) h (handle-Verdict req),
    λ m.
        handle_ready req m.selected m.ready
        ∙ ap (respond engine p req m.class)
            ((configure_dns_for_pod-panic_iff engine m.pod m.class).1 (m.policy, m.discovered))
        ∙ unfold respond in refl,
  )

  -- While the first eligible class is not ready the pod is let through as it is, and the message
  -- names the class.
  pub handle_not_ready :
      (req : Request) (pod : Pod) (c : DnsClass)
      → Selects req pod c
      → c.status.state ≢ state_ready
      → handle engine p req ≡ done (allowed (c.name ++ (codes " " ++ err_not_available_dns_class)))
  unfolding handle
  handle_not_ready req pod c s other =
      ground (arith, s.decoded, Selects-get s, text_eq_iff c.status.state state_ready)
