-- ===== src/Controller/Reconcile/Results.antt =====
-- What a reconciliation returns and which status it writes.
use kubedns_shepherd.Base.{
  true, List, [], ◌∷◌, Option, none, some, Text, codes, text_eq, text_eq_iff, Slice, ok, ◌≡◌, ◌≢◌,
  refl, ap, ◌∙◌, arith, inl, inr, Bool-cases,
}
use kubedns_shepherd.Api.{DnsClass, DiscoveredFields, dns_none, state_ready, state_error}
use kubedns_shepherd.Api.Keys.{extract_template_keys_regex}
use kubedns_shepherd.Controller.Cluster.{Cluster, RestConfig, Documented, find_condition}
use kubedns_shepherd.Controller.Discovery.{Discovery, discover_fields}
use kubedns_shepherd.Controller.Status.{
  condition_true, reason_error, reason_completed, write_status,
}
use kubedns_shepherd.Controller.Status.Reports.{HasCondition, Reports, update_status-Reports}
use kubedns_shepherd.Controller.Reconcile.{
  Outcome, with_discovered, texts_equal, slices_equal, deep_equal, any_undiscovered,
  keep_discovered, finish, check_discovery, reconcile_class, with_initial_state, started, deferred,
  reconcile_found, reconcile, fields_or_new,
}

texts_equal-eq : (xs ys : List Text) → texts_equal xs ys ≡ true → xs ≡ ys
unfolding texts_equal
texts_equal-eq (x ∷ xs) (y ∷ ys) h = ground (arith, texts_equal-eq xs ys, text_eq_iff x y)
texts_equal-eq [] [] h = refl
texts_equal-eq _ _ h = cc

slices_equal-eq : (xs ys : Slice Text) → slices_equal xs ys ≡ true → xs ≡ ys
unfolding slices_equal
slices_equal-eq none none h = refl
slices_equal-eq (some xs) (some ys) h = ap some (texts_equal-eq xs ys h)
slices_equal-eq _ _ h = cc

deep_equal-eq :
    (d : DiscoveredFields) (held : Option DiscoveredFields)
    → deep_equal d held ≡ true
    → held ≡ some d
unfolding deep_equal
deep_equal-eq d none h = cc
deep_equal-eq d (some e) h = ground (
  arith,
  slices_equal-eq d.nameservers e.nameservers,
  text_eq_iff d.cluster_domain e.cluster_domain,
)

-- Either way the status holds the discovered fields.
keep_discovered-eq :
    (d : DiscoveredFields) (c : DnsClass) → keep_discovered d c ≡ with_discovered c (some d)
unfolding keep_discovered
keep_discovered-eq d c = elim (Bool-cases (deep_equal d c.status.discovered_fields)) [
  | inr e ↦ rw e
  | inl e ↦ rw e (ap (with_discovered c) (deep_equal-eq d c.status.discovered_fields e))
]

module _ (cluster : Cluster) (config : RestConfig) where
  open cluster use {World, Error, error_text, is_not_found, get}

  -- What `reconcile_class` makes of a class.
  pub record Concluded (c : DnsClass) (o : Outcome Error) : Type 0 where
    pub only_status : o.class ≡ record c { status = o.class.status }
    pub conditions : o.class.status.conditions ≡ c.status.conditions
    pub ready : o.error ≡ none → (o.class.status.state ≡ state_ready) × (o.message ≡ codes "Ready")
    pub fields :
        o.error ≡ none → c.spec.dns_policy ≡ dns_none → o.class.status.discovered_fields ≢ none
    pub policy : o.error ≢ none → c.spec.dns_policy ≡ dns_none

  finish-Concluded :
      (c : DnsClass) (w : World)
      → (c.spec.dns_policy ≡ dns_none → c.status.discovered_fields ≢ none)
      → Concluded c (finish cluster config c w).0
  unfolding finish
  finish-Concluded c w h = record {
    only_status = refl;
    conditions = refl;
    ready = λ e. (refl, refl);
    fields = λ e. h;
    policy = λ e. absurd (e refl);
  }

  check_discovery-Concluded :
      (d : Discovery) (c : DnsClass) (w : World)
      → c.spec.dns_policy ≡ dns_none
      → Concluded c (check_discovery cluster config d c w).0
  unfolding check_discovery finish
  check_discovery-Concluded d c w policy =
      elim (Bool-cases (any_undiscovered d.undiscovered (extract_template_keys_regex c))) [
        | inl e ↦ rw e (record {
          only_status = refl;
          conditions = refl;
          ready = λ n. cc;
          fields = λ n. cc;
          policy = λ n. policy;
        })
        | inr e ↦ rw e (
            rw (keep_discovered-eq d.discovered) (record {
              only_status = refl;
              conditions = refl;
              ready = λ n. (refl, refl);
              fields = λ n p q. cc;
              policy = λ n. policy;
            }))
      ]

  pub reconcile_class-Concluded :
      (c : DnsClass) (w : World) → Concluded c (reconcile_class cluster config c w).0
  unfolding reconcile_class
  reconcile_class-Concluded c w = elim (Bool-cases (text_eq c.spec.dns_policy dns_none)) [
    | inl e ↦ rw e (
        check_discovery-Concluded
          (discover_fields cluster config (fields_or_new c.status.discovered_fields) w).0 c _
          ((text_eq_iff _ _).0 e))
    | inr e ↦ rw e (
        finish-Concluded c w (λ p. absurd (ground (arith, text_eq_iff c.spec.dns_policy dns_none))))
  ]

  module _ (documented : Documented cluster) where
    -- The status that is written, for each result.
    abbrev pub Verdict : DnsClass → Option Error → DnsClass → Type 0
    Verdict c none c' =
        (c'.status.state ≡ state_ready)
        × HasCondition c'.status state_ready condition_true (codes "Ready") reason_completed
        × (c.spec.dns_policy ≡ dns_none → c'.status.discovered_fields ≢ none)
        × ((t : Text)
            → t ≢ state_ready
            → find_condition t c'.status.conditions ≡ find_condition t c.status.conditions)
    Verdict c (some e) c' =
        (c'.status.state ≡ state_error)
        × HasCondition c'.status state_error condition_true (error_text e) reason_error
        × (c.spec.dns_policy ≡ dns_none)
        × ((t : Text)
            → t ≢ state_error
            → find_condition t c'.status.conditions ≡ find_condition t c.status.conditions)

    pub conclude-Verdict :
        (c : DnsClass) (o : Outcome Error) (error : Option Error) (c' : DnsClass)
        → o.error ≡ error
        → Concluded c o
        → Reports cluster documented o.class error o.message c'
        → (c' ≡ record c { status = c'.status }) × Verdict c error c'
    conclude-Verdict c o none c' e k (r, other) =
        let done = k.ready e in
        let reported = r done.0 in
        (
          cc (k.only_status, reported.only_status),
          (
            reported.state_is,
            rw (← done.1) (reported.has),
            λ p. rw (reported.discovered) (k.fields e p),
            λ t h. reported.others t h ∙ ap (find_condition t) k.conditions,
          ),
        )
    conclude-Verdict c o (some why) c' e k r = (
      cc (k.only_status, r.only_status),
      (
        r.state_is,
        r.has,
        k.policy (λ n. cc),
        λ t h. r.others t h ∙ ap (find_condition t) k.conditions,
      ),
    )

    -- A reconciliation of a class that is read ends with the writing of a status. If nil is
    -- returned, the state is `ready` and the condition `ready` is true; for the policy `None` the
    -- discovered fields are set. If an error is returned, the policy is `None`, the state is
    -- `error`, and the condition `error` is true and holds the error's text. The conditions of
    -- every other type are kept, and the rest of the class too.
    pub reconcile-Verdict :
        (name namespace : Text) (w w₁ : World) (c : DnsClass)
        → get name namespace w ≡ (ok c, w₁)
        → (c' : DnsClass) × (w' : World) × ((reconcile cluster config name namespace w).1
            ≡ (write_status cluster c' w').1)
          × (c' ≡ record c { status = c'.status })
          × Verdict c (reconcile cluster config name namespace w).0 c'
    unfolding reconcile reconcile_found deferred
    reconcile-Verdict name namespace w w₁ c read =
        let start = with_initial_state cluster config c in
        let r = reconcile_class cluster config start (started cluster config c w₁) in
        let k = reconcile_class-Concluded start (started cluster config c w₁) in
        let (c', w', same, reports) =
          update_status-Reports cluster documented r.0.error r.0.message r.0.class r.1 in
        let (rest, verdict) = conclude-Verdict start r.0 r.0.error c' refl k reports in
        rw (read, reconcile_found) (c', w', ap (λ x. x.1) same, rest, verdict)
