-- ===== src/System/Written.antt =====
-- What the status that a reconciliation writes says: that it is ready only if the class is served,
-- and that it is ready if no error is returned.
use kubedns_shepherd.Base.{
  Bool, true, false, Option, none, some, text_eq, text_eq_iff, ◌≡◌, ◌≢◌, refl, sym, ◌∙◌, arith,
}
use kubedns_shepherd.Api.{DnsClass, DnsClassSpec, dns_none, state_ready, state_error}
use kubedns_shepherd.Controller.Cluster.{Cluster, RestConfig, Documented}
use kubedns_shepherd.Controller.Status.{class_to_write}
use kubedns_shepherd.Controller.Status.Reports.{class_to_write-Reports}
use kubedns_shepherd.Controller.Reconcile.{started, reconcile_class, with_initial_state}
use kubedns_shepherd.Controller.Reconcile.Results.{
  Verdict, conclude-Verdict, reconcile_class-Concluded,
}
use kubedns_shepherd.System.{is_some, reconciled, fails}

state_error-ne : state_error ≢ state_ready
unfolding text_eq
state_error-ne h =
    let same : text_eq state_error state_ready ≡ true = (text_eq_iff state_error state_ready).1 h in
    ground (arith, same)

module _ (cluster : Cluster) (config : RestConfig) (documented : Documented cluster) where
  open cluster use {World, Error}

  -- A status is ready only if the spec that it was computed from is served: with the policy `None`
  -- there are discovered fields.
  abbrev pub Served : DnsClassSpec → DnsClass → Type 0
  Served spec c =
      c.status.state ≡ state_ready → spec.dns_policy ≡ dns_none → c.status.discovered_fields ≢ none

  Verdict-Served :
      (c : DnsClass) (error : Option Error) (c' : DnsClass)
      → Verdict cluster config documented c error c'
      → Served c.spec c'
  Verdict-Served c none c' (_, _, fields, _) ready = fields
  Verdict-Served c (some e) c' (state, _, _, _) ready = absurd (state_error-ne (sym state ∙ ready))

  Verdict-ready :
      (c : DnsClass) (error : Option Error) (c' : DnsClass)
      → Verdict cluster config documented c error c'
      → is_some error ≡ false
      → c'.status.state ≡ state_ready
  Verdict-ready c none c' (state, _, _, _) ok = state
  Verdict-ready c (some e) c' v ok = cc

  -- The result of a reconciliation and the status that it writes, together.
  record Judged (c c' : DnsClass) (failed : Bool) : Type 0 where
    error : Option Error
    same : is_some error ≡ failed
    verdict : Verdict cluster config documented (with_initial_state cluster config c) error c'

  reconciled-Judged :
      (c : DnsClass) (w : World)
      → Judged c (reconciled cluster config c w) (fails cluster config c w)
  unfolding reconciled fails
  reconciled-Judged c w =
      let c₀ = with_initial_state cluster config c in
      let (o, w') = reconcile_class cluster config c₀ (started cluster config c w) in
      let c' = (class_to_write cluster o.error o.message o.class w').0 in
      record {
        error = o.error;
        same = refl;
        verdict =
            (conclude-Verdict cluster config documented c₀ o o.error c' refl
              (reconcile_class-Concluded cluster config c₀ (started cluster config c w))
              (class_to_write-Reports cluster documented o.error o.message o.class w')).1;
      }

  pub reconciled-Served : (c : DnsClass) (w : World) → Served c.spec (reconciled cluster config c w)
  reconciled-Served c w =
      let j = reconciled-Judged c w in
      Verdict-Served (with_initial_state cluster config c) j.error (reconciled cluster config c w)
        j.verdict

  pub reconciled-ready :
      (c : DnsClass) (w : World)
      → fails cluster config c w ≡ false
      → (reconciled cluster config c w).status.state ≡ state_ready
  reconciled-ready c w ok =
      let j = reconciled-Judged c w in
      Verdict-ready (with_initial_state cluster config c) j.error (reconciled cluster config c w)
        j.verdict (j.same ∙ ok)
