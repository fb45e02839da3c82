-- ===== src/Controller/Reconcile.antt =====
-- `Reconcile` of internal/controller/dnsclass_controller.go.
pub mod Results
pub mod Failures
use kubedns_shepherd.Base.{
  ℕ, Bool, true, false, ◌&&◌, ◌||◌, not, List, [], ◌∷◌, Option, none, some, Text, codes, text_eq,
  Slice, Result, ok, err, if◌then◌else◌,
}
use kubedns_shepherd.Api.{
  DnsClass, DnsClassStatus, DiscoveredFields, dns_none, state_init, state_ready,
}
use kubedns_shepherd.Api.Keys.{extract_template_keys_regex}
use kubedns_shepherd.Controller.Cluster.{Cluster, RestConfig}
use kubedns_shepherd.Controller.Discovery.{Discovery, discover_fields, is_undiscovered}
use kubedns_shepherd.Controller.Status.{update_status}

abbrev fields_or_new : Option DiscoveredFields → DiscoveredFields
fields_or_new none = record { nameservers = none; cluster_domain = codes "" }
fields_or_new (some fields) = fields

abbrev with_discovered : DnsClass → Option DiscoveredFields → DnsClass
with_discovered dnsclass fields = record dnsclass {
  status = record (dnsclass.status) { discovered_fields = fields };
}

-- `discoverFields` writes through the pointer that the status holds, unless that is nil and the
-- fields are new.
abbrev shared : Option DiscoveredFields → DiscoveredFields → Option DiscoveredFields
shared none fields = none
shared (some old) fields = some fields

unfoldable pub texts_equal : List Text → List Text → Bool
texts_equal [] [] = true
texts_equal (x ∷ xs) (y ∷ ys) = text_eq x y && texts_equal xs ys
texts_equal _ _ = false

unfoldable pub slices_equal : Slice Text → Slice Text → Bool
unfolding texts_equal
slices_equal none none = true
slices_equal (some xs) (some ys) = texts_equal xs ys
slices_equal _ _ = false

-- `reflect.DeepEqual` on the two pointers, of which the first is not nil.
unfoldable pub deep_equal : DiscoveredFields → Option DiscoveredFields → Bool
unfolding slices_equal
deep_equal fields none = false
deep_equal fields (some held) =
    slices_equal fields.nameservers held.nameservers
    && text_eq fields.cluster_domain held.cluster_domain

-- The loop over the template keys: one of them is undiscovered.
unfoldable pub any_undiscovered : Option (List (Text × Bool)) → List Text → Bool
any_undiscovered undiscovered [] = false
any_undiscovered undiscovered (key ∷ keys) =
    is_undiscovered undiscovered key || any_undiscovered undiscovered keys

-- The end of the branch for `None`: the status holds the discovered fields.
unfoldable pub keep_discovered : DiscoveredFields → DnsClass → DnsClass
unfolding deep_equal
keep_discovered fields dnsclass =
    if not (deep_equal fields dnsclass.status.discovered_fields)
    then with_discovered dnsclass (some fields)
    else dnsclass

-- What the deferred call reads: `err`, `statusMessage` and `dnsclass`.
pub record Outcome (Error : Type 0) : Type 0 where
  pub error : Option Error
  pub message : Text
  pub class : DnsClass

module _ (cluster : Cluster) (config : RestConfig) where
  open cluster use {World, Error, new_error, is_not_found, get, eventf}

  abbrev pub started : DnsClass → World → World
  started dnsclass =
      eventf dnsclass (codes "Normal") (codes "Reconciling") (codes "StartReconciling")
        (codes "Reconciliation started")

  abbrev failed_event : DnsClass → World → World
  failed_event dnsclass =
      eventf dnsclass (codes "Warning") (codes "Failed") (codes "StopReconciling")
        (codes "DNSClass will be unavailable due to missing required template keys")

  abbrev successful_event : DnsClass → World → World
  successful_event dnsclass =
      eventf dnsclass (codes "Normal") (codes "Successful") (codes "StopReconciling")
        (codes "Reconciliation successfully completed")

  -- From `dnsclass.Status.State = StateReady` on.
  unfoldable pub finish : DnsClass → World → Outcome Error × World
  finish dnsclass w =
      let ready : DnsClass = record dnsclass {
        status = record (dnsclass.status) { state = state_ready };
      } in
      (record { error = none; message = codes "Ready"; class = ready }, successful_event ready w)

  -- The branch for the policy `None`, behind `discoverFields`.
  unfoldable pub check_discovery : Discovery → DnsClass → World → Outcome Error × World
  unfolding any_undiscovered keep_discovered finish
  check_discovery d dnsclass w =
      let written =
        with_discovered dnsclass (shared dnsclass.status.discovered_fields d.discovered) in
      if any_undiscovered d.undiscovered (extract_template_keys_regex dnsclass)
      then (
        record { error = some (new_error d.message); message = d.message; class = written },
        failed_event written w,
      )
      else finish (keep_discovered d.discovered written) w

  abbrev discovered : DnsClass → Discovery × World → Outcome Error × World
  discovered dnsclass (d, w) = check_discovery d dnsclass w

  -- From `statusMessage := …` on, up to the deferred call.
  unfoldable pub reconcile_class : DnsClass → World → Outcome Error × World
  unfolding check_discovery finish
  reconcile_class dnsclass w =
      if text_eq dnsclass.spec.dns_policy dns_none
      then discovered dnsclass
          (discover_fields cluster config (fields_or_new dnsclass.status.discovered_fields) w)
      else finish dnsclass w

  abbrev pub with_initial_state : DnsClass → DnsClass
  with_initial_state dnsclass = record dnsclass {
    status = record (dnsclass.status) {
      state =
          if text_eq dnsclass.status.state (codes "") then state_init else dnsclass.status.state;
    };
  }

  -- The deferred call, whose own error is only logged.
  unfoldable pub deferred : Outcome Error × World → Option Error × World
  deferred (outcome, w) =
      let (failure, w') = update_status cluster outcome.error outcome.message outcome.class w in
      (outcome.error, w')

  -- Behind `r.Get`.
  unfoldable pub reconcile_found : Result Error DnsClass × World → Option Error × World
  unfolding deferred reconcile_class
  reconcile_found (err e, w) = (if is_not_found e then none else some e, w)
  reconcile_found (ok dnsclass, w) =
      deferred (reconcile_class (with_initial_state dnsclass) (started dnsclass w))

  -- `Reconcile` on a request for a name and a namespace.
  unfoldable pub reconcile : Text → Text → World → Option Error × World
  unfolding reconcile_found
  reconcile name namespace w = reconcile_found (get name namespace w)
