-- ===== src/Controller/Status.antt =====
-- `updateStatus` and `writeStatus` of internal/controller/dnsclass_controller.go.
pub mod Written
pub mod Reports
use kubedns_shepherd.Base.{
  ℕ, Bool, true, false, Option, none, some, Text, codes, text_eq, Result, ok, err, if◌then◌else◌,
}
use kubedns_shepherd.Api.{Condition, DnsClass, DnsClassStatus, state_init, state_ready, state_error}
use kubedns_shepherd.Controller.Cluster.{Cluster}

abbrev pub condition_true : Text
condition_true = codes "True"

abbrev pub condition_unknown : Text
condition_unknown = codes "Unknown"

abbrev pub reason_start : Text
reason_start = codes "ReconcileStart"

abbrev pub reason_error : Text
reason_error = codes "ReconcileError"

abbrev pub reason_completed : Text
reason_completed = codes "ReconcileCompleted"

module _ (cluster : Cluster) where
  open cluster use {
    World, Error, error_text, wrap, is_not_found, get, update, retry_on_conflict, now,
    set_status_condition,
  }

  -- The class that is written back: the one just read, with the new status.
  unfoldable pub write_back : DnsClass → Result Error DnsClass × World → Option Error × World
  write_back dnsclass (err e, w) = (some e, w)
  write_back dnsclass (ok dc, w) = update (record dc { status = dnsclass.status }) w

  -- The function that `writeStatus` hands to `RetryOnConflict`.
  unfoldable pub attempt : DnsClass → World → Option Error × World
  unfolding write_back
  attempt dnsclass w = write_back dnsclass (get dnsclass.name dnsclass.namespace w)

  -- `apierrors.IsNotFound(err)`, false for nil, and `errors.Wrap`, nil for nil.
  abbrev wrap_unless_not_found : Option Error × World → Option Error × World
  wrap_unless_not_found (none, w) = (none, w)
  wrap_unless_not_found (some e, w) =
      (if is_not_found e then none else some (wrap e (codes "update status")), w)

  -- `writeStatus`
  unfoldable pub write_status : DnsClass → World → Option Error × World
  unfolding attempt
  write_status dnsclass w = wrap_unless_not_found (retry_on_conflict (attempt dnsclass) w)

  abbrev with_condition : DnsClass → Condition → DnsClass
  with_condition dnsclass condition = record dnsclass {
    status = record (dnsclass.status) {
      conditions = set_status_condition dnsclass.status.conditions condition;
    };
  }

  abbrev with_state : DnsClass → Text → DnsClass
  with_state dnsclass state = record dnsclass {
    status = record (dnsclass.status) { state = state };
  }

  -- The condition for no error, and the world behind the readings of the time, which is read for
  -- each condition that is built.
  unfoldable pub next_condition : Text → Text → World → Condition × World
  next_condition message state w =
      let (t₀, w₀) = now w in
      let (t, w₁) = now w₀ in
      let start : Condition = record {
        type = state_init;
        status = condition_unknown;
        message = message;
        reason = reason_start;
        last_transition_time = t₀;
      } in
      let completed : Condition = record {
        type = state_ready;
        status = condition_true;
        message = message;
        reason = reason_completed;
        last_transition_time = t;
      } in
      if text_eq state state_ready then (completed, w₁) else (start, w₀)

  -- The class that `updateStatus` hands to `writeStatus`.
  unfoldable pub class_to_write : Option Error → Text → DnsClass → World → DnsClass × World
  unfolding next_condition
  class_to_write (some r_err) message dnsclass w =
      let (t₀, w₀) = now w in
      let (t, w₁) = now w₀ in
      let condition : Condition = record {
        type = state_error;
        status = condition_true;
        message = error_text r_err;
        reason = reason_error;
        last_transition_time = t;
      } in
      (with_condition (with_state dnsclass state_error) condition, w₁)
  class_to_write none message dnsclass w =
      let (condition, w') = next_condition message dnsclass.status.state w in
      (with_condition dnsclass condition, w')

  -- `updateStatus`
  unfoldable pub update_status : Option Error → Text → DnsClass → World → Option Error × World
  unfolding write_status class_to_write
  update_status r_err message dnsclass w =
      let (dnsclass', w') = class_to_write r_err message dnsclass w in write_status dnsclass' w'
