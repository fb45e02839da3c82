-- ===== src/Controller/Status/Reports.antt =====
-- `updateStatus`: the state and the conditions that are written.
use kubedns_shepherd.Base.{
  Option, none, some, Text, text_eq_iff, text_eq-false, subst, ◌≡◌, ◌≢◌, refl,
}
use kubedns_shepherd.Api.{Condition, DnsClass, DnsClassStatus, state_init, state_ready, state_error}
use kubedns_shepherd.Controller.Cluster.{Cluster, Documented, find_condition}
use kubedns_shepherd.Controller.Status.{
  condition_true, condition_unknown, reason_start, reason_error, reason_completed, update_status,
  write_status, class_to_write, next_condition, with_condition, with_state,
}

-- The status has a condition of the type, with these fields.
pub record HasCondition (s : DnsClassStatus) (type status message reason : Text) : Type 0 where
  pub condition : Condition
  pub found : find_condition type s.conditions ≡ some condition
  pub type_is : condition.type ≡ type
  pub status_is : condition.status ≡ status
  pub message_is : condition.message ≡ message
  pub reason_is : condition.reason ≡ reason

-- The class `c'` is `c` but for its state and the condition of one type, which is as given.
pub record Reported (c c' : DnsClass) (state type status message reason : Text) : Type 0 where
  pub only_status : c' ≡ record c { status = c'.status }
  pub discovered : c'.status.discovered_fields ≡ c.status.discovered_fields
  pub state_is : c'.status.state ≡ state
  pub has : HasCondition c'.status type status message reason
  pub others :
      (t : Text)
      → t ≢ type
      → find_condition t c'.status.conditions ≡ find_condition t c.status.conditions

module _ (cluster : Cluster) (documented : Documented cluster) where
  open cluster use {World, Error, error_text}

  -- What is written for an error, for a class that is ready, and for any other class.
  abbrev pub Reports : DnsClass → Option Error → Text → DnsClass → Type 0
  Reports c (some e) message c' =
      Reported c c' state_error state_error condition_true (error_text e) reason_error
  Reports c none message c' =
      (c.status.state ≡ state_ready
        → Reported c c' state_ready state_ready condition_true message reason_completed)
      × (c.status.state ≢ state_ready
          → Reported c c' c.status.state state_init condition_unknown message reason_start)

  with_condition-Reported :
      (c : DnsClass) (state : Text) (d : Condition)
      → Reported c
          (with_condition cluster (with_state cluster c state) d)
          state
          d.type
          d.status
          d.message
          d.reason
  with_condition-Reported c state d =
      let (e, found, same) = documented.set_self c.status.conditions d in
      record {
        only_status = refl;
        discovered = refl;
        state_is = refl;
        has = record {
          condition = e;
          found = found;
          type_is = same.type;
          status_is = same.status;
          message_is = same.message;
          reason_is = same.reason;
        };
        others = λ t h. documented.set_other c.status.conditions d t h;
      }

  pub class_to_write-Reports :
      (e : Option Error) (message : Text) (c : DnsClass) (w : World)
      → Reports c e message (class_to_write cluster e message c w).0
  unfolding class_to_write
  class_to_write-Reports (some e) message c w = with_condition-Reported c state_error _
  class_to_write-Reports none message c w =
      let next = next_condition cluster message c.status.state w in
      (
        λ ready.
            subst
              (λ s.
                Reported c (with_condition cluster c next.0) s state_ready condition_true message
                  reason_completed)
              ready (rw ((text_eq_iff _ _).1 ready) (with_condition-Reported c c.status.state _)),
        λ other. rw (text_eq-false _ _ other) (with_condition-Reported c c.status.state _),
      )

  -- `updateStatus` writes one class: after an error with the state `error` and a condition `error`
  -- that holds the error's text, for a ready class with a condition `ready` that holds the message,
  -- and for any other class with its state and a condition `initializing`. Only the state and that
  -- condition change.
  pub update_status-Reports :
      (e : Option Error) (message : Text) (c : DnsClass) (w : World)
      → (c' : DnsClass) × (w' : World) × (update_status cluster e message c w
          ≡ write_status cluster c' w')
        × Reports c e message c'
  unfolding update_status
  update_status-Reports e message c w =
      let r = class_to_write cluster e message c w in
      (r.0, r.1, refl, class_to_write-Reports e message c w)
