-- ===== src/System.antt =====
-- The life of one DNSClass. The API server lets it pass the webhooks of
-- internal/webhook/v1alpha1/dnsclass_webhook.go, and the controller of
-- internal/controller/dnsclass_controller.go has a cache of it that follows behind. The changes of the
-- cache pass its event filter; it reads the class from the cache, reconciles what it has read, and
-- later writes the status to whatever is stored by then. These happen in any order; each step is made
-- of calls of the program's functions.
pub mod Written
pub mod Serving
pub mod Pending
pub mod Tracked
pub mod Settled
pub mod Quiet
pub mod Drain
pub mod Rest
pub mod Patched
use kubedns_shepherd.Base.{
  ℕ, Bool, true, false, not, ◌||◌, List, [], ◌∷◌, ◌++◌, Option, none, some, Text, codes, ok, ◌≡◌,
  refl,
}
use kubedns_shepherd.Api.{DnsClass, DnsClassSpec, DnsClassStatus}
use kubedns_shepherd.Webhook.{default, validate_create, validate_update}
use kubedns_shepherd.Controller.Cluster.{Cluster, RestConfig}
use kubedns_shepherd.Controller.Predicate.{create_event, update_event, delete_event}
use kubedns_shepherd.Controller.Status.{class_to_write, update_status, write_status}
use kubedns_shepherd.Controller.Reconcile.{
  started, reconcile_class, with_initial_state, deferred, reconcile_found, reconcile,
}

-- The class that is stored, the class that the controller's cache holds, the versions between the
-- two from the oldest on, the spec that the status was computed from, the class that a reconciliation
-- in progress has read, whether the controller's queue holds the name of the class, and whether the
-- last reconciliation returned no error although its status was not written.
pub record State : Type 0 where
  pub stored : Option DnsClass
  pub cached : Option DnsClass
  pub pending : List (Option DnsClass)
  pub observed : Option DnsClassSpec
  pub reading : Option DnsClass
  pub queued : Bool
  pub lost : Bool

abbrev pub initial : State
initial = record {
  stored = none;
  cached = none;
  pending = [];
  observed = none;
  reading = none;
  queued = false;
  lost = false;
}

-- Whether a change of the cache puts the name into the queue.
abbrev pub event : Option DnsClass → Option DnsClass → Bool
event none none = false
event none (some new) = create_event new
event (some old) (some new) = update_event old new
event (some old) none = delete_event old

-- The API server drops the status of a class that is created, and keeps it on an update; it also
-- sets the generation.
abbrev pub empty_status : DnsClassStatus
empty_status = record { conditions = []; state = codes ""; discovered_fields = none }

abbrev pub created : DnsClass → DnsClass
created c = record (default c) { generation = 1; status = empty_status }

abbrev pub updated : DnsClass → DnsClass → ℕ → DnsClass
updated old new generation = record (default new) { generation = generation; status = old.status }

abbrev pub is_some : {A : Type 0} → Option A → Bool
is_some none = false
is_some (some x) = true

module _ (cluster : Cluster) (config : RestConfig) where
  open cluster use {World, get}

  -- The class that a reconciliation of `c` hands to `writeStatus`.
  unfoldable pub reconciled : DnsClass → World → DnsClass
  unfolding reconcile_class class_to_write
  reconciled c w =
      let (outcome, w') =
        reconcile_class cluster config (with_initial_state cluster config c)
          (started cluster config c w) in
      (class_to_write cluster outcome.error outcome.message outcome.class w').0

  -- Whether it returns an error, for which the controller puts the name back into its queue.
  unfoldable pub fails : DnsClass → World → Bool
  unfolding reconcile_class
  fails c w =
      is_some
        (reconcile_class cluster config (with_initial_state cluster config c)
          (started cluster config c w)).0.error

  -- `record dc { status = … }`, what `writeStatus` makes of the class that is stored by then.
  abbrev pub written : DnsClass → DnsClass → World → DnsClass
  written c dc w = record dc { status = (reconciled c w).status }

  pub data Step (s : State) : State → Type 0 where
    create :
        (c : DnsClass)
        → s.stored ≡ none
        → validate_create (default c) ≡ none
        → Step s (record s {
          stored = some (created c);
          pending = s.pending ++ (some (created c) ∷ []);
          observed = none;
        })
    -- A generation that stays the same belongs to a spec that stays the same.
    update :
        (old new : DnsClass) (generation : ℕ)
        → s.stored ≡ some old
        → validate_update old (default new) ≡ none
        → (generation ≡ old.generation → (default new).spec ≡ old.spec)
        → Step s (record s {
          stored = some (updated old new generation);
          pending = s.pending ++ (some (updated old new generation) ∷ []);
        })
    delete :
        (c : DnsClass)
        → s.stored ≡ some c
        → Step s (record s { stored = none; pending = s.pending ++ (none ∷ []); observed = none })
    -- The cache takes over the next version.
    sync :
        (v : Option DnsClass) (vs : List (Option DnsClass))
        → s.pending ≡ v ∷ vs
        → Step s (record s { cached = v; pending = vs; queued = event s.cached v || s.queued })
    -- A worker takes the name from the queue; of a name, no two are at work at once.
    read :
        s.queued ≡ true
        → s.reading ≡ none
        → Step s (record s { reading = s.cached; queued = false; lost = false })
    -- The class is read again from the cache, and the API server accepts no version but the latest.
    write :
        (c dc : DnsClass) (w : World)
        → s.reading ≡ some c
        → s.cached ≡ some dc
        → s.stored ≡ some dc
        → s.pending ≡ []
        → Step s (record s {
          stored = some (written c dc w);
          pending = some (written c dc w) ∷ [];
          observed = some c.spec;
          reading = none;
          queued = fails c w || s.queued;
          lost = false;
        })
    -- The writing fails, which is only logged.
    lose :
        (c : DnsClass) (w : World)
        → s.reading ≡ some c
        → Step s
            (record s { reading = none; queued = fails c w || s.queued; lost = not (fails c w) })
    -- The controller starts again, and is told of the class as of a new one.
    restart :
        Step s (record s {
          cached = s.stored;
          pending = [];
          reading = none;
          queued = true;
          lost = false;
        })

  -- What any number of steps leads to.
  pub data Reachable : State → Type 0 where
    start : Reachable initial
    step : {s t : State} → Reachable s → Step s t → Reachable t

  -- `Reconcile` on a class that is read ends with the writing of the class above, and returns an
  -- error exactly if `fails` says so.
  pub reconcile-reconciled :
      (name namespace : Text) (w w₁ : World) (c : DnsClass)
      → get name namespace w ≡ (ok c, w₁)
      → (is_some (reconcile cluster config name namespace w).0 ≡ fails c w₁)
        × (w' : World) × ((reconcile cluster config name namespace w).1
            ≡ (write_status cluster (reconciled c w₁) w').1)
  unfolding reconcile reconcile_found deferred update_status reconciled fails
  reconcile-reconciled name namespace w w₁ c got = rw (got, reconcile_found) (refl, _, refl)
