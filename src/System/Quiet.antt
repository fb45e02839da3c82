-- ===== src/System/Quiet.antt =====
-- The controller on its own: no status that it writes makes it reconcile again, so that it comes to
-- rest.
use kubedns_shepherd.Base.{
  ℕ, suc, ◌+◌, ◌*◌, ◌≤◌, Bool, true, false, ◌||◌, List, [], ◌∷◌, Option, none, some, length, ◌≡◌,
  arith,
}
use kubedns_shepherd.Api.{DnsClass}
use kubedns_shepherd.Controller.Cluster.{Cluster, RestConfig}
use kubedns_shepherd.Controller.Predicate.{update_event}
use kubedns_shepherd.System.{
  State, event, fails, written, Step, create, update, delete, sync, read, write, lose, restart,
  Reachable, step,
}

abbrev pub of_queue : Bool → ℕ
of_queue true = 3
of_queue false = 0

abbrev pub of_reading : Option DnsClass → ℕ
of_reading none = 0
of_reading (some c) = 2

-- A version that the cache has to take over, and, if that is an event, the reconciliation after it.
abbrev pub of_change : Bool → ℕ
of_change true = 4
of_change false = 1

abbrev pub of_pending : Option DnsClass → List (Option DnsClass) → ℕ
of_pending v [] = 0
of_pending v (x ∷ xs) = of_change (event v x) + of_pending x xs

of_reading-le : (o : Option DnsClass) → of_reading o ≤ 2
of_reading-le none = omega arith
of_reading-le (some c) = omega arith

of_queue-le : (b : Bool) → of_queue b ≤ 3
of_queue-le true = omega arith
of_queue-le false = omega arith

of_change-le : (b : Bool) → of_change b ≤ 4
of_change-le true = omega arith
of_change-le false = omega arith

of_pending-le :
    (v : Option DnsClass) (xs : List (Option DnsClass)) → of_pending v xs ≤ 4 * length xs
of_pending-le v [] = omega arith
of_pending-le v (x ∷ xs) = omega (arith, of_change-le (event v x), of_pending-le x xs)

-- A change that the cache takes over costs more than what it puts into the queue.
of_change-lt : (e q : Bool) → suc (of_queue (e || q)) ≤ of_change e + of_queue q
of_change-lt true true = omega arith
of_change-lt true false = omega arith
of_change-lt false q = omega arith

module _ (cluster : Cluster) (config : RestConfig) where
  open cluster use {World}

  -- What the controller and its cache do on their own, with nothing that fails.
  abbrev pub IsOwn : {s t : State} → Step cluster config s t → Type 0
  IsOwn (sync v vs next) = Unit
  IsOwn (read queued idle) = Unit
  IsOwn (write c dc w reading known held last) = fails cluster config c w ≡ false
  IsOwn (create c absent accepted) = ⊥
  IsOwn (update old new generation held accepted counted) = ⊥
  IsOwn (delete c held) = ⊥
  IsOwn (lose c w reading) = ⊥
  IsOwn restart = ⊥

  -- So many own steps, one after the other.
  pub data OwnSteps (s : State) : ℕ → State → Type 0 where
    rest : OwnSteps s 0 s
    next :
        {n : ℕ} {t u : State}
        → OwnSteps s n t
        → (e : Step cluster config t u) → IsOwn e
        → OwnSteps s (suc n) u

  pub OwnSteps-Reachable :
      {s t : State} {n : ℕ}
      → Reachable cluster config s
      → OwnSteps s n t
      → Reachable cluster config t
  OwnSteps-Reachable r rest = r
  OwnSteps-Reachable r (next q e own) = step (OwnSteps-Reachable r q) e

  -- The writing of a status is no event for the controller.
  pub written_quiet :
      (c dc : DnsClass) (w : World) → update_event dc (written cluster config c dc w) ≡ false
  unfolding update_event
  written_quiet c dc w = ground arith

  abbrev pub budget : State → ℕ
  budget s = of_pending s.cached s.pending + of_queue s.queued + of_reading s.reading

  budget-lt : {s t : State} (e : Step cluster config s t) → IsOwn e → suc (budget t) ≤ budget s
  budget-lt {s} (sync v vs following) own =
      rw following (omega (arith, of_change-lt (event s.cached v) s.queued))
  budget-lt {s} (read queued idle) own = rw (queued, idle) (omega (arith, of_reading-le s.cached))
  budget-lt {s} (write c dc w reading known held last) own =
      rw (own, known, last, written_quiet c dc w, reading) (omega arith)
  budget-lt (create c absent accepted) own = absurd own
  budget-lt (update old new generation held accepted counted) own = absurd own
  budget-lt (delete c held) own = absurd own
  budget-lt (lose c w reading) own = absurd own
  budget-lt restart own = absurd own

  OwnSteps-budget : {s t : State} {n : ℕ} → OwnSteps s n t → n + budget t ≤ budget s
  OwnSteps-budget rest = omega arith
  OwnSteps-budget (next q e own) = omega (arith, OwnSteps-budget q, budget-lt e own)

  -- From every state, a row of the steps that the controller and its cache take on their own, with
  -- nothing that fails, has at most four steps for each version that the cache is behind by, and
  -- five more: each version that is an event counts four and each other one, a name in the queue
  -- three and a reconciliation in progress two, and every step takes at least one away. So no status
  -- that the controller writes makes it reconcile again.
  pub OwnSteps-bounded :
      {s t : State} {n : ℕ}
      → OwnSteps s n t
      → (n + budget t ≤ budget s) × (n ≤ 4 * length s.pending + 5)
  OwnSteps-bounded {s} {t} {n} q = (
    OwnSteps-budget q,
    omega (
      arith,
      OwnSteps-budget q,
      of_pending-le s.cached s.pending,
      of_queue-le s.queued,
      of_reading-le s.reading,
    ),
  )
