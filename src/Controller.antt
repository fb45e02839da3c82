-- ===== src/Controller.antt =====
-- internal/controller/dnsclass_controller.go: the reconciler of DNSClass. What it calls outside of
-- the repository is the record `Cluster` of the child `Cluster`, with a world that each call may
-- change. The log lines are left out, and so is `ctrl.Result`, which is empty on every path.
pub mod Cluster
pub mod Discovery
pub mod Status
pub mod Reconcile
pub mod Predicate
