-- ===== src/Loadgen.antt =====
-- docs/dns-demo/loadgen/main.go: the load generator of the demo, which counts the DNS messages that
-- pass its connections.
pub mod Wire
pub mod Tracker
pub mod Snapshot
pub mod Workers
pub mod Program
pub mod Dial
