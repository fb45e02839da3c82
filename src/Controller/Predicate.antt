-- ===== src/Controller/Predicate.antt =====
-- The event filter of internal/controller/dnsclass_controller.go.
use kubedns_shepherd.Base.{Bool, true, false, not, ◌==◌}
use kubedns_shepherd.Api.{DnsClass}

unfoldable pub create_event : DnsClass → Bool
create_event new = true

unfoldable pub update_event : DnsClass → DnsClass → Bool
update_event old new = not (new.generation == old.generation)

unfoldable pub delete_event : DnsClass → Bool
delete_event old = false
